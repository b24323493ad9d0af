-- ===== src/Patchbay/Sets.antt =====
-- What `is_patched` answers after a change of the matrix.
use open_audio.Common.{
  ◌≡◌, ◌↔◌, refl, sym, ap, ◌∙◌, arith, Bool, true, false, not, ◌&&◌, ◌||◌, Bool-cases, inl, inr,
}
use mathlib.Core.Path.{ap₂}
use open_audio.Common.{if◌then◌else◌, List, [], ◌∷◌}
use open_audio.Patchbay.{
  PatchbayMatrix, Texts, same_key, contains_key, remove_key, insert_key, is_patched, set_patched,
  toggle_patch,
}

-- The test of equality says whether two texts are equal.
pub record IsEquality {T : Type 0} (texts : Texts T) : Type 0 where
  pub correct : (a b : T) → (texts.same a b ≡ true) ↔ (a ≡ b)

module _ {T : Type 0} (texts : Texts T) (law : IsEquality texts) where
  key_eq : (k j : T × T) → same_key texts k j ≡ true → k ≡ j
  key_eq (a, b) (c, d) e =
      let left : texts.same a c ≡ true = ground arith in
      let right : texts.same b d ≡ true = ground arith in
      ap₂ pair ((law.correct a c).0 left) ((law.correct b d).0 right)
    where
      pair : T → T → T × T
      pair x y = (x, y)

  contains-remove :
      (j k : T × T) (ks : List (T × T))
      → contains_key texts j (remove_key texts k ks)
        ≡ (not (same_key texts k j) && contains_key texts j ks)
  contains-remove j k [] = ground arith
  contains-remove j k (i ∷ ks) =
      let left : same_key texts i k ≡ true → same_key texts i j ≡ same_key texts k j =
        λ e. ap (λ x. same_key texts x j) (key_eq i k e) in
      let right : same_key texts k j ≡ true → same_key texts i k ≡ same_key texts i j =
        λ e. ap (λ x. same_key texts i x) (key_eq k j e) in
      elim (Bool-cases (same_key texts i k)) [
        | inl e ↦ rw e (
            contains-remove j k ks ∙ elim (Bool-cases (same_key texts k j)) [
              | inl e' ↦ rw e' refl
              | inr e' ↦ rw (e', left e ∙ e') refl
            ])
        | inr e ↦ rw e (elim (Bool-cases (same_key texts k j)) [
          | inl e' ↦
              let apart : same_key texts i j ≡ false = sym (right e') ∙ e in
              rw (e', apart) (contains-remove j k ks ∙ rw e' refl)
          | inr e' ↦ rw e' (ap (λ c. same_key texts i j || c) (contains-remove j k ks ∙ rw e' refl))
        ])
      ]

  contains-insert :
      (j k : T × T) (ks : List (T × T))
      → contains_key texts j (insert_key texts k ks)
        ≡ (same_key texts k j || contains_key texts j ks)
  contains-insert j k ks =
      let same : same_key texts k j ≡ true → contains_key texts k ks ≡ contains_key texts j ks =
        λ e. ap (λ x. contains_key texts x ks) (key_eq k j e) in
      elim (Bool-cases (contains_key texts k ks)) [
        | inl e ↦ rw e (elim (Bool-cases (same_key texts k j)) [
          | inl e' ↦ rw e' (sym (same e') ∙ e)
          | inr e' ↦ rw e' refl
        ])
        | inr e ↦ rw e refl
      ]

  is_patched-set_patched :
      (m : PatchbayMatrix T) (pub_id rec_id p r : T) (patched : Bool)
      → is_patched texts (set_patched texts m pub_id rec_id patched) p r
        ≡ (if same_key texts (pub_id, rec_id) (p, r) then patched else is_patched texts m p r)
  unfolding is_patched set_patched
  is_patched-set_patched m pub_id rec_id p r true =
      ground (arith, contains-insert (p, r) (pub_id, rec_id) m.active_patches)
  is_patched-set_patched m pub_id rec_id p r false =
      ground (arith, contains-remove (p, r) (pub_id, rec_id) m.active_patches)

  -- Toggling is setting the pair to what it is not, and returns that.
  toggle-set :
      (m : PatchbayMatrix T) (pub_id rec_id : T)
      → toggle_patch texts m pub_id rec_id ≡ (
        not (is_patched texts m pub_id rec_id),
        set_patched texts m pub_id rec_id (not (is_patched texts m pub_id rec_id)),
      )
  unfolding is_patched set_patched toggle_patch
  toggle-set m pub_id rec_id =
      elim (Bool-cases (contains_key texts (pub_id, rec_id) m.active_patches)) [
        | inl e ↦ rw e refl
        | inr e ↦ rw e refl
      ]

  -- After `set_patched` the pair that was named is patched if that was asked, and every other pair
  -- is as it was; `toggle_patch` sets the pair to what it is not, and returns that.
  pub patches_lem :
      (m : PatchbayMatrix T) (pub_id rec_id p r : T) (patched : Bool)
      → (is_patched texts (set_patched texts m pub_id rec_id patched) p r
          ≡ (if same_key texts (pub_id, rec_id) (p, r) then patched else is_patched texts m p r))
        × (toggle_patch texts m pub_id rec_id ≡ (
          not (is_patched texts m pub_id rec_id),
          set_patched texts m pub_id rec_id (not (is_patched texts m pub_id rec_id)),
        ))
  patches_lem m pub_id rec_id p r patched =
      (is_patched-set_patched m pub_id rec_id p r patched, toggle-set m pub_id rec_id)
