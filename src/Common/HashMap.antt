-- ===== src/Common/HashMap.antt =====
-- `HashMap`: the entries, one for each key; nothing depends on their order.
use open_audio.Common.{ℕ, ◌≡◌, ◌↔◌, refl, sym, ◌∙◌, ap, Bool, true, false, ◌&&◌, ◌==◌, ==_iff}
use open_audio.Common.{Option, none, some, List, [], ◌∷◌, if◌then◌else◌, arith}

-- `Eq` of the standard library, for keys.
pub record Key {ℓ} (K : Type ℓ) : Type ℓ where
  pub same : K → K → Bool
  pub same_iff : (a b : K) → (same a b ≡ true) ↔ (a ≡ b)

instance abbrev pub nat_key : Key ℕ
nat_key = record { same = ◌==◌; same_iff = ==_iff }

abbrev pub same_text : List ℕ → List ℕ → Bool
same_text [] [] = true
same_text [] (b ∷ bs) = false
same_text (a ∷ t) [] = false
same_text (a ∷ t) (b ∷ bs) = a == b && same_text t bs

pub same_text_refl : (a : List ℕ) → same_text a a ≡ true
same_text_refl [] = refl
same_text_refl (a ∷ t) = ground (arith, same_text_refl t)

same_text_sound : (a b : List ℕ) → same_text a b ≡ true → a ≡ b
same_text_sound [] [] h = refl
same_text_sound [] (b ∷ bs) h = absurd (cc)
same_text_sound (a ∷ t) [] h = absurd (cc)
same_text_sound (a ∷ t) (b ∷ bs) h = ground (arith, same_text_sound t bs)

pub same_text_iff : (a b : List ℕ) → (same_text a b ≡ true) ↔ (a ≡ b)
same_text_iff a b = (same_text_sound a b, λ e. ap (same_text a) (sym e) ∙ same_text_refl a)

instance abbrev pub text_key : Key (List ℕ)
text_key = record { same = same_text; same_iff = same_text_iff }

abbrev pub HashMap {ℓ κ} : Type ℓ → Type κ → Type (ℓ ⊔ κ)
HashMap K V = List (K × V)

abbrev pub kept {κ} : {V : Type κ} → (V → Bool) → Option V → Option V
kept keep none = none
kept keep (some v) = if keep v then some v else none

module _ {ℓ κ} {K : Type ℓ} {V : Type κ} ⦃e : Key K⦄ where
  abbrev pub get : K → HashMap K V → Option V
  get k [] = none
  get k ((j, v) ∷ m) = if e.same j k then some v else get k m

  abbrev pub remove : K → HashMap K V → HashMap K V
  remove k [] = []
  remove k ((j, v) ∷ m) = let rest = remove k m in if e.same j k then rest else (j, v) ∷ rest

  -- In the place of the entry for the key, if there is one.
  abbrev pub insert : K → V → HashMap K V → HashMap K V
  insert k v [] = (k, v) ∷ []
  insert k v ((j, w) ∷ m) =
      let rest = insert k v m in if e.same j k then (k, v) ∷ m else (j, w) ∷ rest

  abbrev pub retain : (V → Bool) → HashMap K V → HashMap K V
  retain keep [] = []
  retain keep ((j, v) ∷ m) = let rest = retain keep m in if keep v then (j, v) ∷ rest else rest

  -- A `HashMap` has no key twice.
  abbrev pub IsUnique : HashMap K V → Type κ
  IsUnique [] = Unit {κ}
  IsUnique ((k, v) ∷ m) = (get k m ≡ none) × IsUnique m

  pub get-insert :
      (j k : K) (v : V) (m : HashMap K V)
      → get j (insert k v m) ≡ (if e.same k j then some v else get j m)
  get-insert j k v [] = refl
  get-insert j k v ((i, w) ∷ m) =
      ground (arith, get-insert j k v m, e.same_iff i k, e.same_iff k j, e.same_iff i j)

  pub get-remove :
      (j k : K) (m : HashMap K V) → get j (remove k m) ≡ (if e.same k j then none else get j m)
  get-remove j k [] = ground arith
  get-remove j k ((i, w) ∷ m) =
      ground (arith, get-remove j k m, e.same_iff i k, e.same_iff k j, e.same_iff i j)

  pub get-retain_absent :
      (keep : V → Bool) (k : K) (m : HashMap K V) → get k m ≡ none → get k (retain keep m) ≡ none
  get-retain_absent keep k [] h = refl
  get-retain_absent keep k ((i, w) ∷ m) h = ground (arith, get-retain_absent keep k m)

  pub get-retain :
      (keep : V → Bool) (k : K) (m : HashMap K V)
      → IsUnique m
      → get k (retain keep m) ≡ kept keep (get k m)
  get-retain keep k [] u = refl
  get-retain keep k ((i, w) ∷ m) (a, u) =
      ground (arith, get-retain keep k m u, get-retain_absent keep k m, e.same_iff i k)

  pub insert-IsUnique : (k : K) (v : V) (m : HashMap K V) → IsUnique m → IsUnique (insert k v m)
  insert-IsUnique k v [] u = (refl, tt)
  insert-IsUnique k v ((i, w) ∷ m) (a, u) =
      ground (arith, insert-IsUnique k v m u, get-insert i k v m, e.same_iff i k, e.same_iff k i)

  pub remove-IsUnique : (k : K) (m : HashMap K V) → IsUnique m → IsUnique (remove k m)
  remove-IsUnique k [] u = tt
  remove-IsUnique k ((i, w) ∷ m) (a, u) = ground (arith, remove-IsUnique k m u, get-remove i k m)

  pub retain-IsUnique : (keep : V → Bool) (m : HashMap K V) → IsUnique m → IsUnique (retain keep m)
  retain-IsUnique keep [] u = tt
  retain-IsUnique keep ((i, w) ∷ m) (a, u) =
      ground (arith, retain-IsUnique keep m u, get-retain_absent keep i m a)
