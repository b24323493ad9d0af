-- ===== src/Common/SortedMap.antt =====
-- `BTreeMap` with numeric keys: an association list whose keys increase strictly.
use open_audio.Common.{ℕ, ◌+◌, ◌≤◌, ◌<◌, ◌≡◌, refl, inl, inr, Bool-cases, Option-cases}
use open_audio.Common.{Option, none, some, List, [], ◌∷◌, ltb, ◌==◌, if◌then◌else◌, length, arith}

abbrev pub SortedMap {ℓ} : Type ℓ → Type ℓ
SortedMap V = List (ℕ × V)

module _ {ℓ} {V : Type ℓ} where
  -- `get`
  abbrev pub lookup : ℕ → SortedMap V → Option V
  lookup k [] = none
  lookup k ((j, v) ∷ m) = if j == k then some v else lookup k m

  abbrev pub insert : ℕ → V → SortedMap V → SortedMap V
  insert k v [] = (k, v) ∷ []
  insert k v ((j, w) ∷ m) =
      let rest = insert k v m in
      if ltb k j then (k, v) ∷ (j, w) ∷ m else if k == j then (k, v) ∷ m else (j, w) ∷ rest

  abbrev pub remove : ℕ → SortedMap V → SortedMap V
  remove k [] = []
  remove k ((j, v) ∷ m) = let rest = remove k m in if j == k then rest else (j, v) ∷ rest

  -- `keys().next()`
  abbrev pub first_key : SortedMap V → Option ℕ
  first_key [] = none
  first_key ((k, v) ∷ m) = some k

  -- Every key is above `k`.
  abbrev pub Above : ℕ → SortedMap V → Type 0
  Above k [] = Unit {0}
  Above k ((j, v) ∷ m) = (k < j) × Above k m

  abbrev pub IsSorted : SortedMap V → Type 0
  IsSorted [] = Unit {0}
  IsSorted ((k, v) ∷ m) = Above k m × IsSorted m

  pub lookup-insert :
      (j k : ℕ) (v : V) (m : SortedMap V)
      → lookup j (insert k v m) ≡ (if k == j then some v else lookup j m)
  lookup-insert j k v [] = refl
  lookup-insert j k v ((i, w) ∷ m) = ground (arith, lookup-insert j k v m)

  pub lookup-remove :
      (j k : ℕ) (m : SortedMap V) → lookup j (remove k m) ≡ (if k == j then none else lookup j m)
  lookup-remove j k [] = ground arith
  lookup-remove j k ((i, w) ∷ m) = ground (arith, lookup-remove j k m)

  pub Above-trans : (i k : ℕ) (m : SortedMap V) → i < k → Above k m → Above i m
  Above-trans i k [] h a = tt
  Above-trans i k ((j, w) ∷ m) h (p, a) = (omega arith, Above-trans i k m h a)

  pub lookup-Above : (k : ℕ) (m : SortedMap V) → Above k m → lookup k m ≡ none
  lookup-Above k [] a = refl
  lookup-Above k ((j, w) ∷ m) (p, a) = ground (arith, lookup-Above k m a)

  pub insert-Above :
      (i k : ℕ) (v : V) (m : SortedMap V) → i < k → Above i m → Above i (insert k v m)
  insert-Above i k v [] h a = (h, tt)
  insert-Above i k v ((j, w) ∷ m) h (p, a) = ground (arith, insert-Above i k v m h a)

  pub insert-IsSorted : (k : ℕ) (v : V) (m : SortedMap V) → IsSorted m → IsSorted (insert k v m)
  insert-IsSorted k v [] s = (tt, tt)
  insert-IsSorted k v ((j, w) ∷ m) (a, s) =
      ground (arith, insert-IsSorted k v m s, insert-Above j k v m, Above-trans k j m)

  pub remove-Above : (i k : ℕ) (m : SortedMap V) → Above i m → Above i (remove k m)
  remove-Above i k [] a = tt
  remove-Above i k ((j, w) ∷ m) (p, a) = ground (arith, remove-Above i k m a)

  pub remove-IsSorted : (k : ℕ) (m : SortedMap V) → IsSorted m → IsSorted (remove k m)
  remove-IsSorted k [] s = tt
  remove-IsSorted k ((j, w) ∷ m) (a, s) =
      ground (arith, remove-IsSorted k m s, remove-Above j k m a)

  pub remove_absent : (k : ℕ) (m : SortedMap V) → lookup k m ≡ none → remove k m ≡ m
  remove_absent k [] h = refl
  remove_absent k ((j, w) ∷ m) h = ground (arith, remove_absent k m)

  pub length-insert_absent :
      (k : ℕ) (v : V) (m : SortedMap V) → lookup k m ≡ none → length (insert k v m) ≡ length m + 1
  length-insert_absent k v [] h = omega arith
  length-insert_absent k v ((j, w) ∷ m) h = ground (arith, length-insert_absent k v m)

  pub length-insert : (k : ℕ) (v : V) (m : SortedMap V) → length (insert k v m) ≤ length m + 1
  length-insert k v [] = omega arith
  length-insert k v ((j, w) ∷ m) = ground (arith, length-insert k v m)

  pub length-remove_present :
      (k : ℕ) (m : SortedMap V) {v : V}
      → IsSorted m
      → lookup k m ≡ some v
      → length (remove k m) + 1 ≡ length m
  length-remove_present k [] s h = absurd (cc)
  length-remove_present k ((j, w) ∷ m) {v} (a, s) h = elim (Bool-cases (j == k)) [
    | inl e ↦ ground (arith, remove_absent k m, lookup-Above k m)
    | inr e ↦ ground (arith, length-remove_present k m {v = v} s)
  ]

  pub length-remove : (k : ℕ) (m : SortedMap V) → IsSorted m → length m ≤ length (remove k m) + 1
  length-remove k m s = elim (Option-cases (lookup k m)) [
    | inl e ↦ rw (remove_absent k m e) (omega arith)
    | inr (v, e) ↦ omega (arith, length-remove_present k m s e)
  ]

  pub length-remove-le : (k : ℕ) (m : SortedMap V) → length (remove k m) ≤ length m
  length-remove-le k [] = omega arith
  length-remove-le k ((j, w) ∷ m) = ground (arith, length-remove-le k m)
