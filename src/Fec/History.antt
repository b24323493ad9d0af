-- ===== src/Fec/History.antt =====
-- The history of the decoder: a sorted map that keeps its size under the capacity by dropping the
-- lowest sequence numbers.
use open_audio.Common.{ℕ, zero, suc, ◌-◌, ◌≤◌, ◌≡◌, refl, arith, ◌∙◌, ap, List, [], ◌∷◌}
use native.Mathlib.Nat.{le_refl}
use open_audio.Common.{Bool-cases, inl, inr, false, ltb, length, drop, length-drop}
use open_audio.Common.SortedMap.{
  SortedMap, IsSorted, Above, insert, remove, remove_absent, lookup-Above, insert-IsSorted,
}
use open_audio.Fec.{FecDecoder, evict, record_received}

remove_first : (k : ℕ) (v : List ℕ) (m : SortedMap (List ℕ)) → Above k m → remove k ((k, v) ∷ m) ≡ m
remove_first k v m a = ground (arith, remove_absent k m, lookup-Above k m a)

-- With enough fuel the loop drops exactly the entries that are too many, from the front.
pub evict-drop :
    (fuel capacity : ℕ) (m : SortedMap (List ℕ))
    → IsSorted m
    → length m ≤ fuel
    → evict fuel capacity m ≡ drop (length m - capacity) m
unfolding evict
evict-drop zero capacity [] s h = rw (let e : 0 - capacity ≡ 0 = omega arith in e)
evict-drop zero capacity ((k, v) ∷ m) s h = absurd (omega arith)
evict-drop (suc fuel) capacity [] s h =
    rw (let e : ltb capacity 0 ≡ false = ground arith in e, evict)
      (rw (let e : 0 - capacity ≡ 0 = omega arith in e))
evict-drop (suc fuel) capacity ((k, v) ∷ m) (a, s) h =
    elim (Bool-cases (ltb capacity (suc (length m)))) [
      | inl e ↦
          rw (e, evict, remove_first k v m a)
            (evict-drop fuel capacity m s (omega arith)
              ∙ rw (
                  let e' : suc (length m) - capacity ≡ suc (length m - capacity) = ground arith in
                  e'))
      | inr e ↦ rw (e, evict) (rw (let e' : suc (length m) - capacity ≡ 0 = ground arith in e'))
    ]

drop-IsSorted : (n : ℕ) (m : SortedMap (List ℕ)) → IsSorted m → IsSorted (drop n m)
drop-IsSorted zero m s = s
drop-IsSorted (suc n) [] s = tt
drop-IsSorted (suc n) ((k, v) ∷ m) (a, s) = drop-IsSorted n m s

pub record IsValid (d : FecDecoder) : Type 0 where
  pub sorted : IsSorted d.history
  pub bounded : length d.history ≤ d.history_capacity

record_received-drop :
    (d : FecDecoder) (sequence : ℕ) (payload : List ℕ)
    → IsValid d
    → let grown = insert sequence payload d.history in
      (record_received d sequence payload).history ≡ drop (length grown - d.history_capacity) grown
unfolding record_received
record_received-drop d sequence payload v =
    evict-drop _ d.history_capacity (insert sequence payload d.history)
      (insert-IsSorted sequence payload d.history v.sorted) (le_refl _)

-- Recording a payload keeps the history sorted and within its capacity, whatever the sequence
-- number.
pub record_received-IsValid :
    {d : FecDecoder} (sequence : ℕ) (payload : List ℕ)
    → IsValid d
    → IsValid (record_received d sequence payload)
record_received-IsValid {d} sequence payload v =
    let grown = insert sequence payload d.history in
    let e = record_received-drop d sequence payload v in
    let n = length grown - d.history_capacity in
    record {
      sorted = rw e (drop-IsSorted n grown (insert-IsSorted sequence payload d.history v.sorted));
      bounded = unfold record_received in rw e (omega (arith, length-drop n grown));
    }

insert_first : (k : ℕ) (v : List ℕ) (m : SortedMap (List ℕ)) → Above k m → insert k v m ≡ (k, v) ∷ m
insert_first k v [] a = refl
insert_first k v ((j, w) ∷ m) (lt, a) = ground arith

-- In a full history whose sequence numbers are all above the new one, as after the sequence
-- numbers of a stream have wrapped around, recording changes nothing: the new payload is dropped
-- at once and the old ones stay.
pub record_received_wrapped :
    (d : FecDecoder) (sequence : ℕ) (payload : List ℕ)
    → IsValid d
    → length d.history ≡ d.history_capacity
    → Above sequence d.history
    → record_received d sequence payload ≡ d
unfolding record_received
record_received_wrapped d sequence payload v full a =
    ap (λ (m : SortedMap (List ℕ)). record d { history = m })
      (record_received-drop d sequence payload v
        ∙ rw (insert_first sequence payload d.history a)
            (rw (let e : suc (length d.history) - d.history_capacity ≡ 1 = omega arith in e)))
