-- ===== src/Reorder/Bounds.antt =====
-- How many packets the buffer of the reorder window can hold.
use open_audio.Common.{ℕ, zero, suc, ◌+◌, ◌^◌, ◌<◌, ◌≤◌, ◌≡◌, refl, ap, arith}
use native.Mathlib.Nat.{le_refl}
use open_audio.Common.{
  false, Option, Option-cases, inl, inr, none, some, List, [], ◌∷◌, length, wrapping_add, ltb,
}
use open_audio.Common.Bytes.{IsU32}
use open_audio.Common.SortedMap.{
  SortedMap, lookup, insert, remove, IsSorted, remove-IsSorted, insert-IsSorted, length-remove,
  length-remove-le, length-insert_absent, length-remove_present,
}
use open_audio.Protocol.Parse.{ParsedPacket}
use open_audio.Reorder.{
  Window, Held, spill, drain, advance, push, push_at, skip_gap, flush_from, flush_at, nearest,
  flush_expired_gap,
}
use open_audio.Reorder.Run.{Keyed, Ahead, remove-Keyed, insert-Keyed, insert-Ahead}

Ahead-pred :
    (e c : ℕ) (m : SortedMap Held)
    → IsU32 e
    → suc c < 2 ^ 32
    → Keyed m
    → Ahead e (suc c) m
    → Ahead e c (remove (wrapping_add e (suc c)) m)
Ahead-pred e c [] he hc s a = tt
Ahead-pred e c ((k, v) ∷ m) he hc (same, small, s) (near, a) =
    let ih = Ahead-pred e c m he hc s a in ground (arith, ih)

remove_only : (e : ℕ) (m : SortedMap Held) → IsU32 e → Keyed m → Ahead e 0 m → remove e m ≡ []
remove_only e [] he s a = refl
remove_only e ((k, v) ∷ m) he (same, small, s) (near, a) = ground (arith, remove_only e m he s a)

-- There are `c + 1` sequence numbers that are at most `c` ahead.
length-Ahead :
    (c e : ℕ) (m : SortedMap Held)
    → IsU32 e
    → c < 2 ^ 32
    → IsSorted m
    → Keyed m
    → Ahead e c m
    → length m ≤ c + 1
length-Ahead zero e m he hc s keyed a =
    omega (arith, length-remove e m s, ap length (remove_only e m he keyed a))
length-Ahead (suc c) e m he hc s keyed a =
    let k = wrapping_add e (suc c) in
    omega (
      arith,
      length-remove k m s,
      length-Ahead c e (remove k m) he (omega arith) (remove-IsSorted k m s)
          (remove-Keyed k m keyed) (Ahead-pred e c m he hc keyed a),
    )

abbrev numbered : ℕ → Held
numbered e = (
  record {
    sub_stream_index = 0;
    stream_id = 0;
    sequence_number = e;
    presentation_timestamp_ns = 0;
    channel_count = 0;
    sample_format = 0;
    sample_rate = 0;
    samples_per_channel = 0;
    payload_offset = 0;
  },
  [],
)

-- Without the expected packet itself the buffer holds no more than `c`.
pub length_window :
    (c e : ℕ) (m : SortedMap Held)
    → IsU32 e
    → c < 2 ^ 32
    → IsSorted m
    → Keyed m
    → Ahead e c m
    → lookup e m ≡ none
    → length m ≤ c
length_window c e m he hc s keyed a absent = omega (
  arith,
  length-insert_absent e (numbered e) m absent,
  length-Ahead c e (insert e (numbered e) m) he hc (insert-IsSorted e (numbered e) m s)
      (insert-Keyed e (numbered e) m refl he keyed)
      (insert-Ahead e c e (numbered e) m (omega arith) a),
)

-- Nothing is spilled while the buffer is within the capacity.
pub spill_within :
    (fuel capacity next : ℕ) (m : SortedMap Held)
    → length m ≤ capacity
    → spill fuel capacity m next ≡ ([], m, next)
unfolding spill
spill_within zero capacity next m h = refl
spill_within (suc fuel) capacity next [] h = refl
spill_within (suc fuel) capacity next ((k, v) ∷ m) h =
    rw (let e : ltb capacity (suc (length m)) ≡ false = ground arith in e)

-- With as much fuel as packets, the loop leaves no more than the capacity.
length-spill :
    (fuel capacity next : ℕ) (m : SortedMap Held)
    → IsSorted m
    → length m ≤ fuel
    → length (spill fuel capacity m next).1 ≤ capacity
unfolding spill
length-spill zero capacity next [] s h = omega arith
length-spill zero capacity next ((k, v) ∷ m) s h = absurd (omega arith)
length-spill (suc fuel) capacity next [] s h = omega arith
length-spill (suc fuel) capacity next ((k, v) ∷ m) s h =
    let m' = remove k ((k, v) ∷ m) in
    ground (
      arith,
      length-spill fuel capacity (wrapping_add k 1) m' (remove-IsSorted k ((k, v) ∷ m) s)
          (omega (arith, length-remove_present k ((k, v) ∷ m) {v = v} s (ground arith))),
    )

spill-IsSorted :
    (fuel capacity next : ℕ) (m : SortedMap Held)
    → IsSorted m
    → IsSorted (spill fuel capacity m next).1
unfolding spill
spill-IsSorted zero capacity next m s = s
spill-IsSorted (suc fuel) capacity next [] s = tt
spill-IsSorted (suc fuel) capacity next ((k, v) ∷ m) s = ground (
  arith,
  spill-IsSorted fuel capacity (wrapping_add k 1) (remove k ((k, v) ∷ m))
      (remove-IsSorted k ((k, v) ∷ m) s),
)

drain_shrinks :
    (fuel next : ℕ) (m : SortedMap Held)
    → IsSorted m
    → (length (drain fuel m next).1 ≤ length m) × IsSorted (drain fuel m next).1
unfolding drain
drain_shrinks zero next m s = (le_refl _, s)
drain_shrinks (suc fuel) next m s = elim (Option-cases (lookup next m)) [
  | inl e ↦ rw (e, drain) (le_refl _, s)
  | inr (v, e) ↦
      let (less, sorted) =
        drain_shrinks fuel (wrapping_add next 1) (remove next m) (remove-IsSorted next m s) in
      rw (e, drain) (omega (arith, length-remove_present next m s e), sorted)
]

-- The buffer is sorted and holds no more packets than the capacity.
pub record IsBounded (w : Window) : Type 0 where
  pub sorted : IsSorted w.buffer
  pub within : length w.buffer ≤ w.capacity

advance-IsBounded : (w : Window) (now seq : ℕ) → IsBounded w → IsBounded (advance w now seq).1
unfolding advance
advance-IsBounded w now seq b =
    let (less, sorted) =
      drain_shrinks (suc (length w.buffer)) (wrapping_add seq 1) w.buffer b.sorted in
    record { sorted = sorted; within = omega arith }

push_at-IsBounded :
    (w : Window) (now : ℕ) (expected : Option ℕ) (p : ParsedPacket) (pcm : List ℕ)
    → IsBounded w
    → IsBounded (push_at w now expected (p, pcm)).1
push_at-IsBounded w now none p pcm b = record { sorted = b.sorted; within = b.within }
push_at-IsBounded w now (some expected) p pcm b =
    let grown = insert p.sequence_number (p, pcm) w.buffer in
    let grown_sorted = insert-IsSorted p.sequence_number (p, pcm) w.buffer b.sorted in
    let fits = length-spill (length grown) w.capacity expected grown grown_sorted (le_refl _) in
    let sorted = spill-IsSorted (length grown) w.capacity expected grown grown_sorted in
    let after = advance-IsBounded w now p.sequence_number b in
    ground (arith, b, fits, sorted, after)

-- `push` keeps the buffer sorted and within the capacity, whatever packet arrives and whatever
-- the buffer holds.
pub push-IsBounded :
    (w : Window) (now : ℕ) (p : ParsedPacket) (pcm : List ℕ)
    → IsBounded w
    → IsBounded (push w now p pcm).1
unfolding push
push-IsBounded w now p pcm b = push_at-IsBounded w now w.next_expected_seq p pcm b

skip_gap-IsBounded :
    (w : Window) (now : ℕ) (found : Option (ℕ × ℕ))
    → IsBounded w
    → IsBounded (skip_gap w now found).1
skip_gap-IsBounded w now none b = record { sorted = tt; within = omega arith }
skip_gap-IsBounded w now (some (missing, sequence)) b =
    let less = length-remove-le sequence w.buffer in
    let after =
      advance-IsBounded (record w { buffer = remove sequence w.buffer }) now sequence
        (record { sorted = remove-IsSorted sequence w.buffer b.sorted; within = omega arith }) in
    ground (arith, b, after)

flush_from-IsBounded :
    (w : Window) (now : ℕ) (expected : Option ℕ)
    → IsBounded w
    → IsBounded (flush_from w now expected).1
flush_from-IsBounded w now none b = record { sorted = tt; within = omega arith }
flush_from-IsBounded w now (some expected) b =
    skip_gap-IsBounded w now (nearest expected w.buffer) b

flush_at-IsBounded :
    (w : Window) (now : ℕ) (started : Option ℕ) → IsBounded w → IsBounded (flush_at w now started).1
flush_at-IsBounded w now none b = b
flush_at-IsBounded w now (some started) b =
    ground (arith, b, flush_from-IsBounded w now w.next_expected_seq b)

-- `flush_expired_gap` keeps the buffer sorted and within the capacity, on every branch.
pub flush-IsBounded : (w : Window) (now : ℕ) → IsBounded w → IsBounded (flush_expired_gap w now).1
unfolding flush_expired_gap
flush-IsBounded w now b = flush_at-IsBounded w now w.gap_started b
