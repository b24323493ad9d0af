-- ===== src/Reorder/Run.antt =====
-- The drain loop of the reorder window delivers a run of consecutive packets.
use mathlib.Core.Path.{ap₂}
use open_audio.Common.{ℕ, zero, suc, ◌+◌, ◌%◌, ◌^◌, ◌<◌, ◌≤◌, ◌≡◌, refl, arith}
use open_audio.Common.{none, some, List, [], ◌∷◌, length, wrapping_add, wrapping_sub}
use open_audio.Common.{inl, inr, Option-cases}
use open_audio.Common.Bytes.{IsU32}
use open_audio.Common.SortedMap.{
  SortedMap, lookup, insert, remove, IsSorted, remove-IsSorted, length-remove_present,
}
use open_audio.Reorder.{
  ReceiveEvent, packet, format_changed, dropped, disconnected, reconnected, Held, deliver, drain,
}

-- The sequence numbers of the packets that are delivered, in order.
abbrev pub sequences : List ReceiveEvent → List ℕ
sequences [] = []
sequences (packet p pcm ∷ events) = p.sequence_number ∷ sequences events
sequences (format_changed c r ∷ events) = sequences events
sequences (dropped n ∷ events) = sequences events
sequences (disconnected ∷ events) = sequences events
sequences (reconnected ∷ events) = sequences events

-- `n` sequence numbers from `next` on, with wrap-around.
abbrev pub run : ℕ → ℕ → List ℕ
run next zero = []
run next (suc n) = next ∷ run (wrapping_add next 1) n

-- Every packet is held under its own sequence number.
abbrev pub Keyed : SortedMap Held → Type 0
Keyed [] = Unit {0}
Keyed ((k, h) ∷ m) = (h.0.sequence_number ≡ k) × IsU32 k × Keyed m

-- Every key is at most `c` ahead of `e`.
abbrev pub Ahead : ℕ → ℕ → SortedMap Held → Type 0
Ahead e c [] = Unit {0}
Ahead e c ((k, h) ∷ m) = (wrapping_sub k e ≤ c) × Ahead e c m

lookup-Keyed :
    (k : ℕ) (m : SortedMap Held) {h : Held}
    → Keyed m
    → lookup k m ≡ some h
    → h.0.sequence_number ≡ k
lookup-Keyed k [] s e = cc
lookup-Keyed k ((j, v) ∷ m) {h} (same, small, s) e = ground (arith, lookup-Keyed k m {h = h} s)

pub remove-Keyed : (k : ℕ) (m : SortedMap Held) → Keyed m → Keyed (remove k m)
remove-Keyed k [] s = tt
remove-Keyed k ((j, v) ∷ m) (same, small, s) = ground (arith, remove-Keyed k m s)

pub insert-Keyed :
    (k : ℕ) (h : Held) (m : SortedMap Held)
    → h.0.sequence_number ≡ k
    → IsU32 k
    → Keyed m
    → Keyed (insert k h m)
insert-Keyed k h [] same small s = (same, small, tt)
insert-Keyed k h ((j, v) ∷ m) same small (same', small', s) =
    ground (arith, insert-Keyed k h m same small s)

pub insert-Ahead :
    (e c k : ℕ) (h : Held) (m : SortedMap Held)
    → wrapping_sub k e ≤ c
    → Ahead e c m
    → Ahead e c (insert k h m)
insert-Ahead e c k h [] near a = (near, tt)
insert-Ahead e c k h ((j, v) ∷ m) near (near', a) = ground (arith, insert-Ahead e c k h m near a)

-- Past the expected packet every distance is one less.
pub Ahead-next :
    (e c : ℕ) (m : SortedMap Held)
    → IsU32 e
    → c < 2 ^ 32
    → Keyed m
    → Ahead e c m
    → Ahead (wrapping_add e 1) c (remove e m)
Ahead-next e c [] he hc s a = tt
Ahead-next e c ((k, v) ∷ m) he hc (same, small, s) (near, a) =
    let ih = Ahead-next e c m he hc s a in ground (arith, ih)

-- The state of the loop after it has run, from the state before it.
pub record Drained (next c : ℕ) (m : SortedMap Held) (events : List ReceiveEvent)
    (rest : SortedMap Held) (last : ℕ) : Type 0 where
  pub consecutive : sequences events ≡ run next (length events)
  pub next_after : last ≡ (next + length events) % 2 ^ 32
  pub sorted : IsSorted rest
  pub keyed : Keyed rest
  pub ahead : Ahead last c rest
  pub all_kept : length events + length rest ≡ length m
  pub stopped : lookup last rest ≡ none

drain_found :
    (fuel next : ℕ) (m : SortedMap Held) {h : Held}
    → lookup next m ≡ some h
    → drain (suc fuel) m next ≡ (
      deliver h ∷ (drain fuel (remove next m) (wrapping_add next 1)).0,
      (drain fuel (remove next m) (wrapping_add next 1)).1,
      (drain fuel (remove next m) (wrapping_add next 1)).2,
    )
unfolding drain
drain_found fuel next m h = rw (h, drain)

drain_stopped :
    (fuel next : ℕ) (m : SortedMap Held)
    → lookup next m ≡ none
    → drain (suc fuel) m next ≡ ([], m, next)
unfolding drain
drain_stopped fuel next m h = rw (h, drain)

abbrev pub DrainedBy : ℕ → ℕ → SortedMap Held → List ReceiveEvent × SortedMap Held × ℕ → Type 0
DrainedBy next c m out = Drained next c m out.0 out.1 out.2

Drained-cons :
    (next c : ℕ) (m : SortedMap Held) (h : Held) (out : List ReceiveEvent × SortedMap Held × ℕ)
    → IsU32 next
    → IsSorted m
    → Keyed m
    → lookup next m ≡ some h
    → DrainedBy (wrapping_add next 1) c (remove next m) out
    → DrainedBy next c m (deliver h ∷ out.0, out.1, out.2)
Drained-cons next c m h out small s keyed e d = record {
  consecutive = ap₂ ◌∷◌ (lookup-Keyed next m {h = h} keyed e) d.consecutive;
  next_after = omega (arith, d.next_after);
  sorted = d.sorted;
  keyed = d.keyed;
  ahead = d.ahead;
  all_kept = omega (arith, d.all_kept, length-remove_present next m s e);
  stopped = d.stopped;
}

-- With one more round of fuel than packets in the buffer the loop delivers a run from the expected
-- number on, keeps all other packets, and stops because the next number is not in the buffer.
pub drain-Drained :
    (fuel next c : ℕ) (m : SortedMap Held)
    → IsU32 next
    → c < 2 ^ 32
    → IsSorted m
    → Keyed m
    → Ahead next c m
    → length m < fuel
    → DrainedBy next c m (drain fuel m next)
drain-Drained zero next c m small hc s keyed a h = absurd (omega arith)
drain-Drained (suc fuel) next c m small hc s keyed a h = elim (Option-cases (lookup next m)) [
  | inl e ↦ rw (drain_stopped fuel next m e) (record {
    consecutive = refl;
    next_after = omega arith;
    sorted = s;
    keyed = keyed;
    ahead = a;
    all_kept = omega arith;
    stopped = e;
  })
  | inr (held, e) ↦ rw (drain_found fuel next m e) (
      Drained-cons next c m held (drain fuel (remove next m) (wrapping_add next 1)) small s keyed e
        (drain-Drained fuel (wrapping_add next 1) c (remove next m) (omega arith) hc
          (remove-IsSorted next m s) (remove-Keyed next m keyed)
          (Ahead-next next c m small hc keyed a) (omega (arith, length-remove_present next m s e))))
]
