-- ===== src/Reorder/Order.antt =====
-- While every packet arrives within the window of the expected one, the reorder window passes
-- every packet on, in the order of the sequence numbers, and reports no loss.
use mathlib.Core.Path.{ap₂, subst}
use open_audio.Common.{ℕ, suc, ◌+◌, ◌%◌, ◌^◌, ◌≤◌, ◌≡◌, ◌≢◌, refl, ap, sym, ◌∙◌, arith}
use open_audio.Common.{false, Bool-cases, inl, inr, ==_iff, ==_ne, ne_==, ◌==◌, ltb}
use open_audio.Common.{Option, none, some, List, [], ◌∷◌, length, wrapping_add, wrapping_sub}
use open_audio.Common.Bytes.{IsU32}
use open_audio.Common.SortedMap.{
  lookup, insert, IsSorted, insert-IsSorted, lookup-insert, length-insert_absent, remove_absent,
}
use open_audio.Protocol.Parse.{ParsedPacket}
use open_audio.Reorder.{
  ReceiveEvent, packet, half_range, Window, new_window, flush_expired_gap, drain, advance,
  push_expected, push_early, hold_early, push_at, push,
}
use open_audio.Reorder.Run.{
  sequences, run, Keyed, Ahead, insert-Keyed, insert-Ahead, Ahead-next, drain-Drained,
}
use open_audio.Reorder.Bounds.{length_window, spill_within}

-- The window waits for `e`, and every packet of the buffer is at most the capacity ahead of it.
pub record InWindow (w : Window) (e : ℕ) : Type 0 where
  pub expected : w.next_expected_seq ≡ some e
  pub small : IsU32 e
  pub capacity_small : w.capacity ≤ 1_000_000
  pub sorted : IsSorted w.buffer
  pub keyed : Keyed w.buffer
  pub ahead : Ahead e w.capacity w.buffer
  pub absent : lookup e w.buffer ≡ none

-- A call passes on a run from the expected number on, the window waits for the number after the
-- run, and every other packet is kept.
pub record PassesOn (w : Window) (e : ℕ) (out : List ReceiveEvent × Window) : Type 0 where
  pub consecutive : sequences out.0 ≡ run e (length out.0)
  pub in_window : InWindow out.1 ((e + length out.0) % 2 ^ 32)
  pub all_kept : length out.0 + length out.1.buffer ≡ length w.buffer + 1
  pub same_capacity : out.1.capacity ≡ w.capacity

push_expected-PassesOn :
    (w : Window) (e now : ℕ) (p : ParsedPacket) (pcm : List ℕ)
    → InWindow w e
    → p.sequence_number ≡ e
    → PassesOn w e (push_expected w now (p, pcm))
unfolding advance
push_expected-PassesOn w e now p pcm i same =
    let seq = p.sequence_number in
    let next = wrapping_add seq 1 in
    let shifted : Ahead next w.capacity w.buffer = rw (same) (
      rw (remove_absent e w.buffer i.absent) at
        (Ahead-next e w.capacity w.buffer i.small (omega arith) i.keyed i.ahead)) in
    let out = drain (suc (length w.buffer)) w.buffer next in
    let d =
      drain-Drained (suc (length w.buffer)) next w.capacity w.buffer (omega arith) (omega arith)
        i.sorted i.keyed shifted (omega arith) in
    let last : out.2 ≡ (e + suc (length out.0)) % 2 ^ 32 = omega (arith, d.next_after) in
    record {
      consecutive =
          ap₂ ◌∷◌ same (d.consecutive ∙ ap (λ s. run (wrapping_add s 1) (length out.0)) same);
      in_window = record {
        expected = ap some last;
        small = omega arith;
        capacity_small = i.capacity_small;
        sorted = d.sorted;
        keyed = d.keyed;
        ahead = subst (λ n. Ahead n w.capacity out.1) last d.ahead;
        absent = subst (λ n. lookup n out.1 ≡ none) last d.stopped;
      };
      all_kept = omega (arith, d.all_kept);
      same_capacity = refl;
    }

hold_early-PassesOn :
    (w : Window) (e now : ℕ) (p : ParsedPacket) (pcm : List ℕ)
    → InWindow w e
    → IsU32 p.sequence_number
    → p.sequence_number ≢ e
    → wrapping_sub p.sequence_number e ≤ w.capacity
    → lookup p.sequence_number w.buffer ≡ none
    → PassesOn w e (hold_early w now e (p, pcm))
hold_early-PassesOn w e now p pcm i small ne near fresh =
    let seq = p.sequence_number in
    let grown = insert seq (p, pcm) w.buffer in
    let sorted = insert-IsSorted seq (p, pcm) w.buffer i.sorted in
    let keyed = insert-Keyed seq (p, pcm) w.buffer refl small i.keyed in
    let ahead = insert-Ahead e w.capacity seq (p, pcm) w.buffer near i.ahead in
    let absent : lookup e grown ≡ none =
      lookup-insert e seq (p, pcm) w.buffer ∙ rw (ne_== seq e ne) i.absent in
    let fits = length_window w.capacity e grown i.small (omega arith) sorted keyed ahead absent in
    let same : e ≡ (e + 0) % 2 ^ 32 = omega arith in
    rw (spill_within (length grown) w.capacity e grown fits) (record {
      consecutive = refl;
      in_window = record {
        expected = ap some same;
        small = omega arith;
        capacity_small = i.capacity_small;
        sorted = sorted;
        keyed = keyed;
        ahead = subst (λ n. Ahead n w.capacity grown) same ahead;
        absent = subst (λ n. lookup n grown ≡ none) same absent;
      };
      all_kept = omega (arith, length-insert_absent seq (p, pcm) w.buffer fresh);
      same_capacity = refl;
    })

pub push_early-hold :
    (w : Window) (e now : ℕ) (p : ParsedPacket) (pcm : List ℕ)
    → w.capacity ≤ 1_000_000
    → wrapping_sub p.sequence_number e ≤ w.capacity
    → push_early w now e (p, pcm) ≡ hold_early w now e (p, pcm)
push_early-hold w e now p pcm small near =
    let diff = wrapping_sub p.sequence_number e in
    let not_late : ltb half_range diff ≡ false = ground arith in
    let not_far : ltb 1_000_000 diff ≡ false = ground arith in
    let not_over : ltb (w.capacity % 2 ^ 32) diff ≡ false = ground arith in
    rw not_late (rw not_far (rw not_over))

push_at-PassesOn :
    (w : Window) (e now : ℕ) (p : ParsedPacket) (pcm : List ℕ)
    → InWindow w e
    → IsU32 p.sequence_number
    → wrapping_sub p.sequence_number e ≤ w.capacity
    → lookup p.sequence_number w.buffer ≡ none
    → PassesOn w e (push_at w now (some e) (p, pcm))
push_at-PassesOn w e now p pcm i small near fresh = elim (Bool-cases (p.sequence_number == e)) [
  | inl same ↦
      rw same (push_expected-PassesOn w e now p pcm i ((==_iff p.sequence_number e).0 same))
  | inr other ↦ rw other (
      rw (push_early-hold w e now p pcm i.capacity_small near)
        (hold_early-PassesOn w e now p pcm i small (==_ne p.sequence_number e other) near fresh))
]

-- A packet that is not yet held and arrives at most the capacity ahead of the expected one is
-- passed on or kept: what the call passes on is a run of consecutive packets from the expected
-- number on, with no loss reported, all other packets are kept, and the window waits for the
-- number after the run.
pub push-PassesOn :
    (w : Window) (e now : ℕ) (p : ParsedPacket) (pcm : List ℕ)
    → InWindow w e
    → IsU32 p.sequence_number
    → wrapping_sub p.sequence_number e ≤ w.capacity
    → lookup p.sequence_number w.buffer ≡ none
    → PassesOn w e (push w now p pcm)
unfolding push
push-PassesOn w e now p pcm i small near fresh =
    subst (λ (x : Option ℕ). PassesOn w e (push_at w now x (p, pcm))) (sym i.expected)
      (push_at-PassesOn w e now p pcm i small near fresh)

-- The first packet of a window is passed on, and a window without a gap has nothing to flush.
pub push-new :
    (capacity now : ℕ) (p : ParsedPacket) (pcm : List ℕ)
    → push (new_window capacity) now p pcm ≡ (
      packet p pcm ∷ [],
      record (new_window capacity) { next_expected_seq = some (wrapping_add p.sequence_number 1) },
    )
unfolding push
push-new capacity now p pcm = refl

pub flush-new :
    (capacity now : ℕ) → flush_expired_gap (new_window capacity) now ≡ ([], new_window capacity)
unfolding flush_expired_gap
flush-new capacity now = refl
