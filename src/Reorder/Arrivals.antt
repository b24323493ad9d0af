-- ===== src/Reorder/Arrivals.antt =====
-- Whole sequences of arrivals at the reorder window, and packets left behind by a jump.
use mathlib.Core.Path.{ap₂, subst}
use open_audio.Common.{ℕ, zero, suc, ◌+◌, ◌%◌, ◌^◌, ◌<◌, ◌≤◌, ◌≡◌, ◌≢◌, refl, ap, sym, ◌∙◌, arith}
use open_audio.Common.{Option, none, some, List, [], ◌∷◌, ◌++◌, length, length-append}
use open_audio.Common.{true, false, ltb, ne_==, wrapping_add, wrapping_sub}
use open_audio.Common.Bytes.{IsU32}
use open_audio.Common.SortedMap.{
  SortedMap, lookup, insert, remove, Above, length-insert_absent, remove_absent, lookup-Above,
  insert-Above,
}
use open_audio.Protocol.Parse.{ParsedPacket}
use open_audio.Reorder.{
  ReceiveEvent, packet, format_changed, dropped, disconnected, reconnected, deliver, Window, Held,
  push, push_at, hold_early, spill,
}
use open_audio.Reorder.Run.{sequences, run}
use open_audio.Reorder.Bounds.{spill_within}
use open_audio.Reorder.Order.{push_early-hold, InWindow, push-PassesOn}

-- A packet with its samples and the time of its arrival.
pub record Arrival : Type 0 where
  pub time : ℕ
  pub parsed : ParsedPacket
  pub samples : List ℕ

-- The calls of `push` in order: all events, and the window after them.
pub push_each : Window → List Arrival → List ReceiveEvent × Window
push_each w [] = ([], w)
push_each w (a ∷ rest) =
    let (events, w') = push w a.time a.parsed a.samples in
    let (more, w'') = push_each w' rest in (events ++ more, w'')

-- Each packet is new and at most the capacity ahead of the number that is expected when it comes.
abbrev pub ArriveInWindow : Window → ℕ → List Arrival → Type 0
ArriveInWindow w e [] = Unit {0}
ArriveInWindow w e (a ∷ rest) =
    IsU32 a.parsed.sequence_number
    × (wrapping_sub a.parsed.sequence_number e ≤ w.capacity)
    × (lookup a.parsed.sequence_number w.buffer ≡ none)
    × ArriveInWindow (push w a.time a.parsed a.samples).1
        ((e + length (push w a.time a.parsed a.samples).0) % 2 ^ 32) rest

sequences-append : (xs ys : List ReceiveEvent) → sequences (xs ++ ys) ≡ sequences xs ++ sequences ys
sequences-append [] ys = refl
sequences-append (packet p pcm ∷ xs) ys = ap (λ t. p.sequence_number ∷ t) (sequences-append xs ys)
sequences-append (format_changed c r ∷ xs) ys = sequences-append xs ys
sequences-append (dropped n ∷ xs) ys = sequences-append xs ys
sequences-append (disconnected ∷ xs) ys = sequences-append xs ys
sequences-append (reconnected ∷ xs) ys = sequences-append xs ys

run-append : (e m n : ℕ) → IsU32 e → run e (m + n) ≡ run e m ++ run ((e + m) % 2 ^ 32) n
run-append e zero n small = ap₂ run (let h : e ≡ (e + 0) % 2 ^ 32 = omega arith in h) (omega arith)
run-append e (suc m) n small =
    ap (run e) (let h : suc m + n ≡ suc (m + n) = omega arith in h)
    ∙ ap (λ t. e ∷ t)
        (run-append (wrapping_add e 1) m n (omega arith)
          ∙ ap (λ s. run (wrapping_add e 1) m ++ run s n) (omega arith))

-- If every packet arrives in the window, then, in whatever order they come, the packets that are
-- passed on are the consecutive run from the expected number on, no loss is reported, and the
-- packets passed on and the packets held are as many as the packets held before and those that
-- arrived.
pub push_each-PassesOn :
    (w : Window) (e : ℕ) (arrivals : List Arrival)
    → InWindow w e
    → ArriveInWindow w e arrivals
    → let (events, w') = push_each w arrivals in
      (sequences events ≡ run e (length events))
      × InWindow w' ((e + length events) % 2 ^ 32)
      × (length events + length w'.buffer ≡ length w.buffer + length arrivals)
unfolding push_each
push_each-PassesOn w e [] i h =
    let same : e ≡ (e + 0) % 2 ^ 32 = omega (arith, i.small) in
    (refl, subst (InWindow w) same i, omega arith)
push_each-PassesOn w e (a ∷ rest) i (small, near, fresh, h) =
    let out = push w a.time a.parsed a.samples in
    let p = push-PassesOn w e a.time a.parsed a.samples i small near fresh in
    let e' = (e + length out.0) % 2 ^ 32 in
    let (seqs, win, kept) = push_each-PassesOn out.1 e' rest p.in_window h in
    let more = push_each out.1 rest in
    let len = length-append out.0 more.0 in
    let last : (e' + length more.0) % 2 ^ 32 ≡ (e + length (out.0 ++ more.0)) % 2 ^ 32 =
      omega (arith, len) in
    (
      sequences-append out.0 more.0
          ∙ ap₂ ◌++◌ p.consecutive seqs
          ∙ sym (run-append e (length out.0) (length more.0) i.small)
          ∙ ap (run e) (sym len),
      subst (InWindow more.1) last win,
      omega (arith, len, kept, p.all_kept),
    )

insert_behind :
    (o k : ℕ) (v h : Held) (m : SortedMap Held)
    → o < k
    → insert k h ((o, v) ∷ m) ≡ (o, v) ∷ insert k h m
insert_behind o k v h m lt = ground arith

spill_one :
    (fuel capacity next o : ℕ) (held : Held) (m : SortedMap Held)
    → Above o m
    → length m ≡ capacity
    → o ≤ next
    → spill (suc fuel) capacity ((o, held) ∷ m) next ≡ (deliver held ∷ [], m, wrapping_add o 1)
unfolding spill
spill_one fuel capacity next o held m a full behind =
    let over : ltb capacity (suc (length m)) ≡ true = ground arith in
    let no_gap : ltb next o ≡ false = ground arith in
    let gone : remove o ((o, held) ∷ m) ≡ m =
      ground (arith, remove_absent o m, lookup-Above o m a) in
    rw over
      (rw no_gap (rw gone (rw (spill_within fuel capacity (wrapping_add o 1) m (omega arith)))))

-- What the window of `push_stale` says of a call: the held packet passed on, the number after it
-- expected next, and the new packet held in its place.
abbrev pub GoesBack : ℕ → Held → SortedMap Held → Held → List ReceiveEvent × Window → Type 0
GoesBack o held m (p, pcm) out =
    (out.0 ≡ deliver held ∷ [])
    × (out.1.next_expected_seq ≡ some (wrapping_add o 1))
    × (out.1.buffer ≡ insert p.sequence_number (p, pcm) m)

hold_early-GoesBack :
    (w : Window) (e now o : ℕ) (held : Held) (m : SortedMap Held) (p : ParsedPacket) (pcm : List ℕ)
    → w.buffer ≡ (o, held) ∷ m
    → Above o m
    → length m + 1 ≡ w.capacity
    → o ≤ e
    → o < p.sequence_number
    → lookup p.sequence_number m ≡ none
    → GoesBack o held m (p, pcm) (hold_early w now e (p, pcm))
hold_early-GoesBack w e now o held m p pcm b a full behind later fresh =
    let seq = p.sequence_number in
    let m' = insert seq (p, pcm) m in
    let grown : insert seq (p, pcm) w.buffer ≡ (o, held) ∷ m' =
      ap (insert seq (p, pcm)) b ∙ insert_behind o seq held (p, pcm) m later in
    let spilled : spill (length (insert seq (p, pcm) w.buffer)) w.capacity
          (insert seq (p, pcm) w.buffer) e
        ≡ (deliver held ∷ [], m', wrapping_add o 1) =
      rw grown (
        spill_one (length m') w.capacity e o held m' (insert-Above o seq (p, pcm) m later a)
          (omega (arith, length-insert_absent seq (p, pcm) m fresh)) behind) in
    (
      ap (λ (s : List ReceiveEvent × SortedMap Held × ℕ). s.0) spilled,
      ap (λ (s : List ReceiveEvent × SortedMap Held × ℕ). some s.2) spilled,
      ap (λ (s : List ReceiveEvent × SortedMap Held × ℕ). s.1) spilled,
    )

-- The buffer is full and its lowest number `o` is below the expected number `e`, as it is for a
-- packet that was left behind when the window jumped ahead. Then a new packet with a number above
-- `o` that is in the window makes `push` pass on the packet `o`, behind those passed on before,
-- and the window goes back to wait for `o + 1`.
pub push_stale :
    (w : Window) (e now o : ℕ) (held : Held) (m : SortedMap Held) (p : ParsedPacket) (pcm : List ℕ)
    → w.next_expected_seq ≡ some e
    → w.buffer ≡ (o, held) ∷ m
    → Above o m
    → length m + 1 ≡ w.capacity
    → w.capacity ≤ 1_000_000
    → o < e
    → o < p.sequence_number
    → p.sequence_number ≢ e
    → wrapping_sub p.sequence_number e ≤ w.capacity
    → lookup p.sequence_number m ≡ none
    → GoesBack o held m (p, pcm) (push w now p pcm)
unfolding push
push_stale w e now o held m p pcm x b a full small behind later ne near fresh =
    let back = hold_early-GoesBack w e now o held m p pcm b a full (omega arith) later fresh in
    subst (λ (n : Option ℕ). GoesBack o held m (p, pcm) (push_at w now n (p, pcm))) (sym x)
      (rw (ne_== p.sequence_number e ne) (rw (push_early-hold w e now p pcm small near) back))
