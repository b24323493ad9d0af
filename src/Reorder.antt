-- ===== src/Reorder.antt =====
-- crates/network-core/src/receiver.rs: `PacketReorderWindow`. It holds packets that came too early
-- and passes them on in the order of their sequence numbers. Times are in nanoseconds.
pub mod Run
pub mod Bounds
pub mod Order
pub mod Arrivals
mod Tests
use open_audio.Common.{
  ℕ, zero, suc, ◌+◌, ◌-◌, ◌%◌, ◌^◌, ◌*◌, Bool, true, false, not, ◌&&◌, ltb, leb, ◌==◌,
}
use open_audio.Common.{if◌then◌else◌, Option, none, some, List, [], ◌∷◌, ◌++◌, length}
use open_audio.Common.{wrapping_add, wrapping_sub}
use open_audio.Common.SortedMap.{SortedMap, lookup, insert, remove, first_key}
use open_audio.Protocol.Parse.{ParsedPacket}

pub data ReceiveEvent : Type 0 where
  packet : ParsedPacket → List ℕ → ReceiveEvent
  format_changed : ℕ → ℕ → ReceiveEvent
  dropped : ℕ → ReceiveEvent
  disconnected reconnected : ReceiveEvent

-- A packet with its samples.
abbrev pub Held : Type 0
Held = ParsedPacket × List ℕ

pub record Window : Type 0 where
  pub capacity : ℕ
  pub next_expected_seq : Option ℕ
  pub buffer : SortedMap Held
  pub gap_started : Option ℕ
  pub gap_timeout : ℕ

-- 20 ms
abbrev pub reorder_gap_timeout : ℕ
reorder_gap_timeout = 20_000_000

abbrev pub new_window : ℕ → Window
new_window capacity = record {
  capacity = capacity;
  next_expected_seq = none;
  buffer = [];
  gap_started = none;
  gap_timeout = reorder_gap_timeout;
}

-- Half of the sequence numbers.
abbrev pub half_range : ℕ
half_range = 0x8000_0000

abbrev pub deliver : Held → ReceiveEvent
deliver (p, pcm) = packet p pcm

-- `while let Some(next) = self.next_expected_seq`: the packets of the buffer that follow on, what
-- is left of it, and the next sequence number. Every round but the last removes a packet, so the
-- number of packets in the buffer and one more round are enough fuel.
pub drain : ℕ → SortedMap Held → ℕ → List ReceiveEvent × SortedMap Held × ℕ
drain zero buffer next = ([], buffer, next)
drain (suc fuel) buffer next = elim (lookup next buffer) [
  | some held ↦
      let (events, rest, last) = drain fuel (remove next buffer) (wrapping_add next 1) in
      (deliver held ∷ events, rest, last)
  | none ↦ ([], buffer, next)
]

abbrev pub is_empty : SortedMap Held → Bool
is_empty [] = true
is_empty (h ∷ m) = false

-- The window after a packet with sequence number `seq` has been passed on and the buffer drained.
pub advance : Window → ℕ → ℕ → List ReceiveEvent × Window
advance w now seq =
    let (events, rest, next) = drain (suc (length w.buffer)) w.buffer (wrapping_add seq 1) in
    (
      events,
      record w {
        next_expected_seq = some next;
        buffer = rest;
        gap_started = if is_empty rest then none else some now;
      },
    )

-- The wrapping distance from `expected` to the nearest packet ahead in the buffer, with its
-- sequence number. Of two at one distance `min_by_key` takes the first.
abbrev pub nearest : ℕ → SortedMap Held → Option (ℕ × ℕ)
nearest expected [] = none
nearest expected ((sequence, h) ∷ m) =
    let rest = nearest expected m in
    let distance = wrapping_sub sequence expected in
    if ltb distance half_range
    then elim rest [
      | some (d, s) ↦ if ltb d distance then some (d, s) else some (distance, sequence)
      | none ↦ some (distance, sequence)
    ]
    else rest

-- The packets of the buffer in the order of their numbers, each after the gap before it, until no
-- more than `capacity` are left: the loop on `self.buffer.len() > self.capacity`, with fuel.
pub spill : ℕ → ℕ → SortedMap Held → ℕ → List ReceiveEvent × SortedMap Held × ℕ
spill zero capacity buffer next = ([], buffer, next)
spill (suc fuel) capacity [] next = ([], [], next)
spill (suc fuel) capacity ((oldest, held) ∷ m) next =
    let gap = if ltb next oldest then dropped (wrapping_sub oldest next) ∷ [] else [] in
    let after = spill fuel capacity (remove oldest ((oldest, held) ∷ m)) (wrapping_add oldest 1) in
    if ltb capacity (length ((oldest, held) ∷ m))
    then (gap ++ deliver held ∷ after.0, after.1, after.2)
    else ([], (oldest, held) ∷ m, next)

-- `get_or_insert_with(Instant::now)`
abbrev pub started_at : Option ℕ → ℕ → Option ℕ
started_at (some t) now = some t
started_at none now = some now

-- A packet ahead of the expected one by no more than the capacity.
abbrev pub hold_early : Window → ℕ → ℕ → Held → List ReceiveEvent × Window
hold_early w now expected (p, pcm) =
    let grown = insert p.sequence_number (p, pcm) w.buffer in
    let (events, rest, next) = spill (length grown) w.capacity grown expected in
    (
      events,
      record w {
        next_expected_seq = some next;
        buffer = rest;
        gap_started = if is_empty rest then none else started_at w.gap_started now;
      },
    )

-- `capacity as u32` keeps the low 32 bits.
abbrev pub push_early : Window → ℕ → ℕ → Held → List ReceiveEvent × Window
push_early w now expected (p, pcm) =
    let seq = p.sequence_number in
    let diff = wrapping_sub seq expected in
    if ltb half_range diff
    then ([], w)
    else if ltb 1_000_000 diff
    then (
      packet p pcm ∷ [],
      record w { next_expected_seq = some (wrapping_add seq 1); buffer = [] },
    )
    else if ltb (w.capacity % 2 ^ 32) diff
    then (
      dropped diff ∷ packet p pcm ∷ [],
      record w { next_expected_seq = some (wrapping_add seq 1) },
    )
    else hold_early w now expected (p, pcm)

-- The expected packet: it and what follows it in the buffer.
abbrev pub push_expected : Window → ℕ → Held → List ReceiveEvent × Window
push_expected w now (p, pcm) =
    let (events, w') = advance w now p.sequence_number in (packet p pcm ∷ events, w')

abbrev pub push_at : Window → ℕ → Option ℕ → Held → List ReceiveEvent × Window
push_at w now none (p, pcm) =
    (packet p pcm ∷ [], record w { next_expected_seq = some (wrapping_add p.sequence_number 1) })
push_at w now (some expected) (p, pcm) =
    if p.sequence_number == expected
    then push_expected w now (p, pcm)
    else push_early w now expected (p, pcm)

-- `PacketReorderWindow::push` at the time `now`.
pub push : Window → ℕ → ParsedPacket → List ℕ → List ReceiveEvent × Window
push w now p pcm = push_at w now w.next_expected_seq (p, pcm)

abbrev pub recover_at : Window → ℕ → Option ℕ → Held → List ReceiveEvent × Window
recover_at w now none (p, pcm) =
    (packet p pcm ∷ [], record w { next_expected_seq = some (wrapping_add p.sequence_number 1) })
recover_at w now (some expected) (p, pcm) =
    let seq = p.sequence_number in
    let diff = wrapping_sub seq expected in
    if seq == expected
    then push_expected w now (p, pcm)
    else if ltb diff half_range && leb diff (w.capacity % 2 ^ 32)
    then ([], record w { buffer = insert seq (p, pcm) w.buffer })
    else ([], w)

-- `PacketReorderWindow::push_recovered`.
pub push_recovered : Window → ℕ → ParsedPacket → List ℕ → List ReceiveEvent × Window
push_recovered w now p pcm = recover_at w now w.next_expected_seq (p, pcm)

abbrev pub abandon : Window → List ReceiveEvent × Window
abandon w = ([], record w { buffer = []; gap_started = none })

-- The nearest packet ahead, after the gap before it, and what follows it. `nearest` names a key of
-- the buffer, so the lookup finds it.
abbrev pub skip_gap : Window → ℕ → Option (ℕ × ℕ) → List ReceiveEvent × Window
skip_gap w now none = abandon w
skip_gap w now (some (missing, sequence)) =
    let gap = if ltb 0 missing then dropped missing ∷ [] else [] in
    let (events, w') = advance (record w { buffer = remove sequence w.buffer }) now sequence in
    elim (lookup sequence w.buffer) [
      | some held ↦ (gap ++ deliver held ∷ events, w')
      | none ↦ (gap, w)
    ]

abbrev pub flush_from : Window → ℕ → Option ℕ → List ReceiveEvent × Window
flush_from w now none = abandon w
flush_from w now (some expected) = skip_gap w now (nearest expected w.buffer)

abbrev pub flush_at : Window → ℕ → Option ℕ → List ReceiveEvent × Window
flush_at w now none = ([], w)
flush_at w now (some started) =
    if ltb (now - started) w.gap_timeout then ([], w) else flush_from w now w.next_expected_seq

-- `PacketReorderWindow::flush_expired_gap` at the time `now`.
pub flush_expired_gap : Window → ℕ → List ReceiveEvent × Window
flush_expired_gap w now = flush_at w now w.gap_started

abbrev pub set_gap_timeout : Window → ℕ → Window
set_gap_timeout w timeout = record w { gap_timeout = timeout }
