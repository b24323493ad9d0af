-- ===== src/Reorder/Tests.antt =====
-- crates/network-core/src/receiver.rs: windows of two packets, with and without a gap.
use open_audio.Common.{ℕ, ◌+◌, ◌%◌, ◌^◌, ◌≡◌, refl, arith, none, some, List, [], ◌∷◌, length}
use open_audio.Common.SortedMap.{SortedMap}
use open_audio.Protocol.Parse.{ParsedPacket}
use open_audio.Reorder.{Held, Window, drain, spill, push}
use open_audio.Reorder.Run.{sequences, run, Keyed, Ahead, DrainedBy, drain-Drained}
use open_audio.Reorder.Bounds.{IsBounded, push-IsBounded}
use open_audio.Reorder.Order.{InWindow, PassesOn, push-PassesOn}
use open_audio.Reorder.Arrivals.{
  Arrival, push_each, ArriveInWindow, push_each-PassesOn, GoesBack, push_stale,
}

abbrev numbered : ℕ → ParsedPacket
numbered n = record {
  sub_stream_index = 0;
  stream_id = 7;
  sequence_number = n;
  presentation_timestamp_ns = 0;
  channel_count = 1;
  sample_format = 3;
  sample_rate = 48000;
  samples_per_channel = 1;
  payload_offset = 32;
}

-- The window waits for `e` and holds these packets.
abbrev waiting : ℕ → SortedMap Held → Window
waiting e buffer = record {
  capacity = 2;
  next_expected_seq = some e;
  buffer = buffer;
  gap_started = none;
  gap_timeout = 20_000_000;
}

-- At the wrap-around: 0 is held, and the last number is awaited.
abbrev holds_zero : SortedMap Held
holds_zero = (0, (numbered 0, [])) ∷ []

abbrev last_number : ℕ
last_number = 4294967295

zero-Keyed : Keyed holds_zero
zero-Keyed = (refl, omega arith, tt)

zero-Ahead : Ahead last_number 2 holds_zero
zero-Ahead = (omega arith, tt)

at_wrap-InWindow : InWindow (waiting last_number holds_zero) last_number
at_wrap-InWindow = record {
  expected = refl;
  small = omega arith;
  capacity_small = omega arith;
  sorted = (tt, tt);
  keyed = zero-Keyed;
  ahead = zero-Ahead;
  absent = ground arith;
}

drain-Drained_example : DrainedBy 0 2 holds_zero (drain 2 holds_zero 0)
drain-Drained_example =
    drain-Drained 2 0 2 holds_zero (omega arith) (omega arith) (tt, tt) zero-Keyed (omega arith, tt)
      (omega arith)

push-PassesOn_example :
    PassesOn
      (waiting last_number holds_zero)
      last_number
      (push (waiting last_number holds_zero) 3 (numbered last_number) [])
push-PassesOn_example =
    push-PassesOn (waiting last_number holds_zero) last_number 3 (numbered last_number) []
      at_wrap-InWindow (omega arith) (omega arith) (ground arith)

-- The last number, then 1, which passes everything on.
abbrev arrivals : List Arrival
arrivals =
    record { time = 3; parsed = numbered 1; samples = [] }
    ∷ record { time = 4; parsed = numbered last_number; samples = [] }
    ∷ []

arrivals-ArriveInWindow : ArriveInWindow (waiting last_number holds_zero) last_number arrivals
unfolding push spill drain
arrivals-ArriveInWindow = (omega arith, omega arith, refl, (omega arith, omega arith, refl, tt))

push_each-PassesOn_example :
    let (events, w') = push_each (waiting last_number holds_zero) arrivals in
    (sequences events ≡ run last_number (length events))
    × InWindow w' ((last_number + length events) % 2 ^ 32)
    × (length events + length w'.buffer ≡ 3)
push_each-PassesOn_example =
    push_each-PassesOn (waiting last_number holds_zero) last_number arrivals at_wrap-InWindow
      arrivals-ArriveInWindow

abbrev two_held : SortedMap Held
two_held = (11, (numbered 11, [])) ∷ (12, (numbered 12, [])) ∷ []

two_held-IsBounded : IsBounded (waiting 10 two_held)
two_held-IsBounded = record { sorted = ((omega arith, tt), (tt, tt)); within = omega arith }

push-IsBounded_example : IsBounded (push (waiting 10 two_held) 3 (numbered 13) []).1
push-IsBounded_example = push-IsBounded (waiting 10 two_held) 3 (numbered 13) [] two_held-IsBounded

-- 3 and 12 are held while 10 is awaited, and 11 comes.
push_stale_example :
    GoesBack 3
      (numbered 3, [])
      ((12, (numbered 12, [])) ∷ [])
      (numbered 11, [])
      (push (waiting 10 ((3, (numbered 3, [])) ∷ (12, (numbered 12, [])) ∷ [])) 9 (numbered 11) [])
push_stale_example =
    push_stale (waiting 10 ((3, (numbered 3, [])) ∷ (12, (numbered 12, [])) ∷ [])) 10 9 3
      (numbered 3, []) ((12, (numbered 12, [])) ∷ []) (numbered 11) [] refl refl (omega arith, tt)
      refl (omega arith) (omega arith) (omega arith) (omega arith) (omega arith) (ground arith)
