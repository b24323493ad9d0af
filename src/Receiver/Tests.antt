-- ===== src/Receiver/Tests.antt =====
-- crates/network-core/src/receiver.rs: a new receiver and its first datagrams.
use open_audio.Common.{ℕ, ◌-◌, ◌^◌, ◌*◌, ◌≡◌, refl, arith, min, inl, none, some, List, [], ◌∷◌}
use open_audio.Common.Outcome.{ok}
use open_audio.Protocol.{
  PacketHeader, sample_format_float32, max_float32_frames_per_packet, sample_rate_to_code,
  code_to_sample_rate,
}
use open_audio.Protocol.Encode.{encode_float32_packet, audio_packet}
use open_audio.Protocol.Parse.{parse_packet}
use open_audio.Protocol.AudioRoundTrip.{IsInRange, parsed_as, parse-audio_packet}
use open_audio.Fec.{FecDecoder}
use open_audio.Reorder.{reconnected}
use open_audio.Receiver.{
  datagram, timed_out, StreamReceiver, new_receiver, receive, poll_next_event,
}
use open_audio.Receiver.Errors.{KeptOnError, receive-KeptOnError, receive_foreign}
use open_audio.Receiver.FirstPacket.{after_first, poll_first_packet}
use open_audio.Receiver.Counters.{Call, next_each, packets_in, dropped_in, counters_exact}

abbrev header : PacketHeader
header = record {
  sub_stream_index = 0;
  stream_id = 7;
  sequence_number = 4294967295;
  presentation_timestamp_ns = 5;
}

header-IsInRange : IsInRange header
header-IsInRange = record {
  sub_stream = omega arith;
  stream = omega arith;
  sequence = omega arith;
  timestamp = omega arith;
}

-- 1.0, one frame of one channel.
abbrev frame : List ℕ
frame = 0x3F80_0000 ∷ []

abbrev buf : List ℕ
buf = audio_packet header 1 3 1 1 (0 ∷ 0 ∷ 128 ∷ 63 ∷ [])

frame_encoded : encode_float32_packet header 1 48000 frame ≡ ok buf
unfolding encode_float32_packet max_float32_frames_per_packet sample_rate_to_code
frame_encoded = refl

-- The jitter is a number here.
abbrev receiver : ℕ → StreamReceiver ℕ
receiver id = new_receiver id 0 0

poll_first_packet_example :
    (frames : ℕ) × (d : FecDecoder) × (1 ≡ frames * 1)
    × (poll_next_event (receiver 7) 20 30 none (datagram buf) ≡ (
      ok (some reconnected),
      after_first (receiver 7) d 30 (parsed_as header 1 sample_format_float32 48000 frames) frame,
    ))
poll_first_packet_example =
    poll_first_packet header 1 48000 frame buf 7 0 20 30 0 none header-IsInRange
      ((omega arith, refl), tt) frame_encoded refl (omega arith)

abbrev calls : List Call
calls =
    record { before = 20; after = 30; custom = none; input = datagram buf }
    ∷ record { before = 40; after = 50; custom = none; input = timed_out }
    ∷ record { before = 60; after = 70; custom = none; input = timed_out }
    ∷ []

-- The jitter estimate keeps the last time between two arrivals.
counters_exact_example :
    let (events, r) = next_each (λ j arrivals timestamps. arrivals) (receiver 7) calls in
    (r.total_packets_received ≡ min (2 ^ 64 - 1) (packets_in events))
    × (r.total_packets_dropped ≡ min (2 ^ 64 - 1) (dropped_in events))
counters_exact_example = counters_exact (λ j arrivals timestamps. arrivals) 7 0 0 calls

-- A packet without its payload, which is an error.
abbrev short : List ℕ
short = audio_packet header 1 3 1 1 []

receive-KeptOnError_example :
    KeptOnError (receiver 7) (receive (receiver 7) 30 none (datagram short))
receive-KeptOnError_example = receive-KeptOnError (receiver 7) 30 none (datagram short)

buf_parsed : parse_packet buf ≡ some (parsed_as header 1 3 48000 1)
unfolding code_to_sample_rate
buf_parsed =
    parse-audio_packet header 1 3 1 1 (0 ∷ 0 ∷ 128 ∷ 63 ∷ []) header-IsInRange refl (omega arith)
      (omega arith) (omega arith) (omega arith) (ground arith)

receive_foreign_example : receive (receiver 8) 30 none (datagram buf) ≡ (ok none, receiver 8)
receive_foreign_example =
    receive_foreign (receiver 8) 30 none buf refl
      (inl (parsed_as header 1 3 48000 1, buf_parsed, omega arith))
