-- ===== src/Protocol/Tests.antt =====
-- crates/network-core/src/protocol.rs: one packet of each kind, and budgets at their limits.
use open_audio.Common.{ℕ, ◌+◌, ◌*◌, ◌≡◌, ◌⊎◌, refl, arith}
use open_audio.Common.{none, some, List, [], ◌∷◌, slice, take, All}
use open_audio.Common.Outcome.{ok, err}
use open_audio.Protocol.{
  PacketHeader, incomplete_frames, unsupported_channel_count, unsupported_sample_rate,
  max_float32_frames_per_packet, sample_rate_to_code, peek_packet_type, sample_format_opus,
}
use open_audio.Protocol.Encode.{encode_float32_packet, encode_opus_packet, audio_packet}
use open_audio.Protocol.Parse.{parse_packet, opus_payload, float32_payload}
use open_audio.Protocol.FecPacket.{ParsedFecPacket, parse_fec_packet}
use open_audio.Protocol.NackPacket.{parse_nack_packet}
use open_audio.Protocol.Kinds.{parsers_disjoint}
use open_audio.Protocol.AudioRoundTrip.{
  IsInRange, IsSample, ReadsBack, parsed_as, decode-encode_float32,
}
use open_audio.Protocol.OpusRoundTrip.{opus_payload-encode_opus}
use open_audio.Protocol.ControlRoundTrip.{FecFields, encode_fields, parse-encode_fec}

abbrev header : PacketHeader
header = record {
  sub_stream_index = 0;
  stream_id = 7;
  sequence_number = 4294967295;
  presentation_timestamp_ns = 18446744073709551615;
}

header-IsInRange : IsInRange header
header-IsInRange = record {
  sub_stream = omega arith;
  stream = omega arith;
  sequence = omega arith;
  timestamp = omega arith;
}

-- 1.0 and -1.0, as one frame of two channels.
abbrev frame : List ℕ
frame = 0x3F80_0000 ∷ 0xBF80_0000 ∷ []

frame-All : All IsSample frame
frame-All = ((omega arith, refl), ((omega arith, refl), tt))

abbrev frame_packet : List ℕ
frame_packet = audio_packet header 2 3 1 1 (0 ∷ 0 ∷ 128 ∷ 63 ∷ 0 ∷ 0 ∷ 128 ∷ 191 ∷ [])

frame_encoded : encode_float32_packet header 2 48000 frame ≡ ok frame_packet
unfolding encode_float32_packet max_float32_frames_per_packet sample_rate_to_code
frame_encoded = refl

decode-encode_float32_example :
    (frames : ℕ) × (2 ≡ frames * 2) × ReadsBack header 2 48000 frame frames frame_packet
decode-encode_float32_example =
    decode-encode_float32 header 2 48000 frame frame_packet header-IsInRange frame-All frame_encoded

abbrev opus_packet : List ℕ
opus_packet = audio_packet header 2 sample_format_opus 1 960 (252 ∷ 1 ∷ 2 ∷ [])

opus_encoded : encode_opus_packet header 2 48000 960 (252 ∷ 1 ∷ 2 ∷ []) ≡ ok opus_packet
unfolding encode_opus_packet sample_rate_to_code
opus_encoded = refl

opus_payload-encode_opus_example :
    (parse_packet opus_packet ≡ some (parsed_as header 2 sample_format_opus 48000 960))
    × (opus_payload opus_packet (parsed_as header 2 sample_format_opus 48000 960)
        ≡ some (252 ∷ 1 ∷ 2 ∷ []))
    × (float32_payload opus_packet (parsed_as header 2 sample_format_opus 48000 960) ≡ none)
opus_payload-encode_opus_example =
    opus_payload-encode_opus header 2 48000 960 (252 ∷ 1 ∷ 2 ∷ []) opus_packet header-IsInRange
      (omega arith) (omega arith) opus_encoded

-- An odd number of samples of two channels, no channel, and an unknown rate.
encode_refused :
    (encode_float32_packet header 2 48000 (0 ∷ []) ≡ err incomplete_frames)
    × (encode_float32_packet header 0 48000 frame ≡ err (unsupported_channel_count 0))
    × (encode_float32_packet header 2 11025 frame ≡ err (unsupported_sample_rate 11025))
unfolding encode_float32_packet sample_rate_to_code
encode_refused = (refl, refl, refl)

two_channel_budget : max_float32_frames_per_packet 2 ≡ ok 146
unfolding max_float32_frames_per_packet
two_channel_budget = refl

abbrev rate_441 : ℕ
rate_441 = 44100

parsers_disjoint_example :
    ((peek_packet_type frame_packet ≡ some 1) ⊎ (parse_packet frame_packet ≡ none))
    × ((peek_packet_type frame_packet ≡ some 2) ⊎ (parse_fec_packet frame_packet ≡ none))
    × ((peek_packet_type frame_packet ≡ some 3) ⊎ (parse_nack_packet frame_packet ≡ none))
parsers_disjoint_example = parsers_disjoint frame_packet

abbrev fields : ParsedFecPacket
fields = record {
  stream_id = 7;
  fec_sequence_number = 4294967295;
  presentation_timestamp_ns = 5;
  base_sequence_number = 10;
  packet_count = 2;
  channel_count = 1;
  sample_rate = 48000;
  samples_per_channel = 1;
  payload_offset = 36;
  payload_len = 4;
}

fields-FecFields : FecFields fields
unfolding sample_rate_to_code
fields-FecFields = record {
  stream = omega arith;
  sequence = omega arith;
  timestamp = omega arith;
  base = omega arith;
  frames = omega arith;
  some_packets = omega arith;
  some_channels = omega arith;
  some_frames = omega arith;
  known_rate = ground arith;
}

parse-encode_fec_example :
    (packet : List ℕ) × (encode_fields fields (1 ∷ 2 ∷ 3 ∷ 4 ∷ []) ≡ ok packet)
    × (parse_fec_packet packet ≡ some (record fields { payload_offset = 36; payload_len = 4 }))
    × (slice packet 36 (36 + 4) ≡ take 4 (1 ∷ 2 ∷ 3 ∷ 4 ∷ []))
parse-encode_fec_example = parse-encode_fec fields (1 ∷ 2 ∷ 3 ∷ 4 ∷ []) fields-FecFields
