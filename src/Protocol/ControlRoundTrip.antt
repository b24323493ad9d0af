-- ===== src/Protocol/ControlRoundTrip.antt =====
-- FEC and NACK packets read back.
use open_audio.Common.{
  ℕ, ◌+◌, ◌%◌, ◌^◌, ◌≡◌, ◌≢◌, refl, arith, some, List, length, slice, take, drop, ◌/◌, ◌-◌,
}
use open_audio.Common.Bytes.{IsU16, IsU32, IsU64, u16_digits, u32_digits}
use open_audio.Common.Outcome.{Result, ok}
use open_audio.Protocol.{PacketHeader, Error, sample_rate_to_code}
use open_audio.Protocol.Budget.{code-rate, code-rate_ne, sample_rate_to_code-lt}
use open_audio.Protocol.FecPacket.{fec_packet, ParsedFecPacket, encode_fec_packet, parse_fec_packet}
use open_audio.Protocol.NackPacket.{encode_nack_packet, parse_nack_packet}

-- The fields of an FEC packet, each in the range of its machine integer and none of them one that
-- the parser refuses.
pub record FecFields (f : ParsedFecPacket) : Type 0 where
  pub stream : IsU32 f.stream_id
  pub sequence : IsU32 f.fec_sequence_number
  pub timestamp : IsU64 f.presentation_timestamp_ns
  pub base : IsU32 f.base_sequence_number
  pub frames : IsU16 f.samples_per_channel
  pub some_packets : f.packet_count ≢ 0
  pub some_channels : f.channel_count ≢ 0
  pub some_frames : f.samples_per_channel ≢ 0
  pub known_rate : sample_rate_to_code f.sample_rate ≢ 0

abbrev pub encode_fields : ParsedFecPacket → List ℕ → Result Error (List ℕ)
encode_fields f parity =
    encode_fec_packet f.stream_id f.fec_sequence_number f.presentation_timestamp_ns
      f.base_sequence_number f.packet_count f.channel_count f.sample_rate f.samples_per_channel
      parity

abbrev fec_header : ParsedFecPacket → PacketHeader
fec_header f = record {
  sub_stream_index = 0;
  stream_id = f.stream_id;
  sequence_number = f.fec_sequence_number;
  presentation_timestamp_ns = f.presentation_timestamp_ns;
}

abbrev fields_packet : ParsedFecPacket → List ℕ → List ℕ
fields_packet f parity =
    fec_packet (fec_header f) f.base_sequence_number f.packet_count f.channel_count
      (sample_rate_to_code f.sample_rate) f.samples_per_channel parity

parse-fec_packet :
    (f : ParsedFecPacket) (parity : List ℕ)
    → FecFields f
    → parse_fec_packet (fields_packet f parity)
      ≡ some (record f { payload_offset = 36; payload_len = length parity % 2 ^ 16 })
unfolding fec_packet parse_fec_packet
parse-fec_packet f parity h = ground (
  arith,
  u32_digits f.stream_id,
  u32_digits f.fec_sequence_number,
  u32_digits f.presentation_timestamp_ns,
  u32_digits (f.presentation_timestamp_ns / 2 ^ 32),
  u32_digits f.base_sequence_number,
  u16_digits f.samples_per_channel,
  u16_digits (sample_rate_to_code f.sample_rate),
  u16_digits (length parity % 2 ^ 16),
  sample_rate_to_code-lt f.sample_rate,
  code-rate f.sample_rate,
  code-rate_ne f.sample_rate,
)

drop-fec_packet :
    (f : ParsedFecPacket) (parity : List ℕ) → drop 36 (fields_packet f parity) ≡ parity
unfolding fec_packet
drop-fec_packet f parity = refl

-- The packet of `f` and a parity payload is parsed to the fields of `f`, with the low 16 bits of
-- the payload's length: for a payload below 65536 bytes the parser's range is the whole payload,
-- and for a longer one a prefix of it.
pub parse-encode_fec :
    (f : ParsedFecPacket) (parity : List ℕ)
    → FecFields f
    → (packet : List ℕ) × (encode_fields f parity ≡ ok packet)
      × (parse_fec_packet packet
          ≡ some (record f { payload_offset = 36; payload_len = length parity % 2 ^ 16 }))
      × (slice packet 36 (36 + length parity % 2 ^ 16) ≡ take (length parity % 2 ^ 16) parity)
unfolding encode_fec_packet
parse-encode_fec f parity h = (
  fields_packet f parity,
  ground arith,
  parse-fec_packet f parity h,
  rw (drop-fec_packet f parity) (
      let e : 36 + length parity % 2 ^ 16 - 36 ≡ length parity % 2 ^ 16 = omega arith in rw e refl),
)

-- A NACK packet of 32 bytes is parsed to the three fields that were given.
pub parse-encode_nack :
    (stream missing count : ℕ)
    → IsU32 stream
    → IsU32 missing
    → IsU16 count
    → (length (encode_nack_packet stream missing count) ≡ 32)
      × (parse_nack_packet (encode_nack_packet stream missing count)
          ≡ some (record {
            stream_id = stream;
            missing_sequence_number = missing;
            missing_count = count;
          }))
unfolding encode_nack_packet parse_nack_packet
parse-encode_nack stream missing count hs hm hc =
    (refl, ground (arith, u32_digits stream, u32_digits missing, u16_digits count))
