-- ===== src/Protocol/FecPacket.antt =====
-- crates/network-core/src/protocol.rs: packets that carry the parity of a group of audio packets.
use open_audio.Common.{ℕ, ◌+◌, ◌%◌, ◌^◌, not, ◌||◌, ltb, ◌==◌, if◌then◌else◌}
use open_audio.Common.{Option, some, List, [], ◌∷◌, ◌++◌, length, slice, get_or}
use open_audio.Common.Bytes.{u16_to_be_bytes, u32_to_be_bytes}
use open_audio.Common.Bytes.{u16_from_be_bytes, u32_from_be_bytes, u64_from_be_bytes}
use open_audio.Common.Try.{◌>>=◌, ◌>>◌, none_if}
use open_audio.Common.Outcome.{Result, ok, err}
use open_audio.Protocol.{
  Error, unsupported_sample_rate, PacketHeader, to_bytes_with_type, has_type, packet_type_fec,
  fec_header_bytes, sample_rate_to_code, code_to_sample_rate,
}

pub record ParsedFecPacket : Type 0 where
  pub stream_id : ℕ
  pub fec_sequence_number : ℕ
  pub presentation_timestamp_ns : ℕ
  pub base_sequence_number : ℕ
  pub packet_count : ℕ
  pub channel_count : ℕ
  pub sample_rate : ℕ
  pub samples_per_channel : ℕ
  pub payload_offset : ℕ
  pub payload_len : ℕ

-- The bytes in the order in which they are appended; `parity_payload.len() as u16` keeps the low
-- 16 bits.
unfoldable pub fec_packet : PacketHeader → ℕ → ℕ → ℕ → ℕ → ℕ → List ℕ → List ℕ
unfolding to_bytes_with_type
fec_packet header base count channels code frames parity =
    to_bytes_with_type header packet_type_fec
    ++ u32_to_be_bytes base
    ++ (count ∷ channels ∷ [])
    ++ u16_to_be_bytes code
    ++ u16_to_be_bytes frames
    ++ u16_to_be_bytes (length parity % 2 ^ 16)
    ++ parity

unfoldable pub encode_fec_packet : ℕ → ℕ → ℕ → ℕ → ℕ → ℕ → ℕ → ℕ → List ℕ → Result Error (List ℕ)
encode_fec_packet stream_id fec_seq timestamp base count channels sample_rate frames parity =
    let code = sample_rate_to_code sample_rate in
    let header : PacketHeader = record {
      sub_stream_index = 0;
      stream_id = stream_id;
      sequence_number = fec_seq;
      presentation_timestamp_ns = timestamp;
    } in
    if code == 0
    then err (unsupported_sample_rate sample_rate)
    else ok (fec_packet header base count channels code frames parity)

-- The reads of the buffer stand behind the test of its length.
unfoldable pub parse_fec_packet : List ℕ → Option ParsedFecPacket
parse_fec_packet buf = do
  none_if (ltb (length buf) fec_header_bytes || not (has_type buf packet_type_fec))
  stream_id ← u32_from_be_bytes (slice buf 8 12)
  fec_sequence_number ← u32_from_be_bytes (slice buf 12 16)
  timestamp ← u64_from_be_bytes (slice buf 16 24)
  base ← u32_from_be_bytes (slice buf 24 28)
  let packet_count = get_or buf 28 0
  let channel_count = get_or buf 29 0
  code ← u16_from_be_bytes (slice buf 30 32)
  let sample_rate = code_to_sample_rate code
  frames ← u16_from_be_bytes (slice buf 32 34)
  payload_len ← u16_from_be_bytes (slice buf 34 36)
  none_if (channel_count == 0 || sample_rate == 0 || frames == 0 || packet_count == 0)
  none_if (ltb (length buf) (fec_header_bytes + payload_len))
  some (record {
    stream_id = stream_id;
    fec_sequence_number = fec_sequence_number;
    presentation_timestamp_ns = timestamp;
    base_sequence_number = base;
    packet_count = packet_count;
    channel_count = channel_count;
    sample_rate = sample_rate;
    samples_per_channel = frames;
    payload_offset = fec_header_bytes;
    payload_len = payload_len;
  })
