-- ===== src/Protocol/Parse.antt =====
-- crates/network-core/src/protocol.rs: the parser of audio packets and the readers of a payload.
use open_audio.Common.{ℕ, Bool, not, ◌&&◌, ◌||◌, ltb, leb, ◌==◌, if◌then◌else◌}
use open_audio.Common.{Option, none, some, List, [], ◌∷◌, length, slice, get_or, drop}
use open_audio.Common.{checked_mul, checked_add}
use open_audio.Common.Bytes.{u16_from_be_bytes, u32_from_be_bytes, u64_from_be_bytes}
use open_audio.Common.Bytes.{f32_from_le_bytes, is_finite}
use open_audio.Common.Try.{◌>>=◌, ◌>>◌, none_if}
use open_audio.Protocol.{
  has_type, packet_type_audio, sample_format_float32, sample_format_opus, sample_format_flac,
  code_to_sample_rate,
}

pub record ParsedPacket : Type 0 where
  pub sub_stream_index : ℕ
  pub stream_id : ℕ
  pub sequence_number : ℕ
  pub presentation_timestamp_ns : ℕ
  pub channel_count : ℕ
  pub sample_format : ℕ
  pub sample_rate : ℕ
  pub samples_per_channel : ℕ
  pub payload_offset : ℕ

abbrev pub known_format : ℕ → Bool
known_format f = f == sample_format_float32 || f == sample_format_opus || f == sample_format_flac

-- The reads of the buffer stand behind the test of its length, so no index is out of range.
parse_fields : List ℕ → Option ParsedPacket
parse_fields buf = do
  sub_stream_index ← u16_from_be_bytes (slice buf 6 8)
  stream_id ← u32_from_be_bytes (slice buf 8 12)
  sequence_number ← u32_from_be_bytes (slice buf 12 16)
  timestamp ← u64_from_be_bytes (slice buf 16 24)
  let channel_count = get_or buf 24 0
  let sample_format = get_or buf 25 0
  none_if (not (known_format sample_format))
  code ← u16_from_be_bytes (slice buf 26 28)
  let sample_rate = code_to_sample_rate code
  samples_per_channel ← u16_from_be_bytes (slice buf 28 30)
  none_if (channel_count == 0 || sample_rate == 0 || samples_per_channel == 0)
  some (record {
    sub_stream_index = sub_stream_index;
    stream_id = stream_id;
    sequence_number = sequence_number;
    presentation_timestamp_ns = timestamp;
    channel_count = channel_count;
    sample_format = sample_format;
    sample_rate = sample_rate;
    samples_per_channel = samples_per_channel;
    payload_offset = 32;
  })

unfoldable pub parse_packet : List ℕ → Option ParsedPacket
unfolding parse_fields
parse_packet buf = do
  none_if (ltb (length buf) 32 || not (has_type buf packet_type_audio))
  parse_fields buf

-- `buf.get(from..to)`
abbrev pub get_range : List ℕ → ℕ → ℕ → Option (List ℕ)
get_range buf from to =
    if leb from to && leb to (length buf) then some (slice buf from to) else none

unfoldable pub float32_payload : List ℕ → ParsedPacket → Option (List ℕ)
float32_payload buf p = do
  none_if (not (p.sample_format == sample_format_float32) || ltb (length buf) p.payload_offset)
  samples ← checked_mul p.samples_per_channel p.channel_count
  payload_len ← checked_mul samples 4
  payload_end ← checked_add p.payload_offset payload_len
  get_range buf p.payload_offset payload_end

unfoldable pub opus_payload : List ℕ → ParsedPacket → Option (List ℕ)
opus_payload buf p = do
  none_if (not (p.sample_format == sample_format_opus) || ltb (length buf) p.payload_offset)
  some (drop p.payload_offset buf)

-- `chunks_exact(4)`, each chunk read as a float and kept if it is finite; one that is not makes
-- the whole result `None`. A rest of fewer than four bytes is left out.
unfoldable pub collect_finite : List ℕ → Option (List ℕ)
collect_finite (a ∷ b ∷ c ∷ d ∷ rest) =
    let tail = collect_finite rest in
    let value = f32_from_le_bytes a b c d in
    if is_finite value then (tail >>= λ t. some (value ∷ t)) else none
collect_finite _ = some []

unfoldable pub decode_float32 : List ℕ → ParsedPacket → Option (List ℕ)
decode_float32 buf p = float32_payload buf p >>= collect_finite
