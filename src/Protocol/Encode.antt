-- ===== src/Protocol/Encode.antt =====
-- crates/network-core/src/protocol.rs: the encoders of audio packets.
use open_audio.Common.{ℕ, ◌/◌, ◌%◌, ◌^◌, Bool, not, ◌&&◌, ◌||◌, ltb, leb, ◌==◌, List, [], ◌∷◌, ◌++◌}
use open_audio.Common.{length, checked_mul, checked_add}
use open_audio.Common.Bytes.{f32_to_le_bytes}
use open_audio.Common.Outcome.{Result, ok, ◌>>=◌, ◌>>◌, refuse_if, ok_or}
use open_audio.Protocol.{
  Error, unsupported_channel_count, unsupported_sample_rate, incomplete_frames, too_many_frames,
  payload_size_overflow, packet_size_overflow, empty_opus_payload, PacketHeader, to_bytes,
  audio_to_bytes, sample_rate_to_code, max_float32_frames_per_packet, openaudio_header_bytes,
  max_u16, sample_format_float32, sample_format_opus,
}

-- `!(1..=64).contains(&channel_count)`
abbrev pub outside_channels : ℕ → Bool
outside_channels channel_count = not (leb 1 channel_count && leb channel_count 64)

-- The samples in order, four bytes each, lowest first.
abbrev pub f32_bytes : List ℕ → List ℕ
f32_bytes [] = []
f32_bytes (s ∷ ss) = f32_to_le_bytes s ++ f32_bytes ss

-- `interleaved_samples.is_empty() || interleaved_samples.len() % channels != 0`
abbrev pub incomplete : List ℕ → ℕ → Bool
incomplete samples channels = length samples == 0 || not (length samples % channels == 0)

-- The bytes of the two headers and the payload, appended in this order.
unfoldable pub audio_packet : PacketHeader → ℕ → ℕ → ℕ → ℕ → List ℕ → List ℕ
unfolding to_bytes audio_to_bytes
audio_packet header channels format code frames payload =
    to_bytes header
    ++ audio_to_bytes (record {
      channel_count = channels;
      sample_format = format;
      sample_rate_code = code;
      samples_per_channel = frames;
    })
    ++ payload

-- `frames as u16` keeps its value, since `frames > u16::MAX` was refused.
unfoldable pub encode_float32_packet : PacketHeader → ℕ → ℕ → List ℕ → Result Error (List ℕ)
encode_float32_packet header channel_count sample_rate samples = do
  refuse_if (outside_channels channel_count) (unsupported_channel_count channel_count)
  let code = sample_rate_to_code sample_rate
  refuse_if (code == 0) (unsupported_sample_rate sample_rate)
  refuse_if (incomplete samples channel_count) incomplete_frames
  let frames = length samples / channel_count
  max_frames ← max_float32_frames_per_packet channel_count
  refuse_if (ltb max_frames frames || ltb max_u16 frames) (too_many_frames frames max_frames)
  payload_bytes ← ok_or (checked_mul (length samples) 4) payload_size_overflow
  packet_bytes ← ok_or (checked_add openaudio_header_bytes payload_bytes) packet_size_overflow
  ok (
      audio_packet header channel_count sample_format_float32 code (frames % 2 ^ 16)
        (f32_bytes samples))

unfoldable pub encode_opus_packet : PacketHeader → ℕ → ℕ → ℕ → List ℕ → Result Error (List ℕ)
encode_opus_packet header channel_count sample_rate samples_per_channel payload = do
  refuse_if (outside_channels channel_count) (unsupported_channel_count channel_count)
  let code = sample_rate_to_code sample_rate
  refuse_if (code == 0) (unsupported_sample_rate sample_rate)
  refuse_if (length payload == 0) empty_opus_payload
  packet_bytes ← ok_or (checked_add openaudio_header_bytes (length payload)) packet_size_overflow
  ok (audio_packet header channel_count sample_format_opus code samples_per_channel payload)
