-- ===== src/Protocol.antt =====
-- crates/network-core/src/protocol.rs: the constants, the two headers, the sample rate codes and
-- the frame budget. The children `Encode` and `Parse` are the audio packets.
pub mod Encode
pub mod Parse
pub mod FecPacket
pub mod NackPacket
pub mod Budget
pub mod Kinds
pub mod AudioRoundTrip
pub mod OpusRoundTrip
pub mod ControlRoundTrip
mod Tests
use open_audio.Common.{ℕ, ◌*◌, ◌/◌, min, Bool, ◌&&◌, leb, ◌==◌, if◌then◌else◌, Option, none, some}
use open_audio.Common.{List, [], ◌∷◌, ◌++◌, length, slice, get_or, checked_mul, checked_sub}
use open_audio.Common.Bytes.{u16_to_be_bytes, u32_to_be_bytes, u64_to_be_bytes, bytes_eq}
use open_audio.Common.Outcome.{Result, ok, err, ◌>>=◌, ◌>>◌, refuse_if, ok_or}

-- The bytes of "OAv1".
abbrev pub magic : List ℕ
magic = b'O' ∷ b'A' ∷ b'v' ∷ b'1' ∷ []

abbrev pub version : ℕ
version = 1

abbrev pub packet_type_audio : ℕ
packet_type_audio = 0x01

abbrev pub packet_type_fec : ℕ
packet_type_fec = 0x02

abbrev pub packet_type_nack : ℕ
packet_type_nack = 0x03

abbrev pub packet_type_audio_encrypted : ℕ
packet_type_audio_encrypted = 0x04

abbrev pub max_safe_udp_payload_bytes : ℕ
max_safe_udp_payload_bytes = 1_200

abbrev pub openaudio_header_bytes : ℕ
openaudio_header_bytes = 32

abbrev pub fec_header_bytes : ℕ
fec_header_bytes = 36

abbrev pub sample_format_float32 : ℕ
sample_format_float32 = 0x03

abbrev pub sample_format_opus : ℕ
sample_format_opus = 0x10

abbrev pub sample_format_flac : ℕ
sample_format_flac = 0x11

-- The messages of the `Err` values, with the values that they show.
pub data Error : Type 0 where
  zero_channels frame_size_overflow budget_too_small frame_too_big : Error
  unsupported_channel_count unsupported_sample_rate : ℕ → Error
  incomplete_frames : Error
  too_many_frames : ℕ → ℕ → Error
  payload_size_overflow packet_size_overflow empty_opus_payload : Error

abbrev pub max_u16 : ℕ
max_u16 = 65535

unfoldable pub max_float32_frames_per_packet : ℕ → Result Error ℕ
max_float32_frames_per_packet channel_count = do
  refuse_if (channel_count == 0) zero_channels
  bytes_per_frame ← ok_or (checked_mul channel_count 4) frame_size_overflow
  audio_budget ←
      ok_or (checked_sub max_safe_udp_payload_bytes openaudio_header_bytes) budget_too_small
  let frames = min (audio_budget / bytes_per_frame) max_u16
  refuse_if (frames == 0) frame_too_big
  ok frames

pub record PacketHeader : Type 0 where
  pub sub_stream_index : ℕ
  pub stream_id : ℕ
  pub sequence_number : ℕ
  pub presentation_timestamp_ns : ℕ

-- The 24 bytes of the header, in the order of the buffer's ranges.
unfoldable pub to_bytes_with_type : PacketHeader → ℕ → List ℕ
to_bytes_with_type h packet_type =
    magic
    ++ (version ∷ packet_type ∷ [])
    ++ u16_to_be_bytes h.sub_stream_index
    ++ u32_to_be_bytes h.stream_id
    ++ u32_to_be_bytes h.sequence_number
    ++ u64_to_be_bytes h.presentation_timestamp_ns

unfoldable pub to_bytes : PacketHeader → List ℕ
unfolding to_bytes_with_type
to_bytes h = to_bytes_with_type h packet_type_audio

pub record AudioPayloadHeader : Type 0 where
  pub channel_count : ℕ
  pub sample_format : ℕ
  pub sample_rate_code : ℕ
  pub samples_per_channel : ℕ

-- The last two bytes of the buffer are not written.
unfoldable pub audio_to_bytes : AudioPayloadHeader → List ℕ
audio_to_bytes a =
    (a.channel_count ∷ a.sample_format ∷ [])
    ++ u16_to_be_bytes a.sample_rate_code
    ++ u16_to_be_bytes a.samples_per_channel
    ++ (0 ∷ 0 ∷ [])

-- The table of codes. 0 stands for a rate that has none.
unfoldable pub sample_rate_to_code : ℕ → ℕ
sample_rate_to_code rate =
    if rate == 48000
    then 0x01
    else if rate == 44100
    then 0x02
    else if rate == 88200
    then 0x03
    else if rate == 96000
    then 0x04
    else if rate == 176400
    then 0x05
    else if rate == 192000
    then 0x06
    else if rate == 8000
    then 0x07
    else if rate == 16000
    then 0x08
    else if rate == 24000
    then 0x09
    else if rate == 32000
    then 0x0A
    else 0

-- 0 stands for a code that is not in the table.
unfoldable pub code_to_sample_rate : ℕ → ℕ
code_to_sample_rate code =
    if code == 0x01
    then 48000
    else if code == 0x02
    then 44100
    else if code == 0x03
    then 88200
    else if code == 0x04
    then 96000
    else if code == 0x05
    then 176400
    else if code == 0x06
    then 192000
    else if code == 0x07
    then 8000
    else if code == 0x08
    then 16000
    else if code == 0x09
    then 24000
    else if code == 0x0A
    then 32000
    else 0

-- The names of the formats, as the error of the receiver shows them.
pub data FormatName : Type 0 where
  float32_pcm opus flac : FormatName

unfoldable pub sample_format_name : ℕ → Option FormatName
sample_format_name sample_format =
    if sample_format == sample_format_float32
    then some float32_pcm
    else if sample_format == sample_format_opus
    then some opus
    else if sample_format == sample_format_flac
    then some flac
    else none

-- `&buf[0..4] == b"OAv1" && buf[4] == 1 && buf[5] == packet_type`, where the caller has tested
-- that the buffer has six bytes, so no index is out of range.
abbrev pub has_type : List ℕ → ℕ → Bool
has_type buf packet_type =
    bytes_eq (slice buf 0 4) magic && get_or buf 4 0 == version && get_or buf 5 0 == packet_type

unfoldable pub peek_packet_type : List ℕ → Option ℕ
peek_packet_type buf =
    if leb 6 (length buf) && bytes_eq (slice buf 0 4) magic && get_or buf 4 0 == version
    then some (get_or buf 5 0)
    else none
