-- ===== src/Protocol/AudioRoundTrip.antt =====
-- Audio packets read back: what `parse_packet` and the payload readers make of the encoders' output.
use native.Mathlib.Nat.{div-add-mod'}
use mathlib.Core.Path.{subst}
use open_audio.Common.{
  sym, ap, ◌∙◌, ℕ, ◌+◌, ◌*◌, ◌/◌, ◌%◌, ◌^◌, ◌≤◌, ◌<◌, ◌≡◌, ◌≢◌, refl, true, arith,
}
use open_audio.Common.{some, List, [], ◌∷◌, length, drop, All, take-all}
use open_audio.Common.Outcome.{ok}
use open_audio.Common.Bytes.{IsU16, IsU32, IsU64, is_finite, f32_digits, u16_digits, u32_digits}
use open_audio.Protocol.{
  PacketHeader, max_float32_frames_per_packet, sample_format_float32, sample_rate_to_code,
  code_to_sample_rate,
}
use open_audio.Protocol.Encode.{audio_packet, f32_bytes, encode_float32_packet}
use open_audio.Protocol.Budget.{div_bounds, code-rate, code-rate_ne, sample_rate_to_code-lt}
use open_audio.Protocol.Parse.{
  ParsedPacket, parse_packet, known_format, collect_finite, float32_payload, decode_float32,
}

-- Every field fits its machine integer.
pub record IsInRange (h : PacketHeader) : Type 0 where
  pub sub_stream : IsU16 h.sub_stream_index
  pub stream : IsU32 h.stream_id
  pub sequence : IsU32 h.sequence_number
  pub timestamp : IsU64 h.presentation_timestamp_ns

abbrev pub parsed_as : PacketHeader → ℕ → ℕ → ℕ → ℕ → ParsedPacket
parsed_as h channels format rate frames = record {
  sub_stream_index = h.sub_stream_index;
  stream_id = h.stream_id;
  sequence_number = h.sequence_number;
  presentation_timestamp_ns = h.presentation_timestamp_ns;
  channel_count = channels;
  sample_format = format;
  sample_rate = rate;
  samples_per_channel = frames;
  payload_offset = 32;
}

pub parse-audio_packet :
    (h : PacketHeader) (channels format code frames : ℕ) (payload : List ℕ)
    → IsInRange h
    → known_format format ≡ true
    → IsU16 code
    → IsU16 frames
    → channels ≢ 0
    → frames ≢ 0
    → code_to_sample_rate code ≢ 0
    → parse_packet (audio_packet h channels format code frames payload)
      ≡ some (parsed_as h channels format (code_to_sample_rate code) frames)
unfolding parse_packet audio_packet
parse-audio_packet h channels format code frames payload r known hc hf c0 f0 s0 = ground (
  arith,
  u16_digits h.sub_stream_index,
  u16_digits code,
  u16_digits frames,
  u32_digits h.stream_id,
  u32_digits h.sequence_number,
  u32_digits h.presentation_timestamp_ns,
  u32_digits (h.presentation_timestamp_ns / 2 ^ 32),
)

-- A sample is a bit pattern of a finite float.
abbrev pub IsSample : ℕ → Type 0
IsSample s = IsU32 s × (is_finite s ≡ true)

pub length-f32_bytes : (ss : List ℕ) → length (f32_bytes ss) ≡ length ss * 4
length-f32_bytes [] = refl
length-f32_bytes (s ∷ ss) = omega (arith, length-f32_bytes ss)

collect_finite-f32_bytes : (ss : List ℕ) → All IsSample ss → collect_finite (f32_bytes ss) ≡ some ss
unfolding collect_finite
collect_finite-f32_bytes [] h = refl
collect_finite-f32_bytes (s ∷ ss) ((u, fin), h) =
    rw (f32_digits s u, fin, collect_finite-f32_bytes ss h) refl

pub length-audio_packet :
    (h : PacketHeader) (channels format code frames : ℕ) (payload : List ℕ)
    → length (audio_packet h channels format code frames payload) ≡ length payload + 32
unfolding audio_packet
length-audio_packet h channels format code frames payload = omega arith

pub drop-audio_packet :
    (h : PacketHeader) (channels format code frames : ℕ) (payload : List ℕ)
    → drop 32 (audio_packet h channels format code frames payload) ≡ payload
unfolding audio_packet
drop-audio_packet h channels format code frames payload = refl

-- What a successful Float32 encoding says of its input, and the bytes that it gives.
pub record Float32Encoding (h : PacketHeader) (channels rate : ℕ) (samples packet : List ℕ)
    : Type 0 where
  pub some_channels : 1 ≤ channels
  pub few_channels : channels ≤ 64
  pub known_rate : sample_rate_to_code rate ≢ 0
  pub frames : ℕ
  pub some_frames : 1 ≤ frames
  pub whole_frames : length samples ≡ frames * channels
  pub frames_fit : frames ≤ 1168 / (channels * 4)
  pub bytes :
      packet
      ≡ audio_packet h channels sample_format_float32
          (sample_rate_to_code rate)
          frames
          (f32_bytes samples)

exact_quotient : (n b : ℕ) → 1 ≤ n → n % b ≡ 0 → (n ≡ n / b * b) × (1 ≤ n / b)
exact_quotient n b h e =
    let split : n / b * b ≡ n = omega (arith, div-add-mod' n b) in (sym split, grind (arith, split))

pub encode_float32_complete :
    (h : PacketHeader) (channels rate : ℕ) (samples packet : List ℕ)
    → encode_float32_packet h channels rate samples ≡ ok packet
    → (1 ≤ length samples) × (length samples % channels ≡ 0)
unfolding encode_float32_packet
encode_float32_complete h channels rate samples packet e = ground arith

pub encode_float32-inv :
    (h : PacketHeader) (channels rate : ℕ) (samples packet : List ℕ)
    → encode_float32_packet h channels rate samples ≡ ok packet
    → Float32Encoding h channels rate samples packet
unfolding encode_float32_packet max_float32_frames_per_packet
encode_float32-inv h channels rate samples packet e =
    let (n1, m0) = encode_float32_complete h channels rate samples packet e in
    let (whole, f1) = exact_quotient (length samples) channels n1 m0 in
    record {
      some_channels = ground arith;
      few_channels = ground arith;
      known_rate = ground arith;
      frames = length samples / channels;
      some_frames = f1;
      whole_frames = whole;
      frames_fit = ground arith;
      bytes = ground arith;
    }

pub frame_bytes :
    (frames channels : ℕ)
    → 1 ≤ channels
    → frames ≤ 1168 / (channels * 4)
    → frames * channels * 4 ≤ 1168
frame_bytes frames channels c1 h =
    let (lo, hi) = div_bounds 1168 (channels * 4) (omega arith) in grind (arith, lo)

float32_payload-audio_packet :
    (h : PacketHeader) (channels code rate frames : ℕ) (samples : List ℕ)
    → length samples ≡ frames * channels
    → frames * channels * 4 ≤ 1168
    → float32_payload
        (audio_packet h channels 3 code frames (f32_bytes samples))
        (parsed_as h channels 3 rate frames)
      ≡ some (f32_bytes samples)
unfolding float32_payload
float32_payload-audio_packet h channels code rate frames samples e fits =
    let n = length-f32_bytes samples in
    let m = length-audio_packet h channels 3 code frames (f32_bytes samples) in
    let d = drop-audio_packet h channels 3 code frames (f32_bytes samples) in
    let t = take-all (frames * channels * 4) (f32_bytes samples) (omega (arith, n)) in
    ground (arith, n, m, d, t)

-- What a reader gets back from a packet.
abbrev pub ReadsBack : PacketHeader → ℕ → ℕ → List ℕ → ℕ → List ℕ → Type 0
ReadsBack h channels rate samples frames packet =
    (length packet ≤ 1200)
    × (parse_packet packet ≡ some (parsed_as h channels sample_format_float32 rate frames))
    × (decode_float32 packet (parsed_as h channels sample_format_float32 rate frames)
        ≡ some samples)

pub audio_packet-ReadsBack :
    (h : PacketHeader) (channels rate : ℕ) (samples : List ℕ) (frames : ℕ)
    → IsInRange h
    → All IsSample samples
    → 1 ≤ channels
    → sample_rate_to_code rate ≢ 0
    → 1 ≤ frames
    → length samples ≡ frames * channels
    → frames ≤ 1168 / (channels * 4)
    → ReadsBack h channels rate samples frames
        (audio_packet h channels 3 (sample_rate_to_code rate) frames (f32_bytes samples))
audio_packet-ReadsBack h channels rate samples frames r ss c1 known f1 whole few =
    let code = sample_rate_to_code rate in
    let fits = frame_bytes frames channels c1 few in
    let back = code-rate rate known in
    let small = sample_rate_to_code-lt rate in
    let n = length-f32_bytes samples in
    let m = length-audio_packet h channels 3 code frames (f32_bytes samples) in
    let few16 : frames < 2 ^ 16 = omega (arith, div_bounds 1168 (channels * 4) (omega arith)) in
    (
      omega (arith, n, m),
      parse-audio_packet h channels 3 code frames (f32_bytes samples) r refl (omega arith) few16
            (λ c. omega arith) (λ f. omega arith) (code-rate_ne rate known)
          ∙ ap (λ s. some (parsed_as h channels 3 s frames)) back,
      unfold decode_float32 in
          rw (float32_payload-audio_packet h channels code rate frames samples whole fits)
            (collect_finite-f32_bytes samples ss),
    )

-- A Float32 packet that `encode_float32_packet` returns is at most 1200 bytes long, is parsed to
-- the header and format that were given, with one frame for each group of channels, and decodes
-- to the same samples.
pub decode-encode_float32 :
    (h : PacketHeader) (channels rate : ℕ) (samples packet : List ℕ)
    → IsInRange h
    → All IsSample samples
    → encode_float32_packet h channels rate samples ≡ ok packet
    → (frames : ℕ) × (length samples ≡ frames * channels)
      × ReadsBack h channels rate samples frames packet
decode-encode_float32 h channels rate samples packet r ss e =
    let i = encode_float32-inv h channels rate samples packet e in
    (
      i.frames,
      i.whole_frames,
      subst (ReadsBack h channels rate samples i.frames) (sym i.bytes) (
          audio_packet-ReadsBack h channels rate samples i.frames r ss i.some_channels i.known_rate
            i.some_frames i.whole_frames i.frames_fit),
    )
