-- ===== src/Protocol/OpusRoundTrip.antt =====
-- When the encoders succeed, and Opus packets read back.
use native.Mathlib.Nat.{div-add-mod'}
use open_audio.Common.{ℕ, ◌+◌, ◌*◌, ◌/◌, ◌%◌, ◌^◌, ◌≤◌, ◌≡◌, ◌≢◌, ◌↔◌, refl, arith, ap, ◌∙◌}
use open_audio.Common.{none, some, List, length}
use open_audio.Common.Bytes.{IsU16}
use open_audio.Common.Outcome.{ok}
use open_audio.Protocol.{
  PacketHeader, sample_format_opus, sample_rate_to_code, max_float32_frames_per_packet,
}
use open_audio.Protocol.Budget.{div_bounds, code-rate, code-rate_ne, sample_rate_to_code-lt}
use open_audio.Protocol.Encode.{f32_bytes, audio_packet, encode_float32_packet, encode_opus_packet}
use open_audio.Protocol.Parse.{parse_packet, opus_payload, float32_payload}
use open_audio.Protocol.AudioRoundTrip.{
  IsInRange, parsed_as, parse-audio_packet, drop-audio_packet, length-audio_packet,
  encode_float32-inv, encode_float32_complete, frame_bytes,
}

le_quotient : (f n b : ℕ) → 1 ≤ b → f * b ≤ n → f ≤ n / b
le_quotient f n b h le = let (lo, hi) = div_bounds n b h in grind (arith, hi)

float32_fits :
    (h : PacketHeader) (channels rate : ℕ) (samples packet : List ℕ)
    → encode_float32_packet h channels rate samples ≡ ok packet
    → 32 + length samples * 4 ≤ 1200
float32_fits h channels rate samples packet e =
    let i = encode_float32-inv h channels rate samples packet e in
    omega (arith, frame_bytes i.frames channels i.some_channels i.frames_fit, i.whole_frames)

-- The packet that the encoder builds when nothing is refused.
abbrev float32_packet : PacketHeader → ℕ → ℕ → List ℕ → List ℕ
float32_packet h channels rate samples =
    audio_packet h channels 3 (sample_rate_to_code rate) (length samples / channels % 2 ^ 16)
      (f32_bytes samples)

encode_float32-ok :
    (h : PacketHeader) (channels rate : ℕ) (samples : List ℕ)
    → 1 ≤ channels
    → channels ≤ 64
    → sample_rate_to_code rate ≢ 0
    → 1 ≤ length samples
    → length samples % channels ≡ 0
    → 1 ≤ 1168 / (channels * 4)
    → length samples / channels ≤ 1168 / (channels * 4)
    → length samples ≤ 292
    → encode_float32_packet h channels rate samples ≡ ok (float32_packet h channels rate samples)
unfolding encode_float32_packet max_float32_frames_per_packet
encode_float32-ok h channels rate samples c1 c64 known n1 whole one few small = ground arith

-- `encode_float32_packet` succeeds exactly for 1 to 64 channels at a known rate with a nonempty
-- whole number of frames that fit 1200 bytes with the headers.
encode_float32_defined :
    (h : PacketHeader) (channels rate : ℕ) (samples : List ℕ)
    → ((packet : List ℕ) × (encode_float32_packet h channels rate samples ≡ ok packet)) ↔ (
        (1 ≤ channels)
        × (channels ≤ 64)
        × (sample_rate_to_code rate ≢ 0)
        × (1 ≤ length samples)
        × (length samples % channels ≡ 0)
        × (32 + length samples * 4 ≤ 1200))
encode_float32_defined h channels rate samples = (
  λ (packet, e).
      let i = encode_float32-inv h channels rate samples packet e in
      let (n1, whole) = encode_float32_complete h channels rate samples packet e in
      (
        i.some_channels,
        i.few_channels,
        i.known_rate,
        n1,
        whole,
        float32_fits h channels rate samples packet e,
      ),
  λ (c1, c64, known, n1, whole, fits).
      let split = div-add-mod' (length samples) channels in
      let few : length samples / channels ≤ 1168 / (channels * 4) =
        le_quotient (length samples / channels) 1168 (channels * 4) (omega arith)
          (omega (arith, split)) in
      (
        float32_packet h channels rate samples,
        encode_float32-ok h channels rate samples c1 c64 known n1 whole
            (le_quotient 1 1168 (channels * 4) (omega arith) (omega arith)) few (omega arith),
      ),
)

encode_opus-inv :
    (h : PacketHeader) (channels rate frames : ℕ) (payload packet : List ℕ)
    → encode_opus_packet h channels rate frames payload ≡ ok packet
    → (1 ≤ channels)
      × (sample_rate_to_code rate ≢ 0)
      × (packet ≡ audio_packet h channels 16 (sample_rate_to_code rate) frames payload)
unfolding encode_opus_packet
encode_opus-inv h channels rate frames payload packet e = (ground arith, ground arith, ground arith)

opus_payload-audio_packet :
    (h : PacketHeader) (channels code rate frames : ℕ) (payload : List ℕ)
    → let packet = audio_packet h channels 16 code frames payload in
      let p = parsed_as h channels 16 rate frames in
      (opus_payload packet p ≡ some payload) × (float32_payload packet p ≡ none)
unfolding opus_payload float32_payload
opus_payload-audio_packet h channels code rate frames payload =
    let m = length-audio_packet h channels 16 code frames payload in
    let d = drop-audio_packet h channels 16 code frames payload in
    (ground (arith, m, d), ground (arith, m, d))

-- An Opus packet that `encode_opus_packet` returns for a nonzero 16-bit frame count is parsed to
-- the header and format that were given, its Opus payload is the bytes that were given, and it is
-- not read as Float32.
pub opus_payload-encode_opus :
    (h : PacketHeader) (channels rate frames : ℕ) (payload packet : List ℕ)
    → IsInRange h
    → IsU16 frames
    → frames ≢ 0
    → encode_opus_packet h channels rate frames payload ≡ ok packet
    → (parse_packet packet ≡ some (parsed_as h channels sample_format_opus rate frames))
      × (opus_payload packet (parsed_as h channels sample_format_opus rate frames) ≡ some payload)
      × (float32_payload packet (parsed_as h channels sample_format_opus rate frames) ≡ none)
opus_payload-encode_opus h channels rate frames payload packet r hf f0 e =
    let (c1, known, bytes) = encode_opus-inv h channels rate frames payload packet e in
    let code = sample_rate_to_code rate in
    let (pay, no_float) = opus_payload-audio_packet h channels code rate frames payload in
    rw bytes (
      parse-audio_packet h channels 16 code frames payload r refl
            (omega (arith, sample_rate_to_code-lt rate)) hf (λ c. omega arith) f0
            (code-rate_ne rate known)
          ∙ ap (λ s. some (parsed_as h channels 16 s frames)) (code-rate rate known),
      pay,
      no_float,
    )
