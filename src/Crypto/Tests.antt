-- ===== src/Crypto/Tests.antt =====
-- crates/audio-core/src/crypto.rs: a packet through a cipher that only puts a tag in front.
use open_audio.Common.{ℕ, ◌≡◌, refl, arith, some, List, [], ◌∷◌, ◌++◌, drop}
use open_audio.Common.Outcome.{ok, err}
use open_audio.Protocol.{PacketHeader, max_float32_frames_per_packet, sample_rate_to_code}
use open_audio.Protocol.Encode.{encode_float32_packet, audio_packet}
use open_audio.Protocol.AudioRoundTrip.{IsInRange}
use open_audio.Crypto.{Aead, raw_too_short, encrypt_audio_packet}
use open_audio.Crypto.Envelope.{IsAead, GivesBack, encrypt-encode_float32}

abbrev tag : List ℕ
tag = 1 ∷ 2 ∷ 3 ∷ 4 ∷ 5 ∷ 6 ∷ 7 ∷ 8 ∷ 9 ∷ 10 ∷ 11 ∷ 12 ∷ 13 ∷ 14 ∷ 15 ∷ 16 ∷ []

abbrev tagging : Aead
tagging = record {
  encrypt = λ nonce message aad. some (tag ++ message);
  decrypt = λ nonce ciphertext aad. some (drop 16 ciphertext);
}

some_inj : (xs ys : List ℕ) → some xs ≡ some ys → xs ≡ ys
some_inj xs ys e = cc

tagging-IsAead : IsAead tagging
tagging-IsAead = record {
  takes_back = λ nonce message aad c e. rw (some_inj c (tag ++ message) (cc)) refl;
  adds_tag = λ nonce message aad c e. rw (some_inj c (tag ++ message) (cc)) (omega arith);
}

abbrev header : PacketHeader
header = record {
  sub_stream_index = 0;
  stream_id = 42;
  sequence_number = 100;
  presentation_timestamp_ns = 1_000_000_000;
}

header-IsInRange : IsInRange header
header-IsInRange = record {
  sub_stream = omega arith;
  stream = omega arith;
  sequence = omega arith;
  timestamp = omega arith;
}

abbrev raw : List ℕ
raw = audio_packet header 1 3 1 1 (0 ∷ 0 ∷ 128 ∷ 63 ∷ [])

raw_encoded : encode_float32_packet header 1 48000 (0x3F80_0000 ∷ []) ≡ ok raw
unfolding encode_float32_packet max_float32_frames_per_packet sample_rate_to_code
raw_encoded = refl

encrypt-encode_float32_example : GivesBack tagging raw (encrypt_audio_packet tagging raw)
encrypt-encode_float32_example =
    encrypt-encode_float32 tagging header 1 48000 (0x3F80_0000 ∷ []) raw tagging-IsAead
      header-IsInRange raw_encoded

nothing_to_encrypt : encrypt_audio_packet tagging [] ≡ err raw_too_short
unfolding encrypt_audio_packet
nothing_to_encrypt = refl
