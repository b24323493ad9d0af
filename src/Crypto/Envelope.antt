-- ===== src/Crypto/Envelope.antt =====
-- Encrypted audio packets.
use open_audio.Common.{
  ℕ, ◌+◌, ◌*◌, ◌/◌, ◌%◌, ◌^◌, ◌≤◌, ◌≡◌, refl, sym, arith, inl, inr, ltb, leb, true, false,
}
use open_audio.Common.{Option, none, some, List, ◌++◌, length, drop}
use open_audio.Common.Outcome.{Result, ok, err, ok_or, ◌>>=◌}
use mathlib.Core.Path.{subst}
use open_audio.Protocol.Kinds.{parsers_disjoint}
use open_audio.Common.Bytes.{IsU32, IsU64, u32_digits}
use open_audio.Protocol.{
  PacketHeader, to_bytes_with_type, audio_to_bytes, to_bytes, peek_packet_type,
  sample_format_float32, sample_rate_to_code,
}
use open_audio.Protocol.Encode.{encode_float32_packet, audio_packet, f32_bytes}
use open_audio.Protocol.Parse.{parse_packet}
use open_audio.Protocol.AudioRoundTrip.{IsInRange, encode_float32-inv}
use open_audio.Crypto.{
  Aead, CryptoError, encryption_failed, nonce_of, encrypt_audio_packet, decrypt_audio_packet,
  packet_nonce,
}

-- What the code relies on: the cipher takes back what it made, and adds a tag of 16 bytes.
pub record IsAead (cipher : Aead) : Type 0 where
  pub takes_back :
      (nonce message aad c : List ℕ)
      → cipher.encrypt nonce message aad ≡ some c
      → cipher.decrypt nonce c aad ≡ some message
  pub adds_tag :
      (nonce message aad c : List ℕ)
      → cipher.encrypt nonce message aad ≡ some c
      → length c ≡ length message + 16

-- What becomes of an encryption: a packet that is not taken for an audio packet, and gives the
-- packet before it back.
abbrev pub GivesBack : Aead → List ℕ → Result CryptoError (List ℕ) → Type 0
GivesBack cipher raw (err e) = e ≡ encryption_failed
GivesBack cipher raw (ok encrypted) =
    (decrypt_audio_packet cipher encrypted ≡ ok raw)
    × (peek_packet_type encrypted ≡ some 4)
    × (parse_packet encrypted ≡ none)

-- A packet is its header with a type, and what follows.
abbrev whole : PacketHeader → ℕ → List ℕ → List ℕ
whole h packet_type body = to_bytes_with_type h packet_type ++ body

abbrev nonce : PacketHeader → List ℕ
nonce h = packet_nonce h.stream_id h.sequence_number h.presentation_timestamp_ns

nonce_of-whole :
    (h : PacketHeader) (packet_type : ℕ) (body : List ℕ)
    → IsInRange h
    → nonce_of (whole h packet_type body) ≡ ok (nonce h)
unfolding to_bytes_with_type nonce_of
nonce_of-whole h packet_type body r =
    let stream = u32_from_be-to_be' h.stream_id r.stream in
    let sequence = u32_from_be-to_be' h.sequence_number r.sequence in
    let timestamp = u64_from_be-to_be' h.presentation_timestamp_ns r.timestamp in
    rw (stream, sequence, timestamp) refl
  where
    u32_from_be-to_be' :
        (n : ℕ)
        → IsU32 n
        → n / 2 ^ 24 % 256 * 2 ^ 24 + n / 2 ^ 16 % 256 * 2 ^ 16 + n / 2 ^ 8 % 256 * 2 ^ 8 + n % 256
          ≡ n
    u32_from_be-to_be' n u = omega (arith, u32_digits n)

    u64_from_be-to_be' :
        (n : ℕ)
        → IsU64 n
        → (n / 2 ^ 32 / 2 ^ 24 % 256 * 2 ^ 24
                + n / 2 ^ 32 / 2 ^ 16 % 256 * 2 ^ 16
                + n / 2 ^ 32 / 2 ^ 8 % 256 * 2 ^ 8
                + n / 2 ^ 32 % 256)
              * 2 ^ 32
            + (n / 2 ^ 24 % 256 * 2 ^ 24
                + n / 2 ^ 16 % 256 * 2 ^ 16
                + n / 2 ^ 8 % 256 * 2 ^ 8
                + n % 256)
          ≡ n
    u64_from_be-to_be' n u = omega (arith, u32_digits n, u32_digits (n / 2 ^ 32))

abbrev enclosed : PacketHeader → Option (List ℕ) → Result CryptoError (List ℕ)
enclosed h none = err encryption_failed
enclosed h (some c) = ok (whole h 4 c)

enclose :
    (h : PacketHeader) (o : Option (List ℕ))
    → (ok_or o encryption_failed >>= λ c. ok (whole h 4 c)) ≡ enclosed h o
enclose h none = refl
enclose h (some c) = refl

encrypt_whole :
    (cipher : Aead) (h : PacketHeader) (body : List ℕ)
    → IsInRange h
    → 8 ≤ length body
    → encrypt_audio_packet cipher (whole h 1 body)
      ≡ enclosed h (cipher.encrypt (nonce h) body (to_bytes_with_type h 4))
unfolding to_bytes_with_type encrypt_audio_packet
encrypt_whole cipher h body r long =
    let enough : ltb (length (whole h 1 body)) 32 ≡ false = ground arith in
    rw (enough, nonce_of-whole h 1 body r)
      (enclose h (cipher.encrypt (nonce h) body (to_bytes_with_type h 4)))

decrypt_whole :
    (cipher : Aead) (h : PacketHeader) (body c : List ℕ)
    → IsInRange h
    → 16 ≤ length c
    → cipher.decrypt (nonce h) c (to_bytes_with_type h 4) ≡ some body
    → decrypt_audio_packet cipher (whole h 4 c) ≡ ok (whole h 1 body)
unfolding to_bytes_with_type decrypt_audio_packet
decrypt_whole cipher h body c r long e =
    let enough : ltb (length (whole h 4 c)) 40 ≡ false = ground arith in
    rw (enough, nonce_of-whole h 4 c r) (rw e refl)

peek_whole :
    (h : PacketHeader) (packet_type : ℕ) (body : List ℕ)
    → peek_packet_type (whole h packet_type body) ≡ some packet_type
unfolding to_bytes_with_type peek_packet_type
peek_whole h packet_type body =
    let enough : leb 6 (length (whole h packet_type body)) ≡ true = ground arith in rw enough refl

enclosed-GivesBack :
    (cipher : Aead) (h : PacketHeader) (body : List ℕ) (o : Option (List ℕ))
    → IsAead cipher
    → IsInRange h
    → cipher.encrypt (nonce h) body (to_bytes_with_type h 4) ≡ o
    → GivesBack cipher (whole h 1 body) (enclosed h o)
enclosed-GivesBack cipher h body none law r e = refl
enclosed-GivesBack cipher h body (some c) law r e = (
  decrypt_whole cipher h body c r
      (omega (arith, law.adds_tag (nonce h) body (to_bytes_with_type h 4) c e))
      (law.takes_back (nonce h) body (to_bytes_with_type h 4) c e),
  peek_whole h 4 c,
  elim ((parsers_disjoint (whole h 4 c)).0) [
    | inl one ↦ absurd (cc (peek_whole h 4 c, one))
    | inr unparsed ↦ unparsed
  ],
)

-- What becomes of an encryption of a packet with a header: without a result the cipher refused the
-- bytes behind the first 24, with the header's nonce and the first 24 bytes as they are sent; with
-- one it is 16 bytes longer than the packet, and gives the packet back.
abbrev pub Seals : Aead → PacketHeader → List ℕ → Result CryptoError (List ℕ) → Type 0
Seals cipher h raw (err e) =
    cipher.encrypt (packet_nonce h.stream_id h.sequence_number h.presentation_timestamp_ns)
      (drop 24 raw) (to_bytes_with_type h 4)
    ≡ none
Seals cipher h raw (ok encrypted) =
    (length encrypted ≡ length raw + 16) × GivesBack cipher raw (ok encrypted)

behind_header :
    (h : PacketHeader) (packet_type : ℕ) (body : List ℕ) → drop 24 (whole h packet_type body) ≡ body
unfolding to_bytes_with_type
behind_header h packet_type body = refl

length-whole :
    (h : PacketHeader) (packet_type : ℕ) (body : List ℕ)
    → length (whole h packet_type body) ≡ 24 + length body
unfolding to_bytes_with_type
length-whole h packet_type body = omega arith

enclosed-Seals :
    (cipher : Aead) (h : PacketHeader) (body : List ℕ) (o : Option (List ℕ))
    → IsAead cipher
    → IsInRange h
    → cipher.encrypt (nonce h) body (to_bytes_with_type h 4) ≡ o
    → Seals cipher h (whole h 1 body) (enclosed h o)
enclosed-Seals cipher h body none law r e = rw (behind_header h 1 body) e
enclosed-Seals cipher h body (some c) law r e = (
  omega (
    arith,
    length-whole h 4 c,
    length-whole h 1 body,
    law.adds_tag (nonce h) body (to_bytes_with_type h 4) c e,
  ),
  enclosed-GivesBack cipher h body (some c) law r e,
)

pub audio_packet-Seals :
    (cipher : Aead) (h : PacketHeader) (channels code frames : ℕ) (payload : List ℕ)
    → IsAead cipher
    → IsInRange h
    → let raw = audio_packet h channels sample_format_float32 code frames payload in
      Seals cipher h raw (encrypt_audio_packet cipher raw)
unfolding audio_packet to_bytes audio_to_bytes
audio_packet-Seals cipher h channels code frames payload law r =
    let body =
      audio_to_bytes (record {
        channel_count = channels;
        sample_format = sample_format_float32;
        sample_rate_code = code;
        samples_per_channel = frames;
      })
      ++ payload in
    subst (Seals cipher h (whole h 1 body)) (sym (encrypt_whole cipher h body r (omega arith)))
      (enclosed-Seals cipher h body _ law r refl)

audio_packet-GivesBack :
    (cipher : Aead) (h : PacketHeader) (channels frames rate : ℕ) (payload : List ℕ)
    → IsAead cipher
    → IsInRange h
    → let raw =
        audio_packet h channels sample_format_float32 (sample_rate_to_code rate) frames payload in
      GivesBack cipher raw (encrypt_audio_packet cipher raw)
unfolding audio_packet to_bytes audio_to_bytes
audio_packet-GivesBack cipher h channels frames rate payload law r =
    let body =
      audio_to_bytes (record {
        channel_count = channels;
        sample_format = sample_format_float32;
        sample_rate_code = sample_rate_to_code rate;
        samples_per_channel = frames;
      })
      ++ payload in
    subst (GivesBack cipher (whole h 1 body)) (sym (encrypt_whole cipher h body r (omega arith)))
      (enclosed-GivesBack cipher h body _ law r refl)

-- A Float32 packet that the encoder returned, encrypted with a cipher of which the two laws hold:
-- either the cipher failed, or the result is a packet that is not taken for an audio packet, whose
-- decryption is the packet that was encrypted.
pub encrypt-encode_float32 :
    (cipher : Aead) (h : PacketHeader) (channels rate : ℕ) (samples raw : List ℕ)
    → IsAead cipher
    → IsInRange h
    → encode_float32_packet h channels rate samples ≡ ok raw
    → GivesBack cipher raw (encrypt_audio_packet cipher raw)
encrypt-encode_float32 cipher h channels rate samples raw law r e =
    let f = encode_float32-inv h channels rate samples raw e in
    subst (λ p. GivesBack cipher p (encrypt_audio_packet cipher p)) (sym f.bytes)
      (audio_packet-GivesBack cipher h channels f.frames rate (f32_bytes samples) law r)
