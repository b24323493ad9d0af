-- ===== src/Crypto.antt =====
-- crates/audio-core/src/crypto.rs: the envelope of an encrypted audio packet. The cipher AES-256-GCM
-- with its key is a parameter.
pub mod Envelope
mod Tests
use open_audio.Common.{ℕ, zero, suc, ◌+◌, ◌/◌, ◌%◌, ◌^◌, ◌≡◌, not, ◌||◌, ltb, ◌==◌, if◌then◌else◌}
use open_audio.Common.{Option, none, some, List, [], ◌∷◌, ◌++◌, length, slice, drop, get_or}
use open_audio.Common.Bytes.{u32_to_be_bytes, u32_from_be_bytes, u64_from_be_bytes}
use open_audio.Common.Xor.{bit_xor}
use open_audio.Common.Outcome.{Result, ok, err, ◌>>=◌, ◌>>◌, refuse_if, ok_or}
use open_audio.Protocol.{packet_type_audio, packet_type_audio_encrypted, has_type}

-- The calls `encrypt_with_aad` and `decrypt_with_aad` of a cipher with its key: from a nonce, a
-- message and the associated data.
pub record Aead : Type 0 where
  pub encrypt : List ℕ → List ℕ → List ℕ → Option (List ℕ)
  pub decrypt : List ℕ → List ℕ → List ℕ → Option (List ℕ)

pub data CryptoError : Type 0 where
  raw_too_short invalid_stream_id invalid_seq invalid_timestamp encryption_failed : CryptoError
  encrypted_too_short not_encrypted decryption_failed : CryptoError

-- `((timestamp_ns >> 32) ^ timestamp_ns) as u32`
abbrev pub ts_folded : ℕ → ℕ
ts_folded timestamp_ns = bit_xor (timestamp_ns / 2 ^ 32) timestamp_ns % 2 ^ 32

abbrev pub packet_nonce : ℕ → ℕ → ℕ → List ℕ
packet_nonce stream_id sequence_number timestamp_ns =
    u32_to_be_bytes stream_id
    ++ u32_to_be_bytes sequence_number
    ++ u32_to_be_bytes (ts_folded timestamp_ns)

-- `buf[i] = byte`, where the caller knows that the index is in range.
abbrev pub set_byte : ℕ → ℕ → List ℕ → List ℕ
set_byte i byte [] = []
set_byte zero byte (b ∷ bs) = byte ∷ bs
set_byte (suc i) byte (b ∷ bs) = b ∷ set_byte i byte bs

-- The nonce of a packet, from three fields of its header.
pub nonce_of : List ℕ → Result CryptoError (List ℕ)
nonce_of packet = do
  stream_id ← ok_or (u32_from_be_bytes (slice packet 8 12)) invalid_stream_id
  sequence_number ← ok_or (u32_from_be_bytes (slice packet 12 16)) invalid_seq
  timestamp_ns ← ok_or (u64_from_be_bytes (slice packet 16 24)) invalid_timestamp
  ok (packet_nonce stream_id sequence_number timestamp_ns)

pub encrypt_audio_packet : Aead → List ℕ → Result CryptoError (List ℕ)
encrypt_audio_packet cipher raw_packet = do
  refuse_if (ltb (length raw_packet) 32) raw_too_short
  nonce ← nonce_of raw_packet
  let header = set_byte 5 packet_type_audio_encrypted (slice raw_packet 0 24)
  ciphertext ← ok_or (cipher.encrypt nonce (drop 24 raw_packet) header) encryption_failed
  ok (header ++ ciphertext)

pub decrypt_audio_packet : Aead → List ℕ → Result CryptoError (List ℕ)
decrypt_audio_packet cipher encrypted_packet = do
  refuse_if (ltb (length encrypted_packet) 40) encrypted_too_short
  refuse_if (not (has_type encrypted_packet packet_type_audio_encrypted)) not_encrypted
  nonce ← nonce_of encrypted_packet
  let header = slice encrypted_packet 0 24
  plaintext ← ok_or (cipher.decrypt nonce (drop 24 encrypted_packet) header) decryption_failed
  ok (set_byte 5 packet_type_audio header ++ plaintext)
