-- ===== src/Combine/Sending.antt =====
-- Datagrams to the subscribers of a combined publisher.
use open_audio.Common.{
  ℕ, ◌+◌, ◌≡◌, ◌⊎◌, refl, ap, ◌∙◌, Option, none, some, List, [], ◌∷◌, map, length, drop, inl, inr,
}
use open_audio.Common.Outcome.{Result, ok, err}
use open_audio.Protocol.{PacketHeader, to_bytes_with_type}
use open_audio.Protocol.Parse.{parse_packet}
use open_audio.Crypto.{Aead, CryptoError, encrypt_audio_packet, decrypt_audio_packet, packet_nonce}
use open_audio.Crypto.Envelope.{IsAead, Seals}
use open_audio.Discovery.{Address}
use open_audio.Combine.{encrypted_to_send, packet_to_send, send_all}

-- A cipher keeps its laws, if there is one.
abbrev pub HasLaws : Option Aead → Type 0
HasLaws none = Unit {0}
HasLaws (some cipher) = IsAead cipher

-- To each destination one datagram: the packet, or, with a cipher, what it decrypts to the packet, 16
-- bytes longer and not taken for an audio packet. Nothing only where the cipher refuses the packet.
abbrev pub Sends :
    Option Aead → PacketHeader → List ℕ → List Address → List (Address × List ℕ) → Type 0
Sends none h packet destinations sent = sent ≡ map (λ d. (d, packet)) destinations
Sends (some cipher) h packet destinations sent =
    ((cipher.encrypt (packet_nonce h.stream_id h.sequence_number h.presentation_timestamp_ns)
          (drop 24 packet) (to_bytes_with_type h 4)
        ≡ none)
      × (sent ≡ []))
    ⊎ ((encrypted : List ℕ) × (sent ≡ map (λ d. (d, encrypted)) destinations)
        × (length encrypted ≡ length packet + 16)
        × (decrypt_audio_packet cipher encrypted ≡ ok packet)
        × (parse_packet encrypted ≡ none))

pub send_all-map :
    (destinations : List Address) (packet : List ℕ)
    → send_all destinations (some packet) ≡ map (λ d. (d, packet)) destinations
send_all-map [] packet = refl
send_all-map (d ∷ destinations) packet = ap (◌∷◌ (d, packet)) (send_all-map destinations packet)

pub send_all-Sends :
    (cipher : Aead) (h : PacketHeader) (packet : List ℕ) (destinations : List Address)
    (r : Result CryptoError (List ℕ))
    → encrypt_audio_packet cipher packet ≡ r
    → Seals cipher h packet r
    → Sends
        (some cipher)
        h
        packet
        destinations
        (send_all destinations (packet_to_send (some cipher) packet))
send_all-Sends cipher h packet destinations (err e) made refused =
    let nothing : packet_to_send (some cipher) packet ≡ none = ap encrypted_to_send made in
    inl (refused, ap (send_all destinations) nothing)
send_all-Sends cipher h packet destinations (ok encrypted) made (size, (back, typed, unparsed)) =
    let whole : packet_to_send (some cipher) packet ≡ some encrypted = ap encrypted_to_send made in
    inr (
      encrypted,
      ap (send_all destinations) whole ∙ send_all-map destinations encrypted,
      size,
      back,
      unparsed,
    )
