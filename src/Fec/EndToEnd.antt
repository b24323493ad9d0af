-- ===== src/Fec/EndToEnd.antt =====
-- From the encoder over the wire to the decoder: any one packet of a group can be lost.
use mathlib.Core.Path.{ap₂, subst}
use open_audio.Common.{ℕ, zero, suc, ◌+◌, ◌*◌, ◌%◌, ◌^◌, ◌<◌, ◌≡◌, refl, ap, sym, ◌∙◌, arith}
use open_audio.Common.{Option, none, some, List, [], ◌∷◌, length, get_or, slice, take-all}
use open_audio.Common.{wrapping_add}
use open_audio.Protocol.Parse.{ParsedPacket}
use open_audio.Protocol.FecPacket.{ParsedFecPacket, parse_fec_packet}
use open_audio.Protocol.ControlRoundTrip.{FecFields, parse-encode_fec}
use open_audio.Fec.{
  FecEncoder, FecDecoder, accumulate, decode_fec, recovered_packet, read_floats, packet_of,
}
use open_audio.Fec.Parity.{column, length-accumulate}
use open_audio.Fec.Encoder.{
  Audio, push_each, payloads, accumulate_all, get_or-accumulate_all, last_only, opened, closed,
  push_each_group,
}
use open_audio.Fec.Recovery.{group, HoldsAllBut, IsParity, decode_fec_recovers}

-- The payload at offset `i` of a group.
abbrev pub payload_at : List (List ℕ) → ℕ → List ℕ
payload_at ps i = get_or ps i []

group-shift : (f : ℕ → List ℕ) (i n : ℕ) → group f (i + 1) n ≡ group (λ j. f (suc j)) i n
group-shift f i zero = refl
group-shift f i (suc n) = ap₂ ◌∷◌ (ap f (omega arith)) (group-shift f (i + 1) n)

group-payload_at : (ps : List (List ℕ)) → group (payload_at ps) 0 (length ps) ≡ ps
group-payload_at [] = refl
group-payload_at (p ∷ ps) =
    ap (λ t. p ∷ t) (group-shift (payload_at (p ∷ ps)) 0 (length ps) ∙ group-payload_at ps)

-- Every payload of the group has `size` bytes.
abbrev pub HaveSize : ℕ → List Audio → Type 0
HaveSize size [] = Unit {0}
HaveSize size (a ∷ rest) = (length a.payload ≡ size) × HaveSize size rest

length-accumulate_all :
    (size : ℕ) (p : List ℕ) (rest : List Audio)
    → length p ≡ size
    → HaveSize size rest
    → length (accumulate_all p (payloads rest)) ≡ size
length-accumulate_all size p [] e h = e
length-accumulate_all size p (a ∷ rest) e (s, h) =
    length-accumulate_all size (accumulate p a.payload) rest
      (omega (arith, length-accumulate p a.payload)) h

length-payload_at :
    (size k : ℕ) (audios : List Audio)
    → k < length audios
    → HaveSize size audios
    → length (payload_at (payloads audios) k) ≡ size
length-payload_at size k [] h s = absurd (omega arith)
length-payload_at size zero (a ∷ rest) h (s, hs) = s
length-payload_at size (suc k) (a ∷ rest) h (s, hs) = length-payload_at size k rest (omega arith) hs

length-payloads : (audios : List Audio) → length (payloads audios) ≡ length audios
length-payloads [] = refl
length-payloads (a ∷ rest) = ap suc (length-payloads rest)

-- What a parser reads from the packet of a group of payloads of `size` bytes that starts with `a`.
abbrev pub group_fields : FecEncoder → ℕ → Audio → ℕ → ParsedFecPacket
group_fields e stream a size = record {
  stream_id = stream;
  fec_sequence_number = e.fec_sequence_number;
  presentation_timestamp_ns = a.timestamp_ns;
  base_sequence_number = a.sequence_number;
  packet_count = e.group_size % 2 ^ 8;
  channel_count = a.channels;
  sample_rate = a.rate;
  samples_per_channel = a.frames;
  payload_offset = 36;
  payload_len = size;
}

abbrev group_parity : Audio → List Audio → List ℕ
group_parity a rest = accumulate_all a.payload (payloads rest)

-- The last call of a group returns a packet, and the parser and the payload range give back the
-- fields and the parity of the group.
group_packet_parsed :
    (e : FecEncoder) (stream size : ℕ) (a b : Audio) (rest : List Audio)
    → e.count ≡ 0
    → length rest + 2 ≡ e.group_size
    → FecFields (group_fields e stream a size)
    → HaveSize size (a ∷ b ∷ rest)
    → size < 2 ^ 16
    → (packet : List ℕ) × (push_each e stream (a ∷ b ∷ rest)
        ≡ (none ∷ last_only rest (some packet), closed (opened e a)))
      × (parse_fec_packet packet ≡ some (group_fields e stream a size))
      × (slice packet 36 (36 + size) ≡ group_parity a (b ∷ rest))
group_packet_parsed e stream size a b rest c n f (sa, s) small =
    let parity = group_parity a (b ∷ rest) in
    let len = length-accumulate_all size a.payload (b ∷ rest) sa s in
    let cut : length parity % 2 ^ 16 ≡ size = omega (arith, len) in
    let (packet, enc, parsed, range) = parse-encode_fec (group_fields e stream a size) parity f in
    (
      packet,
      push_each_group e stream a b rest c n
          ∙ ap (λ (p : Option (List ℕ)). (none ∷ last_only rest p, closed (opened e a)))
              (ap packet_of enc),
      parsed
          ∙ ap
              (λ (m : ℕ).
                some
                  (record (group_fields e stream a size) { payload_offset = 36; payload_len = m }))
              cut,
      ap (λ (m : ℕ). slice packet 36 (36 + m)) (sym cut)
          ∙ range
          ∙ take-all (length parity % 2 ^ 16) parity (omega arith),
    )

group-IsParity :
    (a : Audio) (rest : List Audio) (n : ℕ)
    → suc (length rest) ≡ n
    → IsParity (group_parity a rest) (payload_at (payloads (a ∷ rest))) n
group-IsParity a rest n e t h =
    get_or-accumulate_all a.payload (payloads rest) t
    ∙ ap (λ (ps : List (List ℕ)). column ps t)
        (sym (group-payload_at (payloads (a ∷ rest)))
          ∙ ap (group (payload_at (payloads (a ∷ rest))) 0) {x = length (payloads (a ∷ rest))}
              (omega (arith, length-payloads rest)))

-- A group of fewer than 256 packets whose payloads all have the size that the format says is
-- pushed into the encoder, between two groups before. The last call returns an FEC packet. A
-- decoder whose history holds every payload of the group but one, whichever that is, and that is
-- given this packet, returns the missing packet with its sequence number and its samples.
pub group_recovers :
    (e : FecEncoder) (stream size : ℕ) (a b : Audio) (rest : List Audio) (d : FecDecoder) (k : ℕ)
    → e.count ≡ 0
    → length rest + 2 ≡ e.group_size
    → e.group_size < 256
    → FecFields (group_fields e stream a size)
    → HaveSize size (a ∷ b ∷ rest)
    → size < 2 ^ 16
    → size ≡ a.channels * a.frames * 4
    → k < e.group_size
    → HoldsAllBut k d.history a.sequence_number e.group_size (payload_at (payloads (a ∷ b ∷ rest)))
    → (packet : List ℕ) × (push_each e stream (a ∷ b ∷ rest)
        ≡ (none ∷ last_only rest (some packet), closed (opened e a)))
      × (parse_fec_packet packet ≡ some (group_fields e stream a size))
      × ((decode_fec d (group_fields e stream a size) (slice packet 36 (36 + size))).0
          ≡ some (
            recovered_packet (group_fields e stream a size) (wrapping_add a.sequence_number k),
            read_floats (payload_at (payloads (a ∷ b ∷ rest)) k),
          ))
group_recovers e stream size a b rest d k c n few f s small fmt hk held =
    let (packet, pushed, parsed, range) =
      group_packet_parsed e stream size a b rest c n f s small in
    let fields = group_fields e stream a size in
    let ps = payloads (a ∷ b ∷ rest) in
    let parity = group_parity a (b ∷ rest) in
    let count : e.group_size % 2 ^ 8 ≡ e.group_size = omega arith in
    let len = length-accumulate_all size a.payload (b ∷ rest) s.0 s.1 in
    let one = length-payload_at size k (a ∷ b ∷ rest) (omega arith) s in
    (
      packet,
      pushed,
      parsed,
      rw range (
          ap (λ (r : Option (ParsedPacket × List ℕ) × FecDecoder). r.0)
            (decode_fec_recovers d fields parity (payload_at ps) k (omega arith)
              (subst (λ m. HoldsAllBut k d.history a.sequence_number m (payload_at ps)) (sym count)
                held)
              (group-IsParity a (b ∷ rest) (e.group_size % 2 ^ 8) (omega arith)) (one ∙ fmt)
              (omega (arith, one)) (omega (arith, one, len)))),
    )
