-- ===== src/Fec/Encoder.antt =====
-- `FecEncoder::push_audio_packet` over a whole group.
use open_audio.Common.{ℕ, suc, ◌+◌, ◌%◌, ◌^◌, ◌<◌, ◌≤◌, ◌≡◌, ◌≢◌, refl, sym, ap, max, ◌∙◌, arith}
use open_audio.Common.{Option, none, List, [], ◌∷◌, length, get_or, wrapping_add}
use open_audio.Common.Xor.{bit_xor_assoc, bit_xor-zero}
use open_audio.Protocol.FecPacket.{encode_fec_packet}
use open_audio.Fec.{FecEncoder, push_audio_packet, accumulate, packet_of}
use open_audio.Fec.Parity.{column, get_or-accumulate, length-accumulate}

-- The arguments of one call.
pub record Audio : Type 0 where
  pub sequence_number : ℕ
  pub timestamp_ns : ℕ
  pub channels : ℕ
  pub rate : ℕ
  pub frames : ℕ
  pub payload : List ℕ

-- Calls in order: what they return, and the encoder after them.
pub push_each : FecEncoder → ℕ → List Audio → List (Option (List ℕ)) × FecEncoder
push_each e stream [] = ([], e)
push_each e stream (a ∷ rest) =
    let (packet, e') =
      push_audio_packet e stream a.sequence_number a.timestamp_ns a.channels a.rate a.frames
        a.payload in
    let (packets, e'') = push_each e' stream rest in (packet ∷ packets, e'')

abbrev pub payloads : List Audio → List (List ℕ)
payloads [] = []
payloads (a ∷ rest) = a.payload ∷ payloads rest

abbrev pub accumulate_all : List ℕ → List (List ℕ) → List ℕ
accumulate_all p [] = p
accumulate_all p (q ∷ ps) = accumulate_all (accumulate p q) ps

-- The parity is the column of every byte position.
pub get_or-accumulate_all :
    (p : List ℕ) (ps : List (List ℕ)) (i : ℕ) → get_or (accumulate_all p ps) i 0 ≡ column (p ∷ ps) i
get_or-accumulate_all p [] i = sym (bit_xor-zero (get_or p i 0))
get_or-accumulate_all p (q ∷ ps) i = ground (
  arith,
  get_or-accumulate_all (accumulate p q) ps i,
  get_or-accumulate p q i,
  bit_xor_assoc (get_or p i 0) (get_or q i 0) (column ps i),
)

-- One call, by the place of the packet in its group.
abbrev push : FecEncoder → ℕ → Audio → Option (List ℕ) × FecEncoder
push e stream a =
    push_audio_packet e stream a.sequence_number a.timestamp_ns a.channels a.rate a.frames a.payload

abbrev pub opened : FecEncoder → Audio → FecEncoder
opened e a = record e {
  base_sequence_number = a.sequence_number;
  base_timestamp_ns = a.timestamp_ns;
  channel_count = a.channels;
  sample_rate = a.rate;
  samples_per_channel = a.frames;
  parity_buffer = a.payload;
  count = 1;
}

abbrev grown : FecEncoder → Audio → FecEncoder
grown e a = record e { parity_buffer = accumulate e.parity_buffer a.payload; count = e.count + 1 }

-- The packet that the fields of an encoder with a full group give.
abbrev full_packet : ℕ → FecEncoder → List (List ℕ) → Option (List ℕ)
full_packet stream e rest = packet_of (
    encode_fec_packet stream e.fec_sequence_number e.base_timestamp_ns e.base_sequence_number
      (e.group_size % 2 ^ 8) e.channel_count e.sample_rate e.samples_per_channel
      (accumulate_all e.parity_buffer rest))

abbrev pub closed : FecEncoder → FecEncoder
closed e = record e {
  fec_sequence_number = wrapping_add e.fec_sequence_number 1;
  count = 0;
  parity_buffer = [];
}

push_first :
    (e : FecEncoder) (stream : ℕ) (a : Audio)
    → e.count ≡ 0
    → 2 ≤ e.group_size
    → push e stream a ≡ (none, opened e a)
unfolding push_audio_packet
push_first e stream a c h = ground arith

push_middle :
    (e : FecEncoder) (stream : ℕ) (a : Audio)
    → e.count ≢ 0
    → e.count + 1 < e.group_size
    → push e stream a ≡ (none, grown e a)
unfolding push_audio_packet
push_middle e stream a c h = ground arith

push_last :
    (e : FecEncoder) (stream : ℕ) (a : Audio)
    → e.count ≢ 0
    → e.count + 1 ≡ e.group_size
    → push e stream a ≡ (full_packet stream e (a.payload ∷ []), closed e)
unfolding push_audio_packet
push_last e stream a c h = ground arith

push_each_cons :
    (e : FecEncoder) (stream : ℕ) (a : Audio) (rest : List Audio) {packet : Option (List ℕ)}
    {e' : FecEncoder}
    → push e stream a ≡ (packet, e')
    → push_each e stream (a ∷ rest)
      ≡ (packet ∷ (push_each e' stream rest).0, (push_each e' stream rest).1)
unfolding push_each
push_each_cons e stream a rest h = rw h

-- All calls but the last return nothing.
abbrev pub last_only : List Audio → Option (List ℕ) → List (Option (List ℕ))
last_only [] packet = packet ∷ []
last_only (a ∷ rest) packet = none ∷ last_only rest packet

push_rest :
    (e : FecEncoder) (stream : ℕ) (a : Audio) (rest : List Audio)
    → e.count ≢ 0
    → e.count + suc (length rest) ≡ e.group_size
    → push_each e stream (a ∷ rest)
      ≡ (last_only rest (full_packet stream e (payloads (a ∷ rest))), closed e)
push_rest e stream a [] c h =
    push_each_cons e stream a [] (push_last e stream a c (omega arith)) ∙ unfold push_each in refl
push_rest e stream a (b ∷ rest) c h =
    push_each_cons e stream a (b ∷ rest) (push_middle e stream a c (omega arith))
    ∙ (rw (push_rest (grown e a) stream b rest (λ z. omega arith) (omega arith)))

pub push_each_group :
    (e : FecEncoder) (stream : ℕ) (a b : Audio) (rest : List Audio)
    → e.count ≡ 0
    → length rest + 2 ≡ e.group_size
    → push_each e stream (a ∷ b ∷ rest) ≡ (
      none ∷ last_only rest (full_packet stream (opened e a) (payloads (b ∷ rest))),
      closed (opened e a),
    )
push_each_group e stream a b rest c n =
    push_each_cons e stream a (b ∷ rest) (push_first e stream a c (omega arith))
    ∙ (rw (push_rest (opened e a) stream b rest (λ z. omega arith) (omega arith)))

-- The length of the longest.
abbrev pub longest : List (List ℕ) → ℕ
longest [] = 0
longest (p ∷ ps) = max (length p) (longest ps)

length-accumulate_longest :
    (p : List ℕ) (ps : List (List ℕ)) → length (accumulate_all p ps) ≡ longest (p ∷ ps)
length-accumulate_longest p [] = omega arith
length-accumulate_longest p (q ∷ ps) =
    omega (arith, length-accumulate_longest (accumulate p q) ps, length-accumulate p q)

-- What the parity of payloads is: as long as the longest, and at every index the `^` of the bytes
-- that the payloads have there.
abbrev pub IsParityOf : List (List ℕ) → List ℕ → Type 0
IsParityOf ps parity = (length parity ≡ longest ps) × ((i : ℕ) → get_or parity i 0 ≡ column ps i)

-- From an encoder between two groups, as many calls as the group size, with payloads of any lengths,
-- return nothing but the last. It returns what `encode_fec_packet` makes, where it does not refuse
-- them, of the first call's sequence number, time and format, the group size in eight bits, and the
-- parity: as long as the longest payload, and at each index the `^` of the bytes of all payloads
-- there. The encoder is between two groups again, with the next number and no parity left.
pub push_group :
    (e : FecEncoder) (stream : ℕ) (a b : Audio) (rest : List Audio)
    → e.count ≡ 0
    → length rest + 2 ≡ e.group_size
    → (parity : List ℕ) × IsParityOf (payloads (a ∷ b ∷ rest)) parity
      × ((push_each e stream (a ∷ b ∷ rest)).0
          ≡ none
            ∷ last_only rest (
                packet_of (
                  encode_fec_packet stream e.fec_sequence_number a.timestamp_ns a.sequence_number
                    (e.group_size % 2 ^ 8)
                    a.channels
                    a.rate
                    a.frames
                    parity)))
      × (let after = (push_each e stream (a ∷ b ∷ rest)).1 in
          (after.count ≡ 0)
          × (after.parity_buffer ≡ [])
          × (after.group_size ≡ e.group_size)
          × (after.fec_sequence_number ≡ wrapping_add e.fec_sequence_number 1))
push_group e stream a b rest c n =
    let pushed = push_each_group e stream a b rest c n in
    (
      accumulate_all a.payload (payloads (b ∷ rest)),
      (
        length-accumulate_longest a.payload (payloads (b ∷ rest)),
        get_or-accumulate_all a.payload (payloads (b ∷ rest)),
      ),
      ap (λ (r : List (Option (List ℕ)) × FecEncoder). r.0) pushed,
      rw pushed (refl, refl, refl, refl),
    )
