-- ===== src/Fec.antt =====
-- crates/network-core/src/fec.rs: the XOR parity of a group of audio packets, and the recovery of
-- the one packet of a group that is missing.
pub mod Parity
pub mod Encoder
pub mod History
pub mod Recovery
pub mod EndToEnd
mod Tests
use open_audio.Common.{
  ℕ, zero, suc, ◌+◌, ◌%◌, ◌^◌, ◌<◌, max, Bool, true, false, not, ltb, leb, ◌==◌,
}
use open_audio.Common.{if◌then◌else◌, Option, none, some, List, [], ◌∷◌, ◌++◌, length, take, drop}
use open_audio.Common.{checked_mul, wrapping_add, saturating_add}
use open_audio.Common.Bytes.{f32_from_le_bytes}
use open_audio.Common.Xor.{bit_xor}
use open_audio.Common.SortedMap.{SortedMap, lookup, insert, remove, first_key}
use open_audio.Common.Outcome.{Result, ok, err}
use open_audio.Common.Try.{◌>>=◌, ◌>>◌, none_if}
use open_audio.Protocol.{Error, sample_format_float32}
use open_audio.Protocol.FecPacket.{ParsedFecPacket, encode_fec_packet}
use open_audio.Protocol.Parse.{ParsedPacket}

pub record FecEncoder : Type 0 where
  pub group_size : ℕ
  pub parity_buffer : List ℕ
  pub count : ℕ
  pub base_sequence_number : ℕ
  pub base_timestamp_ns : ℕ
  pub fec_sequence_number : ℕ
  pub channel_count : ℕ
  pub sample_rate : ℕ
  pub samples_per_channel : ℕ

abbrev pub new_encoder : ℕ → FecEncoder
new_encoder group_size = record {
  group_size = max group_size 2;
  parity_buffer = [];
  count = 0;
  base_sequence_number = 0;
  base_timestamp_ns = 0;
  fec_sequence_number = 0;
  channel_count = 0;
  sample_rate = 0;
  samples_per_channel = 0;
}

-- `parity[i] ^= payload[i]` for every index that both have.
abbrev pub xor_prefix : List ℕ → List ℕ → List ℕ
xor_prefix [] ys = []
xor_prefix (x ∷ xs) [] = x ∷ xs
xor_prefix (x ∷ xs) (y ∷ ys) = bit_xor x y ∷ xor_prefix xs ys

-- The parity after one more packet: the common part by `^`, and what the payload has beyond it.
abbrev pub accumulate : List ℕ → List ℕ → List ℕ
accumulate parity payload =
    let mixed = xor_prefix parity payload in
    if ltb (length mixed) (length payload) then mixed ++ drop (length mixed) payload else mixed

-- The first packet of a group sets the fields of the FEC packet and the parity.
abbrev pub absorb : FecEncoder → ℕ → ℕ → ℕ → ℕ → ℕ → List ℕ → FecEncoder
absorb e sequence_number timestamp_ns channels rate frames payload =
    if e.count == 0
    then record e {
      base_sequence_number = sequence_number;
      base_timestamp_ns = timestamp_ns;
      channel_count = channels;
      sample_rate = rate;
      samples_per_channel = frames;
      parity_buffer = payload;
      count = e.count + 1;
    }
    else record e { parity_buffer = accumulate e.parity_buffer payload; count = e.count + 1 }

-- `.ok()`
abbrev pub packet_of : Result Error (List ℕ) → Option (List ℕ)
packet_of (ok packet) = some packet
packet_of (err e) = none

-- `self.count as u8` keeps the low eight bits.
abbrev pub group_packet : ℕ → FecEncoder → Option (List ℕ)
group_packet stream_id e = packet_of (
    encode_fec_packet stream_id e.fec_sequence_number e.base_timestamp_ns e.base_sequence_number
      (e.count % 2 ^ 8) e.channel_count e.sample_rate e.samples_per_channel e.parity_buffer)

pub push_audio_packet : FecEncoder → ℕ → ℕ → ℕ → ℕ → ℕ → ℕ → List ℕ → Option (List ℕ) × FecEncoder
push_audio_packet e stream_id sequence_number timestamp_ns channels rate frames payload =
    let e' = absorb e sequence_number timestamp_ns channels rate frames payload in
    if leb e'.group_size e'.count
    then (
      group_packet stream_id e',
      record e' {
        fec_sequence_number = wrapping_add e'.fec_sequence_number 1;
        count = 0;
        parity_buffer = [];
      },
    )
    else (none, e')

pub record FecDecoder : Type 0 where
  pub history : SortedMap (List ℕ)
  pub history_capacity : ℕ
  pub recovered_count : ℕ

abbrev pub new_decoder : ℕ → FecDecoder
new_decoder capacity = record {
  history = [];
  history_capacity = max capacity 32;
  recovered_count = 0;
}

-- `while self.history.len() > self.history_capacity`, with fuel.
pub evict : ℕ → ℕ → SortedMap (List ℕ) → SortedMap (List ℕ)
evict zero capacity m = m
evict (suc fuel) capacity m = elim (ltb capacity (length m)) [
  | true ↦ elim (first_key m) [
    | some oldest ↦ evict fuel capacity (remove oldest m)
    | none ↦ evict fuel capacity m
  ]
  | false ↦ m
]

-- Every round removes an entry, so the number of entries is enough fuel.
pub record_received : FecDecoder → ℕ → List ℕ → FecDecoder
record_received d sequence_number payload =
    let grown = insert sequence_number payload d.history in
    record d { history = evict (length grown) d.history_capacity grown }

-- The sequence numbers of the group that are not in the history, and the payloads that are, from
-- index `i` on with `n` left.
pub scan_group : SortedMap (List ℕ) → ℕ → ℕ → ℕ → List ℕ × List (List ℕ)
scan_group history base i zero = ([], [])
scan_group history base i (suc n) =
    let (missing, present) = scan_group history base (i + 1) n in
    let sequence = wrapping_add base i in
    elim (lookup sequence history) [
      | some payload ↦ (missing, payload ∷ present)
      | none ↦ (sequence ∷ missing, present)
    ]

abbrev pub xor_all : List ℕ → List (List ℕ) → List ℕ
xor_all reconstructed [] = reconstructed
xor_all reconstructed (payload ∷ rest) = xor_all (xor_prefix reconstructed payload) rest

-- `chunks_exact(4)` read as floats.
abbrev pub read_floats : List ℕ → List ℕ
read_floats (a ∷ b ∷ c ∷ d ∷ rest) = f32_from_le_bytes a b c d ∷ read_floats rest
read_floats _ = []

abbrev pub recovered_packet : ParsedFecPacket → ℕ → ParsedPacket
recovered_packet fec missing_seq = record {
  sub_stream_index = 0;
  stream_id = fec.stream_id;
  sequence_number = missing_seq;
  presentation_timestamp_ns = fec.presentation_timestamp_ns;
  channel_count = fec.channel_count;
  sample_format = sample_format_float32;
  sample_rate = fec.sample_rate;
  samples_per_channel = fec.samples_per_channel;
  payload_offset = 0;
}

-- What follows the test that exactly one packet is missing: the decoder after it, with the packet.
pub reconstruct :
    FecDecoder → ParsedFecPacket → ℕ → List ℕ → Option ((ParsedPacket × List ℕ) × FecDecoder)
reconstruct d fec missing_seq reconstructed = do
  expected_samples ← checked_mul fec.channel_count fec.samples_per_channel
  expected_bytes ← checked_mul expected_samples 4
  none_if (ltb (length reconstructed) expected_bytes)
  let bytes = take expected_bytes reconstructed
  let d' = record_received d missing_seq bytes
  some (
    (recovered_packet fec missing_seq, read_floats bytes),
    record d' { recovered_count = saturating_add d'.recovered_count 1 },
  )

-- The decoder after the call, which is unchanged where the result is none.
pub decode_fec : FecDecoder → ParsedFecPacket → List ℕ → Option (ParsedPacket × List ℕ) × FecDecoder
decode_fec d fec parity =
    let (missing, present) = scan_group d.history fec.base_sequence_number 0 fec.packet_count in
    elim missing [
      | [] ↦ (none, d)
      | missing_seq ∷ more ↦ elim more [
        | [] ↦ elim (reconstruct d fec missing_seq (xor_all parity present)) [
          | some (found, d') ↦ (some found, d')
          | none ↦ (none, d)
        ]
        | _ ∷ _ ↦ (none, d)
      ]
    ]
