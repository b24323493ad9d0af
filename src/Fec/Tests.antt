-- ===== src/Fec/Tests.antt =====
-- crates/network-core/src/fec.rs: a group of two packets, one of them lost, and small histories.
use open_audio.Common.{ℕ, ◌+◌, ◌≡◌, refl, arith}
use open_audio.Common.{none, some, List, [], ◌∷◌, slice, wrapping_add}
use open_audio.Common.{saturating_add}
use open_audio.Protocol.{sample_rate_to_code}
use open_audio.Protocol.FecPacket.{ParsedFecPacket, parse_fec_packet}
use open_audio.Protocol.ControlRoundTrip.{FecFields}
use open_audio.Fec.{
  FecEncoder, FecDecoder, accumulate, record_received, decode_fec, recovered_packet, read_floats,
}
use open_audio.Fec.Encoder.{
  Audio, push_each, push_group, IsParityOf, opened, closed, get_or-accumulate_all,
}
use open_audio.Common.{wrapping_add}
use open_audio.Protocol.FecPacket.{encode_fec_packet}
use open_audio.Fec.{packet_of}
use open_audio.Fec.History.{IsValid, record_received-IsValid, record_received_wrapped}
use open_audio.Fec.Recovery.{HoldsAllBut, IsParity, decode_fec_recovers}
use open_audio.Fec.EndToEnd.{payload_at, group_fields, group_recovers}

-- 1.0 and 0.5, one frame of one channel each.
abbrev first_payload : List ℕ
first_payload = 0 ∷ 0 ∷ 128 ∷ 63 ∷ []

abbrev second_payload : List ℕ
second_payload = 0 ∷ 0 ∷ 0 ∷ 63 ∷ []

abbrev audio : ℕ → List ℕ → Audio
audio sequence_number payload = record {
  sequence_number = sequence_number;
  timestamp_ns = 5;
  channels = 1;
  rate = 48000;
  frames = 1;
  payload = payload;
}

abbrev first : Audio
first = audio 10 first_payload

abbrev second : Audio
second = audio 11 second_payload

abbrev fresh : FecEncoder
fresh = record {
  group_size = 2;
  parity_buffer = [];
  count = 0;
  base_sequence_number = 0;
  base_timestamp_ns = 0;
  fec_sequence_number = 0;
  channel_count = 0;
  sample_rate = 0;
  samples_per_channel = 0;
}

-- The decoder got the second packet only.
abbrev partial : FecDecoder
partial = record { history = (11, second_payload) ∷ []; history_capacity = 32; recovered_count = 0 }

abbrev both : List (List ℕ)
both = first_payload ∷ second_payload ∷ []

abbrev fields : ParsedFecPacket
fields = group_fields fresh 7 first 4

fields-FecFields : FecFields fields
unfolding sample_rate_to_code
fields-FecFields = record {
  stream = omega arith;
  sequence = omega arith;
  timestamp = omega arith;
  base = omega arith;
  frames = omega arith;
  some_packets = omega arith;
  some_channels = omega arith;
  some_frames = omega arith;
  known_rate = ground arith;
}

partial-HoldsAllBut : HoldsAllBut 0 partial.history 10 2 (payload_at both)
partial-HoldsAllBut = record {
  held = λ i h n. let one : i ≡ 1 = omega arith in rw one (ground arith);
  lost = ground arith;
}

group_recovers_example :
    (packet : List ℕ) × (push_each fresh 7 (first ∷ second ∷ [])
      ≡ (none ∷ some packet ∷ [], closed (opened fresh first)))
    × (parse_fec_packet packet ≡ some fields)
    × ((decode_fec partial fields (slice packet 36 (36 + 4))).0
        ≡ some (recovered_packet fields (wrapping_add 10 0), read_floats first_payload))
group_recovers_example =
    group_recovers fresh 7 4 first second [] partial 0 refl refl (omega arith) fields-FecFields
      (refl, (refl, tt)) (omega arith) refl (omega arith) partial-HoldsAllBut

push_group_example :
    (parity : List ℕ) × IsParityOf (first_payload ∷ second_payload ∷ []) parity
    × ((push_each fresh 7 (first ∷ second ∷ [])).0
        ≡ none
          ∷ packet_of (
              encode_fec_packet 7 fresh.fec_sequence_number first.timestamp_ns first.sequence_number
                2 first.channels first.rate first.frames parity)
          ∷ [])
    × (let after = (push_each fresh 7 (first ∷ second ∷ [])).1 in
        (after.count ≡ 0)
        × (after.parity_buffer ≡ [])
        × (after.group_size ≡ 2)
        × (after.fec_sequence_number ≡ wrapping_add fresh.fec_sequence_number 1))
push_group_example = push_group fresh 7 first second [] refl refl

abbrev parity : List ℕ
parity = accumulate first_payload second_payload

parity-IsParity : IsParity parity (payload_at both) 2
parity-IsParity t h = get_or-accumulate_all first_payload (second_payload ∷ []) t

decode_fec_recovers_example :
    let d = record_received partial 10 first_payload in
    decode_fec partial fields parity ≡ (
      some (recovered_packet fields 10, read_floats first_payload),
      record d { recovered_count = saturating_add d.recovered_count 1 },
    )
decode_fec_recovers_example =
    decode_fec_recovers partial fields parity (payload_at both) 0 (omega arith) partial-HoldsAllBut
      parity-IsParity refl (omega arith) (omega arith)

-- A full history of two entries, both above 5.
abbrev small : FecDecoder
small = record {
  history = (10, first_payload) ∷ (11, second_payload) ∷ [];
  history_capacity = 2;
  recovered_count = 0;
}

small-IsValid : IsValid small
small-IsValid = record { sorted = ((omega arith, tt), (tt, tt)); bounded = omega arith }

record_received-IsValid_example : IsValid (record_received small 12 first_payload)
record_received-IsValid_example = record_received-IsValid 12 first_payload small-IsValid

record_received_wrapped_example : record_received small 5 first_payload ≡ small
record_received_wrapped_example =
    record_received_wrapped small 5 first_payload small-IsValid refl
      (omega arith, (omega arith, tt))
