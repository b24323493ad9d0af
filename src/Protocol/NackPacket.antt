-- ===== src/Protocol/NackPacket.antt =====
-- crates/network-core/src/protocol.rs: packets that ask for missing audio packets again.
use open_audio.Common.{ℕ, not, ◌||◌, ltb, Option, some, List, [], ◌∷◌, ◌++◌, length, slice}
use open_audio.Common.Bytes.{u16_to_be_bytes, u32_to_be_bytes}
use open_audio.Common.Bytes.{u16_from_be_bytes, u32_from_be_bytes}
use open_audio.Common.Try.{◌>>=◌, ◌>>◌, none_if}
use open_audio.Protocol.{PacketHeader, to_bytes_with_type, has_type, packet_type_nack}

pub record ParsedNackPacket : Type 0 where
  pub stream_id : ℕ
  pub missing_sequence_number : ℕ
  pub missing_count : ℕ

unfoldable pub encode_nack_packet : ℕ → ℕ → ℕ → List ℕ
unfolding to_bytes_with_type
encode_nack_packet stream_id missing_sequence_number missing_count =
    let header : PacketHeader = record {
      sub_stream_index = 0;
      stream_id = stream_id;
      sequence_number = 0;
      presentation_timestamp_ns = 0;
    } in
    to_bytes_with_type header packet_type_nack
    ++ u32_to_be_bytes missing_sequence_number
    ++ u16_to_be_bytes missing_count
    ++ (0 ∷ 0 ∷ [])

-- The reads of the buffer stand behind the test of its length.
unfoldable pub parse_nack_packet : List ℕ → Option ParsedNackPacket
parse_nack_packet buf = do
  none_if (ltb (length buf) 30 || not (has_type buf packet_type_nack))
  stream_id ← u32_from_be_bytes (slice buf 8 12)
  missing_sequence_number ← u32_from_be_bytes (slice buf 24 28)
  missing_count ← u16_from_be_bytes (slice buf 28 30)
  some (record {
    stream_id = stream_id;
    missing_sequence_number = missing_sequence_number;
    missing_count = missing_count;
  })
