-- ===== src/Protocol/Kinds.antt =====
-- The packet type that `peek_packet_type` reads decides which parser may accept a buffer.
use open_audio.Common.{ℕ, ◌≡◌, ◌⊎◌, arith, none, some, List}
use open_audio.Protocol.{peek_packet_type}
use open_audio.Protocol.Parse.{parse_packet}
use open_audio.Protocol.FecPacket.{parse_fec_packet}
use open_audio.Protocol.NackPacket.{parse_nack_packet}

-- The audio parser, the FEC parser and the NACK parser each refuse every buffer whose peeked type
-- is not their own, so no buffer is taken for two kinds of packet.
pub parsers_disjoint :
    (buf : List ℕ)
    → ((peek_packet_type buf ≡ some 1) ⊎ (parse_packet buf ≡ none))
      × ((peek_packet_type buf ≡ some 2) ⊎ (parse_fec_packet buf ≡ none))
      × ((peek_packet_type buf ≡ some 3) ⊎ (parse_nack_packet buf ≡ none))
unfolding peek_packet_type parse_packet parse_fec_packet parse_nack_packet
parsers_disjoint buf = (ground arith, ground arith, ground arith)
