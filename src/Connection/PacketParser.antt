-- ===== src/Connection/PacketParser.antt =====
-- src/connection/packet_parser.cpp: the five bytes that head every packet.
pub mod Frame
use ssyncd.Common.{
  ℕ, suc, ◌+◌, ◌*◌, ◌/◌, ◌%◌, ◌≤◌, ◌<◌, ◌≡◌, refl, Option, none, some, List, [], ◌∷◌, ◌++◌, arith,
  ltb, if◌then◌else◌, set, length, length-append,
}
use ssyncd.Common.Bytes.{Bytes}
use ssyncd.Connection.Cursor.{Read, got, fault, Reader, ◌>>=◌, pure, next}
use ssyncd.Connection.Packet.{ConnPacket, PacketType, conn_packet, packet_code, packet_type_of}

-- The result of a `serialize`: the bytes with the `pkt_len` that the packet is left with, the
-- value false, or an exception.
pub data Serialized : Type 0 where
  written : Bytes → ℕ → Serialized
  refused raised : Serialized

-- base_pkt_parser::serialize, the bytes below `*out_size`
unfoldable pub serialize_base : ConnPacket → Bytes
serialize_base p =
    p.header_1 % 256
    ∷ p.header_2 % 256
    ∷ packet_code p.type % 256
    ∷ p.pkt_len % 256
    ∷ p.pkt_len / 256 % 256
    ∷ []

-- out_buffer[3] and out_buffer[4] take the size that was reached.
unfoldable pub patch_size : Bytes → Bytes
patch_size out = set (set out 3 (length out % 256)) 4 (length out / 256 % 256)

-- static_cast<char>(*out_size), converted to unsigned int: the low byte, sign-extended
unfoldable pub char_size : ℕ → ℕ
char_size n = if ltb (n % 256) 128 then n % 256 else 4294967040 + n % 256

-- The part of base_pkt_parser::deserialize under `buffer_size >= 5`.
unfoldable pub read_header : ℕ → Reader (Option ConnPacket)
unfolding next
read_header buffer_size = next >>= λ header_1. next >>= λ header_2. next >>= λ type. next >>= λ low.
    next >>= λ high.
    let packet : ConnPacket = record {
      fd = none;
      type = packet_type_of type;
      header_1 = header_1;
      header_2 = header_2;
      pkt_len = low + 256 * high;
    } in
    pure (if ltb buffer_size (low + 256 * high) then none else some packet)

-- base_pkt_parser::deserialize. It reads from the start of the buffer.
unfoldable pub deserialize_base : ℕ → Bytes → Read (Option ConnPacket)
unfolding read_header
deserialize_base buffer_size buffer =
    if ltb buffer_size 5 then got none 0 buffer else read_header buffer_size 0 buffer
