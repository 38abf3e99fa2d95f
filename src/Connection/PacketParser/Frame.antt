-- ===== src/Connection/PacketParser/Frame.antt =====
-- The five header bytes of src/connection/packet_parser.cpp with a body behind them, as a packet
-- looks on the wire.
use ssyncd.Common.{
  ℕ, suc, ◌+◌, ◌/◌, ◌%◌, ◌≤◌, ◌<◌, ◌≡◌, refl, ◌≢◌, none, some, [], ◌∷◌, ◌++◌, arith, length,
  length-append,
}
use ssyncd.Common.Bytes.{Bytes, IsByte}
use ssyncd.Connection.Cursor.{got}
use ssyncd.Connection.Packet.{ConnPacket, packet_code, packet_type_of}
use ssyncd.Connection.PacketParser.{serialize_base, patch_size, deserialize_base}

-- Header fields that one byte each can carry.
pub record IsWireHeader (p : ConnPacket) : Type 0 where
  pub first : IsByte p.header_1
  pub second : IsByte p.header_2
  pub code_byte : IsByte (packet_code p.type)
  pub known : packet_type_of (packet_code p.type) ≡ p.type

abbrev pub framed : ConnPacket → Bytes → Bytes
framed p body =
    p.header_1 % 256
    ∷ p.header_2 % 256
    ∷ packet_code p.type % 256
    ∷ (5 + length body) % 256
    ∷ (5 + length body) / 256 % 256
    ∷ body

-- The header as the receiver sees it.
abbrev pub received_header : ConnPacket → ℕ → ConnPacket
received_header p n = record p { fd = none; pkt_len = n }

pub length-framed : (p : ConnPacket) (body : Bytes) → length (framed p body) ≡ 5 + length body
length-framed p body = omega arith

pub patch_size-serialize_base :
    (p : ConnPacket) (body : Bytes) → patch_size (serialize_base p ++ body) ≡ framed p body
unfolding patch_size serialize_base
patch_size-serialize_base p body = ground arith

-- The header of a frame is read back, and its five bytes are used.
pub deserialize_base-framed :
    (p : ConnPacket) (body more : Bytes) (buffer_size : ℕ)
    → IsWireHeader p
    → 5 + length body ≤ buffer_size
    → length body < 65531
    → deserialize_base buffer_size (framed p body ++ more)
      ≡ got (some (received_header p (5 + length body))) 5 (body ++ more)
unfolding deserialize_base
deserialize_base-framed p body more buffer_size w fits short = ground (arith, w.known)

-- A frame that has not come whole is answered with nullptr.
pub deserialize_base-part :
    (p : ConnPacket) (body part missing junk : Bytes)
    → length body < 65531
    → framed p body ≡ part ++ missing
    → missing ≢ []
    → (used : ℕ) × (rest : Bytes) × (deserialize_base (length part) (part ++ junk)
        ≡ got none used rest)
unfolding deserialize_base
deserialize_base-part p body [] missing junk short e n = (0, junk, refl)
deserialize_base-part p body (a ∷ []) missing junk short e n = (0, a ∷ junk, refl)
deserialize_base-part p body (a ∷ b ∷ []) missing junk short e n = (0, a ∷ b ∷ junk, refl)
deserialize_base-part p body (a ∷ b ∷ c ∷ []) missing junk short e n = (0, a ∷ b ∷ c ∷ junk, refl)
deserialize_base-part p body (a ∷ b ∷ c ∷ d ∷ []) missing junk short e n =
    (0, a ∷ b ∷ c ∷ d ∷ junk, refl)
deserialize_base-part p body (a ∷ b ∷ c ∷ d ∷ x ∷ r) [] junk short e n = absurd (n refl)
deserialize_base-part p body (a ∷ b ∷ c ∷ d ∷ x ∷ r) (m ∷ ms) junk short e n =
    let body_split : body ≡ r ++ (m ∷ ms) = cc in
    let sizes : length body ≡ length r + suc (length ms) =
      rw body_split (length-append r (m ∷ ms)) in
    (5, r ++ junk, ground (arith, e, sizes))
