-- ===== src/Connection/Packet.antt =====
-- src/connection/conn_packet.h
use ssyncd.Common.{ℕ, ◌≡◌, Option, none, arith, ◌==◌, if◌then◌else◌}

-- enum packet_type; a byte of the wire that names none of them is `other_type`.
pub data PacketType : Type 0 where
  connect disconnect generic xt_recent_sync xt_recent_table http_sync ctl_command sync_request :
      PacketType
  other_type : ℕ → PacketType

unfoldable pub packet_code : PacketType → ℕ
packet_code connect = 1
packet_code disconnect = 2
packet_code generic = 3
packet_code xt_recent_sync = 4
packet_code xt_recent_table = 5
packet_code http_sync = 6
packet_code ctl_command = 7
packet_code sync_request = 8
packet_code (other_type n) = n

-- (packet_type) buffer[2]
unfoldable pub packet_type_of : ℕ → PacketType
packet_type_of n =
    if n == 1
    then connect
    else if n == 2
    then disconnect
    else if n == 3
    then generic
    else if n == 4
    then xt_recent_sync
    else if n == 5
    then xt_recent_table
    else if n == 6
    then http_sync
    else if n == 7
    then ctl_command
    else if n == 8
    then sync_request
    else other_type n

pub packet_type_of-packet_code : (n : ℕ) → packet_code (packet_type_of n) ≡ n
unfolding packet_type_of packet_code
packet_type_of-packet_code n = ground arith

-- class conn_packet. `fd` is `none` for -1, which means a broadcast.
pub record ConnPacket : Type 0 where
  pub fd : Option ℕ
  pub type : PacketType
  pub header_1 : ℕ
  pub header_2 : ℕ
  pub pkt_len : ℕ

-- conn_packet(packet_type)
abbrev pub conn_packet : PacketType → ConnPacket
conn_packet t = record { fd = none; type = t; header_1 = 0xef; header_2 = 0xab; pkt_len = 0 }
