-- ===== src/Sync/PktParser.antt =====
-- src/sync/pkt_parser.cpp: the parser that picks another by the type of the packet.
pub mod RoundTrip
pub mod Framing
pub mod Delivery
use ssyncd.Common.{ℕ, Option, none, some}
use ssyncd.Common.Bytes.{Bytes}
use ssyncd.Connection.Cursor.{Read, fault, got}
use ssyncd.Connection.Packet.{ConnPacket, PacketType, xt_recent_sync, xt_recent_table, http_sync}
use ssyncd.Connection.PacketParser.{
  Serialized, written, refused, raised, serialize_base, deserialize_base,
}
use ssyncd.XtRecent.Entry
use ssyncd.XtRecent.Action.{XtRecentAction}
use ssyncd.XtRecent.Parser.{
  serialize_action, deserialize_action, serialize_table, deserialize_table,
}
use ssyncd.Http.Session
use ssyncd.Http.Session.{HttpAction}
use ssyncd.Http.Parser.{serialize_http, deserialize_http}

-- A conn_packet of one of its classes.
pub data Packet : Type 0 where
  plain : ConnPacket → Packet
  recent : XtRecentAction → Packet
  http : HttpAction → Packet

-- The conn_packet part.
abbrev pub base_of : Packet → ConnPacket
base_of (plain p) = p
base_of (recent x) = x.pkt
base_of (http x) = x.pkt

-- new_packet->fd = fd
unfoldable pub set_fd : ℕ → Packet → Packet
set_fd fd (plain p) = plain (record p { fd = some fd })
set_fd fd (recent x) = let p = x.pkt in recent (record x { pkt = record p { fd = some fd } })
set_fd fd (http x) = let p = x.pkt in http (record x { pkt = record p { fd = some fd } })

-- What memory that the program leaves unset happens to hold: a new array of n chars, the fields of
-- a new xt_recent_entry and those of a new http_action.
pub record Unset : Type 0 where
  pub heap : ℕ → Bytes
  pub entry : Entry.Indeterminate
  pub action : Session.Indeterminate

-- The type picks the parser, which casts the packet to its class. A packet of another class has no
-- meaning there; `raised` stands for it.
unfoldable pub serialize_recent : Unset → Packet → Serialized
serialize_recent u (recent x) = serialize_action u.heap x
serialize_recent u (plain p) = raised
serialize_recent u (http x) = raised

unfoldable pub serialize_pound : Packet → Serialized
serialize_pound (http x) = serialize_http x
serialize_pound (plain p) = raised
serialize_pound (recent x) = raised

-- pkt_parser::serialize, with pkt_parser::get_packet_parser. base_pkt_parser leaves pkt_len alone.
unfoldable pub serialize : Unset → Packet → Serialized
unfolding serialize_recent serialize_pound
serialize u pkt = elim (base_of pkt).type [
  | xt_recent_sync ↦ serialize_recent u pkt
  | xt_recent_table ↦ serialize_table (base_of pkt)
  | http_sync ↦ serialize_pound pkt
  | _ ↦ written (serialize_base (base_of pkt)) (base_of pkt).pkt_len
]

-- static_cast to the base class of what a parser returns.
unfoldable pub upcast {ℓ} : {A : Type ℓ} → (A → Packet) → Read (Option A) → Read (Option Packet)
upcast f fault = fault
upcast f (got none used rest) = got none used rest
upcast f (got (some x) used rest) = got (some (f x)) used rest

-- get_packet_parser(type).deserialize(buffer, buffer_size, buffer_used)
unfoldable pub deserialize_as : Unset → PacketType → ℕ → Bytes → Read (Option Packet)
unfolding upcast
deserialize_as u type buffer_size buffer = elim type [
  | xt_recent_sync ↦ upcast recent (deserialize_action u.entry buffer_size buffer)
  | xt_recent_table ↦ upcast plain (deserialize_table buffer_size buffer)
  | http_sync ↦ upcast http (deserialize_http u.action buffer_size buffer)
  | _ ↦ upcast plain (deserialize_base buffer_size buffer)
]

-- pkt_parser::deserialize
unfoldable pub deserialize : Unset → ℕ → Bytes → Read (Option Packet)
deserialize u buffer_size buffer = elim (deserialize_base buffer_size buffer) [
  | fault ↦ fault
  | got none used rest ↦ got none used rest
  | got (some p) used rest ↦ deserialize_as u p.type buffer_size buffer
]
