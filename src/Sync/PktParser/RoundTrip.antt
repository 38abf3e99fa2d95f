-- ===== src/Sync/PktParser/RoundTrip.antt =====
-- A packet that src/sync/pkt_parser.cpp writes is read back, whichever parser its type picks.
use ssyncd.Common.{ℕ, ◌+◌, ◌≡◌, refl, some, ◌++◌, arith, length}
use ssyncd.Common.Bytes.{Bytes}
use ssyncd.Connection.Cursor.{got}
use ssyncd.Connection.Packet.{ConnPacket, sync_request}
use ssyncd.Connection.PacketParser.{written, serialize_base, deserialize_base, char_size}
use ssyncd.Connection.PacketParser.Frame.{IsWireHeader, framed, received_header}
use ssyncd.XtRecent.Action.{XtRecentAction}
use ssyncd.XtRecent.Parser.RoundTrip as Recent
use ssyncd.Http.Session.{HttpAction}
use ssyncd.Http.Parser.RoundTrip as Pound
use ssyncd.Sync.PktParser.{
  Packet, plain, recent, http, Unset, serialize, deserialize_as, deserialize,
}

-- A packet whose fields fit the wire. Of the plain packets only SYNC_REQUEST is ever sent, and its
-- length is 0.
pub data IsSendable : Packet → Type 0 where
  plain_sendable :
      (p : ConnPacket)
      → IsWireHeader p
      → p.type ≡ sync_request
      → p.pkt_len ≡ 0
      → IsSendable (plain p)
  recent_sendable :
      (q : Recent.Address) (x : XtRecentAction) → Recent.IsSendable q x → IsSendable (recent x)
  http_sendable : (x : HttpAction) → Pound.IsSendable x → IsSendable (http x)

-- The packet as the receiver sees it, before it sets the fd.
unfoldable pub received : Unset → Packet → ℕ → Packet
received u (plain p) n = plain (received_header p 0)
received u (recent x) n = recent (Recent.received_action u.entry x n)
received u (http x) n = http (Pound.received_http u.action x n)

-- The bytes of a sendable packet.
unfoldable pub wire : {pkt : Packet} → IsSendable pkt → Bytes
wire (plain_sendable p w t z) = serialize_base p
wire (recent_sendable q x s) = framed x.pkt (Recent.body q x)
wire (http_sendable x s) = Pound.frame x s

deserialize_base-sync_request :
    (p : ConnPacket) (more : Bytes) (extra : ℕ)
    → IsWireHeader p
    → p.pkt_len ≡ 0
    → deserialize_base (5 + extra) (serialize_base p ++ more)
      ≡ got (some (received_header p 0)) 5 more
unfolding deserialize_base serialize_base
deserialize_base-sync_request p more extra w z = ground (arith, w.known)

pub length-serialize_base : (p : ConnPacket) → length (serialize_base p) ≡ 5
unfolding serialize_base
length-serialize_base p = refl

pub serialize-wire :
    (u : Unset) {pkt : Packet} (s : IsSendable pkt)
    → (n : ℕ) × (serialize u pkt ≡ written (wire s) n)
unfolding serialize wire
serialize-wire u (plain_sendable p w t z) = (p.pkt_len, ground (arith, t))
serialize-wire u (recent_sendable q x s) = (
  char_size (length (wire (recent_sendable q x s))),
  ground (arith, s.type, Recent.serialize_action_lem u.heap q x s),
)
serialize-wire u (http_sendable x s) = (
  char_size (length (wire (http_sendable x s))),
  ground (arith, s.type, Pound.serialize_http_lem x s),
)

pub deserialize-wire :
    (u : Unset) {pkt : Packet} (s : IsSendable pkt) (more : Bytes) (extra : ℕ)
    → deserialize u (length (wire s) + extra) (wire s ++ more)
      ≡ got (some (received u pkt (length (wire s)))) (length (wire s)) more
unfolding deserialize deserialize_as wire received
deserialize-wire u (plain_sendable p w t z) more extra =
    ground (arith, t, length-serialize_base p, deserialize_base-sync_request p more extra w z)
deserialize-wire u (recent_sendable q x s) more extra = ground (
  arith,
  s.type,
  Recent.deserialize_base-frame u.entry q x s more extra,
  Recent.deserialize_action-frame u.entry q x s more extra,
)
deserialize-wire u (http_sendable x s) more extra = ground (
  arith,
  s.type,
  Pound.deserialize_base-frame x s more extra,
  Pound.deserialize_http-frame x s u.action more extra,
)

-- A plain SYNC_REQUEST of length 0, a recent action of an IPv4 address whose fields fit the wire, or an
-- HTTP action whose texts are shorter than 256 bytes is written by the parser that its type picks, and
-- read back from any buffer that begins with its bytes: as `received` says, the same class of packet with
-- its fields, but for an HTTP action's listener, service and backend, which arrive modulo 256. Exactly
-- those bytes are used.
pub deserialize-serialize :
    (u : Unset) (pkt : Packet) (more : Bytes) (extra : ℕ)
    → IsSendable pkt
    → (out : Bytes) × (n : ℕ) × (serialize u pkt ≡ written out n)
      × (deserialize u (length out + extra) (out ++ more)
          ≡ got (some (received u pkt (length out))) (length out) more)
deserialize-serialize u pkt more extra s =
    let (n, sent) = serialize-wire u s in (wire s, n, sent, deserialize-wire u s more extra)
