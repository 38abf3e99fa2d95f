-- ===== src/Sync/PktParser/Framing.antt =====
-- The parser of src/sync/pkt_parser.cpp as the packet_parser of the connection.
use ssyncd.Common.{
  ℕ, ◌+◌, ◌≤◌, ◌<◌, ◌≡◌, ◌≢◌, refl, sym, ap, ◌∙◌, some, [], ◌∷◌, ◌++◌, arith, length, length-append,
  lt→ltb,
}
use ssyncd.Common.Bytes.{Bytes}
use ssyncd.Connection.Cursor.{got}
use ssyncd.Connection.PacketParser.{serialize_base, deserialize_base}
use ssyncd.Connection.PacketParser.Frame.{length-framed, deserialize_base-part}
use ssyncd.Connection.Receive.Codec.{Codec, IsNull}
use ssyncd.XtRecent.Parser.RoundTrip as Recent
use ssyncd.Http.Parser.RoundTrip as Pound
use ssyncd.Http.Parser.{http_body}
use ssyncd.Sync.PktParser.{Packet, Unset, deserialize}
use ssyncd.Sync.PktParser.RoundTrip.{
  IsSendable, plain_sendable, recent_sendable, http_sendable, received, wire, length-serialize_base,
  deserialize-wire,
}

-- The bytes of a sendable packet, and the packet that they are read as.
pub record IsFrame (u : Unset) (w : Bytes) (p : Packet) : Type 0 where
  pub sent : Packet
  pub sendable : IsSendable sent
  pub bytes : w ≡ wire sendable
  pub read_as : p ≡ received u sent (length w)

length-wire :
    {pkt : Packet} (s : IsSendable pkt) → (5 ≤ length (wire s)) × (length (wire s) ≤ 65535)
unfolding wire
length-wire (plain_sendable p w t z) = unfold serialize_base in omega arith
length-wire (recent_sendable q x s) =
    omega (arith, length-framed x.pkt (Recent.body q x), Recent.body_short q x s)
length-wire (http_sendable x s) =
    omega (arith, length-framed x.pkt (http_body x), Pound.http_body_short x s)

-- nullptr from the base class is nullptr from the parser.
pub IsNull-base :
    (u : Unset) (size : ℕ) (buffer : Bytes)
    → IsNull (deserialize_base size buffer)
    → IsNull (deserialize u size buffer)
unfolding deserialize
IsNull-base u size buffer (used, rest, e) = (used, rest, rw (e, deserialize))

pub short-IsNull : (size : ℕ) (buffer : Bytes) → size < 5 → IsNull (deserialize_base size buffer)
unfolding deserialize_base
short-IsNull size buffer h = (0, buffer, rw (lt→ltb size 5 h))

base_part :
    {pkt : Packet} (s : IsSendable pkt) (part missing junk : Bytes)
    → wire s ≡ part ++ missing
    → missing ≢ []
    → IsNull (deserialize_base (length part) (part ++ junk))
unfolding wire
base_part (plain_sendable p w t z) part [] junk e n = absurd (n refl)
base_part (plain_sendable p w t z) part (m ∷ ms) junk e n =
    short-IsNull (length part) (part ++ junk) (
      omega (
        arith,
        ap (λ (x : Bytes). length x) e,
        length-append part (m ∷ ms),
        length-serialize_base p,
      ))
base_part (recent_sendable q x s) part missing junk e n =
    deserialize_base-part x.pkt (Recent.body q x) part missing junk (Recent.body_short q x s) e n
base_part (http_sendable x s) part missing junk e n =
    deserialize_base-part x.pkt (http_body x) part missing junk (Pound.http_body_short x s) e n

pub frame_length :
    (u : Unset) (w : Bytes) (p : Packet) → IsFrame u w p → (5 ≤ length w) × (length w ≤ 65535)
frame_length u w p f = rw f.bytes (length-wire f.sendable)

pub parse_frame :
    (u : Unset) (w : Bytes) (p : Packet) (more : Bytes) (extra : ℕ)
    → IsFrame u w p
    → deserialize u (length w + extra) (w ++ more) ≡ got (some p) (length w) more
parse_frame u w p more extra f = rw (f.read_as, f.bytes) (deserialize-wire u f.sendable more extra)

pub parse_part :
    (u : Unset) (w : Bytes) (p : Packet) (part missing junk : Bytes)
    → IsFrame u w p
    → w ≡ part ++ missing
    → missing ≢ []
    → IsNull (deserialize u (length part) (part ++ junk))
parse_part u w p part missing junk f e n =
    IsNull-base u _ _ (base_part f.sendable part missing junk (sym f.bytes ∙ e) n)

-- pkt_parser as the `data_parser` of a connection
abbrev pub pkt_codec : Unset → Codec Packet
pkt_codec u = record {
  parse = deserialize u;
  IsFrame = IsFrame u;
  frame_length = frame_length u;
  parse_frame = parse_frame u;
  parse_part = parse_part u;
  parse_nil = λ junk. IsNull-base u 0 junk (short-IsNull 0 junk (omega arith));
}
