-- ===== src/XtRecent/Parser/RoundTrip.antt =====
-- What src/xt_recent/xt_recent_parser.cpp writes for an action, and that it reads it back.
use ssyncd.Common.{
  ℕ, ◌+◌, ◌*◌, ◌%◌, ◌^◌, ◌≤◌, ◌<◌, ◌≡◌, none, some, List, [], ◌∷◌, ◌++◌, append_assoc, append-nil,
  arith, length, length-append, All, if◌then◌else◌,
}
use ssyncd.Common.Bytes.{Bytes, IsByte, le_bytes, length-le_bytes}
use ssyncd.Helpers.Utils.{family_code, family_of}
use ssyncd.Connection.Cursor.{got, next, next_bytes-append, next_le-append}
use ssyncd.Connection.Packet.{ConnPacket}
use ssyncd.Connection.PacketParser.{written, deserialize_base, char_size}
use ssyncd.Connection.PacketParser.Frame.{
  framed, received_header, length-framed, deserialize_base-framed,
}
use ssyncd.XtRecent.Entry.{XtRecentEntry, Indeterminate, new_entry}
use ssyncd.XtRecent.Action.{
  XtRecentAction, ActionType, add_upd_entry, delete_entry, flush_table, delete_table, other_action,
}
use ssyncd.XtRecent.Parser.{
  has_address, stamp_bytes, entry_bytes, serialize_action, read_stamps, read_target, read_action,
  read_if_action, deserialize_action,
}
use ssyncd.XtRecent.Parser.Wire.{regroup}
pub use ssyncd.XtRecent.Parser.Wire.{
  Address, address_text, IsSendable, address_bytes, body, serialize_action_lem,
}
unfoldable pub use ssyncd.XtRecent.Parser.Wire.{received_entry, received_action}

read_stamps-append :
    (ts : List ℕ) (rest : Bytes) (used : ℕ)
    → All (λ t. t < 256 ^ 8) ts
    → read_stamps (length ts) used (stamp_bytes ts ++ rest)
      ≡ got ts (used + length (stamp_bytes ts)) rest
unfolding read_stamps stamp_bytes
read_stamps-append [] rest used h = ground arith
read_stamps-append (t ∷ ts) rest used (ht, hts) = ground (
  arith,
  append_assoc (le_bytes 8 t) (stamp_bytes ts) rest,
  next_le-append 8 t (stamp_bytes ts ++ rest) used ht,
  read_stamps-append ts rest (used + 8) hts,
  length-append (le_bytes 8 t) (stamp_bytes ts),
  length-le_bytes 8 t,
)

-- The part of the body that `read_target` reads.
abbrev target_bytes : ActionType → Address → XtRecentEntry → Bytes → Bytes
target_bytes t q e rest =
    (if has_address t then family_code e.ip_family % 256 ∷ q.a ∷ q.b ∷ q.c ∷ q.d ∷ [] else [])
    ++ (entry_bytes t e ++ rest)

read_target-append :
    (g : Indeterminate) (t : ActionType) (q : Address) (e : XtRecentEntry) (rest : Bytes) (used : ℕ)
    → family_of (family_code e.ip_family) ≡ e.ip_family
    → IsByte (family_code e.ip_family)
    → IsByte e.last_seen_index
    → IsByte e.ttl
    → length e.timestamps < 256
    → All (λ x. x < 256 ^ 8) e.timestamps
    → e.src_ip ≡ address_text q
    → read_target t (new_entry g) used (target_bytes t q e rest)
      ≡ got (received_entry g t e) (used + length (target_bytes t q e [])) rest
unfolding read_target entry_bytes received_entry next
read_target-append g add_upd_entry q e rest used known fam index ttl count stamps source = ground (
  arith,
  append_assoc (stamp_bytes e.timestamps) [] rest,
  append-nil (stamp_bytes e.timestamps),
  read_stamps-append e.timestamps rest (used + 8) stamps,
)
read_target-append g delete_entry q e rest used known fam index ttl count stamps source =
    ground arith
read_target-append g flush_table q e rest used known fam index ttl count stamps source =
    ground arith
read_target-append g delete_table q e rest used known fam index ttl count stamps source =
    ground arith
read_target-append g (other_action n) q e rest used known fam index ttl count stamps source =
    ground arith

length-stamp_bytes : (ts : List ℕ) → length (stamp_bytes ts) ≡ 8 * length ts
unfolding stamp_bytes
length-stamp_bytes [] = omega arith
length-stamp_bytes (t ∷ ts) = omega (
  arith,
  length-stamp_bytes ts,
  length-append (le_bytes 8 t) (stamp_bytes ts),
  length-le_bytes 8 t,
)

length-target_bytes :
    (t : ActionType) (q : Address) (e : XtRecentEntry) (rest : Bytes)
    → length e.timestamps < 256
    → length (target_bytes t q e rest) ≤ 2053 + length rest
unfolding entry_bytes
length-target_bytes t q e rest h =
    ground (arith, length-stamp_bytes e.timestamps, length-append (stamp_bytes e.timestamps) rest)

length-target_bytes_nil :
    (t : ActionType) (q : Address) (e : XtRecentEntry) (rest : Bytes)
    → length (target_bytes t q e rest) ≡ length (target_bytes t q e []) + length rest
unfolding entry_bytes
length-target_bytes_nil t q e rest =
    ground
      (arith, length-append (stamp_bytes e.timestamps) rest, append-nil (stamp_bytes e.timestamps))

pub body_short : (q : Address) (x : XtRecentAction) → IsSendable q x → length (body q x) < 65531
body_short q x s = omega (
  arith,
  length-target_bytes x.action q x.target_entry
      ((length x.xt_table_name + 1) % 256 ∷ x.xt_table_name) s.count,
  s.short,
)

module _ (g : Indeterminate) (q : Address) (x : XtRecentAction) (s : IsSendable q x) where
  abbrev entry : XtRecentEntry
  entry = x.target_entry

  abbrev name_bytes : Bytes
  name_bytes = (length x.xt_table_name + 1) % 256 ∷ x.xt_table_name

  read_target_lem :
      (more : Bytes)
      → read_target x.action (new_entry g) 6 (target_bytes x.action q entry (name_bytes ++ more))
        ≡ got
            (received_entry g x.action entry)
            (6 + length (target_bytes x.action q entry []))
            (name_bytes ++ more)
  read_target_lem more =
      read_target-append g x.action q entry (name_bytes ++ more) 6 s.family_known s.family_byte
        s.index_byte s.ttl_byte s.count s.stamps s.source

  read_action_lem :
      (p : ConnPacket) (more : Bytes)
      → read_action g p 5 (body q x ++ more)
        ≡ got
            (some (record x {
              pkt = record p { fd = none };
              target_entry = received_entry g x.action entry;
            }))
            (5 + length (body q x))
            more
  unfolding read_action next
  read_action_lem p more =
      rw (← regroup (address_bytes q x) (entry_bytes x.action entry) name_bytes more) (
        ground (
          arith,
          s.action_known,
          s.action_byte,
          s.short,
          read_target_lem more,
          length-target_bytes_nil x.action q entry name_bytes,
          next_bytes-append x.xt_table_name more (7 + length (target_bytes x.action q entry [])),
        ))

  abbrev pub frame : Bytes
  frame = framed x.pkt (body q x)

  pub deserialize_base-frame :
      (more : Bytes) (extra : ℕ)
      → deserialize_base (length frame + extra) (frame ++ more)
        ≡ got (some (received_header x.pkt (length frame))) 5 (body q x ++ more)
  deserialize_base-frame more extra = ground (
    arith,
    length-framed x.pkt (body q x),
    deserialize_base-framed x.pkt (body q x) more (length frame + extra) s.header
        (omega (arith, length-framed x.pkt (body q x))) (body_short q x s),
  )

  pub deserialize_action-frame :
      (more : Bytes) (extra : ℕ)
      → deserialize_action g (length frame + extra) (frame ++ more)
        ≡ got (some (received_action g x (length frame))) (length frame) more
  unfolding deserialize_action read_if_action received_action
  deserialize_action-frame more extra = ground (
    arith,
    s.type,
    length-framed x.pkt (body q x),
    deserialize_base-frame more extra,
    read_action_lem (received_header x.pkt (length frame)) more,
  )

-- For an action whose fields fit the wire, `serialize` writes a packet, whatever the new array
-- held, and `deserialize` reads that packet back from any buffer that begins with it: it uses
-- exactly the bytes of the packet, keeps the table name, the address and the action, and for
-- ADD_UPD_ENTRY the index, the ttl and the timestamps.
pub deserialize_action-serialize_action :
    (g : Indeterminate) (heap : ℕ → Bytes) (q : Address) (x : XtRecentAction) (more : Bytes)
    (extra : ℕ)
    → IsSendable q x
    → (out : Bytes) × (serialize_action heap x ≡ written out (char_size (length out)))
      × (deserialize_action g (length out + extra) (out ++ more)
          ≡ got (some (received_action g x (length out))) (length out) more)
deserialize_action-serialize_action g heap q x more extra s =
    (frame g q x s, serialize_action_lem heap q x s, deserialize_action-frame g q x s more extra)
