-- ===== src/XtRecent/Parser.antt =====
-- src/xt_recent/xt_recent_parser.cpp
pub mod Wire
pub mod RoundTrip
use ssyncd.Common.{
  ℕ, zero, suc, ◌+◌, ◌-◌, ◌*◌, ◌/◌, ◌%◌, ◌^◌, ◌≡◌, refl, Bool, true, false, Option, none, some,
  List, [], ◌∷◌, ◌++◌, arith, length, take, drop, if◌then◌else◌,
}
use ssyncd.Common.Bytes.{Bytes, le_bytes}
use ssyncd.Common.Decimal.{to_string}
use ssyncd.Helpers.Utils.{IpFamily, family_code, family_of, c_str, get_ip_address_v4, dotted}
use ssyncd.Connection.Cursor.{Read, fault, got, Reader, ◌>>=◌, pure, next, next_bytes, next_le}
use ssyncd.Connection.Packet.{ConnPacket, PacketType, xt_recent_sync}
use ssyncd.Connection.PacketParser.{
  Serialized, written, refused, raised, serialize_base, deserialize_base, patch_size, char_size,
}
use ssyncd.XtRecent.Entry.{XtRecentEntry, Indeterminate, new_entry, set_src_ip}
use ssyncd.XtRecent.Action.{
  XtRecentAction, ActionType, add_upd_entry, delete_entry, action_code, action_of,
  action_from_packet,
}

unfoldable pub has_address : ActionType → Bool
has_address add_upd_entry = true
has_address delete_entry = true
has_address _ = false

unfoldable pub has_stamps : ActionType → Bool
has_stamps add_upd_entry = true
has_stamps _ = false

unfoldable pub stamp_bytes : List ℕ → Bytes
stamp_bytes [] = []
stamp_bytes (t ∷ ts) = le_bytes 8 t ++ stamp_bytes ts

-- The part under `action == ADD_UPD_ENTRY`.
unfoldable pub entry_bytes : ActionType → XtRecentEntry → Bytes
unfolding has_stamps stamp_bytes
entry_bytes a e =
    if has_stamps a
    then (e.last_seen_index % 256 ∷ e.ttl % 256 ∷ length e.timestamps % 256 ∷ [])
      ++ stamp_bytes e.timestamps
    else []

-- strcpy into an array of `size` chars that held `heap`, and the loop that writes it out
unfoldable pub copied_name : Bytes → Bytes → ℕ → Bytes
copied_name heap name size = take size (c_str name ++ (0 ∷ drop (suc (length (c_str name))) heap))

-- The packet with its `*out_size` lowered by one: the final NUL of the name is not sent.
unfoldable pub finish : Bytes → Bytes
finish out = patch_size (take (length out - 1) out)

-- Everything after the address.
unfoldable pub tail_bytes : (ℕ → Bytes) → XtRecentAction → Bytes
unfolding entry_bytes copied_name
tail_bytes heap a =
    let name_size = length a.xt_table_name + 1 in
    entry_bytes a.action a.target_entry
    ++ (name_size % 256 ∷ copied_name (heap name_size) a.xt_table_name name_size)

unfoldable pub whole_packet : (ℕ → Bytes) → XtRecentAction → Bytes → Bytes
unfolding tail_bytes
whole_packet heap a address =
    finish (serialize_base a.pkt ++ (action_code a.action % 256 ∷ (address ++ tail_bytes heap a)))

-- xt_recent_action_parser::serialize. `heap n` is what a new array of `n` chars holds.
unfoldable pub serialize_action : (ℕ → Bytes) → XtRecentAction → Serialized
unfolding whole_packet has_address
serialize_action heap a =
    if has_address a.action
    then elim (get_ip_address_v4 a.target_entry.src_ip) [
      | none ↦ raised
      | some parts ↦
          let out = whole_packet heap a (family_code a.target_entry.ip_family % 256 ∷ parts) in
          written out (char_size (length out))
    ]
    else let out = whole_packet heap a [] in written out (char_size (length out))

unfoldable pub read_stamps : ℕ → Reader (List ℕ)
read_stamps zero = pure []
read_stamps (suc n) = next_le 8 >>= λ t. read_stamps n >>= λ ts. pure (t ∷ ts)

-- The part under `action == ADD_UPD_ENTRY || action == DELETE_ENTRY`.
unfoldable pub read_address : XtRecentEntry → Reader XtRecentEntry
read_address e = next >>= λ family. next >>= λ a. next >>= λ b. next >>= λ c.
    next >>= λ d. pure (record e { ip_family = family_of family; src_ip = dotted a b c d })

-- The part under `action == ADD_UPD_ENTRY`.
unfoldable pub read_entry : XtRecentEntry → Reader XtRecentEntry
unfolding read_stamps
read_entry e = next >>= λ index. next >>= λ ttl. next >>= λ count. read_stamps count >>= λ stamps.
    pure (record e { last_seen_index = index; ttl = ttl; timestamps = stamps })

unfoldable pub read_target : ActionType → XtRecentEntry → Reader XtRecentEntry
unfolding has_address has_stamps read_address read_entry
read_target action e = (if has_address action then read_address e else pure e) >>= λ e'.
    if has_stamps action then read_entry e' else pure e'

-- Everything after the header. A length byte of 0 is skipped like one of 1.
unfoldable pub read_action : Indeterminate → ConnPacket → Reader (Option XtRecentAction)
read_action g p = next >>= λ code. read_target (action_of code) (new_entry g) >>= λ e.
    next >>= λ len. next_bytes (len - 1) >>= λ name.
    let made = action_from_packet g (action_of code) p in
    pure (some (record made { target_entry = e; xt_table_name = name }))

unfoldable pub read_if_action : Indeterminate → ConnPacket → Reader (Option XtRecentAction)
read_if_action g p = elim p.type [ xt_recent_sync ↦ read_action g p | _ ↦ pure none ]

-- xt_recent_action_parser::deserialize
unfoldable pub deserialize_action : Indeterminate → ℕ → Bytes → Read (Option XtRecentAction)
deserialize_action g buffer_size buffer = elim (deserialize_base buffer_size buffer) [
  | fault ↦ fault
  | got none used rest ↦ got none used rest
  | got (some p) used rest ↦ read_if_action g p used rest
]

-- xt_recent_table_parser::deserialize and ::serialize
unfoldable pub deserialize_table : ℕ → Bytes → Read (Option ConnPacket)
deserialize_table buffer_size buffer = got none 0 buffer

unfoldable pub serialize_table : ConnPacket → Serialized
serialize_table p = refused
