-- ===== src/XtRecent/Parser/Wire.antt =====
-- The bytes that src/xt_recent/xt_recent_parser.cpp writes for an action, and what a receiver makes of
-- them.
use ssyncd.Common.{
  ℕ, suc, ◌+◌, ◌-◌, ◌%◌, ◌^◌, ◌<◌, ◌≡◌, ◌≢◌, [], ◌∷◌, ◌++◌, append_assoc, arith, length,
  length-append, take, take-append, take-append_suc, All, if◌then◌else◌,
}
use ssyncd.Common.Bytes.{Bytes, IsByte}
use ssyncd.Helpers.Utils.{family_code, family_of, c_str_self, get_ip_address_v4-dotted, dotted}
use ssyncd.Connection.Packet.{ConnPacket, xt_recent_sync}
use ssyncd.Connection.PacketParser.{written, serialize_base, char_size}
use ssyncd.Connection.PacketParser.Frame.{
  IsWireHeader, framed, received_header, patch_size-serialize_base,
}
use ssyncd.XtRecent.Entry.{XtRecentEntry, Indeterminate, new_entry}
use ssyncd.XtRecent.Action.{
  XtRecentAction, ActionType, add_upd_entry, delete_entry, action_code, action_of,
}
use ssyncd.XtRecent.Parser.{
  has_address, entry_bytes, copied_name, finish, tail_bytes, whole_packet, serialize_action,
}

pub record Address : Type 0 where
  pub a : ℕ
  pub b : ℕ
  pub c : ℕ
  pub d : ℕ

abbrev pub address_text : Address → Bytes
address_text q = dotted q.a q.b q.c q.d

-- An action whose every field fits its place on the wire, from the address `q`.
pub record IsSendable (q : Address) (x : XtRecentAction) : Type 0 where
  pub header : IsWireHeader x.pkt
  pub type : x.pkt.type ≡ xt_recent_sync
  pub action_byte : IsByte (action_code x.action)
  pub action_known : action_of (action_code x.action) ≡ x.action
  pub family_byte : IsByte (family_code x.target_entry.ip_family)
  pub family_known : family_of (family_code x.target_entry.ip_family) ≡ x.target_entry.ip_family
  pub source : x.target_entry.src_ip ≡ address_text q
  pub byte_a : IsByte q.a
  pub byte_b : IsByte q.b
  pub byte_c : IsByte q.c
  pub byte_d : IsByte q.d
  pub index_byte : IsByte x.target_entry.last_seen_index
  pub ttl_byte : IsByte x.target_entry.ttl
  pub count : length x.target_entry.timestamps < 256
  pub stamps : All (λ t. t < 256 ^ 8) x.target_entry.timestamps
  pub name : All (λ c. c ≢ 0) x.xt_table_name
  pub short : length x.xt_table_name < 255

-- The part of an entry that an action of this type carries; the rest is indeterminate.
unfoldable pub received_entry : Indeterminate → ActionType → XtRecentEntry → XtRecentEntry
received_entry g add_upd_entry e = record e { last_seen = g.last_seen }
received_entry g delete_entry e = record (new_entry g) {
  ip_family = e.ip_family;
  src_ip = e.src_ip;
}
received_entry g _ e = new_entry g

unfoldable pub received_action : Indeterminate → XtRecentAction → ℕ → XtRecentAction
received_action g x n = record x {
  pkt = received_header x.pkt n;
  target_entry = received_entry g x.action x.target_entry;
}

abbrev pub address_bytes : Address → XtRecentAction → Bytes
address_bytes q x =
    if has_address x.action
    then family_code x.target_entry.ip_family % 256 ∷ q.a ∷ q.b ∷ q.c ∷ q.d ∷ []
    else []

-- What follows the header.
abbrev pub body : Address → XtRecentAction → Bytes
body q x =
    action_code x.action % 256
    ∷ (address_bytes q x
        ++ (entry_bytes x.action x.target_entry
            ++ ((length x.xt_table_name + 1) % 256 ∷ x.xt_table_name)))

pub regroup : (a e n z : Bytes) → a ++ (e ++ (n ++ z)) ≡ (a ++ (e ++ n)) ++ z
regroup a e n z = simp append_assoc

copied_name_lem :
    (heap s : Bytes) → All (λ c. c ≢ 0) s → copied_name heap s (length s + 1) ≡ s ++ (0 ∷ [])
unfolding copied_name
copied_name_lem heap s h =
    let size : length s + 1 ≡ suc (length s) = omega arith in
    rw (c_str_self s h) (rw size (take-append_suc s 0 _))

without_last : (s : Bytes) → take (length (s ++ (0 ∷ [])) - 1) (s ++ (0 ∷ [])) ≡ s
without_last s =
    let size : length (s ++ (0 ∷ [])) - 1 ≡ length s = omega (arith, length-append s (0 ∷ [])) in
    rw size (take-append s (0 ∷ []))

finish_lem :
    (p : ConnPacket) (s : Bytes) → finish (serialize_base p ++ (s ++ (0 ∷ []))) ≡ framed p s
unfolding finish
finish_lem p s =
    rw (← append_assoc (serialize_base p) s (0 ∷ []))
      (rw (without_last (serialize_base p ++ s)) (patch_size-serialize_base p s))

finish_parts :
    (p : ConnPacket) (code : ℕ) (a e : Bytes) (n : ℕ) (name : Bytes)
    → finish (serialize_base p ++ (code ∷ (a ++ (e ++ (n ∷ (name ++ (0 ∷ [])))))))
      ≡ framed p (code ∷ (a ++ (e ++ (n ∷ name))))
finish_parts p code a e n name =
    rw (regroup a e (n ∷ name) (0 ∷ [])) (finish_lem p (code ∷ (a ++ (e ++ (n ∷ name)))))

whole_packet_lem :
    (heap : ℕ → Bytes) (q : Address) (x : XtRecentAction)
    → IsSendable q x
    → whole_packet heap x (address_bytes q x) ≡ framed x.pkt (body q x)
unfolding whole_packet tail_bytes
whole_packet_lem heap q x s =
    rw (copied_name_lem (heap (length x.xt_table_name + 1)) x.xt_table_name s.name) (
      finish_parts x.pkt _ (address_bytes q x) (entry_bytes x.action x.target_entry) _
        x.xt_table_name)

-- A sendable action goes out as one frame.
pub serialize_action_lem :
    (heap : ℕ → Bytes) (q : Address) (x : XtRecentAction)
    → IsSendable q x
    → serialize_action heap x
      ≡ written (framed x.pkt (body q x)) (char_size (length (framed x.pkt (body q x))))
unfolding serialize_action
serialize_action_lem heap q x s = ground (
  arith,
  s.source,
  get_ip_address_v4-dotted q.a q.b q.c q.d s.byte_a s.byte_b s.byte_c s.byte_d,
  whole_packet_lem heap q x s,
)
