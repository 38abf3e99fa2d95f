-- ===== src/Sync/RecentData/Lookup.antt =====
-- What base_sync::apply_recent_action of src/sync/base_sync.cpp does to each entry of each table.
use ssyncd.Common.{
  ◌≡◌, refl, ◌∙◌, ap, true, false, ◌&&◌, Option, none, some, [], arith, if◌then◌else◌, Bool-cases,
  inl, inr,
}
use ssyncd.Common.Bytes.{Bytes}
use ssyncd.Common.Ordered.{bytes_ordered, ◌==◌}
use ssyncd.Common.Map.{
  Map, lookup, insert, erase, at_or, has, lookup-insert, lookup-erase, lookup-nil,
}
use ssyncd.XtRecent.Entry.{XtRecentEntry, XtRecentTable, new_table}
use ssyncd.XtRecent.Action.{
  XtRecentAction, ActionType, add_upd_entry, delete_entry, flush_table, delete_table, other_action,
}
use ssyncd.Sync.RecentData.{RecentData, set_entries, put_entries, with_table, apply_recent_action}

-- The entry of an address in a table.
abbrev pub entry_in : Bytes → Option XtRecentTable → Option XtRecentEntry
entry_in ip none = none
entry_in ip (some t) = lookup ip t.entries

unfoldable pub entry_at : RecentData → Bytes → Bytes → Option XtRecentEntry
entry_at d name ip = entry_in ip (lookup name d)

-- What an action asks for.
abbrev pub entry_after :
    XtRecentAction → Bytes → Bytes → Option XtRecentEntry → Option XtRecentEntry
entry_after x name ip old =
    let here = x.xt_table_name == name in
    let this = here && (x.target_entry.src_ip == ip) in
    elim x.action [
      | add_upd_entry ↦ (if this then some x.target_entry else old)
      | delete_entry ↦ (if this then none else old)
      | flush_table ↦ (if here then none else old)
      | delete_table ↦ old
      | other_action n ↦ old
    ]

put_entries_lem :
    (name : Bytes) (m : Map Bytes XtRecentEntry) (d : RecentData) (n ip : Bytes)
    → entry_at (put_entries name m d) n ip ≡ (if name == n then lookup ip m else entry_at d n ip)
unfolding put_entries set_entries entry_at
put_entries_lem name m d n ip =
    ground (arith, lookup-insert name n (set_entries (at_or new_table name d) m) d)

with_table_lem :
    (name : Bytes) (d : RecentData) (n ip : Bytes)
    → entry_at (with_table name d) n ip ≡ entry_at d n ip
unfolding with_table has entry_at
with_table_lem name d n ip = ground (
  arith,
  bytes_ordered.eqb_iff name n,
  lookup-insert name n (record { name = name; entries = [] }) d,
  lookup-nil {V = XtRecentEntry} ip,
)

pub entries-at_or :
    (name : Bytes) (d : RecentData) (ip : Bytes)
    → lookup ip (at_or new_table name d).entries ≡ entry_at d name ip
unfolding at_or entry_at
entries-at_or name d ip = ground (arith, lookup-nil {V = XtRecentEntry} ip)

erase_entry_lem :
    (name key : Bytes) (d : RecentData) (n ip : Bytes)
    → entry_at (put_entries name (erase key (at_or new_table name d).entries) d) n ip
      ≡ (if (name == n) && (key == ip) then none else entry_at d n ip)
erase_entry_lem name key d n ip =
    put_entries_lem name (erase key (at_or new_table name d).entries) d n ip
    ∙ ground (
      arith,
      bytes_ordered.eqb_iff name n,
      lookup-erase key ip (at_or new_table name d).entries,
      entries-at_or name d ip,
    )

insert_entry_lem :
    (name key : Bytes) (e : XtRecentEntry) (d : RecentData) (n ip : Bytes)
    → entry_at (put_entries name (insert key e (at_or new_table name d).entries) d) n ip
      ≡ (if (name == n) && (key == ip) then some e else entry_at d n ip)
insert_entry_lem name key e d n ip =
    put_entries_lem name (insert key e (at_or new_table name d).entries) d n ip
    ∙ ground (
      arith,
      bytes_ordered.eqb_iff name n,
      lookup-insert key ip e (at_or new_table name d).entries,
      entries-at_or name d ip,
    )

-- No entry is in a table that is not there.
absent_lem :
    (name : Bytes) (d : RecentData) (ip : Bytes) → has name d ≡ false → entry_at d name ip ≡ none
unfolding has entry_at
absent_lem name d ip h = ground arith

delete_entry_lem :
    (name key : Bytes) (d : RecentData) (n ip : Bytes)
    → entry_at
        (if has name d then put_entries name (erase key (at_or new_table name d).entries) d else d)
        n
        ip
      ≡ (if (name == n) && (key == ip) then none else entry_at d n ip)
delete_entry_lem name key d n ip = elim (Bool-cases (has name d)) [
  | inl h ↦ rw h (erase_entry_lem name key d n ip)
  | inr h ↦ rw h (ground (arith, bytes_ordered.eqb_iff name n, absent_lem name d ip h))
]

add_entry_lem :
    (name key : Bytes) (e : XtRecentEntry) (d : RecentData) (n ip : Bytes)
    → entry_at
        (put_entries name
          (insert key e (at_or new_table name (with_table name d)).entries)
          (with_table name d))
        n
        ip
      ≡ (if (name == n) && (key == ip) then some e else entry_at d n ip)
add_entry_lem name key e d n ip =
    insert_entry_lem name key e (with_table name d) n ip
    ∙ ap (λ z. if (name == n) && (key == ip) then some e else z) (with_table_lem name d n ip)

-- The action of `x`, replaced.
abbrev pub with_action : ActionType → XtRecentAction → XtRecentAction
with_action t x = record x { action = t }

entry_at_cases :
    (t : ActionType) (d : RecentData) (x : XtRecentAction) (name ip : Bytes)
    → (entry_at (apply_recent_action d (with_action t x)).0 name ip
        ≡ entry_after (with_action t x) name ip (entry_at d name ip))
      × ((apply_recent_action d (with_action t x)).1 ≡ true)
unfolding apply_recent_action has at_or
entry_at_cases delete_table d x name ip = (refl, refl)
entry_at_cases delete_entry d x name ip =
    (delete_entry_lem x.xt_table_name x.target_entry.src_ip d name ip, refl)
entry_at_cases flush_table d x name ip = (
  put_entries_lem x.xt_table_name [] d name ip ∙ ground (arith, lookup-nil {V = XtRecentEntry} ip),
  refl,
)
entry_at_cases add_upd_entry d x name ip =
    (add_entry_lem x.xt_table_name x.target_entry.src_ip x.target_entry d name ip, refl)
entry_at_cases (other_action n) d x name ip = (refl, refl)

-- `apply_recent_action` leaves every entry of every table as the action asks: ADD_UPD_ENTRY and
-- DELETE_ENTRY set and erase the one entry of that table and address, FLUSH_TABLE erases the entries
-- of that table, and all other entries, and all entries under any other action, stay as they were.
-- It reports success.
pub entry_at-apply_recent_action :
    (d : RecentData) (x : XtRecentAction) (name ip : Bytes)
    → (entry_at (apply_recent_action d x).0 name ip ≡ entry_after x name ip (entry_at d name ip))
      × ((apply_recent_action d x).1 ≡ true)
entry_at-apply_recent_action d x name ip = entry_at_cases x.action d x name ip
