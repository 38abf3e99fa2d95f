-- ===== src/Sync/RecentData.antt =====
-- The `recent_data` of src/sync/base_sync.cpp: the recent tables that a node keeps.
pub mod Lookup
pub mod Bulk
pub mod Invariant
use ssyncd.Common.{Bool, true, false, Option, none, some, List, [], ◌∷◌, ◌++◌, if◌then◌else◌}
use ssyncd.Common.Bytes.{Bytes}
use ssyncd.Common.Ordered.{bytes_ordered}
use ssyncd.Common.Map.{Map, lookup, insert, erase, at_or, has}
use ssyncd.XtRecent.Entry.{XtRecentEntry, XtRecentTable, new_table, Indeterminate}
use ssyncd.XtRecent.Action.{
  XtRecentAction, new_action, add_upd_entry, delete_entry, flush_table, delete_table, other_action,
}

abbrev pub RecentData : Type 0
RecentData = Map Bytes XtRecentTable

unfoldable pub set_entries : XtRecentTable → Map Bytes XtRecentEntry → XtRecentTable
set_entries t m = record t { entries = m }

-- recent_data[name].entries = m. A missing table is made, without a name.
unfoldable pub put_entries : Bytes → Map Bytes XtRecentEntry → RecentData → RecentData
unfolding set_entries at_or
put_entries name m d = insert name (set_entries (at_or new_table name d) m) d

-- The table, made with its name if it is missing.
unfoldable pub with_table : Bytes → RecentData → RecentData
unfolding has
with_table name d = if has name d then d else insert name (record { name = name; entries = [] }) d

-- base_sync::apply_recent_action: the data, and the result.
unfoldable pub apply_recent_action : RecentData → XtRecentAction → RecentData × Bool
unfolding put_entries with_table has
apply_recent_action d x =
    let name = x.xt_table_name in
    let key = x.target_entry.src_ip in
    elim x.action [
      | delete_table ↦ (d, true)
      | delete_entry ↦ (
        if has name d then put_entries name (erase key (at_or new_table name d).entries) d else d,
        true,
      )
      | flush_table ↦ (put_entries name [] d, true)
      | add_upd_entry ↦
          let d' = with_table name d in
          (put_entries name (insert key x.target_entry (at_or new_table name d').entries) d', true)
      | other_action n ↦ (d, true)
    ]

-- base_sync::clear_recent_data and start of the recent service clear all
abbrev pub no_tables : RecentData
no_tables = []

-- xt_recent_sync::get_entry_as_action of src/xt_recent/xt_recent_sync.cpp
unfoldable pub get_entry_as_action : Indeterminate → Bytes → XtRecentEntry → Bool → XtRecentAction
get_entry_as_action g target_table entry delete_action =
    let x = new_action g (if delete_action then delete_entry else add_upd_entry) in
    record x { xt_table_name = target_table; target_entry = entry }

unfoldable pub table_actions : Indeterminate → Bytes → Map Bytes XtRecentEntry → List XtRecentAction
unfolding get_entry_as_action
table_actions g name [] = []
table_actions g name ((key, e) ∷ m) = get_entry_as_action g name e false ∷ table_actions g name m

-- The actions that sync_master::handle_recent_sync of src/sync/sync_master.cpp sends, in order.
unfoldable pub all_actions : Indeterminate → RecentData → List XtRecentAction
unfolding table_actions
all_actions g [] = []
all_actions g ((name, t) ∷ d) = table_actions g name t.entries ++ all_actions g d

unfoldable pub apply_all : RecentData → List XtRecentAction → RecentData
apply_all d [] = d
apply_all d (x ∷ xs) = apply_all (apply_recent_action d x).0 xs
