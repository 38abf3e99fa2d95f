-- ===== src/XtRecent/Updates.antt =====
-- src/xt_recent/xt_recent_sync.cpp: the differences between a table of /proc/net/xt_recent and the one
-- read before, as actions.
pub mod Tracking
pub mod Task
pub mod Rounds
use ssyncd.Common.{Bool, true, false, ◌==◌, Option, none, some, List, [], ◌∷◌, ◌++◌, if◌then◌else◌}
use ssyncd.Common.Bytes.{Bytes}
use ssyncd.Common.Ordered.{bytes_ordered}
use ssyncd.Common.Map.{Map, lookup, insert, at_or, has}
use ssyncd.XtRecent.Entry.{
  XtRecentEntry, XtRecentTable, new_table, Indeterminate, get_oldest_pkt_index,
}
use ssyncd.XtRecent.Action.{XtRecentAction}
use ssyncd.Sync.RecentData.{RecentData, get_entry_as_action}

-- class xt_recent_sync: the tables as they were read last, and the queue of actions.
pub record XtRecentSync : Type 0 where
  pub recent_data : RecentData
  pub input_data : List XtRecentAction

-- The loop over the entries that are there now.
unfoldable pub changed_actions :
    Indeterminate → Bytes → Map Bytes XtRecentEntry → Map Bytes XtRecentEntry → List XtRecentAction
unfolding get_entry_as_action get_oldest_pkt_index
changed_actions g name old [] = []
changed_actions g name old ((key, e) ∷ m) =
    let rest = changed_actions g name old m in
    let xaction = get_entry_as_action g name e false in
    elim (lookup key old) [
      | none ↦ xaction ∷ rest
      | some old_entry ↦
          (if get_oldest_pkt_index old_entry == get_oldest_pkt_index e
            then rest
            else xaction ∷ rest)
    ]

-- The loop over the entries that were there before.
unfoldable pub removed_actions :
    Indeterminate → Bytes → Map Bytes XtRecentEntry → Map Bytes XtRecentEntry → List XtRecentAction
unfolding get_entry_as_action has
removed_actions g name new [] = []
removed_actions g name new ((key, e) ∷ m) =
    let rest = removed_actions g name new m in
    if has key new then rest else get_entry_as_action g name e true ∷ rest

-- xt_recent_sync::get_table_updates, after the table is read: both loops read recent_data[xtable.name],
-- which makes a table that is not there.
unfoldable pub get_table_updates :
    Indeterminate → Bytes → XtRecentTable → XtRecentSync → XtRecentSync
unfolding changed_actions removed_actions at_or
get_table_updates g table_name xtable s =
    let old = at_or new_table xtable.name s.recent_data in
    record {
      recent_data = insert xtable.name old s.recent_data;
      input_data =
          s.input_data
          ++ (changed_actions g table_name old.entries xtable.entries
              ++ removed_actions g table_name xtable.entries old.entries);
    }

-- What xt_recent_sync::proc_task does with a file of the directory, whose table `get_table` reads.
unfoldable pub update_table :
    Indeterminate → (Bytes → XtRecentTable) → Bytes → XtRecentSync → XtRecentSync
unfolding get_table_updates
update_table g get_table d_name s =
    let xtable = get_table d_name in
    let s' = get_table_updates g d_name xtable s in
    record s' { recent_data = insert d_name xtable s'.recent_data }
