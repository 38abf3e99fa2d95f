-- ===== src/XtRecent/Updates/Tracking.antt =====
-- The updates of src/xt_recent/xt_recent_sync.cpp, applied by src/sync/base_sync.cpp, follow the table.
use ssyncd.Common.{
  ◌≡◌, ◌∙◌, ap, true, false, ◌&&◌, not, Option, none, some, [], ◌∷◌, ◌++◌, arith, if◌then◌else◌,
}
use ssyncd.Common.Bytes.{Bytes}
use ssyncd.Common.Ordered.{bytes_ordered, nat_ordered, ◌==◌}
use ssyncd.Common.Map.{Map, lookup, has, at_or}
use ssyncd.Common.SortedMap.{IsSorted, lookup-IsAbove}
use ssyncd.XtRecent.Entry.{
  XtRecentEntry, XtRecentTable, new_table, Indeterminate, get_oldest_pkt_index,
}
use ssyncd.XtRecent.Updates.{XtRecentSync, changed_actions, removed_actions, get_table_updates}
use ssyncd.Sync.RecentData.{RecentData, get_entry_as_action, apply_all, apply_recent_action}
use ssyncd.Sync.RecentData.Lookup.{entry_at, entry_at-apply_recent_action}
use ssyncd.Sync.RecentData.Bulk.{IsKeyed, apply_all-append}

-- The entry after its table was `old` and is `new`: an entry whose index has not moved stays.
abbrev pub entry_tracked : Option XtRecentEntry → Option XtRecentEntry → Option XtRecentEntry
entry_tracked old new = elim new [
  | none ↦ none
  | some e ↦ elim old [
    | none ↦ some e
    | some o ↦ (if o.last_seen_index == e.last_seen_index then some o else some e)
  ]
]

abbrev pub changed_entry :
    Option XtRecentEntry → Option XtRecentEntry → Option XtRecentEntry → Option XtRecentEntry
changed_entry now old new = elim new [
  | none ↦ now
  | some e ↦ elim old [
    | none ↦ some e
    | some o ↦ (if o.last_seen_index == e.last_seen_index then now else some e)
  ]
]

pub changed_actions_lem :
    (g : Indeterminate) (name : Bytes) (old m : Map Bytes XtRecentEntry) (d : RecentData)
    (n ip : Bytes)
    → IsSorted m
    → IsKeyed m
    → entry_at (apply_all d (changed_actions g name old m)) n ip ≡ (
        if name == n
        then changed_entry (entry_at d n ip) (lookup ip old) (lookup ip m)
        else entry_at d n ip)
unfolding changed_actions get_entry_as_action apply_all lookup get_oldest_pkt_index
changed_actions_lem g name old [] d n ip s k = ground arith
changed_actions_lem g name old ((key, e) ∷ m) d n ip (above, s) (ek, k) =
    let x = get_entry_as_action g name e false in
    ground (
      arith,
      changed_actions_lem g name old m (apply_recent_action d x).0 n ip s k,
      changed_actions_lem g name old m d n ip s k,
      (entry_at-apply_recent_action d x n ip).0,
      ek,
      bytes_ordered.eqb_iff key ip,
      lookup-IsAbove key m above,
    )

pub removed_actions_lem :
    (g : Indeterminate) (name : Bytes) (new m : Map Bytes XtRecentEntry) (d : RecentData)
    (n ip : Bytes)
    → IsKeyed m
    → entry_at (apply_all d (removed_actions g name new m)) n ip
      ≡ (if (name == n) && (has ip m && not (has ip new)) then none else entry_at d n ip)
unfolding removed_actions get_entry_as_action apply_all has lookup
removed_actions_lem g name new [] d n ip k = ground arith
removed_actions_lem g name new ((key, e) ∷ m) d n ip (ek, k) =
    let x = get_entry_as_action g name e true in
    ground (
      arith,
      removed_actions_lem g name new m (apply_recent_action d x).0 n ip k,
      removed_actions_lem g name new m d n ip k,
      (entry_at-apply_recent_action d x n ip).0,
      ek,
      bytes_ordered.eqb_iff key ip,
    )

both_lem :
    (g : Indeterminate) (name : Bytes) (old new : Map Bytes XtRecentEntry) (d : RecentData)
    (n ip : Bytes)
    → IsSorted new
    → IsKeyed new
    → IsKeyed old
    → entry_at d name ip ≡ lookup ip old
    → entry_at (apply_all d (changed_actions g name old new ++ removed_actions g name new old)) n ip
      ≡ (if name == n then entry_tracked (lookup ip old) (lookup ip new) else entry_at d n ip)
unfolding has
both_lem g name old new d n ip s kn ko h =
    ap (λ z. entry_at z n ip)
      (apply_all-append d (changed_actions g name old new) (removed_actions g name new old))
    ∙ ground (
      arith,
      removed_actions_lem g name new old (apply_all d (changed_actions g name old new)) n ip ko,
      changed_actions_lem g name old new d n ip s kn,
      bytes_ordered.eqb_iff name n,
      h,
    )

-- Where the node, once it has applied the actions in the queue, has the entries of the table as it was
-- read before, the node that applies the queue after get_table_updates has those of the table read now
-- (an entry whose packet index did not move keeps its old value), and its other tables are unchanged.
pub entry_at-get_table_updates :
    (g : Indeterminate) (table_name : Bytes) (xtable : XtRecentTable) (s : XtRecentSync)
    (d : RecentData) (n ip : Bytes)
    → xtable.name ≡ table_name
    → IsSorted xtable.entries × IsKeyed xtable.entries
    → IsKeyed (at_or new_table table_name s.recent_data).entries
    → entry_at (apply_all d s.input_data) table_name ip
      ≡ lookup ip (at_or new_table table_name s.recent_data).entries
    → entry_at (apply_all d (get_table_updates g table_name xtable s).input_data) n ip ≡ (
        if table_name == n
        then entry_tracked
            (lookup ip (at_or new_table table_name s.recent_data).entries)
            (lookup ip xtable.entries)
        else entry_at (apply_all d s.input_data) n ip)
unfolding get_table_updates
entry_at-get_table_updates g table_name xtable s d n ip e (sn, kn) ko h =
    let old = (at_or new_table table_name s.recent_data).entries in
    let us =
      changed_actions g table_name old xtable.entries
      ++ removed_actions g table_name xtable.entries old in
    ap
      (λ t.
        entry_at
          (apply_all d (
            s.input_data
            ++ (changed_actions g table_name (at_or new_table t s.recent_data).entries
                  xtable.entries
                ++ removed_actions g table_name xtable.entries
                    (at_or new_table t s.recent_data).entries)))
          n ip)
      e
    ∙ ap (λ z. entry_at z n ip) (apply_all-append d s.input_data us)
    ∙ both_lem g table_name old xtable.entries (apply_all d s.input_data) n ip sn kn ko h
