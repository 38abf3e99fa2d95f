-- ===== src/Sync/RecentData/Bulk.antt =====
-- The synchronisation of a whole node: sync_master::handle_recent_sync of src/sync/sync_master.cpp
-- against base_sync::apply_recent_action of src/sync/base_sync.cpp.
use ssyncd.Common.{
  ◌≡◌, refl, ◌∙◌, ap, false, Option, none, some, List, [], ◌∷◌, ◌++◌, arith, if◌then◌else◌,
}
use ssyncd.Common.Bytes.{Bytes}
use ssyncd.Common.Ordered.{bytes_ordered, ◌==◌}
use ssyncd.Common.Map.{Map, lookup}
use ssyncd.Common.SortedMap.{IsSorted, IsAbove, lookup-IsAbove}
use ssyncd.XtRecent.Entry.{XtRecentEntry, XtRecentTable, Indeterminate}
use ssyncd.XtRecent.Action.{XtRecentAction}
use ssyncd.Sync.RecentData.{
  RecentData, no_tables, get_entry_as_action, table_actions, all_actions, apply_all,
  apply_recent_action,
}
use ssyncd.Sync.RecentData.Lookup.{entry_at, entry_at-apply_recent_action}

-- Each entry stands under its address.
abbrev pub IsKeyed : Map Bytes XtRecentEntry → Type 0
IsKeyed [] = Unit
IsKeyed ((key, e) ∷ m) = (e.src_ip ≡ key) × IsKeyed m

abbrev pub HasValidTables : RecentData → Type 0
HasValidTables [] = Unit
HasValidTables ((name, t) ∷ d) = (IsSorted t.entries × IsKeyed t.entries) × HasValidTables d

-- The invariant of recent_data: the maps are maps, and each entry stands under its address.
abbrev pub IsValid : RecentData → Type 0
IsValid d = IsSorted d × HasValidTables d

-- An entry, or what was there before.
unfoldable pub over : Option XtRecentEntry → Option XtRecentEntry → Option XtRecentEntry
over none old = old
over (some e) old = some e

over-none : (o : Option XtRecentEntry) → over o none ≡ o
unfolding over
over-none none = refl
over-none (some e) = refl

pub apply_all-append :
    (d : RecentData) (xs ys : List XtRecentAction)
    → apply_all d (xs ++ ys) ≡ apply_all (apply_all d xs) ys
unfolding apply_all
apply_all-append d [] ys = refl
apply_all-append d (x ∷ xs) ys = apply_all-append (apply_recent_action d x).0 xs ys

table_actions_lem :
    (g : Indeterminate) (name : Bytes) (m : Map Bytes XtRecentEntry) (d : RecentData) (n ip : Bytes)
    → IsSorted m
    → IsKeyed m
    → entry_at (apply_all d (table_actions g name m)) n ip
      ≡ (if name == n then over (lookup ip m) (entry_at d n ip) else entry_at d n ip)
unfolding apply_all table_actions get_entry_as_action over lookup
table_actions_lem g name [] d n ip s k = ground arith
table_actions_lem g name ((key, e) ∷ m) d n ip (above, s) (ek, k) =
    let x = get_entry_as_action g name e false in
    table_actions_lem g name m (apply_recent_action d x).0 n ip s k
    ∙ ground (
      arith,
      (entry_at-apply_recent_action d x n ip).0,
      ek,
      bytes_ordered.eqb_iff key ip,
      lookup-IsAbove key m above,
    )

entry_at-above :
    (name : Bytes) (d : RecentData) (ip : Bytes) → IsAbove name d → entry_at d name ip ≡ none
unfolding entry_at
entry_at-above name d ip h = ground (arith, lookup-IsAbove name d h)

entry_at-cons :
    (name : Bytes) (t : XtRecentTable) (d : RecentData) (n ip : Bytes)
    → entry_at ((name, t) ∷ d) n ip ≡ (if name == n then lookup ip t.entries else entry_at d n ip)
unfolding entry_at lookup
entry_at-cons name t d n ip = ground arith

-- The actions of handle_recent_sync for valid data, on top of any tables.
pub all_actions_lem :
    (g : Indeterminate) (d old : RecentData) (n ip : Bytes)
    → IsValid d
    → entry_at (apply_all old (all_actions g d)) n ip ≡ over (entry_at d n ip) (entry_at old n ip)
unfolding apply_all all_actions over entry_at lookup
all_actions_lem g [] old n ip v = refl
all_actions_lem g ((name, t) ∷ d) old n ip ((above, s), ((st, kt), v)) =
    let old' = apply_all old (table_actions g name t.entries) in
    ap (λ z. entry_at z n ip)
      (apply_all-append old (table_actions g name t.entries) (all_actions g d))
    ∙ all_actions_lem g d old' n ip (s, v)
    ∙ ground (
      arith,
      table_actions_lem g name t.entries old n ip st kt,
      entry_at-cons name t d n ip,
      bytes_ordered.eqb_iff name n,
      entry_at-above name d ip above,
    )

-- A node that starts without tables and applies the actions that handle_recent_sync sends for
-- valid data ends with the same entry, or with none, for every table and every address.
pub entry_at-all_actions :
    (g : Indeterminate) (d : RecentData) (name ip : Bytes)
    → IsValid d
    → entry_at (apply_all no_tables (all_actions g d)) name ip ≡ entry_at d name ip
unfolding entry_at over lookup
entry_at-all_actions g d name ip v =
    all_actions_lem g d no_tables name ip v ∙ over-none (entry_at d name ip)
