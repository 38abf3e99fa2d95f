-- ===== src/Sync/RecentData/Invariant.antt =====
-- The invariant of `recent_data` under base_sync::apply_recent_action of src/sync/base_sync.cpp.
use mathlib.Core.Path.{subst}
use ssyncd.Common.{◌≡◌, refl, sym, arith, true, false, [], ◌∷◌, Bool-cases, inl, inr}
use ssyncd.Common.Bytes.{Bytes}
use ssyncd.Common.Ordered.{bytes_ordered, ◌==◌}
use ssyncd.Common.Map.{Map, lookup, insert, erase, at_or, has}
use ssyncd.Common.SortedMap.{IsSorted, insert-IsSorted, erase-IsSorted}
use ssyncd.XtRecent.Entry.{XtRecentEntry, XtRecentTable, new_table}
use ssyncd.XtRecent.Action.{
  XtRecentAction, ActionType, add_upd_entry, delete_entry, flush_table, delete_table, other_action,
}
use ssyncd.Sync.RecentData.Lookup.{with_action}
use ssyncd.Sync.RecentData.{RecentData, set_entries, put_entries, with_table, apply_recent_action}
use ssyncd.Sync.RecentData.Bulk.{IsKeyed, HasValidTables, IsValid}

pub insert-IsKeyed :
    (e : XtRecentEntry) (m : Map Bytes XtRecentEntry) → IsKeyed m → IsKeyed (insert e.src_ip e m)
unfolding insert
insert-IsKeyed e [] h = (refl, tt)
insert-IsKeyed e ((key, w) ∷ m) (h, hs) = elim (Bool-cases (key == e.src_ip)) [
  | inl y ↦ rw y (refl, hs)
  | inr y ↦ elim (Bool-cases (bytes_ordered.below e.src_ip key)) [
    | inl b ↦ rw (y, b) (refl, (h, hs))
    | inr b ↦ rw (y, b) (h, insert-IsKeyed e m hs)
  ]
]

erase-IsKeyed : (key : Bytes) (m : Map Bytes XtRecentEntry) → IsKeyed m → IsKeyed (erase key m)
unfolding erase
erase-IsKeyed key [] h = tt
erase-IsKeyed key ((j, w) ∷ m) (h, hs) = elim (Bool-cases (j == key)) [
  | inl y ↦ rw y (erase-IsKeyed key m hs)
  | inr y ↦ rw y (h, erase-IsKeyed key m hs)
]

pub insert-HasValidTables :
    (name : Bytes) (t : XtRecentTable) (d : RecentData)
    → IsSorted t.entries × IsKeyed t.entries
    → HasValidTables d
    → HasValidTables (insert name t d)
unfolding insert
insert-HasValidTables name t [] ht h = (ht, tt)
insert-HasValidTables name t ((j, w) ∷ d) ht (h, hs) = elim (Bool-cases (j == name)) [
  | inl y ↦ rw y (ht, hs)
  | inr y ↦ elim (Bool-cases (bytes_ordered.below name j)) [
    | inl b ↦ rw (y, b) (ht, (h, hs))
    | inr b ↦ rw (y, b) (h, insert-HasValidTables name t d ht hs)
  ]
]

at_or-first :
    (name j : Bytes) (t : XtRecentTable) (d : RecentData)
    → (j == name) ≡ true
    → at_or new_table name ((j, t) ∷ d) ≡ t
unfolding at_or lookup
at_or-first name j t d h = ground arith

at_or-rest :
    (name j : Bytes) (t : XtRecentTable) (d : RecentData)
    → (j == name) ≡ false
    → at_or new_table name ((j, t) ∷ d) ≡ at_or new_table name d
unfolding at_or lookup
at_or-rest name j t d h = ground arith

pub at_or-IsGood :
    (name : Bytes) (d : RecentData)
    → HasValidTables d
    → IsSorted (at_or new_table name d).entries × IsKeyed (at_or new_table name d).entries
unfolding at_or lookup
at_or-IsGood name [] h = (tt, tt)
at_or-IsGood name ((j, w) ∷ d) (h, hs) = elim (Bool-cases (j == name)) [
  | inl y ↦ subst (λ t. IsSorted t.entries × IsKeyed t.entries) (sym (at_or-first name j w d y)) h
  | inr y ↦
      subst (λ t. IsSorted t.entries × IsKeyed t.entries) (sym (at_or-rest name j w d y))
        (at_or-IsGood name d hs)
]

put_entries-IsValid :
    (name : Bytes) (m : Map Bytes XtRecentEntry) (d : RecentData)
    → IsSorted m × IsKeyed m
    → IsValid d
    → IsValid (put_entries name m d)
unfolding put_entries set_entries
put_entries-IsValid name m d g (s, h) =
    let t = set_entries (at_or new_table name d) m in
    (insert-IsSorted name t d s, insert-HasValidTables name t d g h)

with_table-IsValid : (name : Bytes) (d : RecentData) → IsValid d → IsValid (with_table name d)
unfolding with_table
with_table-IsValid name d (s, h) =
    let t : XtRecentTable = record { name = name; entries = [] } in
    elim (Bool-cases (has name d)) [
      | inl y ↦ rw y (s, h)
      | inr y ↦ rw y (insert-IsSorted name t d s, insert-HasValidTables name t d (tt, tt) h)
    ]

erase_at-IsValid :
    (name key : Bytes) (d : RecentData)
    → IsValid d
    → IsValid (put_entries name (erase key (at_or new_table name d).entries) d)
erase_at-IsValid name key d v =
    let g = at_or-IsGood name d v.1 in
    let m = (at_or new_table name d).entries in
    put_entries-IsValid name (erase key m) d (erase-IsSorted key m g.0, erase-IsKeyed key m g.1) v

insert_at-IsValid :
    (name : Bytes) (e : XtRecentEntry) (d : RecentData)
    → IsValid d
    → IsValid (put_entries name (insert e.src_ip e (at_or new_table name d).entries) d)
insert_at-IsValid name e d v =
    let g = at_or-IsGood name d v.1 in
    let m = (at_or new_table name d).entries in
    put_entries-IsValid name (insert e.src_ip e m) d
      (insert-IsSorted e.src_ip e m g.0, insert-IsKeyed e m g.1) v

IsValid-cases :
    (t : ActionType) (d : RecentData) (x : XtRecentAction)
    → IsValid d
    → IsValid (apply_recent_action d (with_action t x)).0
unfolding apply_recent_action
IsValid-cases delete_table d x v = v
IsValid-cases delete_entry d x v = elim (Bool-cases (has x.xt_table_name d)) [
  | inl y ↦ rw y (erase_at-IsValid x.xt_table_name x.target_entry.src_ip d v)
  | inr y ↦ rw y v
]
IsValid-cases flush_table d x v = put_entries-IsValid x.xt_table_name [] d (tt, tt) v
IsValid-cases add_upd_entry d x v =
    insert_at-IsValid x.xt_table_name x.target_entry (with_table x.xt_table_name d)
      (with_table-IsValid x.xt_table_name d v)
IsValid-cases (other_action n) d x v = v

-- `apply_recent_action` keeps the invariant of the tables, under every action.
pub apply_recent_action-IsValid :
    (d : RecentData) (x : XtRecentAction) → IsValid d → IsValid (apply_recent_action d x).0
apply_recent_action-IsValid d x v = IsValid-cases x.action d x v
