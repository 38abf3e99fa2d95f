-- ===== src/XtRecent/Updates/Rounds.antt =====
-- What the queue of the thread of src/xt_recent/xt_recent_sync.cpp holds, round after round.
use mathlib.Core.Path.{subst}
use ssyncd.Common.{
  false, ◌&&◌, ℕ, ◌≡◌, refl, sym, ap, ◌∙◌, true, Option, none, some, List, [], ◌∷◌, ◌++◌, arith,
  if◌then◌else◌, Bool-cases, inl, inr,
}
use ssyncd.Common.Bytes.{Bytes}
use ssyncd.Common.Ordered.{bytes_ordered, nat_ordered, ◌==◌}
use ssyncd.Common.Map.{Map, lookup, insert, at_or, has, lookup-insert}
use ssyncd.Common.SortedMap.{IsSorted}
use ssyncd.XtRecent.Entry.{XtRecentEntry, XtRecentTable, new_table, Indeterminate}
use ssyncd.XtRecent.Proc.Directory.{
  DirEntry, Scanned, exits, throws, scanned, read_table, read_table-IsGood,
}
use ssyncd.XtRecent.Updates.{
  XtRecentSync, changed_actions, removed_actions, get_table_updates, update_table,
}
use ssyncd.XtRecent.Updates.Task.{read_dir, proc_task}
use ssyncd.XtRecent.Updates.Tracking.{changed_actions_lem, removed_actions_lem}
use ssyncd.Sync.RecentData.{RecentData, apply_all}
use ssyncd.Sync.RecentData.Lookup.{entry_in, entry_at, entries-at_or}
use ssyncd.Sync.RecentData.Bulk.{IsKeyed, HasValidTables, apply_all-append}
use ssyncd.Sync.RecentData.Invariant.{insert-HasValidTables, at_or-IsGood}

-- The packet index of an entry, if there is one.
abbrev pub index_of : Option XtRecentEntry → Option ℕ
index_of none = none
index_of (some e) = some e.last_seen_index

-- A node that has the data `d` before it applies the queue: after it, it has the entries that were read
-- last, in the sense that their packet indices agree.
pub record IsTracked (d : RecentData) (s : XtRecentSync) : Type 0 where
  pub tables : HasValidTables s.recent_data
  pub same :
      (name ip : Bytes)
      → index_of (entry_at (apply_all d s.input_data) name ip)
        ≡ index_of (entry_at s.recent_data name ip)

both_same :
    (g : Indeterminate) (name : Bytes) (old new : Map Bytes XtRecentEntry) (d : RecentData)
    (n ip : Bytes)
    → IsSorted new
    → IsKeyed new
    → IsKeyed old
    → index_of (entry_at d name ip) ≡ index_of (lookup ip old)
    → index_of (
        entry_at
          (apply_all d (changed_actions g name old new ++ removed_actions g name new old))
          n
          ip)
      ≡ (if name == n then index_of (lookup ip new) else index_of (entry_at d n ip))
unfolding has
both_same g name old new d n ip s kn ko h =
    ap (λ z. index_of (entry_at z n ip))
      (apply_all-append d (changed_actions g name old new) (removed_actions g name new old))
    ∙ ground (
      arith,
      removed_actions_lem g name new old (apply_all d (changed_actions g name old new)) n ip ko,
      changed_actions_lem g name old new d n ip s kn,
      bytes_ordered.eqb_iff name n,
      h,
    )

-- Two tables that are put under one name, of which the second stays.
entry_at-insert_twice :
    (name : Bytes) (t u : XtRecentTable) (r : RecentData) (n ip : Bytes)
    → entry_at (insert name t (insert name u r)) n ip
      ≡ (if name == n then lookup ip t.entries else entry_at r n ip)
unfolding entry_at
entry_at-insert_twice name t u r n ip =
    ground (arith, lookup-insert name n t (insert name u r), lookup-insert name n u r)

update_same :
    (g : Indeterminate) (d : RecentData) (t : XtRecentTable) (s : XtRecentSync)
    → IsSorted t.entries × IsKeyed t.entries
    → IsTracked d s
    → IsTracked d (update_table g (λ name. t) t.name s)
unfolding update_table get_table_updates
update_same g d t s (st, kt) h =
    let old = at_or new_table t.name s.recent_data in
    let good = at_or-IsGood t.name s.recent_data h.tables in
    record {
      tables =
          insert-HasValidTables t.name t (insert t.name old s.recent_data) (st, kt)
            (insert-HasValidTables t.name old s.recent_data good h.tables);
      same = λ n ip.
          ap (λ z. index_of (entry_at z n ip))
            (apply_all-append d s.input_data (
              changed_actions g t.name old.entries t.entries
              ++ removed_actions g t.name t.entries old.entries))
          ∙ both_same g t.name old.entries t.entries (apply_all d s.input_data) n ip st kt good.1
              (h.same t.name ip ∙ ap index_of (sym (entries-at_or t.name s.recent_data ip)))
          ∙ ground (arith, entry_at-insert_twice t.name t old s.recent_data n ip, h.same n ip);
    }

-- The table that the files of a directory show under a name: that of the last regular file of this
-- name, or what was there before. Then the same for the directory of each round.
abbrev pub last_table :
    (Bytes → Bytes → Option Bytes)
    → Bytes
    → List DirEntry
    → Option XtRecentTable
    → Option XtRecentTable
last_table partial_match name [] old = old
last_table partial_match name (f ∷ fs) old =
    last_table partial_match name fs
      (if f.is_regular && (f.d_name == name) then read_table partial_match f else old)

abbrev pub last_read :
    (Bytes → Bytes → Option Bytes)
    → Bytes
    → List (Option (List DirEntry))
    → Option XtRecentTable
    → Option XtRecentTable
last_read partial_match name [] old = old
last_read partial_match name (none ∷ rounds) old = old
last_read partial_match name (some fs ∷ rounds) old =
    last_read partial_match name rounds (last_table partial_match name fs old)

-- What the thread did, where it did not end, with the tables that it has to know.
abbrev OutcomeKnows : RecentData → (Bytes → Option XtRecentTable) → Scanned XtRecentSync → Type 0
OutcomeKnows d tables exits = Unit
OutcomeKnows d tables throws = Unit
OutcomeKnows d tables (scanned s) =
    IsTracked d s × ((name : Bytes) → lookup name s.recent_data ≡ tables name)

-- Where it did not end, a node that has the data `d` before it applies the queue has, after it, the
-- entries of these tables, each with its packet index, and no others.
abbrev pub OutcomeIsTracked :
    RecentData → (Bytes → Option XtRecentTable) → Scanned XtRecentSync → Type 0
OutcomeIsTracked d tables exits = Unit
OutcomeIsTracked d tables throws = Unit
OutcomeIsTracked d tables (scanned s) =
    IsTracked d s
    × ((name ip : Bytes)
        → index_of (entry_at (apply_all d s.input_data) name ip)
          ≡ index_of (entry_in ip (tables name)))

same_tables :
    (d : RecentData) (tables tables' : Bytes → Option XtRecentTable) (r : Scanned XtRecentSync)
    → ((name : Bytes) → tables name ≡ tables' name)
    → OutcomeKnows d tables r
    → OutcomeKnows d tables' r
same_tables d tables tables' exits e h = tt
same_tables d tables tables' throws e h = tt
same_tables d tables tables' (scanned s) e (h, k) = (h, λ name. k name ∙ e name)

OutcomeIsTracked-of :
    (d : RecentData) (tables : Bytes → Option XtRecentTable) (r : Scanned XtRecentSync)
    → OutcomeKnows d tables r
    → OutcomeIsTracked d tables r
unfolding entry_at
OutcomeIsTracked-of d tables exits h = tt
OutcomeIsTracked-of d tables throws h = tt
OutcomeIsTracked-of d tables (scanned s) (h, k) =
    (h, λ name ip. h.same name ip ∙ ap (λ t. index_of (entry_in ip t)) (k name))

update_table-IsTracked :
    (g : Indeterminate) (d : RecentData) (name : Bytes) (t : XtRecentTable) (s : XtRecentSync)
    → (t.name ≡ name) × (IsSorted t.entries × IsKeyed t.entries)
    → IsTracked d s
    → IsTracked d (update_table g (λ n. t) name s)
update_table-IsTracked g d name t s (e, good) h =
    subst (λ n. IsTracked d (update_table g (λ m. t) n s)) e (update_same g d t s good h)

lookup-update_table :
    (g : Indeterminate) (d_name : Bytes) (t : XtRecentTable) (s : XtRecentSync) (name : Bytes)
    → t.name ≡ d_name
    → lookup name (update_table g (λ n. t) d_name s).recent_data
      ≡ (if d_name == name then some t else lookup name s.recent_data)
unfolding update_table get_table_updates
lookup-update_table g d_name t s name e =
    let old = at_or new_table t.name s.recent_data in
    ground (
      arith,
      e,
      lookup-insert d_name name t (insert t.name old s.recent_data),
      lookup-insert t.name name old s.recent_data,
    )

module _ (partial_match : Bytes → Bytes → Option Bytes) (g : Indeterminate) (d : RecentData) where
  file-Knows :
      (f : DirEntry) (fs : List DirEntry) (s : XtRecentSync) (o : Option XtRecentTable)
      → f.is_regular ≡ true
      → read_table partial_match f ≡ o
      → ((t : XtRecentTable)
          → o ≡ some t
          → OutcomeKnows d
              (λ name. last_table partial_match name (f ∷ fs) (lookup name s.recent_data))
              (read_dir partial_match g fs (update_table g (λ n. t) f.d_name s)))
      → OutcomeKnows d
          (λ name. last_table partial_match name (f ∷ fs) (lookup name s.recent_data))
          (read_dir partial_match g (f ∷ fs) s)
  unfolding read_dir
  file-Knows f fs s none y p ih =
      let ends : read_dir partial_match g (f ∷ fs) s ≡ throws = rw (p, read_dir) (rw y refl) in
      subst (OutcomeKnows d _) (sym ends) tt
  file-Knows f fs s (some t) y p ih =
      let reads : read_dir partial_match g (f ∷ fs) s
          ≡ read_dir partial_match g fs (update_table g (λ n. t) f.d_name s) =
        rw (p, read_dir) (rw y refl) in
      subst (OutcomeKnows d _) (sym reads) (ih t refl)

  read_dir-Knows :
      (fs : List DirEntry) (s : XtRecentSync)
      → IsTracked d s
      → OutcomeKnows d
          (λ name. last_table partial_match name fs (lookup name s.recent_data))
          (read_dir partial_match g fs s)
  unfolding read_dir
  read_dir-Knows [] s h = (h, λ name. refl)
  read_dir-Knows (f ∷ fs) s h = elim (Bool-cases f.is_regular) [
    | inl y ↦ file-Knows f fs s (read_table partial_match f) y refl (λ t e.
        let good = read_table-IsGood partial_match f t e in
        same_tables d _ _ _
          (λ name.
            ap (λ o. last_table partial_match name fs o)
              (lookup-update_table g f.d_name t s name good.0
                ∙ read_lem f t name (lookup name s.recent_data) y e))
          (read_dir-Knows fs _ (update_table-IsTracked g d f.d_name t s good h)))
    | inr n ↦
        let passed : read_dir partial_match g (f ∷ fs) s ≡ read_dir partial_match g fs s =
          rw n refl in
        subst (OutcomeKnows d _) (sym passed) (
          same_tables d _ _ _
            (λ name.
              ap (λ o. last_table partial_match name fs o)
                (passed_lem f name (lookup name s.recent_data) n))
            (read_dir-Knows fs s h))
  ]
    where
      read_lem :
          (f : DirEntry) (t : XtRecentTable) (name : Bytes) (old : Option XtRecentTable)
          → f.is_regular ≡ true
          → read_table partial_match f ≡ some t
          → (if f.d_name == name then some t else old)
            ≡ (if f.is_regular && (f.d_name == name) then read_table partial_match f else old)
      read_lem f t name old y e = ground (arith, y, e)

      passed_lem :
          (f : DirEntry) (name : Bytes) (old : Option XtRecentTable)
          → f.is_regular ≡ false
          → old ≡ (if f.is_regular && (f.d_name == name) then read_table partial_match f else old)
      passed_lem f name old n = ground (arith, n)

  after-Knows :
      (fs : List DirEntry) (rounds : List (Option (List DirEntry))) (s : XtRecentSync)
      (r : Scanned XtRecentSync)
      → read_dir partial_match g fs s ≡ r
      → OutcomeKnows d (λ name. last_table partial_match name fs (lookup name s.recent_data)) r
      → ((s' : XtRecentSync)
          → IsTracked d s'
          → OutcomeKnows d
              (λ name. last_read partial_match name rounds (lookup name s'.recent_data))
              (proc_task partial_match g rounds s'))
      → OutcomeKnows d
          (λ name. last_read partial_match name (some fs ∷ rounds) (lookup name s.recent_data))
          (proc_task partial_match g (some fs ∷ rounds) s)
  unfolding proc_task
  after-Knows fs rounds s exits p h ih = rw (p, proc_task) tt
  after-Knows fs rounds s throws p h ih = rw (p, proc_task) tt
  after-Knows fs rounds s (scanned s') p (h, k) ih =
      rw (p, proc_task)
        (same_tables d _ _ _ (λ name. ap (λ o. last_read partial_match name rounds o) (k name))
          (ih s' h))

  proc_task-Knows :
      (rounds : List (Option (List DirEntry))) (s : XtRecentSync)
      → IsTracked d s
      → OutcomeKnows d
          (λ name. last_read partial_match name rounds (lookup name s.recent_data))
          (proc_task partial_match g rounds s)
  unfolding proc_task
  proc_task-Knows [] s h = (h, λ name. refl)
  proc_task-Knows (none ∷ rounds) s h = tt
  proc_task-Knows (some fs ∷ rounds) s h =
      after-Knows fs rounds s (read_dir partial_match g fs s) refl (read_dir-Knows fs s h)
        (λ s' h'. proc_task-Knows rounds s' h')

  -- A node that has the data `d` is in step with the thread: once it applied the actions in the queue it
  -- has the entries of the tables in recent_data, each with its packet index, and no others, and those
  -- tables are keyed by the addresses. After any number of rounds of the thread, with the queue as it is
  -- then, it is in step again; and its entries are those of the last regular file of each name that was
  -- in the directory in any of the rounds, or of the table that was known before, each with its packet
  -- index, unless the thread ended the program (the directory cannot be opened, or a row has no numbers).
  pub proc_task-IsTracked :
      (rounds : List (Option (List DirEntry))) (s : XtRecentSync)
      → IsTracked d s
      → OutcomeIsTracked d
          (λ name. last_read partial_match name rounds (lookup name s.recent_data))
          (proc_task partial_match g rounds s)
  proc_task-IsTracked rounds s h =
      OutcomeIsTracked-of d _ (proc_task partial_match g rounds s) (proc_task-Knows rounds s h)
