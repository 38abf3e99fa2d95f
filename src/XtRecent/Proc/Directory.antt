-- ===== src/XtRecent/Proc/Directory.antt =====
-- xt_recent_proc::get_xt_recent_tables and ::get_table_entries of src/xt_recent/xt_recent_proc.cpp, and
-- what src/xt_recent/xt_recent_sync.cpp relies on in the tables that are read.
use mathlib.Core.Path.{subst}
use mathlib.Core.Option.{some-injective, none-ne-some}
use ssyncd.Common.{
  sym, ◌∙◌, ◌≡◌, refl, Bool, Option, none, some, List, [], ◌∷◌, if◌then◌else◌, is_empty, Bool-cases,
  inl, inr,
}
use ssyncd.Common.Bytes.{Bytes}
use ssyncd.Common.Ordered.{bytes_ordered}
use ssyncd.Common.Map.{Map, insert}
use ssyncd.Common.SortedMap.{IsSorted, insert-IsSorted}
use ssyncd.XtRecent.Entry.{XtRecentEntry, XtRecentTable}
use ssyncd.XtRecent.Proc.{parse_file_row, read_rows, get_table}
use ssyncd.Sync.RecentData.Bulk.{IsKeyed}
use ssyncd.Sync.RecentData.Invariant.{insert-IsKeyed}

-- What readdir() tells of a file, and the lines that it has when it is read.
pub record DirEntry : Type 0 where
  pub d_name : Bytes
  pub is_regular : Bool
  pub lines : List Bytes

-- How a function over the directory ends: the program exits where opendir() fails, and an exception of
-- get_table ends it too.
pub data Scanned {ℓ} (A : Type ℓ) : Type ℓ where
  exits throws : Scanned A
  scanned : A → Scanned A

module _ (partial_match : Bytes → Bytes → Option Bytes) where
  -- get_table for a file that holds these lines.
  abbrev pub read_table : DirEntry → Option XtRecentTable
  read_table f = get_table partial_match (λ name. f.lines) f.d_name

  -- The loop of get_xt_recent_tables over readdir().
  unfoldable pub read_tables : List DirEntry → Scanned (List XtRecentTable)
  read_tables [] = scanned []
  read_tables (f ∷ fs) =
      let rest = read_tables fs in
      if f.is_regular
      then elim (read_table f) [
        | none ↦ throws
        | some t ↦ elim rest [ exits ↦ exits | throws ↦ throws | scanned ts ↦ scanned (t ∷ ts) ]
      ]
      else rest

  -- xt_recent_proc::get_xt_recent_tables; `none` is a directory that cannot be opened.
  unfoldable pub get_xt_recent_tables : Option (List DirEntry) → Scanned (List XtRecentTable)
  unfolding read_tables
  get_xt_recent_tables none = exits
  get_xt_recent_tables (some fs) = read_tables fs

  -- xt_recent_proc::get_table_entries, where the file has these lines; `none` is an exception.
  unfoldable pub get_table_entries : List Bytes → Option (List XtRecentEntry)
  get_table_entries [] = some []
  get_table_entries (line ∷ lines) = elim (parse_file_row partial_match line) [
    | none ↦ none
    | some e ↦ elim (get_table_entries lines) [
      | none ↦ none
      | some es ↦ some (if is_empty e.src_ip then es else e ∷ es)
    ]
  ]

  add_row-IsGood :
      (e : XtRecentEntry) (m : Map Bytes XtRecentEntry)
      → IsSorted m × IsKeyed m
      → IsSorted (if is_empty e.src_ip then m else insert e.src_ip e m)
        × IsKeyed (if is_empty e.src_ip then m else insert e.src_ip e m)
  add_row-IsGood e m (s, k) = elim (Bool-cases (is_empty e.src_ip)) [
    | inl y ↦ rw y (s, k)
    | inr n ↦ rw n (insert-IsSorted e.src_ip e m s, insert-IsKeyed e m k)
  ]

  row-IsGood :
      (o : Option XtRecentEntry) (line : Bytes) (lines : List Bytes)
      (m m' : Map Bytes XtRecentEntry)
      → parse_file_row partial_match line ≡ o
      → ((n : Map Bytes XtRecentEntry)
          → IsSorted n × IsKeyed n
          → read_rows partial_match lines n ≡ some m'
          → IsSorted m' × IsKeyed m')
      → IsSorted m × IsKeyed m
      → read_rows partial_match (line ∷ lines) m ≡ some m'
      → IsSorted m' × IsKeyed m'
  unfolding read_rows
  row-IsGood none line lines m m' p ih g e =
      let stops : read_rows partial_match (line ∷ lines) m ≡ none = rw (p, read_rows) refl in
      absurd (none-ne-some m' (sym stops ∙ e))
  row-IsGood (some r) line lines m m' p ih g e =
      let added = (if is_empty r.src_ip then m else insert r.src_ip r m) in
      let goes_on : read_rows partial_match (line ∷ lines) m ≡ read_rows partial_match lines added =
        rw (p, read_rows) refl in
      ih added (add_row-IsGood r m g) (sym goes_on ∙ e)

  read_rows-IsGood :
      (lines : List Bytes) (m m' : Map Bytes XtRecentEntry)
      → IsSorted m × IsKeyed m
      → read_rows partial_match lines m ≡ some m'
      → IsSorted m' × IsKeyed m'
  unfolding read_rows
  read_rows-IsGood [] m m' g e = subst (λ n. IsSorted n × IsKeyed n) (some-injective m m' e) g
  read_rows-IsGood (line ∷ lines) m m' g e =
      row-IsGood (parse_file_row partial_match line) line lines m m' refl
        (λ n h q. read_rows-IsGood lines n m' h q) g e

  table-IsGood :
      (f : DirEntry) (t : XtRecentTable) (o : Option (Map Bytes XtRecentEntry))
      → read_rows partial_match f.lines [] ≡ o
      → read_table f ≡ some t
      → (t.name ≡ f.d_name) × (IsSorted t.entries × IsKeyed t.entries)
  unfolding get_table
  table-IsGood f t none p e =
      let fails : read_table f ≡ none = rw (p, get_table) refl in
      absurd (none-ne-some t (sym fails ∙ e))
  table-IsGood f t (some m) p e =
      let reads : read_table f ≡ some (record { name = f.d_name; entries = m }) =
        rw (p, get_table) refl in
      subst (λ u. (u.name ≡ f.d_name) × (IsSorted u.entries × IsKeyed u.entries))
        (some-injective (record { name = f.d_name; entries = m }) t (sym reads ∙ e))
        (refl, read_rows-IsGood f.lines [] m (tt, tt) p)

  -- A table that get_table reads has the name of its file, its keys ascend, and each entry is under its
  -- address.
  pub read_table-IsGood :
      (f : DirEntry) (t : XtRecentTable)
      → read_table f ≡ some t
      → (t.name ≡ f.d_name) × (IsSorted t.entries × IsKeyed t.entries)
  read_table-IsGood f t e = table-IsGood f t (read_rows partial_match f.lines []) refl e
