-- ===== src/Sync/Writes.antt =====
-- What src/sync/base_sync.cpp writes to /proc/net/xt_recent. The system calls are a parameter: `opens n`
-- and `writes n` say whether the open() and the write() work that come after n successful writes.
pub mod Dump
pub mod Sessions
pub mod Actions
pub mod Offers
use ssyncd.Common.{
  ℕ, suc, Bool, true, false, not, ◌&&◌, Option, none, some, List, [], ◌∷◌, ◌++◌, length, is_empty,
  if◌then◌else◌,
}
use ssyncd.Common.Bytes.{Bytes, codes}
use ssyncd.Common.Int.{ℤ, pos, negsuc}
use ssyncd.Common.Decimal.{to_string}
use ssyncd.Common.Ordered.{bytes_ordered}
use ssyncd.Common.Map.{Map, lookup, has}
use ssyncd.XtRecent.Entry.{XtRecentEntry, XtRecentTable, sort}
use ssyncd.Sync.RecentData.{RecentData}

-- update += std::to_string(nstamps) + ';'
unfoldable pub stamps_text : List ℕ → Bytes
stamps_text [] = []
stamps_text (t ∷ ts) = to_string t ++ (b';' ∷ stamps_text ts)

-- The line of an entry that stands under an address.
unfoldable pub update_text : Bytes → XtRecentEntry → Bytes
unfolding stamps_text
update_text ip e =
    b'*' ∷ (ip ++ (b';' ∷ (to_string e.ttl ++ (b';' ∷ stamps_text (sort e.timestamps)))))

abbrev pub proc_path : Bytes → Bytes
proc_path name = codes "/proc/net/xt_recent/" ++ name

-- The writes that worked, each with its file, and the result.
abbrev pub Written : Type 0 → Type 0
Written R = List (Bytes × Bytes) × R

module _ (opens writes : ℕ → Bool) where
  -- The loop of write_recent_all over the entries, after the writes `done`. open() is not checked, and
  -- where it fails the write() fails too.
  unfoldable pub write_entries :
      Bytes → Map Bytes XtRecentEntry → List (Bytes × Bytes) → Written Bool
  unfolding update_text
  write_entries tail [] done = (done, true)
  write_entries tail ((ip, e) ∷ m) done =
      let rest = write_entries tail m (done ++ ((tail, update_text ip e) ∷ [])) in
      if not (opens (length done))
      then (done, false)
      else if writes (length done)
      then rest
      else (done, false)

  -- open() and the write of "/", which the kernel module takes as a flush.
  unfoldable pub flush : Bytes → List (Bytes × Bytes) → Written Bool
  flush tail done =
      if not (opens (length done))
      then (done, false)
      else if writes (length done)
      then (done ++ ((tail, b'/' ∷ []) ∷ []), true)
      else (done, false)

  -- base_sync::write_recent_all from a table on. A table without entries is left out.
  unfoldable pub write_tables : RecentData → List (Bytes × Bytes) → Written Bool
  unfolding flush write_entries
  write_tables [] done = (done, true)
  write_tables ((name, t) ∷ d) done =
      let flushed = flush (proc_path name) done in
      let filled = write_entries (proc_path name) t.entries flushed.0 in
      let after = write_tables d filled.0 in
      let skipped = write_tables d done in
      if is_empty t.entries
      then skipped
      else if not flushed.1
      then flushed
      else if filled.1
      then after
      else filled

  unfoldable pub write_recent_all : RecentData → Written Bool
  unfolding write_tables
  write_recent_all d = write_tables d []

  -- The loop of write_recent_data: a write that fails is passed over. `n` counts all the calls.
  unfoldable pub write_each :
      Bytes → Map Bytes XtRecentEntry → ℕ → List (Bytes × Bytes) → List (Bytes × Bytes)
  unfolding update_text
  write_each tail [] n done = done
  write_each tail ((ip, e) ∷ m) n done =
      let more = (if opens n && writes n then done ++ ((tail, update_text ip e) ∷ []) else done) in
      write_each tail m (suc n) more

  -- base_sync::write_recent_data. The file is that of the name in the table.
  unfoldable pub write_recent_data : Bytes → RecentData → Written ℤ
  unfolding flush write_each
  write_recent_data table_name d = elim (lookup table_name d) [
    | none ↦ ([], negsuc 1)
    | some t ↦
        let flushed = flush (proc_path t.name) [] in
        (if flushed.1
          then (write_each (proc_path t.name) t.entries 1 flushed.0, pos 0)
          else ([], negsuc 0))
  ]

  -- base_sync::clear_recent_data of a table. The entries that it clears are those of a copy.
  unfoldable pub clear_recent_data : Bytes → RecentData → Written ℤ
  unfolding flush
  clear_recent_data table_name d = elim (lookup table_name d) [
    | none ↦ ([], negsuc 1)
    | some t ↦
        let flushed = flush (proc_path t.name) [] in
        (if flushed.1 then (flushed.0, pos 0) else ([], negsuc 0))
  ]
