-- ===== src/XtRecent/Updates/Task.antt =====
-- The thread of src/xt_recent/xt_recent_sync.cpp: xt_recent_sync::proc_task.
use ssyncd.Common.{Option, none, some, List, [], ◌∷◌, if◌then◌else◌}
use ssyncd.Common.Bytes.{Bytes}
use ssyncd.XtRecent.Entry.{Indeterminate}
use ssyncd.XtRecent.Proc.Directory.{DirEntry, Scanned, exits, throws, scanned, read_table}
use ssyncd.XtRecent.Updates.{XtRecentSync, update_table}

module _ (partial_match : Bytes → Bytes → Option Bytes) (g : Indeterminate) where
  -- The loop over readdir(): it passes over what is no regular file.
  unfoldable pub read_dir : List DirEntry → XtRecentSync → Scanned XtRecentSync
  unfolding update_table
  read_dir [] s = scanned s
  read_dir (f ∷ fs) s =
      let passed_over = read_dir fs s in
      if f.is_regular
      then elim (read_table partial_match f) [
        | none ↦ throws
        | some t ↦ read_dir fs (update_table g (λ name. t) f.d_name s)
      ]
      else passed_over

  -- The loop while is_running: in each round opendir() gives a directory, or the program exits.
  unfoldable pub proc_task : List (Option (List DirEntry)) → XtRecentSync → Scanned XtRecentSync
  unfolding read_dir
  proc_task [] s = scanned s
  proc_task (none ∷ rounds) s = exits
  proc_task (some fs ∷ rounds) s = elim (read_dir fs s) [
    | exits ↦ exits
    | throws ↦ throws
    | scanned s' ↦ proc_task rounds s'
  ]
