-- ===== src/Tests/Scan.antt =====
-- The thread of src/xt_recent/xt_recent_sync.cpp on a concrete directory.
use ssyncd.Common.{refl, true, false, Option, some, List, [], ◌∷◌}
use ssyncd.Common.Bytes.{codes}
use ssyncd.Common.Ordered.{bytes_ordered}
use ssyncd.Common.Map.{lookup}
use ssyncd.XtRecent.Proc.Directory.{DirEntry}
use ssyncd.XtRecent.Updates.{XtRecentSync}
use ssyncd.XtRecent.Updates.Task.{proc_task}
use ssyncd.XtRecent.Updates.Rounds.{IsTracked, OutcomeIsTracked, last_read, proc_task-IsTracked}
use ssyncd.Sync.RecentData.{no_tables, apply_all}
use ssyncd.Tests.Data.{table_name, no_entry, partial_match}

abbrev file : DirEntry
file = record { d_name = table_name; is_regular = true; lines = codes "row" ∷ [] }

abbrev parent : DirEntry
parent = record { d_name = codes ".."; is_regular = false; lines = [] }

abbrev emptied : DirEntry
emptied = record { d_name = table_name; is_regular = true; lines = [] }

-- Two rounds: the first finds an entry, and the second does not find it any more.
abbrev rounds : List (Option (List DirEntry))
rounds = some (parent ∷ file ∷ []) ∷ some (emptied ∷ parent ∷ []) ∷ []

abbrev watcher : XtRecentSync
watcher = record { recent_data = no_tables; input_data = [] }

watcher-IsTracked : IsTracked no_tables watcher
unfolding apply_all
watcher-IsTracked = record { tables = tt; same = λ name ip. refl }

proc_task-IsTracked_example :
    OutcomeIsTracked no_tables
      (λ name. last_read partial_match name rounds (lookup name watcher.recent_data))
      (proc_task partial_match no_entry rounds watcher)
proc_task-IsTracked_example =
    proc_task-IsTracked partial_match no_entry no_tables rounds watcher watcher-IsTracked
