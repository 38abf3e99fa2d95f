-- ===== src/Sync/Listing.antt =====
-- The texts in which src/sync/sync_controller.cpp lists the data of a node.
use ssyncd.Common.{zero, suc, Option, none, some, List, [], ◌∷◌, ◌++◌, length}
use ssyncd.Common.Bytes.{Bytes, codes}
use ssyncd.Common.Int.{ℤ, pos, negsuc}
use ssyncd.Common.Decimal.{to_string}
use ssyncd.Common.Map.{Map}
use ssyncd.XtRecent.Entry.{XtRecentEntry, show_entry}
use ssyncd.Http.Session.{HttpSession}
use ssyncd.Sync.RecentData.{RecentData}
use ssyncd.Sync.HttpData.{Services, Listeners, HttpData}

abbrev pub line : Bytes → Bytes
line s = s ++ (10 ∷ [])

-- COUNT_RECENT
unfoldable pub count_tables : RecentData → List Bytes
count_tables [] = []
count_tables ((name, t) ∷ d) =
    (codes "# " ++ (name ++ codes ": ")) ∷ line (to_string (length t.entries)) ∷ count_tables d

-- SHOW_RECENT; `none` is the undefined read of an entry without timestamps.
unfoldable pub show_entries : Map Bytes XtRecentEntry → Option (List Bytes)
show_entries [] = some []
show_entries ((ip, e) ∷ m) = elim (show_entry e) [
  | none ↦ none
  | some shown ↦ elim (show_entries m) [ none ↦ none | some rs ↦ some (line shown.1 ∷ rs) ]
]

unfoldable pub show_tables : RecentData → Option (List Bytes)
unfolding show_entries
show_tables [] = some []
show_tables ((name, t) ∷ d) = elim (show_entries t.entries) [
  | none ↦ none
  | some es ↦ elim (show_tables d) [
    | none ↦ none
    | some rs ↦ some (line (codes "# " ++ name) ∷ (es ++ rs))
  ]
]

-- COUNT_HTTP
unfoldable pub count_services : Services → List Bytes
count_services [] = []
count_services ((id, v) ∷ m) = line (to_string (length v.sessions)) ∷ count_services m

unfoldable pub count_listeners : Listeners → List Bytes
unfolding count_services
count_listeners [] = []
count_listeners ((id, v) ∷ m) = count_services v ++ count_listeners m

unfoldable pub count_farms : HttpData → List Bytes
unfolding count_listeners
count_farms [] = []
count_farms ((farm, v) ∷ m) = line (codes "farm:  " ++ farm) ∷ (count_listeners v ++ count_farms m)

-- SHOW_HTTP
unfoldable pub show_sessions : Map Bytes HttpSession → List Bytes
show_sessions [] = []
show_sessions ((key, x) ∷ m) =
    line (
      codes "\t\t\tSession: "
      ++ (key ++ (codes " [ " ++ (to_string x.last_acc ++ (codes " ] >> " ++ x.content)))))
    ∷ show_sessions m

unfoldable pub show_services : Services → List Bytes
unfolding show_sessions
show_services [] = []
show_services ((id, v) ∷ m) =
    line (codes " \t\tService: " ++ to_string id) ∷ (show_sessions v.sessions ++ show_services m)

unfoldable pub show_listeners : Listeners → List Bytes
unfolding show_services
show_listeners [] = []
show_listeners ((id, v) ∷ m) =
    line (codes "\thttp Listener: " ++ to_string id) ∷ (show_services v ++ show_listeners m)

unfoldable pub show_farms : HttpData → List Bytes
unfolding show_listeners
show_farms [] = []
show_farms ((farm, v) ∷ m) = line (codes "farm:  " ++ farm) ∷ (show_listeners v ++ show_farms m)

-- The result of clear_recent_data and of write_recent_data, as a response.
unfoldable pub result_text : ℤ → Bytes → Bytes → Bytes
result_text (pos zero) good bad = good
result_text (pos (suc n)) good bad = bad
result_text (negsuc zero) good bad = bad
result_text (negsuc (suc zero)) good bad = codes "table doesn't exist"
result_text (negsuc (suc (suc n))) good bad = bad
