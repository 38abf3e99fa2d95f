-- ===== src/Tests/Nodes.antt =====
-- The data and the loops of the nodes in src/sync and src/xt_recent on concrete tables.
use ssyncd.Common.{◌≡◌, true, false, some, List, [], ◌∷◌, ◌++◌, map, arith, refl, if◌then◌else◌}
use ssyncd.Common.Bytes.{codes}
use ssyncd.Common.Int.{pos}
use ssyncd.Common.Decimal.{to_string, tokens}
use ssyncd.Common.Ordered.{bytes_ordered, nat_ordered, ◌==◌}
use ssyncd.Common.Map.{lookup, at_or}
use ssyncd.Helpers.Utils.{dotted}
use ssyncd.XtRecent.Entry.{new_table, sort}
use ssyncd.XtRecent.Action.{XtRecentAction}
use ssyncd.XtRecent.Updates.{XtRecentSync, get_table_updates}
use ssyncd.XtRecent.Updates.Tracking.{entry_tracked, entry_at-get_table_updates}
use ssyncd.Sync.RecentData.{no_tables, apply_recent_action, all_actions, apply_all}
use ssyncd.Sync.RecentData.Lookup.{entry_at, entry_after, entry_at-apply_recent_action}
use ssyncd.Sync.RecentData.Bulk.{IsValid, entry_at-all_actions}
use ssyncd.Sync.RecentData.Invariant.{apply_recent_action-IsValid}
use ssyncd.Sync.HttpData.{apply_http_action, apply_http_all}
use ssyncd.Sync.HttpData.Lookup.{session_at, session_after, session_at-apply_http_action}
use ssyncd.Sync.HttpData.Single.{HasSingles, apply_http_action-HasSingles}
use ssyncd.Sync.Master.{all_http_actions, Master, recent_batch, Unset, handle_recent_sync}
use ssyncd.Sync.Master.Sessions.Whole
use ssyncd.Sync.Master.Sessions.Whole.{session_at-all_http_actions}
use ssyncd.Sync.Master.Batch.{IsBatch, recent_batch-IsBatch}
use ssyncd.Sync.Master.Requests.{IsAnswer, handle_recent_sync-IsAnswer}
use ssyncd.Sync.Backup.Resync.{recent_packets}
use ssyncd.Sync.Writes.{write_recent_all, update_text}
use ssyncd.Sync.Writes.Dump.{IsPart, dump, write_recent_all-IsPart, tokens-update_text}
use ssyncd.Tests.Data.{
  tables-IsValid, table_name, no_entry, no_action, entry, recent_action, http_action, tables,
  sessions,
}

entry_at-apply_recent_action_example :
    (entry_at (apply_recent_action no_tables recent_action).0 table_name (dotted 10 0 0 7)
      ≡ entry_after recent_action table_name
          (dotted 10 0 0 7)
          (entry_at no_tables table_name (dotted 10 0 0 7)))
    × ((apply_recent_action no_tables recent_action).1 ≡ true)
entry_at-apply_recent_action_example =
    entry_at-apply_recent_action no_tables recent_action table_name (dotted 10 0 0 7)

entry_at-all_actions_example :
    entry_at (apply_all no_tables (all_actions no_entry tables)) table_name (dotted 10 0 0 7)
    ≡ entry_at tables table_name (dotted 10 0 0 7)
entry_at-all_actions_example =
    entry_at-all_actions no_entry tables table_name (dotted 10 0 0 7) tables-IsValid

apply_recent_action-IsValid_example : IsValid (apply_recent_action tables recent_action).0
apply_recent_action-IsValid_example =
    apply_recent_action-IsValid tables recent_action tables-IsValid

session_at-apply_http_action_example :
    (session_at (apply_http_action sessions (some http_action)).0 (codes "web") 300 1 (codes "k")
      ≡ session_after http_action sessions (codes "web") 300 1 (codes "k"))
    × ((apply_http_action sessions (some http_action)).1 ≡ true)
session_at-apply_http_action_example =
    session_at-apply_http_action sessions http_action (codes "web") 300 1 (codes "k")

abbrev watcher : XtRecentSync
watcher = record { recent_data = tables; input_data = [] }

entry_at-get_table_updates_example :
    entry_at
      (apply_all tables
        (get_table_updates no_entry table_name
          (record { name = table_name; entries = [] })
          watcher).input_data)
      table_name
      (dotted 10 0 0 7)
    ≡ (if table_name == table_name
        then entry_tracked
            (lookup (dotted 10 0 0 7) (at_or new_table table_name tables).entries)
            (lookup (dotted 10 0 0 7) [])
        else entry_at (apply_all tables []) table_name (dotted 10 0 0 7))
unfolding at_or lookup entry_at apply_all
entry_at-get_table_updates_example =
    entry_at-get_table_updates no_entry table_name (record { name = table_name; entries = [] })
      watcher tables table_name (dotted 10 0 0 7) refl (tt, tt) (refl, tt) refl

abbrev node : Master
node = record {
  recent_data = tables;
  http_session_data = sessions;
  backup_servers_fd = pos 1;
  wait = false;
  http_queue = [];
  recent_queue = recent_action ∷ [];
  sent = [];
  to_pound = [];
}

recent_batch-IsBatch_example :
    (taken : List XtRecentAction) × (rest : List XtRecentAction) × IsBatch 0 node.recent_queue node
      (recent_batch 0 node.recent_queue node)
      taken
      rest
recent_batch-IsBatch_example = recent_batch-IsBatch node

write_recent_all-IsPart_example :
    IsPart (write_recent_all (λ n. true) (λ n. true) tables) [] (dump tables)
write_recent_all-IsPart_example = write_recent_all-IsPart (λ n. true) (λ n. true) tables

tokens-update_text_example :
    tokens b';' (update_text (codes "ip") entry)
    ≡ (b'*' ∷ codes "ip") ∷ to_string 64 ∷ (map to_string (sort (5 ∷ 9 ∷ [])) ++ ([] ∷ []))
tokens-update_text_example = tokens-update_text (codes "ip") entry (omega arith, (omega arith, tt))

sessions-HasSingles : HasSingles sessions
sessions-HasSingles = ((omega arith, tt), tt)

apply_http_action-HasSingles_example : HasSingles (apply_http_action sessions (some http_action)).0
apply_http_action-HasSingles_example =
    apply_http_action-HasSingles sessions (some http_action) sessions-HasSingles

sessions-IsValid : Whole.IsValid sessions
sessions-IsValid = ((tt, tt), (((tt, tt), ((omega arith, (((tt, tt), (refl, tt)), tt)), tt)), tt))

session_at-all_http_actions_example :
    session_at
      (apply_http_all [] (all_http_actions no_action sessions))
      (codes "web")
      300
      1
      (codes "k")
    ≡ session_at sessions (codes "web") 300 1 (codes "k")
session_at-all_http_actions_example =
    session_at-all_http_actions no_action sessions (codes "web") 300 1 (codes "k") sessions-IsValid

abbrev unset : Unset
unset = record { entry = no_entry; action = no_action }

handle_recent_sync-IsAnswer_example :
    IsAnswer
      (λ n. n == 0)
      node
      (recent_packets 4 (all_actions no_entry node.recent_data))
      (handle_recent_sync (λ n. n == 0) unset 4 node)
handle_recent_sync-IsAnswer_example = handle_recent_sync-IsAnswer (λ n. n == 0) unset 4 node
