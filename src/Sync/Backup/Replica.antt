-- ===== src/Sync/Backup/Replica.antt =====
-- The master's recent tables and a backup's stay alike, action by action.
use ssyncd.Common.{ℕ, ◌≡◌, sym, ap, ◌∙◌, Option, none, some, List, [], ◌∷◌, map, arith}
use ssyncd.Common.Bytes.{Bytes}
use ssyncd.Common.Ordered.{bytes_ordered}
use ssyncd.XtRecent.Entry.{XtRecentEntry, Indeterminate}
use ssyncd.XtRecent.Action.{
  XtRecentAction, ActionType, add_upd_entry, delete_entry, flush_table, delete_table, other_action,
}
use ssyncd.XtRecent.Parser.RoundTrip.{received_action, received_entry}
use ssyncd.Sync.RecentData.{RecentData, apply_recent_action, apply_all}
use ssyncd.Sync.RecentData.Lookup.{with_action, entry_at, entry_after, entry_at-apply_recent_action}

-- What two nodes share of an entry: `last_seen` does not go over the wire.
unfoldable pub shared : Option XtRecentEntry → Option XtRecentEntry
shared none = none
shared (some e) = some (record e { last_seen = 0 })

-- Both nodes hold the same entries, as far as they share them.
abbrev pub IsReplica : RecentData → RecentData → Type 0
IsReplica d d' = (name ip : Bytes) → shared (entry_at d name ip) ≡ shared (entry_at d' name ip)

-- The actions as a backup receives them, with these sizes.
unfoldable pub received_actions : Indeterminate → List (XtRecentAction × ℕ) → List XtRecentAction
received_actions g [] = []
received_actions g ((x, n) ∷ xs) = received_action g x n ∷ received_actions g xs

after_cases :
    (g : Indeterminate) (n : ℕ) (t : ActionType) (x : XtRecentAction) (name ip : Bytes)
    (old old' : Option XtRecentEntry)
    → shared old ≡ shared old'
    → shared (entry_after (with_action t x) name ip old)
      ≡ shared (entry_after (received_action g (with_action t x) n) name ip old')
unfolding received_action received_entry shared
after_cases g n add_upd_entry x name ip old old' h = ground (arith, h)
after_cases g n delete_entry x name ip old old' h = ground (arith, h)
after_cases g n flush_table x name ip old old' h = ground (arith, h)
after_cases g n delete_table x name ip old old' h = h
after_cases g n (other_action m) x name ip old old' h = h

pub apply-IsReplica :
    (g : Indeterminate) (n : ℕ) (x : XtRecentAction) (d d' : RecentData)
    → IsReplica d d'
    → IsReplica (apply_recent_action d x).0 (apply_recent_action d' (received_action g x n)).0
apply-IsReplica g n x d d' h name ip =
    ap shared (entry_at-apply_recent_action d x name ip).0
    ∙ after_cases g n x.action x name ip (entry_at d name ip) (entry_at d' name ip) (h name ip)
    ∙ sym (ap shared (entry_at-apply_recent_action d' (received_action g x n) name ip).0)

-- Where a master and a backup hold the same entries, up to the time they were last seen, they do so
-- again after the master has applied some actions and the backup those actions as it receives them.
pub apply_all-IsReplica :
    (g : Indeterminate) (xs : List (XtRecentAction × ℕ)) (d d' : RecentData)
    → IsReplica d d'
    → IsReplica (apply_all d (map (λ x. x.0) xs)) (apply_all d' (received_actions g xs))
unfolding apply_all received_actions
apply_all-IsReplica g [] d d' h = h
apply_all-IsReplica g ((x, n) ∷ xs) d d' h =
    apply_all-IsReplica g xs (apply_recent_action d x).0
      (apply_recent_action d' (received_action g x n)).0 (apply-IsReplica g n x d d' h)
