-- ===== src/Sync/Cluster/View.antt =====
-- What a backup will know of the recent tables once it has received everything, against the tables of
-- its master.
use ssyncd.Common.{ℕ, ◌≡◌, refl, ◌⊎◌, Option, none, List, [], ◌∷◌, arith}
use ssyncd.Common.Bytes.{Bytes}
use ssyncd.Common.Ordered.{bytes_ordered}
use ssyncd.XtRecent.Entry.{XtRecentEntry, Indeterminate}
use ssyncd.XtRecent.Action.{
  XtRecentAction, ActionType, add_upd_entry, delete_entry, flush_table, delete_table, other_action,
}
use ssyncd.XtRecent.Parser.RoundTrip.{received_action}
use ssyncd.Sync.RecentData.{RecentData, apply_recent_action, apply_all, all_actions}
use ssyncd.Sync.RecentData.Lookup.{with_action, entry_at, entry_after, entry_at-apply_recent_action}
use ssyncd.Sync.RecentData.Bulk.{IsValid, over, all_actions_lem}
use ssyncd.Sync.Backup.Replica.{IsReplica, shared, apply-IsReplica}

-- The second node knows nothing but what the first one has.
abbrev pub IsBelow : RecentData → RecentData → Type 0
IsBelow d d' =
    (name ip : Bytes)
    → (shared (entry_at d' name ip) ≡ none)
      ⊎ (shared (entry_at d name ip) ≡ shared (entry_at d' name ip))

after_below :
    (t : ActionType) (x : XtRecentAction) (name ip : Bytes) (old old' : Option XtRecentEntry)
    → (shared old' ≡ none) ⊎ (shared old ≡ shared old')
    → (shared (entry_after (with_action t x) name ip old') ≡ none)
      ⊎ (shared (entry_after (with_action t x) name ip old)
          ≡ shared (entry_after (with_action t x) name ip old'))
unfolding shared
after_below add_upd_entry x name ip old old' h = ground (arith, h)
after_below delete_entry x name ip old old' h = ground (arith, h)
after_below flush_table x name ip old old' h = ground (arith, h)
after_below delete_table x name ip old old' h = h
after_below (other_action m) x name ip old old' h = h

after_same :
    (t : ActionType) (x : XtRecentAction) (name ip : Bytes) (old old' : Option XtRecentEntry)
    → shared old ≡ shared old'
    → shared (entry_after (with_action t x) name ip old)
      ≡ shared (entry_after (with_action t x) name ip old')
unfolding shared
after_same add_upd_entry x name ip old old' h = ground (arith, h)
after_same delete_entry x name ip old old' h = ground (arith, h)
after_same flush_table x name ip old old' h = ground (arith, h)
after_same delete_table x name ip old old' h = h
after_same (other_action m) x name ip old old' h = h

apply-IsBelow :
    (x : XtRecentAction) (d d' : RecentData)
    → IsBelow d d'
    → IsBelow (apply_recent_action d x).0 (apply_recent_action d' x).0
apply-IsBelow x d d' h name ip =
    rw ((entry_at-apply_recent_action d x name ip).0, (entry_at-apply_recent_action d' x name ip).0)
      (after_below x.action x name ip (entry_at d name ip) (entry_at d' name ip) (h name ip))

apply-IsReplica_same :
    (x : XtRecentAction) (d d' : RecentData)
    → IsReplica d d'
    → IsReplica (apply_recent_action d x).0 (apply_recent_action d' x).0
apply-IsReplica_same x d d' h name ip =
    rw ((entry_at-apply_recent_action d x name ip).0, (entry_at-apply_recent_action d' x name ip).0)
      (after_same x.action x name ip (entry_at d name ip) (entry_at d' name ip) (h name ip))

pub apply_all-IsBelow :
    (xs : List XtRecentAction) (d d' : RecentData)
    → IsBelow d d'
    → IsBelow (apply_all d xs) (apply_all d' xs)
unfolding apply_all
apply_all-IsBelow [] d d' h = h
apply_all-IsBelow (x ∷ xs) d d' h = apply_all-IsBelow xs _ _ (apply-IsBelow x d d' h)

pub apply_all-IsReplica_same :
    (xs : List XtRecentAction) (d d' : RecentData)
    → IsReplica d d'
    → IsReplica (apply_all d xs) (apply_all d' xs)
unfolding apply_all
apply_all-IsReplica_same [] d d' h = h
apply_all-IsReplica_same (x ∷ xs) d d' h =
    apply_all-IsReplica_same xs _ _ (apply-IsReplica_same x d d' h)

-- All entries of the master make a node that knows nothing else a replica.
pub all_actions-IsReplica :
    (g : Indeterminate) (d d' : RecentData)
    → IsValid d
    → IsBelow d d'
    → IsReplica d (apply_all d' (all_actions g d))
unfolding over shared
all_actions-IsReplica g d d' valid h name ip =
    ground (arith, all_actions_lem g d d' name ip valid, h name ip)

-- An action that was received does what it did where it was made.
pub received-IsReplica :
    (g : Indeterminate) (x : XtRecentAction) (size : ℕ) (d : RecentData) (xs : List XtRecentAction)
    → IsReplica
        (apply_all d (x ∷ xs))
        (apply_all (apply_recent_action d (received_action g x size)).0 xs)
unfolding apply_all
received-IsReplica g x size d xs =
    apply_all-IsReplica_same xs _ _ (apply-IsReplica g size x d d (λ name ip. refl))
