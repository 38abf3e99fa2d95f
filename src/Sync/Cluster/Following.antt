-- ===== src/Sync/Cluster/Following.antt =====
-- A backup that follows its master: src/sync/sync_master.cpp and src/sync/sync_backup.cpp, between two
-- steps.
use mathlib.Core.Path.{subst}
use ssyncd.Common.{
  ◌≡◌, ◌≢◌, refl, sym, ap, ◌∙◌, inl, inr, true, none, List, [], ◌∷◌, ◌++◌, arith, if◌then◌else◌,
}
use ssyncd.Common.Bytes.{Bytes}
use ssyncd.Common.Int.{pos}
use ssyncd.XtRecent.Action.{XtRecentAction}
use ssyncd.Sync.PktParser.{Packet}
use ssyncd.Sync.RecentData.{RecentData, apply_all}
use ssyncd.Sync.RecentData.Bulk.{IsValid, apply_all-append}
use ssyncd.Sync.RecentData.Invariant.{apply_recent_action-IsValid}
use ssyncd.Sync.Backup.Replica.{IsReplica, shared}
use ssyncd.Sync.Master.{Master, is_positive}
use ssyncd.Sync.Master.Apart.{recent_of, recent_of-append}
use ssyncd.Sync.Cluster.{Phase, unknown, connected, synced, Cluster}
use ssyncd.Sync.Cluster.View.{IsBelow, apply_all-IsBelow, apply_all-IsReplica_same}
use ssyncd.Sync.Cluster.Rounds.{IsRound}
use ssyncd.Sync.RecentData.Lookup.{entry_at}

-- What the backup will know once it has received everything that is on its way.
abbrev pub view : Cluster → RecentData
view c = apply_all c.backup.recent_data (recent_of c.wire)

-- How the tables of the master and the view relate, by what the master has heard of the backup.
abbrev pub Follows : Phase → RecentData → RecentData → Type 0
Follows unknown d v = (name ip : Bytes) → shared (entry_at v name ip) ≡ none
Follows connected d v = IsBelow d v
Follows synced d v = IsReplica d v

abbrev pub HasNodes : Phase → Master → Type 0
HasNodes unknown m = m.backup_servers_fd ≡ pos 0
HasNodes connected m = is_positive m.backup_servers_fd ≡ true
HasNodes synced m = is_positive m.backup_servers_fd ≡ true

pub record IsFollowing (c : Cluster) : Type 0 where
  pub valid : IsValid c.master.recent_data
  pub nodes : HasNodes c.phase c.master
  pub follows : Follows c.phase c.master.recent_data (view c)

pub apply_all-IsValid :
    (xs : List XtRecentAction) (d : RecentData) → IsValid d → IsValid (apply_all d xs)
unfolding apply_all
apply_all-IsValid [] d h = h
apply_all-IsValid (x ∷ xs) d h = apply_all-IsValid xs _ (apply_recent_action-IsValid d x h)

-- The view may change as long as no lookup in it does.
pub Follows-IsReplica :
    (p : Phase) (d v v' : RecentData) → IsReplica v v' → Follows p d v → Follows p d v'
Follows-IsReplica unknown d v v' e h = λ name ip. sym (e name ip) ∙ h name ip
Follows-IsReplica connected d v v' e h = λ name ip. ground (arith, h name ip, e name ip)
Follows-IsReplica synced d v v' e h = λ name ip. h name ip ∙ e name ip

-- What is given to send_packet comes last in the view.
pub view_append :
    (d : RecentData) (ps qs : List Packet)
    → apply_all d (recent_of (ps ++ qs)) ≡ apply_all (apply_all d (recent_of ps)) (recent_of qs)
view_append d ps qs =
    ap (λ z. apply_all d z) (recent_of-append ps qs)
    ∙ apply_all-append d (recent_of ps) (recent_of qs)

-- What a round sends is all that it applies, or nothing where there is no node.
sends_taken :
    {s s' : Master} (r : IsRound s s')
    → is_positive s.backup_servers_fd ≡ true
    → recent_of r.new ≡ r.taken
sends_taken r n = r.recents ∙ ap (λ b. if b then r.taken else []) n

sends_none : {s s' : Master} (r : IsRound s s') → s.backup_servers_fd ≡ pos 0 → recent_of r.new ≡ []
unfolding is_positive
sends_none r n = r.recents ∙ ap (λ z. if is_positive z then r.taken else []) n

pub Follows-round :
    (p : Phase) (s s' : Master) (d' : RecentData)
    → HasNodes p s
    → Follows p s.recent_data d'
    → (r : IsRound s s') → Follows p s'.recent_data (apply_all d' (recent_of r.new))
unfolding apply_all
Follows-round unknown s s' d' n h r = rw (sends_none r n) h
Follows-round connected s s' d' n h r =
    rw (sends_taken r n, r.tables) (apply_all-IsBelow r.taken s.recent_data d' h)
Follows-round synced s s' d' n h r =
    rw (sends_taken r n, r.tables) (apply_all-IsReplica_same r.taken s.recent_data d' h)

pub HasNodes-same :
    (p : Phase) (s s' : Master)
    → s'.backup_servers_fd ≡ s.backup_servers_fd
    → HasNodes p s
    → HasNodes p s'
HasNodes-same unknown s s' e n = e ∙ n
HasNodes-same connected s s' e n = ap is_positive e ∙ n
HasNodes-same synced s s' e n = ap is_positive e ∙ n

-- What a CONNECT and a SYNC_REQUEST find.
pub Follows-unknown : (p : Phase) (d v : RecentData) → p ≡ unknown → Follows p d v → IsBelow d v
Follows-unknown p d v e h name ip = inl (subst (λ q. Follows q d v) e h name ip)

pub HasNodes-unknown :
    (p : Phase) (m : Master) → p ≡ unknown → HasNodes p m → m.backup_servers_fd ≡ pos 0
HasNodes-unknown p m e n = subst (λ q. HasNodes q m) e n

pub Follows-known : (p : Phase) (d v : RecentData) → p ≢ unknown → Follows p d v → IsBelow d v
Follows-known unknown d v e h = absurd (e refl)
Follows-known connected d v e h = h
Follows-known synced d v e h = λ name ip. inr (h name ip)

pub HasNodes-known :
    (p : Phase) (m : Master) → p ≢ unknown → HasNodes p m → is_positive m.backup_servers_fd ≡ true
HasNodes-known unknown m e n = absurd (e refl)
HasNodes-known connected m e n = n
HasNodes-known synced m e n = n
