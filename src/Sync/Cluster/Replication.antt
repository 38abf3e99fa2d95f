-- ===== src/Sync/Cluster/Replication.antt =====
-- A backup stays in step with its master: src/sync/sync_master.cpp and src/sync/sync_backup.cpp at any
-- pace.
use mathlib.Core.Path.{subst}
use ssyncd.Common.{
  ◌≡◌, refl, sym, ap, ◌∙◌, inl, inr, Bool, true, Option, none, some, List, [], ◌++◌, append-nil,
  append_cancel_left,
}
use ssyncd.Common.Map.{lookup}
use ssyncd.Common.Int.{pos}
use ssyncd.Sync.PktParser
use ssyncd.Sync.PktParser.{Packet, plain, recent, http, base_of, set_fd}
use ssyncd.Sync.RecentData.{apply_all, all_actions}
use ssyncd.Sync.RecentData.Bulk.{IsValid}
use ssyncd.Sync.Backup.Replica.{IsReplica, shared}
use ssyncd.Sync.Master.{Master, Unset, run_round, increment, is_positive}
use ssyncd.Sync.Master.Apart.{recent_of}
use ssyncd.Sync.Cluster.{
  Phase, synced, Cluster, Hears, Step, queues, queues_http, rounds, delivers, Reach, here, next,
  cluster_of,
}
use ssyncd.Sync.Cluster.View.{IsBelow, all_actions-IsReplica}
use ssyncd.Sync.Cluster.Rounds.{none-IsRound, sync-IsSynced, connect_lem}
use ssyncd.Sync.RecentData.Lookup.{entry_at}
use ssyncd.Sync.Cluster.Following.{
  view, IsFollowing, apply_all-IsValid, Follows, Follows-IsReplica, view_append, Follows-round,
  HasNodes-same, Follows-unknown, HasNodes-unknown, Follows-known, HasNodes-known,
}
use ssyncd.Sync.Cluster.Delivers.{view-delivers}

module _ (u : Unset) (v : PktParser.Unset) where
  -- A round, whatever it found in the queue of the connection.
  rounds-IsFollowing :
      (c : Cluster) (http_running : Bool) (req : Option Packet) (new : List Packet) (p : Phase)
      → Hears c.phase req p
      → (run_round (λ n. true) true http_running u req c.master).sent ≡ c.master.sent ++ new
      → IsFollowing c
      → IsFollowing (record c {
        master = run_round (λ n. true) true http_running u req c.master;
        wire = c.wire ++ new;
        phase = p;
      })
  unfolding is_positive increment apply_all recent_of
  rounds-IsFollowing c http_running none new p e w h =
      let s' = run_round (λ n. true) true http_running u none c.master in
      let r = none-IsRound http_running u c.master in
      let same : r.new ≡ new = append_cancel_left c.master.sent r.new new (sym r.sends ∙ w) in
      rw e (record {
        valid =
            subst IsValid (sym r.tables) (apply_all-IsValid r.taken c.master.recent_data h.valid);
        nodes = HasNodes-same c.phase c.master s' r.nodes h.nodes;
        follows =
            subst (Follows c.phase s'.recent_data)
              (ap (λ z. apply_all (view c) (recent_of z)) same
                ∙ sym (view_append c.backup.recent_data c.wire new))
              (Follows-round c.phase c.master s' (view c) h.nodes h.follows r);
      })
  rounds-IsFollowing c http_running (some req) new p (inl (e, t, q)) w h =
      let s = c.master in
      let r = connect_lem http_running u req s t in
      let same : [] ≡ new =
        append_cancel_left s.sent [] new (append-nil s.sent ∙ sym (ap (λ z. z.sent) r) ∙ w) in
      rw (q, r, sym same)
        (record {
          valid = h.valid;
          nodes = ap (λ z. is_positive (increment z)) (HasNodes-unknown c.phase s e h.nodes);
          follows =
              subst (IsBelow s.recent_data) (sym (view_append c.backup.recent_data c.wire []))
                (Follows-unknown c.phase s.recent_data (view c) e h.follows);
        })
  rounds-IsFollowing c http_running (some req) new p (inr (e, t, q)) w h =
      let s = c.master in
      let s' = run_round (λ n. true) true http_running u (some req) s in
      let r = sync-IsSynced http_running u req s t in
      let same : r.new ≡ new = append_cancel_left s.sent r.new new (sym r.sends ∙ w) in
      rw q (record {
        valid = subst IsValid (sym r.tables) h.valid;
        nodes = ap is_positive r.nodes ∙ HasNodes-known c.phase s e h.nodes;
        follows =
            subst (IsReplica s'.recent_data)
              (sym (r.recents (view c))
                ∙ ap (λ z. apply_all (view c) (recent_of z)) same
                ∙ sym (view_append c.backup.recent_data c.wire new))
              (subst (λ d. IsReplica d (apply_all (view c) (all_actions u.entry s.recent_data)))
                (sym r.tables)
                (all_actions-IsReplica u.entry s.recent_data (view c) h.valid
                  (Follows-known c.phase s.recent_data (view c) e h.follows)));
      })

  Step-IsFollowing : {c c' : Cluster} → Step u v c c' → IsFollowing c → IsFollowing c'
  Step-IsFollowing (queues x f e) h =
      rw e
        (record { valid = h.valid; nodes = HasNodes-same _ _ _ refl h.nodes; follows = h.follows })
  Step-IsFollowing (queues_http x e) h =
      rw e
        (record { valid = h.valid; nodes = HasNodes-same _ _ _ refl h.nodes; follows = h.follows })
  Step-IsFollowing {c} (rounds http_running req s new p k m w e) h =
      rw (e, m) (rounds-IsFollowing c http_running req new p k (sym (ap (λ z. z.sent) m) ∙ w) h)
  Step-IsFollowing {c} (delivers w pkt rest out more n extra pkt' used left fd b wires k e r q t)
        h =
      rw t (record {
        valid = h.valid;
        nodes = h.nodes;
        follows =
            Follows-IsReplica c.phase c.master.recent_data (view c) _
              (subst
                (λ z.
                  IsReplica (apply_all c.backup.recent_data (recent_of z))
                    (apply_all b.recent_data (recent_of rest)))
                (sym wires)
                (view-delivers w v pkt pkt' rest out more left n extra used fd c.backup b k e r q))
              h.follows;
      })

  Reach-IsFollowing : {c c' : Cluster} → IsFollowing c → Reach u v c c' → IsFollowing c'
  Reach-IsFollowing h here = h
  Reach-IsFollowing h (next r st) = Step-IsFollowing st (Reach-IsFollowing h r)

Reach-Follows :
    (u : Unset) (v : PktParser.Unset) (m : Master) (c : Cluster)
    → IsValid m.recent_data
    → m.backup_servers_fd ≡ pos 0
    → Reach u v (cluster_of m) c
    → c.phase ≡ synced
    → IsReplica c.master.recent_data (view c)
unfolding apply_all recent_of shared entry_at lookup
Reach-Follows u v m c valid alone r e =
    let h =
      Reach-IsFollowing u v (record { valid = valid; nodes = alone; follows = λ name ip. refl })
        r in
    subst (λ p. Follows p c.master.recent_data (view c)) e h.follows

-- A master has valid tables and no node, and a backup starts and connects to it. Then the listeners of the
-- master enqueue, the master does its rounds, with or without a SYNC_REQUEST, and the backup receives
-- packets, in any order. The recent service of the master runs all the time, send_packet does not fail,
-- the connection does not end, and every packet that the backup receives fits the wire. Whenever the
-- master has handled a SYNC_REQUEST of the backup and no packet is on its way, the backup holds the same
-- entries as the master, up to the time they were last seen.
pub Reach-IsReplica :
    (u : Unset) (v : PktParser.Unset) (m : Master) (c : Cluster)
    → IsValid m.recent_data
    → m.backup_servers_fd ≡ pos 0
    → Reach u v (cluster_of m) c
    → c.phase ≡ synced
    → c.wire ≡ []
    → IsReplica c.master.recent_data c.backup.recent_data
unfolding apply_all recent_of
Reach-IsReplica u v m c valid alone r e none_left =
    subst (λ ps. IsReplica c.master.recent_data (apply_all c.backup.recent_data (recent_of ps)))
      none_left (Reach-Follows u v m c valid alone r e)
