-- ===== src/Sync/Cluster/Rounds.antt =====
-- What the rounds and requests of sync_master::run of src/sync/sync_master.cpp do to the recent tables
-- of the master, and send.
use ssyncd.Common.{
  ℕ, suc, ◌≡◌, refl, sym, ap, ◌∙◌, inl, inr, Bool, true, false, none, some, List, [], ◌∷◌, ◌++◌,
  map, arith, append_assoc, append-nil, Bool-cases, if◌then◌else◌,
}
use ssyncd.Connection.Packet.{connect, sync_request}
use ssyncd.XtRecent.Action.{XtRecentAction}
use ssyncd.Sync.PktParser.{Packet, recent, base_of, set_fd}
use ssyncd.Sync.RecentData.{RecentData, apply_recent_action, apply_all, all_actions}
use ssyncd.Sync.Backup.Resync.{recent_packets}
use ssyncd.Sync.Master.{
  Master, Unset, run_round, handle_request, handle_recent_sync, send_recent, send, fd_of, increment,
  is_positive, recent_batch, http_phase, handle_recent_action,
}
use ssyncd.Sync.Master.Batch.{recent_batch-IsBatch, forwarded, handled_nodes}
use ssyncd.Sync.Master.Apart.{
  IsApart, recent_of, recent_of-append, http_phase-IsApart, handle_http_sync-IsApart,
}

-- What a round without a request does to the recent tables: it applies some actions, and sends them if
-- there are nodes.
pub record IsRound (s s' : Master) : Type 0 where
  pub taken : List XtRecentAction
  pub tables : s'.recent_data ≡ apply_all s.recent_data taken
  pub nodes : s'.backup_servers_fd ≡ s.backup_servers_fd
  pub new : List Packet
  pub sends : s'.sent ≡ s.sent ++ new
  pub recents : recent_of new ≡ (if is_positive s.backup_servers_fd then taken else [])

recent_of-map : (xs : List XtRecentAction) → recent_of (map recent xs) ≡ xs
unfolding recent_of
recent_of-map [] = refl
recent_of-map (x ∷ xs) = ap (λ z. x ∷ z) (recent_of-map xs)

recent_of-forwarded :
    (s : Master) (xs : List XtRecentAction)
    → recent_of (forwarded s xs) ≡ (if is_positive s.backup_servers_fd then xs else [])
unfolding recent_of
recent_of-forwarded s xs = ground (arith, recent_of-map xs)

batch_nodes :
    (n : ℕ) (xs : List XtRecentAction) (s : Master)
    → (recent_batch n xs s).backup_servers_fd ≡ s.backup_servers_fd
unfolding recent_batch
batch_nodes n [] s = ground arith
batch_nodes n (x ∷ xs) s =
    ground (arith, handled_nodes x s, batch_nodes (suc n) xs (handle_recent_action x s))

batch-IsRound : (s t : Master) → IsApart s t → IsRound s (recent_batch 0 t.recent_queue t)
batch-IsRound s t a =
    let (taken, rest, b) = recent_batch-IsBatch t in
    record {
      taken = taken;
      tables = b.tables ∙ ap (λ d. apply_all d taken) a.tables;
      nodes = batch_nodes 0 t.recent_queue t ∙ a.nodes;
      new = a.new ++ forwarded t taken;
      sends = b.sends ∙ ap (λ z. z ++ forwarded t taken) a.sends ∙ append_assoc s.sent a.new _;
      recents =
          recent_of-append a.new (forwarded t taken)
          ∙ ap (λ z. z ++ recent_of (forwarded t taken)) a.others
          ∙ recent_of-forwarded t taken
          ∙ ap (λ n. if is_positive n then taken else []) a.nodes;
    }

-- A round that sends nothing and applies nothing.
idle-IsRound :
    (s s' : Master)
    → s'.recent_data ≡ s.recent_data
    → s'.backup_servers_fd ≡ s.backup_servers_fd
    → s'.sent ≡ s.sent
    → IsRound s s'
unfolding apply_all recent_of
idle-IsRound s s' t n e = record {
  taken = [];
  tables = t;
  nodes = n;
  new = [];
  sends = e ∙ sym (append-nil s.sent);
  recents = ground arith;
}

pub none-IsRound :
    (http_running : Bool) (u : Unset) (s : Master)
    → IsRound s (run_round (λ n. true) true http_running u none s)
unfolding run_round
none-IsRound http_running u s = elim (Bool-cases s.wait) [
  | inl y ↦ rw y (idle-IsRound _ _ refl refl refl)
  | inr n ↦
      rw n (batch-IsRound _ (http_phase http_running u _) (http_phase-IsApart http_running u _))
]

-- What the answer to a SYNC_REQUEST sends, where the connection does not fail.
send_recent_lem :
    (fd : ℕ) (xs : List XtRecentAction) (s : Master)
    → ((send_recent (λ n. true) fd xs s).0.recent_data ≡ s.recent_data)
      × ((send_recent (λ n. true) fd xs s).0.backup_servers_fd ≡ s.backup_servers_fd)
      × ((send_recent (λ n. true) fd xs s).0.sent ≡ s.sent ++ recent_packets fd xs)
unfolding send_recent send recent_packets
send_recent_lem fd [] s = (refl, refl, sym (append-nil s.sent))
send_recent_lem fd (x ∷ xs) s =
    let (t, n, e) = send_recent_lem fd xs (send (set_fd fd (recent x)) s) in
    (t, n, e ∙ append_assoc s.sent (set_fd fd (recent x) ∷ []) (recent_packets fd xs))

-- The fd of a packet does not matter to the tables.
apply_all-recent_packets :
    (fd : ℕ) (xs : List XtRecentAction) (d : RecentData)
    → apply_all d (recent_of (recent_packets fd xs)) ≡ apply_all d xs
unfolding apply_all recent_of recent_packets set_fd apply_recent_action
apply_all-recent_packets fd [] d = refl
apply_all-recent_packets fd (x ∷ xs) d = apply_all-recent_packets fd xs (apply_recent_action d x).0

-- A round with a SYNC_REQUEST leaves the tables, and sends actions that do what all_actions does.
pub record IsSynced (u : Unset) (s s' : Master) : Type 0 where
  pub tables : s'.recent_data ≡ s.recent_data
  pub nodes : s'.backup_servers_fd ≡ s.backup_servers_fd
  pub new : List Packet
  pub sends : s'.sent ≡ s.sent ++ new
  pub recents :
      (d : RecentData)
      → apply_all d (recent_of new) ≡ apply_all d (all_actions u.entry s.recent_data)

-- The answer for the recent tables, and then that for the HTTP sessions.
answer-IsSynced :
    (u : Unset) (fd : ℕ) (s s' : Master)
    → IsApart (handle_recent_sync (λ n. true) u fd s).0 s'
    → IsSynced u s s'
unfolding handle_recent_sync
answer-IsSynced u fd s s' a =
    let xs = all_actions u.entry s.recent_data in
    let (t, n, w) = send_recent_lem fd xs s in
    record {
      tables = a.tables ∙ t;
      nodes = a.nodes ∙ n;
      new = recent_packets fd xs ++ a.new;
      sends = a.sends ∙ ap (λ z. z ++ a.new) w ∙ append_assoc s.sent (recent_packets fd xs) a.new;
      recents = λ d.
          ap (λ z. apply_all d z)
            (recent_of-append (recent_packets fd xs) a.new
              ∙ ap (λ z. recent_of (recent_packets fd xs) ++ z) a.others
              ∙ append-nil _)
          ∙ apply_all-recent_packets fd xs d;
    }

pub sync-IsSynced :
    (http_running : Bool) (u : Unset) (req : Packet) (s : Master)
    → (base_of req).type ≡ sync_request
    → IsSynced u s (run_round (λ n. true) true http_running u (some req) s)
unfolding run_round
sync-IsSynced true u req s e =
    rw (e, handle_request)
      (answer-IsSynced u (fd_of req) s _ (handle_http_sync-IsApart true u (fd_of req) _))
sync-IsSynced false u req s e =
    rw (e, handle_request)
      (answer-IsSynced u (fd_of req) s _ (handle_http_sync-IsApart false u (fd_of req) _))

-- A round with a CONNECT counts the node.
pub connect_lem :
    (http_running : Bool) (u : Unset) (req : Packet) (s : Master)
    → (base_of req).type ≡ connect
    → run_round (λ n. true) true http_running u (some req) s
      ≡ record s { backup_servers_fd = increment s.backup_servers_fd }
unfolding run_round
connect_lem http_running u req s e = rw (e, handle_request) refl
