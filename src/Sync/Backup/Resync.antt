-- ===== src/Sync/Backup/Resync.antt =====
-- A backup that connects: what sync_master::handle_recent_sync of src/sync/sync_master.cpp sends,
-- through src/connection/connection.cpp, into sync_backup::run of src/sync/sync_backup.cpp.
use mathlib.Core.Path.{subst}
use ssyncd.Common.{
  ℕ, suc, ◌+◌, ◌≤◌, ◌<◌, ◌≡◌, refl, sym, ap, ◌∙◌, some, List, [], ◌∷◌, map, length, All, arith,
}
use ssyncd.Common.Bytes.{Bytes}
use ssyncd.Connection.Packet.{xt_recent_sync}
use ssyncd.Connection.Receive.{ConnectionEventData, max_packet_size, stopped, receive}
use ssyncd.Connection.Receive.Stream.{join}
use ssyncd.XtRecent.Entry.{Indeterminate}
use ssyncd.XtRecent.Action.{XtRecentAction}
use ssyncd.XtRecent.Parser.RoundTrip.{received_action}
use ssyncd.Sync.PktParser.{Packet, plain, recent, http, Unset, set_fd, serialize, deserialize}
use ssyncd.Sync.PktParser.RoundTrip.{
  IsSendable, plain_sendable, recent_sendable, http_sendable, received,
}
use ssyncd.Sync.PktParser.Delivery.{bytes_of, outputs, received_all, delivery}
use ssyncd.Sync.RecentData.{RecentData, no_tables, apply_recent_action, all_actions, apply_all}
use ssyncd.Sync.RecentData.Lookup.{entry_at}
use ssyncd.Sync.RecentData.Bulk.{IsValid, entry_at-all_actions}
use ssyncd.Sync.Backup.{Backup, started, handle_packet, handle_recent, run}
use ssyncd.Sync.Backup.Replica.{IsReplica, shared, received_actions, apply_all-IsReplica}

-- The packets that handle_recent_sync sends to a node.
unfoldable pub recent_packets : ℕ → List XtRecentAction → List Packet
unfolding set_fd
recent_packets fd [] = []
recent_packets fd (x ∷ xs) = set_fd fd (recent x) ∷ recent_packets fd xs

-- The type of a sendable action.
abbrev pub HasType : Packet → Type 0
HasType (recent x) = x.pkt.type ≡ xt_recent_sync
HasType (plain p) = Unit
HasType (http x) = Unit

pub sendable-HasType : {p : Packet} → IsSendable p → HasType p
sendable-HasType (plain_sendable p w t z) = tt
sendable-HasType (recent_sendable q x s) = s.type
sendable-HasType (http_sendable x s) = tt

-- The actions with the sizes of their packets.
sized : Unset → ℕ → List XtRecentAction → List (XtRecentAction × ℕ)
unfolding set_fd
sized u fd [] = []
sized u fd (x ∷ xs) = (x, length (bytes_of (serialize u (set_fd fd (recent x))))) ∷ sized u fd xs

actions-sized :
    (u : Unset) (fd : ℕ) (xs : List XtRecentAction) → map (λ x. x.0) (sized u fd xs) ≡ xs
unfolding sized
actions-sized u fd [] = refl
actions-sized u fd (x ∷ xs) = ap (λ z. x ∷ z) (actions-sized u fd xs)

run_lem :
    (u v : Unset) (fd fd' : ℕ) (xs : List XtRecentAction) (b : Backup)
    → All IsSendable (recent_packets fd xs)
    → (b' : Backup) × (run (map (set_fd fd') (received_all u v (recent_packets fd xs))) b ≡ some b')
      × (b'.recent_data ≡ apply_all b.recent_data (received_actions v.entry (sized u fd xs)))
unfolding recent_packets received_all received set_fd run handle_packet handle_recent
    received_action received_actions sized apply_all apply_recent_action
run_lem u v fd fd' [] b h = (b, refl, refl)
run_lem u v fd fd' (x ∷ xs) b (hx, h) =
    let size = length (bytes_of (serialize u (set_fd fd (recent x)))) in
    let d : RecentData = (apply_recent_action b.recent_data (received_action v.entry x size)).0 in
    let is_recent : x.pkt.type ≡ xt_recent_sync = sendable-HasType hx in
    rw is_recent (run_lem u v fd fd' xs (record b { recent_data = d }) h)

length-recent_packets :
    (fd : ℕ) (xs : List XtRecentAction) → length (recent_packets fd xs) ≡ length xs
unfolding recent_packets
length-recent_packets fd [] = refl
length-recent_packets fd (x ∷ xs) = ap suc (length-recent_packets fd xs)

replica_lem :
    (g : Indeterminate) (u v : Unset) (fd : ℕ) (d : RecentData)
    → IsValid d
    → IsReplica d (apply_all no_tables (received_actions v.entry (sized u fd (all_actions g d))))
replica_lem g u v fd d valid name ip =
    ap shared (sym (entry_at-all_actions g d name ip valid))
    ∙ ap (λ xs. shared (entry_at (apply_all no_tables xs) name ip))
        (sym (actions-sized u fd (all_actions g d)))
    ∙ apply_all-IsReplica v.entry (sized u fd (all_actions g d)) no_tables no_tables (λ n i. refl)
        name ip

-- A master with valid tables, whose entries all fit the wire, sends them all to a node that asked for
-- them, and the bytes arrive in chunks that may end anywhere, each at least 131070 bytes shorter than
-- the empty buffer. With more rounds for each chunk than there are entries, the receive loop of the
-- node ends, a backup that just started can handle all the packets that it enqueued, and it then
-- holds the same entry, up to the time it was last seen, for every table and address, or none.
pub resync :
    (g : Indeterminate) (u v : Unset) (d : RecentData) (fd : ℕ) (chunks : List Bytes) (fuel : ℕ)
    (c : ConnectionEventData)
    → IsValid d
    → All IsSendable (recent_packets fd (all_actions g d))
    → c.buffer_size ≡ 0
    → join chunks ≡ outputs u (recent_packets fd (all_actions g d))
    → All (λ x. length x + 131070 ≤ max_packet_size) chunks
    → length (all_actions g d) < fuel
    → (c' : ConnectionEventData) × (pkts : List Packet) × (b : Backup) × (receive
          (deserialize v)
          set_fd
          fuel
          c
          chunks
        ≡ stopped c' pkts)
      × (run pkts started ≡ some b)
      × IsReplica d b.recent_data
resync g u v d fd chunks fuel c valid sendable empty e short enough =
    let ps = recent_packets fd (all_actions g d) in
    let (c', arrived, emptied) =
      delivery u v ps chunks fuel c sendable empty e short
        (omega (arith, enough, length-recent_packets fd (all_actions g d))) in
    let (b, ran, tables) = run_lem u v fd c.fd (all_actions g d) started sendable in
    (
      c',
      map (set_fd c.fd) (received_all u v ps),
      b,
      arrived,
      ran,
      subst (λ t. IsReplica d t) (sym tables) (replica_lem g u v fd d valid),
    )
