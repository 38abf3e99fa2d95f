-- ===== src/Sync/Cluster.antt =====
-- A master (sync_master::run of src/sync/sync_master.cpp) and a backup (sync_backup::run of
-- src/sync/sync_backup.cpp) that work at their own pace, with a connection between them that loses
-- nothing. The recent service of the master runs.
pub mod View
pub mod Rounds
pub mod Following
pub mod Delivers
pub mod Replication
use ssyncd.Common.{
  ℕ, ◌≡◌, ◌≢◌, ◌⊎◌, Bool, true, Option, none, some, List, [], ◌∷◌, ◌++◌, length, ◌+◌,
}
use ssyncd.Common.Bytes.{Bytes}
use ssyncd.Connection.Cursor.{got}
use ssyncd.Connection.PacketParser.{written}
use ssyncd.Connection.Packet.{ConnPacket, PacketType, connect, sync_request, xt_recent_sync}
use ssyncd.XtRecent.Action.{XtRecentAction}
use ssyncd.Http.Session.{HttpAction}
use ssyncd.Sync.PktParser
use ssyncd.Sync.PktParser.{Packet, base_of, set_fd, serialize, deserialize}
use ssyncd.Sync.PktParser.RoundTrip.{IsSendable}
use ssyncd.Sync.Backup.{Backup, started, handle_packet}
use ssyncd.Sync.Master.{Master, Unset, run_round}

-- What the master has heard of the backup: nothing, its CONNECT, or a SYNC_REQUEST too.
pub data Phase : Type 0 where
  unknown connected synced : Phase

-- `wire` is what the master gave to send_packet and the backup has not received.
pub record Cluster : Type 0 where
  pub master : Master
  pub wire : List Packet
  pub backup : Backup
  pub phase : Phase

-- The requests come in the order in which the connection enqueues them: the CONNECT of the backup, and
-- then the SYNC_REQUESTs that it sent.
abbrev pub Hears : Phase → Option Packet → Phase → Type 0
Hears p none p' = p' ≡ p
Hears p (some req) p' =
    ((p ≡ unknown) × ((base_of req).type ≡ connect) × (p' ≡ connected))
    ⊎ ((p ≢ unknown) × ((base_of req).type ≡ sync_request) × (p' ≡ synced))

-- A step: a listener of the master enqueues an action, one on recent tables for all nodes; the master does
-- a round of its loop; or a packet arrives at the backup. It is one whose fields fit the wire: the master
-- serialises it, the backup reads it back from the front of its buffer, and handles what it read. `u` is
-- the memory of the master, `v` that of the backup, and `w` that of the parser of the master.
pub data Step (u : Unset) (v : PktParser.Unset) (c c' : Cluster) : Type 0 where
  queues :
      (x : XtRecentAction)
      → x.pkt.fd ≡ none
      → c' ≡ record c {
        master = (let m = c.master in record m { recent_queue = m.recent_queue ++ (x ∷ []) });
      }
      → Step u v c c'
  queues_http :
      (x : HttpAction)
      → c' ≡ record c {
        master = (let m = c.master in record m { http_queue = m.http_queue ++ (x ∷ []) });
      }
      → Step u v c c'
  rounds :
      (http_running : Bool) (req : Option Packet) (s : Master) (new : List Packet) (p : Phase)
      → Hears c.phase req p
      → s ≡ run_round (λ n. true) true http_running u req c.master
      → s.sent ≡ c.master.sent ++ new
      → c' ≡ record c { master = s; wire = c.wire ++ new; phase = p }
      → Step u v c c'
  delivers :
      (w : PktParser.Unset) (pkt : Packet) (rest : List Packet) (out more : Bytes) (n extra : ℕ)
      (pkt' : Packet) (used : ℕ) (left : Bytes) (fd : ℕ) (b : Backup)
      → c.wire ≡ pkt ∷ rest
      → IsSendable pkt
      → serialize w pkt ≡ written out n
      → deserialize v (length out + extra) (out ++ more) ≡ got (some pkt') used left
      → handle_packet [] (set_fd fd pkt') c.backup ≡ some b
      → c' ≡ record c { wire = rest; backup = b }
      → Step u v c c'

-- A backup that starts.
abbrev pub cluster_of : Master → Cluster
cluster_of m = record { master = m; wire = []; backup = started; phase = unknown }

-- What the steps lead to.
pub data Reach (u : Unset) (v : PktParser.Unset) (c : Cluster) : Cluster → Type 0 where
  here : Reach u v c c
  next : {d e : Cluster} → Reach u v c d → Step u v d e → Reach u v c e
