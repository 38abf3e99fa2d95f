-- ===== src/Tests/Cluster.antt =====
-- A master and a backup of src/sync on concrete steps.
use ssyncd.Common.{length, refl, true, false, Option, some, List, [], inl, inr}
use ssyncd.Common.Bytes.{Bytes}
use ssyncd.XtRecent.Parser.RoundTrip.{received_action}
use ssyncd.Sync.PktParser.RoundTrip.{IsSendable, recent_sendable, deserialize-serialize, received}
use ssyncd.Sync.PktParser.{recent, Packet, plain, set_fd}
use ssyncd.Sync.RecentData.{
  apply_recent_action, no_tables, table_actions, get_entry_as_action, all_actions,
}
use ssyncd.Sync.Backup.{Backup, handle_packet, handle_recent, started}
use ssyncd.Sync.Cluster.{
  delivers, Cluster, connected, synced, Reach, here, next, rounds, cluster_of,
}
use ssyncd.Common.Int.{pos}
use ssyncd.Connection.Packet.{PacketType, conn_packet, connect, sync_request}
use ssyncd.Sync.Master.{
  Master, Unset, run_round, handle_request, handle_recent_sync, send_recent, send, fd_of, increment,
}
use ssyncd.Sync.Backup.Replica.{IsReplica}
use ssyncd.Sync.Backup.Resync.{recent_packets}
use ssyncd.Sync.Cluster.Replication.{Reach-IsReplica}
use ssyncd.Tests.Data.{
  address, recent_action, recent-IsSendable, no_entry, no_action, memory, tables, tables-IsValid,
}

abbrev unset : Unset
unset = record { entry = no_entry; action = no_action }

abbrev alone : Master
alone = record {
  recent_data = tables;
  http_session_data = [];
  backup_servers_fd = pos 0;
  wait = true;
  http_queue = [];
  recent_queue = [];
  sent = [];
  to_pound = [];
}

abbrev request : PacketType → Packet
request t = set_fd 4 (plain (conn_packet t))

abbrev round : Option Packet → Master → Master
round req s = run_round (λ n. true) true false unset req s

abbrev answer : List Packet
answer = recent_packets 4 (all_actions no_entry tables)

-- The backup connected, its request was answered, and the answer is on its way.
abbrev answered : Cluster
answered = record {
  master = round (some (request sync_request)) (round (some (request connect)) alone);
  wire = answer;
  backup = started;
  phase = synced;
}

answered_reached : Reach unset memory (cluster_of alone) answered
unfolding run_round handle_request handle_recent_sync send_recent send fd_of increment set_fd
    recent_packets all_actions
answered_reached =
    next
      (next here (
        rounds false (some (request connect)) (round (some (request connect)) alone) [] connected
          (inl (refl, refl, refl)) refl refl refl))
      (rounds false (some (request sync_request)) answered.master answer synced
        (inr ((λ e. cc), refl, refl)) refl refl refl)

abbrev packet : Packet
packet = recent recent_action

packet-IsSendable : IsSendable packet
packet-IsSendable = recent_sendable address recent_action recent-IsSendable

-- The bytes of the packet.
abbrev bytes : Bytes
bytes = (deserialize-serialize memory packet [] 0 packet-IsSendable).0

-- The backup received the one packet of the answer.
abbrev delivered : Cluster
delivered = record answered {
  wire = [];
  backup =
      (let b : Backup = started in
        record b {
          recent_data =
              (apply_recent_action no_tables
                (received_action no_entry recent_action (length bytes))).0;
        });
}

delivered_reached : Reach unset memory (cluster_of alone) delivered
unfolding recent_packets all_actions table_actions get_entry_as_action set_fd received handle_packet
    handle_recent received_action apply_recent_action
delivered_reached =
    let (out, n, written, back) = deserialize-serialize memory packet [] 0 packet-IsSendable in
    next answered_reached (
      delivers memory packet [] out [] n 0 (received memory packet (length out)) (length out) [] 4
        delivered.backup refl packet-IsSendable written back refl refl)

Reach-IsReplica_example : IsReplica delivered.master.recent_data delivered.backup.recent_data
Reach-IsReplica_example =
    Reach-IsReplica unset memory alone delivered tables-IsValid refl delivered_reached refl refl
