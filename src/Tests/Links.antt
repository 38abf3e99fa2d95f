-- ===== src/Tests/Links.antt =====
-- src/connection on concrete packets, and a backup that connects to a master.
use ssyncd.Common.{
  ℕ, ◌+◌, ◌≤◌, ◌≡◌, refl, ap, true, none, some, List, [], ◌∷◌, ◌++◌, map, append-nil, arith, length,
  All,
}
use ssyncd.Common.Bytes.{Bytes}
use ssyncd.Connection.Cursor.{got}
use ssyncd.Connection.Receive.{
  ConnectionEventData, max_packet_size, stopped, unfinished, drain, receive,
}
use ssyncd.Connection.Receive.Full.{copies, drain_full}
use ssyncd.Connection.Receive.Stream.{join}
use ssyncd.Connection.Send.{
  SendAnswer, took, would_block, returned, Connection, Sent, handle_send, send_loop, send_packet,
}
use ssyncd.Connection.Send.Whole.{handle_send_lem, handle_send-returns}
use ssyncd.Connection.Send.Recipients.{recipients, send_packet-wires}
use ssyncd.Sync.PktParser.{Packet, recent, set_fd, deserialize, serialize}
use ssyncd.Sync.PktParser.RoundTrip.{IsSendable, recent_sendable, wire, serialize-wire}
use ssyncd.XtRecent.Parser.RoundTrip.{body, body_short}
use ssyncd.Connection.PacketParser.Frame.{length-framed}
use ssyncd.Sync.PktParser.Delivery.{bytes_of, outputs, received_all, delivery}
use ssyncd.Sync.RecentData.{all_actions, table_actions, get_entry_as_action}
use ssyncd.Sync.Backup.{Backup, started, run}
use ssyncd.Sync.Backup.Replica.{IsReplica}
use ssyncd.Sync.Backup.Resync.{recent_packets, resync}
use ssyncd.Tests.Data
use ssyncd.Tests.Data.{
  tables-IsValid, memory, no_entry, address, recent_action, tables, empty_buffer,
}

abbrev answers : List SendAnswer
answers = would_block ∷ took 2 ∷ took 0 ∷ took 1 ∷ took 1 ∷ []

abbrev bytes : Bytes
bytes = 1 ∷ 2 ∷ 3 ∷ []

handle_send_lem_example :
    (missing : Bytes) × ((handle_send bytes answers).1 ++ missing ≡ bytes)
    × ((handle_send bytes answers).0 ≡ returned true → missing ≡ [])
handle_send_lem_example = handle_send_lem bytes answers

abbrev single : List SendAnswer
single = took 1 ∷ would_block ∷ took 1 ∷ took 1 ∷ []

handle_send-returns_example : (handle_send bytes single).0 ≡ returned true
handle_send-returns_example =
    handle_send-returns bytes single (omega arith, (omega arith, (omega arith, tt))) (omega arith)
      (omega arith)

abbrev server : Connection
server = record { is_server = true; is_running = true; listen_fd = 3; connected_nodes = 8 ∷ 9 ∷ [] }

abbrev all_sent : Sent
all_sent = record { outcome = returned true; wires = (8, bytes) ∷ (9, bytes) ∷ [] }

send_packet-wires_example : all_sent.wires ≡ map (λ node. (node, bytes)) (recipients server none)
unfolding send_packet handle_send send_loop
send_packet-wires_example =
    send_packet-wires server (λ fd. took 3 ∷ []) none bytes 3 all_sent refl refl

abbrev full_buffer : ConnectionEventData
full_buffer = record { fd = 8; buffer = bytes; buffer_size = max_packet_size }

drain_full_example :
    drain {P = ℕ} (λ size buffer. got (some 42) 7 []) (λ fd p. p) 2 full_buffer
    ≡ unfinished (copies 2 42)
drain_full_example =
    drain_full (λ size buffer. got (some 42) 7 []) (λ fd p. p) 2 full_buffer 42 7 [] refl
      (omega arith) (omega arith)

abbrev packets : List Packet
packets = recent recent_action ∷ []

packets-IsSendable : All IsSendable packets
packets-IsSendable = (recent_sendable address recent_action Data.recent-IsSendable, tt)

one_chunk : join (outputs memory packets ∷ []) ≡ outputs memory packets
one_chunk = append-nil (outputs memory packets)

-- The packet is far shorter than the buffer.
packets_short : length (outputs memory packets) ≤ 65535
unfolding outputs wire
packets_short =
    let s = recent_sendable address recent_action Data.recent-IsSendable in
    omega (
      arith,
      ap (λ x. length (bytes_of x)) (serialize-wire memory s).1,
      ap (λ (x : Bytes). length x)
          (append-nil (bytes_of (serialize memory (recent recent_action)))),
      length-framed recent_action.pkt (body address recent_action),
      body_short address recent_action Data.recent-IsSendable,
    )

chunks_short : All (λ x. length x + 131070 ≤ max_packet_size) (outputs memory packets ∷ [])
chunks_short = (omega (arith, packets_short), tt)

delivery_example :
    (c' : ConnectionEventData) × (receive
        (deserialize memory)
        set_fd
        2
        empty_buffer
        (outputs memory packets ∷ [])
      ≡ stopped c' (map (set_fd 8) (received_all memory memory packets)))
    × (c'.buffer_size ≡ 0)
delivery_example =
    delivery memory memory packets (outputs memory packets ∷ []) 2 empty_buffer packets-IsSendable
      refl one_chunk chunks_short (omega arith)

resync_example :
    (c' : ConnectionEventData) × (pkts : List Packet) × (b : Backup) × (receive
        (deserialize memory)
        set_fd
        2
        empty_buffer
        (outputs memory packets ∷ [])
      ≡ stopped c' pkts)
    × (run pkts started ≡ some b)
    × IsReplica tables b.recent_data
unfolding recent_packets all_actions table_actions get_entry_as_action set_fd
resync_example =
    resync no_entry memory memory tables 4 (outputs memory packets ∷ []) 2 empty_buffer
      tables-IsValid packets-IsSendable refl one_chunk chunks_short (omega arith)
