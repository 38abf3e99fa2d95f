-- ===== src/Sync/Backup.antt =====
-- src/sync/sync_backup.cpp: the node that follows the master.
pub mod Replica
pub mod Resync
use ssyncd.Common.{Bool, true, false, Option, none, some, List, [], ◌∷◌, ◌++◌, if◌then◌else◌}
use ssyncd.Connection.Packet.{
  ConnPacket, PacketType, conn_packet, sync_request, disconnect, xt_recent_sync, http_sync,
}
use ssyncd.XtRecent.Action.{XtRecentAction}
use ssyncd.Http.Session.{HttpAction}
use ssyncd.Sync.PktParser.{Packet, plain, recent, http, base_of}
use ssyncd.Sync.RecentData.{RecentData, no_tables, apply_recent_action}
use ssyncd.Sync.HttpData.{HttpData, apply_http_action}

-- class sync_backup: the shared data, whether the connection runs, and the packets that were given
-- to send_packet, in order.
pub record Backup : Type 0 where
  pub recent_data : RecentData
  pub http_session_data : HttpData
  pub conn_running : Bool
  pub sent : List Packet

-- The packet of type SYNC_REQUEST.
abbrev pub request : Packet
request = plain (conn_packet sync_request)

-- The start of sync_backup::run on a running connection, after base_sync::start cleared the data.
abbrev pub started : Backup
started = record {
  recent_data = no_tables;
  http_session_data = [];
  conn_running = true;
  sent = request ∷ [];
}

-- The loop that reconnects. Each entry of the list is an attempt, and whether the connection runs
-- after it; where the list ends first, the node is still in the loop.
unfoldable pub reconnect : List Bool → Backup → Backup
reconnect [] b = b
reconnect (runs ∷ attempts) b =
    let again = reconnect attempts (record b { conn_running = false }) in
    if b.conn_running
    then b
    else if runs
    then record b { conn_running = true; http_session_data = []; sent = b.sent ++ (request ∷ []) }
    else again

-- The case XT_RECENT_SYNC. A packet of another class has no meaning here: `none`.
unfoldable pub handle_recent : Packet → Backup → Option Backup
handle_recent (recent x) b =
    some (record b { recent_data = (apply_recent_action b.recent_data x).0 })
handle_recent (plain p) b = none
handle_recent (http x) b = none

-- The case HTTP_SYNC.
unfoldable pub handle_http : Packet → Backup → Option Backup
handle_http (http x) b =
    some (record b { http_session_data = (apply_http_action b.http_session_data (some x)).0 })
handle_http (plain p) b = none
handle_http (recent x) b = none

-- What sync_backup::run does with a packet. The packet DISCONNECT comes when the connection stopped.
unfoldable pub handle_packet : List Bool → Packet → Backup → Option Backup
unfolding reconnect handle_recent handle_http
handle_packet attempts pkt b = elim (base_of pkt).type [
  | disconnect ↦ some (reconnect attempts (record b { conn_running = false }))
  | xt_recent_sync ↦ handle_recent pkt b
  | http_sync ↦ handle_http pkt b
  | _ ↦ some b
]

-- The loop of sync_backup::run over the packets that it dequeues, none of them a DISCONNECT that is
-- followed by an attempt.
unfoldable pub run : List Packet → Backup → Option Backup
unfolding handle_packet
run [] b = some b
run (pkt ∷ pkts) b = elim (handle_packet [] pkt b) [ none ↦ none | some b' ↦ run pkts b' ]
