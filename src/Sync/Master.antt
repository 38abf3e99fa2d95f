-- ===== src/Sync/Master.antt =====
-- src/sync/sync_master.cpp: the node whose data the others follow. What send_packet answers is a
-- parameter: `ok n` is its result at the n-th call.
pub mod Batch
pub mod Requests
pub mod Sessions
pub mod Apart
use ssyncd.Common.{
  ℕ, zero, suc, ◌+◌, Bool, true, false, not, ◌&&◌, ◌||◌, ◌==◌, Option, none, some, List, [], ◌∷◌,
  ◌++◌, length, is_empty, ltb, if◌then◌else◌,
}
use ssyncd.Common.Bytes.{Bytes}
use ssyncd.Common.Int.{ℤ, pos, negsuc}
use ssyncd.Common.Map.{Map}
use ssyncd.Connection.Packet.{ConnPacket, PacketType, connect, disconnect, sync_request}
use ssyncd.XtRecent.Entry
use ssyncd.XtRecent.Action.{XtRecentAction}
use ssyncd.Http.Session
use ssyncd.Http.Session.{
  HttpAction, HttpActionType, HttpSession, HttpService, new_http_action, clear_data, sess_add,
}
use ssyncd.Sync.PktParser.{Packet, recent, http, base_of, set_fd}
use ssyncd.Sync.RecentData.{RecentData, apply_recent_action, all_actions}
use ssyncd.Sync.HttpData.{Services, Listeners, HttpData, apply_http_action, clear_http_farm_data}

-- class sync_master, with the queues of its two listeners, the local `wait` of `run`, the packets
-- that were given to send_packet, and the actions that were given to send_pound_action.
pub record Master : Type 0 where
  pub recent_data : RecentData
  pub http_session_data : HttpData
  pub backup_servers_fd : ℤ
  pub wait : Bool
  pub http_queue : List HttpAction
  pub recent_queue : List XtRecentAction
  pub sent : List Packet
  pub to_pound : List (Bytes × HttpAction)

-- What the memory of new objects happens to hold.
pub record Unset : Type 0 where
  pub entry : Entry.Indeterminate
  pub action : Session.Indeterminate

-- conn->send_packet(p)
unfoldable pub send : Packet → Master → Master
send p s = record s { sent = s.sent ++ (p ∷ []) }

-- The loops of sync_master::handle_recent_sync: it stops at the first packet that is not sent.
unfoldable pub send_recent : (ℕ → Bool) → ℕ → List XtRecentAction → Master → Master × Bool
unfolding send set_fd
send_recent ok fd [] s = (s, true)
send_recent ok fd (x ∷ xs) s =
    let s' = send (set_fd fd (recent x)) s in
    let rest = send_recent ok fd xs s' in if ok (length s.sent) then rest else (s', false)

unfoldable pub handle_recent_sync : (ℕ → Bool) → Unset → ℕ → Master → Master × Bool
unfolding send_recent
handle_recent_sync ok u fd s = send_recent ok fd (all_actions u.entry s.recent_data) s

-- The actions of sync_master::handle_http_sync for the sessions of a service, of a listener, of a
-- farm, and of all farms.
unfoldable pub session_actions :
    Session.Indeterminate → Bytes → ℕ → ℕ → Map Bytes HttpSession → List HttpAction
session_actions g farm listener service [] = []
session_actions g farm listener service ((key, session) ∷ m) =
    let x = new_http_action g sess_add in
    record x {
      listener = listener;
      service = service;
      session = session;
      backend = session.backend_id;
      farm_name = farm;
    }
    ∷ session_actions g farm listener service m

unfoldable pub service_actions : Session.Indeterminate → Bytes → ℕ → Services → List HttpAction
unfolding session_actions
service_actions g farm listener [] = []
service_actions g farm listener ((service, v) ∷ m) =
    session_actions g farm listener service v.sessions ++ service_actions g farm listener m

unfoldable pub listener_actions : Session.Indeterminate → Bytes → Listeners → List HttpAction
unfolding service_actions
listener_actions g farm [] = []
listener_actions g farm ((listener, v) ∷ m) =
    service_actions g farm listener v ++ listener_actions g farm m

unfoldable pub all_http_actions : Session.Indeterminate → HttpData → List HttpAction
unfolding listener_actions
all_http_actions g [] = []
all_http_actions g ((farm, v) ∷ m) = listener_actions g farm v ++ all_http_actions g m

unfoldable pub send_http : ℕ → List HttpAction → Master → Master
unfolding send set_fd
send_http fd [] s = s
send_http fd (x ∷ xs) s = send_http fd xs (send (set_fd fd (http x)) s)

unfoldable pub handle_http_sync : Bool → Unset → ℕ → Master → Master × Bool
unfolding send_http
handle_http_sync http_running u fd s =
    if http_running
    then (send_http fd (all_http_actions u.action s.http_session_data) s, true)
    else (s, false)

-- The request of a backup. Its fd is that of the connection that it came from.
unfoldable pub fd_of : Packet → ℕ
fd_of pkt = elim (base_of pkt).fd [ none ↦ 0 | some fd ↦ fd ]

unfoldable pub increment : ℤ → ℤ
increment (pos n) = pos (suc n)
increment (negsuc zero) = pos 0
increment (negsuc (suc n)) = negsuc n

unfoldable pub decrement : ℤ → ℤ
decrement (pos zero) = negsuc 0
decrement (pos (suc n)) = pos n
decrement (negsuc n) = negsuc (suc n)

unfoldable pub is_positive : ℤ → Bool
is_positive (pos n) = ltb 0 n
is_positive (negsuc n) = false

-- The switch over req->type in sync_master::run.
unfoldable pub handle_request : (ℕ → Bool) → Bool → Bool → Unset → Packet → Master → Master
unfolding handle_recent_sync handle_http_sync fd_of increment decrement
handle_request ok recent_running http_running u req s = elim (base_of req).type [
  | connect ↦ record s { backup_servers_fd = increment s.backup_servers_fd }
  | sync_request ↦
      let s' = (if recent_running then (handle_recent_sync ok u (fd_of req) s).0 else s) in
      (if http_running then (handle_http_sync http_running u (fd_of req) s').0 else s')
  | disconnect ↦ record s { backup_servers_fd = decrement s.backup_servers_fd }
  | _ ↦ s
]

-- The action CLEAR_DATA of a farm, for all nodes.
unfoldable pub clear_request : Unset → Bytes → Packet
clear_request u farm =
    let x = new_http_action u.action clear_data in http (record x { farm_name = farm })

-- http_listener.is_running is false, and there are farms.
unfoldable pub clear_farms : Unset → HttpData → Master → Master
unfolding send clear_request
clear_farms u [] s = record s { http_session_data = []; wait = true }
clear_farms u ((farm, v) ∷ m) s = clear_farms u m (send (clear_request u farm) s)

unfoldable pub is_farm_event : PacketType → Bool
is_farm_event connect = true
is_farm_event disconnect = true
is_farm_event _ = false

unfoldable pub is_connect : PacketType → Bool
is_connect connect = true
is_connect _ = false

-- A farm that comes or goes: its sessions are cleared, and of one that comes they are asked for.
unfoldable pub handle_farm_event : Unset → HttpAction → Master → Master
unfolding send clear_request is_connect clear_http_farm_data
handle_farm_event u x s =
    let s' = send (clear_request u x.farm_name) s in
    let base = new_http_action u.action Session.sync_request in
    let pkt = base.pkt in
    let ask = record base { pkt = record pkt { fd = x.pkt.fd } } in
    let asked =
      (if is_connect x.pkt.type then s.to_pound ++ ((x.farm_name, ask) ∷ []) else s.to_pound) in
    record s' {
      http_session_data = clear_http_farm_data x.farm_name s.http_session_data;
      to_pound = asked;
    }

-- An action of a farm: it is applied, and sent to all nodes if there are any.
unfoldable pub handle_http_action : HttpAction → Master → Master
unfolding send is_positive
handle_http_action x s =
    let p = x.pkt in
    let s' = record s { http_session_data = (apply_http_action s.http_session_data (some x)).0 } in
    if is_positive s.backup_servers_fd
    then send (http (record x { pkt = record p { fd = none } })) s'
    else s'

-- The loop over http_listener.input_data, after `max_items` actions.
unfoldable pub http_batch : Unset → ℕ → List HttpAction → Master → Master
unfolding handle_farm_event handle_http_action is_farm_event
http_batch u max_items [] s =
    if max_items == 10
    then record s { http_queue = []; wait = false }
    else record s { http_queue = []; wait = true }
http_batch u max_items (x ∷ xs) s =
    let on_event = http_batch u max_items xs (handle_farm_event u x s) in
    let on_action = http_batch u (suc max_items) xs (handle_http_action x s) in
    if max_items == 10
    then record s { http_queue = x ∷ xs; wait = false }
    else if is_farm_event x.pkt.type
    then on_event
    else on_action

unfoldable pub http_phase : Bool → Unset → Master → Master
unfolding http_batch clear_farms
http_phase http_running u s =
    if not http_running && not (is_empty s.http_session_data)
    then clear_farms u s.http_session_data s
    else if http_running
    then http_batch u 0 s.http_queue s
    else record s { wait = true }

-- An action of the recent tables: it is applied, and sent if there are nodes, to the fd that it holds.
unfoldable pub handle_recent_action : XtRecentAction → Master → Master
unfolding send is_positive
handle_recent_action x s =
    let s' = record s { recent_data = (apply_recent_action s.recent_data x).0 } in
    if is_positive s.backup_servers_fd then send (recent x) s' else s'

-- The loop over recent_listener.input_data, after `max_items` actions.
unfoldable pub recent_batch : ℕ → List XtRecentAction → Master → Master
unfolding handle_recent_action
recent_batch max_items [] s =
    if max_items == 10
    then record s { recent_queue = []; wait = false }
    else record s { recent_queue = [] }
recent_batch max_items (x ∷ xs) s =
    let rest = recent_batch (suc max_items) xs (handle_recent_action x s) in
    if max_items == 10 then record s { recent_queue = x ∷ xs; wait = false } else rest

-- One round of the loop of sync_master::run, with the packet that get_packet(false) returns, if any,
-- and with the flags of the two listeners.
unfoldable pub run_round : (ℕ → Bool) → Bool → Bool → Unset → Option Packet → Master → Master
unfolding handle_request http_phase recent_batch
run_round ok recent_running http_running u req s = elim req [
  | some pkt ↦ handle_request ok recent_running http_running u pkt s
  | none ↦
      (if s.wait || (not recent_running && not http_running)
        then record s { wait = false }
        else let s' = http_phase http_running u s in
          if recent_running then recent_batch 0 s'.recent_queue s' else s')
]
