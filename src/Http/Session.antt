-- ===== src/Http/Session.antt =====
-- src/http/http.h
use ssyncd.Common.{ℕ, [], ◌==◌, if◌then◌else◌}
use ssyncd.Common.Bytes.{Bytes}
use ssyncd.Common.Map.{Map}
use ssyncd.Connection.Packet.{ConnPacket, conn_packet, http_sync}

-- enum http::action_type; a byte of the wire that names none of them is `other_action`.
pub data HttpActionType : Type 0 where
  clear_data sync_request sess_add sess_delete sess_update sess_write bck_add bck_delete
        bck_update :
      HttpActionType
  other_action : ℕ → HttpActionType

unfoldable pub http_action_code : HttpActionType → ℕ
http_action_code clear_data = 0
http_action_code sync_request = 1
http_action_code sess_add = 2
http_action_code sess_delete = 3
http_action_code sess_update = 4
http_action_code sess_write = 5
http_action_code bck_add = 20
http_action_code bck_delete = 21
http_action_code bck_update = 22
http_action_code (other_action n) = n

-- (action_type) b
unfoldable pub http_action_of : ℕ → HttpActionType
http_action_of n =
    if n == 0
    then clear_data
    else if n == 1
    then sync_request
    else if n == 2
    then sess_add
    else if n == 3
    then sess_delete
    else if n == 4
    then sess_update
    else if n == 5
    then sess_write
    else if n == 20
    then bck_add
    else if n == 21
    then bck_delete
    else if n == 22
    then bck_update
    else other_action n

-- class http_session
pub record HttpSession : Type 0 where
  pub key : Bytes
  pub backend_id : ℕ
  pub content : Bytes
  pub last_acc : ℕ

-- class http_service. Only `sessions` is ever used.
pub record HttpService : Type 0 where
  pub sessions : Map Bytes HttpSession

-- class http_action
pub record HttpAction : Type 0 where
  pub pkt : ConnPacket
  pub action : HttpActionType
  pub service : ℕ
  pub listener : ℕ
  pub backend : ℕ
  pub session : HttpSession
  pub farm_name : Bytes

-- What the numbers that http_action() does not set happen to hold.
pub record Indeterminate : Type 0 where
  pub service : ℕ
  pub listener : ℕ
  pub backend : ℕ
  pub backend_id : ℕ
  pub last_acc : ℕ

-- http_action(), with its action set
abbrev pub new_http_action : Indeterminate → HttpActionType → HttpAction
new_http_action g t = record {
  pkt = conn_packet http_sync;
  action = t;
  service = g.service;
  listener = g.listener;
  backend = g.backend;
  session = record { key = []; backend_id = g.backend_id; content = []; last_acc = g.last_acc };
  farm_name = [];
}
