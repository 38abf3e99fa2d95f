-- ===== src/Sync/Controller.antt =====
-- src/sync/sync_controller.h and sync_controller.cpp: the commands that the daemon obeys.
pub mod Commands
pub mod Task
use ssyncd.Common.{
  ℕ, zero, suc, Bool, true, false, not, Option, none, some, List, [], ◌∷◌, ◌++◌, length,
  if◌then◌else◌,
}
use ssyncd.Common.Bytes.{Bytes, codes}
use ssyncd.Common.Int.{ℤ, pos, negsuc}
use ssyncd.Common.Decimal.{to_string}
use ssyncd.Common.Map.{Map}
use ssyncd.Connection.Send.{SendAnswer}
use ssyncd.XtRecent.Entry.{XtRecentEntry, XtRecentTable, show_entry}
use ssyncd.Http.Session.{HttpActionType, HttpSession, HttpService, Indeterminate, clear_data}
use ssyncd.Http.Farms.{HttpSync, FarmSocket, add_farm, remove_farm}
use ssyncd.Ctl.Command.{
  CommandId, CommandPkt, void, start_http_sync, stop_http_sync, show_http, clear_http, write_http,
  stop_recent_sync, start_recent_sync, show_recent, clear_recent, clear_recent_table,
  write_recent_table, write_recent, sw_to_master, sw_to_client, count_recent, show_mode, quit,
  count_http, ctl_error, str_message, rsync, other_command,
}
use ssyncd.Sync.RecentData.{RecentData, no_tables}
use ssyncd.Sync.HttpData.{Services, Listeners, HttpData}
use ssyncd.Sync.Writes.{write_recent_all, write_recent_data, clear_recent_data}
use ssyncd.Sync.Listing.{line, count_tables, show_tables, count_farms, show_farms, result_text}

-- enum controller::worker_mode
pub data WorkerMode : Type 0 where
  no_mode master backup : WorkerMode

-- class base_sync, as the controller sees it.
pub record Worker : Type 0 where
  pub recent_data : RecentData
  pub http_session_data : HttpData
  pub http_listener : HttpSync
  pub recent_running : Bool
  pub is_running : Bool

-- class sync_controller. `none` is the null pointer sync_worker, and `command_thread` is whether that
-- thread is joinable.
pub record Controller : Type 0 where
  pub current_mode : WorkerMode
  pub sync_worker : Option Worker
  pub server_port : ℕ
  pub server_address : Bytes
  pub is_running : Bool
  pub command_thread : Bool

-- What the system answers during a command, and what new objects hold.
pub record System : Type 0 where
  pub socket : FarmSocket
  pub opens : ℕ → Bool
  pub writes : ℕ → Bool
  pub unset : Indeterminate
  pub action : HttpActionType

-- How a command ends: with the responses that were sent, in order; with exit(); or with a use of an
-- object that is not there or std::terminate().
pub data Handled : Type 0 where
  answered : Controller → List Bytes → Handled
  exited : Controller → Handled
  crashed : Handled

-- A new worker.
abbrev pub new_worker : Worker
new_worker = record {
  recent_data = no_tables;
  http_session_data = [];
  http_listener = record {
    farms_fd = [];
    input_data = [];
    is_listener = false;
    is_running = false;
    closed = [];
  };
  recent_running = false;
  is_running = false;
}

-- sync_controller::set_worker_mode. The old worker is stopped and deleted.
unfoldable pub set_worker_mode : WorkerMode → Controller → Controller
set_worker_mode mode c = elim mode [
  | no_mode ↦ record c { current_mode = no_mode; sync_worker = none }
  | master ↦ record c { current_mode = master; sync_worker = some new_worker }
  | backup ↦ record c { current_mode = backup; sync_worker = some new_worker }
]

-- sync_controller::start, with base_sync::start. `none` is std::terminate(), which the assignment to a
-- thread that is still joinable calls.
unfoldable pub start : Controller → Option Controller
start c = elim c.sync_worker [
  | none ↦ some c
  | some w ↦
      let w' : Worker = record w {
        http_session_data = [];
        recent_data = no_tables;
        is_running = true;
      } in
      (if c.command_thread
        then none
        else some (record c { sync_worker = some w'; is_running = true; command_thread = true }))
]

-- sync_controller::stop, with base_sync::stop
abbrev pub stop : Controller → Controller
stop c = record c { sync_worker = none; is_running = false }

abbrev pub answers : Controller → Worker → List Bytes → Handled
answers c w rs = answered (record c { sync_worker = some w }) rs

abbrev pub is_master : WorkerMode → Bool
is_master no_mode = false
is_master master = true
is_master backup = false

-- START_HTTP_SYNC: base_sync::start_http_sync, which a master calls to clear its sessions, and
-- base_sync::add_http_listener_farm.
unfoldable pub start_http : System → Bytes → Controller → Worker → Handled
start_http os farm c w =
    let listener = w.http_listener in
    let started : Worker = record w {
      http_session_data = (if is_master c.current_mode then [] else w.http_session_data);
      http_listener = record listener { is_running = true };
    } in
    let w' = (if listener.is_running then w else started) in
    let first = (if listener.is_running then [] else codes "starting http sync service\n" ∷ []) in
    let added = add_farm os.unset os.action os.socket farm w'.http_listener in
    answers c (record w' { http_listener = added.0 })
      (first
        ++ ((if added.1 then codes "http farm added" else codes "error adding http farm listener")
            ∷ []))

-- STOP_HTTP_SYNC
unfoldable pub stop_http : System → Bytes → Controller → Worker → Handled
stop_http os farm c w =
    let listener = w.http_listener in
    if listener.is_running
    then answers c (record w { http_listener = (remove_farm os.unset os.action farm listener).0 })
        (codes "http farm removed" ∷ [])
    else answers c w (codes "http sync service not running\n" ∷ [])

-- START_RECENT_SYNC, with base_sync::start_recent_sync, and STOP_RECENT_SYNC
unfoldable pub start_recent : Controller → Worker → Handled
start_recent c w =
    if w.recent_running
    then answers c w (codes "recent sync service is already running" ∷ [])
    else answers c (record w { recent_data = no_tables; recent_running = true }) []

unfoldable pub stop_recent : Controller → Worker → Handled
stop_recent c w =
    if w.recent_running
    then answers c (record w { recent_running = false })
        (codes "stopping recent sync service\n" ∷ [])
    else answers c w (codes "recent sync service not running\n" ∷ [])

-- SHOW_MODE
unfoldable pub mode_text : WorkerMode → Bytes
mode_text no_mode = codes "error"
mode_text master = codes "master"
mode_text backup = codes "backup"

-- The commands that need no worker.
unfoldable pub switch_mode : WorkerMode → Controller → Handled
unfolding set_worker_mode start
switch_mode mode c = elim (start (set_worker_mode mode c)) [
  | none ↦ crashed
  | some c' ↦ answered c' []
]

-- WRITE_HTTP: the listener is started if it does not run, which works. The sends to the farms that
-- follow are left out here (Sync.Writes.Sessions models them); their results are not looked at.
unfoldable pub write_sessions : Controller → Worker → Handled
write_sessions c w =
    let listener = w.http_listener in
    answers c (record w { http_listener = record listener { is_running = true } })
      (codes "http session data written correclty" ∷ [])

-- The commands that call the worker.
unfoldable pub handle_worker : System → CommandPkt → Controller → Worker → Handled
unfolding start_recent stop_recent start_http stop_http count_tables show_tables count_farms
    show_farms result_text write_sessions
handle_worker os pkt c w = elim pkt.command [
  | start_recent_sync ↦ start_recent c w
  | stop_recent_sync ↦ stop_recent c w
  | start_http_sync ↦ start_http os pkt.command_data c w
  | clear_http ↦ answers c (record w { http_session_data = [] }) []
  | stop_http_sync ↦ stop_http os pkt.command_data c w
  | write_recent ↦ answers c w (
      codes "writing data"
      ∷ (if (write_recent_all os.opens os.writes w.recent_data).1
          then codes "recent data written correclty"
          else codes "error writing recent data")
      ∷ [])
  | write_http ↦ write_sessions c w
  | count_recent ↦ answers c w (count_tables w.recent_data)
  | clear_recent ↦ answers c w []
  | show_recent ↦ elim (show_tables w.recent_data) [ none ↦ crashed | some rs ↦ answers c w rs ]
  | count_http ↦ answers c w (count_farms w.http_session_data)
  | show_http ↦ answers c w (show_farms w.http_session_data)
  | clear_recent_table ↦ answers c w (
      result_text (clear_recent_data os.opens os.writes pkt.command_data w.recent_data).1
        (codes "table cleared correclty") (codes "error clearing table")
      ∷ [])
  | write_recent_table ↦ answers c w (
      result_text (write_recent_data os.opens os.writes pkt.command_data w.recent_data).1
        (codes "table written correclty") (codes "error writing table")
      ∷ [])
  | _ ↦ answers c w []
]

-- The switch of sync_controller::ctl_task over the command.
unfoldable pub handle_command : System → CommandPkt → Controller → Handled
unfolding handle_worker switch_mode mode_text
handle_command os pkt c = elim pkt.command [
  | quit ↦ exited (stop c)
  | sw_to_client ↦
      switch_mode backup
        (record c { server_port = pkt.server_port; server_address = pkt.server_address })
  | sw_to_master ↦ switch_mode master (record c { server_port = pkt.server_port })
  | show_mode ↦ answered c (mode_text c.current_mode ∷ [])
  | void ↦ answered c (codes "Command no found\n" ∷ [])
  | ctl_error ↦ answered c (codes "Command no found\n" ∷ [])
  | str_message ↦ answered c (codes "Command no found\n" ∷ [])
  | rsync ↦ answered c (codes "Command no found\n" ∷ [])
  | other_command n ↦ answered c (codes "Command no found\n" ∷ [])
  | _ ↦ elim c.sync_worker [ none ↦ crashed | some w ↦ handle_worker os pkt c w ]
]
