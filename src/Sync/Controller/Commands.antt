-- ===== src/Sync/Controller/Commands.antt =====
-- What the commands of src/sync/sync_controller.cpp lead to.
use ssyncd.Common.{◌≡◌, ◌⊎◌, inl, inr, refl, true, Option, none, some, List, Bool-cases}
use ssyncd.Common.Bytes.{Bytes}
use ssyncd.Common.Ordered.{bytes_ordered}
use ssyncd.Ctl.Command.{
  CommandId, CommandPkt, void, start_http_sync, stop_http_sync, show_http, clear_http, write_http,
  stop_recent_sync, start_recent_sync, show_recent, clear_recent, clear_recent_table,
  write_recent_table, write_recent, sw_to_master, sw_to_client, count_recent, show_mode, quit,
  count_http, ctl_error, str_message, rsync, other_command,
}
use ssyncd.Sync.Listing.{show_tables}
use ssyncd.Sync.Controller.{
  WorkerMode, Controller, Worker, System, Handled, answered, exited, crashed, handle_command,
  handle_worker, switch_mode, set_worker_mode, start, backup, master, start_recent, stop_recent,
  start_http, stop_http, write_sessions, answers,
}

-- A command that switches to this mode.
abbrev pub IsSwitch : CommandPkt → WorkerMode → Type 0
IsSwitch x mode =
    ((x.command ≡ sw_to_master) × (mode ≡ master)) ⊎ ((x.command ≡ sw_to_client) × (mode ≡ backup))

-- The command thread stays joinable.
abbrev pub KeepsThread : Handled → Type 0
KeepsThread (answered c rs) = c.command_thread ≡ true
KeepsThread (exited c) = Unit
KeepsThread crashed = Unit

shown-KeepsThread :
    (c : Controller) (w : Worker) (o : Option (List Bytes))
    → c.command_thread ≡ true
    → KeepsThread (elim o [ none ↦ crashed | some rs ↦ answers c w rs ])
shown-KeepsThread c w none h = tt
shown-KeepsThread c w (some rs) h = h

handle_worker-KeepsThread :
    (t : CommandId) (os : System) (x : CommandPkt) (c : Controller) (w : Worker)
    → c.command_thread ≡ true
    → KeepsThread (handle_worker os (record x { command = t }) c w)
unfolding handle_worker start_recent stop_recent start_http stop_http write_sessions
handle_worker-KeepsThread start_recent_sync os x c w h = elim (Bool-cases w.recent_running) [
  | inl y ↦ rw y h
  | inr n ↦ rw n h
]
handle_worker-KeepsThread stop_recent_sync os x c w h = elim (Bool-cases w.recent_running) [
  | inl y ↦ rw y h
  | inr n ↦ rw n h
]
handle_worker-KeepsThread stop_http_sync os x c w h = elim (Bool-cases w.http_listener.is_running) [
  | inl y ↦ rw y h
  | inr n ↦ rw n h
]
handle_worker-KeepsThread show_recent os x c w h =
    shown-KeepsThread c w (show_tables w.recent_data) h
handle_worker-KeepsThread start_http_sync os x c w h = h
handle_worker-KeepsThread show_http os x c w h = h
handle_worker-KeepsThread clear_http os x c w h = h
handle_worker-KeepsThread write_http os x c w h = h
handle_worker-KeepsThread clear_recent os x c w h = h
handle_worker-KeepsThread clear_recent_table os x c w h = h
handle_worker-KeepsThread write_recent_table os x c w h = h
handle_worker-KeepsThread write_recent os x c w h = h
handle_worker-KeepsThread count_recent os x c w h = h
handle_worker-KeepsThread count_http os x c w h = h
handle_worker-KeepsThread void os x c w h = h
handle_worker-KeepsThread sw_to_master os x c w h = h
handle_worker-KeepsThread sw_to_client os x c w h = h
handle_worker-KeepsThread show_mode os x c w h = h
handle_worker-KeepsThread quit os x c w h = h
handle_worker-KeepsThread ctl_error os x c w h = h
handle_worker-KeepsThread str_message os x c w h = h
handle_worker-KeepsThread rsync os x c w h = h
handle_worker-KeepsThread (other_command n) os x c w h = h

switch_mode-crashed :
    (mode : WorkerMode) (c : Controller)
    → ((mode ≡ master) ⊎ (mode ≡ backup))
    → c.command_thread ≡ true
    → switch_mode mode c ≡ crashed
unfolding switch_mode set_worker_mode start
switch_mode-crashed mode c (inl e) h = rw e (rw h refl)
switch_mode-crashed mode c (inr e) h = rw e (rw h refl)

worked-KeepsThread :
    (t : CommandId) (os : System) (x : CommandPkt) (c : Controller) (o : Option Worker)
    → c.command_thread ≡ true
    → KeepsThread
        (elim o [ none ↦ crashed | some w ↦ handle_worker os (record x { command = t }) c w ])
worked-KeepsThread t os x c none h = tt
worked-KeepsThread t os x c (some w) h = handle_worker-KeepsThread t os x c w h

command-KeepsThread :
    (t : CommandId) (os : System) (x : CommandPkt) (c : Controller)
    → c.command_thread ≡ true
    → KeepsThread (handle_command os (record x { command = t }) c)
unfolding handle_command
command-KeepsThread quit os x c h = tt
command-KeepsThread sw_to_client os x c h =
    rw
      (switch_mode-crashed backup
        (record c { server_port = x.server_port; server_address = x.server_address }) (inr refl) h)
      tt
command-KeepsThread sw_to_master os x c h =
    rw (switch_mode-crashed master (record c { server_port = x.server_port }) (inl refl) h) tt
command-KeepsThread void os x c h = h
command-KeepsThread show_mode os x c h = h
command-KeepsThread ctl_error os x c h = h
command-KeepsThread str_message os x c h = h
command-KeepsThread rsync os x c h = h
command-KeepsThread (other_command n) os x c h = h
command-KeepsThread start_http_sync os x c h =
    worked-KeepsThread start_http_sync os x c c.sync_worker h
command-KeepsThread stop_http_sync os x c h =
    worked-KeepsThread stop_http_sync os x c c.sync_worker h
command-KeepsThread stop_recent_sync os x c h =
    worked-KeepsThread stop_recent_sync os x c c.sync_worker h
command-KeepsThread start_recent_sync os x c h =
    worked-KeepsThread start_recent_sync os x c c.sync_worker h
command-KeepsThread show_recent os x c h = worked-KeepsThread show_recent os x c c.sync_worker h
command-KeepsThread show_http os x c h = worked-KeepsThread show_http os x c c.sync_worker h
command-KeepsThread clear_http os x c h = worked-KeepsThread clear_http os x c c.sync_worker h
command-KeepsThread write_http os x c h = worked-KeepsThread write_http os x c c.sync_worker h
command-KeepsThread clear_recent os x c h = worked-KeepsThread clear_recent os x c c.sync_worker h
command-KeepsThread clear_recent_table os x c h =
    worked-KeepsThread clear_recent_table os x c c.sync_worker h
command-KeepsThread write_recent_table os x c h =
    worked-KeepsThread write_recent_table os x c c.sync_worker h
command-KeepsThread write_recent os x c h = worked-KeepsThread write_recent os x c c.sync_worker h
command-KeepsThread count_recent os x c h = worked-KeepsThread count_recent os x c c.sync_worker h
command-KeepsThread count_http os x c h = worked-KeepsThread count_http os x c c.sync_worker h

-- No command that the daemon answers lets go of the command thread.
pub handle_command-KeepsThread :
    (os : System) (x : CommandPkt) (c : Controller)
    → c.command_thread ≡ true
    → KeepsThread (handle_command os x c)
handle_command-KeepsThread os x c h = command-KeepsThread x.command os x c h

-- A switch while the thread is joinable.
pub handle_command-crashed :
    (os : System) (x : CommandPkt) (c : Controller) (mode : WorkerMode)
    → IsSwitch x mode
    → c.command_thread ≡ true
    → handle_command os x c ≡ crashed
unfolding handle_command
handle_command-crashed os x c mode (inl (e, m)) h =
    rw (e, handle_command)
      (switch_mode-crashed master (record c { server_port = x.server_port }) (inl refl) h)
handle_command-crashed os x c mode (inr (e, m)) h =
    rw (e, handle_command)
      (switch_mode-crashed backup
        (record c { server_port = x.server_port; server_address = x.server_address }) (inr refl) h)
