-- ===== src/Sync/Controller/Task.antt =====
-- The loop of sync_controller::ctl_task in src/sync/sync_controller.cpp over the connections of the
-- control program, with its parser.
pub mod Requests
pub mod Switching
use ssyncd.Common.{
  ℕ, zero, suc, Bool, true, false, Option, none, some, List, [], ◌∷◌, ◌++◌, length, if◌then◌else◌,
}
use ssyncd.Common.Bytes.{Bytes, codes}
use ssyncd.Connection.Cursor.{fault, got}
use ssyncd.Connection.Send.{SendAnswer, Outcome}
use ssyncd.Ctl.Command.{deserialize_command}
use ssyncd.Ctl.Client.{send_while}
use ssyncd.Sync.Controller.{Controller, System, Handled, answered, exited, crashed, handle_command}

-- What accept() and recv() answer for a connection. `request` stored bytes at the front of
-- `recv_buffer`, which holds the others behind them; recv() stores at most MAX_COMMAND_SIZE.
pub data Peer : Type 0 where
  accept_failed recv_failed closed : Peer
  request : Bytes → Bytes → Peer

-- A round of the loop: how the request was handled, and whether the round closes its socket. `memory`
-- is what the port of a new command_pkt holds.
unfoldable pub serve : System → ℕ → Peer → Controller → Handled × Bool
serve os memory accept_failed c = (answered c [], false)
serve os memory recv_failed c = (answered c [], false)
serve os memory closed c = (answered c [], true)
serve os memory (request bytes stale) c =
    elim (deserialize_command memory (length bytes) (bytes ++ stale)) [
      | fault ↦ (crashed, false)
      | got none used rest ↦ (answered c (codes "Command error" ∷ []), false)
      | got (some pkt) used rest ↦ (handle_command os pkt c, true)
    ]

-- How the thread ends: the loop runs still, with the responses to each connection; the program exits;
-- or the thread crashes.
pub data Served : Type 0 where
  serving : Controller → List (List Bytes) → Served
  stopped : Controller → Served
  failed : Served

-- `while (obj.is_running)` over these connections.
unfoldable pub ctl_task : System → ℕ → List Peer → Controller → List (List Bytes) → Served
unfolding serve
ctl_task os memory [] c done = serving c done
ctl_task os memory (peer ∷ peers) c done =
    if c.is_running
    then elim (serve os memory peer c).0 [
      | answered c' responses ↦ ctl_task os memory peers c' (done ++ (responses ∷ []))
      | exited c' ↦ stopped c'
      | crashed ↦ failed
    ]
    else serving c done

-- sync_controller::send_response
unfoldable pub send_response : Bytes → List SendAnswer → Outcome × Bytes
unfolding send_while
send_response str answers = send_while str 0 answers
