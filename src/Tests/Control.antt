-- ===== src/Tests/Control.antt =====
-- The control program, the daemon that it speaks to, and the start of both, on concrete requests.
use ssyncd.Common.{◌≡◌, ◌≢◌, ◌≤◌, refl, true, none, some, List, [], ◌∷◌, length, arith}
use ssyncd.Common.Bytes.{Bytes, codes}
use ssyncd.Common.Decimal.{to_string, atoi}
use ssyncd.Helpers.Utils.{dotted}
use ssyncd.Connection.Packet.{conn_packet, ctl_command}
use ssyncd.Connection.PacketParser.{written, char_size}
use ssyncd.Connection.Send.{took, would_block}
use ssyncd.Ctl.Command.{CommandPkt, serialize_command, sw_to_master, show_mode, clear_recent_table}
use ssyncd.Ctl.Command.RoundTrip.{received_command}
use ssyncd.Ctl.Arguments.{parsed, parse_arguments}
use ssyncd.Ctl.Arguments.Lines.{
  Request, become_backup, show_the_mode, words, packet, parse_arguments-words,
}
use ssyncd.Ctl.Arguments.Tables.{IsObeyed, parse_arguments-IsObeyed}
use ssyncd.Ctl.Client.{stored, recv_error, collect}
use ssyncd.Ctl.Client.Answer.{IsPrefix, answer_of, texts, collect-answer_of, collect-IsOpen}
use ssyncd.Sync.Controller.{
  Controller, Worker, System, answered, backup, master, handle_command, new_worker,
}
use ssyncd.Http.Session.{clear_data}
use ssyncd.Sync.Controller
use ssyncd.Sync.Controller.Task.{request, serve, send_response}
use ssyncd.Sync.Controller.Task.Requests.{serve-words, send_response-IsPrefix}
use ssyncd.Daemon
use ssyncd.Daemon.{Opt, main, runs}
use ssyncd.Daemon.Start.{Starts, mode_of, port_of, address_of, last, main-Starts}
use ssyncd.Tests.Data.{no_action, table_name, tables}

abbrev system : System
system = record {
  socket = record {
    listen_fd = some 5;
    connected = true;
    get_flags = true;
    set_flags = true;
    watched = true;
  };
  opens = λ n. true;
  writes = λ n. true;
  unset = no_action;
  action = clear_data;
}

abbrev worker : Worker
worker = let w : Worker = new_worker in record w { recent_data = tables }

abbrev controller : Controller
controller = record {
  current_mode = master;
  sync_worker = some worker;
  server_port = 1;
  server_address = [];
  is_running = true;
  command_thread = true;
}

abbrev to_master : CommandPkt
to_master = record {
  pkt = conn_packet ctl_command;
  command = sw_to_master;
  command_data = [];
  server_port = 9999;
  server_address = [];
}

abbrev ask_mode : CommandPkt
ask_mode = record to_master { command = show_mode }

abbrev clear_table : CommandPkt
clear_table = record to_master { command = clear_recent_table; command_data = table_name }

parse_arguments-IsObeyed_example :
    IsObeyed (packet 3 show_the_mode).command
    × ((packet 3 show_the_mode).command ≢ clear_recent_table)
parse_arguments-IsObeyed_example =
    parse_arguments-IsObeyed 3 (words show_the_mode) (packet 3 show_the_mode)
      (parse_arguments-words 3 show_the_mode tt)

abbrev to_backup : Request
to_backup = become_backup (dotted 10 0 0 7) 7777

serve-words_example :
    (out : Bytes) × (parse_arguments 3 (words to_backup) ≡ parsed (packet 3 to_backup))
    × (serialize_command (packet 3 to_backup) ≡ written out (char_size (length out)))
    × (serve system 0 (request out (1 ∷ 2 ∷ [])) controller
        ≡ (handle_command system (received_command 0 (packet 3 to_backup)) controller, true))
    × (length out ≤ 270)
serve-words_example =
    serve-words system 3 0 10 0 0 7 to_backup (1 ∷ 2 ∷ []) controller (omega arith) (omega arith)
      (omega arith) (omega arith) (omega arith, refl)

send_response-IsPrefix_example :
    IsPrefix (codes "ok") (send_response (codes "ok") (took 1 ∷ took 1 ∷ would_block ∷ []))
send_response-IsPrefix_example =
    send_response-IsPrefix (codes "ok") (took 1 ∷ took 1 ∷ would_block ∷ [])

abbrev chunks : List (Bytes × Bytes)
chunks = (codes "table", []) ∷ (codes " cleared", 7 ∷ []) ∷ []

collect-answer_of_example : collect (answer_of chunks) ≡ some (texts chunks)
collect-answer_of_example = collect-answer_of chunks (omega arith)

collect-IsOpen_example : collect (recv_error [] ∷ stored (codes "ok") (0 ∷ []) ∷ []) ≡ none
collect-IsOpen_example =
    collect-IsOpen (recv_error [] ∷ stored (codes "ok") (0 ∷ []) ∷ []) (tt, (tt, tt))

abbrev opts : List Opt
opts =
    record { letter = b'B'; optarg = [] }
    ∷ record { letter = b'a'; optarg = dotted 10 0 0 7 }
    ∷ record { letter = b'p'; optarg = codes "80" }
    ∷ []

abbrev started : Controller
started = record {
  current_mode = backup;
  sync_worker = some (let w : Worker = new_worker in record w { is_running = true });
  server_port = 80;
  server_address = dotted 10 0 0 7;
  is_running = true;
  command_thread = true;
}

starts : main true opts ≡ runs started
unfolding main dotted to_string atoi
starts = refl

main-Starts_example :
    Starts
      (last mode_of Daemon.no_command opts)
      (last port_of 7777 opts)
      (last address_of [] opts)
      started
main-Starts_example = main-Starts true opts started starts
