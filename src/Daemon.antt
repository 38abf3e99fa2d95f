-- ===== src/Daemon.antt =====
-- src/main.cpp: the options of the daemon, and what it starts with. getopt_long() is not part of the
-- program: the options that it returns are an argument. Becoming a daemon is a series of system
-- calls; whether it works is an argument too.
pub mod Start
use ssyncd.Common.{
  ℕ, Bool, true, false, ◌&&◌, ◌||◌, ◌==◌, Option, none, some, List, [], ◌∷◌, is_empty, not,
  if◌then◌else◌,
}
use ssyncd.Common.Bytes.{Bytes, codes}
use ssyncd.Common.Decimal.{atoi}
use ssyncd.Sync.Controller
use ssyncd.Sync.Controller.{Controller, set_worker_mode, no_mode}

-- What getopt_long() returns: a character of the options, and optarg where the option has one.
pub record Opt : Type 0 where
  pub letter : ℕ
  pub optarg : Bytes

-- enum run_command
pub data RunCommand : Type 0 where
  no_command master backup test : RunCommand

-- The variables of the loop. The port is the 32 bits of an int.
pub record Options : Type 0 where
  pub server_port : ℕ
  pub server_address : Bytes
  pub start_mode : RunCommand
  pub test_id : ℕ
  pub as_daemon : Bool

abbrev pub default_options : Options
default_options = record {
  server_port = 7777;
  server_address = [];
  start_mode = no_command;
  test_id = 0;
  as_daemon = false;
}

-- A round of the loop, or the loop: it goes on with these variables, or main returns, with success or
-- not.
pub data Parsed : Type 0 where
  options : Options → Parsed
  returns : Bool → Parsed

-- The switch over the option.
unfoldable pub take_opt : Opt → Options → Parsed
take_opt o s =
    let test_id = atoi o.optarg in
    if o.letter == b'd'
    then options (record s { as_daemon = true })
    else if o.letter == b'M'
    then options (record s { start_mode = master })
    else if o.letter == b'B'
    then options (record s { start_mode = backup })
    else if o.letter == b'a'
    then options (record s { server_address = o.optarg })
    else if o.letter == b'p'
    then options (record s { server_port = atoi o.optarg })
    else if o.letter == b't'
    then (if test_id == 1 || test_id == 2
        then options (record s { start_mode = test; test_id = test_id })
        else returns false)
    else if o.letter == b'h'
    then returns true
    else returns false

unfoldable pub take_opts : List Opt → Options → Parsed
unfolding take_opt
take_opts [] s = options s
take_opts (o ∷ opts) s = elim (take_opt o s) [
  | options s' ↦ take_opts opts s'
  | returns success ↦ returns success
]

-- What main does: it returns or exits, with success or not; the controller runs; the tests run; or
-- std::terminate() is called.
pub data Started : Type 0 where
  exits : Bool → Started
  runs : Controller → Started
  tests : ℕ → Started
  terminates : Started

abbrev pub started_as : Option Controller → Started
started_as none = terminates
started_as (some c) = runs c

-- sync_controller ctl_control, with its port and address. Its is_running is not looked at before
-- `start` sets it.
abbrev pub new_controller : Options → Controller
new_controller s = record {
  current_mode = no_mode;
  sync_worker = none;
  server_port = s.server_port;
  server_address = s.server_address;
  is_running = false;
  command_thread = false;
}

-- The switch over start_mode.
unfoldable pub start_as : RunCommand → Options → Started
unfolding set_worker_mode Controller.start
start_as no_command s = exits false
start_as master s =
    started_as (Controller.start (set_worker_mode Controller.master (new_controller s)))
start_as backup s =
    if is_empty s.server_address
    then exits false
    else started_as (Controller.start (set_worker_mode Controller.backup (new_controller s)))
start_as test s = tests s.test_id

-- main, where `daemonized` tells whether daemonize() works.
unfoldable pub main : Bool → List Opt → Started
unfolding take_opts start_as
main daemonized opts = elim (take_opts opts default_options) [
  | returns success ↦ exits success
  | options s ↦ if s.as_daemon && not daemonized then exits false else start_as s.start_mode s
]
