-- ===== src/Ctl/Arguments.antt =====
-- src/ctl_interface/main.cpp: the command line of the control program.
pub mod Lines
pub mod Tables
pub mod Sendable
use ssyncd.Common.{
  ℕ, zero, suc, ◌-◌, ◌^◌, Bool, true, false, Option, none, some, List, [], ◌∷◌, if◌then◌else◌,
}
use ssyncd.Common.Bytes.{Bytes, codes}
use ssyncd.Common.Int.{ℤ, pos, negsuc}
use ssyncd.Common.Decimal.{stoi}
use ssyncd.Common.Ordered.{bytes_eq}
use ssyncd.Connection.Packet.{conn_packet, ctl_command}
use ssyncd.Ctl.Command.{
  CommandId, CommandPkt, void, start_http_sync, stop_http_sync, show_http, clear_http, write_http,
  stop_recent_sync, start_recent_sync, show_recent, clear_recent, write_recent_table, write_recent,
  sw_to_master, sw_to_client, count_recent, show_mode, count_http,
}

-- The words that the loop compares an argument with.
pub data Word : Type 0 where
  help write clear quit start stop table count show port address switch other : Word

unfoldable pub word_of : Bytes → Word
word_of option =
    if bytes_eq option (codes "help")
    then help
    else if bytes_eq option (codes "write")
    then write
    else if bytes_eq option (codes "clear")
    then clear
    else if bytes_eq option (codes "quit")
    then quit
    else if bytes_eq option (codes "start")
    then start
    else if bytes_eq option (codes "stop")
    then stop
    else if bytes_eq option (codes "table")
    then table
    else if bytes_eq option (codes "count")
    then count
    else if bytes_eq option (codes "show")
    then show
    else if bytes_eq option (codes "port")
    then port
    else if bytes_eq option (codes "address")
    then address
    else if bytes_eq option (codes "switch")
    then switch
    else other

-- What a round of the loop does: exit(), with success or not; or go on with this packet, past so many
-- more arguments.
pub data Turn : Type 0 where
  exits : Bool → Turn
  goes_on : CommandPkt → ℕ → Turn

-- A service that is not known is reported, and leaves the command as it is.
unfoldable pub of_service : CommandId → CommandId → Bytes → CommandId → CommandId
of_service on_http on_recent value current =
    if bytes_eq value (codes "http")
    then on_http
    else if bytes_eq value (codes "recent")
    then on_recent
    else current

unfoldable pub take_service : CommandId → CommandId → CommandPkt → List Bytes → Turn
unfolding of_service
take_service on_http on_recent pkt [] = exits false
take_service on_http on_recent pkt (value ∷ rest) =
    goes_on (record pkt { command = of_service on_http on_recent value pkt.command }) 1

-- "start" and "stop": the service http wants a farm.
unfoldable pub take_farm : CommandId → CommandPkt → List Bytes → Turn
take_farm on_http pkt [] = exits false
take_farm on_http pkt (farm ∷ rest) =
    goes_on (record pkt { command = on_http; command_data = farm }) 2

unfoldable pub take_start : CommandId → CommandId → CommandPkt → List Bytes → Turn
unfolding take_farm
take_start on_http on_recent pkt [] = exits false
take_start on_http on_recent pkt (value ∷ rest) =
    if bytes_eq value (codes "http")
    then take_farm on_http pkt rest
    else if bytes_eq value (codes "recent")
    then goes_on (record pkt { command = on_recent }) 1
    else goes_on pkt 1

-- "table": only the name "*" has an effect on the command.
unfoldable pub table_command : CommandId → Option CommandId
table_command write_recent = some write_recent_table
table_command _ = none

unfoldable pub take_table : CommandPkt → List Bytes → Turn
unfolding table_command
take_table pkt [] = exits false
take_table pkt (value ∷ rest) =
    let named : CommandPkt = record pkt { command_data = value } in
    if bytes_eq value (codes "*")
    then elim (table_command pkt.command) [
      | none ↦ exits false
      | some command ↦ goes_on (record named { command = command }) 1
    ]
    else goes_on named 1

unfoldable pub take_show : CommandPkt → List Bytes → Turn
take_show pkt [] = exits false
take_show pkt (value ∷ rest) =
    if bytes_eq value (codes "http")
    then goes_on (record pkt { command = show_http }) 1
    else if bytes_eq value (codes "recent")
    then goes_on (record pkt { command = show_recent }) 1
    else if bytes_eq value (codes "mode")
    then goes_on (record pkt { command = show_mode }) 1
    else goes_on pkt 1

-- An int as its 32 bits.
unfoldable pub int_bits : ℤ → ℕ
int_bits (pos n) = n
int_bits (negsuc n) = 2 ^ 32 - suc n

-- A missing port or address goes unnoticed.
unfoldable pub take_port : CommandPkt → List Bytes → Turn
unfolding int_bits
take_port pkt [] = goes_on pkt 1
take_port pkt (value ∷ rest) = elim (stoi value) [
  | none ↦ exits false
  | some n ↦ goes_on (record pkt { server_port = int_bits n }) 1
]

unfoldable pub take_address : CommandPkt → List Bytes → Turn
take_address pkt [] = goes_on pkt 1
take_address pkt (value ∷ rest) = goes_on (record pkt { server_address = value }) 1

unfoldable pub take_switch : CommandPkt → List Bytes → Turn
take_switch pkt [] = exits false
take_switch pkt (value ∷ rest) =
    if bytes_eq value (codes "master")
    then goes_on (record pkt { command = sw_to_master }) 1
    else if bytes_eq value (codes "backup")
    then goes_on (record pkt { command = sw_to_client }) 1
    else goes_on pkt 1

-- The body of the loop for an argument that is this word, with the arguments behind it.
unfoldable pub take_word : CommandPkt → List Bytes → Word → Turn
unfolding take_service take_start take_table take_show take_port take_address take_switch
take_word pkt rest help = exits true
take_word pkt rest write = take_service write_http write_recent pkt rest
take_word pkt rest clear = take_service clear_http clear_recent pkt rest
take_word pkt rest quit = goes_on (record pkt { command = CommandId.quit }) 0
take_word pkt rest start = take_start start_http_sync start_recent_sync pkt rest
take_word pkt rest stop = take_start stop_http_sync stop_recent_sync pkt rest
take_word pkt rest table = take_table pkt rest
take_word pkt rest count = take_service count_http count_recent pkt rest
take_word pkt rest show = take_show pkt rest
take_word pkt rest port = take_port pkt rest
take_word pkt rest address = take_address pkt rest
take_word pkt rest switch = take_switch pkt rest
take_word pkt rest other = goes_on pkt 0

unfoldable pub take_option : CommandPkt → Bytes → List Bytes → Turn
unfolding word_of take_word
take_option pkt option rest = take_word pkt rest (word_of option)

-- How the loop ends.
pub data Parsed : Type 0 where
  exited : Bool → Parsed
  parsed : CommandPkt → Parsed

-- The loop over argv, with so many arguments to pass over first.
unfoldable pub parse_from : CommandPkt → ℕ → List Bytes → Parsed
unfolding take_option
parse_from pkt passed [] = parsed pkt
parse_from pkt (suc passed) (option ∷ rest) = parse_from pkt passed rest
parse_from pkt zero (option ∷ rest) = elim (take_option pkt option rest) [
  | exits success ↦ exited success
  | goes_on pkt' passed ↦ parse_from pkt' passed rest
]

-- command_pkt pkt; pkt.command = VOID. Its port holds whatever the memory held.
abbrev pub void_command : ℕ → CommandPkt
void_command memory = record {
  pkt = conn_packet ctl_command;
  command = void;
  command_data = [];
  server_port = memory;
  server_address = [];
}

unfoldable pub is_void : CommandId → Bool
is_void void = true
is_void _ = false

-- main, up to the call of the controller: the packet that is sent, or the way that it exits.
unfoldable pub parse_arguments : ℕ → List Bytes → Parsed
unfolding parse_from is_void
parse_arguments memory args = elim (parse_from (void_command memory) 0 args) [
  | exited success ↦ exited success
  | parsed pkt ↦ if is_void pkt.command then exited false else parsed pkt
]
