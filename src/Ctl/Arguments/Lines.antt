-- ===== src/Ctl/Arguments/Lines.antt =====
-- The command lines of the control program, and the packets that src/ctl_interface/main.cpp makes of
-- them.
use ssyncd.Common.{ℕ, ◌^◌, ◌<◌, ◌≡◌, refl, List, [], ◌∷◌, arith}
use ssyncd.Common.Bytes.{Bytes, codes}
use ssyncd.Common.Decimal.{to_string, stoi-to_string}
use ssyncd.Ctl.Command.{
  CommandId, CommandPkt, start_http_sync, stop_http_sync, show_http, clear_http, write_http,
  stop_recent_sync, start_recent_sync, show_recent, clear_recent, write_recent_table, write_recent,
  sw_to_master, sw_to_client, count_recent, show_mode, count_http,
}
use ssyncd.Ctl.Arguments.{parsed, parse_arguments, void_command}

-- What a user can ask for.
pub data Request : Type 0 where
  start_farm stop_farm : Bytes → Request
  become_master : ℕ → Request
  become_backup : Bytes → ℕ → Request
  start_recent stop_recent show_sessions show_tables clear_sessions clear_tables : Request
  write_sessions write_tables write_all_tables count_sessions count_tables show_the_mode leave :
      Request

-- The words for a request.
unfoldable pub words : Request → List Bytes
words (start_farm farm) = codes "start" ∷ codes "http" ∷ farm ∷ []
words (stop_farm farm) = codes "stop" ∷ codes "http" ∷ farm ∷ []
words (become_master n) = codes "switch" ∷ codes "master" ∷ codes "port" ∷ to_string n ∷ []
words (become_backup address n) =
    codes "switch" ∷ codes "backup" ∷ codes "address" ∷ address ∷ codes "port" ∷ to_string n ∷ []
words start_recent = codes "start" ∷ codes "recent" ∷ []
words stop_recent = codes "stop" ∷ codes "recent" ∷ []
words show_sessions = codes "show" ∷ codes "http" ∷ []
words show_tables = codes "show" ∷ codes "recent" ∷ []
words clear_sessions = codes "clear" ∷ codes "http" ∷ []
words clear_tables = codes "clear" ∷ codes "recent" ∷ []
words write_sessions = codes "write" ∷ codes "http" ∷ []
words write_tables = codes "write" ∷ codes "recent" ∷ []
words write_all_tables = codes "write" ∷ codes "recent" ∷ codes "table" ∷ codes "*" ∷ []
words count_sessions = codes "count" ∷ codes "http" ∷ []
words count_tables = codes "count" ∷ codes "recent" ∷ []
words show_the_mode = codes "show" ∷ codes "mode" ∷ []
words leave = codes "quit" ∷ []

abbrev plain : ℕ → CommandId → CommandPkt
plain memory command = let x = void_command memory in record x { command = command }

-- The packet for a request. `memory` is what the port holds where no argument sets it.
unfoldable pub packet : ℕ → Request → CommandPkt
packet memory (start_farm farm) =
    let x = plain memory start_http_sync in record x { command_data = farm }
packet memory (stop_farm farm) =
    let x = plain memory stop_http_sync in record x { command_data = farm }
packet memory (become_master n) = plain n sw_to_master
packet memory (become_backup address n) =
    let x = plain n sw_to_client in record x { server_address = address }
packet memory start_recent = plain memory start_recent_sync
packet memory stop_recent = plain memory stop_recent_sync
packet memory show_sessions = plain memory show_http
packet memory show_tables = plain memory show_recent
packet memory clear_sessions = plain memory clear_http
packet memory clear_tables = plain memory clear_recent
packet memory write_sessions = plain memory write_http
packet memory write_tables = plain memory write_recent
packet memory write_all_tables =
    let x = plain memory write_recent_table in record x { command_data = codes "*" }
packet memory count_sessions = plain memory count_http
packet memory count_tables = plain memory count_recent
packet memory show_the_mode = plain memory show_mode
packet memory leave = plain memory CommandId.quit

-- A port that std::stoi takes.
abbrev pub HasPort : Request → Type 0
HasPort (become_master n) = n < 2 ^ 31
HasPort (become_backup address n) = n < 2 ^ 31
HasPort _ = Unit

-- The words of a request are parsed to its packet, whatever the memory held and whatever name or
-- address stands among them.
pub parse_arguments-words :
    (memory : ℕ) (r : Request)
    → HasPort r
    → parse_arguments memory (words r) ≡ parsed (packet memory r)
unfolding parse_arguments words packet
parse_arguments-words memory (start_farm farm) h = refl
parse_arguments-words memory (stop_farm farm) h = refl
parse_arguments-words memory (become_master n) h = ground (arith, stoi-to_string n)
parse_arguments-words memory (become_backup address n) h = ground (arith, stoi-to_string n)
parse_arguments-words memory start_recent h = refl
parse_arguments-words memory stop_recent h = refl
parse_arguments-words memory show_sessions h = refl
parse_arguments-words memory show_tables h = refl
parse_arguments-words memory clear_sessions h = refl
parse_arguments-words memory clear_tables h = refl
parse_arguments-words memory write_sessions h = refl
parse_arguments-words memory write_tables h = refl
parse_arguments-words memory write_all_tables h = refl
parse_arguments-words memory count_sessions h = refl
parse_arguments-words memory count_tables h = refl
parse_arguments-words memory show_the_mode h = refl
parse_arguments-words memory leave h = refl
