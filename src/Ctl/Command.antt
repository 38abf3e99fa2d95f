-- ===== src/Ctl/Command.antt =====
-- src/ctl_interface/command_pkt.h and command_pkt.cpp
pub mod RoundTrip
use ssyncd.Common.{
  ℕ, ◌%◌, Bool, true, false, Option, none, some, [], ◌∷◌, ◌++◌, length, ◌==◌, if◌then◌else◌,
}
use ssyncd.Common.Bytes.{Bytes, le_bytes}
use ssyncd.Helpers.Utils.{
  IpFamily, ipv4, ipv6, other_family, family_code, family_of, get_ip_address_type,
  get_ip_address_array, dotted,
}
use ssyncd.Connection.Cursor.{Read, fault, got, Reader, ◌>>=◌, pure, next, next_bytes, next_le}
use ssyncd.Connection.Packet.{ConnPacket, conn_packet, ctl_command}
use ssyncd.Connection.PacketParser.{
  Serialized, written, raised, serialize_base, deserialize_base, patch_size, char_size,
}

-- enum command_id; a byte of the wire that names none of them is `other_command`.
pub data CommandId : Type 0 where
  void start_http_sync stop_http_sync show_http clear_http write_http stop_recent_sync : CommandId
  start_recent_sync show_recent clear_recent clear_recent_table write_recent_table : CommandId
  write_recent sw_to_master sw_to_client count_recent show_mode quit count_http : CommandId
  ctl_error str_message rsync : CommandId
  other_command : ℕ → CommandId

unfoldable pub command_code : CommandId → ℕ
command_code void = 1
command_code start_http_sync = 2
command_code stop_http_sync = 3
command_code show_http = 4
command_code clear_http = 5
command_code write_http = 6
command_code stop_recent_sync = 7
command_code start_recent_sync = 8
command_code show_recent = 9
command_code clear_recent = 10
command_code clear_recent_table = 11
command_code write_recent_table = 12
command_code write_recent = 13
command_code sw_to_master = 14
command_code sw_to_client = 15
command_code count_recent = 16
command_code show_mode = 17
command_code quit = 18
command_code count_http = 19
command_code ctl_error = 20
command_code str_message = 21
command_code rsync = 22
command_code (other_command n) = n

-- static_cast<command_id>(b)
unfoldable pub command_of : ℕ → CommandId
command_of n =
    if n == 1
    then void
    else if n == 2
    then start_http_sync
    else if n == 3
    then stop_http_sync
    else if n == 4
    then show_http
    else if n == 5
    then clear_http
    else if n == 6
    then write_http
    else if n == 7
    then stop_recent_sync
    else if n == 8
    then start_recent_sync
    else if n == 9
    then show_recent
    else if n == 10
    then clear_recent
    else if n == 11
    then clear_recent_table
    else if n == 12
    then write_recent_table
    else if n == 13
    then write_recent
    else if n == 14
    then sw_to_master
    else if n == 15
    then sw_to_client
    else if n == 16
    then count_recent
    else if n == 17
    then show_mode
    else if n == 18
    then quit
    else if n == 19
    then count_http
    else if n == 20
    then ctl_error
    else if n == 21
    then str_message
    else if n == 22
    then rsync
    else other_command n

-- class command_pkt. The port is an int that its users keep at 0 or above.
pub record CommandPkt : Type 0 where
  pub pkt : ConnPacket
  pub command : CommandId
  pub command_data : Bytes
  pub server_port : ℕ
  pub server_address : Bytes

-- The commands with an argument, a port and an address.
unfoldable pub has_data : CommandId → Bool
has_data write_recent_table = true
has_data clear_recent_table = true
has_data start_http_sync = true
has_data stop_http_sync = true
has_data _ = false

unfoldable pub has_port : CommandId → Bool
has_port sw_to_client = true
has_port sw_to_master = true
has_port _ = false

unfoldable pub has_server : CommandId → Bool
has_server sw_to_client = true
has_server _ = false

unfoldable pub data_bytes : CommandPkt → Bytes
unfolding has_data
data_bytes x = if has_data x.command then length x.command_data % 256 ∷ x.command_data else []

unfoldable pub port_bytes : CommandPkt → Bytes
unfolding has_port
port_bytes x = if has_port x.command then le_bytes 3 x.server_port else []

-- The body of a command whose address has these bytes.
unfoldable pub command_body : CommandPkt → Bytes → Bytes
unfolding data_bytes port_bytes command_code
command_body x address = command_code x.command % 256 ∷ (data_bytes x ++ (port_bytes x ++ address))

unfoldable pub command_packet : CommandPkt → Bytes → Bytes
unfolding command_body
command_packet x address = patch_size (serialize_base x.pkt ++ command_body x address)

-- command_pkt_parser::serialize
unfoldable pub serialize_command : CommandPkt → Serialized
unfolding command_packet has_server
serialize_command x =
    if has_server x.command
    then elim (get_ip_address_array x.server_address) [
      | none ↦ raised
      | some parts ↦
          let out =
            command_packet x (family_code (get_ip_address_type x.server_address) % 256 ∷ parts) in
          written out (char_size (length out))
    ]
    else let out = command_packet x [] in written out (char_size (length out))

-- The server address: of IPv6 only the family is read.
unfoldable pub read_server : Reader Bytes
read_server = next >>= λ family. elim (family_of family) [
  | ipv4 ↦ next >>= λ a. next >>= λ b. next >>= λ c. next >>= λ d. pure (dotted a b c d)
  | ipv6 ↦ pure []
  | other_family n ↦ pure []
]

unfoldable pub read_data : CommandId → Reader Bytes
unfolding has_data
read_data command = if has_data command then (next >>= λ size. next_bytes size) else pure []

unfoldable pub read_port : ℕ → CommandId → Reader ℕ
unfolding has_port
read_port port command = if has_port command then next_le 3 else pure port

unfoldable pub read_address : CommandId → Reader Bytes
unfolding has_server read_server
read_address command = if has_server command then read_server else pure []

-- The arguments of a command, in a new command_pkt whose port happens to hold `port`.
unfoldable pub read_arguments : ℕ → CommandId → Reader (Option CommandPkt)
unfolding read_data read_port read_address
read_arguments port command = read_data command >>= λ res. read_port port command >>= λ server_port.
    read_address command >>= λ server_address. pure (
      some (record {
        pkt = conn_packet ctl_command;
        command = command;
        command_data = res;
        server_port = server_port;
        server_address = server_address;
      }))

-- What follows the header.
unfoldable pub read_command : ℕ → Reader (Option CommandPkt)
unfolding command_of read_arguments
read_command port = next >>= λ code. read_arguments port (command_of code)

-- command_pkt_parser::deserialize
unfoldable pub deserialize_command : ℕ → ℕ → Bytes → Read (Option CommandPkt)
unfolding read_command
deserialize_command port buffer_size buffer = elim (deserialize_base buffer_size buffer) [
  | fault ↦ fault
  | got none used rest ↦ got none used rest
  | got (some p) used rest ↦ read_command port used rest
]
