-- ===== src/Tests/Parsers.antt =====
-- The parsers of src/xt_recent, src/http, src/sync, src/ctl_interface and src/helpers on concrete
-- packets and texts.
use ssyncd.Common.{ℕ, ◌+◌, ◌≤◌, ◌≡◌, some, [], ◌∷◌, ◌++◌, arith, refl, length}
use ssyncd.Common.Bytes.{Bytes, codes}
use ssyncd.Helpers.Utils.{dotted, ipv4}
use ssyncd.Connection.Cursor.{got}
use ssyncd.Connection.Packet.{conn_packet, ctl_command, packet_code, packet_type_of}
use ssyncd.Connection.PacketParser.{written, char_size}
use ssyncd.XtRecent.Parser.{serialize_action, deserialize_action}
use ssyncd.XtRecent.Parser.RoundTrip.{received_action, deserialize_action-serialize_action}
use ssyncd.XtRecent.Proc.{parse_file_row}
use ssyncd.XtRecent.Proc.Row.{nonzero_stamps, parse_file_row_lem}
use ssyncd.Http.Parser.{serialize_http, deserialize_http}
use ssyncd.Http.Parser.RoundTrip.{received_http, deserialize_http-serialize_http}
use ssyncd.Sync.PktParser.{recent, serialize, deserialize}
use ssyncd.Sync.PktParser.RoundTrip.{received, deserialize-serialize}
use ssyncd.Sync.PktParser.RoundTrip as Pkt
use ssyncd.Ctl.Command.{
  CommandPkt, sw_to_client, command_code, command_of, serialize_command, deserialize_command,
}
use ssyncd.Ctl.Command.RoundTrip.{received_command, deserialize_command-serialize_command}
use ssyncd.Ctl.Command.RoundTrip as Command
use ssyncd.Tests.Data.{
  partial_match, no_entry, no_action, memory, address, recent_action, recent-IsSendable,
  http_action, http-IsSendable,
}

deserialize_action-serialize_action_example :
    (out : Bytes) × (serialize_action (λ n. []) recent_action
      ≡ written out (char_size (length out)))
    × (deserialize_action no_entry (length out + 2) (out ++ (1 ∷ 2 ∷ []))
        ≡ got
            (some (received_action no_entry recent_action (length out)))
            (length out)
            (1 ∷ 2 ∷ []))
deserialize_action-serialize_action_example =
    deserialize_action-serialize_action no_entry (λ n. []) address recent_action (1 ∷ 2 ∷ []) 2
      recent-IsSendable

deserialize_http-serialize_http_example :
    (out : Bytes) × (serialize_http http_action ≡ written out (char_size (length out)))
    × (deserialize_http no_action (length out + 1) (out ++ (1 ∷ []))
        ≡ got (some (received_http no_action http_action (length out))) (length out) (1 ∷ []))
deserialize_http-serialize_http_example =
    deserialize_http-serialize_http no_action http_action (1 ∷ []) 1 http-IsSendable

deserialize-serialize_example :
    (out : Bytes) × (n : ℕ) × (serialize memory (recent recent_action) ≡ written out n)
    × (deserialize memory (length out + 0) (out ++ [])
        ≡ got (some (received memory (recent recent_action) (length out))) (length out) [])
deserialize-serialize_example =
    deserialize-serialize memory (recent recent_action) [] 0
      (Pkt.recent_sendable address recent_action recent-IsSendable)

abbrev command : CommandPkt
command = record {
  pkt = conn_packet ctl_command;
  command = sw_to_client;
  command_data = [];
  server_port = 9999;
  server_address = dotted 10 0 0 7;
}

command-IsSendable : Command.IsSendable 10 0 0 7 command
unfolding packet_code packet_type_of command_code command_of
command-IsSendable = record {
  header = record {
    first = omega arith;
    second = omega arith;
    code_byte = omega arith;
    known = refl;
  };
  command_byte = omega arith;
  command_known = refl;
  size = omega arith;
  port = λ e. omega arith;
  byte_a = omega arith;
  byte_b = omega arith;
  byte_c = omega arith;
  byte_d = omega arith;
  server = λ e. refl;
}

deserialize_command-serialize_command_example :
    (out : Bytes) × (serialize_command command ≡ written out (char_size (length out)))
    × (deserialize_command 0 (length out + 1) (out ++ (1 ∷ []))
        ≡ got (some (received_command 0 command)) (length out) (1 ∷ []))
    × (length out ≤ 270)
deserialize_command-serialize_command_example =
    deserialize_command-serialize_command 0 10 0 0 7 command (1 ∷ []) 1 command-IsSendable

parse_file_row_lem_example :
    parse_file_row partial_match (codes "row")
    ≡ some (record {
      src_ip = dotted 10 0 0 7;
      ttl = 64;
      last_seen = 9;
      last_seen_index = 2;
      ip_family = ipv4;
      timestamps = nonzero_stamps (5 ∷ 0 ∷ 9 ∷ []);
    })
parse_file_row_lem_example =
    parse_file_row_lem partial_match (codes "row") (dotted 10 0 0 7) 64 9 2 5 (0 ∷ 9 ∷ []) refl refl
      refl refl refl (omega arith) (omega arith) (omega arith)
      (omega arith, (omega arith, (omega arith, tt)))
