-- ===== src/Ctl/Arguments/Sendable.antt =====
-- The packets that the command line of src/ctl_interface/main.cpp leads to fit the wire.
use ssyncd.Common.{ℕ, ◌^◌, ◌<◌, ◌≡◌, refl, true, length, arith}
use ssyncd.Common.Bytes.{IsByte}
use ssyncd.Helpers.Utils.{dotted}
use ssyncd.Connection.Packet.{packet_code, packet_type_of, conn_packet, ctl_command}
use ssyncd.Connection.PacketParser.Frame.{IsWireHeader}
use ssyncd.Ctl.Command.{CommandPkt, command_code, command_of, has_port, has_server}
use ssyncd.Ctl.Command.RoundTrip.{IsSendable}
use ssyncd.Ctl.Arguments.Lines.{
  Request, start_farm, stop_farm, become_master, become_backup, packet,
}

-- A farm's name of less than 256 bytes, a port of at most 24 bits, an IPv4 address.
abbrev pub IsFitting : ℕ → ℕ → ℕ → ℕ → Request → Type 0
IsFitting a b c d (start_farm farm) = length farm < 256
IsFitting a b c d (stop_farm farm) = length farm < 256
IsFitting a b c d (become_master n) = n < 2 ^ 24
IsFitting a b c d (become_backup address n) = (n < 2 ^ 24) × (address ≡ dotted a b c d)
IsFitting a b c d _ = Unit

header : IsWireHeader (conn_packet ctl_command)
unfolding packet_code packet_type_of
header = record { first = omega arith; second = omega arith; code_byte = omega arith; known = refl }

module _ (memory a b c d : ℕ) (ha : IsByte a) (hb : IsByte b) (hc : IsByte c) (hd : IsByte d) where
  -- What depends on the command.
  built :
      (x : CommandPkt)
      → IsWireHeader x.pkt
      → IsByte (command_code x.command) × (command_of (command_code x.command) ≡ x.command)
      → length x.command_data < 256
      → (has_port x.command ≡ true → x.server_port < 256 ^ 3)
      → (has_server x.command ≡ true → x.server_address ≡ dotted a b c d)
      → IsSendable a b c d x
  built x head code size port server = record {
    header = head;
    command_byte = code.0;
    command_known = code.1;
    size = size;
    port = port;
    byte_a = ha;
    byte_b = hb;
    byte_c = hc;
    byte_d = hd;
    server = server;
  }

  -- A fitting request leads to a packet that fits the wire.
  pub packet-IsSendable : (r : Request) → IsFitting a b c d r → IsSendable a b c d (packet memory r)
  unfolding packet command_code command_of has_port has_server
  packet-IsSendable (start_farm farm) h =
      built (packet memory (start_farm farm)) header (omega arith, refl) h (λ e. cc) (λ e. cc)
  packet-IsSendable (stop_farm farm) h =
      built (packet memory (stop_farm farm)) header (omega arith, refl) h (λ e. cc) (λ e. cc)
  packet-IsSendable (become_master n) h =
      built (packet memory (become_master n)) header (omega arith, refl) (omega arith)
        (λ e. omega arith) (λ e. cc)
  packet-IsSendable (become_backup address n) h =
      built (packet memory (become_backup address n)) header (omega arith, refl) (omega arith)
        (λ e. omega arith) (λ e. h.1)
  packet-IsSendable r h =
      built (packet memory r) header (omega arith, refl) (omega arith) (λ e. cc) (λ e. cc)
