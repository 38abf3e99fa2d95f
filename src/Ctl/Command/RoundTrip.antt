-- ===== src/Ctl/Command/RoundTrip.antt =====
-- What src/ctl_interface/command_pkt.cpp writes for a command, and that it reads it back.
use ssyncd.Common.{
  ℕ, ◌+◌, ◌^◌, ◌<◌, ◌≤◌, ◌≡◌, refl, ap, ◌∙◌, true, false, ◌||◌, some, [], ◌∷◌, ◌++◌, All,
  append_assoc, arith, length, length-append, if◌then◌else◌,
}
use ssyncd.Common.Bytes.{Bytes, IsByte, length-le_bytes}
use ssyncd.Common.Decimal.{IsDigit, to_string, to_string-IsDigit}
use ssyncd.Helpers.Utils.{
  family_code, family_of, get_ip_address_array, get_ip_address_type, get_ip_address_v4-dotted,
  dotted, contains,
}
use ssyncd.Connection.Cursor.{got, next, next_bytes-append, next_le-append, bind-got}
use ssyncd.Connection.Packet.{conn_packet, ctl_command}
use ssyncd.Connection.PacketParser.{written, char_size}
use ssyncd.Connection.PacketParser.Frame.{
  IsWireHeader, framed, length-framed, patch_size-serialize_base, deserialize_base-framed,
}
use ssyncd.Ctl.Command.{
  command_code, command_of, CommandPkt, has_data, has_port, has_server, data_bytes, port_bytes,
  read_data, read_port, read_address, read_arguments, command_body, command_packet,
  serialize_command, read_server, read_command, deserialize_command,
}

-- A command whose fields fit the wire, with the IPv4 address of its server.
pub record IsSendable (a b c d : ℕ) (x : CommandPkt) : Type 0 where
  pub header : IsWireHeader x.pkt
  pub command_byte : IsByte (command_code x.command)
  pub command_known : command_of (command_code x.command) ≡ x.command
  pub size : length x.command_data < 256
  pub port : has_port x.command ≡ true → x.server_port < 256 ^ 3
  pub byte_a : IsByte a
  pub byte_b : IsByte b
  pub byte_c : IsByte c
  pub byte_d : IsByte d
  pub server : has_server x.command ≡ true → x.server_address ≡ dotted a b c d

-- The command as it is read: with the arguments that a command of its kind has.
pub received_command : ℕ → CommandPkt → CommandPkt
received_command port x = record {
  pkt = conn_packet ctl_command;
  command = x.command;
  command_data = (if has_data x.command then x.command_data else []);
  server_port = (if has_port x.command then x.server_port else port);
  server_address = (if has_server x.command then x.server_address else []);
}

contains-append : (k : ℕ) (s t : Bytes) → contains k (s ++ t) ≡ contains k s || contains k t
unfolding contains
contains-append k [] t = refl
contains-append k (x ∷ s) t = ground (arith, contains-append k s t)

address_bytes : ℕ → ℕ → ℕ → ℕ → CommandPkt → Bytes
address_bytes a b c d x = if has_server x.command then 1 ∷ a ∷ b ∷ c ∷ d ∷ [] else []

read_data_lem :
    (x : CommandPkt) (rest : Bytes) (used : ℕ)
    → length x.command_data < 256
    → read_data x.command used (data_bytes x ++ rest)
      ≡ got (if has_data x.command then x.command_data else []) (used + length (data_bytes x)) rest
unfolding next read_data data_bytes
read_data_lem x rest used h = ground (arith, next_bytes-append x.command_data rest (used + 1))

read_port_lem :
    (port : ℕ) (x : CommandPkt) (rest : Bytes) (used : ℕ)
    → (has_port x.command ≡ true → x.server_port < 256 ^ 3)
    → read_port port x.command used (port_bytes x ++ rest)
      ≡ got (if has_port x.command then x.server_port else port) (used + length (port_bytes x)) rest
unfolding read_port port_bytes
read_port_lem port x rest used h =
    ground (arith, h, next_le-append 3 x.server_port rest used, length-le_bytes 3 x.server_port)

read_address_lem :
    (a b c d : ℕ) (x : CommandPkt) (rest : Bytes) (used : ℕ)
    → (has_server x.command ≡ true → x.server_address ≡ dotted a b c d)
    → read_address x.command used (address_bytes a b c d x ++ rest)
      ≡ got
          (if has_server x.command then x.server_address else [])
          (used + length (address_bytes a b c d x))
          rest
unfolding next read_address address_bytes read_server family_of
read_address_lem a b c d x rest used h = ground (arith, h)

arguments : ℕ → ℕ → ℕ → ℕ → CommandPkt → Bytes
arguments a b c d x = data_bytes x ++ (port_bytes x ++ address_bytes a b c d x)

arguments_group :
    (a b c d : ℕ) (x : CommandPkt) (more : Bytes)
    → arguments a b c d x ++ more
      ≡ data_bytes x ++ (port_bytes x ++ (address_bytes a b c d x ++ more))
unfolding arguments
arguments_group a b c d x more =
    append_assoc (data_bytes x) (port_bytes x ++ address_bytes a b c d x) more
    ∙ ap (λ z. data_bytes x ++ z) (append_assoc (port_bytes x) (address_bytes a b c d x) more)

read_arguments_lem :
    (port a b c d : ℕ) (x : CommandPkt) (more : Bytes) (used : ℕ)
    → IsSendable a b c d x
    → read_arguments port x.command used (arguments a b c d x ++ more)
      ≡ got (some (received_command port x)) (used + length (arguments a b c d x)) more
unfolding read_arguments received_command arguments
read_arguments_lem port a b c d x more used s =
    let after = address_bytes a b c d x ++ more in
    let used_1 = used + length (data_bytes x) in
    let used_2 = used_1 + length (port_bytes x) in
    ap (λ z. read_arguments port x.command used z) (arguments_group a b c d x more)
    ∙ bind-got (read_data x.command) _ used _ (read_data_lem x (port_bytes x ++ after) used s.size)
    ∙ bind-got (read_port port x.command) _ used_1 _ (read_port_lem port x after used_1 s.port)
    ∙ bind-got (read_address x.command) _ used_2 _ (read_address_lem a b c d x more used_2 s.server)
    ∙ ap (λ n. got (some (received_command port x)) n more)
        (omega (
          arith,
          length-append (data_bytes x) (port_bytes x ++ address_bytes a b c d x),
          length-append (port_bytes x) (address_bytes a b c d x),
        ))

body : ℕ → ℕ → ℕ → ℕ → CommandPkt → Bytes
unfolding address_bytes
body a b c d x = command_body x (address_bytes a b c d x)

read_command_lem :
    (port a b c d : ℕ) (x : CommandPkt) (more : Bytes)
    → IsSendable a b c d x
    → read_command port 5 (body a b c d x ++ more)
      ≡ got (some (received_command port x)) (5 + length (body a b c d x)) more
unfolding read_command next body command_body arguments
read_command_lem port a b c d x more s =
    ground (arith, s.command_known, s.command_byte, read_arguments_lem port a b c d x more 6 s)

body_short : (a b c d : ℕ) (x : CommandPkt) → IsSendable a b c d x → length (body a b c d x) < 266
unfolding body command_body address_bytes data_bytes port_bytes
body_short a b c d x s = ground (
  arith,
  length-append (data_bytes x) (port_bytes x ++ address_bytes a b c d x),
  length-append (port_bytes x) (address_bytes a b c d x),
  length-le_bytes 3 x.server_port,
)

no_colon : (s : Bytes) → All IsDigit s → contains b':' s ≡ false
unfolding contains
no_colon [] h = refl
no_colon (c ∷ s) (hc, hs) = ground (arith, no_colon s hs)

contains-dotted_colon : (a b c d : ℕ) → contains b':' (dotted a b c d) ≡ false
unfolding dotted contains
contains-dotted_colon a b c d = ground (
  arith,
  contains-append b':' (to_string a)
      (b'.' ∷ (to_string b ++ (b'.' ∷ (to_string c ++ (b'.' ∷ to_string d))))),
  contains-append b':' (to_string b) (b'.' ∷ (to_string c ++ (b'.' ∷ to_string d))),
  contains-append b':' (to_string c) (b'.' ∷ to_string d),
  no_colon (to_string a) (to_string-IsDigit a),
  no_colon (to_string b) (to_string-IsDigit b),
  no_colon (to_string c) (to_string-IsDigit c),
  no_colon (to_string d) (to_string-IsDigit d),
)

contains-dotted_dot : (a b c d : ℕ) → contains b'.' (dotted a b c d) ≡ true
unfolding dotted contains
contains-dotted_dot a b c d = ground (
  arith,
  contains-append b'.' (to_string a)
      (b'.' ∷ (to_string b ++ (b'.' ∷ (to_string c ++ (b'.' ∷ to_string d))))),
)

serialize_command_lem :
    (a b c d : ℕ) (x : CommandPkt)
    → IsSendable a b c d x
    → serialize_command x
      ≡ written (framed x.pkt (body a b c d x)) (char_size (length (framed x.pkt (body a b c d x))))
unfolding serialize_command command_packet body address_bytes get_ip_address_array
    get_ip_address_type family_code
serialize_command_lem a b c d x s = ground (
  arith,
  s.server,
  contains-dotted_colon a b c d,
  contains-dotted_dot a b c d,
  get_ip_address_v4-dotted a b c d s.byte_a s.byte_b s.byte_c s.byte_d,
  patch_size-serialize_base x.pkt (command_body x (1 ∷ a ∷ b ∷ c ∷ d ∷ [])),
  patch_size-serialize_base x.pkt (command_body x []),
)

-- For a command whose fields fit the wire, `serialize` writes a packet, and `deserialize` reads that
-- packet back from any buffer that begins with it: it uses exactly the bytes of the packet, and keeps
-- the command and the arguments that a command of its kind has. The packet has at most 270 bytes. A
-- server is addressed by IPv4.
pub deserialize_command-serialize_command :
    (port a b c d : ℕ) (x : CommandPkt) (more : Bytes) (extra : ℕ)
    → IsSendable a b c d x
    → (out : Bytes) × (serialize_command x ≡ written out (char_size (length out)))
      × (deserialize_command port (length out + extra) (out ++ more)
          ≡ got (some (received_command port x)) (length out) more)
      × (length out ≤ 270)
unfolding deserialize_command
deserialize_command-serialize_command port a b c d x more extra s =
    let out = framed x.pkt (body a b c d x) in
    (
      out,
      serialize_command_lem a b c d x s,
      ground (
        arith,
        length-framed x.pkt (body a b c d x),
        deserialize_base-framed x.pkt (body a b c d x) more (length out + extra) s.header
            (omega (arith, length-framed x.pkt (body a b c d x)))
            (omega (arith, body_short a b c d x s)),
        read_command_lem port a b c d x more s,
      ),
      omega (arith, length-framed x.pkt (body a b c d x), body_short a b c d x s),
    )
