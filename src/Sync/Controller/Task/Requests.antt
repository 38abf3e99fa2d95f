-- ===== src/Sync/Controller/Task/Requests.antt =====
-- The way of a request: from the words on the command line (src/ctl_interface/main.cpp) over its packet
-- (command_pkt.cpp) to the daemon (src/sync/sync_controller.cpp).
use ssyncd.Common.{ℕ, ◌+◌, ◌≤◌, ◌≡◌, sym, ap, ◌∙◌, true, List, some, ◌++◌, arith, length}
use ssyncd.Common.Bytes.{Bytes, IsByte}
use ssyncd.Connection.Cursor.{got}
use ssyncd.Connection.PacketParser.{written, char_size}
use ssyncd.Connection.Send.{SendAnswer}
use ssyncd.Ctl.Command.{CommandPkt, serialize_command, deserialize_command}
use ssyncd.Ctl.Command.RoundTrip.{received_command, deserialize_command-serialize_command}
use ssyncd.Ctl.Arguments.{parsed, parse_arguments}
use ssyncd.Ctl.Arguments.Lines.{
  Request, words, packet, HasPort, become_master, become_backup, parse_arguments-words,
}
use ssyncd.Ctl.Arguments.Sendable.{IsFitting, packet-IsSendable}
use ssyncd.Ctl.Client.Answer.{IsPrefix, send_while-IsPrefix}
use ssyncd.Sync.Controller.{Controller, System, handle_command}
use ssyncd.Sync.Controller.Task.{request, serve, send_response}

HasPort-of : (a b c d : ℕ) (r : Request) → IsFitting a b c d r → HasPort r
HasPort-of a b c d (become_master n) h = omega arith
HasPort-of a b c d (become_backup address n) h = omega arith
HasPort-of a b c d r h = tt

serve_read :
    (os : System) (memory : ℕ) (bytes stale : Bytes) (x : CommandPkt) (used : ℕ) (rest : Bytes)
    (s : Controller)
    → deserialize_command memory (length bytes) (bytes ++ stale) ≡ got (some x) used rest
    → serve os memory (request bytes stale) s ≡ (handle_command os x s, true)
unfolding serve
serve_read os memory bytes stale x used rest s e = ground (arith, e)

-- A request fits where the names of its farms are shorter than 256 bytes, its port is below 2 ^ 24, and its
-- address is dotted IPv4. Its words become a packet; the packet becomes at most 270 bytes; and a daemon
-- that receives those bytes at the front of its buffer obeys the command with the arguments that were
-- typed, and closes the connection. `memory` is what the ports of new packets hold on either side.
pub serve-words :
    (os : System) (memory memory' a b c d : ℕ) (r : Request) (stale : Bytes) (s : Controller)
    → IsByte a
    → IsByte b
    → IsByte c
    → IsByte d
    → IsFitting a b c d r
    → (out : Bytes) × (parse_arguments memory (words r) ≡ parsed (packet memory r))
      × (serialize_command (packet memory r) ≡ written out (char_size (length out)))
      × (serve os memory' (request out stale) s
          ≡ (handle_command os (received_command memory' (packet memory r)) s, true))
      × (length out ≤ 270)
serve-words os memory memory' a b c d r stale s ha hb hc hd h =
    let x = packet memory r in
    let (out, e, back, short) =
      deserialize_command-serialize_command memory' a b c d x stale 0
        (packet-IsSendable memory a b c d ha hb hc hd r h) in
    let same : length out + 0 ≡ length out = omega arith in
    (
      out,
      parse_arguments-words memory r (HasPort-of a b c d r h),
      e,
      serve_read os memory' out stale (received_command memory' x) (length out) stale s
          (ap (λ n. deserialize_command memory' n (out ++ stale)) (sym same) ∙ back),
      short,
    )

-- What the socket took is a prefix of the response, and all of it where the loop ends by its test.
pub send_response-IsPrefix :
    (str : Bytes) (answers : List SendAnswer) → IsPrefix str (send_response str answers)
unfolding send_response
send_response-IsPrefix str answers = send_while-IsPrefix str 0 answers
