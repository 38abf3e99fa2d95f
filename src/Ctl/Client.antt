-- ===== src/Ctl/Client.antt =====
-- src/ctl_interface/ctl_controller.cpp and the end of main.cpp: the control program's side of the
-- socket. Connecting it is a system call and is left out.
pub mod Answer
use ssyncd.Common.{
  ℕ, ◌+◌, Bool, true, false, Option, none, some, List, [], ◌∷◌, ◌++◌, length, take, drop, ltb,
  if◌then◌else◌,
}
use ssyncd.Common.Bytes.{Bytes}
use ssyncd.Helpers.Utils.{c_str}
use ssyncd.Connection.PacketParser.{Serialized, written, refused, raised}
use ssyncd.Connection.Send.{SendAnswer, took, would_block, send_error, Outcome, returned, waiting}

-- char out_buffer[1024]
abbrev pub out_buffer_size : ℕ
out_buffer_size = 1024

-- The loop `while (sent < size)` of send_command and of sync_controller::send_response, from `sent`
-- on: how it ends, and the bytes that the socket took. Any answer below 0 ends it.
unfoldable pub send_while : Bytes → ℕ → List SendAnswer → Outcome × Bytes
send_while bytes sent [] = (if ltb sent (length bytes) then waiting else returned true, [])
send_while bytes sent (took n ∷ answers) =
    let rest = send_while bytes (sent + n) answers in
    let more : Outcome × Bytes = (rest.0, take n (drop sent bytes) ++ rest.1) in
    if ltb sent (length bytes) then more else (returned true, [])
send_while bytes sent (would_block ∷ answers) =
    (returned (if ltb sent (length bytes) then false else true), [])
send_while bytes sent (send_error ∷ answers) =
    (returned (if ltb sent (length bytes) then false else true), [])

-- The value of send_command is false on every way out.
unfoldable pub then_false : Outcome → Outcome
then_false (returned b) = returned false
then_false waiting = waiting

-- ctl_controller::send_command of a packet that serialises like this. `none` is an exception, or a
-- packet that is longer than `out_buffer`.
unfoldable pub send_command : Serialized → List SendAnswer → Option (Outcome × Bytes)
unfolding send_while then_false
send_command raised answers = none
send_command refused answers = some (returned false, [])
send_command (written out n) answers =
    let (outcome, bytes) = send_while out 0 answers in
    if ltb out_buffer_size (length out) then none else some (then_false outcome, bytes)

-- What recv() answers in get_response: an error, the end of the stream, or bytes that it stored. The
-- last list is what the rest of `buffer` holds.
pub data Reply : Type 0 where
  recv_error : Bytes → Reply
  end_of_stream : Reply
  stored : Bytes → Bytes → Reply

-- ctl_controller::get_response: its text, and is_running. An error falls through to the text.
unfoldable pub get_response : Reply → Bytes × Bool
get_response (recv_error memory) = (c_str memory, true)
get_response end_of_stream = ([], false)
get_response (stored chunk memory) = (c_str (chunk ++ memory), true)

-- `while (controller.is_running) result += controller.get_response()`. `none` is a loop that still runs
-- after these replies.
unfoldable pub collect : List Reply → Option Bytes
unfolding get_response
collect [] = none
collect (reply ∷ replies) =
    let (text, is_running) = get_response reply in
    let rest = collect replies in
    if is_running
    then elim rest [ none ↦ none | some result ↦ some (text ++ result) ]
    else some text
