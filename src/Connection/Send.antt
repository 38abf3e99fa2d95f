-- ===== src/Connection/Send.antt =====
-- The sending half of src/connection/connection.cpp.
pub mod Whole
pub mod Recipients
use ssyncd.Common.{
  ℕ, ◌+◌, ◌-◌, Bool, true, false, not, ◌&&◌, ◌==◌, Option, none, some, List, [], ◌∷◌, ◌++◌, map,
  length, take, drop, is_empty, if◌then◌else◌,
}
use ssyncd.Common.Bytes.{Bytes}
use ssyncd.Common.Map.{Map}
use ssyncd.Connection.PacketParser.{Serialized, written, refused, raised}

-- What send() answers: the number of bytes it took, EWOULDBLOCK or EAGAIN, or another error.
pub data SendAnswer : Type 0 where
  took : ℕ → SendAnswer
  would_block send_error : SendAnswer

-- How a call stands: it returned, or it is still in its loop after the last answer.
pub data Outcome : Type 0 where
  returned : Bool → Outcome
  waiting : Outcome

-- connection::handle_send from `sent` on, and the loop of http_sync::send_pound_action: the outcome
-- and the bytes that the socket took.
unfoldable pub send_loop : Bytes → ℕ → List SendAnswer → Outcome × Bytes
send_loop to_send sent [] = (waiting, [])
send_loop to_send sent (would_block ∷ answers) = send_loop to_send sent answers
send_loop to_send sent (send_error ∷ answers) = (returned false, [])
send_loop to_send sent (took n ∷ answers) =
    let rest = send_loop to_send (sent + n) answers in
    let bytes = take n (drop sent to_send) in
    if n == length to_send - sent then (returned true, bytes) else (rest.0, bytes ++ rest.1)

unfoldable pub handle_send : Bytes → List SendAnswer → Outcome × Bytes
unfolding send_loop
handle_send to_send answers = send_loop to_send 0 answers

-- class connection, as send_packet reads it. `connected_nodes` is here its keys.
pub record Connection : Type 0 where
  pub is_server : Bool
  pub is_running : Bool
  pub listen_fd : ℕ
  pub connected_nodes : List ℕ

-- What a call of send_packet did: its outcome, and the bytes that each socket took.
pub record Sent : Type 0 where
  pub outcome : Outcome
  pub wires : List (ℕ × Bytes)

-- The loop over connected_nodes. `answers` are those of the sockets.
unfoldable pub send_to_all : (ℕ → List SendAnswer) → List ℕ → Bytes → Sent
unfolding handle_send
send_to_all answers [] to_send = record { outcome = returned true; wires = [] }
send_to_all answers (fd ∷ fds) to_send =
    let rest = send_to_all answers fds to_send in
    let (outcome, bytes) = handle_send to_send (answers fd) in
    elim outcome [
      | returned ok ↦
          (if ok
            then record { outcome = rest.outcome; wires = (fd, bytes) ∷ rest.wires }
            else record { outcome = returned false; wires = (fd, bytes) ∷ [] })
      | waiting ↦ record { outcome = waiting; wires = (fd, bytes) ∷ [] }
    ]

-- The broadcast to all nodes, or the send to one.
unfoldable pub send_to : (ℕ → List SendAnswer) → List ℕ → Option ℕ → Bytes → Sent
unfolding handle_send send_to_all
send_to answers nodes none to_send = send_to_all answers nodes to_send
send_to answers nodes (some fd) to_send =
    let (outcome, bytes) = handle_send to_send (answers fd) in
    record { outcome = outcome; wires = (fd, bytes) ∷ [] }

-- The fd that send_packet leaves in the packet.
unfoldable pub packet_fd : Connection → Option ℕ → Option ℕ
packet_fd c fd = if c.is_server then fd else some c.listen_fd

-- connection::send_packet of a packet with this fd, which serialises like this. `none` is an
-- exception of the parser.
unfoldable pub send_packet :
    Connection → (ℕ → List SendAnswer) → Option ℕ → Serialized → Option Sent
unfolding send_to packet_fd
send_packet c answers fd serialized =
    if c.is_server && is_empty c.connected_nodes
    then some (record { outcome = returned false; wires = [] })
    else if not c.is_running
    then some (record { outcome = returned false; wires = [] })
    else elim serialized [
      | raised ↦ none
      | refused ↦ some (record { outcome = returned true; wires = [] })
      | written to_send n ↦ some (send_to answers c.connected_nodes (packet_fd c fd) to_send)
    ]
