-- ===== src/Connection/Send/Recipients.antt =====
-- Who gets a packet that connection::send_packet of src/connection/connection.cpp sends.
use ssyncd.Common.{
  ℕ, ◌≡◌, refl, ap, sym, ◌∙◌, true, Option, none, some, List, [], ◌∷◌, ◌++◌, map, arith, append-nil,
}
use ssyncd.Common.Bytes.{Bytes}
use ssyncd.Connection.PacketParser.{written}
use ssyncd.Connection.Send.{
  SendAnswer, returned, Connection, Sent, handle_send, send_to_all, send_to, packet_fd, send_packet,
}
use ssyncd.Connection.Send.Whole.{handle_send_lem}

abbrev pub nodes_of : List ℕ → Option ℕ → List ℕ
nodes_of nodes none = nodes
nodes_of nodes (some fd) = fd ∷ []

-- The sockets that a packet goes to: those of all nodes, or one.
abbrev pub recipients : Connection → Option ℕ → List ℕ
recipients c fd = nodes_of c.connected_nodes (packet_fd c fd)

handle_send_all :
    (to_send : Bytes) (answers : List SendAnswer)
    → (handle_send to_send answers).0 ≡ returned true
    → (handle_send to_send answers).1 ≡ to_send
handle_send_all to_send answers h =
    let (missing, e, all) = handle_send_lem to_send answers in
    sym (append-nil (handle_send to_send answers).1)
    ∙ ap (λ z. (handle_send to_send answers).1 ++ z) (sym (all h))
    ∙ e

send_to_all_lem :
    (answers : ℕ → List SendAnswer) (fds : List ℕ) (to_send : Bytes)
    → (send_to_all answers fds to_send).outcome ≡ returned true
    → (send_to_all answers fds to_send).wires ≡ map (λ fd. (fd, to_send)) fds
unfolding send_to_all
send_to_all_lem answers [] to_send h = refl
send_to_all_lem answers (fd ∷ fds) to_send h =
    ground (arith, h, handle_send_all to_send (answers fd), send_to_all_lem answers fds to_send)

send_to_lem :
    (answers : ℕ → List SendAnswer) (nodes : List ℕ) (fd : Option ℕ) (to_send : Bytes)
    → (send_to answers nodes fd to_send).outcome ≡ returned true
    → (send_to answers nodes fd to_send).wires ≡ map (λ node. (node, to_send)) (nodes_of nodes fd)
unfolding send_to
send_to_lem answers nodes none to_send h = send_to_all_lem answers nodes to_send h
send_to_lem answers nodes (some fd) to_send h =
    ap (λ z. (fd, z) ∷ []) (handle_send_all to_send (answers fd) h)

-- A packet is serialised, and send_packet returns true for it. Each of its recipients, which are all
-- connected nodes for a broadcast of the server, got all bytes of the packet, and nobody else got any.
pub send_packet-wires :
    (c : Connection) (answers : ℕ → List SendAnswer) (fd : Option ℕ) (to_send : Bytes) (n : ℕ)
    (r : Sent)
    → send_packet c answers fd (written to_send n) ≡ some r
    → r.outcome ≡ returned true
    → r.wires ≡ map (λ node. (node, to_send)) (recipients c fd)
unfolding send_packet
send_packet-wires c answers fd to_send n r e h =
    ground (arith, e, h, send_to_lem answers c.connected_nodes (packet_fd c fd) to_send)
