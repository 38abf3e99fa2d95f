-- ===== src/Connection/Events.antt =====
-- connection::start and the epoll loop of connection::receive_task in src/connection/connection.cpp. The
-- events and the answers of the system calls are arguments.
pub mod Reading
pub mod Nodes
pub mod Reader
pub mod Closing
use ssyncd.Common.{
  ℕ, ◌+◌, ◌-◌, Bool, true, false, Option, none, some, List, [], ◌∷◌, ◌++◌, map, length, take, drop,
  not, leb, is_empty, if◌then◌else◌,
}
use ssyncd.Common.Bytes.{Bytes}
use ssyncd.Common.Ordered.{nat_ordered}
use ssyncd.Common.Map.{Map, lookup, insert, erase}
use ssyncd.Connection.Cursor.{Read}
use ssyncd.Connection.Packet.{ConnPacket, PacketType, conn_packet, connect, disconnect}
use ssyncd.Connection.Receive.{
  ConnectionEventData, max_packet_size, clear_header, drain, stopped, crashed, unfinished,
}

-- What recv() answers while it does not answer EAGAIN, with which every list of answers ends.
pub data RecvAnswer : Type 0 where
  stored : Bytes → RecvAnswer
  end_of_stream recv_error : RecvAnswer

-- What accept() answers: a socket, with what the memory of its new connection_event_data holds and
-- whether epoll takes it.
pub data AcceptAnswer : Type 0 where
  accept_error : AcceptAnswer
  accepted : ℕ → Bytes → Bool → AcceptAnswer

-- An element of `events`: the listening socket of a server, or a socket by the fd in its
-- connection_event_data, with the first of EPOLLIN, EPOLLRDHUP or EPOLLHUP, and EPOLLERR that is set.
pub data Event : Type 0 where
  on_listen : AcceptAnswer → Event
  readable : ℕ → List RecvAnswer → Event
  hang_up : ℕ → Event
  error_event : Event

-- An element of input_packet_queue: made by the loop itself, or by the parser.
pub data Item {ℓ} (P : Type ℓ) : Type ℓ where
  made : ConnPacket → Item P
  parsed : P → Item P

-- class connection, as its thread uses it. `watched` is what epoll watches besides the listening
-- socket of a server: the connection_event_data by their fds, which is where the pointers in
-- `connected_nodes` lead. `input_packet_queue` is all that was ever enqueued, and `closed` the
-- sockets that were given to close().
pub record Node {ℓ} (P : Type ℓ) : Type ℓ where
  pub is_server : Bool
  pub is_running : Bool
  pub listen_fd : ℕ
  pub watched : Map ℕ ConnectionEventData
  pub connected_nodes : Map ℕ (Unit {0})
  pub input_packet_queue : List (Item P)
  pub closed : List ℕ

-- How a round of a loop ends: by the next one, by `break`, by exit(), by a read outside of memory, or
-- not in the given rounds.
pub data Turn {ℓ} (P : Type ℓ) : Type ℓ where
  goes_on breaks : Node P → Turn P
  exits crashes runs_on : Turn P

-- buffer_size += nread, after recv(fd, buffer + buffer_size, ...) stored `chunk`
unfoldable pub append_chunk : ConnectionEventData → Bytes → ConnectionEventData
append_chunk c chunk = record c {
  buffer = take c.buffer_size c.buffer ++ (chunk ++ drop (c.buffer_size + length chunk) c.buffer);
  buffer_size = c.buffer_size + length chunk;
}

-- What the loop of recv() leads to: the packets are parsed, or `nread` is -1, or 0.
pub data ReadEnd : Type 0 where
  readout read_error ended : ReadEnd

-- while ((nread = recv(...)) > 0). recv() is asked for no more than the free space, and answers 0
-- where that is 0.
unfoldable pub read_loop : ConnectionEventData → List RecvAnswer → ConnectionEventData × ReadEnd
unfolding append_chunk
read_loop c [] = (c, readout)
read_loop c (recv_error ∷ answers) = (c, read_error)
read_loop c (end_of_stream ∷ answers) = (c, ended)
read_loop c (stored bytes ∷ answers) =
    let chunk = take (max_packet_size - c.buffer_size) bytes in
    let more = read_loop (append_chunk c chunk) answers in
    if is_empty chunk
    then (c, ended)
    else if leb max_packet_size (length chunk)
    then (append_chunk c chunk, readout)
    else more

-- The memset in front of the loop.
unfoldable pub cleared : ConnectionEventData → ConnectionEventData
unfolding clear_header
cleared c = record c { buffer = clear_header c }

-- new connection_event_data
abbrev pub new_event_data : ℕ → Bytes → ConnectionEventData
new_event_data fd memory = record { fd = fd; buffer = memory; buffer_size = 0 }

module _ {ℓ} {P : Type ℓ} where
  -- new conn_packet() of this type and fd
  abbrev pub item : PacketType → ℕ → Item P
  item type fd = let p = conn_packet type in made (record p { fd = some fd })

  -- What connect() and fcntl() answer, and what the memory of a new connection_event_data holds.
  -- connection::start, with the lines of receive_task before its loop.
  unfoldable pub start : Bool → Bool → Bytes → Node P → Turn P
  start connected options memory s =
      let watching : Node P = record s {
        is_running = true;
        watched = insert s.listen_fd (new_event_data s.listen_fd memory) [];
      } in
      if s.is_server
      then goes_on (record s { is_running = true })
      else if not connected
      then breaks (record s { is_running = false })
      else if options
      then goes_on watching
      else exits

  unfoldable pub put : ℕ → ConnectionEventData → Node P → Node P
  put fd c s = record s { watched = insert fd c s.watched }

  unfoldable pub enqueue : List (Item P) → Node P → Node P
  enqueue items s = record s { input_packet_queue = s.input_packet_queue ++ items }

  -- The listening socket is ready.
  unfoldable pub handle_accept : AcceptAnswer → Node P → Turn P
  unfolding put enqueue
  handle_accept accept_error s = breaks s
  handle_accept (accepted fd memory added) s =
      let s' = put fd (new_event_data fd memory) s in
      let s'' : Node P = record s' { connected_nodes = insert fd tt s.connected_nodes } in
      if added then goes_on (enqueue (item connect fd ∷ []) s'') else exits

  -- The peer is gone. A close() that fails is reported.
  unfoldable pub lose_peer : ℕ → Node P → Turn P
  unfolding enqueue
  lose_peer fd s =
      let s' = enqueue (item disconnect fd ∷ []) s in
      if s.is_server
      then goes_on (record s' {
        connected_nodes = erase fd s.connected_nodes;
        watched = erase fd s.watched;
        closed = s.closed ++ (fd ∷ []);
      })
      else breaks (record s' { is_running = false; closed = s.closed ++ (s.listen_fd ∷ []) })

  module _ (parse : ℕ → Bytes → Read (Option P)) (set_fd : ℕ → P → P) (fuel : ℕ) where
    -- The loop over the packets of a buffer that was read out.
    unfoldable pub parse_buffer : ℕ → ConnectionEventData → Node P → Turn P
    unfolding drain put enqueue
    parse_buffer fd c s = elim (drain parse set_fd fuel c) [
      | stopped c' packets ↦ goes_on (put fd c' (enqueue (map parsed packets) s))
      | crashed ↦ crashes
      | unfinished packets ↦ runs_on
    ]

    -- What follows a loop of recv() that ended like this.
    unfoldable pub after_read : ℕ → ReadEnd → ConnectionEventData → Node P → Turn P
    unfolding parse_buffer lose_peer put
    after_read fd readout c s = parse_buffer fd c s
    after_read fd read_error c s = goes_on (put fd c s)
    after_read fd ended c s = lose_peer fd (put fd c s)

    -- The socket is readable.
    unfoldable pub handle_read : ℕ → List RecvAnswer → Node P → Turn P
    unfolding read_loop cleared after_read
    handle_read fd answers s = elim (lookup fd s.watched) [
      | none ↦ crashes
      | some c ↦ let (c', end) = read_loop (cleared c) answers in after_read fd end c' s
    ]

    -- The body of the loop over the events. Only a server watches a listening socket.
    unfoldable pub handle_event : Event → Node P → Turn P
    unfolding handle_accept handle_read lose_peer
    handle_event (on_listen answer) s = if s.is_server then handle_accept answer s else crashes
    handle_event (readable fd answers) s = handle_read fd answers s
    handle_event (hang_up fd) s = lose_peer fd s
    handle_event error_event s = goes_on s

    -- The events of an epoll_wait(); after a `break` the others are passed over.
    unfoldable pub handle_events : List Event → Node P → Turn P
    unfolding handle_event
    handle_events [] s = goes_on s
    handle_events (event ∷ events) s = elim (handle_event event s) [
      | goes_on s' ↦ handle_events events s'
      | breaks s' ↦ goes_on s'
      | exits ↦ exits
      | crashes ↦ crashes
      | runs_on ↦ runs_on
    ]

    -- while (cnt.is_running), with the events of each epoll_wait(); one that fails has none.
    unfoldable pub receive_task : List (List Event) → Node P → Turn P
    unfolding handle_events
    receive_task [] s = goes_on s
    receive_task (events ∷ rest) s =
        if s.is_running
        then elim (handle_events events s) [
          | goes_on s' ↦ receive_task rest s'
          | breaks s' ↦ breaks s'
          | exits ↦ exits
          | crashes ↦ crashes
          | runs_on ↦ runs_on
        ]
        else breaks (record s { closed = s.closed ++ (s.listen_fd ∷ []) })
