-- ===== src/Http/Farms/Listening.antt =====
-- The epoll loop of http_sync::listen_task in src/http/http_sync.cpp. The events and the answers of
-- recv() are arguments.
use ssyncd.Common.{
  ℕ, ◌+◌, ◌-◌, Bool, none, some, List, [], ◌∷◌, ◌++◌, length, take, drop, ltb, leb, is_empty,
  if◌then◌else◌,
}
use ssyncd.Common.Bytes.{Bytes}
use ssyncd.Common.Ordered.{nat_ordered}
use ssyncd.Common.Map.{Map, lookup, insert, at_or}
use ssyncd.Connection.Receive.{ConnectionEventData, stopped, crashed, unfinished}
use ssyncd.Connection.Events.{append_chunk, new_event_data}
use ssyncd.Http.Session.{HttpAction, HttpActionType, Indeterminate}
use ssyncd.Http.Farms.{HttpSync, http_max_packet_size, peer_disconnect_handler, drain_http}

-- What recv() answers while it does not answer EAGAIN, with which every list of answers ends. An error
-- is ECONNRESET or not.
pub data RecvAnswer : Type 0 where
  stored : Bytes → RecvAnswer
  end_of_stream : RecvAnswer
  recv_error : Bool → RecvAnswer

-- What follows the loop of recv(): its last answer was 0 or an error, or the actions are read.
pub data ReadEnd : Type 0 where
  readout ended : ReadEnd
  failed : Bool → ReadEnd

-- An element of `events`, with the fd in its connection_event_data: EPOLLIN is set, or it is not.
pub data Event : Type 0 where
  readable : ℕ → List RecvAnswer → Event
  other_event : ℕ → Event

-- class http_sync, with the connection_event_data that add_farm registered, by their fds. They outlive
-- the sockets.
pub record Listener : Type 0 where
  pub farms : HttpSync
  pub event_data : Map ℕ ConnectionEventData

-- The part of add_farm that registers a socket. `memory` is what the new buffer happens to hold.
unfoldable pub watch : ℕ → Bytes → Listener → Listener
watch fd memory l = record l { event_data = insert fd (new_event_data fd memory) l.event_data }

-- How the handling of an event ends: it is over, it reads outside of memory, or its loop over the
-- actions does not end in the given rounds.
pub data Turn : Type 0 where
  goes_on : Listener → Turn
  crashes runs_on : Turn

-- while ((received = recv(...)) > 0)
unfoldable pub read_loop : ConnectionEventData → List RecvAnswer → ConnectionEventData × ReadEnd
unfolding append_chunk
read_loop c [] = (c, readout)
read_loop c (recv_error reset ∷ answers) = (c, failed reset)
read_loop c (end_of_stream ∷ answers) = (c, ended)
read_loop c (stored bytes ∷ answers) =
    let chunk = take (http_max_packet_size - c.buffer_size) bytes in
    let more = read_loop (append_chunk c chunk) answers in
    if is_empty chunk
    then (c, ended)
    else if leb http_max_packet_size (length chunk)
    then (append_chunk c chunk, readout)
    else more

-- The memset in front of the loop.
unfoldable pub cleared : ConnectionEventData → ConnectionEventData
cleared c =
    if ltb 4 (http_max_packet_size - c.buffer_size)
    then record c {
      buffer =
          take c.buffer_size c.buffer ++ (0 ∷ 0 ∷ 0 ∷ 0 ∷ 0 ∷ drop (c.buffer_size + 5) c.buffer);
    }
    else c

unfoldable pub put : ℕ → ConnectionEventData → Listener → Listener
put fd c l = record l { event_data = insert fd c l.event_data }

-- The actions that were read, in input_data. For each of them farms_fd[fd] is looked up, which makes
-- an entry without a name where there is none.
unfoldable pub enqueue_actions : ℕ → List HttpAction → HttpSync → HttpSync
unfolding at_or
enqueue_actions fd [] s = s
enqueue_actions fd (x ∷ xs) s = record s {
  farms_fd = insert fd (at_or [] fd s.farms_fd) s.farms_fd;
  input_data = s.input_data ++ (x ∷ xs);
}

module _ (g : Indeterminate) (action : HttpActionType) (fuel : ℕ) where
  -- The loop over the actions, where there are bytes.
  unfoldable pub read_actions : ℕ → ConnectionEventData → Listener → Turn
  unfolding drain_http put enqueue_actions
  read_actions fd c l =
      elim (if ltb 0 c.buffer_size
        then drain_http g (at_or [] fd l.farms.farms_fd) fuel c
        else stopped c []) [
          | stopped c' xs ↦ goes_on (record (put fd c' l) { farms = enqueue_actions fd xs l.farms })
          | crashed ↦ crashes
          | unfinished xs ↦ runs_on
        ]

  -- What follows a loop of recv() that ended like this.
  unfoldable pub after_read : ℕ → ReadEnd → ConnectionEventData → Listener → Turn
  unfolding read_actions put peer_disconnect_handler
  after_read fd readout c l = read_actions fd c l
  after_read fd ended c l =
      goes_on (record (put fd c l) { farms = peer_disconnect_handler g action fd l.farms })
  after_read fd (failed reset) c l = goes_on (
      if reset
      then record (put fd c l) { farms = peer_disconnect_handler g action fd l.farms }
      else put fd c l)

  -- The body of the loop over the events.
  unfoldable pub handle_event : Event → Listener → Turn
  unfolding read_loop cleared after_read
  handle_event (other_event fd) l = goes_on l
  handle_event (readable fd answers) l = elim (lookup fd l.event_data) [
    | none ↦ crashes
    | some c ↦ let (c', end) = read_loop (cleared c) answers in after_read fd end c' l
  ]

  -- The events of any number of calls of epoll_wait(), while is_running.
  unfoldable pub listen_task : List Event → Listener → Turn
  unfolding handle_event
  listen_task [] l = goes_on l
  listen_task (event ∷ events) l = elim (handle_event event l) [
    | goes_on l' ↦ listen_task events l'
    | crashes ↦ crashes
    | runs_on ↦ runs_on
  ]
