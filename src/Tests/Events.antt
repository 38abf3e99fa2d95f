-- ===== src/Tests/Events.antt =====
-- The epoll loop of src/connection and the queue of src/helpers on concrete events.
use ssyncd.Common.{
  inl, leb, if◌then◌else◌, ℕ, ◌≡◌, refl, true, Option, none, some, List, [], ◌∷◌, arith,
}
use ssyncd.Common.Bytes.{Bytes}
use ssyncd.Common.Ordered.{nat_ordered}
use ssyncd.Common.Map.{has, insert, lookup}
use ssyncd.Helpers.SafeQueue.{
  SafeQueue, new_queue, Reach, here, next, enqueues, calls, dequeues, enqueue, call_dequeue,
  dequeue,
}
use ssyncd.Helpers.SafeQueue.Order.{IsOrdered, Reach-IsOrdered}
use ssyncd.Connection.Cursor.{Read, got}
use ssyncd.Connection.Packet.{ConnPacket, conn_packet, connect, disconnect, sync_request}
use ssyncd.Connection.Events.{
  Node, Event, on_listen, readable, hang_up, accepted, stored, item, read_loop, receive_task,
  handle_event, goes_on, parsed,
}
use ssyncd.Connection.Events.Reading.{IsBuffer, read_loop-IsBuffer}
use ssyncd.Connection.Events.Nodes.{
  TurnIsConsistent, new_server-IsConsistent, receive_task-IsConsistent,
}
use ssyncd.Connection.Events.Reader.{read_all, receive_task-read_all}
use ssyncd.Connection.Events.Closing.{Enqueues, last_words, readable-last_words}
use ssyncd.Tests.Data.{empty_buffer}

-- An item goes in, and a thread takes it.
taken : SafeQueue ℕ
taken = dequeue (call_dequeue (enqueue 7 new_queue))

taken_reached : Reach new_queue taken
unfolding taken enqueue call_dequeue
taken_reached = next (next (next here (enqueues 7 refl)) (calls refl)) (dequeues (omega arith) refl)

Reach-IsOrdered_example : IsOrdered taken
Reach-IsOrdered_example = Reach-IsOrdered taken_reached

abbrev no_packets : ℕ → Bytes → Read (Option ℕ)
no_packets size buffer = got none 0 []

abbrev keep : ℕ → ℕ → ℕ
keep fd p = p

abbrev server : Node ℕ
server = record {
  is_server = true;
  is_running = true;
  listen_fd = 3;
  watched = [];
  connected_nodes = [];
  input_packet_queue = [];
  closed = [];
}

abbrev rounds : List (List Event)
rounds =
    (on_listen (accepted 8 [] true) ∷ [])
    ∷ (readable 8 (stored (1 ∷ []) ∷ []) ∷ [])
    ∷ (hang_up 8 ∷ [])
    ∷ []

receive_task-IsConsistent_example : TurnIsConsistent (receive_task no_packets keep 4 rounds server)
receive_task-IsConsistent_example =
    receive_task-IsConsistent no_packets keep 4 rounds server
      (new_server-IsConsistent server refl refl refl refl)

-- A node connects, and sends a packet of five bytes, which is a SYNC_REQUEST.
abbrev five_bytes : ℕ → Bytes → Read (Option ℕ)
five_bytes size buffer = if leb 5 size then got (some size) 5 [] else got none 0 []

abbrev requests : ℕ → ConnPacket
requests n = conn_packet sync_request

abbrev asking : List (List Event)
asking =
    (on_listen (accepted 8 [] true) ∷ [])
    ∷ (readable 8 (stored (7 ∷ 7 ∷ 8 ∷ 0 ∷ 0 ∷ []) ∷ []) ∷ [])
    ∷ []

abbrev asked : Node ℕ
asked = record server {
  watched = (8, record { fd = 8; buffer = 7 ∷ 7 ∷ 8 ∷ 0 ∷ 0 ∷ []; buffer_size = 0 }) ∷ [];
  connected_nodes = (8, tt) ∷ [];
  input_packet_queue = item connect 8 ∷ parsed 5 ∷ [];
}

is_asked : receive_task five_bytes keep 4 asking server ≡ goes_on asked
unfolding receive_task lookup insert
is_asked = refl

receive_task-read_all_example :
    (read_all requests [] asked.input_packet_queue ≡ asked.connected_nodes)
    × ((fd : ℕ) → has fd asked.watched ≡ has fd (read_all requests [] asked.input_packet_queue))
receive_task-read_all_example =
    receive_task-read_all requests five_bytes keep 4 asking server asked
      (new_server-IsConsistent server refl refl refl refl) (inl is_asked) (tt, tt)

read_loop-IsBuffer_example : IsBuffer 8 (read_loop empty_buffer (stored (1 ∷ 2 ∷ []) ∷ [])).0
read_loop-IsBuffer_example =
    read_loop-IsBuffer 8 empty_buffer (stored (1 ∷ 2 ∷ []) ∷ [])
      (record { owner = refl; bound = omega arith })

abbrev watching : Node ℕ
watching = record server { watched = (8, empty_buffer) ∷ [] }

watched : lookup 8 watching.watched ≡ some empty_buffer
unfolding lookup
watched = refl

readable-last_words_example :
    Enqueues watching
      (item disconnect 8)
      (handle_event no_packets keep 4 (readable 8 (last_words ((1 ∷ []) ∷ (2 ∷ []) ∷ []))) watching)
readable-last_words_example =
    readable-last_words no_packets keep 4 8 ((1 ∷ []) ∷ (2 ∷ []) ∷ []) empty_buffer watching watched
      (omega arith)
