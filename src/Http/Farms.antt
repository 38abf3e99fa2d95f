-- ===== src/Http/Farms.antt =====
-- src/http/http_sync.h and http_sync.cpp: the sockets of the farms' HTTP daemons.
pub mod Registry
pub mod Listening
pub mod Buffers
pub mod Attribution
use ssyncd.Common.{
  ℕ, zero, suc, ◌-◌, ◌*◌, Bool, true, false, not, Option, none, some, List, [], ◌∷◌, ◌++◌, take,
  drop, leb, unsigned_sub, ◌+◌, if◌then◌else◌,
}
use ssyncd.Common.Bytes.{Bytes}
use ssyncd.Common.Ordered.{bytes_ordered, nat_ordered, ◌==◌}
use ssyncd.Common.Map.{Map, insert, at_or}
use ssyncd.Connection.Cursor.{Read, fault, got}
use ssyncd.Connection.Packet.{ConnPacket, PacketType, connect, disconnect}
use ssyncd.Connection.PacketParser.{Serialized, written, refused, raised}
use ssyncd.Connection.Receive.{
  max_packet_size, ConnectionEventData, Drained, stopped, crashed, unfinished, enqueued,
}
use ssyncd.Connection.Send.{SendAnswer, Outcome, returned, waiting, send_loop}
use ssyncd.Http.Session.{HttpAction, HttpActionType, Indeterminate, new_http_action, clear_data}
use ssyncd.Http.Parser.{serialize_http, deserialize_http}

-- HTTP_MAX_PACKET_SIZE
abbrev pub http_max_packet_size : ℕ
http_max_packet_size = 65350 * 100

-- class http_sync, and the sockets that it closed, in order.
pub record HttpSync : Type 0 where
  pub farms_fd : Map ℕ Bytes
  pub input_data : List HttpAction
  pub is_listener : Bool
  pub is_running : Bool
  pub closed : List ℕ

-- The loop of http_sync::get_farm_fd: the last match wins.
unfoldable pub find_farm : Bytes → ℕ → Map ℕ Bytes → ℕ
find_farm farm_name fd [] = fd
find_farm farm_name fd ((farm_fd, name) ∷ m) =
    find_farm farm_name (if name == farm_name then farm_fd else fd) m

-- http_sync::get_farm_fd
unfoldable pub get_farm_fd : Bytes → HttpSync → ℕ
unfolding find_farm
get_farm_fd farm_name s = find_farm farm_name 0 s.farms_fd

-- A new http_action of this packet type. Its action is indeterminate.
unfoldable pub farm_event : Indeterminate → HttpActionType → PacketType → Bytes → ℕ → HttpAction
farm_event g action type farm_name fd =
    let x = new_http_action g action in
    let p = x.pkt in
    record x { pkt = record p { type = type; fd = some fd }; farm_name = farm_name }

-- What the system calls of add_farm answer: socket(), and whether connect(), the two fcntl() and
-- epoll_ctl() work.
pub record FarmSocket : Type 0 where
  pub listen_fd : Option ℕ
  pub connected : Bool
  pub get_flags : Bool
  pub set_flags : Bool
  pub watched : Bool

-- http_sync::add_farm
unfoldable pub add_farm :
    Indeterminate → HttpActionType → FarmSocket → Bytes → HttpSync → HttpSync × Bool
unfolding farm_event
add_farm g action os farm_name s = elim os.listen_fd [
  | none ↦ (s, false)
  | some listen_fd ↦
      (if not os.connected
        then (s, false)
        else if not os.get_flags
        then (s, false)
        else if not os.set_flags
        then (s, false)
        else if not os.watched
        then (s, false)
        else (
          record s {
            farms_fd = insert listen_fd farm_name s.farms_fd;
            input_data = s.input_data ++ (farm_event g action connect farm_name listen_fd ∷ []);
          },
          true,
        ))
]

-- http_sync::remove_farm
unfoldable pub remove_farm : Indeterminate → HttpActionType → Bytes → HttpSync → HttpSync × Bool
unfolding farm_event get_farm_fd
remove_farm g action farm_name s =
    let fd = get_farm_fd farm_name s in
    if fd == 0 then (s, false) else (
      record s {
        input_data = s.input_data ++ (farm_event g action disconnect farm_name fd ∷ []);
        closed = s.closed ++ (fd ∷ []);
      },
      true,
    )

-- http_sync::peer_disconnect_handler. A socket without a farm gets one without a name.
unfoldable pub peer_disconnect_handler : Indeterminate → HttpActionType → ℕ → HttpSync → HttpSync
unfolding farm_event at_or
peer_disconnect_handler g action fd s =
    let name = at_or [] fd s.farms_fd in
    record s {
      farms_fd = insert fd name s.farms_fd;
      input_data = s.input_data ++ (farm_event g action disconnect name fd ∷ []);
      closed = s.closed ++ (fd ∷ []);
    }

-- http_sync::send_pound_action once the farm is there: how the call ends, and the bytes that the
-- farm's socket took. `none` is an exception of the parser.
unfoldable pub send_action :
    Bytes → HttpAction → List SendAnswer → HttpSync → Option (Outcome × Bytes)
unfolding get_farm_fd
send_action farm_name x answers s =
    let p = x.pkt in
    let x' = record x {
      pkt = record p { fd = some (get_farm_fd farm_name s) };
      farm_name = farm_name;
    } in
    elim (serialize_http x') [
      | written to_send n ↦ some (send_loop to_send 0 answers)
      | refused ↦ some (returned true, [])
      | raised ↦ none
    ]

-- http_sync::send_pound_action
unfoldable pub send_pound_action :
    Indeterminate
    → HttpActionType
    → FarmSocket
    → Bytes
    → HttpAction
    → List SendAnswer
    → HttpSync
    → HttpSync × Option (Outcome × Bytes)
unfolding send_action add_farm get_farm_fd
send_pound_action g action os farm_name x answers s =
    if get_farm_fd farm_name s == 0
    then (let (s', ok) = add_farm g action os farm_name s in
        if ok then (s', send_action farm_name x answers s') else (s', some (returned false, [])))
    else (s, send_action farm_name x answers s)

-- http_sync::start and ::stop, where the thread starts
abbrev pub start : HttpSync → HttpSync
start s = record s { is_running = true }

abbrev pub stop : HttpSync → HttpSync
stop s = record s { is_running = false }

-- buffer_size -= buffer_used, and the memmove where its condition holds. `none` is a memmove that reads
-- behind the array of connection_event_data: where `used` exceeds buffer_size, the difference wraps
-- around.
unfoldable pub consume_action : ConnectionEventData → ℕ → Option ConnectionEventData
consume_action c used =
    let left = unsigned_sub c.buffer_size used in
    if leb used (unsigned_sub http_max_packet_size left)
    then (if leb (used + left) max_packet_size
        then some (record c {
          buffer = take left (drop used c.buffer) ++ drop left c.buffer;
          buffer_size = left;
        })
        else none)
    else some (record c { buffer_size = left })

-- action->farm_name = farms_fd[fd]; action->fd = fd
unfoldable pub from_farm : ℕ → Bytes → HttpAction → HttpAction
from_farm fd farm_name x =
    let p = x.pkt in record x { pkt = record p { fd = some fd }; farm_name = farm_name }

-- The loop of http_sync::listen_task over the actions in a buffer. It ends at the first nullptr.
unfoldable pub drain_http : Indeterminate → Bytes → ℕ → ConnectionEventData → Drained HttpAction
unfolding consume_action from_farm
drain_http g farm_name zero c = unfinished []
drain_http g farm_name (suc fuel) c = elim (deserialize_http g c.buffer_size c.buffer) [
  | fault ↦ crashed
  | got none used rest ↦ stopped c []
  | got (some x) used rest ↦ elim (consume_action c used) [
    | none ↦ crashed
    | some c' ↦ enqueued (from_farm c.fd farm_name x ∷ []) (drain_http g farm_name fuel c')
  ]
]
