-- ===== src/Tests/Farms.antt =====
-- The farms of src/http/http_sync.cpp on a concrete table.
use mathlib.Core.Option.{none-ne-some}
use ssyncd.Common.{none, ℕ, List, ◌≡◌, true, [], ◌∷◌, ◌++◌, refl}
use ssyncd.Common.Bytes.{Bytes, codes}
use ssyncd.Common.Ordered.{bytes_ordered, nat_ordered}
use ssyncd.Http.Session.{clear_data}
use ssyncd.Http.Farms.{HttpSync, find_farm, get_farm_fd, remove_farm}
use ssyncd.Http.Farms.Registry.{remove_farm-remove_farm}
use ssyncd.Common.Map.{lookup, at_or}
use ssyncd.Http.Parser.RoundTrip.{frame}
use ssyncd.Http.Farms.Listening.{
  Listener, Event, readable, other_event, stored, end_of_stream, watch, listen_task,
}
use ssyncd.Http.Farms.Attribution.{
  IsAttributed, TurnIsAttributed, watch-IsAttributed, listen_task-IsAttributed,
}
use ssyncd.Connection.Send.{took, send_error}
use ssyncd.Sync.Writes.Sessions.{Call}
use ssyncd.Tests.Data.{no_action, http_action, http-IsSendable}

abbrev listener : HttpSync
listener = record {
  farms_fd = (5, codes "web") ∷ (9, codes "app") ∷ [];
  input_data = [];
  is_listener = true;
  is_running = true;
  closed = [];
}

remove_farm-remove_farm_example :
    (get_farm_fd (codes "web") (remove_farm no_action clear_data (codes "web") listener).0
      ≡ get_farm_fd (codes "web") listener)
    × ((remove_farm no_action clear_data
          (codes "web")
          (remove_farm no_action clear_data (codes "web") listener).0).1
        ≡ true)
    × ((remove_farm no_action clear_data
          (codes "web")
          (remove_farm no_action clear_data (codes "web") listener).0).0.closed
        ≡ ([] ++ (get_farm_fd (codes "web") listener ∷ []))
          ++ (get_farm_fd (codes "web") listener ∷ []))
unfolding remove_farm get_farm_fd find_farm
remove_farm-remove_farm_example =
    remove_farm-remove_farm no_action clear_data (codes "web") listener refl

-- The socket 5 of the farm "web" is watched: an action comes, and then the farm closes the socket.
abbrev idle : Listener
idle = record { farms = listener; event_data = [] }

abbrev watching : Listener
watching = watch 5 [] idle

abbrev events : List Event
events =
    readable 5 (stored (frame http_action http-IsSendable) ∷ [])
    ∷ readable 5 (end_of_stream ∷ [])
    ∷ other_event 5
    ∷ []

abbrev farm_of : ℕ → Bytes
farm_of fd = at_or [] fd listener.farms_fd

idle-IsAttributed : IsAttributed farm_of idle
unfolding lookup
idle-IsAttributed = record { buffers = λ fd c e. absurd (none-ne-some c e); farms = λ fd. refl }

listen_task-IsAttributed_example :
    TurnIsAttributed farm_of events watching (listen_task no_action clear_data 4 events watching)
listen_task-IsAttributed_example =
    listen_task-IsAttributed no_action clear_data 4 farm_of events watching
      (watch-IsAttributed farm_of 5 [] idle idle-IsAttributed)

-- The socket of the farm takes three bytes of the session and fails.
abbrev call : Call
call = record {
  socket = record {
    listen_fd = none;
    connected = true;
    get_flags = true;
    set_flags = true;
    watched = true;
  };
  answers = took 3 ∷ send_error ∷ [];
}
