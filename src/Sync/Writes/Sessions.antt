-- ===== src/Sync/Writes/Sessions.antt =====
-- base_sync::write_http_data of src/sync/base_sync.cpp: the HTTP sessions that a node gives to its farms.
use ssyncd.Common.{
  ℕ, suc, Bool, true, false, not, Option, none, some, List, [], ◌∷◌, ◌++◌, if◌then◌else◌,
}
use ssyncd.Common.Bytes.{Bytes}
use ssyncd.Common.Map.{Map}
use ssyncd.Connection.Send.{SendAnswer, Outcome, returned, waiting}
use ssyncd.Http.Session.{
  HttpAction, HttpActionType, HttpSession, Indeterminate, new_http_action, sess_write,
}
use ssyncd.Http.Farms.{HttpSync, FarmSocket, start, send_pound_action}
use ssyncd.Sync.HttpData.{Services, Listeners, HttpData}

-- The actions that the four loops give to send_pound_action, each with its farm. The code has one object
-- whose fields it sets before each call; its fd and farm_name are set by send_pound_action.
unfoldable pub session_writes :
    Indeterminate → Bytes → ℕ → ℕ → Map Bytes HttpSession → List (Bytes × HttpAction)
session_writes g farm listener service [] = []
session_writes g farm listener service ((key, session) ∷ m) =
    let action_ = new_http_action g sess_write in
    (
      farm,
      record action_ {
        listener = listener;
        service = service;
        session = session;
        backend = session.backend_id;
      },
    )
    ∷ session_writes g farm listener service m

unfoldable pub service_writes : Indeterminate → Bytes → ℕ → Services → List (Bytes × HttpAction)
unfolding session_writes
service_writes g farm listener [] = []
service_writes g farm listener ((service, v) ∷ m) =
    session_writes g farm listener service v.sessions ++ service_writes g farm listener m

unfoldable pub listener_writes : Indeterminate → Bytes → Listeners → List (Bytes × HttpAction)
unfolding service_writes
listener_writes g farm [] = []
listener_writes g farm ((listener, v) ∷ m) =
    service_writes g farm listener v ++ listener_writes g farm m

unfoldable pub all_writes : Indeterminate → HttpData → List (Bytes × HttpAction)
unfolding listener_writes
all_writes g [] = []
all_writes g ((farm, v) ∷ m) = listener_writes g farm v ++ all_writes g m

-- What a call of send_pound_action meets: the socket that it may make, and the answers of send().
pub record Call : Type 0 where
  pub socket : FarmSocket
  pub answers : List SendAnswer

-- How the loops end, with what each call did: the farm, its outcome, and the bytes that its socket took.
-- A call may wait for ever, and the parser may raise an exception.
pub data Sending : Type 0 where
  done : HttpSync → List (Bytes × (Outcome × Bytes)) → Sending
  waits raises : Sending

-- The result of a call is not looked at.
abbrev pub and_then : Bytes → Option (Outcome × Bytes) → Sending → Sending
and_then farm none rest = raises
and_then farm (some (waiting, bytes)) rest = waits
and_then farm (some (returned ok, bytes)) (done s out) = done s ((farm, (returned ok, bytes)) ∷ out)
and_then farm (some (returned ok, bytes)) waits = waits
and_then farm (some (returned ok, bytes)) raises = raises

module _ (g : Indeterminate) (type : HttpActionType) (calls : ℕ → Call) where
  unfoldable pub send_all : ℕ → List (Bytes × HttpAction) → HttpSync → Sending
  unfolding send_pound_action
  send_all n [] s = done s []
  send_all n ((farm, x) ∷ xs) s =
      let (s', r) = send_pound_action g type (calls n).socket farm x (calls n).answers s in
      and_then farm r (send_all (suc n) xs s')

  -- base_sync::write_http_data. init() always works, and start() sets is_running first.
  unfoldable pub write_http_data : HttpData → HttpSync → Sending × Bool
  unfolding send_all all_writes
  write_http_data d s =
      let s' = (if not s.is_running then start s else s) in
      if s'.is_running then (send_all 0 (all_writes g d) s', true) else (done s' [], false)
