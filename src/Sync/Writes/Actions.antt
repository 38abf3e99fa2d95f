-- ===== src/Sync/Writes/Actions.antt =====
-- The actions of base_sync::write_http_data of src/sync/base_sync.cpp are those of
-- sync_master::handle_http_sync of src/sync/sync_master.cpp.
use ssyncd.Common.{ℕ, ◌≡◌, refl, ap, List, [], ◌∷◌, ◌++◌, map}
use ssyncd.Common.Bytes.{Bytes}
use ssyncd.Common.Map.{Map}
use ssyncd.Http.Session.{HttpAction, HttpSession, Indeterminate, sess_write}
use ssyncd.Sync.HttpData.{Services, Listeners, HttpData}
use ssyncd.Sync.Master.{session_actions, service_actions, listener_actions, all_http_actions}
use ssyncd.Sync.Writes.Sessions.{session_writes, service_writes, listener_writes, all_writes}

-- The action for a farm that has the content of an action for a node.
abbrev pub as_write : HttpAction → Bytes × HttpAction
as_write x = (x.farm_name, record x { action = sess_write; farm_name = [] })

module _ {A : Type 0} {B : Type 0} where
  map-append : (f : A → B) (xs ys : List A) → map f (xs ++ ys) ≡ map f xs ++ map f ys
  map-append f [] ys = refl
  map-append f (x ∷ xs) ys = ap (λ z. f x ∷ z) (map-append f xs ys)

session_writes_lem :
    (g : Indeterminate) (farm : Bytes) (listener service : ℕ) (m : Map Bytes HttpSession)
    → session_writes g farm listener service m
      ≡ map as_write (session_actions g farm listener service m)
unfolding session_writes session_actions
session_writes_lem g farm listener service [] = refl
session_writes_lem g farm listener service ((key, v) ∷ m) =
    cc (session_writes_lem g farm listener service m)

service_writes_lem :
    (g : Indeterminate) (farm : Bytes) (listener : ℕ) (m : Services)
    → service_writes g farm listener m ≡ map as_write (service_actions g farm listener m)
unfolding service_writes service_actions
service_writes_lem g farm listener [] = refl
service_writes_lem g farm listener ((service, v) ∷ m) = cc (
  session_writes_lem g farm listener service v.sessions,
  service_writes_lem g farm listener m,
  map-append as_write (session_actions g farm listener service v.sessions)
      (service_actions g farm listener m),
)

listener_writes_lem :
    (g : Indeterminate) (farm : Bytes) (m : Listeners)
    → listener_writes g farm m ≡ map as_write (listener_actions g farm m)
unfolding listener_writes listener_actions
listener_writes_lem g farm [] = refl
listener_writes_lem g farm ((listener, v) ∷ m) = cc (
  service_writes_lem g farm listener v,
  listener_writes_lem g farm m,
  map-append as_write (service_actions g farm listener v) (listener_actions g farm m),
)

pub all_writes_lem :
    (g : Indeterminate) (d : HttpData) → all_writes g d ≡ map as_write (all_http_actions g d)
unfolding all_writes all_http_actions
all_writes_lem g [] = refl
all_writes_lem g ((farm, v) ∷ m) = cc (
  listener_writes_lem g farm v,
  all_writes_lem g m,
  map-append as_write (listener_actions g farm v) (all_http_actions g m),
)
