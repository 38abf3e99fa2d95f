-- ===== src/Sync/HttpData.antt =====
-- The `http_session_data` of src/sync/base_sync.cpp: the sessions of each farm, listener, service.
pub mod Listener
pub mod Lookup
pub mod Single
use ssyncd.Common.{
  ℕ, Bool, true, false, ◌&&◌, ◌||◌, not, Option, none, some, List, [], ◌∷◌, if◌then◌else◌,
}
use ssyncd.Common.Bytes.{Bytes}
use ssyncd.Common.Ordered.{bytes_ordered, nat_ordered}
use ssyncd.Common.Map.{Map, lookup, insert, erase, at_or, has}
use ssyncd.Http.Session.{
  HttpActionType, HttpSession, HttpService, HttpAction, clear_data, sync_request, sess_add,
  sess_delete, sess_update, sess_write, bck_add, bck_delete, bck_update, other_action,
}

abbrev pub Services : Type 0
Services = Map ℕ HttpService

abbrev pub Listeners : Type 0
Listeners = Map ℕ Services

abbrev pub HttpData : Type 0
HttpData = Map Bytes Listeners

-- http_service()
abbrev pub new_service : HttpService
new_service = record { sessions = [] }

-- sessions[session.key] = session
unfoldable pub put_session : HttpSession → HttpService → HttpService
put_session session v = record v { sessions = insert session.key session v.sessions }

unfoldable pub erase_session : Bytes → HttpService → HttpService
erase_session key v = record v { sessions = erase key v.sessions }

-- Whether the farm has the listener, and the listener the service.
unfoldable pub has_service : ℕ → ℕ → Listeners → Bool
unfolding has at_or
has_service listener service ls = has listener ls && has service (at_or [] listener ls)

-- The services of the listener after the check of SESS_ADD: those it has, or else the new one alone.
unfoldable pub services_to_add : ℕ → ℕ → Listeners → Services
unfolding has_service at_or
services_to_add listener service ls =
    if has_service listener service ls then at_or [] listener ls else (service, new_service) ∷ []

-- The case SESS_ADD, in the farm.
unfoldable pub add_session : ℕ → ℕ → HttpSession → Listeners → Listeners
unfolding services_to_add at_or put_session
add_session listener service session ls =
    let m = services_to_add listener service ls in
    insert listener (insert service (put_session session (at_or new_service service m)) m) ls

-- The case SESS_DELETE, in the farm.
unfoldable pub delete_session : ℕ → ℕ → Bytes → Listeners → Listeners
unfolding has_service at_or has erase_session
delete_session listener service key ls =
    let m = at_or [] listener ls in
    let v = at_or new_service service m in
    if has_service listener service ls && has key v.sessions
    then insert listener (insert service (erase_session key v) m) ls
    else ls

-- base_sync::apply_http_action: the data, and the result. `none` is a null pointer. The farm is made
-- where `http_session_data[action->farm_name]` reads it.
unfoldable pub apply_http_action : HttpData → Option HttpAction → HttpData × Bool
unfolding add_session delete_session at_or
apply_http_action d none = (d, false)
apply_http_action d (some x) =
    let farm = at_or [] x.farm_name d in
    elim x.action [
      | clear_data ↦ (insert x.farm_name [] d, true)
      | sess_write ↦ (d, true)
      | sync_request ↦ (d, true)
      | sess_update ↦ (insert x.farm_name (add_session x.listener x.service x.session farm) d, true)
      | sess_add ↦ (insert x.farm_name (add_session x.listener x.service x.session farm) d, true)
      | sess_delete ↦
          (insert x.farm_name (delete_session x.listener x.service x.session.key farm) d, true)
      | bck_add ↦ (d, true)
      | bck_delete ↦ (d, true)
      | bck_update ↦ (d, true)
      | other_action n ↦ (d, true)
    ]

-- base_sync::clear_http_farm_data
unfoldable pub clear_http_farm_data : Bytes → HttpData → HttpData
unfolding has
clear_http_farm_data farm_name d = if has farm_name d then insert farm_name [] d else d

-- The loop of a node that applies actions one after the other.
unfoldable pub apply_http_all : HttpData → List HttpAction → HttpData
apply_http_all d [] = d
apply_http_all d (x ∷ xs) = apply_http_all (apply_http_action d (some x)).0 xs
