-- ===== src/Sync/HttpData/Lookup.antt =====
-- What base_sync::apply_http_action of src/sync/base_sync.cpp does to each session.
use ssyncd.Common.{
  ℕ, ◌≡◌, refl, ◌∙◌, ap, true, ◌&&◌, Option, none, some, [], arith, if◌then◌else◌, Bool-cases, inl,
  inr,
}
use ssyncd.Common.Bytes.{Bytes}
use ssyncd.Common.Ordered.{bytes_ordered, nat_ordered, ◌==◌}
use ssyncd.Common.Map.{lookup, insert, at_or, lookup-insert}
use ssyncd.Http.Session.{
  HttpActionType, HttpSession, HttpAction, clear_data, sync_request, sess_add, sess_delete,
  sess_update, sess_write, bck_add, bck_delete, bck_update, other_action,
}
use ssyncd.Sync.HttpData.{
  Listeners, HttpData, has_service, add_session, delete_session, apply_http_action,
}
use ssyncd.Sync.HttpData.Listener.{
  session_of, session_in, session_added, session_in-add_session, session_in-delete_session,
}

-- The session of a key under a farm, a listener and a service.
unfoldable pub session_at : HttpData → Bytes → ℕ → ℕ → Bytes → Option HttpSession
unfolding at_or
session_at d farm listener service key = session_in listener service key (at_or [] farm d)

at_or-insert_farm :
    (k j : Bytes) (v : Listeners) (m : HttpData)
    → at_or [] j (insert k v m) ≡ (if k == j then v else at_or [] j m)
unfolding at_or
at_or-insert_farm k j v m = ground (arith, lookup-insert k j v m)

-- A farm is replaced.
session_at-insert :
    (farm : Bytes) (ls : Listeners) (d : HttpData) (f : Bytes) (l s : ℕ) (k : Bytes)
    → session_at (insert farm ls d) f l s k
      ≡ (if farm == f then session_in l s k ls else session_at d f l s k)
unfolding session_at
session_at-insert farm ls d f l s k = ground (arith, at_or-insert_farm farm f ls d)

session_in-nil : (l s : ℕ) (k : Bytes) → session_in l s k [] ≡ none
unfolding session_in session_of lookup at_or
session_in-nil l s k = refl

-- What an action asks for.
unfoldable pub session_after : HttpAction → HttpData → Bytes → ℕ → ℕ → Bytes → Option HttpSession
unfolding at_or has_service
session_after x d f l s k =
    let old = session_at d f l s k in
    let ls = at_or [] x.farm_name d in
    let added =
      (if x.farm_name == f then session_added x.listener x.service x.session ls l s k else old) in
    let here = (x.farm_name == f) in
    let this = here && ((x.listener == l) && ((x.service == s) && (x.session.key == k))) in
    elim x.action [
      | clear_data ↦ (if here then none else old)
      | sess_add ↦ added
      | sess_update ↦ added
      | sess_delete ↦ (if this then none else old)
      | _ ↦ old
    ]

add_lem :
    (x : HttpAction) (d : HttpData) (f : Bytes) (l s : ℕ) (k : Bytes)
    → session_at
        (insert x.farm_name (add_session x.listener x.service x.session (at_or [] x.farm_name d)) d)
        f
        l
        s
        k
      ≡ (if x.farm_name == f
          then session_added x.listener x.service x.session (at_or [] x.farm_name d) l s k
          else session_at d f l s k)
add_lem x d f l s k =
    let ls = at_or [] x.farm_name d in
    session_at-insert x.farm_name (add_session x.listener x.service x.session ls) d f l s k
    ∙ ap (λ z. if x.farm_name == f then z else session_at d f l s k)
        (session_in-add_session x.listener x.service x.session ls l s k)

delete_lem :
    (x : HttpAction) (d : HttpData) (f : Bytes) (l s : ℕ) (k : Bytes)
    → session_at
        (insert x.farm_name
          (delete_session x.listener x.service x.session.key (at_or [] x.farm_name d))
          d)
        f
        l
        s
        k
      ≡ (if (x.farm_name == f) && ((x.listener == l) && ((x.service == s) && (x.session.key == k)))
          then none
          else session_at d f l s k)
unfolding session_at
delete_lem x d f l s k =
    let ls = at_or [] x.farm_name d in
    let here = (x.listener == l) && ((x.service == s) && (x.session.key == k)) in
    session_at-insert x.farm_name (delete_session x.listener x.service x.session.key ls) d f l s k
    ∙ elim (Bool-cases (x.farm_name == f)) [
      | inl y ↦ rw y (
          session_in-delete_session x.listener x.service x.session.key ls l s k
          ∙ ap (λ z. if here then none else session_in l s k (at_or [] z d))
              ((bytes_ordered.eqb_iff x.farm_name f).0 y))
      | inr y ↦ rw y refl
    ]

abbrev pub with_action : HttpActionType → HttpAction → HttpAction
with_action t x = record x { action = t }

cases_lem :
    (t : HttpActionType) (d : HttpData) (x : HttpAction) (f : Bytes) (l s : ℕ) (k : Bytes)
    → (session_at (apply_http_action d (some (with_action t x))).0 f l s k
        ≡ session_after (with_action t x) d f l s k)
      × ((apply_http_action d (some (with_action t x))).1 ≡ true)
unfolding apply_http_action session_after
cases_lem clear_data d x f l s k =
    (session_at-insert x.farm_name [] d f l s k ∙ ground (arith, session_in-nil l s k), refl)
cases_lem sess_add d x f l s k = (add_lem x d f l s k, refl)
cases_lem sess_update d x f l s k = (add_lem x d f l s k, refl)
cases_lem sess_delete d x f l s k = (delete_lem x d f l s k, refl)
cases_lem sync_request d x f l s k = (refl, refl)
cases_lem sess_write d x f l s k = (refl, refl)
cases_lem bck_add d x f l s k = (refl, refl)
cases_lem bck_delete d x f l s k = (refl, refl)
cases_lem bck_update d x f l s k = (refl, refl)
cases_lem (other_action n) d x f l s k = (refl, refl)

-- `apply_http_action` leaves every session as the action asks. SESS_ADD and SESS_UPDATE set the
-- session of that key, and where the listener did not have that service they erase all the sessions
-- of the listener's other services. SESS_DELETE erases the one session, CLEAR_DATA those of the farm.
-- All other sessions, and all sessions under any other action, stay as they were. It reports success.
pub session_at-apply_http_action :
    (d : HttpData) (x : HttpAction) (farm : Bytes) (listener service : ℕ) (key : Bytes)
    → (session_at (apply_http_action d (some x)).0 farm listener service key
        ≡ session_after x d farm listener service key)
      × ((apply_http_action d (some x)).1 ≡ true)
session_at-apply_http_action d x farm listener service key =
    cases_lem x.action d x farm listener service key
