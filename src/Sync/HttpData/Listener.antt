-- ===== src/Sync/HttpData/Listener.antt =====
-- What the cases SESS_ADD and SESS_DELETE of src/sync/base_sync.cpp do within a farm.
use ssyncd.Common.{
  ℕ, ◌≡◌, refl, sym, ◌∙◌, false, ◌&&◌, not, Option, none, some, [], arith, if◌then◌else◌,
  Bool-cases, inl, inr,
}
use ssyncd.Common.Bytes.{Bytes}
use ssyncd.Common.Ordered.{bytes_ordered, nat_ordered, ◌==◌}
use ssyncd.Common.Map.{Map, lookup, insert, at_or, has, lookup-insert, lookup-erase, lookup-nil}
use ssyncd.Http.Session.{HttpSession, HttpService}
use ssyncd.Sync.HttpData.{
  Services, Listeners, new_service, put_session, erase_session, has_service, services_to_add,
  add_session, delete_session,
}

unfoldable pub session_of : Bytes → Option HttpService → Option HttpSession
session_of key none = none
session_of key (some v) = lookup key v.sessions

unfoldable pub session_in : ℕ → ℕ → Bytes → Listeners → Option HttpSession
unfolding at_or
session_in listener service key ls = session_of key (lookup service (at_or [] listener ls))

at_or-insert {ℓ} :
    {V : Type ℓ} (c : V) (k j : ℕ) (v : V) (m : Map ℕ V)
    → at_or c j (insert k v m) ≡ (if k == j then v else at_or c j m)
unfolding at_or
at_or-insert c k j v m = ground (arith, lookup-insert k j v m)

-- The session after SESS_ADD and SESS_UPDATE in the farm.
abbrev pub session_added : ℕ → ℕ → HttpSession → Listeners → ℕ → ℕ → Bytes → Option HttpSession
session_added listener service session ls l s k =
    let old = session_in l s k ls in
    if not (listener == l)
    then old
    else if service == s
    then (if session.key == k then some session else old)
    else if has_service listener service ls
    then old
    else none

-- A listener is replaced.
pub session_in-insert :
    (listener : ℕ) (m : Services) (ls : Listeners) (l s : ℕ) (k : Bytes)
    → session_in l s k (insert listener m ls)
      ≡ (if listener == l then session_of k (lookup s m) else session_in l s k ls)
unfolding session_in
session_in-insert listener m ls l s k = ground (arith, at_or-insert [] listener l m ls)

-- A service is replaced.
pub session_of-insert :
    (service : ℕ) (v : HttpService) (m : Services) (s : ℕ) (k : Bytes)
    → session_of k (lookup s (insert service v m))
      ≡ (if service == s then lookup k v.sessions else session_of k (lookup s m))
unfolding session_of
session_of-insert service v m s k = ground (arith, lookup-insert service s v m)

lookup-at_or :
    (service : ℕ) (m : Services) (k : Bytes)
    → lookup k (at_or new_service service m).sessions ≡ session_of k (lookup service m)
unfolding at_or session_of
lookup-at_or service m k = ground (arith, lookup-nil {V = HttpSession} k)

services_to_add_lem :
    (listener service : ℕ) (ls : Listeners) (s : ℕ) (k : Bytes)
    → session_of k (lookup s (services_to_add listener service ls))
      ≡ (if has_service listener service ls then session_in listener s k ls else none)
unfolding session_in services_to_add session_of lookup
services_to_add_lem listener service ls s k = elim (Bool-cases (has_service listener service ls)) [
  | inl h ↦ rw h refl
  | inr h ↦ ground (arith, h, lookup-nil {V = HttpSession} k)
]

-- No session is under a service that is not there.
session_in-absent :
    (listener service : ℕ) (ls : Listeners) (k : Bytes)
    → has_service listener service ls ≡ false
    → session_in listener service k ls ≡ none
unfolding session_in session_of has_service has at_or lookup
session_in-absent listener service ls k h = ground (arith, h)

pub session_in-add_session :
    (listener service : ℕ) (session : HttpSession) (ls : Listeners) (l s : ℕ) (k : Bytes)
    → session_in l s k (add_session listener service session ls)
      ≡ session_added listener service session ls l s k
unfolding add_session put_session
session_in-add_session listener service session ls l s k =
    let m = services_to_add listener service ls in
    let v = put_session session (at_or new_service service m) in
    session_in-insert listener (insert service v m) ls l s k
    ∙ ground (
      arith,
      session_of-insert service v m s k,
      lookup-insert session.key k session (at_or new_service service m).sessions,
      lookup-at_or service m k,
      services_to_add_lem listener service ls s k,
      session_in-absent listener service ls k,
      bytes_ordered.eqb_iff session.key k,
    )

has_absent : (key : Bytes) (m : Map Bytes HttpSession) → has key m ≡ false → lookup key m ≡ none
unfolding has
has_absent key m h = ground (arith, h)

-- The session of a key that delete_session does not find.
delete_absent :
    (listener service : ℕ) (key : Bytes) (ls : Listeners)
    → (has_service listener service ls
        && has key (at_or new_service service (at_or [] listener ls)).sessions)
      ≡ false
    → session_in listener service key ls ≡ none
unfolding session_in
delete_absent listener service key ls h =
    let m = at_or [] listener ls in
    elim (Bool-cases (has_service listener service ls)) [
      | inl y ↦
          sym (lookup-at_or service m key)
          ∙ has_absent key (at_or new_service service m).sessions (ground (arith, h, y))
      | inr y ↦ session_in-absent listener service ls key y
    ]

erased_lem :
    (listener service : ℕ) (key : Bytes) (ls : Listeners) (l s : ℕ) (k : Bytes)
    → session_in l s k (
        insert listener
          (insert service
            (erase_session key (at_or new_service service (at_or [] listener ls)))
            (at_or [] listener ls))
          ls)
      ≡ (if (listener == l) && ((service == s) && (key == k)) then none else session_in l s k ls)
unfolding erase_session session_in
erased_lem listener service key ls l s k =
    let m = at_or [] listener ls in
    let v = at_or new_service service m in
    session_in-insert listener (insert service (erase_session key v) m) ls l s k
    ∙ ground (
      arith,
      session_of-insert service (erase_session key v) m s k,
      lookup-erase key k v.sessions,
      lookup-at_or service m k,
    )

pub session_in-delete_session :
    (listener service : ℕ) (key : Bytes) (ls : Listeners) (l s : ℕ) (k : Bytes)
    → session_in l s k (delete_session listener service key ls)
      ≡ (if (listener == l) && ((service == s) && (key == k)) then none else session_in l s k ls)
unfolding delete_session
session_in-delete_session listener service key ls l s k =
    let m = at_or [] listener ls in
    let v = at_or new_service service m in
    elim (Bool-cases (has_service listener service ls && has key v.sessions)) [
      | inl h ↦ rw h (erased_lem listener service key ls l s k)
      | inr h ↦
          rw h
            (ground (arith, delete_absent listener service key ls h, bytes_ordered.eqb_iff key k))
    ]
