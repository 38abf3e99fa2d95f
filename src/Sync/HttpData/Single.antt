-- ===== src/Sync/HttpData/Single.antt =====
-- How many services a listener has in the `http_session_data` of src/sync/base_sync.cpp.
use mathlib.Core.Path.{subst}
use ssyncd.Common.{
  ℕ, ◌≤◌, ◌≡◌, sym, Bool, true, false, ◌&&◌, Option, none, some, [], ◌∷◌, arith, length, Bool-cases,
  inl, inr,
}
use ssyncd.Common.Bytes.{Bytes}
use ssyncd.Common.Ordered.{Ordered, bytes_ordered, nat_ordered, ◌==◌}
use ssyncd.Common.Map.{Map, lookup, insert, at_or, has}
use ssyncd.Http.Session.{
  HttpActionType, HttpSession, HttpService, HttpAction, clear_data, sync_request, sess_add,
  sess_delete, sess_update, sess_write, bck_add, bck_delete, bck_update, other_action,
}
use ssyncd.Sync.HttpData.Lookup.{with_action}
use ssyncd.Sync.HttpData.{
  Services, Listeners, HttpData, new_service, put_session, erase_session, has_service,
  services_to_add, add_session, delete_session, apply_http_action,
}

at_or_first {ℓ κ} :
    {K : Type ℓ} {V : Type κ} ⦃o : Ordered K⦄ (c : V) (k j : K) (w : V) (m : Map K V)
    → (j == k) ≡ true
    → at_or c k ((j, w) ∷ m) ≡ w
unfolding at_or lookup
at_or_first c k j w m h = ground (arith, h)

at_or_rest {ℓ κ} :
    {K : Type ℓ} {V : Type κ} ⦃o : Ordered K⦄ (c : V) (k j : K) (w : V) (m : Map K V)
    → (j == k) ≡ false
    → at_or c k ((j, w) ∷ m) ≡ at_or c k m
unfolding at_or lookup
at_or_rest c k j w m h = ground (arith, h)

found :
    (listener service : ℕ) (ls : Listeners)
    → has_service listener service ls ≡ true
    → has service (at_or [] listener ls) ≡ true
unfolding has_service
found listener service ls h = ground (arith, h)

itself : (service : ℕ) → has service ((service, new_service) ∷ []) ≡ true
unfolding has lookup
itself service = ground (arith, nat_ordered.eqb_iff service service)

left_true : (a b : Bool) → (a && b) ≡ true → a ≡ true
left_true a b h = ground (arith, h)

-- Every value of a map has a property.
abbrev pub Values {ℓ κ} : {K : Type ℓ} {V : Type κ} → (V → Type 0) → Map K V → Type 0
Values P [] = Unit
Values P ((k, v) ∷ m) = P v × Values P m

abbrev pub IsSingle : Services → Type 0
IsSingle m = length m ≤ 1

-- Each listener of each farm has at most one service.
abbrev pub HasSingles : HttpData → Type 0
HasSingles d = Values (Values IsSingle) d

module _ {ℓ κ} {K : Type ℓ} {V : Type κ} ⦃o : Ordered K⦄ (P : V → Type 0) where
  insert-Values : (k : K) (v : V) (m : Map K V) → P v → Values P m → Values P (insert k v m)
  unfolding insert
  insert-Values k v [] h hs = (h, tt)
  insert-Values k v ((j, w) ∷ m) h (hw, hs) = elim (Bool-cases (j == k)) [
    | inl y ↦ rw y (h, hs)
    | inr y ↦ elim (Bool-cases (o.below k j)) [
      | inl b ↦ rw (y, b) (h, (hw, hs))
      | inr b ↦ rw (y, b) (hw, insert-Values k v m h hs)
    ]
  ]

  at_or-Values : (c : V) (k : K) (m : Map K V) → P c → Values P m → P (at_or c k m)
  unfolding at_or lookup
  at_or-Values c k [] h hs = h
  at_or-Values c k ((j, w) ∷ m) h (hw, hs) = elim (Bool-cases (j == k)) [
    | inl y ↦ subst P (sym (at_or_first c k j w m y)) hw
    | inr y ↦ subst P (sym (at_or_rest c k j w m y)) (at_or-Values c k m h hs)
  ]

IsSingle-insert :
    (k : ℕ) (v : HttpService) (m : Services) → IsSingle m → has k m ≡ true → IsSingle (insert k v m)
unfolding has insert lookup
IsSingle-insert k v [] s h = omega arith
IsSingle-insert k v ((j, w) ∷ []) s h = ground (arith, h)
IsSingle-insert k v ((j, w) ∷ (i, x) ∷ m) s h = absurd (ground (arith, s))

services_to_add-IsSingle :
    (listener service : ℕ) (ls : Listeners)
    → Values IsSingle ls
    → IsSingle (services_to_add listener service ls)
      × (has service (services_to_add listener service ls) ≡ true)
unfolding services_to_add
services_to_add-IsSingle listener service ls h =
    elim (Bool-cases (has_service listener service ls)) [
      | inl y ↦
          rw y (at_or-Values IsSingle [] listener ls (omega arith) h, found listener service ls y)
      | inr y ↦ rw y (omega arith, itself service)
    ]

add_session-Values :
    (listener service : ℕ) (session : HttpSession) (ls : Listeners)
    → Values IsSingle ls
    → Values IsSingle (add_session listener service session ls)
unfolding add_session
add_session-Values listener service session ls h =
    let m = services_to_add listener service ls in
    let v = put_session session (at_or new_service service m) in
    let (single, known) = services_to_add-IsSingle listener service ls h in
    insert-Values IsSingle listener (insert service v m) ls
      (IsSingle-insert service v m single known) h

delete_session-Values :
    (listener service : ℕ) (key : Bytes) (ls : Listeners)
    → Values IsSingle ls
    → Values IsSingle (delete_session listener service key ls)
unfolding delete_session
delete_session-Values listener service key ls h =
    let m = at_or [] listener ls in
    let v = at_or new_service service m in
    elim (Bool-cases (has_service listener service ls && has key v.sessions)) [
      | inl y ↦ rw y (
          insert-Values IsSingle listener (insert service (erase_session key v) m) ls
            (IsSingle-insert service (erase_session key v) m
              (at_or-Values IsSingle [] listener ls (omega arith) h)
              (found listener service ls
                (left_true (has_service listener service ls) (has key v.sessions) y)))
            h)
      | inr y ↦ rw y h
    ]

farm-Values : (farm : Bytes) (d : HttpData) → HasSingles d → Values IsSingle (at_or [] farm d)
farm-Values farm d h = at_or-Values (Values IsSingle) [] farm d tt h

added :
    (x : HttpAction) (d : HttpData)
    → HasSingles d
    → HasSingles
        (insert x.farm_name (add_session x.listener x.service x.session (at_or [] x.farm_name d)) d)
added x d h =
    let farm = at_or [] x.farm_name d in
    insert-Values (Values IsSingle) x.farm_name (add_session x.listener x.service x.session farm) d
      (add_session-Values x.listener x.service x.session farm (farm-Values x.farm_name d h)) h

HasSingles-cases :
    (t : HttpActionType) (d : HttpData) (x : HttpAction)
    → HasSingles d
    → HasSingles (apply_http_action d (some (with_action t x))).0
unfolding apply_http_action
HasSingles-cases clear_data d x h = insert-Values (Values IsSingle) x.farm_name [] d tt h
HasSingles-cases sess_add d x h = added x d h
HasSingles-cases sess_update d x h = added x d h
HasSingles-cases sess_delete d x h =
    let farm = at_or [] x.farm_name d in
    insert-Values (Values IsSingle) x.farm_name
      (delete_session x.listener x.service x.session.key farm) d
      (delete_session-Values x.listener x.service x.session.key farm (farm-Values x.farm_name d h))
      h
HasSingles-cases sync_request d x h = h
HasSingles-cases sess_write d x h = h
HasSingles-cases bck_add d x h = h
HasSingles-cases bck_delete d x h = h
HasSingles-cases bck_update d x h = h
HasSingles-cases (other_action n) d x h = h

-- Where no listener has more than one service, none has after any action, applied or refused.
pub apply_http_action-HasSingles :
    (d : HttpData) (x : Option HttpAction) → HasSingles d → HasSingles (apply_http_action d x).0
unfolding apply_http_action
apply_http_action-HasSingles d none h = h
apply_http_action-HasSingles d (some x) h = HasSingles-cases x.action d x h
