-- ===== src/Sync/Master/Sessions.antt =====
-- The synchronisation of the HTTP sessions: sync_master::handle_http_sync of src/sync/sync_master.cpp
-- against base_sync::apply_http_action of src/sync/base_sync.cpp.
pub mod Whole
use ssyncd.Common.{
  ℕ, ◌≤◌, ◌≡◌, refl, sym, ap, ◌∙◌, Bool, true, false, ◌&&◌, Option, none, some, List, [], ◌∷◌, ◌++◌,
  append-nil, arith, length, if◌then◌else◌, Bool-cases, inl, inr,
}
use ssyncd.Common.Bytes.{Bytes}
use ssyncd.Common.Ordered.{Ordered, bytes_ordered, nat_ordered, ◌==◌}
use ssyncd.Common.Map.{Map, lookup, at_or, has, lookup-nil}
use ssyncd.Common.SortedMap.{IsSorted, IsAbove, lookup-IsAbove}
use ssyncd.Http.Session
use ssyncd.Http.Session.{HttpAction, HttpSession, HttpService, new_http_action, sess_add}
use ssyncd.Sync.HttpData.{
  Services, Listeners, HttpData, has_service, apply_http_action, apply_http_all,
}
use ssyncd.Sync.HttpData.Listener.{session_of, session_in}
use ssyncd.Sync.HttpData.Lookup.{session_at, session_after, session_at-apply_http_action}
use ssyncd.Sync.HttpData.Single.{Values, IsSingle, HasSingles}
use ssyncd.Sync.Master.{session_actions, service_actions, listener_actions, all_http_actions}

-- Each session stands under its key.
abbrev pub IsKeyed : Map Bytes HttpSession → Type 0
IsKeyed [] = Unit
IsKeyed ((key, x) ∷ m) = (x.key ≡ key) × IsKeyed m

over : Option HttpSession → Option HttpSession → Option HttpSession
over none old = old
over (some x) old = some x

over-none : (o : Option HttpSession) → over o none ≡ o
unfolding over
over-none none = refl
over-none (some x) = refl

-- No session is under another service of the listener.
abbrev IsAlone : HttpData → Bytes → ℕ → ℕ → Type 0
IsAlone d farm listener service =
    (s : ℕ) (k : Bytes) → (service == s) ≡ false → session_at d farm listener s k ≡ none

-- The action for a session.
abbrev add_action : Session.Indeterminate → Bytes → ℕ → ℕ → HttpSession → HttpAction
add_action g farm listener service session =
    let x = new_http_action g sess_add in
    record x {
      listener = listener;
      service = service;
      session = session;
      backend = session.backend_id;
      farm_name = farm;
    }

added_lem :
    (g : Session.Indeterminate) (farm : Bytes) (listener service : ℕ) (x : HttpSession)
    (d : HttpData) (f : Bytes) (l s : ℕ) (k : Bytes)
    → IsAlone d farm listener service
    → session_at (apply_http_action d (some (add_action g farm listener service x))).0 f l s k ≡ (
        if (farm == f) && ((listener == l) && ((service == s) && (x.key == k)))
        then some x
        else session_at d f l s k)
unfolding session_after session_at
added_lem g farm listener service x d f l s k alone =
    (session_at-apply_http_action d (add_action g farm listener service x) f l s k).0
    ∙ ground (
      arith,
      alone s k,
      bytes_ordered.eqb_iff farm f,
      nat_ordered.eqb_iff listener l,
      nat_ordered.eqb_iff service s,
    )

pub apply_http_all-append :
    (d : HttpData) (xs ys : List HttpAction)
    → apply_http_all d (xs ++ ys) ≡ apply_http_all (apply_http_all d xs) ys
unfolding apply_http_all
apply_http_all-append d [] ys = refl
apply_http_all-append d (x ∷ xs) ys = apply_http_all-append (apply_http_action d (some x)).0 xs ys

session_actions_lem :
    (g : Session.Indeterminate) (farm : Bytes) (listener service : ℕ) (m : Map Bytes HttpSession)
    (d : HttpData) (f : Bytes) (l s : ℕ) (k : Bytes)
    → IsSorted m
    → IsKeyed m
    → IsAlone d farm listener service
    → session_at (apply_http_all d (session_actions g farm listener service m)) f l s k ≡ (
        if (farm == f) && ((listener == l) && (service == s))
        then over (lookup k m) (session_at d f l s k)
        else session_at d f l s k)
unfolding apply_http_all session_actions over lookup
session_actions_lem g farm listener service [] d f l s k st kt alone = ground arith
session_actions_lem g farm listener service ((key, x) ∷ m) d f l s k (above, st) (ek, kt) alone =
    let d' : HttpData = (apply_http_action d (some (add_action g farm listener service x))).0 in
    let alone' : IsAlone d' farm listener service = λ s' k' n.
      added_lem g farm listener service x d farm listener s' k' alone
      ∙ ground (arith, n, alone s' k' n) in
    session_actions_lem g farm listener service m d' f l s k st kt alone'
    ∙ ground (
      arith,
      added_lem g farm listener service x d f l s k alone,
      ek,
      bytes_ordered.eqb_iff key k,
      lookup-IsAbove key m above,
    )

-- No session is under the listener.
abbrev pub IsFresh : HttpData → Bytes → ℕ → Type 0
IsFresh d farm listener = (s : ℕ) (k : Bytes) → session_at d farm listener s k ≡ none

-- The sessions of each service are a map by their keys.
abbrev pub IsValidService : HttpService → Type 0
IsValidService v = IsSorted v.sessions × IsKeyed v.sessions

pub service_actions_lem :
    (g : Session.Indeterminate) (farm : Bytes) (listener : ℕ) (m : Services) (d : HttpData)
    (f : Bytes) (l s : ℕ) (k : Bytes)
    → IsSingle m
    → Values IsValidService m
    → IsFresh d farm listener
    → session_at (apply_http_all d (service_actions g farm listener m)) f l s k
      ≡ (if (farm == f) && (listener == l) then session_of k (lookup s m) else session_at d f l s k)
unfolding apply_http_all service_actions over lookup session_of
service_actions_lem g farm listener [] d f l s k single valid fresh =
    ground (arith, fresh s k, bytes_ordered.eqb_iff farm f, nat_ordered.eqb_iff listener l)
service_actions_lem g farm listener ((service, v) ∷ []) d f l s k single ((st, kt), valid) fresh =
    ap (λ xs. session_at (apply_http_all d xs) f l s k)
      (append-nil (session_actions g farm listener service v.sessions))
    ∙ session_actions_lem g farm listener service v.sessions d f l s k st kt
        (λ s' k' n. fresh s' k')
    ∙ ground (
      arith,
      fresh s k,
      bytes_ordered.eqb_iff farm f,
      nat_ordered.eqb_iff listener l,
      over-none (lookup k v.sessions),
    )
service_actions_lem g farm listener ((a, v) ∷ (b, w) ∷ m) d f l s k single valid fresh =
    absurd (ground (arith, single))
