-- ===== src/Sync/Master/Sessions/Whole.antt =====
-- The sessions of all farms through sync_master::handle_http_sync of src/sync/sync_master.cpp.
use ssyncd.Common.{ℕ, ◌≡◌, refl, ap, ◌∙◌, true, false, ◌&&◌, none, [], ◌∷◌, arith, if◌then◌else◌}
use ssyncd.Common.Bytes.{Bytes}
use ssyncd.Common.Ordered.{Ordered, bytes_ordered, nat_ordered, ◌==◌}
use ssyncd.Common.Map.{Map, lookup, at_or, has}
use ssyncd.Common.SortedMap.{IsSorted, IsAbove, lookup-IsAbove}
use ssyncd.Http.Session
use ssyncd.Http.Session.{HttpAction, HttpSession, HttpService, new_http_action, sess_add}
use ssyncd.Sync.HttpData.{Services, Listeners, HttpData, apply_http_all}
use ssyncd.Sync.HttpData.Listener.{session_of, session_in}
use ssyncd.Sync.HttpData.Lookup.{session_at}
use ssyncd.Sync.HttpData.Single.{Values, IsSingle}
use ssyncd.Sync.Master.{service_actions, listener_actions, all_http_actions}
use ssyncd.Sync.Master.Sessions.{
  IsValidService, IsFresh, apply_http_all-append, service_actions_lem,
}

-- The sessions of each listener are those of one service at most, and valid.
abbrev pub AreValidServices : Services → Type 0
AreValidServices m = IsSingle m × Values IsValidService m

abbrev pub AreValidListeners : Listeners → Type 0
AreValidListeners ls = IsSorted ls × Values AreValidServices ls

-- The invariant of http_session_data: the maps are maps, each session stands under its key, and no
-- listener has more than one service.
abbrev pub IsValid : HttpData → Type 0
IsValid d = IsSorted d × Values AreValidListeners d

session_in-cons :
    (listener : ℕ) (m : Services) (ls : Listeners) (l s : ℕ) (k : Bytes)
    → session_in l s k ((listener, m) ∷ ls)
      ≡ (if listener == l then session_of k (lookup s m) else session_in l s k ls)
unfolding session_in at_or lookup
session_in-cons listener m ls l s k = ground arith

has-cons {ℓ κ} :
    {K : Type ℓ} {V : Type κ} ⦃o : Ordered K⦄ (j : K) (v : V) (m : Map K V) (k : K)
    → has k ((j, v) ∷ m) ≡ (if j == k then true else has k m)
unfolding has lookup
has-cons j v m k = ground arith

has-above {ℓ κ} :
    {K : Type ℓ} {V : Type κ} ⦃o : Ordered K⦄ (k : K) (m : Map K V) → IsAbove k m → has k m ≡ false
unfolding has
has-above k m h = ground (arith, lookup-IsAbove k m h)

listener_actions_lem :
    (g : Session.Indeterminate) (farm : Bytes) (ls : Listeners) (d : HttpData) (f : Bytes) (l s : ℕ)
    (k : Bytes)
    → IsSorted ls
    → Values AreValidServices ls
    → ((l' : ℕ) → has l' ls ≡ true → IsFresh d farm l')
    → session_at (apply_http_all d (listener_actions g farm ls)) f l s k
      ≡ (if (farm == f) && has l ls then session_in l s k ls else session_at d f l s k)
unfolding apply_http_all listener_actions has lookup
listener_actions_lem g farm [] d f l s k sorted valid fresh = ground arith
listener_actions_lem g farm ((listener, m) ∷ ls) d f l s k (above, sorted) ((single, vs), valid)
      fresh =
    let d' : HttpData = apply_http_all d (service_actions g farm listener m) in
    let here : IsFresh d farm listener =
      fresh listener
        (has-cons listener m ls listener ∙ ground (arith, nat_ordered.eqb_iff listener listener)) in
    let step = service_actions_lem g farm listener m d f l s k single vs here in
    let fresh' : (l' : ℕ) → has l' ls ≡ true → IsFresh d' farm l' = λ l' h s' k'.
      service_actions_lem g farm listener m d farm l' s' k' single vs here
      ∙ ground (
        arith,
        h,
        has-above listener ls above,
        nat_ordered.eqb_iff listener l',
        fresh l' (has-cons listener m ls l' ∙ ground (arith, h)) s' k',
      ) in
    ap (λ z. session_at z f l s k)
      (apply_http_all-append d (service_actions g farm listener m) (listener_actions g farm ls))
    ∙ listener_actions_lem g farm ls d' f l s k sorted valid fresh'
    ∙ ground (
      arith,
      step,
      session_in-cons listener m ls l s k,
      has-cons listener m ls l,
      has-above listener ls above,
      nat_ordered.eqb_iff listener l,
    )

empty_lem : (f : Bytes) (l s : ℕ) (k : Bytes) → session_at [] f l s k ≡ none
unfolding session_at session_in session_of at_or lookup
empty_lem f l s k = refl

session_at-cons :
    (farm : Bytes) (ls : Listeners) (d : HttpData) (f : Bytes) (l s : ℕ) (k : Bytes)
    → session_at ((farm, ls) ∷ d) f l s k
      ≡ (if farm == f then session_in l s k ls else session_at d f l s k)
unfolding session_at at_or lookup
session_at-cons farm ls d f l s k = ground arith

session_in-absent :
    (l s : ℕ) (k : Bytes) (ls : Listeners) → has l ls ≡ false → session_in l s k ls ≡ none
unfolding session_in at_or has session_of lookup
session_in-absent l s k ls h = ground (arith, h)

all_http_actions_lem :
    (g : Session.Indeterminate) (d old : HttpData) (f : Bytes) (l s : ℕ) (k : Bytes)
    → IsValid d
    → ((f' : Bytes) → has f' d ≡ true → (l' : ℕ) → IsFresh old f' l')
    → session_at (apply_http_all old (all_http_actions g d)) f l s k
      ≡ (if has f d then session_at d f l s k else session_at old f l s k)
unfolding apply_http_all all_http_actions has lookup
all_http_actions_lem g [] old f l s k valid fresh = ground arith
all_http_actions_lem g ((farm, ls) ∷ d) old f l s k ((above, sorted), ((st, vs), valid)) fresh =
    let old' : HttpData = apply_http_all old (listener_actions g farm ls) in
    let here : (l' : ℕ) → IsFresh old farm l' =
      fresh farm (has-cons farm ls d farm ∙ ground (arith, bytes_ordered.eqb_iff farm farm)) in
    let step = listener_actions_lem g farm ls old f l s k st vs (λ l' h. here l') in
    let fresh' : (f' : Bytes) → has f' d ≡ true → (l' : ℕ) → IsFresh old' f' l' = λ f' h l' s' k'.
      listener_actions_lem g farm ls old f' l' s' k' st vs (λ l' h. here l')
      ∙ ground (
        arith,
        h,
        has-above farm d above,
        bytes_ordered.eqb_iff farm f',
        fresh f' (has-cons farm ls d f' ∙ ground (arith, h)) l' s' k',
      ) in
    ap (λ z. session_at z f l s k)
      (apply_http_all-append old (listener_actions g farm ls) (all_http_actions g d))
    ∙ all_http_actions_lem g d old' f l s k (sorted, valid) fresh'
    ∙ ground (
      arith,
      step,
      here l s k,
      session_at-cons farm ls d f l s k,
      session_in-absent l s k ls,
      has-cons farm ls d f,
      has-above farm d above,
      bytes_ordered.eqb_iff farm f,
    )

session_at-absent :
    (d : HttpData) (f : Bytes) (l s : ℕ) (k : Bytes) → has f d ≡ false → session_at d f l s k ≡ none
unfolding session_at session_in session_of at_or has lookup
session_at-absent d f l s k h = ground (arith, h)

-- A node without sessions that applies the actions that handle_http_sync sends for valid data, where
-- no listener has more than one service, ends with the same session, or with none, for every farm,
-- listener, service and key.
pub session_at-all_http_actions :
    (g : Session.Indeterminate) (d : HttpData) (farm : Bytes) (listener service : ℕ) (key : Bytes)
    → IsValid d
    → session_at (apply_http_all [] (all_http_actions g d)) farm listener service key
      ≡ session_at d farm listener service key
session_at-all_http_actions g d farm listener service key valid =
    all_http_actions_lem g d [] farm listener service key valid (λ f h l s k. empty_lem f l s k)
    ∙ ground
        (arith, empty_lem farm listener service key, session_at-absent d farm listener service key)
