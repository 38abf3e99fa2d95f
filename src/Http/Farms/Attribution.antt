-- ===== src/Http/Farms/Attribution.antt =====
-- What http_sync::listen_task of src/http/http_sync.cpp enqueues: every action under its own farm.
use mathlib.Core.Path.{subst}
use ssyncd.Common.{
  append-nil, append_assoc, ℕ, ◌≡◌, refl, sym, ap, ◌∙◌, true, false, Option, none, some, List, [],
  ◌∷◌, ◌++◌, ltb, if◌then◌else◌, All, Bool-cases, inl, inr, arith,
}
use ssyncd.Common.Bytes.{Bytes}
use ssyncd.Common.Ordered.{nat_ordered}
use ssyncd.Common.Map.{Map, lookup, insert, at_or, lookup-insert, lookup-insert_cases}
use ssyncd.Connection.Receive.{ConnectionEventData, Drained, stopped, crashed, unfinished}
use ssyncd.Connection.Events.{new_event_data}
use ssyncd.Http.Session.{HttpAction, HttpActionType, Indeterminate}
use ssyncd.Http.Farms.{HttpSync, peer_disconnect_handler, drain_http, farm_event}
use ssyncd.Http.Farms.Listening.{
  RecvAnswer, ReadEnd, readout, ended, failed, Event, readable, other_event, Listener, Turn, watch,
  goes_on, crashes, runs_on, read_loop, cleared, put, enqueue_actions, read_actions, after_read,
  handle_event, listen_task,
}
use ssyncd.Http.Farms.Buffers.{
  IsBuffer, IsFrom, DrainIsFrom, read_loop-IsBuffer, cleared-IsBuffer, drain_http-IsFrom,
}

-- `names` is the farm of each socket, and no name where there is none.
pub record IsAttributed (names : ℕ → Bytes) (l : Listener) : Type 0 where
  pub buffers : (fd : ℕ) (c : ConnectionEventData) → lookup fd l.event_data ≡ some c → IsBuffer fd c
  pub farms : (fd : ℕ) → at_or [] fd l.farms.farms_fd ≡ names fd

-- What the handling of events from the socket `fd` led to: the actions that it enqueued are from `fd`.
abbrev pub Grows : (ℕ → Bytes) → ℕ → Listener → Listener → Type 0
Grows names fd l l' =
    IsAttributed names l'
    × (new : List HttpAction) × (l'.farms.input_data ≡ l.farms.input_data ++ new)
    × All (IsFrom names fd) new

-- The socket of an event, and the actions that events enqueue, each event after the other.
abbrev pub source : Event → ℕ
source (readable fd answers) = fd
source (other_event fd) = fd

abbrev pub AreFrom : (ℕ → Bytes) → List Event → List HttpAction → Type 0
AreFrom names [] xs = xs ≡ []
AreFrom names (event ∷ events) xs =
    (ys : List HttpAction) × (zs : List HttpAction) × (xs ≡ ys ++ zs)
    × All (IsFrom names (source event)) ys
    × AreFrom names events zs

put-buffers :
    (fd : ℕ) (c : ConnectionEventData) (m : Map ℕ ConnectionEventData)
    → IsBuffer fd c
    → ((k : ℕ) (b : ConnectionEventData) → lookup k m ≡ some b → IsBuffer k b)
    → (k : ℕ) (b : ConnectionEventData) → lookup k (insert fd c m) ≡ some b
    → IsBuffer k b
put-buffers fd c m hc h k b e = elim (lookup-insert_cases fd k c b m e) [
  | inl (same, is) ↦ subst (λ z. IsBuffer k z) is (subst (λ z. IsBuffer z c) same hc)
  | inr old ↦ h k b old
]

put-IsAttributed :
    (names : ℕ → Bytes) (fd : ℕ) (c : ConnectionEventData) (l : Listener)
    → IsBuffer fd c
    → IsAttributed names l
    → IsAttributed names (put fd c l)
unfolding put
put-IsAttributed names fd c l hc h = record {
  buffers = put-buffers fd c l.event_data hc h.buffers;
  farms = h.farms;
}

-- A socket that add_farm registers.
pub watch-IsAttributed :
    (names : ℕ → Bytes) (fd : ℕ) (memory : Bytes) (l : Listener)
    → IsAttributed names l
    → IsAttributed names (watch fd memory l)
unfolding watch
watch-IsAttributed names fd memory l h = record {
  buffers = put-buffers fd (new_event_data fd memory) l.event_data (refl, omega arith) h.buffers;
  farms = h.farms;
}

-- Looking up farms_fd[fd] changes no name.
at_or-insert_same :
    (fd k : ℕ) (m : Map ℕ Bytes) → at_or [] k (insert fd (at_or [] fd m) m) ≡ at_or [] k m
unfolding at_or
at_or-insert_same fd k m =
    ground (arith, lookup-insert fd k (at_or [] fd m) m, nat_ordered.eqb_iff fd k)

more-Grows :
    (names : ℕ → Bytes) (fd : ℕ) (xs : List HttpAction) (k l : Listener) (s : HttpSync)
    → s.farms_fd ≡ insert fd (at_or [] fd l.farms.farms_fd) l.farms.farms_fd
    → s.input_data ≡ l.farms.input_data ++ xs
    → All (IsFrom names fd) xs
    → k.farms.input_data ≡ l.farms.input_data
    → IsAttributed names l
    → Grows names fd k (record l { farms = s })
more-Grows names fd xs k l s e q hx same h = (
  record {
    buffers = h.buffers;
    farms = λ k. ap (λ m. at_or [] k m) e ∙ at_or-insert_same fd k l.farms.farms_fd ∙ h.farms k;
  },
  xs,
  q ∙ ap (λ z. z ++ xs) (sym same),
  hx,
)

idle-Grows :
    (names : ℕ → Bytes) (fd : ℕ) (k l : Listener)
    → l.farms.input_data ≡ k.farms.input_data
    → IsAttributed names l
    → Grows names fd k l
idle-Grows names fd k l e h = (h, [], e ∙ sym (append-nil k.farms.input_data), tt)

peer_disconnect_handler-Grows :
    (g : Indeterminate) (action : HttpActionType) (names : ℕ → Bytes) (fd : ℕ) (k l : Listener)
    → k.farms.input_data ≡ l.farms.input_data
    → IsAttributed names l
    → Grows names fd k (record l { farms = peer_disconnect_handler g action fd l.farms })
unfolding peer_disconnect_handler farm_event
peer_disconnect_handler-Grows g action names fd k l same h =
    more-Grows names fd _ k l _ refl refl ((refl, h.farms fd), tt) same h

enqueue_actions-Grows :
    (names : ℕ → Bytes) (fd : ℕ) (xs : List HttpAction) (k l : Listener)
    → All (IsFrom names fd) xs
    → k.farms.input_data ≡ l.farms.input_data
    → IsAttributed names l
    → Grows names fd k (record l { farms = enqueue_actions fd xs l.farms })
unfolding enqueue_actions
enqueue_actions-Grows names fd [] k l hx same h = idle-Grows names fd k l (sym same) h
enqueue_actions-Grows names fd (x ∷ xs) k l hx same h =
    more-Grows names fd (x ∷ xs) k l _ refl refl hx same h

-- What a turn of the loop leaves, where it ends.
abbrev pub TurnGrows : (ℕ → Bytes) → ℕ → Listener → Turn → Type 0
TurnGrows names fd k (goes_on l) = Grows names fd k l
TurnGrows names fd k crashes = Unit
TurnGrows names fd k runs_on = Unit

abbrev pub TurnIsAttributed : (ℕ → Bytes) → List Event → Listener → Turn → Type 0
TurnIsAttributed names events k (goes_on l) =
    IsAttributed names l
    × (new : List HttpAction) × (l.farms.input_data ≡ k.farms.input_data ++ new)
    × AreFrom names events new
TurnIsAttributed names events k crashes = Unit
TurnIsAttributed names events k runs_on = Unit

module _ (g : Indeterminate) (action : HttpActionType) (fuel : ℕ) (names : ℕ → Bytes) where
  drained-Grows :
      (fd : ℕ) (c : ConnectionEventData) (l : Listener) (r : Drained HttpAction)
      → (if ltb 0 c.buffer_size
          then drain_http g (at_or [] fd l.farms.farms_fd) fuel c
          else stopped c [])
        ≡ r
      → DrainIsFrom names fd r
      → IsAttributed names l
      → TurnGrows names fd l (read_actions g action fuel fd c l)
  unfolding read_actions put
  drained-Grows fd c l (stopped c' xs) e (b, hx) h =
      rw (e, read_actions)
        (enqueue_actions-Grows names fd xs l (put fd c' l) hx refl
          (put-IsAttributed names fd c' l b h))
  drained-Grows fd c l crashed e d h = rw (e, read_actions) tt
  drained-Grows fd c l (unfinished xs) e d h = rw (e, read_actions) tt

  read_actions-Grows :
      (fd : ℕ) (c : ConnectionEventData) (l : Listener)
      → IsBuffer fd c
      → IsAttributed names l
      → TurnGrows names fd l (read_actions g action fuel fd c l)
  read_actions-Grows fd c l b h = elim (Bool-cases (ltb 0 c.buffer_size)) [
    | inl y ↦
        drained-Grows fd c l (drain_http g (at_or [] fd l.farms.farms_fd) fuel c) (rw y refl)
          (subst (λ n. DrainIsFrom names fd (drain_http g n fuel c)) (sym (h.farms fd))
            (drain_http-IsFrom g names fd fuel c b))
          h
    | inr n ↦ drained-Grows fd c l (stopped c []) (rw n refl) (b, tt) h
  ]

  after_read-Grows :
      (fd : ℕ) (end : ReadEnd) (c : ConnectionEventData) (l : Listener)
      → IsBuffer fd c
      → IsAttributed names l
      → TurnGrows names fd l (after_read g action fuel fd end c l)
  unfolding after_read put
  after_read-Grows fd readout c l b h = read_actions-Grows fd c l b h
  after_read-Grows fd ended c l b h =
      peer_disconnect_handler-Grows g action names fd l (put fd c l) refl
        (put-IsAttributed names fd c l b h)
  after_read-Grows fd (failed true) c l b h =
      peer_disconnect_handler-Grows g action names fd l (put fd c l) refl
        (put-IsAttributed names fd c l b h)
  after_read-Grows fd (failed false) c l b h =
      idle-Grows names fd l (put fd c l) refl (put-IsAttributed names fd c l b h)

  found-Grows :
      (fd : ℕ) (answers : List RecvAnswer) (l : Listener) (o : Option ConnectionEventData)
      → lookup fd l.event_data ≡ o
      → IsAttributed names l
      → TurnGrows names fd l (handle_event g action fuel (readable fd answers) l)
  unfolding handle_event
  found-Grows fd answers l none e h = rw (e, handle_event) tt
  found-Grows fd answers l (some c) e h =
      rw (e, handle_event)
        (after_read-Grows fd (read_loop (cleared c) answers).1 (read_loop (cleared c) answers).0 l
          (read_loop-IsBuffer fd (cleared c) answers (cleared-IsBuffer fd c (h.buffers fd c e))) h)

  handle_event-Grows :
      (event : Event) (l : Listener)
      → IsAttributed names l
      → TurnGrows names (source event) l (handle_event g action fuel event l)
  unfolding handle_event
  handle_event-Grows (other_event fd) l h = idle-Grows names fd l l refl h
  handle_event-Grows (readable fd answers) l h =
      found-Grows fd answers l (lookup fd l.event_data) refl h

  joined-IsAttributed :
      (event : Event) (events : List Event) (l l' : Listener) (t : Turn)
      → Grows names (source event) l l'
      → TurnIsAttributed names events l' t
      → TurnIsAttributed names (event ∷ events) l t
  joined-IsAttributed event events l l' (goes_on l'') (h, ys, e, hys) (h'', zs, e', hzs) = (
    h'',
    ys ++ zs,
    e' ∙ ap (λ z. z ++ zs) e ∙ append_assoc l.farms.input_data ys zs,
    (ys, zs, refl, hys, hzs),
  )
  joined-IsAttributed event events l l' crashes h k = tt
  joined-IsAttributed event events l l' runs_on h k = tt

  then-IsAttributed :
      (event : Event) (events : List Event) (l : Listener) (t : Turn)
      → handle_event g action fuel event l ≡ t
      → TurnGrows names (source event) l t
      → ((l' : Listener)
          → IsAttributed names l'
          → TurnIsAttributed names events l' (listen_task g action fuel events l'))
      → TurnIsAttributed names (event ∷ events) l (listen_task g action fuel (event ∷ events) l)
  unfolding listen_task
  then-IsAttributed event events l (goes_on l') e h ih =
      rw (e, listen_task) (joined-IsAttributed event events l l' _ h (ih l' h.0))
  then-IsAttributed event events l crashes e h ih = rw (e, listen_task) tt
  then-IsAttributed event events l runs_on e h ih = rw (e, listen_task) tt

  -- Where each socket has its farm, or no name, in farms_fd, the loop keeps that so whatever events come
  -- and whatever recv() answers, as long as it does not read or move memory outside of a buffer, or need
  -- more than `fuel` rounds for the actions of one. The
  -- actions that it enqueues come event by event, and each of them, read from the socket of its event or
  -- made where that socket is closed, holds that socket and the name of its farm. No buffer holds more
  -- than HTTP_MAX_PACKET_SIZE bytes.
  pub listen_task-IsAttributed :
      (events : List Event) (l : Listener)
      → IsAttributed names l
      → TurnIsAttributed names events l (listen_task g action fuel events l)
  unfolding listen_task
  listen_task-IsAttributed [] l h = (h, [], sym (append-nil l.farms.input_data), refl)
  listen_task-IsAttributed (event ∷ events) l h =
      then-IsAttributed event events l (handle_event g action fuel event l) refl
        (handle_event-Grows event l h) (λ l' h'. listen_task-IsAttributed events l' h')
