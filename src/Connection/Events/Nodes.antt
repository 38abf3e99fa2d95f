-- ===== src/Connection/Events/Nodes.antt =====
-- The nodes that a server of src/connection/connection.cpp is connected to, against the packets CONNECT
-- and DISCONNECT that it enqueues for sync_master::run.
use ssyncd.Common.{
  ℕ, ◌≡◌, refl, sym, ap, ◌∙◌, Bool, true, false, Option, some, List, [], ◌∷◌, ◌++◌, map, arith,
  Bool-cases, inl, inr, if◌then◌else◌, Option-cases, ==_iff,
}
use ssyncd.Common.Bytes.{Bytes}
use ssyncd.Common.Ordered.{nat_ordered, ◌==◌}
use ssyncd.Common.Map.{
  Map, lookup, insert, erase, has, has-insert, has-erase, lookup-insert_cases, lookup-erase-some,
  has_of_lookup,
}
use ssyncd.Connection.Cursor.{Read}
use ssyncd.Connection.Packet.{PacketType, connect, disconnect}
use ssyncd.Connection.Receive.{ConnectionEventData, drain, Drained, stopped, crashed, unfinished}
use ssyncd.Connection.Events.{
  Node, Item, made, parsed, item, Turn, goes_on, breaks, exits, crashes, runs_on, Event, on_listen,
  readable, hang_up, error_event, AcceptAnswer, accept_error, accepted, RecvAnswer, ReadEnd,
  readout, read_error, ended, read_loop, cleared, put, enqueue, handle_accept, lose_peer,
  parse_buffer, after_read, handle_read, handle_event, handle_events, receive_task, new_event_data,
}
use ssyncd.Connection.Events.Reading.{
  IsBuffer, LeavesBuffer, read_loop-IsBuffer, drain-LeavesBuffer,
}

-- What a packet says about the nodes that are connected.
unfoldable pub note : Option ℕ → PacketType → Map ℕ (Unit {0}) → Map ℕ (Unit {0})
note (some fd) connect m = insert fd tt m
note (some fd) disconnect m = erase fd m
note _ _ m = m

module _ {ℓ} {P : Type ℓ} where
  -- The nodes that are connected after these packets, of which those that came from a peer are passed
  -- over.
  unfoldable pub replay : Map ℕ (Unit {0}) → List (Item P) → Map ℕ (Unit {0})
  unfolding note
  replay m [] = m
  replay m (made p ∷ items) = replay (note p.fd p.type m) items
  replay m (parsed p ∷ items) = replay m items

  -- The state of a server between two events.
  pub record IsConsistent (s : Node P) : Type ℓ where
    pub server : s.is_server ≡ true
    pub tracked : s.connected_nodes ≡ replay [] s.input_packet_queue
    pub watching : (fd : ℕ) → has fd s.watched ≡ has fd s.connected_nodes
    pub buffers : (fd : ℕ) (c : ConnectionEventData) → lookup fd s.watched ≡ some c → IsBuffer fd c

  replay-append :
      (m : Map ℕ (Unit {0})) (xs ys : List (Item P)) → replay m (xs ++ ys) ≡ replay (replay m xs) ys
  unfolding replay
  replay-append m [] ys = refl
  replay-append m (made p ∷ xs) ys = replay-append (note p.fd p.type m) xs ys
  replay-append m (parsed p ∷ xs) ys = replay-append m xs ys

  replay-parsed : (m : Map ℕ (Unit {0})) (ps : List P) → replay m (map parsed ps) ≡ m
  unfolding replay
  replay-parsed m [] = refl
  replay-parsed m (p ∷ ps) = replay-parsed m ps

  -- A server that no node has connected to.
  pub new_server-IsConsistent :
      (s : Node P)
      → s.is_server ≡ true
      → s.watched ≡ []
      → s.connected_nodes ≡ []
      → s.input_packet_queue ≡ []
      → IsConsistent s
  unfolding replay has lookup
  new_server-IsConsistent s e w c q = record {
    server = e;
    tracked = rw (c, q) refl;
    watching = λ fd. rw (w, c) refl;
    buffers = λ fd b h. absurd (ground (arith, w, h));
  }

  abbrev pub TurnIsConsistent : Turn P → Type ℓ
  TurnIsConsistent (goes_on s) = IsConsistent s
  TurnIsConsistent (breaks s) = IsConsistent s
  TurnIsConsistent exits = Unit
  TurnIsConsistent crashes = Unit
  TurnIsConsistent runs_on = Unit

  if-IsConsistent :
      (b : Bool) (t u : Turn P)
      → TurnIsConsistent t
      → TurnIsConsistent u
      → TurnIsConsistent (if b then t else u)
  if-IsConsistent true t u h k = h
  if-IsConsistent false t u h k = k

  handle_accept-IsConsistent :
      (answer : AcceptAnswer) (s : Node P)
      → IsConsistent s
      → TurnIsConsistent (handle_accept answer s)
  unfolding handle_accept replay
  handle_accept-IsConsistent accept_error s h = h
  handle_accept-IsConsistent (accepted fd memory false) s h = tt
  handle_accept-IsConsistent (accepted fd memory true) s h = record {
    server = h.server;
    tracked =
        ap (λ m. insert fd tt m) h.tracked
        ∙ sym (replay-append [] s.input_packet_queue (item connect fd ∷ []));
    watching = λ j.
        rw
          (
            has-insert fd j (new_event_data fd memory) s.watched,
            has-insert fd j tt s.connected_nodes,
          )
          (rw (h.watching j) refl);
    buffers = λ j c e. elim (lookup-insert_cases fd j (new_event_data fd memory) c s.watched e) [
      | inl (k, same) ↦ rw (← k, ← same) (record { owner = refl; bound = omega arith })
      | inr old ↦ h.buffers j c old
    ];
  }

  lose_peer-IsConsistent :
      (fd : ℕ) (s : Node P) → IsConsistent s → TurnIsConsistent (lose_peer fd s)
  unfolding lose_peer replay
  lose_peer-IsConsistent fd s h =
      rw (h.server, lose_peer)
        (record {
          server = refl;
          tracked =
              ap (λ m. erase fd m) h.tracked
              ∙ sym (replay-append [] s.input_packet_queue (item disconnect fd ∷ []));
          watching = λ j.
              rw (has-erase fd j s.watched, has-erase fd j s.connected_nodes)
                (rw (h.watching j) refl);
          buffers = λ j c e. h.buffers j c (lookup-erase-some fd j c s.watched e);
        })

  put-IsConsistent :
      (fd : ℕ) (c : ConnectionEventData) (s : Node P)
      → has fd s.watched ≡ true
      → IsBuffer fd c
      → IsConsistent s
      → IsConsistent (put fd c s)
  unfolding put
  put-IsConsistent fd c s known b h = record {
    server = h.server;
    tracked = h.tracked;
    watching = λ j. elim (Bool-cases (fd == j)) [
      | inl y ↦
          rw (has-insert fd j c s.watched, y)
            (sym known ∙ ap (λ n. has n s.watched) ((==_iff fd j).0 y) ∙ h.watching j)
      | inr n ↦ rw (has-insert fd j c s.watched, n) (h.watching j)
    ];
    buffers = λ j c' e. elim (lookup-insert_cases fd j c c' s.watched e) [
      | inl (k, same) ↦ rw (← k, ← same) b
      | inr old ↦ h.buffers j c' old
    ];
  }

  enqueue-IsConsistent :
      (ps : List P) (s : Node P) → IsConsistent s → IsConsistent (enqueue (map parsed ps) s)
  unfolding enqueue
  enqueue-IsConsistent ps s h = record {
    server = h.server;
    tracked =
        h.tracked
        ∙ sym (
            replay-append [] s.input_packet_queue (map parsed ps)
            ∙ replay-parsed (replay [] s.input_packet_queue) ps);
    watching = h.watching;
    buffers = h.buffers;
  }

  module _ (parse : ℕ → Bytes → Read (Option P)) (set_fd : ℕ → P → P) (fuel : ℕ) where
    parse_buffer-IsConsistent :
        (fd : ℕ) (c : ConnectionEventData) (s : Node P) (d : Drained P)
        → drain parse set_fd fuel c ≡ d
        → LeavesBuffer fd d
        → has fd s.watched ≡ true
        → IsConsistent s
        → TurnIsConsistent (parse_buffer parse set_fd fuel fd c s)
    unfolding parse_buffer enqueue
    parse_buffer-IsConsistent fd c s (stopped c' ps) e b known h =
        rw (e, parse_buffer)
          (put-IsConsistent fd c' (enqueue (map parsed ps) s) known b (enqueue-IsConsistent ps s h))
    parse_buffer-IsConsistent fd c s crashed e b known h = rw (e, parse_buffer) tt
    parse_buffer-IsConsistent fd c s (unfinished ps) e b known h = rw (e, parse_buffer) tt

    after_read-IsConsistent :
        (fd : ℕ) (end : ReadEnd) (c : ConnectionEventData) (s : Node P)
        → IsBuffer fd c
        → has fd s.watched ≡ true
        → IsConsistent s
        → TurnIsConsistent (after_read parse set_fd fuel fd end c s)
    unfolding after_read
    after_read-IsConsistent fd readout c s b known h =
        parse_buffer-IsConsistent fd c s (drain parse set_fd fuel c) refl
          (drain-LeavesBuffer parse set_fd fd fuel c b) known h
    after_read-IsConsistent fd read_error c s b known h = put-IsConsistent fd c s known b h
    after_read-IsConsistent fd ended c s b known h =
        lose_peer-IsConsistent fd (put fd c s) (put-IsConsistent fd c s known b h)

    handle_read-IsConsistent :
        (fd : ℕ) (answers : List RecvAnswer) (s : Node P)
        → IsConsistent s
        → TurnIsConsistent (handle_read parse set_fd fuel fd answers s)
    unfolding handle_read cleared
    handle_read-IsConsistent fd answers s h = elim (Option-cases (lookup fd s.watched)) [
      | inl e ↦ rw (e, handle_read) tt
      | inr (c, e) ↦
          let b = h.buffers fd c e in
          rw (e, handle_read)
            (after_read-IsConsistent fd (read_loop (cleared c) answers).1
              (read_loop (cleared c) answers).0 s
              (read_loop-IsBuffer fd (cleared c) answers
                (record { owner = b.owner; bound = b.bound }))
              (has_of_lookup fd c s.watched e) h)
    ]

    accepts :
        (answer : AcceptAnswer) (s : Node P)
        → s.is_server ≡ true
        → handle_event parse set_fd fuel (on_listen answer) s ≡ handle_accept answer s
    unfolding handle_event
    accepts answer s e = ap (λ b. if b then handle_accept answer s else crashes) e

    handle_event-IsConsistent :
        (event : Event) (s : Node P)
        → IsConsistent s
        → TurnIsConsistent (handle_event parse set_fd fuel event s)
    unfolding handle_event
    handle_event-IsConsistent (on_listen answer) s h =
        rw (accepts answer s h.server) (handle_accept-IsConsistent answer s h)
    handle_event-IsConsistent (readable fd answers) s h = handle_read-IsConsistent fd answers s h
    handle_event-IsConsistent (hang_up fd) s h = lose_peer-IsConsistent fd s h
    handle_event-IsConsistent error_event s h = h

    handle_events-IsConsistent :
        (events : List Event) (s : Node P)
        → IsConsistent s
        → TurnIsConsistent (handle_events parse set_fd fuel events s)
    unfolding handle_events
    handle_events-IsConsistent [] s h = h
    handle_events-IsConsistent (event ∷ events) s h =
        elim (handle_event parse set_fd fuel event s)
            as (λ t.
              TurnIsConsistent t
              → TurnIsConsistent (elim t [
                | goes_on s' ↦ handle_events parse set_fd fuel events s'
                | breaks s' ↦ goes_on s'
                | exits ↦ exits
                | crashes ↦ crashes
                | runs_on ↦ runs_on
              ])) [
                | goes_on s' ↦ λ k. handle_events-IsConsistent events s' k
                | breaks s' ↦ λ k. k
                | exits ↦ λ k. tt
                | crashes ↦ λ k. tt
                | runs_on ↦ λ k. tt
              ]
          (handle_event-IsConsistent event s h)

    -- Whatever the events and the answers of the system calls are, a server's loop keeps its state
    -- consistent, as long as it does not read or move memory outside of a buffer, need more than `fuel`
    -- rounds for the packets of one, or end the program: the connected nodes are those that the CONNECT and DISCONNECT packets tell of that the loop
    -- itself made, read in order (a packet of a peer is not counted, whatever its type); the sockets that
    -- epoll watches are exactly those of these nodes; and each of them has a buffer of its own that is
    -- not overfull.
    pub receive_task-IsConsistent :
        (rounds : List (List Event)) (s : Node P)
        → IsConsistent s
        → TurnIsConsistent (receive_task parse set_fd fuel rounds s)
    unfolding receive_task
    receive_task-IsConsistent [] s h = h
    receive_task-IsConsistent (events ∷ rest) s h =
        if-IsConsistent s.is_running _ _
          (elim (handle_events parse set_fd fuel events s)
              as (λ t.
                TurnIsConsistent t
                → TurnIsConsistent (elim t [
                  | goes_on s' ↦ receive_task parse set_fd fuel rest s'
                  | breaks s' ↦ breaks s'
                  | exits ↦ exits
                  | crashes ↦ crashes
                  | runs_on ↦ runs_on
                ])) [
                  | goes_on s' ↦ λ k. receive_task-IsConsistent rest s' k
                  | breaks s' ↦ λ k. k
                  | exits ↦ λ k. tt
                  | crashes ↦ λ k. tt
                  | runs_on ↦ λ k. tt
                ]
            (handle_events-IsConsistent events s h))
          (record {
            server = h.server;
            tracked = h.tracked;
            watching = h.watching;
            buffers = h.buffers;
          })
