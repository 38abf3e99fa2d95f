-- ===== src/Http/Farms/Buffers.antt =====
-- The buffers of http_sync::listen_task of src/http/http_sync.cpp, and the actions that are read from them.
use mathlib.Core.Path.{subst}
use ssyncd.Connection.Receive.{
  max_packet_size, ConnectionEventData, Drained, stopped, crashed, unfinished, enqueued,
}
use ssyncd.Common.{
  ◌+◌, ◌<◌, unsigned_sub, Option-cases, leb→le, not_leb→lt, Option, none, ℕ, zero, suc, ◌-◌, ◌≤◌,
  ◌≡◌, refl, ap, some, List, [], ◌∷◌, length, take, ltb, leb, is_empty, All, Bool-cases, inl, inr,
  arith,
}
use ssyncd.Common.Bytes.{Bytes}
use ssyncd.Common.Ordered.{nat_ordered}
use ssyncd.Connection.Events.{append_chunk}
use ssyncd.Connection.Events.Reading.{Read-cases, length-take}
use ssyncd.Http.Session.{HttpAction, Indeterminate}
use ssyncd.Http.Parser.{deserialize_http}
use ssyncd.Http.Farms.{http_max_packet_size, drain_http, consume_action, from_farm}
use ssyncd.Http.Farms.Listening.{RecvAnswer, stored, end_of_stream, recv_error, read_loop, cleared}

-- A buffer of the socket `fd` that is not overfull.
abbrev pub IsBuffer : ℕ → ConnectionEventData → Type 0
IsBuffer fd c = (c.fd ≡ fd) × (c.buffer_size ≤ http_max_packet_size)

-- An action of the socket `fd`, under the name of the farm that the socket belongs to.
abbrev pub IsFrom : (ℕ → Bytes) → ℕ → HttpAction → Type 0
IsFrom names fd x = (x.pkt.fd ≡ some fd) × (x.farm_name ≡ names fd)

append_chunk-IsBuffer :
    (fd : ℕ) (c : ConnectionEventData) (bytes : Bytes)
    → IsBuffer fd c
    → IsBuffer fd (append_chunk c (take (http_max_packet_size - c.buffer_size) bytes))
unfolding append_chunk
append_chunk-IsBuffer fd c bytes (o, b) =
    (o, omega (arith, b, length-take (http_max_packet_size - c.buffer_size) bytes))

pub read_loop-IsBuffer :
    (fd : ℕ) (c : ConnectionEventData) (answers : List RecvAnswer)
    → IsBuffer fd c
    → IsBuffer fd (read_loop c answers).0
unfolding read_loop
read_loop-IsBuffer fd c [] h = h
read_loop-IsBuffer fd c (recv_error reset ∷ answers) h = h
read_loop-IsBuffer fd c (end_of_stream ∷ answers) h = h
read_loop-IsBuffer fd c (stored bytes ∷ answers) h =
    let chunk = take (http_max_packet_size - c.buffer_size) bytes in
    let more = append_chunk-IsBuffer fd c bytes h in
    elim (Bool-cases (is_empty chunk)) [
      | inl y ↦ rw y h
      | inr n ↦ elim (Bool-cases (leb http_max_packet_size (length chunk))) [
        | inl y ↦ rw (n, y) more
        | inr m ↦ rw (n, m) (read_loop-IsBuffer fd (append_chunk c chunk) answers more)
      ]
    ]

pub cleared-IsBuffer : (fd : ℕ) (c : ConnectionEventData) → IsBuffer fd c → IsBuffer fd (cleared c)
unfolding cleared
cleared-IsBuffer fd c h = elim (Bool-cases (ltb 4 (http_max_packet_size - c.buffer_size))) [
  | inl y ↦ rw y h
  | inr n ↦ rw n h
]

-- A buffer that is left, if one is.
abbrev OptionIsBuffer : ℕ → Option ConnectionEventData → Type 0
OptionIsBuffer fd none = Unit
OptionIsBuffer fd (some c) = IsBuffer fd c

-- What the difference that wraps around can be.
moved_bound :
    (size used : ℕ)
    → size ≤ http_max_packet_size
    → used + unsigned_sub size used ≤ max_packet_size
    → unsigned_sub size used ≤ http_max_packet_size
moved_bound size used b h = omega (arith, b, h)

kept_bound :
    (size used : ℕ)
    → size ≤ http_max_packet_size
    → unsigned_sub http_max_packet_size (unsigned_sub size used) < used
    → unsigned_sub size used ≤ http_max_packet_size
kept_bound size used b h = omega (arith, b, h)

consume_action-IsBuffer :
    (fd : ℕ) (c : ConnectionEventData) (used : ℕ)
    → IsBuffer fd c
    → OptionIsBuffer fd (consume_action c used)
unfolding consume_action
consume_action-IsBuffer fd c used (o, b) =
    let left = unsigned_sub c.buffer_size used in
    elim (Bool-cases (leb used (unsigned_sub http_max_packet_size left))) [
      | inl y ↦ elim (Bool-cases (leb (used + left) max_packet_size)) [
        | inl z ↦ rw (y, z) (o, moved_bound c.buffer_size used b (leb→le _ _ z))
        | inr z ↦ rw (y, z) tt
      ]
      | inr n ↦ rw n (o, kept_bound c.buffer_size used b (not_leb→lt _ _ n))
    ]

-- What the loop over the actions of a socket leaves.
abbrev pub DrainIsFrom : (ℕ → Bytes) → ℕ → Drained HttpAction → Type 0
DrainIsFrom names fd (stopped c xs) = IsBuffer fd c × All (IsFrom names fd) xs
DrainIsFrom names fd crashed = Unit
DrainIsFrom names fd (unfinished xs) = Unit

enqueued-IsFrom :
    (names : ℕ → Bytes) (fd : ℕ) (x : HttpAction) (d : Drained HttpAction)
    → IsFrom names fd x
    → DrainIsFrom names fd d
    → DrainIsFrom names fd (enqueued (x ∷ []) d)
enqueued-IsFrom names fd x (stopped c xs) hx (b, h) = (b, (hx, h))
enqueued-IsFrom names fd x crashed hx h = tt
enqueued-IsFrom names fd x (unfinished xs) hx h = tt

pub drain_http-IsFrom :
    (g : Indeterminate) (names : ℕ → Bytes) (fd : ℕ) (fuel : ℕ) (c : ConnectionEventData)
    → IsBuffer fd c
    → DrainIsFrom names fd (drain_http g (names fd) fuel c)
unfolding drain_http from_farm
drain_http-IsFrom g names fd zero c h = tt
drain_http-IsFrom g names fd (suc fuel) c h =
    elim (Read-cases (deserialize_http g) (λ fd x. x) (deserialize_http g c.buffer_size c.buffer)) [
      | inl e ↦ rw (e, drain_http) tt
      | inr (inl (used, rest, e)) ↦ rw (e, drain_http) (h, tt)
      | inr (inr (x, used, rest, e)) ↦ elim (Option-cases (consume_action c used)) [
        | inl n ↦ rw (e, drain_http) (rw n tt)
        | inr (c', s) ↦
            rw (e, drain_http)
              (rw s (
                enqueued-IsFrom names fd (from_farm c.fd (names fd) x) _ (ap some h.0, refl)
                  (drain_http-IsFrom g names fd fuel c'
                    (subst (OptionIsBuffer fd) s (consume_action-IsBuffer fd c used h)))))
      ]
    ]
