-- ===== src/Connection/Events/Reading.antt =====
-- The buffers of src/connection/connection.cpp: a read and its packets keep them in bounds.
use mathlib.Core.Path.{subst}
use ssyncd.Common.{
  leb→le, ◌+◌, unsigned_sub, Option-cases, ℕ, zero, suc, ◌-◌, ◌≤◌, ◌≡◌, refl, none, some, Option,
  List, [], ◌∷◌, arith, length, take, leb, ltb, is_empty, Bool-cases, inl, inr, ◌⊎◌,
}
use ssyncd.Common.Bytes.{Bytes}
use ssyncd.Connection.Cursor.{Read, fault, got}
use ssyncd.Connection.Receive.{
  ConnectionEventData, max_packet_size, drain, after_packet, consume, Drained, stopped, crashed,
  unfinished, enqueued,
}
use ssyncd.Connection.Events.{
  RecvAnswer, stored, end_of_stream, recv_error, read_loop, append_chunk,
}

-- A buffer that belongs to `fd` and is not overfull.
pub record IsBuffer (fd : ℕ) (c : ConnectionEventData) : Type 0 where
  pub owner : c.fd ≡ fd
  pub bound : c.buffer_size ≤ max_packet_size

pub length-take : (n : ℕ) (xs : Bytes) → length (take n xs) ≤ n
length-take zero xs = omega arith
length-take (suc n) [] = omega arith
length-take (suc n) (x ∷ xs) = omega (arith, length-take n xs)

append_chunk-IsBuffer :
    (fd : ℕ) (c : ConnectionEventData) (bytes : Bytes)
    → IsBuffer fd c
    → IsBuffer fd (append_chunk c (take (max_packet_size - c.buffer_size) bytes))
unfolding append_chunk
append_chunk-IsBuffer fd c bytes h = record {
  owner = h.owner;
  bound = omega (arith, h.bound, length-take (max_packet_size - c.buffer_size) bytes);
}

-- A buffer that is not overfull, of the socket that is read, is still so after the loop of recv(), whatever
-- the sender has sent: nothing is written behind it.
pub read_loop-IsBuffer :
    (fd : ℕ) (c : ConnectionEventData) (answers : List RecvAnswer)
    → IsBuffer fd c
    → IsBuffer fd (read_loop c answers).0
unfolding read_loop
read_loop-IsBuffer fd c [] h = h
read_loop-IsBuffer fd c (recv_error ∷ answers) h = h
read_loop-IsBuffer fd c (end_of_stream ∷ answers) h = h
read_loop-IsBuffer fd c (stored bytes ∷ answers) h =
    let chunk = take (max_packet_size - c.buffer_size) bytes in
    let more = append_chunk-IsBuffer fd c bytes h in
    elim (Bool-cases (is_empty chunk)) [
      | inl y ↦ rw y h
      | inr n ↦ elim (Bool-cases (leb max_packet_size (length chunk))) [
        | inl y ↦ rw (n, y) more
        | inr m ↦ rw (n, m) (read_loop-IsBuffer fd (append_chunk c chunk) answers more)
      ]
    ]

-- A buffer that is left, if one is.
abbrev OptionIsBuffer : ℕ → Option ConnectionEventData → Type 0
OptionIsBuffer fd none = Unit
OptionIsBuffer fd (some c) = IsBuffer fd c

after_packet-IsBuffer :
    (fd : ℕ) (c : ConnectionEventData) (used : ℕ)
    → IsBuffer fd c
    → OptionIsBuffer fd (after_packet c used)
unfolding after_packet consume
after_packet-IsBuffer fd c used h =
    elim (Bool-cases (leb used (unsigned_sub max_packet_size c.buffer_size))) [
      | inl y ↦
          let left = unsigned_sub c.buffer_size used in
          elim (Bool-cases (leb (used + left) max_packet_size)) [
            | inl z ↦ rw (y, z) (record { owner = h.owner; bound = omega (arith, leb→le _ _ z) })
            | inr z ↦ rw (y, z) tt
          ]
      | inr n ↦ rw n h
    ]

-- The buffer that the loop over the packets leaves.
abbrev pub LeavesBuffer {ℓ} : {P : Type ℓ} → ℕ → Drained P → Type 0
LeavesBuffer fd (stopped c ps) = IsBuffer fd c
LeavesBuffer fd crashed = Unit
LeavesBuffer fd (unfinished ps) = Unit

module _ {ℓ} {P : Type ℓ} (parse : ℕ → Bytes → Read (Option P)) (set_fd : ℕ → P → P) where
  enqueued-LeavesBuffer :
      (fd : ℕ) (ps : List P) (d : Drained P) → LeavesBuffer fd d → LeavesBuffer fd (enqueued ps d)
  enqueued-LeavesBuffer fd ps (stopped c qs) h = h
  enqueued-LeavesBuffer fd ps crashed h = tt
  enqueued-LeavesBuffer fd ps (unfinished qs) h = tt

  pub Read-cases :
      (r : Read (Option P))
      → (r ≡ fault)
        ⊎ ((used : ℕ) × (rest : Bytes) × (r ≡ got none used rest))
        ⊎ ((p : P) × (used : ℕ) × (rest : Bytes) × (r ≡ got (some p) used rest))
  Read-cases fault = inl refl
  Read-cases (got none used rest) = inr (inl (used, rest, refl))
  Read-cases (got (some p) used rest) = inr (inr (p, used, rest, refl))

  pub drain-LeavesBuffer :
      (fd fuel : ℕ) (c : ConnectionEventData)
      → IsBuffer fd c
      → LeavesBuffer fd (drain parse set_fd fuel c)
  unfolding drain
  drain-LeavesBuffer fd zero c h = tt
  drain-LeavesBuffer fd (suc fuel) c h = elim (Read-cases (parse c.buffer_size c.buffer)) [
    | inl e ↦ rw (e, drain) tt
    | inr (inl (used, rest, e)) ↦ rw (e, drain) h
    | inr (inr (p, used, rest, e)) ↦ elim (Option-cases (after_packet c used)) [
      | inl n ↦ rw (e, drain) (rw n tt)
      | inr (c', s) ↦
          let left : IsBuffer fd c' =
            subst (OptionIsBuffer fd) s (after_packet-IsBuffer fd c used h) in
          elim (Bool-cases (ltb c'.buffer_size 5)) [
            | inl y ↦ rw (e, drain) (rw s (rw y left))
            | inr n ↦
                rw (e, drain)
                  (rw s (
                    rw n (
                      enqueued-LeavesBuffer fd (set_fd c.fd p ∷ []) (drain parse set_fd fuel c')
                        (drain-LeavesBuffer fd fuel c' left))))
          ]
    ]
  ]
