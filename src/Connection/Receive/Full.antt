-- ===== src/Connection/Receive/Full.antt =====
-- The receive loop of src/connection/connection.cpp when the free space of the buffer is smaller
-- than the packet at its front.
use ssyncd.Common.{
  ℕ, zero, suc, ◌≤◌, ◌<◌, ◌≡◌, refl, false, Option, some, List, [], ◌∷◌, arith, leb, le→ltb,
  unsigned_sub,
}
use ssyncd.Common.Bytes.{Bytes}
use ssyncd.Connection.Cursor.{Read, got}
use ssyncd.Connection.Receive.{
  ConnectionEventData, max_packet_size, after_packet, unfinished, drain,
}

abbrev pub copies {ℓ} : {P : Type ℓ} → ℕ → P → List P
copies zero p = []
copies (suc n) p = p ∷ copies n p

lt→leb : (a b : ℕ) → b < a → leb a b ≡ false
lt→leb a b h = ground arith

-- Where the buffer holds at least five bytes, and the packet at its front needs more bytes than are free
-- (MAX_PACKET_SIZE - buffer_size, on unsigned int), the loop never ends: it does not move the buffer on,
-- and enqueues the same packet once in every round.
pub drain_full {ℓ} :
    {P : Type ℓ} (parse : ℕ → Bytes → Read (Option P)) (set_fd : ℕ → P → P) (fuel : ℕ)
    (c : ConnectionEventData) (p : P) (used : ℕ) (rest : Bytes)
    → parse c.buffer_size c.buffer ≡ got (some p) used rest
    → 5 ≤ c.buffer_size
    → unsigned_sub max_packet_size c.buffer_size < used
    → drain parse set_fd fuel c ≡ unfinished (copies fuel (set_fd c.fd p))
unfolding drain after_packet
drain_full parse set_fd zero c p used rest e big full = refl
drain_full parse set_fd (suc fuel) c p used rest e big full =
    let same = drain_full parse set_fd fuel c p used rest e big full in
    rw (e, drain)
      (rw (lt→leb used (unsigned_sub max_packet_size c.buffer_size) full, after_packet)
        (rw (le→ltb c.buffer_size 5 big, same)))
