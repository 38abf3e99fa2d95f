-- ===== src/Connection/Receive/Buffer.antt =====
-- What the buffer of src/connection/connection.cpp holds, and what a read and a packet leave in it.
use ssyncd.Common.{
  Bool-cases, ℕ, ◌+◌, ◌-◌, ◌≡◌, refl, sym, inl, inr, ◌∷◌, ◌++◌, append_assoc, arith, length,
  length-append, take, drop, take-append, drop-append, ltb, ◌≤◌, some, le→leb, unsigned_sub_lem,
}
use ssyncd.Common.Bytes.{Bytes}
use ssyncd.Connection.Receive.{
  ConnectionEventData, max_packet_size, clear_header, store_chunk, consume,
}

-- `buffer_size` bytes of the buffer are `s`.
pub record Holds (c : ConnectionEventData) (s : Bytes) : Type 0 where
  pub size : c.buffer_size ≡ length s
  pub stale : Bytes
  pub content : c.buffer ≡ s ++ stale

clear_header-Holds :
    (c : ConnectionEventData) (s : Bytes)
    → Holds c s
    → (stale : Bytes) × (clear_header c ≡ s ++ stale)
unfolding clear_header
clear_header-Holds c s h = elim (Bool-cases (ltb 4 (max_packet_size - c.buffer_size))) [
  | inl y ↦ (
    0 ∷ 0 ∷ 0 ∷ 0 ∷ 0 ∷ drop (c.buffer_size + 5) c.buffer,
    rw (y, h.size, h.content, take-append s h.stale) refl,
  )
  | inr y ↦ (h.stale, rw y h.content)
]

stored_lem :
    (size : ℕ) (buffer s stale chunk : Bytes)
    → size ≡ length s
    → buffer ≡ s ++ stale
    → take size buffer ++ (chunk ++ drop (size + length chunk) buffer)
      ≡ (s ++ chunk) ++ drop (size + length chunk) buffer
stored_lem size buffer s stale chunk hs hb =
    rw (hs, hb, take-append s stale) (sym (append_assoc s chunk _))

pub store_chunk-Holds :
    (c : ConnectionEventData) (s chunk : Bytes)
    → Holds c s
    → Holds (store_chunk c chunk) (s ++ chunk)
unfolding store_chunk
store_chunk-Holds c s chunk h =
    let (stale, content) = clear_header-Holds c s h in
    record {
      size = rw length-append (omega (arith, h.size));
      stale = drop (c.buffer_size + length chunk) (clear_header c);
      content = stored_lem c.buffer_size (clear_header c) s stale chunk h.size content;
    }

-- The buffer without its first bytes.
abbrev pub dropped : ConnectionEventData → ℕ → ConnectionEventData
dropped c used =
    let left = c.buffer_size - used in
    record c { buffer = take left (drop used c.buffer) ++ drop left c.buffer; buffer_size = left }

-- For a packet that ends in the received part of the buffer, the difference does not wrap around.
pub consume-dropped :
    (c : ConnectionEventData) (used : ℕ)
    → used ≤ c.buffer_size
    → c.buffer_size ≤ max_packet_size
    → consume c used ≡ some (dropped c used)
unfolding consume
consume-dropped c used h b =
    rw (unsigned_sub_lem c.buffer_size used h (omega (arith, b)))
      (rw (le→leb (used + (c.buffer_size - used)) max_packet_size (omega (arith, h, b))) refl)

pub consume-Holds :
    (c : ConnectionEventData) (w s : Bytes) → Holds c (w ++ s) → Holds (dropped c (length w)) s
consume-Holds c w s h = record {
  size = left;
  stale = drop (c.buffer_size - length w) c.buffer;
  content =
      rw (left, h.content, append_assoc w s h.stale, drop-append w (s ++ h.stale))
        (rw (take-append s h.stale));
}
  where
    left : c.buffer_size - length w ≡ length s
    left = omega (arith, h.size, length-append w s)
