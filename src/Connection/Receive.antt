-- ===== src/Connection/Receive.antt =====
-- The reading of a ready socket in connection::receive_task of src/connection/connection.cpp. The
-- parser is the one that `set_parser` installs, a `packet_parser` of src/connection.
pub mod Codec
pub mod Buffer
pub mod Stream
pub mod Full
use ssyncd.Common.{
  ℕ, zero, suc, ◌+◌, ◌*◌, ◌-◌, ◌≡◌, refl, Bool, true, false, Option, none, some, List, [], ◌∷◌,
  ◌++◌, take, drop, length, ltb, leb, if◌then◌else◌, unsigned_sub,
}
use ssyncd.Common.Bytes.{Bytes}
use ssyncd.Connection.Cursor.{Read, fault, got}

-- MAX_PACKET_SIZE
abbrev pub max_packet_size : ℕ
max_packet_size = 65555 * 100

-- struct connection_event_data. `buffer` is the whole array, with what earlier reads left in it.
pub record ConnectionEventData : Type 0 where
  pub fd : ℕ
  pub buffer : Bytes
  pub buffer_size : ℕ

-- The buffer after the memset of the five bytes behind the received ones, where they have room.
unfoldable pub clear_header : ConnectionEventData → Bytes
clear_header c =
    if ltb 4 (max_packet_size - c.buffer_size)
    then take c.buffer_size c.buffer ++ (0 ∷ 0 ∷ 0 ∷ 0 ∷ 0 ∷ drop (c.buffer_size + 5) c.buffer)
    else c.buffer

-- recv(fd, buffer + buffer_size, ...) that stored `chunk`, and `buffer_size += nread`
unfoldable pub store_chunk : ConnectionEventData → Bytes → ConnectionEventData
unfolding clear_header
store_chunk c chunk =
    let buffer = clear_header c in
    record c {
      buffer = take c.buffer_size buffer ++ (chunk ++ drop (c.buffer_size + length chunk) buffer);
      buffer_size = c.buffer_size + length chunk;
    }

-- buffer_size -= used; memmove(buffer, buffer + used, buffer_size). `none` is a memmove that reads
-- behind the array: where `used` exceeds buffer_size, the difference wraps around.
unfoldable pub consume : ConnectionEventData → ℕ → Option ConnectionEventData
consume c used =
    let left = unsigned_sub c.buffer_size used in
    if leb (used + left) max_packet_size
    then some (record c {
      buffer = take left (drop used c.buffer) ++ drop left c.buffer;
      buffer_size = left;
    })
    else none

-- The buffer after a packet that used `used` bytes: left alone where they exceed the free space.
unfoldable pub after_packet : ConnectionEventData → ℕ → Option ConnectionEventData
unfolding consume
after_packet c used =
    if leb used (unsigned_sub max_packet_size c.buffer_size) then consume c used else some c

-- How the loop over the received packets ends: by a `break`, with the packets that it enqueued; by a
-- read or a memmove outside of the buffer; or not within the given rounds.
pub data Drained {ℓ} (P : Type ℓ) : Type ℓ where
  stopped : ConnectionEventData → List P → Drained P
  crashed : Drained P
  unfinished : List P → Drained P

module _ {ℓ} {P : Type ℓ} where
  abbrev pub enqueued : List P → Drained P → Drained P
  enqueued ps (stopped c qs) = stopped c (ps ++ qs)
  enqueued ps crashed = crashed
  enqueued ps (unfinished qs) = unfinished (ps ++ qs)

  -- The loop `while (true)` after a read. `parse` is `data_parser->deserialize`, and `set_fd fd` is
  -- `new_packet->fd = c_data->fd`.
  unfoldable pub drain :
      (ℕ → Bytes → Read (Option P)) → (ℕ → P → P) → ℕ → ConnectionEventData → Drained P
  unfolding after_packet
  drain parse set_fd zero c = unfinished []
  drain parse set_fd (suc fuel) c = elim (parse c.buffer_size c.buffer) [
    | fault ↦ crashed
    | got none used rest ↦ stopped c []
    | got (some p) used rest ↦ elim (after_packet c used) [
      | none ↦ crashed
      | some c' ↦
          let more = drain parse set_fd fuel c' in
          enqueued (set_fd c.fd p ∷ []) (if ltb c'.buffer_size 5 then stopped c' [] else more)
    ]
  ]

  -- Reads that stored these chunks one after the other, each followed by the loop.
  unfoldable pub receive :
      (ℕ → Bytes → Read (Option P)) → (ℕ → P → P) → ℕ → ConnectionEventData → List Bytes → Drained P
  receive parse set_fd fuel c [] = stopped c []
  receive parse set_fd fuel c (chunk ∷ chunks) =
      elim (drain parse set_fd fuel (store_chunk c chunk)) [
        | crashed ↦ crashed
        | unfinished ps ↦ unfinished ps
        | stopped c' ps ↦ enqueued ps (receive parse set_fd fuel c' chunks)
      ]
