-- ===== src/Connection/Events/Closing.antt =====
-- What src/connection/connection.cpp does with the bytes that come together with the end of a stream.
use ssyncd.Common.{
  ℕ, zero, suc, Option, ◌-◌, ◌≤◌, ◌<◌, ◌≡◌, refl, some, List, [], ◌∷◌, ◌++◌, arith, length, take,
  leb, is_empty, Bool-cases, inl, inr, All,
}
use ssyncd.Common.Bytes.{Bytes}
use ssyncd.Common.Ordered.{nat_ordered}
use ssyncd.Common.Map.{lookup}
use ssyncd.Connection.Cursor.{Read}
use ssyncd.Connection.Packet.{disconnect}
use ssyncd.Connection.Receive.{ConnectionEventData, max_packet_size}
use ssyncd.Connection.Events.{
  Node, Item, item, Turn, goes_on, breaks, exits, crashes, runs_on, readable, RecvAnswer, stored,
  end_of_stream, ended, read_loop, append_chunk, cleared, put, enqueue, lose_peer, after_read,
  handle_read, handle_event,
}

-- The answers of recv() that store these bytes, and then end the stream.
abbrev pub last_words : List Bytes → List RecvAnswer
last_words [] = end_of_stream ∷ []
last_words (bytes ∷ rest) = stored bytes ∷ last_words rest

take_short : (n : ℕ) (xs : Bytes) → length (take n xs) ≤ length xs
take_short zero xs = omega arith
take_short (suc n) [] = omega arith
take_short (suc n) (x ∷ xs) = omega (arith, take_short n xs)

read_loop-last_words :
    (chunks : List Bytes) (c : ConnectionEventData)
    → All (λ x. length x < max_packet_size) chunks
    → (read_loop c (last_words chunks)).1 ≡ ended
unfolding read_loop
read_loop-last_words [] c h = refl
read_loop-last_words (bytes ∷ rest) c (h, hs) =
    let chunk = take (max_packet_size - c.buffer_size) bytes in
    elim (Bool-cases (is_empty chunk)) [
      | inl y ↦ rw y refl
      | inr n ↦ elim (Bool-cases (leb max_packet_size (length chunk))) [
        | inl y ↦ absurd (ground (arith, take_short (max_packet_size - c.buffer_size) bytes))
        | inr m ↦ rw (n, m) (read_loop-last_words rest (append_chunk c chunk) hs)
      ]
    ]

-- The new packet of a turn is this one.
abbrev pub Enqueues : {P : Type 0} → Node P → Item P → Turn P → Type 0
Enqueues s x (goes_on s') = s'.input_packet_queue ≡ s.input_packet_queue ++ (x ∷ [])
Enqueues s x (breaks s') = s'.input_packet_queue ≡ s.input_packet_queue ++ (x ∷ [])
Enqueues s x exits = ⊥
Enqueues s x crashes = ⊥
Enqueues s x runs_on = ⊥

module _ {P : Type 0} where
  lose_peer-Enqueues :
      (fd : ℕ) (c : ConnectionEventData) (s : Node P)
      → Enqueues s (item disconnect fd) (lose_peer fd (put fd c s))
  unfolding lose_peer put enqueue
  lose_peer-Enqueues fd c s = elim (Bool-cases s.is_server) [
    | inl y ↦ rw (y, lose_peer) refl
    | inr n ↦ rw (n, lose_peer) refl
  ]

  -- Where the bytes of a peer come together with the end of its stream, none of its packets is
  -- enqueued, however many of them are complete: a DISCONNECT is all that the node hears.
  pub readable-last_words :
      (parse : ℕ → Bytes → Read (Option P)) (set_fd : ℕ → P → P) (fuel fd : ℕ) (chunks : List Bytes)
      (c : ConnectionEventData) (s : Node P)
      → lookup fd s.watched ≡ some c
      → All (λ x. length x < max_packet_size) chunks
      → Enqueues s
          (item disconnect fd)
          (handle_event parse set_fd fuel (readable fd (last_words chunks)) s)
  unfolding handle_event handle_read after_read
  readable-last_words parse set_fd fuel fd chunks c s e h =
      rw (e, handle_read)
        (rw (read_loop-last_words chunks (cleared c) h) (lose_peer-Enqueues fd _ s))
