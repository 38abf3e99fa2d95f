-- ===== src/Connection/Events/Reader.antt =====
-- The packets of a server of src/connection/connection.cpp as src/sync/sync_master.cpp reads them, which
-- does not see which of them came from a peer.
use ssyncd.Common.{ℕ, ◌≡◌, ◌⊎◌, inl, inr, refl, sym, ap, ◌∙◌, Option, none, some, List, [], ◌∷◌}
use mathlib.Core.Path.{subst}
use ssyncd.Common.Bytes.{Bytes}
use ssyncd.Common.Map.{Map, has}
use ssyncd.Common.Ordered.{nat_ordered}
use ssyncd.Connection.Cursor.{Read}
use ssyncd.Connection.Packet.{
  ConnPacket, PacketType, connect, disconnect, generic, xt_recent_sync, xt_recent_table, http_sync,
  ctl_command, sync_request, other_type,
}
use ssyncd.Connection.Events.{Node, Item, made, parsed, goes_on, breaks, Event, receive_task}
use ssyncd.Connection.Events.Nodes.{
  note, replay, IsConsistent, TurnIsConsistent, receive_task-IsConsistent,
}

-- A type of packet that tells nothing about the connected nodes.
abbrev pub IsQuiet : PacketType → Type 0
IsQuiet connect = ⊥
IsQuiet disconnect = ⊥
IsQuiet _ = Unit

note_quiet : (fd : Option ℕ) (t : PacketType) (m : Map ℕ (Unit {0})) → IsQuiet t → note fd t m ≡ m
unfolding note
note_quiet none t m h = refl
note_quiet (some fd) connect m h = absurd h
note_quiet (some fd) disconnect m h = absurd h
note_quiet (some fd) generic m h = refl
note_quiet (some fd) xt_recent_sync m h = refl
note_quiet (some fd) xt_recent_table m h = refl
note_quiet (some fd) http_sync m h = refl
note_quiet (some fd) ctl_command m h = refl
note_quiet (some fd) sync_request m h = refl
note_quiet (some fd) (other_type n) m h = refl

module _ {ℓ} {P : Type ℓ} (base_of : P → ConnPacket) where
  -- The nodes that are connected to one who reads these packets in order, and takes each for what its
  -- type and fd say.
  unfoldable pub read_all : Map ℕ (Unit {0}) → List (Item P) → Map ℕ (Unit {0})
  unfolding note
  read_all m [] = m
  read_all m (made p ∷ items) = read_all (note p.fd p.type m) items
  read_all m (parsed p ∷ items) = read_all (note (base_of p).fd (base_of p).type m) items

  -- No peer sent a CONNECT or a DISCONNECT.
  abbrev pub AreQuiet : List (Item P) → Type 0
  AreQuiet [] = Unit
  AreQuiet (made p ∷ items) = AreQuiet items
  AreQuiet (parsed p ∷ items) = IsQuiet (base_of p).type × AreQuiet items

  read_all-replay :
      (m : Map ℕ (Unit {0})) (items : List (Item P))
      → AreQuiet items
      → read_all m items ≡ replay m items
  unfolding read_all replay
  read_all-replay m [] h = refl
  read_all-replay m (made p ∷ items) h = read_all-replay (note p.fd p.type m) items h
  read_all-replay m (parsed p ∷ items) (q, h) =
      ap (λ n. read_all n items) (note_quiet (base_of p).fd (base_of p).type m q)
      ∙ read_all-replay m items h

  -- A server is consistent and handles any events, with any answers of the system calls, until its loop
  -- waits for more or has ended; it does not crash, end the program, or need more than `fuel` rounds for
  -- the packets of a buffer. If none of the packets that it ever got from its peers is a CONNECT or a
  -- DISCONNECT, then one who reads all packets that it enqueued, in order, knows exactly the nodes that are
  -- connected, and these are the nodes whose sockets epoll watches.
  pub receive_task-read_all :
      (parse : ℕ → Bytes → Read (Option P)) (set_fd : ℕ → P → P) (fuel : ℕ)
      (rounds : List (List Event)) (s s' : Node P)
      → IsConsistent s
      → (receive_task parse set_fd fuel rounds s ≡ goes_on s')
        ⊎ (receive_task parse set_fd fuel rounds s ≡ breaks s')
      → AreQuiet s'.input_packet_queue
      → (read_all [] s'.input_packet_queue ≡ s'.connected_nodes)
        × ((fd : ℕ) → has fd s'.watched ≡ has fd (read_all [] s'.input_packet_queue))
  receive_task-read_all parse set_fd fuel rounds s s' h e quiet =
      let all = receive_task-IsConsistent parse set_fd fuel rounds s h in
      let k : IsConsistent s' = elim e [
        | inl y ↦ subst TurnIsConsistent y all
        | inr n ↦ subst TurnIsConsistent n all
      ] in
      let same : read_all [] s'.input_packet_queue ≡ s'.connected_nodes =
        read_all-replay [] s'.input_packet_queue quiet ∙ sym k.tracked in
      (same, λ fd. k.watching fd ∙ ap (λ m. has fd m) (sym same))
