-- ===== src/Sync/PktParser/Delivery.antt =====
-- Packets from one node to the other: written by src/sync/pkt_parser.cpp, cut by TCP, and found
-- again by the receive loop of src/connection/connection.cpp.
use ssyncd.Common.{ℕ, ◌+◌, ◌≤◌, ◌<◌, ◌≡◌, refl, ap, List, [], ◌∷◌, ◌++◌, map, arith, length, All}
use ssyncd.Common.Bytes.{Bytes}
use ssyncd.Connection.PacketParser.{Serialized, written, refused, raised}
use ssyncd.Connection.Receive.{ConnectionEventData, max_packet_size, stopped, receive}
use ssyncd.Connection.Receive.Stream.{Frames, no_frames, frame, receive_stream, join}
use ssyncd.Sync.PktParser.{Packet, Unset, set_fd, serialize, deserialize}
use ssyncd.Sync.PktParser.RoundTrip.{IsSendable, received, serialize-wire}
use ssyncd.Sync.PktParser.Framing.{pkt_codec}

abbrev pub bytes_of : Serialized → Bytes
bytes_of (written out n) = out
bytes_of refused = []
bytes_of raised = []

-- The bytes that sending these packets puts on the connection.
unfoldable pub outputs : Unset → List Packet → Bytes
outputs u [] = []
outputs u (p ∷ ps) = bytes_of (serialize u p) ++ outputs u ps

-- The packets as the receiver sees them. `u` is the memory of the sender, `v` that of the receiver.
unfoldable pub received_all : Unset → Unset → List Packet → List Packet
received_all u v [] = []
received_all u v (p ∷ ps) = received v p (length (bytes_of (serialize u p))) ∷ received_all u v ps

length-received_all : (u v : Unset) (ps : List Packet) → length (received_all u v ps) ≡ length ps
unfolding received_all
length-received_all u v [] = omega arith
length-received_all u v (p ∷ ps) = omega (arith, length-received_all u v ps)

outputs-Frames :
    (u v : Unset) (ps : List Packet)
    → All IsSendable ps
    → Frames (pkt_codec v) set_fd (outputs u ps) (received_all u v ps)
unfolding outputs received_all
outputs-Frames u v [] h = no_frames
outputs-Frames u v (p ∷ ps) (s, h) =
    frame (bytes_of (serialize u p)) (received v p (length (bytes_of (serialize u p))))
      (outputs u ps) (received_all u v ps) _
      (record {
        sent = p;
        sendable = s;
        bytes = ap bytes_of (serialize-wire u s).1;
        read_as = refl;
      })
      (outputs-Frames u v ps h) refl

-- One node serialises packets that fit the wire, and the other receives the bytes in chunks that
-- may end anywhere, each at least 131070 bytes shorter than its empty buffer. With more rounds for
-- each chunk than there are packets, the receive loop ends, and it has enqueued the packets that
-- were sent, all of them, in order and with the fd of the connection; its buffer is empty again.
pub delivery :
    (u v : Unset) (ps : List Packet) (chunks : List Bytes) (fuel : ℕ) (c : ConnectionEventData)
    → All IsSendable ps
    → c.buffer_size ≡ 0
    → join chunks ≡ outputs u ps
    → All (λ x. length x + 131070 ≤ max_packet_size) chunks
    → length ps < fuel
    → (c' : ConnectionEventData) × (receive (deserialize v) set_fd fuel c chunks
        ≡ stopped c' (map (set_fd c.fd) (received_all u v ps)))
      × (c'.buffer_size ≡ 0)
delivery u v ps chunks fuel c h empty e short enough =
    receive_stream (pkt_codec v) set_fd chunks (outputs u ps) (received_all u v ps) fuel c
      (outputs-Frames u v ps h) empty e short (omega (arith, length-received_all u v ps))
