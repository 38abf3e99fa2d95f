-- ===== src/Connection/Receive/Stream.antt =====
-- The receive loop of src/connection/connection.cpp finds the packets of the byte stream, however
-- TCP cuts the stream into reads.
use mathlib.Core.Path.{ap₂, subst}
use mathlib.Core.List.{nil≢cons, map-append}
use ssyncd.Common.{
  cut_append, All, true, false, Bool-cases, le→leb, ltb→lt, ℕ, zero, suc, ◌+◌, ◌*◌, ◌≤◌, ◌<◌, ◌≡◌,
  refl, sym, ap, ◌∙◌, ◌≢◌, ◌⊎◌, inl, inr, some, List, [], ◌∷◌, ◌++◌, map, append_assoc, append-nil,
  arith, length, length-append, ltb, leb, if◌then◌else◌, unsigned_sub, unsigned_sub_lem,
}
use ssyncd.Common.Bytes.{Bytes}
use ssyncd.Connection.Cursor.{got}
use ssyncd.Connection.Receive.{
  ConnectionEventData, max_packet_size, store_chunk, consume, after_packet, Drained, stopped,
  enqueued, drain, receive,
}
use ssyncd.Connection.Receive.Codec.{Codec, IsNull}
use ssyncd.Connection.Receive.Buffer.{
  Holds, store_chunk-Holds, consume-Holds, consume-dropped, dropped,
}

-- The bytes of all chunks.
abbrev pub join : List Bytes → Bytes
join [] = []
join (x ∷ xs) = x ++ join xs

module _ {P : Type 0} (k : Codec P) (set_fd : ℕ → P → P) where
  -- The bytes of whole packets, one after the other.
  pub data Frames : Bytes → List P → Type 0 where
    no_frames : Frames [] []
    frame :
        (w : Bytes) (p : P) (s : Bytes) (ps : List P) (t : Bytes)
        → k.IsFrame w p
        → Frames s ps
        → t ≡ w ++ s
        → Frames t (p ∷ ps)

  -- Nothing, or the beginning of a packet whose rest has not come.
  abbrev pub IsPart : Bytes → Type 0
  IsPart part =
      (part ≡ [])
      ⊎ ((w : Bytes) × (p : P) × (missing : Bytes) × k.IsFrame w p
          × (w ≡ part ++ missing)
          × (missing ≢ []))

  parse-part : (part junk : Bytes) → IsPart part → IsNull (k.parse (length part) (part ++ junk))
  parse-part part junk (inl e) = rw e (k.parse_nil junk)
  parse-part part junk (inr (w, p, missing, f, e, n)) = k.parse_part w p part missing junk f e n

  -- The loop has come to an end in `c'`, and has enqueued `ps`.
  pub record Settles (c : ConnectionEventData) (part : Bytes) (ps : List P) (d : Drained P)
      : Type 0 where
    pub last : ConnectionEventData
    pub ends : d ≡ stopped last (map (set_fd c.fd) ps)
    pub holds : Holds last part
    pub same_fd : last.fd ≡ c.fd

  parse-held :
      (c : ConnectionEventData) (s : Bytes) (h : Holds c s)
      → k.parse c.buffer_size c.buffer ≡ k.parse (length s) (s ++ h.stale)
  parse-held c s h = ap₂ k.parse h.size h.content

  drain_part :
      (fuel : ℕ) (c : ConnectionEventData) (part : Bytes)
      → IsPart part
      → Holds c part
      → Settles c part [] (drain k.parse set_fd (suc fuel) c)
  unfolding drain
  drain_part fuel c part i h =
      let (used, rest, e) = parse-part part h.stale i in
      record { last = c; ends = rw (parse-held c part h ∙ e, drain); holds = h; same_fd = refl }

  drain_step :
      (fuel : ℕ) (c : ConnectionEventData) (w : Bytes) (p : P) (s : Bytes)
      → k.IsFrame w p
      → Holds c (w ++ s)
      → length w + length (w ++ s) ≤ max_packet_size
      → drain k.parse set_fd (suc fuel) c
        ≡ enqueued (set_fd c.fd p ∷ []) (
            if ltb (dropped c (length w)).buffer_size 5
            then stopped (dropped c (length w)) []
            else drain k.parse set_fd fuel (dropped c (length w)))
  unfolding drain after_packet
  drain_step fuel c w p s f h room = rw (parsed, drain) (rw (enough, after_packet) (rw moved refl))
    where
      size : c.buffer_size ≡ length w + length s
      size = h.size ∙ length-append w s

      moved : consume c (length w) ≡ some (dropped c (length w))
      moved = consume-dropped c (length w) (omega (arith, size)) (omega (arith, room, h.size))

      parsed : k.parse c.buffer_size c.buffer ≡ got (some p) (length w) (s ++ h.stale)
      parsed =
          parse-held c (w ++ s) h
          ∙ ap₂ k.parse (length-append w s) (append_assoc w s h.stale)
          ∙ k.parse_frame w p (s ++ h.stale) (length s) f

      enough : leb (length w) (unsigned_sub max_packet_size c.buffer_size) ≡ true
      enough =
          rw
            (unsigned_sub_lem max_packet_size c.buffer_size (omega (arith, room, h.size))
              (omega arith))
            (le→leb _ _ (omega (arith, room, h.size)))

  length-Frames : {s : Bytes} {ps : List P} → Frames s ps → length ps * 5 ≤ length s
  length-Frames no_frames = omega arith
  length-Frames (frame w p s ps t f fs e) =
      rw e (omega (arith, length-append w s, length-Frames fs, k.frame_length w p f))

  short-Frames : {s : Bytes} {ps : List P} → Frames s ps → length s < 5 → (ps ≡ []) × (s ≡ [])
  short-Frames no_frames h = (refl, refl)
  short-Frames (frame w p s ps t f fs e) h =
      absurd
        (omega (arith, ap (λ (x : Bytes). length x) e, length-append w s, k.frame_length w p f))

  drain_Frames :
      {s : Bytes} {ps : List P} (fs : Frames s ps) (fuel : ℕ) (c : ConnectionEventData)
      (part : Bytes)
      → IsPart part
      → Holds c (s ++ part)
      → length (s ++ part) + 65535 ≤ max_packet_size
      → length ps < fuel
      → Settles c part ps (drain k.parse set_fd fuel c)
  drain_Frames no_frames zero c part i h room enough = elim enough [ ]
  drain_Frames no_frames (suc fuel) c part i h room enough = drain_part fuel c part i h
  drain_Frames (frame w p s ps t f fs e) zero c part i h room enough = elim enough [ ]
  drain_Frames (frame w p s ps t f fs e) (suc fuel) c part i h room enough =
      elim (Bool-cases (ltb c'.buffer_size 5)) [
        | inl small ↦
            let (no_packets, no_bytes) = short-Frames fs (few small) in
            record {
              last = c';
              ends = drain_step fuel c w p _ f h' room' ∙ rw (small, no_packets);
              holds = subst (λ (x : Bytes). Holds c' (x ++ part)) no_bytes held;
              same_fd = refl;
            }
        | inr big ↦
            settled big (drain_Frames fs fuel c' part i held (omega (arith, sizes)) (omega arith))
      ]
    where
      split : t ++ part ≡ w ++ (s ++ part)
      split = rw e (append_assoc w s part)

      h' : Holds c (w ++ (s ++ part))
      h' = subst (Holds c) split h

      sizes : length (t ++ part) ≡ length w + length (s ++ part)
      sizes = rw split (length-append w (s ++ part))

      room' : length w + length (w ++ (s ++ part)) ≤ max_packet_size
      room' = omega (arith, sizes, length-append w (s ++ part), k.frame_length w p f)

      c' : ConnectionEventData
      c' = dropped c (length w)

      held : Holds c' (s ++ part)
      held = consume-Holds c w (s ++ part) h'

      few : ltb c'.buffer_size 5 ≡ true → length s < 5
      few small = omega (arith, ltb→lt _ _ small, held.size, length-append s part)

      settled :
          ltb c'.buffer_size 5 ≡ false
          → Settles c' part ps (drain k.parse set_fd fuel c')
          → Settles c part (p ∷ ps) (drain k.parse set_fd (suc fuel) c)
      settled big ih = record {
        last = ih.last;
        ends = drain_step fuel c w p _ f h' room' ∙ rw (big, ih.ends);
        holds = ih.holds;
        same_fd = ih.same_fd;
      }

  -- The beginning of a stream of packets: whole packets, and a part of the next.
  record Cut (a b : Bytes) (ps : List P) : Type 0 where
    whole : Bytes
    part : Bytes
    arrived : List P
    later : List P
    rest : Bytes
    arrived_frames : Frames whole arrived
    later_frames : Frames rest later
    is_part : IsPart part
    joins : a ≡ whole ++ part
    left : part ++ b ≡ rest
    packets : ps ≡ arrived ++ later

  cut : {t : Bytes} {ps : List P} (fs : Frames t ps) (a b : Bytes) → a ++ b ≡ t → Cut a b ps
  cut no_frames [] b e =
      let nothing : Cut [] b [] = record {
        whole = [];
        part = [];
        arrived = [];
        later = [];
        rest = [];
        arrived_frames = no_frames;
        later_frames = no_frames;
        is_part = inl refl;
        joins = refl;
        left = e;
        packets = refl;
      } in
      nothing
  cut no_frames (x ∷ a) b e = absurd (nil≢cons (sym e))
  cut (frame w p s ps t f fs e') a b e = elim (cut_append a b w s (e ∙ e')) [
    | inl (m, n, h) ↦ record {
      whole = [];
      part = a;
      arrived = [];
      later = p ∷ ps;
      rest = t;
      arrived_frames = no_frames;
      later_frames = frame w p s ps t f fs e';
      is_part = inr (w, p, m, f, h, n);
      joins = refl;
      left = e;
      packets = refl;
    }
    | inr (a', h, r) ↦
        let c = cut fs a' b r in
        record {
          whole = w ++ c.whole;
          part = c.part;
          arrived = p ∷ c.arrived;
          later = c.later;
          rest = c.rest;
          arrived_frames = frame w p c.whole c.arrived (w ++ c.whole) f c.arrived_frames refl;
          later_frames = c.later_frames;
          is_part = c.is_part;
          joins = rw (h, c.joins) (sym (append_assoc w c.whole c.part));
          left = c.left;
          packets = ap (λ (x : List P). p ∷ x) c.packets;
        }
  ]

  length-IsPart : (part : Bytes) → IsPart part → length part ≤ 65535
  length-IsPart part (inl e) = rw e (omega arith)
  length-IsPart part (inr (w, p, m, f, e, n)) =
      omega (arith, k.frame_length w p f, ap (λ (x : Bytes). length x) e, length-append part m)

  -- What is only a part of a packet holds no whole packet.
  part_whole : {t : Bytes} {ps : List P} → Frames t ps → IsPart t → (t ≡ []) × (ps ≡ [])
  part_whole no_frames i = (refl, refl)
  part_whole (frame w p s ps t f fs e) (inl h) = absurd (
      omega
        (arith, ap (λ (x : Bytes). length x) (sym e ∙ h), length-append w s, k.frame_length w p f))
  part_whole (frame w p s ps t f fs e) (inr (w', p', m, f', h, n)) =
      let (used, rest, null) = k.parse_part w' p' t m [] f' h n in
      absurd (cc (null, k.parse_frame w p s (length s) f, e, length-append w s, append-nil t))

  receive_chunk :
      {ps : List P} (x : Bytes) (chunks : List Bytes) (fuel : ℕ) (c : ConnectionEventData)
      {a b : Bytes} (cuts : Cut a b ps)
      (d : Settles
        (store_chunk c x)
        cuts.part
        cuts.arrived
        (drain k.parse set_fd fuel (store_chunk c x)))
      → Settles d.last [] cuts.later (receive k.parse set_fd fuel d.last chunks)
      → Settles c [] ps (receive k.parse set_fd fuel c (x ∷ chunks))
  unfolding receive store_chunk
  receive_chunk {ps} x chunks fuel c cuts d r =
      let whole : Settles c [] ps (receive k.parse set_fd fuel c (x ∷ chunks)) = record {
        last = r.last;
        ends = rw (d.ends, receive) (rw (r.ends, d.same_fd, cuts.packets) (rw map-append));
        holds = r.holds;
        same_fd = r.same_fd ∙ d.same_fd;
      } in
      whole

  receive_Frames :
      (chunks : List Bytes) (t : Bytes) (ps : List P) (fuel : ℕ) (c : ConnectionEventData)
      (part : Bytes)
      → Frames t ps
      → IsPart part
      → Holds c part
      → part ++ join chunks ≡ t
      → All (λ x. length x + 131070 ≤ max_packet_size) chunks
      → length ps < fuel
      → Settles c [] ps (receive k.parse set_fd fuel c chunks)
  receive_Frames [] t ps fuel c part fs i h e short enough =
      let (no_bytes, no_packets) = part_whole fs (subst IsPart (sym (append-nil part) ∙ e) i) in
      record {
        last = c;
        ends = rw no_packets (unfold receive in refl);
        holds = subst (Holds c) (sym (append-nil part) ∙ e ∙ no_bytes) h;
        same_fd = refl;
      }
  receive_Frames (x ∷ chunks) t ps fuel c part fs i h e (short, rest) enough =
      receive_chunk {ps = ps} x chunks fuel c cuts drained (
        receive_Frames chunks cuts.rest cuts.later fuel drained.last cuts.part cuts.later_frames
          cuts.is_part drained.holds cuts.left rest (omega (arith, counts)))
    where
      cuts : Cut (part ++ x) (join chunks) ps
      cuts = cut fs (part ++ x) (join chunks) (append_assoc part x (join chunks) ∙ e)

      counts : length ps ≡ length cuts.arrived + length cuts.later
      counts = rw cuts.packets (length-append cuts.arrived cuts.later)

      stored : Holds (store_chunk c x) (cuts.whole ++ cuts.part)
      stored = subst (Holds (store_chunk c x)) cuts.joins (store_chunk-Holds c part x h)

      sizes : length (cuts.whole ++ cuts.part) ≡ length part + length x
      sizes = rw (← cuts.joins) (length-append part x)

      drained :
          Settles
            (store_chunk c x)
            cuts.part
            cuts.arrived
            (drain k.parse set_fd fuel (store_chunk c x))
      drained =
          drain_Frames cuts.arrived_frames fuel (store_chunk c x) cuts.part cuts.is_part stored
            (omega (arith, sizes, length-IsPart part i)) (omega (arith, counts))

  -- A stream of whole packets arrives cut into chunks anywhere, each at least 131070 bytes shorter
  -- than the buffer. From an empty buffer, with more rounds for each chunk than there are packets,
  -- the loop ends after every chunk by a `break`; all packets of the stream are enqueued, once and
  -- in order, each with the fd of the connection; and the buffer holds no bytes in the end.
  pub receive_stream :
      (chunks : List Bytes) (t : Bytes) (ps : List P) (fuel : ℕ) (c : ConnectionEventData)
      → Frames t ps
      → c.buffer_size ≡ 0
      → join chunks ≡ t
      → All (λ x. length x + 131070 ≤ max_packet_size) chunks
      → length ps < fuel
      → (c' : ConnectionEventData) × (receive k.parse set_fd fuel c chunks
          ≡ stopped c' (map (set_fd c.fd) ps))
        × (c'.buffer_size ≡ 0)
  receive_stream chunks t ps fuel c fs empty e short enough =
      let h : Holds c [] = record { size = empty; stale = c.buffer; content = refl } in
      let r = receive_Frames chunks t ps fuel c [] fs (inl refl) h e short enough in
      (r.last, r.ends, r.holds.size)
