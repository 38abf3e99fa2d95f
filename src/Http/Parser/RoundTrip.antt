-- ===== src/Http/Parser/RoundTrip.antt =====
-- What src/http/http_parser.cpp writes for an action, and what it reads back.
use ssyncd.Common.{
  ℕ, ◌+◌, ◌%◌, ◌^◌, ◌≤◌, ◌<◌, ◌≡◌, refl, ◌∙◌, Bool-cases, inl, inr, ap, true, false, some, [], ◌∷◌,
  ◌++◌, append_assoc, arith, length, length-append, if◌then◌else◌,
}
use ssyncd.Common.Bytes.{Bytes, IsByte, le_bytes, length-le_bytes}
use ssyncd.Connection.Cursor.{
  bind-got, bind-sized, got, Reader, pure, next, next_le, next_bytes-append, next_le-append,
}
use ssyncd.Connection.Packet.{ConnPacket, conn_packet, http_sync}
use ssyncd.Connection.PacketParser.{written, deserialize_base, char_size}
use ssyncd.Connection.PacketParser.Frame.{
  IsWireHeader, framed, received_header, length-framed, patch_size-serialize_base,
  deserialize_base-framed,
}
use ssyncd.Http.Session.{HttpAction, Indeterminate, http_action_code, http_action_of}
use ssyncd.Http.Parser.{
  has_content, has_session, shifted_bytes, content_bytes, session_bytes, http_body, serialize_http,
  read_content, read_session, cleared, read_http, read_if_http, deserialize_http,
}

-- An action whose texts fit their length bytes.
pub record IsSendable (x : HttpAction) : Type 0 where
  pub header : IsWireHeader x.pkt
  pub type : x.pkt.type ≡ http_sync
  pub action_byte : IsByte (http_action_code x.action)
  pub action_known : http_action_of (http_action_code x.action) ≡ x.action
  pub farm_short : length x.farm_name < 256
  pub key_short : length x.session.key < 256
  pub content_short : length x.session.content < 256
  pub stamp : x.session.last_acc < 256 ^ 8

-- The receiver's action for a packet of `n` bytes. The three ids arrive modulo 256.
pub received_http : Indeterminate → HttpAction → ℕ → HttpAction
received_http g x n =
    let start = cleared g x.action in
    if has_session x.action
    then record {
      pkt =
          (let p : ConnPacket = conn_packet http_sync in
            record p { pkt_len = (if has_content x.action then n else 0) });
      action = x.action;
      service = x.service % 256;
      listener = x.listener % 256;
      backend = x.backend % 256;
      session = record {
        key = x.session.key;
        backend_id = x.backend % 256;
        content = (if has_content x.action then x.session.content else []);
        last_acc = (if has_content x.action then x.session.last_acc else 0);
      };
      farm_name = x.farm_name;
    }
    else record start { farm_name = x.farm_name }

next_le-shifted_bytes :
    (v : ℕ) (rest : Bytes) (used : ℕ)
    → next_le 4 used (shifted_bytes 4 0 v ++ rest) ≡ got (v % 256) (used + 4) rest
unfolding next_le shifted_bytes
next_le-shifted_bytes v rest used = ground arith

length-content_bytes :
    (x : HttpAction) → length x.session.content < 256 → length (content_bytes x) ≤ 264
unfolding content_bytes
length-content_bytes x h = ground (
  arith,
  length-append x.session.content (le_bytes 8 x.session.last_acc),
  length-le_bytes 8 x.session.last_acc,
)

length-session_bytes :
    (x : HttpAction)
    → length x.session.content < 256
    → length x.session.key < 256
    → length (session_bytes x) ≤ 600
unfolding session_bytes shifted_bytes
length-session_bytes x h k =
    ground (arith, length-append x.session.key (content_bytes x), length-content_bytes x h)

module _ (x : HttpAction) (s : IsSendable x) where
  content_part : (y : HttpAction) → ℕ → HttpAction
  content_part y n =
      let session = y.session in
      let packet = y.pkt in
      record y {
        session = record session { content = x.session.content; last_acc = x.session.last_acc };
        pkt = record packet { pkt_len = n };
      }

  read_content-append :
      (y : HttpAction) (rest : Bytes) (used : ℕ)
      → has_content x.action ≡ true
      → read_content y used (content_bytes x ++ rest)
        ≡ got
            (content_part y (used + length (content_bytes x)))
            (used + length (content_bytes x))
            rest
  unfolding read_content content_bytes content_part next
  read_content-append y rest used h = ground (
    arith,
    h,
    s.content_short,
    append_assoc x.session.content (le_bytes 8 x.session.last_acc) rest,
    next_bytes-append x.session.content (le_bytes 8 x.session.last_acc ++ rest) (used + 1),
    next_le-append 8 x.session.last_acc rest (used + 1 + length x.session.content) s.stamp,
    length-append x.session.content (le_bytes 8 x.session.last_acc),
    length-le_bytes 8 x.session.last_acc,
  )

  with_ids : HttpAction → HttpAction
  with_ids y =
      let session = y.session in
      record y {
        listener = x.listener % 256;
        service = x.service % 256;
        backend = x.backend % 256;
        session = record session { backend_id = x.backend % 256; key = x.session.key };
      }

  session_part : HttpAction → ℕ → HttpAction
  session_part y n = if has_content x.action then content_part (with_ids y) n else with_ids y

  no_content : has_content x.action ≡ false → content_bytes x ≡ []
  unfolding content_bytes
  no_content h = rw h

  read_rest :
      (z : HttpAction) (rest : Bytes) (used : ℕ)
      → (if has_content x.action then read_content z else pure z) used (content_bytes x ++ rest)
        ≡ got
            (if has_content x.action then content_part z (used + length (content_bytes x)) else z)
            (used + length (content_bytes x))
            rest
  read_rest z rest used = elim (Bool-cases (has_content x.action)) [
    | inl e ↦ rw e (read_content-append z rest used e)
    | inr e ↦ rw (e, no_content e) (ground arith)
  ]

  session_bytes-append :
      (rest : Bytes)
      → has_session x.action ≡ true
      → session_bytes x ++ rest
        ≡ shifted_bytes 4 0 x.listener
          ++ (shifted_bytes 4 0 x.service
              ++ (shifted_bytes 4 0 x.backend
                  ++ (length x.session.key % 256 ∷ (x.session.key ++ (content_bytes x ++ rest)))))
  unfolding session_bytes
  session_bytes-append rest h = rw h (simp append_assoc)

  length-session_bytes_eq :
      has_session x.action ≡ true
      → length (session_bytes x) ≡ 13 + length x.session.key + length (content_bytes x)
  unfolding session_bytes shifted_bytes
  length-session_bytes_eq h = ground (arith, h, length-append x.session.key (content_bytes x))

  read_session-append :
      (y : HttpAction) (rest : Bytes) (used : ℕ)
      → has_session x.action ≡ true
      → y.action ≡ x.action
      → read_session y used (session_bytes x ++ rest)
        ≡ got
            (session_part y (used + length (session_bytes x)))
            (used + length (session_bytes x))
            rest
  unfolding read_session session_part with_ids next
  read_session-append y rest used h a =
      let after_key : Bytes = content_bytes x ++ rest in
      let keyed : Bytes = length x.session.key % 256 ∷ (x.session.key ++ after_key) in
      let back : Bytes = shifted_bytes 4 0 x.backend ++ keyed in
      rw (session_bytes-append rest h) (
        bind-got (next_le 4) _ used _
          (next_le-shifted_bytes x.listener (shifted_bytes 4 0 x.service ++ back) used)
        ∙ bind-got (next_le 4) _ (used + 4) _ (next_le-shifted_bytes x.service back (used + 4))
        ∙ bind-got (next_le 4) _ (used + 4 + 4) _
            (next_le-shifted_bytes x.backend keyed (used + 4 + 4))
        ∙ bind-sized _ x.session.key after_key (used + 4 + 4 + 4) s.key_short
        ∙ ap
            (λ t.
              (if has_content t then read_content (with_ids y) else pure (with_ids y))
                (used + 4 + 4 + 4 + 1 + length x.session.key) after_key)
            a
        ∙ read_rest (with_ids y) rest (used + 4 + 4 + 4 + 1 + length x.session.key)
        ∙ ap (λ n. got (session_part y n) n rest) total)
    where
      total :
          used + 4 + 4 + 4 + 1 + length x.session.key + length (content_bytes x)
          ≡ used + length (session_bytes x)
      total = omega (arith, length-session_bytes_eq h)

  no_session : has_session x.action ≡ false → session_bytes x ≡ []
  unfolding session_bytes
  no_session h = rw h

  abbrev begun : Indeterminate → HttpAction
  begun g = let start = cleared g x.action in record start { farm_name = x.farm_name }

  session_part_lem :
      (g : Indeterminate) (n : ℕ)
      → has_session x.action ≡ true
      → session_part (begun g) n ≡ received_http g x n
  unfolding session_part content_part with_ids received_http
  session_part_lem g n h = ground (arith, h)

  begun_lem :
      (g : Indeterminate) (n : ℕ) → has_session x.action ≡ false → begun g ≡ received_http g x n
  unfolding received_http
  begun_lem g n h = rw h

  abbrev session_reader : Indeterminate → Reader HttpAction
  session_reader g = if has_session x.action then read_session (begun g) else pure (begun g)

  read_http_rest :
      (g : Indeterminate) (more : Bytes) (used : ℕ)
      → session_reader g used (session_bytes x ++ more)
        ≡ got
            (received_http g x (used + length (session_bytes x)))
            (used + length (session_bytes x))
            more
  read_http_rest g more used = elim (Bool-cases (has_session x.action)) [
    | inl h ↦
        rw (h, ← session_part_lem g (used + length (session_bytes x)) h)
          (read_session-append (begun g) more used h refl)
    | inr h ↦ rw (h, no_session h, ← begun_lem g (used + 0) h) (ground arith)
  ]

  length-http_body : length (http_body x) ≡ 2 + length x.farm_name + length (session_bytes x)
  unfolding http_body
  length-http_body = omega (arith, length-append x.farm_name (session_bytes x))

  read_http_lem :
      (g : Indeterminate) (more : Bytes)
      → read_http g 5 (http_body x ++ more)
        ≡ got (some (received_http g x (5 + length (http_body x)))) (5 + length (http_body x)) more
  unfolding read_http http_body next
  read_http_lem g more =
      let code : http_action_code x.action % 256 ≡ http_action_code x.action =
        omega (arith, s.action_byte) in
      rw (append_assoc x.farm_name (session_bytes x) more, code, s.action_known)
        (bind-sized _ x.farm_name (session_bytes x ++ more) 6 s.farm_short
          ∙ bind-got (session_reader g) (λ done. pure (some done)) (6 + 1 + length x.farm_name)
              (session_bytes x ++ more) (read_http_rest g more (6 + 1 + length x.farm_name))
          ∙ ap (λ n. got (some (received_http g x n)) n more) total)
    where
      total : 6 + 1 + length x.farm_name + length (session_bytes x) ≡ 5 + length (http_body x)
      total = omega (arith, length-http_body)

  pub http_body_short : length (http_body x) < 65531
  http_body_short =
      omega
        (arith, length-http_body, length-session_bytes x s.content_short s.key_short, s.farm_short)

  abbrev pub frame : Bytes
  frame = framed x.pkt (http_body x)

  pub serialize_http_lem : serialize_http x ≡ written frame (char_size (length frame))
  unfolding serialize_http
  serialize_http_lem = ground (arith, s.type, patch_size-serialize_base x.pkt (http_body x))

  pub deserialize_base-frame :
      (more : Bytes) (extra : ℕ)
      → deserialize_base (length frame + extra) (frame ++ more)
        ≡ got (some (received_header x.pkt (length frame))) 5 (http_body x ++ more)
  deserialize_base-frame more extra = ground (
    arith,
    length-framed x.pkt (http_body x),
    deserialize_base-framed x.pkt (http_body x) more (length frame + extra) s.header
        (omega (arith, length-framed x.pkt (http_body x))) http_body_short,
  )

  pub deserialize_http-frame :
      (g : Indeterminate) (more : Bytes) (extra : ℕ)
      → deserialize_http g (length frame + extra) (frame ++ more)
        ≡ got (some (received_http g x (length frame))) (length frame) more
  unfolding deserialize_http read_if_http
  deserialize_http-frame g more extra = ground (
    arith,
    s.type,
    length-framed x.pkt (http_body x),
    deserialize_base-frame more extra,
    read_http_lem g more,
  )

-- For an action whose texts are shorter than 256 bytes, `serialize` writes a packet and
-- `deserialize` reads that packet back from any buffer that begins with it: it uses exactly the
-- bytes of the packet and keeps the action and the farm name; but for SYNC_REQUEST it keeps the
-- key, for the actions with content also the content and the 64-bit access time. The listener,
-- the service and the backend arrive modulo 256.
pub deserialize_http-serialize_http :
    (g : Indeterminate) (x : HttpAction) (more : Bytes) (extra : ℕ)
    → IsSendable x
    → (out : Bytes) × (serialize_http x ≡ written out (char_size (length out)))
      × (deserialize_http g (length out + extra) (out ++ more)
          ≡ got (some (received_http g x (length out))) (length out) more)
deserialize_http-serialize_http g x more extra s =
    (frame x s, serialize_http_lem x s, deserialize_http-frame x s g more extra)
