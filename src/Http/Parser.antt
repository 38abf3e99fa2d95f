-- ===== src/Http/Parser.antt =====
-- src/http/http_parser.cpp
pub mod RoundTrip
use ssyncd.Common.{
  ℕ, zero, suc, ◌+◌, ◌*◌, ◌%◌, ◌^◌, Bool, true, false, Option, none, some, [], ◌∷◌, ◌++◌, length,
  if◌then◌else◌,
}
use ssyncd.Common.Bytes.{Bytes, le_bytes}
use ssyncd.Connection.Cursor.{
  Read, fault, got, Reader, ◌>>=◌, pure, position, next, next_bytes, next_le,
}
use ssyncd.Connection.Packet.{ConnPacket, PacketType, http_sync}
use ssyncd.Connection.PacketParser.{
  Serialized, written, refused, serialize_base, deserialize_base, patch_size, char_size,
}
use ssyncd.Http.Session.{
  HttpActionType, HttpAction, HttpSession, Indeterminate, sess_add, sess_update, sess_write,
  sync_request, http_action_code, http_action_of, new_http_action,
}

-- action == SESS_ADD || action == SESS_UPDATE || action == SESS_WRITE
unfoldable pub has_content : HttpActionType → Bool
has_content sess_add = true
has_content sess_update = true
has_content sess_write = true
has_content _ = false

-- action != http::SYNC_REQUEST
unfoldable pub has_session : HttpActionType → Bool
has_session sync_request = false
has_session _ = true

-- for (i = 0; i < n; i++) *out++ = v << (8 * i), from the index `i` on; a char keeps the low byte.
unfoldable pub shifted_bytes : ℕ → ℕ → ℕ → Bytes
shifted_bytes zero i v = []
shifted_bytes (suc n) i v = v * 2 ^ (8 * i) % 2 ^ 32 % 256 ∷ shifted_bytes n (i + 1) v

unfoldable pub content_bytes : HttpAction → Bytes
content_bytes x =
    if has_content x.action
    then length x.session.content % 256 ∷ (x.session.content ++ le_bytes 8 x.session.last_acc)
    else []

unfoldable pub session_bytes : HttpAction → Bytes
session_bytes x =
    if has_session x.action
    then shifted_bytes 4 0 x.listener
      ++ (shifted_bytes 4 0 x.service
          ++ (shifted_bytes 4 0 x.backend
              ++ (length x.session.key % 256 ∷ (x.session.key ++ content_bytes x))))
    else []

-- What follows the header.
unfoldable pub http_body : HttpAction → Bytes
http_body x =
    http_action_code x.action % 256 ∷ length x.farm_name % 256 ∷ (x.farm_name ++ session_bytes x)

-- http_parser::serialize
unfoldable pub serialize_http : HttpAction → Serialized
serialize_http x =
    let out = patch_size (serialize_base x.pkt ++ http_body x) in
    elim x.pkt.type [ http_sync ↦ written out (char_size (length out)) | _ ↦ refused ]

-- The part under the test for SESS_ADD, SESS_UPDATE and SESS_WRITE.
unfoldable pub read_content : HttpAction → Reader HttpAction
read_content x = next >>= λ size. next_bytes size >>= λ content. next_le 8 >>= λ timestamp.
    position >>= λ buffer_used.
    let session = x.session in
    let packet = x.pkt in
    pure (record x {
      session = record session { content = content; last_acc = timestamp };
      pkt = record packet { pkt_len = buffer_used };
    })

-- The part under `action != http::SYNC_REQUEST`.
unfoldable pub read_session : HttpAction → Reader HttpAction
read_session x = next_le 4 >>= λ listener. next_le 4 >>= λ service. next_le 4 >>= λ backend.
    next >>= λ size. next_bytes size >>= λ key.
    let session = x.session in
    let x' : HttpAction = record x {
      listener = listener;
      service = service;
      backend = backend;
      session = record session { backend_id = backend; key = key };
    } in
    if has_content x.action then read_content x' else pure x'

-- new http_action() with what http_parser::deserialize clears
abbrev pub cleared : Indeterminate → HttpActionType → HttpAction
cleared g t =
    let x = new_http_action g t in
    let session = x.session in
    record x { listener = 0; service = 0; backend = 0; session = record session { last_acc = 0 } }

-- Everything after the header.
unfoldable pub read_http : Indeterminate → Reader (Option HttpAction)
read_http g = next >>= λ code. next >>= λ farm_size. next_bytes farm_size >>= λ farm_name.
    let start = cleared g (http_action_of code) in
    let x : HttpAction = record start { farm_name = farm_name } in
    (if has_session x.action then read_session x else pure x) >>= λ done. pure (some done)

unfoldable pub read_if_http : Indeterminate → ConnPacket → Reader (Option HttpAction)
read_if_http g p = elim p.type [ http_sync ↦ read_http g | _ ↦ pure none ]

-- http_parser::deserialize
unfoldable pub deserialize_http : Indeterminate → ℕ → Bytes → Read (Option HttpAction)
deserialize_http g buffer_size buffer = elim (deserialize_base buffer_size buffer) [
  | fault ↦ fault
  | got none used rest ↦ got none used rest
  | got (some p) used rest ↦ read_if_http g p used rest
]
