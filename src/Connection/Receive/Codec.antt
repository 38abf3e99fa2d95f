-- ===== src/Connection/Receive/Codec.antt =====
-- What the receive loop of src/connection/connection.cpp needs of a packet_parser.
use ssyncd.Common.{ℕ, ◌+◌, ◌≤◌, ◌≡◌, ◌≢◌, Option, none, some, [], ◌++◌, length}
use ssyncd.Common.Bytes.{Bytes}
use ssyncd.Connection.Cursor.{Read, got}

-- `deserialize` returned nullptr.
abbrev pub IsNull {ℓ} : {P : Type ℓ} → Read (Option P) → Type ℓ
IsNull r = (used : ℕ) × (rest : Bytes) × (r ≡ got none used rest)

pub record Codec (P : Type 0) : Type 1 where
  pub parse : ℕ → Bytes → Read (Option P)
  -- the bytes of a packet on the wire, and the packet that they are read as
  pub IsFrame : Bytes → P → Type 0
  pub frame_length : (w : Bytes) (p : P) → IsFrame w p → (5 ≤ length w) × (length w ≤ 65535)
  pub parse_frame :
      (w : Bytes) (p : P) (more : Bytes) (extra : ℕ)
      → IsFrame w p
      → parse (length w + extra) (w ++ more) ≡ got (some p) (length w) more
  pub parse_part :
      (w : Bytes) (p : P) (part missing junk : Bytes)
      → IsFrame w p
      → w ≡ part ++ missing
      → missing ≢ []
      → IsNull (parse (length part) (part ++ junk))
  pub parse_nil : (junk : Bytes) → IsNull (parse 0 junk)
