-- ===== src/Connection/Cursor.antt =====
-- Reading a receive buffer through `buffer[(*buffer_used)++]`: the parsers of
-- src/connection/packet_parser.cpp and its subclasses. A reader takes `*buffer_used` and the bytes
-- of the buffer array from there to the array's end; `fault` is a read past that end.
use ssyncd.Common.{ℕ, zero, suc, ◌+◌, ◌*◌, ◌/◌, ◌%◌, ◌^◌, ◌<◌, ◌≡◌, [], ◌∷◌, ◌++◌, arith, length}
use ssyncd.Common.Bytes.{Bytes, le_bytes}

pub data Read {ℓ} (A : Type ℓ) : Type ℓ where
  fault : Read A
  got : A → ℕ → Bytes → Read A

abbrev pub Reader {ℓ} : Type ℓ → Type ℓ
Reader A = ℕ → Bytes → Read A

infixl 5 ◌>>=◌
abbrev pub ◌>>=◌ {ℓ κ} : {A : Type ℓ} {B : Type κ} → Reader A → (A → Reader B) → Reader B
◌>>=◌ m f used rest = elim (m used rest) [ fault ↦ fault | got a used' rest' ↦ f a used' rest' ]

abbrev pub pure {ℓ} : {A : Type ℓ} → A → Reader A
pure a used rest = got a used rest

-- buffer[(*buffer_used)++]
unfoldable pub next : Reader ℕ
next used [] = fault
next used (b ∷ rest) = got b (used + 1) rest

-- for (i = 0; i < n; i++) s += buffer[(*buffer_used)++]
unfoldable pub next_bytes : ℕ → Reader Bytes
unfolding next
next_bytes zero = pure []
next_bytes (suc n) = next >>= λ b. next_bytes n >>= λ bs. pure (b ∷ bs)

-- for (i = 0; i < n; i++) v |= buffer[(*buffer_used)++] << (8 * i); the bytes do not overlap, so
-- that `|` adds.
unfoldable pub next_le : ℕ → Reader ℕ
unfolding next
next_le zero = pure 0
next_le (suc n) = next >>= λ b. next_le n >>= λ v. pure (b + 256 * v)

pub next_bytes-append :
    (s rest : Bytes) (used : ℕ)
    → next_bytes (length s) used (s ++ rest) ≡ got s (used + length s) rest
unfolding next_bytes
next_bytes-append [] rest used = ground arith
next_bytes-append (b ∷ s) rest used = ground (arith, next_bytes-append s rest (used + 1))

pub next_le-append :
    (k v : ℕ) (rest : Bytes) (used : ℕ)
    → v < 256 ^ k
    → next_le k used (le_bytes k v ++ rest) ≡ got v (used + k) rest
unfolding next_le le_bytes
next_le-append zero v rest used h = ground arith
next_le-append (suc k) v rest used h = ground (arith, next_le-append k (v / 256) rest (used + 1))

-- The rest of a `do` block after a read that succeeds.
pub bind-got {ℓ κ} :
    {A : Type ℓ} {B : Type κ} (m : Reader A) (f : A → Reader B) (used : ℕ) (rest : Bytes) {a : A}
    {used' : ℕ} {rest' : Bytes}
    → m used rest ≡ got a used' rest'
    → (m >>= f) used rest ≡ f a used' rest'
bind-got m f used rest h = rw (h, ◌>>=◌)

-- *buffer_used
abbrev pub position : Reader ℕ
position used rest = got used used rest

-- A length byte and the bytes that it announces, in a `do` block.
pub bind-sized {κ} :
    {B : Type κ} (f : Bytes → Reader B) (s rest : Bytes) (used : ℕ)
    → length s < 256
    → (next >>= λ n. next_bytes n >>= f) used (length s % 256 ∷ (s ++ rest))
      ≡ f s (used + 1 + length s) rest
unfolding next
bind-sized f s rest used h =
    let size : length s % 256 ≡ length s = omega arith in
    rw size (bind-got (next_bytes (length s)) f (used + 1) _ (next_bytes-append s rest (used + 1)))
