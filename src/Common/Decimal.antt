-- ===== src/Common/Decimal.antt =====
-- std::to_string, std::stoi, std::stoul and strsep on byte strings.
use ssyncd.Common.{
  ℕ, zero, suc, ◌+◌, ◌-◌, ◌*◌, ◌/◌, ◌%◌, ◌^◌, ◌≤◌, ◌<◌, ◌≡◌, refl, ◌≢◌, Bool, ◌&&◌, ◌||◌, Option,
  none, some, List, [], ◌∷◌, ◌++◌, arith, ltb, leb, ◌==◌, if◌then◌else◌, All, Bool-cases, inl, inr,
}
use ssyncd.Common.Bytes.{Bytes}
use ssyncd.Common.Int.{ℤ, pos, negsuc, negate}

pub is_digit : ℕ → Bool
is_digit c = leb 48 c && leb c 57

-- The digits of `n` in front of `acc`, for `n` below 10 ^ fuel.
decimal : ℕ → ℕ → Bytes → Bytes
decimal zero n acc = acc
decimal (suc fuel) n acc =
    let more = decimal fuel (n / 10) ((48 + n % 10) ∷ acc) in
    if ltb n 10 then (48 + n) ∷ acc else more

-- std::to_string of an unsigned number of at most 64 bits, which has at most 20 digits
unfoldable pub to_string : ℕ → Bytes
unfolding decimal
to_string n = decimal 20 n []

-- The value of the digits at the front, after `acc`.
scan : ℕ → Bytes → ℕ
scan acc [] = acc
scan acc (c ∷ s) = let more = scan (acc * 10 + (c - 48)) s in if is_digit c then more else acc

starts_number : Bytes → Option ℕ
unfolding scan is_digit
starts_number [] = none
starts_number (c ∷ s) = let n = scan 0 (c ∷ s) in if is_digit c then some n else none

is_space : ℕ → Bool
is_space c = c == 32 || (leb 9 c && leb c 13)

skip_space : Bytes → Bytes
unfolding is_space
skip_space [] = []
skip_space (c ∷ s) = let rest = skip_space s in if is_space c then rest else c ∷ s

-- An optional sign and the digits; `none` is std::invalid_argument.
signed : Bytes → Option ℤ
unfolding starts_number
signed [] = none
signed (c ∷ s) =
    if c == b'-'
    then elim (starts_number s) [ none ↦ none | some n ↦ some (negate n) ]
    else elim (starts_number (if c == b'+' then s else c ∷ s)) [
      | none ↦ none
      | some n ↦ some (pos n)
    ]

fits_int : ℤ → Option ℤ
fits_int (pos n) = if ltb n (2 ^ 31) then some (pos n) else none
fits_int (negsuc n) = if ltb n (2 ^ 31) then some (negsuc n) else none

-- std::stoi; `none` is a thrown exception, invalid_argument or out_of_range.
unfoldable pub stoi : Bytes → Option ℤ
unfolding signed skip_space fits_int
stoi s = elim (signed (skip_space s)) [ none ↦ none | some i ↦ fits_int i ]

fits_long : ℤ → Option ℕ
fits_long (pos n) = if ltb n (2 ^ 64) then some n else none
fits_long (negsuc n) = if ltb n (2 ^ 64 - 1) then some (2 ^ 64 - 1 - n) else none

-- std::stoul, which negates a number with a minus sign in the unsigned type
unfoldable pub stoul : Bytes → Option ℕ
unfolding signed skip_space fits_long
stoul s = elim (signed (skip_space s)) [ none ↦ none | some i ↦ fits_long i ]

-- A long: the nearest one, where the number is out of its range.
to_long : ℕ → ℕ
to_long n = if ltb n (2 ^ 63) then n else 2 ^ 63 - 1

int_of_long : ℤ → ℕ
unfolding to_long
int_of_long (pos n) = to_long n % 2 ^ 32
int_of_long (negsuc n) = 2 ^ 32 - 1 - to_long n % 2 ^ 32

-- The 32 bits of std::atoi, which is strtol() converted to an int, and 0 for a text without a number.
unfoldable pub atoi : Bytes → ℕ
unfolding signed skip_space int_of_long
atoi s = elim (signed (skip_space s)) [ none ↦ 0 | some i ↦ int_of_long i ]

push : ℕ → List Bytes → List Bytes
push c [] = (c ∷ []) ∷ []
push c (x ∷ xs) = (c ∷ x) ∷ xs

-- The tokens of `while ((token = strsep(&s, sep)) != NULL)`.
unfoldable pub tokens : ℕ → Bytes → List Bytes
unfolding push
tokens sep [] = [] ∷ []
tokens sep (c ∷ s) = let rest = tokens sep s in if c == sep then [] ∷ rest else push c rest

abbrev pub IsDigit : ℕ → Type 0
IsDigit c = (48 ≤ c) × (c ≤ 57)

decimal-IsDigit : (fuel n : ℕ) (acc : Bytes) → All IsDigit acc → All IsDigit (decimal fuel n acc)
unfolding decimal
decimal-IsDigit zero n acc h = h
decimal-IsDigit (suc fuel) n acc h = elim (Bool-cases (ltb n 10)) [
  | inl small ↦ rw small (ground arith, h)
  | inr big ↦ rw big (decimal-IsDigit fuel (n / 10) ((48 + n % 10) ∷ acc) (omega arith, h))
]

pub to_string-IsDigit : (n : ℕ) → All IsDigit (to_string n)
unfolding to_string
to_string-IsDigit n = decimal-IsDigit 20 n [] tt

scan-decimal :
    (fuel n : ℕ) (acc : Bytes) → n < 10 ^ suc fuel → scan 0 (decimal (suc fuel) n acc) ≡ scan n acc
unfolding decimal scan is_digit
scan-decimal zero n acc h = ground arith
scan-decimal (suc fuel) n acc h = ground (arith, scan-decimal fuel (n / 10) ((48 + n % 10) ∷ acc))

digits_parse :
    (s : Bytes) (n : ℕ)
    → All IsDigit s
    → s ≢ []
    → scan 0 s ≡ n
    → signed (skip_space s) ≡ some (pos n)
unfolding signed starts_number skip_space is_space is_digit
digits_parse [] n h e q = absurd (e refl)
digits_parse (c ∷ s) n h e q = ground arith

decimal-ne-nil : (fuel n c : ℕ) (acc : Bytes) → decimal fuel n (c ∷ acc) ≢ []
unfolding decimal
decimal-ne-nil zero n c acc e = cc
decimal-ne-nil (suc fuel) n c acc e =
    ground (arith, decimal-ne-nil fuel (n / 10) (48 + n % 10) (c ∷ acc))

to_string-ne-nil : (n : ℕ) → to_string n ≢ []
unfolding to_string decimal
to_string-ne-nil n e = ground (arith, decimal-ne-nil 19 (n / 10) (48 + n % 10) [])

scan-to_string : (n : ℕ) → n < 10 ^ 20 → scan 0 (to_string n) ≡ n
unfolding to_string scan
scan-to_string n h = scan-decimal 19 n [] h

-- A number is read back from its decimal digits.
pub stoi-to_string : (n : ℕ) → n < 2 ^ 31 → stoi (to_string n) ≡ some (pos n)
unfolding stoi
stoi-to_string n h =
    rw
      (
        digits_parse (to_string n) n (to_string-IsDigit n) (to_string-ne-nil n)
            (scan-to_string n (omega arith)),
        stoi,
      )
      (ground arith)

pub stoul-to_string : (n : ℕ) → n < 2 ^ 64 → stoul (to_string n) ≡ some n
unfolding stoul
stoul-to_string n h =
    rw
      (
        digits_parse (to_string n) n (to_string-IsDigit n) (to_string-ne-nil n)
            (scan-to_string n (omega arith)),
        stoul,
      )
      (ground arith)

pub atoi-to_string : (n : ℕ) → n < 2 ^ 31 → atoi (to_string n) ≡ n
unfolding atoi
atoi-to_string n h =
    rw
      (
        digits_parse (to_string n) n (to_string-IsDigit n) (to_string-ne-nil n)
            (scan-to_string n (omega arith)),
        atoi,
      )
      (ground arith)

-- A text with no separator is one token, and the first separator ends the first token.
pub tokens_self : (sep : ℕ) (s : Bytes) → All (λ c. c ≢ sep) s → tokens sep s ≡ s ∷ []
unfolding tokens
tokens_self sep [] h = refl
tokens_self sep (c ∷ s) (hc, hs) = ground (arith, tokens_self sep s hs)

pub tokens-append :
    (sep : ℕ) (s t : Bytes) → All (λ c. c ≢ sep) s → tokens sep (s ++ (sep ∷ t)) ≡ s ∷ tokens sep t
unfolding tokens
tokens-append sep [] t h = ground arith
tokens-append sep (c ∷ s) t (hc, hs) = ground (arith, tokens-append sep s t hs)

-- A space in front is skipped.
pub stoul-space : (s : Bytes) → stoul (32 ∷ s) ≡ stoul s
unfolding stoul skip_space is_space
stoul-space s = refl
