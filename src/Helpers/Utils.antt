-- ===== src/Helpers/Utils.antt =====
-- src/helpers/utils.h: IP addresses as text and as bytes.
use ssyncd.Common.{
  ℕ, ◌≡◌, refl, ◌≢◌, Bool, false, ◌||◌, Option, none, some, List, [], ◌∷◌, ◌++◌, arith, ◌==◌,
  if◌then◌else◌, All,
}
use ssyncd.Common.Bytes.{Bytes, IsByte}
use ssyncd.Common.Int.{byte_of}
use ssyncd.Common.Decimal.{
  IsDigit, stoi, to_string, to_string-IsDigit, stoi-to_string, tokens, tokens_self, tokens-append,
}

-- enum ip_family; any other value that a byte of the wire may carry is `other_family`.
pub data IpFamily : Type 0 where
  ipv4 ipv6 : IpFamily
  other_family : ℕ → IpFamily

unfoldable pub family_code : IpFamily → ℕ
family_code ipv4 = 1
family_code ipv6 = 2
family_code (other_family n) = n

-- (ip_family) b
unfoldable pub family_of : ℕ → IpFamily
family_of n = if n == 1 then ipv4 else if n == 2 then ipv6 else other_family n

-- What c_str() shows of a string: the bytes before the first NUL.
unfoldable pub c_str : Bytes → Bytes
c_str [] = []
c_str (c ∷ s) = let rest = c ∷ c_str s in if c == 0 then [] else rest

pub c_str_self : (s : Bytes) → All (λ c. c ≢ 0) s → c_str s ≡ s
unfolding c_str
c_str_self [] h = refl
c_str_self (c ∷ s) (hc, hs) = ground (arith, c_str_self s hs)

-- Each token goes through std::stoi, whose exception ends the function (`none`).
unfoldable pub parts_of : List Bytes → Option Bytes
parts_of [] = some []
parts_of (t ∷ ts) = elim (stoi t) [
  | none ↦ none
  | some i ↦ elim (parts_of ts) [ none ↦ none | some parts ↦ some (byte_of i ∷ parts) ]
]

-- utils::get_ip_address_v4
unfoldable pub get_ip_address_v4 : Bytes → Option Bytes
get_ip_address_v4 ip_str = parts_of (tokens b'.' (c_str ip_str))

-- utils::get_ip_address_v6
unfoldable pub get_ip_address_v6 : Bytes → Option Bytes
get_ip_address_v6 ip_str = some []

-- find(c) != npos
unfoldable pub contains : ℕ → Bytes → Bool
contains c [] = false
contains c (d ∷ s) = d == c || contains c s

-- utils::get_ip_address_type
unfoldable pub get_ip_address_type : Bytes → IpFamily
unfolding contains
get_ip_address_type ip_str = if contains b':' ip_str then ipv6 else ipv4

-- utils::get_ip_address_array
unfoldable pub get_ip_address_array : Bytes → Option Bytes
unfolding contains get_ip_address_v6 get_ip_address_v4
get_ip_address_array ip_str =
    if contains b':' ip_str
    then get_ip_address_v6 ip_str
    else if contains b'.' ip_str
    then get_ip_address_v4 ip_str
    else some []

-- The text that the parsers of the daemon build from four address bytes.
unfoldable pub dotted : ℕ → ℕ → ℕ → ℕ → Bytes
dotted a b c d =
    to_string a ++ (b'.' ∷ (to_string b ++ (b'.' ∷ (to_string c ++ (b'.' ∷ to_string d)))))

no_dot : (s : Bytes) → All IsDigit s → All (λ c. c ≢ b'.') s
no_dot [] h = tt
no_dot (c ∷ s) (hc, hs) = (omega arith, no_dot s hs)

pub All-append {ℓ κ} :
    {A : Type ℓ} (P : A → Type κ) (s t : List A) → All P s → All P t → All P (s ++ t)
All-append P [] t hs ht = ht
All-append P (c ∷ s) t (hc, hs) ht = (hc, All-append P s t hs ht)

nonzero : (s : Bytes) → All IsDigit s → All (λ c. c ≢ 0) s
nonzero [] h = tt
nonzero (c ∷ s) (hc, hs) = (omega arith, nonzero s hs)

digits_nonzero : (n : ℕ) → All (λ c. c ≢ 0) (to_string n)
digits_nonzero n = nonzero (to_string n) (to_string-IsDigit n)

dotted_nonzero : (a b c d : ℕ) → All (λ x. x ≢ 0) (dotted a b c d)
unfolding dotted
dotted_nonzero a b c d = All-append _ (to_string a) _ (digits_nonzero a) (
  omega arith,
  All-append _ (to_string b) _ (digits_nonzero b) (
    omega arith,
    All-append _ (to_string c) _ (digits_nonzero c) (omega arith, digits_nonzero d),
  ),
)

tokens-dotted :
    (a b c d : ℕ)
    → tokens b'.' (dotted a b c d) ≡ to_string a ∷ to_string b ∷ to_string c ∷ to_string d ∷ []
unfolding dotted
tokens-dotted a b c d = rw (tokens-append b'.' (to_string a) _ (no_dot _ (to_string-IsDigit a))) (
    rw (tokens-append b'.' (to_string b) _ (no_dot _ (to_string-IsDigit b))) (
      rw (tokens-append b'.' (to_string c) _ (no_dot _ (to_string-IsDigit c)))
        (rw (tokens_self b'.' (to_string d) (no_dot _ (to_string-IsDigit d))))))

-- The four bytes of a dotted address are read back from its text.
pub get_ip_address_v4-dotted :
    (a b c d : ℕ)
    → IsByte a
    → IsByte b
    → IsByte c
    → IsByte d
    → get_ip_address_v4 (dotted a b c d) ≡ some (a ∷ b ∷ c ∷ d ∷ [])
unfolding get_ip_address_v4 parts_of
get_ip_address_v4-dotted a b c d ha hb hc hd =
    rw (c_str_self (dotted a b c d) (dotted_nonzero a b c d)) (
      rw (tokens-dotted a b c d) (
        ground (
          arith,
          stoi-to_string a (omega arith),
          stoi-to_string b (omega arith),
          stoi-to_string c (omega arith),
          stoi-to_string d (omega arith),
        )))
