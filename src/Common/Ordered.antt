-- ===== src/Common/Ordered.antt =====
-- Keys of a std::map: an equality test and a strict order. The instances are the numbers and the
-- byte strings, ordered as std::less orders them.
use ssyncd.Common.{
  ℕ, ◌≡◌, ◌↔◌, Bool, true, false, ◌&&◌, ◌||◌, List, [], ◌∷◌, arith, ltb, ◌==◌ as nat_eq, ==_iff,
}

pub record Ordered {ℓ} (K : Type ℓ) : Type ℓ where
  pub eqb : K → K → Bool
  pub below : K → K → Bool
  pub eqb_iff : (a b : K) → (eqb a b ≡ true) ↔ (a ≡ b)
  pub below_irrefl : (a : K) → below a a ≡ false
  pub below_trans : (a b c : K) → below a b ≡ true → below b c ≡ true → below a c ≡ true
  pub below_total : (a b : K) → eqb a b ≡ false → below a b ≡ false → below b a ≡ true

infix 50 ◌==◌
abbrev pub ◌==◌ {ℓ} : {K : Type ℓ} ⦃o : Ordered K⦄ → K → K → Bool
◌==◌ ⦃o⦄ = o.eqb

pub nat_irrefl : (a : ℕ) → ltb a a ≡ false
nat_irrefl a = ground arith

pub nat_trans : (a b c : ℕ) → ltb a b ≡ true → ltb b c ≡ true → ltb a c ≡ true
nat_trans a b c h k = ground arith

pub nat_total : (a b : ℕ) → nat_eq a b ≡ false → ltb a b ≡ false → ltb b a ≡ true
nat_total a b h k = ground arith

instance abbrev pub nat_ordered : Ordered ℕ
nat_ordered = record {
  eqb = nat_eq;
  below = ltb;
  eqb_iff = ==_iff;
  below_irrefl = nat_irrefl;
  below_trans = nat_trans;
  below_total = nat_total;
}

abbrev pub bytes_eq : List ℕ → List ℕ → Bool
bytes_eq [] [] = true
bytes_eq [] (y ∷ ys) = false
bytes_eq (x ∷ xs) [] = false
bytes_eq (x ∷ xs) (y ∷ ys) = nat_eq x y && bytes_eq xs ys

abbrev pub bytes_lt : List ℕ → List ℕ → Bool
bytes_lt xs [] = false
bytes_lt [] (y ∷ ys) = true
bytes_lt (x ∷ xs) (y ∷ ys) = ltb x y || (nat_eq x y && bytes_lt xs ys)

pub bytes_eq_iff : (a b : List ℕ) → (bytes_eq a b ≡ true) ↔ (a ≡ b)
bytes_eq_iff [] [] = ground arith
bytes_eq_iff [] (y ∷ ys) = ground arith
bytes_eq_iff (x ∷ xs) [] = ground arith
bytes_eq_iff (x ∷ xs) (y ∷ ys) = ground (arith, bytes_eq_iff xs ys)

pub bytes_irrefl : (a : List ℕ) → bytes_lt a a ≡ false
bytes_irrefl [] = ground arith
bytes_irrefl (x ∷ xs) = ground (arith, bytes_irrefl xs)

pub bytes_trans : (a b c : List ℕ) → bytes_lt a b ≡ true → bytes_lt b c ≡ true → bytes_lt a c ≡ true
bytes_trans a b [] h k = ground arith
bytes_trans a [] (z ∷ zs) h k = ground arith
bytes_trans [] (y ∷ ys) (z ∷ zs) h k = ground arith
bytes_trans (x ∷ xs) (y ∷ ys) (z ∷ zs) h k = ground (arith, bytes_trans xs ys zs)

pub bytes_total : (a b : List ℕ) → bytes_eq a b ≡ false → bytes_lt a b ≡ false → bytes_lt b a ≡ true
bytes_total [] [] h k = ground arith
bytes_total [] (y ∷ ys) h k = ground arith
bytes_total (x ∷ xs) [] h k = ground arith
bytes_total (x ∷ xs) (y ∷ ys) h k = ground (arith, bytes_total xs ys)

instance abbrev pub bytes_ordered : Ordered (List ℕ)
bytes_ordered = record {
  eqb = bytes_eq;
  below = bytes_lt;
  eqb_iff = bytes_eq_iff;
  below_irrefl = bytes_irrefl;
  below_trans = bytes_trans;
  below_total = bytes_total;
}
