-- ===== src/Common/Map.antt =====
-- std::map: an association list that `insert` keeps in the order of the keys.
use ssyncd.Common.{
  ◌≡◌, refl, Bool, true, false, Option, none, some, List, [], ◌∷◌, arith, if◌then◌else◌, Bool-cases,
  inl, inr, ◌⊎◌,
}
use ssyncd.Common.Ordered.{Ordered, ◌==◌}

abbrev pub Map {ℓ κ} : Type ℓ → Type κ → Type (ℓ ⊔ κ)
Map K V = List (K × V)

module _ {ℓ κ} {K : Type ℓ} {V : Type κ} ⦃o : Ordered K⦄ where
  -- find
  unfoldable pub lookup : K → Map K V → Option V
  lookup key [] = none
  lookup key ((at, val) ∷ rest) =
      let later = lookup key rest in if at == key then some val else later

  -- m[k] = v
  unfoldable pub insert : K → V → Map K V → Map K V
  insert key new [] = (key, new) ∷ []
  insert key new ((at, val) ∷ rest) =
      let later = (at, val) ∷ insert key new rest in
      if at == key
      then (key, new) ∷ rest
      else if o.below key at
      then (key, new) ∷ (at, val) ∷ rest
      else later

  -- m.erase(k)
  unfoldable pub erase : K → Map K V → Map K V
  erase k [] = []
  erase k ((j, w) ∷ m) = let rest = erase k m in if j == k then rest else (j, w) ∷ rest

  -- the value of m[k], which a missing key reads as `d`
  unfoldable pub at_or : V → K → Map K V → V
  at_or d k m = elim (lookup k m) [ none ↦ d | some v ↦ v ]

  -- m.count(k) > 0
  unfoldable pub has : K → Map K V → Bool
  has k m = elim (lookup k m) [ none ↦ false | some v ↦ true ]

  pub lookup-insert :
      (key asked : K) (new : V) (m : Map K V)
      → lookup asked (insert key new m) ≡ (if key == asked then some new else lookup asked m)
  unfolding insert lookup
  lookup-insert key asked new [] = refl
  lookup-insert key asked new ((at, val) ∷ rest) = ground (
    arith,
    lookup-insert key asked new rest,
    o.eqb_iff key asked,
    o.eqb_iff at key,
    o.eqb_iff at asked,
  )

  pub lookup-erase :
      (k j : K) (m : Map K V) → lookup j (erase k m) ≡ (if k == j then none else lookup j m)
  unfolding lookup erase
  lookup-erase k j [] = ground arith
  lookup-erase k j ((i, w) ∷ m) =
      ground (arith, o.eqb_iff k j, o.eqb_iff i k, o.eqb_iff i j, lookup-erase k j m)

  pub lookup-nil : (k : K) → lookup k [] ≡ none
  unfolding lookup
  lookup-nil k = refl

  pub has-insert :
      (k j : K) (v : V) (m : Map K V) → has j (insert k v m) ≡ (if k == j then true else has j m)
  unfolding has
  has-insert k j v m = elim (Bool-cases (k == j)) [
    | inl y ↦ rw (lookup-insert k j v m, has) (rw y refl)
    | inr n ↦ rw (lookup-insert k j v m, has) (rw n refl)
  ]

  pub has-erase : (k j : K) (m : Map K V) → has j (erase k m) ≡ (if k == j then false else has j m)
  unfolding has
  has-erase k j m = elim (Bool-cases (k == j)) [
    | inl y ↦ rw (lookup-erase k j m, has) (rw y refl)
    | inr n ↦ rw (lookup-erase k j m, has) (rw n refl)
  ]

  -- What is in the map after an insertion or an erasure.
  pub lookup-insert_cases :
      (k j : K) (v w : V) (m : Map K V)
      → lookup j (insert k v m) ≡ some w
      → ((k ≡ j) × (v ≡ w)) ⊎ (lookup j m ≡ some w)
  lookup-insert_cases k j v w m e = elim (Bool-cases (k == j)) [
    | inl y ↦ inl ((o.eqb_iff k j).0 y, ground (arith, e, y, lookup-insert k j v m))
    | inr n ↦ inr (ground (arith, e, n, lookup-insert k j v m))
  ]

  pub lookup-erase-some :
      (k j : K) (w : V) (m : Map K V) → lookup j (erase k m) ≡ some w → lookup j m ≡ some w
  lookup-erase-some k j w m e = ground (arith, e, lookup-erase k j m)

  pub has_of_lookup : (k : K) (w : V) (m : Map K V) → lookup k m ≡ some w → has k m ≡ true
  unfolding has
  has_of_lookup k w m e = rw (e, has) refl

pub ==_refl {ℓ} : {K : Type ℓ} ⦃o : Ordered K⦄ (k : K) → (k == k) ≡ true
==_refl ⦃o⦄ k = (o.eqb_iff k k).1 refl
