-- ===== src/Common/SortedMap.antt =====
-- The invariants of a std::map: its keys ascend, so that no key stands twice.
use mathlib.Core.Path.{subst}
use ssyncd.Common.{◌≡◌, refl, true, false, none, [], ◌∷◌, arith, Bool-cases, inl, inr}
use ssyncd.Common.Ordered.{Ordered, ◌==◌}
use ssyncd.Common.Map.{Map, lookup, insert, erase}

==_sym {ℓ} : {K : Type ℓ} ⦃o : Ordered K⦄ (a b : K) → (a == b) ≡ false → (b == a) ≡ false
==_sym ⦃o⦄ a b h = ground (arith, o.eqb_iff a b, o.eqb_iff b a)

module _ {ℓ κ} {K : Type ℓ} {V : Type κ} ⦃o : Ordered K⦄ where
  -- Every key lies above `k`.
  abbrev pub IsAbove : K → Map K V → Type 0
  IsAbove k [] = Unit
  IsAbove k ((j, v) ∷ m) = (o.below k j ≡ true) × IsAbove k m

  abbrev pub IsSorted : Map K V → Type 0
  IsSorted [] = Unit
  IsSorted ((k, v) ∷ m) = IsAbove k m × IsSorted m

  IsAbove-trans : (k j : K) (m : Map K V) → o.below k j ≡ true → IsAbove j m → IsAbove k m
  IsAbove-trans k j [] b h = tt
  IsAbove-trans k j ((i, v) ∷ m) b (h, hs) = (o.below_trans k j i b h, IsAbove-trans k j m b hs)

  -- A key below all others is not in the map.
  pub lookup-IsAbove : (k : K) (m : Map K V) → IsAbove k m → lookup k m ≡ none
  unfolding lookup
  lookup-IsAbove k [] h = refl
  lookup-IsAbove k ((j, v) ∷ m) (h, hs) =
      ground (arith, o.eqb_iff j k, o.below_irrefl k, h, lookup-IsAbove k m hs)

  insert-IsAbove :
      (i k : K) (v : V) (m : Map K V) → o.below i k ≡ true → IsAbove i m → IsAbove i (insert k v m)
  unfolding insert
  insert-IsAbove i k v [] b h = (b, tt)
  insert-IsAbove i k v ((j, w) ∷ m) b (h, hs) = elim (Bool-cases (j == k)) [
    | inl e ↦ rw e (b, hs)
    | inr n ↦ elim (Bool-cases (o.below k j)) [
      | inl l ↦ rw (n, l) (b, (h, hs))
      | inr g ↦ rw (n, g) (h, insert-IsAbove i k v m b hs)
    ]
  ]

  pub insert-IsSorted : (k : K) (v : V) (m : Map K V) → IsSorted m → IsSorted (insert k v m)
  unfolding insert
  insert-IsSorted k v [] h = (tt, tt)
  insert-IsSorted k v ((j, w) ∷ m) (h, hs) = elim (Bool-cases (j == k)) [
    | inl e ↦ rw e (subst (λ x. IsAbove x m) ((o.eqb_iff j k).0 e) h, hs)
    | inr n ↦ elim (Bool-cases (o.below k j)) [
      | inl l ↦ rw (n, l) ((l, IsAbove-trans k j m l h), (h, hs))
      | inr g ↦
          rw (n, g)
            (
              insert-IsAbove j k v m (o.below_total k j (==_sym j k n) g) h,
              insert-IsSorted k v m hs,
            )
    ]
  ]

  erase-IsAbove : (i k : K) (m : Map K V) → IsAbove i m → IsAbove i (erase k m)
  unfolding erase
  erase-IsAbove i k [] h = tt
  erase-IsAbove i k ((j, w) ∷ m) (h, hs) = elim (Bool-cases (j == k)) [
    | inl e ↦ rw e (erase-IsAbove i k m hs)
    | inr n ↦ rw n (h, erase-IsAbove i k m hs)
  ]

  pub erase-IsSorted : (k : K) (m : Map K V) → IsSorted m → IsSorted (erase k m)
  unfolding erase
  erase-IsSorted k [] h = tt
  erase-IsSorted k ((j, w) ∷ m) (h, hs) = elim (Bool-cases (j == k)) [
    | inl e ↦ rw e (erase-IsSorted k m hs)
    | inr n ↦ rw n (erase-IsAbove j k m h, erase-IsSorted k m hs)
  ]
