-- ===== src/Base/Dict/Values.antt =====
-- Predicates on the values of a map, and what a search in it finds.
use mathlib.Core.Path.{refl, ◌≡◌, subst}
use mathlib.Core.Logic.{◌⊎◌, inl, inr}
use mathlib.Core.Bool.{Bool, true, false}
use mathlib.Core.Option.{none, some}
use mathlib.Core.List.{[], ◌∷◌}
use native.Mathlib.Omega.{arith}
use hyprland_computer_use.Base.Tests.{Bool-cases}
use hyprland_computer_use.Base.Equality.{Eq, ◌==◌}
use hyprland_computer_use.Base.Dict.{Dict, lookup, insert, erase, retain, map_values, find_value}

module _ {ℓ κ} {K : Type ℓ} {V : Type κ} where
  -- A predicate on every value.
  abbrev pub AllValues {μ} : (V → Type μ) → Dict K V → Type μ
  AllValues P [] = Unit
  AllValues P ((k, v) ∷ d) = P v × AllValues P d

module _ {ℓ κ μ ν} {K : Type ℓ} {V : Type κ} (P : V → Type μ) (Q : V → Type ν) where
  pub AllValues-weaken : (d : Dict K V) → ((v : V) → P v → Q v) → AllValues P d → AllValues Q d
  AllValues-weaken [] h a = tt
  AllValues-weaken ((j, w) ∷ d) h a = (h w a.0, AllValues-weaken d h a.1)

module _ {ℓ κ μ} {K : Type ℓ} {V : Type κ} (P : V → Type μ) where
  pub AllValues-retain : (p : V → Bool) (d : Dict K V) → AllValues P d → AllValues P (retain p d)
  unfolding retain
  AllValues-retain p [] a = tt
  AllValues-retain p ((j, w) ∷ d) a = elim (Bool-cases (p w)) [
    | inl kept ↦ rw kept (a.0, AllValues-retain p d a.1)
    | inr gone ↦ rw gone (AllValues-retain p d a.1)
  ]

  pub AllValues-map_values :
      (f : V → V) (d : Dict K V)
      → ((v : V) → P v → P (f v))
      → AllValues P d
      → AllValues P (map_values f d)
  unfolding map_values
  AllValues-map_values f [] h a = tt
  AllValues-map_values f ((j, w) ∷ d) h a = (h w a.0, AllValues-map_values f d h a.1)

  -- What is left has passed the test.
  pub AllValues-retain_test :
      (p : V → Bool) (d : Dict K V) → ((v : V) → p v ≡ true → P v) → AllValues P (retain p d)
  unfolding retain
  AllValues-retain_test p [] h = tt
  AllValues-retain_test p ((j, w) ∷ d) h = elim (Bool-cases (p w)) [
    | inl kept ↦ rw kept (h w kept, AllValues-retain_test p d h)
    | inr gone ↦ rw gone (AllValues-retain_test p d h)
  ]

  -- What a search finds passes its test and satisfies the predicate.
  pub find_value-AllValues :
      (p : V → Bool) (d : Dict K V) (v : V) → AllValues P d → find_value p d ≡ some v → P v
  unfolding find_value
  find_value-AllValues p [] v a f = cc
  find_value-AllValues p ((j, w) ∷ d) v a f = elim (Bool-cases (p w)) [
    | inl found ↦ subst P (ground arith) a.0
    | inr on ↦ find_value-AllValues p d v a.1 (ground arith)
  ]

module _ {ℓ κ μ} {K : Type ℓ} {V : Type κ} ⦃e : Eq K⦄ (P : V → Type μ) where
  pub AllValues-insert :
      (k : K) (v : V) (d : Dict K V) → P v → AllValues P d → AllValues P (insert k v d)
  unfolding insert
  AllValues-insert k v [] h a = (h, tt)
  AllValues-insert k v ((j, w) ∷ d) h a = elim (Bool-cases (k == j)) [
    | inl same ↦ rw same (h, a.1)
    | inr other ↦ rw other (a.0, AllValues-insert k v d h a.1)
  ]

  pub AllValues-erase : (k : K) (d : Dict K V) → AllValues P d → AllValues P (erase k d)
  unfolding erase
  AllValues-erase k [] a = tt
  AllValues-erase k ((j, w) ∷ d) a = elim (Bool-cases (k == j)) [
    | inl same ↦ rw same (AllValues-erase k d a.1)
    | inr other ↦ rw other (a.0, AllValues-erase k d a.1)
  ]

  pub lookup-AllValues : (k : K) (d : Dict K V) (v : V) → AllValues P d → lookup k d ≡ some v → P v
  unfolding lookup
  lookup-AllValues k [] v a f = cc
  lookup-AllValues k ((j, w) ∷ d) v a f = elim (Bool-cases (k == j)) [
    | inl same ↦ subst P (ground arith) a.0
    | inr on ↦ lookup-AllValues k d v a.1 (ground arith)
  ]

module _ {ℓ} {K : Type ℓ} {V : Type 0} where
  -- The value stands in some entry.
  abbrev pub HasValue : V → Dict K V → Type 0
  HasValue v [] = ⊥
  HasValue v ((k, w) ∷ d) = (v ≡ w) ⊎ HasValue v d

  pub find_value-HasValue :
      (p : V → Bool) (d : Dict K V) (v : V) → find_value p d ≡ some v → HasValue v d × (p v ≡ true)
  unfolding find_value
  find_value-HasValue p [] v f = cc
  find_value-HasValue p ((k, w) ∷ d) v f = ground (arith, find_value-HasValue p d v)

  pub find_value-eq-none :
      (p : V → Bool) (d : Dict K V) (v : V) → find_value p d ≡ none → HasValue v d → p v ≡ false
  unfolding find_value
  find_value-eq-none p [] v f h = absurd h
  find_value-eq-none p ((k, w) ∷ d) v f h = ground (arith, find_value-eq-none p d v)

module _ {ℓ} {K : Type ℓ} {V : Type 0} ⦃e : Eq K⦄ where
  -- A write of the first value that passes the test is found by it.
  pub find_value-insert :
      (p : V → Bool) (k : K) (v : V) (d : Dict K V)
      → find_value p d ≡ none
      → p v ≡ true
      → find_value p (insert k v d) ≡ some v
  unfolding find_value insert
  find_value-insert p k v [] f h = ground arith
  find_value-insert p k v ((j, w) ∷ d) f h = ground (arith, find_value-insert p k v d)

module _ {ℓ} {K : Type ℓ} {V : Type 0} where
  -- A stronger test finds nothing where a weaker one does not.
  pub find_value_mono :
      (p q : V → Bool) (d : Dict K V)
      → ((v : V) → q v ≡ true → p v ≡ true)
      → find_value p d ≡ none
      → find_value q d ≡ none
  unfolding find_value
  find_value_mono p q [] h f = refl
  find_value_mono p q ((k, w) ∷ d) h f = ground (arith, h w, find_value_mono p q d h)

  -- A search passes over deleted values that fail its test.
  pub find_value-retain :
      (p q : V → Bool) (d : Dict K V)
      → ((v : V) → p v ≡ true → q v ≡ true)
      → find_value p (retain q d) ≡ find_value p d
  unfolding find_value retain
  find_value-retain p q [] h = refl
  find_value-retain p q ((k, w) ∷ d) h = ground (arith, h w, find_value-retain p q d h)

  -- It finds nothing where all that passes its test is deleted.
  pub find_value-retain-none :
      (p q : V → Bool) (d : Dict K V)
      → ((v : V) → p v ≡ true → q v ≡ false)
      → find_value p (retain q d) ≡ none
  unfolding find_value retain
  find_value-retain-none p q [] h = refl
  find_value-retain-none p q ((k, w) ∷ d) h = ground (arith, h w, find_value-retain-none p q d h)
