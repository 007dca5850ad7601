-- ===== src/Base/Dict.antt =====
-- Go maps as association lists. Go leaves the iteration order open, so a theorem about every list
-- of entries is a theorem about every order.
use Prim.Native.Nat.{◌+◌, ◌≤◌, ◌<◌}
pub mod Values
pub mod Erase
use mathlib.Core.Path.{◌≡◌, refl}
use mathlib.Core.Bool.{Bool, true}
use mathlib.Core.Option
use mathlib.Core.Option.{Option, none, some}
use mathlib.Core.List.{List, [], ◌∷◌}
use native.Mathlib.Omega.{arith}
use hyprland_computer_use.Base.Tests.{is_some, if◌then◌else◌}
use hyprland_computer_use.Base.Equality.{Eq, ◌==◌}
use hyprland_computer_use.Base.Lists.{length}

abbrev pub Dict {ℓ κ} : Type ℓ → Type κ → Type (ℓ ⊔ κ)
Dict K V = List (K × V)

-- An optional value, if it passes the test.
abbrev pub keep_if {ℓ} : {V : Type ℓ} → (V → Bool) → Option V → Option V
keep_if p none = none
keep_if p (some v) = if p v then some v else none

module _ {ℓ κ} {K : Type ℓ} {V : Type κ} where
  -- A loop over the map that deletes the entries whose value fails the test.
  unfoldable pub retain : (V → Bool) → Dict K V → Dict K V
  retain p [] = []
  retain p ((j, w) ∷ d) = let rest = retain p d in if p w then (j, w) ∷ rest else rest

  -- A loop over the map that updates each value.
  unfoldable pub map_values : (V → V) → Dict K V → Dict K V
  map_values f [] = []
  map_values f ((j, w) ∷ d) = (j, f w) ∷ map_values f d

  -- The first value that passes the test.
  unfoldable pub find_value : (V → Bool) → Dict K V → Option V
  find_value p [] = none
  find_value p ((j, w) ∷ d) = if p w then some w else find_value p d

  pub length-retain : (p : V → Bool) (d : Dict K V) → length (retain p d) ≤ length d
  unfolding retain
  length-retain p [] = omega arith
  length-retain p ((j, w) ∷ d) = ground (arith, length-retain p d)

  pub length-map_values : (f : V → V) (d : Dict K V) → length (map_values f d) ≡ length d
  unfolding map_values
  length-map_values f [] = refl
  length-map_values f ((j, w) ∷ d) = omega (arith, length-map_values f d)

module _ {ℓ κ} {K : Type ℓ} {V : Type κ} ⦃e : Eq K⦄ where
  -- `m[k]`
  unfoldable pub lookup : K → Dict K V → Option V
  lookup k [] = none
  lookup k ((j, v) ∷ d) = if k == j then some v else lookup k d

  -- `m[k] = v`
  unfoldable pub insert : K → V → Dict K V → Dict K V
  insert k v [] = (k, v) ∷ []
  insert k v ((j, w) ∷ d) = if k == j then (k, v) ∷ d else (j, w) ∷ insert k v d

  -- `delete(m, k)`
  unfoldable pub erase : K → Dict K V → Dict K V
  erase k [] = []
  erase k ((j, w) ∷ d) = let rest = erase k d in if k == j then rest else (j, w) ∷ rest

  abbrev pub NodupKeys : Dict K V → Type κ
  NodupKeys [] = Unit
  NodupKeys ((k, _) ∷ d) = (lookup k d ≡ none) × NodupKeys d

  pub lookup-insert :
      (j k : K) (v : V) (d : Dict K V)
      → lookup j (insert k v d) ≡ (if j == k then some v else lookup j d)
  unfolding insert lookup
  lookup-insert j k v [] = refl
  lookup-insert j k v ((i, w) ∷ d) = ground (arith, lookup-insert j k v d)

  pub lookup-erase :
      (j k : K) (d : Dict K V) → lookup j (erase k d) ≡ (if j == k then none else lookup j d)
  unfolding erase lookup
  lookup-erase j k [] = ground arith
  lookup-erase j k ((i, w) ∷ d) = ground (arith, lookup-erase j k d)

  pub lookup-map_values :
      (f : V → V) (j : K) (d : Dict K V) → lookup j (map_values f d) ≡ Option.map f (lookup j d)
  unfolding map_values lookup
  lookup-map_values f j [] = refl
  lookup-map_values f j ((i, w) ∷ d) = ground (arith, lookup-map_values f j d)

  pub lookup-retain-none :
      (p : V → Bool) (j : K) (d : Dict K V) → lookup j d ≡ none → lookup j (retain p d) ≡ none
  unfolding retain lookup
  lookup-retain-none p j [] h = refl
  lookup-retain-none p j ((i, w) ∷ d) h = ground (arith, lookup-retain-none p j d)

  pub lookup-retain :
      (p : V → Bool) (j : K) (d : Dict K V)
      → NodupKeys d
      → lookup j (retain p d) ≡ keep_if p (lookup j d)
  unfolding retain lookup
  lookup-retain p j [] u = refl
  lookup-retain p j ((i, w) ∷ d) u =
      ground (arith, lookup-retain p j d u.1, lookup-retain-none p i d u.0)

  pub insert-NodupKeys : (k : K) (v : V) (d : Dict K V) → NodupKeys d → NodupKeys (insert k v d)
  unfolding insert lookup
  insert-NodupKeys k v [] u = (refl, tt)
  insert-NodupKeys k v ((j, w) ∷ d) u =
      ground (arith, insert-NodupKeys k v d u.1, lookup-insert j k v d)

  pub erase-NodupKeys : (k : K) (d : Dict K V) → NodupKeys d → NodupKeys (erase k d)
  unfolding erase
  erase-NodupKeys k [] u = tt
  erase-NodupKeys k ((j, w) ∷ d) u = ground (arith, erase-NodupKeys k d u.1, lookup-erase j k d)

  pub retain-NodupKeys : (p : V → Bool) (d : Dict K V) → NodupKeys d → NodupKeys (retain p d)
  unfolding retain
  retain-NodupKeys p [] u = tt
  retain-NodupKeys p ((j, w) ∷ d) u =
      ground (arith, retain-NodupKeys p d u.1, lookup-retain-none p j d u.0)

  pub length-insert : (k : K) (v : V) (d : Dict K V) → length (insert k v d) ≤ length d + 1
  unfolding insert
  length-insert k v [] = omega arith
  length-insert k v ((j, w) ∷ d) = ground (arith, length-insert k v d)

  pub length-insert_old :
      (k : K) (v : V) (d : Dict K V)
      → is_some (lookup k d) ≡ true
      → length (insert k v d) ≡ length d
  unfolding insert lookup
  length-insert_old k v [] h = cc
  length-insert_old k v ((j, w) ∷ d) h = ground (arith, length-insert_old k v d)

  pub length-erase : (k : K) (d : Dict K V) → length (erase k d) ≤ length d
  unfolding erase
  length-erase k [] = omega arith
  length-erase k ((j, w) ∷ d) = ground (arith, length-erase k d)

  pub map_values-NodupKeys : (f : V → V) (d : Dict K V) → NodupKeys d → NodupKeys (map_values f d)
  unfolding map_values
  map_values-NodupKeys f [] u = tt
  map_values-NodupKeys f ((j, w) ∷ d) u =
      ground (arith, map_values-NodupKeys f d u.1, lookup-map_values f j d)

  pub lookup-some_pos : (k : K) (d : Dict K V) → is_some (lookup k d) ≡ true → 0 < length d
  unfolding lookup
  lookup-some_pos k [] h = cc
  lookup-some_pos k ((j, w) ∷ d) h = omega arith
