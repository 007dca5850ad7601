-- ===== src/Base/Dict/Erase.antt =====
-- A loop that deletes, one key after another, the entries whose value passes a test.
use hyprland_computer_use.Base.{
  ◌≡◌, ap, refl, none, Bool, not, arith, [], ◌∷◌, Eq, if◌then◌else◌, ==_self, inl, inr, Bool-cases,
}
use hyprland_computer_use.Base.Dict.{Dict, lookup, erase, retain, NodupKeys}

module _ {ℓ} {K : Type ℓ} {V : Type 0} ⦃e : Eq K⦄ where
  -- The entries of the first map are looked at, and deleted from the second.
  unfoldable pub erase_where : (V → Bool) → Dict K V → Dict K V → Dict K V
  erase_where p [] d = d
  erase_where p ((k, v) ∷ s) d = erase_where p s (if p v then erase k d else d)

  pub erase_absent : (k : K) (d : Dict K V) → lookup k d ≡ none → erase k d ≡ d
  unfolding erase lookup
  erase_absent k [] h = refl
  erase_absent k ((j, w) ∷ d) h = ground (arith, erase_absent k d)

  erase_where-cons :
      (p : V → Bool) (s : Dict K V) (k : K) (v : V) (d : Dict K V)
      → lookup k s ≡ none
      → erase_where p s ((k, v) ∷ d) ≡ (k, v) ∷ erase_where p s d
  unfolding erase_where erase lookup
  erase_where-cons p [] k v d h = refl
  erase_where-cons p ((j, w) ∷ s) k v d h =
      ground (arith, erase_where-cons p s k v d, erase_where-cons p s k v (erase j d))

  -- Over a snapshot of the map itself, it leaves the entries that fail the test.
  pub erase_where_self :
      (p : V → Bool) (d : Dict K V) → NodupKeys d → erase_where p d d ≡ retain (λ v. not (p v)) d
  unfolding erase_where erase retain
  erase_where_self p [] u = refl
  erase_where_self p ((k, v) ∷ d) u = elim (Bool-cases (p v)) [
    | inl gone ↦
        rw (gone, erase_where, retain, ==_self k, erase_absent k d u.0) (erase_where_self p d u.1)
    | inr kept ↦
        rw (kept, erase_where, retain, erase_where-cons p d k v d u.0)
          (ap (λ (t : Dict K V). (k, v) ∷ t) (erase_where_self p d u.1))
  ]
