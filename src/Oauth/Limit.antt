-- ===== src/Oauth/Limit.antt =====
-- internal/app/oauth.go: `rateLimit`. The key holds the handler's name and the address.
use hyprland_computer_use.Base.{
  ℕ, ◌+◌, ◌-◌, ◌≤◌, ◌<◌, ◌≡◌, ◌≢◌, arith, refl, Bool, not, ◌&&◌, ltb, leb, Option, none, some, List,
  [], ◌∷◌, length, is_some, String, string_eq, ◌==◌, if◌then◌else◌, if_both, All, false,
}
use hyprland_computer_use.Base.Dict.{
  Dict, retain, lookup, insert, NodupKeys, retain-NodupKeys, insert-NodupKeys, lookup-retain,
  lookup-insert,
}
use hyprland_computer_use.Oauth.Approved.{minute}
use hyprland_computer_use.Base.{string_discrete, ==_self, true, ◌∙◌}

pub record RateEntry : Type 0 where
  pub window : ℕ
  pub count : ℕ

pub data Limit : Type 0 where
  passes : Limit
  over_capacity : Limit
  too_many : Limit

abbrev in_window : ℕ → RateEntry → Bool
in_window now e = ltb (now - e.window) minute

abbrev counted : ℕ → Option RateEntry → RateEntry
counted now none = record { window = now; count = 1 }
counted now (some e) =
    if leb minute (now - e.window)
    then record { window = now; count = 1 }
    else record e { count = e.count + 1 }

unfoldable pub rate_limit : ℕ → String → ℕ → Dict String RateEntry → Limit × Dict String RateEntry
rate_limit now key limit d =
    let kept = retain (in_window now) d in
    let entry = lookup key kept in
    let next = counted now entry in
    if not (is_some entry) && leb 1024 (length kept)
    then (over_capacity, kept)
    else (if leb next.count limit then passes else too_many, insert key next kept)

abbrev tally : Limit → Bool → ℕ
tally passes counts = if counts then 1 else 0
tally over_capacity counts = 0
tally too_many counts = 0

-- How many of the requests for the key pass.
unfoldable pub passed : ℕ → String → List (ℕ × String) → Dict String RateEntry → ℕ
unfolding rate_limit
passed limit key [] d = 0
passed limit key ((now, k) ∷ t) d =
    tally (rate_limit now k limit d).0 (k == key) + passed limit key t (rate_limit now k limit d).1

tally-other : (a : Limit) → tally a false ≡ 0
tally-other passes = refl
tally-other over_capacity = refl
tally-other too_many = refl

tally-same : (b : Bool) → tally (if b then passes else too_many) true ≡ (if b then 1 else 0)
tally-same true = refl
tally-same false = refl

rate_limit-NodupKeys :
    (now : ℕ) (k : String) (limit : ℕ) (d : Dict String RateEntry)
    → NodupKeys d
    → NodupKeys (rate_limit now k limit d).1
unfolding rate_limit
rate_limit-NodupKeys now k limit d u =
    let kept = retain-NodupKeys (in_window now) d u in
    if_both (λ (r : Limit × Dict String RateEntry). NodupKeys r.1)
      (not (is_some (lookup k (retain (in_window now) d)))
        && leb 1024 (length (retain (in_window now) d)))
      _ _ kept (insert-NodupKeys k _ (retain (in_window now) d) kept)

rate_limit-other :
    (now : ℕ) (k key : String) (limit : ℕ) (d : Dict String RateEntry) (e : RateEntry)
    → NodupKeys d
    → lookup key d ≡ some e
    → now - e.window < minute
    → k ≢ key
    → lookup key (rate_limit now k limit d).1 ≡ some e
unfolding rate_limit
rate_limit-other now k key limit d e u f h ne =
    let kept = retain (in_window now) d in
    ground (
      arith,
      lookup-retain (in_window now) key d u,
      lookup-insert key k (counted now (lookup k kept)) kept,
    )

rate_limit-same :
    (now : ℕ) (key : String) (limit : ℕ) (d : Dict String RateEntry) (e : RateEntry)
    → NodupKeys d
    → lookup key d ≡ some e
    → now - e.window < minute
    → rate_limit now key limit d ≡ (
      if leb (e.count + 1) limit then passes else too_many,
      insert key (record e { count = e.count + 1 }) (retain (in_window now) d),
    )
unfolding rate_limit
rate_limit-same now key limit d e u f h =
    let found : lookup key (retain (in_window now) d) ≡ some e =
      ground (arith, lookup-retain (in_window now) key d u) in
    let young : leb minute (now - e.window) ≡ false = ground arith in rw (found, young) refl

add_bound :
    (c limit rest : ℕ)
    → rest ≤ limit - (c + 1)
    → (if leb (c + 1) limit then 1 else 0) + rest ≤ limit - c
add_bound c limit rest h = ground arith

-- Where a key has an entry, and each key one at most: of the requests within a minute of the start
-- of the entry's window, whatever requests for other keys come between them, no more pass for the
-- key than the limit less what the entry has counted.
pub rate_limit-bound :
    (limit : ℕ) (key : String) (t : List (ℕ × String)) (d : Dict String RateEntry) (e : RateEntry)
    → NodupKeys d
    → lookup key d ≡ some e
    → All (λ r. r.0 - e.window < minute) t
    → passed limit key t d ≤ limit - e.count
unfolding passed
rate_limit-bound limit key [] d e u f h = omega arith
rate_limit-bound limit key ((now, k) ∷ t) d e u f h = elim (string_discrete k key) [
  | no ne ↦
      let d' = (rate_limit now k limit d).1 in
      let n = rate_limit-NodupKeys now k limit d u in
      let kept = rate_limit-other now k key limit d e u f h.0 ne in
      ground (
        arith,
        tally-other (rate_limit now k limit d).0,
        rate_limit-bound limit key t d' e n kept h.1,
      )
  | yes p ↦
      let next = record e { count = e.count + 1 } in
      let d' = insert key next (retain (in_window now) d) in
      let same : rate_limit now k limit d
          ≡ (if leb (e.count + 1) limit then passes else too_many, d') =
        rw p (rate_limit-same now key limit d e u f h.0) in
      let n =
        insert-NodupKeys key next (retain (in_window now) d)
          (retain-NodupKeys (in_window now) d u) in
      let found : lookup key d' ≡ some next =
        lookup-insert key key next (retain (in_window now) d) ∙ rw (==_self key) refl in
      let rest = rate_limit-bound limit key t d' next n found h.1 in
      rw (same, p, ==_self key, tally-same (leb (e.count + 1) limit))
        (add_bound e.count limit (passed limit key t d') rest)
]
