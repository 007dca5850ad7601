-- ===== src/Actions/Mapped.antt =====
-- Every key that `keySpec` returns is in the keymap (internal/app/desktop.go and
-- internal/app/keyboard_keymap.go).
use hyprland_computer_use.Actions.Keys.{
  found_or, shifted_key, byte_key, named_or, chord_or, rune_key, index_from, find_row, rows,
  other_key, plain_key, with_mods, unshifted, is_upper, KeySpec, key_at, no_key, named_key,
  key_names, last_key, from_rune, lower_ascii, chord, key_spec, chord_bit, split_plus,
}
use hyprland_computer_use.Actions.{upper_codes}
use hyprland_computer_use.Actions.Keymap.{Entry, keymap_entries}
use hyprland_computer_use.Base.{
  ap, leb, ◌||◌, if_both, All, all_from, all_from_lem, length, is_some, ℕ, ◌+◌, ◌≤◌, ◌<◌, ◌≡◌, refl,
  arith, Bool, true, ◌&&◌, eqb, Option, none, some, List, [], ◌∷◌, if◌then◌else◌, nat_eq, String,
}
use hyprland_computer_use.Base.Dict.{lookup}
use hyprland_computer_use.Base.Text.{codes, same_codes}
use Prim.Native.Nat.{bit_or}
use mathlib.Core.Path.{subst}

-- Whether the keymap has a key of that code.
unfoldable pub is_mapped : List (ℕ × Entry) → ℕ → Bool
is_mapped keys code = is_some (lookup code keys)

abbrev pub IsMapped : ℕ → Type 0
IsMapped code = is_mapped keymap_entries code ≡ true

index_from-bounds :
    (i r : ℕ) (cs : List ℕ) (j : ℕ) → index_from i r cs ≡ some j → (i ≤ j) × (j < i + length cs)
index_from-bounds i r [] j h = cc
index_from-bounds i r (c ∷ cs) j h =
    let later = index_from-bounds (i + 1) r cs j in (ground (arith, later), ground (arith, later))

abbrev RowMapped : String × ℕ → Type 0
RowMapped (s, start) = all_from (length (codes s)) start (is_mapped keymap_entries) ≡ true

rows-mapped : All RowMapped rows
unfolding is_mapped rows codes lookup keymap_entries nat_eq
rows-mapped = (refl, (refl, (refl, (refl, tt))))

find_row-IsMapped :
    (r : ℕ) (rs : List (String × ℕ)) (code : ℕ)
    → All RowMapped rs
    → find_row r rs ≡ some code
    → IsMapped code
unfolding find_row
find_row-IsMapped r [] code a h = cc
find_row-IsMapped r ((s, start) ∷ rs) code a h =
    go (index_from 0 r (codes s)) (index_from-bounds 0 r (codes s))
      (find_row-IsMapped r rs code a.1) h
  where
    go :
        (o : Option ℕ)
        → ((j : ℕ) → o ≡ some j → (0 ≤ j) × (j < 0 + length (codes s)))
        → (find_row r rs ≡ some code → IsMapped code)
        → found_or start o (find_row r rs) ≡ some code
        → IsMapped code
    go none b rest h = rest h
    go (some j) b rest h =
        let same : start + j ≡ code = ground arith in
        subst IsMapped same (
          all_from_lem (length (codes s)) start (start + j) (is_mapped keymap_entries) a.0
            (omega arith) (omega (arith, b j refl)))

-- A key is mapped, if there is one.
abbrev MapsAll : Option ℕ → Type 0
MapsAll o = (code : ℕ) → o ≡ some code → IsMapped code

maps_one : (c : ℕ) → IsMapped c → MapsAll (some c)
maps_one c m code e = subst IsMapped (ground (arith, e)) m

maps_none : MapsAll none
maps_none code e = cc

others-IsMapped : All IsMapped (57 ∷ 28 ∷ 15 ∷ 41 ∷ 43 ∷ [])
unfolding is_mapped lookup keymap_entries nat_eq
others-IsMapped = (refl, (refl, (refl, (refl, (refl, tt)))))

other_key-MapsAll : (r : ℕ) → MapsAll (other_key r)
other_key-MapsAll r =
    let (space, (enter, (tab, (tick, (backslash, _))))) = others-IsMapped in
    if_both MapsAll (eqb r b' ') _ _ (maps_one 57 space) (
      if_both MapsAll (eqb r 10 || eqb r 13) _ _ (maps_one 28 enter) (
        if_both MapsAll (eqb r 9) _ _ (maps_one 15 tab) (
          if_both MapsAll (eqb r b'`') _ _ (maps_one 41 tick)
            (if_both MapsAll (eqb r 92) _ _ (maps_one 43 backslash) maps_none))))

abbrev PairMapped : Option (ℕ × ℕ) → Type 0
PairMapped none = Unit
PairMapped (some (code, mods)) = IsMapped code

with_mods-PairMapped : (mods : ℕ) (o : Option ℕ) → MapsAll o → PairMapped (with_mods mods o)
with_mods-PairMapped mods none m = tt
with_mods-PairMapped mods (some code) m = m code refl

found_or-MapsAll : (o rest : Option ℕ) → MapsAll o → MapsAll rest → MapsAll (found_or 0 o rest)
found_or-MapsAll none rest m n = n
found_or-MapsAll (some c) rest m n = maps_one (0 + c) (m (0 + c) (ap some (omega arith)))

plain_key-PairMapped : (mods r : ℕ) → PairMapped (plain_key mods r)
unfolding plain_key
plain_key-PairMapped mods r =
    with_mods-PairMapped mods (found_or 0 (find_row r rows) (other_key r)) (
      found_or-MapsAll (find_row r rows) (other_key r)
        (λ code. find_row-IsMapped r rows code rows-mapped) (other_key-MapsAll r))

shifted_key-PairMapped : (mods r : ℕ) (o : Option ℕ) → PairMapped (shifted_key mods r o)
shifted_key-PairMapped mods r none = plain_key-PairMapped mods r
shifted_key-PairMapped mods r (some plain) = plain_key-PairMapped 1 plain

rune_key-PairMapped : (r : ℕ) → PairMapped (rune_key r)
unfolding rune_key
rune_key-PairMapped r =
    let r' = if is_upper r then r + 32 else r in
    shifted_key-PairMapped (if is_upper r then 1 else 0) r' (unshifted r')

abbrev NameMapped : String × ℕ → Type 0
NameMapped (name, code) = IsMapped code

test_names : List (ℕ × Entry) → List (String × ℕ) → Bool
test_names keys [] = true
test_names keys ((name, code) ∷ names) = is_mapped keys code && test_names keys names

test_names-NameMapped :
    (names : List (String × ℕ)) → test_names keymap_entries names ≡ true → All NameMapped names
unfolding test_names
test_names-NameMapped [] h = tt
test_names-NameMapped ((name, code) ∷ names) h =
    (ground arith, test_names-NameMapped names (ground arith))

tested_names : test_names keymap_entries key_names ≡ true
unfolding test_names is_mapped key_names lookup keymap_entries nat_eq
tested_names = refl

names_mapped : All NameMapped key_names
names_mapped = test_names-NameMapped key_names tested_names

named_key-MapsAll :
    (n : List ℕ) (names : List (String × ℕ)) → All NameMapped names → MapsAll (named_key n names)
unfolding named_key
named_key-MapsAll n [] m = maps_none
named_key-MapsAll n ((name, code) ∷ names) (m, ms) =
    if_both MapsAll (same_codes n (codes name)) _ _ (maps_one code m) (named_key-MapsAll n names ms)

-- A key that is returned is one of the keymap.
abbrev pub HasKey : KeySpec → Type 0
HasKey (no_key x) = Unit
HasKey (key_at code mods) = IsMapped code

from_rune-HasKey : (mods : ℕ) (o : Option (ℕ × ℕ)) → PairMapped o → HasKey (from_rune mods o)
from_rune-HasKey mods none m = tt
from_rune-HasKey mods (some (code, shift)) m = m

byte_key-HasKey : (mods : ℕ) (n : List ℕ) → HasKey (byte_key mods n)
unfolding byte_key
byte_key-HasKey mods [] = tt
byte_key-HasKey mods (c ∷ []) =
    if_both HasKey (leb c 127) _ _
      (from_rune-HasKey mods (rune_key (lower_ascii c)) (rune_key-PairMapped (lower_ascii c))) tt
byte_key-HasKey mods (c ∷ d ∷ cs) = tt

named_or-HasKey : (mods : ℕ) (n : List ℕ) (o : Option ℕ) → MapsAll o → HasKey (named_or mods n o)
named_or-HasKey mods n none m = byte_key-HasKey mods n
named_or-HasKey mods n (some code) m = m code refl

chord_or-HasKey :
    (o : Option ℕ) (f : ℕ → KeySpec) → ((bit : ℕ) → HasKey (f bit)) → HasKey (chord_or o f)
chord_or-HasKey none f h = tt
chord_or-HasKey (some bit) f h = h bit

chord-HasKey : (mods : ℕ) (part : List ℕ) (parts : List (List ℕ)) → HasKey (chord mods part parts)
unfolding chord last_key
chord-HasKey mods part [] =
    named_or-HasKey mods part (named_key part key_names)
      (named_key-MapsAll part key_names names_mapped)
chord-HasKey mods part (next ∷ parts) =
    chord_or-HasKey (chord_bit part) _ (λ bit. chord-HasKey (bit_or mods bit) next parts)

-- Whatever the text of a chord is, `keySpec` returns an error or a key that the keymap has.
pub key_spec-HasKey : (name : String) → HasKey (key_spec name)
unfolding key_spec
key_spec-HasKey name =
    let (part, parts) = split_plus (upper_codes name) in chord-HasKey 0 part parts
