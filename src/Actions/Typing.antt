-- ===== src/Actions/Typing.antt =====
-- The keymap has the keys that `runeKey` and `keySpec` name (internal/app/desktop.go and
-- internal/app/keyboard_keymap.go).
use hyprland_computer_use.Actions.Keys.{rune_key}
use hyprland_computer_use.Actions.Keymap.{Symbol, no_symbol, char, named, Entry, keymap_entries}
use hyprland_computer_use.Base.{
  all_from, all_from_lem, ℕ, zero, suc, ◌≤◌, ◌≡◌, refl, arith, Bool, true, false, eqb, Option, none,
  some, List, nat_eq,
}
use hyprland_computer_use.Base.Dict.{lookup}

-- What XKB's types TWO_LEVEL and ALPHABETIC make of an entry: the second level under Shift.
abbrev pub symbol_at : ℕ → Entry → Symbol
symbol_at zero e = e.level1
symbol_at (suc n) e = e.level2

-- The symbol of a key with its modifiers.
abbrev pub typed : List (ℕ × Entry) → Option (ℕ × ℕ) → Option Symbol
typed keys none = none
typed keys (some (code, mods)) = elim (lookup code keys) [
  | none ↦ none
  | some e ↦ some (symbol_at mods e)
]

abbrev is_char : ℕ → Option Symbol → Bool
is_char r (some (char s)) = eqb r s
is_char r s = false

is_char_path : (r : ℕ) (s : Option Symbol) → is_char r s ≡ true → s ≡ some (char r)
is_char_path r none h = cc
is_char_path r (some no_symbol) h = cc
is_char_path r (some (named n)) h = cc
is_char_path r (some (char s)) h = ground arith

types : List (ℕ × Entry) → ℕ → Bool
types keys r = is_char r (typed keys (rune_key r))

every_character : all_from 95 32 (types keymap_entries) ≡ true
unfolding types rune_key lookup keymap_entries nat_eq
every_character = refl

-- For every printable ASCII character, the symbol that the keymap has for the key and the modifiers
-- of `runeKey` is that character: the level of the entry is the second one under Shift.
pub typed-rune_key : (r : ℕ) → 32 ≤ r → r ≤ 126 → typed keymap_entries (rune_key r) ≡ some (char r)
unfolding types
typed-rune_key r l u =
    is_char_path r _ (all_from_lem 95 32 r (types keymap_entries) every_character l (omega arith))
