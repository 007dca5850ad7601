-- ===== src/Actions/Keymap.antt =====
-- `keyboardKeymap` of internal/app/keyboard_keymap.go, up to the printing of its entries: for each
-- key code the symbols of both levels, and whether Caps Lock exchanges them.
use hyprland_computer_use.Actions.Keys.{rune_key}
use hyprland_computer_use.Base.{
  ℕ, zero, suc, ◌+◌, Bool, false, ◌&&◌, leb, ltb, Option, none, some, List, [], ◌∷◌, String,
  if◌then◌else◌, nat_eq,
}
use hyprland_computer_use.Base.Dict.{Dict, lookup, insert}

-- A symbol is a character, by its number in hexadecimal, or a name. The empty text is `no_symbol`.
pub data Symbol : Type 0 where
  no_symbol : Symbol
  char : ℕ → Symbol
  named : String → Symbol

abbrev pub Keymap : Type 0
Keymap = Dict ℕ (Symbol × Symbol)

-- `keys[code]`
abbrev pub symbols : ℕ → Keymap → Symbol × Symbol
symbols code keys = elim (lookup code keys) [ none ↦ (no_symbol, no_symbol) | some pair ↦ pair ]

-- `pair[mods] = symbol`: a character has the modifiers 0 or 1.
abbrev pub set_level : ℕ → Symbol → Symbol × Symbol → Symbol × Symbol
set_level zero s pair = (s, pair.1)
set_level (suc n) s pair = (pair.0, s)

abbrev pub add_character : ℕ → Option (ℕ × ℕ) → Keymap → Keymap
add_character r none keys = keys
add_character r (some (code, mods)) keys =
    insert code (set_level mods (char r) (symbols code keys)) keys

-- The characters from `r`.
unfoldable pub add_characters : ℕ → ℕ → Keymap → Keymap
unfolding rune_key insert lookup
add_characters zero r keys = keys
add_characters (suc n) r keys = add_characters n (r + 1) (add_character r (rune_key r) keys)

unfoldable pub symbol_names : List (ℕ × String)
symbol_names =
    (1, "Escape")
    ∷ (14, "BackSpace")
    ∷ (15, "Tab")
    ∷ (28, "Return")
    ∷ (111, "Delete")
    ∷ (105, "Left")
    ∷ (106, "Right")
    ∷ (103, "Up")
    ∷ (108, "Down")
    ∷ (102, "Home")
    ∷ (107, "End")
    ∷ (104, "Prior")
    ∷ (109, "Next")
    ∷ (42, "Shift_L")
    ∷ (54, "Shift_R")
    ∷ (29, "Control_L")
    ∷ (97, "Control_R")
    ∷ (56, "Alt_L")
    ∷ (100, "Alt_R")
    ∷ (58, "Caps_Lock")
    ∷ (69, "Num_Lock")
    ∷ (125, "Super_L")
    ∷ (126, "Super_R")
    ∷ []

unfoldable pub function_keys : List (ℕ × String)
function_keys =
    (59, "F1")
    ∷ (60, "F2")
    ∷ (61, "F3")
    ∷ (62, "F4")
    ∷ (63, "F5")
    ∷ (64, "F6")
    ∷ (65, "F7")
    ∷ (66, "F8")
    ∷ (67, "F9")
    ∷ (68, "F10")
    ∷ (87, "F11")
    ∷ (88, "F12")
    ∷ []

unfoldable pub add_named : List (ℕ × String) → Keymap → Keymap
unfolding insert
add_named [] keys = keys
add_named ((code, name) ∷ names) keys = add_named names (insert code (named name, named name) keys)

-- `keys`, before it is printed.
unfoldable pub keymap : Keymap
unfolding add_characters symbol_names function_keys add_named insert
keymap = add_named function_keys (
    insert 15 (named "Tab", named "ISO_Left_Tab")
      (add_named symbol_names (add_characters 95 32 [])))

pub record Entry : Type 0 where
  pub level1 : Symbol
  pub level2 : Symbol
  pub alphabetic : Bool

-- Between "0x0061" and "0x007a", as texts.
abbrev pub is_small : Symbol → Bool
is_small no_symbol = false
is_small (char r) = leb b'a' r && leb r b'z'
is_small (named s) = false

abbrev pub or_else : Symbol → Symbol → Symbol
or_else no_symbol s = s
or_else (char r) s = char r
or_else (named n) s = named n

abbrev pub entry_of : Symbol × Symbol → Entry
entry_of (first, second) = record {
  level1 = first;
  level2 = or_else second first;
  alphabetic = is_small first;
}

abbrev insert_code : ℕ → Entry → List (ℕ × Entry) → List (ℕ × Entry)
insert_code code e [] = (code, e) ∷ []
insert_code code e ((c, d) ∷ rest) =
    let later = insert_code code e rest in
    if ltb code c then (code, e) ∷ (c, d) ∷ rest else (c, d) ∷ later

-- The entries in the order of the codes.
unfoldable pub entries : Keymap → List (ℕ × Entry)
entries [] = []
entries ((code, pair) ∷ keys) = insert_code code (entry_of pair) (entries keys)

-- The `key` lines of the keymap.
unfoldable pub keymap_entries : List (ℕ × Entry)
unfolding keymap entries
keymap_entries = entries keymap
