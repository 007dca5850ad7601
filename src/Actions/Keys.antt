-- ===== src/Actions/Keys.antt =====
-- `keySpec` and `runeKey` of internal/app/desktop.go: the key code of the Linux input system and
-- the modifiers (1 for Shift, 4 for Control, 8 for Alt) of a chord, and of a character.
use Prim.Native.Nat.{bit_or}
use hyprland_computer_use.Actions.{upper_codes}
use hyprland_computer_use.Base.{
  ℕ, ◌+◌, Bool, ◌&&◌, ◌||◌, eqb, leb, Option, none, some, List, [], ◌∷◌, get_elem?, String,
  if◌then◌else◌,
}
use hyprland_computer_use.Base.Text.{codes, same_codes}

-- `strings.IndexRune` on ASCII texts.
abbrev pub index_from : ℕ → ℕ → List ℕ → Option ℕ
index_from i r [] = none
index_from i r (c ∷ cs) = if eqb r c then some i else index_from (i + 1) r cs

unfoldable pub rows : List (String × ℕ)
rows = ("1234567890-=", 2) ∷ ("qwertyuiop[]", 16) ∷ ("asdfghjkl;'", 30) ∷ ("zxcvbnm,./", 44) ∷ []

abbrev pub found_or : ℕ → Option ℕ → Option ℕ → Option ℕ
found_or start none rest = rest
found_or start (some i) rest = some (start + i)

unfoldable pub find_row : ℕ → List (String × ℕ) → Option ℕ
unfolding codes
find_row r [] = none
find_row r ((s, start) ∷ rows) = found_or start (index_from 0 r (codes s)) (find_row r rows)

abbrev pub other_key : ℕ → Option ℕ
other_key r =
    if eqb r b' '
    then some 57
    else if eqb r 10 || eqb r 13
    then some 28
    else if eqb r 9
    then some 15
    else if eqb r b'`'
    then some 41
    else if eqb r 92
    then some 43
    else none

-- The plain key of a shifted character.
unfoldable pub unshifted : ℕ → Option ℕ
unfolding codes
unshifted r = elim (index_from 0 r (codes "!@#$%^&*()_+{}:\"<>?~|")) [
  | none ↦ none
  | some i ↦ get_elem? (codes "1234567890-=[];',./`\\") i
]

abbrev pub is_upper : ℕ → Bool
is_upper r = leb b'A' r && leb r b'Z'

abbrev pub with_mods : ℕ → Option ℕ → Option (ℕ × ℕ)
with_mods mods none = none
with_mods mods (some key) = some (key, mods)

unfoldable pub plain_key : ℕ → ℕ → Option (ℕ × ℕ)
unfolding rows find_row
plain_key mods r = with_mods mods (found_or 0 (find_row r rows) (other_key r))

abbrev pub shifted_key : ℕ → ℕ → Option ℕ → Option (ℕ × ℕ)
shifted_key mods r none = plain_key mods r
shifted_key mods r (some plain) = plain_key 1 plain

-- `runeKey`: none if the character is not on the layout.
unfoldable pub rune_key : ℕ → Option (ℕ × ℕ)
unfolding unshifted plain_key
rune_key r =
    let r' = if is_upper r then r + 32 else r in
    shifted_key (if is_upper r then 1 else 0) r' (unshifted r')

pub data KeyError : Type 0 where
  unsupported_modifier unsupported_key unsupported_character : KeyError

pub data KeySpec : Type 0 where
  no_key : KeyError → KeySpec
  key_at : ℕ → ℕ → KeySpec

-- The keys that have a name.
unfoldable pub key_names : List (String × ℕ)
key_names =
    ("ENTER", 28)
    ∷ ("RETURN", 28)
    ∷ ("TAB", 15)
    ∷ ("ESC", 1)
    ∷ ("ESCAPE", 1)
    ∷ ("BACKSPACE", 14)
    ∷ ("DELETE", 111)
    ∷ ("LEFT", 105)
    ∷ ("RIGHT", 106)
    ∷ ("UP", 103)
    ∷ ("DOWN", 108)
    ∷ ("HOME", 102)
    ∷ ("END", 107)
    ∷ ("PAGEUP", 104)
    ∷ ("PAGEDOWN", 109)
    ∷ ("SPACE", 57)
    ∷ ("F1", 59)
    ∷ ("F2", 60)
    ∷ ("F3", 61)
    ∷ ("F4", 62)
    ∷ ("F5", 63)
    ∷ ("F6", 64)
    ∷ ("F7", 65)
    ∷ ("F8", 66)
    ∷ ("F9", 67)
    ∷ ("F10", 68)
    ∷ ("F11", 87)
    ∷ ("F12", 88)
    ∷ []

unfoldable pub named_key : List ℕ → List (String × ℕ) → Option ℕ
unfolding codes
named_key n [] = none
named_key n ((name, code) ∷ names) =
    if same_codes n (codes name) then some code else named_key n names

unfoldable pub chord_bit : List ℕ → Option ℕ
unfolding codes
chord_bit part =
    if same_codes part (codes "CTRL") || same_codes part (codes "CONTROL")
    then some 4
    else if same_codes part (codes "SHIFT")
    then some 1
    else if same_codes part (codes "ALT")
    then some 8
    else none

-- `strings.Split(…, "+")`: the first part, and the others.
unfoldable pub split_plus : List ℕ → List ℕ × List (List ℕ)
split_plus [] = ([], [])
split_plus (c ∷ cs) =
    let (part, parts) = split_plus cs in
    if eqb c b'+' then ([], part ∷ parts) else (c ∷ part, parts)

abbrev pub from_rune : ℕ → Option (ℕ × ℕ) → KeySpec
from_rune mods none = no_key unsupported_character
from_rune mods (some (code, shift)) = key_at code mods

abbrev pub lower_ascii : ℕ → ℕ
lower_ascii c = if is_upper c then c + 32 else c

-- The key of the last part: a name, or a single byte.
unfoldable pub byte_key : ℕ → List ℕ → KeySpec
unfolding rune_key
byte_key mods (c ∷ []) =
    if leb c 127 then from_rune mods (rune_key (lower_ascii c)) else no_key unsupported_key
byte_key mods _ = no_key unsupported_key

abbrev pub named_or : ℕ → List ℕ → Option ℕ → KeySpec
named_or mods n none = byte_key mods n
named_or mods n (some code) = key_at code mods

unfoldable pub last_key : ℕ → List ℕ → KeySpec
unfolding key_names named_key byte_key
last_key mods n = named_or mods n (named_key n key_names)

abbrev pub chord_or : Option ℕ → (ℕ → KeySpec) → KeySpec
chord_or none f = no_key unsupported_modifier
chord_or (some bit) f = f bit

unfoldable pub chord : ℕ → List ℕ → List (List ℕ) → KeySpec
unfolding chord_bit last_key
chord mods part [] = last_key mods part
chord mods part (next ∷ parts) =
    chord_or (chord_bit part) (λ bit. chord (bit_or mods bit) next parts)

-- `keySpec`
unfoldable pub key_spec : String → KeySpec
unfolding upper_codes split_plus chord
key_spec name = let (part, parts) = split_plus (upper_codes name) in chord 0 part parts
