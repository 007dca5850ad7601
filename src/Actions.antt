-- ===== src/Actions.antt =====
-- The checks of input actions: internal/app/text.go, and `pointerModifiers` of
-- internal/app/pointer.go.
pub mod Laws
pub mod Keys
pub mod Keymap
pub mod Typing
pub mod Mapped
pub mod Examples
use Prim.Native.Char.{code as code_of}
use Prim.Native.Nat.{bit_and, bit_or}
use hyprland_computer_use.Base.Text.{same_codes}
use hyprland_computer_use.Base.{
  ℕ, ◌-◌, ltb, leb, eqb, length, String, Bool, true, false, not, ◌&&◌, ◌||◌, Option, none, some,
  List, [], ◌∷◌, if◌then◌else◌,
}

-- A text is the list of its runes, or none if its bytes are not valid UTF-8.
pub data TextError : Type 0 where
  invalid_utf8 : TextError
  unsupported_control : ℕ → TextError

abbrev pub is_control : ℕ → Bool
is_control r = ltb r 32 && (not (eqb r 10) && not (eqb r 9)) || (leb 0x7f r && leb r 0x9f)

unfoldable pub check_runes : List ℕ → Option TextError
check_runes [] = none
check_runes (r ∷ rs) =
    let rest = check_runes rs in if is_control r then some (unsupported_control r) else rest

-- `validateText`: the error, if any.
unfoldable pub validate_text : Option (List ℕ) → Option TextError
unfolding check_runes
validate_text none = some invalid_utf8
validate_text (some rs) = check_runes rs

-- `strings.ToUpper` as far as the letters of its result are ASCII: the long s and the dotless i are
-- the only others that it takes to one.
abbrev upper : ℕ → ℕ
upper c =
    if leb b'a' c && leb c b'z'
    then c - 32
    else if eqb c 0x17f
    then b'S'
    else if eqb c 0x131
    then b'I'
    else c

unfoldable pub upper_codes : String → List ℕ
upper_codes String.[] = []
upper_codes (String.◌∷◌ c s) = upper (code_of c) ∷ upper_codes s

-- The bit of a modifier's name.
unfoldable pub modifier_bit : String → Option ℕ
unfolding upper_codes
modifier_bit name =
    let u = upper_codes name in
    if same_codes u (upper_codes "CTRL") || same_codes u (upper_codes "CONTROL")
    then some 4
    else if same_codes u (upper_codes "SHIFT")
    then some 1
    else if same_codes u (upper_codes "ALT")
    then some 8
    else none

pub data ModifierError : Type 0 where
  too_many_modifiers unknown_modifier duplicate_modifier : ModifierError

pub data Modifiers : Type 0 where
  refused : ModifierError → Modifiers
  mask : ℕ → Modifiers

unfoldable pub add_modifiers : ℕ → List String → Modifiers
unfolding modifier_bit
add_modifiers mods [] = mask mods
add_modifiers mods (name ∷ names) = elim (modifier_bit name) [
  | none ↦ refused unknown_modifier
  | some bit ↦ elim (eqb (bit_and mods bit) 0) [
    | false ↦ refused duplicate_modifier
    | true ↦ add_modifiers (bit_or mods bit) names
  ]
]

-- `pointerModifiers`
unfoldable pub pointer_modifiers : List String → Modifiers
unfolding add_modifiers
pointer_modifiers names =
    if ltb 3 (length names) then refused too_many_modifiers else add_modifiers 0 names
