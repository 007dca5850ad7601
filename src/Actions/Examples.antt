-- ===== src/Actions/Examples.antt =====
-- A text of a letter and a line feed, a mask of two modifiers, and some keys.
use hyprland_computer_use.Actions.{
  validate_text, pointer_modifiers, mask, refused, duplicate_modifier,
}
use hyprland_computer_use.Actions.Laws.{IsTyped, validate_text-IsTyped}
use hyprland_computer_use.Base.{◌≡◌, ◌↔◌, refl, none, some, [], ◌∷◌, All}
use hyprland_computer_use.Actions.Keymap.{keymap_entries, char}
use hyprland_computer_use.Actions.Keys.{key_spec, rune_key, key_at, no_key, unsupported_modifier}
use hyprland_computer_use.Actions.Mapped.{HasKey, key_spec-HasKey}
use hyprland_computer_use.Actions.Typing.{typed, typed-rune_key}
use hyprland_computer_use.Base.{arith}

validate_text-IsTyped_example :
    (validate_text (some (97 ∷ 10 ∷ [])) ≡ none) ↔ All IsTyped (97 ∷ 10 ∷ [])
validate_text-IsTyped_example = validate_text-IsTyped (97 ∷ 10 ∷ [])

two_modifiers : pointer_modifiers ("ctrl" ∷ "SHIFT" ∷ []) ≡ mask 5
unfolding pointer_modifiers
two_modifiers = refl

control_twice : pointer_modifiers ("ctrl" ∷ "CONTROL" ∷ []) ≡ refused duplicate_modifier
unfolding pointer_modifiers
control_twice = refl

key_spec-HasKey_example : HasKey (key_spec "ctrl+PageUp")
key_spec-HasKey_example = key_spec-HasKey "ctrl+PageUp"

page_up : key_spec "ctrl+PageUp" ≡ key_at 104 4
unfolding key_spec
page_up = refl

typed-rune_key_example : typed keymap_entries (rune_key b'?') ≡ some (char b'?')
typed-rune_key_example = typed-rune_key b'?' (omega arith) (omega arith)

-- `keySpec` leaves out the Shift that `runeKey` returns: the key of a question mark is that of a
-- slash.
question_mark : key_spec "?" ≡ key_at 53 0
unfolding key_spec
question_mark = refl

shifted_slash : rune_key b'?' ≡ some (53, 1)
unfolding rune_key
shifted_slash = refl

unknown_chord : key_spec "super+l" ≡ no_key unsupported_modifier
unfolding key_spec
unknown_chord = refl
