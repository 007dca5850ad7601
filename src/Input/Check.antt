-- ===== src/Input/Check.antt =====
-- The checks that `input` of internal/app/desktop.go makes of every action, before any effect.
use hyprland_computer_use.Base.{
  ℕ, ◌+◌, Bool, true, false, ◌&&◌, ◌||◌, Option, none, some, List, [], ◌∷◌, length, ltb,
  if◌then◌else◌,
}
use hyprland_computer_use.Base.Int.{pos, ltb_ℤ}
use hyprland_computer_use.Surfaces.{Floats}
use hyprland_computer_use.Actions.{TextError, validate_text}
use hyprland_computer_use.Actions.Keys.{KeySpec, no_key, key_at, key_spec}
use hyprland_computer_use.Input.Pointer.{
  Action, ActionType, InputError, focus, key, text, other_type, surface_focus, text_too_long,
  unsupported_action, bad_duration, timed_drag, invalid_button, bad_text, bad_key, Button,
  other_button, is_drag, extended_pointer, validate_extended, validate_pointer, then_check,
}

-- The bytes of a text in UTF-8.
abbrev pub rune_bytes : ℕ → ℕ
rune_bytes r = if ltb r 0x80 then 1 else if ltb r 0x800 then 2 else if ltb r 0x10000 then 3 else 4

abbrev pub text_bytes : List ℕ → ℕ
text_bytes [] = 0
text_bytes (r ∷ rs) = rune_bytes r + text_bytes rs

-- `maxBatchTextBytes`
abbrev pub max_text_bytes : ℕ
max_text_bytes = 262144

abbrev text_problem : Option TextError → Option InputError
text_problem none = none
text_problem (some x) = some (bad_text x)

abbrev key_problem : KeySpec → Option InputError
key_problem (no_key x) = some (bad_key x)
key_problem (key_at code mods) = none

abbrev is_focus : ActionType → Bool
is_focus focus = true
is_focus t = false

abbrev pub is_text : ActionType → Bool
is_text text = true
is_text t = false

abbrev button_problem : Button → Option InputError
button_problem (other_button b) = some invalid_button
button_problem b = none

module _ (f : Floats) where
  -- The `switch` on the type, with the bytes of all texts so far, this one included.
  unfoldable pub check_type : ℕ → Action f → Option InputError
  check_type total a = elim a.type [
    | text ↦
        if ltb max_text_bytes total
        then some text_too_long
        else text_problem (validate_text (some a.runes))
    | key ↦ key_problem (key_spec a.key_name)
    | other_type t ↦ some unsupported_action
    | _ ↦ none
  ]

  abbrev pub duration_error : Action f → Option InputError
  duration_error a =
      if ltb_ℤ a.duration_ms (pos 0) || ltb_ℤ (pos 5000) a.duration_ms
      then some bad_duration
      else if is_drag f a.type && ltb_ℤ (pos 0) a.duration_ms
      then some timed_drag
      else none

  -- The body of the loop, up to the first error.
  unfoldable pub check_action : Bool → f.Float × f.Float → ℕ → Action f → Option InputError
  unfolding check_type
  check_action on_surface bounds total a = then_check f (validate_extended f a bounds) (
      then_check f (if on_surface && is_focus a.type then some surface_focus else none) (
        then_check f (check_type total a) (
          then_check f (validate_pointer f a bounds)
            (then_check f (duration_error a) (button_problem a.button)))))

  abbrev pub bytes_with : ℕ → Action f → ℕ
  bytes_with total a = if is_text a.type then total + text_bytes a.runes else total

  -- The loop: the bytes of the texts so far are the second argument.
  unfoldable pub check_actions : Bool → ℕ → f.Float × f.Float → List (Action f) → Option InputError
  unfolding check_action
  check_actions on_surface total bounds [] = none
  check_actions on_surface total bounds (a ∷ actions) =
      let total' = bytes_with total a in
      then_check f (check_action on_surface bounds total' a)
        (check_actions on_surface total' bounds actions)

  -- `hasText` and `hasExtendedPointer`, once all actions are accepted.
  abbrev pub has_text : List (Action f) → Bool
  has_text [] = false
  has_text (a ∷ actions) = is_text a.type && ltb 0 (length a.runes) || has_text actions

  abbrev pub has_extended : List (Action f) → Bool
  has_extended [] = false
  has_extended (a ∷ actions) = extended_pointer f a || has_extended actions
