-- ===== src/Input/Decoded.antt =====
-- What the fields of an action that is decoded must be (internal/app/pointer.go), said field by field.
use hyprland_computer_use.Base.{
  ℕ, ◌≡◌, ◌≤◌, ◌⊎◌, String, string_eq, Bool, false, none, some, List, length, All,
}
use hyprland_computer_use.Base.Dict.{lookup}
use hyprland_computer_use.Base.Int.{ℤ, pos}
use hyprland_computer_use.Input.Pointer.{ActionType, move, click, drag, scroll, key, text}
use hyprland_computer_use.Input.Fields.{Fields, has}

-- The actions at a position of the window.
pub data IsPointer : ActionType → Type 0 where
  on_move : IsPointer move
  on_click : IsPointer click
  on_drag : IsPointer drag
  on_scroll : IsPointer scroll

-- Where a field may stand, field by field.
pub data MayStand : String → ActionType → Type 0 where
  any_type : {t : ActionType} → MayStand "type" t
  key_name : MayStand "key" key
  typed : MayStand "text" text
  at_x : {t : ActionType} → IsPointer t → MayStand "x" t
  at_y : {t : ActionType} → IsPointer t → MayStand "y" t
  modified : {t : ActionType} → IsPointer t → MayStand "modifiers" t
  click_button : MayStand "button" click
  drag_button : MayStand "button" drag
  counted : MayStand "click_count" click
  legacy : MayStand "delta" scroll
  across : MayStand "delta_x" scroll
  down : MayStand "delta_y" scroll
  measured : MayStand "unit" scroll
  end_x : MayStand "to_x" drag
  end_y : MayStand "to_y" drag
  along : MayStand "path" drag
  timed : MayStand "duration_ms" drag

-- Where a field must stand, field by field, for actions with or without a path.
pub data MustStand : String → ActionType → Bool → Type 0 where
  always : {t : ActionType} {p : Bool} → MustStand "type" t p
  needs_key : {p : Bool} → MustStand "key" key p
  needs_text : {p : Bool} → MustStand "text" text p
  move_x : {p : Bool} → MustStand "x" move p
  move_y : {p : Bool} → MustStand "y" move p
  click_x : {p : Bool} → MustStand "x" click p
  click_y : {p : Bool} → MustStand "y" click p
  scroll_x : {p : Bool} → MustStand "x" scroll p
  scroll_y : {p : Bool} → MustStand "y" scroll p
  drag_x : MustStand "x" drag false
  drag_y : MustStand "y" drag false
  drag_to_x : MustStand "to_x" drag false
  drag_to_y : MustStand "to_y" drag false

-- A field that is there and not null, and one that is not there.
abbrev pub IsGiven : String → Fields → Type 0
IsGiven k fields = lookup k fields ≡ some false

abbrev pub IsLeftOut : String → Fields → Type 0
IsLeftOut k fields = lookup k fields ≡ none

abbrev pub IsValidField : ActionType → String × Bool → Type 0
IsValidField t (k, is_null) = MayStand k t × (is_null ≡ false)

-- A delta alone, or both axes with their unit.
abbrev pub IsScroll : Fields → Type 0
IsScroll fields =
    (IsGiven "delta" fields
      × IsLeftOut "delta_x" fields
      × IsLeftOut "delta_y" fields
      × IsLeftOut "unit" fields)
    ⊎ (IsLeftOut "delta" fields
        × IsGiven "delta_x" fields
        × IsGiven "delta_y" fields
        × IsGiven "unit" fields)

abbrev pub IsPathOnly : Fields → Type 0
IsPathOnly fields =
    IsLeftOut "x" fields × IsLeftOut "y" fields × IsLeftOut "to_x" fields × IsLeftOut "to_y" fields

abbrev pub IsPoint : Fields → Type 0
IsPoint p = (length p ≡ 2) × IsGiven "x" p × IsGiven "y" p

-- What is known of an action that is decoded.
pub record IsComplete (t : ActionType) (fields : Fields) (clicks : ℤ) (points : List Fields)
    : Type 0 where
  pub valid : All (IsValidField t) fields
  pub complete : (k : String) → MustStand k t (has "path" fields) → IsGiven k fields
  pub path_only : t ≡ drag → IsGiven "path" fields → IsPathOnly fields
  pub one_form : t ≡ scroll → IsScroll fields
  pub few_clicks : IsGiven "click_count" fields → (n : ℕ) × (clicks ≡ pos n) × (1 ≤ n) × (n ≤ 3)
  pub few_points : IsGiven "path" fields → (2 ≤ length points) × (length points ≤ 64)
  pub sound_points : IsGiven "path" fields → All IsPoint points
