-- ===== src/Input/Fields.antt =====
-- `UnmarshalJSON` of internal/app/pointer.go: the checks of which fields an action has. The JSON
-- decoder is outside: an action is its fields, each with whether its value is null, and the decoded
-- values that the checks look at. The order of the fields is that of the list.
use hyprland_computer_use.Base.{
  String, Bool, true, false, not, ◌&&◌, ◌||◌, Option, none, some, is_some, List, [], ◌∷◌, length,
  contains, ltb, eqb, if◌then◌else◌, string_eq,
}
use hyprland_computer_use.Base.Dict.{Dict, lookup}
use hyprland_computer_use.Base.Int.{ℤ, pos, ltb_ℤ}
use hyprland_computer_use.Input.Pointer.{
  ActionType, focus, move, click, drag, scroll, key, text, other_type,
}

pub data FieldError : Type 0 where
  unsupported_type : FieldError
  path_combined : String → FieldError
  not_valid cannot_be_null required : String → FieldError
  scroll_forms scroll_axes click_count_range path_length bad_point : FieldError

-- A field of an object, and whether it is null.
abbrev pub Fields : Type 0
Fields = Dict String Bool

abbrev pub has : String → Fields → Bool
has name fields = is_some (lookup name fields)

-- The fields that a type may have, and those that it must have: `with_path` is whether the action
-- has a path.
unfoldable pub allowed_fields : ActionType → List String
allowed_fields focus = "type" ∷ []
allowed_fields key = "type" ∷ "key" ∷ []
allowed_fields text = "type" ∷ "text" ∷ []
allowed_fields move = "type" ∷ "x" ∷ "y" ∷ "modifiers" ∷ []
allowed_fields click = "type" ∷ "x" ∷ "y" ∷ "modifiers" ∷ "button" ∷ "click_count" ∷ []
allowed_fields scroll =
    "type" ∷ "x" ∷ "y" ∷ "modifiers" ∷ "delta" ∷ "delta_x" ∷ "delta_y" ∷ "unit" ∷ []
allowed_fields drag =
    "type" ∷ "x" ∷ "y" ∷ "modifiers" ∷ "button" ∷ "to_x" ∷ "to_y" ∷ "path" ∷ "duration_ms" ∷ []
allowed_fields (other_type t) = "type" ∷ []

unfoldable pub required_fields : ActionType → Bool → List String
required_fields focus with_path = "type" ∷ []
required_fields key with_path = "type" ∷ "key" ∷ []
required_fields text with_path = "type" ∷ "text" ∷ []
required_fields drag true = "type" ∷ []
required_fields drag false = "type" ∷ "x" ∷ "y" ∷ "to_x" ∷ "to_y" ∷ []
required_fields (other_type t) with_path = "type" ∷ []
required_fields t with_path = "type" ∷ "x" ∷ "y" ∷ []

-- The endpoints that a path excludes.
unfoldable pub combined_error : Fields → List String → Option FieldError
combined_error fields [] = none
combined_error fields (k ∷ ks) =
    let rest = combined_error fields ks in if has k fields then some (path_combined k) else rest

abbrev pub type_error : ActionType → Fields → Option FieldError
type_error (other_type t) fields = some unsupported_type
type_error drag fields =
    if has "path" fields then combined_error fields ("x" ∷ "y" ∷ "to_x" ∷ "to_y" ∷ []) else none
type_error t fields = none

unfoldable pub fields_error : List String → Fields → Option FieldError
fields_error names [] = none
fields_error names ((k, is_null) ∷ fields) =
    let rest = fields_error names fields in
    if not (contains names k)
    then some (not_valid k)
    else if is_null
    then some (cannot_be_null k)
    else rest

unfoldable pub required_error : Fields → List String → Option FieldError
required_error fields [] = none
required_error fields (k ∷ ks) =
    let rest = required_error fields ks in if has k fields then rest else some (required k)

abbrev pub has_axis_fields : Fields → Bool
has_axis_fields fields = has "delta_x" fields || (has "delta_y" fields || has "unit" fields)

abbrev pub has_all_axes : Fields → Bool
has_all_axes fields = has "delta_x" fields && (has "delta_y" fields && has "unit" fields)

-- A scroll has the legacy delta or both axes with their unit.
unfoldable pub scroll_error : ActionType → Fields → Option FieldError
scroll_error scroll fields =
    if has "delta" fields && has_axis_fields fields
      || not (has "delta" fields || has_axis_fields fields)
    then some scroll_forms
    else if has_axis_fields fields && not (has_all_axes fields)
    then some scroll_axes
    else none
scroll_error t fields = none

-- A point has an x and a y, which are not null, and no more.
abbrev pub is_value : Option Bool → Bool
is_value none = false
is_value (some is_null) = not is_null

abbrev pub is_point : Fields → Bool
is_point p = eqb (length p) 2 && (is_value (lookup "x" p) && is_value (lookup "y" p))

unfoldable pub points_error : List Fields → Option FieldError
points_error [] = none
points_error (p ∷ points) =
    let rest = points_error points in if is_point p then rest else some bad_point

unfoldable pub path_error : Bool → List Fields → Option FieldError
unfolding points_error
path_error false points = none
path_error true points =
    if ltb (length points) 2 || ltb 64 (length points)
    then some path_length
    else points_error points

abbrev pub count_range : Bool → ℤ → Option FieldError
count_range present n =
    if present && (ltb_ℤ n (pos 1) || ltb_ℤ (pos 3) n) then some click_count_range else none

abbrev pub or_next : Option FieldError → Option FieldError → Option FieldError
or_next (some e) next = some e
or_next none next = next

-- `UnmarshalJSON`: the error of an action with that type, those fields, that click count and those
-- points, if any.
unfoldable pub unmarshal_error : ActionType → Fields → ℤ → List Fields → Option FieldError
unfolding combined_error fields_error required_error scroll_error path_error allowed_fields
    required_fields
unmarshal_error t fields clicks points = or_next (type_error t fields) (
    or_next (fields_error (allowed_fields t) fields) (
      or_next (required_error fields (required_fields t (has "path" fields))) (
        or_next (scroll_error t fields) (
          or_next (count_range (has "click_count" fields) clicks)
            (path_error (has "path" fields) points)))))
