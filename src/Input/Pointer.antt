-- ===== src/Input/Pointer.antt =====
-- The actions of an input batch, and the checks of their pointer fields: `Action` and
-- `validatePointerSize` of internal/app/desktop.go, `validateExtendedPointer` of
-- internal/app/pointer.go. A text that was decoded from JSON is the list of its runes.
use hyprland_computer_use.Base.{
  ℕ, String, Bool, true, false, not, ◌&&◌, ◌||◌, Option, none, some, List, [], ◌∷◌, length, eqb,
  ltb, if◌then◌else◌,
}
use hyprland_computer_use.Base.Int.{ℤ, pos, negsuc, ltb_ℤ}
use hyprland_computer_use.Surfaces.{Floats}
use hyprland_computer_use.Actions.{
  ModifierError, TextError, Modifiers, pointer_modifiers, refused, mask,
}
use hyprland_computer_use.Actions.Keys.{KeyError}

pub data ActionType : Type 0 where
  focus move click drag scroll key text : ActionType
  other_type : String → ActionType

pub data ScrollUnit : Type 0 where
  no_unit wheel_steps logical_pixels : ScrollUnit
  other_unit : String → ScrollUnit

pub data Button : Type 0 where
  default_button left right middle : Button
  other_button : String → Button

pub record Action (f : Floats) : Type 0 where
  pub modifiers : List String
  pub click_count : ℤ
  pub path : List (f.Float × f.Float)
  pub delta_x : f.Float
  pub delta_y : f.Float
  pub unit : ScrollUnit
  pub type : ActionType
  pub x : f.Float
  pub y : f.Float
  pub to_x : f.Float
  pub to_y : f.Float
  pub button : Button
  pub delta : f.Float
  pub key_name : String
  pub runes : List ℕ
  pub duration_ms : ℤ

-- What an input is refused for.
pub data InputError : Type 0 where
  bad_modifiers : ModifierError → InputError
  bad_click_count modifiers_without_pointer bad_path path_and_endpoints : InputError
  axes_and_delta bad_unit bad_axis outside_window invalid_scroll : InputError
  surface_focus text_too_long unsupported_action bad_duration timed_drag invalid_button : InputError
  bad_text : TextError → InputError
  bad_key : KeyError → InputError

abbrev pub is_zero_int : ℤ → Bool
is_zero_int (pos n) = eqb n 0
is_zero_int (negsuc n) = false

module _ (f : Floats) where
  -- `valid`: a finite point of the window.
  abbrev pub is_inside : f.Float × f.Float → f.Float × f.Float → Bool
  is_inside (width, height) (x, y) =
      not (f.is_nan x)
      && (not (f.is_nan y)
          && (not (f.is_infinite x)
              && (not (f.is_infinite y)
                  && (f.at_least x (f.of_int (pos 0))
                      && (f.at_least y (f.of_int (pos 0))
                          && (f.less x width && f.less y height))))))

  abbrev pub is_pointer : ActionType → Bool
  is_pointer move = true
  is_pointer click = true
  is_pointer drag = true
  is_pointer scroll = true
  is_pointer t = false

  abbrev pub is_drag : ActionType → Bool
  is_drag drag = true
  is_drag t = false

  abbrev pub is_click : ActionType → Bool
  is_click click = true
  is_click t = false

  abbrev pub is_scroll : ActionType → Bool
  is_scroll scroll = true
  is_scroll t = false

  -- `math.Abs(v) > limit`, and the numbers that are none.
  abbrev pub is_beyond : ℕ → f.Float → Bool
  is_beyond limit v = f.is_nan v || (f.is_infinite v || f.less (f.of_int (pos limit)) (f.abs v))

  -- `validatePointerSize`
  unfoldable pub validate_pointer : Action f → f.Float × f.Float → Option InputError
  validate_pointer a size =
      if not (is_pointer a.type)
      then none
      else if not (is_inside size (a.x, a.y))
          || is_drag a.type && not (is_inside size (a.to_x, a.to_y))
      then some outside_window
      else if is_beyond 1200 a.delta
      then some invalid_scroll
      else none

  -- `Action{Type: "move", X: p.X, Y: p.Y}`
  abbrev pub move_to : f.Float × f.Float → Action f
  move_to (x, y) =
      let zero = f.of_int (pos 0) in
      record {
        modifiers = [];
        click_count = pos 0;
        path = [];
        delta_x = zero;
        delta_y = zero;
        unit = no_unit;
        type = move;
        x = x;
        y = y;
        to_x = zero;
        to_y = zero;
        button = default_button;
        delta = zero;
        key_name = "";
        runes = [];
        duration_ms = pos 0;
      }

  abbrev pub then_check : Option InputError → Option InputError → Option InputError
  then_check (some x) next = some x
  then_check none next = next

  -- Each point of a path is checked as a move.
  unfoldable pub validate_path : f.Float × f.Float → List (f.Float × f.Float) → Option InputError
  unfolding validate_pointer
  validate_path size [] = none
  validate_path size (p ∷ path) =
      then_check (validate_pointer (move_to p) size) (validate_path size path)

  abbrev is_zero : f.Float → Bool
  is_zero v = f.equals v (f.of_int (pos 0))

  abbrev pub is_no_unit : ScrollUnit → Bool
  is_no_unit no_unit = true
  is_no_unit u = false

  abbrev pub has_axes : Action f → Bool
  has_axes a = not (is_no_unit a.unit) || (not (is_zero a.delta_x) || not (is_zero a.delta_y))

  abbrev pub has_modifiers : Action f → Bool
  has_modifiers a = ltb 0 (length a.modifiers)

  abbrev pub has_path : Action f → Bool
  has_path a = ltb 0 (length a.path)

  -- `extendedPointer`
  unfoldable pub extended_pointer : Action f → Bool
  extended_pointer a =
      has_modifiers a || (ltb_ℤ (pos 1) a.click_count || (has_path a || has_axes a))

  unfoldable pub check_path : Action f → f.Float × f.Float → Option InputError
  unfolding validate_path
  check_path a size =
      if not (is_drag a.type) || (ltb (length a.path) 2 || ltb 64 (length a.path))
      then some bad_path
      else if not (is_zero a.x && (is_zero a.y && (is_zero a.to_x && is_zero a.to_y)))
      then some path_and_endpoints
      else validate_path size a.path

  abbrev pub axis_limit : ScrollUnit → Option ℕ
  axis_limit wheel_steps = some 100
  axis_limit logical_pixels = some 1200
  axis_limit u = none

  abbrev is_wheel : ScrollUnit → Bool
  is_wheel wheel_steps = true
  is_wheel u = false

  abbrev pub is_bad_axis : ScrollUnit → ℕ → f.Float → Bool
  is_bad_axis unit limit v = is_beyond limit v || is_wheel unit && not (f.equals (f.trunc v) v)

  abbrev pub limit_error : Action f → Option ℕ → Option InputError
  limit_error a none = some bad_unit
  limit_error a (some limit) =
      if is_bad_axis a.unit limit a.delta_x || is_bad_axis a.unit limit a.delta_y
      then some bad_axis
      else none

  unfoldable pub check_axes : Action f → Option InputError
  check_axes a =
      if not (is_scroll a.type) || not (is_zero a.delta)
      then some axes_and_delta
      else limit_error a (axis_limit a.unit)

  abbrev modifier_error : Modifiers → Option InputError
  modifier_error (refused x) = some (bad_modifiers x)
  modifier_error (mask m) = none

  abbrev pub count_error : Action f → Option InputError
  count_error a =
      if ltb_ℤ a.click_count (pos 0)
        || (ltb_ℤ (pos 3) a.click_count || not (is_zero_int a.click_count) && not (is_click a.type))
      then some bad_click_count
      else none

  -- `validateExtendedPointer`
  unfoldable pub validate_extended : Action f → f.Float × f.Float → Option InputError
  unfolding check_path check_axes
  validate_extended a size = then_check (modifier_error (pointer_modifiers a.modifiers)) (
      then_check (count_error a) (
        then_check
          (if has_modifiers a && not (is_pointer a.type)
            then some modifiers_without_pointer
            else none)
          (then_check (if has_path a then check_path a size else none)
            (if has_axes a then check_axes a else none))))
