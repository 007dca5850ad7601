-- ===== src/Input/Complete.antt =====
-- The fields of an action that is decoded (internal/app/pointer.go).
use hyprland_computer_use.Base.{
  ℕ, ◌≡◌, ◌≤◌, inl, inr, refl, arith, String, string_eq, Bool, true, false, Option, none, some,
  List, [], ◌∷◌, length, All, contains-All, Bool-cases,
}
use mathlib.Core.Path.{subst}
use hyprland_computer_use.Base.Dict.{lookup}
use hyprland_computer_use.Base.Int.{ℤ, pos, negsuc}
use hyprland_computer_use.Input.Pointer.{
  ActionType, focus, move, click, drag, scroll, key, text, other_type,
}
use hyprland_computer_use.Input.Decoded.{
  MayStand, MustStand, IsGiven, IsLeftOut, IsValidField, IsScroll, IsPathOnly, IsPoint, IsComplete,
  on_move, on_click, on_drag, on_scroll, any_type, key_name, typed, at_x, at_y, modified,
  click_button, drag_button, counted, legacy, across, down, measured, end_x, end_y, along, timed,
  always, needs_key, needs_text, move_x, move_y, click_x, click_y, scroll_x, scroll_y, drag_x,
  drag_y, drag_to_x, drag_to_y,
}
use hyprland_computer_use.Input.Fields.{
  Fields, FieldError, has, allowed_fields, required_fields, type_error, combined_error,
  fields_error, required_error, scroll_error, points_error, path_error, count_range, or_next,
  unmarshal_error,
}

or_next-none : (a b : Option FieldError) → or_next a b ≡ none → (a ≡ none) × (b ≡ none)
or_next-none none b h = (refl, h)
or_next-none (some e) b h = cc

-- The program's table of the fields agrees with the one above.
allowed_fields-MayStand : (t : ActionType) → All (λ k. MayStand k t) (allowed_fields t)
unfolding allowed_fields
allowed_fields-MayStand focus = (any_type, tt)
allowed_fields-MayStand key = (any_type, (key_name, tt))
allowed_fields-MayStand text = (any_type, (typed, tt))
allowed_fields-MayStand move = (any_type, (at_x on_move, (at_y on_move, (modified on_move, tt))))
allowed_fields-MayStand click =
    (any_type, (at_x on_click, (at_y on_click, (modified on_click, (click_button, (counted, tt))))))
allowed_fields-MayStand scroll = (
  any_type,
  (
    at_x on_scroll,
    (at_y on_scroll, (modified on_scroll, (legacy, (across, (down, (measured, tt)))))),
  ),
)
allowed_fields-MayStand drag = (
  any_type,
  (
    at_x on_drag,
    (at_y on_drag, (modified on_drag, (drag_button, (end_x, (end_y, (along, (timed, tt))))))),
  ),
)
allowed_fields-MayStand (other_type t) = (any_type, tt)

fields_error-valid :
    (t : ActionType) (names : List String) (fields : Fields)
    → All (λ k. MayStand k t) names
    → fields_error names fields ≡ none
    → All (IsValidField t) fields
unfolding fields_error
fields_error-valid t names [] a h = tt
fields_error-valid t names ((k, is_null) ∷ fields) a h = (
  (contains-All (λ k. MayStand k t) names k a (ground arith), ground arith),
  fields_error-valid t names fields a (ground arith),
)

-- Where no field is null, one that is there is given.
has-IsGiven :
    (names : List String) (k : String) (fields : Fields)
    → fields_error names fields ≡ none
    → has k fields ≡ true
    → IsGiven k fields
unfolding fields_error lookup
has-IsGiven names k [] a h = cc
has-IsGiven names k ((j, is_null) ∷ fields) a h = ground (arith, has-IsGiven names k fields)

required_error-has :
    (fields : Fields) (names : List String)
    → required_error fields names ≡ none
    → All (λ k. has k fields ≡ true) names
unfolding required_error
required_error-has fields [] h = tt
required_error-has fields (k ∷ ks) h = (ground arith, required_error-has fields ks (ground arith))

first_field :
    (P : String → Type 0) (t : ActionType) (p : Bool) → All P (required_fields t p) → P "type"
unfolding required_fields
first_field P focus p a = a.0
first_field P key p a = a.0
first_field P text p a = a.0
first_field P move p a = a.0
first_field P click p a = a.0
first_field P scroll p a = a.0
first_field P drag true a = a.0
first_field P drag false a = a.0
first_field P (other_type s) p a = a.0

-- The program's table of the required fields has all that must stand.
required_fields-MustStand :
    (P : String → Type 0) (k : String) (t : ActionType) (p : Bool)
    → MustStand k t p
    → All P (required_fields t p)
    → P k
unfolding required_fields
required_fields-MustStand P _ t p always a = first_field P t p a
required_fields-MustStand P _ _ _ needs_key a = a.1.0
required_fields-MustStand P _ _ _ needs_text a = a.1.0
required_fields-MustStand P _ _ _ move_x a = a.1.0
required_fields-MustStand P _ _ _ move_y a = a.1.1.0
required_fields-MustStand P _ _ _ click_x a = a.1.0
required_fields-MustStand P _ _ _ click_y a = a.1.1.0
required_fields-MustStand P _ _ _ scroll_x a = a.1.0
required_fields-MustStand P _ _ _ scroll_y a = a.1.1.0
required_fields-MustStand P _ _ _ drag_x a = a.1.0
required_fields-MustStand P _ _ _ drag_y a = a.1.1.0
required_fields-MustStand P _ _ _ drag_to_x a = a.1.1.1.0
required_fields-MustStand P _ _ _ drag_to_y a = a.1.1.1.1.0

left_out : (k : String) (fields : Fields) → has k fields ≡ false → IsLeftOut k fields
left_out k fields h = ground arith

type_error-IsPathOnly :
    (fields : Fields) → type_error drag fields ≡ none → IsGiven "path" fields → IsPathOnly fields
unfolding combined_error
type_error-IsPathOnly fields h g = (ground arith, ground arith, ground arith, ground arith)

scroll_error-IsScroll :
    (names : List String) (fields : Fields)
    → fields_error names fields ≡ none
    → scroll_error scroll fields ≡ none
    → IsScroll fields
unfolding scroll_error
scroll_error-IsScroll names fields a h =
    let given = λ (k : String). has-IsGiven names k fields a in
    elim (Bool-cases (has "delta" fields)) [
      | inl d ↦ inl (given "delta" d, ground arith, ground arith, ground arith)
      | inr d ↦ inr (
        ground arith,
        given "delta_x" (ground arith),
        given "delta_y" (ground arith),
        given "unit" (ground arith),
      )
    ]

count_range-few :
    (clicks : ℤ) → count_range true clicks ≡ none → (n : ℕ) × (clicks ≡ pos n) × (1 ≤ n) × (n ≤ 3)
count_range-few (pos n) h = (n, refl, ground arith, ground arith)
count_range-few (negsuc n) h = absurd (ground arith)

points_error-IsPoint : (points : List Fields) → points_error points ≡ none → All IsPoint points
unfolding points_error
points_error-IsPoint [] h = tt
points_error-IsPoint (p ∷ points) h =
    ((ground arith, ground arith, ground arith), points_error-IsPoint points (ground arith))

path_error-points :
    (b : Bool) (points : List Fields)
    → path_error b points ≡ none
    → b ≡ true
    → (2 ≤ length points) × (length points ≤ 64) × (points_error points ≡ none)
unfolding path_error
path_error-points false points h e = cc
path_error-points true points h e = (ground arith, ground arith, ground arith)

given-has : (k : String) (fields : Fields) → IsGiven k fields → has k fields ≡ true
given-has k fields h = ground arith

-- An action that is decoded has no field but those of its type, and none that is null; it has the
-- fields that its type must have, which for a drag without a path are both its endpoints; a drag
-- with a path has none of them; a scroll has either the delta alone or both axes with their unit;
-- a click count is 1 to 3; and a path has 2 to 64 points, each of an x and a y that are not null,
-- and no more.
pub unmarshal_error-IsComplete :
    (t : ActionType) (fields : Fields) (clicks : ℤ) (points : List Fields)
    → unmarshal_error t fields clicks points ≡ none
    → IsComplete t fields clicks points
unfolding unmarshal_error
unmarshal_error-IsComplete t fields clicks points h =
    let path = path_error (has "path" fields) points in
    let count = count_range (has "click_count" fields) clicks in
    let needs = required_error fields (required_fields t (has "path" fields)) in
    let first = or_next-none (type_error t fields) _ h in
    let second = or_next-none (fields_error (allowed_fields t) fields) _ first.1 in
    let third = or_next-none needs _ second.1 in
    let fourth = or_next-none (scroll_error t fields) _ third.1 in
    let fifth = or_next-none count path fourth.1 in
    let sound = path_error-points (has "path" fields) points fifth.1 in
    record {
      valid = fields_error-valid t (allowed_fields t) fields (allowed_fields-MayStand t) second.0;
      complete = λ k m. has-IsGiven (allowed_fields t) k fields second.0 (
          required_fields-MustStand (λ j. has j fields ≡ true) k t (has "path" fields) m
            (required_error-has fields (required_fields t (has "path" fields)) third.0));
      path_only =
          λ e g. type_error-IsPathOnly fields (subst (λ u. type_error u fields ≡ none) e first.0) g;
      one_form = λ e.
          scroll_error-IsScroll (allowed_fields t) fields second.0
            (subst (λ u. scroll_error u fields ≡ none) e fourth.0);
      few_clicks = λ g.
          count_range-few clicks
            (subst (λ b. count_range b clicks ≡ none) (given-has "click_count" fields g) fifth.0);
      few_points = λ g. let e = sound (given-has "path" fields g) in (e.0, e.1);
      sound_points = λ g. points_error-IsPoint points (sound (given-has "path" fields g)).2;
    }
