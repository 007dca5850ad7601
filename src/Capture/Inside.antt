-- ===== src/Capture/Inside.antt =====
-- A region that is accepted lies in its window (internal/app/capture_options.go).
use hyprland_computer_use.Base.{ℕ, ◌+◌, ◌≡◌, ◌≤◌, ◌<◌, refl, arith, false, not, Option, none, some}
use hyprland_computer_use.Base.Int.{ℤ, pos, negsuc}
use mathlib.Core.Path.{subst}
use hyprland_computer_use.Base.Result.{Passed, ok, no_error, Ends, Ends-bind, Ends-unless}
use hyprland_computer_use.Broker.State.{Window}
use hyprland_computer_use.Capture.Options.{
  CaptureRegion, CaptureOptions, OptionError, is_below, is_bad_region, validate_options, is_outside,
  region_outside, capture_bounds,
}
use hyprland_computer_use.Base.Int.{ltb_ℤ, sub_ℤ}

-- From `start`, so many of `size` units.
abbrev pub IsPart : ℤ → ℤ → ℤ → Type 0
IsPart start length size =
    (a : ℕ) × (n : ℕ) × (m : ℕ) × (start ≡ pos a)
    × (length ≡ pos n)
    × (size ≡ pos m)
    × (0 < n)
    × (a + n ≤ m)

part :
    (start length size : ℤ)
    → is_below 0 start ≡ false
    → is_below 1 length ≡ false
    → ltb_ℤ (sub_ℤ size length) start ≡ false
    → IsPart start length size
part (pos a) (pos n) (pos m) h k l = (a, n, m, refl, refl, refl, ground arith, ground arith)
part (negsuc a) length size h k l = ground arith
part (pos a) (negsuc n) size h k l = ground arith
part (pos a) (pos n) (negsuc m) h k l = ground arith

no_error-none : (o : Option OptionError) (u : Passed) → no_error o ≡ ok u → o ≡ none
no_error-none none u h = refl
no_error-none (some x) u h = cc

valid_region :
    (r : CaptureRegion) (max_width max_height : ℤ)
    → validate_options (record { region = some r; max_width = max_width; max_height = max_height })
      ≡ none
    → is_bad_region r ≡ false
unfolding validate_options
valid_region r max_width max_height h = ground arith

pub capture_bounds-IsPart :
    (r : CaptureRegion) (max_width max_height : ℤ) (w : Window)
    → Ends
        (λ region. (region ≡ r) × IsPart r.x r.width w.size.0 × IsPart r.y r.height w.size.1)
        (capture_bounds
          (record { region = some r; max_width = max_width; max_height = max_height })
          w)
unfolding capture_bounds
capture_bounds-IsPart r max_width max_height w =
    let o : CaptureOptions = record {
      region = some r;
      max_width = max_width;
      max_height = max_height;
    } in
    Ends-bind P (no_error (validate_options o)) _ (λ u valid.
      Ends-unless P region_outside (not (is_outside w.size r)) _ (λ inside.
        let sound =
          valid_region r max_width max_height (no_error-none (validate_options o) u valid) in
        (
          refl,
          part r.x r.width w.size.0 (ground arith) (ground arith) (ground arith),
          part r.y r.height w.size.1 (ground arith) (ground arith) (ground arith),
        )))
  where
    P : CaptureRegion → Type 0
    P region = (region ≡ r) × IsPart r.x r.width w.size.0 × IsPart r.y r.height w.size.1

-- A region that is asked for and accepted by `bounds`, whatever the limits are, is returned as it
-- is: it starts at 0 or later, is at least one unit wide and high, and ends within the window.
pub capture_bounds-inside :
    (r region : CaptureRegion) (max_width max_height : ℤ) (w : Window)
    → capture_bounds (record { region = some r; max_width = max_width; max_height = max_height }) w
      ≡ ok region
    → (region ≡ r) × IsPart r.x r.width w.size.0 × IsPart r.y r.height w.size.1
capture_bounds-inside r region max_width max_height w h =
    subst
      (Ends (λ region. (region ≡ r) × IsPart r.x r.width w.size.0 × IsPart r.y r.height w.size.1)) h
      (capture_bounds-IsPart r max_width max_height w)
