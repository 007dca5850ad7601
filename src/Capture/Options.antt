-- ===== src/Capture/Options.antt =====
-- internal/app/capture_options.go: `validate`, `bounds` and `limits`, and `validate` of
-- internal/app/observation_delay.go.
use hyprland_computer_use.Base.{ℕ, Bool, ◌||◌, not, Option, none, some, if◌then◌else◌}
use hyprland_computer_use.Base.Int.{ℤ, pos, ltb_ℤ, eqb_ℤ, sub_ℤ}
use hyprland_computer_use.Base.Result.{Result, ok, no_error, unless, ◌>>=◌}
use hyprland_computer_use.Broker.State.{Window}

pub record CaptureRegion : Type 0 where
  pub x : ℤ
  pub y : ℤ
  pub width : ℤ
  pub height : ℤ

pub record CaptureOptions : Type 0 where
  pub region : Option CaptureRegion
  pub max_width : ℤ
  pub max_height : ℤ

pub data OptionError : Type 0 where
  bad_limits invalid_region region_outside bad_delay : OptionError

abbrev pub is_above : ℕ → ℤ → Bool
is_above n z = ltb_ℤ (pos n) z

abbrev pub is_below : ℕ → ℤ → Bool
is_below n z = ltb_ℤ z (pos n)

abbrev pub is_bad_region : CaptureRegion → Bool
is_bad_region r =
    is_below 0 r.x
    || (is_below 0 r.y
        || (is_below 1 r.width
            || (is_below 1 r.height
                || (is_above 8192 r.x
                    || (is_above 8192 r.y || (is_above 8192 r.width || is_above 8192 r.height))))))

abbrev pub region_error : Option CaptureRegion → Option OptionError
region_error none = none
region_error (some r) = if is_bad_region r then some invalid_region else none

-- `validate`
unfoldable pub validate_options : CaptureOptions → Option OptionError
validate_options o =
    if is_below 0 o.max_width
      || (is_above 1920 o.max_width || (is_below 0 o.max_height || is_above 1920 o.max_height))
    then some bad_limits
    else region_error o.region

-- The region, or all of the window.
abbrev pub region_of : ℤ × ℤ → Option CaptureRegion → CaptureRegion
region_of (width, height) none = record { x = pos 0; y = pos 0; width = width; height = height }
region_of size (some r) = r

abbrev pub is_outside : ℤ × ℤ → CaptureRegion → Bool
is_outside (width, height) r = ltb_ℤ (sub_ℤ width r.width) r.x || ltb_ℤ (sub_ℤ height r.height) r.y

-- `bounds`
unfoldable pub capture_bounds : CaptureOptions → Window → Result OptionError CaptureRegion
unfolding validate_options
capture_bounds o w = do
  valid ← no_error (validate_options o)
  inside ← unless region_outside (not (is_outside w.size (region_of w.size o.region)))
  ok (region_of w.size o.region)

-- `limits`
unfoldable pub capture_limits : CaptureOptions → ℤ × ℤ
capture_limits o = (
  if eqb_ℤ o.max_width (pos 0) then pos 1280 else o.max_width,
  if eqb_ℤ o.max_height (pos 0) then pos 1920 else o.max_height,
)

pub record ObservationOptions : Type 0 where
  pub options : CaptureOptions
  pub delay_ms : ℤ

-- `validate`, of the options of a screenshot after input.
unfoldable pub validate_observation : ObservationOptions → Option OptionError
unfolding validate_options
validate_observation o =
    if is_below 0 o.delay_ms || is_above 5000 o.delay_ms
    then some bad_delay
    else validate_options o.options
