-- ===== src/Capture/Grab.antt =====
-- `captureWithOptions` of internal/app/desktop.go and `cropImage` of
-- internal/app/capture_options.go. The flags of the seats that a status also stores are left out.
use hyprland_computer_use.Base.{
  ℕ, ◌*◌, Bool, true, false, not, ◌&&◌, ◌||◌, Option, none, some, is_some, leb, ◌==◌, string_eq,
  if◌then◌else◌,
}
use hyprland_computer_use.Base.Int.{ℤ, pos, ltb_ℤ, eqb_ℤ, pos_part}
use hyprland_computer_use.Base.Result.{Passed, pass, Result, error, ok, unless, or_error, ◌>>=◌}
use hyprland_computer_use.Broker.State.{Window}
use hyprland_computer_use.Broker.Scope.{Error}
use hyprland_computer_use.Input.Guard.{GuardReply, GuardError, Seats, status, guard}
use hyprland_computer_use.Capture.Options.{
  CaptureRegion, CaptureOptions, OptionError, capture_bounds, capture_limits, is_above,
}

-- The `image` packages: the size of the encoded bytes; whether they are a PNG, the width and the
-- height; and the decoding, the resampling of a region of a window of that size into the limits,
-- and the encoding.
pub record Imaging : Type 1 where
  pub Data : Type 0
  pub bytes : Data → ℕ
  pub decode_config : Data → Option (Bool × ℕ × ℕ)
  pub resample : CaptureRegion → ℤ × ℤ → ℤ × ℤ → Data → Option Data

pub data CaptureError : Type 0 where
  bad_option : OptionError → CaptureError
  window_unavailable window_not_visible crop_budget grim_failed capture_too_large : CaptureError
  invalid_capture window_changed bad_dimensions bad_image context_ended : CaptureError
  guard_problem : GuardError → CaptureError
  not_permitted : Error → CaptureError
  revoked_meanwhile : CaptureError

abbrev pub as_capture : {A : Type 0} → Result OptionError A → Result CaptureError A
as_capture (error x) = error (bad_option x)
as_capture (ok a) = ok a

abbrev pub as_guard : Option GuardError → Result CaptureError Passed
as_guard none = ok pass
as_guard (some x) = error (guard_problem x)

-- 16 MiB, and as many pixels.
abbrev pub budget : ℕ
budget = 16777216

abbrev pub is_shown : Window → Bool
is_shown w = w.visible && not w.hidden

abbrev pub has_size : ℤ × ℤ → Bool
has_size (width, height) = is_above 0 width && is_above 0 height

abbrev pub is_crop_size : ℤ × ℤ → Bool
is_crop_size (width, height) =
    not (is_above 8192 width)
    && (not (is_above 8192 height) && leb (pos_part width * pos_part height) budget)

-- The window is as it was.
abbrev pub is_same : Window → Window → Bool
is_same before after =
    after.revision == before.revision
    && (eqb_ℤ after.size.0 before.size.0
        && (eqb_ℤ after.size.1 before.size.1
            && (eqb_ℤ after.workspace before.workspace && is_shown after)))

-- One capture: the status before, the output of grim, the window and the status after.
pub record CaptureEnv (I : Imaging) : Type 0 where
  pub status_before : Option GuardReply
  pub grabbed : Option I.Data
  pub window_after : Option Window
  pub status_after : Option GuardReply
  pub seats : Seats

module _ (I : Imaging) where
  abbrev pub is_png_in_budget : Bool × ℕ × ℕ → Bool
  is_png_in_budget (png, width, height) =
      png
      && (leb 1 width
          && (leb 1 height && (leb width 8192 && (leb height 8192 && leb (width * height) budget))))

  -- `cropImage`
  unfoldable pub crop_image : CaptureOptions → Window → I.Data → Result CaptureError I.Data
  unfolding capture_bounds capture_limits
  crop_image o w pixels = do
    region ← as_capture (capture_bounds o w)
    config ← or_error bad_dimensions (I.decode_config pixels)
    fits ← unless bad_dimensions (is_png_in_budget config)
    cropped ← or_error bad_image (I.resample region w.size (capture_limits o) pixels)
    small ← unless capture_too_large (leb (I.bytes cropped) budget)
    ok cropped

  abbrev pub must_crop : CaptureOptions → Window → Bool × ℕ × ℕ → Bool
  must_crop o w (png, width, height) =
      let (max_width, max_height) = capture_limits o in
      is_some o.region || (ltb_ℤ max_width (pos width) || ltb_ℤ max_height (pos height))

  -- `captureWithOptions`
  unfoldable pub capture : CaptureOptions → Window → CaptureEnv I → Result CaptureError I.Data
  unfolding capture_bounds guard crop_image
  capture o w env = do
    visible ← unless window_not_visible (is_shown w && has_size w.size)
    region ← as_capture (capture_bounds o w)
    within ← unless crop_budget (not (is_some o.region) || is_crop_size w.size)
    unlocked ← as_guard (guard (status false false true) env.status_before env.seats).0
    pixels ← or_error grim_failed env.grabbed
    small ← unless capture_too_large (leb (I.bytes pixels) budget)
    config ← or_error invalid_capture (I.decode_config pixels)
    positive ← unless invalid_capture (leb 1 config.1 && leb 1 config.2)
    after ← or_error window_changed env.window_after
    unchanged ← unless window_changed (is_same w after)
    still_unlocked ← as_guard (guard (status false false true) env.status_after env.seats).0
    if must_crop o w config then crop_image o w pixels else ok pixels
