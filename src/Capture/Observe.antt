-- ===== src/Capture/Observe.antt =====
-- `captureMetadata` and `observeWithOptions` of internal/app/observation.go. What other goroutines
-- do to the broker while the window is captured is an argument.
use hyprland_computer_use.Base.{ℕ, String, ◌<>◌, Bool, not, ◌&&◌, Option, none, some, leb}
use hyprland_computer_use.Base.Int.{ℤ}
use hyprland_computer_use.Base.Result.{Result, error, ok, unless, or_error, ◌>>=◌}
use hyprland_computer_use.Broker.State.{Window, Broker, Scope, window, observe, note, Grant}
use hyprland_computer_use.Broker.Scope.{allowed}
use hyprland_computer_use.Broker.Permit.{Permit, permitted, requested, refused, permit}
use hyprland_computer_use.Capture.Options.{
  CaptureOptions, CaptureRegion, validate_options, capture_bounds,
}
use hyprland_computer_use.Capture.Grab.{
  Imaging, CaptureEnv, CaptureError, window_unavailable, window_changed, invalid_capture,
  context_ended, not_permitted, revoked_meanwhile, as_capture, capture, is_same, has_size,
}
use hyprland_computer_use.Base.Result.{no_error}

-- The metadata of a screenshot, but for the digest, the time and the scale.
pub record Frame : Type 0 where
  pub window : String
  pub revision : String
  pub image_size : ℕ × ℕ
  pub logical_size : ℤ × ℤ
  pub region : Option CaptureRegion

pub data Observation (I : Imaging) : Type 0 where
  not_observed : CaptureError → Observation I
  approval_required : String → Observation I
  released : Frame → I.Data → Observation I

pub record ObserveEnv (I : Imaging) : Type 0 where
  -- The window as it is found first, and after the capture.
  pub first : Option Window
  pub current : Option Window
  pub permit_now : ℕ
  pub fresh : Option String
  pub captured : CaptureEnv I
  pub others : Broker → Broker
  pub context_done : Bool
  pub now : ℕ

abbrev pub window_scope : Window → Scope
window_scope w = record { kind = window; id = w.id }

module _ (I : Imaging) where
  -- `captureMetadata`
  unfoldable pub capture_metadata :
      Option CaptureRegion → Window → I.Data → Result CaptureError Frame
  capture_metadata region w pixels = do
    config ← or_error invalid_capture (I.decode_config pixels)
    valid ←
        unless invalid_capture (config.0 && (leb 1 config.1 && (leb 1 config.2 && has_size w.size)))
    ok (record {
      window = w.id;
      revision = w.revision;
      image_size = (config.1, config.2);
      logical_size = w.size;
      region = region;
    })

  -- The capture, and the window that was found after it.
  unfoldable pub take_frame :
      CaptureOptions → Window → ObserveEnv I → Result CaptureError (Window × Frame × I.Data)
  unfolding capture capture_metadata
  take_frame o w env = do
    pixels ← capture I o w env.captured
    current ← or_error window_unavailable env.current
    unchanged ← unless window_changed (is_same w current)
    frame ← capture_metadata o.region current pixels
    in_time ← unless context_ended (not env.context_done)
    ok (current, frame, pixels)

  abbrev pub release_if :
      ℕ → Window → Frame → I.Data → Option (Option Grant) → Broker → Observation I × Broker
  release_if now w frame pixels none b = (not_observed revoked_meanwhile, b)
  release_if now w frame pixels (some g) b =
      (released frame pixels, note now "observation" ("window=" <> w.id) b)

  -- The last section: the permission is looked up again, for the window as it is now.
  abbrev pub release :
      String
      → ℕ
      → Window
      → Broker
      → Result CaptureError (Window × Frame × I.Data)
      → Observation I × Broker
  release client now w b (error x) = (not_observed x, b)
  release client now w b (ok (current, frame, pixels)) =
      release_if now w frame pixels
        (allowed now client observe (window_scope current) (some current) b) b

  abbrev pub observe_permitted :
      String → CaptureOptions → Window → ObserveEnv I → Permit × Broker → Observation I × Broker
  observe_permitted client o w env (refused x, b) = (not_observed (not_permitted x), b)
  observe_permitted client o w env (requested id, b) = (approval_required id, b)
  observe_permitted client o w env (permitted g, b) =
      release client env.now w (env.others b) (take_frame o w env)

  abbrev pub observe_window :
      String
      → CaptureOptions
      → ObserveEnv I
      → Result CaptureError Window
      → Broker
      → Observation I × Broker
  observe_window client o env (error x) b = (not_observed x, b)
  observe_window client o env (ok w) b = observe_permitted client o w env (
      permit env.permit_now env.fresh client observe (window_scope w) (some w) "View this window" b)

  -- The checks before anything is asked for.
  abbrev pub chosen_window : CaptureOptions → Option Window → Result CaptureError Window
  chosen_window o first = do
    valid ← as_capture (no_error (validate_options o))
    w ← or_error window_unavailable first
    region ← as_capture (capture_bounds o w)
    ok w

  -- `observeWithOptions`
  unfoldable pub observe_with_options :
      String → CaptureOptions → ObserveEnv I → Broker → Observation I × Broker
  unfolding validate_options capture_bounds permit take_frame
  observe_with_options client o env b = observe_window client o env (chosen_window o env.first) b
