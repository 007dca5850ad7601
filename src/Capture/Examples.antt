-- ===== src/Capture/Examples.antt =====
-- A screenshot of a window that the client may control, and so may see.
use hyprland_computer_use.Base.{
  ℕ, ◌≡◌, refl, true, false, none, some, [], ◌∷◌, String, string_eq, string_discrete,
}
use hyprland_computer_use.Base.Int.{pos}
use hyprland_computer_use.Base.Result.{ok}
use hyprland_computer_use.Broker.State.{Window}
use hyprland_computer_use.Input.Examples.{target, granted_broker, good_reply, seats}
use hyprland_computer_use.Capture.Options.{CaptureRegion, CaptureOptions, capture_bounds}
use hyprland_computer_use.Capture.Grab.{Imaging, as_capture}
use hyprland_computer_use.Capture.Observe.{Frame, released, ObserveEnv, observe_with_options}
use hyprland_computer_use.Capture.Inside.{IsPart, capture_bounds-inside}
use hyprland_computer_use.Capture.Released.{
  IsReleased, broker_then, observe_with_options-IsReleased,
}

-- An image is its number of bytes; each is a PNG of the window's size.
abbrev pub images : Imaging
images = record {
  Data = ℕ;
  bytes = λ n. n;
  decode_config = λ n. some (true, 640, 480);
  resample = λ r size limits n. some n;
}

abbrev corner : CaptureRegion
corner = record { x = pos 540; y = pos 0; width = pos 100; height = pos 50 }

abbrev corner_only : CaptureOptions
corner_only = record { region = some corner; max_width = pos 0; max_height = pos 0 }

abbrev pub one_shot : ObserveEnv images
one_shot = record {
  first = some target;
  current = some target;
  permit_now = 10;
  fresh = none;
  captured = record {
    status_before = some good_reply;
    grabbed = some 5000;
    window_after = some target;
    status_after = some good_reply;
    seats = seats;
  };
  others = λ b. b;
  context_done = false;
  now = 20;
}

abbrev shot : Frame
shot = record {
  window = "0x1";
  revision = "0,0,640,480";
  image_size = (640, 480);
  logical_size = (pos 640, pos 480);
  region = some corner;
}

takes : (observe_with_options images "c" corner_only one_shot granted_broker).0 ≡ released shot 5000
unfolding observe_with_options hyprland_computer_use.Broker.State.kind_eq
    hyprland_computer_use.Broker.State.new_broker hyprland_computer_use.Broker.State.mode_eq
    hyprland_computer_use.Base.Dict.find_value hyprland_computer_use.Broker.Scope.grant_matches
    string_eq hyprland_computer_use.Broker.State.capability_eq
    hyprland_computer_use.Broker.State.scope_eq
takes = refl

observe_with_options-IsReleased_example :
    (w : Window) × (one_shot.first ≡ some w)
    × ((region : CaptureRegion) × (as_capture (capture_bounds corner_only w) ≡ ok region))
    × IsReleased images "c" one_shot (broker_then images "c" one_shot w granted_broker) w
observe_with_options-IsReleased_example =
    observe_with_options-IsReleased images "c" corner_only one_shot granted_broker shot 5000 takes

fits : capture_bounds corner_only target ≡ ok corner
unfolding capture_bounds
fits = refl

capture_bounds-inside_example :
    (corner ≡ corner)
    × IsPart corner.x corner.width target.size.0
    × IsPart corner.y corner.height target.size.1
capture_bounds-inside_example = capture_bounds-inside corner corner (pos 0) (pos 0) target fits
