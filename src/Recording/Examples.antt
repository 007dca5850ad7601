-- ===== src/Recording/Examples.antt =====
-- A recording of two frames, whose permission ends while the third is captured.
use hyprland_computer_use.Base.{
  ℕ, ◌≡◌, refl, true, false, none, some, [], ◌∷◌, List, All, length, String, string_eq,
  string_discrete,
}
use hyprland_computer_use.Broker.State.{Broker, Grant, recording}
use hyprland_computer_use.Input.Examples.{target, granted_broker, control_grant, good_reply, seats}
use hyprland_computer_use.Capture.Examples.{images}
use hyprland_computer_use.Recording.Start.{stop_recording}
use hyprland_computer_use.Recording.Frames.{
  Tick, written, record_ticks, finish_recording, exits, times_out, finalize_timeout, no_frames,
}
use hyprland_computer_use.Recording.Safe.{IsRecordable, record_ticks-IsRecordable}

abbrev recorder_broker : Broker
recorder_broker = record granted_broker {
  grants = ("g", record control_grant { capability = recording }) ∷ [];
}

abbrev good_tick : Tick images
good_tick = record {
  over = false;
  found = some target;
  over_after = false;
  first_now = 20;
  first = recorder_broker;
  captured = record {
    status_before = some good_reply;
    grabbed = some 5000;
    window_after = some target;
    status_after = some good_reply;
    seats = seats;
  };
  second_now = 21;
  second = recorder_broker;
  write = written;
}

abbrev revoked_tick : Tick images
revoked_tick = record good_tick { second = record recorder_broker { grants = [] } }

abbrev ticks : List (Tick images)
ticks = good_tick ∷ good_tick ∷ revoked_tick ∷ good_tick ∷ []

two_frames : length (record_ticks images "c" target ticks).0 ≡ 2
unfolding record_ticks hyprland_computer_use.Broker.Scope.allowed
    hyprland_computer_use.Broker.State.new_broker hyprland_computer_use.Broker.State.mode_eq
    hyprland_computer_use.Base.Dict.find_value hyprland_computer_use.Broker.Scope.grant_matches
    string_eq hyprland_computer_use.Broker.State.capability_eq
    hyprland_computer_use.Broker.State.scope_eq
two_frames = refl

record_ticks-IsRecordable_example :
    All (IsRecordable images "c" target) (record_ticks images "c" target ticks).0
record_ticks-IsRecordable_example = record_ticks-IsRecordable images "c" target ticks

in_place : finish_recording none (exits none) 2 true true true ≡ none
unfolding finish_recording
in_place = refl

nothing_recorded : finish_recording none (exits none) 0 true true true ≡ some no_frames
unfolding finish_recording
nothing_recorded = refl

killed : finish_recording none times_out 2 true true true ≡ some finalize_timeout
unfolding finish_recording
killed = refl

not_there : (stop_recording "c" "r" recorder_broker).0 ≡ false
unfolding stop_recording hyprland_computer_use.Base.Dict.lookup
    hyprland_computer_use.Broker.State.new_broker
not_there = refl
