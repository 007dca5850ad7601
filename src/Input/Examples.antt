-- ===== src/Input/Examples.antt =====
-- A client with a grant types two characters into a window and clicks; and the same batch when the
-- user pauses meanwhile.
use hyprland_computer_use.Base.{
  ℕ, ◌≡◌, refl, true, false, none, some, [], ◌∷◌, List, All, length, String, string_eq,
  string_discrete, ◌+◌, suc, zero,
}
use hyprland_computer_use.Base.Int.{pos}
use hyprland_computer_use.Surfaces.Examples.{floats}
use hyprland_computer_use.Broker.Cleanup.{done}
use hyprland_computer_use.Broker.State.{Broker, Window, Grant, Scope, window, control, new_broker}
use hyprland_computer_use.Input.Guard.{GuardReply, Seats}
use hyprland_computer_use.Input.Pointer.{Action, move_to, text, click}
use hyprland_computer_use.Input.Deliver.{Turn, text_chunks}
use hyprland_computer_use.Input.Chunks.{joined, IsChunk, text_chunks-joined}
use hyprland_computer_use.Input.Run.{InputArgs, InputEnv, completed, no_follow_up, input}
use hyprland_computer_use.Input.Outcome.{SentFor, input-SentFor}
use hyprland_computer_use.Input.Allowed.{IsAllowed, input-AllAllowed}
use hyprland_computer_use.Input.Complete.{unmarshal_error-IsComplete}
use hyprland_computer_use.Input.Decoded.{IsComplete}
use hyprland_computer_use.Input.Fields.{Fields, unmarshal_error, required}
use hyprland_computer_use.Input.Pointer.{drag}

abbrev pub target : Window
target = record {
  focus_history = pos 0;
  id = "0x1";
  title = "Editor";
  class = "editor";
  size = (pos 640, pos 480);
  workspace = pos 1;
  hidden = false;
  visible = true;
  xwayland = false;
  revision = "0,0,640,480";
}

abbrev pub control_grant : Grant
control_grant = record {
  id = "g";
  client = "c";
  capability = control;
  scope = record { kind = window; id = "0x1" };
  label = "";
  expires = 100;
}

abbrev pub granted_broker : Broker
granted_broker = record (new_broker true) { ui_count = 1; grants = ("g", control_grant) ∷ [] }

abbrev pub good_reply : GuardReply
good_reply = record {
  ok = true;
  error = "";
  version = pos 2;
  focus_preserving = true;
  automatic_fallback = false;
  independent_seat = false;
  instance_id = "";
  input_faulted = false;
  locked = some false;
  unicode_text = true;
  pointer_actions = pos 1;
  text_chunk_runes = pos 48;
  completed_characters = some (pos 2);
}

abbrev typing : Action floats
typing = record (move_to floats (0, 0)) { type = text; runes = 104 ∷ 105 ∷ [] }

abbrev clicking : Action floats
clicking = record (move_to floats (10, 20)) { type = click }

abbrev pub call : InputArgs floats
call = record {
  observation = none;
  surface = "";
  surface_revision = "";
  follow_up = no_follow_up;
  window_id = "0x1";
  revision = "0,0,640,480";
  actions = typing ∷ clicking ∷ [];
}

abbrev pub quiet_turn : Turn
quiet_turn = record { others = λ b. b; now = 50; cancelled = false; reply = some good_reply }

abbrev pausing_turn : Turn
pausing_turn = record quiet_turn { others = λ b. record b { paused = true } }

abbrev pub with_turns : (ℕ → Turn) → InputEnv floats
with_turns turns = record {
  found = some target;
  state_reply = none;
  permit_now = 10;
  fresh_request = none;
  pointer_reply = none;
  unicode_reply = some good_reply;
  fresh_token = none;
  authorize_reply = none;
  turns = turns;
  at_end = λ b. b;
  end_now = 60;
  before_revoke = λ b. b;
  revoke_now = 70;
  revoke_reply = done;
}

abbrev pub seats : Seats
seats = record { independent_seat = false; automatic_fallback = false }

-- The second turn pauses.
abbrev paused_later : ℕ → Turn
paused_later zero = quiet_turn
paused_later (suc n) = pausing_turn

completes :
    (input floats "c" call (with_turns (λ n. quiet_turn)) granted_broker seats).0 ≡ completed 2
unfolding input string_eq hyprland_computer_use.Input.Pointer.validate_extended
    hyprland_computer_use.Actions.pointer_modifiers hyprland_computer_use.Actions.validate_text
    hyprland_computer_use.Broker.State.kind_eq new_broker hyprland_computer_use.Broker.State.mode_eq
    hyprland_computer_use.Base.Dict.find_value hyprland_computer_use.Broker.Scope.grant_matches
    hyprland_computer_use.Broker.State.capability_eq hyprland_computer_use.Broker.State.scope_eq
    hyprland_computer_use.Input.Pointer.extended_pointer
completes = refl

sends_both :
    length (input floats "c" call (with_turns (λ n. quiet_turn)) granted_broker seats).1.sent ≡ 2
unfolding input string_eq hyprland_computer_use.Input.Pointer.validate_extended
    hyprland_computer_use.Actions.pointer_modifiers hyprland_computer_use.Actions.validate_text
    hyprland_computer_use.Broker.State.kind_eq new_broker hyprland_computer_use.Broker.State.mode_eq
    hyprland_computer_use.Base.Dict.find_value hyprland_computer_use.Broker.Scope.grant_matches
    hyprland_computer_use.Broker.State.capability_eq hyprland_computer_use.Broker.State.scope_eq
    hyprland_computer_use.Input.Pointer.extended_pointer
sends_both = refl

-- Only the text was sent.
is_paused : length (input floats "c" call (with_turns paused_later) granted_broker seats).1.sent ≡ 1
unfolding input string_eq hyprland_computer_use.Input.Pointer.validate_extended
    hyprland_computer_use.Actions.pointer_modifiers hyprland_computer_use.Actions.validate_text
    hyprland_computer_use.Broker.State.kind_eq new_broker hyprland_computer_use.Broker.State.mode_eq
    hyprland_computer_use.Base.Dict.find_value hyprland_computer_use.Broker.Scope.grant_matches
    hyprland_computer_use.Broker.State.capability_eq hyprland_computer_use.Broker.State.scope_eq
    hyprland_computer_use.Input.Pointer.extended_pointer
is_paused = refl

input-SentFor_example :
    (b : Broker) × (s : Seats) × SentFor floats call
      (with_turns paused_later)
      b
      s
      (input floats "c" call (with_turns paused_later) granted_broker seats)
input-SentFor_example = input-SentFor floats call (with_turns paused_later) "c" granted_broker seats

input-AllAllowed_example :
    All
      (IsAllowed floats call (with_turns paused_later) "c")
      (input floats "c" call (with_turns paused_later) granted_broker seats).1.sent
input-AllAllowed_example =
    input-AllAllowed floats call (with_turns paused_later) "c" granted_broker seats

text_chunks-joined_example :
    (joined (text_chunks (104 ∷ 105 ∷ [])) ≡ 104 ∷ 105 ∷ [])
    × All IsChunk (text_chunks (104 ∷ 105 ∷ []))
text_chunks-joined_example = text_chunks-joined (104 ∷ 105 ∷ [])

-- A drag along a path, and one that lacks its end.
abbrev drag_path : Fields
drag_path = ("type", false) ∷ ("path", false) ∷ []

abbrev two_points : List Fields
two_points = (("x", false) ∷ ("y", false) ∷ []) ∷ (("y", false) ∷ ("x", false) ∷ []) ∷ []

decodes : unmarshal_error drag drag_path (pos 0) two_points ≡ none
unfolding unmarshal_error hyprland_computer_use.Base.Dict.lookup string_eq
decodes = refl

endless :
    unmarshal_error drag (("type", false) ∷ ("x", false) ∷ ("y", false) ∷ []) (pos 0) []
    ≡ some (required "to_x")
unfolding unmarshal_error hyprland_computer_use.Base.Dict.lookup string_eq
endless = refl

unmarshal_error-IsComplete_example : IsComplete drag drag_path (pos 0) two_points
unmarshal_error-IsComplete_example =
    unmarshal_error-IsComplete drag drag_path (pos 0) two_points decodes
