-- ===== src/Tools.antt =====
-- The tools of a client: `inputTool` of internal/app/observation.go, and `request_permission`,
-- `wait_for_permission` and `list_windows` of internal/app/tools.go. The window's surfaces, the
-- windows of the compositor and the rounds of a wait are arguments.
pub mod Examples
use hyprland_computer_use.Base.{
  ℕ, ◌≡◌, refl, String, Bool, true, false, ◌&&◌, ◌||◌, Option, none, some, List, [], ◌∷◌,
  if◌then◌else◌, ◌==◌, string_eq,
}
use hyprland_computer_use.Base.Dict.{Dict, lookup}
use hyprland_computer_use.Base.Int.{ℤ, pos, ltb_ℤ, eqb_ℤ}
use hyprland_computer_use.Base.Text.{clean_reason}
use hyprland_computer_use.Surfaces.{Floats}
use hyprland_computer_use.Broker.State.{
  Window, Broker, Request, RequestState, pending, Capability, Scope, window, kind_eq,
}
use hyprland_computer_use.Broker.Permit.{Permit, permit}
use hyprland_computer_use.Capture.Options.{CaptureOptions, ObservationOptions}
use hyprland_computer_use.Capture.Grab.{Imaging}
use hyprland_computer_use.Capture.Observe.{
  Observation, ObserveEnv, released, not_observed, observe_with_options,
}
use hyprland_computer_use.Input.Guard.{Seats}
use hyprland_computer_use.Input.Deliver.{Delivery}
use hyprland_computer_use.Input.Run.{
  InputArgs, InputEnv, InputResult, rejected, approval_required, failed, completed, FollowUp,
  no_follow_up, screenshot, window_metadata, other_follow_up, input,
}

-- What follows a completed batch.
pub data Followed (I : Imaging) : Type 0 where
  nothing_more : Followed I
  with_state : Bool → Followed I
  -- The wait before the screenshot was cut off.
  not_waited : Followed I
  with_observation : Observation I → Followed I

-- A tool's reply: `is_error` is the protocol's flag; an input that is rejected is a plain error.
pub record ToolReply (I : Imaging) : Type 0 where
  pub is_error : Bool
  pub result : InputResult
  pub followed : Followed I

module _ (I : Imaging) where
  abbrev pub options_of : Option ObservationOptions → CaptureOptions
  options_of none = record { region = none; max_width = pos 0; max_height = pos 0 }
  options_of (some o) = o.options

  -- The screenshot after the wait, if there is one to make.
  abbrev pub observe_after :
      String → Option ObservationOptions → Bool → ObserveEnv I → Broker → Followed I × Broker
  observe_after client none waited env b =
      let (o, b') = observe_with_options I client (options_of none) env b in
      (with_observation o, b')
  observe_after client (some options) false env b = (not_waited, b)
  observe_after client (some options) true env b =
      let (o, b') = observe_with_options I client (options_of (some options)) env b in
      (with_observation o, b')

  abbrev pub follow :
      String
      → FollowUp
      → Option ObservationOptions
      → Bool
      → Bool
      → ObserveEnv I
      → Broker
      → Followed I × Broker
  follow client no_follow_up o state_found waited env b = (nothing_more, b)
  follow client window_metadata o state_found waited env b = (with_state state_found, b)
  follow client screenshot o state_found waited env b = observe_after client o waited env b
  follow client (other_follow_up u) o state_found waited env b = observe_after client o waited env b

  abbrev pub reply_with : InputResult → Followed I × Broker → ToolReply I × Broker
  reply_with r (f, b) = (record { is_error = false; result = r; followed = f }, b)

  abbrev pub tool_reply :
      String
      → FollowUp
      → Option ObservationOptions
      → Bool
      → Bool
      → ObserveEnv I
      → InputResult
      → Broker
      → ToolReply I × Broker
  tool_reply client u o state_found waited env (rejected x) b =
      (record { is_error = true; result = rejected x; followed = nothing_more }, b)
  tool_reply client u o state_found waited env (failed x) b =
      (record { is_error = true; result = failed x; followed = nothing_more }, b)
  tool_reply client u o state_found waited env (approval_required id) b =
      (record { is_error = false; result = approval_required id; followed = nothing_more }, b)
  tool_reply client u o state_found waited env (completed n) b =
      reply_with (completed n) (follow client u o state_found waited env b)

  -- `inputTool`: `others` is what happens between the batch and what follows.
  unfoldable pub input_tool :
      (f : Floats)
      → String
      → InputArgs f
      → InputEnv f
      → Bool
      → Bool
      → (Broker → Broker)
      → ObserveEnv I
      → Broker
      → Seats
      → ToolReply I × Broker
  unfolding input observe_with_options
  input_tool f client a env state_found waited others observe_env b seats =
      let (r, d) = input f client a env b seats in
      tool_reply client a.follow_up a.observation state_found waited observe_env r (others d.broker)

-- `list_windows`: the windows of a workspace, or of all of them for 0.
unfoldable pub on_workspace : ℤ → List Window → List Window
on_workspace workspace [] = []
on_workspace workspace (w ∷ ws) =
    let rest = on_workspace workspace ws in
    if eqb_ℤ workspace (pos 0) || eqb_ℤ w.workspace workspace then w ∷ rest else rest

unfoldable pub list_windows : ℤ → Option (List Window) → Option (List Window)
unfolding on_workspace
list_windows workspace none = none
list_windows workspace (some ws) =
    if ltb_ℤ workspace (pos 0) || ltb_ℤ (pos 10000) workspace
    then none
    else some (on_workspace workspace ws)

-- `request_permission`: a window that is asked for must be there.
unfoldable pub request_permission :
    ℕ
    → Option String
    → String
    → Capability
    → Scope
    → Option Window
    → String
    → Broker
    → Option Permit × Broker
unfolding permit clean_reason
request_permission now fresh client c s found reason b =
    if s.kind == window then for_window found else asked none
  where
    asked : Option Window → Option Permit × Broker
    asked w = let (p, b') = permit now fresh client c s w (clean_reason reason) b in (some p, b')

    for_window : Option Window → Option Permit × Broker
    for_window none = (none, b)
    for_window (some w) = asked (some w)

-- What `wait_for_permission` sees of a request: another client's is unknown.
abbrev pub own_state : String → Option Request → Option RequestState
own_state client none = none
own_state client (some r) = if r.client == client then some r.state else none

abbrev pub is_pending : Option RequestState → Bool
is_pending (some pending) = true
is_pending s = false

-- The rounds of `wait_for_permission`: the broker as it is at each, until the time is over.
unfoldable pub wait_for_permission : String → String → List Broker → Option RequestState
wait_for_permission client id [] = some pending
wait_for_permission client id (b ∷ later) =
    let rest = wait_for_permission client id later in
    let state = own_state client (lookup id b.requests) in if is_pending state then rest else state

-- Pixels come only with a completed batch.
abbrev pub HasPixels : {I : Imaging} → Followed I → Type 0
HasPixels (with_observation (released frame pixels)) = Unit
HasPixels f = ⊥

abbrev pub IsCompleted : InputResult → Type 0
IsCompleted (completed n) = Unit
IsCompleted r = ⊥

-- What a reply says of its batch.
pub record Reports (I : Imaging) (r : InputResult) (reply : ToolReply I) : Type 0 where
  pub same_result : reply.result ≡ r
  pub pixels_after : HasPixels reply.followed → IsCompleted r
  pub no_error_after : IsCompleted r → reply.is_error ≡ false

tool_reply-Reports :
    (I : Imaging) (client : String) (u : FollowUp) (o : Option ObservationOptions)
    (state_found waited : Bool) (env : ObserveEnv I) (r : InputResult) (b : Broker)
    → Reports I r (tool_reply I client u o state_found waited env r b).0
tool_reply-Reports I client u o state_found waited env (rejected x) b = record {
  same_result = refl;
  pixels_after = λ h. h;
  no_error_after = λ h. absurd h;
}
tool_reply-Reports I client u o state_found waited env (failed x) b = record {
  same_result = refl;
  pixels_after = λ h. h;
  no_error_after = λ h. absurd h;
}
tool_reply-Reports I client u o state_found waited env (approval_required id) b = record {
  same_result = refl;
  pixels_after = λ h. h;
  no_error_after = λ h. absurd h;
}
tool_reply-Reports I client u o state_found waited env (completed n) b = record {
  same_result = refl;
  pixels_after = λ h. tt;
  no_error_after = λ h. refl;
}

-- The reply of the input tool tells the result of the batch as it is. A batch that completed is
-- never reported as an error, whatever becomes of the wait, of the screenshot or of the window's
-- state after it; and pixels are in a reply only if the batch completed.
pub input_tool-Reports :
    (I : Imaging) (f : Floats) (client : String) (a : InputArgs f) (env : InputEnv f)
    (state_found waited : Bool) (others : Broker → Broker) (observe_env : ObserveEnv I) (b : Broker)
    (seats : Seats)
    → Reports I
        (input f client a env b seats).0
        (input_tool I f client a env state_found waited others observe_env b seats).0
unfolding input_tool
input_tool-Reports I f client a env state_found waited others observe_env b seats =
    let (r, d) = input f client a env b seats in
    tool_reply-Reports I client a.follow_up a.observation state_found waited observe_env r
      (others d.broker)
