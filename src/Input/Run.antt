-- ===== src/Input/Run.antt =====
-- `input` of internal/app/desktop.go: the checks before any effect, the permission, the lease and
-- the batch.
use hyprland_computer_use.Base.{
  ℕ, String, ◌<>◌, len, Bool, true, false, not, ◌&&◌, ◌||◌, Option, none, some, List, [], ◌∷◌,
  length, eqb, ltb, if◌then◌else◌, ◌==◌, string_eq,
}
use hyprland_computer_use.Base.Int.{pos}
use hyprland_computer_use.Base.Result.{Result, Passed, pass, error, ok, unless, or_error, ◌>>=◌}
use hyprland_computer_use.Base.Text.{sprint}
use hyprland_computer_use.Surfaces.{
  Floats, SurfaceInfo, StateError, StateReply, StateResult, refused, accepted, window_state,
}
use hyprland_computer_use.Broker.State.{Window, Broker, window, control, Grant, GuardOp, note}
use hyprland_computer_use.Broker.Scope.{Error}
use hyprland_computer_use.Broker.Permit.{Permit, permit, permitted, requested}
use hyprland_computer_use.Broker.Cleanup.{Reply, cleanup_guard}
use hyprland_computer_use.Capture.Options.{
  ObservationOptions, OptionError, validate_observation, capture_bounds,
}
use hyprland_computer_use.Input.Guard.{GuardReply, GuardError, Seats, status, other_op, guard}
use hyprland_computer_use.Input.Pointer.{Action, InputError}
use hyprland_computer_use.Input.Check.{check_actions, has_text, has_extended}
use hyprland_computer_use.Input.Deliver.{Session, Turn, Delivery, InputFailure, send_actions}

-- The `then` of the arguments.
pub data FollowUp : Type 0 where
  no_follow_up screenshot window_metadata : FollowUp
  other_follow_up : String → FollowUp

pub record InputArgs (f : Floats) : Type 0 where
  pub observation : Option ObservationOptions
  pub surface : String
  pub surface_revision : String
  pub follow_up : FollowUp
  pub window_id : String
  pub revision : String
  pub actions : List (Action f)

pub data InputProblem : Type 0 where
  needs_screenshot bad_follow_up bad_action_count window_unavailable : InputProblem
  native_window_required stale_geometry surface_pair : InputProblem
  stale_surface_geometry surface_unavailable random_failed : InputProblem
  bad_observation : OptionError → InputProblem
  bad_state : StateError → InputProblem
  bad_action : InputError → InputProblem
  not_permitted : Error → InputProblem
  guard_problem : GuardError → InputProblem

pub data InputResult : Type 0 where
  rejected : InputProblem → InputResult
  approval_required : String → InputResult
  failed : InputFailure → InputResult
  completed : ℕ → InputResult

-- What the batch meets: the window, the guard's replies, the sources of time and of IDs, and what
-- other goroutines do to the broker.
pub record InputEnv (f : Floats) : Type 0 where
  pub found : Option Window
  pub state_reply : Option (StateReply f)
  pub permit_now : ℕ
  pub fresh_request : Option String
  pub pointer_reply : Option GuardReply
  pub unicode_reply : Option GuardReply
  pub fresh_token : Option String
  pub authorize_reply : Option GuardReply
  pub turns : ℕ → Turn
  pub at_end : Broker → Broker
  pub end_now : ℕ
  pub before_revoke : Broker → Broker
  pub revoke_now : ℕ
  pub revoke_reply : Reply

abbrev pub problem : Option OptionError → Result InputProblem Passed
problem none = ok pass
problem (some x) = error (bad_observation x)

abbrev pub is_screenshot : FollowUp → Bool
is_screenshot screenshot = true
is_screenshot u = false

abbrev pub is_known : FollowUp → Bool
is_known (other_follow_up u) = false
is_known u = true

module _ (f : Floats) where
  abbrev pub check_observation : FollowUp → Option ObservationOptions → Result InputProblem Passed
  check_observation u none = ok pass
  check_observation u (some o) = do
    shown ← unless needs_screenshot (is_screenshot u)
    problem (validate_observation o)

  abbrev pub check_bounds : Window → Option ObservationOptions → Result InputProblem Passed
  check_bounds w none = ok pass
  check_bounds w (some o) = elim (capture_bounds o.options w) [
    | error x ↦ error (bad_observation x)
    | ok region ↦ ok pass
  ]

  -- The loop over the surfaces of the window.
  abbrev pub surface_size :
      String → String → List (SurfaceInfo f) → Result InputProblem (f.Float × f.Float)
  surface_size id revision [] = error surface_unavailable
  surface_size id revision (s ∷ surfaces) =
      if s.id == id
      then (if s.revision == revision then ok s.size else error stale_surface_geometry)
      else surface_size id revision surfaces

  abbrev pub selected_size : InputArgs f → StateResult f → Result InputProblem (f.Float × f.Float)
  selected_size a (refused x) = error (bad_state x)
  selected_size a (accepted s) =
      if s.revision == a.revision
      then surface_size a.surface a.surface_revision s.surfaces
      else error stale_geometry

  -- The size that coordinates refer to.
  abbrev pub input_bounds :
      InputArgs f → Window → Option (StateReply f) → Result InputProblem (f.Float × f.Float)
  input_bounds a w reply =
      if a.surface == ""
      then ok (f.of_int w.size.0, f.of_int w.size.1)
      else selected_size a (window_state f w.id reply)

  abbrev pub is_good_pair : InputArgs f → Bool
  is_good_pair a =
      ((a.surface == "" && a.surface_revision == "")
        || not (a.surface == "" || a.surface_revision == ""))
      && (not (ltb 128 (len a.surface)) && not (ltb 256 (len a.surface_revision)))

  abbrev pub accept_actions : Option InputError → Window → Result InputProblem Window
  accept_actions none w = ok w
  accept_actions (some x) w = error (bad_action x)

  -- All that is checked before any effect.
  unfoldable pub prepare : InputArgs f → InputEnv f → Result InputProblem Window
  unfolding validate_observation capture_bounds window_state check_actions
  prepare a env = do
    observed ← check_observation a.follow_up a.observation
    followed ← unless bad_follow_up (is_known a.follow_up)
    counted ←
        unless bad_action_count (not (eqb (length a.actions) 0) && not (ltb 128 (length a.actions)))
    w ← or_error window_unavailable env.found
    bounded ← check_bounds w a.observation
    native ← unless native_window_required (not w.xwayland)
    fresh ← unless stale_geometry (a.revision == w.revision)
    paired ← unless surface_pair (is_good_pair a)
    size ← input_bounds a w env.state_reply
    accept_actions (check_actions f (not (a.surface == "")) 0 size a.actions) w

  abbrev pub status_check :
      Bool → (Bool × Bool) → Option GuardReply → Seats → Option GuardError × Seats
  status_check needed (pointer, unicode) reply seats =
      if needed then guard (status pointer unicode false) reply seats else (none, seats)

  abbrev pub then_status :
      (Seats → Option GuardError × Seats) → Option GuardError × Seats → Option GuardError × Seats
  then_status next (some x, seats) = (some x, seats)
  then_status next (none, seats) = next seats

  -- What the guard must support for these actions.
  unfoldable pub check_support : InputEnv f → List (Action f) → Seats → Option GuardError × Seats
  unfolding guard
  check_support env actions seats =
      then_status (status_check (has_text f actions) (false, true) env.unicode_reply)
        (status_check (has_extended f actions) (true, false) env.pointer_reply seats)

  abbrev authorized_as : String → Option GuardError → Result InputProblem (String × Bool)
  authorized_as token none = ok (token, true)
  authorized_as token (some x) = error (guard_problem x)

  -- The lease: of the grant, or one that is borrowed for this batch.
  abbrev pub lease : InputEnv f → Seats → Option Grant → Result InputProblem (String × Bool)
  lease env seats (some g) = ok (g.id, false)
  lease env seats none = do
    token ← or_error random_failed env.fresh_token
    authorized_as token (guard (other_op "authorize") env.authorize_reply seats).0

  abbrev pub started : Broker → Seats → Delivery f
  started b seats = record { broker = b; seats = seats; turn = 0; sent = [] }

  abbrev pub session_of : String → InputArgs f → Window → String → Session
  session_of client a w token = record {
    client = client;
    window = w;
    token = token;
    revision = a.revision;
    surface = if a.surface == "" then none else some (a.surface, a.surface_revision);
  }

  abbrev pub failure_text : Window → InputFailure → String
  failure_text w x =
      "window="
      <> w.id
      <> " completed_actions="
      <> sprint (pos x.completed_actions)
      <> " failed_action="
      <> sprint (pos x.completed_actions)
      <> " acknowledged_characters="
      <> sprint (pos x.completed_characters)

  -- The note on how the batch ended.
  abbrev pub conclude_input :
      InputArgs f
      → InputEnv f
      → Window
      → Option InputFailure × Delivery f
      → InputResult × Delivery f
  conclude_input a env w (some x, d) = (
    failed x,
    record d { broker = note env.end_now "input_failed" (failure_text w x) (env.at_end d.broker) },
  )
  conclude_input a env w (none, d) =
      let text = sprint (pos (length a.actions)) <> " actions → " <> w.title in
      (
        completed (length a.actions),
        record d { broker = note env.end_now "input" text (env.at_end d.broker) },
      )

  -- A borrowed lease is given back.
  abbrev pub give_back :
      InputEnv f → String → Bool → InputResult × Delivery f → InputResult × Delivery f
  give_back env token false r = r
  give_back env token true (r, d) = (
    r,
    record d {
      broker =
          cleanup_guard env.revoke_now (GuardOp.revoke token) env.revoke_reply
            (env.before_revoke d.broker);
    },
  )

  abbrev pub with_lease :
      String
      → InputArgs f
      → InputEnv f
      → Window
      → Broker
      → Seats
      → Result InputProblem (String × Bool)
      → InputResult × Delivery f
  with_lease client a env w b seats (error x) = (rejected x, started b seats)
  with_lease client a env w b seats (ok (token, borrowed)) = give_back env token borrowed (
      conclude_input a env w
        (send_actions f (session_of client a w token) env.turns a.actions 0 (started b seats)))

  abbrev pub with_support :
      String
      → InputArgs f
      → InputEnv f
      → Window
      → Option Grant
      → Broker
      → Option GuardError × Seats
      → InputResult × Delivery f
  with_support client a env w g b (some x, seats) = (rejected (guard_problem x), started b seats)
  with_support client a env w g b (none, seats) =
      with_lease client a env w b seats (lease env seats g)

  abbrev pub with_permit :
      String
      → InputArgs f
      → InputEnv f
      → Window
      → Seats
      → Permit × Broker
      → InputResult × Delivery f
  with_permit client a env w seats (Permit.refused x, b) =
      (rejected (not_permitted x), started b seats)
  with_permit client a env w seats (requested id, b) = (approval_required id, started b seats)
  with_permit client a env w seats (permitted g, b) =
      with_support client a env w g b (check_support env a.actions seats)

  abbrev pub with_window :
      String
      → InputArgs f
      → InputEnv f
      → Broker
      → Seats
      → Result InputProblem Window
      → InputResult × Delivery f
  with_window client a env b seats (error x) = (rejected x, started b seats)
  with_window client a env b seats (ok w) = with_permit client a env w seats (
      permit env.permit_now env.fresh_request client control (record { kind = window; id = w.id })
        (some w) "Operate this window" b)

  -- `input`: the result, and the state with all that was sent.
  unfoldable pub input :
      String → InputArgs f → InputEnv f → Broker → Seats → InputResult × Delivery f
  unfolding prepare permit check_support send_actions note cleanup_guard
  input client a env b seats = with_window client a env b seats (prepare a env)
