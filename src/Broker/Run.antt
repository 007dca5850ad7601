-- ===== src/Broker/Run.antt =====
-- The critical sections of the broker (those of internal/app/broker.go and sharing.go under
-- `b.mu`) as the steps of one machine. Each goroutine's operation is a sequence of such sections,
-- and any interleaving of any number of goroutines is a list of them.
use hyprland_computer_use.Base.{ℕ, String, Bool, Option, List, [], ◌∷◌, ◌++◌}
use hyprland_computer_use.Base.Int.{ℤ}
use hyprland_computer_use.Broker.State.{
  Capability, Scope, Window, GuardOp, Mode, Broker, new_broker,
}
use hyprland_computer_use.Base.{get_elem?}
use hyprland_computer_use.Broker.Permit.{permit}
use hyprland_computer_use.Broker.Cleanup.{Reply, cleanup_guard}
use hyprland_computer_use.Broker.Revoke.{
  revoke_locked, clear_locked, disconnect_locked, expire_locked,
}
use hyprland_computer_use.Broker.Decide.{
  Approval, Begun, denied_now, approving, grant_of, decide_begin, decide_finish,
}
use hyprland_computer_use.Broker.Share.{
  Selection, Picked, picked, share_grant, select_begin, select_finish, begin_share,
}
use hyprland_computer_use.Broker.Supervise.{
  connect_ui, disconnect_ui_locked, set_paused_locked, set_mode_locked, cancel_share,
  connect_client,
}
use hyprland_computer_use.Base.{some}
use hyprland_computer_use.Base.{none}

pub data Section : Type 0 where
  permits : Option String → String → Capability → Scope → Option Window → String → Section
  begins : String → ℤ → Bool → Section
  -- The second section of the approval of that index, with the ID of its grant.
  finishes : ℕ → String → Section
  opens_picker : Option String → Option (List Window) → String → Capability → ℤ → Section
  picks : String → String → String → Section
  -- The second section of the selection of that index, with the ID of its grant and the window.
  shares : ℕ → String → Window → Section
  revokes : String → Section
  clears : Section
  disconnects : String → Section
  expires : Section
  connects_ui : Section
  disconnects_ui : Section
  pauses : Bool → Section
  sets_mode : Mode → Section
  cancels_share : String → Section
  connects : String → String → Section
  cleans : GuardOp → Reply → Section

-- The broker, and the local variables of the goroutines that are between their two sections (a
-- goroutine that has run its second section keeps them, and is free to run it again).
pub record System : Type 0 where
  pub broker : Broker
  pub approvals : List Approval
  pub selections : List Selection

abbrev pub approvals_of : Begun → List Approval
approvals_of (Begun.refused e) = []
approvals_of denied_now = []
approvals_of (approving a) = a ∷ []

abbrev pub selections_of : Picked → List Selection
selections_of (Picked.refused e) = []
selections_of (picked s) = s ∷ []

abbrev pub finish_nth : ℕ → Option Approval → String → Broker → Broker
finish_nth now none id b = b
finish_nth now (some a) id b = (decide_finish now a (grant_of a id) b).1

abbrev pub share_nth : ℕ → Option Selection → String → Window → Broker → Broker
share_nth now none id w b = b
share_nth now (some s) id w b = (select_finish now s (share_grant s id w) w b).1

-- A section at a time: the broker after it.
unfoldable pub step_broker : ℕ → Section → System → Broker
step_broker now (permits fresh client c s w reason) y =
    (permit now fresh client c s w reason y.broker).1
step_broker now (begins id seconds approves) y = (decide_begin now id seconds approves y.broker).1
step_broker now (finishes i id) y = finish_nth now (get_elem? y.approvals i) id y.broker
step_broker now (opens_picker fresh windows client c seconds) y =
    (begin_share now fresh windows client c seconds y.broker).1
step_broker now (picks picker client window) y = y.broker
step_broker now (shares i id w) y = share_nth now (get_elem? y.selections i) id w y.broker
step_broker now (revokes id) y = revoke_locked now id y.broker
step_broker now clears y = clear_locked now y.broker
step_broker now (disconnects client) y = disconnect_locked now client y.broker
step_broker now expires y = expire_locked now y.broker
step_broker now connects_ui y = connect_ui y.broker
step_broker now disconnects_ui y = disconnect_ui_locked now y.broker
step_broker now (pauses paused) y = set_paused_locked now paused y.broker
step_broker now (sets_mode mode) y = set_mode_locked now mode y.broker
step_broker now (cancels_share id) y = cancel_share id y.broker
step_broker now (connects id label) y = connect_client id label y.broker
step_broker now (cleans q reply) y = cleanup_guard now q reply y.broker

-- The approvals and the selections that a section starts.
abbrev pub started_approvals : ℕ → Section → Broker → List Approval
started_approvals now (begins id seconds approves) b =
    approvals_of (decide_begin now id seconds approves b).0
started_approvals now s b = []

abbrev pub started_selections : ℕ → Section → Broker → List Selection
started_selections now (picks picker client window) b =
    selections_of (select_begin now picker client window b)
started_selections now s b = []

unfoldable pub step : ℕ → Section → System → System
unfolding step_broker
step now s y = record {
  broker = step_broker now s y;
  approvals = y.approvals ++ started_approvals now s y.broker;
  selections = y.selections ++ started_selections now s y.broker;
}

unfoldable pub run : List (ℕ × Section) → System → System
unfolding step
run [] y = y
run ((now, s) ∷ t) y = run t (step now s y)

unfoldable pub start : Bool → System
unfolding new_broker
start has_backend = record { broker = new_broker has_backend; approvals = []; selections = [] }
