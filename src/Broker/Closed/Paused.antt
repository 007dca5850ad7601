-- ===== src/Broker/Closed/Paused.antt =====
-- While the broker is paused, nothing is allowed and nothing is granted.
use hyprland_computer_use.Base.{
  ℕ, ◌≡◌, ◌∙◌, String, Option, none, Bool, true, arith, List, [], ◌∷◌, string_eq,
}
use hyprland_computer_use.Broker.State.{Capability, Scope, Window, Broker}
use hyprland_computer_use.Base.{false, get_elem?}
use hyprland_computer_use.Broker.Effects.{disconnect_locked-gate, expire_locked-gate}
use hyprland_computer_use.Broker.Run.{
  Section, permits, begins, finishes, opens_picker, picks, shares, revokes, clears, disconnects,
  expires, connects_ui, disconnects_ui, pauses, sets_mode, cancels_share, connects, cleans, System,
  step_broker, step, run,
}
use hyprland_computer_use.Broker.Scope.{allowed}
use hyprland_computer_use.Broker.Supervise.{connect_ui, connect_client}
use hyprland_computer_use.Broker.Closed.Keeps.{
  clear_locked-Keeps, permit-Keeps, decide_begin-Keeps, finish_nth-Keeps, begin_share-Keeps,
  share_nth-Keeps, gate-Keeps, revoke_locked-Keeps, disconnect_ui_locked-Keeps,
  set_paused_locked-Keeps, set_mode_locked-Keeps, cancel_share-Keeps,
}
use hyprland_computer_use.Broker.Closed.Tests.{resumes, Never}
use hyprland_computer_use.Broker.Closed.Keeps.{cleanup_guard-paused, set_paused_locked-paused}
use hyprland_computer_use.Broker.Invariant.{Inv}
use hyprland_computer_use.Broker.Invariant.Runs.{run-SystemInv, step-SystemInv, start-SystemInv}
use hyprland_computer_use.Broker.Run.{start}

step-paused :
    (now : ℕ) (s : Section) (y : System)
    → resumes s ≡ false
    → y.broker.paused ≡ true
    → (step_broker now s y).paused ≡ true
unfolding step_broker
step-paused now (permits fresh client c s w reason) y n h =
    (permit-Keeps now fresh client c s w reason y.broker).paused h
step-paused now (begins id seconds approves) y n h =
    (decide_begin-Keeps now id seconds approves y.broker).paused h
step-paused now (finishes i id) y n h =
    (finish_nth-Keeps now (get_elem? y.approvals i) id y.broker).paused h
step-paused now (opens_picker fresh windows client c seconds) y n h =
    (begin_share-Keeps now fresh windows client c seconds y.broker).paused h
step-paused now (picks picker client window) y n h = h
step-paused now (shares i id w) y n h =
    (share_nth-Keeps now (get_elem? y.selections i) id w y.broker).paused h
step-paused now (revokes id) y n h = (revoke_locked-Keeps now id y.broker).paused h
step-paused now clears y n h = (clear_locked-Keeps now y.broker).paused h
step-paused now (disconnects client) y n h =
    (gate-Keeps (disconnect_locked-gate now client y.broker)).paused h
step-paused now expires y n h = (gate-Keeps (expire_locked-gate now y.broker)).paused h
step-paused now connects_ui y n h = unfold connect_ui in h
step-paused now disconnects_ui y n h = (disconnect_ui_locked-Keeps now y.broker).paused h
step-paused now (pauses true) y n h = (set_paused_locked-Keeps now y.broker).paused h
step-paused now (pauses false) y n h = cc
step-paused now (sets_mode mode) y n h = (set_mode_locked-Keeps now mode y.broker).paused h
step-paused now (cancels_share id) y n h = (cancel_share-Keeps id y.broker).paused h
step-paused now (connects id label) y n h = unfold connect_client in h
step-paused now (cleans q reply) y n h = cleanup_guard-paused now q reply y.broker ∙ h

run-paused :
    (t : List (ℕ × Section)) (y : System)
    → Never resumes t
    → y.broker.paused ≡ true
    → (run t y).broker.paused ≡ true
unfolding run
run-paused [] y n h = h
run-paused ((now, s) ∷ t) y n h = run-paused t _ n.1 (unfold step in (step-paused now s y n.0 h))

paused-empty : (b : Broker) → Inv b → b.paused ≡ true → (b.grants ≡ []) × (b.picker ≡ none)
paused-empty b v h = (ground arith, ground arith)

allowed-paused :
    (now : ℕ) (client : String) (c : Capability) (s : Scope) (w : Option Window) (b : Broker)
    → b.paused ≡ true
    → allowed now client c s w b ≡ none
unfolding allowed
allowed-paused now client c s w b h = ground arith

-- From the user's pause on, after any history and whatever the broker's goroutines do next (also
-- the approvals and selections that were under way), no client is allowed anything, and there is
-- no grant and no window picker, until the user resumes the broker. So a resumed broker starts
-- with no grant.
pub run-pauses :
    (has_backend : Bool) (before after : List (ℕ × Section)) (now : ℕ) (later : ℕ) (client : String)
    (c : Capability) (s : Scope) (w : Option Window)
    → Never resumes after
    → let b = (run after (step now (pauses true) (run before (start has_backend)))).broker in
      (allowed later client c s w b ≡ none) × (b.grants ≡ []) × (b.picker ≡ none)
unfolding step step_broker
run-pauses has_backend before after now later client c s w n =
    let y = run before (start has_backend) in
    let v = run-SystemInv before (start has_backend) (start-SystemInv has_backend) in
    let z = run after (step now (pauses true) y) in
    let p = run-paused after (step now (pauses true) y) n (set_paused_locked-paused now y.broker) in
    let e =
      paused-empty z.broker (run-SystemInv after _ (step-SystemInv now (pauses true) y v)).sound
        p in
    (allowed-paused later client c s w z.broker p, e.0, e.1)
