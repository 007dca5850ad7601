-- ===== src/Broker/Closed/Unconfirmed.antt =====
-- While the compositor has not confirmed a revocation, nothing is allowed.
use hyprland_computer_use.Base.{
  ℕ, ◌≡◌, refl, String, Option, none, true, arith, List, [], ◌∷◌, string_eq,
}
use hyprland_computer_use.Broker.State.{Capability, Scope, Window, Broker}
use hyprland_computer_use.Base.{false, ◌⊎◌, inl, inr, is_some, get_elem?}
use hyprland_computer_use.Base.Dict.{lookup, lookup-insert, lookup-some_pos}
use hyprland_computer_use.Broker.Cleanup.{
  done, failed, cleanup_guard, cleanup_failed, revocation_key,
}
use hyprland_computer_use.Broker.Effects.{disconnect_locked-gate, expire_locked-gate}
use hyprland_computer_use.Broker.Run.{
  Section, permits, begins, finishes, opens_picker, picks, shares, revokes, clears, disconnects,
  expires, connects_ui, disconnects_ui, pauses, sets_mode, cancels_share, connects, cleans, System,
  step_broker, step, run,
}
use hyprland_computer_use.Broker.Scope.{allowed}
use hyprland_computer_use.Broker.State.{GuardOp}
use hyprland_computer_use.Broker.Supervise.{connect_ui, connect_client}
use hyprland_computer_use.Broker.Closed.Keeps.{
  Keeps, clear_locked-Keeps, permit-Keeps, decide_begin-Keeps, finish_nth-Keeps, begin_share-Keeps,
  share_nth-Keeps, gate-Keeps, revoke_locked-Keeps, disconnect_ui_locked-Keeps,
  set_mode_locked-Keeps, cancel_share-Keeps, set_paused_locked-pending,
}
use hyprland_computer_use.Broker.Closed.Tests.{confirms, Never}

-- The compositor still owes the confirmation of that key.
abbrev Owes : String → Broker → Type 0
Owes key b = is_some (lookup key b.pending_revocations) ≡ true

Owes-Keeps : (key : String) (b b' : Broker) → Keeps b b' → Owes key b → Owes key b'
Owes-Keeps key b b' k h = rw k.pending h

cleanup_failed-Owes :
    (key : String) (now : ℕ) (q : GuardOp) (e : String) (b : Broker)
    → (key ≡ revocation_key q) ⊎ Owes key b
    → Owes key (cleanup_failed now q e b)
unfolding cleanup_failed
cleanup_failed-Owes key now q e b h =
    ground (arith, lookup-insert key (revocation_key q) q b.pending_revocations)

step-Owes :
    (key : String) (now : ℕ) (s : Section) (y : System)
    → confirms s ≡ false
    → Owes key y.broker
    → Owes key (step_broker now s y)
unfolding step_broker
step-Owes key now (permits fresh client c s w reason) y n h =
    Owes-Keeps key y.broker _ (permit-Keeps now fresh client c s w reason y.broker) h
step-Owes key now (begins id seconds approves) y n h =
    Owes-Keeps key y.broker _ (decide_begin-Keeps now id seconds approves y.broker) h
step-Owes key now (finishes i id) y n h =
    Owes-Keeps key y.broker _ (finish_nth-Keeps now (get_elem? y.approvals i) id y.broker) h
step-Owes key now (opens_picker fresh windows client c seconds) y n h =
    Owes-Keeps key y.broker _ (begin_share-Keeps now fresh windows client c seconds y.broker) h
step-Owes key now (picks picker client window) y n h = h
step-Owes key now (shares i id w) y n h =
    Owes-Keeps key y.broker _ (share_nth-Keeps now (get_elem? y.selections i) id w y.broker) h
step-Owes key now (revokes id) y n h =
    Owes-Keeps key y.broker _ (revoke_locked-Keeps now id y.broker) h
step-Owes key now clears y n h = Owes-Keeps key y.broker _ (clear_locked-Keeps now y.broker) h
step-Owes key now (disconnects client) y n h =
    Owes-Keeps key y.broker _ (gate-Keeps (disconnect_locked-gate now client y.broker)) h
step-Owes key now expires y n h =
    Owes-Keeps key y.broker _ (gate-Keeps (expire_locked-gate now y.broker)) h
step-Owes key now connects_ui y n h = unfold connect_ui in h
step-Owes key now disconnects_ui y n h =
    Owes-Keeps key y.broker _ (disconnect_ui_locked-Keeps now y.broker) h
step-Owes key now (pauses paused) y n h = rw (set_paused_locked-pending now paused y.broker) h
step-Owes key now (sets_mode mode) y n h =
    Owes-Keeps key y.broker _ (set_mode_locked-Keeps now mode y.broker) h
step-Owes key now (cancels_share id) y n h =
    Owes-Keeps key y.broker _ (cancel_share-Keeps id y.broker) h
step-Owes key now (connects id label) y n h = unfold connect_client in h
step-Owes key now (cleans q done) y n h = cc
step-Owes key now (cleans q (failed e)) y n h =
    unfold cleanup_guard in cleanup_failed-Owes key now q e y.broker (inr h)

run-Owes :
    (key : String) (t : List (ℕ × Section)) (y : System)
    → Never confirms t
    → Owes key y.broker
    → Owes key (run t y).broker
unfolding run
run-Owes key [] y n h = h
run-Owes key ((now, s) ∷ t) y n h =
    run-Owes key t _ n.1 (unfold step in (step-Owes key now s y n.0 h))

allowed-Owes :
    (key : String) (now : ℕ) (client : String) (c : Capability) (s : Scope) (w : Option Window)
    (b : Broker)
    → Owes key b
    → allowed now client c s w b ≡ none
unfolding allowed
allowed-Owes key now client c s w b h = ground (arith, lookup-some_pos key b.pending_revocations h)

-- From a revocation that the compositor did not confirm on, whatever the broker's goroutines do
-- and whatever a user grants, no client is allowed anything, until some reply confirms a cleanup.
pub allowed-unconfirmed :
    (now : ℕ) (q : GuardOp) (e : String) (t : List (ℕ × Section)) (y : System) (later : ℕ)
    (client : String) (c : Capability) (s : Scope) (w : Option Window)
    → Never confirms t
    → allowed later client c s w (run t (step now (cleans q (failed e)) y)).broker ≡ none
unfolding step step_broker cleanup_guard
allowed-unconfirmed now q e t y later client c s w n =
    allowed-Owes (revocation_key q) later client c s w _ (
      run-Owes (revocation_key q) t _ n
        (cleanup_failed-Owes (revocation_key q) now q e y.broker (inl refl)))
