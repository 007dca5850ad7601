-- ===== src/Broker/Epoch/Stale.antt =====
-- A grant that was under way when authority was taken away is never added.
use hyprland_computer_use.Base.{
  ℕ, ◌≡◌, ◌≢◌, ◌⊎◌, inl, inr, ◌<◌, ◌-◌, ◌^◌, refl, String, Option, none, some, Bool, true, false,
  arith, List, [], ◌∷◌, string_eq, get_elem?, eqb,
}
use hyprland_computer_use.Base.Int.{ℤ}
use hyprland_computer_use.Broker.Cleanup.{Reply, done, failed, cleanup_guard}
use hyprland_computer_use.Broker.Decide.{decide_begin, decide_finish, Approval, approving, grant_of}
use hyprland_computer_use.Broker.Epoch.{
  epochs, total_epochs, IsAhead, IsWord, bit, ahead-IsWord, revoke_locked-IsAhead,
  clear_locked-IsAhead, disconnect_locked-IsAhead, expire_locked-IsAhead,
}
use hyprland_computer_use.Broker.Permit.{permit, add_request}
use hyprland_computer_use.Broker.Run.{
  finish_nth, share_nth, Section, permits, begins, finishes, opens_picker, picks, shares, revokes,
  clears, disconnects, expires, connects_ui, disconnects_ui, pauses, sets_mode, cancels_share,
  connects, cleans, System, step_broker, step, run,
}
use hyprland_computer_use.Broker.Share.{
  Selection, begin_share, select_begin, picked, select_finish, share_grant,
}
use hyprland_computer_use.Broker.State.{
  Capability, Scope, Window, GuardOp, Mode, Broker, note, increment,
}
use hyprland_computer_use.Broker.Supervise.{
  cancel_share, disconnect_ui_locked, set_paused_locked, set_mode_locked, connect_ui,
  connect_client,
}

permit-authority :
    (now : ℕ) (fresh : Option String) (client : String) (c : Capability) (s : Scope)
    (w : Option Window) (reason : String) (b : Broker)
    → (permit now fresh client c s w reason b).1.authority ≡ b.authority
unfolding permit add_request
permit-authority now fresh client c s w reason b = ground arith

decide_begin-authority :
    (now : ℕ) (id : String) (seconds : ℤ) (approves : Bool) (b : Broker)
    → (decide_begin now id seconds approves b).1.authority ≡ b.authority
unfolding decide_begin note
decide_begin-authority now id seconds approves b = ground arith

finish_nth-authority :
    (now : ℕ) (a : Option Approval) (id : String) (b : Broker)
    → (finish_nth now a id b).authority ≡ b.authority
unfolding decide_finish
finish_nth-authority now none id b = refl
finish_nth-authority now (some a) id b = ground arith

begin_share-authority :
    (now : ℕ) (fresh : Option String) (windows : Option (List Window)) (client : String)
    (c : Capability) (seconds : ℤ) (b : Broker)
    → (begin_share now fresh windows client c seconds b).1.authority ≡ b.authority
unfolding begin_share note
begin_share-authority now fresh windows client c seconds b = ground arith

share_nth-authority :
    (now : ℕ) (s : Option Selection) (id : String) (w : Window) (b : Broker)
    → (share_nth now s id w b).authority ≡ b.authority
unfolding select_finish
share_nth-authority now none id w b = refl
share_nth-authority now (some s) id w b = ground arith

cleanup_guard-authority :
    (now : ℕ) (q : GuardOp) (reply : Reply) (b : Broker)
    → (cleanup_guard now q reply b).authority ≡ b.authority
unfolding cleanup_guard note
cleanup_guard-authority now q (failed e) b = ground arith
cleanup_guard-authority now GuardOp.clear done b = ground arith
cleanup_guard-authority now (GuardOp.revoke token) done b = ground arith

cancel_share-authority : (id : String) (b : Broker) → (cancel_share id b).authority ≡ b.authority
unfolding cancel_share
cancel_share-authority id b = ground arith

disconnect_ui_locked-IsAhead :
    (now : ℕ) (b : Broker)
    → IsWord b
    → IsAhead (bit (eqb (b.ui_count - 1) 0)) b (disconnect_ui_locked now b)
unfolding disconnect_ui_locked note
disconnect_ui_locked-IsAhead now b h =
    ground (arith, clear_locked-IsAhead now (record b { ui_count = b.ui_count - 1; paused = true }))

set_paused_locked-IsAhead :
    (now : ℕ) (paused : Bool) (b : Broker) → IsAhead 1 b (set_paused_locked now paused b)
unfolding set_paused_locked note increment
set_paused_locked-IsAhead now true b = clear_locked-IsAhead now (record b { paused = true })
set_paused_locked-IsAhead now false b = refl

set_mode_locked-IsAhead :
    (now : ℕ) (mode : Mode) (b : Broker) → IsAhead 1 b (set_mode_locked now mode b)
unfolding set_mode_locked note
set_mode_locked-IsAhead now mode b = clear_locked-IsAhead now b

step-IsAhead :
    (now : ℕ) (s : Section) (y : System)
    → IsWord y.broker
    → IsAhead (epochs now s y.broker) y.broker (step_broker now s y)
unfolding step_broker epochs
step-IsAhead now (permits fresh client c s w reason) y h =
    omega (arith, permit-authority now fresh client c s w reason y.broker)
step-IsAhead now (begins id seconds approves) y h =
    omega (arith, decide_begin-authority now id seconds approves y.broker)
step-IsAhead now (finishes i id) y h =
    omega (arith, finish_nth-authority now (get_elem? y.approvals i) id y.broker)
step-IsAhead now (opens_picker fresh windows client c seconds) y h =
    omega (arith, begin_share-authority now fresh windows client c seconds y.broker)
step-IsAhead now (picks picker client window) y h = omega arith
step-IsAhead now (shares i id w) y h =
    omega (arith, share_nth-authority now (get_elem? y.selections i) id w y.broker)
step-IsAhead now (revokes id) y h = revoke_locked-IsAhead now id y.broker h
step-IsAhead now clears y h = clear_locked-IsAhead now y.broker
step-IsAhead now (disconnects client) y h = disconnect_locked-IsAhead now client y.broker h
step-IsAhead now expires y h = expire_locked-IsAhead now y.broker h
step-IsAhead now connects_ui y h = unfold connect_ui in (omega arith)
step-IsAhead now disconnects_ui y h = disconnect_ui_locked-IsAhead now y.broker h
step-IsAhead now (pauses paused) y h = set_paused_locked-IsAhead now paused y.broker
step-IsAhead now (sets_mode mode) y h = set_mode_locked-IsAhead now mode y.broker
step-IsAhead now (cancels_share id) y h = omega (arith, cancel_share-authority id y.broker)
step-IsAhead now (connects id label) y h = unfold connect_client in (omega arith)
step-IsAhead now (cleans q reply) y h = omega (arith, cleanup_guard-authority now q reply y.broker)

-- A run advances the epoch by the sum over its sections.
run-IsAhead :
    (t : List (ℕ × Section)) (y : System)
    → IsWord y.broker
    → IsAhead (total_epochs t y) y.broker (run t y).broker
unfolding run total_epochs step
run-IsAhead [] y h = omega arith
run-IsAhead ((now, s) ∷ t) y h =
    let a = step-IsAhead now s y h in
    omega (arith, a, run-IsAhead t (step now s y) (ahead-IsWord _ y.broker (step_broker now s y) a))

-- The sections that take away all authority, whatever the state: a clear, a pause or its end, and a
-- change of the mode.
abbrev pub invalidates : Section → Bool
invalidates clears = true
invalidates (pauses paused) = true
invalidates (sets_mode mode) = true
invalidates s = false

abbrev pub Invalidated : List (ℕ × Section) → Type 0
Invalidated [] = ⊥
Invalidated ((now, s) ∷ t) = (invalidates s ≡ true) ⊎ Invalidated t

invalidates-epochs :
    (now : ℕ) (s : Section) (b : Broker) → invalidates s ≡ true → 0 < epochs now s b
unfolding epochs
invalidates-epochs now clears b h = omega arith
invalidates-epochs now (pauses paused) b h = omega arith
invalidates-epochs now (sets_mode mode) b h = omega arith
invalidates-epochs now s b h = cc

Invalidated-epochs : (t : List (ℕ × Section)) (y : System) → Invalidated t → 0 < total_epochs t y
unfolding total_epochs
Invalidated-epochs [] y h = absurd h
Invalidated-epochs ((now, s) ∷ t) y (inl h) = omega (arith, invalidates-epochs now s y.broker h)
Invalidated-epochs ((now, s) ∷ t) y (inr h) = omega (arith, Invalidated-epochs t (step now s y) h)

approval-authority :
    (now : ℕ) (id : String) (seconds : ℤ) (approves : Bool) (b : Broker) (a : Approval)
    → (decide_begin now id seconds approves b).0 ≡ approving a
    → a.authority ≡ b.authority
unfolding decide_begin
approval-authority now id seconds approves b a e = ground arith

selection-authority :
    (now : ℕ) (picker_id client window_id : String) (b : Broker) (s : Selection)
    → select_begin now picker_id client window_id b ≡ picked s
    → s.authority ≡ b.authority
unfolding select_begin
selection-authority now picker_id client window_id b s e = ground arith

-- The local user approves a request. If a clear, a pause, a resume or a change of the mode comes
-- before the approval's second section, with any other sections and fewer than 2^64 steps of the
-- epoch in all, then that section adds nothing: it changes no part of the state.
pub decide_finish-stale :
    (now later : ℕ) (id grant_id : String) (seconds : ℤ) (a : Approval) (t : List (ℕ × Section))
    (y : System)
    → IsWord y.broker
    → (decide_begin now id seconds true y.broker).0 ≡ approving a
    → Invalidated t
    → total_epochs t y < 2 ^ 64
    → decide_finish later a (grant_of a grant_id) (run t y).broker ≡ (false, (run t y).broker)
unfolding decide_finish
decide_finish-stale now later id grant_id seconds a t y w e i h =
    let ahead = run-IsAhead t y w in
    let same = approval-authority now id seconds true y.broker a e in
    let changed : (run t y).broker.authority ≢ a.authority =
      omega (arith, Invalidated-epochs t y i, ahead, same) in
    ground arith

-- The local user picks a window to share. If a clear, a pause, a resume or a change of the mode
-- comes before the selection's second section, with any other sections and fewer than 2^64 steps
-- of the epoch in all, then that section adds nothing: it changes no part of the state.
pub select_finish-stale :
    (now later : ℕ) (picker_id client window_id grant_id : String) (w : Window) (s : Selection)
    (t : List (ℕ × Section)) (y : System)
    → IsWord y.broker
    → select_begin now picker_id client window_id y.broker ≡ picked s
    → Invalidated t
    → total_epochs t y < 2 ^ 64
    → select_finish later s (share_grant s grant_id w) w (run t y).broker
      ≡ (false, (run t y).broker)
unfolding select_finish
select_finish-stale now later picker_id client window_id grant_id w s t y h e i k =
    let ahead = run-IsAhead t y h in
    let same = selection-authority now picker_id client window_id y.broker s e in
    let changed : (run t y).broker.authority ≢ s.authority =
      omega (arith, Invalidated-epochs t y i, ahead, same) in
    ground arith
