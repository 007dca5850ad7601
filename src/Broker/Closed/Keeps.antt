-- ===== src/Broker/Closed/Keeps.antt =====
-- Which fields the broker's critical sections keep: a pause, and what waits for the compositor.
use hyprland_computer_use.Base.{
  ℕ, ◌≡◌, ◌-◌, ◌∙◌, refl, String, Option, none, some, Bool, true, arith, List, [], ◌∷◌, string_eq,
}
use hyprland_computer_use.Base.Dict.{Dict}
use hyprland_computer_use.Base.Int.{ℤ}
use hyprland_computer_use.Broker.Decide.{decide_begin, decide_finish, Approval}
use hyprland_computer_use.Broker.Effects.{SameGate}
use hyprland_computer_use.Broker.Permit.{permit, add_request}
use hyprland_computer_use.Broker.Revoke.{note_revoked, clear_locked, revoke_locked}
use hyprland_computer_use.Broker.Run.{finish_nth, share_nth}
use hyprland_computer_use.Broker.Share.{Selection, begin_share, select_finish}
use hyprland_computer_use.Broker.State.{Capability, Scope, Window, Grant, Mode, Broker, note}
use hyprland_computer_use.Broker.Supervise.{
  disconnect_ui_locked, set_paused_locked, set_mode_locked,
}
use hyprland_computer_use.Base.{false}
use hyprland_computer_use.Broker.Cleanup.{Reply, done, failed, cleanup_guard}
use hyprland_computer_use.Broker.State.{GuardOp}
use hyprland_computer_use.Broker.Supervise.{cancel_share}

-- A section that keeps a pause and what waits for the compositor.
pub record Keeps (b b' : Broker) : Type 0 where
  pub pending : b'.pending_revocations ≡ b.pending_revocations
  pub paused : b.paused ≡ true → b'.paused ≡ true

pub note_revoked-Keeps :
    (now : ℕ) (d : Dict String Grant) (b : Broker) → Keeps b (note_revoked now d b)
unfolding note_revoked note
note_revoked-Keeps now [] b = record { pending = refl; paused = λ h. h }
note_revoked-Keeps now ((id, g) ∷ d) b =
    let k = note_revoked-Keeps now d (note now "revoked" g.label b) in
    record { pending = k.pending; paused = k.paused }

pub clear_locked-Keeps : (now : ℕ) (b : Broker) → Keeps b (clear_locked now b)
unfolding clear_locked
clear_locked-Keeps now b =
    let k = note_revoked-Keeps now b.grants b in record { pending = k.pending; paused = k.paused }

pub permit-Keeps :
    (now : ℕ) (fresh : Option String) (client : String) (c : Capability) (s : Scope)
    (w : Option Window) (reason : String) (b : Broker)
    → Keeps b (permit now fresh client c s w reason b).1
unfolding permit add_request
permit-Keeps now fresh client c s w reason b = record {
  pending = ground arith;
  paused = λ h. ground arith;
}

pub decide_begin-Keeps :
    (now : ℕ) (id : String) (seconds : ℤ) (approves : Bool) (b : Broker)
    → Keeps b (decide_begin now id seconds approves b).1
unfolding decide_begin note
decide_begin-Keeps now id seconds approves b = record {
  pending = ground arith;
  paused = λ h. ground arith;
}

pub finish_nth-Keeps :
    (now : ℕ) (a : Option Approval) (id : String) (b : Broker) → Keeps b (finish_nth now a id b)
unfolding decide_finish
finish_nth-Keeps now none id b = record { pending = refl; paused = λ h. h }
finish_nth-Keeps now (some a) id b = record { pending = ground arith; paused = λ h. ground arith }

pub begin_share-Keeps :
    (now : ℕ) (fresh : Option String) (windows : Option (List Window)) (client : String)
    (c : Capability) (seconds : ℤ) (b : Broker)
    → Keeps b (begin_share now fresh windows client c seconds b).1
unfolding begin_share note
begin_share-Keeps now fresh windows client c seconds b = record {
  pending = ground arith;
  paused = λ h. ground arith;
}

pub share_nth-Keeps :
    (now : ℕ) (s : Option Selection) (id : String) (w : Window) (b : Broker)
    → Keeps b (share_nth now s id w b)
unfolding select_finish
share_nth-Keeps now none id w b = record { pending = refl; paused = λ h. h }
share_nth-Keeps now (some s) id w b = record { pending = ground arith; paused = λ h. ground arith }

pub gate-Keeps : {b b' : Broker} → SameGate b b' → Keeps b b'
gate-Keeps g = record { pending = g.pending; paused = λ h. g.paused ∙ h }

pub revoke_locked-Keeps : (now : ℕ) (id : String) (b : Broker) → Keeps b (revoke_locked now id b)
unfolding revoke_locked
revoke_locked-Keeps now id b = record { pending = ground arith; paused = λ h. ground arith }

pub disconnect_ui_locked-Keeps : (now : ℕ) (b : Broker) → Keeps b (disconnect_ui_locked now b)
unfolding disconnect_ui_locked note
disconnect_ui_locked-Keeps now b =
    let k = clear_locked-Keeps now (record b { ui_count = b.ui_count - 1; paused = true }) in
    record { pending = ground arith; paused = λ h. ground (arith, k.paused refl) }

pub set_paused_locked-Keeps : (now : ℕ) (b : Broker) → Keeps b (set_paused_locked now true b)
unfolding set_paused_locked note
set_paused_locked-Keeps now b =
    let k = clear_locked-Keeps now (record b { paused = true }) in
    record { pending = k.pending; paused = λ h. k.paused refl }

pub set_mode_locked-Keeps :
    (now : ℕ) (mode : Mode) (b : Broker) → Keeps b (set_mode_locked now mode b)
unfolding set_mode_locked note
set_mode_locked-Keeps now mode b =
    let k = clear_locked-Keeps now b in record { pending = k.pending; paused = k.paused }

pub cancel_share-Keeps : (id : String) (b : Broker) → Keeps b (cancel_share id b)
unfolding cancel_share
cancel_share-Keeps id b = record { pending = ground arith; paused = λ h. ground arith }

pub set_paused_locked-pending :
    (now : ℕ) (paused : Bool) (b : Broker)
    → (set_paused_locked now paused b).pending_revocations ≡ b.pending_revocations
unfolding set_paused_locked note
set_paused_locked-pending now true b = (set_paused_locked-Keeps now b).pending
set_paused_locked-pending now false b = refl

pub cleanup_guard-paused :
    (now : ℕ) (q : GuardOp) (reply : Reply) (b : Broker)
    → (cleanup_guard now q reply b).paused ≡ b.paused
unfolding cleanup_guard note
cleanup_guard-paused now q (failed e) b = ground arith
cleanup_guard-paused now GuardOp.clear done b = ground arith
cleanup_guard-paused now (GuardOp.revoke token) done b = ground arith

pub set_paused_locked-paused : (now : ℕ) (b : Broker) → (set_paused_locked now true b).paused ≡ true
unfolding set_paused_locked note
set_paused_locked-paused now b = (clear_locked-Keeps now (record b { paused = true })).paused refl
