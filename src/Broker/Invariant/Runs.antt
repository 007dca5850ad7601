-- ===== src/Broker/Invariant/Runs.antt =====
-- The invariant under every section, and so under every interleaving of the broker's goroutines.
use hyprland_computer_use.Base.{
  ℕ, ◌≡◌, inl, inr, refl, String, Bool, List, [], ◌∷◌, get_elem?, All, get_elem?-All, All-append,
  Option-cases,
}
use hyprland_computer_use.Broker.Decide.{Begun, denied_now, approving, decide_begin}
use hyprland_computer_use.Broker.Invariant.{Inv, new_broker-Inv}
use hyprland_computer_use.Broker.Invariant.Approval.{SuitsApproval}
use hyprland_computer_use.Broker.Invariant.Sharing.{SuitsSelection}
use hyprland_computer_use.Broker.Run.{
  System, Section, permits, begins, finishes, opens_picker, picks, shares, revokes, clears,
  disconnects, connects_ui, disconnects_ui, pauses, sets_mode, cancels_share, connects, cleans,
  finish_nth, share_nth, step_broker, step, run, start, started_approvals, started_selections,
  approvals_of, selections_of,
}
use hyprland_computer_use.Broker.Share.{Picked, picked, select_begin}
use hyprland_computer_use.Broker.State.{Broker, Window}
use hyprland_computer_use.Broker.Invariant.Approval.{
  decide_begin-Inv, decide_begin-Suits, decide_finish-Inv,
}
use hyprland_computer_use.Broker.Invariant.Requests.{permit-Inv}
use hyprland_computer_use.Broker.Invariant.Revocation.{
  revoke_locked-Inv, Inv-IsBounded, clear_locked-Inv, disconnect_locked-Inv, expire_locked-Inv,
}
use hyprland_computer_use.Broker.Invariant.Sharing.{
  begin_share-Inv, select_begin-Suits, select_finish-Inv,
}
use hyprland_computer_use.Broker.Invariant.Supervision.{
  cleanup_guard-Inv, connect_ui-Inv, disconnect_ui_locked-Inv, set_paused_locked-Inv,
  set_mode_locked-Inv, cancel_share-Inv, connect_client-Inv,
}
use hyprland_computer_use.Broker.Run.{expires}

pub record SystemInv (y : System) : Type 0 where
  pub sound : Inv y.broker
  pub approvals_suit : All SuitsApproval y.approvals
  pub selections_suit : All SuitsSelection y.selections

finish_nth-Inv :
    (now : ℕ) (i : ℕ) (id : String) (y : System)
    → SystemInv y
    → Inv (finish_nth now (get_elem? y.approvals i) id y.broker)
finish_nth-Inv now i id y v = elim (Option-cases (get_elem? y.approvals i)) [
  | inl absent ↦ rw (absent, finish_nth) v.sound
  | inr (a, e) ↦
      rw (e, finish_nth)
        (decide_finish-Inv now a id y.broker
          (get_elem?-All SuitsApproval y.approvals i a v.approvals_suit e) v.sound)
]

share_nth-Inv :
    (now : ℕ) (i : ℕ) (id : String) (w : Window) (y : System)
    → SystemInv y
    → Inv (share_nth now (get_elem? y.selections i) id w y.broker)
share_nth-Inv now i id w y v = elim (Option-cases (get_elem? y.selections i)) [
  | inl absent ↦ rw (absent, share_nth) v.sound
  | inr (s, e) ↦
      rw (e, share_nth)
        (select_finish-Inv now s id w y.broker
          (get_elem?-All SuitsSelection y.selections i s v.selections_suit e) v.sound)
]

step_broker-Inv : (now : ℕ) (s : Section) (y : System) → SystemInv y → Inv (step_broker now s y)
unfolding step_broker
step_broker-Inv now (permits fresh client c s w reason) y v =
    permit-Inv now fresh client c s w reason y.broker v.sound
step_broker-Inv now (begins id seconds approves) y v =
    decide_begin-Inv now id seconds approves y.broker v.sound
step_broker-Inv now (finishes i id) y v = finish_nth-Inv now i id y v
step_broker-Inv now (opens_picker fresh windows client c seconds) y v =
    begin_share-Inv now fresh windows client c seconds y.broker v.sound
step_broker-Inv now (picks picker client window) y v = v.sound
step_broker-Inv now (shares i id w) y v = share_nth-Inv now i id w y v
step_broker-Inv now (revokes id) y v = revoke_locked-Inv now id y.broker v.sound
step_broker-Inv now clears y v = clear_locked-Inv now y.broker (Inv-IsBounded y.broker v.sound)
step_broker-Inv now (disconnects client) y v = disconnect_locked-Inv now client y.broker v.sound
step_broker-Inv now expires y v = expire_locked-Inv now y.broker v.sound
step_broker-Inv now connects_ui y v = connect_ui-Inv y.broker v.sound
step_broker-Inv now disconnects_ui y v = disconnect_ui_locked-Inv now y.broker v.sound
step_broker-Inv now (pauses paused) y v = set_paused_locked-Inv now paused y.broker v.sound
step_broker-Inv now (sets_mode mode) y v = set_mode_locked-Inv now mode y.broker v.sound
step_broker-Inv now (cancels_share id) y v = cancel_share-Inv id y.broker v.sound
step_broker-Inv now (connects id label) y v = connect_client-Inv id label y.broker v.sound
step_broker-Inv now (cleans q reply) y v = cleanup_guard-Inv now q reply y.broker v.sound

started_approvals-Suits :
    (now : ℕ) (s : Section) (b : Broker) → Inv b → All SuitsApproval (started_approvals now s b)
started_approvals-Suits now (begins id seconds approves) b v =
    started (decide_begin now id seconds approves b).0 refl
  where
    started :
        (r : Begun)
        → (decide_begin now id seconds approves b).0 ≡ r
        → All SuitsApproval (approvals_of r)
    started (Begun.refused e) h = tt
    started denied_now h = tt
    started (approving a) h = (decide_begin-Suits now id seconds approves b a v h, tt)
started_approvals-Suits now s b v = tt

started_selections-Suits :
    (now : ℕ) (s : Section) (b : Broker) → Inv b → All SuitsSelection (started_selections now s b)
started_selections-Suits now (picks picker client window) b v =
    started (select_begin now picker client window b) refl
  where
    started :
        (r : Picked)
        → select_begin now picker client window b ≡ r
        → All SuitsSelection (selections_of r)
    started (Picked.refused e) h = tt
    started (picked s) h = (select_begin-Suits now picker client window b s v h, tt)
started_selections-Suits now s b v = tt

pub step-SystemInv : (now : ℕ) (s : Section) (y : System) → SystemInv y → SystemInv (step now s y)
unfolding step
step-SystemInv now s y v = record {
  sound = step_broker-Inv now s y v;
  approvals_suit =
      All-append SuitsApproval y.approvals _ v.approvals_suit
        (started_approvals-Suits now s y.broker v.sound);
  selections_suit =
      All-append SuitsSelection y.selections _ v.selections_suit
        (started_selections-Suits now s y.broker v.sound);
}

pub run-SystemInv : (t : List (ℕ × Section)) (y : System) → SystemInv y → SystemInv (run t y)
unfolding run
run-SystemInv [] y v = v
run-SystemInv ((now, s) ∷ t) y v = run-SystemInv t _ (step-SystemInv now s y v)

pub start-SystemInv : (has_backend : Bool) → SystemInv (start has_backend)
unfolding start
start-SystemInv has_backend = record {
  sound = new_broker-Inv has_backend;
  approvals_suit = tt;
  selections_suit = tt;
}

-- From the start of the broker, under every interleaving of its goroutines' critical sections with
-- any clock readings, IDs and replies: there are grants, or an open window picker, only while a
-- console is connected and the broker is not paused; there are at most 100 requests and 100 audit
-- entries; each grant and each request has a scope of a kind that its capability admits, so that
-- control and recording are always for one window; and the maps hold one entry for a key.
pub run-Inv : (has_backend : Bool) (t : List (ℕ × Section)) → Inv (run t (start has_backend)).broker
run-Inv has_backend t = (run-SystemInv t _ (start-SystemInv has_backend)).sound
