-- ===== src/Capture/Unlocked.antt =====
-- What the status of the guard and the comparison of windows mean to a capture
-- (internal/app/desktop.go).
use hyprland_computer_use.Base.{◌≡◌, refl, arith, Bool, true, false, Option, none, some, string_eq}
use hyprland_computer_use.Base.Int.{eqb_ℤ→≡}
use hyprland_computer_use.Broker.State.{Window}
use hyprland_computer_use.Capture.Grab.{is_same}
use hyprland_computer_use.Input.Guard.{
  GuardReply, GuardError, Seats, status, guard, status_error, lock_error, or_fault,
}

-- The guard's reply reports an unlocked session, without a fault.
abbrev pub SaysUnlocked : Option GuardReply → Type 0
SaysUnlocked reply =
    (r : GuardReply) × (reply ≡ some r)
    × (r.ok ≡ true)
    × (r.locked ≡ some false)
    × (r.input_faulted ≡ false)

lock_error-unlocked : (o : Option Bool) → lock_error o ≡ none → o ≡ some false
lock_error-unlocked none h = cc
lock_error-unlocked (some true) h = cc
lock_error-unlocked (some false) h = refl

status_error-locked :
    (r : GuardReply) → status_error false false true r ≡ none → lock_error r.locked ≡ none
unfolding status_error
status_error-locked r h = ground arith

status_error-ok : (r : GuardReply) → status_error false false true r ≡ none → r.ok ≡ true
unfolding status_error
status_error-ok r h = ground arith

or_fault-none : (b : Bool) (o : Option GuardError) → or_fault b o ≡ none → (b ≡ false) × (o ≡ none)
or_fault-none true none h = cc
or_fault-none false none h = (refl, refl)
or_fault-none b (some x) h = cc

pub guard-SaysUnlocked :
    (reply : Option GuardReply) (s : Seats)
    → (guard (status false false true) reply s).0 ≡ none
    → SaysUnlocked reply
unfolding guard
guard-SaysUnlocked none s h = cc
guard-SaysUnlocked (some r) s h =
    let passed = or_fault-none r.input_faulted (status_error false false true r) h in
    (
      r,
      refl,
      status_error-ok r passed.1,
      lock_error-unlocked r.locked (status_error-locked r passed.1),
      passed.0,
    )

-- The window is visible, with the same revision, size and workspace.
abbrev pub IsSame : Window → Window → Type 0
IsSame before after =
    (after.revision ≡ before.revision)
    × (after.size ≡ before.size)
    × (after.workspace ≡ before.workspace)
    × (after.visible ≡ true)
    × (after.hidden ≡ false)

pub is_same-IsSame : (w w' : Window) → is_same w w' ≡ true → IsSame w w'
is_same-IsSame w w' h = (
  ground arith,
  (λ i. (eqb_ℤ→≡ w'.size.0 w.size.0 (ground arith) i, eqb_ℤ→≡ w'.size.1 w.size.1 (ground arith) i)),
  eqb_ℤ→≡ w'.workspace w.workspace (ground arith),
  ground arith,
  ground arith,
)
