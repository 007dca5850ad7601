-- ===== src/Broker/Epoch.antt =====
-- The authority epoch (`b.authority` in internal/app/broker.go and sharing.go): how far each section
-- advances it, on a counter of 64 bits, and why a grant that was under way is then not added.
pub mod Stale
use hyprland_computer_use.Base.{
  ℕ, ◌≡◌, ◌<◌, ◌+◌, ◌-◌, ◌%◌, ◌^◌, refl, String, Option, Bool, true, false, arith, List, [], ◌∷◌,
  string_eq, is_some, ◌&&◌, if◌then◌else◌, eqb,
}
use hyprland_computer_use.Base.Dict.{Dict, lookup}
use hyprland_computer_use.Broker.Revoke.{
  revoke_locked, revoke_where, of_client, picked_by, picker_expired, is_expired, unpick_expired,
  note_revoked, clear_locked,
}
use hyprland_computer_use.Broker.Run.{
  Section, revokes, clears, disconnects, expires, disconnects_ui, pauses, sets_mode, System, step,
}
use hyprland_computer_use.Broker.State.{Grant, Broker, note, increment}
use hyprland_computer_use.Broker.Revoke.{drop_client, disconnect_locked, expire_locked}
use hyprland_computer_use.Base.{ap}
use hyprland_computer_use.Broker.State.{SharePicker}

abbrev pub bit : Bool → ℕ
bit true = 1
bit false = 0

-- How often a loop of `revokeLocked` advances the epoch.
unfoldable pub revoked_epochs : ℕ → (Grant → Bool) → Dict String Grant → Broker → ℕ
revoked_epochs now p [] b = 0
revoked_epochs now p ((id, g) ∷ d) b =
    let b' = if p g then revoke_locked now id b else b in
    bit (p g && is_some (lookup id b.grants)) + revoked_epochs now p d b'

-- How often a section advances the epoch.
unfoldable pub epochs : ℕ → Section → Broker → ℕ
unfolding revoked_epochs
epochs now (revokes id) b = bit (is_some (lookup id b.grants))
epochs now clears b = 1
epochs now (disconnects client) b =
    revoked_epochs now (of_client client) b.grants b + bit (picked_by client b.picker)
epochs now expires b =
    let u = unpick_expired now b in
    bit (picker_expired now b.picker) + revoked_epochs now (is_expired now) u.grants u
epochs now disconnects_ui b = bit (eqb (b.ui_count - 1) 0)
epochs now (pauses paused) b = 1
epochs now (sets_mode mode) b = 1
epochs now s b = 0

unfoldable pub total_epochs : List (ℕ × Section) → System → ℕ
total_epochs [] y = 0
total_epochs ((now, s) ∷ t) y = epochs now s y.broker + total_epochs t (step now s y)

-- The second state is so many epochs ahead.
abbrev pub IsAhead : ℕ → Broker → Broker → Type 0
IsAhead n b b' = b'.authority ≡ (b.authority + n) % 2 ^ 64

abbrev pub IsWord : Broker → Type 0
IsWord b = b.authority < 2 ^ 64

note_revoked-authority :
    (now : ℕ) (d : Dict String Grant) (b : Broker) → (note_revoked now d b).authority ≡ b.authority
unfolding note_revoked note
note_revoked-authority now [] b = refl
note_revoked-authority now ((id, g) ∷ d) b =
    note_revoked-authority now d (note now "revoked" g.label b)

pub clear_locked-IsAhead : (now : ℕ) (b : Broker) → IsAhead 1 b (clear_locked now b)
unfolding clear_locked increment
clear_locked-IsAhead now b = refl

pub revoke_locked-IsAhead :
    (now : ℕ) (id : String) (b : Broker)
    → IsWord b
    → IsAhead (bit (is_some (lookup id b.grants))) b (revoke_locked now id b)
unfolding revoke_locked increment note
revoke_locked-IsAhead now id b h = ground arith

pub ahead-IsWord : (n : ℕ) (b b' : Broker) → IsAhead n b b' → IsWord b'
ahead-IsWord n b b' h = omega arith

revoke_if-IsAhead :
    (now : ℕ) (hit : Bool) (id : String) (b : Broker)
    → IsWord b
    → IsAhead
        (bit (hit && is_some (lookup id b.grants)))
        b
        (if hit then revoke_locked now id b else b)
revoke_if-IsAhead now true id b h = revoke_locked-IsAhead now id b h
revoke_if-IsAhead now false id b h = omega arith

revoke_where-IsAhead :
    (now : ℕ) (p : Grant → Bool) (d : Dict String Grant) (b : Broker)
    → IsWord b
    → IsAhead (revoked_epochs now p d b) b (revoke_where now p d b)
unfolding revoked_epochs revoke_where
revoke_where-IsAhead now p [] b h = omega arith
revoke_where-IsAhead now p ((id, g) ∷ d) b h =
    let b' = if p g then revoke_locked now id b else b in
    let a = revoke_if-IsAhead now (p g) id b h in
    omega (arith, a, revoke_where-IsAhead now p d b' (ahead-IsWord _ b b' a))

drop_client-IsAhead :
    (now : ℕ) (client : String) (b : Broker)
    → IsWord b
    → IsAhead (bit (picked_by client b.picker)) b (drop_client now client b)
unfolding drop_client increment note
drop_client-IsAhead now client b h = ground arith

unpick_expired-IsAhead :
    (now : ℕ) (b : Broker)
    → IsWord b
    → IsAhead (bit (picker_expired now b.picker)) b (unpick_expired now b)
unfolding unpick_expired increment
unpick_expired-IsAhead now b h = ground arith

revoke_where-picker :
    (now : ℕ) (p : Grant → Bool) (d : Dict String Grant) (b : Broker)
    → (revoke_where now p d b).picker ≡ b.picker
unfolding revoke_where revoke_locked note
revoke_where-picker now p [] b = refl
revoke_where-picker now p ((id, g) ∷ d) b =
    ground
      (arith, revoke_where-picker now p d b, revoke_where-picker now p d (revoke_locked now id b))

pub disconnect_locked-IsAhead :
    (now : ℕ) (client : String) (b : Broker)
    → IsWord b
    → IsAhead
        (revoked_epochs now (of_client client) b.grants b + bit (picked_by client b.picker))
        b
        (disconnect_locked now client b)
unfolding disconnect_locked
disconnect_locked-IsAhead now client b h =
    let b' = revoke_where now (of_client client) b.grants b in
    let a = revoke_where-IsAhead now (of_client client) b.grants b h in
    let e = drop_client-IsAhead now client b' (ahead-IsWord _ b b' a) in
    let f =
      ap (λ (q : Option SharePicker). bit (picked_by client q))
        (revoke_where-picker now (of_client client) b.grants b) in
    omega (arith, a, e, f)

pub expire_locked-IsAhead :
    (now : ℕ) (b : Broker) → IsWord b → IsAhead (epochs now expires b) b (expire_locked now b)
unfolding expire_locked epochs
expire_locked-IsAhead now b h =
    let u = unpick_expired now b in
    let a = unpick_expired-IsAhead now b h in
    omega (arith, a, revoke_where-IsAhead now (is_expired now) u.grants u (ahead-IsWord _ b u a))
