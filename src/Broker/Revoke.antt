-- ===== src/Broker/Revoke.antt =====
-- internal/app/broker.go: `revokeLocked`, `revoke`, `clearLocked`, `clear`, `disconnect` and the
-- body of the loop of `maintenance`. What other goroutines do to the state between two critical
-- sections of one operation is the argument `between`.
use hyprland_computer_use.Base.{
  ℕ, ◌+◌, ◌*◌, String, Bool, true, false, ◌&&◌, ◌||◌, Option, none, some, List, [], ◌∷◌, leb,
}
use hyprland_computer_use.Base.{if◌then◌else◌, ◌==◌, string_eq}
use hyprland_computer_use.Base.Dict.{Dict, lookup, erase, retain, map_values}
use hyprland_computer_use.Broker.State.{
  control, GuardOp, Grant, Request, pending, cancelled, Recording, SharePicker, Broker, note,
  increment, second,
}
use hyprland_computer_use.Broker.State.{capability_eq, state_eq}
use hyprland_computer_use.Broker.Cleanup.{Reply, cleanup_guard, clear_backend, retry_revocations}

unfoldable pub revoke_locked : ℕ → String → Broker → Broker
unfolding note increment
revoke_locked now id b = elim (lookup id b.grants) [
  | none ↦ b
  | some g ↦
      note now "revoked" g.label
        (record b { grants = erase id b.grants; authority = increment b.authority })
]

abbrev pub holds_control : Option Grant → Bool
holds_control none = false
holds_control (some g) = g.capability == control

unfoldable pub revoke : ℕ → String → (Broker → Broker) → ℕ → Reply → Broker → Broker
unfolding revoke_locked cleanup_guard
revoke now id between now' reply b =
    let b' = between (revoke_locked now id b) in
    if holds_control (lookup id b.grants) && b.has_backend
    then cleanup_guard now' (GuardOp.revoke id) reply b'
    else b'

-- One "revoked" entry for each grant.
unfoldable pub note_revoked : ℕ → Dict String Grant → Broker → Broker
unfolding note
note_revoked now [] b = b
note_revoked now ((id, g) ∷ d) b = note_revoked now d (note now "revoked" g.label b)

abbrev pub cancel_request : Request → Request
cancel_request r = if r.state == pending then record r { state = cancelled } else r

abbrev pub cancel_recording : Recording → Recording
cancel_recording r = record r { cancelled = true }

unfoldable pub clear_locked : ℕ → Broker → Broker
unfolding note_revoked increment
clear_locked now b =
    let b' = note_revoked now b.grants b in
    record b' {
      picker = none;
      grants = [];
      authority = increment b.authority;
      requests = map_values cancel_request b.requests;
      recordings = map_values cancel_recording b.recordings;
    }

unfoldable pub clear : ℕ → (Broker → Broker) → ℕ → Reply → Broker → Broker
unfolding clear_locked clear_backend
clear now between now' reply b = clear_backend now' reply (between (clear_locked now b))

-- A loop over a snapshot of the grants that revokes those that pass the test.
unfoldable pub revoke_where : ℕ → (Grant → Bool) → Dict String Grant → Broker → Broker
unfolding revoke_locked
revoke_where now p [] b = b
revoke_where now p ((id, g) ∷ d) b =
    revoke_where now p d (if p g then revoke_locked now id b else b)

abbrev pub of_client : String → Grant → Bool
of_client client g = g.client == client

abbrev pub cancel_for : String → Request → Request
cancel_for client r = if r.client == client then cancel_request r else r

abbrev pub cancel_recording_for : String → Recording → Recording
cancel_recording_for client r = if r.client == client then cancel_recording r else r

abbrev pub picked_by : String → Option SharePicker → Bool
picked_by client none = false
picked_by client (some p) = p.client == client

-- The last lines of the critical section of `disconnect`.
unfoldable pub drop_client : ℕ → String → Broker → Broker
unfolding note increment
drop_client now client b =
    let cancelled = record b {
      requests = map_values (cancel_for client) b.requests;
      recordings = map_values (cancel_recording_for client) b.recordings;
      clients = erase client b.clients;
    } in
    let unpicked =
      if picked_by client b.picker
      then record cancelled { picker = none; authority = increment b.authority }
      else cancelled in
    note now "client_disconnected" client unpicked

-- The critical section of `disconnect`.
unfoldable pub disconnect_locked : ℕ → String → Broker → Broker
unfolding revoke_where drop_client
disconnect_locked now client b =
    drop_client now client (revoke_where now (of_client client) b.grants b)

unfoldable pub control_tokens : String → Dict String Grant → List String
control_tokens client [] = []
control_tokens client ((id, g) ∷ d) =
    let rest = control_tokens client d in
    if g.client == client && g.capability == control then id ∷ rest else rest

unfoldable pub revoke_tokens : ℕ → (GuardOp → Reply) → List String → Broker → Broker
unfolding cleanup_guard
revoke_tokens now reply [] b = b
revoke_tokens now reply (t ∷ ts) b =
    revoke_tokens now reply ts (cleanup_guard now (GuardOp.revoke t) (reply (GuardOp.revoke t)) b)

unfoldable pub disconnect : ℕ → String → (Broker → Broker) → ℕ → (GuardOp → Reply) → Broker → Broker
unfolding disconnect_locked control_tokens revoke_tokens
disconnect now client between now' reply b =
    let b' = between (disconnect_locked now client b) in
    if b.has_backend then revoke_tokens now' reply (control_tokens client b.grants) b' else b'

abbrev pub is_expired : ℕ → Grant → Bool
is_expired now g = leb g.expires now

abbrev pub is_recent : ℕ → Request → Bool
is_recent now r = leb now (r.created + 300 * second)

abbrev pub picker_expired : ℕ → Option SharePicker → Bool
picker_expired now none = false
picker_expired now (some p) = leb p.expires now

unfoldable pub unpick_expired : ℕ → Broker → Broker
unfolding increment
unpick_expired now b =
    if picker_expired now b.picker
    then record b { picker = none; authority = increment b.authority }
    else b

-- The critical section of `maintenance`.
unfoldable pub expire_locked : ℕ → Broker → Broker
unfolding revoke_where unpick_expired
expire_locked now b =
    let unpicked = unpick_expired now b in
    let revoked = revoke_where now (is_expired now) unpicked.grants unpicked in
    record revoked { requests = retain (is_recent now) revoked.requests }

unfoldable pub any_control_expired : ℕ → Dict String Grant → Bool
any_control_expired now [] = false
any_control_expired now ((id, g) ∷ d) =
    is_expired now g && g.capability == control || any_control_expired now d

-- One tick of `maintenance`.
unfoldable pub maintain : ℕ → (Broker → Broker) → ℕ → (GuardOp → Reply) → Broker → Broker
unfolding expire_locked retry_revocations any_control_expired clear_backend
maintain now between now' reply b =
    let b' = retry_revocations now' reply (between (expire_locked now b)) in
    if any_control_expired now b.grants then clear_backend now' (reply GuardOp.clear) b' else b'
