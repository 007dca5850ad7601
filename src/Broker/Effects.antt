-- ===== src/Broker/Effects.antt =====
-- What the operations that take authority away (internal/app/broker.go) leave of it, as seen
-- through `allowed`.
use hyprland_computer_use.Base.{
  ℕ, ◌≡◌, refl, String, Option, Bool, arith, [], ◌∷◌, string_eq, if◌then◌else◌,
}
use hyprland_computer_use.Base.Dict.{Dict, erase, find_value}
use hyprland_computer_use.Base.Dict.Erase.{erase_absent, erase_where}
use hyprland_computer_use.Broker.Access.{live}
use hyprland_computer_use.Broker.Revoke.{revoke_locked, revoke_where}
use hyprland_computer_use.Broker.Scope.{allowed}
use hyprland_computer_use.Broker.State.{Capability, Scope, Window, Grant, Broker, note}
use hyprland_computer_use.Base.{◌≢◌, ◌∙◌, ap, none, true, false, not}
use hyprland_computer_use.Base.{◌↔◌, some}
use hyprland_computer_use.Base.Dict.{NodupKeys, retain, lookup, lookup-retain, keep_if}
use hyprland_computer_use.Base.Dict.Erase.{erase_where_self}
use hyprland_computer_use.Base.Dict.Values.{find_value-retain, find_value-retain-none}
use hyprland_computer_use.Broker.Revoke.{drop_client, of_client, disconnect_locked}
use hyprland_computer_use.Broker.Scope.{grant_matches}
use hyprland_computer_use.Broker.State.{approve}
use hyprland_computer_use.Base.{◌≤◌, ◌<◌, ◌==◌, ==_self, string_discrete}
use hyprland_computer_use.Broker.Revoke.{is_expired, expire_locked}
use hyprland_computer_use.Broker.Revoke.{unpick_expired}

-- The fields other than the grants that decide whether the broker answers.
pub record SameGate (b b' : Broker) : Type 0 where
  pub paused : b'.paused ≡ b.paused
  pub ui_count : b'.ui_count ≡ b.ui_count
  pub pending : b'.pending_revocations ≡ b.pending_revocations
  pub mode : b'.mode ≡ b.mode

-- Through an equal gate the grants decide.
allowed-gate :
    (now : ℕ) (client : String) (c : Capability) (s : Scope) (w : Option Window) (b b' : Broker)
    → SameGate b b'
    → find_value (live now client c s w) b'.grants ≡ find_value (live now client c s w) b.grants
    → allowed now client c s w b' ≡ allowed now client c s w b
unfolding allowed
allowed-gate now client c s w b b' g e = ground arith

revoke_locked-grants :
    (now : ℕ) (id : String) (b : Broker) → (revoke_locked now id b).grants ≡ erase id b.grants
unfolding revoke_locked note
revoke_locked-grants now id b = ground (arith, erase_absent id b.grants)

revoke_where-gate :
    (now : ℕ) (p : Grant → Bool) (d : Dict String Grant) (b : Broker)
    → SameGate b (revoke_where now p d b)
unfolding revoke_where revoke_locked note
revoke_where-gate now p [] b = record {
  paused = refl;
  ui_count = refl;
  pending = refl;
  mode = refl;
}
revoke_where-gate now p ((id, g) ∷ d) b =
    ground (arith, revoke_where-gate now p d b, revoke_where-gate now p d (revoke_locked now id b))

revoke_where-grants :
    (now : ℕ) (p : Grant → Bool) (d : Dict String Grant) (b : Broker)
    → (revoke_where now p d b).grants ≡ erase_where p d b.grants
unfolding revoke_where erase_where
revoke_where-grants now p [] b = refl
revoke_where-grants now p ((id, g) ∷ d) b = ground (
  arith,
  revoke_where-grants now p d b,
  revoke_where-grants now p d (revoke_locked now id b),
  revoke_locked-grants now id b,
)

drop_client-gate : (now : ℕ) (client : String) (b : Broker) → SameGate b (drop_client now client b)
unfolding drop_client note
drop_client-gate now client b = ground arith

drop_client-grants :
    (now : ℕ) (client : String) (b : Broker) → (drop_client now client b).grants ≡ b.grants
unfolding drop_client note
drop_client-grants now client b = ground arith

-- A disconnect keeps the grants of the other clients, in their order.
pub disconnect_locked-grants :
    (now : ℕ) (client : String) (b : Broker)
    → NodupKeys b.grants
    → (disconnect_locked now client b).grants ≡ retain (λ g. not (of_client client g)) b.grants
unfolding disconnect_locked
disconnect_locked-grants now client b u =
    drop_client-grants now client _
    ∙ revoke_where-grants now (of_client client) b.grants b
    ∙ erase_where_self (of_client client) b.grants u

pub disconnect_locked-gate :
    (now : ℕ) (client : String) (b : Broker) → SameGate b (disconnect_locked now client b)
unfolding disconnect_locked
disconnect_locked-gate now client b = ground (
  arith,
  drop_client-gate now client (revoke_where now (of_client client) b.grants b),
  revoke_where-gate now (of_client client) b.grants b,
)

others :
    (later : ℕ) (client other : String) (c : Capability) (s : Scope) (w : Option Window)
    → other ≢ client
    → (g : Grant) → live later other c s w g ≡ true
    → not (of_client client g) ≡ true
unfolding grant_matches
others later client other c s w ne g h = ground arith

self :
    (later : ℕ) (client : String) (c : Capability) (s : Scope) (w : Option Window) (g : Grant)
    → live later client c s w g ≡ true
    → not (of_client client g) ≡ false
unfolding grant_matches
self later client c s w g h = ground arith

-- A disconnect takes from every other client nothing: it is allowed what it was allowed before.
disconnect_locked-others :
    (now later : ℕ) (client other : String) (c : Capability) (s : Scope) (w : Option Window)
    (b : Broker)
    → NodupKeys b.grants
    → other ≢ client
    → allowed later other c s w (disconnect_locked now client b) ≡ allowed later other c s w b
disconnect_locked-others now later client other c s w b u ne =
    allowed-gate later other c s w b _ (disconnect_locked-gate now client b) (
      ap (find_value (live later other c s w)) (disconnect_locked-grants now client b u)
      ∙ find_value-retain (live later other c s w) _ b.grants (others later client other c s w ne))

-- And from the client everything: outside yolo mode it is allowed nothing.
disconnect_locked_self :
    (now later : ℕ) (client : String) (c : Capability) (s : Scope) (w : Option Window) (b : Broker)
    → NodupKeys b.grants
    → b.mode ≡ approve
    → allowed later client c s w (disconnect_locked now client b) ≡ none
unfolding allowed
disconnect_locked_self now later client c s w b u m =
    let g = disconnect_locked-gate now client b in
    let e = disconnect_locked-grants now client b u in
    let f =
      find_value-retain-none (live later client c s w) (λ g. not (of_client client g)) b.grants
        (self later client c s w) in
    ground (arith, e, f, g)

-- Where each grant stands once in its map: after a client's disconnect it is allowed nothing (in
-- approve mode; in yolo mode every client ID is trusted), and every other client is allowed
-- exactly what it was allowed before, at any time and for any action.
pub allowed-disconnect_locked :
    (now later : ℕ) (client who : String) (c : Capability) (s : Scope) (w : Option Window)
    (b : Broker)
    → NodupKeys b.grants
    → b.mode ≡ approve
    → allowed later who c s w (disconnect_locked now client b)
      ≡ (if who == client then none else allowed later who c s w b)
allowed-disconnect_locked now later client who c s w b u m = elim (string_discrete who client) [
  | yes e ↦ rw (e, ==_self client) (disconnect_locked_self now later client c s w b u m)
  | no ne ↦ ground (arith, disconnect_locked-others now later client who c s w b u ne)
]

unpick_expired-grants : (now : ℕ) (b : Broker) → (unpick_expired now b).grants ≡ b.grants
unfolding unpick_expired
unpick_expired-grants now b = ground arith

unpick_expired-gate : (now : ℕ) (b : Broker) → SameGate b (unpick_expired now b)
unfolding unpick_expired
unpick_expired-gate now b = ground arith

expire_locked-grants :
    (now : ℕ) (b : Broker)
    → NodupKeys b.grants
    → (expire_locked now b).grants ≡ retain (λ g. not (is_expired now g)) b.grants
unfolding expire_locked
expire_locked-grants now b u =
    let e = unpick_expired-grants now b in
    revoke_where-grants now (is_expired now) (unpick_expired now b).grants (unpick_expired now b)
    ∙ rw e (erase_where_self (is_expired now) b.grants u)

pub expire_locked-gate : (now : ℕ) (b : Broker) → SameGate b (expire_locked now b)
unfolding expire_locked
expire_locked-gate now b = ground (
  arith,
  unpick_expired-gate now b,
  revoke_where-gate now (is_expired now) (unpick_expired now b).grants (unpick_expired now b),
)

kept_live :
    (now : ℕ) (g : Grant) (o : Option Grant)
    → (keep_if (λ k. not (is_expired now k)) o ≡ some g) ↔ ((o ≡ some g) × (now < g.expires))
kept_live now g none = (λ h. cc, λ h. cc)
kept_live now g (some k) =
    (λ h. (ground (arith, h), ground (arith, h)), λ (e, l). ground (arith, e, l))

expire_locked-lookup :
    (now : ℕ) (id : String) (g : Grant) (b : Broker)
    → NodupKeys b.grants
    → (lookup id (expire_locked now b).grants ≡ some g)
      ↔ ((lookup id b.grants ≡ some g) × (now < g.expires))
expire_locked-lookup now id g b u =
    rw (expire_locked-grants now b u, lookup-retain (λ k. not (is_expired now k)) id b.grants u)
      (kept_live now g (lookup id b.grants))

-- Where each grant stands once in its map: the regular maintenance removes the grants that have
-- expired, all of them and no others. A grant is in the map afterwards exactly when it was in it
-- before, under the same ID, and has not expired; and at any later time each client is allowed
-- exactly what it would have been allowed without the maintenance.
pub allowed-expire_locked :
    (now later : ℕ) (id : String) (g : Grant) (who : String) (c : Capability) (s : Scope)
    (w : Option Window) (b : Broker)
    → NodupKeys b.grants
    → now ≤ later
    → ((lookup id (expire_locked now b).grants ≡ some g)
        ↔ ((lookup id b.grants ≡ some g) × (now < g.expires)))
      × (allowed later who c s w (expire_locked now b) ≡ allowed later who c s w b)
allowed-expire_locked now later id g who c s w b u h = (
  expire_locked-lookup now id g b u,
  allowed-gate later who c s w b _ (expire_locked-gate now b) (
      ap (find_value (live later who c s w)) (expire_locked-grants now b u)
      ∙ find_value-retain (live later who c s w) _ b.grants (λ g k. ground arith)),
)
