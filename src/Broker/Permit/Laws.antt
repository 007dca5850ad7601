-- ===== src/Broker/Permit/Laws.antt =====
-- `permit` (internal/app/broker.go): what a client's request can change, and what it cannot.
use hyprland_computer_use.Base.{ℕ, ◌≤◌, ◌≡◌, ◌↔◌, String, Option, none, some, arith}
use hyprland_computer_use.Base.Dict.{find_value}
use hyprland_computer_use.Base.Dict.Values.{find_value-insert}
use hyprland_computer_use.Broker.Access.{allowed-later}
use hyprland_computer_use.Broker.Permit.{permit, same_request, permitted, requested, add_request}
use hyprland_computer_use.Broker.Scope.{valid_scope, allowed}
use hyprland_computer_use.Broker.State.{Capability, Scope, Window, Grant, Broker}
use hyprland_computer_use.Broker.Permit.{ask}
use hyprland_computer_use.Broker.Permit.{new_request}
use hyprland_computer_use.Base.{string_eq}

-- Asking changes nothing that decides what anyone may do: whatever `permit` returns, every client
-- is allowed after it exactly what it was allowed before it.
pub allowed-permit :
    (now : ℕ) (fresh : Option String) (client : String) (c : Capability) (s : Scope)
    (w : Option Window) (reason : String) (b : Broker) (later : ℕ) (who : String) (c' : Capability)
    (s' : Scope) (w' : Option Window)
    → allowed later who c' s' w' (permit now fresh client c s w reason b).1
      ≡ allowed later who c' s' w' b
unfolding permit allowed add_request
allowed-permit now fresh client c s w reason b later who c' s' w' = ground arith

-- A client is told that it may act exactly if its scope is valid and it is allowed to act.
pub permit-permitted :
    (now : ℕ) (fresh : Option String) (client : String) (c : Capability) (s : Scope)
    (w : Option Window) (reason : String) (b : Broker) (g : Option Grant)
    → ((permit now fresh client c s w reason b).0 ≡ permitted g)
      ↔ ((valid_scope c s ≡ none) × (allowed now client c s w b ≡ some g))
unfolding permit allowed
permit-permitted now fresh client c s w reason b g = (λ h. ground arith, λ h. ground arith)

-- The search finds the request that was just added.
find-new_request :
    (now : ℕ) (k client : String) (c : Capability) (s : Scope) (w : Option Window) (reason : String)
    (b : Broker)
    → find_value (same_request client c s) b.requests ≡ none
    → let r = new_request now k client c s w reason b in
      find_value (same_request client c s) (add_request now r b).requests ≡ some r
unfolding add_request new_request
find-new_request now k client c s w reason b e =
    let r = new_request now k client c s w reason b in
    find_value-insert (same_request client c s) k r b.requests e
      (unfold same_request new_request in (ground arith))

ask-again :
    (now later : ℕ) (fresh fresh' : Option String) (client : String) (c : Capability) (s : Scope)
    (w : Option Window) (reason reason' : String) (b : Broker) (id : String)
    → (ask now fresh client c s w reason b).0 ≡ requested id
    → let b' = (ask now fresh client c s w reason b).1 in
      ask later fresh' client c s w reason' b' ≡ (requested id, b')
unfolding ask
ask-again now later none fresh' client c s w reason reason' b id e = ground arith
ask-again now later (some k) fresh' client c s w reason reason' b id e =
    ground (arith, find-new_request now k client c s w reason b)

-- A request that was answered with an ID is answered with the same ID when it is repeated later,
-- and the repetition changes nothing.
pub permit-again :
    (now later : ℕ) (fresh fresh' : Option String) (client : String) (c : Capability) (s : Scope)
    (w : Option Window) (reason reason' : String) (b : Broker) (id : String)
    → now ≤ later
    → (permit now fresh client c s w reason b).0 ≡ requested id
    → let b' = (permit now fresh client c s w reason b).1 in
      permit later fresh' client c s w reason' b' ≡ (requested id, b')
unfolding permit add_request
permit-again now later fresh fresh' client c s w reason reason' b id h e = ground (
  arith,
  allowed-permit now fresh client c s w reason b later client c s w,
  allowed-later now later client c s w b h,
  ask-again now later fresh fresh' client c s w reason reason' b id,
)
