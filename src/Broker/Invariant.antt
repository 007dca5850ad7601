-- ===== src/Broker/Invariant.antt =====
-- What every interleaving of the broker's critical sections keeps true (internal/app/broker.go and
-- sharing.go). The children prove it for the sections of each operation.
pub mod Requests
pub mod Revocation
pub mod Supervision
pub mod Approval
pub mod Sharing
pub mod Runs
use hyprland_computer_use.Base.{
  ℕ, ◌≤◌, ◌<◌, ◌-◌, ◌≡◌, ◌⊎◌, inl, refl, String, Option, none, some, Bool, arith, false, List, [],
  ◌∷◌, ◌++◌, length, length-drop, string_eq,
}
use hyprland_computer_use.Base.Dict.{NodupKeys}
use hyprland_computer_use.Base.Dict.Values.{AllValues}
use hyprland_computer_use.Broker.Scope.{valid_scope}
use hyprland_computer_use.Broker.State.{
  Capability, observe, control, recording, launch, workspace, window, application, Kind, Scope,
  Request, Grant, Audit, SharePicker, Broker, note, new_broker, last_100, capability_eq, kind_eq,
}

-- The kinds of scope that `validScope` admits for a capability.
abbrev pub Suits : Capability → Kind → Type 0
Suits observe k = (k ≡ workspace) ⊎ (k ≡ window)
Suits control k = k ≡ window
Suits recording k = k ≡ window
Suits launch k = k ≡ application
Suits (Capability.other c) k = ⊥

abbrev pub SuitsGrant : Grant → Type 0
SuitsGrant g = Suits g.capability g.scope.kind

abbrev pub SuitsRequest : Request → Type 0
SuitsRequest r = Suits r.capability r.scope.kind

-- What a picker may share.
abbrev pub IsShared : Capability → Type 0
IsShared c = (c ≡ observe) ⊎ (c ≡ control)

abbrev pub SuitsPicker : Option SharePicker → Type 0
SuitsPicker none = Unit {0}
SuitsPicker (some p) = IsShared p.capability

-- A console is connected and the broker is not paused.
abbrev pub IsSupervised : Broker → Type 0
IsSupervised b = (b.paused ≡ false) × (0 < b.ui_count)

pub record Inv (b : Broker) : Type 0 where
  -- There are grants only under supervision, and a window picker too.
  pub supervised : (b.grants ≡ []) ⊎ IsSupervised b
  pub picking : (b.picker ≡ none) ⊎ IsSupervised b
  -- The queues are bounded.
  pub few_requests : length b.requests ≤ 100
  pub short_audit : length b.audit ≤ 100
  -- The maps hold one entry for a key.
  pub grant_keys : NodupKeys b.grants
  pub request_keys : NodupKeys b.requests
  -- Control and recording are always of one window; no other capability has a scope of no kind.
  pub grants_suit : AllValues SuitsGrant b.grants
  pub requests_suit : AllValues SuitsRequest b.requests
  pub picker_suits : SuitsPicker b.picker

-- `validScope` admits only what suits.
pub valid_scope-Suits : (c : Capability) (s : Scope) → valid_scope c s ≡ none → Suits c s.kind
unfolding valid_scope
valid_scope-Suits observe s h = ground arith
valid_scope-Suits control s h = ground arith
valid_scope-Suits recording s h = ground arith
valid_scope-Suits launch s h = ground arith
valid_scope-Suits (Capability.other c) s h = ground arith

length-last_100 : (l : List Audit) → length (last_100 l) ≤ 100
length-last_100 l = omega (arith, length-drop (length l - 100) l)

pub note-audit :
    (now : ℕ) (event detail : String) (b : Broker) → length (note now event detail b).audit ≤ 100
unfolding note
note-audit now event detail b =
    length-last_100 (b.audit ++ (record { time = now; event = event; detail = detail } ∷ []))

pub note-Inv :
    (now : ℕ) (event detail : String) (b : Broker) → Inv b → Inv (note now event detail b)
unfolding note
note-Inv now event detail b v = record {
  supervised = v.supervised;
  picking = v.picking;
  few_requests = v.few_requests;
  short_audit = note-audit now event detail b;
  grant_keys = v.grant_keys;
  request_keys = v.request_keys;
  grants_suit = v.grants_suit;
  requests_suit = v.requests_suit;
  picker_suits = v.picker_suits;
}

pub new_broker-Inv : (has_backend : Bool) → Inv (new_broker has_backend)
unfolding new_broker
new_broker-Inv has_backend = record {
  supervised = inl refl;
  picking = inl refl;
  few_requests = omega arith;
  short_audit = omega arith;
  grant_keys = tt;
  request_keys = tt;
  grants_suit = tt;
  requests_suit = tt;
  picker_suits = tt;
}
