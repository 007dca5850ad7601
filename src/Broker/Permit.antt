-- ===== src/Broker/Permit.antt =====
-- internal/app/broker.go: `permit`. The random source and the clock are arguments: a fresh ID, or
-- none if the source fails, and one reading of the clock for the one critical section.
pub mod Laws
use hyprland_computer_use.Base.{
  ℕ, suc, String, ◌<>◌, len, slice, Bool, ◌&&◌, ◌||◌, Option, none, some, ltb, leb, eqb,
}
use hyprland_computer_use.Base.{if◌then◌else◌, ◌==◌, string_eq, length}
use hyprland_computer_use.Base.Dict.{find_value, insert}
use hyprland_computer_use.Base.Text.{lower_contains}
use hyprland_computer_use.Broker.State.{
  Capability, observe, control, recording, launch, Kind, workspace, window, application, Scope,
  Window, Grant, Request, pending, Broker, increment, note,
}
use hyprland_computer_use.Broker.State.{capability_eq, kind_eq, scope_eq, state_eq}
use hyprland_computer_use.Broker.Scope.{
  Error, supervisor_unavailable, paused_by_user, revocation_unconfirmed, too_many_requests,
  random_failed, valid_scope, allowed,
}

-- `permit` returns an error, a grant (none in yolo mode), or the ID of a request.
pub data Permit : Type 0 where
  refused : Error → Permit
  permitted : Option Grant → Permit
  requested : String → Permit

abbrev pub capability_name : Capability → String
capability_name observe = "observe"
capability_name control = "control"
capability_name recording = "record"
capability_name launch = "launch"
capability_name (Capability.other c) = c

abbrev pub kind_name : Kind → String
kind_name workspace = "workspace"
kind_name window = "window"
kind_name application = "application"
kind_name (Kind.other k) = k

unfoldable pub is_terminal : Window → Bool
is_terminal w =
    lower_contains w.class "kitty"
    || lower_contains w.class "terminal"
    || w.class == "foot"
    || lower_contains w.class "alacritty"

abbrev window_label : Capability → Scope → Option Window → String
window_label c s none = capability_name c <> " " <> kind_name s.kind <> " " <> s.id
window_label c s (some w) = capability_name c <> " window: " <> w.title <> " (" <> w.class <> ")"

abbrev terminal_label : Option Window → String
terminal_label none = ""
terminal_label (some w) =
    if is_terminal w then " · WARNING: terminal control is shell authority" else ""

unfoldable pub request_label : Capability → Scope → Option Window → String
unfolding is_terminal
request_label c s w =
    let base =
      if s.kind == workspace
      then "See workspace " <> s.id <> " — including new windows"
      else window_label c s w in
    if c == control then base <> " · viewing + input; no recording" <> terminal_label w else base

-- `reason[:400]`, but that a character cut in two is left out whole.
abbrev pub cut_reason : String → String
cut_reason reason = if ltb 400 (len reason) then slice reason 0 400 else reason

-- The request that the loop over `b.requests` looks for.
unfoldable pub same_request : String → Capability → Scope → Request → Bool
same_request client c s r =
    r.client == client && (r.capability == c && (r.scope == s && r.state == pending))

unfoldable pub new_request :
    ℕ → String → String → Capability → Scope → Option Window → String → Broker → Request
unfolding request_label
new_request now id client c s w reason b = record {
  ref = b.next_ref;
  id = id;
  client = client;
  capability = c;
  scope = s;
  label = request_label c s w;
  reason = cut_reason reason;
  state = pending;
  created = now;
}

-- From `b.requests[id] = &Request{…}` on.
unfoldable pub add_request : ℕ → Request → Broker → Broker
unfolding note increment
add_request now r b = note now "requested" r.label (record b {
  requests = insert r.id r b.requests;
  open_count = increment b.open_count;
  next_ref = suc b.next_ref;
})

-- The search for an equal pending request, and a new one if there is none.
unfoldable pub ask :
    ℕ
    → Option String
    → String
    → Capability
    → Scope
    → Option Window
    → String
    → Broker
    → Permit × Broker
unfolding same_request new_request
ask now fresh client c s w reason b = elim (find_value (same_request client c s) b.requests) [
  | some r ↦ (requested r.id, b)
  | none ↦ if leb 100 (length b.requests) then (refused too_many_requests, b) else elim fresh [
    | none ↦ (refused random_failed, b)
    | some id ↦ (requested id, add_request now (new_request now id client c s w reason b) b)
  ]
]

unfoldable pub permit :
    ℕ
    → Option String
    → String
    → Capability
    → Scope
    → Option Window
    → String
    → Broker
    → Permit × Broker
unfolding ask valid_scope allowed
permit now fresh client c s w reason b = elim (valid_scope c s) [
  | some e ↦ (refused e, b)
  | none ↦
      if eqb b.ui_count 0
      then (refused supervisor_unavailable, b)
      else if b.paused
      then (refused paused_by_user, b)
      else if ltb 0 (length b.pending_revocations)
      then (refused revocation_unconfirmed, b)
      else elim (allowed now client c s w b) [
        | some g ↦ (permitted g, b)
        | none ↦ ask now fresh client c s w reason b
      ]
]
