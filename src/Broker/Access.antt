-- ===== src/Broker/Access.antt =====
-- What `grantMatches` and `allowedLocked` (internal/app/broker.go) promise, stated without them.
use hyprland_computer_use.Base.Text.{sprint}
use hyprland_computer_use.Broker.Scope.{allowed, grant_matches, in_workspace}
use hyprland_computer_use.Broker.State.{
  workspace, window, Scope, Window, Grant, Broker, yolo, capability_eq, kind_eq, scope_eq, mode_eq,
  Broker,
}
use hyprland_computer_use.Base.{
  ℕ, ◌<◌, ◌≡◌, refl, ◌≢◌, ◌↔◌, ◌⊎◌, inl, inr, Option, none, some, String, arith, string_eq, true,
  false, Bool, Option-cases, ltb, length,
}
use hyprland_computer_use.Base.Dict.{find_value}
use hyprland_computer_use.Broker.State.{Capability, observe, control, recording}
use hyprland_computer_use.Base.{◌&&◌}
use hyprland_computer_use.Base.Dict.Values.{HasValue, find_value-HasValue, find_value-eq-none}
use hyprland_computer_use.Base.{◌≤◌}
use hyprland_computer_use.Base.Dict.Values.{find_value_mono}

-- The window lies in the workspace of that ID.
abbrev IsIn : Option Window → String → Type 0
IsIn w id = (v : Window) × (w ≡ some v) × (sprint v.workspace ≡ id)

-- The rights that a grant gives: its own on its scope, the view of what it may control or record,
-- and, for a grant on a workspace, the view of the windows in it.
pub record Covers (g : Grant) (client : String) (c : Capability) (s : Scope) (w : Option Window)
    : Type 0 where
  pub same_client : g.client ≡ client
  pub capable :
      (g.capability ≡ c) ⊎ ((c ≡ observe) × ((g.capability ≡ control) ⊎ (g.capability ≡ recording)))
  pub in_scope :
      (g.scope ≡ s)
      ⊎ ((c ≡ observe) × (s.kind ≡ window) × (g.scope.kind ≡ workspace) × IsIn w g.scope.id)

in_workspace-IsIn : (w : Option Window) (id : String) → in_workspace w id ≡ true → IsIn w id
in_workspace-IsIn none id h = cc
in_workspace-IsIn (some v) id h = (v, refl, ground arith)

IsIn-in_workspace : (w : Option Window) (id : String) → IsIn w id → in_workspace w id ≡ true
IsIn-in_workspace w id (v, e, h) = ground arith

-- `grantMatches` answers true exactly for the requests that the grant covers.
pub grant_matches-Covers :
    (g : Grant) (client : String) (c : Capability) (s : Scope) (w : Option Window)
    → (grant_matches g client c s w ≡ true) ↔ Covers g client c s w
unfolding grant_matches
grant_matches-Covers g client c s w = (
  λ h. record {
    same_client = ground arith;
    capable = ground arith;
    in_scope = ground (arith, in_workspace-IsIn w g.scope.id);
  },
  λ v. ground (arith, IsIn-in_workspace w g.scope.id),
)

-- The broker answers clients: a console is connected, nothing is paused, and the compositor has
-- confirmed every revocation.
pub record IsOpen (b : Broker) : Type 0 where
  pub resumed : b.paused ≡ false
  pub attended : b.ui_count ≢ 0
  pub confirmed : length b.pending_revocations ≡ 0

-- A live grant of the broker that covers the request.
abbrev pub HasGrant : ℕ → String → Capability → Scope → Option Window → Broker → Type 0
HasGrant now client c s w b =
    (g : Grant) × HasValue g b.grants × (now < g.expires) × Covers g client c s w

abbrev pub live : ℕ → String → Capability → Scope → Option Window → Grant → Bool
live now client c s w g = ltb now g.expires && grant_matches g client c s w

-- Time gives no right: what a client is not allowed to do in a state, it is not allowed to do
-- later in the same state.
pub allowed-later :
    (now later : ℕ) (client : String) (c : Capability) (s : Scope) (w : Option Window) (b : Broker)
    → now ≤ later
    → allowed now client c s w b ≡ none
    → allowed later client c s w b ≡ none
unfolding allowed
allowed-later now later client c s w b h e = ground (
  arith,
  find_value_mono (live now client c s w) (live later client c s w) b.grants (λ g t. ground arith),
)

allowed_sound :
    (now : ℕ) (client : String) (c : Capability) (s : Scope) (w : Option Window) (b : Broker)
    → allowed now client c s w b ≢ none
    → IsOpen b × ((b.mode ≡ yolo) ⊎ HasGrant now client c s w b)
unfolding allowed
allowed_sound now client c s w b h =
    elim (Option-cases (find_value (live now client c s w) b.grants)) [
      | inl missing ↦ (ground arith, inl (ground arith))
      | inr (g, e) ↦
          let (held, fits) = find_value-HasValue (live now client c s w) b.grants g e in
          (
            ground arith,
            inr (g, held, ground arith, (grant_matches-Covers g client c s w).0 (ground arith)),
          )
    ]

allowed_complete :
    (now : ℕ) (client : String) (c : Capability) (s : Scope) (w : Option Window) (b : Broker)
    → IsOpen b × ((b.mode ≡ yolo) ⊎ HasGrant now client c s w b)
    → allowed now client c s w b ≢ none
unfolding allowed
allowed_complete now client c s w b (o, inl y) = ground arith
allowed_complete now client c s w b (o, inr (g, m, l, v)) = ground (
  arith,
  find_value-eq-none (live now client c s w) b.grants g,
  (grant_matches-Covers g client c s w).1 v,
)

-- The broker allows an action exactly if it is open, and either trusts every client (yolo mode)
-- or holds a live grant that covers the action.
pub allowed-HasGrant :
    (now : ℕ) (client : String) (c : Capability) (s : Scope) (w : Option Window) (b : Broker)
    → (allowed now client c s w b ≢ none)
      ↔ (IsOpen b × ((b.mode ≡ yolo) ⊎ HasGrant now client c s w b))
allowed-HasGrant now client c s w b =
    (allowed_sound now client c s w b, allowed_complete now client c s w b)
