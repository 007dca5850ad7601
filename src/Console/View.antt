-- ===== src/Console/View.antt =====
-- What the console is shown: `state` in internal/app/oauth.go and in internal/app/broker.go. The
-- sorting of Go leaves the order of equal elements open; here it is that of a stable sort.
use hyprland_computer_use.Base.{
  ℕ, ◌-◌, ◌/◌, ltb, length, String, Bool, true, false, not, ◌&&◌, ◌||◌, Option, none, some, List,
  [], ◌∷◌, contains, ◌==◌, string_eq, if◌then◌else◌,
}
use hyprland_computer_use.Base.Dict.{Dict, insert}
use hyprland_computer_use.Broker.State.{
  second, Broker, Grant, Request, SharePicker, Recording, Audit, Mode, pending, control, yolo,
  capability_eq, state_eq, mode_eq,
}
use hyprland_computer_use.Oauth.State.{
  OauthPending, OauthConnection, OauthProvider, undecided, decision_eq, cleanup,
}

pub record PendingView : Type 0 where
  pub id : String
  pub client_id : String
  pub name : String
  pub redirect : String
  pub expires : ℕ

module _ {A : Type 0} (key : A → ℕ) where
  unfoldable pub insert_by : A → List A → List A
  insert_by x [] = x ∷ []
  insert_by x (y ∷ ys) =
      let rest = insert_by x ys in if ltb (key y) (key x) then y ∷ rest else x ∷ y ∷ ys

  unfoldable pub sort_by : List A → List A
  unfolding insert_by
  sort_by [] = []
  sort_by (x ∷ xs) = insert_by x (sort_by xs)

-- The authorizations that wait for the user, without their secrets.
unfoldable pub waiting : Dict String OauthPending → List PendingView
waiting [] = []
waiting ((k, v) ∷ d) =
    let rest = waiting d in
    if v.decision == undecided
    then record {
      id = v.id;
      client_id = v.client_id;
      name = v.name;
      redirect = v.redirect;
      expires = v.expires;
    }
      ∷ rest
    else rest

-- Each connection of the tokens once.
unfoldable pub connections : List String → Dict String OauthConnection → List OauthConnection
connections seen [] = []
connections seen ((k, v) ∷ d) = elim (contains seen v.id) [
  | true ↦ connections seen d
  | false ↦ v ∷ connections (v.id ∷ seen) d
]

-- `OAuthProvider.state`: the provider is cleaned up by it.
unfoldable pub provider_view :
    ℕ → OauthProvider → (List PendingView × List OauthConnection) × OauthProvider
unfolding cleanup waiting connections sort_by
provider_view now p =
    let p' = cleanup now p in
    (
      (
        sort_by (λ v. v.expires) (waiting p'.pending),
        sort_by (λ v. v.expires) (connections [] p'.tokens),
      ),
      p',
    )

pub record GrantView : Type 0 where
  pub grant : Grant
  pub remaining : ℕ

unfoldable pub waiting_requests : Dict String Request → List Request
waiting_requests [] = []
waiting_requests ((k, r) ∷ d) =
    let rest = waiting_requests d in if r.state == pending then r ∷ rest else rest

unfoldable pub grant_views : ℕ → Dict String Grant → List GrantView
grant_views now [] = []
grant_views now ((k, g) ∷ d) =
    record { grant = g; remaining = (g.expires - now) / second } ∷ grant_views now d

abbrev pub shown_picker : ℕ → Option SharePicker → Option SharePicker
shown_picker now none = none
shown_picker now (some p) = if ltb now p.expires then some p else none

abbrev pub recording_list : Dict String Recording → List Recording
recording_list [] = []
recording_list ((k, r) ∷ d) = r ∷ recording_list d

-- `UIState`, but for what is presentation only, the provider's part and the marked windows.
pub record BrokerView : Type 0 where
  pub revocation_unconfirmed : Bool
  pub clients : Dict String String
  pub picker : Option SharePicker
  pub mode : Mode
  pub paused : Bool
  pub connected : Bool
  pub requests : List Request
  pub grants : List GrantView
  pub audit : List Audit
  pub recordings : List Recording
  pub open_count : ℕ

-- The critical section of `Broker.state`, and the sorting. The clients are not sorted here.
unfoldable pub broker_view : ℕ → Broker → BrokerView
unfolding waiting_requests grant_views sort_by
broker_view now b = record {
  revocation_unconfirmed = ltb 0 (length b.pending_revocations);
  clients = b.clients;
  picker = shown_picker now b.picker;
  mode = b.mode;
  paused = b.paused;
  connected = ltb 0 b.ui_count;
  requests = sort_by (λ r. r.created) (waiting_requests b.requests);
  grants = sort_by (λ v. v.grant.expires) (grant_views now b.grants);
  audit = b.audit;
  recordings = recording_list b.recordings;
  open_count = b.open_count;
}

-- How a window is marked: with the seconds that its control lasts, or as the last that had input in
-- yolo mode.
pub data Marker : Type 0 where
  control_granted : ℕ → Marker
  yolo_control : Marker

unfoldable pub mark_grants : List GrantView → Dict String Marker → Dict String Marker
mark_grants [] d = d
mark_grants (v ∷ vs) d = mark_grants vs (
    if v.grant.capability == control && ltb 0 v.remaining
    then insert v.grant.scope.id (control_granted v.remaining) d
    else d)

-- The windows that are marked.
unfoldable pub wanted_markers : ℕ → Broker → BrokerView → Dict String Marker
unfolding mark_grants
wanted_markers now b v =
    let granted = mark_grants v.grants [] in
    if v.paused || not v.connected
    then []
    else if v.mode == yolo && ltb now b.last_input_until
    then insert b.last_input_window yolo_control granted
    else granted
