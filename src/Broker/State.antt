-- ===== src/Broker/State.antt =====
-- The data of internal/app/broker.go, sharing.go and desktop.go that the broker keeps.
-- Times are nanoseconds on the broker's clock. A Go pointer that the code compares by identity
-- (`*Request`, `*SharePicker`) is given by the number `ref` of its allocation.
use hyprland_computer_use.Base.{ℕ, ◌+◌, ◌-◌, ◌%◌, ◌^◌, String, Bool, false, Option, none}
use hyprland_computer_use.Base.{List, [], ◌∷◌, ◌++◌, length, drop, Eq, string_discrete}
use hyprland_computer_use.Base.Dict.{Dict}
use hyprland_computer_use.Base.Int.{ℤ}

-- The string of a capability; `recording` is "record", and `other` is any other string.
pub data Capability : Type 0 where
  observe control recording launch : Capability
  other : String → Capability

pub data Kind : Type 0 where
  workspace window application : Kind
  other : String → Kind

pub record Scope : Type 0 where
  pub kind : Kind
  pub id : String

unfoldable pub capability_discrete : Discrete Capability
unfolding string_discrete
capability_discrete = hlevel string_discrete

unfoldable pub kind_discrete : Discrete Kind
unfolding string_discrete
kind_discrete = hlevel string_discrete

unfoldable pub scope_discrete : Discrete Scope
unfolding kind_discrete
scope_discrete = hlevel (kind_discrete, string_discrete)

instance unfoldable pub capability_eq : Eq Capability
unfolding capability_discrete
capability_eq = record { dec = capability_discrete }

instance unfoldable pub kind_eq : Eq Kind
unfolding kind_discrete
kind_eq = record { dec = kind_discrete }

instance unfoldable pub scope_eq : Eq Scope
unfolding scope_discrete
scope_eq = record { dec = scope_discrete }

pub record Window : Type 0 where
  pub focus_history : ℤ
  pub id : String
  pub title : String
  pub class : String
  pub size : ℤ × ℤ
  pub workspace : ℤ
  pub hidden : Bool
  pub visible : Bool
  pub xwayland : Bool
  pub revision : String

pub record Grant : Type 0 where
  pub id : String
  pub client : String
  pub capability : Capability
  pub scope : Scope
  pub label : String
  pub expires : ℕ

pub data RequestState : Type 0 where
  pending denied granted cancelled : RequestState

pub record Request : Type 0 where
  pub ref : ℕ
  pub id : String
  pub client : String
  pub capability : Capability
  pub scope : Scope
  pub label : String
  pub reason : String
  pub state : RequestState
  pub created : ℕ

pub record Audit : Type 0 where
  pub time : ℕ
  pub event : String
  pub detail : String

pub record SharePicker : Type 0 where
  pub ref : ℕ
  pub id : String
  pub client : String
  pub capability : Capability
  pub seconds : ℕ
  pub expires : ℕ
  pub windows : List Window

pub record Recording : Type 0 where
  pub id : String
  pub client : String
  pub window : String
  pub active : Bool
  pub cancelled : Bool

pub data Mode : Type 0 where
  approve yolo : Mode

unfoldable pub mode_discrete : Discrete Mode
mode_discrete = hlevel

instance unfoldable pub mode_eq : Eq Mode
unfolding mode_discrete
mode_eq = record { dec = mode_discrete }

unfoldable pub state_discrete : Discrete RequestState
state_discrete = hlevel

instance unfoldable pub state_eq : Eq RequestState
unfolding state_discrete
state_eq = record { dec = state_discrete }

-- The cleanup requests that are sent to the compositor guard.
pub data GuardOp : Type 0 where
  revoke : String → GuardOp
  clear : GuardOp

pub record Broker : Type 0 where
  pub pending_revocations : Dict String GuardOp
  pub next_revocation_retry : ℕ
  pub picker : Option SharePicker
  pub authority : ℕ
  pub last_input_window : String
  pub last_input_until : ℕ
  pub mode : Mode
  pub paused : Bool
  pub ui_count : ℕ
  pub open_count : ℕ
  pub clients : Dict String String
  pub requests : Dict String Request
  pub grants : Dict String Grant
  pub audit : List Audit
  pub has_backend : Bool
  pub recordings : Dict String Recording
  -- The next allocation number.
  pub next_ref : ℕ

-- `newBroker`
unfoldable pub new_broker : Bool → Broker
new_broker has_backend = record {
  pending_revocations = [];
  next_revocation_retry = 0;
  picker = none;
  authority = 0;
  last_input_window = "";
  last_input_until = 0;
  mode = approve;
  paused = false;
  ui_count = 0;
  open_count = 0;
  clients = [];
  requests = [];
  grants = [];
  audit = [];
  has_backend = has_backend;
  recordings = [];
  next_ref = 0;
}

-- Nanoseconds.
abbrev pub second : ℕ
second = 1_000_000_000

-- `x++` on a `uint64`.
unfoldable pub increment : ℕ → ℕ
increment n = (n + 1) % 2 ^ 64

abbrev pub last_100 : List Audit → List Audit
last_100 l = drop (length l - 100) l

-- `noteLocked`, but for the copy that goes to the log file.
unfoldable pub note : ℕ → String → String → Broker → Broker
note now event detail b = record b {
  audit = last_100 (b.audit ++ (record { time = now; event = event; detail = detail } ∷ []));
}
