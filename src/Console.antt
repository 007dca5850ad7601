-- ===== src/Console.antt =====
-- The console: the commands of its connection (`handleUI` in internal/app/broker.go), which work on
-- the broker and the provider, and what it is shown (`state` in broker.go and in oauth.go).
pub mod View
use hyprland_computer_use.Oauth.Authorize.{decide as decide_connection}
use hyprland_computer_use.Base.{
  ℕ, String, Bool, true, false, ◌||◌, Option, none, some, List, ◌==◌, string_eq, if◌then◌else◌,
}
use hyprland_computer_use.Base.Int.{ℤ, pos}
use hyprland_computer_use.Broker.Cleanup.{Reply}
use hyprland_computer_use.Broker.Decide.{Env, decide}
use hyprland_computer_use.Broker.Revoke.{revoke, clear}
use hyprland_computer_use.Broker.Scope.{Error}
use hyprland_computer_use.Broker.Share.{SelectEnv, begin_share, select_share}
use hyprland_computer_use.Broker.State.{
  Broker, Window, Capability, observe, control, recording, launch, approve, yolo,
}
use hyprland_computer_use.Broker.Supervise.{set_mode, cancel_share, set_paused}
use hyprland_computer_use.Oauth.Authorize.{DecideError}
use hyprland_computer_use.Oauth.Refresh.{revoke_connection}
use hyprland_computer_use.Oauth.State.{OauthProvider, Library}

-- The broker, and the provider if OAuth is enabled.
pub record Host : Type 0 where
  pub broker : Broker
  pub provider : Option OauthProvider

-- A line of the console, decoded.
pub record Query : Type 0 where
  pub op : String
  pub client : String
  pub capability : String
  pub window : String
  pub id : String
  pub seconds : ℤ
  pub mode : String
  pub paused : Bool

pub data ConsoleError : Type 0 where
  of_broker : Error → ConsoleError
  of_provider : DecideError → ConsoleError
  oauth_disabled : ConsoleError
  invalid_mode : ConsoleError
  unknown_command : ConsoleError

-- What comes from outside of one command.
pub record ConsoleEnv : Type 0 where
  pub lib : Library
  -- The clock in the first section, and in the cleanup.
  pub time : ℕ
  pub cleanup_time : ℕ
  pub decide_env : Env
  pub select_env : SelectEnv
  pub fresh : Option String
  pub windows : Option (List Window)
  pub reply : Reply
  pub between : Broker → Broker
  -- `p.revoke`, the provider's callback on the broker.
  pub on_revoke : String → Broker → Broker

unfoldable pub capability_of : String → Capability
capability_of s =
    if s == "observe"
    then observe
    else if s == "control"
    then control
    else if s == "record"
    then recording
    else if s == "launch"
    then launch
    else Capability.other s

abbrev pub HostOutcome : Type 0
HostOutcome = Option ConsoleError × Host

abbrev lift_broker : Host → Option Error × Broker → HostOutcome
lift_broker h (none, b) = (none, record h { broker = b })
lift_broker h (some e, b) = (some (of_broker e), record h { broker = b })

abbrev lift_provider : Host → Option DecideError × OauthProvider → HostOutcome
lift_provider h (none, p) = (none, record h { provider = some p })
lift_provider h (some e, p) = (some (of_provider e), record h { provider = some p })

abbrev update : Host → Broker → HostOutcome
update h b = (none, record h { broker = b })

-- "oauth_approve", "oauth_deny" and "oauth_revoke".
unfoldable pub handle_oauth : ConsoleEnv → Query → Host → HostOutcome
handle_oauth env q h = elim h.provider [
  | none ↦ (some oauth_disabled, h)
  | some p ↦
      if q.op == "oauth_revoke"
      then (
        none,
        record { broker = env.on_revoke q.id h.broker; provider = some (revoke_connection q.id p) },
      )
      else lift_provider h
          (decide_connection env.lib env.time q.id (q.op == "oauth_approve") env.fresh p)
]

unfoldable pub handle_mode : ConsoleEnv → Query → Host → HostOutcome
handle_mode env q h =
    if q.mode == "approve"
    then update h (set_mode env.time approve env.between env.cleanup_time env.reply h.broker)
    else if q.mode == "yolo"
    then update h (set_mode env.time yolo env.between env.cleanup_time env.reply h.broker)
    else (some invalid_mode, h)

-- The `switch` of `handleUI`.
unfoldable pub handle_query : ConsoleEnv → Query → Host → HostOutcome
unfolding handle_oauth handle_mode
handle_query env q h =
    if q.op == "state"
    then (none, h)
    else if q.op == "oauth_approve" || (q.op == "oauth_deny" || q.op == "oauth_revoke")
    then handle_oauth env q h
    else if q.op == "begin_share"
    then lift_broker h (
        begin_share env.time env.fresh env.windows q.client (capability_of q.capability) q.seconds
          h.broker)
    else if q.op == "select_share"
    then lift_broker h (select_share env.select_env q.id q.client q.window h.broker)
    else if q.op == "cancel_share"
    then update h (cancel_share q.id h.broker)
    else if q.op == "approve"
    then lift_broker h (decide env.decide_env q.id q.seconds true h.broker)
    else if q.op == "deny"
    then lift_broker h (decide env.decide_env q.id (pos 0) false h.broker)
    else if q.op == "revoke"
    then update h (revoke env.time q.id env.between env.cleanup_time env.reply h.broker)
    else if q.op == "revoke_all"
    then update h (clear env.time env.between env.cleanup_time env.reply h.broker)
    else if q.op == "pause"
    then update h (set_paused env.time q.paused env.between env.cleanup_time env.reply h.broker)
    else if q.op == "mode"
    then handle_mode env q h
    else (some unknown_command, h)
