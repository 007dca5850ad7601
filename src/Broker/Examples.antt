-- ===== src/Broker/Examples.antt =====
-- The broker's theorems at concrete states: a console is connected, and one client holds a grant to
-- see a window and asks to control another.
use hyprland_computer_use.Base.{
  ℕ, ◌^◌, ◌<◌, ◌≡◌, ◌≢◌, ◌↔◌, ◌⊎◌, inl, refl, arith, String, true, false, none, some, List, [], ◌∷◌,
  if◌then◌else◌, ◌==◌, string_eq, string_discrete,
}
use hyprland_computer_use.Base.Int.{pos}
use hyprland_computer_use.Broker.Access.{
  IsOpen, HasGrant, Covers, allowed-HasGrant, grant_matches-Covers,
}
use hyprland_computer_use.Broker.Approval.{IsGranted, decide-IsGranted}
use hyprland_computer_use.Broker.Cleanup.{done, failed}
use hyprland_computer_use.Broker.Closed.Paused.{run-pauses}
use hyprland_computer_use.Broker.Closed.Unconfirmed.{allowed-unconfirmed}
use hyprland_computer_use.Broker.Decide.{
  Approval, approving, grant_of, decide_begin, decide_finish, Env, decide,
}
use hyprland_computer_use.Base.{◌↔◌}
use hyprland_computer_use.Base.Dict.{lookup}
use hyprland_computer_use.Broker.Effects.{allowed-disconnect_locked, allowed-expire_locked}
use hyprland_computer_use.Broker.Epoch.{total_epochs, epochs}
use hyprland_computer_use.Broker.Epoch.Stale.{decide_finish-stale, select_finish-stale}
use hyprland_computer_use.Broker.Invariant.{Inv}
use hyprland_computer_use.Broker.Invariant.Runs.{run-Inv}
use hyprland_computer_use.Broker.Permit.{permit, requested}
use hyprland_computer_use.Broker.Permit.Laws.{allowed-permit}
use hyprland_computer_use.Broker.Revoke.{disconnect_locked, expire_locked}
use hyprland_computer_use.Broker.Run.{
  Section, connects_ui, connects, permits, begins, finishes, clears, cleans, pauses, System, step,
  run, start,
}
use hyprland_computer_use.Broker.Scope.{allowed, grant_matches}
use hyprland_computer_use.Broker.Share.{Selection, picked, select_begin, select_finish, share_grant}
use hyprland_computer_use.Broker.State.{
  Scope, Window, Grant, Request, SharePicker, Broker, GuardOp, observe, control, window, pending,
  approve, yolo, state_discrete, mode_discrete, capability_discrete, scope_discrete, kind_discrete,
  capability_eq,
}

abbrev client : String
client = "c"

abbrev seen : Scope
seen = record { kind = window; id = "0x1" }

abbrev wanted : Scope
wanted = record { kind = window; id = "0x2" }

abbrev the_window : Window
the_window = record {
  focus_history = pos 0;
  id = "0x2";
  title = "Editor";
  class = "editor";
  size = (pos 640, pos 480);
  workspace = pos 1;
  hidden = false;
  visible = true;
  xwayland = false;
  revision = "r";
}

abbrev view : Grant
view = record {
  id = "g";
  client = "c";
  capability = observe;
  scope = seen;
  label = "see";
  expires = 100;
}

abbrev wish : Request
wish = record {
  ref = 0;
  id = "r";
  client = "c";
  capability = control;
  scope = wanted;
  label = "control";
  reason = "";
  state = pending;
  created = 0;
}

abbrev picker : SharePicker
picker = record {
  ref = 1;
  id = "p";
  client = "c";
  capability = observe;
  seconds = 60;
  expires = 90_000_000_000;
  windows = the_window ∷ [];
}

abbrev open_broker : Broker
open_broker = record {
  pending_revocations = [];
  next_revocation_retry = 0;
  picker = some picker;
  authority = 7;
  last_input_window = "";
  last_input_until = 0;
  mode = approve;
  paused = false;
  ui_count = 1;
  open_count = 1;
  clients = ("c", "client") ∷ [];
  requests = ("r", wish) ∷ [];
  grants = ("g", view) ∷ [];
  audit = [];
  has_backend = true;
  recordings = [];
  next_ref = 2;
}

abbrev system : System
system = record { broker = open_broker; approvals = []; selections = [] }

abbrev busy : List (ℕ × Section)
busy =
    (1, connects_ui)
    ∷ (2, connects "c" "client")
    ∷ (3, permits (some "r") "c" control wanted none "please")
    ∷ (4, begins "r" (pos 60) true)
    ∷ (5, finishes 0 "g")
    ∷ []

abbrev cleared : List (ℕ × Section)
cleared = (6, clears) ∷ []

run-Inv_example : Inv (run busy (start true)).broker
run-Inv_example = run-Inv true busy

allowed-unconfirmed_example :
    allowed 9 "c" observe seen none
      (run cleared (step 5 (cleans GuardOp.clear (failed "lost")) system)).broker
    ≡ none
allowed-unconfirmed_example =
    allowed-unconfirmed 5 GuardOp.clear "lost" cleared system 9 "c" observe seen none (refl, tt)

run-pauses_example :
    let b = (run cleared (step 5 (pauses true) (run busy (start true)))).broker in
    (allowed 9 "c" control wanted none b ≡ none) × (b.grants ≡ []) × (b.picker ≡ none)
run-pauses_example = run-pauses true busy cleared 5 9 "c" control wanted none (refl, tt)

abbrev approval : Approval
approval = record {
  id = "r";
  request = wish;
  seconds = 60;
  authority = 7;
  expires = 60_000_000_001;
}

begun_now : (decide_begin 1 "r" (pos 60) true open_broker).0 ≡ approving approval
unfolding decide_begin string_discrete state_discrete hyprland_computer_use.Base.Dict.lookup
    string_eq hyprland_computer_use.Broker.State.state_eq hyprland_computer_use.Broker.State.mode_eq
begun_now = refl

one_epoch : total_epochs cleared system < 2 ^ 64
unfolding total_epochs epochs
one_epoch = omega arith

decide_finish-stale_example :
    decide_finish 8 approval (grant_of approval "g2") (run cleared system).broker
    ≡ (false, (run cleared system).broker)
decide_finish-stale_example =
    decide_finish-stale 1 8 "r" "g2" (pos 60) approval cleared system (omega arith) begun_now
      (inl refl) one_epoch

abbrev selection : Selection
selection = record {
  picker = picker;
  client = "c";
  selected = the_window;
  authority = 7;
  expires = 60_000_000_001;
}

picked_now : select_begin 1 "p" "c" "0x2" open_broker ≡ picked selection
unfolding select_begin string_discrete mode_discrete string_eq
    hyprland_computer_use.Base.Dict.lookup
picked_now = refl

select_finish-stale_example :
    select_finish 8 selection
      (share_grant selection "g2" the_window)
      the_window
      (run cleared system).broker
    ≡ (false, (run cleared system).broker)
select_finish-stale_example =
    select_finish-stale 1 8 "p" "c" "0x2" "g2" the_window selection cleared system (omega arith)
      picked_now (inl refl) one_epoch

allowed-HasGrant_example : (allowed 9 "c" observe seen none open_broker ≢ none) ↔ (
    IsOpen open_broker × ((open_broker.mode ≡ yolo) ⊎ HasGrant 9 "c" observe seen none open_broker))
allowed-HasGrant_example = allowed-HasGrant 9 "c" observe seen none open_broker

grant_matches-Covers_example :
    (grant_matches view "c" observe seen none ≡ true) ↔ Covers view "c" observe seen none
grant_matches-Covers_example = grant_matches-Covers view "c" observe seen none

not_later : allowed 100 "c" observe seen none open_broker ≡ none
unfolding allowed hyprland_computer_use.Broker.State.mode_eq
    hyprland_computer_use.Base.Dict.find_value
not_later = refl

allowed-permit_example :
    allowed 9 "c" observe seen none (permit 5 none "c" control wanted none "again" open_broker).1
    ≡ allowed 9 "c" observe seen none open_broker
allowed-permit_example =
    allowed-permit 5 none "c" control wanted none "again" open_broker 9 "c" observe seen none

asked : (permit 5 none "c" control wanted none "" open_broker).0 ≡ requested "r"
unfolding permit string_discrete capability_discrete scope_discrete kind_discrete mode_discrete
    state_discrete hyprland_computer_use.Broker.State.kind_eq
    hyprland_computer_use.Broker.State.mode_eq hyprland_computer_use.Base.Dict.find_value
    grant_matches string_eq capability_eq hyprland_computer_use.Broker.State.scope_eq
    hyprland_computer_use.Broker.State.state_eq
asked = refl

allowed-disconnect_locked_example :
    allowed 9 "c" observe seen none (disconnect_locked 5 "c" open_broker)
    ≡ (if client == client then none else allowed 9 "c" observe seen none open_broker)
unfolding hyprland_computer_use.Base.Dict.lookup
allowed-disconnect_locked_example =
    allowed-disconnect_locked 5 9 "c" "c" observe seen none open_broker (refl, tt) refl

allowed-expire_locked_example :
    ((lookup "g" (expire_locked 50 open_broker).grants ≡ some view)
      ↔ ((lookup "g" open_broker.grants ≡ some view) × (50 < 100)))
    × (allowed 60 "c" observe seen none (expire_locked 50 open_broker)
        ≡ allowed 60 "c" observe seen none open_broker)
unfolding hyprland_computer_use.Base.Dict.lookup
allowed-expire_locked_example =
    allowed-expire_locked 50 60 "g" view "c" observe seen none open_broker (refl, tt) (omega arith)

abbrev approving_env : Env
approving_env = record {
  begin_time = 1;
  finish_time = 2;
  cleanup_time = 3;
  grant_id = some "g2";
  target = some the_window;
  reply = done;
  cleanup_reply = done;
  between = λ b. b;
  before_cleanup = λ b. b;
}

approved_now :
    decide approving_env "r" (pos 60) true open_broker
    ≡ (none, (decide approving_env "r" (pos 60) true open_broker).1)
unfolding decide string_discrete state_discrete capability_discrete kind_discrete mode_discrete
    hyprland_computer_use.Base.Dict.lookup string_eq hyprland_computer_use.Broker.State.state_eq
    hyprland_computer_use.Broker.State.mode_eq capability_eq
approved_now = refl

decide-IsGranted_example :
    (r : Request) × (g : Grant) × IsGranted approving_env "r"
      (pos 60)
      open_broker
      (decide approving_env "r" (pos 60) true open_broker).1
      r
      g
decide-IsGranted_example =
    decide-IsGranted approving_env "r" (pos 60) open_broker
      (decide approving_env "r" (pos 60) true open_broker).1 approved_now
