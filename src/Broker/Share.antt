-- ===== src/Broker/Share.antt =====
-- internal/app/sharing.go: `beginShare` and `selectShare`, the grants that the local user starts.
use hyprland_computer_use.Base.{
  ℕ, suc, ◌+◌, ◌*◌, String, ◌<>◌, Bool, true, false, not, ◌&&◌, ◌||◌, Option, none, some, List, [],
  ◌∷◌, ltb, eqb,
}
use hyprland_computer_use.Base.{if◌then◌else◌, ◌==◌, string_eq, length, is_some}
use hyprland_computer_use.Base.Dict.{Dict, lookup, insert, map_values}
use hyprland_computer_use.Base.Int.{ℤ, pos, pos_part, ltb_ℤ}
use hyprland_computer_use.Base.Text.{sprint}
use hyprland_computer_use.Broker.State.{
  Capability, observe, control, window, GuardOp, Window, Grant, Request, pending, granted,
  SharePicker, Broker, note, increment, second,
}
use hyprland_computer_use.Broker.State.{capability_eq, state_eq}
use hyprland_computer_use.Broker.Scope.{
  Error, random_failed, bad_duration, guard_failed, share_capability, resume_first, no_client,
  unknown_client, no_window, picker_expired, sharing_paused, recipient_changed, select_client,
  not_offered, window_moved, picker_changed, windows_failed, grant_matches, is_closed,
}
use hyprland_computer_use.Broker.Permit.{capability_name}
use hyprland_computer_use.Broker.Decide.{is_bad_duration, Outcome}
use hyprland_computer_use.Broker.Cleanup.{Reply, done, failed, cleanup_guard}

abbrev pub is_shareable : Window → Bool
is_shareable w =
    w.visible
    && (not w.hidden
        && (not w.xwayland
            && (not (w.class == "org.quickshell") && not (w.class == "computer-use"))))

unfoldable pub shareable : List Window → List Window
shareable [] = []
shareable (w ∷ ws) = let rest = shareable ws in if is_shareable w then w ∷ rest else rest

-- `sort.SliceStable` by falling focus history, as a stable insertion sort.
unfoldable pub insert_window : Window → List Window → List Window
insert_window w [] = w ∷ []
insert_window w (v ∷ vs) =
    if ltb_ℤ w.focus_history v.focus_history then v ∷ insert_window w vs else w ∷ v ∷ vs

unfoldable pub sort_windows : List Window → List Window
unfolding insert_window
sort_windows [] = []
sort_windows (w ∷ ws) = insert_window w (sort_windows ws)

unfoldable pub candidates : List Window → List Window
unfolding shareable sort_windows
candidates ws = sort_windows (shareable ws)

-- The recipient, if the caller names none and exactly one client is connected.
abbrev pub only_client : Dict String String → String
only_client [] = ""
only_client ((id, label) ∷ []) = id
only_client (p ∷ q ∷ d) = ""

abbrev pub recipient : String → Broker → String
recipient client b = if client == "" then only_client b.clients else client

-- The critical section of `beginShare`.
unfoldable pub open_picker :
    ℕ → Option String → String → Capability → ℕ → List Window → Broker → Outcome
unfolding note
open_picker now fresh client capability seconds offered b =
    if is_closed b
    then (some resume_first, b)
    else if eqb (length b.clients) 0
    then (some no_client, b)
    else if not (client == "") && not (is_some (lookup client b.clients))
    then (some unknown_client, b)
    else if eqb (length offered) 0
    then (some no_window, b)
    else elim fresh [
      | none ↦ (some random_failed, b)
      | some id ↦ (
        none,
        note now "share_picker" "local user started window selection" (record b {
          picker = some (record {
            ref = b.next_ref;
            id = id;
            client = recipient client b;
            capability = capability;
            seconds = seconds;
            expires = now + 60 * second;
            windows = offered;
          });
          next_ref = suc b.next_ref;
        }),
      )
    ]

-- The empty capability stands for control.
abbrev pub share_as : Capability → Capability
share_as (Capability.other name) = if name == "" then control else Capability.other name
share_as c = c

-- `windows` is the compositor's list, or none if it could not be read.
unfoldable pub begin_share :
    ℕ → Option String → Option (List Window) → String → Capability → ℤ → Broker → Outcome
unfolding candidates open_picker
begin_share now fresh windows client capability seconds b =
    let c = share_as capability in
    if not (c == observe) && not (c == control)
    then (some share_capability, b)
    else if is_bad_duration seconds
    then (some bad_duration, b)
    else elim windows [
      | none ↦ (some windows_failed, b)
      | some ws ↦ open_picker now fresh client c (pos_part seconds) (candidates ws) b
    ]

unfoldable pub find_window : String → List Window → Option Window
find_window id [] = none
find_window id (w ∷ ws) = if w.id == id then some w else find_window id ws

-- What the first section of `selectShare` hands on.
pub record Selection : Type 0 where
  pub picker : SharePicker
  pub client : String
  pub selected : Window
  pub authority : ℕ
  pub expires : ℕ

pub data Picked : Type 0 where
  refused : Error → Picked
  picked : Selection → Picked

unfoldable pub pick_from : ℕ → String → String → SharePicker → Broker → Picked
unfolding find_window
pick_from now client window_id p b =
    if is_closed b
    then refused sharing_paused
    else if not (p.client == "") && not (p.client == client)
    then refused recipient_changed
    else if not (is_some (lookup client b.clients))
    then refused select_client
    else elim (find_window window_id p.windows) [
      | none ↦ refused not_offered
      | some w ↦ picked (record {
        picker = p;
        client = client;
        selected = w;
        authority = b.authority;
        expires = now + p.seconds * second;
      })
    ]

unfoldable pub select_begin : ℕ → String → String → String → Broker → Picked
unfolding pick_from
select_begin now picker_id client window_id b = elim b.picker [
  | none ↦ refused picker_expired
  | some p ↦
      if not (p.id == picker_id) || not (ltb now p.expires)
      then refused picker_expired
      else pick_from now client window_id p b
]

abbrev pub share_label : Capability → Window → String
share_label c w =
    let base =
      capability_name c <> " window: " <> w.title <> " (" <> w.class <> ") · proactively shared" in
    if c == control
    then base <> " · viewing + input; no recording · application retains its existing powers"
    else base

unfoldable pub share_grant : Selection → String → Window → Grant
share_grant s id w = record {
  id = id;
  client = s.client;
  capability = s.picker.capability;
  scope = record { kind = window; id = w.id };
  label = share_label s.picker.capability w;
  expires = s.expires;
}

-- The window is still there, fit to share, and where it was.
abbrev pub is_unmoved : Selection → Window → Bool
is_unmoved s w =
    w.visible && (not w.hidden && (not w.xwayland && w.revision == s.selected.revision))

-- `b.picker == p`
abbrev pub is_picker : SharePicker → Option SharePicker → Bool
is_picker p none = false
is_picker p (some q) = eqb q.ref p.ref

unfoldable pub select_current : ℕ → Selection → Broker → Bool
select_current now s b =
    is_picker s.picker b.picker
    && (eqb b.authority s.authority
        && (not b.paused
            && (eqb (length b.pending_revocations) 0
                && (ltb 0 b.ui_count
                    && (is_some (lookup s.client b.clients) && ltb now s.expires)))))

abbrev pub grant_request : Grant → Window → Request → Request
grant_request g w r =
    if r.state == pending && grant_matches g r.client r.capability r.scope (some w)
    then record r { state = granted }
    else r

-- The writes of the second section.
unfoldable pub add_share : ℕ → Selection → Grant → Window → Broker → Broker
unfolding note increment
add_share now s g w b =
    note now "shared"
      (g.label <> " → " <> s.client <> " for " <> sprint (pos s.picker.seconds) <> "s")
      (record b {
        grants = insert g.id g b.grants;
        requests = map_values (grant_request g w) b.requests;
        picker = none;
        open_count = increment b.open_count;
      })

unfoldable pub select_finish : ℕ → Selection → Grant → Window → Broker → Bool × Broker
unfolding select_current add_share
select_finish now s g w b =
    if select_current now s b then (true, add_share now s g w b) else (false, b)

pub record SelectEnv : Type 0 where
  pub begin_time : ℕ
  pub finish_time : ℕ
  pub cleanup_time : ℕ
  pub grant_id : Option String
  pub target : Option Window
  pub reply : Reply
  pub cleanup_reply : Reply
  pub between : Broker → Broker
  pub before_cleanup : Broker → Broker

-- From the second section on.
unfoldable pub select_conclude : SelectEnv → Selection → Grant → Window → Bool → Broker → Outcome
unfolding select_finish cleanup_guard
select_conclude env s g w was_authorized b =
    let (added, b') = select_finish env.finish_time s g w b in
    let cleaned =
      cleanup_guard env.cleanup_time (GuardOp.revoke g.id) env.cleanup_reply
        (env.before_cleanup b') in
    if added
    then (none, b')
    else if was_authorized
    then (some picker_changed, cleaned)
    else (some picker_changed, b')

unfoldable pub select_window : SelectEnv → Selection → String → Window → Broker → Outcome
unfolding share_grant select_conclude
select_window env s id w b =
    let g = share_grant s id w in
    if not (is_unmoved s w)
    then (some window_moved, env.between b)
    else if s.picker.capability == control
    then elim env.reply [
      | failed e ↦ (some (guard_failed e), env.between b)
      | done ↦ select_conclude env s g w true (env.between b)
    ]
    else select_conclude env s g w false (env.between b)

unfoldable pub select_picked : SelectEnv → Selection → Broker → Outcome
unfolding select_window
select_picked env s b = elim env.grant_id [
  | none ↦ (some random_failed, env.between b)
  | some id ↦ elim env.target [
    | none ↦ (some window_moved, env.between b)
    | some w ↦ select_window env s id w b
  ]
]

unfoldable pub select_share : SelectEnv → String → String → String → Broker → Outcome
unfolding select_begin select_picked
select_share env picker_id client window_id b =
    elim (select_begin env.begin_time picker_id client window_id b) [
      | refused e ↦ (some e, b)
      | picked s ↦ select_picked env s b
    ]
