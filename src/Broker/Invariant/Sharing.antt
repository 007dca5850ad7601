-- ===== src/Broker/Invariant/Sharing.antt =====
-- The invariant under `beginShare` and the two critical sections of `selectShare`.
use hyprland_computer_use.Base.{
  ℕ, ◌+◌, ◌*◌, suc, ◌≡◌, ◌⊎◌, inl, inr, refl, String, true, arith, length, is_some, Option, none,
  some, List, Option-cases, Bool-cases, string_eq, ◌==◌, ◌&&◌,
}
use hyprland_computer_use.Base.Dict.{map_values, length-map_values, map_values-NodupKeys}
use hyprland_computer_use.Base.Dict.Values.{AllValues-map_values}
use hyprland_computer_use.Base.Int.{ℤ, pos_part}
use hyprland_computer_use.Broker.Invariant.{
  Inv, note-Inv, SuitsRequest, SuitsGrant, IsSupervised, IsShared,
}
use hyprland_computer_use.Broker.Invariant.Approval.{grant-Inv}
use hyprland_computer_use.Broker.Scope.{grant_matches}
use hyprland_computer_use.Broker.Share.{
  Selection, picked, open_picker, begin_share, pick_from, select_begin, grant_request, share_grant,
  select_current, select_finish, add_share, share_as, candidates, recipient,
}
use hyprland_computer_use.Broker.State.{
  Broker, Window, Capability, SharePicker, Request, Grant, pending, note, second, increment,
  state_eq,
}
use hyprland_computer_use.Base.{eqb, not, ◌||◌}
use hyprland_computer_use.Base.Dict.{lookup}
use hyprland_computer_use.Broker.Decide.{is_bad_duration}
use hyprland_computer_use.Broker.Scope.{is_closed}
use hyprland_computer_use.Broker.State.{observe, control, capability_eq}

abbrev pub SuitsSelection : Selection → Type 0
SuitsSelection s = IsShared s.picker.capability

open_picker-cases :
    (now : ℕ) (fresh : Option String) (client : String) (c : Capability) (seconds : ℕ)
    (offered : List Window) (b : Broker)
    → ((open_picker now fresh client c seconds offered b).1 ≡ b)
      ⊎ (IsSupervised b
          × ((p : SharePicker) × (p.capability ≡ c)
              × ((open_picker now fresh client c seconds offered b).1
                  ≡ note now "share_picker" "local user started window selection"
                      (record b { picker = some p; next_ref = suc b.next_ref }))))
unfolding open_picker
open_picker-cases now none client c seconds offered b = inl (ground arith)
open_picker-cases now (some id) client c seconds offered b =
    let p : SharePicker = record {
      ref = b.next_ref;
      id = id;
      client = recipient client b;
      capability = c;
      seconds = seconds;
      expires = now + 60 * second;
      windows = offered;
    } in
    elim (Bool-cases (
      is_closed b
      || (eqb (length b.clients) 0
          || (not (client == "") && not (is_some (lookup client b.clients))
              || eqb (length offered) 0)))) [
                | inl refused ↦ inl (ground arith)
                | inr admitted ↦ inr ((ground arith, ground arith), (p, refl, ground arith))
              ]

open_picker-Inv :
    (now : ℕ) (fresh : Option String) (client : String) (c : Capability) (seconds : ℕ)
    (offered : List Window) (b : Broker)
    → IsShared c
    → Inv b
    → Inv (open_picker now fresh client c seconds offered b).1
open_picker-Inv now fresh client c seconds offered b shared v =
    elim (open_picker-cases now fresh client c seconds offered b) [
      | inl same ↦ rw same v
      | inr (held, (p, e, changed)) ↦ rw changed (
          note-Inv now "share_picker" "local user started window selection" _ (record {
            supervised = v.supervised;
            picking = inr held;
            few_requests = v.few_requests;
            short_audit = v.short_audit;
            grant_keys = v.grant_keys;
            request_keys = v.request_keys;
            grants_suit = v.grants_suit;
            requests_suit = v.requests_suit;
            picker_suits = rw e shared;
          }))
    ]

begin_share-cases :
    (now : ℕ) (fresh : Option String) (windows : Option (List Window)) (client : String)
    (c : Capability) (seconds : ℤ) (b : Broker)
    → ((begin_share now fresh windows client c seconds b).1 ≡ b)
      ⊎ (IsShared (share_as c)
          × ((ws : List Window) × ((begin_share now fresh windows client c seconds b).1
                ≡ (open_picker now fresh client (share_as c) (pos_part seconds) ws b).1)))
unfolding begin_share
begin_share-cases now fresh none client c seconds b = inl (ground arith)
begin_share-cases now fresh (some ws) client c seconds b =
    elim (Bool-cases
      (not (share_as c == observe) && not (share_as c == control) || is_bad_duration seconds)) [
        | inl refused ↦ inl (ground arith)
        | inr admitted ↦ inr (ground arith, (candidates ws, ground arith))
      ]

pub begin_share-Inv :
    (now : ℕ) (fresh : Option String) (windows : Option (List Window)) (client : String)
    (c : Capability) (seconds : ℤ) (b : Broker)
    → Inv b
    → Inv (begin_share now fresh windows client c seconds b).1
begin_share-Inv now fresh windows client c seconds b v =
    elim (begin_share-cases now fresh windows client c seconds b) [
      | inl same ↦ rw same v
      | inr (shared, (ws, e)) ↦
          rw e (open_picker-Inv now fresh client (share_as c) (pos_part seconds) ws b shared v)
    ]

pick_from-picker :
    (now : ℕ) (client window_id : String) (p : SharePicker) (b : Broker) (s : Selection)
    → pick_from now client window_id p b ≡ picked s
    → s.picker ≡ p
unfolding pick_from
pick_from-picker now client window_id p b s e = ground arith

-- A selection shares what its picker offers.
pub select_begin-Suits :
    (now : ℕ) (picker_id client window_id : String) (b : Broker) (s : Selection)
    → Inv b
    → select_begin now picker_id client window_id b ≡ picked s
    → SuitsSelection s
unfolding select_begin
select_begin-Suits now picker_id client window_id b s v e = elim (Option-cases b.picker) [
  | inl absent ↦ absurd (ground arith)
  | inr (p, there) ↦
      rw (pick_from-picker now client window_id p b s (ground arith)) (rw there at v.picker_suits)
]

grant_request-Suits :
    (g : Grant) (w : Window) (r : Request) → SuitsRequest r → SuitsRequest (grant_request g w r)
grant_request-Suits g w r h =
    elim (Bool-cases
      (r.state == pending && grant_matches g r.client r.capability r.scope (some w))) [
        | inl e ↦ rw (e, grant_request) h
        | inr e ↦ rw (e, grant_request) h
      ]

-- The requests that a grant answers, and the picker, are settled.
settle-Inv :
    (g : Grant) (w : Window) (n : ℕ) (b : Broker)
    → Inv b
    → Inv (record b {
      requests = map_values (grant_request g w) b.requests;
      picker = none;
      open_count = n;
    })
settle-Inv g w n b v = record {
  supervised = v.supervised;
  picking = inl refl;
  few_requests = omega (arith, length-map_values (grant_request g w) b.requests, v.few_requests);
  short_audit = v.short_audit;
  grant_keys = v.grant_keys;
  request_keys = map_values-NodupKeys (grant_request g w) b.requests v.request_keys;
  grants_suit = v.grants_suit;
  requests_suit =
      AllValues-map_values SuitsRequest (grant_request g w) b.requests (grant_request-Suits g w)
        v.requests_suit;
  picker_suits = tt;
}

share_grant-Suits :
    (s : Selection) (id : String) (w : Window) → SuitsSelection s → SuitsGrant (share_grant s id w)
unfolding share_grant
share_grant-Suits s id w (inl e) = rw e (inr refl)
share_grant-Suits s id w (inr e) = rw e refl

select_current-IsSupervised :
    (now : ℕ) (s : Selection) (b : Broker) → select_current now s b ≡ true → IsSupervised b
unfolding select_current
select_current-IsSupervised now s b h = (ground arith, ground arith)

pub select_finish-Inv :
    (now : ℕ) (s : Selection) (id : String) (w : Window) (b : Broker)
    → SuitsSelection s
    → Inv b
    → Inv (select_finish now s (share_grant s id w) w b).1
unfolding select_finish add_share
select_finish-Inv now s id w b suits v = elim (Bool-cases (select_current now s b)) [
  | inr stale ↦ rw (stale, select_finish) v
  | inl current ↦
      rw (current, select_finish)
        (note-Inv now "shared" _ _ (
          settle-Inv (share_grant s id w) w (increment b.open_count) _ (
            grant-Inv (share_grant s id w) b (select_current-IsSupervised now s b current)
              (share_grant-Suits s id w suits) v)))
]
