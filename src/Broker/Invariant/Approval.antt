-- ===== src/Broker/Invariant/Approval.antt =====
-- The invariant under the two critical sections of `decide`.
use hyprland_computer_use.Base.{
  ℕ, ◌≡◌, ◌⊎◌, inl, inr, String, Bool, true, arith, is_some, Option-cases, Bool-cases, string_eq,
}
use hyprland_computer_use.Base.Dict.{lookup, insert, length-insert_old, insert-NodupKeys}
use hyprland_computer_use.Base.Dict.Values.{AllValues-insert, lookup-AllValues}
use hyprland_computer_use.Base.Int.{ℤ}
use hyprland_computer_use.Broker.Decide.{
  Approval, approving, begin_request, decide_begin, still_current, decide_finish, grant_of,
  add_grant,
}
use hyprland_computer_use.Broker.Invariant.{Inv, note-Inv, SuitsRequest, SuitsGrant, IsSupervised}
use hyprland_computer_use.Broker.State.{Broker, Request, Grant, denied, granted, note}

abbrev pub SuitsApproval : Approval → Type 0
SuitsApproval a = SuitsRequest a.request

-- A request that is there may change its state.
set_request-Inv :
    (id : String) (r : Request) (b : Broker)
    → is_some (lookup id b.requests) ≡ true
    → SuitsRequest r
    → Inv b
    → Inv (record b { requests = insert id r b.requests })
set_request-Inv id r b there suits v = record {
  supervised = v.supervised;
  picking = v.picking;
  few_requests = omega (arith, length-insert_old id r b.requests there, v.few_requests);
  short_audit = v.short_audit;
  grant_keys = v.grant_keys;
  request_keys = insert-NodupKeys id r b.requests v.request_keys;
  grants_suit = v.grants_suit;
  requests_suit = AllValues-insert SuitsRequest id r b.requests suits v.requests_suit;
  picker_suits = v.picker_suits;
}

-- A supervised broker may take a grant that suits.
pub grant-Inv :
    (g : Grant) (b : Broker)
    → IsSupervised b
    → SuitsGrant g
    → Inv b
    → Inv (record b { grants = insert g.id g b.grants })
grant-Inv g b held suits v = record {
  supervised = inr held;
  picking = v.picking;
  few_requests = v.few_requests;
  short_audit = v.short_audit;
  grant_keys = insert-NodupKeys g.id g b.grants v.grant_keys;
  request_keys = v.request_keys;
  grants_suit = AllValues-insert SuitsGrant g.id g b.grants suits v.grants_suit;
  requests_suit = v.requests_suit;
  picker_suits = v.picker_suits;
}

-- What the first section does for a request that is there.
begin_request-cases :
    (now : ℕ) (id : String) (seconds : ℤ) (approves : Bool) (r : Request) (b : Broker)
    → ((begin_request now id seconds approves r b).1 ≡ b)
      ⊎ ((begin_request now id seconds approves r b).1
          ≡ note now "denied" r.label
              (record b { requests = insert id (record r { state = denied }) b.requests }))
unfolding begin_request
begin_request-cases now id seconds approves r b = ground arith

pub decide_begin-Inv :
    (now : ℕ) (id : String) (seconds : ℤ) (approves : Bool) (b : Broker)
    → Inv b
    → Inv (decide_begin now id seconds approves b).1
unfolding decide_begin
decide_begin-Inv now id seconds approves b v = elim (Option-cases (lookup id b.requests)) [
  | inl absent ↦ rw (absent, decide_begin) v
  | inr (r, e) ↦
      rw (e, decide_begin)
        (elim (begin_request-cases now id seconds approves r b) [
          | inl same ↦ rw same v
          | inr changed ↦ rw changed (
              note-Inv now "denied" r.label _ (
                set_request-Inv id (record r { state = denied }) b (rw e)
                  (lookup-AllValues SuitsRequest id b.requests r v.requests_suit e) v))
        ])
]

begin_request-approving :
    (now : ℕ) (id : String) (seconds : ℤ) (approves : Bool) (r : Request) (b : Broker)
    (a : Approval)
    → (begin_request now id seconds approves r b).0 ≡ approving a
    → a.request ≡ r
unfolding begin_request
begin_request-approving now id seconds approves r b a e = ground arith

-- An approval is of a request that is there, so it suits.
pub decide_begin-Suits :
    (now : ℕ) (id : String) (seconds : ℤ) (approves : Bool) (b : Broker) (a : Approval)
    → Inv b
    → (decide_begin now id seconds approves b).0 ≡ approving a
    → SuitsApproval a
unfolding decide_begin
decide_begin-Suits now id seconds approves b a v h = elim (Option-cases (lookup id b.requests)) [
  | inl absent ↦ absurd (cc (rw (absent, decide_begin) at h))
  | inr (r, e) ↦
      rw (begin_request-approving now id seconds approves r b a (rw (e, decide_begin) at h))
        (lookup-AllValues SuitsRequest id b.requests r v.requests_suit e)
]

still_current-IsSupervised :
    (now : ℕ) (a : Approval) (b : Broker) → still_current now a b ≡ true → IsSupervised b
unfolding still_current
still_current-IsSupervised now a b h = (ground arith, ground arith)

pub decide_finish-Inv :
    (now : ℕ) (a : Approval) (id : String) (b : Broker)
    → SuitsApproval a
    → Inv b
    → Inv (decide_finish now a (grant_of a id) b).1
unfolding decide_finish
decide_finish-Inv now a id b suits v = elim (Bool-cases (still_current now a b)) [
  | inr stale ↦ rw (stale, decide_finish) v
  | inl current ↦
      rw (current, decide_finish)
        (elim (Option-cases (lookup a.id b.requests)) [
          | inl absent ↦ rw (absent, add_grant) v
          | inr (r, e) ↦
              rw (e, add_grant)
                (note-Inv now "granted" _ _ (
                  set_request-Inv a.id (record r { state = granted }) _ (rw e)
                    (lookup-AllValues SuitsRequest a.id b.requests r v.requests_suit e)
                    (grant-Inv (grant_of a id) b (still_current-IsSupervised now a b current) suits
                      v)))
        ])
]
