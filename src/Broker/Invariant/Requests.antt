-- ===== src/Broker/Invariant/Requests.antt =====
-- The invariant under `permit`, and under the changes of one request's state.
use hyprland_computer_use.Base.{
  ℕ, ◌<◌, ◌≡◌, inl, inr, refl, String, Option, none, some, arith, length, string_eq,
}
use hyprland_computer_use.Base.Dict.{length-insert, insert-NodupKeys}
use hyprland_computer_use.Base.Dict.Values.{AllValues-insert}
use hyprland_computer_use.Broker.Invariant.{Inv, note-Inv, Suits, SuitsRequest, valid_scope-Suits}
use hyprland_computer_use.Broker.Permit.{permit, ask, add_request, new_request}
use hyprland_computer_use.Broker.Scope.{valid_scope}
use hyprland_computer_use.Broker.State.{Capability, Scope, Request, Window, Broker}
use hyprland_computer_use.Base.{◌⊎◌, leb, Bool-cases, Option-cases}
use hyprland_computer_use.Base.Dict.{find_value}
use hyprland_computer_use.Broker.Permit.{same_request}

pub add_request-Inv :
    (now : ℕ) (r : Request) (b : Broker)
    → length b.requests < 100
    → SuitsRequest r
    → Inv b
    → Inv (add_request now r b)
unfolding add_request
add_request-Inv now r b few suits v = note-Inv now "requested" r.label _ (record {
  supervised = v.supervised;
  picking = v.picking;
  few_requests = omega (arith, length-insert r.id r b.requests);
  short_audit = v.short_audit;
  grant_keys = v.grant_keys;
  request_keys = insert-NodupKeys r.id r b.requests v.request_keys;
  grants_suit = v.grants_suit;
  requests_suit = AllValues-insert SuitsRequest r.id r b.requests suits v.requests_suit;
  picker_suits = v.picker_suits;
})

-- What the search can do to the state: nothing, or add one request to fewer than 100.
ask-cases :
    (now : ℕ) (fresh : Option String) (client : String) (c : Capability) (s : Scope)
    (w : Option Window) (reason : String) (b : Broker)
    → ((ask now fresh client c s w reason b).1 ≡ b)
      ⊎ ((r : Request) × (length b.requests < 100)
          × (r.capability ≡ c)
          × (r.scope ≡ s)
          × ((ask now fresh client c s w reason b).1 ≡ add_request now r b))
unfolding ask
ask-cases now none client c s w reason b = inl (ground arith)
ask-cases now (some id) client c s w reason b =
    elim (Option-cases (find_value (same_request client c s) b.requests)) [
      | inr (r, e) ↦ inl (ground arith)
      | inl e ↦ elim (Bool-cases (leb 100 (length b.requests))) [
        | inl full ↦ inl (ground arith)
        | inr few ↦
            inr (new_request now id client c s w reason b, ground arith, refl, refl, ground arith)
      ]
    ]

ask-Inv :
    (now : ℕ) (fresh : Option String) (client : String) (c : Capability) (s : Scope)
    (w : Option Window) (reason : String) (b : Broker)
    → Suits c s.kind
    → Inv b
    → Inv (ask now fresh client c s w reason b).1
ask-Inv now fresh client c s w reason b suits v = elim (ask-cases now fresh client c s w reason b) [
  | inl same ↦ rw same v
  | inr (r, few, e, e', changed) ↦ rw changed (add_request-Inv now r b few (rw (e, e') suits) v)
]

permit-cases :
    (now : ℕ) (fresh : Option String) (client : String) (c : Capability) (s : Scope)
    (w : Option Window) (reason : String) (b : Broker)
    → ((permit now fresh client c s w reason b).1 ≡ b)
      ⊎ ((valid_scope c s ≡ none)
          × ((permit now fresh client c s w reason b).1 ≡ (ask now fresh client c s w reason b).1))
unfolding permit
permit-cases now fresh client c s w reason b = ground arith

pub permit-Inv :
    (now : ℕ) (fresh : Option String) (client : String) (c : Capability) (s : Scope)
    (w : Option Window) (reason : String) (b : Broker)
    → Inv b
    → Inv (permit now fresh client c s w reason b).1
permit-Inv now fresh client c s w reason b v = elim (permit-cases now fresh client c s w reason b) [
  | inl same ↦ rw same v
  | inr (valid, e) ↦ rw e (ask-Inv now fresh client c s w reason b (valid_scope-Suits c s valid) v)
]
