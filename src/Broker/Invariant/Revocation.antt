-- ===== src/Broker/Invariant/Revocation.antt =====
-- The invariant under the operations that take authority away, and under the compositor's replies.
use hyprland_computer_use.Base.{
  ℕ, ◌≤◌, inl, inr, refl, String, none, Bool, arith, length, [], ◌∷◌, Option-cases, Bool-cases,
  string_eq,
}
use hyprland_computer_use.Base.Dict.{lookup, Dict, erase-NodupKeys}
use hyprland_computer_use.Base.Dict.Values.{AllValues-erase}
use hyprland_computer_use.Broker.Invariant.{Inv, note-Inv, SuitsRequest, SuitsGrant}
use hyprland_computer_use.Broker.Revoke.{
  revoke_locked, revoke_where, note_revoked, cancel_request, clear_locked,
}
use hyprland_computer_use.Broker.State.{Request, Grant, Broker}
use hyprland_computer_use.Base.{◌==◌}
use hyprland_computer_use.Base.Dict.{length-map_values, map_values-NodupKeys}
use hyprland_computer_use.Base.Dict.Values.{AllValues-map_values}
use hyprland_computer_use.Broker.State.{state_eq, pending}
use hyprland_computer_use.Base.Dict.{map_values, retain, length-retain, retain-NodupKeys, erase}
use hyprland_computer_use.Base.Dict.Values.{AllValues-retain}
use hyprland_computer_use.Broker.Revoke.{
  drop_client, disconnect_locked, of_client, is_recent, is_expired, picker_expired, expire_locked,
}
use hyprland_computer_use.Broker.State.{increment}
use hyprland_computer_use.Broker.Revoke.{cancel_for, picked_by, cancel_recording_for}
use hyprland_computer_use.Base.Dict.{NodupKeys}
use hyprland_computer_use.Base.Dict.Values.{AllValues}
use hyprland_computer_use.Broker.Invariant.{note-audit}
use hyprland_computer_use.Broker.State.{Mode}
use hyprland_computer_use.Broker.Revoke.{unpick_expired}

pub revoke_locked-Inv : (now : ℕ) (id : String) (b : Broker) → Inv b → Inv (revoke_locked now id b)
unfolding revoke_locked
revoke_locked-Inv now id b v = elim (Option-cases (lookup id b.grants)) [
  | inl absent ↦ rw (absent, revoke_locked) v
  | inr (g, e) ↦
      rw (e, revoke_locked)
        (note-Inv now "revoked" g.label _ (record {
          supervised = elim v.supervised [
            | inl empty ↦ inl (rw empty (unfold erase in refl))
            | inr h ↦ inr h
          ];
          picking = v.picking;
          few_requests = v.few_requests;
          short_audit = v.short_audit;
          grant_keys = erase-NodupKeys id b.grants v.grant_keys;
          request_keys = v.request_keys;
          grants_suit = AllValues-erase SuitsGrant id b.grants v.grants_suit;
          requests_suit = v.requests_suit;
          picker_suits = v.picker_suits;
        }))
]

pub revoke_where-Inv :
    (now : ℕ) (p : Grant → Bool) (d : Dict String Grant) (b : Broker)
    → Inv b
    → Inv (revoke_where now p d b)
unfolding revoke_where
revoke_where-Inv now p [] b v = v
revoke_where-Inv now p ((id, g) ∷ d) b v =
    revoke_where-Inv now p d _ (ground (arith, revoke_locked-Inv now id b v))

cancel_request-Suits : (r : Request) → SuitsRequest r → SuitsRequest (cancel_request r)
cancel_request-Suits r h = elim (Bool-cases (r.state == pending)) [
  | inl e ↦ rw (e, cancel_request) h
  | inr e ↦ rw (e, cancel_request) h
]

note_revoked-audit :
    (now : ℕ) (d : Dict String Grant) (b : Broker)
    → length b.audit ≤ 100
    → length (note_revoked now d b).audit ≤ 100
unfolding note_revoked
note_revoked-audit now [] b h = h
note_revoked-audit now ((id, g) ∷ d) b h =
    note_revoked-audit now d _ (note-audit now "revoked" g.label b)

-- What a clear needs of the state before it: nothing of the supervision, the grants or the picker.
pub record IsBounded (b : Broker) : Type 0 where
  pub few_requests : length b.requests ≤ 100
  pub short_audit : length b.audit ≤ 100
  pub request_keys : NodupKeys b.requests
  pub requests_suit : AllValues SuitsRequest b.requests

pub Inv-IsBounded : (b : Broker) → Inv b → IsBounded b
Inv-IsBounded b v = record {
  few_requests = v.few_requests;
  short_audit = v.short_audit;
  request_keys = v.request_keys;
  requests_suit = v.requests_suit;
}

-- So it restores the invariant, in every mode.
pub cleared-Inv :
    (now : ℕ) (mode : Mode) (b : Broker)
    → IsBounded b
    → Inv (record (clear_locked now b) { mode = mode })
unfolding clear_locked
cleared-Inv now mode b v = record {
  supervised = inl refl;
  picking = inl refl;
  few_requests = omega (arith, length-map_values cancel_request b.requests, v.few_requests);
  short_audit = note_revoked-audit now b.grants b v.short_audit;
  grant_keys = tt;
  request_keys = map_values-NodupKeys cancel_request b.requests v.request_keys;
  grants_suit = tt;
  requests_suit =
      AllValues-map_values SuitsRequest cancel_request b.requests cancel_request-Suits
        v.requests_suit;
  picker_suits = tt;
}

pub clear_locked-Inv : (now : ℕ) (b : Broker) → IsBounded b → Inv (clear_locked now b)
clear_locked-Inv now b v = cleared-Inv now (clear_locked now b).mode b v

cancel_for-Suits :
    (client : String) (r : Request) → SuitsRequest r → SuitsRequest (cancel_for client r)
cancel_for-Suits client r h = elim (Bool-cases (r.client == client)) [
  | inl e ↦ rw (e, cancel_for) (cancel_request-Suits r h)
  | inr e ↦ rw (e, cancel_for) h
]

-- Without its picker the broker is as good.
pub unpick-Inv : (n : ℕ) (b : Broker) → Inv b → Inv (record b { picker = none; authority = n })
unpick-Inv n b v = record {
  supervised = v.supervised;
  picking = inl refl;
  few_requests = v.few_requests;
  short_audit = v.short_audit;
  grant_keys = v.grant_keys;
  request_keys = v.request_keys;
  grants_suit = v.grants_suit;
  requests_suit = v.requests_suit;
  picker_suits = tt;
}

cancel_all-Inv :
    (client : String) (b : Broker)
    → Inv b
    → Inv (record b {
      requests = map_values (cancel_for client) b.requests;
      recordings = map_values (cancel_recording_for client) b.recordings;
      clients = erase client b.clients;
    })
cancel_all-Inv client b v = record {
  supervised = v.supervised;
  picking = v.picking;
  few_requests = omega (arith, length-map_values (cancel_for client) b.requests, v.few_requests);
  short_audit = v.short_audit;
  grant_keys = v.grant_keys;
  request_keys = map_values-NodupKeys (cancel_for client) b.requests v.request_keys;
  grants_suit = v.grants_suit;
  requests_suit =
      AllValues-map_values SuitsRequest (cancel_for client) b.requests (cancel_for-Suits client)
        v.requests_suit;
  picker_suits = v.picker_suits;
}

drop_client-Inv : (now : ℕ) (client : String) (b : Broker) → Inv b → Inv (drop_client now client b)
unfolding drop_client
drop_client-Inv now client b v = elim (Bool-cases (picked_by client b.picker)) [
  | inl mine ↦
      rw (mine, drop_client)
        (note-Inv now "client_disconnected" client _
          (unpick-Inv (increment b.authority) _ (cancel_all-Inv client b v)))
  | inr other ↦
      rw (other, drop_client)
        (note-Inv now "client_disconnected" client _ (cancel_all-Inv client b v))
]

pub disconnect_locked-Inv :
    (now : ℕ) (client : String) (b : Broker) → Inv b → Inv (disconnect_locked now client b)
unfolding disconnect_locked
disconnect_locked-Inv now client b v =
    drop_client-Inv now client _ (revoke_where-Inv now (of_client client) b.grants b v)

prune_requests-Inv :
    (p : Request → Bool) (b : Broker) → Inv b → Inv (record b { requests = retain p b.requests })
prune_requests-Inv p b v = record {
  supervised = v.supervised;
  picking = v.picking;
  few_requests = omega (arith, length-retain p b.requests, v.few_requests);
  short_audit = v.short_audit;
  grant_keys = v.grant_keys;
  request_keys = retain-NodupKeys p b.requests v.request_keys;
  grants_suit = v.grants_suit;
  requests_suit = AllValues-retain SuitsRequest p b.requests v.requests_suit;
  picker_suits = v.picker_suits;
}

unpick_expired-Inv : (now : ℕ) (b : Broker) → Inv b → Inv (unpick_expired now b)
unfolding unpick_expired
unpick_expired-Inv now b v = elim (Bool-cases (picker_expired now b.picker)) [
  | inl late ↦ rw (late, unpick_expired) (unpick-Inv (increment b.authority) b v)
  | inr early ↦ rw (early, unpick_expired) v
]

pub expire_locked-Inv : (now : ℕ) (b : Broker) → Inv b → Inv (expire_locked now b)
unfolding expire_locked
expire_locked-Inv now b v =
    let u = unpick_expired now b in
    prune_requests-Inv (is_recent now) _
      (revoke_where-Inv now (is_expired now) u.grants u (unpick_expired-Inv now b v))
