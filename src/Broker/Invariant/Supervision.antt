-- ===== src/Broker/Invariant/Supervision.antt =====
-- The invariant under the compositor's replies, the console's connections and its commands, and
-- the registration of clients.
use hyprland_computer_use.Base.{
  ℕ, ◌≤◌, ◌<◌, ◌+◌, ◌≡◌, ◌⊎◌, inl, inr, refl, String, Bool, false, arith, length, ltb, is_some,
  Bool-cases, string_eq,
}
use hyprland_computer_use.Base.Dict.{lookup, Dict}
use hyprland_computer_use.Broker.Cleanup.{
  Reply, done, failed, cleanup_guard, cleanup_done, cleanup_failed, revocation_key,
}
use hyprland_computer_use.Broker.Invariant.{Inv, note-Inv}
use hyprland_computer_use.Broker.Invariant.Revocation.{
  clear_locked-Inv, cleared-Inv, IsBounded, Inv-IsBounded, unpick-Inv,
}
use hyprland_computer_use.Broker.State.{GuardOp, Mode, Broker}
use hyprland_computer_use.Broker.Supervise.{connect_ui}
use hyprland_computer_use.Base.{true, ◌-◌, eqb}
use hyprland_computer_use.Broker.State.{increment}
use hyprland_computer_use.Broker.Supervise.{
  disconnect_ui_locked, set_paused_locked, set_mode_locked, cancel_share, is_picker_id,
  connect_client,
}

-- The fields that the replies of the compositor change are none of the invariant's.
await-Inv :
    (d : Dict String GuardOp) (n : ℕ) (b : Broker)
    → Inv b
    → Inv (record b { pending_revocations = d; next_revocation_retry = n })
await-Inv d n b v = record {
  supervised = v.supervised;
  picking = v.picking;
  few_requests = v.few_requests;
  short_audit = v.short_audit;
  grant_keys = v.grant_keys;
  request_keys = v.request_keys;
  grants_suit = v.grants_suit;
  requests_suit = v.requests_suit;
  picker_suits = v.picker_suits;
}

pub cleanup_guard-Inv :
    (now : ℕ) (q : GuardOp) (reply : Reply) (b : Broker) → Inv b → Inv (cleanup_guard now q reply b)
unfolding cleanup_guard
cleanup_guard-Inv now q (failed e) b v =
    let key = revocation_key q in
    elim (Bool-cases (is_some (lookup key b.pending_revocations))) [
      | inl known ↦ rw (known, cleanup_failed) (await-Inv _ _ b v)
      | inr new ↦
          rw (new, cleanup_failed) (await-Inv _ _ _ (note-Inv now "revocation_unconfirmed" _ b v))
    ]
cleanup_guard-Inv now GuardOp.clear done b v =
    elim (Bool-cases (ltb 0 (length b.pending_revocations))) [
      | inl some_left ↦
          rw (some_left, cleanup_done)
            (await-Inv _ _ _ (note-Inv now "revocation_confirmed" "clear" b v))
      | inr none_left ↦ rw (none_left, cleanup_done) (await-Inv _ _ b v)
    ]
cleanup_guard-Inv now (GuardOp.revoke token) done b v =
    let key = revocation_key (GuardOp.revoke token) in
    elim (Bool-cases (is_some (lookup key b.pending_revocations))) [
      | inl known ↦
          rw (known, cleanup_done)
            (note-Inv now "revocation_confirmed" _ _ (await-Inv _ b.next_revocation_retry b v))
      | inr new ↦ rw (new, cleanup_done) v
    ]

-- The number of consoles may change while there is one, and the broker may be resumed.
pub resume-Inv :
    (paused : Bool) (n authority : ℕ) (b : Broker)
    → paused ≡ b.paused ⊎ paused ≡ false
    → b.ui_count ≤ n ⊎ (0 < n)
    → Inv b
    → Inv (record b { paused = paused; ui_count = n; authority = authority })
resume-Inv paused n authority b p h v = record {
  supervised = ground arith;
  picking = ground arith;
  few_requests = v.few_requests;
  short_audit = v.short_audit;
  grant_keys = v.grant_keys;
  request_keys = v.request_keys;
  grants_suit = v.grants_suit;
  requests_suit = v.requests_suit;
  picker_suits = v.picker_suits;
}

-- The bounds do not depend on the supervision.
supervise-IsBounded :
    (paused : Bool) (n : ℕ) (b : Broker)
    → Inv b
    → IsBounded (record b { paused = paused; ui_count = n })
supervise-IsBounded paused n b v = record {
  few_requests = v.few_requests;
  short_audit = v.short_audit;
  request_keys = v.request_keys;
  requests_suit = v.requests_suit;
}

pub connect_ui-Inv : (b : Broker) → Inv b → Inv (connect_ui b)
unfolding connect_ui
connect_ui-Inv b v =
    resume-Inv b.paused (b.ui_count + 1) b.authority b (inl refl) (inr (omega arith)) v

pub disconnect_ui_locked-Inv : (now : ℕ) (b : Broker) → Inv b → Inv (disconnect_ui_locked now b)
unfolding disconnect_ui_locked
disconnect_ui_locked-Inv now b v = elim (Bool-cases (eqb (b.ui_count - 1) 0)) [
  | inl last ↦
      rw (last, disconnect_ui_locked)
        (note-Inv now "supervisor_disconnected" _ _
          (clear_locked-Inv now _ (supervise-IsBounded true (b.ui_count - 1) b v)))
  | inr others ↦
      rw (others, disconnect_ui_locked)
        (resume-Inv b.paused (b.ui_count - 1) b.authority b (inl refl) (inr (ground arith)) v)
]

pub set_paused_locked-Inv :
    (now : ℕ) (paused : Bool) (b : Broker) → Inv b → Inv (set_paused_locked now paused b)
unfolding set_paused_locked
set_paused_locked-Inv now true b v =
    note-Inv now "pause" "true" _ (clear_locked-Inv now _ (supervise-IsBounded true b.ui_count b v))
set_paused_locked-Inv now false b v =
    note-Inv now "pause" "false" _
      (resume-Inv false b.ui_count (increment b.authority) b (inr refl) (inl (omega arith)) v)

pub set_mode_locked-Inv :
    (now : ℕ) (mode : Mode) (b : Broker) → Inv b → Inv (set_mode_locked now mode b)
unfolding set_mode_locked
set_mode_locked-Inv now mode b v =
    note-Inv now "mode" _ _ (cleared-Inv now mode b (Inv-IsBounded b v))

pub cancel_share-Inv : (id : String) (b : Broker) → Inv b → Inv (cancel_share id b)
unfolding cancel_share
cancel_share-Inv id b v = elim (Bool-cases (is_picker_id id b.picker)) [
  | inl mine ↦ rw (mine, cancel_share) (unpick-Inv b.authority b v)
  | inr other ↦ rw (other, cancel_share) v
]

pub connect_client-Inv : (id label : String) (b : Broker) → Inv b → Inv (connect_client id label b)
unfolding connect_client
connect_client-Inv id label b v = record {
  supervised = v.supervised;
  picking = v.picking;
  few_requests = v.few_requests;
  short_audit = v.short_audit;
  grant_keys = v.grant_keys;
  request_keys = v.request_keys;
  grants_suit = v.grants_suit;
  requests_suit = v.requests_suit;
  picker_suits = v.picker_suits;
}
