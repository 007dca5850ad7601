-- ===== src/Broker/Decide.antt =====
-- internal/app/broker.go: `decide`. It has two critical sections with calls of the compositor
-- between them; `Env` holds all that comes from outside, what other goroutines do included.
use hyprland_computer_use.Base.{
  ℕ, ◌+◌, ◌*◌, String, ◌<>◌, Bool, true, false, not, ◌&&◌, ◌||◌, Option, none, some, ltb, eqb,
}
use hyprland_computer_use.Base.{if◌then◌else◌, ◌==◌, string_eq, length, is_some}
use hyprland_computer_use.Base.Dict.{lookup, insert}
use hyprland_computer_use.Base.Int.{ℤ, pos, pos_part, ltb_ℤ}
use hyprland_computer_use.Base.Text.{sprint}
use hyprland_computer_use.Broker.State.{
  control, window, GuardOp, Window, Grant, Request, pending, denied, granted, approve, Broker, note,
  second,
}
use hyprland_computer_use.Broker.State.{capability_eq, kind_eq, state_eq, mode_eq}
use hyprland_computer_use.Broker.Scope.{
  Error, not_pending, cannot_grant, bad_duration, random_failed, target_unavailable, target_closed,
  guard_failed, request_changed,
}
use hyprland_computer_use.Broker.Cleanup.{Reply, done, failed, cleanup_guard}

-- What the first section of an approval hands on: the copied request, the authority epoch, and
-- the grant's end.
pub record Approval : Type 0 where
  pub id : String
  pub request : Request
  pub seconds : ℕ
  pub authority : ℕ
  pub expires : ℕ

pub data Begun : Type 0 where
  refused : Error → Begun
  denied_now : Begun
  approving : Approval → Begun

-- `b.paused || b.uiCount == 0 || b.mode != "approve" || len(b.pendingRevocations) > 0`
abbrev pub cannot_approve : Broker → Bool
cannot_approve b =
    b.paused
    || (eqb b.ui_count 0 || (not (b.mode == approve) || ltb 0 (length b.pending_revocations)))

abbrev pub is_bad_duration : ℤ → Bool
is_bad_duration n = ltb_ℤ n (pos 1) || ltb_ℤ (pos 3600) n

-- The first section, for a request that is there.
unfoldable pub begin_request : ℕ → String → ℤ → Bool → Request → Broker → Begun × Broker
unfolding note
begin_request now id seconds approves r b =
    if not (r.state == pending)
    then (refused not_pending, b)
    else if not approves
    then (
      denied_now,
      note now "denied" r.label
          (record b { requests = insert id (record r { state = denied }) b.requests }),
    )
    else if cannot_approve b
    then (refused cannot_grant, b)
    else if is_bad_duration seconds
    then (refused bad_duration, b)
    else (
      approving (record {
        id = id;
        request = r;
        seconds = pos_part seconds;
        authority = b.authority;
        expires = now + pos_part seconds * second;
      }),
      b,
    )

unfoldable pub decide_begin : ℕ → String → ℤ → Bool → Broker → Begun × Broker
unfolding begin_request
decide_begin now id seconds approves b = elim (lookup id b.requests) [
  | none ↦ (refused not_pending, b)
  | some r ↦ begin_request now id seconds approves r b
]

abbrev pub grant_of : Approval → String → Grant
grant_of a id = record {
  id = id;
  client = a.request.client;
  capability = a.request.capability;
  scope = a.request.scope;
  label = a.request.label;
  expires = a.expires;
}

-- Whether the grant was authorized with the compositor, and the grant.
pub data Authorized : Type 0 where
  failed_with : Error → Authorized
  authorized : Grant → Bool → Authorized

-- The compositor's part of `decide`: `target` is the reply to `backend.window`, and `reply` to the
-- "authorize" request, which is sent for control only.
unfoldable pub authorize : Approval → Option String → Bool → Option Window → Reply → Authorized
authorize a none has_backend target reply = failed_with random_failed
authorize a (some id) has_backend target reply =
    let windowed = a.request.capability == control || a.request.scope.kind == window in
    if windowed && not has_backend
    then failed_with target_unavailable
    else if windowed && not (is_some target)
    then failed_with target_closed
    else if a.request.capability == control
    then elim reply [
      | failed e ↦ failed_with (guard_failed e)
      | done ↦ authorized (grant_of a id) true
    ]
    else authorized (grant_of a id) false

-- `current == r && current.State == "pending"`: a pointer test on the request that is there now.
abbrev pub is_current : Approval → Option Request → Bool
is_current a none = false
is_current a (some r) = eqb r.ref a.request.ref && r.state == pending

unfoldable pub still_current : ℕ → Approval → Broker → Bool
still_current now a b =
    is_current a (lookup a.id b.requests)
    && (eqb b.authority a.authority
        && (not b.paused
            && (eqb (length b.pending_revocations) 0
                && (ltb 0 b.ui_count && (b.mode == approve && ltb now a.expires)))))

-- The writes of the second section.
unfoldable pub add_grant : ℕ → Approval → Grant → Broker → Broker
unfolding note
add_grant now a g b = elim (lookup a.id b.requests) [
  | none ↦ b
  | some r ↦ note now "granted" (r.label <> " for " <> sprint (pos a.seconds) <> "s") (record b {
    grants = insert g.id g b.grants;
    requests = insert a.id (record r { state = granted }) b.requests;
  })
]

-- The second section: whether the grant was added.
unfoldable pub decide_finish : ℕ → Approval → Grant → Broker → Bool × Broker
unfolding still_current add_grant
decide_finish now a g b = if still_current now a b then (true, add_grant now a g b) else (false, b)

pub record Env : Type 0 where
  -- The clock in the first section, in the second and in the cleanup.
  pub begin_time : ℕ
  pub finish_time : ℕ
  pub cleanup_time : ℕ
  pub grant_id : Option String
  pub target : Option Window
  pub reply : Reply
  pub cleanup_reply : Reply
  -- What others do before the second section, and before the cleanup.
  pub between : Broker → Broker
  pub before_cleanup : Broker → Broker

abbrev pub Outcome : Type 0
Outcome = Option Error × Broker

-- From the second section on.
unfoldable pub conclude : Env → Approval → Grant → Bool → Broker → Outcome
unfolding decide_finish cleanup_guard
conclude env a g was_authorized b =
    let (added, b') = decide_finish env.finish_time a g b in
    let cleaned =
      cleanup_guard env.cleanup_time (GuardOp.revoke g.id) env.cleanup_reply
        (env.before_cleanup b') in
    if added
    then (none, b')
    else if was_authorized
    then (some request_changed, cleaned)
    else (some request_changed, b')

unfoldable pub decide_approved : Env → Approval → Broker → Outcome
unfolding authorize conclude
decide_approved env a b = elim (authorize a env.grant_id b.has_backend env.target env.reply) [
  | failed_with e ↦ (some e, env.between b)
  | authorized g was_authorized ↦ conclude env a g was_authorized (env.between b)
]

abbrev pub after_begin : Env → Begun × Broker → Outcome
after_begin env (refused e, b) = (some e, b)
after_begin env (denied_now, b) = (none, b)
after_begin env (approving a, b) = decide_approved env a b

unfoldable pub decide : Env → String → ℤ → Bool → Broker → Outcome
unfolding decide_begin decide_approved
decide env id seconds approves b =
    after_begin env (decide_begin env.begin_time id seconds approves b)
