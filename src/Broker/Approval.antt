-- ===== src/Broker/Approval.antt =====
-- `decide` (internal/app/broker.go) as a whole: what a successful approval means, and that a
-- failed one gives nothing.
use hyprland_computer_use.Base.{
  ℕ, ◌≡◌, ◌≤◌, length, ◌⊎◌, inl, inr, ◌<◌, ◌+◌, ◌*◌, refl, String, Option, none, some, Bool, true,
  false, arith, string_eq, is_some, Option-cases, Bool-cases,
}
use hyprland_computer_use.Base.Dict.{lookup}
use hyprland_computer_use.Base.Int.{ℤ, pos, negsuc, pos_part}
use hyprland_computer_use.Broker.Cleanup.{Reply, done}
use hyprland_computer_use.Broker.Decide.{
  Approval, Env, approving, cannot_approve, is_bad_duration, begin_request, decide_begin, authorize,
  authorized, grant_of, conclude, still_current, decide_finish, add_grant,
}
use hyprland_computer_use.Broker.State.{
  Request, Broker, approve, pending, control, window, second, Window, Grant,
}
use hyprland_computer_use.Base.{◌≢◌, ◌∙◌, sym, ap, ◌==◌, if◌then◌else◌}
use hyprland_computer_use.Base.Dict.{lookup-insert}
use hyprland_computer_use.Broker.Decide.{
  Outcome, Authorized, failed_with, decide_approved, decide, Begun, denied_now,
}
use hyprland_computer_use.Broker.State.{note}

-- What the first section of an approval has checked.
record IsBegun (now : ℕ) (id : String) (seconds : ℤ) (b : Broker) (a : Approval) : Type 0 where
  found : lookup id b.requests ≡ some a.request
  waiting : a.request.state ≡ pending
  open_for : cannot_approve b ≡ false
  lasting : is_bad_duration seconds ≡ false
  same_id : a.id ≡ id
  ends : a.expires ≡ now + pos_part seconds * second

begin_request-IsBegun :
    (now : ℕ) (id : String) (seconds : ℤ) (approves : Bool) (r : Request) (b : Broker)
    (a : Approval)
    → lookup id b.requests ≡ some r
    → (begin_request now id seconds approves r b).0 ≡ approving a
    → IsBegun now id seconds b a × ((begin_request now id seconds approves r b).1 ≡ b)
unfolding begin_request
begin_request-IsBegun now id seconds approves r b a h e = ground arith

decide_begin-IsBegun :
    (now : ℕ) (id : String) (seconds : ℤ) (approves : Bool) (b : Broker) (a : Approval)
    → (decide_begin now id seconds approves b).0 ≡ approving a
    → IsBegun now id seconds b a × ((decide_begin now id seconds approves b).1 ≡ b)
unfolding decide_begin
decide_begin-IsBegun now id seconds approves b a e = elim (Option-cases (lookup id b.requests)) [
  | inl absent ↦ absurd (cc (rw (absent, decide_begin) at e))
  | inr (r, h) ↦
      rw (h, decide_begin)
        (begin_request-IsBegun now id seconds approves r b a h (rw (h, decide_begin) at e))
]

-- What the compositor's part has checked, for the grant that it hands on.
record IsAuthorized (a : Approval) (fresh : Option String) (target : Option Window) (reply : Reply)
    (g : Grant) : Type 0 where
  new_id : fresh ≡ some g.id
  grant : g ≡ grant_of a g.id
  confirmed : (a.request.capability ≢ control) ⊎ (reply ≡ done)
  there : (a.request.scope.kind ≢ window) ⊎ (is_some target ≡ true)

authorize-IsAuthorized :
    (a : Approval) (fresh : Option String) (has_backend : Bool) (target : Option Window)
    (reply : Reply) (g : Grant) (was_authorized : Bool)
    → authorize a fresh has_backend target reply ≡ authorized g was_authorized
    → IsAuthorized a fresh target reply g
unfolding authorize
authorize-IsAuthorized a none has_backend target reply g was_authorized e = cc
authorize-IsAuthorized a (some id) has_backend target reply g was_authorized e = record {
  new_id = ground arith;
  grant = ground arith;
  confirmed = ground arith;
  there = ground arith;
}

conclude-none :
    (env : Env) (a : Approval) (g : Grant) (was_authorized : Bool) (m b' : Broker)
    → conclude env a g was_authorized m ≡ (none, b')
    → (still_current env.finish_time a m ≡ true) × (b' ≡ add_grant env.finish_time a g m)
unfolding conclude decide_finish
conclude-none env a g true m b' e = elim (Bool-cases (still_current env.finish_time a m)) [
  | inl current ↦
      (current, sym (ap (λ (o : Outcome). o.1) (rw (current, conclude, decide_finish) at e)))
  | inr stale ↦ absurd (cc (rw (stale, conclude, decide_finish) at e))
]
conclude-none env a g false m b' e = elim (Bool-cases (still_current env.finish_time a m)) [
  | inl current ↦
      (current, sym (ap (λ (o : Outcome). o.1) (rw (current, conclude, decide_finish) at e)))
  | inr stale ↦ absurd (cc (rw (stale, conclude, decide_finish) at e))
]

-- The second section writes the one grant.
add_grant-lookup :
    (now : ℕ) (a : Approval) (g : Grant) (m : Broker)
    → still_current now a m ≡ true
    → (k : String)
    → lookup k (add_grant now a g m).grants ≡ (if k == g.id then some g else lookup k m.grants)
unfolding still_current add_grant note
add_grant-lookup now a g m current k = ground (arith, lookup-insert k g.id g m.grants)

still_current-time :
    (now : ℕ) (a : Approval) (m : Broker) → still_current now a m ≡ true → now < a.expires
unfolding still_current
still_current-time now a m current = ground arith

good_duration :
    (seconds : ℤ)
    → is_bad_duration seconds ≡ false
    → (n : ℕ) × (seconds ≡ pos n) × (1 ≤ n) × (n ≤ 3600)
good_duration (pos n) h = (n, refl, ground arith, ground arith)
good_duration (negsuc n) h = absurd (ground arith)

can_approve :
    (b : Broker)
    → cannot_approve b ≡ false
    → (b.paused ≡ false)
      × (b.mode ≡ approve)
      × (1 ≤ b.ui_count)
      × (length b.pending_revocations ≡ 0)
can_approve b h = (ground arith, ground arith, ground arith, ground arith)

-- What a successful approval of the request `id` means, from the state `b` to the state `b'`.
pub record IsGranted (env : Env) (id : String) (seconds : ℤ) (b b' : Broker) (r : Request)
    (g : Grant) : Type 0 where
  -- The request was pending, and the broker open in approve mode.
  pub found : lookup id b.requests ≡ some r
  pub waiting : r.state ≡ pending
  pub open_for :
      (b.paused ≡ false)
      × (b.mode ≡ approve)
      × (1 ≤ b.ui_count)
      × (length b.pending_revocations ≡ 0)
  -- The user chose 1 to 3600 seconds, which have not passed.
  pub lasting : (n : ℕ) × (seconds ≡ pos n) × (1 ≤ n) × (n ≤ 3600)
  pub ends : g.expires ≡ env.begin_time + pos_part seconds * second
  pub in_time : env.finish_time < g.expires
  -- The grant is for what was asked, under the new ID.
  pub new_id : env.grant_id ≡ some g.id
  pub client : g.client ≡ r.client
  pub capability : g.capability ≡ r.capability
  pub scope : g.scope ≡ r.scope
  -- The compositor has accepted a lease for control, and knows the window.
  pub confirmed : (r.capability ≢ control) ⊎ (env.reply ≡ done)
  pub there : (r.scope.kind ≢ window) ⊎ (is_some env.target ≡ true)
  -- It is the only change to the grants, as other goroutines left them.
  pub only :
      (k : String)
      → lookup k b'.grants ≡ (if k == g.id then some g else lookup k (env.between b).grants)

decide_approved-IsGranted :
    (env : Env) (id : String) (seconds : ℤ) (a : Approval) (b b' : Broker)
    → IsBegun env.begin_time id seconds b a
    → decide_approved env a b ≡ (none, b')
    → (g : Grant) × IsGranted env id seconds b b' a.request g
unfolding decide_approved
decide_approved-IsGranted env id seconds a b b' begun e =
    finished (authorize a env.grant_id b.has_backend env.target env.reply) refl
  where
    finished :
        (r : Authorized)
        → authorize a env.grant_id b.has_backend env.target env.reply ≡ r
        → (g : Grant) × IsGranted env id seconds b b' a.request g
    finished (failed_with x) h = absurd (cc (rw (h, decide_approved) at e))
    finished (authorized g was_authorized) h =
        let ok =
          authorize-IsAuthorized a env.grant_id b.has_backend env.target env.reply g was_authorized
            h in
        let done_now =
          conclude-none env a g was_authorized (env.between b) b' (rw (h, decide_approved) at e) in
        (
          g,
          record {
            found = begun.found;
            waiting = begun.waiting;
            open_for = can_approve b begun.open_for;
            lasting = good_duration seconds begun.lasting;
            ends = ap (λ (x : Grant). x.expires) ok.grant ∙ begun.ends;
            in_time =
                rw (ap (λ (x : Grant). x.expires) ok.grant)
                  (still_current-time env.finish_time a (env.between b) done_now.0);
            new_id = ok.new_id;
            client = ap (λ (x : Grant). x.client) ok.grant;
            capability = ap (λ (x : Grant). x.capability) ok.grant;
            scope = ap (λ (x : Grant). x.scope) ok.grant;
            confirmed = ok.confirmed;
            there = ok.there;
            only = λ k.
                rw done_now.1 (add_grant-lookup env.finish_time a g (env.between b) done_now.0 k);
          },
        )

begin-not_denied :
    (now : ℕ) (id : String) (seconds : ℤ) (b : Broker)
    → (decide_begin now id seconds true b).0 ≢ denied_now
unfolding decide_begin
begin-not_denied now id seconds b e = ground arith

-- A successful approval was of a pending request, by a broker that was open in approve mode, for 1
-- to 3600 seconds, with a new ID; for control the compositor accepted the lease, and for a window
-- scope the window was there. Its only effect on the grants, as the other goroutines left them, is
-- one grant under the new ID, to the client that asked, for the capability and the scope that it
-- asked for, which ends that many seconds after the user's decision and has not ended yet.
pub decide-IsGranted :
    (env : Env) (id : String) (seconds : ℤ) (b b' : Broker)
    → decide env id seconds true b ≡ (none, b')
    → (r : Request) × (g : Grant) × IsGranted env id seconds b b' r g
unfolding decide
decide-IsGranted env id seconds b b' e =
    started (decide_begin env.begin_time id seconds true b).0 refl
  where
    started :
        (r : Begun)
        → (decide_begin env.begin_time id seconds true b).0 ≡ r
        → (q : Request) × (g : Grant) × IsGranted env id seconds b b' q g
    started (Begun.refused x) h = absurd (ground arith)
    started denied_now h = absurd (ground (arith, begin-not_denied env.begin_time id seconds b))
    started (approving a) h =
        let begun = decide_begin-IsBegun env.begin_time id seconds true b a h in
        let r = decide_approved-IsGranted env id seconds a b b' begun.0 (ground (arith, begun.1)) in
        (a.request, r.0, r.1)
