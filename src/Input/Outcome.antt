-- ===== src/Input/Outcome.antt =====
-- What an input call did, by its result (internal/app/desktop.go).
use hyprland_computer_use.Base.{
  String, ◌≡◌, refl, Bool, true, false, Option, none, some, [], length, string_eq,
}
use hyprland_computer_use.Base.Result.{Result, error, ok, Ends}
use hyprland_computer_use.Surfaces.{Floats}
use hyprland_computer_use.Broker.State.{Window, Broker, window, control, Grant}
use hyprland_computer_use.Broker.Permit.{Permit, permit, permitted, requested}
use hyprland_computer_use.Input.Guard.{GuardError, Seats}
use hyprland_computer_use.Input.Deliver.{Delivery, InputFailure}
use hyprland_computer_use.Input.Plan.{plan, requests_sent}
use hyprland_computer_use.Input.Batch.{StoppedAt, Performed, send_actions-Performed}
use hyprland_computer_use.Input.Prepared.{IsPrepared, prepare-IsPrepared}
use hyprland_computer_use.Input.Run.{
  InputArgs, InputEnv, InputProblem, InputResult, rejected, approval_required, failed, completed,
  prepare, check_support, lease, started, session_of, conclude_input, give_back, with_lease,
  with_support, with_permit, with_window, input,
}

module _ (f : Floats) (a : InputArgs f) (env : InputEnv f) where
  -- What was sent, for each result.
  abbrev pub SentFor : Broker → Seats → InputResult × Delivery f → Type 0
  SentFor b seats (rejected x, d) = d.sent ≡ []
  SentFor b seats (approval_required id, d) = d.sent ≡ []
  SentFor b seats (failed x, d) =
      ((w : Window) × IsPrepared f a env w) × StoppedAt f a.actions 0 (started f b seats) x d
  SentFor b seats (completed n, d) =
      ((w : Window) × IsPrepared f a env w)
      × (n ≡ length a.actions)
      × (requests_sent f d ≡ plan f a.actions)

  StoppedAt-broker :
      (d d' : Delivery f) (x : InputFailure) (b : Broker)
      → StoppedAt f a.actions 0 d x d'
      → StoppedAt f a.actions 0 d x (record d' { broker = b })
  StoppedAt-broker d d' x b h = record {
    before = h.before;
    failing = h.failing;
    after = h.after;
    part = h.part;
    left = h.left;
    in_order = h.in_order;
    count_is = h.count_is;
    partly = h.partly;
    sent_so_far = h.sent_so_far;
  }

  conclude_input-SentFor :
      (w : Window) (b : Broker) (seats : Seats) (r : Option InputFailure × Delivery f)
      → IsPrepared f a env w
      → Performed f a.actions 0 (started f b seats) r
      → SentFor b seats (conclude_input f a env w r)
  conclude_input-SentFor w b seats (none, d) p h = ((w, p), refl, h)
  conclude_input-SentFor w b seats (some x, d) p h = (
    (w, p),
    StoppedAt-broker (started f b seats) d x (conclude_input f a env w (some x, d)).1.broker h,
  )

  give_back-SentFor :
      (token : String) (borrowed : Bool) (b : Broker) (seats : Seats) (r : InputResult × Delivery f)
      → SentFor b seats r
      → SentFor b seats (give_back f env token borrowed r)
  give_back-SentFor token false b seats r h = h
  give_back-SentFor token true b seats (rejected x, d) h = h
  give_back-SentFor token true b seats (approval_required id, d) h = h
  give_back-SentFor token true b seats (failed x, d) h = (
    h.0,
    StoppedAt-broker (started f b seats) d x (give_back f env token true (failed x, d)).1.broker
        h.1,
  )
  give_back-SentFor token true b seats (completed n, d) h = h

  -- The state in which the batch starts.
  abbrev Begins : InputResult × Delivery f → Type 0
  Begins r = (b : Broker) × (seats : Seats) × SentFor b seats r

  with_lease-Begins :
      (client : String) (w : Window) (b : Broker) (seats : Seats)
      (r : Result InputProblem (String × Bool))
      → IsPrepared f a env w
      → Begins (with_lease f client a env w b seats r)
  with_lease-Begins client w b seats (error x) p = (b, seats, refl)
  with_lease-Begins client w b seats (ok (token, borrowed)) p = (
    b,
    seats,
    give_back-SentFor token borrowed b seats _ (
        conclude_input-SentFor w b seats _ p (
          send_actions-Performed f (session_of f client a w token) env.turns a.actions 0
            (started f b seats))),
  )

  with_support-Begins :
      (client : String) (w : Window) (g : Option Grant) (b : Broker) (r : Option GuardError × Seats)
      → IsPrepared f a env w
      → Begins (with_support f client a env w g b r)
  with_support-Begins client w g b (some x, seats) p = (b, seats, refl)
  with_support-Begins client w g b (none, seats) p =
      with_lease-Begins client w b seats (lease f env seats g) p

  with_permit-Begins :
      (client : String) (w : Window) (seats : Seats) (r : Permit × Broker)
      → IsPrepared f a env w
      → Begins (with_permit f client a env w seats r)
  with_permit-Begins client w seats (Permit.refused x, b) p = (b, seats, refl)
  with_permit-Begins client w seats (requested id, b) p = (b, seats, refl)
  with_permit-Begins client w seats (permitted g, b) p =
      with_support-Begins client w g b (check_support f env a.actions seats) p

  with_window-Begins :
      (client : String) (b : Broker) (seats : Seats) (r : Result InputProblem Window)
      → Ends (IsPrepared f a env) r
      → Begins (with_window f client a env b seats r)
  with_window-Begins client b seats (error x) p = (b, seats, refl)
  with_window-Begins client b seats (ok w) p =
      with_permit-Begins client w seats
        (permit env.permit_now env.fresh_request client control
          (record { kind = window; id = w.id }) (some w) "Operate this window" b)
        p

  -- An input call that is rejected or that waits for an approval sends none of its requests. One
  -- that reaches the sending was accepted as a whole before: its window was found, is native and
  -- has the revision of the call, there are 1 to 128 actions, and the checks of all actions passed
  -- against the size of the window, or, if the call names a surface, that of the surface with this
  -- ID and revision in the state of the window at the call's revision: every pointer action, and
  -- the end of every drag, lies inside that size. If the call completes, it has sent exactly the
  -- requests of its actions, in their order, and tells their number. If it fails, it has sent all
  -- requests of as many actions as it tells, a first part of the next action's, and nothing of the
  -- actions after that one.
  pub input-SentFor :
      (client : String) (b : Broker) (seats : Seats)
      → (b' : Broker) × (seats' : Seats) × SentFor b' seats' (input f client a env b seats)
  unfolding input
  input-SentFor client b seats =
      with_window-Begins client b seats (prepare f a env) (prepare-IsPrepared f a env)
