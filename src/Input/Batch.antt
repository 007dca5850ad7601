-- ===== src/Input/Batch.antt =====
-- A batch sends what it asks for, in its order, and says how far it came (internal/app/desktop.go).
use hyprland_computer_use.Base.{
  ℕ, suc, ◌+◌, ◌≡◌, refl, sym, ap, ◌∙◌, arith, Option, none, some, List, [], ◌∷◌, ◌++◌, length,
}
use hyprland_computer_use.Surfaces.{Floats}
use hyprland_computer_use.Input.Pointer.{Action}
use hyprland_computer_use.Input.Deliver.{
  Delivery, Session, Turn, GuardRequest, InputFailure, Acted, acted, send_action, send_actions,
}
use hyprland_computer_use.Input.Plan.{
  requests_of, plan, requests_sent, Performs, send_action-Performs,
}
use mathlib.Core.List.{append_assoc, append-nil}

-- Where a batch stopped: the actions before, all of whose requests were sent, the action that
-- failed, and the first part of its requests, which were sent as well.
pub record StoppedAt (f : Floats) (actions : List (Action f)) (i : ℕ) (d : Delivery f)
    (x : InputFailure) (d' : Delivery f) : Type 0 where
  pub before : List (Action f)
  pub failing : Action f
  pub after : List (Action f)
  pub part : List (GuardRequest f)
  pub left : List (GuardRequest f)
  pub in_order : actions ≡ before ++ (failing ∷ after)
  pub count_is : x.completed_actions ≡ i + length before
  pub partly : requests_of f failing.type failing ≡ part ++ left
  pub sent_so_far : requests_sent f d' ≡ requests_sent f d ++ (plan f before ++ part)

module _ (f : Floats) where
  abbrev pub Performed :
      List (Action f) → ℕ → Delivery f → Option InputFailure × Delivery f → Type 0
  Performed actions i d (none, d') = requests_sent f d' ≡ requests_sent f d ++ plan f actions
  Performed actions i d (some x, d') = StoppedAt f actions i d x d'

  -- One action was performed, and then the others.
  continue :
      (a : Action f) (actions : List (Action f)) (i : ℕ) (d d' : Delivery f)
      (r : Option InputFailure × Delivery f)
      → requests_sent f d' ≡ requests_sent f d ++ requests_of f a.type a
      → Performed actions (suc i) d' r
      → Performed (a ∷ actions) i d r
  continue a actions i d d' (none, d'') h k =
      k
      ∙ ap (λ (t : List (GuardRequest f)). t ++ plan f actions) h
      ∙ append_assoc (requests_sent f d) (requests_of f a.type a) (plan f actions)
  continue a actions i d d' (some x, d'') h k = record {
    before = a ∷ k.before;
    failing = k.failing;
    after = k.after;
    part = k.part;
    left = k.left;
    in_order = ap (λ (t : List (Action f)). a ∷ t) k.in_order;
    count_is = omega (arith, k.count_is);
    partly = k.partly;
    sent_so_far =
        k.sent_so_far
        ∙ ap (λ (t : List (GuardRequest f)). t ++ (plan f k.before ++ k.part)) h
        ∙ append_assoc (requests_sent f d) (requests_of f a.type a) (plan f k.before ++ k.part)
        ∙ ap (λ (t : List (GuardRequest f)). requests_sent f d ++ t)
            (sym (append_assoc (requests_of f a.type a) (plan f k.before) k.part));
  }

  -- If a batch ends without an error, it has sent exactly the requests that its actions ask for, in
  -- their order. If it fails, the failure's count is the number of the actions before the failing
  -- one: all requests of these were sent, then a first part of the failing action's requests, and
  -- nothing of the actions after it.
  pub send_actions-Performed :
      (s : Session) (turns : ℕ → Turn) (actions : List (Action f)) (i : ℕ) (d : Delivery f)
      → Performed actions i d (send_actions f s turns actions i d)
  unfolding send_actions
  send_actions-Performed s turns [] i d = sym (append-nil (requests_sent f d))
  send_actions-Performed s turns (a ∷ actions) i d =
      go (send_action f s turns a.type a d) (send_action-Performs f s turns a.type a d)
        (λ d'. send_actions-Performed s turns actions (suc i) d')
    where
      go :
          (r : Acted f)
          → Performs f (requests_of f a.type a) d r
          → ((d' : Delivery f)
              → Performed actions (suc i) d' (send_actions f s turns actions (suc i) d'))
          → Performed (a ∷ actions) i d (acted f i (send_actions f s turns actions) r)
      go (none, (n, d')) h rest =
          continue a actions i d d' (send_actions f s turns actions (suc i) d') h (rest d')
      go (some x, (n, d')) (front, left, same, sent) rest = record {
        before = [];
        failing = a;
        after = actions;
        part = front;
        left = left;
        in_order = refl;
        count_is = omega arith;
        partly = same;
        sent_so_far = sent;
      }
