-- ===== src/Input/Allowed.antt =====
-- Every request of an input call was allowed when it was sent (internal/app/desktop.go).
use hyprland_computer_use.Base.{arith}
use hyprland_computer_use.Base.{
  String, ◌≡◌, ◌≢◌, Bool, true, false, Option, none, some, List, [], ◌∷◌, All, ◌==◌, string_eq,
}
use hyprland_computer_use.Base.Result.{Result, error, ok, Ends}
use hyprland_computer_use.Surfaces.{Floats}
use hyprland_computer_use.Broker.State.{Window, Broker, window, control, Grant}
use hyprland_computer_use.Broker.Scope.{allowed}
use hyprland_computer_use.Broker.Permit.{Permit, permit, permitted, requested}
use hyprland_computer_use.Input.Guard.{GuardError, Seats}
use hyprland_computer_use.Input.Deliver.{Delivery, Sent, InputFailure, send_actions}
use hyprland_computer_use.Input.Authorized.{IsAuthorized, send_actions-AllAuthorized}
use hyprland_computer_use.Input.Run.{
  InputArgs, InputEnv, InputProblem, InputResult, prepare, check_support, lease, started,
  session_of, conclude_input, give_back, with_lease, with_support, with_permit, with_window, input,
}
use hyprland_computer_use.Input.Prepared.{IsPrepared, prepare-IsPrepared}

module _ (f : Floats) (a : InputArgs f) (env : InputEnv f) (client : String) where
  -- The client could control the window of the call, and the request is for its geometry.
  abbrev pub IsAllowed : Sent f → Type 0
  IsAllowed x =
      (w : Window) × (env.found ≡ some w)
      × (allowed x.time client control (record { kind = window; id = w.id }) (some w) x.under
          ≢ none)
      × (x.message.revision ≡ a.revision)
      × ((a.revision == w.revision) ≡ true)

  abbrev AllAllowed : InputResult × Delivery f → Type 0
  AllAllowed r = All IsAllowed r.1.sent

  authorized-IsAllowed :
      (w : Window) (token : String)
      → IsPrepared f a env w
      → (xs : List (Sent f)) → All (IsAuthorized f (session_of f client a w token)) xs
      → All IsAllowed xs
  authorized-IsAllowed w token p [] h = tt
  authorized-IsAllowed w token p (x ∷ xs) (h, hs) =
      ((w, p.found, h.0, h.2, ground (arith, p.is_fresh)), authorized-IsAllowed w token p xs hs)

  conclude_input-AllAllowed :
      (w : Window) (r : Option InputFailure × Delivery f)
      → All IsAllowed r.1.sent
      → AllAllowed (conclude_input f a env w r)
  conclude_input-AllAllowed w (none, d) h = h
  conclude_input-AllAllowed w (some x, d) h = h

  give_back-AllAllowed :
      (token : String) (borrowed : Bool) (r : InputResult × Delivery f)
      → AllAllowed r
      → AllAllowed (give_back f env token borrowed r)
  give_back-AllAllowed token false r h = h
  give_back-AllAllowed token true (r, d) h = h

  with_lease-AllAllowed :
      (w : Window) (b : Broker) (seats : Seats) (r : Result InputProblem (String × Bool))
      → IsPrepared f a env w
      → AllAllowed (with_lease f client a env w b seats r)
  with_lease-AllAllowed w b seats (error x) p = tt
  with_lease-AllAllowed w b seats (ok (token, borrowed)) p =
      let s = session_of f client a w token in
      let sent = send_actions f s env.turns a.actions 0 (started f b seats) in
      give_back-AllAllowed token borrowed (conclude_input f a env w sent) (
        conclude_input-AllAllowed w sent (
          authorized-IsAllowed w token p sent.1.sent
            (send_actions-AllAuthorized f s env.turns a.actions 0 (started f b seats) tt)))

  with_support-AllAllowed :
      (w : Window) (g : Option Grant) (b : Broker) (r : Option GuardError × Seats)
      → IsPrepared f a env w
      → AllAllowed (with_support f client a env w g b r)
  with_support-AllAllowed w g b (some x, seats) p = tt
  with_support-AllAllowed w g b (none, seats) p =
      with_lease-AllAllowed w b seats (lease f env seats g) p

  with_permit-AllAllowed :
      (w : Window) (seats : Seats) (r : Permit × Broker)
      → IsPrepared f a env w
      → AllAllowed (with_permit f client a env w seats r)
  with_permit-AllAllowed w seats (Permit.refused x, b) p = tt
  with_permit-AllAllowed w seats (requested id, b) p = tt
  with_permit-AllAllowed w seats (permitted g, b) p =
      with_support-AllAllowed w g b (check_support f env a.actions seats) p

  with_window-AllAllowed :
      (b : Broker) (seats : Seats) (r : Result InputProblem Window)
      → Ends (IsPrepared f a env) r
      → AllAllowed (with_window f client a env b seats r)
  with_window-AllAllowed b seats (error x) p = tt
  with_window-AllAllowed b seats (ok w) p =
      with_permit-AllAllowed w seats
        (permit env.permit_now env.fresh_request client control
          (record { kind = window; id = w.id }) (some w) "Operate this window" b)
        p

  -- Every request that an input call hands to the guard was checked just before: the client could
  -- control the window that the call found, at that time and under that state of the broker,
  -- whatever other goroutines did between the requests. The request carries the geometry revision
  -- of the call, which is the one of that window.
  pub input-AllAllowed :
      (b : Broker) (seats : Seats) → All IsAllowed (input f client a env b seats).1.sent
  unfolding input
  input-AllAllowed b seats =
      with_window-AllAllowed b seats (prepare f a env) (prepare-IsPrepared f a env)
