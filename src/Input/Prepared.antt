-- ===== src/Input/Prepared.antt =====
-- What the checks of `input` before any effect leave known (internal/app/desktop.go): the size that
-- the coordinates refer to, and the actions inside of it.
use hyprland_computer_use.Base.{
  ℕ, ◌≡◌, ◌≢◌, ◌≤◌, refl, arith, ◌==◌, string_eq, string_discrete, Bool, true, false, not, ◌&&◌,
  Option, none, some, List, [], ◌∷◌, length, All, Any, here, there, eqb, ltb,
}
use hyprland_computer_use.Base.Int.{pos}
use hyprland_computer_use.Base.Result.{ok, Ends, Ends-bind, Ends-unless, Ends-or_error}
use hyprland_computer_use.Surfaces.{
  Floats, SurfaceInfo, WindowSurfaceState, StateResult, refused, accepted, window_state,
}
use hyprland_computer_use.Broker.State.{Window}
use hyprland_computer_use.Input.Decoded.{IsPointer, on_move, on_click, on_drag, on_scroll}
use hyprland_computer_use.Input.Pointer.{
  Action, ActionType, drag, InputError, validate_pointer, then_check, is_pointer,
}
use hyprland_computer_use.Input.Check.{bytes_with, check_action, check_actions}
use hyprland_computer_use.Input.Run.{
  InputArgs, InputEnv, prepare, check_observation, is_known, bad_follow_up, bad_action_count,
  window_unavailable, check_bounds, native_window_required, stale_geometry, surface_pair,
  is_good_pair, surface_size, selected_size, input_bounds, accept_actions,
}

module _ (f : Floats) where
  -- A point that is on or after the origin and before the size.
  abbrev pub IsInside : f.Float × f.Float → f.Float → f.Float → Type 0
  IsInside (width, height) x y =
      (f.at_least x (f.of_int (pos 0)) ≡ true)
      × (f.at_least y (f.of_int (pos 0)) ≡ true)
      × (f.less x width ≡ true)
      × (f.less y height ≡ true)

  pub record IsAimed (size : f.Float × f.Float) (a : Action f) : Type 0 where
    pub at_start : IsPointer a.type → IsInside size a.x a.y
    pub at_end : a.type ≡ drag → IsInside size a.to_x a.to_y

  abbrev pub IsSurface : InputArgs f → f.Float × f.Float → SurfaceInfo f → Type 0
  IsSurface a size s = (s.id ≡ a.surface) × (s.revision ≡ a.surface_revision) × (s.size ≡ size)

  -- The size of the window, or that of the surface of the call in the window's state.
  pub data HasSize (a : InputArgs f) (env : InputEnv f) (w : Window) (size : f.Float × f.Float)
      : Type 0 where
    of_window :
        a.surface ≡ "" → size ≡ (f.of_int w.size.0, f.of_int w.size.1) → HasSize a env w size
    of_surface :
        a.surface ≢ ""
        → (s : WindowSurfaceState f) → window_state f w.id env.state_reply ≡ accepted s
        → s.revision ≡ a.revision
        → Any (IsSurface a size) s.surfaces
        → HasSize a env w size

  surface_size-IsSurface :
      (a : InputArgs f) (size : f.Float × f.Float) (surfaces : List (SurfaceInfo f))
      → surface_size f a.surface a.surface_revision surfaces ≡ ok size
      → Any (IsSurface a size) surfaces
  surface_size-IsSurface a size [] h = cc
  surface_size-IsSurface a size (s ∷ surfaces) h = elim (string_discrete s.id a.surface) [
    | yes e ↦ elim (string_discrete s.revision a.surface_revision) [
      | yes r ↦ here (e, r, ground (arith, e, r, h))
      | no r ↦ absurd (ground (arith, e, r, h))
    ]
    | no ne ↦ there (surface_size-IsSurface a size surfaces (ground (arith, ne, h)))
  ]

  selected_size-HasSize :
      (a : InputArgs f) (env : InputEnv f) (w : Window) (size : f.Float × f.Float)
      (r : StateResult f)
      → a.surface ≢ ""
      → window_state f w.id env.state_reply ≡ r
      → selected_size f a r ≡ ok size
      → HasSize a env w size
  selected_size-HasSize a env w size (refused x) ne e h = cc
  selected_size-HasSize a env w size (accepted s) ne e h =
      elim (string_discrete s.revision a.revision) [
        | yes r ↦
            of_surface ne s e r (surface_size-IsSurface a size s.surfaces (ground (arith, r, h)))
        | no r ↦ absurd (ground (arith, r, h))
      ]

  input_bounds-HasSize :
      (a : InputArgs f) (env : InputEnv f) (w : Window) (size : f.Float × f.Float)
      → input_bounds f a w env.state_reply ≡ ok size
      → HasSize a env w size
  input_bounds-HasSize a env w size h = elim (string_discrete a.surface "") [
    | yes e ↦ of_window e (ground (arith, e, h))
    | no ne ↦
        selected_size-HasSize a env w size (window_state f w.id env.state_reply) ne refl
          (ground (arith, ne, h))
  ]

  pointer : (t : ActionType) → IsPointer t → is_pointer f t ≡ true
  pointer _ on_move = refl
  pointer _ on_click = refl
  pointer _ on_drag = refl
  pointer _ on_scroll = refl

  validate_pointer-IsAimed :
      (a : Action f) (size : f.Float × f.Float) → validate_pointer f a size ≡ none → IsAimed size a
  unfolding validate_pointer
  validate_pointer-IsAimed a size h = record {
    at_start = λ p.
        let e = pointer a.type p in
        (ground (arith, e, h), ground (arith, e, h), ground (arith, e, h), ground (arith, e, h));
    at_end = λ e.
        (ground (arith, e, h), ground (arith, e, h), ground (arith, e, h), ground (arith, e, h));
  }

  check_action-pointer :
      (on_surface : Bool) (size : f.Float × f.Float) (total : ℕ) (a : Action f)
      → check_action f on_surface size total a ≡ none
      → validate_pointer f a size ≡ none
  unfolding check_action
  check_action-pointer on_surface size total a h = ground arith

  check_actions-IsAimed :
      (on_surface : Bool) (total : ℕ) (size : f.Float × f.Float) (actions : List (Action f))
      → check_actions f on_surface total size actions ≡ none
      → All (IsAimed size) actions
  unfolding check_actions
  check_actions-IsAimed on_surface total size [] h = tt
  check_actions-IsAimed on_surface total size (a ∷ actions) h =
      let first = check_action f on_surface size (bytes_with f total a) a in
      let split =
        then_check-none first (check_actions f on_surface (bytes_with f total a) size actions) h in
      (
        validate_pointer-IsAimed a size
            (check_action-pointer on_surface size (bytes_with f total a) a split.0),
        check_actions-IsAimed on_surface (bytes_with f total a) size actions split.1,
      )
    where
      then_check-none :
          (x y : Option InputError) → then_check f x y ≡ none → (x ≡ none) × (y ≡ none)
      then_check-none none y k = (refl, k)
      then_check-none (some x) y k = cc

-- All checks passed, for the window that was found.
pub record IsPrepared (f : Floats) (a : InputArgs f) (env : InputEnv f) (w : Window) : Type 0 where
  pub found : env.found ≡ some w
  pub native : w.xwayland ≡ false
  pub is_fresh : a.revision ≡ w.revision
  pub count : (1 ≤ length a.actions) × (length a.actions ≤ 128)
  pub size : f.Float × f.Float
  pub sized : HasSize f a env w size
  pub accepted : check_actions f (not (a.surface == "")) 0 size a.actions ≡ none
  pub aimed : All (IsAimed f size) a.actions

module _ (f : Floats) (a : InputArgs f) (env : InputEnv f) where
  last :
      (w : Window) (size : f.Float × f.Float)
      → env.found ≡ some w
      → w.xwayland ≡ false
      → a.revision ≡ w.revision
      → (1 ≤ length a.actions) × (length a.actions ≤ 128)
      → HasSize f a env w size
      → (o : Option InputError) → check_actions f (not (a.surface == "")) 0 size a.actions ≡ o
      → Ends (IsPrepared f a env) (accept_actions f o w)
  last w size found native is_fresh count sized none h = record {
    found = found;
    native = native;
    is_fresh = is_fresh;
    count = count;
    size = size;
    sized = sized;
    accepted = h;
    aimed = check_actions-IsAimed f (not (a.surface == "")) 0 size a.actions h;
  }
  last w size found native is_fresh count sized (some x) h = tt

  pub prepare-IsPrepared : Ends (IsPrepared f a env) (prepare f a env)
  unfolding prepare
  prepare-IsPrepared = Ends-bind P (check_observation f a.follow_up a.observation) _ (λ u observed.
      Ends-unless P bad_follow_up (is_known a.follow_up) _ (λ followed.
        Ends-unless P bad_action_count
          (not (eqb (length a.actions) 0) && not (ltb 128 (length a.actions))) _
          (λ counted. Ends-or_error P window_unavailable env.found _ (λ w found.
            Ends-bind P (check_bounds f w a.observation) _ (λ v bounded.
              Ends-unless P native_window_required (not w.xwayland) _ (λ native.
                Ends-unless P stale_geometry (a.revision == w.revision) _ (λ is_fresh.
                  Ends-unless P surface_pair (is_good_pair f a) _ (λ paired.
                    Ends-bind P (input_bounds f a w env.state_reply) _ (λ size sized.
                      last w size found (ground arith) (ground (arith, is_fresh))
                        (ground (arith, counted), ground (arith, counted))
                        (input_bounds-HasSize f a env w size sized)
                        (check_actions f (not (a.surface == "")) 0 size a.actions) refl)))))))))
    where
      P : Window → Type 0
      P = IsPrepared f a env
