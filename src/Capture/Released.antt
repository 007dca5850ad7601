-- ===== src/Capture/Released.antt =====
-- Pixels are released only for the window that was captured, unlocked and still allowed
-- (internal/app/observation.go and internal/app/desktop.go).
use hyprland_computer_use.Base.{
  ◌||◌, if◌then◌else◌, String, ◌≡◌, ◌≢◌, refl, sym, ◌∙◌, true, false, not, ◌&&◌, Option, none, some,
  is_some, leb,
}
use mathlib.Core.Path.{subst}
use hyprland_computer_use.Base.Result.{
  no_error, Passed, Result, error, ok, Ends, Ends-bind, Ends-unless, Ends-or_error,
}
use hyprland_computer_use.Broker.State.{Window, Broker, observe, Grant}
use hyprland_computer_use.Broker.Scope.{allowed}
use hyprland_computer_use.Broker.Permit.{Permit, permitted, requested, refused, permit}
use hyprland_computer_use.Capture.Unlocked.{
  SaysUnlocked, guard-SaysUnlocked, IsSame, is_same-IsSame,
}
use hyprland_computer_use.Input.Guard.{GuardError, status, guard}
use hyprland_computer_use.Capture.Options.{
  CaptureOptions, CaptureRegion, capture_bounds, validate_options,
}
use hyprland_computer_use.Capture.Grab.{
  window_unavailable, context_ended, is_crop_size, budget, must_crop, crop_image, Imaging,
  CaptureEnv, CaptureError, window_not_visible, crop_budget, grim_failed, capture_too_large,
  invalid_capture, window_changed, as_capture, as_guard, capture, is_same, is_shown, has_size,
}
use hyprland_computer_use.Capture.Observe.{
  Frame, released, ObserveEnv, window_scope, capture_metadata, take_frame, release_if, release,
  observe_permitted, observe_window, chosen_window, observe_with_options,
}

-- The guard reported an unlocked session, before and after the capture.
pub record IsUnlocked (I : Imaging) (env : CaptureEnv I) : Type 0 where
  pub before : (guard (status false false true) env.status_before env.seats).0 ≡ none
  pub after : (guard (status false false true) env.status_after env.seats).0 ≡ none
  pub says_before : SaysUnlocked env.status_before
  pub says_after : SaysUnlocked env.status_after

some_not_none : {A : Type 0} {a : A} → some a ≢ none
some_not_none h = cc

as_guard-ok : (o : Option GuardError) (u : Passed) → as_guard o ≡ ok u → o ≡ none
as_guard-ok none u h = refl
as_guard-ok (some x) u h = cc

module _ (I : Imaging) where
  capture-IsUnlocked :
      (o : CaptureOptions) (w : Window) (env : CaptureEnv I)
      → Ends (λ pixels. IsUnlocked I env) (capture I o w env)
  unfolding capture
  capture-IsUnlocked o w env =
      Ends-unless P window_not_visible (is_shown w && has_size w.size) _ (λ visible.
        Ends-bind P (as_capture (capture_bounds o w)) _ (λ region inside.
          Ends-unless P crop_budget (not (is_some o.region) || is_crop_size w.size) _ (λ within.
            Ends-bind P (as_guard (guard (status false false true) env.status_before env.seats).0) _
              (λ u before. Ends-or_error P grim_failed env.grabbed _ (λ pixels grabbed.
                Ends-unless P capture_too_large (leb (I.bytes pixels) budget) _ (λ small.
                  Ends-or_error P invalid_capture (I.decode_config pixels) _ (λ config decoded.
                    Ends-unless P invalid_capture (leb 1 config.1 && leb 1 config.2) _ (λ positive.
                      Ends-or_error P window_changed env.window_after _ (λ found there.
                        Ends-unless P window_changed (is_same w found) _ (λ unchanged.
                          Ends-bind P
                            (as_guard
                              (guard (status false false true) env.status_after env.seats).0)
                            _
                            (λ v after.
                              always
                                (if must_crop I o w config
                                  then crop_image I o w pixels
                                  else ok pixels)
                                (record {
                                  before =
                                      as_guard-ok
                                        (guard (status false false true) env.status_before
                                          env.seats).0
                                        u before;
                                  after =
                                      as_guard-ok
                                        (guard (status false false true) env.status_after
                                          env.seats).0
                                        v after;
                                  says_before = guard-SaysUnlocked env.status_before env.seats (
                                      as_guard-ok
                                        (guard (status false false true) env.status_before
                                          env.seats).0
                                        u before);
                                  says_after = guard-SaysUnlocked env.status_after env.seats (
                                      as_guard-ok
                                        (guard (status false false true) env.status_after
                                          env.seats).0
                                        v after);
                                }))))))))))))
    where
      P : I.Data → Type 0
      P pixels = IsUnlocked I env

      always : (r : Result CaptureError I.Data) → IsUnlocked I env → Ends P r
      always (error x) h = tt
      always (ok pixels) h = h

  abbrev pub Taken : Type 0
  Taken = Window × Frame × I.Data

  -- The window after the capture is the one that was captured.
  pub record IsTaken (w : Window) (env : ObserveEnv I) (t : Taken) : Type 0 where
    pub now_there : env.current ≡ some t.0
    pub unchanged : is_same w t.0 ≡ true
    pub unlocked : IsUnlocked I env.captured

  take_frame-IsTaken :
      (o : CaptureOptions) (w : Window) (env : ObserveEnv I)
      → Ends (IsTaken w env) (take_frame I o w env)
  unfolding take_frame
  take_frame-IsTaken o w env =
      Ends-bind (IsTaken w env) (capture I o w env.captured) _ (λ pixels captured.
        Ends-or_error (IsTaken w env) window_unavailable env.current _ (λ current there.
          Ends-unless (IsTaken w env) window_changed (is_same w current) _ (λ unchanged.
            Ends-bind (IsTaken w env) (capture_metadata I o.region current pixels) _
              (λ frame described.
                Ends-unless (IsTaken w env) context_ended (not env.context_done) _ (λ in_time.
                  record {
                    now_there = there;
                    unchanged = unchanged;
                    unlocked =
                        subst (Ends (λ px. IsUnlocked I env.captured)) captured
                          (capture-IsUnlocked o w env.captured);
                  })))))

  -- What a release promises, for the window that was found first.
  pub record IsReleased (client : String) (env : ObserveEnv I) (b : Broker) (w : Window)
      : Type 0 where
    pub current : Window
    pub taken : (env.current ≡ some current) × IsSame w current × IsUnlocked I env.captured
    pub allowed_now : allowed env.now client observe (window_scope current) (some current) b ≢ none

  release-IsReleased :
      (client : String) (o : CaptureOptions) (w : Window) (env : ObserveEnv I) (b : Broker)
      (frame : Frame) (pixels : I.Data)
      → (release I client env.now w b (take_frame I o w env)).0 ≡ released frame pixels
      → IsReleased client env b w
  release-IsReleased client o w env b frame pixels h =
      from (take_frame I o w env) (take_frame-IsTaken o w env) h
    where
      seen :
          (current : Window) (fr : Frame) (px : I.Data) (g : Option (Option Grant))
          → allowed env.now client observe (window_scope current) (some current) b ≡ g
          → (release_if I env.now w fr px g b).0 ≡ released frame pixels
          → allowed env.now client observe (window_scope current) (some current) b ≢ none
      seen current fr px none e k = cc
      seen current fr px (some g) e k = λ no. some_not_none (sym e ∙ no)

      from :
          (r : Result CaptureError Taken)
          → Ends (IsTaken w env) r
          → (release I client env.now w b r).0 ≡ released frame pixels
          → IsReleased client env b w
      from (error x) t k = cc
      from (ok (current, fr, px)) t k = record {
        current = current;
        taken = (t.now_there, is_same-IsSame w current t.unchanged, t.unlocked);
        allowed_now = seen current fr px _ refl k;
      }

  -- The window that is found first, and a region of it.
  unfoldable IsChosen : CaptureOptions → ObserveEnv I → Window → Type 0
  IsChosen o env w =
      (env.first ≡ some w)
      × ((region : CaptureRegion) × (as_capture (capture_bounds o w) ≡ ok region))

  chosen_window-IsChosen :
      (o : CaptureOptions) (env : ObserveEnv I)
      → Ends (IsChosen o env) (chosen_window I o env.first)
  unfolding IsChosen
  chosen_window-IsChosen o env =
      Ends-bind (IsChosen o env) (as_capture (no_error (validate_options o))) _ (λ u valid.
        Ends-or_error (IsChosen o env) window_unavailable env.first _ (λ w found.
          Ends-bind (IsChosen o env) (as_capture (capture_bounds o w)) _
            (λ region inside. (found, (region, inside)))))

  -- The broker when the window has been captured: after `permit`, and what others did meanwhile.
  abbrev pub broker_then : String → ObserveEnv I → Window → Broker → Broker
  broker_then client env w b =
      env.others
        (permit env.permit_now env.fresh client observe (window_scope w) (some w) "View this window"
          b).1

  -- If a tool call releases pixels, then a window was found whose bounds hold the region that was
  -- asked for; the guard reported an unlocked session before and after the capture; the window was
  -- found again after it, visible and with the same revision, size and workspace; and the client was
  -- still allowed to observe that window, as it was found again, when the pixels were released,
  -- whatever others did to the broker meanwhile.
  pub observe_with_options-IsReleased :
      (client : String) (o : CaptureOptions) (env : ObserveEnv I) (b : Broker) (frame : Frame)
      (pixels : I.Data)
      → (observe_with_options I client o env b).0 ≡ released frame pixels
      → (w : Window) × (env.first ≡ some w)
        × ((region : CaptureRegion) × (as_capture (capture_bounds o w) ≡ ok region))
        × IsReleased client env (broker_then client env w b) w
  unfolding observe_with_options IsChosen
  observe_with_options-IsReleased client o env b frame pixels h =
      from (chosen_window I o env.first) (chosen_window-IsChosen o env) h
    where
      Goal : Type 0
      Goal =
          (w : Window) × (env.first ≡ some w)
          × ((region : CaptureRegion) × (as_capture (capture_bounds o w) ≡ ok region))
          × IsReleased client env (broker_then client env w b) w

      permitted_then :
          (w : Window) (p : Permit × Broker)
          → (observe_permitted I client o w env p).0 ≡ released frame pixels
          → IsReleased client env (env.others p.1) w
      permitted_then w (refused x, b') k = cc
      permitted_then w (requested id, b') k = cc
      permitted_then w (permitted g, b') k =
          release-IsReleased client o w env (env.others b') frame pixels k

      from :
          (r : Result CaptureError Window)
          → Ends (IsChosen o env) r
          → (observe_window I client o env r b).0 ≡ released frame pixels
          → Goal
      from (error x) c k = cc
      from (ok w) c k =
          let p =
            permit env.permit_now env.fresh client observe (window_scope w) (some w)
              "View this window" b in
          (w, c.0, c.1, permitted_then w p k)
