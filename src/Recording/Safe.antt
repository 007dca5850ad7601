-- ===== src/Recording/Safe.antt =====
-- Every frame of a recording was allowed before and after it was captured
-- (internal/app/desktop.go).
use hyprland_computer_use.Base.{
  ℕ, ◌≡◌, ◌≢◌, refl, Bool, true, false, Option, none, some, List, [], ◌∷◌, All, String,
  if◌then◌else◌,
}
use hyprland_computer_use.Base.Result.{Result, error, ok}
use hyprland_computer_use.Broker.State.{Window, Grant}
use hyprland_computer_use.Capture.Grab.{capture, Imaging, CaptureError}
use hyprland_computer_use.Recording.Frames.{
  frame_options, Tick, Recorded, Written, written, not_written, cut_off, may_record, Round, goes_on,
  is_done, frame_of, write_round, second_check, captured_round, first_check, same_size, found_round,
  tick_round, after_round, record_ticks,
}
use hyprland_computer_use.Base.{if_both}
use hyprland_computer_use.Recording.Frames.{RecordError, window_resized}

some_not_none : {A : Type 0} {a : A} (o : Option A) → o ≡ some a → o ≢ none
some_not_none o h k = cc

module _ (I : Imaging) (client : String) (w : Window) where
  -- The window had its first size, and the client could record it at both checks.
  abbrev pub IsRecordable : Recorded I → Type 0
  IsRecordable x =
      (same_size I client w x.shown ≡ true)
      × (may_record I client w x.first_now x.shown x.first ≢ none)
      × (may_record I client w x.second_now x.shown x.second ≢ none)

  abbrev RoundIsRecordable : Round I client w → Type 0
  RoundIsRecordable (goes_on x) = IsRecordable x
  RoundIsRecordable (is_done none e) = Unit
  RoundIsRecordable (is_done (some x) e) = IsRecordable x

  write_round-IsRecordable :
      (x : Recorded I) (o : Written)
      → IsRecordable x
      → RoundIsRecordable (write_round I client w x o)
  write_round-IsRecordable x written h = h
  write_round-IsRecordable x not_written h = h
  write_round-IsRecordable x cut_off h = h

  second_check-IsRecordable :
      (t : Tick I) (cur : Window) (pixels : I.Data) (g : Option (Option Grant))
      → same_size I client w cur ≡ true
      → may_record I client w t.first_now cur t.first ≢ none
      → may_record I client w t.second_now cur t.second ≡ g
      → RoundIsRecordable (second_check I client w t cur pixels g)
  second_check-IsRecordable t cur pixels none s h e = tt
  second_check-IsRecordable t cur pixels (some g) s h e =
      write_round-IsRecordable (frame_of I client w t cur pixels) t.write
        (s, h, some_not_none (may_record I client w t.second_now cur t.second) e)

  captured_round-IsRecordable :
      (t : Tick I) (cur : Window) (r : Result CaptureError I.Data)
      → same_size I client w cur ≡ true
      → may_record I client w t.first_now cur t.first ≢ none
      → RoundIsRecordable (captured_round I client w t cur r)
  captured_round-IsRecordable t cur (error x) s h = tt
  captured_round-IsRecordable t cur (ok pixels) s h =
      second_check-IsRecordable t cur pixels (may_record I client w t.second_now cur t.second) s h
        refl

  first_check-IsRecordable :
      (t : Tick I) (cur : Window) (g : Option (Option Grant))
      → same_size I client w cur ≡ true
      → may_record I client w t.first_now cur t.first ≡ g
      → RoundIsRecordable (first_check I client w t cur g)
  first_check-IsRecordable t cur none s e = tt
  first_check-IsRecordable t cur (some g) s e =
      captured_round-IsRecordable t cur (capture I frame_options cur t.captured) s
        (some_not_none (may_record I client w t.first_now cur t.first) e)

  found_round-IsRecordable :
      (t : Tick I) (found : Option Window) → RoundIsRecordable (found_round I client w t found)
  found_round-IsRecordable t none = tt
  found_round-IsRecordable t (some cur) = sized (same_size I client w cur) refl
    where
      sized :
          (b : Bool)
          → same_size I client w cur ≡ b
          → RoundIsRecordable (
              if b
              then first_check I client w t cur (may_record I client w t.first_now cur t.first)
              else is_done none (some window_resized))
      sized true s = first_check-IsRecordable t cur _ s refl
      sized false s = tt

  tick_round-IsRecordable : (t : Tick I) → RoundIsRecordable (tick_round I client w t)
  unfolding tick_round
  tick_round-IsRecordable t =
      if_both RoundIsRecordable t.over _ _ tt (found_round-IsRecordable t t.found)

  after_round-IsRecordable :
      (r : Round I client w) (rest : List (Recorded I) × ℕ × Option (Option RecordError))
      → RoundIsRecordable r
      → All IsRecordable rest.0
      → All IsRecordable (after_round I client w r rest).0
  after_round-IsRecordable (goes_on x) rest h k = (h, k)
  after_round-IsRecordable (is_done none e) rest h k = tt
  after_round-IsRecordable (is_done (some x) e) rest h k = (h, tt)

  -- Every frame that the encoder may have got shows the window in the size that it had when the
  -- recording started, and the client could record it both at the check before the frame was
  -- captured and at the check after it, whatever the rounds of the loop met.
  pub record_ticks-IsRecordable :
      (ticks : List (Tick I)) → All IsRecordable (record_ticks I client w ticks).0
  unfolding record_ticks
  record_ticks-IsRecordable [] = tt
  record_ticks-IsRecordable (t ∷ ticks) =
      after_round-IsRecordable (tick_round I client w t) (record_ticks I client w ticks)
        (tick_round-IsRecordable t) (record_ticks-IsRecordable ticks)
