-- ===== src/Recording/Frames.antt =====
-- The loop of a recording and its end (`record` of internal/app/desktop.go). A `Tick` is what one
-- round of the loop meets: the window, the broker at both checks, the capture and the encoder.
use hyprland_computer_use.Base.{
  ℕ, suc, Bool, not, ◌&&◌, Option, none, some, List, [], ◌∷◌, eqb, if◌then◌else◌, String,
}
use hyprland_computer_use.Base.Int.{pos, eqb_ℤ}
use hyprland_computer_use.Base.Result.{Result, error, ok}
use hyprland_computer_use.Broker.State.{Window, Broker, window, recording, Grant}
use hyprland_computer_use.Broker.Scope.{allowed}
use hyprland_computer_use.Capture.Grab.{Imaging, CaptureEnv, CaptureError, capture}
use hyprland_computer_use.Capture.Options.{CaptureOptions}

pub data RecordError : Type 0 where
  window_gone window_resized write_failed : RecordError
  capture_failed : CaptureError → RecordError
  finalize_timeout no_frames no_video : RecordError
  encoder_failed chmod_failed rename_failed : RecordError

-- The write of a frame ends, fails, or is cut off by the end of the context.
pub data Written : Type 0 where
  written not_written cut_off : Written

pub record Tick (I : Imaging) : Type 0 where
  -- The context ended before the tick.
  pub over : Bool
  pub found : Option Window
  -- The context has ended when an error is looked at.
  pub over_after : Bool
  pub first_now : ℕ
  pub first : Broker
  pub captured : CaptureEnv I
  pub second_now : ℕ
  pub second : Broker
  pub write : Written

-- A frame that the encoder got, and the states under which both checks were made.
pub record Recorded (I : Imaging) : Type 0 where
  pub pixels : I.Data
  pub shown : Window
  pub first_now : ℕ
  pub first : Broker
  pub second_now : ℕ
  pub second : Broker

-- The options of `capture`: at most 1280 pixels wide.
abbrev pub frame_options : CaptureOptions
frame_options = record { region = none; max_width = pos 1280; max_height = pos 0 }

module _ (I : Imaging) (client : String) (w : Window) where
  abbrev pub may_record : ℕ → Window → Broker → Option (Option Grant)
  may_record now cur b =
      allowed now client recording (record { kind = window; id = w.id }) (some cur) b

  -- How a round ends: the loop goes on with a frame, or is done.
  pub data Round : Type 0 where
    goes_on : Recorded I → Round
    is_done : Option (Recorded I) → Option RecordError → Round

  abbrev pub unless_over : Bool → RecordError → Option RecordError
  unless_over over x = if over then none else some x

  abbrev pub frame_of : Tick I → Window → I.Data → Recorded I
  frame_of t cur pixels = record {
    pixels = pixels;
    shown = cur;
    first_now = t.first_now;
    first = t.first;
    second_now = t.second_now;
    second = t.second;
  }

  -- A frame that is cut off may have reached the encoder.
  abbrev pub write_round : Recorded I → Written → Round
  write_round x written = goes_on x
  write_round x not_written = is_done (some x) (some write_failed)
  write_round x cut_off = is_done (some x) none

  abbrev pub second_check : Tick I → Window → I.Data → Option (Option Grant) → Round
  second_check t cur pixels none = is_done none none
  second_check t cur pixels (some g) = write_round (frame_of t cur pixels) t.write

  abbrev pub captured_round : Tick I → Window → Result CaptureError I.Data → Round
  captured_round t cur (error x) = is_done none (unless_over t.over_after (capture_failed x))
  captured_round t cur (ok pixels) =
      second_check t cur pixels (may_record t.second_now cur t.second)

  abbrev pub first_check : Tick I → Window → Option (Option Grant) → Round
  first_check t cur none = is_done none none
  first_check t cur (some g) = captured_round t cur (capture I frame_options cur t.captured)

  abbrev pub same_size : Window → Bool
  same_size cur = eqb_ℤ cur.size.0 w.size.0 && eqb_ℤ cur.size.1 w.size.1

  abbrev pub found_round : Tick I → Option Window → Round
  found_round t none = is_done none (unless_over t.over_after window_gone)
  found_round t (some cur) =
      if same_size cur
      then first_check t cur (may_record t.first_now cur t.first)
      else is_done none (some window_resized)

  -- One round of the loop.
  unfoldable pub tick_round : Tick I → Round
  unfolding capture
  tick_round t = if t.over then is_done none none else found_round t t.found

  abbrev pub add_last : Option (Recorded I) → List (Recorded I)
  add_last none = []
  add_last (some x) = x ∷ []

  -- The frames that the encoder got, how many were counted, and the error of the loop; `none` at the
  -- end of the ticks, when the loop still runs.
  abbrev pub Run : Type 0
  Run = List (Recorded I) × ℕ × Option (Option RecordError)

  abbrev pub go_on : Recorded I → Run → Run
  go_on x (frames, count, e) = (x ∷ frames, suc count, e)

  abbrev pub after_round : Round → Run → Run
  after_round (goes_on x) rest = go_on x rest
  after_round (is_done last e) rest = (add_last last, 0, some e)

  unfoldable pub record_ticks : List (Tick I) → Run
  unfolding tick_round
  record_ticks [] = ([], 0, none)
  record_ticks (t ∷ ticks) = after_round (tick_round t) (record_ticks ticks)

-- The end of the encoder: it exits, well or not, or is killed after five seconds.
pub data EncoderEnd : Type 0 where
  exits : Option RecordError → EncoderEnd
  times_out : EncoderEnd

abbrev pub or_else_error : Option RecordError → Option RecordError → Option RecordError
or_else_error (some e) next = some e
or_else_error none next = next

-- The file: whether it has bytes, and whether its mode and its name could be set.
unfoldable pub file_error : Bool → Bool → Bool → Option RecordError
file_error has_bytes mode_set renamed =
    if not has_bytes
    then some no_video
    else if not mode_set
    then some chmod_failed
    else if not renamed
    then some rename_failed
    else none

abbrev pub encoder_error : Option RecordError → EncoderEnd → Option RecordError
encoder_error e (exits x) = or_else_error e x
encoder_error e times_out = some finalize_timeout

-- From the label `done` on: the error of the recording, or none if its file is in place.
unfoldable pub finish_recording :
    Option RecordError → EncoderEnd → ℕ → Bool → Bool → Bool → Option RecordError
unfolding file_error
finish_recording e encoder frames has_bytes mode_set renamed =
    or_else_error (encoder_error e encoder) (
      or_else_error (if eqb frames 0 then some no_frames else none)
        (file_error has_bytes mode_set renamed))
