-- ===== src/Input/Guard.antt =====
-- `guard` of internal/app/desktop.go: what is read from the guard's reply. The exchange on the
-- guard's socket is an argument: its decoded reply, or none if it failed.
use hyprland_computer_use.Base.{
  ℕ, String, Bool, false, not, ◌&&◌, ◌||◌, Option, none, some, List, length, eqb, ltb,
  if◌then◌else◌, ◌==◌, string_eq,
}
use hyprland_computer_use.Base.Int.{ℤ, pos, negsuc}

-- The fields of a query that `guard` looks at: the checks of a status, and the runes of a text.
pub data GuardQuery : Type 0 where
  status : (pointer_check unicode_check observation_check : Bool) → GuardQuery
  text_transaction : List ℕ → GuardQuery
  other_op : String → GuardQuery

pub record GuardReply : Type 0 where
  pub ok : Bool
  pub error : String
  pub version : ℤ
  pub focus_preserving : Bool
  pub automatic_fallback : Bool
  pub independent_seat : Bool
  pub instance_id : String
  pub input_faulted : Bool
  pub locked : Option Bool
  pub unicode_text : Bool
  pub pointer_actions : ℤ
  pub text_chunk_runes : ℤ
  pub completed_characters : Option ℤ

pub data GuardError : Type 0 where
  invalid_text_request exchange_failed invalid_text_progress : GuardError
  guard_refused : String → GuardError
  text_delivery : ℕ → String → GuardError
  extended_pointer_unavailable unicode_text_unavailable protocol_mismatch : GuardError
  observation_status_unavailable session_locked input_restore_failed : GuardError

-- The two atomic flags of `Desktop`.
pub record Seats : Type 0 where
  pub independent_seat : Bool
  pub automatic_fallback : Bool

-- `textChunkRunes`
abbrev pub chunk_runes : ℕ
chunk_runes = 48

abbrev pub is_int : ℕ → ℤ → Bool
is_int n (pos m) = eqb m n
is_int n (negsuc m) = false

abbrev pub reply_text : String → String
reply_text e =
    if e == "application_did_not_bind_agent_seat_restart_application"
    then "application_did_not_bind_agent_seat: this application has no required agent-seat input resource; it may not support multiple Wayland seats, and restarting is not a guaranteed fix"
    else e

-- The characters that a reply to a text says were typed, if it may say so.
unfoldable pub text_count : ℕ → Bool → Option ℤ → Option ℕ
text_count n ok none = if ok then none else some 0
text_count n ok (some (negsuc m)) = none
text_count n ok (some (pos m)) = if ltb n m || ok && not (eqb m n) then none else some m

abbrev pub text_result : GuardReply → Option ℕ → Option GuardError
text_result r none = some invalid_text_progress
text_result r (some count) = if r.ok then none else some (text_delivery count (reply_text r.error))

unfoldable pub check_text : List ℕ → Option GuardReply → Option GuardError
unfolding text_count
check_text scalars reply =
    if eqb (length scalars) 0 || ltb chunk_runes (length scalars)
    then some invalid_text_request
    else elim reply [
      | none ↦ some exchange_failed
      | some r ↦ text_result r (text_count (length scalars) r.ok r.completed_characters)
    ]

abbrev pub is_known_protocol : GuardReply → Bool
is_known_protocol r =
    r.focus_preserving
    && ((is_int 2 r.version
          || is_int 3 r.version && (r.independent_seat && not (r.instance_id == "")))
        && not (is_int 2 r.version && r.independent_seat))

abbrev pub lock_error : Option Bool → Option GuardError
lock_error none = some observation_status_unavailable
lock_error (some locked) = if locked then some session_locked else none

abbrev pub or_fault : Bool → Option GuardError → Option GuardError
or_fault faulted (some x) = some x
or_fault faulted none = if faulted then some input_restore_failed else none

-- What a status reply is refused for, in the order of the checks.
unfoldable pub status_error : Bool → Bool → Bool → GuardReply → Option GuardError
status_error pointer unicode observation r =
    if not r.ok
    then some (guard_refused (reply_text r.error))
    else if pointer && not (is_int 1 r.pointer_actions)
    then some extended_pointer_unavailable
    else if unicode && not (r.unicode_text && is_int chunk_runes r.text_chunk_runes)
    then some unicode_text_unavailable
    else if not (is_known_protocol r)
    then some protocol_mismatch
    else if observation
    then lock_error r.locked
    else none

-- The flags are stored once the checks have passed, before a fault is reported.
unfoldable pub store_seats : Option GuardError → GuardReply → Seats → Seats
store_seats (some x) r s = s
store_seats none r s = record {
  independent_seat = r.independent_seat;
  automatic_fallback = r.independent_seat && r.automatic_fallback;
}

-- `guard`: the error, if any, and the flags.
unfoldable pub guard : GuardQuery → Option GuardReply → Seats → Option GuardError × Seats
unfolding check_text status_error store_seats
guard (text_transaction scalars) reply s = (check_text scalars reply, s)
guard (status p u o) none s = (some exchange_failed, s)
guard (status p u o) (some r) s =
    let error = status_error p u o r in (or_fault r.input_faulted error, store_seats error r s)
guard (other_op name) none s = (some exchange_failed, s)
guard (other_op name) (some r) s =
    (if r.ok then none else some (guard_refused (reply_text r.error)), s)
