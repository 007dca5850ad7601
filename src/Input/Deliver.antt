-- ===== src/Input/Deliver.antt =====
-- The sending of an accepted batch in `input` of internal/app/desktop.go: the requests to the
-- guard, the check before each of them, and the count of what was acknowledged. What happens
-- meanwhile is a `Turn` for each request: what other goroutines did to the broker since the last
-- one, the time, whether the context has ended, and the guard's reply.
use hyprland_computer_use.Base.{
  ℕ, zero, suc, ◌+◌, ◌*◌, String, Bool, not, ◌&&◌, Option, none, some, List, [], ◌∷◌, ◌++◌, length,
  drop, if◌then◌else◌,
}
use hyprland_computer_use.Base.Int.{ℤ, pos, ltb_ℤ}
use hyprland_computer_use.Surfaces.{Floats}
use hyprland_computer_use.Actions.{Modifiers, refused, mask, pointer_modifiers}
use hyprland_computer_use.Actions.Keys.{KeySpec, no_key, key_at, key_spec}
use hyprland_computer_use.Broker.State.{Window, Broker, window, control, second, Grant}
use hyprland_computer_use.Broker.Scope.{allowed}
use hyprland_computer_use.Input.Guard
use hyprland_computer_use.Input.Guard.{
  GuardReply, GuardError, text_delivery, Seats, guard, GuardQuery, other_op, chunk_runes,
}
use hyprland_computer_use.Input.Pointer.{
  Action, ActionType, move, click, drag, scroll, key, text, focus, other_type, ScrollUnit, Button,
  right, middle, has_path, has_modifiers, is_drag, is_scroll, is_no_unit,
}

-- `runes[start:min(start+n, len(runes))]`
abbrev pub take : ℕ → List ℕ → List ℕ
take zero xs = []
take (suc n) [] = []
take (suc n) (x ∷ xs) = x ∷ take n xs

-- The chunks of the loop, which ends with the text: each takes a rune at least.
unfoldable pub chunks : ℕ → List ℕ → List (List ℕ)
chunks fuel [] = []
chunks zero (r ∷ rs) = []
chunks (suc fuel) (r ∷ rs) =
    let rest = chunks fuel (drop chunk_runes (r ∷ rs)) in take chunk_runes (r ∷ rs) ∷ rest

abbrev pub text_chunks : List ℕ → List (List ℕ)
text_chunks rs = chunks (length rs) rs

module _ (f : Floats) where
  pub record PointerRequest : Type 0 where
    pub kind : ActionType
    pub at : Option (f.Float × f.Float)
    pub to : Option (f.Float × f.Float)
    pub button : ℕ
    pub scroll : Option f.Float
    pub axes : Option (f.Float × f.Float × ScrollUnit)
    pub mods : Option ℕ
    pub click_count : Option ℤ
    pub path : List (f.Float × f.Float)

  pub data GuardRequest : Type 0 where
    focus_window : GuardRequest
    pointer_transaction : PointerRequest → GuardRequest
    key_transaction : ℕ → ℕ → GuardRequest
    text_transaction : List ℕ → GuardRequest

  abbrev pub button_code : Button → ℕ
  button_code right = 273
  button_code middle = 274
  button_code b = 272

  abbrev only_if : {A : Type 0} → Bool → A → Option A
  only_if b a = if b then some a else none

  abbrev pub mask_of : Modifiers → ℕ
  mask_of (mask m) = m
  mask_of (refused x) = 0

  unfoldable pub pointer_request : Action f → PointerRequest
  pointer_request a = record {
    kind = a.type;
    at = only_if (not (has_path f a)) (a.x, a.y);
    to = only_if (is_drag f a.type && not (has_path f a)) (a.to_x, a.to_y);
    button = button_code a.button;
    scroll = only_if (is_scroll f a.type && is_no_unit f a.unit) a.delta;
    axes = only_if (is_scroll f a.type && not (is_no_unit f a.unit)) (a.delta_x, a.delta_y, a.unit);
    mods = only_if (has_modifiers f a) (mask_of (pointer_modifiers a.modifiers));
    click_count = only_if (ltb_ℤ (pos 0) a.click_count) a.click_count;
    path = a.path;
  }

  -- A key was accepted before: the errors of `keySpec` are not looked at again.
  abbrev pub key_request : KeySpec → GuardRequest
  key_request (key_at code mods) = key_transaction code mods
  key_request (no_key x) = key_transaction 0 0

  -- A request with the lease and the geometry that the batch was given for.
  pub record GuardMessage : Type 0 where
    pub request : GuardRequest
    pub token : String
    pub revision : String
    pub surface : Option (String × String)

  -- A message, and the state of the broker and the time at which it was checked.
  pub record Sent : Type 0 where
    pub message : GuardMessage
    pub time : ℕ
    pub under : Broker

  pub record Delivery : Type 0 where
    pub broker : Broker
    pub seats : Seats
    pub turn : ℕ
    pub sent : List Sent

pub record Turn : Type 0 where
  pub others : Broker → Broker
  pub now : ℕ
  pub cancelled : Bool
  pub reply : Option GuardReply

-- What all requests of a batch have in common.
pub record Session : Type 0 where
  pub client : String
  pub window : Window
  pub token : String
  pub revision : String
  pub surface : Option (String × String)

pub data SendError : Type 0 where
  context_ended permission_revoked : SendError
  guard_error : GuardError → SendError

abbrev pub send_error : Option GuardError → Option SendError
send_error none = none
send_error (some x) = some (guard_error x)

-- `check`: whether the client may still control the window.
abbrev pub may_send : Session → ℕ → Broker → Option (Option Grant)
may_send s now b =
    allowed now s.client control (record { kind = window; id = s.window.id }) (some s.window) b

-- The window is marked for two seconds.
abbrev pub mark_input : Session → ℕ → Broker → Broker
mark_input s now b = record b {
  last_input_window = s.window.id;
  last_input_until = now + 2 * second;
}

module _ (f : Floats) where
  abbrev pub message_of : Session → GuardRequest f → GuardMessage f
  message_of s q = record {
    request = q;
    token = s.token;
    revision = s.revision;
    surface = s.surface;
  }

  abbrev pub query_of : GuardRequest f → GuardQuery
  query_of focus_window = other_op "focus"
  query_of (pointer_transaction p) = other_op "pointer_transaction"
  query_of (key_transaction code mods) = other_op "key_transaction"
  query_of (text_transaction rs) = Guard.text_transaction rs

  abbrev pub waited : Broker → Delivery f → Delivery f
  waited b d = record d { broker = b; turn = suc d.turn }

  abbrev pub handed :
      Session
      → Turn
      → GuardRequest f
      → Broker
      → Option GuardError × Seats
      → Delivery f
      → Option SendError × Delivery f
  handed s t q b (error, seats) d = (
    send_error error,
    record {
      broker = mark_input s t.now b;
      seats = seats;
      turn = suc d.turn;
      sent = d.sent ++ (record { message = message_of s q; time = t.now; under = b } ∷ []);
    },
  )

  abbrev pub checked :
      Session
      → Turn
      → GuardRequest f
      → Broker
      → Option (Option Grant)
      → Delivery f
      → Option SendError × Delivery f
  checked s t q b none d = (some permission_revoked, waited b d)
  checked s t q b (some g) d = handed s t q b (guard (query_of q) t.reply d.seats) d

  -- `send`
  unfoldable pub send :
      Session → (ℕ → Turn) → GuardRequest f → Delivery f → Option SendError × Delivery f
  unfolding guard
  send s turns q d =
      let t = turns d.turn in
      let b = t.others d.broker in
      if t.cancelled
      then (some context_ended, waited b d)
      else checked s t q b (may_send s t.now b) d

  -- The characters that an error says were typed.
  abbrev pub delivered : SendError → ℕ
  delivered (guard_error (text_delivery count reason)) = count
  delivered x = 0

  -- The outcome of an action: an error, if any, and the characters that were acknowledged.
  abbrev pub Acted : Type 0
  Acted = Option SendError × (ℕ × Delivery f)

  abbrev pub alone : Option SendError × Delivery f → Acted
  alone (e, d) = (e, (0, d))

  abbrev pub chunk_sent : ℕ → ℕ → (ℕ → Delivery f → Acted) → Option SendError × Delivery f → Acted
  chunk_sent n characters go (some x, d) = (some x, (characters + delivered x, d))
  chunk_sent n characters go (none, d) = go (characters + n) d

  -- The loop over the chunks of a text.
  unfoldable pub send_chunks : Session → (ℕ → Turn) → List (List ℕ) → ℕ → Delivery f → Acted
  unfolding send
  send_chunks s turns [] characters d = (none, (characters, d))
  send_chunks s turns (c ∷ cs) characters d =
      chunk_sent (length c) characters (send_chunks s turns cs)
        (send s turns (text_transaction c) d)

  -- The `switch` of the loop over the actions.
  unfoldable pub send_action : Session → (ℕ → Turn) → ActionType → Action f → Delivery f → Acted
  unfolding send send_chunks chunks pointer_request
  send_action s turns focus a d = alone (send s turns focus_window d)
  send_action s turns move a d = alone (send s turns (pointer_transaction (pointer_request f a)) d)
  send_action s turns click a d = alone (send s turns (pointer_transaction (pointer_request f a)) d)
  send_action s turns drag a d = alone (send s turns (pointer_transaction (pointer_request f a)) d)
  send_action s turns scroll a d =
      alone (send s turns (pointer_transaction (pointer_request f a)) d)
  send_action s turns key a d = alone (send s turns (key_request f (key_spec a.key_name)) d)
  send_action s turns text a d = send_chunks s turns (text_chunks a.runes) 0 d
  send_action s turns (other_type t) a d = (none, (0, d))

-- `InputFailure`: the action that failed comes after those that were completed.
pub record InputFailure : Type 0 where
  pub completed_actions : ℕ
  pub completed_characters : ℕ
  pub cause : SendError

module _ (f : Floats) where
  abbrev pub acted :
      ℕ
      → (ℕ → Delivery f → Option InputFailure × Delivery f)
      → Acted f
      → Option InputFailure × Delivery f
  acted i go (some x, (characters, d)) =
      (some (record { completed_actions = i; completed_characters = characters; cause = x }), d)
  acted i go (none, (characters, d)) = go (suc i) d

  -- The loop over the actions, the first argument being the number of those before.
  unfoldable pub send_actions :
      Session → (ℕ → Turn) → List (Action f) → ℕ → Delivery f → Option InputFailure × Delivery f
  unfolding send_action
  send_actions s turns [] i d = (none, d)
  send_actions s turns (a ∷ actions) i d =
      acted i (send_actions s turns actions) (send_action f s turns a.type a d)
