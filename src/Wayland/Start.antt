-- ===== src/Wayland/Start.antt =====
-- internal/app/keyboard.go: `sync`, `initWaylandConnection` and `sendKeymap`, on a connection given
-- by the messages that the compositor will send. Every write succeeds here but for the size of a
-- request; the deadline shows as the end of the messages.
use hyprland_computer_use.Base.{
  ℕ, Bool, true, false, eqb, Option, none, some, is_some, List, [], ◌∷◌, ◌++◌, if◌then◌else◌,
  string_eq,
}
use hyprland_computer_use.Base.Dict.{lookup}
use hyprland_computer_use.Base.Text.{codes}
use hyprland_computer_use.Wayland.Event.{
  Devices, EventError, Interface, seat, keyboard_manager, pointer_manager, interface_name,
  handle_event,
}
use hyprland_computer_use.Wayland.Wire.{Endian, wl_words, wl_string, encode_request, Message}
use hyprland_computer_use.Wayland.Event.{EventOutcome, failed, callback, bind_seat}

pub data StartError : Type 0 where
  in_event : EventError → StartError
  connection_closed bad_request : StartError
  no_interface : Interface → StartError

-- The connection: what is kept, what will be received, and the bytes sent, the last request first.
pub record Connection : Type 0 where
  pub devices : Devices
  pub inbox : List Message
  pub sent : List (List ℕ)

pub data Start (A : Type 0) : Type 0 where
  stopped : StartError → Start A
  ok : A → Start A

infixl 5 ◌>>=◌
abbrev pub ◌>>=◌ : {A B : Type 0} → Start A → (A → Start B) → Start B
stopped x >>= f = stopped x
ok a >>= f = f a

abbrev pub sent_as : Option (List ℕ) → Connection → Start Connection
sent_as none c = stopped bad_request
sent_as (some bytes) c = ok (record c { sent = bytes ∷ c.sent })

unfoldable pub request : Endian → ℕ → ℕ → List ℕ → Connection → Start Connection
request e id opcode args c = sent_as (encode_request e id opcode args) c

abbrev pub asked_for :
    List (List ℕ) → Devices → Option (List ℕ) → Start (ℕ × (Devices × List (List ℕ)))
asked_for sent d none = stopped bad_request
asked_for sent d (some bytes) = ok (0, (d, bytes ∷ sent))

-- `event`, on a message that was read: the callback that was answered, if any, or 0.
unfoldable pub answered :
    Endian → List (List ℕ) → EventOutcome × Devices → Start (ℕ × (Devices × List (List ℕ)))
answered e sent (failed x, d) = stopped (in_event x)
answered e sent (callback id, d) = ok (id, (d, sent))
answered e sent (bind_seat args, d) = asked_for sent d (encode_request e 2 0 args)

-- The loops that wait for one callback.
unfoldable pub wait_for : Endian → ℕ → List Message → Devices × List (List ℕ) → Start Connection
unfolding answered
wait_for e wanted [] (d, sent) = stopped connection_closed
wait_for e wanted (m ∷ inbox) (d, sent) = answered e sent (handle_event e m d) >>= λ (id, after).
    elim (eqb id wanted) [
      | true ↦ ok (record { devices = after.0; inbox = inbox; sent = after.1 })
      | false ↦ wait_for e wanted inbox after
    ]

unfoldable pub sync : Endian → ℕ → Connection → Start Connection
unfolding request wait_for
sync e id c =
    request e 1 0 (wl_words e (id ∷ [])) c >>= λ c'. wait_for e id c'.inbox (c'.devices, c'.sent)

-- The device IDs 3 to 10 are taken, so that the next new object is 11.
unfoldable pub reserve : Endian → List ℕ → Connection → Start Connection
unfolding request
reserve e [] c = ok c
reserve e (id ∷ ids) c = request e 1 0 (wl_words e (id ∷ [])) c >>= reserve e ids

abbrev pub reserved : List ℕ
reserved = 3 ∷ 4 ∷ 5 ∷ 6 ∷ 7 ∷ 8 ∷ 9 ∷ 10 ∷ []

unfoldable pub reserve_devices : Endian → Connection → Start Connection
unfolding reserve wait_for
reserve_devices e c =
    if is_some c.devices.discovery
    then (reserve e reserved c >>= λ c'. wait_for e 10 c'.inbox (c'.devices, c'.sent))
    else ok c

-- One bind request for an interface, as the new object.
unfoldable pub bind_as : Endian → ℕ → Interface → Option ℕ → Connection → Start Connection
unfolding request codes
bind_as e object i none c = stopped (no_interface i)
bind_as e object i (some global) c =
    request e 2 0
      (wl_words e (global ∷ [])
        ++ (wl_string e (codes (interface_name i)) ++ wl_words e (1 ∷ object ∷ [])))
      c

unfoldable pub bind : Endian → ℕ → Interface → Connection → Start Connection
unfolding bind_as
bind e object i c = bind_as e object i (lookup (interface_name i) c.devices.globals) c

-- The devices and their keymap, of so many bytes; and the wait until the compositor has read it.
unfoldable pub make_devices : Endian → ℕ → Connection → Start Connection
unfolding request sync
make_devices e keymap_bytes c = do
  pointer ← request e 6 0 (wl_words e (4 ∷ 7 ∷ [])) c
  keyboard ← request e 5 0 (wl_words e (4 ∷ 8 ∷ [])) pointer
  keymap ← request e 8 0 (wl_words e (1 ∷ keymap_bytes ∷ [])) keyboard
  sync e 9 keymap

unfoldable pub create_devices : Endian → ℕ → Connection → Start Connection
unfolding bind make_devices
create_devices e keymap_bytes c = do
  bound_seat ← bind e 4 seat c
  bound_keyboard ← bind e 5 keyboard_manager bound_seat
  bound ← bind e 6 pointer_manager bound_keyboard
  make_devices e keymap_bytes bound

abbrev pub opened : Bool → Bool → List Message → Connection
opened watch_only automatic inbox = record {
  devices = record {
    globals = [];
    watch_only = watch_only;
    discovery = if automatic then some [] else none;
  };
  inbox = inbox;
  sent = [];
}

-- `initWaylandConnection`, up to the goroutine that reads on.
unfoldable pub start_connection : Endian → ℕ → Bool → Bool → List Message → Start Connection
unfolding request reserve_devices sync create_devices
start_connection e keymap_bytes watch_only automatic inbox = do
  asked_for ← request e 1 1 (wl_words e (2 ∷ [])) (opened watch_only automatic inbox)
  free ← reserve_devices e asked_for
  listed ← sync e 3 free
  if watch_only then ok listed else create_devices e keymap_bytes listed
