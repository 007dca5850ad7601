-- ===== src/Wayland/Event.antt =====
-- internal/app/keyboard.go: `event`, for a message that was read.
use hyprland_computer_use.Base.Text.{codes, same_codes}
use hyprland_computer_use.Base.{
  ℕ, ◌+◌, Bool, not, ◌||◌, ◌&&◌, eqb, ltb, leb, Option, none, some, is_some, List, [], ◌∷◌, ◌++◌,
  length, drop, if◌then◌else◌, String, string_eq,
}
use hyprland_computer_use.Base.Dict.{Dict, lookup, insert}
use hyprland_computer_use.Wayland.Wire.{Endian, get_u32, wl_words, wl_string, take_string, Message}
use hyprland_computer_use.Base.{nat_eq}

-- What is kept of a connection: texts are lists of bytes, as on the wire. `discovery` is the map of
-- the seats, if they are looked for.
pub record Devices : Type 0 where
  pub globals : Dict String ℕ
  pub watch_only : Bool
  pub discovery : Option (Dict ℕ ℕ)

pub data EventError : Type 0 where
  protocol_error : ℕ → ℕ → List ℕ → EventError
  no_seat_name too_many_seats multiple_native_seats unexpected_event : EventError
  unsupported_version multiple_globals global_removed : String → EventError

-- An event fails, answers a callback (0 for none), or makes a request to the registry.
pub data EventOutcome : Type 0 where
  failed : EventError → EventOutcome
  callback : ℕ → EventOutcome
  bind_seat : List ℕ → EventOutcome

-- The interfaces that are looked for, by the bytes of their names.
pub data Interface : Type 0 where
  seat keyboard_manager pointer_manager : Interface

abbrev pub interface_name : Interface → String
interface_name seat = "wl_seat"
interface_name keyboard_manager = "zwp_virtual_keyboard_manager_v1"
interface_name pointer_manager = "zwlr_virtual_pointer_manager_v1"

abbrev pub interface_of : List ℕ → Option Interface
interface_of name =
    if same_codes name (codes "wl_seat")
    then some seat
    else if same_codes name (codes "zwp_virtual_keyboard_manager_v1")
    then some keyboard_manager
    else if same_codes name (codes "zwlr_virtual_pointer_manager_v1")
    then some pointer_manager
    else none

-- The request that binds a seat, so that it tells its name.
unfoldable pub seat_request : Endian → ℕ → ℕ → List ℕ
unfolding codes
seat_request e global object =
    wl_words e (global ∷ []) ++ (wl_string e (codes "wl_seat") ++ wl_words e (2 ∷ object ∷ []))

unfoldable pub discover_seat : Endian → ℕ → ℕ → Dict ℕ ℕ → Devices → EventOutcome × Devices
unfolding seat_request
discover_seat e global version seats d =
    let object = 11 + length seats in
    if ltb version 2
    then (failed no_seat_name, d)
    else if leb 64 (length seats)
    then (failed too_many_seats, d)
    else (
      bind_seat (seat_request e global object),
      record d { discovery = some (insert object global seats) },
    )

unfoldable pub add_global : String → ℕ → ℕ → Devices → EventOutcome × Devices
add_global name global version d =
    if ltb version 1
    then (failed (unsupported_version name), d)
    else if is_some (lookup name d.globals)
    then (failed (multiple_globals name), d)
    else (callback 0, record d { globals = insert name global d.globals })

unfoldable pub announce_seat : Endian → ℕ → ℕ → Option (Dict ℕ ℕ) → Devices → EventOutcome × Devices
unfolding discover_seat add_global
announce_seat e global version none d = add_global (interface_name seat) global version d
announce_seat e global version (some seats) d = discover_seat e global version seats d

-- A global of the registry, its name and version taken from the arguments.
unfoldable pub announce : Endian → ℕ → Option Interface → ℕ → Devices → EventOutcome × Devices
unfolding announce_seat add_global
announce e global none version d = (callback 0, d)
announce e global (some seat) version d = announce_seat e global version d.discovery d
announce e global (some keyboard_manager) version d =
    add_global (interface_name keyboard_manager) global version d
announce e global (some pointer_manager) version d =
    add_global (interface_name pointer_manager) global version d

unfoldable pub named_global :
    Endian → List ℕ → Option (List ℕ × List ℕ) → Devices → EventOutcome × Devices
unfolding announce
named_global e args none d = (failed unexpected_event, d)
named_global e args (some (name, rest)) d =
    if not (eqb (length rest) 4)
    then (failed unexpected_event, d)
    else if d.watch_only
    then (callback 0, d)
    else announce e (get_u32 e args) (interface_of name) (get_u32 e rest) d

unfoldable pub registry_global : Endian → List ℕ → Devices → EventOutcome × Devices
unfolding named_global
registry_global e args d =
    if ltb (length args) 12
    then (failed unexpected_event, d)
    else named_global e args (take_string e (drop 4 args)) d

-- The name of a required global that is that number.
unfoldable pub removed_name : ℕ → Dict String ℕ → Option String
removed_name global [] = none
removed_name global ((name, g) ∷ d) = if eqb global g then some name else removed_name global d

abbrev pub removed : Option String → EventOutcome
removed none = callback 0
removed (some name) = failed (global_removed name)

unfoldable pub registry_remove : Endian → List ℕ → Devices → EventOutcome × Devices
unfolding removed_name
registry_remove e args d = (removed (removed_name (get_u32 e args) d.globals), d)

abbrev error_text : Endian → List ℕ → Option (List ℕ × List ℕ) → EventError
error_text e args none = unexpected_event
error_text e args (some (text, rest)) =
    if eqb (length rest) 0
    then protocol_error (get_u32 e args) (get_u32 e (drop 4 args)) text
    else unexpected_event

unfoldable pub display_error : Endian → List ℕ → Devices → EventOutcome × Devices
display_error e args d = (
  failed (
      if ltb (length args) 12
      then unexpected_event
      else error_text e args (take_string e (drop 8 args))),
  d,
)

abbrev is_discovering : Devices → Bool
is_discovering d = is_some d.discovery

abbrev pub or_zero : Option ℕ → ℕ
or_zero none = 0
or_zero (some g) = g

abbrev pub seat_global : ℕ → Option (Dict ℕ ℕ) → ℕ
seat_global object none = 0
seat_global object (some seats) = or_zero (lookup object seats)

-- The name of a seat that is being discovered.
unfoldable pub named_seat : Option (List ℕ × List ℕ) → ℕ → Devices → EventOutcome × Devices
unfolding codes
named_seat none global d = (failed unexpected_event, d)
named_seat (some (name, rest)) global d =
    if not (eqb (length rest) 0)
    then (failed unexpected_event, d)
    else if not (same_codes name (codes "Hyprland"))
    then (callback 0, d)
    else if is_some (lookup "wl_seat" d.globals)
    then (failed multiple_native_seats, d)
    else (callback 0, record d { globals = insert "wl_seat" global d.globals })

abbrev is_between : ℕ → ℕ → ℕ → Bool
is_between lo hi n = leb lo n && leb n hi

abbrev is_deleted : Endian → List ℕ → Devices → Bool
is_deleted e args d =
    let w = get_u32 e args in eqb w 3 || (eqb w 9 || is_discovering d && is_between 4 10 w)

-- The callbacks and the seat's capabilities: the last cases of the switch.
unfoldable pub callback_event : ℕ → ℕ → List ℕ → Devices → EventOutcome × Devices
callback_event id opcode args d =
    if not (eqb opcode 0 && eqb (length args) 4)
    then (failed unexpected_event, d)
    else if is_discovering d && is_between 3 10 id
    then (callback id, d)
    else if eqb id 4
    then (callback 0, d)
    else if eqb id 3 || (eqb id 9 || eqb id 10)
    then (callback id, d)
    else (failed unexpected_event, d)

-- An event of a discovered seat: its capabilities or its name.
unfoldable pub seat_event : Endian → ℕ → List ℕ → ℕ → Devices → EventOutcome × Devices
unfolding named_seat
seat_event e opcode args global d =
    if eqb opcode 0 && eqb (length args) 4
    then (callback 0, d)
    else if eqb opcode 1
    then named_seat (take_string e args) global d
    else (failed unexpected_event, d)

-- The `switch` of `event`.
unfoldable pub handle_event : Endian → Message → Devices → EventOutcome × Devices
unfolding display_error registry_global registry_remove seat_event callback_event
handle_event e m d =
    if eqb m.id 1 && eqb m.opcode 0
    then display_error e m.args d
    else if eqb m.id 1 && (eqb m.opcode 1 && eqb (length m.args) 4)
    then (if is_deleted e m.args d then callback 0 else failed unexpected_event, d)
    else if eqb m.id 2 && eqb m.opcode 0
    then registry_global e m.args d
    else if eqb m.id 2 && (eqb m.opcode 1 && eqb (length m.args) 4)
    then registry_remove e m.args d
    else if not (eqb (seat_global m.id d.discovery) 0)
    then seat_event e m.opcode m.args (seat_global m.id d.discovery) d
    else callback_event m.id m.opcode m.args d
