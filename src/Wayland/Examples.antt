-- ===== src/Wayland/Examples.antt =====
-- A compositor that announces the three interfaces and answers both callbacks.
use hyprland_computer_use.Base.{
  ℕ, ◌≡◌, refl, true, false, some, List, [], ◌∷◌, ◌++◌, map, arith, Any, string_eq,
}
use hyprland_computer_use.Wayland.Wire.{
  little, big, Message, message, read_message, take_string, wl_string, encode_request, wl_words,
}
use hyprland_computer_use.Base.Text.{codes}
use hyprland_computer_use.Wayland.Event.{
  Interface, seat, keyboard_manager, pointer_manager, interface_name,
}
use hyprland_computer_use.Wayland.Start.{
  Start, stopped, ok, opened, Connection, start_connection, no_interface,
}
use hyprland_computer_use.Wayland.RoundTrip.{read_message-encode_request, take_string-wl_string}
use hyprland_computer_use.Wayland.Ready.{start_connection-announced}
use hyprland_computer_use.Wayland.Announced.{IsAnnouncement}
use hyprland_computer_use.Base.Dict.{lookup}
use hyprland_computer_use.Wayland.Watch.{start_connection-sent}

abbrev announces : ℕ → Interface → Message
announces global i = record {
  id = 2;
  opcode = 0;
  args =
      wl_words little (global ∷ [])
      ++ (wl_string little (codes (interface_name i)) ++ wl_words little (1 ∷ []));
}

abbrev answers : ℕ → Message
answers id = record { id = id; opcode = 0; args = 0 ∷ 0 ∷ 0 ∷ 0 ∷ [] }

abbrev messages : List Message
messages =
    announces 21 seat
    ∷ announces 22 keyboard_manager
    ∷ announces 23 pointer_manager
    ∷ answers 3
    ∷ answers 9
    ∷ []

abbrev end_of : Start Connection → Connection
end_of (stopped x) = opened false false []
end_of (ok c) = c

abbrev ready : Connection
ready = end_of (start_connection little 4000 false false messages)

abbrev watcher : Connection
watcher = end_of (start_connection little 4000 true false messages)

starts : start_connection little 4000 false false messages ≡ ok ready
unfolding start_connection encode_request hyprland_computer_use.Wayland.Event.handle_event wl_string
    take_string hyprland_computer_use.Wayland.Wire.get_u32 hyprland_computer_use.Base.Dict.lookup
    hyprland_computer_use.Base.Dict.insert string_eq
starts = refl

watches : start_connection little 4000 true false messages ≡ ok watcher
unfolding start_connection encode_request hyprland_computer_use.Wayland.Event.handle_event wl_string
    take_string
watches = refl

start_connection-announced_example :
    (g : ℕ) × (lookup (interface_name pointer_manager) ready.devices.globals ≡ some g)
    × Any (IsAnnouncement little (interface_name pointer_manager) g) messages
start_connection-announced_example =
    start_connection-announced little 4000 false messages ready pointer_manager starts

start_connection-sent_example :
    map some watcher.sent
    ≡ encode_request little 1 0 (wl_words little (3 ∷ []))
      ∷ encode_request little 1 1 (wl_words little (2 ∷ []))
      ∷ []
start_connection-sent_example = start_connection-sent little 4000 messages watcher watches

-- Without a pointer manager there is no start.
incomplete :
    start_connection little 4000 false false
      (announces 21 seat ∷ announces 22 keyboard_manager ∷ answers 3 ∷ answers 9 ∷ [])
    ≡ stopped (no_interface pointer_manager)
unfolding start_connection encode_request hyprland_computer_use.Wayland.Event.handle_event wl_string
    take_string hyprland_computer_use.Wayland.Wire.get_u32 hyprland_computer_use.Base.Dict.lookup
    hyprland_computer_use.Base.Dict.insert string_eq
incomplete = refl

abbrev registry_bytes : List ℕ
registry_bytes = 1 ∷ 0 ∷ 0 ∷ 0 ∷ 1 ∷ 0 ∷ 12 ∷ 0 ∷ 2 ∷ 0 ∷ 0 ∷ 0 ∷ []

registry_sent : encode_request little 1 1 (2 ∷ 0 ∷ 0 ∷ 0 ∷ []) ≡ some registry_bytes
unfolding encode_request
registry_sent = refl

read_message-encode_request_example :
    read_message little (registry_bytes ++ (7 ∷ []))
    ≡ message (record { id = 1; opcode = 1; args = 2 ∷ 0 ∷ 0 ∷ 0 ∷ [] }) (7 ∷ [])
read_message-encode_request_example =
    read_message-encode_request little 1 1 (2 ∷ 0 ∷ 0 ∷ 0 ∷ []) (7 ∷ []) registry_bytes
      (omega arith) (omega arith) (omega arith) registry_sent

take_string-wl_string_example :
    take_string big (wl_string big (104 ∷ 105 ∷ []) ++ (1 ∷ [])) ≡ some (104 ∷ 105 ∷ [], 1 ∷ [])
take_string-wl_string_example = take_string-wl_string big (104 ∷ 105 ∷ []) (1 ∷ []) (omega arith)
