-- ===== src/Wayland/Globals.antt =====
-- What the events of the compositor can change of a connection (internal/app/keyboard.go).
use hyprland_computer_use.Base.{
  ℕ, ◌≡◌, refl, arith, Option, none, some, List, length, String, if_both, string_eq, nat_eq,
}
use hyprland_computer_use.Base.Dict.{Dict, lookup, lookup-insert}
use hyprland_computer_use.Wayland.Wire.{Endian, Message, take_string, get_u32}
use mathlib.Core.Path.{subst}
use hyprland_computer_use.Base.{sym, not, ◌&&◌, eqb, ltb, drop}
use hyprland_computer_use.Wayland.Event.{interface_of, seat_global}
use hyprland_computer_use.Wayland.Event.{
  Devices, Interface, seat, keyboard_manager, pointer_manager, EventOutcome, discover_seat,
  add_global, announce, registry_global, registry_remove, display_error, named_global, named_seat,
  announce_seat, callback_event, seat_event, handle_event,
}

-- A global that was recorded stays as it was, and a watcher stays one.
abbrev pub Extends : Devices → Devices → Type 0
Extends d d' =
    ((name : String) (g : ℕ) → lookup name d.globals ≡ some g → lookup name d'.globals ≡ some g)
    × (d'.watch_only ≡ d.watch_only)

abbrev pub After : Devices → EventOutcome × Devices → Type 0
After d (outcome, d') = Extends d d'

pub Extends-refl : (d : Devices) → Extends d d
Extends-refl d = (λ name g h. h, refl)

add_global-Extends :
    (name : String) (global version : ℕ) (d : Devices)
    → Extends d (add_global name global version d).1
unfolding add_global
add_global-Extends name global version d =
    (λ j g h. ground (arith, lookup-insert j name global d.globals, h), ground arith)

named_seat-Extends :
    (read : Option (List ℕ × List ℕ)) (global : ℕ) (d : Devices)
    → Extends d (named_seat read global d).1
unfolding named_seat
named_seat-Extends none global d = Extends-refl d
named_seat-Extends (some (name, rest)) global d =
    (λ j g h. ground (arith, lookup-insert j "wl_seat" global d.globals, h), ground arith)

announce_seat-Extends :
    (e : Endian) (global version : ℕ) (seats : Option (Dict ℕ ℕ)) (d : Devices)
    → Extends d (announce_seat e global version seats d).1
unfolding announce_seat discover_seat
announce_seat-Extends e global version none d = add_global-Extends "wl_seat" global version d
announce_seat-Extends e global version (some seats) d = (λ j g h. ground (arith, h), ground arith)

announce-Extends :
    (e : Endian) (global : ℕ) (i : Option Interface) (version : ℕ) (d : Devices)
    → Extends d (announce e global i version d).1
unfolding announce
announce-Extends e global none version d = Extends-refl d
announce-Extends e global (some seat) version d =
    announce_seat-Extends e global version d.discovery d
announce-Extends e global (some keyboard_manager) version d =
    add_global-Extends "zwp_virtual_keyboard_manager_v1" global version d
announce-Extends e global (some pointer_manager) version d =
    add_global-Extends "zwlr_virtual_pointer_manager_v1" global version d

named_global-Extends :
    (e : Endian) (args : List ℕ) (read : Option (List ℕ × List ℕ)) (d : Devices)
    → Extends d (named_global e args read d).1
unfolding named_global
named_global-Extends e args none d = Extends-refl d
named_global-Extends e args (some (name, rest)) d =
    let keeps = announce-Extends e (get_u32 e args) (interface_of name) (get_u32 e rest) d in
    if_both (After d) (not (eqb (length rest) 4)) _ _ (Extends-refl d)
      (if_both (After d) d.watch_only _ _ (Extends-refl d) keeps)

registry_global-Extends :
    (e : Endian) (args : List ℕ) (d : Devices) → Extends d (registry_global e args d).1
unfolding registry_global
registry_global-Extends e args d =
    if_both (After d) (ltb (length args) 12) _ _ (Extends-refl d)
      (named_global-Extends e args (take_string e (drop 4 args)) d)

seat_event-Extends :
    (e : Endian) (opcode : ℕ) (args : List ℕ) (global : ℕ) (d : Devices)
    → Extends d (seat_event e opcode args global d).1
unfolding seat_event
seat_event-Extends e opcode args global d =
    if_both (After d) (eqb opcode 0 && eqb (length args) 4) _ _ (Extends-refl d) (
      if_both (After d) (eqb opcode 1) _ _ (named_seat-Extends (take_string e args) global d)
        (Extends-refl d))

pub callback_event-same :
    (id opcode : ℕ) (args : List ℕ) (d : Devices) → (callback_event id opcode args d).1 ≡ d
unfolding callback_event
callback_event-same id opcode args d = ground arith

-- No event of the compositor replaces or removes a global that was recorded, whatever it announces.
pub handle_event-Extends :
    (e : Endian) (m : Message) (d : Devices) → Extends d (handle_event e m d).1
unfolding handle_event display_error registry_remove
handle_event-Extends e m d = if_both (After d) (eqb m.id 1 && eqb m.opcode 0) _ _ (Extends-refl d) (
    if_both (After d) (eqb m.id 1 && (eqb m.opcode 1 && eqb (length m.args) 4)) _ _ (Extends-refl d)
      (if_both (After d) (eqb m.id 2 && eqb m.opcode 0) _ _ (registry_global-Extends e m.args d) (
        if_both (After d) (eqb m.id 2 && (eqb m.opcode 1 && eqb (length m.args) 4)) _ _
          (Extends-refl d)
          (if_both (After d) (not (eqb (seat_global m.id d.discovery) 0)) _ _
            (seat_event-Extends e m.opcode m.args (seat_global m.id d.discovery) d)
            (subst (Extends d) (sym (callback_event-same m.id m.opcode m.args d))
              (Extends-refl d))))))
