-- ===== src/Wayland/Announced.antt =====
-- Where the recorded globals of a connection come from (internal/app/keyboard.go): each was
-- announced by a message of the registry that was received.
use hyprland_computer_use.Base.{
  sym, Bool-cases, inl, inr, leb, ◌+◌, ℕ, ◌≡◌, refl, arith, ap, ◌∙◌, String, ◌==◌, string_eq,
  nat_eq, string_discrete, true, false, not, ◌&&◌, Option, none, some, is_some, List, [], ◌∷◌,
  length, eqb, ltb, drop, if_both,
}
use hyprland_computer_use.Base.Dict.{Dict, lookup, insert, lookup-insert}
use hyprland_computer_use.Base.Text.{codes, same_codes}
use hyprland_computer_use.Wayland.Wire.{Endian, Message, take_string, get_u32}
use hyprland_computer_use.Wayland.Event.{
  Devices, Interface, seat, keyboard_manager, pointer_manager, interface_name, interface_of,
  EventOutcome, seat_global, discover_seat, add_global, announce, announce_seat, named_global,
  named_seat, registry_global, registry_remove, display_error, seat_event, handle_event,
}
use hyprland_computer_use.Wayland.Event.{or_zero}
use hyprland_computer_use.Wayland.Globals.{callback_event-same}
use mathlib.Core.Path.{subst}

-- A message of the registry: the global of that number has the interface of that name.
pub record IsAnnouncement (e : Endian) (name : String) (global : ℕ) (m : Message) : Type 0 where
  pub to_registry : m.id ≡ 2
  pub is_global : m.opcode ≡ 0
  pub version : List ℕ
  pub interface : take_string e (drop 4 m.args) ≡ some (codes name, version)
  pub complete : length version ≡ 4
  pub number : get_u32 e m.args ≡ global

same_codes→≡ : (xs ys : List ℕ) → same_codes xs ys ≡ true → xs ≡ ys
same_codes→≡ [] [] h = refl
same_codes→≡ [] (y ∷ ys) h = cc
same_codes→≡ (x ∷ xs) [] h = cc
same_codes→≡ (x ∷ xs) (y ∷ ys) h = ground (arith, same_codes→≡ xs ys)

-- Of an interface that is looked for, the name on the wire is the interface's.
interface_of_name :
    (name : List ℕ) (i : Interface) → interface_of name ≡ some i → name ≡ codes (interface_name i)
interface_of_name name seat h = same_codes→≡ name (codes "wl_seat") (ground arith)
interface_of_name name keyboard_manager h =
    same_codes→≡ name (codes "zwp_virtual_keyboard_manager_v1") (ground arith)
interface_of_name name pointer_manager h =
    same_codes→≡ name (codes "zwlr_virtual_pointer_manager_v1") (ground arith)

-- `P name g` is that the global `g` was announced with that name.
module _ (e : Endian) (P : String → ℕ → Type 0) where
  abbrev pub Reports : Message → Type 0
  Reports m = (name : String) (g : ℕ) → IsAnnouncement e name g m → P name g

  -- Every global that was recorded was announced, and so was every seat that is looked at.
  pub record Known (d : Devices) : Type 0 where
    pub globals : (name : String) (g : ℕ) → lookup name d.globals ≡ some g → P name g
    pub seats :
        (ids : Dict ℕ ℕ) (id g : ℕ)
        → d.discovery ≡ some ids
        → lookup id ids ≡ some g
        → P "wl_seat" g

  abbrev KnownAfter : EventOutcome × Devices → Type 0
  KnownAfter (outcome, d) = Known d

  insert-P :
      (name : String) (global : ℕ) (globals : Dict String ℕ)
      → P name global
      → ((j : String) (g : ℕ) → lookup j globals ≡ some g → P j g)
      → (j : String) (g : ℕ) → lookup j (insert name global globals) ≡ some g
      → P j g
  insert-P name global globals p k j g h = elim (string_discrete j name) [
    | yes q ↦
        subst (λ n. P n g) (sym q)
          (subst (P name) (ground (arith, lookup-insert j name global globals, h, q)) p)
    | no ne ↦ k j g (ground (arith, lookup-insert j name global globals, h, ne))
  ]

  insert_seat-P :
      (object global : ℕ) (ids : Dict ℕ ℕ)
      → P "wl_seat" global
      → ((id g : ℕ) → lookup id ids ≡ some g → P "wl_seat" g)
      → (id g : ℕ) → lookup id (insert object global ids) ≡ some g
      → P "wl_seat" g
  insert_seat-P object global ids p k id g h = elim (Bool-cases (id == object)) [
    | inl q ↦ subst (P "wl_seat") (ground (arith, lookup-insert id object global ids, h, q)) p
    | inr ne ↦ k id g (ground (arith, lookup-insert id object global ids, h, ne))
  ]

  add_global-Known :
      (name : String) (global version : ℕ) (d : Devices)
      → P name global
      → Known d
      → Known (add_global name global version d).1
  unfolding add_global
  add_global-Known name global version d p k = if_both KnownAfter (ltb version 1) _ _ k (
      if_both KnownAfter (is_some (lookup name d.globals)) _ _ k
        (record { globals = insert-P name global d.globals p k.globals; seats = k.seats }))

  named_seat-Known :
      (read : Option (List ℕ × List ℕ)) (global : ℕ) (d : Devices)
      → P "wl_seat" global
      → Known d
      → Known (named_seat read global d).1
  unfolding named_seat
  named_seat-Known none global d p k = k
  named_seat-Known (some (name, rest)) global d p k =
      if_both KnownAfter (not (eqb (length rest) 0)) _ _ k (
        if_both KnownAfter (not (same_codes name (codes "Hyprland"))) _ _ k (
          if_both KnownAfter (is_some (lookup "wl_seat" d.globals)) _ _ k (record {
            globals = insert-P "wl_seat" global d.globals p k.globals;
            seats = k.seats;
          })))

  discover_seat-Known :
      (global version : ℕ) (ids : Dict ℕ ℕ) (d : Devices)
      → d.discovery ≡ some ids
      → P "wl_seat" global
      → Known d
      → Known (discover_seat e global version ids d).1
  unfolding discover_seat
  discover_seat-Known global version ids d h p k = if_both KnownAfter (ltb version 2) _ _ k (
      if_both KnownAfter (leb 64 (length ids)) _ _ k (record {
        globals = k.globals;
        seats = λ ids' id g q l.
            insert_seat-P (11 + length ids) global ids p (λ i x. k.seats ids i x h) id g
              (ground (arith, q, l));
      }))

  announce_seat-Known :
      (global version : ℕ) (ids : Option (Dict ℕ ℕ)) (d : Devices)
      → d.discovery ≡ ids
      → P "wl_seat" global
      → Known d
      → Known (announce_seat e global version ids d).1
  unfolding announce_seat
  announce_seat-Known global version none d h p k = add_global-Known "wl_seat" global version d p k
  announce_seat-Known global version (some ids) d h p k =
      discover_seat-Known global version ids d h p k

  announce-Known :
      (global version : ℕ) (i : Option Interface) (d : Devices)
      → ((j : Interface) → i ≡ some j → P (interface_name j) global)
      → Known d
      → Known (announce e global i version d).1
  unfolding announce
  announce-Known global version none d p k = k
  announce-Known global version (some seat) d p k =
      announce_seat-Known global version d.discovery d refl (p seat refl) k
  announce-Known global version (some keyboard_manager) d p k =
      add_global-Known (interface_name keyboard_manager) global version d (p keyboard_manager refl)
        k
  announce-Known global version (some pointer_manager) d p k =
      add_global-Known (interface_name pointer_manager) global version d (p pointer_manager refl) k

  named_global-Known :
      (m : Message) (read : Option (List ℕ × List ℕ)) (d : Devices)
      → take_string e (drop 4 m.args) ≡ read
      → m.id ≡ 2
      → m.opcode ≡ 0
      → Reports m
      → Known d
      → Known (named_global e m.args read d).1
  unfolding named_global
  named_global-Known m none d h i o r k = k
  named_global-Known m (some (name, rest)) d h i o r k = elim (Bool-cases (eqb (length rest) 4)) [
    | inl n ↦ rw n (
        if_both KnownAfter d.watch_only _ _ k (
          announce-Known (get_u32 e m.args) (get_u32 e rest) (interface_of name) d
            (λ j q. r (interface_name j) (get_u32 e m.args) (record {
              to_registry = i;
              is_global = o;
              version = rest;
              interface = h ∙ ap (λ c. some (c, rest)) (interface_of_name name j q);
              complete = ground (arith, n);
              number = refl;
            }))
            k))
    | inr n ↦ rw n k
  ]

  seat_event-Known :
      (opcode : ℕ) (args : List ℕ) (global : ℕ) (d : Devices)
      → P "wl_seat" global
      → Known d
      → Known (seat_event e opcode args global d).1
  unfolding seat_event
  seat_event-Known opcode args global d p k =
      if_both KnownAfter (eqb opcode 0 && eqb (length args) 4) _ _ k (
        if_both KnownAfter (eqb opcode 1) _ _ (named_seat-Known (take_string e args) global d p k)
          k)

  registry_global-Known :
      (m : Message) (d : Devices)
      → m.id ≡ 2
      → m.opcode ≡ 0
      → Reports m
      → Known d
      → Known (registry_global e m.args d).1
  unfolding registry_global
  registry_global-Known m d i o r k =
      if_both KnownAfter (ltb (length m.args) 12) _ _ k
        (named_global-Known m (take_string e (drop 4 m.args)) d refl i o r k)

  -- A seat that events come from was announced.
  seat_global-P :
      (id : ℕ) (o : Option (Dict ℕ ℕ)) (d : Devices)
      → d.discovery ≡ o
      → Known d
      → eqb (seat_global id o) 0 ≡ false
      → P "wl_seat" (seat_global id o)
  seat_global-P id none d q k h = cc
  seat_global-P id (some ids) d q k h = found (lookup id ids) refl h
    where
      found :
          (o : Option ℕ) → lookup id ids ≡ o → eqb (or_zero o) 0 ≡ false → P "wl_seat" (or_zero o)
      found none l n = cc
      found (some g) l n = k.seats ids id g q l

  -- An event of the compositor records what the message itself announces, and nothing else.
  pub handle_event-Known :
      (m : Message) (d : Devices) → Reports m → Known d → Known (handle_event e m d).1
  unfolding handle_event display_error registry_remove
  handle_event-Known m d r k = if_both KnownAfter (eqb m.id 1 && eqb m.opcode 0) _ _ k (
      if_both KnownAfter (eqb m.id 1 && (eqb m.opcode 1 && eqb (length m.args) 4)) _ _ k
        (elim (Bool-cases (eqb m.id 2 && eqb m.opcode 0)) [
          | inl h ↦ rw h (registry_global-Known m d (ground (arith, h)) (ground (arith, h)) r k)
          | inr h ↦ rw h (
              if_both KnownAfter (eqb m.id 2 && (eqb m.opcode 1 && eqb (length m.args) 4)) _ _ k
                (elim (Bool-cases (eqb (seat_global m.id d.discovery) 0)) [
                  | inl z ↦ rw z (subst Known (sym (callback_event-same m.id m.opcode m.args d)) k)
                  | inr z ↦ rw z (
                      seat_event-Known m.opcode m.args (seat_global m.id d.discovery) d
                        (seat_global-P m.id d.discovery d refl k z) k)
                ]))
        ]))
