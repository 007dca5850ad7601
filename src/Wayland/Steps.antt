-- ===== src/Wayland/Steps.antt =====
-- What a step of the start keeps, if it goes on (internal/app/keyboard.go).
use hyprland_computer_use.Base.{
  ℕ, ◌≡◌, refl, true, false, Option, none, some, List, [], ◌∷◌, string_eq, nat_eq,
}
use hyprland_computer_use.Base.Dict.{lookup}
use hyprland_computer_use.Wayland.Wire.{Endian, Message}
use hyprland_computer_use.Wayland.Start.{
  Start, answered, asked_for, bind_as, stopped, ok, ◌>>=◌, Connection, request, sent_as, wait_for,
  sync, bind,
}
use hyprland_computer_use.Wayland.Wire.{encode_request, wl_words, wl_string}
use hyprland_computer_use.Base.{◌++◌, ◌∙◌}
use hyprland_computer_use.Base.{eqb}
use hyprland_computer_use.Base.Text.{codes}
use hyprland_computer_use.Wayland.Event.{interface_name, failed, callback, bind_seat}
use hyprland_computer_use.Wayland.Event.{Devices, Interface, EventOutcome, handle_event}
use hyprland_computer_use.Wayland.Globals.{handle_event-Extends, Extends, Extends-refl}
use hyprland_computer_use.Wayland.Globals.{After}

pub Extends-trans : (a b c : Devices) → Extends a b → Extends b c → Extends a c
Extends-trans a b c h k = (λ name g x. k.0 name g (h.0 name g x), k.1 ∙ h.1)

-- What holds at the end of a step of the start that goes on.
abbrev pub Ends : {A : Type 0} → (A → Type 0) → Start A → Type 0
Ends P (stopped x) = Unit
Ends P (ok a) = P a

abbrev pub Ends-bind :
    {A B : Type 0} (P : A → Type 0) (Q : B → Type 0) (first : Start A) (f : A → Start B)
    → Ends P first
    → ((a : A) → P a → Ends Q (f a))
    → Ends Q (first >>= f)
Ends-bind P Q (stopped x) f h k = tt
Ends-bind P Q (ok a) f h k = k a h

abbrev pub From : Devices → Connection → Type 0
From d c = Extends d c.devices

pub request-Ends :
    (P : Connection → Type 0) (e : Endian) (id opcode : ℕ) (args : List ℕ) (c : Connection)
    → ((bytes : List ℕ) → P (record c { sent = bytes ∷ c.sent }))
    → Ends P (request e id opcode args c)
unfolding request
request-Ends P e id opcode args c h =
    elim (encode_request e id opcode args) as (λ o. Ends P (sent_as o c)) [
      | none ↦ tt
      | some bytes ↦ h bytes
    ]

pub request-From :
    (first : Devices) (e : Endian) (id opcode : ℕ) (args : List ℕ) (c : Connection)
    → From first c
    → Ends (From first) (request e id opcode args c)
request-From first e id opcode args c h = request-Ends (From first) e id opcode args c (λ bytes. h)

pub answered-Extends :
    (e : Endian) (sent : List (List ℕ)) (d : Devices) (r : EventOutcome × Devices)
    → After d r
    → Ends (λ a. Extends d a.1.0) (answered e sent r)
unfolding answered
answered-Extends e sent d (failed x, d') h = tt
answered-Extends e sent d (callback id, d') h = h
answered-Extends e sent d (bind_seat args, d') h =
    elim (encode_request e 2 0 args) as (λ o. Ends (λ a. Extends d a.1.0) (asked_for sent d' o)) [
      | none ↦ tt
      | some bytes ↦ h
    ]

pub wait_for-From :
    (e : Endian) (wanted : ℕ) (first d : Devices) (inbox : List Message) (sent : List (List ℕ))
    → Extends first d
    → Ends (From first) (wait_for e wanted inbox (d, sent))
unfolding wait_for
wait_for-From e wanted first d [] sent h = tt
wait_for-From e wanted first d (m ∷ inbox) sent h =
    Ends-bind (λ a. Extends d a.1.0) (From first) (answered e sent (handle_event e m d)) _
      (answered-Extends e sent d (handle_event e m d) (handle_event-Extends e m d))
      (λ a k.
        elim (eqb a.0 wanted)
          as (λ b. Ends (From first) (elim b [
            | true ↦ ok (record { devices = a.1.0; inbox = inbox; sent = a.1.1 })
            | false ↦ wait_for e wanted inbox a.1
          ])) [
            | true ↦ Extends-trans first d a.1.0 h k
            | false ↦
                wait_for-From e wanted first a.1.0 inbox a.1.1 (Extends-trans first d a.1.0 h k)
          ])

pub sync-From :
    (e : Endian) (id : ℕ) (first : Devices) (c : Connection)
    → From first c
    → Ends (From first) (sync e id c)
unfolding sync
sync-From e id first c h =
    Ends-bind (From first) (From first) (request e 1 0 (wl_words e (id ∷ [])) c) _
      (request-From first e 1 0 (wl_words e (id ∷ [])) c h)
      (λ c' k. wait_for-From e id first c'.devices c'.inbox c'.sent k)

-- The interface is among the globals.
abbrev pub Bound : Interface → Connection → Type 0
Bound i c = (g : ℕ) × (lookup (interface_name i) c.devices.globals ≡ some g)

pub Bound-From : (i : Interface) (c c' : Connection) → From c.devices c' → Bound i c → Bound i c'
Bound-From i c c' h (g, k) = (g, h.0 (interface_name i) g k)

-- A bind that goes on found its interface.
pub bind-From :
    (e : Endian) (object : ℕ) (i : Interface) (c : Connection)
    → Ends (λ c'. From c.devices c' × Bound i c') (bind e object i c)
unfolding bind bind_as
bind-From e object i c = go (lookup (interface_name i) c.devices.globals) refl
  where
    go :
        (o : Option ℕ)
        → lookup (interface_name i) c.devices.globals ≡ o
        → Ends (λ c'. From c.devices c' × Bound i c') (bind_as e object i o c)
    go none h = tt
    go (some g) h =
        request-Ends (λ c'. From c.devices c' × Bound i c') e 2 0
          (wl_words e (g ∷ [])
            ++ (wl_string e (codes (interface_name i)) ++ wl_words e (1 ∷ object ∷ [])))
          c (λ bytes. (Extends-refl c.devices, (g, h)))

pub Ends_weaken :
    {A : Type 0} (P Q : A → Type 0) (r : Start A) → ((a : A) → P a → Q a) → Ends P r → Ends Q r
Ends_weaken P Q (stopped x) f h = tt
Ends_weaken P Q (ok a) f h = f a h

pub Ends_any :
    {A B : Type 0} (Q : B → Type 0) (first : Start A) (f : A → Start B)
    → ((a : A) → Ends Q (f a))
    → Ends Q (first >>= f)
Ends_any Q (stopped x) f k = tt
Ends_any Q (ok a) f k = k a
