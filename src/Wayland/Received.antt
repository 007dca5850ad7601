-- ===== src/Wayland/Received.antt =====
-- The start of a connection, as far as its globals come from the messages received
-- (internal/app/keyboard.go).
use hyprland_computer_use.Base.{
  ℕ, arith, String, string_eq, nat_eq, Bool, true, false, eqb, if_both, is_some, none, some, List,
  [], ◌∷◌, All, Any, here, there,
}
use hyprland_computer_use.Base.Dict.{lookup}
use hyprland_computer_use.Wayland.Announced.{IsAnnouncement, Reports, Known, handle_event-Known}
use hyprland_computer_use.Wayland.Event.{
  Devices, EventOutcome, Interface, seat, keyboard_manager, pointer_manager, interface_name, failed,
  callback, bind_seat, handle_event,
}
use hyprland_computer_use.Wayland.Start.{
  ok, Connection, request, asked_for, answered, wait_for, sync, bind, bind_as, reserve, reserved,
  reserve_devices, make_devices, create_devices, opened, start_connection,
}
use hyprland_computer_use.Wayland.Steps.{Ends, Ends-bind, request-Ends}
use hyprland_computer_use.Wayland.Wire.{Endian, Message, encode_request, wl_words}

-- Each message of a list reports what is announced in it.
pub messages-Reports :
    (e : Endian) (P : String → ℕ → Type 0) (ms : List Message)
    → ((name : String) (g : ℕ) → Any (IsAnnouncement e name g) ms → P name g)
    → All (Reports e P) ms
messages-Reports e P [] k = tt
messages-Reports e P (m ∷ ms) k =
    (λ name g a. k name g (here a), messages-Reports e P ms (λ name g a. k name g (there a)))

module _ (e : Endian) (P : String → ℕ → Type 0) where
  pub record Sound (c : Connection) : Type 0 where
    pub known : Known e P c.devices
    pub coming : All (Reports e P) c.inbox

  request-Sound :
      (id opcode : ℕ) (args : List ℕ) (c : Connection)
      → Sound c
      → Ends Sound (request e id opcode args c)
  request-Sound id opcode args c s =
      request-Ends Sound e id opcode args c (λ bytes. record { known = s.known; coming = s.coming })

  answered-Known :
      (sent : List (List ℕ)) (r : EventOutcome × Devices)
      → Known e P r.1
      → Ends (λ a. Known e P a.1.0) (answered e sent r)
  unfolding answered
  answered-Known sent (failed x, d) k = tt
  answered-Known sent (callback id, d) k = k
  answered-Known sent (bind_seat args, d) k =
      elim (encode_request e 2 0 args) as (λ o. Ends (λ a. Known e P a.1.0) (asked_for sent d o)) [
        | none ↦ tt
        | some bytes ↦ k
      ]

  wait_for-Sound :
      (wanted : ℕ) (d : Devices) (inbox : List Message) (sent : List (List ℕ))
      → Known e P d
      → All (Reports e P) inbox
      → Ends Sound (wait_for e wanted inbox (d, sent))
  unfolding wait_for
  wait_for-Sound wanted d [] sent k r = tt
  wait_for-Sound wanted d (m ∷ inbox) sent k r =
      Ends-bind (λ a. Known e P a.1.0) Sound (answered e sent (handle_event e m d)) _
        (answered-Known sent (handle_event e m d) (handle_event-Known e P m d r.0 k))
        (λ a k'.
          elim (eqb a.0 wanted)
            as (λ b. Ends Sound (elim b [
              | true ↦ ok (record { devices = a.1.0; inbox = inbox; sent = a.1.1 })
              | false ↦ wait_for e wanted inbox a.1
            ])) [
              | true ↦ record { known = k'; coming = r.1 }
              | false ↦ wait_for-Sound wanted a.1.0 inbox a.1.1 k' r.1
            ])

  sync-Sound : (id : ℕ) (c : Connection) → Sound c → Ends Sound (sync e id c)
  unfolding sync
  sync-Sound id c s =
      Ends-bind Sound Sound (request e 1 0 (wl_words e (id ∷ [])) c) _
        (request-Sound 1 0 (wl_words e (id ∷ [])) c s)
        (λ c' s'. wait_for-Sound id c'.devices c'.inbox c'.sent s'.known s'.coming)

  reserve-Sound : (ids : List ℕ) (c : Connection) → Sound c → Ends Sound (reserve e ids c)
  unfolding reserve
  reserve-Sound [] c s = s
  reserve-Sound (id ∷ ids) c s =
      Ends-bind Sound Sound (request e 1 0 (wl_words e (id ∷ [])) c) (reserve e ids)
        (request-Sound 1 0 (wl_words e (id ∷ [])) c s) (reserve-Sound ids)

  reserve_devices-Sound : (c : Connection) → Sound c → Ends Sound (reserve_devices e c)
  unfolding reserve_devices
  reserve_devices-Sound c s =
      if_both (Ends Sound) (is_some c.devices.discovery) _ _
        (Ends-bind Sound Sound (reserve e reserved c) _ (reserve-Sound reserved c s)
          (λ c' s'. wait_for-Sound 10 c'.devices c'.inbox c'.sent s'.known s'.coming))
        s

  bind-Sound :
      (object : ℕ) (i : Interface) (c : Connection) → Sound c → Ends Sound (bind e object i c)
  unfolding bind bind_as
  bind-Sound object i c s =
      elim (lookup (interface_name i) c.devices.globals)
        as (λ o. Ends Sound (bind_as e object i o c)) [
          | none ↦ tt
          | some g ↦ request-Sound 2 0 _ c s
        ]

  make_devices-Sound : (n : ℕ) (c : Connection) → Sound c → Ends Sound (make_devices e n c)
  unfolding make_devices
  make_devices-Sound n c s =
      Ends-bind Sound Sound (request e 6 0 (wl_words e (4 ∷ 7 ∷ [])) c) _
        (request-Sound 6 0 (wl_words e (4 ∷ 7 ∷ [])) c s)
        (λ c1 s1.
          Ends-bind Sound Sound (request e 5 0 (wl_words e (4 ∷ 8 ∷ [])) c1) _
            (request-Sound 5 0 (wl_words e (4 ∷ 8 ∷ [])) c1 s1)
            (λ c2 s2.
              Ends-bind Sound Sound (request e 8 0 (wl_words e (1 ∷ n ∷ [])) c2) (sync e 9)
                (request-Sound 8 0 (wl_words e (1 ∷ n ∷ [])) c2 s2) (sync-Sound 9)))

  create_devices-Sound : (n : ℕ) (c : Connection) → Sound c → Ends Sound (create_devices e n c)
  unfolding create_devices
  create_devices-Sound n c s =
      Ends-bind Sound Sound (bind e 4 seat c) _ (bind-Sound 4 seat c s) (λ c1 s1.
        Ends-bind Sound Sound (bind e 5 keyboard_manager c1) _ (bind-Sound 5 keyboard_manager c1 s1)
          (λ c2 s2.
            Ends-bind Sound Sound (bind e 6 pointer_manager c2) (make_devices e n)
              (bind-Sound 6 pointer_manager c2 s2) (make_devices-Sound n)))

  opened-Known :
      (watch_only automatic : Bool) (inbox : List Message)
      → Known e P (opened watch_only automatic inbox).devices
  unfolding lookup
  opened-Known watch_only true inbox = record {
    globals = λ name g h. cc;
    seats = λ ids id g q h. absurd (ground (arith, q, h));
  }
  opened-Known watch_only false inbox = record {
    globals = λ name g h. cc;
    seats = λ ids id g q h. cc;
  }

  -- Whatever the start has recorded at its end was announced, if all that was received is reported.
  pub start_connection-Sound :
      (n : ℕ) (watch_only automatic : Bool) (inbox : List Message)
      → All (Reports e P) inbox
      → Ends Sound (start_connection e n watch_only automatic inbox)
  unfolding start_connection
  start_connection-Sound n watch_only automatic inbox r =
      Ends-bind Sound Sound
        (request e 1 1 (wl_words e (2 ∷ [])) (opened watch_only automatic inbox)) _
        (request-Sound 1 1 (wl_words e (2 ∷ [])) (opened watch_only automatic inbox)
          (record { known = opened-Known watch_only automatic inbox; coming = r }))
        (λ c1 s1.
          Ends-bind Sound Sound (reserve_devices e c1) _ (reserve_devices-Sound c1 s1) (λ c2 s2.
            Ends-bind Sound Sound (sync e 3 c2) _ (sync-Sound 3 c2 s2)
              (λ c3 s3. if_both (Ends Sound) watch_only _ _ s3 (create_devices-Sound n c3 s3))))
