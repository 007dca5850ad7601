-- ===== src/Wayland/Watch.antt =====
-- What a connection that only watches sends (internal/app/keyboard.go).
use hyprland_computer_use.Base.{
  ℕ, ◌≡◌, refl, sym, ap, ◌∙◌, arith, Bool, true, false, Option, none, some, List, [], ◌∷◌, map, eqb,
}
use mathlib.Core.Path.{subst}
use hyprland_computer_use.Wayland.Wire.{Endian, Message, wl_words, encode_request}
use hyprland_computer_use.Wayland.Start.{
  opened, Connection, Start, ok, answered, wait_for, sync, start_connection, reserve_devices,
  request, sent_as,
}
use hyprland_computer_use.Wayland.Event.{
  Devices, EventOutcome, failed, callback, bind_seat, handle_event,
}
use hyprland_computer_use.Wayland.Steps.{Ends_weaken, Ends, Ends-bind}

-- A watcher: it looks for no seats.
abbrev watching : Devices
watching = record { globals = []; watch_only = true; discovery = none }

-- Nothing is asked_for for, and nothing is recorded.
abbrev IsQuiet : EventOutcome × Devices → Type 0
IsQuiet (bind_seat args, d) = ⊥
IsQuiet (failed x, d) = d ≡ watching
IsQuiet (callback id, d) = d ≡ watching

handle_event-IsQuiet : (e : Endian) (m : Message) → IsQuiet (handle_event e m watching)
unfolding handle_event
handle_event-IsQuiet e m = ground arith

answered-sent :
    (e : Endian) (sent : List (List ℕ)) (r : EventOutcome × Devices)
    → IsQuiet r
    → Ends (λ a. a.1 ≡ (watching, sent)) (answered e sent r)
unfolding answered
answered-sent e sent (failed x, d) h = tt
answered-sent e sent (callback id, d) h = ap (λ (x : Devices). (x, sent)) h
answered-sent e sent (bind_seat args, d) h = absurd h

wait_for-sent :
    (e : Endian) (wanted : ℕ) (inbox : List Message) (sent : List (List ℕ))
    → Ends (λ c. c.sent ≡ sent) (wait_for e wanted inbox (watching, sent))
unfolding wait_for
wait_for-sent e wanted [] sent = tt
wait_for-sent e wanted (m ∷ inbox) sent =
    Ends-bind (λ b. b.1 ≡ (watching, sent)) (λ c. c.sent ≡ sent)
      (answered e sent (handle_event e m watching)) (λ b. turn (eqb b.0 wanted) b.1)
      (answered-sent e sent (handle_event e m watching) (handle_event-IsQuiet e m))
      (λ b k. after (wait_for-sent e wanted inbox sent) (eqb b.0 wanted) b.1 k)
  where
    turn : Bool → Devices × List (List ℕ) → Start Connection
    turn t b = elim t [
      | true ↦ ok (record { devices = b.0; inbox = inbox; sent = b.1 })
      | false ↦ wait_for e wanted inbox b
    ]

    after :
        Ends (λ c. c.sent ≡ sent) (wait_for e wanted inbox (watching, sent))
        → (t : Bool) → (b : Devices × List (List ℕ)) → b ≡ (watching, sent)
        → Ends (λ c. c.sent ≡ sent) (turn t b)
    after rest true b k = ap (λ (x : Devices × List (List ℕ)). x.1) k
    after rest false b k =
        subst
          (λ (x : Devices × List (List ℕ)). Ends (λ c. c.sent ≡ sent) (wait_for e wanted inbox x))
          (sym k) rest

-- One more request, and nothing else has changed.
abbrev Sends : Option (List ℕ) → Connection → Connection → Type 0
Sends o c c' = (c'.devices ≡ c.devices) × (map some c'.sent ≡ o ∷ map some c.sent)

request-Sends :
    (e : Endian) (id opcode : ℕ) (args : List ℕ) (c : Connection)
    → Ends (Sends (encode_request e id opcode args) c) (request e id opcode args c)
unfolding request
request-Sends e id opcode args c =
    elim (encode_request e id opcode args) as (λ o. Ends (Sends o c) (sent_as o c)) [
      | none ↦ tt
      | some bytes ↦ (refl, refl)
    ]

reserve_devices-watching :
    (e : Endian) (c : Connection) → c.devices ≡ watching → reserve_devices e c ≡ ok c
unfolding reserve_devices
reserve_devices-watching e c h = ground arith

sync-Sends :
    (e : Endian) (id : ℕ) (c : Connection)
    → c.devices ≡ watching
    → Ends
        (λ c'. map some c'.sent ≡ encode_request e 1 0 (wl_words e (id ∷ [])) ∷ map some c.sent)
        (sync e id c)
unfolding sync
sync-Sends e id c h =
    let bytes = encode_request e 1 0 (wl_words e (id ∷ [])) in
    Ends-bind (Sends bytes c) _ (request e 1 0 (wl_words e (id ∷ [])) c) _
      (request-Sends e 1 0 (wl_words e (id ∷ [])) c)
      (λ c' k.
        Ends_weaken (λ c''. c''.sent ≡ c'.sent) (λ c''. map some c''.sent ≡ bytes ∷ map some c.sent)
          _ (λ c'' same. ap (map some) same ∙ k.1)
          (subst
            (λ (d : Devices).
              Ends (λ c''. c''.sent ≡ c'.sent) (wait_for e id c'.inbox (d, c'.sent)))
            (sym (k.0 ∙ h)) (wait_for-sent e id c'.inbox c'.sent)))

-- If the start of a watcher of the compositor succeeds, whatever messages the compositor sent, then
-- it has sent two requests, for the registry and for a callback: it has bound no seat and has made
-- no device.
pub start_connection-sent :
    (e : Endian) (keymap_bytes : ℕ) (inbox : List Message) (c : Connection)
    → start_connection e keymap_bytes true false inbox ≡ ok c
    → map some c.sent
      ≡ encode_request e 1 0 (wl_words e (3 ∷ [])) ∷ encode_request e 1 1 (wl_words e (2 ∷ [])) ∷ []
unfolding start_connection
start_connection-sent e n inbox c h =
    let asks = encode_request e 1 1 (wl_words e (2 ∷ [])) in
    let syncs = encode_request e 1 0 (wl_words e (3 ∷ [])) in
    subst (Ends (λ c'. map some c'.sent ≡ syncs ∷ asks ∷ [])) h (
      Ends-bind (Sends asks (opened true false inbox)) _
        (request e 1 1 (wl_words e (2 ∷ [])) (opened true false inbox)) _
        (request-Sends e 1 1 (wl_words e (2 ∷ [])) (opened true false inbox))
        (λ c1 k. rw (reserve_devices-watching e c1 k.0) (
          Ends-bind (λ c'. map some c'.sent ≡ syncs ∷ asks ∷ [])
            (λ c'. map some c'.sent ≡ syncs ∷ asks ∷ []) (sync e 3 c1) ok
            (rw (← k.1) (sync-Sends e 3 c1 k.0)) (λ c2 q. q))))
