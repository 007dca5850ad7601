-- ===== src/Wayland/Ready.antt =====
-- A start that goes on found every device's interface (internal/app/keyboard.go).
use hyprland_computer_use.Base.{
  ℕ, ◌≡◌, String, Bool, false, some, List, [], ◌∷◌, Any, string_eq, nat_eq,
}
use hyprland_computer_use.Base.Dict.{lookup}
use hyprland_computer_use.Wayland.Event.{interface_name}
use hyprland_computer_use.Wayland.Announced.{IsAnnouncement}
use hyprland_computer_use.Wayland.Received.{Sound, messages-Reports, start_connection-Sound}
use hyprland_computer_use.Wayland.Wire.{Endian, Message}
use mathlib.Core.Path.{subst}
use hyprland_computer_use.Wayland.Start.{
  Start, ok, ◌>>=◌, Connection, request, sync, reserve_devices, bind, create_devices,
  start_connection,
}
use hyprland_computer_use.Wayland.Wire.{wl_words}
use hyprland_computer_use.Wayland.Event.{Interface, seat, keyboard_manager, pointer_manager}
use hyprland_computer_use.Wayland.Globals.{Extends-refl}
use hyprland_computer_use.Wayland.Start.{make_devices}
use hyprland_computer_use.Wayland.Steps.{
  Ends, Ends-bind, Ends_weaken, Ends_any, From, sync-From, request-Ends, bind-From, Bound,
  Bound-From,
}
use hyprland_computer_use.Wayland.Start.{opened}

abbrev pub AllBound : Connection → Type 0
AllBound c = Bound seat c × (Bound keyboard_manager c × Bound pointer_manager c)

pub AllBound-From : (c c' : Connection) → From c.devices c' → AllBound c → AllBound c'
AllBound-From c c' f (s, (k, p)) = (
  Bound-From seat c c' f s,
  (Bound-From keyboard_manager c c' f k, Bound-From pointer_manager c c' f p),
)

pub sync-AllBound :
    (e : Endian) (id : ℕ) (c : Connection) → AllBound c → Ends AllBound (sync e id c)
sync-AllBound e id c all =
    Ends_weaken (From c.devices) AllBound (sync e id c) (λ c' f. AllBound-From c c' f all)
      (sync-From e id c.devices c (Extends-refl c.devices))

-- The requests for the pointer, the keyboard and its keymap.
pub devices-AllBound :
    (e : Endian) (n : ℕ) (c : Connection) → AllBound c → Ends AllBound (make_devices e n c)
unfolding make_devices
devices-AllBound e n c all = then_request c 6 (4 ∷ 7 ∷ []) _ all (λ c1 a1.
    then_request c1 5 (4 ∷ 8 ∷ []) _ a1
      (λ c2 a2. then_request c2 8 (1 ∷ n ∷ []) (sync e 9) a2 (λ c3 a3. sync-AllBound e 9 c3 a3)))
  where
    then_request :
        (c : Connection) (id : ℕ) (words : List ℕ) (f : Connection → Start Connection)
        → AllBound c
        → ((c' : Connection) → AllBound c' → Ends AllBound (f c'))
        → Ends AllBound (request e id 0 (wl_words e words) c >>= f)
    then_request c id words f h k =
        Ends-bind AllBound AllBound (request e id 0 (wl_words e words) c) f
          (request-Ends AllBound e id 0 (wl_words e words) c (λ bytes. h)) k

pub create_devices-AllBound :
    (e : Endian) (n : ℕ) (c : Connection) → Ends AllBound (create_devices e n c)
unfolding create_devices
create_devices-AllBound e n c = then_bind 4 seat c _ (λ c1 (_, s).
    then_bind 5 keyboard_manager c1 _ (λ c2 (f2, k).
      then_bind 6 pointer_manager c2 (make_devices e n) (λ c3 (f3, p). devices-AllBound e n c3 (
        Bound-From seat c2 c3 f3 (Bound-From seat c1 c2 f2 s),
        (Bound-From keyboard_manager c2 c3 f3 k, p),
      ))))
  where
    then_bind :
        (object : ℕ) (i : Interface) (c : Connection) (f : Connection → Start Connection)
        → ((c' : Connection) → From c.devices c' × Bound i c' → Ends AllBound (f c'))
        → Ends AllBound (bind e object i c >>= f)
    then_bind object i c f k =
        Ends-bind (λ c'. From c.devices c' × Bound i c') AllBound (bind e object i c) f
          (bind-From e object i c) k

start_connection-AllBound :
    (e : Endian) (keymap_bytes : ℕ) (automatic : Bool) (inbox : List Message)
    → Ends AllBound (start_connection e keymap_bytes false automatic inbox)
unfolding start_connection
start_connection-AllBound e n automatic inbox =
    Ends_any AllBound (request e 1 1 (wl_words e (2 ∷ [])) (opened false automatic inbox)) _
      (λ asked_for. Ends_any AllBound (reserve_devices e asked_for) _ (λ free.
        Ends_any AllBound (sync e 3 free) _ (λ listed. create_devices-AllBound e n listed)))

bound : (i : Interface) (c : Connection) → AllBound c → Bound i c
bound seat c all = all.0
bound keyboard_manager c all = all.1.0
bound pointer_manager c all = all.1.1

-- If the start of the virtual devices succeeds, whatever messages the compositor sent, then each of
-- the three interfaces (a seat, a virtual keyboard manager and a virtual pointer manager) was
-- announced: it is recorded with the number of a global that a message of the registry, among
-- those that were sent, gave with that interface's name. There is no start without one of them.
pub start_connection-announced :
    (e : Endian) (keymap_bytes : ℕ) (automatic : Bool) (inbox : List Message) (c : Connection)
    (i : Interface)
    → start_connection e keymap_bytes false automatic inbox ≡ ok c
    → (g : ℕ) × (lookup (interface_name i) c.devices.globals ≡ some g)
      × Any (IsAnnouncement e (interface_name i) g) inbox
start_connection-announced e n automatic inbox c i h =
    let (g, l) =
      bound i c (subst (Ends AllBound) h (start_connection-AllBound e n automatic inbox)) in
    let reports = messages-Reports e P inbox (λ name k a. a) in
    let s =
      subst (Ends (Sound e P)) h (start_connection-Sound e P n false automatic inbox reports) in
    (g, l, s.known.globals (interface_name i) g l)
  where
    P : String → ℕ → Type 0
    P name g = Any (IsAnnouncement e name g) inbox
