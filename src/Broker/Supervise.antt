-- ===== src/Broker/Supervise.antt =====
-- internal/app/broker.go: what `handleUI` does to the broker for its connection, and for the
-- commands "pause", "mode" and "cancel_share"; and the registration of an MCP client (tools.go).
use hyprland_computer_use.Base.{ℕ, ◌+◌, ◌-◌, String, Bool, true, false, Option, none, some, eqb}
use hyprland_computer_use.Base.{if◌then◌else◌, ◌==◌, string_eq}
use hyprland_computer_use.Base.Dict.{insert}
use hyprland_computer_use.Broker.State.{SharePicker, Mode, approve, yolo, Broker, note, increment}
use hyprland_computer_use.Broker.Cleanup.{Reply, clear_backend}
use hyprland_computer_use.Broker.Revoke.{clear_locked}

-- A console connects.
unfoldable pub connect_ui : Broker → Broker
connect_ui b = record b { ui_count = b.ui_count + 1 }

-- The critical section of the deferred function, which runs when the console goes away. The count
-- is positive there, since each connection added one.
unfoldable pub disconnect_ui_locked : ℕ → Broker → Broker
unfolding clear_locked note
disconnect_ui_locked now b =
    let left = record b { ui_count = b.ui_count - 1 } in
    let closed =
      note now "supervisor_disconnected" "broker authority removed; compositor cleanup requested"
        (clear_locked now (record left { paused = true })) in
    if eqb left.ui_count 0 then closed else left

unfoldable pub disconnect_ui : ℕ → (Broker → Broker) → ℕ → Reply → Broker → Broker
unfolding disconnect_ui_locked clear_backend
disconnect_ui now between now' reply b =
    let b' = between (disconnect_ui_locked now b) in
    if eqb (b.ui_count - 1) 0 then clear_backend now' reply b' else b'

-- The critical section of "pause".
unfoldable pub set_paused_locked : ℕ → Bool → Broker → Broker
unfolding clear_locked note increment
set_paused_locked now paused b =
    let b' = record b { paused = paused } in
    note now "pause" (if paused then "true" else "false")
      (if paused then clear_locked now b' else record b' { authority = increment b.authority })

unfoldable pub set_paused : ℕ → Bool → (Broker → Broker) → ℕ → Reply → Broker → Broker
unfolding set_paused_locked clear_backend
set_paused now paused between now' reply b =
    let b' = between (set_paused_locked now paused b) in
    if paused then clear_backend now' reply b' else b'

abbrev pub mode_name : Mode → String
mode_name approve = "approve"
mode_name yolo = "yolo"

-- The critical section of "mode", for a mode that exists.
unfoldable pub set_mode_locked : ℕ → Mode → Broker → Broker
unfolding clear_locked note
set_mode_locked now mode b =
    note now "mode" (mode_name mode) (record (clear_locked now b) { mode = mode })

unfoldable pub set_mode : ℕ → Mode → (Broker → Broker) → ℕ → Reply → Broker → Broker
unfolding set_mode_locked clear_backend
set_mode now mode between now' reply b =
    clear_backend now' reply (between (set_mode_locked now mode b))

abbrev pub is_picker_id : String → Option SharePicker → Bool
is_picker_id id none = false
is_picker_id id (some p) = p.id == id

-- "cancel_share"
unfoldable pub cancel_share : String → Broker → Broker
cancel_share id b = if is_picker_id id b.picker then record b { picker = none } else b

-- `b.clients[id] = label`
unfoldable pub connect_client : String → String → Broker → Broker
connect_client id label b = record b { clients = insert id label b.clients }
