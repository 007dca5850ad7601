-- ===== src/Recording/Start.antt =====
-- The start of a recording (`record` of internal/app/desktop.go), its end, and the tools that stop
-- and list the recordings of a connection (internal/app/tools.go).
use hyprland_computer_use.Base.{
  ℕ, suc, ◌≤◌, arith, String, Bool, true, false, Option, none, some, List, [], ◌∷◌, length, leb,
  if◌then◌else◌, ◌==◌, string_eq,
}
use hyprland_computer_use.Base.Dict.{Dict, lookup, insert, length-insert}
use hyprland_computer_use.Broker.State.{Window, Broker, window, Recording, recording, note}
use hyprland_computer_use.Broker.Scope.{Error}
use hyprland_computer_use.Broker.Permit.{Permit, permit, permitted, requested, refused}

pub data Started : Type 0 where
  not_permitted : Error → Started
  needs_approval : String → Started
  no_recording_id recording_limit too_many_active : Started
  recording_started : String → Started

-- The recordings that run.
abbrev pub active_count : Dict String Recording → ℕ
active_count [] = 0
active_count ((id, r) ∷ rs) = if r.active then suc (active_count rs) else active_count rs

-- The critical section, with the ID that was drawn.
unfoldable pub add_recording : String → Window → Option String → Broker → Started × Broker
add_recording client w none b = (no_recording_id, b)
add_recording client w (some id) b =
    if leb 32 (length b.recordings)
    then (recording_limit, b)
    else if leb 2 (active_count b.recordings)
    then (too_many_active, b)
    else (
      recording_started id,
      record b {
        recordings =
            insert id
              (record { id = id; client = client; window = w.id; active = true; cancelled = false })
              b.recordings;
      },
    )

abbrev pub start_permitted :
    String → Window → Option String → (Broker → Broker) → Permit × Broker → Started × Broker
start_permitted client w id others (refused x, b) = (not_permitted x, b)
start_permitted client w id others (requested r, b) = (needs_approval r, b)
start_permitted client w id others (permitted g, b) = add_recording client w id (others b)

-- `record`, up to its goroutine: `others` is what happens between the two sections.
unfoldable pub start_recording :
    ℕ
    → Option String
    → String
    → Window
    → Option String
    → (Broker → Broker)
    → Broker
    → Started × Broker
unfolding permit add_recording
start_recording now fresh client w id others b = start_permitted client w id others (
    permit now fresh client recording (record { kind = window; id = w.id }) (some w)
      "Record only this window to a local video" b)

-- The last section of the goroutine.
abbrev pub stopped_at : String → Option Recording → Dict String Recording → Dict String Recording
stopped_at id none rs = rs
stopped_at id (some r) rs = insert id (record r { active = false }) rs

unfoldable pub end_recording : ℕ → String → Broker → Broker
unfolding note
end_recording now id b =
    note now "recording_stopped" id
      (record b { recordings = stopped_at id (lookup id b.recordings) b.recordings })

-- `stop_recording`: whether there is such a recording, which is cancelled.
abbrev pub cancel_own : String → String → Option Recording → Broker → Bool × Broker
cancel_own client id none b = (false, b)
cancel_own client id (some r) b =
    if r.client == client
    then (true, record b { recordings = insert id (record r { cancelled = true }) b.recordings })
    else (false, b)

unfoldable pub stop_recording : String → String → Broker → Bool × Broker
stop_recording client id b = cancel_own client id (lookup id b.recordings) b

-- `list_recordings`
unfoldable pub list_recordings : String → Dict String Recording → List Recording
list_recordings client [] = []
list_recordings client ((id, r) ∷ rs) =
    let rest = list_recordings client rs in if r.client == client then r ∷ rest else rest

-- At most 32 recordings are kept in a run.
pub start_recording-limit :
    (client : String) (w : Window) (id : Option String) (b : Broker)
    → length b.recordings ≤ 32
    → length (add_recording client w id b).1.recordings ≤ 32
unfolding add_recording
start_recording-limit client w none b h = h
start_recording-limit client w (some id) b h =
    let r : Recording = record {
      id = id;
      client = client;
      window = w.id;
      active = true;
      cancelled = false;
    } in
    ground (arith, length-insert id r b.recordings)
