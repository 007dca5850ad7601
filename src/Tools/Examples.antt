-- ===== src/Tools/Examples.antt =====
-- A batch that completes, and whose screenshot finds no window.
use hyprland_computer_use.Base.{
  ℕ, ◌≡◌, refl, true, false, none, some, [], ◌∷◌, List, String, string_eq, string_discrete,
}
use hyprland_computer_use.Surfaces.Examples.{floats}
use hyprland_computer_use.Broker.State.{Broker}
use hyprland_computer_use.Capture.Examples.{images, one_shot}
use hyprland_computer_use.Input.Examples.{call, with_turns, quiet_turn, granted_broker, seats}
use hyprland_computer_use.Input.Run.{input, screenshot}
use hyprland_computer_use.Tools.{Reports, input_tool, input_tool-Reports, wait_for_permission}

input_tool-Reports_example :
    Reports images
      (input floats "c"
        (record call { follow_up = screenshot })
        (with_turns (λ n. quiet_turn))
        granted_broker
        seats).0
      (input_tool images floats "c"
        (record call { follow_up = screenshot })
        (with_turns (λ n. quiet_turn))
        false
        true
        (λ b. b)
        (record one_shot { first = none })
        granted_broker
        seats).0
input_tool-Reports_example =
    input_tool-Reports images floats "c" (record call { follow_up = screenshot })
      (with_turns (λ n. quiet_turn)) false true (λ b. b) (record one_shot { first = none })
      granted_broker seats

unknown_request : wait_for_permission "c" "r" (granted_broker ∷ []) ≡ none
unfolding wait_for_permission hyprland_computer_use.Base.Dict.lookup
    hyprland_computer_use.Broker.State.new_broker
unknown_request = refl
