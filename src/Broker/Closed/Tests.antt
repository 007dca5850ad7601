-- ===== src/Broker/Closed/Tests.antt =====
-- Tests on sections and on runs of them.
use hyprland_computer_use.Base.{ℕ, ◌≡◌, Bool, true, List, string_eq}
use hyprland_computer_use.Base.{false, All}
use hyprland_computer_use.Broker.Cleanup.{done}
use hyprland_computer_use.Broker.Run.{Section, pauses, cleans}

-- The compositor confirms a revocation, or all of them.
abbrev pub confirms : Section → Bool
confirms (cleans q done) = true
confirms s = false

-- The user resumes the broker.
abbrev pub resumes : Section → Bool
resumes (pauses false) = true
resumes s = false

-- No section of the run passes the test.
abbrev pub Never : (Section → Bool) → List (ℕ × Section) → Type 0
Never p t = All (λ e. p e.1 ≡ false) t
