-- ===== src/Surfaces/Examples.antt =====
-- An accepted description of a window with one surface and one related window.
use hyprland_computer_use.Base.{ℕ, ltb, ◌≡◌, true, false, some, [], ◌∷◌, string_eq, string_discrete}
use hyprland_computer_use.Base.Int.{pos}
use hyprland_computer_use.Surfaces.{
  Floats, SurfaceInfo, RelatedWindow, WindowSurfaceState, StateReply, accepted, window_state,
}
use hyprland_computer_use.Surfaces.Laws.{IsAccepted, window_state-IsAccepted}
use hyprland_computer_use.Base.{refl}
use hyprland_computer_use.Base.{leb, eqb}
use hyprland_computer_use.Base.Int.{pos_part}

abbrev pub floats : Floats
floats = record {
  Float = ℕ;
  is_nan = λ x. false;
  is_infinite = λ x. false;
  is_positive = λ x. ltb 0 x;
  of_int = pos_part;
  less = ltb;
  at_least = λ a b. leb b a;
  equals = eqb;
  abs = λ x. x;
  trunc = λ x. x;
}

abbrev surface : SurfaceInfo floats
surface = record { id = "s"; kind = "toplevel"; revision = "1"; offset = (0, 0); size = (640, 480) }

abbrev related : RelatedWindow
related = record { window = "0x2"; relationship = "parent"; separate_grant_required = true }

abbrev described : WindowSurfaceState floats
described = record {
  window = "0x1";
  revision = "1";
  surfaces = surface ∷ [];
  related = related ∷ [];
  related_truncated = false;
  seat_grab_active = false;
  session_locked = false;
  version = pos 1;
}

abbrev reply : StateReply floats
reply = record { ok = true; state = some described }

described_now : window_state floats "0x1" (some reply) ≡ accepted described
unfolding window_state string_discrete string_eq
described_now = refl

window_state-IsAccepted_example : IsAccepted floats "0x1" described
window_state-IsAccepted_example =
    window_state-IsAccepted floats "0x1" (some reply) described described_now
