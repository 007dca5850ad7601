-- ===== src/Surfaces/Laws.antt =====
-- What an accepted description of a window promises (internal/app/window_state.go).
use hyprland_computer_use.Base.{
  ◌≡◌, ◌≢◌, ◌≤◌, ◌<◌, arith, All, true, false, Option, none, some, List, [], ◌∷◌, length, String,
  string_eq,
}
use hyprland_computer_use.Surfaces.{
  Floats, SurfaceInfo, RelatedWindow, WindowSurfaceState, StateReply, known_kind, bad_geometry,
  known_relationship, check_surfaces, check_related, check_state, of_reply, accepted, window_state,
}
use mathlib.Core.Path.{subst}
use hyprland_computer_use.Base.{contains}
use hyprland_computer_use.Base.{refl}
use hyprland_computer_use.Surfaces.{StateError, of_state}
use hyprland_computer_use.Surfaces.{conclude_state}

-- No two of them, and none of `seen`, are equal.
abbrev pub Distinct : List String → List String → Type 0
Distinct seen [] = Unit
Distinct seen (x ∷ xs) = (contains seen x ≡ false) × Distinct (x ∷ seen) xs

abbrev pub surface_ids : {f : Floats} → List (SurfaceInfo f) → List String
surface_ids [] = []
surface_ids (s ∷ ss) = s.id ∷ surface_ids ss

abbrev pub related_ids : List RelatedWindow → List String
related_ids [] = []
related_ids (r ∷ rs) = r.window ∷ related_ids rs

-- Another window, which a grant for this one does not include.
abbrev pub IsSeparate : String → RelatedWindow → Type 0
IsSeparate window r =
    (r.window ≢ window)
    × (r.separate_grant_required ≡ true)
    × (known_relationship r.relationship ≡ true)

abbrev pub IsSound : (f : Floats) → SurfaceInfo f → Type 0
IsSound f s = (known_kind f s.kind ≡ true) × (bad_geometry f s ≡ false)

pub record IsAccepted (f : Floats) (window : String) (s : WindowSurfaceState f) : Type 0 where
  pub same_window : s.window ≡ window
  pub some_surface : 0 < length s.surfaces
  pub few_surfaces : length s.surfaces ≤ 128
  pub few_related : length s.related ≤ 64
  pub surfaces_distinct : Distinct [] (surface_ids s.surfaces)
  pub surfaces_sound : All (IsSound f) s.surfaces
  pub related_distinct : Distinct [] (related_ids s.related)
  pub related_separate : All (IsSeparate window) s.related

check_surfaces-Distinct :
    (f : Floats) (seen : List String) (ss : List (SurfaceInfo f))
    → check_surfaces f seen ss ≡ none
    → Distinct seen (surface_ids ss) × All (IsSound f) ss
unfolding check_surfaces
check_surfaces-Distinct f seen [] h = (tt, tt)
check_surfaces-Distinct f seen (s ∷ ss) h =
    let rest = check_surfaces-Distinct f (s.id ∷ seen) ss (ground arith) in
    ((ground arith, rest.0), ((ground arith, ground arith), rest.1))

check_related-Distinct :
    (window : String) (seen : List String) (rs : List RelatedWindow)
    → check_related window seen rs ≡ none
    → Distinct seen (related_ids rs) × All (IsSeparate window) rs
unfolding check_related
check_related-Distinct window seen [] h = (tt, tt)
check_related-Distinct window seen (r ∷ rs) h =
    let rest = check_related-Distinct window (r.window ∷ seen) rs (ground arith) in
    ((ground arith, rest.0), ((ground arith, ground arith, ground arith), rest.1))

check_state-IsAccepted :
    (f : Floats) (window : String) (s : WindowSurfaceState f)
    → check_state f window s ≡ none
    → IsAccepted f window s
unfolding check_state
check_state-IsAccepted f window s h =
    let surfaces = check_surfaces-Distinct f [] s.surfaces (ground arith) in
    let related = check_related-Distinct window [] s.related (ground arith) in
    record {
      same_window = ground arith;
      some_surface = ground arith;
      few_surfaces = ground arith;
      few_related = ground arith;
      surfaces_distinct = surfaces.0;
      surfaces_sound = surfaces.1;
      related_distinct = related.0;
      related_separate = related.1;
    }

conclude_state-accepted :
    (f : Floats) (e : Option StateError) (t s : WindowSurfaceState f)
    → conclude_state f e t ≡ accepted s
    → (e ≡ none) × (t ≡ s)
conclude_state-accepted f none t s h = (refl, ground arith)
conclude_state-accepted f (some e) t s h = cc

of_state-IsAccepted :
    (f : Floats) (window : String) (state : Option (WindowSurfaceState f))
    (s : WindowSurfaceState f)
    → of_state f window state ≡ accepted s
    → IsAccepted f window s
of_state-IsAccepted f window none s h = cc
of_state-IsAccepted f window (some t) s h =
    let (e, same) = conclude_state-accepted f (check_state f window t) t s h in
    subst (IsAccepted f window) same (check_state-IsAccepted f window t e)

of_reply-IsAccepted :
    (f : Floats) (window : String) (reply : Option (StateReply f)) (s : WindowSurfaceState f)
    → of_reply f window reply ≡ accepted s
    → IsAccepted f window s
of_reply-IsAccepted f window none s h = cc
of_reply-IsAccepted f window (some r) s h = of_state-IsAccepted f window r.state s (ground arith)

-- Whatever the guard replies, a description that is returned is of the window that was asked for:
-- it has 1 to 128 surfaces with distinct IDs, known kinds, finite offsets and finite positive sizes,
-- and at most 64 related windows, distinct and other than this one, each needing its own grant.
pub window_state-IsAccepted :
    (f : Floats) (window : String) (reply : Option (StateReply f)) (s : WindowSurfaceState f)
    → window_state f window reply ≡ accepted s
    → IsAccepted f window s
unfolding window_state
window_state-IsAccepted f window reply s h = of_reply-IsAccepted f window reply s (ground arith)
