-- ===== src/Surfaces.antt =====
-- internal/app/window_state.go: the validation of the compositor's description of a window. The
-- floating-point numbers are a parameter, with the tests that the code makes on them.
pub mod Laws
pub mod Examples
use hyprland_computer_use.Base.{
  Bool, false, not, ◌||◌, eqb, ltb, len, Option, none, some, List, [], ◌∷◌, length, String,
  string_eq, ◌==◌, if◌then◌else◌,
}
use hyprland_computer_use.Base.Int.{ℤ, pos, negsuc}
use hyprland_computer_use.Base.{contains}

-- A float64: `math.IsNaN`, `math.IsInf`, `> 0`, and what the checks of pointer actions use: the
-- conversion of an int, `<`, `>=`, `==`, `math.Abs` and `math.Trunc`.
pub record Floats : Type 1 where
  pub Float : Type 0
  pub is_nan : Float → Bool
  pub is_infinite : Float → Bool
  pub is_positive : Float → Bool
  pub of_int : ℤ → Float
  pub less : Float → Float → Bool
  pub at_least : Float → Float → Bool
  pub equals : Float → Float → Bool
  pub abs : Float → Float
  pub trunc : Float → Float

pub record SurfaceInfo (f : Floats) : Type 0 where
  pub id : String
  pub kind : String
  pub revision : String
  pub offset : f.Float × f.Float
  pub size : f.Float × f.Float

pub record RelatedWindow : Type 0 where
  pub window : String
  pub relationship : String
  pub separate_grant_required : Bool

pub record WindowSurfaceState (f : Floats) : Type 0 where
  pub window : String
  pub revision : String
  pub surfaces : List (SurfaceInfo f)
  pub related : List RelatedWindow
  pub related_truncated : Bool
  pub seat_grab_active : Bool
  pub session_locked : Bool
  pub version : ℤ

pub data StateError : Type 0 where
  invalid_window_id no_reply unavailable guard_unavailable : StateError
  invalid_window_state invalid_surface_state invalid_surface_kind : StateError
  invalid_surface_geometry invalid_related_window_state : StateError

-- The guard's reply, if it was decoded.
pub record StateReply (f : Floats) : Type 0 where
  pub ok : Bool
  pub state : Option (WindowSurfaceState f)

module _ (f : Floats) where
  abbrev pub bad_size : f.Float → Bool
  bad_size x = f.is_nan x || (f.is_infinite x || not (f.is_positive x))

  abbrev pub bad_offset : f.Float → Bool
  bad_offset x = f.is_nan x || f.is_infinite x

  -- The loop over both coordinates.
  abbrev pub bad_geometry : SurfaceInfo f → Bool
  bad_geometry s =
      bad_size s.size.0 || (bad_offset s.offset.0 || (bad_size s.size.1 || bad_offset s.offset.1))

  abbrev pub known_kind : String → Bool
  known_kind k = k == "toplevel" || (k == "popup" || k == "subsurface")

  -- The first loop: `seen` holds the IDs before.
  unfoldable pub check_surfaces : List String → List (SurfaceInfo f) → Option StateError
  check_surfaces seen [] = none
  check_surfaces seen (s ∷ ss) =
      let rest = check_surfaces (s.id ∷ seen) ss in
      if s.id == "" || (ltb 128 (len s.id) || (s.revision == "" || contains seen s.id))
      then some invalid_surface_state
      else if not (known_kind s.kind)
      then some invalid_surface_kind
      else if bad_geometry s
      then some invalid_surface_geometry
      else rest

abbrev pub known_relationship : String → Bool
known_relationship r = r == "parent" || r == "transient_child"

-- The second loop.
unfoldable pub check_related : String → List String → List RelatedWindow → Option StateError
check_related window seen [] = none
check_related window seen (r ∷ rs) =
    let rest = check_related window (r.window ∷ seen) rs in
    if r.window == ""
      || (ltb 128 (len r.window)
          || (r.window == window
              || (contains seen r.window
                  || (not r.separate_grant_required || not (known_relationship r.relationship)))))
    then some invalid_related_window_state
    else rest

abbrev pub is_version_1 : ℤ → Bool
is_version_1 (pos n) = eqb n 1
is_version_1 (negsuc n) = false

-- The error of a state, if any, in the order of the code.
unfoldable pub check_state : (f : Floats) → String → WindowSurfaceState f → Option StateError
unfolding check_surfaces check_related
check_state f window s =
    if not (is_version_1 s.version)
    then some guard_unavailable
    else if not (s.window == window)
        || (s.revision == ""
            || (eqb (length s.surfaces) 0
                || (ltb 128 (length s.surfaces) || ltb 64 (length s.related))))
    then some invalid_window_state
    else elim (check_surfaces f [] s.surfaces) [
      | some e ↦ some e
      | none ↦ check_related window [] s.related
    ]

pub data StateResult (f : Floats) : Type 0 where
  refused : StateError → StateResult f
  accepted : WindowSurfaceState f → StateResult f

abbrev pub conclude_state : (f : Floats) → Option StateError → WindowSurfaceState f → StateResult f
conclude_state f (some e) s = refused e
conclude_state f none s = accepted s

abbrev pub of_state : (f : Floats) → String → Option (WindowSurfaceState f) → StateResult f
of_state f window none = refused guard_unavailable
of_state f window (some s) = conclude_state f (check_state f window s) s

abbrev pub of_reply : (f : Floats) → String → Option (StateReply f) → StateResult f
of_reply f window none = refused no_reply
of_reply f window (some r) = if not r.ok then refused unavailable else of_state f window r.state

-- `windowState`, for the guard's reply.
unfoldable pub window_state : (f : Floats) → String → Option (StateReply f) → StateResult f
unfolding check_state
window_state f window reply =
    if window == "" || ltb 128 (len window)
    then refused invalid_window_id
    else of_reply f window reply
