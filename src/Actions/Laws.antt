-- ===== src/Actions/Laws.antt =====
-- What the check of a text promises (internal/app/text.go).
use hyprland_computer_use.Actions.{is_control, check_runes, validate_text}
use hyprland_computer_use.Base.{
  ℕ, ◌≤◌, ◌<◌, ◌≡◌, ◌↔◌, ◌⊎◌, refl, arith, false, none, some, List, [], ◌∷◌, All,
}

-- A rune that may be typed: a line feed, a tab, or no other control character.
abbrev pub IsTyped : ℕ → Type 0
IsTyped r = (r ≡ 10) ⊎ ((r ≡ 9) ⊎ ((32 ≤ r) × ((r < 0x7f) ⊎ (0x9f < r))))

is_control-IsTyped : (r : ℕ) → is_control r ≡ false → IsTyped r
is_control-IsTyped r h = ground arith

IsTyped-is_control : (r : ℕ) → IsTyped r → is_control r ≡ false
IsTyped-is_control r h = ground arith

check_runes-IsTyped : (rs : List ℕ) → check_runes rs ≡ none → All IsTyped rs
unfolding check_runes
check_runes-IsTyped [] h = tt
check_runes-IsTyped (r ∷ rs) h =
    (is_control-IsTyped r (ground arith), check_runes-IsTyped rs (ground arith))

IsTyped-check_runes : (rs : List ℕ) → All IsTyped rs → check_runes rs ≡ none
unfolding check_runes
IsTyped-check_runes [] h = refl
IsTyped-check_runes (r ∷ rs) h = rw (IsTyped-is_control r h.0) (IsTyped-check_runes rs h.1)

-- A text of valid UTF-8 is accepted exactly if each of its runes is a line feed, a tab, or no
-- control character (below 32, or from 0x7f to 0x9f).
pub validate_text-IsTyped : (rs : List ℕ) → (validate_text (some rs) ≡ none) ↔ All IsTyped rs
unfolding validate_text
validate_text-IsTyped rs = (check_runes-IsTyped rs, IsTyped-check_runes rs)
