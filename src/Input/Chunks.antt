-- ===== src/Input/Chunks.antt =====
-- The chunks of a text (internal/app/desktop.go).
use hyprland_computer_use.Base.{
  ℕ, zero, suc, ◌≤◌, ◌<◌, ◌≡◌, refl, ap, arith, List, [], ◌∷◌, ◌++◌, length, drop, All,
}
use hyprland_computer_use.Base.{length-drop}
use hyprland_computer_use.Input.Guard.{chunk_runes}
use hyprland_computer_use.Input.Deliver.{take, chunks, text_chunks}

abbrev pub joined : List (List ℕ) → List ℕ
joined [] = []
joined (c ∷ cs) = c ++ joined cs

-- What one request may carry.
abbrev pub IsChunk : List ℕ → Type 0
IsChunk c = (0 < length c) × (length c ≤ 48)

take-drop : (n : ℕ) (xs : List ℕ) → take n xs ++ drop n xs ≡ xs
take-drop zero xs = refl
take-drop (suc n) [] = refl
take-drop (suc n) (x ∷ xs) = ap (λ (t : List ℕ). x ∷ t) (take-drop n xs)

length-take : (n : ℕ) (xs : List ℕ) → length (take n xs) ≤ n
length-take zero xs = omega arith
length-take (suc n) [] = omega arith
length-take (suc n) (x ∷ xs) = omega (arith, length-take n xs)

chunks-joined : (fuel : ℕ) (rs : List ℕ) → length rs ≤ fuel → joined (chunks fuel rs) ≡ rs
unfolding chunks
chunks-joined fuel [] h = refl
chunks-joined zero (r ∷ rs) h = absurd (omega arith)
chunks-joined (suc fuel) (r ∷ rs) h =
    rw (chunks-joined fuel (drop chunk_runes (r ∷ rs)) (omega (arith, length-drop 47 rs)))
      (take-drop chunk_runes (r ∷ rs))

chunks-IsChunk : (fuel : ℕ) (rs : List ℕ) → All IsChunk (chunks fuel rs)
unfolding chunks
chunks-IsChunk fuel [] = tt
chunks-IsChunk zero (r ∷ rs) = tt
chunks-IsChunk (suc fuel) (r ∷ rs) = (
  (omega arith, omega (arith, length-take 47 rs)),
  chunks-IsChunk fuel (drop chunk_runes (r ∷ rs)),
)

-- A text is cut into chunks of 1 to 48 characters that give the text again, in its order: nothing
-- is lost, whatever its length.
pub text_chunks-joined :
    (rs : List ℕ) → (joined (text_chunks rs) ≡ rs) × All IsChunk (text_chunks rs)
text_chunks-joined rs = (chunks-joined (length rs) rs (omega arith), chunks-IsChunk (length rs) rs)
