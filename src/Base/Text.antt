-- ===== src/Base/Text.antt =====
-- The parts of Go's fmt and strings packages that the program relies on, for its own inputs.
use Prim.Native.Char.{code}
use hyprland_computer_use.Base.{
  ℕ, zero, suc, ◌+◌, ◌/◌, ◌%◌, String, ◌<>◌, Bool, true, false, ◌||◌, ◌&&◌,
}
use hyprland_computer_use.Base.{List, [], ◌∷◌, ltb, leb, if◌then◌else◌}
use hyprland_computer_use.Base.{eqb}
use hyprland_computer_use.Base.Int.{ℤ, pos, negsuc}
use hyprland_computer_use.Base.{not}

abbrev digit : ℕ → String
digit zero = "0"
digit (suc zero) = "1"
digit (suc (suc zero)) = "2"
digit (suc (suc (suc zero))) = "3"
digit (suc (suc (suc (suc zero)))) = "4"
digit (suc (suc (suc (suc (suc zero))))) = "5"
digit (suc (suc (suc (suc (suc (suc zero)))))) = "6"
digit (suc (suc (suc (suc (suc (suc (suc zero))))))) = "7"
digit (suc (suc (suc (suc (suc (suc (suc (suc zero)))))))) = "8"
digit _ = "9"

-- A number has at most as many digits as one more than itself.
decimal_fuel : ℕ → ℕ → String
decimal_fuel zero n = ""
decimal_fuel (suc f) n =
    let more = decimal_fuel f (n / 10) <> digit (n % 10) in if ltb n 10 then digit n else more

-- `fmt.Sprint` of an int.
unfoldable pub sprint : ℤ → String
unfolding decimal_fuel
sprint (pos n) = decimal_fuel (suc n) n
sprint (negsuc n) = "-" <> decimal_fuel (suc (suc n)) (suc n)

-- `strings.ToLower` as far as the ASCII letters of its result go: the Kelvin sign and the dotted
-- capital I are the only others that it takes to one.
abbrev lower : ℕ → ℕ
lower c =
    if leb b'A' c && leb c b'Z'
    then c + 32
    else if eqb c 0x212a
    then b'k'
    else if eqb c 0x130
    then b'i'
    else c

abbrev lower_codes : String → List ℕ
lower_codes String.[] = []
lower_codes (String.◌∷◌ c s) = lower (code c) ∷ lower_codes s

abbrev is_prefix : List ℕ → List ℕ → Bool
is_prefix [] t = true
is_prefix (c ∷ s) [] = false
is_prefix (c ∷ s) (d ∷ t) = eqb c d && is_prefix s t

abbrev is_infix : List ℕ → List ℕ → Bool
is_infix s [] = is_prefix s []
is_infix s (d ∷ t) = is_prefix s (d ∷ t) || is_infix s t

-- `strings.Contains(strings.ToLower(s), word)` for a word of small ASCII letters.
unfoldable pub lower_contains : String → String → Bool
lower_contains s word = is_infix (lower_codes word) (lower_codes s)

-- The runes of a text: its bytes, if it is ASCII.
unfoldable pub codes : String → List ℕ
codes String.[] = []
codes (String.◌∷◌ c s) = code c ∷ codes s

abbrev pub same_codes : List ℕ → List ℕ → Bool
same_codes [] [] = true
same_codes (a ∷ s) (b ∷ t) = eqb a b && same_codes s t
same_codes s t = false

-- `cleanReason` of internal/app/broker.go: control characters are dropped, but for line feeds.
unfoldable pub clean_reason : String → String
clean_reason String.[] = String.[]
clean_reason (String.◌∷◌ c s) =
    let rest = clean_reason s in
    if ltb (code c) 32 && not (eqb (code c) 10) then rest else String.◌∷◌ c rest
