-- ===== src/Wayland/Wire.antt =====
-- internal/app/keyboard.go: `wlWords`, `wlString`, `request`, `readWaylandMessage` and
-- `takeWLString`. A byte slice is a list of numbers; the machine's byte order is a parameter.
use hyprland_computer_use.Base.{
  ℕ, zero, suc, ◌+◌, ◌-◌, ◌*◌, ◌/◌, ◌%◌, ◌^◌, Bool, false, not, ◌||◌, eqb, ltb, Option, none, some,
  List, [], ◌∷◌, ◌++◌, length, get_elem?, drop, if◌then◌else◌,
}

pub data Endian : Type 0 where
  little big : Endian

-- `binary.NativeEndian.PutUint32`
unfoldable pub put_u32 : Endian → ℕ → List ℕ
put_u32 little v = v % 256 ∷ v / 256 % 256 ∷ v / 65536 % 256 ∷ v / 16777216 % 256 ∷ []
put_u32 big v = v / 16777216 % 256 ∷ v / 65536 % 256 ∷ v / 256 % 256 ∷ v % 256 ∷ []

abbrev pub from_bytes : Endian → ℕ → ℕ → ℕ → ℕ → ℕ
from_bytes little a b c d = a + 256 * b + 65536 * c + 16777216 * d
from_bytes big a b c d = d + 256 * c + 65536 * b + 16777216 * a

-- `binary.NativeEndian.Uint32`. A shorter slice panics: every caller has looked at the length.
unfoldable pub get_u32 : Endian → List ℕ → ℕ
get_u32 e (a ∷ b ∷ c ∷ d ∷ rest) = from_bytes e a b c d
get_u32 e bytes = 0

-- `wlWords`
unfoldable pub wl_words : Endian → List ℕ → List ℕ
unfolding put_u32
wl_words e [] = []
wl_words e (v ∷ vs) = put_u32 e v ++ wl_words e vs

abbrev pub zeros : ℕ → List ℕ
zeros zero = []
zeros (suc n) = 0 ∷ zeros n

-- `n &^ 3`, after rounding up.
abbrev pub padded_4 : ℕ → ℕ
padded_4 n = (n + 3) / 4 * 4

-- `wlString`: the text's bytes, and zeros up to the next word.
unfoldable pub wl_string : Endian → List ℕ → List ℕ
unfolding put_u32
wl_string e s = put_u32 e (length s + 1) ++ (s ++ zeros (padded_4 (length s + 1) - length s))

-- The message of `request`, or none if its size is invalid. The opcode is a uint16.
unfoldable pub encode_request : Endian → ℕ → ℕ → List ℕ → Option (List ℕ)
unfolding wl_words
encode_request e id opcode args =
    if not (eqb (length args % 4) 0) || ltb 65524 (length args)
    then none
    else some (wl_words e (id ∷ ((length args + 8) * 65536 % 2 ^ 32 + opcode) ∷ []) ++ args)

-- `io.ReadFull` of so many bytes, or none at the end of the stream.
unfoldable pub read_full : ℕ → List ℕ → Option (List ℕ × List ℕ)
read_full zero bytes = some ([], bytes)
read_full (suc n) [] = none
read_full (suc n) (b ∷ bytes) = elim (read_full n bytes) [
  | none ↦ none
  | some (front, rest) ↦ some (b ∷ front, rest)
]

pub record Message : Type 0 where
  pub id : ℕ
  pub opcode : ℕ
  pub args : List ℕ

pub data Read : Type 0 where
  end_of_stream : Read
  bad_header : Read
  message : Message → List ℕ → Read

abbrev pub read_args : ℕ → ℕ → Option (List ℕ × List ℕ) → Read
read_args id opcode none = end_of_stream
read_args id opcode (some (args, rest)) =
    message (record { id = id; opcode = opcode; args = args }) rest

-- The header's two words, and then the arguments.
unfoldable pub read_body : ℕ → ℕ → List ℕ → Read
unfolding read_full
read_body id word bytes =
    let size = word / 65536 in
    if eqb id 0 || (ltb size 8 || not (eqb (size % 4) 0))
    then bad_header
    else read_args id (word % 65536) (read_full (size - 8) bytes)

-- `readWaylandMessage`, from the bytes that the stream still has.
unfoldable pub read_message : Endian → List ℕ → Read
unfolding read_body
read_message e (a ∷ b ∷ c ∷ d ∷ s ∷ t ∷ u ∷ v ∷ bytes) =
    read_body (from_bytes e a b c d) (from_bytes e s t u v) bytes
read_message e bytes = end_of_stream

abbrev is_zero_byte : Option ℕ → Bool
is_zero_byte none = false
is_zero_byte (some b) = eqb b 0

abbrev pub take : ℕ → List ℕ → List ℕ
take zero xs = []
take (suc n) [] = []
take (suc n) (x ∷ xs) = x ∷ take n xs

-- The text of `n - 1` bytes, its closing zero and its padding.
unfoldable pub take_text : ℕ → List ℕ → Option (List ℕ × List ℕ)
take_text n bytes =
    if eqb n 0 || (ltb (length bytes) (padded_4 n) || not (is_zero_byte (get_elem? bytes (n - 1))))
    then none
    else some (take (n - 1) bytes, drop (padded_4 n) bytes)

-- `takeWLString`
unfoldable pub take_string : Endian → List ℕ → Option (List ℕ × List ℕ)
unfolding take_text
take_string e (a ∷ b ∷ c ∷ d ∷ bytes) = take_text (from_bytes e a b c d) bytes
take_string e bytes = none
