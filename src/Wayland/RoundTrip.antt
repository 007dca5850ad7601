-- ===== src/Wayland/RoundTrip.antt =====
-- What the client writes is what it reads back (internal/app/keyboard.go).
use mathlib.Core.List.{append_assoc}
use hyprland_computer_use.Base.{
  ℕ, zero, suc, ◌+◌, ◌-◌, ◌*◌, ◌/◌, ◌%◌, ◌^◌, ◌≡◌, ◌<◌, ◌≤◌, refl, ap, arith, some, List, [], ◌∷◌,
  ◌++◌, length, get_elem?, drop,
}
use hyprland_computer_use.Wayland.Wire.{
  Endian, little, big, read_full, take, read_body, message, encode_request, read_message, wl_words,
  put_u32,
}
use hyprland_computer_use.Base.{◌∙◌}
use hyprland_computer_use.Wayland.Wire.{zeros, padded_4, take_text, take_string, wl_string}
use hyprland_computer_use.Base.{length-append}

read_full-append : (xs ys : List ℕ) → read_full (length xs) (xs ++ ys) ≡ some (xs, ys)
unfolding read_full
read_full-append [] ys = refl
read_full-append (x ∷ xs) ys = rw (read_full-append xs ys) refl

take-append : (xs ys : List ℕ) → take (length xs) (xs ++ ys) ≡ xs
take-append [] ys = refl
take-append (x ∷ xs) ys = ap (λ (t : List ℕ). x ∷ t) (take-append xs ys)

get-append : (xs ys : List ℕ) (y : ℕ) → get_elem? (xs ++ (y ∷ ys)) (length xs) ≡ some y
get-append [] ys y = refl
get-append (x ∷ xs) ys y = get-append xs ys y

drop-append : (xs ys : List ℕ) → drop (length xs) (xs ++ ys) ≡ ys
drop-append [] ys = refl
drop-append (x ∷ xs) ys = drop-append xs ys

-- The four bytes of a word.
word_bytes :
    (v : ℕ)
    → v < 2 ^ 32
    → v % 256 + 256 * (v / 256 % 256) + 65536 * (v / 65536 % 256) + 16777216 * (v / 16777216 % 256)
      ≡ v
word_bytes v h = omega arith

read_message-words :
    (e : Endian) (v w : ℕ) (bytes : List ℕ)
    → v < 2 ^ 32
    → w < 2 ^ 32
    → read_message e (wl_words e (v ∷ w ∷ []) ++ bytes) ≡ read_body v w bytes
unfolding read_message wl_words put_u32
read_message-words little v w bytes hv hw =
    ap
      (λ x.
        read_body x
          (w % 256
            + 256 * (w / 256 % 256)
            + 65536 * (w / 65536 % 256)
            + 16777216 * (w / 16777216 % 256))
          bytes)
      (word_bytes v hv)
    ∙ ap (λ x. read_body v x bytes) (word_bytes w hw)
read_message-words big v w bytes hv hw =
    ap
      (λ x.
        read_body x
          (w % 256
            + 256 * (w / 256 % 256)
            + 65536 * (w / 65536 % 256)
            + 16777216 * (w / 16777216 % 256))
          bytes)
      (word_bytes v hv)
    ∙ ap (λ x. read_body v x bytes) (word_bytes w hw)

read_body-request :
    (id opcode : ℕ) (args rest : List ℕ)
    → 0 < id
    → opcode < 2 ^ 16
    → length args % 4 ≡ 0
    → length args ≤ 65524
    → read_body id ((length args + 8) * 65536 % 2 ^ 32 + opcode) (args ++ rest)
      ≡ message (record { id = id; opcode = opcode; args = args }) rest
unfolding read_body
read_body-request id opcode args rest i o m l =
    let word = (length args + 8) * 65536 % 2 ^ 32 + opcode in
    let size : word / 65536 ≡ length args + 8 = omega arith in
    let low : word % 65536 ≡ opcode = omega arith in
    ground (arith, size, low, read_full-append args rest)

encode_request-some :
    (e : Endian) (id opcode : ℕ) (args bytes : List ℕ)
    → encode_request e id opcode args ≡ some bytes
    → (length args % 4 ≡ 0)
      × (length args ≤ 65524)
      × (bytes ≡ wl_words e (id ∷ ((length args + 8) * 65536 % 2 ^ 32 + opcode) ∷ []) ++ args)
unfolding encode_request
encode_request-some e id opcode args bytes h = (ground arith, ground arith, ground arith)

-- A request that is sent is read back by `readWaylandMessage`, with its object, its opcode and its
-- arguments, and leaves what follows it in the stream: on either byte order, for a 32-bit object
-- ID other than 0 and a 16-bit opcode.
pub read_message-encode_request :
    (e : Endian) (id opcode : ℕ) (args rest bytes : List ℕ)
    → 0 < id
    → id < 2 ^ 32
    → opcode < 2 ^ 16
    → encode_request e id opcode args ≡ some bytes
    → read_message e (bytes ++ rest)
      ≡ message (record { id = id; opcode = opcode; args = args }) rest
read_message-encode_request e id opcode args rest bytes i w o h =
    let (m, l, same) = encode_request-some e id opcode args bytes h in
    let word = (length args + 8) * 65536 % 2 ^ 32 + opcode in
    ap (λ x. read_message e (x ++ rest)) same
    ∙ ap (read_message e) (append_assoc (wl_words e (id ∷ word ∷ [])) args rest)
    ∙ read_message-words e id word (args ++ rest) w (omega arith)
    ∙ read_body-request id opcode args rest i o m l

length-zeros : (n : ℕ) → length (zeros n) ≡ n
length-zeros zero = refl
length-zeros (suc n) = omega (arith, length-zeros n)

-- With one zero at least, up to the padding.
take_text-padded :
    (k : ℕ) (s rest : List ℕ)
    → padded_4 (length s + 1) ≡ length s + suc k
    → take_text (length s + 1) ((s ++ (0 ∷ zeros k)) ++ rest) ≡ some (s, rest)
unfolding take_text
take_text-padded k s rest h =
    let all = (s ++ (0 ∷ zeros k)) ++ rest in
    let regroup = append_assoc s (0 ∷ zeros k) rest in
    let long : length all ≡ length s + suc k + length rest = omega (
      arith,
      length-append (s ++ (0 ∷ zeros k)) rest,
      length-append s (0 ∷ zeros k),
      length-zeros k,
    ) in
    let middle : length (s ++ (0 ∷ zeros k)) ≡ length s + suc k =
      omega (arith, length-append s (0 ∷ zeros k), length-zeros k) in
    let closing : get_elem? all (length s) ≡ some 0 =
      rw regroup (get-append s (zeros k ++ rest) 0) in
    let front : take (length s) all ≡ s = rw regroup (take-append s ((0 ∷ zeros k) ++ rest)) in
    let back : drop (length s + suc k) all ≡ rest =
      rw (← middle) (drop-append (s ++ (0 ∷ zeros k)) rest) in
    let index : length s + 1 - 1 ≡ length s = omega arith in
    rw (index, h, closing, front, back) (ground (arith, long))

take_text-string :
    (s rest : List ℕ)
    → take_text (length s + 1) ((s ++ zeros (padded_4 (length s + 1) - length s)) ++ rest)
      ≡ some (s, rest)
take_text-string s rest =
    let k = padded_4 (length s + 1) - length s - 1 in
    let pad : padded_4 (length s + 1) - length s ≡ suc k = omega arith in
    rw pad (take_text-padded k s rest (omega arith))

-- A string that is written is read back by `takeWLString`, with what follows it: on either byte
-- order, for a text of fewer than 2^32 - 1 bytes.
pub take_string-wl_string :
    (e : Endian) (s rest : List ℕ)
    → length s + 1 < 2 ^ 32
    → take_string e (wl_string e s ++ rest) ≡ some (s, rest)
unfolding take_string wl_string put_u32
take_string-wl_string little s rest h =
    ap (λ n. take_text n ((s ++ zeros (padded_4 (length s + 1) - length s)) ++ rest))
      (word_bytes (length s + 1) h)
    ∙ take_text-string s rest
take_string-wl_string big s rest h =
    ap (λ n. take_text n ((s ++ zeros (padded_4 (length s + 1) - length s)) ++ rest))
      (word_bytes (length s + 1) h)
    ∙ take_text-string s rest
