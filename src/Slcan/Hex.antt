-- ===== src/Slcan/Hex.antt =====
-- main/utility.c: numbers in hexadecimal digits, and the digits that slcan.c prints. A character is its
-- code; a string is the list of its characters before the NUL.
use opendiag_firmware.Base.{
  List, Option, [], arith, false, if◌then◌else◌, leb, ltb, none, some, suc, take, zero, ℕ, ◌%◌,
  ◌&&◌, ◌*◌, ◌++◌, ◌+◌, ◌-◌, ◌/◌, ◌<◌, ◌==◌, ◌>>=◌, ◌^◌, ◌∷◌, ◌≡◌,
}

-- `hex_char_to_int`, where `none` stands for -1.
unfoldable pub hex_char_to_int : ℕ → Option ℕ
hex_char_to_int c =
    if leb 0x30 c && leb c 0x39
    then some (c - 0x30)
    else if leb 0x61 c && leb c 0x66
    then some (c - 0x61 + 10)
    else if leb 0x41 c && leb c 0x46
    then some (c - 0x41 + 10)
    else none

-- The loop of `hex_string_to_u8_array`: two digits a turn, a digit left over is not read.
unfoldable pub hex_pairs : List ℕ → Option (List ℕ)
unfolding hex_char_to_int
hex_pairs [] = some []
hex_pairs (_ ∷ []) = some []
hex_pairs (h ∷ (l ∷ cs)) = do
  high ← hex_char_to_int h
  low ← hex_char_to_int l
  rest ← hex_pairs cs
  some ((high * 16 + low) ∷ rest)

-- The results of `hex_string_to_u8_array`: -2, -1 and the bytes written.
pub data HexResult : Type 0 where
  too_small : HexResult
  bad_digit : HexResult
  written : List ℕ → HexResult

abbrev pub hex_result : Option (List ℕ) → HexResult
hex_result none = bad_digit
hex_result (some bytes) = written bytes

-- `hex_string_to_u8_array`, on the first `len` characters.
unfoldable pub hex_string_to_u8_array : List ℕ → ℕ → ℕ → HexResult
unfolding hex_pairs
hex_string_to_u8_array str len output_size =
    if ltb output_size (len / 2) then too_small else hex_result (hex_pairs (take len str))

-- The loop of `hex_string_to_u32_be`: the digits are shifted into a 32-bit word.
unfoldable pub hex_digits : List ℕ → ℕ → Option ℕ
unfolding hex_char_to_int
hex_digits [] val = some val
hex_digits (c ∷ cs) val = do
  nibble ← hex_char_to_int c
  hex_digits cs (val * 16 % 4294967296 + nibble)

-- `hex_string_to_u32_be`; `none` stands for -1.
unfoldable pub hex_string_to_u32_be : List ℕ → ℕ → Option ℕ
unfolding hex_digits
hex_string_to_u32_be str len = if ltb 8 len then none else hex_digits (take len str) 0

-- `hexval`, for a digit below 16.
unfoldable pub hexval : ℕ → ℕ
hexval d = if ltb d 10 then 0x30 + d else 0x41 + (d - 10)

-- A digit printed is read again.
pub hex_char_to_int-hexval : (d : ℕ) → d < 16 → hex_char_to_int (hexval d) ≡ some d
unfolding hex_char_to_int hexval
hex_char_to_int-hexval d h = ground arith

-- No digit is a NUL.
pub hexval-nonzero : (d : ℕ) → (hexval d == 0) ≡ false
unfolding hexval
hexval-nonzero d = ground arith

-- The digits of a byte, and of several, as they are printed.
abbrev pub hex_byte : ℕ → List ℕ
hex_byte b = hexval (b / 16) ∷ hexval (b % 16) ∷ []

unfoldable pub hex_string : List ℕ → List ℕ
hex_string [] = []
hex_string (b ∷ bs) = hex_byte b ++ hex_string bs

-- `n` digits of a number, the highest first.
unfoldable pub hex_id : ℕ → ℕ → List ℕ
hex_id zero id = []
hex_id (suc n) id = hexval (id / 16 ^ n % 16) ∷ hex_id n id
