-- ===== src/Slcan/Frames/RoundTrip.antt =====
-- A frame that is printed is read as the same frame.
use native.Mathlib.Nat.{div-div-eq-div-mul, pow-suc, div-le_self, div-eq_of_lt}
use opendiag_firmware.Base.{
  All, All-take, Bool, List, [], ap, ap₂, arith, drop, equal_test, false, get_or, if◌then◌else◌,
  length, length-take, le→not_ltb, ltb, min, overwrite, refl, replicate, some, suc, sym, take,
  take-append, take_all, true, zero, ℕ, ◌%◌, ◌*◌, ◌++◌, ◌+◌, ◌/◌, ◌<◌, ◌==◌, ◌^◌, ◌∙◌, ◌∷◌, ◌≡◌,
  ◌≤◌,
}
use opendiag_firmware.Isotp.Types.{CanFrame}
use opendiag_firmware.Slcan.Frames.{
  digits_of_id, eff_id, frame_id, frame_letter, frame_line, is_eff, is_rtr, parse_payload,
  parse_rest, sff_id, slcan_parse_frame,
}
use opendiag_firmware.Slcan.Hex.{
  hex_char_to_int, hex_char_to_int-hexval, hex_digits, hex_id, hex_pairs, hex_string,
  hex_string_to_u32_be, hex_string_to_u8_array, hexval,
}

-- Reading the digits below `16 ^ n` after those above gives the number.
digits-hex_id : (n id : ℕ) → id < 4294967296 → hex_digits (hex_id n id) (id / 16 ^ n) ≡ some id
unfolding hex_digits hex_id
digits-hex_id zero id h = ap some (omega arith)
digits-hex_id (suc n) id h =
    let q = id / 16 ^ n in
    let above : id / 16 ^ suc n ≡ q / 16 =
      ap (λ d. id / d) (pow-suc 16 n) ∙ sym (div-div-eq-div-mul id (16 ^ n) 16) in
    let next : id / 16 ^ suc n * 16 % 4294967296 + q % 16 ≡ q =
      omega (arith, above, div-le_self id (16 ^ n)) in
    rw (hex_char_to_int-hexval (q % 16) (omega arith), next) (digits-hex_id n id h)

-- The digits of bytes are read as the bytes.
pairs-hex_string :
    (bytes : List ℕ) → All (λ b. b < 256) bytes → hex_pairs (hex_string bytes) ≡ some bytes
unfolding hex_pairs hex_string
pairs-hex_string [] h = refl
pairs-hex_string (b ∷ bs) h =
    rw
      (
        hex_char_to_int-hexval (b / 16) (omega (arith, h.0)),
        hex_char_to_int-hexval (b % 16) (omega arith),
        pairs-hex_string bs h.1,
      )
      (ap (λ c. some (c ∷ bs)) (omega arith))

pub length-hex_string : (bytes : List ℕ) → length (hex_string bytes) ≡ 2 * length bytes
unfolding hex_string
length-hex_string [] = refl
length-hex_string (b ∷ bs) = omega (arith, length-hex_string bs)

pub length-hex_id : (n id : ℕ) → length (hex_id n id) ≡ n
unfolding hex_id
length-hex_id zero id = refl
length-hex_id (suc n) id = omega (arith, length-hex_id n id)

-- A frame as the parser makes them: no other bit of the identifier is set than the format allows, and
-- the data beyond the length is zero.
pub record IsCanonical (f : CanFrame) : Type 0 where
  pub id_canonical : f.id ≡ frame_id (is_rtr f.id) (is_eff f.id) f.id
  pub short : f.dlc ≤ 8
  pub are_bytes : All (λ b. b < 256) f.bytes
  pub size : length f.bytes ≡ 8
  pub clear : f.bytes ≡ overwrite (replicate 8 0) (if is_rtr f.id then [] else take f.dlc f.bytes)

parse_payload-hex_string :
    (bytes : List ℕ)
    → All (λ b. b < 256) bytes
    → length bytes ≤ 8
    → parse_payload (hex_string bytes) (length bytes) ≡ some (overwrite (replicate 8 0) bytes)
unfolding parse_payload hex_string_to_u8_array
parse_payload-hex_string bytes h k =
    let size = length-hex_string bytes in
    let enough : ltb (length (hex_string bytes)) (length bytes * 2) ≡ false =
      le→not_ltb _ _ (omega (arith, size)) in
    let fits : ltb 8 (length bytes * 2 / 2) ≡ false = le→not_ltb _ _ (omega arith) in
    let counted : (length bytes == length bytes) ≡ true =
      equal_test (length bytes) (length bytes) refl in
    rw
      (
        enough,
        fits,
        take_all (length bytes * 2) (hex_string bytes) (omega (arith, size)),
        pairs-hex_string bytes h,
        counted,
      )
      refl

read_id :
    (n id : ℕ) (rest : List ℕ)
    → n ≤ 8
    → id < 16 ^ n
    → id < 4294967296
    → hex_string_to_u32_be (hex_id n id ++ rest) n ≡ some id
unfolding hex_string_to_u32_be
read_id n id rest h k l =
    let fits : ltb 8 n ≡ false = le→not_ltb 8 n h in
    let taken : take n (hex_id n id ++ rest) ≡ hex_id n id =
      ap (λ k. take k (hex_id n id ++ rest)) (sym (length-hex_id n id))
      ∙ take-append (hex_id n id) rest in
    let high : id / 16 ^ n ≡ 0 = div-eq_of_lt k in
    rw (fits, taken) (ap (λ v. hex_digits (hex_id n id) v) (sym high) ∙ digits-hex_id n id l)

parse_parts :
    (buf : List ℕ) (rtr ext : Bool) (id dlc : ℕ)
    → digits_of_id ext + 2 ≤ length buf
    → hex_string_to_u32_be (drop 1 buf) (digits_of_id ext) ≡ some id
    → hex_char_to_int (get_or buf (1 + digits_of_id ext) 0) ≡ some dlc
    → slcan_parse_frame buf rtr ext
      ≡ parse_rest (drop (2 + digits_of_id ext) buf) rtr (frame_id rtr ext id) dlc
unfolding slcan_parse_frame
parse_parts buf rtr ext id dlc h e f =
    rw (le→not_ltb (length buf) (digits_of_id ext + 2) h, e, f) refl

parse_rest-hex_string :
    (rtr : Bool) (id dlc : ℕ) (bytes : List ℕ)
    → dlc ≤ 8
    → All (λ b. b < 256) bytes
    → length bytes ≡ dlc
    → parse_rest (if rtr then [] else hex_string bytes) rtr id dlc
      ≡ some (record {
        id = id;
        dlc = dlc;
        bytes = overwrite (replicate 8 0) (if rtr then [] else bytes);
      })
unfolding parse_rest
parse_rest-hex_string true id dlc bytes h b e = rw (le→not_ltb 8 dlc h) refl
parse_rest-hex_string false id dlc bytes h b e =
    let read : parse_payload (hex_string bytes) dlc ≡ some (overwrite (replicate 8 0) bytes) =
      ap (λ n. parse_payload (hex_string bytes) n) (sym e)
      ∙ parse_payload-hex_string bytes b (omega (arith, e)) in
    rw (le→not_ltb 8 dlc h, read) refl

-- What is read back is the identifier with its flags, the length and the data.
letter_line :
    (rtr ext : Bool) (id dlc : ℕ) (bytes : List ℕ)
    → id < (if ext then 0x20000000 else 0x800)
    → dlc ≤ 8
    → All (λ b. b < 256) bytes
    → length bytes ≡ dlc
    → slcan_parse_frame
        (frame_letter rtr ext
          ∷ (hex_id (digits_of_id ext) id ++ (hexval dlc ∷ (if rtr then [] else hex_string bytes))))
        rtr
        ext
      ≡ some (record {
        id = frame_id rtr ext id;
        dlc = dlc;
        bytes = overwrite (replicate 8 0) (if rtr then [] else bytes);
      })
unfolding hex_id
letter_line rtr true id dlc bytes h k b e =
    parse_parts _ rtr true id dlc (omega arith)
      (read_id 8 id _ (omega arith) (omega (arith, h)) (omega (arith, h)))
      (hex_char_to_int-hexval dlc (omega arith))
    ∙ parse_rest-hex_string rtr (frame_id rtr true id) dlc bytes k b e
letter_line rtr false id dlc bytes h k b e =
    parse_parts _ rtr false id dlc (omega arith)
      (read_id 3 id _ (omega arith) (omega (arith, h)) (omega (arith, h)))
      (hex_char_to_int-hexval dlc (omega arith))
    ∙ parse_rest-hex_string rtr (frame_id rtr false id) dlc bytes k b e

-- The identifier that a line shows.
shown_id : Bool → ℕ → ℕ
shown_id ext id = if ext then eff_id id else sff_id id

shown_id-lt : (ext : Bool) (id : ℕ) → shown_id ext id < (if ext then 0x20000000 else 0x800)
unfolding shown_id
shown_id-lt true id = omega arith
shown_id-lt false id = omega arith

frame_id-shown_id :
    (rtr ext : Bool) (id : ℕ) → frame_id rtr ext (shown_id ext id) ≡ frame_id rtr ext id
unfolding shown_id
frame_id-shown_id rtr true id = omega arith
frame_id-shown_id rtr false id = omega arith

line_parts :
    (rtr ext : Bool) (id dlc : ℕ) (payload : List ℕ)
    → dlc ≤ 8
    → (if ext then hex_id 8 (eff_id id) else hex_id 3 (sff_id id))
        ++ (hexval (dlc % 16) ∷ (if rtr then [] else hex_string (take (min dlc 8) payload)))
      ≡ hex_id (digits_of_id ext) (shown_id ext id)
        ++ (hexval dlc ∷ (if rtr then [] else hex_string (take dlc payload)))
unfolding shown_id
line_parts rtr true id dlc payload h =
    let digit : dlc % 16 ≡ dlc = omega arith in
    let whole : min dlc 8 ≡ dlc = omega arith in rw (digit, whole) refl
line_parts rtr false id dlc payload h =
    let digit : dlc % 16 ≡ dlc = omega arith in
    let whole : min dlc 8 ≡ dlc = omega arith in rw (digit, whole) refl

-- A frame that is printed is read as the same frame, for every frame as the parser makes them.
pub slcan_parse_frame-frame_line :
    (f : CanFrame)
    → IsCanonical f
    → slcan_parse_frame (frame_line f) (is_rtr f.id) (is_eff f.id) ≡ some f
unfolding frame_line
slcan_parse_frame-frame_line f h =
    let rtr = is_rtr f.id in
    let ext = is_eff f.id in
    let shown = shown_id ext f.id in
    let cut : length (take f.dlc f.bytes) ≡ f.dlc =
      omega (arith, length-take f.dlc f.bytes, h.size, h.short) in
    let same_id : frame_id rtr ext shown ≡ f.id =
      frame_id-shown_id rtr ext f.id ∙ sym h.id_canonical in
    ap (λ l. slcan_parse_frame (frame_letter rtr ext ∷ l) rtr ext)
      (line_parts rtr ext f.id f.dlc f.bytes h.short)
    ∙ letter_line rtr ext shown f.dlc (take f.dlc f.bytes) (shown_id-lt ext f.id) h.short
        (All-take f.dlc f.bytes h.are_bytes) cut
    ∙ ap₂ (λ i p. some (let r : CanFrame = record { id = i; dlc = f.dlc; bytes = p } in r)) same_id
        (sym h.clear)
