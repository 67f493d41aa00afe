-- ===== src/Slcan/Frames.antt =====
-- main/slcan.c: a frame as a line of text, read and printed.
pub mod RoundTrip
use opendiag_firmware.Base.{
  Bool, List, Option, [], drop, false, get_or, if◌then◌else◌, length, ltb, min, none, overwrite,
  replicate, some, take, true, ℕ, ◌%◌, ◌*◌, ◌++◌, ◌+◌, ◌/◌, ◌==◌, ◌>>=◌, ◌∷◌,
}
use opendiag_firmware.Isotp.Types.{CanFrame}
use opendiag_firmware.Slcan.Hex.{
  hex_char_to_int, hex_id, hex_string, hex_string_to_u32_be, hex_string_to_u8_array, hexval,
  written,
}

-- The flags of an identifier, and the identifier under `CAN_EFF_MASK` and `CAN_SFF_MASK`.
abbrev pub is_eff : ℕ → Bool
is_eff id = id / 0x80000000 % 2 == 1

abbrev pub is_rtr : ℕ → Bool
is_rtr id = id / 0x40000000 % 2 == 1

abbrev pub eff_id : ℕ → ℕ
eff_id id = id % 0x20000000

abbrev pub sff_id : ℕ → ℕ
sff_id id = id % 0x800

abbrev pub digits_of_id : Bool → ℕ
digits_of_id ext = if ext then 8 else 3

-- The identifier of a frame with the flags it gets.
abbrev pub frame_id : Bool → Bool → ℕ → ℕ
frame_id rtr ext id =
    (if ext then eff_id id + 0x80000000 else sff_id id) + (if rtr then 0x40000000 else 0)

-- The data of a frame that is not a remote request.
unfoldable pub parse_payload : List ℕ → ℕ → Option (List ℕ)
parse_payload str dlc =
    if ltb (length str) (dlc * 2) then none else elim (hex_string_to_u8_array str (dlc * 2) 8) [
      | written bytes ↦ if length bytes == dlc then some (overwrite (replicate 8 0) bytes) else none
      | _ ↦ none
    ]

-- The end of `slcan_parse_frame`: a remote request asks for data rather than carrying any.
unfoldable pub parse_rest : List ℕ → Bool → ℕ → ℕ → Option CanFrame
unfolding parse_payload
parse_rest str rtr id dlc =
    if ltb 8 dlc
    then none
    else (if rtr then some (replicate 8 0) else parse_payload str dlc) >>= λ payload.
        some (record { id = id; dlc = dlc; bytes = payload })

-- `slcan_parse_frame`; `none` stands for -1.
unfoldable pub slcan_parse_frame : List ℕ → Bool → Bool → Option CanFrame
unfolding parse_rest
slcan_parse_frame buf rtr ext =
    let id_len = digits_of_id ext in
    if ltb (length buf) (id_len + 2) then none else do
      id ← hex_string_to_u32_be (drop 1 buf) id_len
      dlc ← hex_char_to_int (get_or buf (1 + id_len) 0)
      parse_rest (drop (2 + id_len) buf) rtr (frame_id rtr ext id) dlc

abbrev pub frame_letter : Bool → Bool → ℕ
frame_letter true true = 0x52
frame_letter true false = 0x72
frame_letter false true = 0x54
frame_letter false false = 0x74

-- The line that `slcan_print_frame` writes, without the carriage return at its end.
unfoldable pub frame_line : CanFrame → List ℕ
frame_line f =
    let ext = is_eff f.id in
    let rtr = is_rtr f.id in
    frame_letter rtr ext
    ∷ ((if ext then hex_id 8 (eff_id f.id) else hex_id 3 (sff_id f.id))
        ++ (hexval (f.dlc % 16) ∷ (if rtr then [] else hex_string (take (min f.dlc 8) f.bytes))))
