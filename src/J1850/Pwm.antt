-- ===== src/J1850/Pwm.antt =====
-- main/j1850_pwm_codec.h and main/j1850_pwm_codec.c: the pulse width modulation of SAE J1850, with
-- the trim at its value 0. The pulse iterator and `push_bit` of the file are word for word those of
-- the VPW codec, and are taken from its model. A null pointer has no counterpart.
pub mod Decode
pub mod Stream
pub mod Response
pub mod Echo
use opendiag_firmware.Base.{
  Bool, List, Option, [], false, if◌then◌else◌, leb, length, ltb, none, not, set, some, suc, sym,
  take, true, u16, u8, zero, ℕ, ◌&&◌, ◌*◌, ◌++◌, ◌+◌, ◌-◌, ◌/◌, ◌==◌, ◌||◌, ◌∷◌,
}
use opendiag_firmware.J1850.Vpw.{SymbolWord, bit_of}

-- The nominal times Tp1, Tp2, Tp3, Tp4 and Tp7, and J1850_PWM_BIT_SPLIT.
abbrev pub tp1_nom : ℕ
tp1_nom = 7

abbrev pub tp2_nom : ℕ
tp2_nom = 15

abbrev pub tp3_nom : ℕ
tp3_nom = 24

abbrev pub tp4_nom : ℕ
tp4_nom = 48

abbrev pub tp7_nom : ℕ
tp7_nom = 31

abbrev pub pwm_bit_split : ℕ
pwm_bit_split = (tp1_nom + tp2_nom) / 2

abbrev pub pwm_max_frame : ℕ
pwm_max_frame = 12

-- `put_cell`, which writes all of the word.
abbrev pub put_cell : ℕ → ℕ → SymbolWord
put_cell active_us cell_us = record {
  level0 = 1;
  duration0 = active_us;
  level1 = 0;
  duration1 = u16 (cell_us - active_us);
}

-- The inner loop: `n` bits are left, the next one is bit `n - 1`, into word `i`.
unfoldable pub put_bits : ℕ → ℕ → ℕ → List SymbolWord → List SymbolWord
put_bits zero byte i out = out
put_bits (suc n) byte i out =
    put_bits n byte (i + 1)
      (set out i (put_cell (if bit_of byte n then tp1_nom else tp2_nom) tp3_nom))

-- The outer loop, with the index of the next word.
unfoldable pub put_bytes : List ℕ → ℕ → List SymbolWord → ℕ × List SymbolWord
put_bytes [] i out = (i, out)
put_bytes (byte ∷ bytes) i out = put_bytes bytes (i + 8) (put_bits 8 byte i out)

-- The words written, and the array; its length is `cap`.
unfoldable pub j1850_pwm_encode : List ℕ → Bool → List SymbolWord → ℕ × List SymbolWord
j1850_pwm_encode bytes with_sof out =
    let len = length bytes in
    let need = len * 8 + (if with_sof then 1 else 0) in
    if len == 0 || (ltb pwm_max_frame len || ltb (length out) need)
    then (0, out)
    else if with_sof
    then put_bytes bytes 1 (set out 0 (put_cell tp7_nom tp4_nom))
    else put_bytes bytes 0 out

-- `active_sym_t` and `classify_active`.
pub data ActiveSym : Type 0 where
  sym_one sym_zero sym_sof sym_brk sym_invalid : ActiveSym

unfoldable pub classify_active : ℕ → ActiveSym
classify_active us =
    if leb 4 us && leb us 18
    then (if ltb us pwm_bit_split then sym_one else sym_zero)
    else if leb 27 us && leb us 34
    then sym_sof
    else if leb 35 us && leb us 43
    then sym_brk
    else sym_invalid

abbrev pub is_sof : ActiveSym → Bool
is_sof sym_sof = true
is_sof _ = false

-- The first loop of `j1850_pwm_quick_decode`: the word it stops at, and those behind it.
unfoldable pub quick_open : List SymbolWord → Option (SymbolWord × List SymbolWord)
quick_open [] = none
quick_open (s ∷ ss) =
    let rest = quick_open ss in
    if not (s.level0 == 1) && not (s.duration0 == 0) then rest else some (s, ss)

abbrev pub quick_end : ℕ → List ℕ → List ℕ
quick_end nbits bytes = if nbits == 0 then bytes else []

-- The second loop, with the bytes so far and the bits of the next one.
unfoldable pub quick_bits : List SymbolWord → ℕ → List ℕ → ℕ → ℕ → List ℕ
quick_bits [] cap bytes nbits acc = quick_end nbits bytes
quick_bits (s ∷ ss) cap bytes nbits acc =
    let shifted_in = u8 (acc * 2 + (if ltb s.duration0 pwm_bit_split then 1 else 0)) in
    let full = nbits + 1 == 8 in
    let bytes' = if full then bytes ++ (shifted_in ∷ []) else bytes in
    let nbits' = if full then 0 else nbits + 1 in
    let acc' = if full then 0 else shifted_in in
    let rest = quick_bits ss cap bytes' nbits' acc' in
    if s.duration0 == 0
    then quick_end nbits bytes
    else if full && leb cap (length bytes)
    then []
    else if leb 42 (s.duration0 + s.duration1)
    then quick_end nbits' bytes'
    else rest

-- The bytes that the result counts; `cap` is the room for them.
unfoldable pub j1850_pwm_quick_decode : List SymbolWord → ℕ → ℕ → List ℕ
j1850_pwm_quick_decode sym n cap = elim (quick_open (take n sym)) [
  | none ↦ []
  | some (s, ss) ↦
      (let bytes = quick_bits ss cap [] 0 0 in
        if cap == 0 then [] else if is_sof (classify_active s.duration0) then bytes else [])
]
