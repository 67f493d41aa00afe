-- ===== src/J1850/Vpw.antt =====
-- main/j1850_vpw_codec.h and main/j1850_vpw_codec.c: the variable pulse width modulation of
-- SAE J1850, with the trim at its value 0. The symbol array that a function reads or fills is a
-- list of words; a null pointer has no counterpart.
pub mod Decode
pub mod Encoded
pub mod Bits
pub mod RoundTrip
pub mod Contention
pub mod OnDemand
use opendiag_firmware.Base.{
  Bool, List, Option, [], false, get_or, if◌then◌else◌, leb, length, ltb, none, not, some, suc,
  true, u16, zero, ℕ, ◌%◌, ◌&&◌, ◌*◌, ◌++◌, ◌+◌, ◌-◌, ◌/◌, ◌==◌, ◌^◌, ◌||◌, ◌∷◌,
}

-- `rmt_symbol_word_t`: two timed pulses.
pub record SymbolWord : Type 0 where
  pub level0 : ℕ
  pub duration0 : ℕ
  pub level1 : ℕ
  pub duration1 : ℕ

-- `j1850_vpw_pulse_t`.
pub record VpwPulse : Type 0 where
  pub level : ℕ
  pub us : ℕ

abbrev pub vpw_active : ℕ
vpw_active = 1

abbrev pub vpw_passive : ℕ
vpw_passive = 0

abbrev pub vpw_max_frame : ℕ
vpw_max_frame = 12

-- The nominal widths Tv1, Tv2 and Tv3.
abbrev pub tv1_nom : ℕ
tv1_nom = 64

abbrev pub tv2_nom : ℕ
tv2_nom = 128

abbrev pub tv3_nom : ℕ
tv3_nom = 200

-- `put_pulse`: word `i >> 1`, and its second half where `i` is odd.
unfoldable pub put_pulse : List SymbolWord → ℕ → ℕ → List SymbolWord
put_pulse [] i us = []
put_pulse (s ∷ out) zero us = record s { level0 = vpw_active; duration0 = us } ∷ out
put_pulse (s ∷ out) (suc zero) us = record s { level1 = vpw_passive; duration1 = us } ∷ out
put_pulse (s ∷ out) (suc (suc i)) us = s ∷ put_pulse out i us

-- `(byte >> bit) & 1`.
abbrev pub bit_of : ℕ → ℕ → Bool
bit_of byte bit = byte / 2 ^ bit % 2 == 1

-- The width of a bit in an active or passive pulse, Figure 14.
abbrev pub bit_width : Bool → Bool → ℕ
bit_width active one =
    if active then (if one then tv1_nom else tv2_nom) else if one then tv2_nom else tv1_nom

-- The inner loop: `n` bits are left, the next one is bit `n - 1`, at pulse `i`.
unfoldable pub encode_bits : ℕ → ℕ → ℕ → List SymbolWord → List SymbolWord
encode_bits zero byte i out = out
encode_bits (suc n) byte i out =
    encode_bits n byte (i + 1) (put_pulse out i (bit_width (i % 2 == 0) (bit_of byte n)))

-- The outer loop, with the index of the next pulse.
unfoldable pub encode_bytes : List ℕ → ℕ → List SymbolWord → ℕ × List SymbolWord
encode_bytes [] i out = (i, out)
encode_bytes (byte ∷ bytes) i out = encode_bytes bytes (i + 8) (encode_bits 8 byte i out)

-- The symbols written, and the array; its length is `cap`.
unfoldable pub j1850_vpw_encode : List ℕ → List SymbolWord → ℕ × List SymbolWord
j1850_vpw_encode bytes out =
    let len = length bytes in
    if len == 0 || (ltb vpw_max_frame len || ltb (length out) (4 * len + 1))
    then (0, out)
    else (let (i, out') = encode_bytes bytes 1 (put_pulse out 0 tv3_nom) in
        ((i + 1) / 2, put_pulse out' i tv3_nom))

-- `J1850_VPW_PULSE_COUNT`.
abbrev pub pulse_count : ℕ → ℕ
pulse_count len = 2 + 8 * len

unfoldable pub j1850_vpw_pulse_at : List ℕ → ℕ → Option VpwPulse
j1850_vpw_pulse_at bytes k =
    let len = length bytes in
    let bit = k - 1 in
    let one = bit_of (get_or bytes (bit / 8) 0) (7 - bit % 8) in
    if len == 0 || (ltb vpw_max_frame len || leb (pulse_count len) k)
    then none
    else if k == 0
    then some (record { level = vpw_active; us = tv3_nom })
    else if k == pulse_count len - 1
    then some (record { level = vpw_passive; us = tv3_nom })
    else if k % 2 == 0
    then some (record { level = vpw_active; us = bit_width true one })
    else some (record { level = vpw_passive; us = bit_width false one })

-- The offsets written; `cap` is the room for them.
unfoldable pub j1850_vpw_watch_offsets : VpwPulse → ℕ → ℕ → ℕ → List ℕ
j1850_vpw_watch_offsets p head_us tail_us cap =
    let last = p.us - tail_us in
    let early = if ltb 0 cap && ltb head_us last then head_us ∷ [] else [] in
    if not (p.level == vpw_passive)
    then []
    else if leb p.us tail_us
    then []
    else if ltb (length early) cap && ltb (tv1_nom + head_us) last
    then early ++ (u16 (tv1_nom + head_us) ∷ [])
    else early
