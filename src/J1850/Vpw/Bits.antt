-- ===== src/J1850/Vpw/Bits.antt =====
-- The decoder takes the pulses of a byte back to the byte.
use opendiag_firmware.Base.{
  ==_iff, Bool, List, [], ap, arith, bit_or, every_below, every_below-true, false, get_or,
  get_or-set_self, if◌then◌else◌, leb, length, refl, set, some, suc, sym, true, zero, ℕ, ◌%◌, ◌*◌,
  ◌++◌, ◌+◌, ◌-◌, ◌/◌, ◌<◌, ◌==◌, ◌^◌, ◌∙◌, ◌∷◌, ◌≡◌, ◌≢◌,
}
use opendiag_firmware.J1850.Vpw.{VpwPulse, bit_of, bit_width, vpw_max_frame}
use opendiag_firmware.J1850.Vpw.Decode.{
  VpwDecoder, decode_pulse, decode_pulses, go, push_bit, push_field,
}
use opendiag_firmware.J1850.Vpw.Encoded.{bit_pulses, level_of, pulse}

-- The bits of `byte` above bit `n`, in place.
abbrev pub high_bits : ℕ → ℕ → ℕ
high_bits n byte = byte / 2 ^ n * 2 ^ n

-- Adding bit `n` to the bits above it, for every byte.
fill_table :
    every_below
      (λ byte.
        every_below
          (λ n.
            (if bit_of byte n
              then bit_or (high_bits (suc n) byte) (2 ^ n)
              else high_bits (suc n) byte)
            == high_bits n byte)
          8)
      256
    ≡ true
unfolding every_below
fill_table = refl

fill_lem :
    (byte n : ℕ)
    → byte < 256
    → n < 8
    → (if bit_of byte n then bit_or (high_bits (suc n) byte) (2 ^ n) else high_bits (suc n) byte)
      ≡ high_bits n byte
fill_lem byte n h k =
    (==_iff _ _).0 (every_below-true _ 8 n (every_below-true _ 256 byte fill_table h) k)

set-set : (xs : List ℕ) (i v w : ℕ) → set (set xs i v) i w ≡ set xs i w
set-set [] i v w = refl
set-set (x ∷ xs) zero v w = refl
set-set (x ∷ xs) (suc i) v w = ap (λ r. x ∷ r) (set-set xs i v w)

filled_lem :
    (buf : List ℕ) (len v k : ℕ) (one : Bool)
    → len < length buf
    → (if one
        then set (set buf len v) len (bit_or (get_or (set buf len v) len 0) k)
        else set buf len v)
      ≡ set buf len (if one then bit_or v k else v)
filled_lem buf len v k true h =
    rw (get_or-set_self buf len v 0 h, set-set buf len v (bit_or v k)) refl
filled_lem buf len v k false h = refl

-- A bit behind the first of a byte.
push_field_next :
    (buf : List ℕ) (len byte n : ℕ)
    → byte < 256
    → n < 7
    → len < length buf
    → push_field (set buf len (high_bits (suc n) byte)) len (bit_of byte n) (7 - n) ≡ (
        if n == 0
        then some (set buf len (high_bits n byte), len + 1, 0)
        else some (set buf len (high_bits n byte), len, 8 - n))
unfolding push_field
push_field_next buf len byte n h k l =
    let middle : (7 - n == 0) ≡ false = ground arith in
    let place : 7 - (7 - n) ≡ n = omega arith in
    rw
      (
        middle,
        place,
        filled_lem buf len (high_bits (suc n) byte) (2 ^ n) (bit_of byte n) l,
        fill_lem byte n h (omega arith),
      )
      (ground arith)

push_field_middle :
    (buf : List ℕ) (len byte n : ℕ)
    → byte < 256
    → suc n < 7
    → len < length buf
    → push_field (set buf len (high_bits (suc (suc n)) byte)) len (bit_of byte (suc n)) (7 - suc n)
      ≡ some (set buf len (high_bits (suc n) byte), len, 8 - suc n)
push_field_middle buf len byte n h k l =
    push_field_next buf len byte (suc n) h k l
    ∙ ap
        (λ t.
          if t
          then some (set buf len (high_bits (suc n) byte), len + 1, 0)
          else some (set buf len (high_bits (suc n) byte), len, 8 - suc n))
        (let z : (suc n == 0) ≡ false = ground arith in z)

-- The first bit of a byte.
push_field_first :
    (buf : List ℕ) (len byte : ℕ)
    → byte < 256
    → len < length buf
    → len < vpw_max_frame
    → push_field buf len (bit_of byte 7) 0 ≡ some (set buf len (high_bits 7 byte), len, 1)
unfolding push_field
push_field_first buf len byte h l m =
    let top : high_bits 8 byte ≡ 0 = omega arith in
    let filled =
      filled_lem buf len 0 (2 ^ 7) (bit_of byte 7) l
      ∙ ap (λ v. set buf len v)
          (ap (λ t. if bit_of byte 7 then bit_or t (2 ^ 7) else t) (sym top)
            ∙ fill_lem byte 7 h (omega arith)) in
    let room : leb vpw_max_frame len ≡ false = ground arith in rw (room, filled) refl

-- A decoder in the data part of a frame, whose next pulse is pulse `i`.
abbrev pub InData : VpwDecoder → ℕ → Type 0
InData d i = (d.expect ≡ level_of i) × (d.in_ifr ≡ false) × (d.need_nb ≡ false)

-- One pulse of a bit, as the decoder takes it.
abbrev pub with_field : VpwDecoder → ℕ → List ℕ → ℕ → ℕ → VpwDecoder
with_field d i buf len n = record d {
  out = record (d.out) { bytes = buf; len = len };
  nbits = n;
  expect = level_of i;
}

decode_pulse_bit :
    (d : VpwDecoder) (i : ℕ) (one : Bool) (buf : List ℕ) (len n : ℕ)
    → InData d i
    → push_field d.out.bytes d.out.len one d.nbits ≡ some (buf, len, n)
    → decode_pulse (pulse i (bit_width (i % 2 == 0) one)) d ≡ go (with_field d (i + 1) buf len n)
unfolding decode_pulse push_bit
decode_pulse_bit d i true buf len n s e = ground arith
decode_pulse_bit d i false buf len n s e = ground arith

decode_pulses_go :
    (p : VpwPulse) (ps : List VpwPulse) (d d' : VpwDecoder)
    → p.us ≢ 0
    → decode_pulse p d ≡ go d'
    → decode_pulses (p ∷ ps) d ≡ decode_pulses ps d'
unfolding decode_pulses
decode_pulses_go p ps d d' h e =
    let some_time : (p.us == 0) ≡ false = ground arith in rw (some_time, e) refl

bit_width_ne_zero : (active one : Bool) → bit_width active one ≢ 0
bit_width_ne_zero true true = omega arith
bit_width_ne_zero true false = omega arith
bit_width_ne_zero false true = omega arith
bit_width_ne_zero false false = omega arith

module _ (d : VpwDecoder) (buf : List ℕ) (len byte : ℕ) (rest : List VpwPulse)
    (data_part : d.in_ifr ≡ false) (no_nb : d.need_nb ≡ false) (small : byte < 256)
    (room : len < length buf) where
  -- The bits behind the first of a byte.
  bits_rest :
      (n i : ℕ)
      → n < 7
      → decode_pulses
          (bit_pulses (suc n) byte i ++ rest)
          (with_field d i (set buf len (high_bits (suc n) byte)) len (7 - n))
        ≡ decode_pulses rest (with_field d (i + suc n) (set buf len byte) (len + 1) 0)
  bits_rest zero i h =
      decode_pulses_go (pulse i (bit_width (i % 2 == 0) (bit_of byte 0))) rest
        (with_field d i (set buf len (high_bits 1 byte)) len 7)
        (with_field d (i + 1) (set buf len (high_bits 0 byte)) (len + 1) 0)
        (bit_width_ne_zero (i % 2 == 0) (bit_of byte 0))
        (decode_pulse_bit (with_field d i (set buf len (high_bits 1 byte)) len 7) i (bit_of byte 0)
          (set buf len (high_bits 0 byte)) (len + 1) 0 (refl, data_part, no_nb)
          (push_field_next buf len byte 0 small h room))
      ∙ ap (λ v. decode_pulses rest (with_field d (i + 1) (set buf len v) (len + 1) 0))
          (let e : high_bits 0 byte ≡ byte = omega arith in e)
  bits_rest (suc n) i h =
      decode_pulses_go (pulse i (bit_width (i % 2 == 0) (bit_of byte (suc n))))
        (bit_pulses (suc n) byte (i + 1) ++ rest)
        (with_field d i (set buf len (high_bits (suc (suc n)) byte)) len (7 - suc n))
        (with_field d (i + 1) (set buf len (high_bits (suc n) byte)) len (8 - suc n))
        (bit_width_ne_zero (i % 2 == 0) (bit_of byte (suc n)))
        (decode_pulse_bit
          (with_field d i (set buf len (high_bits (suc (suc n)) byte)) len (7 - suc n)) i
          (bit_of byte (suc n)) (set buf len (high_bits (suc n) byte)) len (8 - suc n)
          (refl, data_part, no_nb) (push_field_middle buf len byte n small h room))
      ∙ ap
          (λ k.
            decode_pulses (bit_pulses (suc n) byte (i + 1) ++ rest)
              (with_field d (i + 1) (set buf len (high_bits (suc n) byte)) len k))
          (let e : 8 - suc n ≡ 7 - n = omega arith in e)
      ∙ bits_rest n (i + 1) (omega arith)
      ∙ ap (λ k. decode_pulses rest (with_field d k (set buf len byte) (len + 1) 0))
          (let e : i + 1 + suc n ≡ i + suc (suc n) = omega arith in e)

  -- The eight pulses of a byte store it, and leave the decoder at the next byte.
  pub decode_byte :
      (i : ℕ)
      → len < vpw_max_frame
      → decode_pulses (bit_pulses 8 byte i ++ rest) (with_field d i buf len 0)
        ≡ decode_pulses rest (with_field d (i + 8) (set buf len byte) (len + 1) 0)
  decode_byte i m =
      decode_pulses_go (pulse i (bit_width (i % 2 == 0) (bit_of byte 7)))
        (bit_pulses 7 byte (i + 1) ++ rest) (with_field d i buf len 0)
        (with_field d (i + 1) (set buf len (high_bits 7 byte)) len 1)
        (bit_width_ne_zero (i % 2 == 0) (bit_of byte 7))
        (decode_pulse_bit (with_field d i buf len 0) i (bit_of byte 7)
          (set buf len (high_bits 7 byte)) len 1 (refl, data_part, no_nb)
          (push_field_first buf len byte small room m))
      ∙ bits_rest 6 (i + 1) (omega arith)
      ∙ ap (λ k. decode_pulses rest (with_field d k (set buf len byte) (len + 1) 0))
          (let e : i + 1 + 7 ≡ i + 8 = omega arith in e)
