-- ===== src/J1850/Crc/Residue.antt =====
-- The CRC check and the residue of an error-free message, SAE J1850 clause 5.4.1 g.
use opendiag_firmware.Base.{
  All, All-get_or, All-take, List, [], arith, bit_xor, every_below, every_below-true, false, get_or,
  get_or-append_last, length, length-append, ltb, refl, same, suc, take, take-append, true, zero, ℕ,
  ◌&&◌, ◌++◌, ◌-◌, ◌<◌, ◌==◌, ◌∷◌, ◌≡◌, ◌≤◌,
}
use opendiag_firmware.J1850.Crc.{
  crc_bits, crc_byte, crc_register, j1850_crc, j1850_crc_check, j1850_crc_residue,
}

-- Over all 256 values: shifting keeps to a byte, and only 0xFF shifts to the residue.
residue_table :
    every_below (λ x. ltb (crc_bits 8 x) 256 && same (crc_bits 8 x == 0xC4) (x == 255)) 256 ≡ true
unfolding every_below crc_bits
residue_table = refl

-- The exclusive or of two bytes is a byte, and all ones only for complements.
complement_table :
    every_below
      (λ r.
        every_below (λ b. ltb (bit_xor r b) 256 && same (bit_xor r b == 255) (b == 255 - r)) 256)
      256
    ≡ true
unfolding every_below
complement_table = refl

residue_fact :
    (x : ℕ) → x < 256 → (ltb (crc_bits 8 x) 256 && same (crc_bits 8 x == 0xC4) (x == 255)) ≡ true
residue_fact x h = every_below-true _ 256 x residue_table h

complement_fact :
    (r b : ℕ)
    → r < 256
    → b < 256
    → (ltb (bit_xor r b) 256 && same (bit_xor r b == 255) (b == 255 - r)) ≡ true
complement_fact r b h k = every_below-true _ 256 b (every_below-true _ 256 r complement_table h) k

crc_byte-lt : (r b : ℕ) → r < 256 → b < 256 → crc_byte r b < 256
unfolding crc_byte
crc_byte-lt r b h k = ground (arith, complement_fact r b h k, residue_fact (bit_xor r b))

pub crc_register-lt :
    (r : ℕ) (bs : List ℕ) → r < 256 → All (λ b. b < 256) bs → crc_register r bs < 256
unfolding crc_register
crc_register-lt r [] h a = h
crc_register-lt r (b ∷ bs) h a = crc_register-lt (crc_byte r b) bs (crc_byte-lt r b h a.0) a.1

-- A byte takes the register to the residue exactly if it is the register's complement.
crc_byte-residue :
    (r b : ℕ) → r < 256 → b < 256 → (crc_byte r b == j1850_crc_residue) ≡ (b == 255 - r)
unfolding crc_byte
crc_byte-residue r b h k = ground (arith, complement_fact r b h k, residue_fact (bit_xor r b))

-- The last byte goes into the register last.
crc_register_last :
    (r n : ℕ) (msg : List ℕ)
    → length msg ≡ suc n
    → crc_register r msg ≡ crc_byte (crc_register r (take n msg)) (get_or msg n 0)
unfolding crc_register
crc_register_last r n [] e = absurd (omega arith)
crc_register_last r zero (b ∷ []) e = refl
crc_register_last r zero (b ∷ c ∷ bs) e = absurd (omega arith)
crc_register_last r (suc n) (b ∷ bs) e = crc_register_last (crc_byte r b) n bs (omega arith)

-- Over a message of at least two bytes, checking the last byte against the CRC of the others is the
-- same as running the register over the whole message and comparing with the residue 0xC4, as the
-- streaming receiver does.
pub j1850_crc_check_residue :
    (msg : List ℕ)
    → All (λ b. b < 256) msg
    → 2 ≤ length msg
    → j1850_crc_check msg ≡ (crc_register 0xFF msg == j1850_crc_residue)
unfolding j1850_crc_check j1850_crc
j1850_crc_check_residue msg a h =
    let n = length msg - 1 in
    let short : ltb (length msg) 2 ≡ false = ground arith in
    rw
      (
        short,
        crc_register_last 0xFF n msg (omega arith),
        crc_byte-residue (crc_register 0xFF (take n msg)) (get_or msg n 0)
            (crc_register-lt 0xFF (take n msg) (omega arith) (All-take n msg a))
            (All-get_or msg n a),
      )
      refl

-- A message followed by its CRC passes the check.
j1850_crc_check_append :
    (msg : List ℕ) → 1 ≤ length msg → j1850_crc_check (msg ++ (j1850_crc msg ∷ [])) ≡ true
unfolding j1850_crc_check
j1850_crc_check_append msg h =
    let crc = j1850_crc msg in
    let n : length (msg ++ (crc ∷ [])) - 1 ≡ length msg =
      omega (arith, length-append msg (crc ∷ [])) in
    let long : ltb (length (msg ++ (crc ∷ []))) 2 ≡ false =
      ground (arith, length-append msg (crc ∷ [])) in
    rw (long, n, get_or-append_last msg 0 crc, take-append msg (crc ∷ [])) (ground arith)
