-- ===== src/J1850/Crc.antt =====
-- main/j1850_common.c: the CRC that both J1850 modulations share. A byte array and its length are
-- one list; the null pointer tests have no counterpart.
pub mod Residue
use opendiag_firmware.Base.{
  Bool, List, [], bit_and, bit_xor, false, get_or, if◌then◌else◌, length, ltb, suc, take, u8, zero,
  ℕ, ◌*◌, ◌-◌, ◌==◌, ◌∷◌,
}

-- One turn of the inner loop: shift, and subtract the polynomial where a bit falls out.
abbrev pub crc_bit : ℕ → ℕ
crc_bit crc = if bit_and crc 0x80 == 0 then u8 (crc * 2) else u8 (bit_xor (crc * 2) 0x1D)

unfoldable pub crc_bits : ℕ → ℕ → ℕ
crc_bits zero crc = crc
crc_bits (suc n) crc = crc_bits n (crc_bit crc)

-- One turn of the outer loop: a byte is added to the register and shifted through.
unfoldable pub crc_byte : ℕ → ℕ → ℕ
unfolding crc_bits
crc_byte crc b = crc_bits 8 (bit_xor crc b)

-- The register after the bytes, from a given value.
unfoldable pub crc_register : ℕ → List ℕ → ℕ
crc_register crc [] = crc
crc_register crc (b ∷ bs) = crc_register (crc_byte crc b) bs

-- `(uint8_t)~crc` is the difference from 255.
unfoldable pub j1850_crc : List ℕ → ℕ
j1850_crc bytes = 255 - crc_register 0xFF bytes

unfoldable pub j1850_crc_check : List ℕ → Bool
j1850_crc_check msg =
    let len = length msg in
    if ltb len 2 then false else get_or msg (len - 1) 0 == j1850_crc (take (len - 1) msg)

abbrev pub j1850_crc_residue : ℕ
j1850_crc_residue = 0xC4
