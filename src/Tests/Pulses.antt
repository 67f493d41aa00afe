-- ===== src/Tests/Pulses.antt =====
-- J1850 messages: a request with its CRC, and the pulses of a frame.
use opendiag_firmware.Base.{
  All, List, [], arith, get_or, length, refl, replicate, some, sym, take, true, ℕ, ◌==◌, ◌∷◌, ◌≡◌,
  ◌≤◌, ◌⊎◌,
}
use opendiag_firmware.J1850.Crc.{
  crc_bits, crc_byte, crc_register, j1850_crc, j1850_crc_check, j1850_crc_residue,
}
use opendiag_firmware.J1850.Crc.Residue.{j1850_crc_check_residue}
use opendiag_firmware.J1850.Vpw.{
  SymbolWord, VpwPulse, j1850_vpw_encode, j1850_vpw_pulse_at, j1850_vpw_watch_offsets, vpw_passive,
}
use opendiag_firmware.J1850.Vpw.Contention.{InMargins, j1850_vpw_watch_offsets_bounds}
use opendiag_firmware.J1850.Vpw.Decode.{halves, j1850_vpw_decode}
use opendiag_firmware.J1850.Vpw.Encoded.{frame_pulses, j1850_vpw_encode_pulses}
use opendiag_firmware.J1850.Vpw.OnDemand.{j1850_vpw_pulse_at-encode}
use opendiag_firmware.J1850.Vpw.RoundTrip.{frame_rx, j1850_vpw_decode-encode}

abbrev request : List ℕ
request = 0x68 ∷ 0x6A ∷ 0xF1 ∷ 0x01 ∷ 0x00 ∷ []

abbrev checked : List ℕ
checked = 0x68 ∷ 0x6A ∷ 0xF1 ∷ 0x01 ∷ 0x00 ∷ 0x17 ∷ []

abbrev blank_symbol : SymbolWord
blank_symbol = record { level0 = 0; duration0 = 0; level1 = 0; duration1 = 0 }

abbrev symbols : List SymbolWord
symbols = replicate 32 blank_symbol

checked_ok : j1850_crc_check checked ≡ true
unfolding j1850_crc_check j1850_crc crc_register crc_byte crc_bits
checked_ok = refl

j1850_crc_check_residue_example :
    j1850_crc_check checked ≡ (crc_register 0xFF checked == j1850_crc_residue)
j1850_crc_check_residue_example = j1850_crc_check_residue checked (ground arith) (omega arith)

j1850_vpw_decode-encode_example :
    let (n, sym) = j1850_vpw_encode checked symbols in
    (j1850_vpw_decode sym n ≡ frame_rx checked)
    × (take (frame_rx checked).len (frame_rx checked).bytes ≡ checked)
j1850_vpw_decode-encode_example =
    j1850_vpw_decode-encode checked symbols (ground arith) (omega arith) (omega arith) (omega arith)
      checked_ok

j1850_vpw_encode_pulses_example :
    let (n, out) = j1850_vpw_encode request symbols in
    (n ≡ 21) × (halves (take n out) ≡ frame_pulses request)
j1850_vpw_encode_pulses_example =
    j1850_vpw_encode_pulses request symbols (omega arith) (omega arith) (omega arith)

abbrev passive_long : VpwPulse
passive_long = record { level = vpw_passive; us = 128 }

j1850_vpw_watch_offsets_bounds_example :
    let offsets = j1850_vpw_watch_offsets passive_long 20 10 4 in
    All (InMargins passive_long 20 10) offsets
    × (length offsets ≤ 2)
    × ((offsets ≡ []) ⊎ (vpw_passive ≡ vpw_passive))
j1850_vpw_watch_offsets_bounds_example =
    j1850_vpw_watch_offsets_bounds passive_long 20 10 4 (omega arith)

j1850_vpw_pulse_at-encode_example :
    let (n, out) = j1850_vpw_encode request symbols in
    j1850_vpw_pulse_at request 7 ≡ some (get_or (halves (take n out)) 7 passive_long)
j1850_vpw_pulse_at-encode_example =
    j1850_vpw_pulse_at-encode request symbols 7 passive_long (omega arith) (omega arith)
      (omega arith) (omega arith)
