-- ===== src/J1850/Pwm/Stream/Checked.antt =====
-- The streaming decoder's register is the CRC of the bytes that it has stored.
use opendiag_firmware.Base.{
  All, All-take, Bool-cases, List, [], ap, arith, false, if◌then◌else◌, inl, inr, length,
  length-set, length-take, ltb, refl, set, suc, sym, take, take-set_next, true, u8, zero, ℕ, ◌*◌,
  ◌++◌, ◌+◌, ◌<◌, ◌==◌, ◌∙◌, ◌∷◌, ◌≡◌, ◌≤◌, ◌⊎◌,
}
use opendiag_firmware.J1850.Crc.{crc_byte, crc_register, j1850_crc_check}
use opendiag_firmware.J1850.Crc.Residue.{j1850_crc_check_residue}
use opendiag_firmware.J1850.Pwm.{pwm_bit_split, pwm_max_frame}
use opendiag_firmware.J1850.Pwm.Stream.{
  PwmStream, j1850_pwm_stream_pulse, stream_bit, stream_byte, stream_rejects,
}

crc_register-append :
    (r b : ℕ) (xs : List ℕ) → crc_register r (xs ++ (b ∷ [])) ≡ crc_byte (crc_register r xs) b
unfolding crc_register
crc_register-append r b [] = refl
crc_register-append r b (x ∷ xs) = crc_register-append (crc_byte r x) b xs

All-set :
    (xs : List ℕ) (n v : ℕ) → v < 256 → All (λ b. b < 256) xs → All (λ b. b < 256) (set xs n v)
All-set [] n v h a = tt
All-set (x ∷ xs) zero v h a = (h, a.1)
All-set (x ∷ xs) (suc n) v h a = (a.0, All-set xs n v h a.1)

-- The invariant of a stream.
pub record IsStream (s : PwmStream) : Type 0 where
  pub size : length s.bytes ≡ pwm_max_frame
  pub byte_range : All (λ b. b < 256) s.bytes
  pub within : s.len ≤ pwm_max_frame
  pub register : (s.valid ≡ false) ⊎ (s.crc ≡ crc_register 0xFF (take s.len s.bytes))

stream_byte-IsStream :
    (s : PwmStream) (byte : ℕ)
    → IsStream s
    → s.valid ≡ true
    → s.len < pwm_max_frame
    → byte < 256
    → IsStream (stream_byte s byte).1
unfolding stream_byte
stream_byte-IsStream s byte h v l b = record {
  size = length-set s.bytes s.len byte ∙ h.size;
  byte_range = All-set s.bytes s.len byte b h.byte_range;
  within = omega arith;
  register = inr (
      ap (λ r. crc_byte r byte) (ground (arith, h.register))
      ∙ sym (crc_register-append 0xFF byte (take s.len s.bytes))
      ∙ ap (crc_register 0xFF) (sym (take-set_next s.bytes s.len byte (omega (arith, h.size)))));
}

stream_byte-checked :
    (s : PwmStream) (byte : ℕ)
    → IsStream (stream_byte s byte).1
    → s.valid ≡ true
    → (stream_byte s byte).0 ≡ true
    → let s' = (stream_byte s byte).1 in
      (j1850_crc_check (take s'.len s'.bytes) ≡ true) × (4 ≤ s'.len) × (s'.len < pwm_max_frame)
unfolding stream_byte
stream_byte-checked s byte h v e =
    let s' = (stream_byte s byte).1 in
    let long : 4 ≤ s.len + 1 = ground arith in
    let checked =
      j1850_crc_check_residue (take s'.len s'.bytes) (All-take s'.len s'.bytes h.byte_range)
        (omega (arith, long, length-take s'.len s'.bytes, h.size)) in
    (ground (arith, checked, h.register), long, ground arith)

stream_bit-IsStream :
    (s : PwmStream) (us : ℕ)
    → IsStream s
    → s.valid ≡ true
    → s.len < pwm_max_frame
    → IsStream (stream_bit s us).1
unfolding stream_bit
stream_bit-IsStream s us h v l =
    let byte = u8 (s.byte * 2 + (if ltb us pwm_bit_split then 1 else 0)) in
    let next = record s { first = false; byte = byte; bits = u8 (s.bits + 1) } in
    let next-IsStream : IsStream next = record {
      size = h.size;
      byte_range = h.byte_range;
      within = h.within;
      register = h.register;
    } in
    let whole = stream_byte-IsStream next byte next-IsStream v l (omega arith) in
    elim (Bool-cases (u8 (s.bits + 1) == 8)) [ inl e ↦ rw e whole | inr e ↦ rw e next-IsStream ]

-- Any pulse keeps the invariant.
pub j1850_pwm_stream_pulse-IsStream :
    (s : PwmStream) (active_us edge_us : ℕ)
    → IsStream s
    → IsStream (j1850_pwm_stream_pulse s active_us edge_us).1
unfolding j1850_pwm_stream_pulse stream_rejects
j1850_pwm_stream_pulse-IsStream s active_us edge_us h =
    let no_bytes : crc_register 0xFF [] ≡ 0xFF = unfold crc_register in refl in
    ground (arith, stream_bit-IsStream s active_us h, no_bytes)

-- The pulses of a capture, each with its width and the distance of the rising edges.
unfoldable pub stream_pulses : PwmStream → List (ℕ × ℕ) → PwmStream
stream_pulses s [] = s
stream_pulses s ((active_us, edge_us) ∷ ps) =
    stream_pulses (j1850_pwm_stream_pulse s active_us edge_us).1 ps

stream_pulses-IsStream :
    (s : PwmStream) (ps : List (ℕ × ℕ)) → IsStream s → IsStream (stream_pulses s ps)
unfolding stream_pulses
stream_pulses-IsStream s [] h = h
stream_pulses-IsStream s ((active_us, edge_us) ∷ ps) h =
    stream_pulses-IsStream (j1850_pwm_stream_pulse s active_us edge_us).1 ps
      (j1850_pwm_stream_pulse-IsStream s active_us edge_us h)

stream_bit-checked :
    (s : PwmStream) (us : ℕ)
    → IsStream (stream_bit s us).1
    → s.valid ≡ true
    → (stream_bit s us).0 ≡ true
    → let s' = (stream_bit s us).1 in
      (j1850_crc_check (take s'.len s'.bytes) ≡ true) × (4 ≤ s'.len) × (s'.len < pwm_max_frame)
unfolding stream_bit
stream_bit-checked s us h v e =
    let byte = u8 (s.byte * 2 + (if ltb us pwm_bit_split then 1 else 0)) in
    let next = record s { first = false; byte = byte; bits = u8 (s.bits + 1) } in
    ground (arith, stream_byte-checked next byte)

-- Whatever pulses a stream without stored bytes has seen, a pulse is reported as the end of a
-- checked message only if the bytes stored are a message of 4 to 11 bytes with a good CRC. The
-- stream has room for the 12 bytes of the longest message.
pub stream_acknowledges_checked :
    (s : PwmStream) (ps : List (ℕ × ℕ)) (active_us edge_us : ℕ)
    → length s.bytes ≡ pwm_max_frame
    → All (λ b. b < 256) s.bytes
    → s.len ≡ 0
    → s.valid ≡ false
    → (j1850_pwm_stream_pulse (stream_pulses s ps) active_us edge_us).0 ≡ true
    → let s' = (j1850_pwm_stream_pulse (stream_pulses s ps) active_us edge_us).1 in
      (j1850_crc_check (take s'.len s'.bytes) ≡ true) × (4 ≤ s'.len) × (s'.len < pwm_max_frame)
unfolding j1850_pwm_stream_pulse stream_rejects
stream_acknowledges_checked s ps active_us edge_us l a z v e =
    let start : IsStream s = record {
      size = l;
      byte_range = a;
      within = omega arith;
      register = inl v;
    } in
    let before = stream_pulses s ps in
    let h = stream_pulses-IsStream s ps start in
    ground (arith, stream_bit-checked before active_us, stream_bit-IsStream before active_us h)
