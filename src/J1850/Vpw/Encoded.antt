-- ===== src/J1850/Vpw/Encoded.antt =====
-- The pulse train that the encoder writes, pulse by pulse.
use opendiag_firmware.Base.{
  List, [], ap, append-nil, append_assoc, arith, false, if◌then◌else◌, length, length-set, ltb,
  refl, set, suc, sym, take, zero, ℕ, ◌%◌, ◌*◌, ◌++◌, ◌+◌, ◌/◌, ◌<◌, ◌==◌, ◌||◌, ◌∙◌, ◌∷◌, ◌≡◌, ◌≤◌,
}
use opendiag_firmware.J1850.Vpw.{
  SymbolWord, VpwPulse, bit_of, bit_width, encode_bits, encode_bytes, j1850_vpw_encode, put_pulse,
  tv3_nom, vpw_active, vpw_max_frame, vpw_passive,
}
use opendiag_firmware.J1850.Vpw.Decode.{halves}

-- The levels alternate, active first.
abbrev pub level_of : ℕ → ℕ
level_of i = if i % 2 == 0 then vpw_active else vpw_passive

abbrev pub pulse : ℕ → ℕ → VpwPulse
pulse i us = record { level = level_of i; us = us }

-- The pulses of the `n` low bits of a byte, the first at index `i`.
abbrev pub bit_pulses : ℕ → ℕ → ℕ → List VpwPulse
bit_pulses zero byte i = []
bit_pulses (suc n) byte i =
    pulse i (bit_width (i % 2 == 0) (bit_of byte n)) ∷ bit_pulses n byte (i + 1)

abbrev pub byte_pulses : List ℕ → ℕ → List VpwPulse
byte_pulses [] i = []
byte_pulses (byte ∷ bytes) i = bit_pulses 8 byte i ++ byte_pulses bytes (i + 8)

-- A whole frame: start of frame, the bytes, end of data.
abbrev pub frame_pulses : List ℕ → List VpwPulse
frame_pulses bytes =
    pulse 0 tv3_nom ∷ (byte_pulses bytes 1 ++ (pulse (1 + 8 * length bytes) tv3_nom ∷ []))

level_of_two : (i : ℕ) → level_of (suc (suc i)) ≡ level_of i
level_of_two i = ground arith

-- Among the pulses of the array, writing a pulse is an assignment.
halves-put_pulse :
    (out : List SymbolWord) (i us : ℕ)
    → halves (put_pulse out i us) ≡ set (halves out) i (pulse i us)
unfolding put_pulse
halves-put_pulse [] i us = refl
halves-put_pulse (s ∷ out) zero us = refl
halves-put_pulse (s ∷ out) (suc zero) us = refl
halves-put_pulse (s ∷ out) (suc (suc i)) us =
    ap
      (λ r.
        record { level = s.level0; us = s.duration0 }
        ∷ (record { level = s.level1; us = s.duration1 } ∷ r))
      (halves-put_pulse out i us
        ∙ ap (λ l. set (halves out) i (record { level = l; us = us })) (sym (level_of_two i)))

pub length-halves : (out : List SymbolWord) → length (halves out) ≡ 2 * length out
length-halves [] = refl
length-halves (s ∷ out) = omega (arith, length-halves out)

pub halves-take : (n : ℕ) (out : List SymbolWord) → halves (take n out) ≡ take (2 * n) (halves out)
halves-take zero out = refl
halves-take (suc n) [] = rw (let e : 2 * suc n ≡ suc (suc (2 * n)) = omega arith in e)
halves-take (suc n) (s ∷ out) =
    rw (let e : 2 * suc n ≡ suc (suc (2 * n)) = omega arith in e) (rw (halves-take n out))

take-set_next :
    (xs : List VpwPulse) (i : ℕ) (v : VpwPulse)
    → i < length xs
    → take (i + 1) (set xs i v) ≡ take i xs ++ (v ∷ [])
take-set_next [] i v h = absurd (omega arith)
take-set_next (x ∷ xs) zero v h = refl
take-set_next (x ∷ xs) (suc i) v h =
    rw (let e : suc i + 1 ≡ suc (i + 1) = omega arith in e)
      (ap (λ r. x ∷ r) (take-set_next xs i v (omega arith)))

-- One more pulse of the train is in place.
put_pulse_next :
    (out : List SymbolWord) (i us : ℕ)
    → i < 2 * length out
    → (take (i + 1) (halves (put_pulse out i us)) ≡ take i (halves out) ++ (pulse i us ∷ []))
      × (length (put_pulse out i us) ≡ length out)
put_pulse_next out i us h =
    let size = length-halves out in
    let written = halves-put_pulse out i us in
    (
      rw written (take-set_next (halves out) i (pulse i us) (omega (arith, size))),
      omega (
        arith,
        length-halves (put_pulse out i us),
        size,
        ap length written,
        length-set (halves out) i (pulse i us),
      ),
    )

encode_bits_pulses :
    (n byte i : ℕ) (out : List SymbolWord)
    → i + n ≤ 2 * length out
    → (take (i + n) (halves (encode_bits n byte i out))
        ≡ take i (halves out) ++ bit_pulses n byte i)
      × (length (encode_bits n byte i out) ≡ length out)
unfolding encode_bits
encode_bits_pulses zero byte i out h =
    (rw (append-nil, let e : i + 0 ≡ i = omega arith in e) refl, refl)
encode_bits_pulses (suc n) byte i out h =
    let us = bit_width (i % 2 == 0) (bit_of byte n) in
    let (p, q) = put_pulse_next out i us (omega arith) in
    let (r, s) = encode_bits_pulses n byte (i + 1) (put_pulse out i us) (omega (arith, q)) in
    (
      ap (λ k. take k (halves (encode_bits n byte (i + 1) (put_pulse out i us))))
            (let e : i + suc n ≡ i + 1 + n = omega arith in e)
          ∙ r
          ∙ ap (λ t. t ++ bit_pulses n byte (i + 1)) p
          ∙ append_assoc (take i (halves out)) (pulse i us ∷ []) (bit_pulses n byte (i + 1)),
      s ∙ q,
    )

encode_bytes_pulses :
    (bytes : List ℕ) (i : ℕ) (out : List SymbolWord)
    → i + 8 * length bytes ≤ 2 * length out
    → let (k, out') = encode_bytes bytes i out in
      (k ≡ i + 8 * length bytes)
      × (take k (halves out') ≡ take i (halves out) ++ byte_pulses bytes i)
      × (length out' ≡ length out)
unfolding encode_bytes
encode_bytes_pulses [] i out h = (omega arith, rw append-nil refl, refl)
encode_bytes_pulses (byte ∷ bytes) i out h =
    let (p, q) = encode_bits_pulses 8 byte i out (omega arith) in
    let (e, r, s) =
      encode_bytes_pulses bytes (i + 8) (encode_bits 8 byte i out) (omega (arith, q)) in
    (
      omega (arith, e),
      r
          ∙ ap (λ t. t ++ byte_pulses bytes (i + 8)) p
          ∙ append_assoc (take i (halves out)) (bit_pulses 8 byte i) (byte_pulses bytes (i + 8)),
      s ∙ q,
    )

-- A frame that fits is written as exactly its pulses, in 4 symbol words a byte and one more.
pub j1850_vpw_encode_pulses :
    (bytes : List ℕ) (out : List SymbolWord)
    → 0 < length bytes
    → length bytes ≤ vpw_max_frame
    → 4 * length bytes + 1 ≤ length out
    → let (n, out') = j1850_vpw_encode bytes out in
      (n ≡ 4 * length bytes + 1) × (halves (take n out') ≡ frame_pulses bytes)
unfolding j1850_vpw_encode
j1850_vpw_encode_pulses bytes out p m c =
    let start = put_pulse out 0 tv3_nom in
    let k = (encode_bytes bytes 1 start).0 in
    let body = (encode_bytes bytes 1 start).1 in
    let (a, b) = put_pulse_next out 0 tv3_nom (omega arith) in
    let (e, r, s) = encode_bytes_pulses bytes 1 start (omega (arith, b)) in
    let (u, w) = put_pulse_next body k tv3_nom (omega (arith, e, s, b)) in
    let accepted : (length bytes == 0
          || (ltb vpw_max_frame (length bytes) || ltb (length out) (4 * length bytes + 1)))
        ≡ false =
      ground arith in
    let whole =
      halves-take ((k + 1) / 2) (put_pulse body k tv3_nom)
      ∙ ap (λ j. take j (halves (put_pulse body k tv3_nom)))
          (let f : 2 * ((k + 1) / 2) ≡ k + 1 = omega (arith, e) in f)
      ∙ u
      ∙ ap (λ t. t ++ (pulse k tv3_nom ∷ [])) (r ∙ ap (λ t. t ++ byte_pulses bytes 1) a)
      ∙ ap (λ j. pulse 0 tv3_nom ∷ (byte_pulses bytes 1 ++ (pulse j tv3_nom ∷ []))) e in
    rw accepted (omega (arith, e), whole)
