-- ===== src/J1850/Pwm/Echo.antt =====
-- The adapter recognises the frames that it has sent itself: the quick decoder reads back what the
-- encoder lays out.
use opendiag_firmware.Base.{
  ==_iff, All, Bool, List, [], and_false, ap, append-nil, append_assoc, arith, every_below,
  every_below-true, false, if◌then◌else◌, leb, length, length-append, length-set, ltb, refl, set,
  subst, suc, sym, take, take-set_next, true, u8, zero, ℕ, ◌*◌, ◌++◌, ◌+◌, ◌-◌, ◌/◌, ◌<◌, ◌==◌, ◌^◌,
  ◌||◌, ◌∙◌, ◌∷◌, ◌≡◌, ◌≤◌,
}
use opendiag_firmware.J1850.Pwm.{
  classify_active, j1850_pwm_encode, j1850_pwm_quick_decode, put_bits, put_bytes, put_cell,
  pwm_max_frame, quick_bits, quick_open, tp1_nom, tp2_nom, tp3_nom, tp4_nom, tp7_nom,
}
use opendiag_firmware.J1850.Vpw.{SymbolWord, bit_of}

-- The words of the last `n` bits of a byte, and of whole bytes.
abbrev pub bit_cells : ℕ → ℕ → List SymbolWord
bit_cells zero byte = []
bit_cells (suc n) byte =
    put_cell (if bit_of byte n then tp1_nom else tp2_nom) tp3_nom ∷ bit_cells n byte

abbrev pub byte_cells : List ℕ → List SymbolWord
byte_cells [] = []
byte_cells (byte ∷ bytes) = bit_cells 8 byte ++ byte_cells bytes

put_bits_cells :
    (n byte i : ℕ) (out : List SymbolWord)
    → i + n ≤ length out
    → (take (i + n) (put_bits n byte i out) ≡ take i out ++ bit_cells n byte)
      × (length (put_bits n byte i out) ≡ length out)
unfolding put_bits
put_bits_cells zero byte i out h =
    (ap (λ k. take k out) (omega arith) ∙ sym (append-nil (take i out)), refl)
put_bits_cells (suc n) byte i out h =
    let cell = put_cell (if bit_of byte n then tp1_nom else tp2_nom) tp3_nom in
    let size = length-set out i cell in
    let (p, q) = put_bits_cells n byte (i + 1) (set out i cell) (omega (arith, size)) in
    (
      rw (let e : i + suc n ≡ i + 1 + n = omega arith in e) (
          p
          ∙ ap (λ r. r ++ bit_cells n byte) (take-set_next out i cell (omega arith))
          ∙ append_assoc (take i out) (cell ∷ []) (bit_cells n byte)),
      q ∙ size,
    )

put_bytes_cells :
    (bytes : List ℕ) (i : ℕ) (out : List SymbolWord)
    → i + length bytes * 8 ≤ length out
    → let (n, out') = put_bytes bytes i out in
      (n ≡ i + length bytes * 8) × (take n out' ≡ take i out ++ byte_cells bytes)
unfolding put_bytes
put_bytes_cells [] i out h = (omega arith, sym (append-nil (take i out)))
put_bytes_cells (byte ∷ bytes) i out h =
    let (p, q) = put_bits_cells 8 byte i out (omega arith) in
    let (e, r) = put_bytes_cells bytes (i + 8) (put_bits 8 byte i out) (omega (arith, q)) in
    (
      omega (arith, e),
      r
          ∙ ap (λ r. r ++ byte_cells bytes) p
          ∙ append_assoc (take i out) (bit_cells 8 byte) (byte_cells bytes),
    )

-- Shifting a bit in, for every byte.
shift_table :
    every_below
      (λ byte.
        every_below
          (λ n.
            u8 (byte / 2 ^ suc n * 2 + (if ltb (if bit_of byte n then 7 else 15) 11 then 1 else 0))
            == byte / 2 ^ n)
          8)
      256
    ≡ true
unfolding every_below
shift_table = refl

shift_lem :
    (byte n : ℕ)
    → byte < 256
    → n < 8
    → u8 (byte / 2 ^ suc n * 2 + (if ltb (if bit_of byte n then 7 else 15) 11 then 1 else 0))
      ≡ byte / 2 ^ n
shift_lem byte n h k =
    (==_iff _ _).0 (every_below-true _ 8 n (every_below-true _ 256 byte shift_table h) k)

-- One word that the encoder wrote, read back.
quick_bits-cell :
    (one : Bool) (cap nbits acc : ℕ) (rest : List SymbolWord) (bytes : List ℕ)
    → length bytes < cap
    → let cell = put_cell (if one then tp1_nom else tp2_nom) tp3_nom in
      let next = u8 (acc * 2 + (if ltb (if one then 7 else 15) 11 then 1 else 0)) in
      let full = nbits + 1 == 8 in
      quick_bits (cell ∷ rest) cap bytes nbits acc
      ≡ quick_bits rest cap
          (if full then bytes ++ (next ∷ []) else bytes)
          (if full then 0 else nbits + 1)
          (if full then 0 else next)
unfolding quick_bits
quick_bits-cell true cap nbits acc rest bytes c =
    let roomy : leb cap (length bytes) ≡ false = ground arith in rw (roomy, and_false) refl
quick_bits-cell false cap nbits acc rest bytes c =
    let roomy : leb cap (length bytes) ≡ false = ground arith in rw (roomy, and_false) refl

-- The last `n + 1` bits of a byte complete it.
quick_bits-cells :
    (n byte cap : ℕ) (rest : List SymbolWord) (bytes : List ℕ)
    → n < 8
    → byte < 256
    → length bytes < cap
    → quick_bits (bit_cells (suc n) byte ++ rest) cap bytes (7 - n) (byte / 2 ^ suc n)
      ≡ quick_bits rest cap (bytes ++ (byte ∷ [])) 0 0
quick_bits-cells zero byte cap rest bytes h k c =
    quick_bits-cell (bit_of byte 0) cap 7 (byte / 2 ^ 1) rest bytes c
    ∙ ap (λ v. quick_bits rest cap (bytes ++ (v ∷ [])) 0 0)
        (let e : byte / 2 ^ 0 ≡ byte = omega arith in shift_lem byte 0 k h ∙ e)
quick_bits-cells (suc n) byte cap rest bytes h k c =
    let more : (7 - suc n + 1 == 8) ≡ false = ground arith in
    let count : 7 - suc n + 1 ≡ 7 - n = omega arith in
    quick_bits-cell (bit_of byte (suc n)) cap (7 - suc n) (byte / 2 ^ suc (suc n))
      (bit_cells (suc n) byte ++ rest) bytes c
    ∙ rw (more, count, shift_lem byte (suc n) k h)
        (quick_bits-cells n byte cap rest bytes (omega arith) k c)

quick_bits-byte_cells :
    (more : List ℕ) (cap : ℕ) (bytes : List ℕ)
    → All (λ b. b < 256) more
    → length bytes + length more ≤ cap
    → quick_bits (byte_cells more) cap bytes 0 0 ≡ bytes ++ more
unfolding quick_bits
quick_bits-byte_cells [] cap bytes a c = sym (append-nil bytes)
quick_bits-byte_cells (byte ∷ more) cap bytes a c =
    let zero_acc : byte / 2 ^ 8 ≡ 0 = omega (arith, a.0) in
    subst (λ acc. quick_bits (byte_cells (byte ∷ more)) cap bytes 0 acc ≡ bytes ++ (byte ∷ more))
      zero_acc
      (quick_bits-cells 7 byte cap (byte_cells more) bytes (omega arith) a.0 (omega arith)
        ∙ quick_bits-byte_cells more cap (bytes ++ (byte ∷ [])) a.1
            (omega (arith, length-append bytes (byte ∷ [])))
        ∙ append_assoc bytes (byte ∷ []) more)

-- A frame that is encoded with its start of frame into any large enough array, and read back by the
-- quick decoder into enough room, comes back byte for byte.
pub j1850_pwm_quick_decode-encode :
    (bytes : List ℕ) (out : List SymbolWord) (cap : ℕ)
    → All (λ b. b < 256) bytes
    → 0 < length bytes
    → length bytes ≤ pwm_max_frame
    → length bytes * 8 + 1 ≤ length out
    → length bytes ≤ cap
    → let (n, sym) = j1850_pwm_encode bytes true out in j1850_pwm_quick_decode sym n cap ≡ bytes
unfolding j1850_pwm_quick_decode j1850_pwm_encode quick_open classify_active
j1850_pwm_quick_decode-encode bytes out cap a p m r c =
    let sof = put_cell tp7_nom tp4_nom in
    let start = set out 0 sof in
    let (e, q) = put_bytes_cells bytes 1 start (omega (arith, length-set out 0 sof)) in
    let accepted : (length bytes == 0
          || (ltb pwm_max_frame (length bytes) || ltb (length out) (length bytes * 8 + 1)))
        ≡ false =
      ground arith in
    let first : take 1 start ≡ sof ∷ [] = take-set_next out 0 sof (omega arith) in
    let roomy : (cap == 0) ≡ false = ground arith in
    rw (accepted, j1850_pwm_quick_decode, q, first, roomy)
      (quick_bits-byte_cells bytes cap [] a (omega arith))
