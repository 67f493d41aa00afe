-- ===== src/J1850/Vpw/OnDemand.antt =====
-- The contention monitor works out pulses from the bytes; they are those of the encoder.
use opendiag_firmware.Base.{
  List, [], ap, arith, dec_lt, get_or, get_or-append_left, length, length-append, refl, some, suc,
  sym, take, zero, ℕ, ◌%◌, ◌*◌, ◌++◌, ◌+◌, ◌-◌, ◌/◌, ◌<◌, ◌==◌, ◌∙◌, ◌∷◌, ◌≡◌, ◌≤◌,
}
use opendiag_firmware.J1850.Vpw.{
  SymbolWord, VpwPulse, bit_of, bit_width, j1850_vpw_encode, j1850_vpw_pulse_at, pulse_count,
  tv3_nom, vpw_max_frame,
}
use opendiag_firmware.J1850.Vpw.Decode.{halves}
use opendiag_firmware.J1850.Vpw.Encoded.{
  bit_pulses, byte_pulses, frame_pulses, j1850_vpw_encode_pulses, pulse,
}

get_or-append_right :
    {A : Type 0} (xs ys : List A) (i : ℕ) (d : A)
    → length xs ≤ i
    → get_or (xs ++ ys) i d ≡ get_or ys (i - length xs) d
get_or-append_right [] ys i d h = ap (λ k. get_or ys k d) (omega arith)
get_or-append_right (x ∷ xs) ys zero d h = absurd (omega arith)
get_or-append_right (x ∷ xs) ys (suc i) d h =
    get_or-append_right xs ys i d (omega arith) ∙ ap (λ k. get_or ys k d) (omega arith)

-- The pulse at index `x` that carries a bit of a byte.
abbrev bit_pulse : ℕ → ℕ → ℕ → VpwPulse
bit_pulse x byte bit = pulse x (bit_width (x % 2 == 0) (bit_of byte bit))

bit_pulse_eq : (byte : ℕ) {x y b c : ℕ} → x ≡ y → b ≡ c → bit_pulse x byte b ≡ bit_pulse y byte c
bit_pulse_eq byte {x} {y} {b} {c} e f =
    ap (λ z. bit_pulse z byte b) e ∙ ap (λ z. bit_pulse y byte z) f

length-bit_pulses : (n byte i : ℕ) → length (bit_pulses n byte i) ≡ n
length-bit_pulses zero byte i = refl
length-bit_pulses (suc n) byte i = ap suc (length-bit_pulses n byte (i + 1))

get_or-bit_pulses :
    (n byte i j : ℕ) (d : VpwPulse)
    → j < n
    → get_or (bit_pulses n byte i) j d ≡ bit_pulse (i + j) byte (n - 1 - j)
get_or-bit_pulses zero byte i j d h = absurd (omega arith)
get_or-bit_pulses (suc n) byte i zero d h = bit_pulse_eq byte (omega arith) (omega arith)
get_or-bit_pulses (suc n) byte i (suc j) d h =
    get_or-bit_pulses n byte (i + 1) j d (omega arith)
    ∙ bit_pulse_eq byte (omega arith) (omega arith)

get_or-byte_pulses :
    (bytes : List ℕ) (i j : ℕ) (d : VpwPulse)
    → j < 8 * length bytes
    → get_or (byte_pulses bytes i) j d ≡ bit_pulse (i + j) (get_or bytes (j / 8) 0) (7 - j % 8)
get_or-byte_pulses [] i j d h = absurd (omega arith)
get_or-byte_pulses (byte ∷ bytes) i j d h = elim (dec_lt j 8) [
  | yes l ↦
      (let here : j / 8 ≡ 0 = omega arith in
        rw here (
          get_or-append_left (bit_pulses 8 byte i) (byte_pulses bytes (i + 8)) j d
            (omega (arith, length-bit_pulses 8 byte i))
          ∙ get_or-bit_pulses 8 byte i j d l
          ∙ bit_pulse_eq byte refl (omega arith)))
  | no l ↦
      (let later : j / 8 ≡ suc ((j - 8) / 8) = omega arith in
        let skip : j - length (bit_pulses 8 byte i) ≡ j - 8 =
          omega (arith, length-bit_pulses 8 byte i) in
        rw later (
          get_or-append_right (bit_pulses 8 byte i) (byte_pulses bytes (i + 8)) j d
            (omega (arith, length-bit_pulses 8 byte i))
          ∙ ap (λ k. get_or (byte_pulses bytes (i + 8)) k d) skip
          ∙ get_or-byte_pulses bytes (i + 8) (j - 8) d (omega arith)
          ∙ bit_pulse_eq (get_or bytes ((j - 8) / 8) 0) (omega arith) (omega arith)))
]

length-byte_pulses : (bytes : List ℕ) (i : ℕ) → length (byte_pulses bytes i) ≡ 8 * length bytes
length-byte_pulses [] i = omega arith
length-byte_pulses (byte ∷ bytes) i = omega (
  arith,
  length-append (bit_pulses 8 byte i) (byte_pulses bytes (i + 8)),
  length-bit_pulses 8 byte i,
  length-byte_pulses bytes (i + 8),
)

-- The pulse worked out for an index of a frame of legal length is that of the frame's train.
j1850_vpw_pulse_at-frame_pulses :
    (bytes : List ℕ) (k : ℕ) (d : VpwPulse)
    → 0 < length bytes
    → length bytes ≤ vpw_max_frame
    → k < pulse_count (length bytes)
    → j1850_vpw_pulse_at bytes k ≡ some (get_or (frame_pulses bytes) k d)
unfolding j1850_vpw_pulse_at
j1850_vpw_pulse_at-frame_pulses bytes zero d p m h = ground arith
j1850_vpw_pulse_at-frame_pulses bytes (suc j) d p m h =
    let last = pulse (1 + 8 * length bytes) tv3_nom ∷ [] in
    let size = length-byte_pulses bytes 1 in
    let index : suc j - 1 ≡ j = omega arith in
    elim (dec_lt j (8 * length bytes)) [
      | yes l ↦
          (let here =
              get_or-append_left (byte_pulses bytes 1) last j d (omega (arith, size))
              ∙ get_or-byte_pulses bytes 1 j d l
              ∙ bit_pulse_eq (get_or bytes (j / 8) 0) (let e : 1 + j ≡ suc j = omega arith in e)
                  refl in
            rw (here, index) (ground arith))
      | no l ↦
          (let skip : j - length (byte_pulses bytes 1) ≡ 0 = omega (arith, size) in
            let here =
              get_or-append_right (byte_pulses bytes 1) last j d (omega (arith, size))
              ∙ ap (λ k. get_or last k d) skip in
            rw (here, index) (ground arith))
    ]

-- The pulse worked out for an index of a frame of legal length is the pulse that the encoder writes
-- there, into an array that is large enough.
pub j1850_vpw_pulse_at-encode :
    (bytes : List ℕ) (out : List SymbolWord) (k : ℕ) (d : VpwPulse)
    → 0 < length bytes
    → length bytes ≤ vpw_max_frame
    → 4 * length bytes + 1 ≤ length out
    → k < pulse_count (length bytes)
    → let (n, out') = j1850_vpw_encode bytes out in
      j1850_vpw_pulse_at bytes k ≡ some (get_or (halves (take n out')) k d)
j1850_vpw_pulse_at-encode bytes out k d p m c h =
    j1850_vpw_pulse_at-frame_pulses bytes k d p m h
    ∙ ap (λ ps. some (get_or ps k d)) (sym (j1850_vpw_encode_pulses bytes out p m c).1)
