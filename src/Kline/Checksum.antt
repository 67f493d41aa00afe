-- ===== src/Kline/Checksum.antt =====
-- The checksum detects every change of a single byte.
use opendiag_firmware.Base.{
  All, All-get_or, List, [], ap, arith, false, get_or, get_or-append_last, get_or-set_self,
  get_or-take, length, length-append, length-set, length-take, ltb, refl, set, suc, sum, sym, take,
  take-append, true, u8, zero, ℕ, ℕ_discrete, ◌++◌, ◌+◌, ◌-◌, ◌<◌, ◌==◌, ◌||◌, ◌∙◌, ◌∷◌, ◌≡◌, ◌≢◌,
  ◌≤◌,
}
use opendiag_firmware.Kline.{
  checksum_from, kline_checksum, kline_frame_ok, kline_max_msg, kline_min_msg,
}

checksum_from-eq_sum : (s : ℕ) (xs : List ℕ) → s < 256 → checksum_from s xs ≡ u8 (s + sum xs)
unfolding checksum_from sum
checksum_from-eq_sum s [] h = omega arith
checksum_from-eq_sum s (x ∷ xs) h =
    checksum_from-eq_sum (u8 (s + x)) xs (omega arith) ∙ (omega arith)

-- Replacing one byte moves the plain sum by the difference.
sum-set : (xs : List ℕ) (i v : ℕ) → i < length xs → sum (set xs i v) + get_or xs i 0 ≡ sum xs + v
unfolding sum
sum-set [] i v h = absurd (omega arith)
sum-set (x ∷ xs) zero v h = omega arith
sum-set (x ∷ xs) (suc i) v h = omega (arith, sum-set xs i v (omega arith))

-- What the receiver accepts, on the plain sum: the bytes but the last add up to the last.
kline_frame_ok-sum :
    (n : ℕ) (buf : List ℕ)
    → length buf ≡ suc n
    → 2 ≤ n
    → n < kline_max_msg
    → kline_frame_ok buf ≡ (u8 (sum (take n buf)) == get_or buf n 0)
unfolding kline_frame_ok kline_checksum
kline_frame_ok-sum n buf e h k =
    let size : length buf - 1 ≡ n = omega arith in
    let fits : (ltb (length buf) kline_min_msg || ltb kline_max_msg (length buf)) ≡ false =
      ground arith in
    rw (fits, size, checksum_from-eq_sum 0 (take n buf) (omega arith)) (ground arith)

set-take_before : (xs : List ℕ) (n i v : ℕ) → i < n → take n (set xs i v) ≡ set (take n xs) i v
set-take_before [] zero i v h = absurd (omega arith)
set-take_before [] (suc n) i v h = refl
set-take_before (x ∷ xs) zero i v h = absurd (omega arith)
set-take_before (x ∷ xs) (suc n) zero v h = refl
set-take_before (x ∷ xs) (suc n) (suc i) v h =
    ap (λ r. x ∷ r) (set-take_before xs n i v (omega arith))

set-take_after : (xs : List ℕ) (n i v : ℕ) → n ≤ i → take n (set xs i v) ≡ take n xs
set-take_after [] zero i v h = refl
set-take_after [] (suc n) i v h = refl
set-take_after (x ∷ xs) zero i v h = refl
set-take_after (x ∷ xs) (suc n) zero v h = absurd (omega arith)
set-take_after (x ∷ xs) (suc n) (suc i) v h =
    ap (λ r. x ∷ r) (set-take_after xs n i v (omega arith))

get_or-set_ne : (xs : List ℕ) (i j v d : ℕ) → i ≢ j → get_or (set xs i v) j d ≡ get_or xs j d
get_or-set_ne [] i j v d h = refl
get_or-set_ne (x ∷ xs) zero zero v d h = absurd (h refl)
get_or-set_ne (x ∷ xs) zero (suc j) v d h = refl
get_or-set_ne (x ∷ xs) (suc i) zero v d h = refl
get_or-set_ne (x ∷ xs) (suc i) (suc j) v d h = get_or-set_ne xs i j v d (λ e. h (ap suc e))

-- A message followed by its checksum is accepted, if its length is legal.
kline_frame_ok_append :
    (msg : List ℕ)
    → 2 ≤ length msg
    → length msg < kline_max_msg
    → kline_frame_ok (msg ++ (kline_checksum msg ∷ [])) ≡ true
unfolding kline_checksum
kline_frame_ok_append msg h k =
    let c = checksum_from 0 msg in
    let size : length (msg ++ (c ∷ [])) ≡ suc (length msg) =
      omega (arith, length-append msg (c ∷ [])) in
    rw
      (
        kline_frame_ok-sum (length msg) (msg ++ (c ∷ [])) size h k,
        take-append msg (c ∷ []),
        get_or-append_last msg 0 c,
        checksum_from-eq_sum 0 msg (omega arith),
      )
      (ground arith)

kline_frame_ok-length :
    (buf : List ℕ)
    → kline_frame_ok buf ≡ true
    → (kline_min_msg ≤ length buf) × (length buf ≤ kline_max_msg)
unfolding kline_frame_ok
kline_frame_ok-length buf h = ground arith

-- On the plain sums: a change of byte `i` among the first `n` bytes, or of byte `n` itself.
changed_sum :
    (n i v : ℕ) (buf : List ℕ)
    → length buf ≡ suc n
    → All (λ b. b < 256) buf
    → i ≤ n
    → v < 256
    → v ≢ get_or buf i 0
    → u8 (sum (take n buf)) ≡ get_or buf n 0
    → u8 (sum (take n (set buf i v))) ≢ get_or (set buf i v) n 0
changed_sum n i v buf e a h w ne ok = elim (ℕ_discrete i n) [
  | yes k ↦
      rw (set-take_after buf n i v (omega arith), k, get_or-set_self buf n v 0 (omega arith))
        (λ c. ne (sym c ∙ ok ∙ ap (λ j. get_or buf j 0) (sym k)))
  | no k ↦
      rw (set-take_before buf n i v (omega arith), get_or-set_ne buf i n v 0 k)
        (omega (
          arith,
          sum-set (take n buf) i v (omega (arith, length-take n buf)),
          get_or-take n i buf 0 (omega arith),
          All-get_or buf i a,
        ))
]

-- Changing any one byte of an accepted message, the checksum included, to another byte value makes
-- the message fail the check.
pub kline_frame_ok_single_error :
    (buf : List ℕ) (i v : ℕ)
    → All (λ b. b < 256) buf
    → kline_frame_ok buf ≡ true
    → i < length buf
    → v < 256
    → v ≢ get_or buf i 0
    → kline_frame_ok (set buf i v) ≡ false
kline_frame_ok_single_error buf i v a ok h w ne =
    let n = length buf - 1 in
    let bounds = kline_frame_ok-length buf ok in
    let size : length buf ≡ suc n = omega (arith, bounds.0) in
    let before =
      kline_frame_ok-sum n buf size (omega (arith, bounds.0)) (omega (arith, bounds.1)) in
    let after =
      kline_frame_ok-sum n (set buf i v) (length-set buf i v ∙ size) (omega (arith, bounds.0))
        (omega (arith, bounds.1)) in
    let changed = changed_sum n i v buf size a (omega arith) w ne in
    rw after (ground (arith, before, changed))
