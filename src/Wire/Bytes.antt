-- ===== src/Wire/Bytes.antt =====
-- Little-endian fields inside lists; the CRC is a 32-bit word.
use opendiag_firmware.Base.{
  List, [], ap, arith, drop, get_or, length, refl, suc, take, zero, ℕ, ◌++◌, ◌+◌, ◌<◌, ◌∙◌, ◌∷◌,
  ◌≡◌, ◌≤◌,
}
use opendiag_firmware.Wire.{crc32, get_le32, le32}

pub get_or-append_at :
    (xs ys : List ℕ) (n i : ℕ) → n ≡ length xs → get_or (xs ++ ys) (n + i) 0 ≡ get_or ys i 0
get_or-append_at [] ys n i e = ap (λ k. get_or ys k 0) (omega arith)
get_or-append_at (x ∷ xs) ys zero i e = absurd (omega arith)
get_or-append_at (x ∷ xs) ys (suc n) i e =
    ap (λ k. get_or (x ∷ (xs ++ ys)) k 0) (let f : suc n + i ≡ suc (n + i) = omega arith in f)
    ∙ get_or-append_at xs ys n i (omega arith)

pub take-append_left :
    {A : Type 0} (n : ℕ) (xs ys : List A) → n ≤ length xs → take n (xs ++ ys) ≡ take n xs
take-append_left zero xs ys h = refl
take-append_left (suc n) [] ys h = absurd (omega arith)
take-append_left (suc n) (x ∷ xs) ys h = ap (λ r. x ∷ r) (take-append_left n xs ys (omega arith))

pub get_le32-le32 :
    (xs : List ℕ) (n v : ℕ) → n ≡ length xs → v < 4294967296 → get_le32 (xs ++ le32 v) n ≡ v
get_le32-le32 xs n v e h = omega (
  arith,
  get_or-append_at xs (le32 v) n 0 e,
  get_or-append_at xs (le32 v) n 1 e,
  get_or-append_at xs (le32 v) n 2 e,
  get_or-append_at xs (le32 v) n 3 e,
  (let f : n + 0 ≡ n = omega arith in ap (λ k. get_or (xs ++ le32 v) k 0) f),
)

pub crc32-lt : (bytes : List ℕ) → crc32 bytes < 4294967296
unfolding crc32
crc32-lt bytes = omega arith

pub drop-append_left :
    {A : Type 0} (n : ℕ) (xs ys : List A) → n ≤ length xs → drop n (xs ++ ys) ≡ drop n xs ++ ys
drop-append_left zero xs ys h = refl
drop-append_left (suc n) [] ys h = absurd (omega arith)
drop-append_left (suc n) (x ∷ xs) ys h = drop-append_left n xs ys (omega arith)
