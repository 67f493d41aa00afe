-- ===== src/Base/Lists.antt =====
-- Arrays as lists with native indices, and `memcpy` into one.
use Prim.Native.Nat.{ℕ, zero, suc, ◌+◌, ◌-◌, ◌≤◌, ◌<◌, min}
use mathlib.Core.Path.{◌≡◌, refl, ap, ◌∙◌}
use mathlib.Core.List.{List, [], ◌∷◌, ◌++◌}
use native.Mathlib.Omega.{arith}

module _ {ℓ} {A : Type ℓ} where
  abbrev pub length : List A → ℕ
  length [] = 0
  length (_ ∷ xs) = suc (length xs)

  abbrev pub get_or : List A → ℕ → A → A
  get_or [] _ d = d
  get_or (x ∷ _) zero _ = x
  get_or (_ ∷ xs) (suc i) d = get_or xs i d

  -- A write out of range changes nothing.
  abbrev pub set : List A → ℕ → A → List A
  set [] _ _ = []
  set (_ ∷ xs) zero v = v ∷ xs
  set (x ∷ xs) (suc i) v = x ∷ set xs i v

  abbrev pub take : ℕ → List A → List A
  take zero _ = []
  take (suc n) [] = []
  take (suc n) (x ∷ xs) = x ∷ take n xs

  abbrev pub drop : ℕ → List A → List A
  drop zero xs = xs
  drop (suc n) [] = []
  drop (suc n) (x ∷ xs) = drop n xs

  abbrev pub replicate : ℕ → A → List A
  replicate zero _ = []
  replicate (suc n) a = a ∷ replicate n a

  -- The array with its first elements replaced; what does not fit is dropped.
  abbrev pub overwrite : List A → List A → List A
  overwrite [] _ = []
  overwrite (b ∷ bs) [] = b ∷ bs
  overwrite (b ∷ bs) (x ∷ xs) = x ∷ overwrite bs xs

  -- `memcpy(buf + off, bytes, length bytes)`.
  abbrev pub write_at : List A → ℕ → List A → List A
  write_at buf zero bytes = overwrite buf bytes
  write_at [] (suc off) bytes = []
  write_at (b ∷ bs) (suc off) bytes = b ∷ write_at bs off bytes

  -- Every element has the property.
  abbrev pub All {κ} : (A → Type κ) → List A → Type κ
  All P [] = Unit
  All P (x ∷ xs) = P x × All P xs

module _ {ℓ} {A : Type ℓ} where
  pub length-append : (xs ys : List A) → length (xs ++ ys) ≡ length xs + length ys
  length-append [] ys = omega arith
  length-append (x ∷ xs) ys = omega (arith, length-append xs ys)

  pub length-set : (xs : List A) (i : ℕ) (v : A) → length (set xs i v) ≡ length xs
  length-set [] i v = refl
  length-set (x ∷ xs) zero v = refl
  length-set (x ∷ xs) (suc i) v = ap suc (length-set xs i v)

  pub length-take : (n : ℕ) (xs : List A) → length (take n xs) ≡ min n (length xs)
  length-take zero xs = omega arith
  length-take (suc n) [] = omega arith
  length-take (suc n) (x ∷ xs) = omega (arith, length-take n xs)

  pub length-drop : (n : ℕ) (xs : List A) → length (drop n xs) ≡ length xs - n
  length-drop zero xs = omega arith
  length-drop (suc n) [] = omega arith
  length-drop (suc n) (x ∷ xs) = omega (arith, length-drop n xs)

  pub length-overwrite : (buf bytes : List A) → length (overwrite buf bytes) ≡ length buf
  length-overwrite [] _ = refl
  length-overwrite (b ∷ bs) [] = refl
  length-overwrite (b ∷ bs) (x ∷ xs) = ap suc (length-overwrite bs xs)

  pub length-write_at :
      (buf : List A) (off : ℕ) (bytes : List A) → length (write_at buf off bytes) ≡ length buf
  length-write_at buf zero bytes = length-overwrite buf bytes
  length-write_at [] (suc off) bytes = refl
  length-write_at (b ∷ bs) (suc off) bytes = ap suc (length-write_at bs off bytes)

  -- The part before the end of the bytes written is the old start and the new bytes.
  take-overwrite :
      (buf bytes : List A)
      → length bytes ≤ length buf
      → take (length bytes) (overwrite buf bytes) ≡ bytes
  take-overwrite [] [] h = refl
  take-overwrite [] (x ∷ xs) h = absurd (omega arith)
  take-overwrite (b ∷ bs) [] h = refl
  take-overwrite (b ∷ bs) (x ∷ xs) h = ap (λ r. x ∷ r) (take-overwrite bs xs (omega arith))

  pub take-overwrite_of_length :
      (n : ℕ) (buf bytes : List A)
      → length bytes ≡ n
      → n ≤ length buf
      → take n (overwrite buf bytes) ≡ bytes
  take-overwrite_of_length n buf bytes e h = rw (← e) (take-overwrite buf bytes (omega arith))

  pub take-write_at :
      (buf : List A) (off n : ℕ) (bytes : List A)
      → n ≡ off + length bytes
      → n ≤ length buf
      → take n (write_at buf off bytes) ≡ take off buf ++ bytes
  take-write_at buf zero n bytes e h =
      rw (let e' : n ≡ length bytes = omega arith in e') (take-overwrite buf bytes (omega arith))
  take-write_at [] (suc off) n bytes e h = absurd (omega arith)
  take-write_at (b ∷ bs) (suc off) zero bytes e h = absurd (omega arith)
  take-write_at (b ∷ bs) (suc off) (suc n) bytes e h =
      ap (λ r. b ∷ r) (take-write_at bs off n bytes (omega arith) (omega arith))

  pub take-append-slice :
      (xs : List A) (off n : ℕ) → take off xs ++ take n (drop off xs) ≡ take (off + n) xs
  take-append-slice xs zero n = ap (λ k. take k xs) (omega arith)
  take-append-slice [] (suc off) zero = rw (let e : suc off + 0 ≡ suc off = omega arith in e)
  take-append-slice [] (suc off) (suc n) =
      rw (let e : suc off + suc n ≡ suc (off + suc n) = omega arith in e)
  take-append-slice (x ∷ xs) (suc off) n =
      rw (let e : suc off + n ≡ suc (off + n) = omega arith in e)
        (ap (λ r. x ∷ r) (take-append-slice xs off n))

  pub take_all : (n : ℕ) (xs : List A) → length xs ≤ n → take n xs ≡ xs
  take_all zero [] h = refl
  take_all (suc n) [] h = refl
  take_all zero (x ∷ xs) h = absurd (omega arith)
  take_all (suc n) (x ∷ xs) h = ap (λ r. x ∷ r) (take_all n xs (omega arith))

  pub get_or-take : (n i : ℕ) (xs : List A) (d : A) → i < n → get_or (take n xs) i d ≡ get_or xs i d
  get_or-take zero i xs d h = absurd (omega arith)
  get_or-take (suc n) i [] d h = refl
  get_or-take (suc n) zero (x ∷ xs) d h = refl
  get_or-take (suc n) (suc i) (x ∷ xs) d h = get_or-take n i xs d (omega arith)

  pub get_or-drop : (n i : ℕ) (xs : List A) (d : A) → get_or (drop n xs) i d ≡ get_or xs (n + i) d
  get_or-drop zero i xs d = ap (λ k. get_or xs k d) (omega arith)
  get_or-drop (suc n) i [] d = refl
  get_or-drop (suc n) i (x ∷ xs) d =
      get_or-drop n i xs d
      ∙ ap (λ k. get_or (x ∷ xs) k d) (let e : suc (n + i) ≡ suc n + i = omega arith in e)

  pub take-append : (xs ys : List A) → take (length xs) (xs ++ ys) ≡ xs
  take-append [] ys = refl
  take-append (x ∷ xs) ys = ap (λ r. x ∷ r) (take-append xs ys)

  pub get_or-append_left :
      (xs ys : List A) (i : ℕ) (d : A) → i < length xs → get_or (xs ++ ys) i d ≡ get_or xs i d
  get_or-append_left [] ys i d h = absurd (omega arith)
  get_or-append_left (x ∷ xs) ys zero d h = refl
  get_or-append_left (x ∷ xs) ys (suc i) d h = get_or-append_left xs ys i d (omega arith)

  pub get_or-set_self :
      (xs : List A) (i : ℕ) (v d : A) → i < length xs → get_or (set xs i v) i d ≡ v
  get_or-set_self [] i v d h = absurd (omega arith)
  get_or-set_self (x ∷ xs) zero v d h = refl
  get_or-set_self (x ∷ xs) (suc i) v d h = get_or-set_self xs i v d (omega arith)

  pub get_or-append_last : (xs : List A) (d v : A) → get_or (xs ++ (v ∷ [])) (length xs) d ≡ v
  get_or-append_last [] d v = refl
  get_or-append_last (x ∷ xs) d v = get_or-append_last xs d v

  pub take-set_next :
      (xs : List A) (n : ℕ) (v : A)
      → n < length xs
      → take (n + 1) (set xs n v) ≡ take n xs ++ (v ∷ [])
  take-set_next [] n v h = absurd (omega arith)
  take-set_next (x ∷ xs) zero v h = refl
  take-set_next (x ∷ xs) (suc n) v h =
      rw (let e : suc n + 1 ≡ suc (n + 1) = omega arith in e)
        (ap (λ r. x ∷ r) (take-set_next xs n v (omega arith)))

-- A byte array read at any index gives a byte.
pub All-get_or : (xs : List ℕ) (i : ℕ) → All (λ b. b < 256) xs → get_or xs i 0 < 256
All-get_or [] i h = omega arith
All-get_or (x ∷ xs) zero h = h.0
All-get_or (x ∷ xs) (suc i) h = All-get_or xs i h.1

pub All-take : (n : ℕ) (xs : List ℕ) → All (λ b. b < 256) xs → All (λ b. b < 256) (take n xs)
All-take zero xs h = tt
All-take (suc n) [] h = tt
All-take (suc n) (x ∷ xs) h = (h.0, All-take n xs h.1)

-- The sum of a list, without wrap-around.
unfoldable pub sum : List ℕ → ℕ
sum [] = 0
sum (x ∷ xs) = x + sum xs

pub All-append {ℓ κ} :
    {A : Type ℓ} (P : A → Type κ) (xs ys : List A) → All P xs → All P ys → All P (xs ++ ys)
All-append P [] ys h k = k
All-append P (x ∷ xs) ys h k = (h.0, All-append P xs ys h.1 k)
