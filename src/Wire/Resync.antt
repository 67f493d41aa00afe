-- ===== src/Wire/Resync.antt =====
-- Finding the start of a frame again: as few bytes as possible are dropped.
use opendiag_firmware.Base.{
  Bool-cases, List, [], arith, drop, false, inl, inr, length, refl, suc, true, zero, ℕ, ◌++◌, ◌<◌,
  ◌∙◌, ◌∷◌, ◌≡◌, ◌≤◌,
}
use opendiag_firmware.Wire.{agrees, magic, resync}

-- The bytes of the magic settle the test: what follows makes no difference.
agrees-append : (ms xs ys : List ℕ) → length ms ≤ length xs → agrees ms (xs ++ ys) ≡ agrees ms xs
unfolding agrees
agrees-append [] xs ys h = refl
agrees-append (m ∷ ms) [] ys h = absurd (omega arith)
agrees-append (m ∷ ms) (x ∷ xs) ys h = rw (agrees-append ms xs ys (omega arith)) refl

-- A beginning of something that agrees agrees.
pub agrees-prefix : (ms xs ys : List ℕ) → agrees ms (xs ++ ys) ≡ true → agrees ms xs ≡ true
unfolding agrees
agrees-prefix [] xs ys h = refl
agrees-prefix (m ∷ ms) [] ys h = refl
agrees-prefix (m ∷ ms) (x ∷ xs) ys h = ground (arith, h, agrees-prefix ms xs ys)

pub agrees-longer :
    (xs ys : List ℕ) → 4 ≤ length xs → agrees magic xs ≡ true → agrees magic (xs ++ ys) ≡ true
agrees-longer xs ys h e = agrees-append magic xs ys h ∙ e

pub resync_id : (xs : List ℕ) → agrees magic xs ≡ true → resync xs ≡ xs
unfolding resync
resync_id [] e = refl
resync_id (x ∷ xs) e = rw e refl

pub agrees-resync : (xs : List ℕ) → agrees magic (resync xs) ≡ true
unfolding resync
agrees-resync [] = unfold agrees in refl
agrees-resync (x ∷ xs) = elim (Bool-cases (agrees magic (x ∷ xs))) [
  | inl e ↦ rw (e, e) refl
  | inr e ↦ rw e (agrees-resync xs)
]

pub length-resync : (xs : List ℕ) → length (resync xs) ≤ length xs
unfolding resync
length-resync [] = omega arith
length-resync (x ∷ xs) = ground (arith, length-resync xs)

-- What the loop leaves is the longest end of the buffer that a frame could begin with: it is the
-- buffer without its first `k` bytes, it agrees with the magic as far as it goes, and no longer end
-- does.
pub resync_longest :
    (xs : List ℕ)
    → (k : ℕ) × (resync xs ≡ drop k xs)
      × (agrees magic (drop k xs) ≡ true)
      × ((j : ℕ) → j < k → agrees magic (drop j xs) ≡ false)
unfolding resync
resync_longest [] = (0, refl, (unfold agrees in refl), λ j h. absurd (omega arith))
resync_longest (x ∷ xs) = elim (Bool-cases (agrees magic (x ∷ xs))) [
  | inl e ↦ (0, rw e refl, e, λ j h. absurd (omega arith))
  | inr e ↦ (let (k, p, q, r) = resync_longest xs in (suc k, rw e p, q, λ j h. later k r e j h))
]
  where
    later :
        (k : ℕ)
        → ((j : ℕ) → j < k → agrees magic (drop j xs) ≡ false)
        → agrees magic (x ∷ xs) ≡ false
        → (j : ℕ) → j < suc k
        → agrees magic (drop j (x ∷ xs)) ≡ false
    later k r e zero h = e
    later k r e (suc j) h = r j (omega arith)
