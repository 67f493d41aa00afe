-- ===== src/Kline/Rate.antt =====
-- The baud rate measured from the synchronisation byte, against the rate that the edges were sent at.
use opendiag_firmware.Base.{
  Bool, List, [], ap, ap₂, arith, get_or, leb, length, refl, sub32, subst, suc, true, u32, zero, ℕ,
  ◌&&◌, ◌*◌, ◌+◌, ◌-◌, ◌/◌, ◌<◌, ◌∷◌, ◌≡◌, ◌≤◌, ◌∙◌,
}
use opendiag_firmware.Kline.{all_even, is_even, kline_sync_baud_from_edges, max_baud, min_baud}

-- The time-stamps of `n` edges from edge `i` on, `offset i` after the start at `t`.
abbrev pub edges_at : ℕ → (ℕ → ℕ) → ℕ → ℕ → List ℕ
edges_at t offset zero i = []
edges_at t offset (suc n) i = u32 (t + offset i) ∷ edges_at t offset n (i + 1)

-- The clock measures the interval, across its wrap too.
sub32_interval : (t a b : ℕ) → a ≤ b → b < 4294967296 → sub32 (u32 (t + b)) (u32 (t + a)) ≡ b - a
sub32_interval t a b h k = omega arith

-- The rate of a bit time, rounded, is in range and within half a bit time of a second.
abbrev rate_of : ℕ → ℕ
rate_of p = (9000000 + 9 * p / 2) / (9 * p)

abbrev is_near : ℕ → Bool
is_near p =
    let b = rate_of p in
    leb min_baud b
    && (leb b max_baud && (leb 2000000 (2 * b * p + p) && leb (2 * b * p) (2000000 + p)))

-- An edge is at most a tenth of a bit time off its place.
abbrev pub Near : ℕ → (ℕ → ℕ) → ℕ → Type 0
Near p offset i = (10 * (i * p) ≤ 10 * offset i + p) × (10 * offset i ≤ 10 * (i * p) + p)

all_below : ℕ → (ℕ → Bool) → Bool
all_below zero test = true
all_below (suc n) test = test n && all_below n test

all_below_sound :
    (n : ℕ) (test : ℕ → Bool) (x : ℕ) → all_below n test ≡ true → x < n → test x ≡ true
unfolding all_below
all_below_sound zero test x h l = absurd (omega arith)
all_below_sound (suc n) test x h l = ground (arith, all_below_sound n test x)

rates_near : all_below 796 (λ i. is_near (91 + i)) ≡ true
unfolding all_below
rates_near = refl

near_bounds :
    (p b : ℕ)
    → (leb min_baud b
        && (leb b max_baud && (leb 2000000 (2 * b * p + p) && leb (2 * b * p) (2000000 + p))))
      ≡ true
    → (min_baud ≤ b) × (b ≤ max_baud) × (2000000 ≤ 2 * b * p + p) × (2 * b * p ≤ 2000000 + p)
near_bounds p b h = ground arith

-- The rate of each bit time from 91 to 886 microseconds.
rate_bounds :
    (p : ℕ)
    → 91 ≤ p
    → p ≤ 886
    → (min_baud ≤ rate_of p)
      × (rate_of p ≤ max_baud)
      × (2000000 ≤ 2 * rate_of p * p + p)
      × (2 * rate_of p * p ≤ 2000000 + p)
rate_bounds p l u =
    let i = p - 91 in
    let e : 91 + i ≡ p = omega arith in
    let h : is_near p ≡ true =
      subst (λ q. is_near q ≡ true) e
        (all_below_sound 796 (λ i. is_near (91 + i)) i rates_near (omega arith)) in
    near_bounds p (rate_of p) h

-- An interval between two edges that are near their places is even.
near_even :
    (p t a b : ℕ)
    → p ≤ 886
    → 8 * p ≤ 10 * (b - a)
    → 10 * (b - a) ≤ 12 * p
    → a ≤ b
    → b < 4294967296
    → is_even p (sub32 (u32 (t + b)) (u32 (t + a))) ≡ true
near_even p t a b u x y h k = rw (sub32_interval t a b h k) (ground arith)

get_or-edges_at :
    (t : ℕ) (offset : ℕ → ℕ) (n i j : ℕ)
    → j < n
    → get_or (edges_at t offset n i) j 0 ≡ u32 (t + offset (i + j))
get_or-edges_at t offset zero i j h = absurd (omega arith)
get_or-edges_at t offset (suc n) i zero h = ap (λ k. u32 (t + offset k)) (omega arith)
get_or-edges_at t offset (suc n) i (suc j) h =
    get_or-edges_at t offset n (i + 1) j (omega arith) ∙ ap (λ k. u32 (t + offset k)) (omega arith)

length-edges_at : (t : ℕ) (offset : ℕ → ℕ) (n i : ℕ) → length (edges_at t offset n i) ≡ n
length-edges_at t offset zero i = refl
length-edges_at t offset (suc n) i = ap suc (length-edges_at t offset n (i + 1))

-- The loop over the intervals passes if each of them does.
all_even-intro :
    (edges : List ℕ) (mean n i : ℕ)
    → ((j : ℕ)
        → i ≤ j
        → j < i + n
        → is_even mean (sub32 (get_or edges j 0) (get_or edges (j - 1) 0)) ≡ true)
    → all_even edges mean n i ≡ true
unfolding all_even
all_even-intro edges mean zero i h = refl
all_even-intro edges mean (suc n) i h =
    rw
      (
        h i (omega arith) (omega arith),
        all_even-intro edges mean n (i + 1) (λ j l u. h j (omega arith) (omega arith)),
      )
      refl

next_place : (k p : ℕ) → (k + 1) * p ≡ k * p + p
next_place k p = grind arith

place_bound : (k p : ℕ) → k < 10 → p ≤ 886 → k * p ≤ 8860
place_bound k p h u = grind arith

-- The result where the loop passes.
measured :
    (edges : List ℕ) (p : ℕ)
    → 91 ≤ p
    → p ≤ 886
    → length edges ≡ 10
    → sub32 (get_or edges 9 0) (get_or edges 0 0) ≡ 9 * p
    → all_even edges p 9 1 ≡ true
    → kline_sync_baud_from_edges edges ≡ rate_of p
unfolding kline_sync_baud_from_edges
measured edges p l u size span even =
    let mean : u32 (9 * p + 4) / 9 ≡ p = omega arith in
    let r = rate_bounds p l u in rw (size, span, mean, even) (ground (arith, r))

module _ (t p : ℕ) (offset : ℕ → ℕ) (l : 91 ≤ p) (u : p ≤ 886) (first : offset 0 ≡ 0)
    (last : offset 9 ≡ 9 * p) (near : (i : ℕ) → i < 10 → Near p offset i) where
  edge_lem : (i : ℕ) → i < 10 → get_or (edges_at t offset 10 0) i 0 ≡ u32 (t + offset i)
  edge_lem i h = get_or-edges_at t offset 10 0 i h ∙ ap (λ k. u32 (t + offset k)) (omega arith)

  interval_even :
      (k : ℕ)
      → k < 9
      → is_even p
          (sub32 (get_or (edges_at t offset 10 0) (k + 1) 0) (get_or (edges_at t offset 10 0) k 0))
        ≡ true
  interval_even k h =
      let e = next_place k p in
      let b = place_bound k p (omega arith) u in
      let f = near k (omega arith) in
      let g = near (k + 1) (omega arith) in
      ap₂ (λ x y. is_even p (sub32 x y)) (edge_lem (k + 1) (omega arith)) (edge_lem k (omega arith))
      ∙ near_even p t (offset k) (offset (k + 1)) u (omega (arith, e, f, g))
          (omega (arith, e, f, g)) (omega (arith, e, f, g)) (omega (arith, e, b, g))

  intervals_even : all_even (edges_at t offset 10 0) p 9 1 ≡ true
  intervals_even = all_even-intro (edges_at t offset 10 0) p 9 1 (λ j a b.
      subst
        (λ i.
          is_even p (
            sub32 (get_or (edges_at t offset 10 0) i 0) (get_or (edges_at t offset 10 0) (j - 1) 0))
          ≡ true)
        (let e : j - 1 + 1 ≡ j = omega arith in e) (interval_even (j - 1) (omega arith)))

  span_lem :
      sub32 (get_or (edges_at t offset 10 0) 9 0) (get_or (edges_at t offset 10 0) 0 0) ≡ 9 * p
  span_lem =
      ap₂ sub32 (edge_lem 9 (omega arith)) (edge_lem 0 (omega arith))
      ∙ sub32_interval t (offset 0) (offset 9) (omega (arith, first)) (omega (arith, last))
      ∙ omega (arith, first, last)

  -- Ten edges of a sender whose bits take `p` microseconds, from 91 to 886, at any time of the 32-bit clock
  -- and across its wrap, each but the first and the last displaced by up to a tenth of a bit: the measured
  -- rate is the sender's, to the nearest whole number of bits a second, and lies in the range of the
  -- standard with its margin.
  pub kline_sync_baud_measures :
      let b = kline_sync_baud_from_edges (edges_at t offset 10 0) in
      (2000000 ≤ 2 * b * p + p) × (2 * b * p ≤ 2000000 + p) × (min_baud ≤ b) × (b ≤ max_baud)
  kline_sync_baud_measures =
      let r = rate_bounds p l u in
      rw
        (measured (edges_at t offset 10 0) p l u (length-edges_at t offset 10 0) span_lem
          intervals_even)
        (r.2, r.3, r.0, r.1)
