-- ===== src/Kline/Timing.antt =====
-- The baud rate measured from the synchronisation byte.
use opendiag_firmware.Base.{
  All, List, [], ap, arith, dec_lt, get_or, length, refl, sub32, suc, u32, zero, ℕ, ◌+◌, ◌-◌, ◌/◌,
  ◌<◌, ◌∷◌, ◌≡◌, ◌≤◌,
}
use opendiag_firmware.Kline.{all_even, kline_sync_baud_from_edges, kline_sync_edge_count}

-- The clock that time-stamps the edges may stand anywhere, and may wrap between them.
abbrev pub shifted : ℕ → List ℕ → List ℕ
shifted c [] = []
shifted c (t ∷ ts) = u32 (t + c) ∷ shifted c ts

length-shifted : (c : ℕ) (ts : List ℕ) → length (shifted c ts) ≡ length ts
length-shifted c [] = refl
length-shifted c (t ∷ ts) = ap suc (length-shifted c ts)

get_or-shifted :
    (c i : ℕ) (ts : List ℕ) → i < length ts → get_or (shifted c ts) i 0 ≡ u32 (get_or ts i 0 + c)
get_or-shifted c i [] h = absurd (omega arith)
get_or-shifted c zero (t ∷ ts) h = refl
get_or-shifted c (suc i) (t ∷ ts) h = get_or-shifted c i ts (omega arith)

abbrev pub Times : List ℕ → Type 0
Times ts = All (λ t. t < 4294967296) ts

Times-get_or : (ts : List ℕ) (i : ℕ) → Times ts → get_or ts i 0 < 4294967296
Times-get_or [] i h = omega arith
Times-get_or (t ∷ ts) zero h = h.0
Times-get_or (t ∷ ts) (suc i) h = Times-get_or ts i h.1

sub32-shifted :
    (c i j : ℕ) (ts : List ℕ)
    → Times ts
    → i < length ts
    → j < length ts
    → sub32 (get_or (shifted c ts) i 0) (get_or (shifted c ts) j 0)
      ≡ sub32 (get_or ts i 0) (get_or ts j 0)
sub32-shifted c i j ts w h k = omega (
  arith,
  get_or-shifted c i ts h,
  get_or-shifted c j ts k,
  Times-get_or ts i w,
  Times-get_or ts j w,
)

all_even-shifted :
    (c mean n i : ℕ) (ts : List ℕ)
    → Times ts
    → 0 < i
    → i + n ≤ length ts
    → all_even (shifted c ts) mean n i ≡ all_even ts mean n i
unfolding all_even
all_even-shifted c mean zero i ts w p h = refl
all_even-shifted c mean (suc n) i ts w p h =
    rw
      (
        sub32-shifted c i (i - 1) ts w (omega arith) (omega arith),
        all_even-shifted c mean n (i + 1) ts w (omega arith) (omega arith),
      )
      refl

-- The measured baud rate does not depend on where the 32-bit microsecond clock stands: moving all
-- edges by the same time, across a wrap of the clock or not, gives the same result.
pub kline_sync_baud_shift :
    (c : ℕ) (edges : List ℕ)
    → Times edges
    → kline_sync_baud_from_edges (shifted c edges) ≡ kline_sync_baud_from_edges edges
unfolding kline_sync_baud_from_edges
kline_sync_baud_shift c edges w = elim (dec_lt (length edges) kline_sync_edge_count) [
  | yes h ↦ ground (arith, length-shifted c edges)
  | no h ↦
      rw
        (
          length-shifted c edges,
          sub32-shifted c 9 0 edges w (omega arith) (omega arith),
          all_even-shifted c (u32 (sub32 (get_or edges 9 0) (get_or edges 0 0) + 4) / 9) 9 1 edges w
              (omega arith) (omega arith),
        )
        refl
]
