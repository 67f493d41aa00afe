-- ===== src/Transmit/Epoch/Loss.antt =====
-- The latest loss is the one that is kept, whoever else records one at the same time.
use opendiag_firmware.Base.{
  Bool-cases, List, [], above_test, ap, arith, false, inl, inr, refl, sub32, ℕ, ◌<◌, ◌==◌, ◌∙◌, ◌∷◌,
  ◌≡◌,
}
use opendiag_firmware.Transmit.Epoch.{Epoch, bus_rx_lost, is_later, lost_loop}

not_later_self :
    (sequence : ℕ) → 0 < sequence → sequence < 4294967296 → is_later sequence sequence ≡ false
not_later_self sequence p h =
    let same : sub32 sequence sequence ≡ 0 = omega arith in rw (above_test sequence 0 p, same) refl

lost_loop-latest :
    (epoch : Epoch) (sequence previous : ℕ) (others : List ℕ)
    → 0 < sequence
    → sequence < 4294967296
    → epoch.lost_sequence ≡ previous
    → is_later sequence (lost_loop epoch sequence previous others).lost_sequence ≡ false
unfolding lost_loop
lost_loop-latest epoch sequence previous [] p h e = elim (Bool-cases (is_later sequence previous)) [
  | inl f ↦ rw f (not_later_self sequence p h)
  | inr f ↦ rw f (ap (is_later sequence) e ∙ f)
]
lost_loop-latest epoch sequence previous (other ∷ others) p h e =
    elim (Bool-cases (is_later sequence previous)) [
      | inl f ↦ elim (Bool-cases (other == previous)) [
        | inl g ↦ rw (f, g) (not_later_self sequence p h)
        | inr g ↦
            rw (f, g)
              (lost_loop-latest (record epoch { lost_sequence = other }) sequence other others p h
                refl)
      ]
      | inr f ↦ rw f (ap (is_later sequence) e ∙ f)
    ]

-- After `bus_rx_lost` has returned, whatever other contexts store between its accesses, the loss that is
-- recorded is not earlier than the one it was called for, a 32-bit number that is not 0.
pub bus_rx_lost-latest :
    (epoch : Epoch) (sequence : ℕ) (others : List ℕ)
    → 0 < sequence
    → sequence < 4294967296
    → is_later sequence (bus_rx_lost epoch sequence others).lost_sequence ≡ false
unfolding bus_rx_lost
bus_rx_lost-latest epoch sequence others p h =
    lost_loop-latest epoch sequence epoch.lost_sequence others p h refl
