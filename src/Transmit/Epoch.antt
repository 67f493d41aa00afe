-- ===== src/Transmit/Epoch.antt =====
-- main/bus_tx.c: the numbers of received messages, and the latest one that was lost.
pub mod Loss
use opendiag_firmware.Base.{
  Bool, List, Option, [], if◌then◌else◌, ltb, none, some, sub32, ℕ, ◌%◌, ◌&&◌, ◌+◌, ◌==◌, ◌||◌, ◌∷◌,
}

-- `bus_rx_epoch_t`.
pub record Epoch : Type 0 where
  pub sequence : ℕ
  pub lost_sequence : ℕ

-- `bus_rx_next`: 0 is skipped.
unfoldable pub bus_rx_next : Epoch → Epoch × ℕ
bus_rx_next epoch =
    let next = (epoch.sequence + 1) % 4294967296 in
    let after = (next + 1) % 4294967296 in
    if next == 0
    then (record epoch { sequence = after }, after)
    else (record epoch { sequence = next }, next)

-- `(int32_t)(sequence - previous) > 0`, or nothing is lost yet.
abbrev pub is_later : ℕ → ℕ → Bool
is_later sequence previous =
    let ahead = sub32 sequence previous in previous == 0 || ltb 0 ahead && ltb ahead 2147483648

-- The loop of `bus_rx_lost` with the value that it has loaded. The list has, for each turn, what another
-- context stores before the exchange; the exchange fails where that is not the value loaded.
unfoldable pub lost_loop : Epoch → ℕ → ℕ → List ℕ → Epoch
lost_loop epoch sequence previous [] =
    if is_later sequence previous then record epoch { lost_sequence = sequence } else epoch
lost_loop epoch sequence previous (other ∷ others) =
    let again = lost_loop (record epoch { lost_sequence = other }) sequence other others in
    let stored = record epoch { lost_sequence = sequence } in
    if is_later sequence previous then if other == previous then stored else again else epoch

unfoldable pub bus_rx_lost : Epoch → ℕ → List ℕ → Epoch
unfolding lost_loop
bus_rx_lost epoch sequence others = lost_loop epoch sequence epoch.lost_sequence others

-- `bus_rx_take_loss`: the number that the overflow message gets.
unfoldable pub bus_rx_take_loss : Epoch → Epoch × Option ℕ
bus_rx_take_loss epoch =
    let lost = epoch.lost_sequence in
    if lost == 0 then (epoch, none) else (record epoch { lost_sequence = 0 }, some lost)
