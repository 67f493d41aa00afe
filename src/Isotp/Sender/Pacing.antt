-- ===== src/Isotp/Sender/Pacing.antt =====
-- The separation time between consecutive frames, and the limit on wait frames.
use opendiag_firmware.Base.{arith, ltb, sub32, true, u32, ℕ, ◌+◌, ◌<◌, ◌||◌, ◌≡◌, ◌≤◌}
use opendiag_firmware.Isotp.Config.{address_len, byte_at, expired, isotp_stmin_us}
use opendiag_firmware.Isotp.Sender.{
  after_confirm, fc_continue, fc_status, fc_wait, isotp_tx_check_timeout, isotp_tx_confirm,
  isotp_tx_flow_control, isotp_tx_next,
}
use opendiag_firmware.Isotp.Types.{CanFrame, IsotpTx, frame, tx_cf, tx_confirm, tx_fc}

-- Within half the clock's range of `t₁`, a timer set `delay` after it has run out only if that
-- much time is over.
elapsed :
    (t₁ t₃ delay : ℕ)
    → t₁ < 4294967296
    → delay ≤ 127000
    → sub32 t₃ t₁ < 2147483648
    → expired t₃ (u32 (t₁ + delay)) ≡ true
    → delay ≤ sub32 t₃ t₁
unfolding expired
elapsed t₁ t₃ delay w d h e = ground arith

-- Inside a block: from the confirmation of one frame to the hand-out of the next consecutive
-- frame, at least the separation time passes, if less than half the clock's range does.
pub cf_separation :
    (tx : IsotpTx) (t₁ t₃ : ℕ)
    → t₁ < 4294967296
    → tx.separation_us ≤ 127000
    → sub32 t₃ t₁ < 2147483648
    → (isotp_tx_confirm tx true t₁).1.state ≡ tx_cf
    → tx.state ≡ tx_confirm
    → (isotp_tx_next (isotp_tx_confirm tx true t₁).1 t₃).0 ≡ frame
    → tx.separation_us ≤ sub32 t₃ t₁
unfolding isotp_tx_confirm isotp_tx_check_timeout isotp_tx_next after_confirm
cf_separation tx t₁ t₃ w d h s c n = ground (arith, elapsed t₁ t₃ tx.separation_us w d h)

stmin_small : (v : ℕ) → isotp_stmin_us v ≤ 127000
unfolding isotp_stmin_us
stmin_small v = ground arith

-- What a flow control frame makes of the sender's schedule: a separation that the sender has taken
-- for reserved is the longest there is.
fc_continue_schedule :
    (tx : IsotpTx) (size stmin t₁ t₂ t₃ : ℕ)
    → t₁ < 4294967296
    → tx.sent_cf ≡ true
    → tx.last_cf_us ≡ t₁
    → sub32 t₃ t₁ < 2147483648
    → sub32 t₂ t₁ ≤ sub32 t₃ t₁
    → let tx' = fc_continue tx size stmin t₂ in
      (tx'.state ≡ tx_cf) × (expired t₃ tx'.next_us ≡ true → isotp_stmin_us stmin ≤ sub32 t₃ t₁)
unfolding fc_continue
fc_continue_schedule tx size stmin t₁ t₂ t₃ w s l h m = ground (
  arith,
  stmin_small stmin,
  elapsed t₁ t₃ 127000 w,
  elapsed t₁ t₂ 127000 w,
  elapsed t₁ t₃ (isotp_stmin_us stmin) w,
  elapsed t₁ t₂ (isotp_stmin_us stmin) w,
)

-- Across blocks too: after the consecutive frame confirmed at `t₁`, a flow control frame taken at
-- `t₂` lets the next consecutive frame out only when the separation time that its STmin byte asks
-- for, a reserved one read as 127 ms, has passed since `t₁`, if less than half the clock's range has.
pub cf_separation_across_blocks :
    (tx : IsotpTx) (f : CanFrame) (t₁ t₂ t₃ : ℕ)
    → t₁ < 4294967296
    → tx.state ≡ tx_fc
    → tx.sent_cf ≡ true
    → tx.last_cf_us ≡ t₁
    → sub32 t₃ t₁ < 2147483648
    → sub32 t₂ t₁ ≤ sub32 t₃ t₁
    → (isotp_tx_flow_control tx f t₂).1.state ≡ tx_cf
    → (isotp_tx_next (isotp_tx_flow_control tx f t₂).1 t₃).0 ≡ frame
    → isotp_stmin_us (byte_at f (address_len tx.config + 2)) ≤ sub32 t₃ t₁
unfolding isotp_tx_flow_control isotp_tx_check_timeout fc_status fc_wait isotp_tx_next
cf_separation_across_blocks tx f t₁ t₂ t₃ w s c l h m r n =
    let a = address_len tx.config in
    let noted = record tx { padding_error = tx.padding_error || ltb f.dlc 8 } in
    ground
      (arith, fc_continue_schedule noted (byte_at f (a + 1)) (byte_at f (a + 2)) t₁ t₂ t₃ w c l h m)
