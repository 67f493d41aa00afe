-- ===== src/Isotp/Transfer/Delivery.antt =====
-- Every message goes through: rounds from two ends in step end in a delivery.
use opendiag_firmware.Base.{
  List, ap, arith, dec_lt, length, refl, some, subst, suc, zero, ℕ, ◌+◌, ◌∙◌, ◌≡◌, ◌≤◌,
}
use opendiag_firmware.Isotp.Receiver.Stored.{HasPrefix}
use opendiag_firmware.Isotp.Transfer.{Link, rounds, running}
use opendiag_firmware.Isotp.Transfer.Advance.{round_advances}
use opendiag_firmware.Isotp.Transfer.Rounds.{
  cf_copied, cf_copied-HasPrefix, cf_sent, cf_step, round_last, step_bounds,
}
use opendiag_firmware.Isotp.Transfer.Sync.{InSync}
use opendiag_firmware.Isotp.Types.{rx_idle, tx_idle}

-- The receiver's buffer holds the message, and both ends are idle again.
pub record IsDelivered (payload : List ℕ) (l : Link) : Type 0 where
  pub sender_idle : l.tx.state ≡ tx_idle
  pub receiver_idle : l.rx.state ≡ rx_idle
  pub complete : l.rx.offset ≡ length payload
  pub holds : HasPrefix l.rx.buffer (length payload) payload

-- Enough rounds deliver what two ends in step have begun.
pub rounds_deliver :
    {payload : List ℕ} (n : ℕ) (l : Link)
    → InSync payload l
    → length payload ≤ l.tx.offset + n
    → (l' : Link) × (rounds n (running l) ≡ some l') × IsDelivered payload l'
unfolding rounds
rounds_deliver zero l h k = absurd (omega (arith, h.shared.more))
rounds_deliver {payload} (suc n) l h k =
    elim (dec_lt (l.tx.offset + cf_step l h) (length payload)) [
      | yes more ↦
          (let (l', p, h', e) = round_advances l h more in
            let (m, q, d) = rounds_deliver n l' h' (omega (arith, e, (step_bounds l h).0)) in
            (m, ap (rounds n) p ∙ q, d))
      | no last ↦
          (let e : l.tx.offset + cf_step l h ≡ length payload =
              omega (arith, (step_bounds l h).1) in
            (
              record {
                tx = record (cf_sent l h) { state = tx_idle };
                rx = record (cf_copied l h) { state = rx_idle };
                now = l.now;
              },
              ap (rounds n) (round_last l h e),
              record {
                sender_idle = refl;
                receiver_idle = refl;
                complete = omega (arith, e, h.shared.offset);
                holds =
                    subst (λ k. HasPrefix (cf_copied l h).buffer k payload)
                      (let f : (cf_copied l h).offset ≡ length payload =
                          omega (arith, e, h.shared.offset) in
                        f)
                      (cf_copied-HasPrefix l h);
              },
            ))
    ]
