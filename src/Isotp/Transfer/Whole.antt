-- ===== src/Isotp/Transfer/Whole.antt =====
-- Whole messages: from two idle ends to the delivery.
use opendiag_firmware.Base.{List, ap, arith, dec_lt, length, some, ℕ, ◌-◌, ◌∙◌, ◌≡◌}
use opendiag_firmware.Isotp.Config.{address_len}
use opendiag_firmware.Isotp.Transfer.{Link, rounds, transfer}
use opendiag_firmware.Isotp.Transfer.Delivery.{IsDelivered, rounds_deliver}
use opendiag_firmware.Isotp.Transfer.First.{first-IsHandover, first_end, first_wait, round_first}
use opendiag_firmware.Isotp.Transfer.Handover.{resumed-InSync, resumed_link}
use opendiag_firmware.Isotp.Transfer.Single.{deliver_single}
use opendiag_firmware.Isotp.Transfer.Start.{IsReady, start_lem}

-- Between two idle ends whose configurations describe one connection, on a bus that takes no time and
-- loses nothing, with calls made as soon as they are due, from a 32-bit time of the clock on: a transfer of
-- 1 to 4095 bytes that the receiver's buffer can hold always completes, within its length plus one rounds.
-- The buffer then begins with exactly the message, its length is the receiver's offset, and both ends are
-- idle again. Either neither end is functional or the message fits a single frame. Of the connection it is
-- asked that each end accepts the other's identifier and address, both use extended addressing or neither,
-- the identifiers are valid, the receiver's block size is a byte, its STmin is not a reserved one and
-- asks for less than its timeout_cr_us, and all timeouts that are used are from 1 to INT32_MAX.
pub transfer_delivers :
    {payload : List ℕ} (l : Link)
    → IsReady payload l
    → (l' : Link) × (transfer l payload ≡ some l') × IsDelivered payload l'
unfolding transfer rounds
transfer_delivers {payload} l h = elim (dec_lt (7 - address_len l.tx.config) (length payload)) [
  | yes long ↦
      (let l₁ = resumed_link (first_wait l h long) (first_end l h long) l.now in
        let handover = first-IsHandover l h long in
        let (l', q, d) =
          rounds_deliver (length payload) l₁
            (resumed-InSync (first_wait l h long) (first_end l h long) l.now handover)
            (omega arith) in
        (
          l',
          rw (start_lem l h, transfer) (ap (rounds (length payload)) (round_first l h long) ∙ q),
          d,
        ))
  | no short ↦
      (let (l', p, d) = deliver_single l h (omega arith) in
        (l', rw (start_lem l h, transfer) (ap (rounds (length payload)) p), d))
]
