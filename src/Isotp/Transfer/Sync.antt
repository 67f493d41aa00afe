-- ===== src/Isotp/Transfer/Sync.antt =====
-- The relation between a sender and a receiver in the middle of a message, and that a round keeps
-- it or delivers the message.
use opendiag_firmware.Base.{List, arith, false, length, true, u32, ℕ, ◌+◌, ◌<◌, ◌≡◌, ◌≤◌, ◌⊎◌}
use opendiag_firmware.Isotp.Config.{expired, int32_max, isotp_stmin_us}
use opendiag_firmware.Isotp.Receiver.Invariant.{Fits}
use opendiag_firmware.Isotp.Receiver.Stored.{HasPrefix}
use opendiag_firmware.Isotp.Sender.{is_reserved_stmin}
use opendiag_firmware.Isotp.Sender.Frames.{IsPeer}
use opendiag_firmware.Isotp.Transfer.{Link}
use opendiag_firmware.Isotp.Types.{IsotpConfig, IsotpRx, IsotpTx, rx_cf, rx_fc_ready, tx_cf, tx_fc}

-- The two configurations describe one connection, and the receiver's timer outlasts the
-- separation that it asks for; both are valid where that matters.
pub record IsConnection (ct cr : IsotpConfig) : Type 0 where
  pub forth : IsPeer ct cr
  pub back : IsPeer cr ct
  pub block_byte : cr.block_size < 256
  pub stmin_defined : is_reserved_stmin cr.stmin ≡ false
  pub tx_a : (0 < ct.timeout_a_us) × (ct.timeout_a_us ≤ int32_max)
  pub tx_bs : (0 < ct.timeout_bs_us) × (ct.timeout_bs_us ≤ int32_max)
  pub rx_a : (0 < cr.timeout_a_us) × (cr.timeout_a_us ≤ int32_max)
  pub rx_cr : (isotp_stmin_us cr.stmin < cr.timeout_cr_us) × (cr.timeout_cr_us ≤ int32_max)

module _ (payload : List ℕ) where
  -- What both ends agree on once a part of the message is over.
  pub record IsShared (tx : IsotpTx) (rx : IsotpRx) : Type 0 where
    pub conn : IsConnection tx.config rx.config
    pub buffer : tx.buffer ≡ payload
    pub tx_total : tx.total ≡ length payload
    pub rx_total : rx.total ≡ length payload
    pub small : length payload ≤ 4095
    pub offset : rx.offset ≡ tx.offset
    pub begun : 0 < tx.offset
    pub more : tx.offset < length payload
    pub sequence : rx.sequence ≡ tx.sequence
    pub digit : tx.sequence < 16
    pub fits : Fits rx.buffer rx.capacity
    pub room : length payload ≤ rx.capacity
    pub stored : HasPrefix rx.buffer rx.offset payload
    pub going : rx.flow_status ≡ 0
    pub defined : tx.reserved_stmin ≡ false

  -- Both wait for the next consecutive frame, which is due.
  pub record InSync (l : Link) : Type 0 where
    pub shared : IsShared l.tx l.rx
    pub word : l.now < 4294967296
    pub tx_state : l.tx.state ≡ tx_cf
    pub rx_state : l.rx.state ≡ rx_cf
    pub next : l.tx.next_us ≡ l.now
    pub alive : expired l.now l.rx.deadline_us ≡ false
    pub block_size : l.tx.block_size ≡ l.rx.config.block_size
    pub block :
        (l.tx.block_size ≡ 0)
        ⊎ (l.rx.block_count ≡ l.tx.block_count) × (l.tx.block_count < l.tx.block_size)
    pub separation : l.tx.separation_us ≡ isotp_stmin_us l.rx.config.stmin

  -- The sender waits for the flow control that the receiver is about to send.
  pub record IsHandover (tx : IsotpTx) (rx : IsotpRx) (now : ℕ) : Type 0 where
    pub shared : IsShared tx rx
    pub word : now < 4294967296
    pub tx_state : tx.state ≡ tx_fc
    pub rx_state : rx.state ≡ rx_fc_ready
    pub tx_deadline : tx.deadline_us ≡ u32 (now + tx.config.timeout_bs_us)
    pub rx_deadline : rx.deadline_us ≡ u32 (now + rx.config.timeout_a_us)
    pub counted : rx.block_count ≡ 0
    pub last : (tx.sent_cf ≡ false) ⊎ (tx.last_cf_us ≡ now)

pub stmin_bound : (v : ℕ) → isotp_stmin_us v ≤ 127000
unfolding isotp_stmin_us
stmin_bound v = ground arith

-- A timer that is set to a delay of at most INT32_MAX has not run out at once, nor before the
-- delay is over.
pub not-expired :
    (now wait delay : ℕ)
    → now < 4294967296
    → wait < delay
    → delay ≤ int32_max
    → expired (u32 (now + wait)) (u32 (now + delay)) ≡ false
unfolding expired
not-expired now wait delay w h k = ground arith

pub not-expired_now :
    (now delay : ℕ)
    → now < 4294967296
    → 0 < delay
    → delay ≤ int32_max
    → expired now (u32 (now + delay)) ≡ false
unfolding expired
not-expired_now now delay w h k = ground arith

pub expired_self : (now : ℕ) → now < 4294967296 → expired now now ≡ true
unfolding expired
expired_self now w = ground arith
