-- ===== src/Isotp/Transfer/Start.antt =====
-- How a message starts: two idle ends, and the first frame handed out.
use opendiag_firmware.Base.{
  List, arith, false, length, none, some, u32, ℕ, ◌+◌, ◌-◌, ◌<◌, ◌≡◌, ◌≢◌, ◌≤◌, ◌⊎◌,
}
use opendiag_firmware.Isotp.Config.{address_len, expired}
use opendiag_firmware.Isotp.Receiver.Invariant.{Fits}
use opendiag_firmware.Isotp.Sender.{
  after_chunk, chunk_frame, isotp_tx_check_timeout, isotp_tx_next, isotp_tx_start, next_chunk,
}
use opendiag_firmware.Isotp.Transfer.{Link}
use opendiag_firmware.Isotp.Transfer.Sync.{IsConnection, not-expired_now}
use opendiag_firmware.Isotp.Types.{IsotpTx, frame, ignored, rx_idle, tx_idle, tx_ready}

-- Two idle ends, and a message that both may carry.
pub record IsReady (payload : List ℕ) (l : Link) : Type 0 where
  pub conn : IsConnection l.tx.config l.rx.config
  pub word : l.now < 4294967296
  pub tx_state : l.tx.state ≡ tx_idle
  pub rx_state : l.rx.state ≡ rx_idle
  pub some_bytes : 0 < length payload
  pub small : length payload ≤ 4095
  pub allowed :
      (l.tx.config.functional ≡ false) × (l.rx.config.functional ≡ false)
      ⊎ (length payload ≤ 7 - address_len l.tx.config)
  pub buffered : l.rx.buffer ≢ none
  pub fits : Fits l.rx.buffer l.rx.capacity
  pub room : length payload ≤ l.rx.capacity

module _ {payload : List ℕ} (l : Link) (h : IsReady payload l) where
  abbrev pub started : IsotpTx
  started = record l.tx {
    buffer = payload;
    total = length payload;
    offset = 0;
    sequence = 1;
    wait_count = 0;
    block_count = 0;
    sent_cf = false;
    reserved_stmin = false;
    padding_error = false;
    state = tx_ready;
    deadline_us = u32 (l.now + l.tx.config.timeout_a_us);
  }

  pub start_lem : isotp_tx_start l.tx payload (length payload) l.now ≡ (ignored, started)
  unfolding isotp_tx_start
  start_lem = ground (arith, h.allowed, h.small, h.some_bytes)

  -- The sender hands out its next chunk, and the confirmation comes back.
  pub sends_first : isotp_tx_next started l.now ≡ (
    frame,
    after_chunk started (next_chunk started) l.now,
    some (chunk_frame started (next_chunk started)),
  )
  unfolding isotp_tx_next isotp_tx_check_timeout
  sends_first = ground (arith, not-expired_now l.now l.tx.config.timeout_a_us h.word, h.conn.tx_a)

  pub same_address : address_len l.tx.config ≡ address_len l.rx.config
  same_address = rw h.conn.forth.same

  pub alive : expired l.now (u32 (l.now + l.tx.config.timeout_a_us)) ≡ false
  alive = not-expired_now l.now l.tx.config.timeout_a_us h.word h.conn.tx_a.0 h.conn.tx_a.1
