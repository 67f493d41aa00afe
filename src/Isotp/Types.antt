-- ===== src/Isotp/Types.antt =====
-- The structures of main/isotp.h and main/can_frame.h. A pointer that the code borrows is the list
-- of the bytes behind it. Structure pointers are not null: a model function takes the structure.
use opendiag_firmware.Base.{Bool, List, Option, ℕ}

-- `struct can_frame`: the identifier with its flags in the top bits, the length, eight bytes.
pub record CanFrame : Type 0 where
  pub id : ℕ
  pub dlc : ℕ
  pub bytes : List ℕ

-- `isotp_result_t`. The functions return a plain 0 where nothing failed, and ISOTP_IGNORED is 0
-- too: both are `ignored`.
pub data IsotpResult : Type 0 where
  ignored frame complete : IsotpResult
  err_argument err_busy err_sequence err_overflow : IsotpResult
  err_timeout_a err_timeout_bs err_timeout_cr : IsotpResult
  err_flow_status err_wait_limit err_send : IsotpResult

-- `isotp_config_t`.
pub record IsotpConfig : Type 0 where
  pub tx_id : ℕ
  pub rx_id : ℕ
  pub rx_mask : ℕ
  pub extended_address : Bool
  pub tx_address : ℕ
  pub rx_address : ℕ
  pub functional : Bool
  pub pad : Bool
  pub pad_value : ℕ
  pub block_size : ℕ
  pub stmin : ℕ
  pub wait_limit : ℕ
  pub timeout_a_us : ℕ
  pub timeout_bs_us : ℕ
  pub timeout_cr_us : ℕ

-- `isotp_segment_t`.
pub record IsotpSegment : Type 0 where
  pub bytes : List ℕ
  pub len : ℕ
  pub offset : ℕ
  pub total : ℕ
  pub started : Bool
  pub complete : Bool
  pub replaced : Bool
  pub padding_error : Bool

-- `isotp_rx_state_t`.
pub data RxState : Type 0 where
  rx_idle rx_fc_ready rx_fc_confirm rx_cf : RxState

-- `isotp_rx_t`. `buffer` is `none` where the pointer is null, which selects streaming.
pub record IsotpRx : Type 0 where
  pub config : IsotpConfig
  pub buffer : Option (List ℕ)
  pub capacity : ℕ
  pub state : RxState
  pub deadline_us : ℕ
  pub total : ℕ
  pub offset : ℕ
  pub sequence : ℕ
  pub block_count : ℕ
  pub flow_status : ℕ
  pub padding_error : Bool

-- `isotp_tx_state_t`.
pub data TxState : Type 0 where
  tx_idle tx_ready tx_confirm tx_fc tx_cf : TxState

-- `isotp_tx_t`.
pub record IsotpTx : Type 0 where
  pub config : IsotpConfig
  pub buffer : List ℕ
  pub state : TxState
  pub deadline_us : ℕ
  pub next_us : ℕ
  pub last_cf_us : ℕ
  pub separation_us : ℕ
  pub total : ℕ
  pub offset : ℕ
  pub wait_count : ℕ
  pub sequence : ℕ
  pub block_size : ℕ
  pub block_count : ℕ
  pub sent_cf : Bool
  pub pending_cf : Bool
  pub reserved_stmin : Bool
  pub padding_error : Bool
