-- ===== src/Isotp/Config.antt =====
-- main/isotp.c: the configuration, and the helpers that both directions use.
use opendiag_firmware.Base.{
  Bool, at_or_after, bit_and, bit_or, bit_xor, false, get_or, if◌then◌else◌, leb, ltb, not,
  replicate, set, true, ℕ, ◌&&◌, ◌*◌, ◌-◌, ◌==◌, ◌||◌,
}
use opendiag_firmware.Isotp.Types.{
  CanFrame, IsotpConfig, IsotpResult, RxState, TxState, complete, frame, ignored, rx_cf,
  rx_fc_confirm, rx_fc_ready, rx_idle, tx_cf, tx_confirm, tx_fc, tx_idle, tx_ready,
}

-- `CAN_EFF_FLAG`, `CAN_EFF_MASK` and `CAN_SFF_MASK`.
abbrev pub can_eff_flag : ℕ
can_eff_flag = 0x80000000

abbrev pub can_eff_mask : ℕ
can_eff_mask = 0x1FFFFFFF

abbrev pub can_sff_mask : ℕ
can_sff_mask = 0x7FF

abbrev pub isotp_max_payload : ℕ
isotp_max_payload = 4095

-- `INT32_MAX`.
abbrev pub int32_max : ℕ
int32_max = 2147483647

-- `expired`: the signed difference `now - deadline` is not negative.
unfoldable pub expired : ℕ → ℕ → Bool
expired now deadline = at_or_after now deadline

unfoldable pub valid_id : ℕ → Bool
valid_id id =
    let mask = if bit_and id can_eff_flag == 0 then can_sff_mask else can_eff_mask in
    bit_and id (0xFFFFFFFF - bit_or mask can_eff_flag) == 0

valid_timeout : ℕ → Bool
valid_timeout t = not (t == 0) && leb t int32_max

unfoldable pub valid_config : IsotpConfig → Bool
unfolding valid_timeout
valid_config c =
    valid_id c.tx_id
    && (valid_id c.rx_id
        && ((leb c.stmin 0x7f || (leb 0xf1 c.stmin && leb c.stmin 0xf9))
            && (valid_timeout c.timeout_a_us
                && (valid_timeout c.timeout_bs_us && valid_timeout c.timeout_cr_us))))

-- `unsigned a = config.extended_address`: the address bytes before the protocol's first byte.
abbrev pub address_len : IsotpConfig → ℕ
address_len c = if c.extended_address then 1 else 0

-- The byte at an index of the frame's eight.
abbrev pub byte_at : CanFrame → ℕ → ℕ
byte_at f i = get_or f.bytes i 0

-- `matches`: is the frame well formed and addressed to this endpoint?
unfoldable pub matches : IsotpConfig → CanFrame → Bool
matches c f =
    valid_id f.id
    && (leb f.dlc 8
        && (ltb (address_len c) f.dlc
            && (bit_and (bit_xor f.id c.rx_id) (bit_or c.rx_mask can_eff_flag) == 0
                && (not c.extended_address || byte_at f 0 == c.rx_address))))

-- `prepare`: an outgoing frame with its identifier, padding and address byte. The index that the
-- function returns is `address_len`.
unfoldable pub prepare : IsotpConfig → CanFrame
prepare c =
    let padding = replicate 8 c.pad_value in
    record {
      id = c.tx_id;
      dlc = 0;
      bytes = if c.extended_address then set padding 0 c.tx_address else padding;
    }

unfoldable pub isotp_config_default : ℕ → ℕ → IsotpConfig
isotp_config_default tx_id rx_id = record {
  tx_id = tx_id;
  rx_id = rx_id;
  rx_mask = 0xFFFFFFFF;
  extended_address = false;
  tx_address = 0;
  rx_address = 0;
  functional = false;
  pad = true;
  pad_value = 0;
  block_size = 0;
  stmin = 0;
  wait_limit = 255;
  timeout_a_us = 1000000;
  timeout_bs_us = 1000000;
  timeout_cr_us = 1000000;
}

unfoldable pub isotp_stmin_us : ℕ → ℕ
isotp_stmin_us value =
    if leb value 0x7f
    then value * 1000
    else if leb 0xf1 value && leb value 0xf9
    then (value - 0xf0) * 100
    else 127000

-- `rc < 0`.
abbrev pub is_error : IsotpResult → Bool
is_error ignored = false
is_error frame = false
is_error complete = false
is_error _ = true

abbrev pub is_rx_idle : RxState → Bool
is_rx_idle rx_idle = true
is_rx_idle _ = false

abbrev pub is_rx_cf : RxState → Bool
is_rx_cf rx_cf = true
is_rx_cf _ = false

abbrev pub is_rx_fc_ready : RxState → Bool
is_rx_fc_ready rx_fc_ready = true
is_rx_fc_ready _ = false

abbrev pub is_rx_fc_confirm : RxState → Bool
is_rx_fc_confirm rx_fc_confirm = true
is_rx_fc_confirm _ = false

abbrev pub is_tx_idle : TxState → Bool
is_tx_idle tx_idle = true
is_tx_idle _ = false

abbrev pub is_tx_cf : TxState → Bool
is_tx_cf tx_cf = true
is_tx_cf _ = false

abbrev pub is_tx_fc : TxState → Bool
is_tx_fc tx_fc = true
is_tx_fc _ = false

abbrev pub is_tx_ready : TxState → Bool
is_tx_ready tx_ready = true
is_tx_ready _ = false

abbrev pub is_tx_confirm : TxState → Bool
is_tx_confirm tx_confirm = true
is_tx_confirm _ = false
