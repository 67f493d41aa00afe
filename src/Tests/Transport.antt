-- ===== src/Tests/Transport.antt =====
-- A connection with the identifiers 0x7E0 and 0x7E8, two frames a block and 5 ms between frames.
use opendiag_firmware.Base.{
  List, [], arith, false, inl, inr, length, refl, replicate, some, sub32, true, ℕ, ◌+◌, ◌<◌, ◌∷◌,
  ◌≡◌, ◌≤◌, ◌⊎◌,
}
use opendiag_firmware.Isotp.Config.{
  expired, is_error, isotp_stmin_us, matches, valid_config, valid_id,
}
use opendiag_firmware.Isotp.Receiver.{
  feed_first, feed_frame, feed_single, feed_start, isotp_rx_check_timeout, isotp_rx_feed,
  isotp_rx_init, segment_copy,
}
use opendiag_firmware.Isotp.Receiver.Bounds.{isotp_rx_feed_in_bounds}
use opendiag_firmware.Isotp.Receiver.Errors.{isotp_rx_feed_error}
use opendiag_firmware.Isotp.Receiver.Invariant.{IsFrame, IsValidRx, isotp_rx_init-IsValidRx}
use opendiag_firmware.Isotp.Receiver.Runs.{
  RxCall, check_timeout, confirm, feed, rx_calls, rx_calls-IsValidRx, take_flow_control,
}
use opendiag_firmware.Isotp.Sender.{
  after_confirm, fc_continue, fc_status, is_reserved_stmin, isotp_tx_check_timeout,
  isotp_tx_confirm, isotp_tx_flow_control, isotp_tx_init, isotp_tx_next, next_chunk,
}
use opendiag_firmware.Isotp.Sender.Frames.{IsPeer}
use opendiag_firmware.Isotp.Sender.Invariant.{IsValidTx, next_chunk_bounds}
use opendiag_firmware.Isotp.Sender.Pacing.{cf_separation, cf_separation_across_blocks}
use opendiag_firmware.Isotp.Sender.Runs.{
  TxCall, confirm_frame, give_flow_control, next_frame, start, tx_calls, tx_calls-IsValidTx,
}
use opendiag_firmware.Isotp.Transfer.{Link, transfer}
use opendiag_firmware.Isotp.Transfer.Delivery.{IsDelivered}
use opendiag_firmware.Isotp.Transfer.Start.{IsReady}
use opendiag_firmware.Isotp.Transfer.Sync.{IsConnection}
use opendiag_firmware.Isotp.Transfer.Whole.{transfer_delivers}
use opendiag_firmware.Isotp.Types.{
  CanFrame, IsotpConfig, IsotpRx, IsotpTx, complete, err_overflow, frame, rx_fc_ready, rx_idle,
  tx_cf, tx_confirm, tx_fc, tx_idle, tx_ready,
}

abbrev tester : IsotpConfig
tester = record {
  tx_id = 0x7E0;
  rx_id = 0x7E8;
  rx_mask = 0xFFFFFFFF;
  extended_address = false;
  tx_address = 0;
  rx_address = 0;
  functional = false;
  pad = true;
  pad_value = 0;
  block_size = 0;
  stmin = 0;
  wait_limit = 255;
  timeout_a_us = 1000000;
  timeout_bs_us = 1000000;
  timeout_cr_us = 1000000;
}

abbrev vehicle : IsotpConfig
vehicle = record tester { tx_id = 0x7E8; rx_id = 0x7E0; block_size = 2; stmin = 5 }

abbrev buffer_20 : List ℕ
buffer_20 = replicate 20 0

abbrev payload_12 : List ℕ
payload_12 = 1 ∷ 2 ∷ 3 ∷ 4 ∷ 5 ∷ 6 ∷ 7 ∷ 8 ∷ 9 ∷ 10 ∷ 11 ∷ 12 ∷ []

abbrev idle_rx : IsotpRx
idle_rx = record {
  config = vehicle;
  buffer = some buffer_20;
  capacity = 20;
  state = rx_idle;
  deadline_us = 0;
  total = 0;
  offset = 0;
  sequence = 0;
  block_count = 0;
  flow_status = 0;
  padding_error = false;
}

abbrev idle_tx : IsotpTx
idle_tx = record {
  config = tester;
  buffer = [];
  state = tx_idle;
  deadline_us = 0;
  next_us = 0;
  last_cf_us = 0;
  separation_us = 0;
  total = 0;
  offset = 0;
  wait_count = 0;
  sequence = 0;
  block_size = 0;
  block_count = 0;
  sent_cf = false;
  pending_cf = false;
  reserved_stmin = false;
  padding_error = false;
}

tester_id : valid_id 0x7E0 ≡ true
unfolding valid_id
tester_id = refl

vehicle_id : valid_id 0x7E8 ≡ true
unfolding valid_id
vehicle_id = refl

forth_IsPeer : IsPeer tester vehicle
forth_IsPeer = record { same = refl; id = tester_id; accepted = refl; address = refl }

back_IsPeer : IsPeer vehicle tester
back_IsPeer = record { same = refl; id = vehicle_id; accepted = refl; address = refl }

pair_IsConnection : IsConnection tester vehicle
unfolding is_reserved_stmin isotp_stmin_us
pair_IsConnection = record {
  forth = forth_IsPeer;
  back = back_IsPeer;
  block_byte = omega arith;
  stmin_defined = refl;
  tx_a = (omega arith, omega arith);
  tx_bs = (omega arith, omega arith);
  rx_a = (omega arith, omega arith);
  rx_cr = (omega arith, omega arith);
}

abbrev pair : Link
pair = record { tx = idle_tx; rx = idle_rx; now = 4294967000 }

pair-IsReady : IsReady payload_12 pair
pair-IsReady = record {
  conn = pair_IsConnection;
  word = omega arith;
  tx_state = refl;
  rx_state = refl;
  some_bytes = omega arith;
  small = omega arith;
  allowed = inl (refl, refl);
  buffered = λ e. cc;
  fits = omega arith;
  room = omega arith;
}

transfer_delivers_example :
    (l' : Link) × (transfer pair payload_12 ≡ some l') × IsDelivered payload_12 l'
transfer_delivers_example = transfer_delivers pair pair-IsReady

abbrev single_frame : CanFrame
single_frame = record { id = 0x7E0; dlc = 8; bytes = 3 ∷ 1 ∷ 2 ∷ 3 ∷ 0 ∷ 0 ∷ 0 ∷ 0 ∷ [] }

abbrev first_frame : CanFrame
first_frame = record { id = 0x7E0; dlc = 8; bytes = 0x10 ∷ 12 ∷ 1 ∷ 2 ∷ 3 ∷ 4 ∷ 5 ∷ 6 ∷ [] }

abbrev long_first_frame : CanFrame
long_first_frame = record { id = 0x7E0; dlc = 8; bytes = 0x10 ∷ 99 ∷ 1 ∷ 2 ∷ 3 ∷ 4 ∷ 5 ∷ 6 ∷ [] }

abbrev rx_life : List RxCall
rx_life = feed first_frame 10 ∷ take_flow_control 20 ∷ confirm true 30 ∷ check_timeout 2000000 ∷ []

vehicle_init : isotp_rx_init vehicle (some buffer_20) 20 ≡ some idle_rx
unfolding isotp_rx_init valid_config valid_id
vehicle_init = refl

single_IsFrame : IsFrame single_frame
single_IsFrame = ground arith

first_IsFrame : IsFrame first_frame
first_IsFrame = ground arith

rx_calls-IsValidRx_example : IsValidRx (rx_calls idle_rx rx_life)
rx_calls-IsValidRx_example =
    rx_calls-IsValidRx vehicle (some buffer_20) 20 rx_life (omega arith) (omega arith) vehicle_init
      (first_IsFrame, (tt, (tt, (tt, tt))))

tester_init : isotp_tx_init tester ≡ some idle_tx
unfolding isotp_tx_init valid_config valid_id
tester_init = refl

abbrev flow_control : CanFrame
flow_control = record { id = 0x7E8; dlc = 8; bytes = 0x30 ∷ 2 ∷ 5 ∷ 0 ∷ 0 ∷ 0 ∷ 0 ∷ 0 ∷ [] }

flow_control-IsFrame : IsFrame flow_control
flow_control-IsFrame = ground arith

abbrev tx_life : List TxCall
tx_life =
    start payload_12 12 0
    ∷ next_frame 10
    ∷ confirm_frame true 20
    ∷ give_flow_control flow_control 30
    ∷ next_frame 40
    ∷ []

tx_calls-IsValidTx_example : IsValidTx (tx_calls idle_tx tx_life)
tx_calls-IsValidTx_example =
    tx_calls-IsValidTx tester tx_life tester_init
      (omega arith, (tt, (tt, (flow_control-IsFrame, (tt, tt)))))

idle_rx-IsValidRx : IsValidRx idle_rx
idle_rx-IsValidRx =
    isotp_rx_init-IsValidRx vehicle (some buffer_20) 20 (omega arith) (omega arith) vehicle_init

single_accepted : (isotp_rx_feed idle_rx single_frame 10).0 ≡ complete
unfolding isotp_rx_feed isotp_rx_check_timeout matches feed_frame feed_single feed_start
    segment_copy valid_id expired
single_accepted = refl

isotp_rx_feed_in_bounds_example :
    let (_, rx', s) = isotp_rx_feed idle_rx single_frame 10 in
    (s.offset + s.len ≡ rx'.offset)
    × (s.offset + s.len ≤ 20)
    × (length s.bytes ≡ s.len)
    × (0 < s.len)
isotp_rx_feed_in_bounds_example =
    isotp_rx_feed_in_bounds idle_rx single_frame 10 idle_rx-IsValidRx single_IsFrame
      (inr single_accepted)

too_long : is_error (isotp_rx_feed idle_rx long_first_frame 10).0 ≡ true
unfolding isotp_rx_feed isotp_rx_check_timeout matches feed_frame feed_first feed_start segment_copy
    valid_id expired
too_long = refl

isotp_rx_feed_error_example :
    let (rc, rx', _) = isotp_rx_feed idle_rx long_first_frame 10 in
    (rx'.state ≡ rx_idle) ⊎ (rc ≡ err_overflow) × (rx'.state ≡ rx_fc_ready) × (rx'.flow_status ≡ 2)
isotp_rx_feed_error_example = isotp_rx_feed_error idle_rx long_first_frame 10 too_long

-- The sender between two consecutive frames of a longer message.
abbrev busy_tx : IsotpTx
busy_tx = record idle_tx {
  buffer = replicate 40 7;
  total = 40;
  offset = 13;
  sequence = 2;
  state = tx_confirm;
  pending_cf = true;
  deadline_us = 2000;
  separation_us = 5000;
}

confirmed_state : (isotp_tx_confirm busy_tx true 1000).1.state ≡ tx_cf
unfolding isotp_tx_confirm isotp_tx_check_timeout after_confirm expired
confirmed_state = refl

confirmed_next : (isotp_tx_next (isotp_tx_confirm busy_tx true 1000).1 6000).0 ≡ frame
unfolding isotp_tx_confirm isotp_tx_check_timeout after_confirm expired isotp_tx_next
confirmed_next = refl

cf_separation_example : 5000 ≤ sub32 6000 1000
cf_separation_example =
    cf_separation busy_tx 1000 6000 (omega arith) (omega arith) (omega arith) confirmed_state refl
      confirmed_next

abbrev waiting_tx : IsotpTx
waiting_tx = record busy_tx { state = tx_fc; sent_cf = true; last_cf_us = 1000; deadline_us = 9000 }

continued_state : (isotp_tx_flow_control waiting_tx flow_control 2000).1.state ≡ tx_cf
unfolding isotp_tx_flow_control isotp_tx_check_timeout expired matches valid_id fc_status
    fc_continue isotp_stmin_us
continued_state = refl

continued_next :
    (isotp_tx_next (isotp_tx_flow_control waiting_tx flow_control 2000).1 6000).0 ≡ frame
unfolding isotp_tx_flow_control isotp_tx_check_timeout expired matches valid_id fc_status
    fc_continue isotp_stmin_us isotp_tx_next
continued_next = refl

cf_separation_across_blocks_example : isotp_stmin_us 5 ≤ sub32 6000 1000
cf_separation_across_blocks_example =
    cf_separation_across_blocks waiting_tx flow_control 1000 2000 6000 (omega arith) refl refl refl
      (omega arith) (omega arith) continued_state continued_next

-- After the first frame of the message.
abbrev ready_tx : IsotpTx
ready_tx = record idle_tx { buffer = payload_12; total = 12; sequence = 1; state = tx_ready }

ready_tx-IsValidTx : IsValidTx ready_tx
ready_tx-IsValidTx = ground arith

next_chunk_bounds_example :
    let c = next_chunk ready_tx in
    (0 < c.size) × (0 + c.size ≤ 12) × (0 + length c.control + c.size ≤ 8)
next_chunk_bounds_example = next_chunk_bounds ready_tx ready_tx-IsValidTx (inl refl)
