-- ===== src/Transmit/Worker.antt =====
-- main/bus_tx_worker.c: the task that hands one message at a time to a driver. A binary semaphore is
-- whether it has been given; a call of the owner is one step, the task's accesses are steps of their own.
pub mod System
pub mod Invariant
pub mod Calls
pub mod Steps
pub mod Safety
use opendiag_firmware.Base.{
  Bool, List, Option, false, if◌then◌else◌, length, ltb, none, not, some, true, ℕ, ◌%◌, ◌&&◌, ◌/◌,
  ◌==◌, ◌||◌,
}
use opendiag_firmware.Transmit.Control.{
  BusResult, Control, TxState, active, bad_arg, bus_ok, bus_tx_cancel, bus_tx_cancelled,
  bus_tx_prepare, cancelled, no_space, not_ready, same_state,
}

pub data WorkerState : Type 0 where
  idle : WorkerState
  pending : WorkerState
  done : WorkerState

abbrev pub same_work : WorkerState → WorkerState → Bool
same_work idle idle = true
same_work pending pending = true
same_work done done = true
same_work _ _ = false

abbrev pub tx_data_max : ℕ
tx_data_max = 260

-- The message of `bus_msg_t`, with the bytes that its pointer and length give.
pub record Message : Type 0 where
  pub id : ℕ
  pub bytes : List ℕ

-- `struct bus_tx_worker`: `message` holds the copy in `data`.
pub record Worker : Type 0 where
  pub state : WorkerState
  pub stopping : Bool
  pub control : Control
  pub message : Message
  pub flags : ℕ
  pub result : BusResult
  pub timing_reported : Bool
  pub wake : Bool
  pub is_done : Bool
  pub is_exited : Bool

-- `bus_tx_result_t`.
pub record TxResult : Type 0 where
  pub status : BusResult
  pub complete : Bool
  pub started : Bool
  pub started_us : ℕ
  pub ended_us : ℕ

-- The flag BUS_TX_CHECK_RX.
abbrev pub checks_rx : ℕ → Bool
checks_rx flags = flags / 16 % 2 == 1

unfoldable pub bus_tx_worker_submit : Worker → Message → ℕ → ℕ → Worker × BusResult
bus_tx_worker_submit w msg flags rx_sequence =
    let control = record (bus_tx_prepare rx_sequence) { check_rx = checks_rx flags } in
    if ltb tx_data_max (length msg.bytes)
    then (w, bad_arg)
    else if w.stopping
    then (w, not_ready)
    else if not (same_work w.state idle)
    then (w, no_space)
    else (
      record w {
        is_done = false;
        message = msg;
        flags = flags;
        timing_reported = false;
        control = control;
        state = pending;
        wake = true;
      },
      bus_ok,
    )

-- The result that `bus_tx_worker_poll` makes.
abbrev pub tx_result : Worker → TxResult
tx_result w =
    let complete = same_work w.state done in
    record {
      status = if complete then w.result else bus_ok;
      complete = complete;
      started = same_state w.control.state active;
      started_us = w.control.started_us;
      ended_us = w.control.ended_us;
    }

unfoldable pub bus_tx_worker_poll : Worker → Worker × Option TxResult
bus_tx_worker_poll w =
    let complete = same_work w.state done in
    let w' = record w { timing_reported = true; state = if complete then idle else w.state } in
    if same_work w.state idle || not complete && (not w.control.ended || w.timing_reported)
    then (w, none)
    else (w', some (tx_result w))

-- `bus_tx_worker_cancel`, and whether `bus_tx_cancel` has succeeded.
unfoldable pub bus_tx_worker_cancel : Worker → Worker × Bool
unfolding bus_tx_cancel
bus_tx_worker_cancel w =
    let (control, ok) = bus_tx_cancel w.control in
    if same_work w.state pending then (record w { control = control }, ok) else (w, false)

-- `bus_tx_worker_close` as far as the wait for `exited`.
unfoldable pub close_begin : Worker → Worker × Bool
unfolding bus_tx_worker_cancel
close_begin w =
    let (w', ok) = bus_tx_worker_cancel (record w { stopping = true }) in
    (record w' { wake = true }, ok)

-- Where the task stands in `transmit_task`; `inside` is a call of the driver, `has_loaded` and `has_stamped` are
-- before and after the write of `started_us` in a call of `bus_tx_admit` by the driver; `reported` is between
-- the store of WORKER_DONE and the give of `done`.
pub data TaskPc : Type 0 where
  waiting : TaskPc
  woken : TaskPc
  chosen : TaskPc
  inside : TaskPc
  has_loaded : TxState → TaskPc
  has_stamped : TxState → TaskPc
  returned : BusResult → TaskPc
  stored : TaskPc
  reported : TaskPc
  finishing : TaskPc
  left : TaskPc

-- The test of the state, and that of the control.
abbrev pub task_look : Worker → TaskPc
task_look w = if same_work w.state pending then chosen else finishing

abbrev pub task_choose : Worker → TaskPc
task_choose w = if bus_tx_cancelled w.control then returned cancelled else inside
