-- ===== src/Transmit/Worker/System.antt =====
-- The owner and the task, interleaved: every sequence of steps that the program allows.
use opendiag_firmware.Base.{Bool, [], false, inl, inr, not, true, ℕ, ◌&&◌, ◌||◌, ◌≡◌, ◌⊎◌}
use opendiag_firmware.Transmit.Control.{
  BusResult, Control, TxState, admit_exchange, admit_load, bus_ok, bus_tx_end, bus_tx_prepare,
  is_ok,
}
use opendiag_firmware.Transmit.Worker.{
  Message, TaskPc, Worker, bus_tx_worker_cancel, bus_tx_worker_poll, bus_tx_worker_submit, chosen,
  close_begin, done, finishing, has_loaded, has_stamped, idle, inside, left, reported, returned,
  stored, task_choose, task_look, waiting, woken,
}

-- The worker, where its task stands, and what has happened to the message under way: `admitted` where
-- `bus_tx_admit` has let the driver send it, `recalled` where `bus_tx_cancel` has succeeded.
-- `released` is after `release_worker`.
pub record System : Type 0 where
  pub worker : Worker
  pub pc : TaskPc
  pub admitted : Bool
  pub recalled : Bool
  pub released : Bool

abbrev pub with_control : Worker → Control → Worker
with_control w control = record w { control = control }

-- What a result of `bus_tx_admit` means for the message.
abbrev pub after_admit : System → BusResult → System
after_admit s r = record s { pc = inside; admitted = s.admitted || is_ok r }

abbrev pub after_load : System → BusResult ⊎ TxState → System
after_load s (inl r) = after_admit s r
after_load s (inr state) = record s { pc = has_loaded state }

abbrev pub after_exchange : System → Control × BusResult → System
after_exchange s (control, r) = after_admit (record s { worker = with_control s.worker control }) r

-- A call of `bus_tx_worker_submit`; a message that is taken is a new one.
abbrev pub after_submit : System → Worker × BusResult → System
after_submit s (w, r) = record s {
  worker = w;
  admitted = s.admitted && not (is_ok r);
  recalled = s.recalled && not (is_ok r);
}

-- A call that may withdraw the message.
abbrev pub after_cancel : System → Worker × Bool → System
after_cancel s (w, ok) = record s { worker = w; recalled = s.recalled || ok }

pub data Step (s : System) : System → Type 0 where
  -- The owner's calls, while the worker has not been released.
  submit :
      (msg : Message) (flags rx_sequence : ℕ)
      → s.released ≡ false
      → Step s (after_submit s (bus_tx_worker_submit s.worker msg flags rx_sequence))
  poll : s.released ≡ false → Step s (record s { worker = (bus_tx_worker_poll s.worker).0 })
  cancel : s.released ≡ false → Step s (after_cancel s (bus_tx_worker_cancel s.worker))
  close_starts : s.released ≡ false → Step s (after_cancel s (close_begin s.worker))
  close_ends :
      s.released ≡ false → s.worker.is_exited ≡ true → Step s (record s { released = true })
  -- The task's.
  task_wakes :
      s.pc ≡ waiting
      → s.worker.wake ≡ true
      → Step s (record s { worker = record s.worker { wake = false }; pc = woken })
  task_looks : s.pc ≡ woken → Step s (record s { pc = task_look s.worker })
  task_chooses : s.pc ≡ chosen → Step s (record s { pc = task_choose s.worker })
  task_stores :
      (r : BusResult)
      → s.pc ≡ returned r
      → Step s (record s { worker = record s.worker { result = r }; pc = stored })
  task_finishes :
      s.pc ≡ stored → Step s (record s { worker = record s.worker { state = done }; pc = reported })
  task_signals :
      s.pc ≡ reported
      → Step s (record s { worker = record s.worker { is_done = true }; pc = finishing })
  task_goes_on : s.pc ≡ finishing → s.worker.stopping ≡ false → Step s (record s { pc = waiting })
  task_leaves :
      s.pc ≡ finishing
      → s.worker.stopping ≡ true
      → Step s (record s { worker = record s.worker { is_exited = true }; pc = left })
  -- The driver's, inside `send_controlled`.
  driver_loads :
      (rx_sequence : ℕ)
      → s.pc ≡ inside
      → Step s (after_load s (admit_load s.worker.control rx_sequence))
  driver_stamps :
      (state : TxState) (now : ℕ)
      → s.pc ≡ has_loaded state
      → Step s (record s {
        worker = with_control s.worker (record s.worker.control { started_us = now });
        pc = has_stamped state;
      })
  driver_exchanges :
      (state : TxState)
      → s.pc ≡ has_stamped state
      → Step s (after_exchange s (admit_exchange s.worker.control state))
  driver_ends :
      (now : ℕ)
      → s.pc ≡ inside
      → Step s (record s { worker = with_control s.worker (bus_tx_end s.worker.control now) })
  driver_returns : (r : BusResult) → s.pc ≡ inside → Step s (record s { pc = returned r })

-- A worker that has just been created.
abbrev pub created : Worker
created = record {
  state = idle;
  stopping = false;
  control = record (bus_tx_prepare 0) { check_rx = false };
  message = record { id = 0; bytes = [] };
  flags = 0;
  result = bus_ok;
  timing_reported = false;
  wake = false;
  is_done = false;
  is_exited = false;
}

abbrev pub start : System
start = record {
  worker = created;
  pc = waiting;
  admitted = false;
  recalled = false;
  released = false;
}

pub data Reach : System → Type 0 where
  at_start : Reach start
  later : {s t : System} → Reach s → Step s t → Reach t
