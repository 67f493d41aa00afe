-- ===== src/Tests/Interleavings.antt =====
-- A worker that sends one message and is closed, and callbacks that are shut out.
use opendiag_firmware.Base.{[], arith, false, refl, true, ◌&&◌, ◌∷◌, ◌≡◌}
use opendiag_firmware.Transmit.Control.{
  admit_exchange, admit_load, bus_tx_cancel, exchange_state, queued,
}
use opendiag_firmware.Transmit.Epoch.{bus_rx_lost, is_later}
use opendiag_firmware.Transmit.Epoch.Loss.{bus_rx_lost-latest}
use opendiag_firmware.Transmit.Worker.{
  Message, bus_tx_worker_cancel, bus_tx_worker_submit, close_begin, has_loaded, has_stamped, inside,
  left, woken,
}
use opendiag_firmware.Transmit.Worker.Safety.{
  admitted_or_recalled, released_left, submit_while_held,
}
use opendiag_firmware.Transmit.Worker.System.{
  Reach, System, after_cancel, after_exchange, after_submit, at_start, close_ends, close_starts,
  driver_exchanges, driver_loads, driver_stamps, later, start, submit, task_chooses, task_leaves,
  task_looks, task_wakes,
}

abbrev request : Message
request = record { id = 0; bytes = 0x68 ∷ 0x6A ∷ 0xF1 ∷ [] }

-- The message is submitted, found by the task and admitted by the driver.
abbrev submitted : System
submitted = after_submit start (bus_tx_worker_submit start.worker request 0 7)

abbrev awake : System
awake = record submitted { worker = record submitted.worker { wake = false }; pc = woken }

abbrev at_driver : System
at_driver = record awake { pc = inside }

submitted-Reach : Reach submitted
submitted-Reach = later at_start (submit request 0 7 refl)

awake-Reach : Reach awake
unfolding bus_tx_worker_submit
awake-Reach = later submitted-Reach (task_wakes refl refl)

at_driver-Reach : Reach at_driver
unfolding bus_tx_worker_submit
at_driver-Reach = later (later awake-Reach (task_looks refl)) (task_chooses refl)

abbrev loaded_request : System
loaded_request = record at_driver { pc = has_loaded queued }

abbrev stamped_request : System
stamped_request = record at_driver {
  worker = record at_driver.worker {
    control = record at_driver.worker.control { started_us = 900 };
  };
  pc = has_stamped queued;
}

abbrev admitted_request : System
admitted_request =
    after_exchange stamped_request (admit_exchange stamped_request.worker.control queued)

admitted_request-Reach : Reach admitted_request
unfolding bus_tx_worker_submit admit_load
admitted_request-Reach =
    later (later (later at_driver-Reach (driver_loads 7 refl)) (driver_stamps queued 900 refl))
      (driver_exchanges queued refl)

admitted_or_recalled_example : (admitted_request.admitted && admitted_request.recalled) ≡ false
admitted_or_recalled_example = admitted_or_recalled admitted_request admitted_request-Reach

submit_while_held_example :
    (bus_tx_worker_submit at_driver.worker request 16 8).0 ≡ at_driver.worker
submit_while_held_example = submit_while_held at_driver request 16 8 at_driver-Reach refl

-- A worker that is closed at once.
abbrev closing : System
closing = after_cancel start (close_begin start.worker)

abbrev exited : System
exited = record closing {
  worker = record closing.worker { wake = false; is_exited = true };
  pc = left;
}

abbrev gone : System
gone = record exited { released = true }

gone-Reach : Reach gone
unfolding close_begin bus_tx_worker_cancel bus_tx_cancel exchange_state
gone-Reach =
    later
      (later
        (later (later (later at_start (close_starts refl)) (task_wakes refl refl))
          (task_looks refl))
        (task_leaves refl refl))
      (close_ends refl refl)

released_left_example : gone.pc ≡ left
released_left_example = released_left gone gone-Reach refl

-- Two other losses are recorded while this one is, the second of them just before the numbers wrap.
bus_rx_lost-latest_example :
    is_later 5
      (bus_rx_lost
        (record { sequence = 9; lost_sequence = 0 })
        5
        (3 ∷ 4294967290 ∷ [])).lost_sequence
    ≡ false
bus_rx_lost-latest_example =
    bus_rx_lost-latest (record { sequence = 9; lost_sequence = 0 }) 5 (3 ∷ 4294967290 ∷ [])
      (omega arith) (omega arith)
