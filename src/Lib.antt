-- ===== src/Lib.antt =====
-- OpenDIAG firmware: the protocol core of a vehicle diagnostics adapter. The adapter speaks CAN with
-- ISO-TP, SAE J1850 (VPW and PWM) and the K-line to the vehicle, and SLCAN, ELM327 and J2534 to the
-- host. The drivers of the buses move pulses, bytes and frames; what those mean, and who may touch what
-- while tasks and interrupts run against each other, is decided by code without hardware, and that
-- code is modelled here.
--
--   Isotp      main/isotp.h, main/isotp.c, main/can_frame.h: segmented messages over CAN frames.
--              Isotp/Types has the structures, Isotp/Config the configuration and the tests that
--              both directions use, Isotp/Receiver isotp_rx_* and Isotp/Sender isotp_tx_*.
--              Isotp/Transfer joins a sender and a receiver by a bus that loses nothing.
--   J1850      main/j1850_common.c (J1850/Crc), main/j1850_vpw_codec.c (J1850/Vpw) and
--              main/j1850_pwm_codec.c (J1850/Pwm): the CRC, bytes as timed pulses and back, and the
--              frames that are answered in place. J1850/Lifecycle is the guard of the interrupt
--              callbacks, main/j1850_lifecycle.h and main/j1850_lifecycle.c.
--   Kline      main/kline_codec.h and main/kline_codec.c: message lengths, checksums, key bytes and
--              the synchronisation byte of ISO 9141-2 and ISO 14230.
--   Scheduler  main/j2534_scheduler.h and main/j2534_scheduler.c: periodic and repeat messages.
--   Wire       main/j2534_wire.c: requests and responses of the J2534 server in frames with a CRC.
--              The server behind them, j2534_core_request, is a parameter. Wire/Header, Wire/Fields
--              and Wire/Delivery follow a request from its frames to the server, Wire/Fetch the response
--              back to the client, Wire/Bounds has the invariant of the buffers.
--   Slcan      main/slcan.c and the readers of main/utility.c: Slcan/Hex has the numbers,
--              Slcan/Frames frames as lines of text, Slcan/Channel the commands and the buffers. The
--              bus of the vehicle interface manager is a parameter. Slcan/Channel/Session is the
--              specification: a session that has no buffers and is given whole lines.
--   Transmit   main/bus_tx.c (Transmit/Control, Transmit/Epoch) and main/bus_tx_worker.c
--              (Transmit/Worker): handing a message to a bus. Transmit/Worker/System is a step
--              relation of the owner, the task and the driver.
--   Vif        main/vif.c: Vif/Claims is the claim on a group of buses that share their wiring, with
--              opening and closing as a step relation of the owners' threads; Vif/Pins the pins of the
--              connector, with Vif/Pins/Connector the calls of both owners and the calibration of the high
--              side, which drives the pins through main/board.c. Each region under the lock is one step,
--              and so is each call of a driver, which may fail and then leaves it up or down, and each
--              change that a calibration makes outside the lock.
--   Base       lists as arrays, Boolean tests, machine words.
--   Tests      the theorems at concrete inputs.
--
-- A C function that updates a structure behind a pointer is a function that returns the new record,
-- with its result code before it and what it fills in for the caller after it. A buffer and its
-- length are one list, or a list and a length where the two may differ. Numbers are natural numbers;
-- where a C type wraps, u8, u16, u32 or sub32 says so, and a signed comparison of times is
-- at_or_after. Guards against null pointers have no counterpart, but for the receiver's buffer,
-- which is an option because a null one selects streaming. The trims of the transmit widths,
-- J1850_VPW_TX_TRIM_US and J1850_PWM_TX_TRIM_US, are 0, as configured.
--
-- Where contexts run against each other, each atomic access of a task, a driver or a callback is a step
-- of its own, and the steps of all of them come in any order; a call of the owner of a worker is one
-- step. What has happened to a message is kept beside the state, and no step reads it. The driver may
-- do anything between the calls of bus_tx_admit and bus_tx_end that it makes, and return any result.
--
-- Loops are recursions on the list or on the number of turns left, so all of them end. The rounds of
-- Isotp/Transfer take fuel: one more than the length of the message, which is enough since every
-- round but the last carries a payload byte.
--
-- Not modelled: the drivers and tasks (main/can_bus.c, main/kline.c, main/j1850_vpw.c,
-- main/j1850_pwm.c, main/timer.c), which are peripheral, interrupt and FreeRTOS code, and with them the
-- semaphores, the wait with a timeout of main/bus_tx_worker.c and the functions of
-- main/j1850_lifecycle.c that only call the driver of a peripheral; the table of buses (main/bus.c);
-- the rest of the manager of the interfaces (front-ends, calibration constants and transfers in
-- main/vif.c, and main/vif_ctrl.c); the board but for what a calibration switches (main/board.c); the
-- other host protocols (main/elm327_at.c, main/j2534.c, main/shell.c); the links (main/ble_uart.c,
-- main/usb_cdc.c); the
-- generated messages (main/j2534.pb.c); the driver for the host under j2534_driver; the functions that
-- give a status or a variant its name. The flush of the link is not kept apart from its writes in Wire.
pub mod Base
pub mod Isotp
pub mod Kline
pub mod J1850
pub mod Scheduler
pub mod Wire
pub mod Slcan
pub mod Transmit
pub mod Vif
mod Tests
