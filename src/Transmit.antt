-- ===== src/Transmit.antt =====
-- Handing a message to a bus: main/bus_tx.c and main/bus_tx_worker.c.
pub mod Control
pub mod Epoch
pub mod Worker
