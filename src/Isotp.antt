-- ===== src/Isotp.antt =====
-- main/isotp.h and main/isotp.c: the ISO 15765-2 transport over classic CAN frames.
pub mod Types
pub mod Config
pub mod Receiver
pub mod Sender
pub mod Transfer
