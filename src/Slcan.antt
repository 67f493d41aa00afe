-- ===== src/Slcan.antt =====
-- The SLCAN grammar of main/slcan.c, and the hexadecimal numbers of main/utility.c that it reads.
pub mod Hex
pub mod Frames
pub mod Channel
