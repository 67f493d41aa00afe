-- ===== src/J1850.antt =====
-- The SAE J1850 protocol code: main/j1850_common.c, main/j1850_vpw_codec.c, main/j1850_pwm_codec.c,
-- and the guard of its interrupt callbacks, main/j1850_lifecycle.c.
pub mod Crc
pub mod Vpw
pub mod Pwm
pub mod Lifecycle
