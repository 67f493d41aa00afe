-- ===== src/J1850/Lifecycle.antt =====
-- main/j1850_lifecycle.h and .c: shutting the interrupt callbacks out before what they use is deleted.
pub mod Guard
pub mod Shutdown
