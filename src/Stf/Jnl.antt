-- ===== src/Stf/Jnl.antt =====
-- The journal interface of contrib/jnl/lib/libjnl.c.
pub mod Probe
pub mod Levels
pub mod Log
pub mod Buffers
pub mod Message
