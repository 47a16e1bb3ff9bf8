-- ===== src/Stf.antt =====
-- The framework's own commands and libraries, as they are in usr/src/tools/stf.
pub mod Number
pub mod Decimal
pub mod Timeout
pub mod Watch
pub mod Context
pub mod Jnl
pub mod Logapi
pub mod Mstf
pub mod Results
pub mod Journal
