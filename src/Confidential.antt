-- ===== src/Confidential.antt =====
-- common/src/confidential: confidential execution.
pub mod Mrae
pub mod Example
pub mod Crypto
pub mod Context
