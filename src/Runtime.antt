-- ===== src/Runtime.antt =====
-- The runtime that executes blocks: src/block.rs, src/methods.rs and src/dispatcher.rs.
pub mod Types
pub mod Example
pub mod Block
pub mod Storage
pub mod Methods
pub mod Dispatcher
