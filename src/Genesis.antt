-- ===== src/Genesis.antt =====
-- The tools that prepare a genesis state (genesis/).
pub mod Playback
pub mod Import
pub mod Main
pub mod Example
pub mod Program
pub mod Specification
pub mod Init
