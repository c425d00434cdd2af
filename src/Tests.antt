-- ===== src/Tests.antt =====
-- The theorems at concrete inputs, and small runs of the code.
pub mod Data
pub mod Running
pub mod Stages
pub mod Parts
pub mod InOrder
pub mod Caches
pub mod Loading
