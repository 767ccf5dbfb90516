-- ===== src/Tests.antt =====
-- The theorems applied to concrete values.
pub mod Utils
pub mod Executor
pub mod AsyncLib
pub mod Services
pub mod Reach
pub mod Runtime
pub mod Net
pub mod Device
pub mod Replies
