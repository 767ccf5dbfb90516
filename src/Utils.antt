-- ===== src/Utils.antt =====
-- crates/example/async_runtime/src/utils.rs: the containers of the runtime.
pub mod IndexAllocator
pub mod Window
pub mod Queue
pub mod RingBuffer
pub mod SafeRingBuffer
pub mod BitMap64
pub mod BitMap4096
