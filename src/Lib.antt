-- ===== src/Lib.antt =====
-- The asynchronous runtime of a root task on seL4, and the library on top of it, after the sources in
-- crates/example. Each thread has an executor that runs coroutines by priority; threads and the
-- kernel exchange items through shared buffers, and tell each other to run by user interrupts.
--
-- Common: names of the libraries, Boolean tests, arrays, results, panics, bits of words.
-- Utils: crates/example/async_runtime/src/utils.rs. IndexAllocator, BitMap64, BitMap4096, RingBuffer
--   and SafeRingBuffer are the types of that name, with `allocate`, `release`, `set`, `get`, `clear`,
--   `find_first_one`, `find_first_zero`, `fetch`, `push`, `pop`, `push_safe` and `pop_safe` for the
--   methods. Queue is the specification of the rings; SafeRingBuffer/Concurrent takes `push_safe` and
--   `pop_safe` apart into their accesses, for one producer and one consumer.
-- Coroutine, Executor: coroutine.rs and executor.rs of the same directory. `schedule` is the part that
--   `spawn` and `wake` share; `fetch_at`, `fetch_popped` and `fetch_task` are the parts of `fetch`.
-- Runtime: lib.rs of the same directory, and the run loops of the executor for a given poll.
-- MessageInfo, NewBuffer: message_info.rs and new_buffer.rs of the same directory.
-- AsyncLib: crates/example/src/async_lib.rs. A `World` is what a thread's code reaches: its executor,
--   its statics, the shared buffers by address, and what it has told others. An `async fn` is one
--   function up to its `await` and one from there on. Syscalls has the items of the system calls,
--   Replies the coroutines that hand out the replies.
-- AsyncSyscall: crates/example/src/async_syscall.rs, which makes the calls of AsyncLib.
-- Uintr: crates/example/uintr/src/lib.rs, the registers of user interrupts, as numbers.
-- ObjectAllocator: crates/example/src/object_allocator.rs, the kernel's calls and the sizes of objects
--   being parameters. Threads has the creation of threads.
-- MemoryAllocator: crates/example/src/memory_allocator.rs; the two allocators of the file keep the
--   same state.
-- Net: the service of crates/example/src/net. A `Service` is the `World` of its thread with its
--   statics; the crate smoltcp with its sockets is the parameter `Smoltcp`. Message is message.rs,
--   ListenTable is listen_table.rs, Requests and Connection are the coroutines of mod.rs, and Client
--   is tcp.rs and sync_tcp.rs. The service wakes its coroutines through Executor and replies through
--   AsyncLib.
-- Device: crates/example/src/device/net. AxiNet and VirtioNet are the devices as the network stack
--   calls them, for given drivers; Mmio is the `init_mmio` of both, over ObjectAllocator.
-- ImageUtils, Matrix: image_utils.rs and matrix.rs of crates/example/src.
-- Tests: the theorems on concrete values.
--
-- A function that may panic returns an `Outcome`. Overflow checks are on, as in the build of the
-- Makefile. The loops of `actual_wake` and of the interrupt handlers have 64 rounds of fuel, one for
-- each bit of their word; the run loops, `nw_recv_req` and the reply coroutines take their fuel as an
-- argument.
--
-- Not modelled: the start-up of the service and of the drivers, which only calls the kernel and the
-- drivers; the heap and the entry point; the single machine instructions; the lock around a client's
-- arguments; the programs that measure the library. In SafeRingBuffer/Concurrent memory accesses are
-- sequentially consistent, and the source's relaxed accesses to the delayed wakes are not interleaved.
pub mod Common
pub mod Utils
pub mod Coroutine
pub mod Executor
pub mod Runtime
pub mod MessageInfo
pub mod NewBuffer
pub mod AsyncLib
pub mod AsyncSyscall
pub mod Uintr
pub mod ObjectAllocator
pub mod MemoryAllocator
pub mod Net
pub mod ImageUtils
pub mod Device
pub mod Matrix
pub mod Tests
