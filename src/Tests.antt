-- ===== src/Tests.antt =====
-- The theorems at concrete inputs.
pub mod Bitmaps
pub mod Memory
pub mod Programs
pub mod Semaphores
pub mod Switching
pub mod Conditions
pub mod LinkedLists
pub mod Processes
pub mod Syscalls
pub mod Instructions
