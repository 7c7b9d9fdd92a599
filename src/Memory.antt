-- ===== src/Memory.antt =====
-- src/memory: permissions, the page table, segments, the garbage collector, the LRU cache and the
-- manager that joins them.
mod Tests
pub mod Address
pub mod Permissions
pub mod PageTable
pub mod Segment
pub mod Gc
pub mod Cache
pub mod Manager
