-- ===== src/Memory.antt =====
-- The physical memory manager of source/memory.c: memory maps, and allocation from the map
-- `memory_ranges`. The list links of `memory_range_t` are the order of the list; the heap that
-- the range structures come from is modelled apart and its exhaustion is not repeated here.
pub mod MemoryType
pub mod Map
pub mod Alloc
mod Tests
