-- ===== src/Memory/MemoryType.antt =====
-- The memory types and the allocation flags of include/memory.h, and the page size.
use kboot.Base.{ℕ}

abbrev pub free : ℕ
free = 0

abbrev pub allocated : ℕ
allocated = 1

abbrev pub reclaimable : ℕ
reclaimable = 2

abbrev pub pagetables : ℕ
pagetables = 3

abbrev pub stack : ℕ
stack = 4

abbrev pub modules : ℕ
modules = 5

abbrev pub internal : ℕ
internal = 6

abbrev pub page_size : ℕ
page_size = 0x1000
