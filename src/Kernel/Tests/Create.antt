-- ===== src/Kernel/Tests/Create.antt =====
-- The address space of a kernel in the upper half.
use kboot.Base.{ℕ, ◌+◌, ◌≡◌, refl, [], ◌∷◌, true, ltb, if◌then◌else◌, none, some, arith, inl}
use kboot.Base.Outcome.{done, stop, boot_error}
use kboot.Range.{last}
use kboot.Range.View.{tag_at}
use kboot.Memory.Map.Laws.{inside}
use kboot.Allocator.Reserve.{managed}
use kboot.Mmu.Tree.{Labels}
use kboot.Mmu.Map.{is_canonical_addr}
use kboot.Mmu.Grow.{PageSource}
use kboot.Kernel.{Loader, create_space}
use kboot.Kernel.Placement.{IsLoader}
use kboot.Memory.MemoryType
use kboot.Memory.Map.{MemoryMap}
use kboot.Memory.Alloc.{normalise}
use kboot.Mmu.Supply.{HoldsPages, HoldsPages-one, memory_source}
use kboot.Kernel.Create.{IsMapRange, map_size, create_space_lem}
use kboot.Kernel.Entries.{IsWithin}

-- A megabyte of free memory.
abbrev megabyte : MemoryMap
megabyte = record { start = 0x100000; size = 0x100000; tag = MemoryType.free } ∷ []

megabyte-HoldsPages : HoldsPages MemoryType.pagetables megabyte 1
unfolding normalise last
megabyte-HoldsPages =
    HoldsPages-one MemoryType.pagetables megabyte (λ e. omega (arith, e))
      (omega arith, (omega arith, omega arith), tt) ((λ _. omega arith), tt)
      (inl (0x1ff000, (refl, refl, omega arith, omega arith)))

abbrev memory_pages : PageSource MemoryMap
memory_pages = memory_source MemoryType.pagetables (λ e. omega (arith, e))

-- A kernel in the upper half.
create_space_lem_example :
    (¬ IsMapRange 0xffffffff80000000 0x40000000
      → create_space memory_pages.memory_alloc (λ t i. 7) megabyte 0xffffffff80000000 0x40000000
        ≡ stop boot_error)
    × (IsMapRange 0xffffffff80000000 0x40000000
        → (loader : Loader MemoryMap) × (labels : Labels) × (create_space memory_pages.memory_alloc
              (λ t i. 7)
              megabyte
              0xffffffff80000000
              0x40000000
            ≡ done loader)
          × IsLoader memory_pages loader labels 0
          × (loader.mappings ≡ [])
          × IsWithin (0xffffffff80000000 + map_size 0xffffffff80000000 0x40000000) loader.allocator
          × ((v : ℕ)
              → managed loader.allocator v
                ≡ inside 0xffffffff80000000 (map_size 0xffffffff80000000 0x40000000) v)
          × ((v : ℕ)
              → inside 0xffffffff80000000 (map_size 0xffffffff80000000 0x40000000) v ≡ true
              → is_canonical_addr v ≡ true)
          × ((v : ℕ)
              → tag_at loader.allocator.regions v ≡ (
                  if inside 0xffffffff80000000 (map_size 0xffffffff80000000 0x40000000) v
                  then some (ltb v 0x1000)
                  else none)))
create_space_lem_example =
    create_space_lem memory_pages (λ t i. 7) megabyte 0xffffffff80000000 0x40000000 0
      megabyte-HoldsPages (omega arith) (omega arith)
