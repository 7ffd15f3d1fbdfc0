-- ===== src/Kernel/Tests.antt =====
-- Mappings in a new address space, and instances of the theorems.
mod Create
use kboot.Base.{
  Any, sym, ◌∙◌, ℕ, ◌+◌, ◌-◌, ◌*◌, ◌%◌, ◌^◌, ◌≤◌, ◌<◌, ◌≡◌, ◌≢◌, refl, [], ◌∷◌, true, false, ltb,
  leb, ◌==◌, ◌&&◌, if◌then◌else◌, Option, none, some, arith, inl, inr, ◌⊎◌, List, All,
}
use kboot.Base.Outcome.{Outcome, done, stop, boot_error}
use kboot.Base.Rounding.{round_up}
use kboot.Range.{last, cut, remainder, locate, trim, swallow, insert_at}
use kboot.Range.View.{tag_at}
use kboot.Memory.Map.Laws.{inside, IsPageRange}
use kboot.Allocator.{
  alloc_end, insert_region, insert_region_at, fits_in, alloc_from, allocator_alloc, reserve_between,
  allocator_reserve, conflicts, allocator_insert, allocator_init,
}
use kboot.Allocator.Laws.{IsOrdered, HasRoom}
use kboot.Allocator.Reserve.{managed}
use kboot.Mmu.{next_table, get_pdir_64, map_small_64, map_large_64}
use kboot.Mmu.Tree.{Labels, lookup, translate, lookup-none}
use kboot.Mmu.Map.{is_canonical_addr}
use kboot.Mmu.Grow.{PageSource}
use kboot.Mmu.Map.{map_from, mmu_map_64, mmu_map, is_canonical_range}
use kboot.Kernel.{
  Loader, Mapping, MappingTag, no_phys, check_mapping, convert_mmu_flags, add_mapping,
  place_mapping, kboot_alloc_virtual, kboot_map_virtual, map_itags, create_space,
}
use kboot.Kernel.Placement.{IsLoader, IsPhys}
use kboot.Kernel.Bounds.{IsBelow}
use kboot.Kernel.Laws.{WasFree, Maps, kboot_alloc_virtual_lem, kboot_map_virtual_lem}
use kboot.Memory.MemoryType
use kboot.Memory.Map.{MemoryMap}
use kboot.Memory.Alloc.{normalise}
use kboot.Mmu.Supply.{HoldsPages, HoldsPages-one, memory_source}
use kboot.Kernel.Room.{kboot_alloc_virtual_complete}
use kboot.Kernel.Create.{IsMapRange, map_size, create_space_lem}
use kboot.Kernel.Entries.{IsTag, IsWithin}
use kboot.Kernel.Tags.{Mapped, map_itags_lem}

-- Pages of memory from an address on.
abbrev memory_from : PageSource ℕ
memory_from = record {
  memory_alloc = λ s. done (s, s + 0x1000);
  Holds = λ s n. (s % 2 ^ 12 ≡ 0) × (s + n * 2 ^ 12 ≤ 2 ^ 40);
  Taken = λ s p. p < s;
  fewer = λ s n (aligned, room). (aligned, omega (arith, room));
  gives = λ s n (aligned, room). (
    s,
    s + 0x1000,
    refl,
    aligned,
    omega (arith, room),
    λ lt. omega (arith, lt),
    omega arith,
    λ q lt. omega (arith, lt),
    (omega (arith, aligned), omega (arith, room)),
  );
}

-- The first 4 MiB but for the first page, of which nothing is mapped.
abbrev empty_space : Loader ℕ
empty_space = record {
  mmu = record { cr3 = 0x1000; tables = λ t i. 0; memory = 0x2000 };
  allocator = record {
    start = 0x1000;
    size = 0x3ff000;
    regions = record { start = 0x1000; size = 0x3ff000; tag = false } ∷ [];
  };
  mappings = [];
}

abbrev empty_labels : Labels
empty_labels = record { depth = λ q. if q == 0x1000 then 3 else 4; number = λ q. 0 }

empty_space-IsOrdered : IsOrdered empty_space.allocator
unfolding last
empty_space-IsOrdered = omega arith

empty_space-IsLoader : (n : ℕ) → n ≤ 2000 → IsLoader memory_from empty_space empty_labels n
empty_space-IsLoader n le = record {
  good = (
    (refl, refl, λ t d i at small present link. absurd (ground (arith, present))),
    λ q low. ground (arith, low),
    (omega arith, omega (arith, le)),
  );
  ordered = empty_space-IsOrdered;
  orderly = tt;
  reserved = tt;
  agrees = λ v small canonical. lookup-none 3 empty_space.mmu.tables 0x1000 v refl;
}

empty_space-IsBelow : IsBelow 0x400000 empty_space.allocator
unfolding last
empty_space-IsBelow a le = ground (arith, le)

managed_is : (a : ℕ) → managed empty_space.allocator a ≡ (leb 0x1000 a && leb a 0x3fffff)
unfolding alloc_end
managed_is a = refl

three_pages : IsPageRange 0x200000 0x3000
three_pages = record {
  start_aligned = refl;
  size_aligned = refl;
  size_positive = omega arith;
  fits = omega arith;
}

three-managed : (a : ℕ) → inside 0x200000 0x3000 a ≡ true → managed empty_space.allocator a ≡ true
three-managed a i = managed_is a ∙ ground (arith, i)

some_memory : IsPhys 0x5000 0x3000
some_memory = inr (refl, omega arith)

kboot_alloc_virtual_lem_example :
    ((allocator_alloc empty_space.allocator 0x3000 0 ≡ done none)
      × (kboot_alloc_virtual memory_from.memory_alloc empty_space 0x5000 0x3000 1
          ≡ stop boot_error))
    ⊎ ((addr : ℕ) × WasFree memory_from empty_space empty_labels 0x5000 0x3000 1 100
          (empty_space-IsLoader 109 (omega arith))
          some_memory
          addr
        × (((0x5000 ≢ no_phys)
              × (is_canonical_range addr 0x3000 ≡ false)
              × (kboot_alloc_virtual memory_from.memory_alloc empty_space 0x5000 0x3000 1
                  ≡ stop boot_error))
            ⊎ ((loader' : Loader ℕ) × (kboot_alloc_virtual memory_from.memory_alloc empty_space
                    0x5000 0x3000 1
                  ≡ done (addr, loader'))
                × Maps memory_from empty_space empty_labels 0x5000 0x3000 1 100
                    (empty_space-IsLoader 109 (omega arith))
                    some_memory
                    addr
                    loader')))
kboot_alloc_virtual_lem_example =
    kboot_alloc_virtual_lem memory_from empty_space empty_labels 0x5000 0x3000 1 100
      (empty_space-IsLoader 109 (omega arith)) some_memory 0x400000 refl (omega arith)
      empty_space-IsBelow (omega arith)

empty_space_canonical :
    (v : ℕ) → tag_at empty_space.allocator.regions v ≡ some false → is_canonical_addr v ≡ true
unfolding last
empty_space_canonical v free = low v (ground (arith, free))
  where
    low : (v : ℕ) → v < 0x400000 → is_canonical_addr v ≡ true
    low v below = ground (arith, below)

empty_space-HasRoom : Any (HasRoom 0x3000 0x1000) empty_space.allocator.regions
unfolding last
empty_space-HasRoom = inl (0x1000, refl, refl, omega arith, omega arith)

kboot_alloc_virtual_complete_example :
    (addr : ℕ) × (loader' : Loader ℕ) × WasFree memory_from empty_space empty_labels 0x5000 0x3000 1
      100
      (empty_space-IsLoader 109 (omega arith))
      some_memory
      addr
    × (kboot_alloc_virtual memory_from.memory_alloc empty_space 0x5000 0x3000 1
        ≡ done (addr, loader'))
    × Maps memory_from empty_space empty_labels 0x5000 0x3000 1 100
        (empty_space-IsLoader 109 (omega arith))
        some_memory
        addr
        loader'
kboot_alloc_virtual_complete_example =
    kboot_alloc_virtual_complete memory_from empty_space empty_labels 0x5000 0x3000 1 100
      (empty_space-IsLoader 109 (omega arith)) some_memory 0x400000 refl (omega arith)
      empty_space-IsBelow (omega arith) empty_space_canonical empty_space-HasRoom

kboot_map_virtual_lem_example :
    ((a : ℕ)
      → inside 0x200000 0x3000 a ≡ true
      → tag_at empty_space.allocator.regions a ≡ some true
      → kboot_map_virtual memory_from.memory_alloc empty_space 0x200000 0x5000 0x3000 2
        ≡ stop boot_error)
    × (((a : ℕ)
          → inside 0x200000 0x3000 a ≡ true
          → tag_at empty_space.allocator.regions a ≢ some true)
        → ((0x5000 ≢ no_phys)
            × (is_canonical_range 0x200000 0x3000 ≡ false)
            × (kboot_map_virtual memory_from.memory_alloc empty_space 0x200000 0x5000 0x3000 2
                ≡ stop boot_error))
          ⊎ ((loader' : Loader ℕ) × (kboot_map_virtual memory_from.memory_alloc empty_space 0x200000
                  0x5000 0x3000 2
                ≡ done loader')
              × Maps memory_from empty_space empty_labels 0x5000 0x3000 2 100
                  (empty_space-IsLoader 109 (omega arith))
                  some_memory
                  0x200000
                  loader'))
kboot_map_virtual_lem_example =
    kboot_map_virtual_lem memory_from empty_space empty_labels 0x5000 0x3000 2 100
      (empty_space-IsLoader 109 (omega arith)) some_memory 0x200000 three_pages three-managed

-- Three pages at an address, two anywhere, and a page that no memory is mapped at.
abbrev some_tags : List MappingTag
some_tags =
    record { virt = 0x200000; phys = 0x5000; size = 0x3000; cache = 2 }
    ∷ record { virt = 2 ^ 64 - 1; phys = 0x9000; size = 0x2000; cache = 0 }
    ∷ record { virt = 2 ^ 64 - 1; phys = no_phys; size = 0x1000; cache = 0 }
    ∷ []

some_tags-IsTag : All (IsTag 0x400000 empty_space.allocator) some_tags
some_tags-IsTag = (
  (refl, omega arith, some_memory, omega arith, λ _. (three_pages, three-managed)),
  (
    (refl, omega arith, inr (refl, omega arith), omega arith, λ e. absurd (ground (arith, e))),
    ((refl, omega arith, inl refl, omega arith, λ e. absurd (ground (arith, e))), tt),
  ),
)

empty_space-IsWithin : IsWithin 0x400000 empty_space.allocator
empty_space-IsWithin = (λ a m. within a (sym (managed_is a) ∙ m), empty_space-IsBelow)
  where
    within : (a : ℕ) → (leb 0x1000 a && leb a 0x3fffff) ≡ true → a < 0x400000
    within a m = ground (arith, m)

map_itags_lem_example :
    Mapped memory_from 2 0x400000 100 empty_space some_tags
      (map_itags memory_from.memory_alloc 2 empty_space some_tags)
map_itags_lem_example =
    map_itags_lem memory_from 2 0x400000 100 some_tags empty_space empty_labels
      (empty_space-IsLoader 118 (omega arith)) empty_space-IsWithin some_tags-IsTag

-- Unfolding this unfolds the code.
kernel_code : ℕ
unfolding round_up last cut remainder locate trim swallow insert_at alloc_end insert_region
    insert_region_at fits_in alloc_from allocator_alloc reserve_between allocator_reserve conflicts
    allocator_insert allocator_init mmu_map mmu_map_64 map_from map_small_64 map_large_64
    get_pdir_64 next_table is_canonical_range check_mapping convert_mmu_flags add_mapping
    place_mapping kboot_alloc_virtual kboot_map_virtual map_itags
kernel_code = 0

-- The mapped addresses, in order, and where one of them leads.
abbrev starts : List Mapping → List ℕ
starts [] = []
starts (m ∷ ms) = m.start ∷ starts ms

abbrev outcome : ℕ → Outcome (Loader ℕ) → List ℕ × Option ℕ
outcome v (done loader) = (starts loader.mappings, translate loader.mmu v)
outcome v _ = ([], none)

all_tags_mapped :
    outcome 0x201234 (map_itags memory_from.memory_alloc 2 empty_space some_tags)
    ≡ (0x1000 ∷ 0x3000 ∷ 0x200000 ∷ [], some 0x6234)
unfolding kernel_code lookup
all_tags_mapped = refl
