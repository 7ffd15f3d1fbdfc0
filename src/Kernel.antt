-- ===== src/Kernel.antt =====
-- The KBoot loader's virtual address space, source/loader/kboot.c: a kernel's mappings, for which the address
-- allocator finds room and the page tables get entries. The kernel is a 64-bit one, as the page tables are.
pub mod Mappings
pub mod Agreement
pub mod Placement
pub mod Bounds
pub mod Laws
pub mod Room
pub mod Entries
pub mod Tags
pub mod Create
mod Tests
use kboot.Base.{
  ℕ, zero, suc, ◌+◌, ◌-◌, ◌*◌, ◌/◌, ◌%◌, ◌^◌, List, [], ◌∷◌, Bool, true, false, ltb, leb, ◌==◌,
  ◌&&◌, ◌||◌, not, if◌then◌else◌, Option, none, some, add64, sub64,
}
use kboot.Base.Outcome.{Outcome, done, stop, boot_error, ◌>>=◌}
use kboot.Memory.MemoryType.{page_size}
use kboot.Allocator.{
  Allocator, allocator_alloc, allocator_insert, allocator_init, allocator_reserve,
}
use kboot.Mmu.{Context, Tables}
use kboot.Mmu.Map.{mmu_map, is_canonical_range}
use kboot.Mmu.Create.{mmu_context_create}

-- ~(kboot_paddr_t)0, for a range that no memory is mapped at.
abbrev pub no_phys : ℕ
no_phys = 2 ^ 64 - 1

-- kboot_mapping_t.
pub record Mapping : Type 0 where
  pub start : ℕ
  pub size : ℕ
  pub phys : ℕ
  pub cache : ℕ

-- What is used of kboot_loader_t.
pub record Loader (S : Type 0) : Type 0 where
  pub mmu : Context S
  pub allocator : Allocator
  pub mappings : List Mapping

abbrev pub kboot_cache_wt : ℕ
kboot_cache_wt = 1

abbrev pub kboot_cache_uc : ℕ
kboot_cache_uc = 2

abbrev pub check_address : Bool → ℕ → ℕ → Bool
check_address is_32bit addr size =
    not (addr % page_size == 0)
    || ltb (sub64 (add64 addr size) 1) addr
    || (is_32bit && leb 0x100000000 (sub64 (add64 addr size) 1))

unfoldable pub check_mapping : Bool → ℕ → ℕ → ℕ → Bool
check_mapping is_32bit addr phys size =
    if size == 0 || not (size % page_size == 0)
    then false
    else if not (addr == 2 ^ 64 - 1) && check_address is_32bit addr size
    then false
    else not (not (phys == no_phys) && not (phys % page_size == 0))

unfoldable pub convert_mmu_flags : ℕ → ℕ
convert_mmu_flags cache =
    if cache == kboot_cache_uc then 4 else if cache == kboot_cache_wt then 2 else 0

-- The mappings are kept in the order of their addresses.
unfoldable pub add_mapping : List Mapping → Mapping → List Mapping
add_mapping [] mapping = mapping ∷ []
add_mapping (other ∷ rest) mapping =
    let later = add_mapping rest mapping in
    if leb mapping.start other.start then mapping ∷ other ∷ rest else other ∷ later

abbrev pub mapped : {S : Type 0} → Bool × Context S → Outcome (Context S)
mapped (true, mmu) = done mmu
mapped (false, mmu) = stop boot_error

-- An itag of type KBOOT_ITAG_MAPPING, with its cache field.
pub record MappingTag : Type 0 where
  pub virt : ℕ
  pub phys : ℕ
  pub size : ℕ
  pub cache : ℕ

module _ {S : Type 0} (memory_alloc : S → Outcome (ℕ × S)) where
  -- What the two functions below do once the allocator has the range.
  unfoldable pub place_mapping : Loader S → Allocator → ℕ → ℕ → ℕ → ℕ → Outcome (Loader S)
  place_mapping loader allocator addr phys size cache =
      (if not (phys == no_phys)
        then mmu_map memory_alloc loader.mmu addr phys size (convert_mmu_flags cache) >>= mapped
        else done loader.mmu)
      >>= λ mmu. done (record {
        mmu = mmu;
        allocator = allocator;
        mappings =
            add_mapping loader.mappings
              (record { start = addr; size = size; phys = phys; cache = cache });
      })

  abbrev pub place_allocated :
      Loader S → ℕ → ℕ → ℕ → Option (Allocator × ℕ) → Outcome (ℕ × Loader S)
  place_allocated loader phys size cache none = stop boot_error
  place_allocated loader phys size cache (some (allocator, addr)) =
      place_mapping loader allocator addr phys size cache >>= λ loader'. done (addr, loader')

  unfoldable pub kboot_alloc_virtual : Loader S → ℕ → ℕ → ℕ → Outcome (ℕ × Loader S)
  kboot_alloc_virtual loader phys size cache =
      if not (check_mapping false (2 ^ 64 - 1) phys size)
      then stop boot_error
      else allocator_alloc loader.allocator size 0 >>= place_allocated loader phys size cache

  abbrev pub place_inserted : Loader S → ℕ → ℕ → ℕ → ℕ → Option Allocator → Outcome (Loader S)
  place_inserted loader addr phys size cache none = stop boot_error
  place_inserted loader addr phys size cache (some allocator) =
      place_mapping loader allocator addr phys size cache

  unfoldable pub kboot_map_virtual : Loader S → ℕ → ℕ → ℕ → ℕ → Outcome (Loader S)
  kboot_map_virtual loader addr phys size cache =
      if not (check_mapping false addr phys size)
      then stop boot_error
      else allocator_insert loader.allocator addr size
        >>= place_inserted loader addr phys size cache

  -- The loop of kboot_loader_load over the image's mapping tags.
  unfoldable pub map_itags : ℕ → Loader S → List MappingTag → Outcome (Loader S)
  map_itags version loader [] = done loader
  map_itags version loader (tag ∷ tags) =
      let cache = if leb 2 version then tag.cache else 0 in
      (if tag.virt == 2 ^ 64 - 1
        then (kboot_alloc_virtual loader tag.phys tag.size cache >>= λ (_, loader'). done loader')
        else kboot_map_virtual loader tag.virt tag.phys tag.size cache)
      >>= λ loader'. map_itags version loader' tags

-- The size that the check leaves, for a range that it accepts.
unfoldable pub check_virt_map_params : Bool → ℕ → ℕ → Option ℕ
check_virt_map_params is_32bit base size =
    if not (base % page_size == 0) || not (size % page_size == 0)
    then none
    else if not (base == 0) && size == 0
    then none
    else if ltb (sub64 (add64 base size) 1) base
    then none
    else if is_32bit
    then (if base == 0 && size == 0
        then some 0x100000000
        else if ltb 0x100000000 (add64 base size)
        then none
        else some size)
    else some size

-- The range that kboot_arch_check_load_params of x86 leaves a 64-bit kernel.
unfoldable pub check_load_params : ℕ → ℕ → Outcome (ℕ × ℕ)
check_load_params base size =
    if not (base == 0) || not (size == 0)
    then (if not (is_canonical_range base size) then stop boot_error else done (base, size))
    else done (0, 0x800000000000)

abbrev pub checked_range : ℕ → Option ℕ → Outcome (ℕ × ℕ)
checked_range base none = stop boot_error
checked_range base (some size) = check_load_params base size

-- The part of kboot_loader_load that ends with the allocator. An image without a load tag asks for 0 and 0.
unfoldable pub create_space :
    {S : Type 0} → (S → Outcome (ℕ × S)) → Tables → S → ℕ → ℕ → Outcome (Loader S)
create_space memory_alloc tables memory base size =
    checked_range base (check_virt_map_params false base size) >>= λ (base', size').
    mmu_context_create memory_alloc tables memory >>= λ mmu.
    allocator_init base' size' >>= λ allocator.
    allocator_reserve allocator 0 page_size >>= λ allocator'.
    done (record { mmu = mmu; allocator = allocator'; mappings = [] })
