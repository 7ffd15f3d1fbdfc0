-- ===== src/Mmu.antt =====
-- Page tables of 64-bit contexts, source/arch/x86/mmu.c and source/arch/x86/include/x86/mmu.h. Memory is what
-- each table, by its physical address, has at each index; memory_alloc is a parameter.
pub mod Keys
pub mod Tree
pub mod Updates
pub mod Leaves
pub mod Grow
pub mod Pages
pub mod Small
pub mod Map
pub mod Covers
pub mod Loops
pub mod Laws
pub mod Create
pub mod Supply
pub mod Access
mod Tests
use kboot.Base.{
  ℕ, zero, suc, ◌+◌, ◌-◌, ◌*◌, ◌/◌, ◌%◌, ◌^◌, Bool, true, false, ltb, leb, ◌==◌, ◌&&◌, ◌||◌, not,
  if◌then◌else◌,
}
use kboot.Base.Outcome.{Outcome, done, stop, ◌>>=◌, ◌>>◌, assert}

abbrev pub page_size : ℕ
page_size = 0x1000

abbrev pub large_page_size_64 : ℕ
large_page_size_64 = 0x200000

abbrev pub x86_pdpt_range_64 : ℕ
x86_pdpt_range_64 = 0x8000000000

abbrev pub x86_pdir_range_64 : ℕ
x86_pdir_range_64 = 0x40000000

abbrev pub x86_ptbl_range_64 : ℕ
x86_ptbl_range_64 = 0x200000

-- The entry at an index of the table at an address.
abbrev pub Tables : Type 0
Tables = ℕ → ℕ → ℕ

-- mmu_context_t and what it works on: the tables, and the state of the physical memory manager.
pub record Context (S : Type 0) : Type 0 where
  pub cr3 : ℕ
  pub tables : Tables
  pub memory : S

-- X86_PTE_PRESENT.
abbrev pub is_present : ℕ → Bool
is_present e = e % 2 == 1

-- X86_PTE_LARGE.
abbrev pub is_large : ℕ → Bool
is_large e = e / 128 % 2 == 1

-- The part in X86_PTE_ADDR_MASK_64.
abbrev pub address_of : ℕ → ℕ
address_of e = e % 2 ^ 40 / 2 ^ 12 * 2 ^ 12

-- X86_PTE_PRESENT | X86_PTE_WRITE, of an aligned address.
abbrev pub link_to : ℕ → ℕ
link_to addr = addr + 3

abbrev pub set : Tables → ℕ → ℕ → ℕ → Tables
set tables t i e = λ t' i'. if t' == t && i' == i then e else tables t' i'

-- memset of a page.
abbrev pub clear : Tables → ℕ → Tables
clear tables t = λ t' i'. if t' == t then 0 else tables t' i'

module _ {S : Type 0} (memory_alloc : S → Outcome (ℕ × S)) where
  abbrev pub allocate_structure : Context S → Outcome (ℕ × Context S)
  allocate_structure ctx = memory_alloc ctx.memory >>= λ (phys, memory).
      done (phys, record ctx { tables = clear ctx.tables phys; memory = memory })

  -- The table that an entry refers to, which is made where it is not present.
  unfoldable pub next_table : Context S → ℕ → ℕ → Outcome (ℕ × Context S)
  next_table ctx t i =
      if is_present (ctx.tables t i)
      then done (address_of (ctx.tables t i), ctx)
      else allocate_structure ctx >>= λ (addr, ctx').
          done
            (address_of (link_to addr), record ctx' { tables = set ctx'.tables t i (link_to addr) })

  -- With `alloc` set.
  unfoldable pub get_pdir_64 : Context S → ℕ → Outcome (ℕ × Context S)
  get_pdir_64 ctx virt = next_table ctx ctx.cr3 (virt / x86_pdpt_range_64 % 512) >>= λ (pdpt, ctx').
      next_table ctx' pdpt (virt % x86_pdpt_range_64 / x86_pdir_range_64)

  -- The flags and the address have no bit in common.
  unfoldable pub map_large_64 : Context S → ℕ → ℕ → ℕ → Outcome (Context S)
  map_large_64 ctx virt phys pte_flags =
      assert (virt % large_page_size_64 == 0)
      >> (assert (phys % large_page_size_64 == 0)
          >> (get_pdir_64 ctx virt >>= λ (pdir, ctx'). done (record ctx' {
            tables =
                set ctx'.tables pdir (virt % x86_pdir_range_64 / large_page_size_64)
                  (phys + pte_flags + 128);
          })))

  unfoldable pub map_small_64 : Context S → ℕ → ℕ → ℕ → Outcome (Context S)
  map_small_64 ctx virt phys pte_flags =
      assert (virt % page_size == 0)
      >> (assert (phys % page_size == 0)
          >> (get_pdir_64 ctx virt >>= λ (pdir, ctx1).
              next_table ctx1 pdir (virt % x86_pdir_range_64 / x86_ptbl_range_64)
              >>= λ (ptbl, ctx2). done (record ctx2 {
                tables =
                    set ctx2.tables ptbl (virt % x86_ptbl_range_64 / page_size) (phys + pte_flags);
              })))
