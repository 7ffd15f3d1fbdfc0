-- ===== src/Allocator.antt =====
-- The region allocator of source/lib/allocator.c, which hands out virtual address space. A region is
-- a range tagged with whether it is allocated; the list links are the order of the list.
pub mod Regions
pub mod Laws
pub mod Reserve
mod Tests
use kboot.Base.{
  ℕ, ◌+◌, ◌%◌, ◌^◌, List, [], ◌∷◌, Option, none, some, Bool, true, false, ◌&&◌, ◌||◌, not, ltb, leb,
  ◌==◌, if◌then◌else◌, add64, sub64,
}
use kboot.Base.Rounding.{round_up}
use kboot.Base.Outcome.{Outcome, done, stop, ◌>>=◌, ◌>>◌, assert}
use kboot.Range.{Range, Place, last, to_list, unwind, locate, insert_at}
use kboot.Memory.MemoryType.{page_size}

abbrev pub Region : Type 0
Region = Range Bool

-- `allocator_t`
pub record Allocator : Type 0 where
  pub start : ℕ
  pub size : ℕ
  pub regions : List Region

-- The 64-bit end of the range that is managed.
unfoldable pub alloc_end : Allocator → ℕ
alloc_end alloc = sub64 (add64 alloc.start alloc.size) 1

-- `insert_region` with no location given: the place is searched for.
unfoldable pub insert_region : Allocator → Region → Allocator
insert_region alloc region =
    let (before, after) = locate region.start [] alloc.regions in
    record alloc { regions = to_list (insert_at region before after) }

-- `insert_region` at the region `location`, given with what stands before and after it: the new
-- region goes before it, or after it if it starts in its middle.
unfoldable pub insert_region_at :
    Allocator → Region → List Region → Region → List Region → Allocator
insert_region_at alloc region before location after = record alloc {
  regions =
      if leb region.start location.start
      then to_list (insert_at region before (location ∷ after))
      else to_list (insert_at region (location ∷ before) after);
}

-- Whether an allocation fits in a region.
unfoldable pub fits_in : ℕ → ℕ → Region → Bool
fits_in size align region = leb (sub64 (add64 (round_up region.start align) size) 1) (last region)

-- The loop of `allocator_alloc`: the regions before the one that it looks at, nearest first.
unfoldable pub alloc_from : Allocator → ℕ → ℕ → List Region → List Region → Option (Allocator × ℕ)
alloc_from alloc size align before [] = none
alloc_from alloc size align before (region ∷ after) =
    let next = alloc_from alloc size align (region ∷ before) after in
    let start = round_up region.start align in
    let fresh : Region = record { start = start; size = size; tag = true } in
    if not region.tag && fits_in size align region
    then some (insert_region_at alloc fresh before region after, start)
    else next

unfoldable pub allocator_alloc : Allocator → ℕ → ℕ → Outcome (Option (Allocator × ℕ))
allocator_alloc alloc size align = do
  assert (size % page_size == 0)
  assert (align % page_size == 0)
  assert (not (size == 0))
  done (alloc_from alloc size (if align == 0 then page_size else align) [] alloc.regions)

-- What `allocator_reserve` does from `lo` to `hi`, the bounds of the range trimmed to the allocator.
unfoldable pub reserve_between : Allocator → ℕ → ℕ → Allocator
reserve_between alloc lo hi =
    if ltb hi lo
    then alloc
    else insert_region alloc (record { start = lo; size = add64 (sub64 hi lo) 1; tag = true })

unfoldable pub allocator_reserve : Allocator → ℕ → ℕ → Outcome Allocator
allocator_reserve alloc addr size = do
  assert (addr % page_size == 0)
  assert (size % page_size == 0)
  assert (not (size == 0))
  let region_end = sub64 (add64 addr size) 1
  let lo = if ltb addr alloc.start then alloc.start else addr
  let hi = if ltb region_end (alloc_end alloc) then region_end else alloc_end alloc
  done (reserve_between alloc lo hi)

-- Whether an allocated region meets the addresses from `addr` to `region_end`.
unfoldable pub conflicts : ℕ → ℕ → List Region → Bool
conflicts addr region_end [] = false
conflicts addr region_end (exist ∷ rest) =
    (exist.tag
      && leb (if ltb addr exist.start then exist.start else addr)
          (if ltb region_end (last exist) then region_end else last exist))
    || conflicts addr region_end rest

-- `none` where the function returns false.
unfoldable pub allocator_insert : Allocator → ℕ → ℕ → Outcome (Option Allocator)
allocator_insert alloc addr size = do
  assert (addr % page_size == 0)
  assert (size % page_size == 0)
  assert (not (size == 0))
  (if conflicts addr (sub64 (add64 addr size) 1) alloc.regions
      then done none
      else (allocator_reserve alloc addr size >>= λ alloc'. done (some alloc')))

-- A size of 0 with a start of 0 stands for the whole address space.
unfoldable pub allocator_init : ℕ → ℕ → Outcome Allocator
allocator_init start size = do
  assert (start % page_size == 0)
  assert (size % page_size == 0)
  assert (ltb start (add64 start size) || add64 start size == 0)
  done (
      insert_region (record { start = start; size = size; regions = [] })
        (record { start = start; size = size; tag = false }))
