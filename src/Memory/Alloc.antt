-- ===== src/Memory/Alloc.antt =====
-- Allocation from the map `memory_ranges` of source/memory.c: `is_suitable_range`, `memory_alloc`,
-- `memory_free`, `memory_add`, `memory_remove`, `memory_snapshot`, `memory_finalize`. The map is
-- passed on from call to call; printing is left out.
pub mod Suitable
pub mod Laws
pub mod Finalize
pub mod Release
use kboot.Base.{
  ℕ, suc, zero, ◌+◌, ◌-◌, ◌%◌, ◌^◌, List, [], ◌∷◌, Option, none, some, Bool, true, false, ◌&&◌,
  ◌||◌, not, ltb, leb, ◌==◌, if◌then◌else◌, add64, sub64, length,
}
use mathlib.Core.List.{reverse}
use kboot.Base.Rounding.{round_up, round_down}
use kboot.Base.Outcome.{Outcome, done, stop, ◌>>=◌, ◌>>◌, assert, Fault, internal_error, boot_error}
use kboot.Range.{Range, Place, last, unwind, to_list}
use kboot.Memory.MemoryType
use kboot.Memory.MemoryType.{page_size}
use kboot.Memory.Map.{MemoryMap, memory_map_insert, memory_map_remove, merge_ranges}

-- The bounds that a platform gives (`TARGET_PHYS_MIN` of the BIOS loader, the default
-- `TARGET_PHYS_MAX`).
abbrev pub target_phys_min : ℕ
target_phys_min = 0x100000

abbrev pub target_phys_max : ℕ
target_phys_max = 0xffff_ffff

-- `MEMORY_ALLOC_HIGH` and `MEMORY_ALLOC_CAN_FAIL`
pub record Flags : Type 0 where
  pub high : Bool
  pub can_fail : Bool

-- What an allocation asks for.
pub record Request : Type 0 where
  pub size : ℕ
  pub align : ℕ
  pub min_addr : ℕ
  pub max_addr : ℕ
  pub flags : Flags

abbrev pub match_start : Request → Range ℕ → ℕ
match_start q range = if ltb q.min_addr range.start then range.start else q.min_addr

abbrev pub match_end : Request → Range ℕ → ℕ
match_end q range = if ltb q.max_addr (last range) then q.max_addr else last range

-- The aligned address within the bounds, where the request fits there.
unfoldable pub align_within : Request → ℕ → ℕ → Option ℕ
align_within q lo hi =
    let down = round_down (add64 (sub64 hi q.size) 1) q.align in
    let up = round_up lo q.align in
    if q.flags.high
    then if ltb down lo then none else some down
    else if ltb hi (sub64 (add64 up q.size) 1)
    then none
    else some up

-- The address, where the function returns true.
unfoldable pub is_suitable_range : Request → Range ℕ → Option ℕ
is_suitable_range q range =
    if not (range.tag == MemoryType.free)
    then none
    else if leb (match_end q range) (match_start q range)
    then none
    else align_within q (match_start q range) (match_end q range)

-- The loop of `memory_alloc`, over the ranges in the order in which it visits them.
unfoldable pub find_range : Request → List (Range ℕ) → Option ℕ
find_range q [] = none
find_range q (range ∷ rest) =
    let next = find_range q rest in
    elim (is_suitable_range q range) [ some start ↦ some start | none ↦ next ]

-- The defaults that `memory_alloc` fills in.
unfoldable pub normalise : Request → Request
normalise q = record {
  size = q.size;
  align = if q.align == 0 then page_size else q.align;
  min_addr = if q.min_addr == 0 then target_phys_min else q.min_addr;
  max_addr =
      if q.max_addr == 0 || ltb target_phys_max q.max_addr then target_phys_max else q.max_addr;
  flags = q.flags;
}

-- What follows the search: the new map and the address, or none where the call may fail.
unfoldable pub claim : MemoryMap → Request → ℕ → Option ℕ → Outcome (MemoryMap × Option ℕ)
claim map q type (some start) = do
  map' ← memory_map_insert map start q.size type
  done (map', some start)
claim map q type none = if q.flags.can_fail then done (map, none) else stop boot_error

unfoldable pub memory_alloc : MemoryMap → Request → ℕ → Outcome (MemoryMap × Option ℕ)
memory_alloc map request type = do
  assert (request.size % page_size == 0)
  assert (request.align % page_size == 0)
  assert (not (type == MemoryType.free))
  let q = normalise request
  assert (leb (sub64 q.size 1) (sub64 q.max_addr q.min_addr))
  claim map q type (find_range q (if q.flags.high then reverse map else map))

-- Whether a range is not free and holds the addresses from `phys` on.
abbrev pub holds : ℕ → ℕ → Range ℕ → Bool
holds phys size range =
    not (range.tag == MemoryType.free)
    && leb range.start phys
    && leb (sub64 (add64 phys size) 1) (last range)

unfoldable pub is_held : ℕ → ℕ → List (Range ℕ) → Bool
is_held phys size [] = false
is_held phys size (range ∷ rest) = holds phys size range || is_held phys size rest

unfoldable pub memory_free : MemoryMap → ℕ → ℕ → Outcome MemoryMap
memory_free map phys size = do
  assert (phys % page_size == 0)
  assert (size % page_size == 0)
  (if is_held phys size map
      then memory_map_insert map phys size MemoryType.free
      else stop internal_error)

unfoldable pub memory_add : MemoryMap → ℕ → ℕ → ℕ → Outcome MemoryMap
memory_add map start size type = memory_map_insert map start size type

unfoldable pub memory_remove : MemoryMap → ℕ → ℕ → Outcome MemoryMap
memory_remove map start size = memory_map_remove map start size

-- A copy of the map.
unfoldable pub memory_snapshot : MemoryMap → MemoryMap
memory_snapshot [] = []
memory_snapshot (range ∷ map) =
    record { start = range.start; size = range.size; tag = range.tag } ∷ memory_snapshot map

-- The body of the loop of `memory_finalize`, at a range with what stands before and after it.
unfoldable pub reclaim : List (Range ℕ) → Range ℕ → List (Range ℕ) → Place ℕ
reclaim before range after =
    if range.tag == MemoryType.internal
    then merge_ranges
        (record { before = before; range = record range { tag = MemoryType.free }; after = after })
    else record { before = before; range = range; after = after }

-- The loop: the first argument bounds the rounds.
unfoldable pub finalize_from : ℕ → List (Range ℕ) → List (Range ℕ) → MemoryMap
finalize_from zero before rest = unwind before rest
finalize_from (suc rounds) before [] = unwind before []
finalize_from (suc rounds) before (range ∷ rest) =
    let p = reclaim before range rest in finalize_from rounds (p.range ∷ p.before) p.after

unfoldable pub memory_finalize : MemoryMap → MemoryMap
memory_finalize map = finalize_from (length map) [] map
