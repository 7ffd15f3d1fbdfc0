-- ===== src/Memory/Tests.antt =====
-- Runs of the memory manager, and the theorems at concrete maps.
use mathlib.Core.Option
use kboot.Base.{ℕ, ◌≡◌, refl, [], ◌∷◌, some, Bool, true, false, inl, if◌then◌else◌, arith, All, Any}
use kboot.Base.Outcome.{done, stop, internal_error}
use kboot.Base.Rounding.{round_up, round_down}
use kboot.Range.{Range, last, cut, remainder, locate, trim, swallow, insert_at}
use kboot.Range.View.{tag_at}
use kboot.Memory.MemoryType
use kboot.Memory.MemoryType.{page_size}
use kboot.Memory.Map.{
  MemoryMap, insert_range, memory_map_insert, memory_map_remove, merge_previous, merge_next,
  merge_ranges,
}
use kboot.Memory.Map.Laws.{IsMap, IsPageRange, inside, memory_map_insert_lem}
use kboot.Memory.Alloc.{
  Request, align_within, find_range, claim, reclaim, finalize_from, is_suitable_range, normalise,
  memory_alloc, memory_free, memory_finalize, is_held,
}
use kboot.Memory.Alloc.Suitable.{IsNormal, Fits, Room}
use kboot.Memory.Alloc.Laws.{IsRequest, IsAllocated, memory_alloc_sound, memory_alloc_complete}
use kboot.Memory.Alloc.Finalize.{memory_finalize_lem, reclaimed}
use kboot.Memory.Alloc.Release.{Encloses, memory_free_lem, memory_free-memory_alloc}

-- Unfolding this unfolds all of the memory manager.
memory_code : ℕ
unfolding round_up round_down last cut remainder locate trim swallow insert_at merge_previous
    merge_next merge_ranges insert_range memory_map_insert memory_map_remove align_within
    is_suitable_range find_range normalise claim memory_alloc is_held memory_free reclaim
    finalize_from memory_finalize
memory_code = 0

abbrev two_ranges : MemoryMap
two_ranges =
    record { start = 0x100000; size = 0x100000; tag = MemoryType.free }
    ∷ record { start = 0x200000; size = 0x100000; tag = MemoryType.allocated }
    ∷ []

two_ranges-IsMap : IsMap two_ranges
unfolding last
two_ranges-IsMap = omega arith

one_page : IsPageRange 0x180000 0x1000
one_page = record {
  start_aligned = refl;
  size_aligned = refl;
  size_positive = omega arith;
  fits = omega arith;
}

-- A page in the middle of the free range splits it.
split_in_three :
    memory_map_insert two_ranges 0x180000 0x1000 MemoryType.stack
    ≡ done (
        record { start = 0x100000; size = 0x80000; tag = MemoryType.free }
        ∷ record { start = 0x180000; size = 0x1000; tag = MemoryType.stack }
        ∷ record { start = 0x181000; size = 0x7f000; tag = MemoryType.free }
        ∷ record { start = 0x200000; size = 0x100000; tag = MemoryType.allocated }
        ∷ [])
unfolding memory_code
split_in_three = refl

memory_map_insert_lem_example :
    (map' : MemoryMap) × (memory_map_insert two_ranges 0x180000 0x1000 MemoryType.stack ≡ done map')
    × IsMap map'
    × ((a : ℕ)
        → tag_at map' a
          ≡ (if inside 0x180000 0x1000 a then some MemoryType.stack else tag_at two_ranges a))
memory_map_insert_lem_example =
    memory_map_insert_lem 0x180000 0x1000 MemoryType.stack one_page two_ranges two_ranges-IsMap

abbrev two_pages : Bool → Request
two_pages high = record {
  size = 0x2000;
  align = 0x4000;
  min_addr = 0;
  max_addr = 0;
  flags = record { high = high; can_fail = false };
}

abbrev two_pages_request : (high : Bool) → IsRequest (two_pages high) MemoryType.modules
two_pages_request high = record {
  size_positive = omega arith;
  size_aligned = refl;
  align_aligned = refl;
  typed = λ e. omega (arith, e);
  clear = omega arith;
}

-- The highest place for two pages at a multiple of four.
abbrev after_high : MemoryMap
after_high =
    record { start = 0x100000; size = 0xfc000; tag = MemoryType.free }
    ∷ record { start = 0x1fc000; size = 0x2000; tag = MemoryType.modules }
    ∷ record { start = 0x1fe000; size = 0x2000; tag = MemoryType.free }
    ∷ record { start = 0x200000; size = 0x100000; tag = MemoryType.allocated }
    ∷ []

high_place :
    memory_alloc two_ranges (two_pages true) MemoryType.modules ≡ done (after_high, some 0x1fc000)
unfolding memory_code
high_place = refl

no_wrap : All (Room (normalise (two_pages true))) two_ranges
unfolding last normalise
no_wrap = omega arith

memory_alloc_sound_example :
    IsAllocated two_ranges after_high (normalise (two_pages true)) MemoryType.modules 0x1fc000
memory_alloc_sound_example =
    memory_alloc_sound (two_pages true) MemoryType.modules (two_pages_request true) two_ranges
      after_high 0x1fc000 two_ranges-IsMap no_wrap high_place

room_high : Any (λ r. (t : ℕ) × Fits (normalise (two_pages true)) r t) two_ranges
unfolding last normalise
room_high = inl (0x100000, (refl, refl, omega arith, omega arith))

memory_alloc_complete_example :
    (map' : MemoryMap) × (s : ℕ) × (memory_alloc two_ranges (two_pages true) MemoryType.modules
      ≡ done (map', some s))
memory_alloc_complete_example =
    memory_alloc_complete (two_pages true) MemoryType.modules (two_pages_request true) two_ranges
      two_ranges-IsMap no_wrap room_high

memory_free-memory_alloc_example :
    (map'' : MemoryMap) × (memory_free after_high 0x1fc000 0x2000 ≡ done map'')
    × ((a : ℕ) → tag_at map'' a ≡ tag_at two_ranges a)
memory_free-memory_alloc_example =
    memory_free-memory_alloc (two_pages true) MemoryType.modules (two_pages_request true) two_ranges
      after_high 0x1fc000 two_ranges-IsMap no_wrap high_place

memory_free_lem_example :
    (Any (Encloses 0x280000 0x1000) two_ranges
      → (map' : MemoryMap) × (memory_free two_ranges 0x280000 0x1000 ≡ done map')
        × IsMap map'
        × ((a : ℕ)
            → tag_at map' a
              ≡ (if inside 0x280000 0x1000 a then some MemoryType.free else tag_at two_ranges a)))
    × (¬ (Any (Encloses 0x280000 0x1000) two_ranges)
        → memory_free two_ranges 0x280000 0x1000 ≡ stop internal_error)
memory_free_lem_example = memory_free_lem two_ranges 0x280000 0x1000 two_ranges-IsMap (record {
  start_aligned = refl;
  size_aligned = refl;
  size_positive = omega arith;
  fits = omega arith;
})

abbrev with_internal : MemoryMap
with_internal =
    record { start = 0x100000; size = 0x1000; tag = MemoryType.free }
    ∷ record { start = 0x101000; size = 0x1000; tag = MemoryType.internal }
    ∷ record { start = 0x102000; size = 0x1000; tag = MemoryType.internal }
    ∷ record { start = 0x103000; size = 0x1000; tag = MemoryType.stack }
    ∷ []

with_internal-IsMap : IsMap with_internal
unfolding last
with_internal-IsMap = omega arith

-- Free and internal ranges become one.
finalized :
    memory_finalize with_internal
    ≡ record { start = 0x100000; size = 0x3000; tag = MemoryType.free }
      ∷ record { start = 0x103000; size = 0x1000; tag = MemoryType.stack }
      ∷ []
unfolding memory_code
finalized = refl

memory_finalize_lem_example :
    IsMap (memory_finalize with_internal)
    × ((a : ℕ)
        → tag_at (memory_finalize with_internal) a ≡ Option.map reclaimed (tag_at with_internal a))
memory_finalize_lem_example = memory_finalize_lem with_internal with_internal-IsMap

-- Below, requests with the defaults filled in, against the first range of `two_ranges`.
abbrev low_range : Range ℕ
low_range = record { start = 0x100000; size = 0x100000; tag = MemoryType.free }

abbrev request : Bool → ℕ → Request
request high size = record {
  size = size;
  align = 0x4000;
  min_addr = 0x100000;
  max_addr = 0xffff_ffff;
  flags = record { high = high; can_fail = false };
}

request-IsNormal : IsNormal (request false 0x2000)
request-IsNormal = omega arith
