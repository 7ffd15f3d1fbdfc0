-- ===== src/Allocator/Tests.antt =====
-- Runs of the allocator, and the theorems at concrete allocators.
use kboot.Base.{
  ℕ, ◌+◌, ◌-◌, ◌^◌, ◌≤◌, ◌≡◌, ◌≢◌, refl, [], ◌∷◌, none, some, true, false, inl, inr, ◌&&◌,
  if◌then◌else◌, arith, All, Any,
}
use kboot.Base.Outcome.{done}
use kboot.Base.Rounding.{round_up}
use kboot.Range.{last, cut, remainder, locate, trim, swallow, insert_at}
use kboot.Range.View.{tag_at}
use kboot.Memory.Map.Laws.{IsPageRange, inside}
use kboot.Allocator.{
  Allocator, alloc_end, insert_region, insert_region_at, fits_in, alloc_from, allocator_alloc,
  reserve_between, allocator_reserve, conflicts, allocator_insert, allocator_init,
}
use kboot.Allocator.Laws.{
  IsOrdered, IsAsked, IsTaken, HasRoom, effective, allocator_alloc_sound, allocator_alloc_complete,
}
use kboot.Allocator.Reserve.{HasBounds, managed, allocator_insert_lem}

-- Unfolding this unfolds all of the allocator.
allocator_code : ℕ
unfolding round_up last cut remainder locate trim swallow insert_at alloc_end insert_region
    insert_region_at fits_in alloc_from allocator_alloc reserve_between allocator_reserve conflicts
    allocator_insert allocator_init
allocator_code = 0

-- 16 MiB, the first page taken.
abbrev sixteen : Allocator
sixteen = record {
  start = 0;
  size = 0x1000000;
  regions =
      record { start = 0; size = 0x1000; tag = true }
      ∷ record { start = 0x1000; size = 0xfff000; tag = false }
      ∷ [];
}

sixteen-IsOrdered : IsOrdered sixteen
unfolding last
sixteen-IsOrdered = omega arith

asked : IsAsked sixteen 0x2000 0x4000
asked = record { size_aligned = refl; align_aligned = refl; size_positive = omega arith }

room_above : All (λ r. last r + effective 0x4000 + 0x2000 ≤ 2 ^ 64) sixteen.regions
unfolding last
room_above = omega arith

abbrev after_alloc : Allocator
after_alloc = record sixteen {
  regions =
      record { start = 0; size = 0x1000; tag = true }
      ∷ record { start = 0x1000; size = 0x3000; tag = false }
      ∷ record { start = 0x4000; size = 0x2000; tag = true }
      ∷ record { start = 0x6000; size = 0xffa000; tag = false }
      ∷ [];
}

first_fit : allocator_alloc sixteen 0x2000 0x4000 ≡ done (some (after_alloc, 0x4000))
unfolding allocator_code
first_fit = refl

allocator_alloc_sound_example : IsTaken sixteen after_alloc 0x2000 (effective 0x4000) 0x4000
allocator_alloc_sound_example =
    allocator_alloc_sound sixteen 0x2000 0x4000 after_alloc 0x4000 asked sixteen-IsOrdered
      room_above first_fit

has_room : Any (HasRoom 0x2000 (effective 0x4000)) sixteen.regions
unfolding last
has_room = inr (inl (0x8000, refl, refl, omega arith, omega arith))

allocator_alloc_complete_example :
    (alloc' : Allocator) × (s : ℕ) × (allocator_alloc sixteen 0x2000 0x4000
      ≡ done (some (alloc', s)))
allocator_alloc_complete_example =
    allocator_alloc_complete sixteen 0x2000 0x4000 asked sixteen-IsOrdered room_above has_room

-- The last 8 KiB of the address space.
abbrev last_pages : Allocator
last_pages = record {
  start = 2 ^ 64 - 0x2000;
  size = 0x2000;
  regions = record { start = 2 ^ 64 - 0x2000; size = 0x2000; tag = false } ∷ [];
}

page_range : IsPageRange 0x2000 0x1000
page_range = record {
  start_aligned = refl;
  size_aligned = refl;
  size_positive = omega arith;
  fits = omega arith;
}

allocator_insert_lem_example :
    ((a : ℕ)
      → inside 0x2000 0x1000 a ≡ true
      → tag_at sixteen.regions a ≡ some true
      → allocator_insert sixteen 0x2000 0x1000 ≡ done none)
    × (((a : ℕ) → inside 0x2000 0x1000 a ≡ true → tag_at sixteen.regions a ≢ some true)
        → (alloc' : Allocator) × (allocator_insert sixteen 0x2000 0x1000 ≡ done (some alloc'))
          × IsOrdered alloc'
          × HasBounds sixteen alloc'
          × ((a : ℕ)
              → tag_at alloc'.regions a ≡ (
                  if inside 0x2000 0x1000 a && managed sixteen a
                  then some true
                  else tag_at sixteen.regions a)))
allocator_insert_lem_example =
    allocator_insert_lem sixteen 0x2000 0x1000 sixteen-IsOrdered page_range
