-- ===== src/Memory/Map.antt =====
-- Memory maps: `merge_ranges`, `insert_range`, `memory_map_insert` and `memory_map_remove` of
-- source/memory.c.
pub mod Merge
pub mod Laws
use kboot.Base.{ℕ, ◌%◌, List, [], ◌∷◌, Bool, true, false, ◌&&◌, not, ◌==◌, if◌then◌else◌, add64}
use kboot.Base.Outcome.{Outcome, done, stop, ◌>>=◌, ◌>>◌, assert}
use kboot.Range.{Range, Place, unwind, to_list, locate, insert_at}
use kboot.Memory.MemoryType
use kboot.Memory.MemoryType.{page_size}

abbrev pub MemoryMap : Type 0
MemoryMap = List (Range ℕ)

-- The previous range, where it ends at this one and has its type, is taken into it.
unfoldable pub merge_previous : List (Range ℕ) → Range ℕ → List (Range ℕ) → Place ℕ
merge_previous [] range after = record { before = []; range = range; after = after }
merge_previous (other ∷ before) range after =
    if add64 other.start other.size == range.start && other.tag == range.tag
    then record {
      before = before;
      range = record range { start = other.start; size = add64 range.size other.size };
      after = after;
    }
    else record { before = other ∷ before; range = range; after = after }

-- The same with the next range.
unfoldable pub merge_next : List (Range ℕ) → Range ℕ → List (Range ℕ) → Place ℕ
merge_next before range [] = record { before = before; range = range; after = [] }
merge_next before range (other ∷ after) =
    if other.start == add64 range.start range.size && other.tag == range.tag
    then record {
      before = before;
      range = record range { size = add64 range.size other.size };
      after = after;
    }
    else record { before = before; range = range; after = other ∷ after }

unfoldable pub merge_ranges : Place ℕ → Place ℕ
merge_ranges p =
    let q = merge_previous p.before p.range p.after in merge_next q.before q.range q.after

-- The three assertions come first.
unfoldable pub insert_range : MemoryMap → ℕ → ℕ → ℕ → Outcome (Place ℕ)
insert_range map start size type = do
  assert (start % page_size == 0)
  assert (size % page_size == 0)
  assert (not (size == 0))
  let (before, after) = locate start [] map
  done (insert_at (record { start = start; size = size; tag = type }) before after)

unfoldable pub memory_map_insert : MemoryMap → ℕ → ℕ → ℕ → Outcome MemoryMap
memory_map_insert map start size type = do
  range ← insert_range map start size type
  done (to_list (merge_ranges range))

-- `list_remove` of the inserted range.
unfoldable pub memory_map_remove : MemoryMap → ℕ → ℕ → Outcome MemoryMap
memory_map_remove map start size = do
  range ← insert_range map start size MemoryType.internal
  done (unwind range.before range.after)
