-- ===== src/Range.antt =====
-- Ordered lists of address ranges, the representation that source/memory.c (`memory_range_t`) and
-- source/lib/allocator.c (`allocator_region_t`) share: the code of `insert_range` and of
-- `insert_region` is the same but for how the place of insertion is found.
-- A position in the doubly linked list is what stands before it, nearest first, and after it.
pub mod View
pub mod Insert
pub mod Overwrite
use kboot.Base.{
  ℕ, ◌+◌, ◌-◌, ◌%◌, ◌^◌, ◌≤◌, ◌<◌, ◌≡◌, List, [], ◌∷◌, Option, none, some, Bool, true, false, ◌&&◌,
  ltb, leb, if◌then◌else◌, add64, sub64,
}

-- The tag is the memory type, or whether a region is allocated.
pub record Range (A : Type 0) : Type 0 where
  pub start : ℕ
  pub size : ℕ
  pub tag : A

module _ {A : Type 0} where
  -- start + size - 1, in 64 bits: a range that ends with the address space is representable.
  unfoldable pub last : Range A → ℕ
  last r = sub64 (add64 r.start r.size) 1

  -- The search for the first range that does not start below `s`.
  unfoldable pub locate : ℕ → List (Range A) → List (Range A) → List (Range A) × List (Range A)
  locate s before [] = (before, [])
  locate s before (o ∷ rest) =
      let next = locate s (o ∷ before) rest in if leb s o.start then (before, o ∷ rest) else next

  -- What remains of the previous range `o` behind the new range.
  unfoldable pub remainder : Range A → Range A → Range A
  unfolding last
  remainder r o = record o { start = add64 (last r) 1; size = sub64 (last o) (last r) }

  -- What remains of the previous range `o` before the new range.
  unfoldable pub cut : Range A → Range A → Range A
  cut r o = record o { size = sub64 r.start o.start }

  -- The previous range gives up what the new range `r` overlaps.
  unfoldable pub trim : Range A → List (Range A) → List (Range A) → List (Range A) × List (Range A)
  trim r [] after = ([], after)
  trim r (o ∷ before) after =
      if leb r.start (last o)
      then (cut r o ∷ before, if ltb (last r) (last o) then remainder r o ∷ after else after)
      else (o ∷ before, after)

  -- The following ranges that the new range overlaps are removed, the last of them cut.
  unfoldable pub swallow : Range A → List (Range A) → List (Range A)
  swallow r [] = []
  swallow r (o ∷ rest) =
      let removed = swallow r rest in
      if ltb (last r) o.start
      then o ∷ rest
      else if ltb (last r) (last o)
      then remainder r o ∷ rest
      else removed

  -- The whole list, seen from a position.
  abbrev pub unwind : List (Range A) → List (Range A) → List (Range A)
  unwind [] after = after
  unwind (o ∷ before) after = unwind before (o ∷ after)

-- A pointer to a range of a list: what stands before it, nearest first, the range, what follows.
pub record Place (A : Type 0) : Type 0 where
  pub before : List (Range A)
  pub range : Range A
  pub after : List (Range A)

module _ {A : Type 0} where
  abbrev pub to_list : Place A → List (Range A)
  to_list p = unwind p.before (p.range ∷ p.after)

  -- The new range is linked in at its place, and takes what it overlaps from its neighbours.
  unfoldable pub insert_at : Range A → List (Range A) → List (Range A) → Place A
  insert_at r before after =
      let (before', after') = trim r before after in
      record { before = before'; range = r; after = swallow r after' }
