-- ===== src/Memory/Map/Laws.antt =====
-- A memory map is a partial function from addresses to types: insertion overwrites it, removal
-- erases from it.
use kboot.Base.{
  ℕ, ◌+◌, ◌%◌, ◌^◌, ◌≤◌, ◌<◌, ◌≡◌, refl, [], none, some, Bool, ◌&&◌, ltb, leb, ◌==◌, ==_iff,
  if◌then◌else◌, arith, Bool-cases, inl, inr, ◌∙◌, ◌≢◌, ◌⊎◌, ◌↔◌,
}
use kboot.Base.Outcome.{done, stop, assertion}
use kboot.Range.{Range, Place, last, unwind, to_list, locate, insert_at}
use kboot.Range.View.{covers, tag_at, IsProper, Ascends}
use kboot.Range.Insert.{IsPlace, locate-IsPlace, unwind-locate}
use kboot.Range.Overwrite.{
  IsSound, IsSound-Ascends, insert_at-IsSound, tag_at-insert_at, unlink-Ascends, tag_at-unlink,
}
use kboot.Memory.MemoryType
use kboot.Memory.MemoryType.{page_size}
use kboot.Memory.Map.{MemoryMap, insert_range, memory_map_insert, memory_map_remove, merge_ranges}
use kboot.Memory.Map.Merge.{merge_ranges-IsSound, tag_at-merge_ranges}

abbrev pub IsMap : MemoryMap → Type 0
IsMap = Ascends 0

-- What the assertions of `insert_range` ask, and that the range does not wrap.
pub record IsPageRange (start size : ℕ) : Type 0 where
  pub start_aligned : start % page_size ≡ 0
  pub size_aligned : size % page_size ≡ 0
  pub size_positive : 0 < size
  pub fits : start + size ≤ 2 ^ 64

abbrev pub inside : ℕ → ℕ → ℕ → Bool
inside start size a = leb start a && ltb a (start + size)

module _ (start size type : ℕ) (ok : IsPageRange start size) where
  abbrev pub fresh : Range ℕ
  fresh = record { start = start; size = size; tag = type }

  last-fresh : (last fresh + 1 ≡ start + size) × (last fresh < 2 ^ 64)
  unfolding last
  last-fresh = omega (arith, ok.fits)

  covers-fresh : (a : ℕ) → covers fresh a ≡ inside start size a
  covers-fresh a = ground (arith, last-fresh)

  fresh-IsProper : IsProper fresh
  fresh-IsProper = omega (arith, last-fresh, ok.size_positive)

  module _ (map : MemoryMap) (valid : IsMap map) where
    abbrev pub place : Place ℕ
    place = insert_at fresh (locate start [] map).0 (locate start [] map).1

    -- The assertions pass.
    pub insert_range-done : insert_range map start size type ≡ done place
    unfolding insert_range
    insert_range-done =
        rw
          (
            (==_iff (start % page_size) 0).1 ok.start_aligned,
            (==_iff (size % page_size) 0).1 ok.size_aligned,
          )
          (elim (Bool-cases (size == 0)) [
            | inl z ↦ absurd (ground (arith, ok.size_positive))
            | inr nz ↦ rw nz refl
          ])

    located : IsPlace start (locate start [] map).0 (locate start [] map).1
    located = locate-IsPlace start [] map tt valid tt

    covers-place : (a : ℕ) → covers place.range a ≡ inside start size a
    unfolding insert_at
    covers-place a = covers-fresh a

    pub place-IsSound : IsSound place
    place-IsSound = insert_at-IsSound fresh _ _ fresh-IsProper located

    pub tag_at-place :
        (a : ℕ)
        → tag_at (to_list place) a ≡ (if inside start size a then some type else tag_at map a)
    tag_at-place a =
        tag_at-insert_at a fresh _ _ fresh-IsProper located
        ∙ rw (unwind-locate start [] map) (rw (covers-fresh a))

    -- `memory_map_insert` on a page-aligned range within the address space passes its assertions and
    -- keeps the map sorted and free of overlaps. Afterwards the addresses of the range have the given
    -- type, and every other address has the type that it had, or none if it had none.
    pub memory_map_insert_lem :
        (map' : MemoryMap) × (memory_map_insert map start size type ≡ done map')
        × IsMap map'
        × ((a : ℕ) → tag_at map' a ≡ (if inside start size a then some type else tag_at map a))
    unfolding memory_map_insert
    memory_map_insert_lem = (
      to_list (merge_ranges place),
      rw insert_range-done refl,
      IsSound-Ascends (merge_ranges-IsSound place place-IsSound),
      λ a. tag_at-merge_ranges a place place-IsSound ∙ tag_at-place a,
    )

module _ (start size : ℕ) (ok : IsPageRange start size) (map : MemoryMap) (valid : IsMap map) where
  abbrev hole : Place ℕ
  hole = place start size MemoryType.internal ok map valid

  tag_at-removed :
      (a : ℕ)
      → tag_at (unwind hole.before hole.after) a
        ≡ (if inside start size a then none else tag_at map a)
  tag_at-removed a =
      tag_at-unlink a hole (place-IsSound start size MemoryType.internal ok map valid)
      ∙ rw (tag_at-place start size MemoryType.internal ok map valid a)
          (rw (covers-place start size MemoryType.internal ok map valid a) (ground arith))

  -- `memory_map_remove` under the same conditions passes its assertions and keeps the map sorted and
  -- free of overlaps. Afterwards no address of the range has a type, and every other address has the
  -- type that it had, or none if it had none.
  pub memory_map_remove_lem :
      (map' : MemoryMap) × (memory_map_remove map start size ≡ done map')
      × IsMap map'
      × ((a : ℕ) → tag_at map' a ≡ (if inside start size a then none else tag_at map a))
  unfolding memory_map_remove
  memory_map_remove_lem = (
    unwind hole.before hole.after,
    rw (insert_range-done start size MemoryType.internal ok map valid) refl,
    unlink-Ascends hole (place-IsSound start size MemoryType.internal ok map valid),
    tag_at-removed,
  )

-- `insert_range`, and with it both operations, stops at an assertion exactly on a range that is
-- empty or not aligned to pages.
pub insert_range-assertion :
    (map : MemoryMap) (start size type : ℕ)
    → (insert_range map start size type ≡ stop assertion)
      ↔ ((start % page_size ≢ 0) ⊎ (size % page_size ≢ 0) ⊎ (size ≡ 0))
unfolding insert_range
insert_range-assertion map start size type = (ground arith, ground arith)
