-- ===== src/Memory/Alloc/Finalize.antt =====
-- `memory_finalize`: internal memory becomes free, and nothing else changes.
use mathlib.Core.Option
use kboot.Base.{
  ℕ, zero, suc, ◌≤◌, ◌≡◌, refl, some, ◌==◌, if◌then◌else◌, or_else, arith, List, [], ◌∷◌, ◌∙◌,
  length, Bool-cases, inl, inr,
}
use kboot.Range.{Range, Place, last}
use kboot.Range.View.{
  covers, tag_at, Ascends, top, Descends, unwind-Ascends, tag_at-unwind, tag_at-above,
}
use kboot.Range.Overwrite.{IsSound}
use kboot.Memory.MemoryType
use kboot.Memory.Map.{MemoryMap, merge_ranges, merge_previous, merge_next}
use kboot.Memory.Map.Merge.{merge_ranges-IsSound, merge_ranges-view, view_by}
use kboot.Memory.Map.Laws.{IsMap}
use kboot.Memory.Alloc.{reclaim, finalize_from, memory_finalize}

-- What becomes of a type.
abbrev pub reclaimed : ℕ → ℕ
reclaimed type = if type == MemoryType.internal then MemoryType.free else type

module _ (before : List (Range ℕ)) (r : Range ℕ) (rest : List (Range ℕ)) where
  module _ (d : Descends before) (h : Ascends (top before) (r ∷ rest)) where
    abbrev freed : Place ℕ
    freed = record { before = before; range = record r { tag = MemoryType.free }; after = rest }

    freed-last : last freed.range ≡ last r
    freed-last = unfold last in refl

    freed-IsSound : IsSound freed
    freed-IsSound = record {
      behind = d;
      fits = h.0;
      proper = rw freed-last h.1;
      ahead = rw freed-last h.2;
    }

    reclaim-IsSound : IsSound (reclaim before r rest)
    unfolding reclaim
    reclaim-IsSound = elim (Bool-cases (r.tag == MemoryType.internal)) [
      | inl yes_ ↦ rw yes_ (merge_ranges-IsSound freed freed-IsSound)
      | inr no_ ↦ rw no_ (record { behind = d; fits = h.0; proper = h.1; ahead = h.2 })
    ]

    reclaim-view :
        (a : ℕ)
        → view_by reclaimed (reclaim before r rest) a ≡ (
            if covers r a
            then some (reclaimed r.tag)
            else or_else (tag_at before a) (Option.map reclaimed (tag_at rest a)))
    unfolding reclaim
    reclaim-view a = elim (Bool-cases (r.tag == MemoryType.internal)) [
      | inl yes_ ↦
          rw yes_ (merge_ranges-view reclaimed a freed refl freed-IsSound ∙ rw freed-last refl)
      | inr no_ ↦ rw no_ refl
    ]

after-merge_previous :
    (before : List (Range ℕ)) (r : Range ℕ) (rest : List (Range ℕ))
    → (merge_previous before r rest).after ≡ rest
unfolding merge_previous
after-merge_previous [] r rest = refl
after-merge_previous (o ∷ before) r rest = ground arith

length-merge_next :
    (before : List (Range ℕ)) (r : Range ℕ) (rest : List (Range ℕ))
    → length (merge_next before r rest).after ≤ length rest
unfolding merge_next
length-merge_next before r [] = omega arith
length-merge_next before r (o ∷ rest) = ground arith

length-reclaim :
    (before : List (Range ℕ)) (r : Range ℕ) (rest : List (Range ℕ))
    → length (reclaim before r rest).after ≤ length rest
unfolding reclaim merge_ranges
length-reclaim before r rest =
    let q = merge_previous before (record r { tag = MemoryType.free }) rest in
    ground (
      arith,
      length-merge_next q.before q.range q.after,
      after-merge_previous before (record r { tag = MemoryType.free }) rest,
    )

-- The loop ends within as many rounds as there are ranges left.
finalize_from_lem :
    (rounds : ℕ) (before rest : List (Range ℕ))
    → length rest ≤ rounds
    → Descends before
    → Ascends (top before) rest
    → IsMap (finalize_from rounds before rest)
      × ((a : ℕ)
          → tag_at (finalize_from rounds before rest) a
            ≡ or_else (tag_at before a) (Option.map reclaimed (tag_at rest a)))
unfolding finalize_from
finalize_from_lem zero before [] le d h =
    (unwind-Ascends before [] d tt, λ a. tag_at-unwind a before [] d)
finalize_from_lem zero before (r ∷ rest) le d h = absurd (omega (arith, le))
finalize_from_lem (suc rounds) before [] le d h =
    (unwind-Ascends before [] d tt, λ a. tag_at-unwind a before [] d)
finalize_from_lem (suc rounds) before (r ∷ rest) le d h =
    let p = reclaim before r rest in
    let s = reclaim-IsSound before r rest d h in
    let (valid, says) =
      finalize_from_lem rounds (p.range ∷ p.before) p.after
        (omega (arith, le, length-reclaim before r rest)) (s.fits, s.proper, s.behind) s.ahead in
    (valid, λ a. says a ∙ (at_place a p s ∙ (reclaim-view before r rest d h a ∙ at_rest a)))
  where
    at_place :
        (a : ℕ) (p : Place ℕ)
        → IsSound p
        → or_else (tag_at (p.range ∷ p.before) a) (Option.map reclaimed (tag_at p.after a))
          ≡ view_by reclaimed p a
    at_place a p s = ground (arith, tag_at-above a p.before s.behind)

    at_rest :
        (a : ℕ)
        → (if covers r a
            then some (reclaimed r.tag)
            else or_else (tag_at before a) (Option.map reclaimed (tag_at rest a)))
          ≡ or_else (tag_at before a) (Option.map reclaimed (tag_at (r ∷ rest) a))
    at_rest a = ground (arith, tag_at-above a before d, h)

-- `memory_finalize` on a sorted map without overlaps makes every internal address free and leaves the
-- type of every other address as it was; the map stays sorted and free of overlaps.
pub memory_finalize_lem :
    (map : MemoryMap)
    → IsMap map
    → IsMap (memory_finalize map)
      × ((a : ℕ) → tag_at (memory_finalize map) a ≡ Option.map reclaimed (tag_at map a))
unfolding memory_finalize
memory_finalize_lem map valid = finalize_from_lem (length map) [] map (omega arith) tt valid
