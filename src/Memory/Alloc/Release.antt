-- ===== src/Memory/Alloc/Release.antt =====
-- `memory_free`, and its round trip with `memory_alloc`.
use kboot.Base.{
  ℕ, ◌+◌, ◌≤◌, Any, inl, inr, Bool-cases, ◌%◌, ◌≡◌, ◌≢◌, refl, some, true, ==_iff, if◌then◌else◌,
  arith, List, [], ◌∷◌, ◌∙◌, add64, sub64, All,
}
use kboot.Base.Outcome.{done, stop, internal_error}
use kboot.Range.{Range, Place, last, unwind, to_list, insert_at}
use kboot.Range.View.{tag_at}
use kboot.Memory.MemoryType
use kboot.Memory.MemoryType.{page_size}
use kboot.Memory.Map.{MemoryMap, merge_ranges, memory_map_insert}
use kboot.Memory.Map.Merge.{merge_ranges-spans}
use kboot.Memory.Map.Laws.{
  IsMap, IsPageRange, inside, memory_map_insert_lem, insert_range-done, place, place-IsSound,
}
use kboot.Memory.Alloc.{Request, normalise, memory_alloc, memory_free, holds, is_held}
use kboot.Memory.Alloc.Suitable.{Room}
use kboot.Memory.Alloc.Laws.{IsRequest, memory_alloc_sound, alloc_inserts}

-- A range that is not free and reaches over all of the given one.
abbrev pub Encloses : ℕ → ℕ → Range ℕ → Type 0
Encloses phys size r = (r.tag ≢ MemoryType.free) × (r.start ≤ phys) × (phys + size ≤ last r + 1)

holds-Encloses :
    (phys size : ℕ) (r : Range ℕ)
    → IsPageRange phys size
    → (holds phys size r ≡ true → Encloses phys size r)
      × (Encloses phys size r → holds phys size r ≡ true)
holds-Encloses phys size r ok = (
  λ h. (λ e. ground (arith, h, e), ground (arith, h), ground (arith, h, ok.fits, ok.size_positive)),
  λ (typed, low, high). ground (arith, typed, low, high, ok.fits, ok.size_positive),
)

is_held-Any :
    (phys size : ℕ) (map : MemoryMap)
    → IsPageRange phys size
    → Any (Encloses phys size) map
    → is_held phys size map ≡ true
unfolding is_held
is_held-Any phys size [] ok h = absurd h
is_held-Any phys size (r ∷ map) ok (inl here) =
    let yes = (holds-Encloses phys size r ok).1 here in rw yes refl
is_held-Any phys size (r ∷ map) ok (inr later) =
    let yes = is_held-Any phys size map ok later in ground (arith, yes)

Any-is_held :
    (phys size : ℕ) (map : MemoryMap)
    → IsPageRange phys size
    → is_held phys size map ≡ true
    → Any (Encloses phys size) map
unfolding is_held
Any-is_held phys size [] ok h = absurd (ground (arith, h))
Any-is_held phys size (r ∷ map) ok h = elim (Bool-cases (holds phys size r)) [
  | inl here ↦ inl ((holds-Encloses phys size r ok).0 here)
  | inr other ↦ inr (Any-is_held phys size map ok (ground (arith, h, other)))
]

-- `memory_free` of a page-aligned range within the address space: if one range of the map that is not
-- free holds all of it, its addresses become free, no other address changes, and the map stays sorted
-- and free of overlaps; otherwise the call stops at the internal error.
pub memory_free_lem :
    (map : MemoryMap) (phys size : ℕ)
    → IsMap map
    → IsPageRange phys size
    → (Any (Encloses phys size) map
        → (map' : MemoryMap) × (memory_free map phys size ≡ done map')
          × IsMap map'
          × ((a : ℕ)
              → tag_at map' a
                ≡ (if inside phys size a then some MemoryType.free else tag_at map a)))
      × (¬ (Any (Encloses phys size) map) → memory_free map phys size ≡ stop internal_error)
unfolding memory_free
memory_free_lem map phys size valid ok =
    let start_ok = (==_iff (phys % page_size) 0).1 ok.start_aligned in
    let size_ok = (==_iff (size % page_size) 0).1 ok.size_aligned in
    (
      λ one.
          let held = is_held-Any phys size map ok one in
          let (map', e, v, t) = memory_map_insert_lem phys size MemoryType.free ok map valid in
          (map', rw (start_ok, size_ok, held) e, v, t),
      λ lost. elim (Bool-cases (is_held phys size map)) [
        | inl held ↦ absurd (lost (Any-is_held phys size map ok held))
        | inr unheld ↦ rw (start_ok, size_ok, unheld) refl
      ],
    )

is_held-unwind :
    (phys size : ℕ) (before after : List (Range ℕ))
    → is_held phys size after ≡ true
    → is_held phys size (unwind before after) ≡ true
is_held-unwind phys size [] after h = h
is_held-unwind phys size (o ∷ before) after h =
    is_held-unwind phys size before (o ∷ after) (unfold is_held in ground (arith, h))

-- The range that an insertion leaves in the map holds the addresses that were inserted.
insert_holds :
    (map map' : MemoryMap) (start size type : ℕ)
    → IsMap map
    → IsPageRange start size
    → type ≢ MemoryType.free
    → memory_map_insert map start size type ≡ done map'
    → is_held start size map' ≡ true
unfolding memory_map_insert
insert_holds map map' start size type valid ok typed e =
    rw (← same) (is_held-unwind start size q.before (q.range ∷ q.after) held)
  where
    p : Place ℕ
    p = place start size type ok map valid

    q : Place ℕ
    q = merge_ranges p

    same : to_list q ≡ map'
    same = ground (arith, insert_range-done start size type ok map valid, e)

    whole :
        (p.range.start ≡ start) × (last p.range ≡ sub64 (add64 start size) 1) × (p.range.tag ≡ type)
    whole = unfold insert_at last in (refl, refl, refl)

    held : is_held start size (q.range ∷ q.after) ≡ true
    held =
        unfold is_held in
        ground
          (arith, whole, merge_ranges-spans p (place-IsSound start size type ok map valid), typed)

-- Freeing what `memory_alloc` returned succeeds, and gives every address the type that it had before
-- the allocation. As in `memory_alloc_sound`, the ranges of the map end, for a high request, at or
-- above the size that is asked for.
pub memory_free-memory_alloc :
    (request : Request) (type : ℕ)
    → IsRequest request type
    → (map map' : MemoryMap) (s : ℕ) → IsMap map
    → All (Room (normalise request)) map
    → memory_alloc map request type ≡ done (map', some s)
    → (map'' : MemoryMap) × (memory_free map' s request.size ≡ done map'')
      × ((a : ℕ) → tag_at map'' a ≡ tag_at map a)
memory_free-memory_alloc request type ok map map' s valid room e =
    let got = memory_alloc_sound request type ok map map' s valid room e in
    let (fits, inserted) = alloc_inserts request type ok map map' s valid room e in
    let held = insert_holds map map' s request.size type valid fits ok.typed inserted in
    let (map'', freed, v, t) =
      (memory_free_lem map' s request.size got.valid fits).0
        (Any-is_held s request.size map' fits held) in
    (map'', freed, λ a. t a ∙ restored a (got.was_free a) (got.after a))
  where
    restored :
        (a : ℕ)
        → (inside s (normalise request).size a ≡ true → tag_at map a ≡ some MemoryType.free)
        → tag_at map' a ≡ (if inside s (normalise request).size a then some type else tag_at map a)
        → (if inside s request.size a then some MemoryType.free else tag_at map' a) ≡ tag_at map a
    restored a was now = unfold normalise in ground (arith, was, now)
