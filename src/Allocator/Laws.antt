-- ===== src/Allocator/Laws.antt =====
-- What the operations of the allocator promise.
use kboot.Base.{
  ℕ, ◌+◌, ◌-◌, ◌%◌, ◌^◌, ◌≤◌, ◌<◌, ◌≡◌, refl, List, [], ◌∷◌, some, true, false, ◌&&◌, not, ◌==◌,
  if◌then◌else◌, arith, ◌∙◌, ap, Bool-cases, inl, inr, All, Any,
}
use kboot.Base.Rounding.{round_up, round_up_lem, round_up_least}
use kboot.Base.Outcome.{done}
use kboot.Range.{last, unwind}
use kboot.Range.View.{tag_at, IsProper, Ascends, top, Descends, tag_at-unwind, tag_at-above}
use kboot.Memory.MemoryType.{page_size}
use kboot.Memory.Map.Laws.{inside}
use kboot.Allocator.{Region, Allocator, insert_region_at, fits_in, alloc_from, allocator_alloc}
use kboot.Allocator.Regions.{insert_region_at_lem}

-- Of the allocator: its regions ascend without overlaps.
abbrev pub IsOrdered : Allocator → Type 0
IsOrdered alloc = Ascends 0 alloc.regions

-- What a successful allocation means: `alloc'` is `alloc` with the free addresses from `s` on taken.
pub record IsTaken (alloc alloc' : Allocator) (size align s : ℕ) : Type 0 where
  pub aligned : s % align ≡ 0
  pub was_free : (a : ℕ) → inside s size a ≡ true → tag_at alloc.regions a ≡ some false
  pub ordered : IsOrdered alloc'
  pub after :
      (a : ℕ)
      → tag_at alloc'.regions a ≡ (if inside s size a then some true else tag_at alloc.regions a)
  pub same : (alloc'.start ≡ alloc.start) × (alloc'.size ≡ alloc.size)

-- A free region with room for `size` addresses at the aligned address `t`.
abbrev pub HasRoom : ℕ → ℕ → Region → Type 0
HasRoom size align r =
    (t : ℕ) × (r.tag ≡ false) × (t % align ≡ 0) × (r.start ≤ t) × (t + size ≤ last r + 1)

module _ (alloc : Allocator) (size align : ℕ) (some_size : 0 < size) (some_align : 0 < align) where
  -- The end of the region leaves room for the alignment and the size in the address space.
  abbrev pub Clear : Region → Type 0
  Clear r = last r + align + size ≤ 2 ^ 64

  fits_lem :
      (r : Region)
      → IsProper r
      → Clear r
      → (round_up r.start align % align ≡ 0)
        × (r.start ≤ round_up r.start align)
        × (fits_in size align r ≡ true → round_up r.start align + size ≤ last r + 1)
        × (round_up r.start align + size ≤ last r + 1 → fits_in size align r ≡ true)
  unfolding fits_in
  fits_lem r p c =
      let (m, l, u) = round_up_lem r.start align some_align (omega (arith, p, c, some_size)) in
      (m, l, ground (arith, l, u, p, c, some_size), ground (arith, l, u, p, c, some_size))

  abbrev fresh : Region → Region
  fresh r = record { start = round_up r.start align; size = size; tag = true }

  fresh_lem :
      (r : Region)
      → round_up r.start align + size ≤ last r + 1
      → IsProper r
      → IsProper (fresh r) × (last (fresh r) + 1 ≡ round_up r.start align + size)
  fresh_lem r le p = ends (last r) p.1 le
    where
      ends :
          (top_ : ℕ)
          → top_ < 2 ^ 64
          → round_up r.start align + size ≤ top_ + 1
          → IsProper (fresh r) × (last (fresh r) + 1 ≡ round_up r.start align + size)
      ends top_ p le = unfold last in omega (arith, p, le, some_size)

  taken :
      (before : List Region) (r : Region) (after : List Region)
      → Descends before
      → Ascends (top before) (r ∷ after)
      → unwind before (r ∷ after) ≡ alloc.regions
      → r.tag ≡ false
      → round_up r.start align % align ≡ 0
      → r.start ≤ round_up r.start align
      → round_up r.start align + size ≤ last r + 1
      → IsTaken alloc
          (insert_region_at alloc (fresh r) before r after)
          size
          align
          (round_up r.start align)
  taken before r after d h e free m l u =
      let (proper, ends) = fresh_lem r u h.1 in
      let (ordered, says) =
        insert_region_at_lem alloc (fresh r) proper before r after d h l
          (omega (arith, u, some_size)) in
      record {
        aligned = m;
        was_free = λ a h'. rw (← e) (
            ground (
              arith,
              tag_at-unwind a before (r ∷ after) d,
              tag_at-above a before d,
              h.0,
              h',
              l,
              u,
              free,
            ));
        ordered = ordered;
        after = λ a. says a ∙ rw e (ground (arith, ends));
        same = unfold insert_region_at in (refl, refl);
      }

  -- The loop, at any of its rounds.
  alloc_from_sound :
      (before after : List Region) (alloc' : Allocator) (s : ℕ)
      → Descends before
      → Ascends (top before) after
      → unwind before after ≡ alloc.regions
      → All Clear after
      → alloc_from alloc size align before after ≡ some (alloc', s)
      → IsTaken alloc alloc' size align s
  unfolding alloc_from
  alloc_from_sound before [] alloc' s d h e c eq = absurd (cc)
  alloc_from_sound before (r ∷ after) alloc' s d h e c eq =
      elim (Bool-cases (not r.tag && fits_in size align r)) [
        | inl hit ↦
            let (m, l, sound, complete) = fits_lem r h.1 c.0 in
            let t =
              taken before r after d h e (ground (arith, hit)) m l (sound (ground (arith, hit))) in
            let (ea, es) : (insert_region_at alloc (fresh r) before r after ≡ alloc')
                × (round_up r.start align ≡ s) =
              ground (arith, hit, eq) in
            rw (← ea, ← es) t
        | inr miss ↦
            alloc_from_sound (r ∷ before) after alloc' s (h.0, h.1, d) h.2 e c.1
              (ground (arith, miss, eq))
      ]

  alloc_from_complete :
      (before after : List Region) (lo : ℕ)
      → Ascends lo after
      → All Clear after
      → Any (HasRoom size align) after
      → (alloc' : Allocator) × (s : ℕ) × (alloc_from alloc size align before after
          ≡ some (alloc', s))
  unfolding alloc_from
  alloc_from_complete before [] lo h c room = absurd room
  alloc_from_complete before (r ∷ after) lo h c (inl (t, free, m, l, u)) =
      let least =
        round_up_least r.start align t some_align (omega (arith, h.1, c.0, some_size)) m l in
      let fits = (fits_lem r h.1 c.0).3 (omega (arith, least, u)) in
      let hit : (not r.tag && fits_in size align r) ≡ true = ground (arith, free, fits) in
      (insert_region_at alloc (fresh r) before r after, round_up r.start align, rw hit refl)
  alloc_from_complete before (r ∷ after) lo h c (inr room) =
      let (alloc', s, e) = alloc_from_complete (r ∷ before) after (last r + 1) h.2 c.1 room in
      elim (Bool-cases (not r.tag && fits_in size align r)) [
        | inl hit ↦
            (insert_region_at alloc (fresh r) before r after, round_up r.start align, rw hit refl)
        | inr miss ↦ (alloc', s, rw miss e)
      ]

-- The alignment that `allocator_alloc` uses.
abbrev pub effective : ℕ → ℕ
effective align = if align == 0 then page_size else align

module _ (alloc : Allocator) (size align : ℕ) where
  -- What the assertions of `allocator_alloc` ask.
  pub record IsAsked : Type 0 where
    pub size_aligned : size % page_size ≡ 0
    pub align_aligned : align % page_size ≡ 0
    pub size_positive : 0 < size

  effective_pos : 0 < effective align
  effective_pos = ground arith

  pub alloc-from :
      IsAsked
      → allocator_alloc alloc size align
        ≡ done (alloc_from alloc size (effective align) [] alloc.regions)
  unfolding allocator_alloc
  alloc-from ok = ground (arith, ok.size_aligned, ok.align_aligned, ok.size_positive)

  -- An address that `allocator_alloc` returns is aligned, all `size` addresses from it on were free and
  -- are allocated afterwards, no other address changed, and the regions stay ordered without overlaps.
  -- The regions end far enough below the end of the address space for the alignment and the size.
  pub allocator_alloc_sound :
      (alloc' : Allocator) (s : ℕ) (ok : IsAsked)
      → IsOrdered alloc
      → All (λ r. last r + effective align + size ≤ 2 ^ 64) alloc.regions
      → allocator_alloc alloc size align ≡ done (some (alloc', s))
      → IsTaken alloc alloc' size (effective align) s
  allocator_alloc_sound alloc' s ok h c e =
      alloc_from_sound alloc size (effective align) ok.size_positive effective_pos [] alloc.regions
        alloc' s tt h refl c (ground (arith, alloc-from ok, e))

  -- If a free region has room at an aligned address, `allocator_alloc` succeeds, under the same
  -- condition on the regions.
  pub allocator_alloc_complete :
      (ok : IsAsked)
      → IsOrdered alloc
      → All (λ r. last r + effective align + size ≤ 2 ^ 64) alloc.regions
      → Any (HasRoom size (effective align)) alloc.regions
      → (alloc' : Allocator) × (s : ℕ) × (allocator_alloc alloc size align
          ≡ done (some (alloc', s)))
  allocator_alloc_complete ok h c room =
      let (alloc', s, e) =
        alloc_from_complete alloc size (effective align) ok.size_positive effective_pos []
          alloc.regions 0 h c room in
      (alloc', s, alloc-from ok ∙ rw e refl)

  -- An allocator with one free region that ends with the address space and starts at an aligned
  -- address grants every size, also one that the region does not hold: the sum that is compared with
  -- the end of the region wraps.
  pub allocator_alloc_wraps :
      (r : Region) (ok : IsAsked)
      → alloc.regions ≡ r ∷ []
      → r.tag ≡ false
      → last r ≡ 2 ^ 64 - 1
      → r.start % effective align ≡ 0
      → (alloc' : Allocator) × (allocator_alloc alloc size align ≡ done (some (alloc', r.start)))
  allocator_alloc_wraps r ok one free end aligned = (
    insert_region_at alloc (record { start = r.start; size = size; tag = true }) [] r [],
    alloc-from ok ∙ (ap (λ l. done (alloc_from alloc size (effective align) [] l)) one ∙ granted),
  )
    where
      unmoved : round_up r.start (effective align) ≡ r.start
      unmoved = unfold round_up in ground (arith, aligned)

      fits : fits_in size (effective align) r ≡ true
      fits = unfold fits_in in ground (arith, end)

      open_ : (not r.tag && fits_in size (effective align) r) ≡ true
      open_ = ground (arith, free, fits)

      granted :
          done (alloc_from alloc size (effective align) [] (r ∷ []))
          ≡ done (
              some (
                insert_region_at alloc
                    (record { start = r.start; size = size; tag = true })
                    []
                    r
                    [],
                r.start,
              ))
      granted = unfold alloc_from in rw (open_, unmoved) refl
