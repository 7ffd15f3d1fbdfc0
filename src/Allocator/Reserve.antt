-- ===== src/Allocator/Reserve.antt =====
-- `allocator_init`, `allocator_reserve` and `allocator_insert`.
use kboot.Base.{
  ℕ, ◌+◌, ◌%◌, ◌^◌, ◌≤◌, ◌<◌, ◌≡◌, ◌≢◌, refl, List, [], ◌∷◌, none, some, Bool, true, false, ◌&&◌,
  ltb, leb, leb_of_not_ltb, if◌then◌else◌, arith, add64, sub64, ◌∙◌, Bool-cases, inl, inr, ◌⊎◌,
}
use kboot.Base.Outcome.{done}
use kboot.Range.{last}
use kboot.Range.View.{tag_at, Ascends, tag_at-below}
use kboot.Memory.MemoryType.{page_size}
use kboot.Memory.Map.Laws.{inside, IsPageRange}
use kboot.Allocator.{
  Region, Allocator, alloc_end, insert_region, reserve_between, conflicts, allocator_reserve,
  allocator_insert, allocator_init,
}
use kboot.Allocator.Regions.{insert_region_lem}
use kboot.Allocator.Laws.{IsOrdered}

-- The addresses that the allocator manages.
abbrev pub managed : Allocator → ℕ → Bool
managed alloc a = leb alloc.start a && leb a (alloc_end alloc)

-- The same start and size.
abbrev pub HasBounds : Allocator → Allocator → Type 0
HasBounds alloc alloc' = (alloc'.start ≡ alloc.start) × (alloc'.size ≡ alloc.size)

reserve_between-HasBounds :
    (alloc : Allocator) (lo hi : ℕ) → HasBounds alloc (reserve_between alloc lo hi)
unfolding reserve_between insert_region
reserve_between-HasBounds alloc lo hi = elim (Bool-cases (ltb hi lo)) [
  | inl empty_ ↦ rw empty_ (refl, refl)
  | inr some_ ↦ rw some_ (refl, refl)
]

reserve_between_lem :
    (alloc : Allocator) (lo hi : ℕ)
    → IsOrdered alloc
    → hi < 2 ^ 64
    → IsOrdered (reserve_between alloc lo hi)
      × ((a : ℕ)
          → tag_at (reserve_between alloc lo hi).regions a
            ≡ (if leb lo a && leb a hi then some true else tag_at alloc.regions a))
unfolding reserve_between
reserve_between_lem alloc lo hi ordered lt = elim (Bool-cases (ltb hi lo)) [
  | inl empty_ ↦ rw empty_ (ordered, λ a. ground (arith, empty_))
  | inr some_ ↦
      let r : Region = record { start = lo; size = add64 (sub64 hi lo) 1; tag = true } in
      let top_ : last r ≡ hi = unfold last in omega (arith, leb_of_not_ltb hi lo some_) in
      let (o, says) =
        insert_region_lem alloc r (omega (arith, top_, leb_of_not_ltb hi lo some_)) ordered in
      rw some_ (o, λ a. says a ∙ rw top_ refl)
]

module _ (alloc : Allocator) (addr size : ℕ) (ordered : IsOrdered alloc)
    (ok : IsPageRange addr size) where
  abbrev end : ℕ
  end = sub64 (add64 addr size) 1

  end_lem : (end + 1 ≡ addr + size) × (end < 2 ^ 64)
  end_lem = omega (arith, ok.fits, ok.size_positive)

  -- `allocator_reserve` marks the addresses of the given range that the allocator manages, and
  -- changes no other; the regions stay ordered without overlaps.
  pub allocator_reserve_lem :
      (alloc' : Allocator) × (allocator_reserve alloc addr size ≡ done alloc')
      × IsOrdered alloc'
      × HasBounds alloc alloc'
      × ((a : ℕ)
          → tag_at alloc'.regions a
            ≡ (if inside addr size a && managed alloc a then some true else tag_at alloc.regions a))
  unfolding allocator_reserve
  allocator_reserve_lem =
      let (o, says) = reserve_between_lem alloc lo hi ordered (ground (arith, end_lem)) in
      (
        reserve_between alloc lo hi,
        ground (arith, ok.start_aligned, ok.size_aligned, ok.size_positive),
        o,
        reserve_between-HasBounds alloc lo hi,
        λ a. says a ∙ trimmed a,
      )
    where
      lo : ℕ
      lo = if ltb addr alloc.start then alloc.start else addr

      hi : ℕ
      hi = if ltb end (alloc_end alloc) then end else alloc_end alloc

      trimmed :
          (a : ℕ)
          → (if leb lo a && leb a hi then some true else tag_at alloc.regions a)
            ≡ (if inside addr size a && managed alloc a then some true else tag_at alloc.regions a)
      trimmed a = ground (arith, end_lem)

  -- Whether an address of the range is allocated.
  conflicts_sound :
      (lo : ℕ) (regions : List Region)
      → Ascends lo regions
      → conflicts addr end regions ≡ false
      → (a : ℕ) → inside addr size a ≡ true
      → tag_at regions a ≢ some true
  unfolding conflicts
  conflicts_sound lo [] h c a i = λ e. cc
  conflicts_sound lo (r ∷ rest) h c a i =
      let later = conflicts_sound (last r + 1) rest h.2 (ground (arith, c)) a i in
      ground (arith, end_lem, later, c, i)

  conflicts_complete :
      (lo : ℕ) (regions : List Region)
      → Ascends lo regions
      → ((a : ℕ) → inside addr size a ≡ true → tag_at regions a ≢ some true)
      → conflicts addr end regions ≡ false
  unfolding conflicts
  conflicts_complete lo [] h free = refl
  conflicts_complete lo (r ∷ rest) h free =
      let later = conflicts_complete (last r + 1) rest h.2 (λ a i e. free a i (still a e)) in
      let first : ℕ = if ltb addr r.start then r.start else addr in
      ground (arith, end_lem, later, free first)
    where
      still : (a : ℕ) → tag_at rest a ≡ some true → tag_at (r ∷ rest) a ≡ some true
      still a e = ground (arith, e, tag_at-below (last r + 1) a rest h.2)

  -- A call that meets no allocated address, or is refused.
  pub insert_outcome :
      (((a : ℕ) → inside addr size a ≡ true → tag_at alloc.regions a ≢ some true))
      ⊎ (allocator_insert alloc addr size ≡ done none)
  unfolding allocator_insert
  insert_outcome = elim (Bool-cases (conflicts addr end alloc.regions)) [
    | inl hit ↦ inr (ground (arith, hit, ok.start_aligned, ok.size_aligned, ok.size_positive))
    | inr miss ↦ inl (λ a i e. conflicts_sound 0 alloc.regions ordered miss a i e)
  ]

  -- `allocator_insert` returns false, and changes nothing, if an address of the range is allocated; if
  -- none is, it marks the addresses of the range that the allocator manages, and changes no other, nor
  -- the start and the size of the allocator.
  pub allocator_insert_lem :
      ((a : ℕ)
        → inside addr size a ≡ true
        → tag_at alloc.regions a ≡ some true
        → allocator_insert alloc addr size ≡ done none)
      × (((a : ℕ) → inside addr size a ≡ true → tag_at alloc.regions a ≢ some true)
          → (alloc' : Allocator) × (allocator_insert alloc addr size ≡ done (some alloc'))
            × IsOrdered alloc'
            × HasBounds alloc alloc'
            × ((a : ℕ)
                → tag_at alloc'.regions a ≡ (
                    if inside addr size a && managed alloc a
                    then some true
                    else tag_at alloc.regions a)))
  unfolding allocator_insert
  allocator_insert_lem = (
    λ a i e. elim (Bool-cases (conflicts addr end alloc.regions)) [
      | inl hit ↦ ground (arith, hit, ok.start_aligned, ok.size_aligned, ok.size_positive)
      | inr miss ↦ absurd (conflicts_sound 0 alloc.regions ordered miss a i e)
    ],
    λ free.
        let (alloc', e, o, same, says) = allocator_reserve_lem in
        let miss = conflicts_complete 0 alloc.regions ordered free in
        (
          alloc',
          ground (arith, miss, e, ok.start_aligned, ok.size_aligned, ok.size_positive),
          o,
          same,
          says,
        ),
  )

-- `allocator_init` on an aligned range that does not wrap, or on the whole address space (start and
-- size 0), makes an allocator that manages just these addresses, all of them free.
pub allocator_init_lem :
    (start size : ℕ)
    → start % page_size ≡ 0
    → size % page_size ≡ 0
    → ((0 < size) × (start + size ≤ 2 ^ 64)) ⊎ ((start ≡ 0) × (size ≡ 0))
    → (alloc : Allocator) × (allocator_init start size ≡ done alloc)
      × (alloc.start ≡ start)
      × (alloc.size ≡ size)
      × IsOrdered alloc
      × ((a : ℕ) → tag_at alloc.regions a ≡ (if managed alloc a then some false else none))
unfolding allocator_init
allocator_init_lem start size sa za fits =
    let empty : Allocator = record { start = start; size = size; regions = [] } in
    let whole : Region = record { start = start; size = size; tag = false } in
    let top_ : (start ≤ last whole) × (last whole < 2 ^ 64) × (last whole ≡ alloc_end empty) =
      unfold last alloc_end in ground (arith, fits) in
    let (o, says) = insert_region_lem empty whole (top_.0, top_.1) tt in
    (
      insert_region empty whole,
      ground (arith, sa, za, fits),
      unfold insert_region in refl,
      unfold insert_region in refl,
      o,
      λ a. says a ∙ unfold insert_region alloc_end last in refl,
    )
