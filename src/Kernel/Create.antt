-- ===== src/Kernel/Create.antt =====
-- The new address space of create_space, source/loader/kboot.c: of the range that the image asks for.
use kboot.Base.{
  ℕ, suc, ◌+◌, ◌%◌, ◌^◌, ◌≤◌, ◌<◌, ◌≡◌, refl, sym, ◌∙◌, [], true, false, ltb, ◌==◌, ◌&&◌,
  if◌then◌else◌, none, some, arith, Bool-cases, inl, inr, ◌⊎◌,
}
use kboot.Base.Outcome.{done, stop, boot_error}
use kboot.Range.View.{tag_at}
use kboot.Memory.MemoryType.{page_size}
use kboot.Memory.Map.Laws.{inside, IsPageRange}
use kboot.Allocator.{Allocator, alloc_end, allocator_init, allocator_reserve}
use kboot.Allocator.Laws.{IsOrdered}
use kboot.Allocator.Reserve.{managed, allocator_init_lem, allocator_reserve_lem}
use kboot.Mmu.{Tables}
use kboot.Mmu.Tree.{Labels}
use kboot.Mmu.Grow.{PageSource}
use kboot.Mmu.Map.{is_canonical_addr, is_canonical_range}
use kboot.Mmu.Create.{mmu_context_create_lem}
use kboot.Kernel.{Loader, check_virt_map_params, check_load_params, checked_range, create_space}
use kboot.Kernel.Agreement.{canonical-each}
use kboot.Kernel.Placement.{IsLoader}
use kboot.Kernel.Entries.{IsWithin}

-- A range that an image may ask for: of whole pages, in one half of the address space if it is not left open.
abbrev pub IsMapRange : ℕ → ℕ → Type 0
IsMapRange base size =
    (base % 2 ^ 12 ≡ 0)
    × (size % 2 ^ 12 ≡ 0)
    × (((base ≡ 0) × (size ≡ 0))
        ⊎ ((0 < size) × (base + size ≤ 2 ^ 64) × (is_canonical_range base size ≡ true)))

-- The range that it gets.
abbrev pub map_size : ℕ → ℕ → ℕ
map_size base size = if base == 0 && size == 0 then 0x800000000000 else size

decides :
    (base size : ℕ)
    → base < 2 ^ 64
    → size < 2 ^ 64
    → (checked_range base (check_virt_map_params false base size) ≡ stop boot_error)
      ⊎ IsMapRange base size
unfolding check_virt_map_params check_load_params
decides base size small small' =
    elim (Bool-cases (base % page_size == 0 && size % page_size == 0)) [
      | inr misaligned ↦ inl (ground (arith, misaligned))
      | inl aligned ↦ elim (Bool-cases (size == 0)) [
        | inl empty ↦ elim (Bool-cases (base == 0)) [
          | inl start ↦ inr (
            ground (arith, aligned),
            ground (arith, aligned),
            inl (ground (arith, start), ground (arith, empty)),
          )
          | inr other ↦ inl (ground (arith, aligned, empty, other))
        ]
        | inr some_ ↦ elim (Bool-cases (ltb (2 ^ 64) (base + size))) [
          | inl wraps ↦ inl (ground (arith, aligned, some_, wraps, small, small'))
          | inr fits ↦ elim (Bool-cases (is_canonical_range base size)) [
            | inl canonical ↦ inr (
              ground (arith, aligned),
              ground (arith, aligned),
              inr (ground (arith, some_), ground (arith, fits), canonical),
            )
            | inr refused ↦ inl (ground (arith, aligned, some_, fits, refused, small, small'))
          ]
        ]
      ]
    ]

accepts :
    (base size : ℕ)
    → IsMapRange base size
    → checked_range base (check_virt_map_params false base size) ≡ done (base, map_size base size)
unfolding check_virt_map_params check_load_params
accepts base size (aligned, aligned', inl (start, none_)) = rw start (rw none_ refl)
accepts base size (aligned, aligned', inr (pos, fits, canonical)) =
    ground (arith, aligned, aligned', pos, fits, canonical)

got :
    (base size : ℕ)
    → IsMapRange base size
    → IsPageRange base (map_size base size) × (is_canonical_range base (map_size base size) ≡ true)
got base size (aligned, aligned', inl (start, none_)) = rw start (
    rw none_ (
      record {
        start_aligned = refl;
        size_aligned = refl;
        size_positive = omega arith;
        fits = omega arith;
      },
      unfold is_canonical_range in refl,
    ))
got base size (aligned, aligned', inr (pos, fits, canonical)) =
    let same : map_size base size ≡ size = ground (arith, pos) in
    rw same (
      record { start_aligned = aligned; size_aligned = aligned'; size_positive = pos; fits = fits },
      canonical,
    )

managed-inside :
    (allocator : Allocator) (base size v : ℕ)
    → IsPageRange base size
    → allocator.start ≡ base
    → allocator.size ≡ size
    → managed allocator v ≡ inside base size v
unfolding alloc_end
managed-inside allocator base size v ok start same =
    rw start (rw same (ground (arith, ok.fits, ok.size_positive)))

first_page : IsPageRange 0 page_size
first_page = record {
  start_aligned = refl;
  size_aligned = refl;
  size_positive = omega arith;
  fits = omega arith;
}

-- The allocator of a new address space.
new_allocator :
    (base size : ℕ)
    → IsPageRange base size
    → (allocator allocator' : Allocator) × (allocator_init base size ≡ done allocator)
      × (allocator_reserve allocator 0 page_size ≡ done allocator')
      × IsOrdered allocator'
      × ((v : ℕ) → managed allocator' v ≡ inside base size v)
      × ((v : ℕ)
          → tag_at allocator'.regions v
            ≡ (if inside base size v then some (ltb v page_size) else none))
new_allocator base size ok =
    let (a, run, start, same, ordered, tags) =
      allocator_init_lem base size ok.start_aligned ok.size_aligned
        (inl (ok.size_positive, ok.fits)) in
    let (a', run', ordered', (start', same'), tags') =
      allocator_reserve_lem a 0 page_size ordered first_page in
    (
      a,
      a',
      run,
      run',
      ordered',
      λ v. managed-inside a' base size v ok (start' ∙ start) (same' ∙ same),
      λ v. tags' v ∙ both a v (managed-inside a base size v ok start same) (tags v),
    )
  where
    both :
        (a : Allocator) (v : ℕ)
        → managed a v ≡ inside base size v
        → tag_at a.regions v ≡ (if managed a v then some false else none)
        → (if inside 0 page_size v && managed a v then some true else tag_at a.regions v)
          ≡ (if inside base size v then some (ltb v page_size) else none)
    both a v is tag = elim (Bool-cases (inside base size v)) [
      | inl i ↦ ground (arith, is, tag, i)
      | inr o ↦ ground (arith, is, tag, o)
    ]

module _ {S : Type 0} (source : PageSource S) (tables : Tables) (memory : S) (base size n : ℕ)
    (holds : source.Holds memory (suc n)) where
  -- For a range that an image may ask for, of a start and a size of 64 bits, while memory holds a page and `n` more, the loader gets an address
  -- space with no mappings. Allocator and page tables agree, the allocator manages the range that was asked
  -- for, or the lower half if none was, and all of it is canonical and free but for the first page of the
  -- address space. For any other range the loader stops with an error.
  pub create_space_lem :
      base < 2 ^ 64
      → size < 2 ^ 64
      → (¬ IsMapRange base size
          → create_space source.memory_alloc tables memory base size ≡ stop boot_error)
        × (IsMapRange base size
            → (loader : Loader S) × (labels : Labels) × (create_space source.memory_alloc tables
                  memory base size
                ≡ done loader)
              × IsLoader source loader labels n
              × (loader.mappings ≡ [])
              × IsWithin (base + map_size base size) loader.allocator
              × ((v : ℕ) → managed loader.allocator v ≡ inside base (map_size base size) v)
              × ((v : ℕ) → inside base (map_size base size) v ≡ true → is_canonical_addr v ≡ true)
              × ((v : ℕ)
                  → tag_at loader.allocator.regions v ≡ (
                      if inside base (map_size base size) v then some (ltb v page_size) else none)))
  unfolding create_space
  create_space_lem small small' = (
    λ no. elim (decides base size small small') [ inl run ↦ rw run refl | inr is ↦ absurd (no is) ],
    λ is.
        let run = accepts base size is in
        let (ok, canonical) = got base size is in
        let (mmu, labels, created, good, maps_nothing) =
          mmu_context_create_lem source tables memory n holds in
        let (a, a', inited, reserved, ordered, manages, tags) =
          new_allocator base (map_size base size) ok in
        (
          record { mmu = mmu; allocator = a'; mappings = [] },
          labels,
          rw run (rw created (rw inited (rw reserved refl))),
          record {
            good = good;
            ordered = ordered;
            orderly = tt;
            reserved = tt;
            agrees = λ v _ _. maps_nothing v;
          },
          refl,
          (λ v m. limited v (sym (manages v) ∙ m), λ v le. tags v ∙ beyond v le),
          manages,
          λ v i. canonical-each base (map_size base size) v ok.size_positive ok.fits canonical i,
          tags,
        ),
  )
    where
      limited : (v : ℕ) → inside base (map_size base size) v ≡ true → v < base + map_size base size
      limited v i = ground (arith, i)

      beyond :
          (v : ℕ)
          → base + map_size base size ≤ v
          → (if inside base (map_size base size) v then some (ltb v page_size) else none) ≡ none
      beyond v le = ground (arith, le)
