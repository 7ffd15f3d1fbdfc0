-- ===== src/Kernel/Laws.antt =====
-- kboot_alloc_virtual and kboot_map_virtual map what they are asked to, or stop the loader.
use kboot.Base.{
  ℕ, ◌+◌, ◌-◌, ◌*◌, ◌/◌, ◌%◌, ◌^◌, ◌≤◌, ◌<◌, ◌≡◌, ◌≢◌, refl, sym, ap, ◌∙◌, [], Bool, true, false,
  ◌&&◌, if◌then◌else◌, Option, none, some, arith, Option-cases, inl, inr, ◌⊎◌,
}
use kboot.Base.Outcome.{Outcome, done, stop, boot_error}
use kboot.Range.View.{tag_at}
use kboot.Memory.Map.Laws.{inside, IsPageRange}
use kboot.Allocator.{Allocator, allocator_alloc, allocator_insert, alloc_from}
use kboot.Allocator.Laws.{IsAsked, IsTaken, alloc-from, allocator_alloc_sound}
use mathlib.Core.Path.{subst}
use kboot.Allocator.Reserve.{managed, allocator_insert_lem}
use kboot.Mmu.Tree.{Labels}
use kboot.Mmu.Grow.{PageSource}
use kboot.Mmu.Map.{is_canonical_range}
use kboot.Kernel.{
  add_mapping, Loader, no_phys, check_mapping, kboot_alloc_virtual, kboot_map_virtual,
}
use kboot.Kernel.Mappings.{place, mapped_at}
use kboot.Kernel.Placement.{IsPhys, IsLoader, mapping, place_mapping_lem}
use kboot.Kernel.Bounds.{IsBelow, Keeps, taken-Keeps, inserted-Keeps, below-All, tagged-small}

still : (b : Bool) (o : Option Bool) → o ≡ some true → (if b then some true else o) ≡ some true
still true o e = refl
still false o e = e

check_mapping-any :
    (phys size : ℕ)
    → size % 2 ^ 12 ≡ 0
    → 0 < size
    → IsPhys phys size
    → check_mapping false (2 ^ 64 - 1) phys size ≡ true
unfolding check_mapping
check_mapping-any phys size aligned pos (inl nothing) = ground (arith, aligned, pos, nothing)
check_mapping-any phys size aligned pos (inr (phys-aligned, below)) =
    ground (arith, aligned, pos, phys-aligned)

check_mapping-at :
    (addr phys size : ℕ)
    → IsPageRange addr size
    → IsPhys phys size
    → check_mapping false addr phys size ≡ true
unfolding check_mapping
check_mapping-at addr phys size ok (inl nothing) =
    ground (arith, ok.start_aligned, ok.size_aligned, ok.size_positive, ok.fits, nothing)
check_mapping-at addr phys size ok (inr (phys-aligned, below)) =
    ground (arith, ok.start_aligned, ok.size_aligned, ok.size_positive, ok.fits, phys-aligned)

module _ {S : Type 0} (source : PageSource S) (loader : Loader S) (labels : Labels)
    (phys size cache n : ℕ) (is : IsLoader source loader labels (size / 2 ^ 12 * 3 + n))
    (is_phys : IsPhys phys size) where
  abbrev pub alloc_run : Outcome (ℕ × Loader S)
  alloc_run = kboot_alloc_virtual source.memory_alloc loader phys size cache

  -- Every address of what the allocator gives was free.
  abbrev pub WasFree : ℕ → Type 0
  WasFree addr =
      (v : ℕ) → inside addr size v ≡ true → tag_at loader.allocator.regions v ≡ some false

  -- What the calls make of a range, where they do not stop.
  abbrev pub Maps : ℕ → Loader S → Type 0
  Maps addr loader' =
      (labels' : Labels) × IsLoader source loader' labels' n
      × Keeps loader.allocator loader'.allocator
      × (loader'.mappings ≡ add_mapping loader.mappings (mapping addr size phys cache))
      × ((v : ℕ)
          → mapped_at loader'.mappings v ≡ (
              if inside addr size v
              then place (mapping addr size phys cache) v
              else mapped_at loader.mappings v))

  taken_range :
      (allocator : Allocator) (addr : ℕ)
      → size % 2 ^ 12 ≡ 0
      → 0 < size
      → IsTaken loader.allocator allocator size 0x1000 addr
      → IsPageRange addr size
  taken_range allocator addr aligned pos taken =
      let end : addr + size - 1 < 2 ^ 64 =
        tagged-small 0 (addr + size - 1) loader.allocator.regions false is.ordered
          (taken.was_free (addr + size - 1) (ground (arith, pos))) in
      record {
        start_aligned = taken.aligned;
        size_aligned = aligned;
        size_positive = pos;
        fits = omega (arith, end);
      }

  -- Where mappings, allocator and page tables agree,
  -- `kboot_alloc_virtual` of a range of whole pages, of no memory or of memory within 40 bits, while memory holds
  -- three pages for each page of the range and `n` more, and the allocator's addresses end a page and the size
  -- before the end of the address space: it stops the loader if the allocator has no room, or gives
  -- addresses that are not canonical for memory. Otherwise the addresses that it returns were free, they are
  -- mapped to the memory, no other mapping has changed, mappings, allocator and page tables agree as before, and
  -- the allocator keeps its bounds.
  pub kboot_alloc_virtual_lem :
      (limit : ℕ)
      → size % 2 ^ 12 ≡ 0
      → 0 < size
      → IsBelow limit loader.allocator
      → limit + 0x1000 + size ≤ 2 ^ 64
      → ((allocator_alloc loader.allocator size 0 ≡ done none) × (alloc_run ≡ stop boot_error))
        ⊎ ((addr : ℕ) × WasFree addr
            × (((phys ≢ no_phys)
                  × (is_canonical_range addr size ≡ false)
                  × (alloc_run ≡ stop boot_error))
                ⊎ ((loader' : Loader S) × (alloc_run ≡ done (addr, loader')) × Maps addr loader')))
  unfolding kboot_alloc_virtual
  kboot_alloc_virtual_lem limit aligned pos below fits =
      let asked : IsAsked loader.allocator size 0 = record {
        size_aligned = aligned;
        align_aligned = refl;
        size_positive = pos;
      } in
      let checked = check_mapping-any phys size aligned pos is_phys in
      elim (Option-cases (alloc_from loader.allocator size 0x1000 [] loader.allocator.regions)) [
        | inl nothing ↦
            let run = alloc-from loader.allocator size 0 asked ∙ ap done nothing in
            inl (run, rw checked (rw run refl))
        | inr ((allocator, addr), found) ↦
            let run = alloc-from loader.allocator size 0 asked ∙ ap done found in
            let taken =
              allocator_alloc_sound loader.allocator size 0 allocator addr asked is.ordered
                (below-All 0 limit 0x1000 size loader.allocator.regions is.ordered below fits)
                run in
            inr (
              addr,
              taken.was_free,
              elim (place_mapping_lem source loader labels addr size phys cache n is
                  (taken_range allocator addr aligned pos taken)
                  (λ v i e. was_not v (taken.was_free v i) e) allocator taken.ordered
                  (λ v i. taken.after v ∙ rw i refl)
                  (λ v e.
                    taken.after v
                    ∙ still (inside addr size v) (tag_at loader.allocator.regions v) e)
                  is_phys) [
                    | inl (some_phys, refused, placed) ↦
                        inl (some_phys, refused, rw checked (rw run (rw placed refl)))
                    | inr (loader', labels', placed, is', same, entered, maps) ↦ inr (
                      loader',
                      rw checked (rw run (rw placed refl)),
                      (
                        labels',
                        is',
                        subst (Keeps loader.allocator) (sym same)
                            (taken-Keeps loader.allocator allocator size 0x1000 addr taken),
                        entered,
                        maps,
                      ),
                    )
                  ],
            )
      ]
    where
      was_not :
          (v : ℕ)
          → tag_at loader.allocator.regions v ≡ some false
          → tag_at loader.allocator.regions v ≢ some true
      was_not v e e' = ground (arith, e, e')

  pub kboot_map_virtual-refused :
      (addr : ℕ)
      → IsPageRange addr size
      → allocator_insert loader.allocator addr size ≡ done none
      → kboot_map_virtual source.memory_alloc loader addr phys size cache ≡ stop boot_error
  unfolding kboot_map_virtual
  kboot_map_virtual-refused addr ok refused =
      rw (check_mapping-at addr phys size ok is_phys) (rw refused refl)

  -- Where mappings, allocator and page tables agree,
  -- `kboot_map_virtual` of a range of whole pages, of no memory or of memory within 40 bits, while memory holds
  -- three pages for each page of the range and `n` more, all of whose addresses the allocator manages: it stops
  -- the loader if one of them is allocated, or if the range is not canonical and is for memory. Otherwise it maps
  -- the range to the memory and changes no other mapping; mappings, allocator and page tables agree as
  -- before, and the allocator keeps its bounds.
  pub kboot_map_virtual_lem :
      (addr : ℕ)
      → IsPageRange addr size
      → ((a : ℕ) → inside addr size a ≡ true → managed loader.allocator a ≡ true)
      → ((a : ℕ)
          → inside addr size a ≡ true
          → tag_at loader.allocator.regions a ≡ some true
          → kboot_map_virtual source.memory_alloc loader addr phys size cache ≡ stop boot_error)
        × (((a : ℕ) → inside addr size a ≡ true → tag_at loader.allocator.regions a ≢ some true)
            → ((phys ≢ no_phys)
                × (is_canonical_range addr size ≡ false)
                × (kboot_map_virtual source.memory_alloc loader addr phys size cache
                    ≡ stop boot_error))
              ⊎ ((loader' : Loader S) × (kboot_map_virtual source.memory_alloc loader addr phys size
                      cache
                    ≡ done loader')
                  × Maps addr loader'))
  unfolding kboot_map_virtual
  kboot_map_virtual_lem addr ok manages =
      let (conflict, inserts) = allocator_insert_lem loader.allocator addr size is.ordered ok in
      let checked = check_mapping-at addr phys size ok is_phys in
      (
        λ a i taken. let run = conflict a i taken in rw checked (rw run refl),
        λ free.
            let (allocator, run, ordered, bounds, after) = inserts free in
            let all_managed : (v : ℕ)
                → inside addr size v ≡ true
                → (inside addr size v && managed loader.allocator v) ≡ true =
              λ v i. rw i (manages v i) in
            elim (place_mapping_lem source loader labels addr size phys cache n is ok free allocator
              ordered (λ v i. after v ∙ rw (all_managed v i) refl)
              (λ v e.
                after v
                ∙ still (inside addr size v && managed loader.allocator v)
                    (tag_at loader.allocator.regions v) e)
              is_phys) [
                | inl (some_phys, refused, placed) ↦
                    inl (some_phys, refused, rw checked (rw run placed))
                | inr (loader', labels', placed, is', same, entered, maps) ↦ inr (
                  loader',
                  rw checked (rw run placed),
                  (
                    labels',
                    is',
                    subst (Keeps loader.allocator) (sym same)
                        (inserted-Keeps loader.allocator allocator addr size bounds after),
                    entered,
                    maps,
                  ),
                )
              ],
      )
