-- ===== src/Kernel/Room.antt =====
-- kboot_alloc_virtual finds addresses where there are some.
use kboot.Base.{
  ℕ, ◌+◌, ◌-◌, ◌*◌, ◌/◌, ◌%◌, ◌^◌, ◌≤◌, ◌<◌, ◌≡◌, refl, true, false, some, arith, inl, inr, Any,
}
use kboot.Base.Outcome.{done}
use kboot.Range.View.{tag_at}
use kboot.Allocator.Laws.{IsAsked, HasRoom, allocator_alloc_complete}
use kboot.Mmu.Tree.{Labels}
use kboot.Mmu.Grow.{PageSource}
use kboot.Mmu.Map.{is_canonical_addr, is_canonical_range}
use kboot.Kernel.{Loader}
use kboot.Kernel.Agreement.{each-canonical}
use kboot.Kernel.Placement.{IsPhys, IsLoader}
use kboot.Kernel.Bounds.{IsBelow, below-All, tagged-small}
use kboot.Kernel.Laws.{WasFree, Maps, alloc_run, kboot_alloc_virtual_lem}

module _ {S : Type 0} (source : PageSource S) (loader : Loader S) (labels : Labels)
    (phys size cache n : ℕ) (is : IsLoader source loader labels (size / 2 ^ 12 * 3 + n))
    (is_phys : IsPhys phys size) where
  free_canonical :
      (addr : ℕ)
      → 0 < size
      → ((v : ℕ) → tag_at loader.allocator.regions v ≡ some false → is_canonical_addr v ≡ true)
      → WasFree source loader labels phys size cache n is is_phys addr
      → is_canonical_range addr size ≡ true
  free_canonical addr pos canonical free =
      let end : addr + size - 1 < 2 ^ 64 =
        tagged-small 0 (addr + size - 1) loader.allocator.regions false is.ordered
          (free (addr + size - 1) (ground (arith, pos))) in
      each-canonical addr size pos (omega (arith, end)) (λ v i. canonical v (free v i))

  -- Where mappings, allocator and page tables agree, the free addresses of the allocator are canonical and a free region has room for the size at a page's
  -- start, `kboot_alloc_virtual` of a range of whole pages, of no memory or of memory within 40 bits, returns:
  -- the addresses were free, they are mapped to the memory, no other mapping has changed, and mappings, allocator
  -- and page tables agree as before. Memory holds three pages for each page of the range, and the
  -- allocator's addresses end a page and the size before the end of the address space.
  pub kboot_alloc_virtual_complete :
      (limit : ℕ)
      → size % 2 ^ 12 ≡ 0
      → 0 < size
      → IsBelow limit loader.allocator
      → limit + 0x1000 + size ≤ 2 ^ 64
      → ((v : ℕ) → tag_at loader.allocator.regions v ≡ some false → is_canonical_addr v ≡ true)
      → Any (HasRoom size 0x1000) loader.allocator.regions
      → (addr : ℕ) × (loader' : Loader S) × WasFree source loader labels phys size cache n is
          is_phys addr
        × (alloc_run source loader labels phys size cache n is is_phys ≡ done (addr, loader'))
        × Maps source loader labels phys size cache n is is_phys addr loader'
  kboot_alloc_virtual_complete limit aligned pos below fits canonical room =
      let asked : IsAsked loader.allocator size 0 = record {
        size_aligned = aligned;
        align_aligned = refl;
        size_positive = pos;
      } in
      let (_, _, given) =
        allocator_alloc_complete loader.allocator size 0 asked is.ordered
          (below-All 0 limit 0x1000 size loader.allocator.regions is.ordered below fits) room in
      elim (kboot_alloc_virtual_lem source loader labels phys size cache n is is_phys limit aligned
        pos below fits) [
          | inl (nothing, _) ↦ absurd (ground (arith, given, nothing))
          | inr (addr, free, inl (_, refused, _)) ↦
              let canonical_range = free_canonical addr pos canonical free in
              absurd (ground (arith, canonical_range, refused))
          | inr (addr, free, inr (loader', run, maps)) ↦ (addr, loader', free, run, maps)
        ]
