-- ===== src/Kernel/Tags.antt =====
-- The mappings that an image asks for, one after the other.
use kboot.Base.{
  ℕ, ◌+◌, ◌-◌, ◌^◌, ◌≡◌, ◌≢◌, some, arith, refl, List, [], ◌∷◌, true, ◌==◌, Bool-cases, inl, inr,
  ◌⊎◌, ==_iff, All,
}
use kboot.Base.Outcome.{Outcome, done, stop, boot_error}
use kboot.Memory.Map.Laws.{inside}
use mathlib.Core.Path.{subst}
use kboot.Allocator.Reserve.{insert_outcome}
use kboot.Mmu.Tree.{Labels}
use kboot.Mmu.Grow.{PageSource}
use kboot.Kernel.{Loader, MappingTag, add_mapping, no_phys, map_itags}
use kboot.Range.View.{tag_at}
use kboot.Kernel.Mappings.{mapped_at}
use kboot.Kernel.Placement.{mapping, IsLoader}
use kboot.Kernel.Laws.{
  Maps, kboot_alloc_virtual_lem, kboot_map_virtual_lem, kboot_map_virtual-refused,
}
use kboot.Kernel.Entries.{
  IsTag, needed, IsWithin, Keeps-IsWithin, Keeps-IsTag, Stays, IsMapped, cache_of, Entered,
  unchanged, entered, Stops, at_once, later, Maps-Stays, Maps-target, no_room, not_free,
}

module _ {S : Type 0} (source : PageSource S) (version limit n : ℕ) where
  abbrev pub Mapped : Loader S → List MappingTag → Outcome (Loader S) → Type 0
  Mapped loader tags run =
      ((run ≡ stop boot_error) × Stops source version loader tags)
      ⊎ ((loader' : Loader S) × (labels' : Labels) × (run ≡ done loader')
          × IsLoader source loader' labels' n
          × Entered version loader.mappings tags loader'.mappings
          × Stays loader loader'
          × All (IsMapped loader') tags)

  first_then :
      (t : MappingTag) (ts : List MappingTag) (loader loader' : Loader S) (labels : Labels)
      (m addr : ℕ) (run : Outcome (Loader S))
      → map_itags source.memory_alloc version loader (t ∷ []) ≡ done loader'
      → IsLoader source loader' labels m
      → (t.virt ≢ 2 ^ 64 - 1 → addr ≡ t.virt)
      → loader'.mappings
        ≡ add_mapping loader.mappings (mapping addr t.size t.phys (cache_of version t))
      → Stays loader loader'
      → (t.phys ≢ no_phys
          → (v : ℕ) → inside addr t.size v ≡ true
          → mapped_at loader'.mappings v ≡ some (t.phys + (v - addr)))
      → Mapped loader' ts run
      → Mapped loader (t ∷ ts) run
  first_then t ts loader loader' labels m addr run one is named new stays here (inl (stops, why)) =
      inl (
        stops,
        later loader' labels m one is
            (entered addr named (subst (λ l. Entered version l [] loader'.mappings) new unchanged))
            why,
      )
  first_then t ts loader loader' labels m addr run one is named new stays here
        (inr (last, labels', e, is', more, stays', mapped)) =
      inr (
        last,
        labels',
        e,
        is',
        entered addr named (subst (λ l. Entered version l ts last.mappings) new more),
        λ v p k. stays' v p (stays v p k),
        (
          (addr, named, λ some_phys v i. stays' v (t.phys + (v - addr)) (here some_phys v i)),
          mapped,
        ),
      )

  -- Where mappings, allocator and page tables agree, and for the mapping tags of an image, each for whole pages and
  -- for memory within 40 bits if for any, and each either without an address or at page-aligned ones that the
  -- allocator manages, while memory holds three pages for each page and `n` more, and the allocator's addresses
  -- end a page and the size of each tag before the end of the address space: the loop over them stops the loader
  -- with an error only where, after the tags before it have been mapped, there is no place for a tag: no room, an
  -- allocated address, or addresses for memory that are not canonical. Otherwise it comes to its end. Then each tag
  -- has one mapping more in the list, with the tag's size, memory and cache flag and at the address that it names
  -- if it names one, and is mapped so; what was mapped before is mapped as it was; and mappings, allocator and page
  -- tables agree, with `n` pages of memory left.
  pub map_itags_lem :
      (tags : List MappingTag) (loader : Loader S) (labels : Labels)
      → IsLoader source loader labels (needed tags n)
      → IsWithin limit loader.allocator
      → All (IsTag limit loader.allocator) tags
      → Mapped loader tags (map_itags source.memory_alloc version loader tags)
  unfolding map_itags
  map_itags_lem [] loader labels is within h =
      inr (loader, labels, refl, is, unchanged, λ v p e. e, tt)
  map_itags_lem (t ∷ ts) loader labels is within ((aligned, pos, is_phys, fits, at), hs) =
      let cache = cache_of version t in
      let next : (loader' : Loader S) (addr : ℕ)
          → map_itags source.memory_alloc version loader (t ∷ []) ≡ done loader'
          → Maps source loader labels t.phys t.size cache (needed ts n) is is_phys addr loader'
          → ((v : ℕ) → inside addr t.size v ≡ true → tag_at loader.allocator.regions v ≢ some true)
          → (t.virt ≢ 2 ^ 64 - 1 → addr ≡ t.virt)
          → Mapped loader (t ∷ ts) (map_itags source.memory_alloc version loader' ts) =
        λ loader' addr one maps free named.
          let (labels', is', keeps, new, _) = maps in
          first_then t ts loader loader' labels' (needed ts n) addr
            (map_itags source.memory_alloc version loader' ts) one is' named new
            (Maps-Stays source loader labels t.phys t.size cache (needed ts n) is is_phys addr
              loader' maps free)
            (Maps-target source loader labels t.phys t.size cache (needed ts n) is is_phys addr
              loader' maps)
            (map_itags_lem ts loader' labels' is'
              (Keeps-IsWithin limit loader.allocator loader'.allocator keeps within)
              (Keeps-IsTag limit loader.allocator loader'.allocator ts keeps hs)) in
      elim (Bool-cases (t.virt == 2 ^ 64 - 1)) [
        | inl any ↦
            let is_any : t.virt ≡ 2 ^ 64 - 1 = (==_iff t.virt (2 ^ 64 - 1)).0 any in
            elim (kboot_alloc_virtual_lem source loader labels t.phys t.size cache (needed ts n) is
              is_phys limit aligned pos within.1 fits) [
                | inl (nothing, run) ↦ inl (
                  rw any (rw run refl),
                  at_once (
                      inl (
                        is_any,
                        inl (
                            no_room loader t.size limit aligned pos fits is.ordered within.1
                              nothing),
                      )),
                )
                | inr (addr, free, inl (some_phys, refused, run)) ↦ inl (
                  rw any (rw run refl),
                  at_once (inl (is_any, inr (some_phys, (addr, free, refused)))),
                )
                | inr (addr, free, inr (loader', run, maps)) ↦ rw any (
                    rw run (
                      next loader' addr (rw any (rw run refl)) maps
                        (λ v i e. ground (arith, free v i, e)) (λ named. absurd (named is_any))))
              ]
        | inr named ↦
            let not_any : t.virt ≢ 2 ^ 64 - 1 = ground (arith, named) in
            let (ok, manages) = at named in
            let (_, maps) =
              kboot_map_virtual_lem source loader labels t.phys t.size cache (needed ts n) is
                is_phys t.virt ok manages in
            elim (insert_outcome loader.allocator t.virt t.size is.ordered ok) [
              | inr refused ↦
                  let run =
                    kboot_map_virtual-refused source loader labels t.phys t.size cache (needed ts n)
                      is is_phys t.virt ok refused in
                  inl (
                    rw named (rw run refl),
                    at_once
                        (inr (not_any, inl (not_free loader t.virt t.size ok is.ordered refused))),
                  )
              | inl free ↦ elim (maps free) [
                | inl (some_phys, refused, run) ↦
                    inl (rw named (rw run refl), at_once (inr (not_any, inr (some_phys, refused))))
                | inr (loader', run, maps') ↦
                    rw named
                      (rw run (next loader' t.virt (rw named (rw run refl)) maps' free (λ _. refl)))
              ]
            ]
      ]
