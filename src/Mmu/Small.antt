-- ===== src/Mmu/Small.antt =====
-- Mapping a small page of an address that is not mapped.
use mathlib.Core.Path.{subst}
use kboot.Base.{
  ℕ, suc, ◌+◌, ◌*◌, ◌%◌, ◌^◌, ◌<◌, ◌≡◌, refl, sym, ap, ◌∙◌, true, ◌==◌, some, arith, inr,
}
use kboot.Base.Outcome.{done}
use kboot.Mmu.{Context, is_present, is_large, address_of, set}
use kboot.Mmu.Keys.{index, key, key-step, page, same_page-index}
use kboot.Mmu.Tree.{translate, Labels, IsLink, lookup-link, lookup-leaf}
use kboot.Mmu.Leaves.{set-here, set-IsLink, set-IsTree, lookup-set}
use kboot.Mmu.Grow.{PageSource, IsGood, next_table_lem}
use kboot.Mmu.Pages.{HasDirectory, IsMapped, IsFlags, get_pdir_64_lem, directory-lookup}
use kboot.Base.{Option, none, some, inl, inr, suc, false, true, ◌≤◌, Bool-cases}
use kboot.Mmu.{map_small_64, is_present, is_large, address_of, set}
use kboot.Mmu.Tree.{is_leaf, lookup-small, lookup-leaf, IsLink}

not_both : (a : Option ℕ) (n : ℕ) → a ≡ none → a ≡ some n → 1 ≤ 0
not_both none n e e' = ground (arith, e')
not_both (some x) n e e' = ground (arith, e)

-- An address that is not mapped has no large page.
unmapped-no_leaf :
    {S : Type 0} (ctx : Context S) (labels : Labels) (w pdpt pdir : ℕ)
    → HasDirectory ctx labels w pdpt pdir
    → translate ctx w ≡ none
    → is_present (ctx.tables pdir (index 1 w)) ≡ true
    → is_leaf 0 (ctx.tables pdir (index 1 w)) ≡ false
unmapped-no_leaf ctx labels w pdpt pdir directory free present =
    elim (Bool-cases (is_large (ctx.tables pdir (index 1 w)))) [
      | inr small ↦ small
      | inl large ↦
          let mapped = lookup-leaf ctx.tables pdir w present large in
          absurd (
            omega (
              arith,
              not_both _ _ (sym (directory-lookup ctx labels w pdpt pdir directory) ∙ free) mapped,
            ))
    ]

module _ {S : Type 0} (source : PageSource S) where
  pub map_small_64_lem :
      (ctx : Context S) (labels : Labels) (w phys flags n : ℕ)
      → IsGood source ctx labels (suc (suc (suc n)))
      → w % 2 ^ 12 ≡ 0
      → phys % 2 ^ 12 ≡ 0
      → phys < 2 ^ 40
      → IsFlags flags
      → translate ctx w ≡ none
      → (ctx' : Context S) × (labels' : Labels) × (map_small_64 source.memory_alloc ctx w phys flags
          ≡ done ctx')
        × IsGood source ctx' labels' n
        × IsMapped ctx ctx' 0 w phys
  unfolding map_small_64
  map_small_64_lem ctx labels w phys flags n good w-aligned phys-aligned below is free =
      let (pdpt, pdir, ctx1, l1, run, good1, grows1, directory) =
        get_pdir_64_lem source ctx labels w (suc n) good in
      let (d2, d1, number, first, second) = directory in
      let (ptbl, (ctx2, l2, run2, good2, grows2, d0, number0, third)) =
        next_table_lem source ctx1 l1 pdir (index 1 w) 0 n good1 d1 (omega arith)
          (unmapped-no_leaf ctx1 l1 w pdpt pdir directory (grows1.3 w ∙ free)) in
      let e = phys + flags in
      let i = index 0 w in
      let tables' = set ctx2.tables ptbl i e in
      let ctx' : Context S = record ctx2 { tables = tables' } in
      let ok : (w % 2 ^ 12 == 0) ≡ true = ground (arith, w-aligned) in
      let ok' : (phys % 2 ^ 12 == 0) ≡ true = ground (arith, phys-aligned) in
      let present : is_present e ≡ true = ground (arith, phys-aligned, is.0) in
      let frame : address_of e ≡ phys = omega (arith, phys-aligned, below, is.1) in
      let d2' = (grows2.1 pdpt 2 d2 (omega arith)).0 in
      let d1' = (grows2.1 pdir 1 d1 (omega arith)).0 in
      let first' : IsLink tables' 2 ctx2.cr3 (index 3 w) pdpt =
        set-IsLink ctx2.tables l2 ptbl i e 2 ctx2.cr3 (index 3 w) pdpt
          (subst (λ r. IsLink ctx2.tables 2 r (index 3 w) pdpt) (sym grows2.0)
            (grows2.2 ctx1.cr3 2 (index 3 w) pdpt good1.0.0 (omega arith) first))
          (omega (arith, d0, good2.0.0)) in
      let second' : IsLink tables' 1 pdpt (index 2 w) pdir =
        set-IsLink ctx2.tables l2 ptbl i e 1 pdpt (index 2 w) pdir
          (grows2.2 pdpt 1 (index 2 w) pdir d2 (omega arith) second) (omega (arith, d0, d2')) in
      let third' : IsLink tables' 0 pdir (index 1 w) ptbl =
        set-IsLink ctx2.tables l2 ptbl i e 0 pdir (index 1 w) ptbl third (omega (arith, d0, d1')) in
      let number' : l2.number ptbl ≡ key 0 w =
        number0 ∙ ap (λ k. k * 512 + index 1 w) number ∙ sym (key-step 0 w (omega arith)) in
      let place : (v : ℕ) → page 0 v ≡ page 0 w → (d : ℕ) → d ≤ 3 → index d w ≡ index d v =
        λ v same d le. sym (same_page-index 0 v w (omega arith) same d (omega arith) le) in
      (
        ctx',
        l2,
        rw ok (rw ok' (rw run (rw run2 refl))),
        (set-IsTree ctx2.tables l2 ctx2.cr3 ptbl i 0 e good2.0 d0 (inl refl), good2.1, good2.2),
        (
          grows2.0 ∙ grows1.0,
          λ v same.
              let at : tables' ptbl (index 0 v) ≡ e =
                ap (tables' ptbl) (sym (place v same 0 (omega arith)))
                ∙ set-here ctx2.tables ptbl i e in
              lookup-link 2 tables' ctx2.cr3 v pdpt (
                subst (λ j. IsLink tables' 2 ctx2.cr3 j pdpt) (place v same 3 (omega arith)) first')
              ∙ lookup-link 1 tables' pdpt v pdir
                  (subst (λ j. IsLink tables' 1 pdpt j pdir) (place v same 2 (omega arith)) second')
              ∙ lookup-link 0 tables' pdir v ptbl
                  (subst (λ j. IsLink tables' 0 pdir j ptbl) (place v same 1 (omega arith)) third')
              ∙ lookup-small tables' ptbl v (ap is_present at ∙ present)
              ∙ ap (λ a. some (a + v % 2 ^ 12)) (ap address_of at ∙ frame),
          λ v apart.
              lookup-set 3 ctx2.tables l2 ctx2.cr3 ptbl i 0 e ctx2.cr3 v w good2.0 d0 (omega arith)
                number' refl apart good2.0.0 (omega arith) good2.0.1
              ∙ grows2.3 v
              ∙ grows1.3 v,
        ),
      )
