-- ===== src/Mmu/Pages.antt =====
-- Mapping one page: the walk finds it afterwards, and finds every other address as before.
use mathlib.Core.Path.{subst}
use kboot.Base.{
  ℕ, suc, ◌+◌, ◌*◌, ◌%◌, ◌^◌, ◌<◌, ◌≡◌, ◌≢◌, refl, sym, ap, ◌∙◌, true, ◌==◌, some, arith, inr,
}
use kboot.Base.Outcome.{done}
use kboot.Mmu.{Context, is_present, is_large, address_of, set, get_pdir_64, map_large_64}
use kboot.Mmu.Keys.{index, key, key-step, page, span, same_page-index}
use kboot.Mmu.Tree.{translate, lookup, Labels, IsLink, lookup-link, lookup-leaf}
use kboot.Mmu.Leaves.{set-here, set-IsLink, set-IsTree, lookup-set}
use kboot.Mmu.Grow.{PageSource, IsGood, Grows, Grows-trans, next_table_lem}

-- A context in which the links for `w` lead to a page directory.
abbrev pub HasDirectory : {S : Type 0} → Context S → Labels → ℕ → ℕ → ℕ → Type 0
HasDirectory ctx labels w pdpt pdir =
    (labels.depth pdpt ≡ 2)
    × (labels.depth pdir ≡ 1)
    × (labels.number pdir ≡ key 1 w)
    × IsLink ctx.tables 2 ctx.cr3 (index 3 w) pdpt
    × IsLink ctx.tables 1 pdpt (index 2 w) pdir

-- The walk goes that way.
pub directory-lookup :
    {S : Type 0} (ctx : Context S) (labels : Labels) (w pdpt pdir : ℕ)
    → HasDirectory ctx labels w pdpt pdir
    → translate ctx w ≡ lookup 1 ctx.tables pdir w
directory-lookup ctx labels w pdpt pdir (_, _, _, first, second) =
    lookup-link 2 ctx.tables ctx.cr3 w pdpt first ∙ lookup-link 1 ctx.tables pdpt w pdir second

-- After a page of `w` is mapped to `phys`.
abbrev pub IsMapped : {S : Type 0} → Context S → Context S → ℕ → ℕ → ℕ → Type 0
IsMapped ctx ctx' d w phys =
    (ctx'.cr3 ≡ ctx.cr3)
    × ((v : ℕ) → page d v ≡ page d w → translate ctx' v ≡ some (phys + v % span d))
    × ((v : ℕ) → page d v ≢ page d w → translate ctx' v ≡ translate ctx v)

-- The flags that mmu_map makes: present, and no bit from 7 on.
abbrev pub IsFlags : ℕ → Type 0
IsFlags flags = (flags % 2 ≡ 1) × (flags < 2 ^ 7)

module _ {S : Type 0} (source : PageSource S) where
  pub get_pdir_64_lem :
      (ctx : Context S) (labels : Labels) (w n : ℕ)
      → IsGood source ctx labels (suc (suc n))
      → (pdpt pdir : ℕ) × (ctx' : Context S) × (labels' : Labels) × (get_pdir_64 source.memory_alloc
            ctx w
          ≡ done (pdir, ctx'))
        × IsGood source ctx' labels' n
        × Grows ctx labels ctx' labels'
        × HasDirectory ctx' labels' w pdpt pdir
  unfolding get_pdir_64
  get_pdir_64_lem ctx labels w n good =
      let (pdpt, (ctx1, l1, run1, good1, grows1, depth1, number1, link1)) =
        next_table_lem source ctx labels ctx.cr3 (index 3 w) 2 (suc n) good good.0.0 (omega arith)
          (λ _. refl) in
      let (pdir, (ctx2, l2, run2, good2, grows2, depth2, number2, link2)) =
        next_table_lem source ctx1 l1 pdpt (index 2 w) 1 n good1 depth1 (omega arith) (λ _. refl) in
      let key1 : l1.number pdpt ≡ key 2 w =
        number1 ∙ ap (λ k. k * 512 + index 3 w) good.0.1 ∙ sym (key-step 2 w (omega arith)) in
      (
        pdpt,
        pdir,
        ctx2,
        l2,
        rw run1 run2,
        good2,
        Grows-trans ctx ctx1 ctx2 labels l1 l2 grows1 grows2,
        (
          (grows2.1 pdpt 2 depth1 (omega arith)).0,
          depth2,
          number2 ∙ ap (λ k. k * 512 + index 2 w) key1 ∙ sym (key-step 1 w (omega arith)),
          subst (λ r. IsLink ctx2.tables 2 r (index 3 w) pdpt) (sym (grows2.0 ∙ grows1.0))
              (grows2.2 ctx.cr3 2 (index 3 w) pdpt (grows1.1 ctx.cr3 3 good.0.0 (omega arith)).0
                (omega arith) link1),
          link2,
        ),
      )

  pub map_large_64_lem :
      (ctx : Context S) (labels : Labels) (w phys flags n : ℕ)
      → IsGood source ctx labels (suc (suc n))
      → w % 2 ^ 21 ≡ 0
      → phys % 2 ^ 21 ≡ 0
      → phys < 2 ^ 40
      → IsFlags flags
      → (ctx' : Context S) × (labels' : Labels) × (map_large_64 source.memory_alloc ctx w phys flags
          ≡ done ctx')
        × IsGood source ctx' labels' n
        × IsMapped ctx ctx' 1 w phys
  unfolding map_large_64
  map_large_64_lem ctx labels w phys flags n good w-aligned phys-aligned below is =
      let (pdpt, pdir, ctx1, l1, run, good1, grows, (d2, d1, number, first, second)) =
        get_pdir_64_lem ctx labels w n good in
      let e = phys + flags + 128 in
      let tables' = set ctx1.tables pdir (index 1 w) e in
      let ctx' : Context S = record ctx1 { tables = tables' } in
      let ok : (w % 2 ^ 21 == 0) ≡ true = ground (arith, w-aligned) in
      let ok' : (phys % 2 ^ 21 == 0) ≡ true = ground (arith, phys-aligned) in
      let large : is_large e ≡ true = ground (arith, phys-aligned, is.0, is.1) in
      let present : is_present e ≡ true = ground (arith, phys-aligned, is.0) in
      let frame : address_of e ≡ phys = omega (arith, phys-aligned, below, is.1) in
      let first' =
        set-IsLink ctx1.tables l1 pdir (index 1 w) e 2 ctx1.cr3 (index 3 w) pdpt first
          (omega (arith, d1, good1.0.0)) in
      let second' =
        set-IsLink ctx1.tables l1 pdir (index 1 w) e 1 pdpt (index 2 w) pdir second
          (omega (arith, d1, d2)) in
      (
        ctx',
        l1,
        rw ok (rw ok' (rw run refl)),
        (
          set-IsTree ctx1.tables l1 ctx1.cr3 pdir (index 1 w) 1 e good1.0 d1 (inr (refl, large)),
          good1.1,
          good1.2,
        ),
        (
          grows.0,
          λ v same.
              let at : tables' pdir (index 1 v) ≡ e =
                ap (tables' pdir)
                  (same_page-index 1 v w (omega arith) same 1 (omega arith) (omega arith))
                ∙ set-here ctx1.tables pdir (index 1 w) e in
              lookup-link 2 tables' ctx1.cr3 v pdpt (
                subst (λ i. IsLink tables' 2 ctx1.cr3 i pdpt)
                  (sym (same_page-index 1 v w (omega arith) same 3 (omega arith) (omega arith)))
                  first')
              ∙ lookup-link 1 tables' pdpt v pdir (
                  subst (λ i. IsLink tables' 1 pdpt i pdir)
                    (sym (same_page-index 1 v w (omega arith) same 2 (omega arith) (omega arith)))
                    second')
              ∙ lookup-leaf tables' pdir v (ap is_present at ∙ present) (ap is_large at ∙ large)
              ∙ ap (λ a. some (a + v % 2 ^ 21)) (ap address_of at ∙ frame),
          λ v apart.
              lookup-set 3 ctx1.tables l1 ctx1.cr3 pdir (index 1 w) 1 e ctx1.cr3 v w good1.0 d1
                (omega arith) number refl apart good1.0.0 (omega arith) good1.0.1
              ∙ grows.3 v,
        ),
      )
