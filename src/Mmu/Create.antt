-- ===== src/Mmu/Create.antt =====
-- mmu_context_create for a 64-bit context, which maps nothing.
use mathlib.Core.Path.{subst}
use kboot.Base.{ℕ, suc, ◌<◌, ◌≡◌, refl, sym, ap, ◌∙◌, false, ◌==◌, if◌then◌else◌, none, arith}
use kboot.Base.Outcome.{Outcome, done, ◌>>=◌}
use kboot.Mmu.{Context, Tables, allocate_structure, clear, is_present}
use kboot.Mmu.Keys.{index}
use kboot.Mmu.Tree.{Labels, translate, lookup-none}
use kboot.Mmu.Grow.{PageSource, IsGood}

-- The context has no table before; other memory has any contents.
unfoldable pub mmu_context_create :
    {S : Type 0} → (S → Outcome (ℕ × S)) → Tables → S → Outcome (Context S)
mmu_context_create memory_alloc tables memory =
    allocate_structure memory_alloc (record { cr3 = 0; tables = tables; memory = memory })
    >>= λ (phys, ctx). done (record ctx { cr3 = phys })

-- Only the PML4 is a table.
abbrev root_only : ℕ → Labels
root_only p = record { depth = λ q. if q == p then 3 else 4; number = λ q. 0 }

root_only-here : (p q : ℕ) → (root_only p).depth q < 4 → q ≡ p
root_only-here p q low = ground (arith, low)

cleared : (tables : Tables) (p i : ℕ) → clear tables p p i ≡ 0
cleared tables p i = ground arith

module _ {S : Type 0} (source : PageSource S) where
  -- If memory holds a page, a new context is a tree of tables that maps no address.
  pub mmu_context_create_lem :
      (tables : Tables) (memory : S) (n : ℕ)
      → source.Holds memory (suc n)
      → (ctx : Context S) × (labels : Labels) × (mmu_context_create source.memory_alloc tables
            memory
          ≡ done ctx)
        × IsGood source ctx labels n
        × ((v : ℕ) → translate ctx v ≡ none)
  unfolding mmu_context_create
  mmu_context_create_lem tables memory n holds =
      let (p, s', run, aligned, below, free, now, still, left) = source.gives memory n holds in
      let empty : (i : ℕ) → is_present (clear tables p p i) ≡ false =
        λ i. ap is_present (cleared tables p i) in
      let root : (root_only p).depth p ≡ 3 = ground arith in
      (
        record { cr3 = p; tables = clear tables p; memory = s' },
        root_only p,
        rw run refl,
        (
          (
            root,
            refl,
            λ t d i at small present link.
                let here : t ≡ p = root_only-here p t (omega (arith, at, small)) in
                let gone : is_present (clear tables p t i) ≡ false =
                  ap (λ x. is_present (clear tables p x i)) here ∙ empty i in
                absurd (ground (arith, present, gone)),
          ),
          λ q low. subst (source.Taken s') (sym (root_only-here p q low)) now,
          left,
        ),
        λ v. lookup-none 3 (clear tables p) p v (empty (index 3 v)),
      )
