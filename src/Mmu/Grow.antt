-- ===== src/Mmu/Grow.antt =====
-- Finding a table of the tree, or making it, keeps the tree and what every address is mapped to.
use kboot.Base.{
  ℕ, suc, ◌+◌, ◌*◌, ◌%◌, ◌^◌, ◌<◌, ◌≡◌, refl, sym, ap, ◌∙◌, true, false, arith, Bool-cases, inl,
  inr, ◌⊎◌,
}
use kboot.Base.Outcome.{Outcome, done}
use kboot.Mmu.{Tables, Context, is_present, address_of, link_to, next_table}
use kboot.Mmu.Tree.{is_leaf, translate, Labels, IsLink, IsTree}
use mathlib.Core.Path.{subst}
use kboot.Mmu.Updates.{
  linked-entry, labelled, relabel-new, relabel-old, link_to-IsLink, linked-link, same_or_other,
  linked, relabel, linked-IsTree, lookup-linked,
}

-- What the page tables ask of the physical memory manager: while it holds pages, it gives out one
-- that is aligned, below the limit of an entry and not in use.
pub record PageSource (S : Type 0) : Type 1 where
  pub memory_alloc : S → Outcome (ℕ × S)
  pub Holds : S → ℕ → Type 0
  pub Taken : S → ℕ → Type 0
  pub fewer : (s : S) (n : ℕ) → Holds s (suc n) → Holds s n
  pub gives :
      (s : S) (n : ℕ)
      → Holds s (suc n)
      → (p : ℕ) × (s' : S) × (memory_alloc s ≡ done (p, s'))
        × (p % 2 ^ 12 ≡ 0)
        × (p < 2 ^ 40)
        × (¬ (Taken s p))
        × Taken s' p
        × ((q : ℕ) → Taken s q → Taken s' q)
        × Holds s' n

module _ {S : Type 0} (source : PageSource S) where
  -- The tables form a tree of pages in use, and memory holds `n` pages more.
  abbrev pub IsGood : Context S → Labels → ℕ → Type 0
  IsGood ctx labels n =
      IsTree ctx.tables labels ctx.cr3
      × ((q : ℕ) → labels.depth q < 4 → source.Taken ctx.memory q)
      × source.Holds ctx.memory n

-- What is there stays, and every address is mapped as before.
abbrev pub Grows : {S : Type 0} → Context S → Labels → Context S → Labels → Type 0
Grows ctx labels ctx' labels' =
    (ctx'.cr3 ≡ ctx.cr3)
    × ((q d : ℕ)
        → labels.depth q ≡ d
        → d < 4
        → (labels'.depth q ≡ d) × (labels'.number q ≡ labels.number q))
    × ((q d j c : ℕ)
        → labels.depth q ≡ suc d
        → d < 3
        → IsLink ctx.tables d q j c
        → IsLink ctx'.tables d q j c)
    × ((v : ℕ) → translate ctx' v ≡ translate ctx v)

Grows-refl : {S : Type 0} (ctx : Context S) (labels : Labels) → Grows ctx labels ctx labels
Grows-refl ctx labels = (refl, λ q d h small. (h, refl), λ q d j c h small link. link, λ v. refl)

pub Grows-trans :
    {S : Type 0} (a b c : Context S) (la lb lc : Labels)
    → Grows a la b lb
    → Grows b lb c lc
    → Grows a la c lc
Grows-trans a b c la lb lc (r, k, l, t) (r', k', l', t') = (
  r' ∙ r,
  λ q d h small.
      let (depth, number) = k q d h small in
      let (depth', number') = k' q d depth small in (depth', number' ∙ number),
  λ q d j e h small link. l' q d j e (k q (suc d) h (omega arith)).0 small (l q d j e h small link),
  λ v. t' v ∙ t v,
)

-- A page that is not in use is no table.
unused :
    (labels : Labels) (Taken : ℕ → Type 0) (p : ℕ)
    → ((q : ℕ) → labels.depth q < 4 → Taken q)
    → ¬ (Taken p)
    → 3 < labels.depth p
unused labels Taken p taken free = elim (low_or_high (labels.depth p)) [
  | inl low ↦ absurd (free (taken p low))
  | inr high ↦ high
]
  where
    low_or_high : (d : ℕ) → (d < 4) ⊎ (3 < d)
    low_or_high d = ground arith

linked-IsLink :
    (tables : Tables) (labels : Labels) (t i p d q j c : ℕ)
    → 3 < labels.depth p
    → labels.depth q < 4
    → is_present (tables t i) ≡ false
    → IsLink tables d q j c
    → IsLink (linked tables t i p) d q j c
linked-IsLink tables labels t i p d q j c fresh small absent link =
    elim (linked-entry tables t i p q j (labelled labels p q (labels.depth q) fresh refl small)) [
      | inl (is, q-is, j-is) ↦
          let gone : is_present (tables q j) ≡ false =
            ap (λ x. is_present (tables x j)) q-is
            ∙ ap (λ x. is_present (tables t x)) j-is
            ∙ absent in
          absurd (ground (arith, gone, link.0))
      | inr is ↦ (ap is_present is ∙ link.0, ap (is_leaf d) is ∙ link.1, ap address_of is ∙ link.2)
    ]

-- What has become of a context, with a table that an entry leads to.
abbrev pub Found : {S : Type 0} → PageSource S → Context S → Labels → ℕ → ℕ → ℕ → ℕ → ℕ → Type 0
Found source ctx labels t i d n c =
    (ctx' : Context _) × (labels' : Labels) × (next_table source.memory_alloc ctx t i
      ≡ done (c, ctx'))
    × IsGood source ctx' labels' n
    × Grows ctx labels ctx' labels'
    × (labels'.depth c ≡ d)
    × (labels'.number c ≡ labels.number t * 512 + i)
    × IsLink ctx'.tables d t i c

module _ {S : Type 0} (source : PageSource S) where
  pub next_table_lem :
      (ctx : Context S) (labels : Labels) (t i d n : ℕ)
      → IsGood source ctx labels (suc n)
      → labels.depth t ≡ suc d
      → d < 3
      → (is_present (ctx.tables t i) ≡ true → is_leaf d (ctx.tables t i) ≡ false)
      → (c : ℕ) × Found source ctx labels t i d n c
  unfolding next_table
  next_table_lem ctx labels t i d n (tree, taken, holds) at small no_leaf =
      elim (Bool-cases (is_present (ctx.tables t i))) [
        | inl present ↦
            let (deeper, numbered) = tree.2 t d i at small present (no_leaf present) in
            (
              address_of (ctx.tables t i),
              (
                ctx,
                labels,
                rw present refl,
                (tree, taken, source.fewer ctx.memory n holds),
                Grows-refl ctx labels,
                deeper,
                numbered,
                (present, no_leaf present, refl),
              ),
            )
        | inr absent ↦
            let (p, s', run, aligned, below, free, now, still, left) =
              source.gives ctx.memory n holds in
            let fresh = unused labels (source.Taken ctx.memory) p taken free in
            let k = labels.number t * 512 + i in
            let (depth-p, number-p) = relabel-new labels p d k in
            let made = link_to-IsLink d p aligned below in
            let new : linked ctx.tables t i p t i ≡ link_to p = linked-link ctx.tables t i p in
            (
              p,
              (
                record ctx { tables = linked ctx.tables t i p; memory = s' },
                relabel labels p d k,
                rw absent (
                    rw run (
                      ap
                        (λ x.
                          done (x, record ctx { tables = linked ctx.tables t i p; memory = s' }))
                        made.2)),
                (
                  linked-IsTree ctx.tables labels ctx.cr3 t i p d tree at small fresh aligned below,
                  λ q low. elim (same_or_other q p) [
                    | inl same ↦ subst (source.Taken s') (sym same) now
                    | inr other ↦
                        still q (taken q (omega (arith, (relabel-old labels p d k q other).0, low)))
                  ],
                  left,
                ),
                (
                  refl,
                  λ q e here low.
                      let (depth-q, number-q) =
                        relabel-old labels p d k q (labelled labels p q e fresh here low) in
                      (depth-q ∙ here, number-q),
                  λ q e j c here low link.
                      linked-IsLink ctx.tables labels t i p e q j c fresh (omega arith) absent link,
                  λ v.
                      lookup-linked 3 ctx.tables labels ctx.cr3 t i p d ctx.cr3 v tree at small
                        fresh aligned below absent tree.0 (omega arith),
                ),
                depth-p,
                number-p,
                (
                  ap is_present new ∙ made.0,
                  ap (is_leaf d) new ∙ made.1,
                  ap address_of new ∙ made.2,
                ),
              ),
            )
      ]
