-- ===== src/Mmu/Loops.antt =====
-- A loop over a range that is not mapped yet comes to its end, and has mapped the part that it has passed.
use mathlib.Core.Path.{subst}
use kboot.Base.{
  ℕ, zero, suc, ◌+◌, ◌-◌, ◌*◌, ◌/◌, ◌%◌, ◌^◌, ◌≤◌, ◌<◌, ◌≡◌, refl, sym, ◌∙◌, Bool, true, false,
  none, arith, Bool-cases, inl, inr, ◌⊎◌,
}
use kboot.Base.Outcome.{Outcome, done}
use kboot.Mmu.{Context}
use kboot.Mmu.Keys.{span}
use kboot.Mmu.Tree.{Labels, translate}
use kboot.Mmu.Grow.{PageSource, IsGood}
use kboot.Mmu.Pages.{IsMapped, IsFlags}
use kboot.Mmu.Map.{Range, onward, map_from}
use kboot.Mmu.Covers.{
  is_inside, IsRange, Covers, Covers-refl, Covers-trans, bounds-inside, onward-IsRange, page-Covers,
  span-aligned,
}

-- No address of the range is mapped.
abbrev pub IsFree : {S : Type 0} → Context S → Range → Type 0
IsFree ctx r = (v : ℕ) → is_inside r v ≡ true → translate ctx v ≡ none

pub IsGood-fewer :
    {S : Type 0} (source : PageSource S) (ctx : Context S) (labels : Labels) (m k : ℕ)
    → m ≤ k
    → IsGood source ctx labels k
    → IsGood source ctx labels m
IsGood-fewer source ctx labels m zero le good = subst (IsGood source ctx labels) (omega arith) good
IsGood-fewer source ctx labels m (suc k) le good = elim (last_or_less m k le) [
  | inl same ↦ subst (IsGood source ctx labels) (sym same) good
  | inr less ↦
      IsGood-fewer source ctx labels m k less (good.0, good.1, source.fewer ctx.memory k good.2)
]
  where
    last_or_less : (m k : ℕ) → m ≤ suc k → (m ≡ suc k) ⊎ (m ≤ k)
    last_or_less m k le = ground (arith, le)

-- What a function does that maps a page of a depth.
abbrev pub Maps :
    {S : Type 0} → PageSource S → ℕ → (Context S → ℕ → ℕ → ℕ → Outcome (Context S)) → Type 0
Maps {S} source d map =
    (ctx : Context S) (labels : Labels) (w phys flags n : ℕ)
    → IsGood source ctx labels (suc (suc (suc n)))
    → w % span d ≡ 0
    → phys % span d ≡ 0
    → phys < 2 ^ 40
    → IsFlags flags
    → translate ctx w ≡ none
    → (ctx' : Context S) × (labels' : Labels) × (map ctx w phys flags ≡ done ctx')
      × IsGood source ctx' labels' n
      × IsMapped ctx ctx' d w phys

-- What a loop comes to: the rest `r'` of the range is not mapped, and there are pages left for it.
abbrev pub Ran :
    {S : Type 0}
    → PageSource S
    → Context S
    → Range
    → ℕ
    → (Range → Bool)
    → (Range → Type 0)
    → Outcome (Context S × Range)
    → Type 0
Ran {S} source ctx r n more Inv run =
    (ctx' : Context S) × (labels' : Labels) × (r' : Range) × (k : ℕ) × (run ≡ done (ctx', r'))
    × IsGood source ctx' labels' k
    × (r'.size / 2 ^ 12 * 3 + n ≤ k)
    × (r'.size ≤ r.size)
    × IsRange r'
    × Inv r'
    × (more r' ≡ false)
    × Covers ctx ctx' r r'
    × IsFree ctx' r'

-- Where the condition holds, the next page is aligned and lies in the range.
abbrev pub Goes : ℕ → (Range → Bool) → (Range → Type 0) → Type 0
Goes d more Inv =
    (r : Range)
    → IsRange r
    → Inv r
    → more r ≡ true
    → (r.virt % span d ≡ 0) × (r.phys % span d ≡ 0) × (span d ≤ r.size) × Inv (onward (span d) r)

module _ {S : Type 0} (source : PageSource S) (d flags : ℕ) (more : Range → Bool)
    (Inv : Range → Type 0) (map : Context S → ℕ → ℕ → ℕ → Outcome (Context S)) where
  pub map_from_lem :
      (f : ℕ) (ctx : Context S) (labels : Labels) (r : Range) (k n : ℕ)
      → d < 2
      → IsFlags flags
      → Maps source d map
      → Goes d more Inv
      → IsGood source ctx labels k
      → IsRange r
      → Inv r
      → IsFree ctx r
      → r.size / 2 ^ 12 * 3 + n ≤ k
      → r.size / 2 ^ 12 < f
      → Ran source ctx r n more Inv (map_from f more map (span d) flags ctx r)
  unfolding map_from
  map_from_lem zero ctx labels r k n small fl maps goes good is inv free room enough =
      absurd (omega arith)
  map_from_lem (suc f) ctx labels r k n small fl maps goes good is inv free room enough =
      elim (Bool-cases (more r)) [
        | inr ended ↦ (
          ctx,
          labels,
          r,
          k,
          rw ended refl,
          good,
          room,
          omega arith,
          is,
          inv,
          ended,
          Covers-refl ctx r,
          free,
        )
        | inl going ↦
            let (virt-aligned, phys-aligned, big, inv') = goes r is inv going in
            let (span-pages, span-pos) = span-aligned d in
            let (is', size, phys, _) = onward-IsRange (span d) r is big span-pages in
            let round : (onward (span d) r).size / 2 ^ 12 < r.size / 2 ^ 12 =
              fewer_pages (span d) (onward (span d) r).size r.size size span-pages span-pos in
            let three : k ≡ suc (suc (suc (k - 3))) = omega (arith, round, room) in
            let (ctx1, l1, run, good1, mapped) =
              maps ctx labels r.virt r.phys flags (k - 3)
                (subst (IsGood source ctx labels) three good) virt-aligned phys-aligned
                (omega (arith, is, big, span-pos)) fl
                (free r.virt
                  (bounds-inside r r.virt (omega arith) (omega (arith, big, span-pos)))) in
            let covers = page-Covers d ctx ctx1 r small is virt-aligned big mapped in
            let (ctx2, l2, r2, k2, run2, good2, room2, less2, is2, inv2, ended2, covers2, free2) =
              map_from_lem f ctx1 l1 (onward (span d) r) (k - 3) n small fl maps goes good1 is' inv'
                (λ v h. covers.2 v (inr h) ∙ free v (covers.0 v h).0) (omega (arith, round, room))
                (omega (arith, round, enough)) in
            (
              ctx2,
              l2,
              r2,
              k2,
              rw going (rw run run2),
              good2,
              room2,
              omega (arith, less2, size),
              is2,
              inv2,
              ended2,
              Covers-trans ctx ctx1 ctx2 r (onward (span d) r) r2 covers covers2,
              free2,
            )
      ]
    where
      fewer_pages :
          (n small big : ℕ)
          → small + n ≡ big
          → n % 2 ^ 12 ≡ 0
          → 0 < n
          → small / 2 ^ 12 < big / 2 ^ 12
      fewer_pages n small big e aligned pos = omega (arith, e, aligned, pos)
