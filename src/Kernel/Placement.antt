-- ===== src/Kernel/Placement.antt =====
-- Placing a range of free addresses keeps the mappings, the allocator and the page tables in agreement.
use kboot.Base.{
  leb, ℕ, ◌+◌, ◌-◌, ◌*◌, ◌/◌, ◌%◌, ◌^◌, ◌≤◌, ◌<◌, ◌≡◌, ◌≢◌, refl, sym, ap, ◌∙◌, List, [], ◌∷◌, Bool,
  true, false, ◌==◌, if◌then◌else◌, none, some, arith, Bool-cases, inl, inr, ◌⊎◌, All, ==_iff,
}
use kboot.Base.Outcome.{Outcome, done, stop, boot_error}
use kboot.Range.View.{tag_at}
use kboot.Memory.Map.Laws.{inside, IsPageRange}
use kboot.Allocator.{Allocator}
use kboot.Allocator.Laws.{IsOrdered}
use kboot.Mmu.{Context}
use kboot.Mmu.Tree.{Labels, translate}
use kboot.Mmu.Grow.{PageSource, IsGood}
use kboot.Mmu.Loops.{IsFree, IsGood-fewer}
use kboot.Mmu.Map.{is_canonical_addr, is_canonical_range}
use kboot.Mmu.Laws.{mmu_map_refuses, range, Whole, mmu_map_lem}
use kboot.Kernel.{Loader, Mapping, no_phys, convert_mmu_flags, add_mapping, place_mapping}
use kboot.Kernel.Mappings.{
  place, mapped_at, Orderly, IsReserved, IsApart, IsReserved-still, reserved-IsApart, apart-none,
  add_mapping_lem,
}
use kboot.Kernel.Agreement.{lookup-same48, canonical-inside, canonical_twin}

abbrev pub mapping : ℕ → ℕ → ℕ → ℕ → Mapping
mapping addr size phys cache = record { start = addr; size = size; phys = phys; cache = cache }

-- No memory, or pages within the addresses that an entry has room for.
abbrev pub IsPhys : ℕ → ℕ → Type 0
IsPhys phys size = (phys ≡ no_phys) ⊎ ((phys % 2 ^ 12 ≡ 0) × (phys + size ≤ 2 ^ 40))

-- Each canonical address is translated as the mappings say.
abbrev pub Agrees : {S : Type 0} → Context S → List Mapping → Type 0
Agrees mmu mappings =
    (v : ℕ) → v < 2 ^ 64 → is_canonical_addr v ≡ true → translate mmu v ≡ mapped_at mappings v

-- What the kernel's address space is worth: the mappings ascend without overlaps, their addresses are
-- allocated, and the tables are a tree that agrees with them, with `n` pages of memory left.
pub record IsLoader {S : Type 0} (source : PageSource S) (loader : Loader S) (labels : Labels)
    (n : ℕ) : Type 0 where
  pub good : IsGood source loader.mmu labels n
  pub ordered : IsOrdered loader.allocator
  pub orderly : Orderly 0 loader.mappings
  pub reserved : All (IsReserved loader.allocator) loader.mappings
  pub agrees : Agrees loader.mmu loader.mappings

-- A range has been placed: the mappings have it besides what they had.
abbrev pub Placed :
    {S : Type 0}
    → PageSource S
    → Loader S
    → Allocator
    → ℕ
    → ℕ
    → ℕ
    → ℕ
    → ℕ
    → Outcome (Loader S)
    → Type 0
Placed source loader allocator addr size phys cache n run =
    (loader' : Loader _) × (labels' : Labels) × (run ≡ done loader')
    × IsLoader source loader' labels' n
    × (loader'.allocator ≡ allocator)
    × (loader'.mappings ≡ add_mapping loader.mappings (mapping addr size phys cache))
    × ((v : ℕ)
        → mapped_at loader'.mappings v ≡ (
            if inside addr size v
            then place (mapping addr size phys cache) v
            else mapped_at loader.mappings v))

then_is : {A : Type 0} (b : Bool) (x y : A) → b ≡ true → (if b then x else y) ≡ x
then_is true x y h = refl
then_is false x y h = ground (arith, h)

else_is : {A : Type 0} (b : Bool) (x y : A) → b ≡ false → (if b then x else y) ≡ y
else_is true x y h = ground (arith, h)
else_is false x y h = refl

module _ {S : Type 0} (source : PageSource S) (loader : Loader S) (labels : Labels)
    (addr size phys cache n : ℕ) (is : IsLoader source loader labels (size / 2 ^ 12 * 3 + n))
    (ok : IsPageRange addr size)
    (free : (v : ℕ)
      → inside addr size v ≡ true
      → tag_at loader.allocator.regions v ≢ some true) where
  apart : All (IsApart addr size) loader.mappings
  apart = reserved-IsApart loader.allocator addr size loader.mappings free is.reserved

  -- No address of the range is mapped, in any of its spellings.
  range-IsFree : is_canonical_range addr size ≡ true → IsFree loader.mmu (range addr phys size)
  range-IsFree canonical v h =
      let (w, small, canonical-w, i, same) =
        canonical_twin addr size phys v ok.size_positive ok.fits canonical h in
      lookup-same48 3 loader.mmu.tables loader.mmu.cr3 v w same
      ∙ is.agrees w small canonical-w
      ∙ apart-none addr size w loader.mappings apart i

  abbrev new : List Mapping
  new = add_mapping loader.mappings (mapping addr size phys cache)

  added :
      Orderly 0 new
      × ((v : ℕ)
          → mapped_at new v ≡ (
              if inside addr size v
              then place (mapping addr size phys cache) v
              else mapped_at loader.mappings v))
  added =
      add_mapping_lem 0 (mapping addr size phys cache) loader.mappings is.orderly (omega arith)
        ok.size_positive apart

  add-IsReserved :
      (a : Allocator) (ms : List Mapping)
      → All (IsReserved a) ms
      → IsReserved a (mapping addr size phys cache)
      → All (IsReserved a) (add_mapping ms (mapping addr size phys cache))
  unfolding add_mapping
  add-IsReserved a [] h r = (r, tt)
  add-IsReserved a (o ∷ ms) (h, hs) r = elim (Bool-cases (leb addr o.start)) [
    | inl first ↦ rw first (r, (h, hs))
    | inr later ↦ rw later (h, add-IsReserved a ms hs r)
  ]

  -- The tables after the mapping agree with the new list.
  mapped-Agrees :
      (mmu' : Context S)
      → phys ≢ no_phys
      → is_canonical_range addr size ≡ true
      → Whole loader.mmu mmu' (range addr phys size)
      → Agrees mmu' new
  mapped-Agrees mmu' some_phys canonical whole v small canonical-v =
      let (same, offset) =
        canonical-inside addr size phys v ok.size_positive ok.fits canonical small canonical-v in
      let other : (phys == no_phys) ≡ false = ground (arith, some_phys) in
      elim (Bool-cases (inside addr size v)) [
        | inl i ↦
            whole v
            ∙ then_is _ _ _ (same ∙ i)
            ∙ ap some (offset i)
            ∙ sym (added.1 v ∙ then_is _ _ _ i ∙ else_is _ none (some (phys + (v - addr))) other)
        | inr o ↦
            whole v
            ∙ else_is _ _ _ (same ∙ o)
            ∙ is.agrees v small canonical-v
            ∙ sym (added.1 v ∙ else_is _ _ _ o)
      ]

  unmapped-Agrees : phys ≡ no_phys → Agrees loader.mmu new
  unmapped-Agrees nothing v small canonical-v =
      let same : (phys == no_phys) ≡ true = (==_iff phys no_phys).1 nothing in
      elim (Bool-cases (inside addr size v)) [
        | inl i ↦
            is.agrees v small canonical-v
            ∙ apart-none addr size v loader.mappings apart i
            ∙ sym (added.1 v ∙ then_is _ _ _ i ∙ then_is _ none (some (phys + (v - addr))) same)
        | inr o ↦ is.agrees v small canonical-v ∙ sym (added.1 v ∙ else_is _ _ _ o)
      ]

  module _ (allocator : Allocator) (ordered : IsOrdered allocator)
      (takes : (v : ℕ) → inside addr size v ≡ true → tag_at allocator.regions v ≡ some true)
      (keeps : (v : ℕ)
        → tag_at loader.allocator.regions v ≡ some true
        → tag_at allocator.regions v ≡ some true) where
    new-IsLoader :
        (mmu' : Context S) (labels' : Labels)
        → IsGood source mmu' labels' n
        → Agrees mmu' new
        → IsLoader source (record { mmu = mmu'; allocator = allocator; mappings = new }) labels' n
    new-IsLoader mmu' labels' good agrees = record {
      good = good;
      ordered = ordered;
      orderly = added.0;
      reserved =
          add-IsReserved allocator loader.mappings
            (IsReserved-still loader.allocator allocator loader.mappings keeps is.reserved) takes;
      agrees = agrees;
    }

    -- A range of memory that is not canonical is refused; any other is placed.
    pub place_mapping_lem :
        IsPhys phys size
        → ((phys ≢ no_phys)
            × (is_canonical_range addr size ≡ false)
            × (place_mapping source.memory_alloc loader allocator addr phys size cache
                ≡ stop boot_error))
          ⊎ Placed source loader allocator addr size phys cache n
              (place_mapping source.memory_alloc loader allocator addr phys size cache)
    unfolding place_mapping
    place_mapping_lem (inl nothing) =
        let same : (phys == no_phys) ≡ true = (==_iff phys no_phys).1 nothing in
        inr (
          record { mmu = loader.mmu; allocator = allocator; mappings = new },
          labels,
          rw same refl,
          new-IsLoader loader.mmu labels
              (IsGood-fewer source loader.mmu labels n (size / 2 ^ 12 * 3 + n) (omega arith)
                is.good)
              (unmapped-Agrees nothing),
          refl,
          refl,
          added.1,
        )
    place_mapping_lem (inr (phys-aligned, below)) =
        let some_phys : phys ≢ no_phys = ground (arith, below) in
        let other : (phys == no_phys) ≡ false = ground (arith, some_phys) in
        let flags = convert_mmu_flags cache in
        elim (Bool-cases (is_canonical_range addr size)) [
          | inr refused ↦
              let run =
                mmu_map_refuses source loader.mmu addr phys size flags ok.start_aligned phys-aligned
                  ok.size_aligned refused in
              inl (some_phys, refused, rw other (rw run refl))
          | inl canonical ↦
              elim (mmu_map_lem source loader.mmu labels addr phys size flags
                (size / 2 ^ 12 * 3 + n) n is.good (omega (arith, ok.fits, ok.size_positive))
                ok.start_aligned phys-aligned ok.size_aligned below (range-IsFree canonical)
                (omega arith)) [
                  | inl (refused, _) ↦ absurd (ground (arith, canonical, refused))
                  | inr (_, (mmu', labels', run, good, whole)) ↦ inr (
                    record { mmu = mmu'; allocator = allocator; mappings = new },
                    labels',
                    rw other (rw run refl),
                    new-IsLoader mmu' labels' good (mapped-Agrees mmu' some_phys canonical whole),
                    refl,
                    refl,
                    added.1,
                  )
                ]
        ]
