-- ===== src/Kernel/Agreement.antt =====
-- What the page tables say of the addresses that a processor takes, and of a range of them.
use kboot.Base.{
  ℕ, zero, suc, ◌+◌, ◌-◌, ◌%◌, ◌^◌, ◌≤◌, ◌<◌, ◌≡◌, ap, ◌∙◌, true, not, if◌then◌else◌, none, some,
  arith, inl, inr, ◌⊎◌,
}
use kboot.Memory.Map.Laws.{inside}
use kboot.Mmu.{Tables, is_present, address_of}
use kboot.Mmu.Keys.{index}
use kboot.Mmu.Tree.{lookup, is_leaf}
use kboot.Mmu.Map.{is_canonical_addr, is_canonical_range}
use kboot.Mmu.Covers.{is_inside, target}
use kboot.Mmu.Laws.{range}

index-same : (d v w : ℕ) → v % 2 ^ 48 ≡ w % 2 ^ 48 → index d v ≡ index d w
index-same zero v w same = omega (arith, same)
index-same (suc zero) v w same = omega (arith, same)
index-same (suc (suc zero)) v w same = omega (arith, same)
index-same (suc (suc (suc d))) v w same = omega (arith, same)

-- The upper bits of an address do not matter to a walk.
pub lookup-same48 :
    (d : ℕ) (tables : Tables) (t v w : ℕ)
    → v % 2 ^ 48 ≡ w % 2 ^ 48
    → lookup d tables t v ≡ lookup d tables t w
unfolding lookup
lookup-same48 zero tables t v w same =
    let here = index-same 0 v w same in
    let offset : v % 2 ^ 12 ≡ w % 2 ^ 12 = omega (arith, same) in
    ap
      (λ i.
        if not (is_present (tables t i)) then none else some (address_of (tables t i) + v % 2 ^ 12))
      here
    ∙ ap
        (λ x.
          if not (is_present (tables t (index 0 w)))
          then none
          else some (address_of (tables t (index 0 w)) + x))
        offset
lookup-same48 (suc d) tables t v w same =
    let here = index-same (suc d) v w same in
    let offset : v % 2 ^ 21 ≡ w % 2 ^ 21 = omega (arith, same) in
    ap
      (λ i.
        if not (is_present (tables t i))
        then none
        else if is_leaf d (tables t i)
        then some (address_of (tables t i) + v % 2 ^ 21)
        else lookup d tables (address_of (tables t i)) v)
      here
    ∙ ap
        (λ x.
          if not (is_present (tables t (index (suc d) w)))
          then none
          else if is_leaf d (tables t (index (suc d) w))
          then some (address_of (tables t (index (suc d) w)) + x)
          else lookup d tables (address_of (tables t (index (suc d) w))) v)
        offset
    ∙ ap
        (λ x.
          if not (is_present (tables t (index (suc d) w)))
          then none
          else if is_leaf d (tables t (index (suc d) w))
          then some (address_of (tables t (index (suc d) w)) + w % 2 ^ 21)
          else x)
        (lookup-same48 d tables (address_of (tables t (index (suc d) w))) v w same)

-- The two halves of the address space.
canonical-half :
    (v : ℕ) → v < 2 ^ 64 → is_canonical_addr v ≡ true → (v < 2 ^ 47) ⊎ (2 ^ 64 - 2 ^ 47 ≤ v)
canonical-half v small h = ground (arith, small, h)

half-canonical :
    (v : ℕ) → v < 2 ^ 64 → (v < 2 ^ 47) ⊎ (2 ^ 64 - 2 ^ 47 ≤ v) → is_canonical_addr v ≡ true
half-canonical v small (inl low) = ground (arith, small, low)
half-canonical v small (inr high) = ground (arith, small, high)

-- A canonical range lies in one half.
canonical-range :
    (addr size : ℕ)
    → 0 < size
    → addr + size ≤ 2 ^ 64
    → is_canonical_range addr size ≡ true
    → (addr + size ≤ 2 ^ 47) ⊎ (2 ^ 64 - 2 ^ 47 ≤ addr)
unfolding is_canonical_range
canonical-range addr size pos fits h = ground (arith, pos, fits, h)

-- Each address of a canonical range is canonical.
pub canonical-each :
    (addr size v : ℕ)
    → 0 < size
    → addr + size ≤ 2 ^ 64
    → is_canonical_range addr size ≡ true
    → inside addr size v ≡ true
    → is_canonical_addr v ≡ true
canonical-each addr size v pos fits range-canonical i =
    half-canonical v (ground (arith, fits, i))
      (by_half (canonical-range addr size pos fits range-canonical))
  where
    by_half :
        (addr + size ≤ 2 ^ 47) ⊎ (2 ^ 64 - 2 ^ 47 ≤ addr) → (v < 2 ^ 47) ⊎ (2 ^ 64 - 2 ^ 47 ≤ v)
    by_half (inl low) = inl (ground (arith, low, i))
    by_half (inr high) = inr (ground (arith, high, i))

-- A range of canonical addresses does not leave its half.
pub each-canonical :
    (addr size : ℕ)
    → 0 < size
    → addr + size ≤ 2 ^ 64
    → ((v : ℕ) → inside addr size v ≡ true → is_canonical_addr v ≡ true)
    → is_canonical_range addr size ≡ true
unfolding is_canonical_range
each-canonical addr size pos fits each =
    by_half (canonical-half addr (omega (arith, pos, fits)) (each addr (ground (arith, pos)))) (
      canonical-half (addr + size - 1) (omega (arith, pos, fits))
        (each (addr + size - 1) (ground (arith, pos))))
  where
    by_half :
        (addr < 2 ^ 47) ⊎ (2 ^ 64 - 2 ^ 47 ≤ addr)
        → (addr + size - 1 < 2 ^ 47) ⊎ (2 ^ 64 - 2 ^ 47 ≤ addr + size - 1)
        → is_canonical_range addr size ≡ true
    by_half (inl low) (inl low') = ground (arith, pos, low, low')
    by_half (inl low) (inr high) =
        absurd (ground (arith, each (2 ^ 47) (ground (arith, low, high))))
    by_half (inr high) _ = ground (arith, pos, fits, high)

-- In a canonical range, the 48 bits that count tell the canonical addresses apart.
pub canonical-inside :
    (addr size phys v : ℕ)
    → 0 < size
    → addr + size ≤ 2 ^ 64
    → is_canonical_range addr size ≡ true
    → v < 2 ^ 64
    → is_canonical_addr v ≡ true
    → (is_inside (range addr phys size) v ≡ inside addr size v)
      × (inside addr size v ≡ true → target (range addr phys size) v ≡ phys + (v - addr))
canonical-inside addr size phys v pos fits range-canonical small canonical =
    by_half (canonical-range addr size pos fits range-canonical) (canonical-half v small canonical)
  where
    by_half :
        (addr + size ≤ 2 ^ 47) ⊎ (2 ^ 64 - 2 ^ 47 ≤ addr)
        → (v < 2 ^ 47) ⊎ (2 ^ 64 - 2 ^ 47 ≤ v)
        → (is_inside (range addr phys size) v ≡ inside addr size v)
          × (inside addr size v ≡ true → target (range addr phys size) v ≡ phys + (v - addr))
    by_half low low' = (
      ground (arith, pos, fits, small, low, low'),
      λ h. ground (arith, pos, fits, small, low, low', h),
    )

-- Each address that the tables take for one of the range stands for a canonical one of it.
pub canonical_twin :
    (addr size phys v : ℕ)
    → 0 < size
    → addr + size ≤ 2 ^ 64
    → is_canonical_range addr size ≡ true
    → is_inside (range addr phys size) v ≡ true
    → (w : ℕ) × (w < 2 ^ 64)
      × (is_canonical_addr w ≡ true)
      × (inside addr size w ≡ true)
      × (v % 2 ^ 48 ≡ w % 2 ^ 48)
canonical_twin addr size phys v pos fits range-canonical h =
    by_half (canonical-range addr size pos fits range-canonical) (ground (arith, h))
      (ground (arith, h))
  where
    by_half :
        (addr + size ≤ 2 ^ 47) ⊎ (2 ^ 64 - 2 ^ 47 ≤ addr)
        → addr % 2 ^ 48 ≤ v % 2 ^ 48
        → v % 2 ^ 48 < addr % 2 ^ 48 + size
        → (w : ℕ) × (w < 2 ^ 64)
          × (is_canonical_addr w ≡ true)
          × (inside addr size w ≡ true)
          × (v % 2 ^ 48 ≡ w % 2 ^ 48)
    by_half (inl low) le lt = (
      addr + (v % 2 ^ 48 - addr % 2 ^ 48),
      omega (arith, low, le, lt),
      half-canonical _ (omega (arith, low, le, lt)) (inl (omega (arith, low, le, lt))),
      ground (arith, low, le, lt),
      omega (arith, low, le, lt),
    )
    by_half (inr high) le lt = (
      addr + (v % 2 ^ 48 - addr % 2 ^ 48),
      omega (arith, high, le, lt, fits),
      half-canonical _ (omega (arith, high, le, lt, fits)) (inr (omega (arith, high, le, lt))),
      ground (arith, high, le, lt),
      omega (arith, high, le, lt, fits),
    )
