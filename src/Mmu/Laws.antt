-- ===== src/Mmu/Laws.antt =====
-- mmu_map maps a range of addresses that are not mapped, page by page and with large pages where they fit.
use kboot.Base.{◌==◌, Bool-cases, ==_iff, if◌then◌else◌, some, suc}
use kboot.Base.Outcome.{done}
use kboot.Mmu.Tree.{translate}
use kboot.Mmu.Covers.{target, Covers, Covers-refl, Covers-trans, is_inside}
use kboot.Mmu.Map.{mmu_map_64, mmu_map}
use kboot.Base.{
  ℕ, suc, ◌+◌, ◌*◌, ◌/◌, ◌%◌, ◌^◌, ◌≤◌, ◌<◌, ◌≡◌, refl, true, false, arith, inl, inr, ◌⊎◌,
}
use kboot.Mmu.{Context, map_small_64, map_large_64}
use kboot.Mmu.Tree.{Labels}
use kboot.Mmu.Grow.{PageSource, IsGood}
use kboot.Mmu.Pages.{IsFlags, map_large_64_lem}
use kboot.Mmu.Small.{map_small_64_lem}
use kboot.Mmu.Map.{
  Range, before_large, has_large, is_left, map_aligned, flags_of, is_canonical_range,
}
use kboot.Mmu.Covers.{IsRange, Covers-trans, onward-IsRange}
use kboot.Mmu.Loops.{IsGood-fewer, IsFree, Maps, Ran, Goes, map_from_lem}

-- The addresses have the same place in a large page.
abbrev IsParallel : Range → Type 0
IsParallel r = r.virt % 2 ^ 21 ≡ r.phys % 2 ^ 21

-- Large pages fit until the rest is smaller than one.
abbrev IsAligned : Range → Type 0
IsAligned r = (r.size < 2 ^ 21) ⊎ ((r.virt % 2 ^ 21 ≡ 0) × (r.phys % 2 ^ 21 ≡ 0))

before_large-Goes : Goes 0 before_large IsParallel
before_large-Goes r is inv more =
    let big : 2 ^ 12 ≤ r.size = ground (arith, more, is.2) in
    let (_, _, phys, _) = onward-IsRange (2 ^ 12) r is big refl in
    (is.0, is.1, big, omega (arith, inv, phys))

has_large-Goes : Goes 1 has_large IsAligned
has_large-Goes r is (inl short) more = absurd (ground (arith, short, more))
has_large-Goes r is (inr (virt, phys)) more =
    let big : 2 ^ 21 ≤ r.size = ground (arith, more) in
    let (_, _, phys', _) = onward-IsRange (2 ^ 21) r is big refl in
    (virt, phys, big, inr (omega (arith, virt), omega (arith, phys, phys')))

is_left-Goes : Goes 0 is_left (λ r. Unit {0})
is_left-Goes r is inv more = (is.0, is.1, ground (arith, more, is.2), tt)

before_large-ended : (r : Range) → IsParallel r → before_large r ≡ false → IsAligned r
before_large-ended r inv ended = ground (arith, inv, ended)

is_canonical_range-fits :
    (virt size : ℕ)
    → virt < 2 ^ 64
    → size ≤ 2 ^ 40
    → is_canonical_range virt size ≡ true
    → virt % 2 ^ 48 + size ≤ 2 ^ 48
unfolding is_canonical_range
is_canonical_range-fits virt size below small h = ground (arith, below, small, h)

flags_of-IsFlags : (flags : ℕ) → IsFlags (flags_of flags)
flags_of-IsFlags flags = (ground arith, ground arith)

abbrev pub range : ℕ → ℕ → ℕ → Range
range virt phys size = record { virt = virt; phys = phys; size = size }

-- A range is mapped, and nothing else has changed.
abbrev pub Whole : {S : Type 0} → Context S → Context S → Range → Type 0
Whole ctx ctx' r =
    (v : ℕ) → translate ctx' v ≡ (if is_inside r v then some (target r v) else translate ctx v)

Covers-Whole :
    {S : Type 0} (ctx ctx' : Context S) (r r' : Range)
    → Covers ctx ctx' r r'
    → is_left r' ≡ false
    → Whole ctx ctx' r
Covers-Whole ctx ctx' r r' covers ended v =
    let nothing : is_inside r' v ≡ false = ground (arith, ended) in
    elim (Bool-cases (is_inside r v)) [
      | inl inside ↦ rw inside (covers.1 v inside nothing)
      | inr out ↦ rw out (covers.2 v (inl out))
    ]

module _ {S : Type 0} (source : PageSource S) where
  small-Maps : Maps source 0 (map_small_64 source.memory_alloc)
  small-Maps ctx labels w phys flags n good w-al phys-al below fl free =
      map_small_64_lem source ctx labels w phys flags n good w-al phys-al below fl free

  large-Maps : Maps source 1 (map_large_64 source.memory_alloc)
  large-Maps ctx labels w phys flags n good w-al phys-al below fl free =
      map_large_64_lem source ctx labels w phys flags n
        (good.0, good.1, source.fewer ctx.memory (suc (suc n)) good.2) w-al phys-al below fl

  -- What the loops for large pages leave.
  map_aligned-Ran :
      (f : ℕ) (ctx : Context S) (labels : Labels) (r : Range) (k n flags : ℕ)
      → IsFlags flags
      → IsGood source ctx labels k
      → IsRange r
      → IsParallel r
      → IsFree ctx r
      → r.size / 2 ^ 12 * 3 + n ≤ k
      → r.size / 2 ^ 12 < f
      → Ran source ctx r n has_large IsAligned (map_aligned source.memory_alloc f flags ctx r)
  map_aligned-Ran f ctx labels r k n flags fl good is inv free room enough =
      let (ctx1, l1, r1, k1, run1, good1, room1, less1, is1, inv1, ended1, covers1, free1) =
        map_from_lem source 0 flags before_large IsParallel (map_small_64 source.memory_alloc) f ctx
          labels r k n (omega arith) fl small-Maps before_large-Goes good is inv free room enough in
      let (ctx2, l2, r2, k2, run2, good2, room2, less2, is2, inv2, ended2, covers2, free2) =
        map_from_lem source 1 flags has_large IsAligned (map_large_64 source.memory_alloc) f ctx1 l1
          r1 k1 n (omega arith) fl large-Maps has_large-Goes good1 is1
          (before_large-ended r1 inv1 ended1) free1 room1 (omega (arith, less1, enough)) in
      (
        ctx2,
        l2,
        r2,
        k2,
        rw run1 run2,
        good2,
        room2,
        omega (arith, less1, less2),
        is2,
        inv2,
        ended2,
        Covers-trans ctx ctx1 ctx2 r r1 r2 covers1 covers2,
        free2,
      )

  -- The last loop, which leaves nothing.
  mmu_map_64_lem :
      (ctx : Context S) (labels : Labels) (virt phys size flags k n : ℕ)
      → IsFlags flags
      → IsGood source ctx labels k
      → IsRange (range virt phys size)
      → IsFree ctx (range virt phys size)
      → size / 2 ^ 12 * 3 + n ≤ k
      → (ctx' : Context S) × (labels' : Labels) × (mmu_map_64 source.memory_alloc ctx virt phys size
            flags
          ≡ done ctx')
        × IsGood source ctx' labels' n
        × Whole ctx ctx' (range virt phys size)
  unfolding mmu_map_64
  mmu_map_64_lem ctx labels virt phys size flags k n fl good is free room =
      let r = range virt phys size in
      let f = size / 2 ^ 12 + 1 in
      let (ctx1, l1, r1, k1, run1, good1, room1, less1, is1, covers1, free1) =
        begin ctx labels r k n flags fl good is free room in
      let (ctx2, l2, r2, k2, run2, good2, room2, less2, is2, inv2, ended2, covers2, free2) =
        map_from_lem source 0 flags is_left (λ r. Unit {0}) (map_small_64 source.memory_alloc) f
          ctx1 l1 r1 k1 n (omega arith) fl small-Maps is_left-Goes good1 is1 tt free1 room1
          (omega (arith, less1)) in
      (
        ctx2,
        l2,
        rw run1 (rw run2 refl),
        IsGood-fewer source ctx2 l2 n k2 (omega (arith, room2)) good2,
        Covers-Whole ctx ctx2 r r2 (Covers-trans ctx ctx1 ctx2 r r1 r2 covers1 covers2) ended2,
      )
    where
      begin :
          (ctx : Context S) (labels : Labels) (r : Range) (k n flags : ℕ)
          → IsFlags flags
          → IsGood source ctx labels k
          → IsRange r
          → IsFree ctx r
          → r.size / 2 ^ 12 * 3 + n ≤ k
          → (ctx' : Context S) × (labels' : Labels) × (r' : Range) × (k' : ℕ) × ((if r.virt % 2 ^ 21
                  == r.phys % 2 ^ 21
                then map_aligned source.memory_alloc (r.size / 2 ^ 12 + 1) flags ctx r
                else done (ctx, r))
              ≡ done (ctx', r'))
            × IsGood source ctx' labels' k'
            × (r'.size / 2 ^ 12 * 3 + n ≤ k')
            × (r'.size ≤ r.size)
            × IsRange r'
            × Covers ctx ctx' r r'
            × IsFree ctx' r'
      begin ctx labels r k n flags fl good is free room =
          elim (Bool-cases (r.virt % 2 ^ 21 == r.phys % 2 ^ 21)) [
            | inl parallel ↦
                let (ctx1, l1, r1, k1, run1, good1, room1, less1, is1, _, _, covers1, free1) =
                  map_aligned-Ran (r.size / 2 ^ 12 + 1) ctx labels r k n flags fl good is
                    ((==_iff (r.virt % 2 ^ 21) (r.phys % 2 ^ 21)).0 parallel) free room
                    (omega arith) in
                (ctx1, l1, r1, k1, rw parallel run1, good1, room1, less1, is1, covers1, free1)
            | inr skew ↦ (
              ctx,
              labels,
              r,
              k,
              rw skew refl,
              good,
              room,
              omega arith,
              is,
              Covers-refl ctx r,
              free,
            )
          ]

  pub mmu_map_refuses :
      (ctx : Context S) (virt phys size flags : ℕ)
      → virt % 2 ^ 12 ≡ 0
      → phys % 2 ^ 12 ≡ 0
      → size % 2 ^ 12 ≡ 0
      → is_canonical_range virt size ≡ false
      → mmu_map source.memory_alloc ctx virt phys size flags ≡ done (false, ctx)
  unfolding mmu_map
  mmu_map_refuses ctx virt phys size flags virt-al phys-al size-al refused =
      let ok : (virt % 2 ^ 12 == 0) ≡ true = ground (arith, virt-al) in
      let ok' : (phys % 2 ^ 12 == 0) ≡ true = ground (arith, phys-al) in
      let ok'' : (size % 2 ^ 12 == 0) ≡ true = ground (arith, size-al) in
      rw ok (rw ok' (rw ok'' (rw refused refl)))

  -- In a context whose tables form a tree of pages in use, where memory holds three pages for each page of the
  -- range and `n` more, `mmu_map` of a range of pages that are not mapped to memory within 40 bits ends. It refuses a range
  -- that is not canonical. After any other, each address of the range is translated to the address of
  -- memory at the same distance from the start, every other address is translated as before, the tables
  -- form a tree of pages in use, and memory holds `n` pages.
  pub mmu_map_lem :
      (ctx : Context S) (labels : Labels) (virt phys size flags k n : ℕ)
      → IsGood source ctx labels k
      → virt < 2 ^ 64
      → virt % 2 ^ 12 ≡ 0
      → phys % 2 ^ 12 ≡ 0
      → size % 2 ^ 12 ≡ 0
      → phys + size ≤ 2 ^ 40
      → IsFree ctx (range virt phys size)
      → size / 2 ^ 12 * 3 + n ≤ k
      → ((is_canonical_range virt size ≡ false)
          × (mmu_map source.memory_alloc ctx virt phys size flags ≡ done (false, ctx)))
        ⊎ ((is_canonical_range virt size ≡ true)
            × ((ctx' : Context S) × (labels' : Labels) × (mmu_map source.memory_alloc ctx virt phys
                    size flags
                  ≡ done (true, ctx'))
                × IsGood source ctx' labels' n
                × Whole ctx ctx' (range virt phys size)))
  unfolding mmu_map
  mmu_map_lem ctx labels virt phys size flags k n good small virt-al phys-al size-al below free
        room =
      let ok : (virt % 2 ^ 12 == 0) ≡ true = ground (arith, virt-al) in
      let ok' : (phys % 2 ^ 12 == 0) ≡ true = ground (arith, phys-al) in
      let ok'' : (size % 2 ^ 12 == 0) ≡ true = ground (arith, size-al) in
      elim (Bool-cases (is_canonical_range virt size)) [
        | inr refused ↦
            inl (refused, mmu_map_refuses ctx virt phys size flags virt-al phys-al size-al refused)
        | inl canonical ↦
            let fits = is_canonical_range-fits virt size small (omega (arith, below)) canonical in
            let (ctx', labels', run, tree, whole) =
              mmu_map_64_lem ctx labels virt phys size (flags_of flags) k n (flags_of-IsFlags flags)
                good (virt-al, phys-al, size-al, fits, below) free room in
            inr (
              canonical,
              (ctx', labels', rw ok (rw ok' (rw ok'' (rw canonical (rw run refl)))), tree, whole),
            )
      ]
