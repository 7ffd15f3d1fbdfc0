-- ===== src/Mmu/Tests.antt =====
-- A range that is mapped with small and large pages, and instances of the theorems.
use kboot.Base.{◌&&◌, List, ◌∷◌, []}
use kboot.Mmu.{Tables}
use kboot.Mmu.Access.{Piece, mmu_mem_op_64, mem_op_from, find_pdir_64, find_table}
use kboot.Mmu.Access.Laws.{Follows, mmu_mem_op_64_lem}
use kboot.Base.{
  ℕ, ◌+◌, ◌*◌, ◌%◌, ◌^◌, ◌≤◌, ◌<◌, ◌≡◌, refl, [], ◌∷◌, Bool, true, false, ◌==◌, if◌then◌else◌,
  Option, none, some, arith, ◌⊎◌,
}
use kboot.Base.Outcome.{Outcome, done}
use kboot.Mmu.{Context, next_table, get_pdir_64, map_small_64, map_large_64}
use kboot.Mmu.Tree.{Labels, lookup, translate, lookup-none}
use kboot.Mmu.Grow.{PageSource, IsGood}
use kboot.Mmu.Map.{map_from, mmu_map_64, mmu_map, is_canonical_range}
use kboot.Mmu.Laws.{range, Whole, mmu_map_lem}

-- Pages from an address on.
abbrev pages_from : PageSource ℕ
pages_from = record {
  memory_alloc = λ s. done (s, s + 0x1000);
  Holds = λ s n. (s % 2 ^ 12 ≡ 0) × (s + n * 2 ^ 12 ≤ 2 ^ 40);
  Taken = λ s p. p < s;
  fewer = λ s n (aligned, room). (aligned, omega (arith, room));
  gives = λ s n (aligned, room). (
    s,
    s + 0x1000,
    refl,
    aligned,
    omega (arith, room),
    λ lt. omega (arith, lt),
    omega arith,
    λ q lt. omega (arith, lt),
    (omega (arith, aligned), omega (arith, room)),
  );
}

-- An empty PML4.
abbrev new_context : Context ℕ
new_context = record { cr3 = 0x1000; tables = λ t i. 0; memory = 0x2000 }

abbrev new_labels : Labels
new_labels = record { depth = λ q. if q == 0x1000 then 3 else 4; number = λ q. 0 }

new_context-IsGood : IsGood pages_from new_context new_labels 2000
new_context-IsGood = (
  (refl, refl, λ t d i at small present link. absurd (ground (arith, present))),
  λ q low. ground (arith, low),
  (omega arith, omega arith),
)

new_context_maps_nothing : (v : ℕ) → translate new_context v ≡ none
new_context_maps_nothing v = lookup-none 3 new_context.tables 0x1000 v refl

-- Unfolding this unfolds the code.
mmu_code : ℕ
unfolding mmu_map mmu_map_64 map_from map_small_64 map_large_64 get_pdir_64 next_table
    is_canonical_range
mmu_code = 0

-- A small page up to the large one, and the large one.
abbrev translated : ℕ → Outcome (Bool × Context ℕ) → Option ℕ
translated v (done (b, ctx)) = translate ctx v
translated v _ = none

large_and_small :
    translated 0x2345678 (mmu_map pages_from.memory_alloc new_context 0x21ff000 0x5ff000 0x201000 0)
    ≡ some 0x745678
unfolding mmu_code lookup
large_and_small = refl

mmu_map_lem_example :
    ((is_canonical_range 0x21ff000 0x201000 ≡ false)
      × (mmu_map pages_from.memory_alloc new_context 0x21ff000 0x5ff000 0x201000 0
          ≡ done (false, new_context)))
    ⊎ ((is_canonical_range 0x21ff000 0x201000 ≡ true)
        × ((ctx' : Context ℕ) × (labels' : Labels) × (mmu_map pages_from.memory_alloc new_context
                0x21ff000 0x5ff000 0x201000 0
              ≡ done (true, ctx'))
            × IsGood pages_from ctx' labels' 100
            × Whole new_context ctx' (range 0x21ff000 0x5ff000 0x201000)))
mmu_map_lem_example =
    mmu_map_lem pages_from new_context new_labels 0x21ff000 0x5ff000 0x201000 0 2000 100
      new_context-IsGood (omega arith) refl refl refl (omega arith)
      (λ v h. new_context_maps_nothing v) (omega arith)

-- A context with two pages mapped, one after the other.
abbrev two_pages_mapped : Tables
two_pages_mapped t i =
    if t == 0x1000 && i == 0
    then 0x2003
    else if t == 0x2000 && i == 0
    then 0x3003
    else if t == 0x3000 && i == 0
    then 0x4003
    else if t == 0x4000 && i == 5
    then 0x9001
    else if t == 0x4000 && i == 6
    then 0x7001
    else 0

abbrev two_pages_context : Context (Unit {0})
two_pages_context = record { cr3 = 0x1000; tables = two_pages_mapped; memory = tt }

two_pieces :
    mmu_mem_op_64 two_pages_context 0x5ff0 0x20
    ≡ done
        (record { page = 0x9ff0; size = 0x10 } ∷ record { page = 0x7000; size = 0x10 } ∷ [], true)
unfolding mmu_mem_op_64 mem_op_from find_pdir_64 find_table
two_pieces = refl

mmu_mem_op_64_lem_example :
    (pieces : List Piece) × (valid : Bool) × (mmu_mem_op_64 two_pages_context 0x5ff0 0x20
      ≡ done (pieces, valid))
    × Follows two_pages_mapped 0x1000 0x5ff0 0x20 pieces valid
mmu_mem_op_64_lem_example = mmu_mem_op_64_lem two_pages_context 0x5ff0 0x20 (omega arith)
