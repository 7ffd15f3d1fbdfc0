-- ===== src/Mmu/Map.antt =====
-- mmu_map of a 64-bit context, and the loops of mmu_map_64.
use kboot.Base.{
  ℕ, zero, suc, ◌+◌, ◌-◌, ◌/◌, ◌%◌, ◌^◌, Bool, true, false, ltb, leb, ◌==◌, ◌&&◌, not,
  if◌then◌else◌,
}
use kboot.Base.Outcome.{Outcome, done, stop, endless, ◌>>=◌, ◌>>◌, assert}
use kboot.Mmu.{Context, page_size, large_page_size_64, map_small_64, map_large_64}

-- What is left to map.
pub record Range : Type 0 where
  pub virt : ℕ
  pub phys : ℕ
  pub size : ℕ

abbrev pub onward : ℕ → Range → Range
onward n r = record {
  virt = (r.virt + n) % 2 ^ 64;
  phys = (r.phys + n) % 2 ^ 64;
  size = (r.size + 2 ^ 64 - n) % 2 ^ 64;
}

-- One of the loops of mmu_map_64: `map` maps a page of `step` bytes, while `more` holds of the range.
unfoldable pub map_from :
    {S : Type 0}
    → ℕ
    → (Range → Bool)
    → (Context S → ℕ → ℕ → ℕ → Outcome (Context S))
    → ℕ
    → ℕ
    → Context S
    → Range
    → Outcome (Context S × Range)
map_from zero more map step pte_flags ctx r = stop endless
map_from (suc f) more map step pte_flags ctx r =
    let next = map ctx r.virt r.phys pte_flags >>= λ ctx'.
    map_from f more map step pte_flags ctx' (onward step r) in
    if not (more r) then done (ctx, r) else next

-- The conditions of the three loops.
abbrev pub before_large : Range → Bool
before_large r = not (r.virt % large_page_size_64 == 0) && not (r.size == 0)

abbrev pub has_large : Range → Bool
has_large r = not (r.size / large_page_size_64 == 0)

abbrev pub is_left : Range → Bool
is_left r = not (r.size == 0)

-- The bits of MMU_MAP_RO and MMU_MAP_CACHE_MASK.
abbrev pub flags_of : ℕ → ℕ
flags_of flags =
    1
    + (if flags % 2 == 1 then 0 else 2)
    + (if flags / 2 % 4 == 1 then 8 else if flags / 2 % 4 == 2 then 16 else 0)

-- An arithmetic shift to the right.
abbrev pub is_canonical_addr : ℕ → Bool
is_canonical_addr addr =
    leb
      (((if ltb addr (2 ^ 63) then addr / 2 ^ 47 else addr / 2 ^ 47 + (2 ^ 64 - 2 ^ 17)) + 1)
        % 2 ^ 64)
      1

unfoldable pub is_canonical_range : ℕ → ℕ → Bool
is_canonical_range start size =
    let end = (start + size + 2 ^ 64 - 1) % 2 ^ 64 in
    is_canonical_addr start && is_canonical_addr end && start / 2 ^ 47 % 2 == end / 2 ^ 47 % 2

module _ {S : Type 0} (memory_alloc : S → Outcome (ℕ × S)) where
  -- The two loops for large pages.
  abbrev pub map_aligned : ℕ → ℕ → Context S → Range → Outcome (Context S × Range)
  map_aligned f pte_flags ctx r =
      map_from f before_large (map_small_64 memory_alloc) page_size pte_flags ctx r
      >>= λ (ctx', r').
          map_from f has_large (map_large_64 memory_alloc) large_page_size_64 pte_flags ctx' r'

  -- Each loop runs once for a page of the range at most.
  unfoldable pub mmu_map_64 : Context S → ℕ → ℕ → ℕ → ℕ → Outcome (Context S)
  mmu_map_64 ctx virt phys size pte_flags =
      let r : Range = record { virt = virt; phys = phys; size = size } in
      let f = size / page_size + 1 in
      (if virt % large_page_size_64 == phys % large_page_size_64
        then map_aligned f pte_flags ctx r
        else done (ctx, r))
      >>= λ (ctx', r').
          map_from f is_left (map_small_64 memory_alloc) page_size pte_flags ctx' r'
          >>= λ (ctx'', _). done ctx''

  -- Whether the addresses are valid, and the context.
  unfoldable pub mmu_map : Context S → ℕ → ℕ → ℕ → ℕ → Outcome (Bool × Context S)
  mmu_map ctx virt phys size flags =
      assert (virt % page_size == 0)
      >> (assert (phys % page_size == 0)
          >> (assert (size % page_size == 0)
              >> (if not (is_canonical_range virt size)
                  then done (false, ctx)
                  else mmu_map_64 ctx virt phys size (flags_of flags) >>= λ ctx'.
                      done (true, ctx'))))
