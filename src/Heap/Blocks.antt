-- ===== src/Heap/Blocks.antt =====
-- `malloc` and `free` on whole heaps.
use kboot.Base.{
  ℕ, ◌+◌, ◌-◌, ◌%◌, ◌≤◌, ◌≡◌, refl, ap, ◌∙◌, List, [], ◌∷◌, some, true, false, ◌&&◌, not, leb,
  ==_iff, arith, Bool-cases, inl, inr,
}
use kboot.Base.Outcome.{Outcome, done, stop, internal_error}
use kboot.Heap.{
  Chunk, Heap, header_size, unwind, carve, malloc_from, join_next, join_previous, release,
  free_from, free,
}
use kboot.Heap.Tiling.{Backs, Apart, IsHeap, IsPosition, IsPosition-next, IsHeap-unwind}
use kboot.Heap.Laws.{
  IsTotal, blocks, IsInserted, carved, carve-IsPosition, inserted-carve, inserted-unwind,
}

-- `free` looks for the chunk past all that stands before it.
pub free_from-unwind :
    (k hi : ℕ) (before l : List Chunk)
    → Backs hi before
    → hi ≤ k
    → free_from (k + header_size) [] (unwind before l) ≡ free_from (k + header_size) before l
free_from-unwind k hi [] l b le = refl
free_from-unwind k hi (c ∷ before) l b le =
    free_from-unwind k c.addr before (c ∷ l) b.2 (omega (arith, b, le))
    ∙ unfold free_from in ground (arith, b, le)

Backs-mod : (hi : ℕ) (before : List Chunk) → Backs hi before → hi % 8 ≡ 0
Backs-mod hi [] b = omega (arith, b)
Backs-mod hi (c ∷ before) b = omega (arith, b, Backs-mod c.addr before b.2)

stays :
    (before : List Chunk) (c : Chunk) (after : List Chunk)
    → Apart before (c ∷ after)
    → c.allocated ≡ false
    → join_previous before (c ∷ after) ≡ done (unwind before (c ∷ after))
unfolding join_previous
stays [] c after h e = refl
stays (b ∷ before) c after h e = elim (Bool-cases b.allocated) [
  | inl held ↦ rw held refl
  | inr free_ ↦ absurd (clash (h free_) e)
]
  where
    clash : c.allocated ≡ true → c.allocated ≡ false → ⊥
    clash p q = cc

join_next-held :
    (c : Chunk) (after : List Chunk)
    → Apart (c ∷ []) after
    → c.allocated ≡ false
    → join_next c after ≡ done (c ∷ after)
unfolding join_next
join_next-held c [] h e = refl
join_next-held c (adj ∷ after) h e = rw (h e) refl

-- Releasing the chunk that `carve` made puts the list back as it was.
release_carved : ℕ → List Chunk → List Chunk → Outcome Heap
release_carved total before [] = stop internal_error
release_carved total before (c ∷ after) = release before c after

release-carve :
    (total at : ℕ) (before : List Chunk) (c : Chunk) (after : List Chunk)
    → total ≤ c.size
    → c.allocated ≡ false
    → IsPosition at before (c ∷ after)
    → release_carved total before (carve total c after) ≡ done (unwind before (c ∷ after))
unfolding carve release_carved release
release-carve total at before c after le free_ p =
    elim (Bool-cases (leb (total + header_size) c.size)) [
      | inl big ↦ rw big (rw joined (stays before c after p.apart free_))
      | inr small ↦ rw small (
          rw unfreed
            (rw (join_next-held c after p.calm.0 free_) (stays before c after p.apart free_)))
    ]
  where
    joined :
        join_next
          (record { addr = c.addr; size = total; allocated = false })
          (record { addr = c.addr + total; size = c.size - total; allocated = false } ∷ after)
        ≡ done (c ∷ after)
    joined = unfold join_next in ground (arith, free_, le)

    unfreed : record c { allocated = false } ≡ c
    unfreed = ground (arith, free_)

carve-head :
    (total : ℕ) (c : Chunk) (after : List Chunk)
    → (rest : List Chunk) × (carve total c after ≡ carved total c ∷ rest)
unfolding carve
carve-head total c after = elim (Bool-cases (leb (total + header_size) c.size)) [
  | inl big ↦ (
    record { addr = c.addr + total; size = c.size - total; allocated = false } ∷ after,
    rw big refl,
  )
  | inr small ↦ (after, rw small refl)
]

-- What an allocation of `total` bytes, header included, makes of a heap: `block` is the chunk.
pub record IsGranted (heap heap' : Heap) (total addr : ℕ) (block : Chunk) : Type 0 where
  pub valid : IsHeap heap'
  pub inserted : IsInserted block (blocks heap) (blocks heap')
  pub at_block : block.addr + header_size ≡ addr
  pub large : total ≤ block.size
  pub aligned : addr % 8 ≡ 0
  pub freed : free heap' (some addr) ≡ done heap

carved_lem :
    (total : ℕ) (c : Chunk)
    → total ≤ c.size
    → ((carved total c).addr ≡ c.addr) × (total ≤ (carved total c).size)
carved_lem total c le = ground arith

grant :
    (total at : ℕ) (before : List Chunk) (c : Chunk) (after : List Chunk)
    → IsTotal total
    → total ≤ c.size
    → c.allocated ≡ false
    → IsPosition at before (c ∷ after)
    → IsGranted
        (unwind before (c ∷ after))
        (unwind before (carve total c after))
        total
        (c.addr + header_size)
        (carved total c)
grant total at before c after t le free_ p = record {
  valid = IsHeap-unwind at before _ (carve-IsPosition total at before c after t le free_ p);
  inserted = inserted-unwind (carved total c) before _ _ (inserted-carve total c after free_);
  at_block = ap (λ n. n + header_size) (carved_lem total c le).0;
  large = (carved_lem total c le).1;
  aligned = omega (arith, Backs-mod at before p.backs, p.tiles.0);
  freed =
      unfold free in
      (free_from-unwind c.addr at before (carve total c after) p.backs (omega (arith, p.tiles.0))
        ∙ (found ∙ release-carve total at before c after le free_ p));
}
  where
    found :
        free_from (c.addr + header_size) before (carve total c after)
        ≡ release_carved total before (carve total c after)
    found =
        let (rest, e) = carve-head total c after in
        rw e (
          unfold free_from release_carved in
          rw
            ((==_iff ((carved total c).addr + header_size) (c.addr + header_size)).1
              (ap (λ n. n + header_size) (carved_lem total c le).0))
            refl)

pub malloc_from_lem :
    (total at : ℕ) (before after : List Chunk) (heap' : Heap) (addr : ℕ)
    → IsTotal total
    → IsPosition at before after
    → malloc_from total before after ≡ done (heap', addr)
    → (block : Chunk) × IsGranted (unwind before after) heap' total addr block
unfolding malloc_from
malloc_from_lem total at before [] heap' addr t p e = absurd (cc)
malloc_from_lem total at before (c ∷ after) heap' addr t p e =
    elim (Bool-cases (not c.allocated && leb total c.size)) [
      | inl hit ↦
          let g = grant total at before c after t (ground (arith, hit)) (ground (arith, hit)) p in
          let (eh, ea) : (unwind before (carve total c after) ≡ heap')
              × (c.addr + header_size ≡ addr) =
            ground (arith, hit, e) in
          (carved total c, rw (← eh, ← ea) g)
      | inr miss ↦
          malloc_from_lem total (at + c.size) (c ∷ before) after heap' addr t (IsPosition-next c p)
            (ground (arith, miss, e))
    ]
