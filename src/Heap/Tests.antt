-- ===== src/Heap/Tests.antt =====
-- Runs of the heap allocator, and the theorems at concrete heaps.
use kboot.Base.{
  ℕ, ◌+◌, ◌-◌, ◌%◌, ◌^◌, ◌≤◌, ◌≡◌, refl, [], ◌∷◌, some, true, false, inl, inr, arith, Any,
}
use kboot.Base.Rounding.{round_up}
use kboot.Base.Outcome.{done, stop, internal_error}
use kboot.Heap.{
  Chunk, Heap, header_size, carve, malloc_from, malloc, join_next, join_previous, release,
  free_from, free, chunk_size, move_block, realloc,
}
use kboot.Heap.Tiling.{IsHeap}
use kboot.Heap.Laws.{blocks, IsInserted}
use kboot.Heap.Contract.{
  HasRoom, initialise, initialise-IsHeap, malloc_lem, free-malloc, malloc_wraps, free_lem,
}

-- Unfolding this unfolds all of the heap allocator.
heap_code : ℕ
unfolding round_up initialise carve malloc_from malloc join_next join_previous release free_from
    free chunk_size move_block realloc
heap_code = 0

-- The heap after a first allocation of 100 bytes.
abbrev one_block : Heap
one_block =
    record { addr = 0; size = 136; allocated = true }
    ∷ record { addr = 136; size = 130936; allocated = false }
    ∷ []

first_allocation : malloc [] 100 ≡ done (one_block, 32)
unfolding heap_code
first_allocation = refl

-- A block that keeps its rounded size stays where it is.
same_size : realloc one_block (some 32) 97 ≡ done (one_block, some 32)
unfolding heap_code
same_size = refl

grown :
    realloc one_block (some 32) 200
    ≡ done (
      record { addr = 0; size = 136; allocated = false }
          ∷ record { addr = 136; size = 232; allocated = true }
          ∷ record { addr = 368; size = 130704; allocated = false }
          ∷ [],
      some 168,
    )
unfolding heap_code
grown = refl

one_block-IsHeap : IsHeap one_block
one_block-IsHeap = record { tiles = omega arith; coalesced = ((λ e. absurd (t≢f e)), (tt, tt)) }
  where
    t≢f : true ≡ false → ⊥
    t≢f e = cc

malloc_lem_example :
    (block : Chunk) × IsHeap one_block
    × IsInserted block (blocks (initialise [])) (blocks one_block)
    × (block.addr + header_size ≡ 32)
    × (100 + header_size ≤ block.size)
    × (32 % 8 ≡ 0)
malloc_lem_example =
    malloc_lem [] initialise-IsHeap 100 (omega arith) (omega arith) one_block 32 first_allocation

free-malloc_example : free one_block (some 32) ≡ done (initialise [])
free-malloc_example =
    free-malloc [] initialise-IsHeap 100 (omega arith) (omega arith) one_block 32 first_allocation

malloc_wraps_example :
    (heap' : Heap) × (addr : ℕ) × (malloc one_block (2 ^ 64 - 1) ≡ done (heap', addr))
malloc_wraps_example = malloc_wraps one_block (2 ^ 64 - 1) (omega arith) (omega arith) room
  where
    room : Any (HasRoom header_size) (initialise one_block)
    room = unfold initialise in inr (inl (refl, omega arith))

free_lem_example :
    (true ≡ true
      → (heap' : Heap) × (free one_block (some 32) ≡ done heap')
        × IsHeap heap'
        × IsInserted
            (record { addr = 0; size = 136; allocated = true })
            (blocks heap')
            (blocks one_block))
    × (true ≡ false → free one_block (some 32) ≡ stop internal_error)
free_lem_example =
    free_lem one_block (record { addr = 0; size = 136; allocated = true }) one_block-IsHeap
      (inl refl)
