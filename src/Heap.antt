-- ===== src/Heap.antt =====
-- The heap allocator of source/memory.c: `malloc`, `realloc` and `free` over the chunk list
-- `heap_chunks`. Addresses are offsets into the array `heap`; what the blocks hold is not modelled.
-- Sizes are those of a 64-bit target: `sizeof(heap_chunk_t)` is 32.
pub mod Tiling
pub mod Laws
pub mod Release
pub mod Blocks
pub mod Contract
mod Tests
use kboot.Base.{
  ℕ, ◌+◌, ◌-◌, ◌%◌, ◌^◌, List, [], ◌∷◌, Option, none, some, Bool, true, false, ◌&&◌, not, ltb, leb,
  ◌==◌, if◌then◌else◌, add64, sub64,
}
use kboot.Base.Rounding.{round_up}
use kboot.Base.Outcome.{Outcome, done, stop, ◌>>=◌, ◌>>◌, assert, internal_error, undefined}

-- `heap_chunk_t`: the size includes the structure, which stands at `addr`.
pub record Chunk : Type 0 where
  pub addr : ℕ
  pub size : ℕ
  pub allocated : Bool

-- `heap_chunks`, empty before the first allocation
abbrev pub Heap : Type 0
Heap = List Chunk

abbrev pub heap_size : ℕ
heap_size = 131072

abbrev pub header_size : ℕ
header_size = 32

-- The list, seen from a position: what stands before it, nearest first, and what follows.
abbrev pub unwind : List Chunk → List Chunk → Heap
unwind [] after = after
unwind (c ∷ before) after = unwind before (c ∷ after)

-- The initial free segment.
abbrev pub initial_chunk : Chunk
initial_chunk = record { addr = 0; size = heap_size; allocated = false }

-- The chunk that is found gets allocated, and gives what it has too much to a new free chunk.
unfoldable pub carve : ℕ → Chunk → List Chunk → List Chunk
carve total chunk after =
    if leb (total + header_size) chunk.size
    then record { addr = chunk.addr; size = total; allocated = true }
      ∷ record { addr = chunk.addr + total; size = chunk.size - total; allocated = false }
      ∷ after
    else record chunk { allocated = true } ∷ after

-- The search for a free chunk of at least `total` bytes, and the address that is returned.
unfoldable pub malloc_from : ℕ → List Chunk → List Chunk → Outcome (Heap × ℕ)
malloc_from total before [] = stop internal_error
malloc_from total before (chunk ∷ after) =
    let next = malloc_from total (chunk ∷ before) after in
    if not chunk.allocated && leb total chunk.size
    then done (unwind before (carve total chunk after), chunk.addr + header_size)
    else next

-- What the size of the chunk becomes.
abbrev pub total_size : ℕ → ℕ
total_size size = add64 (round_up size 8) header_size

-- The first allocation takes the initial segment, which is not searched for: its size is not tested.
unfoldable pub malloc : Heap → ℕ → Outcome (Heap × ℕ)
malloc [] size =
    if size == 0
    then stop internal_error
    else done (carve (total_size size) initial_chunk [], initial_chunk.addr + header_size)
malloc (chunk ∷ heap) size =
    if size == 0 then stop internal_error else malloc_from (total_size size) [] (chunk ∷ heap)

-- A free chunk takes in a free chunk that follows it.
unfoldable pub join_next : Chunk → List Chunk → Outcome (List Chunk)
join_next chunk [] = done (chunk ∷ [])
join_next chunk (adj ∷ after) =
    if not adj.allocated
    then (assert (adj.addr == chunk.addr + chunk.size)
        >> done (record chunk { size = chunk.size + adj.size } ∷ after))
    else done (chunk ∷ adj ∷ after)

-- A free chunk before it takes in the freed chunk, the first of `after`.
unfoldable pub join_previous : List Chunk → List Chunk → Outcome Heap
join_previous [] after = done after
join_previous (adj ∷ before) [] = done (unwind (adj ∷ before) [])
join_previous (adj ∷ before) (chunk ∷ after) =
    if not adj.allocated
    then (assert (chunk.addr == adj.addr + adj.size)
        >> done (unwind before (record adj { size = adj.size + chunk.size } ∷ after)))
    else done (unwind (adj ∷ before) (chunk ∷ after))

-- `free` from where it has the chunk.
unfoldable pub release : List Chunk → Chunk → List Chunk → Outcome Heap
release before chunk after =
    if not chunk.allocated
    then stop internal_error
    else (join_next (record chunk { allocated = false }) after >>= join_previous before)

-- The chunk at an address. An address that no chunk has leaves the behaviour undefined.
unfoldable pub free_from : ℕ → List Chunk → List Chunk → Outcome Heap
free_from addr before [] = stop undefined
free_from addr before (chunk ∷ after) =
    let next = free_from addr (chunk ∷ before) after in
    if chunk.addr + header_size == addr then release before chunk after else next

-- `none` is NULL.
unfoldable pub free : Heap → Option ℕ → Outcome Heap
free heap none = done heap
free heap (some addr) = free_from addr [] heap

-- The size of the chunk whose block starts at an address.
unfoldable pub chunk_size : ℕ → Heap → Outcome ℕ
chunk_size addr [] = stop undefined
chunk_size addr (chunk ∷ heap) =
    let next = chunk_size addr heap in
    if chunk.addr + header_size == addr then done chunk.size else next

-- `realloc` of a block: a new block is allocated before the old one is freed. The copy of
-- the contents is left out.
unfoldable pub move_block : Heap → ℕ → ℕ → Outcome (Heap × Option ℕ)
move_block heap addr size = do
  old ← chunk_size addr heap
  (if sub64 old header_size == size
      then done (heap, some addr)
      else (malloc heap size >>= λ r. free r.0 (some addr) >>= λ heap'. done (heap', some r.1)))

unfoldable pub realloc : Heap → Option ℕ → ℕ → Outcome (Heap × Option ℕ)
realloc heap addr size =
    if size == 0 then (free heap addr >>= λ heap'. done (heap', none)) else elim addr [
      | none ↦ malloc heap (round_up size 8) >>= λ r. done (r.0, some r.1)
      | some a ↦ move_block heap a (round_up size 8)
    ]
