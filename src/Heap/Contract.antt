-- ===== src/Heap/Contract.antt =====
-- What `malloc` and `free` promise to their callers.
use mathlib.Core.Path.{subst}
use kboot.Base.{
  ℕ, ◌+◌, ◌-◌, ◌%◌, ◌^◌, ◌≤◌, ◌<◌, ◌≡◌, refl, sym, ap, ◌∙◌, List, [], ◌∷◌, some, Bool, true, false,
  ◌&&◌, not, leb, ◌==◌, ==_iff, arith, Any, Bool-cases, inl, inr, ◌⊎◌,
}
use kboot.Base.Rounding.{round_up, round_up_lem}
use kboot.Base.Outcome.{done, stop, internal_error}
use kboot.Heap.{
  Chunk, Heap, heap_size, header_size, unwind, initial_chunk, carve, malloc_from, total_size,
  malloc, release, free_from, free,
}
use kboot.Heap.Tiling.{Tiles, IsHeap, IsPosition, IsPosition-start, IsPosition-next}
use kboot.Heap.Laws.{IsTotal, blocks, IsInserted}
use kboot.Heap.Release.{release_lem}
use kboot.Heap.Blocks.{malloc_from_lem}

-- The chunks, with the initial segment where there are none yet.
unfoldable pub initialise : Heap → Heap
initialise [] = initial_chunk ∷ []
initialise (c ∷ heap) = c ∷ heap

-- A heap before its first allocation is well formed once the initial segment is made.
pub initialise-IsHeap : IsHeap (initialise [])
unfolding initialise
initialise-IsHeap = record { tiles = omega arith; coalesced = (tt, tt) }

total_size_lem :
    (size : ℕ)
    → 0 < size
    → size + header_size ≤ heap_size
    → IsTotal (total_size size)
      × (size + header_size ≤ total_size size)
      × (total_size size ≤ heap_size)
total_size_lem size pos le =
    let (m, l, u) = round_up_lem size 8 (omega arith) (omega (arith, le)) in
    (
      (omega (arith, pos, le, m, l, u), omega (arith, le, m, l, u)),
      omega (arith, le, l, u),
      omega (arith, le, m, l, u),
    )

malloc-from :
    (heap : Heap) (size : ℕ)
    → 0 < size
    → size + header_size ≤ heap_size
    → malloc heap size ≡ malloc_from (total_size size) [] (initialise heap)
unfolding malloc malloc_from initialise
malloc-from [] size pos le =
    let room : leb (total_size size) heap_size ≡ true =
      ground (arith, (total_size_lem size pos le).2) in
    ground (arith, pos, room)
malloc-from (c ∷ heap) size pos le = ground (arith, pos)

module _ (heap : Heap) (valid : IsHeap (initialise heap)) (size : ℕ) (pos : 0 < size)
    (le : size + header_size ≤ heap_size) where
  -- A successful `malloc` of a size that fits in the heap behind a header adds one block, aligned to 8 bytes and with
  -- room for the size, to the blocks that are allocated, in a heap that stays well formed: chunks
  -- without gaps, no two free neighbours. All other blocks are as they were.
  pub malloc_lem :
      (heap' : Heap) (addr : ℕ)
      → malloc heap size ≡ done (heap', addr)
      → (block : Chunk) × IsHeap heap'
        × IsInserted block (blocks (initialise heap)) (blocks heap')
        × (block.addr + header_size ≡ addr)
        × (size + header_size ≤ block.size)
        × (addr % 8 ≡ 0)
  malloc_lem heap' addr e =
      let (t, fits, _) = total_size_lem size pos le in
      let (block, g) =
        malloc_from_lem (total_size size) 0 [] (initialise heap) heap' addr t
          (IsPosition-start valid) (sym (malloc-from heap size pos le) ∙ e) in
      (block, g.valid, g.inserted, g.at_block, omega (arith, fits, g.large), g.aligned)

  -- Freeing at once what `malloc` returned gives the very chunk list back.
  pub free-malloc :
      (heap' : Heap) (addr : ℕ)
      → malloc heap size ≡ done (heap', addr)
      → free heap' (some addr) ≡ done (initialise heap)
  free-malloc heap' addr e =
      let (t, fits, _) = total_size_lem size pos le in
      let (block, g) =
        malloc_from_lem (total_size size) 0 [] (initialise heap) heap' addr t
          (IsPosition-start valid) (sym (malloc-from heap size pos le) ∙ e) in
      g.freed

-- A free chunk of at least `total` bytes.
abbrev pub HasRoom : ℕ → Chunk → Type 0
HasRoom total c = (c.allocated ≡ false) × (total ≤ c.size)

malloc_from-done :
    (total : ℕ) (before after : List Chunk)
    → Any (HasRoom total) after
    → (heap' : Heap) × (addr : ℕ) × (malloc_from total before after ≡ done (heap', addr))
unfolding malloc_from
malloc_from-done total before [] h = absurd h
malloc_from-done total before (c ∷ after) h =
    elim (Bool-cases (not c.allocated && leb total c.size)) [
      | inl hit ↦ (unwind before (carve total c after), c.addr + header_size, rw hit refl)
      | inr miss ↦
          let (heap', addr, e) =
            malloc_from-done total (c ∷ before) after (later c.allocated miss h) in
          (heap', addr, rw miss e)
    ]
  where
    later :
        (b : Bool)
        → (not c.allocated && leb total c.size) ≡ false
        → HasRoom total c ⊎ Any (HasRoom total) after
        → Any (HasRoom total) after
    later b miss (inl (f, l)) = absurd (ground (arith, miss, f, l))
    later b miss (inr h) = h

malloc_from-stop :
    (total : ℕ) (before after : List Chunk)
    → ¬ (Any (HasRoom total) after)
    → malloc_from total before after ≡ stop internal_error
unfolding malloc_from
malloc_from-stop total before [] h = refl
malloc_from-stop total before (c ∷ after) h =
    elim (Bool-cases (not c.allocated && leb total c.size)) [
      | inl hit ↦ absurd (h (inl (ground (arith, hit), ground (arith, hit))))
      | inr miss ↦ rw miss (malloc_from-stop total (c ∷ before) after (λ r. h (inr r)))
    ]

-- After the first allocation, `malloc` of a positive size succeeds if a free chunk holds the rounded size and a
-- header, and stops at the internal error otherwise.
pub malloc_outcome :
    (c : Chunk) (heap : Heap) (size : ℕ)
    → 0 < size
    → (Any (HasRoom (total_size size)) (c ∷ heap)
        → (heap' : Heap) × (addr : ℕ) × (malloc (c ∷ heap) size ≡ done (heap', addr)))
      × (¬ (Any (HasRoom (total_size size)) (c ∷ heap))
          → malloc (c ∷ heap) size ≡ stop internal_error)
unfolding malloc
malloc_outcome c heap size pos = (
  λ room.
      let (heap', addr, e) = malloc_from-done (total_size size) [] (c ∷ heap) room in
      (heap', addr, ground (arith, pos, e)),
  λ none_. ground (arith, pos, malloc_from-stop (total_size size) [] (c ∷ heap) none_),
)

-- The last seven sizes of `size_t` are rounded up to 0: `malloc` grants them from any free chunk with
-- room for a header.
pub malloc_wraps :
    (heap : Heap) (size : ℕ)
    → 2 ^ 64 - 8 < size
    → size < 2 ^ 64
    → Any (HasRoom header_size) (initialise heap)
    → (heap' : Heap) × (addr : ℕ) × (malloc heap size ≡ done (heap', addr))
unfolding malloc initialise
malloc_wraps [] size low high room =
    (carve (total_size size) initial_chunk [], header_size, ground (arith, low))
malloc_wraps (c ∷ heap) size low high room =
    let e : total_size size ≡ header_size = unfold round_up in ground (arith, low, high) in
    (malloc_outcome c heap size (omega (arith, low))).0
      (subst (λ t. Any (HasRoom t) (c ∷ heap)) (sym e) room)

-- A chunk of a list.
abbrev pub Has : Chunk → List Chunk → Type 0
Has block = Any (λ c. c ≡ block)

Has-le : (lo : ℕ) (block : Chunk) (l : List Chunk) → Tiles lo l → Has block l → lo ≤ block.addr
Has-le lo block [] t h = absurd h
Has-le lo block (c ∷ l) t (inl e) = omega (arith, t, ap (λ (x : Chunk). x.addr) e)
Has-le lo block (c ∷ l) t (inr h) = omega (arith, t.1, Has-le (lo + c.size) block l t.2 h)

-- The search of `free` comes to the chunk.
free_from-found :
    (at : ℕ) (before after : List Chunk) (block : Chunk)
    → IsPosition at before after
    → Has block after
    → (at' : ℕ) × (before' : List Chunk) × (after' : List Chunk) × IsPosition at' before'
        (block ∷ after')
      × (unwind before' (block ∷ after') ≡ unwind before after)
      × (free_from (block.addr + header_size) before after ≡ release before' block after')
unfolding free_from
free_from-found at before [] block p h = absurd h
free_from-found at before (c ∷ after) block p (inl e) = (
  at,
  before,
  after,
  rw (← e) p,
  rw (← e) refl,
  rw e (rw ((==_iff (block.addr + header_size) (block.addr + header_size)).1 refl) refl),
)
free_from-found at before (c ∷ after) block p (inr h) =
    let (at', before', after', q, same, e) =
      free_from-found (at + c.size) (c ∷ before) after block (IsPosition-next c p) h in
    let ne : ((c.addr + header_size) == (block.addr + header_size)) ≡ false =
      ground (arith, p.tiles.0, p.tiles.1, Has-le (at + c.size) block after p.tiles.2 h) in
    (at', before', after', q, same, rw ne e)

-- `free` of an allocated chunk of a well-formed heap takes just this block off the allocated ones
-- and leaves a well-formed heap; of a chunk that is free, it stops at the internal error.
pub free_lem :
    (heap : Heap) (block : Chunk)
    → IsHeap heap
    → Has block heap
    → (block.allocated ≡ true
        → (heap' : Heap) × (free heap (some (block.addr + header_size)) ≡ done heap')
          × IsHeap heap'
          × IsInserted block (blocks heap') (blocks heap))
      × (block.allocated ≡ false
          → free heap (some (block.addr + header_size)) ≡ stop internal_error)
unfolding free
free_lem heap block valid h =
    let (at, before, after, p, same, e) =
      free_from-found 0 [] heap block (IsPosition-start valid) h in
    (
      λ held.
          let (heap', done_, valid', inserted) = release_lem at before block after p held in
          (heap', e ∙ done_, valid', rw (← same) inserted),
      λ free_. e ∙ unfold release in rw free_ refl,
    )
