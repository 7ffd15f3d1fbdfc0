-- ===== src/Heap/Tiling.antt =====
-- Well-formed heaps: the chunks follow one another without gaps, and no two neighbours are free.
use kboot.Base.{ℕ, ◌+◌, ◌%◌, ◌≤◌, ◌≡◌, refl, sym, ap, List, [], ◌∷◌, true, false}
use mathlib.Core.Path.{subst}
use kboot.Heap.{Chunk, Heap, heap_size, header_size, unwind}

-- A chunk has room for its header, and its size is a multiple of 8.
abbrev pub IsChunk : Chunk → Type 0
IsChunk c = (header_size ≤ c.size) × (c.size % 8 ≡ 0)

-- The chunks fill the heap from `lo` on.
abbrev pub Tiles : ℕ → List Chunk → Type 0
Tiles lo [] = lo ≡ heap_size
Tiles lo (c ∷ cs) = (c.addr ≡ lo) × IsChunk c × Tiles (lo + c.size) cs

-- The chunks before a position, nearest first, fill the heap up to `hi`.
abbrev pub Backs : ℕ → List Chunk → Type 0
Backs hi [] = hi ≡ 0
Backs hi (c ∷ before) = (c.addr + c.size ≡ hi) × IsChunk c × Backs c.addr before

-- The first of the second list is allocated if the first of the first list is free.
abbrev pub Apart : List Chunk → List Chunk → Type 0
Apart [] after = Unit {0}
Apart (b ∷ before) [] = Unit {0}
Apart (b ∷ before) (c ∷ after) = b.allocated ≡ false → c.allocated ≡ true

-- No free chunk is followed by a free chunk.
abbrev pub IsCoalesced : List Chunk → Type 0
IsCoalesced [] = Unit {0}
IsCoalesced (c ∷ cs) = Apart (c ∷ []) cs × IsCoalesced cs

abbrev pub IsCoalescedBack : List Chunk → Type 0
IsCoalescedBack [] = Unit {0}
IsCoalescedBack (c ∷ before) = Apart before (c ∷ []) × IsCoalescedBack before

pub record IsHeap (heap : Heap) : Type 0 where
  pub tiles : Tiles 0 heap
  pub coalesced : IsCoalesced heap

-- A position in a well-formed heap, `at` the offset where it stands.
pub record IsPosition (at : ℕ) (before after : List Chunk) : Type 0 where
  pub backs : Backs at before
  pub tiles : Tiles at after
  pub calm_back : IsCoalescedBack before
  pub apart : Apart before after
  pub calm : IsCoalesced after

pub IsPosition-start : {heap : Heap} → IsHeap heap → IsPosition 0 [] heap
IsPosition-start h = record {
  backs = refl;
  tiles = h.tiles;
  calm_back = tt;
  apart = tt;
  calm = h.coalesced;
}

pub IsPosition-next :
    {at : ℕ} {before : List Chunk} (c : Chunk) {after : List Chunk}
    → IsPosition at before (c ∷ after)
    → IsPosition (at + c.size) (c ∷ before) after
IsPosition-next {before = before} c {after = after} p = record {
  backs = (
    ap (λ k. k + c.size) p.tiles.0,
    p.tiles.1,
    subst (λ k. Backs k before) (sym p.tiles.0) p.backs,
  );
  tiles = p.tiles.2;
  calm_back = (back before p.apart, p.calm_back);
  apart = fore after p.calm.0;
  calm = p.calm.1;
}
  where
    back : (b : List Chunk) → Apart b (c ∷ after) → Apart b (c ∷ [])
    back [] h = tt
    back (x ∷ b) h = h

    fore : (l : List Chunk) → Apart (c ∷ []) l → Apart (c ∷ before) l
    fore [] h = tt
    fore (x ∷ l) h = h

-- A heap is well formed if a position in it is.
pub IsHeap-unwind :
    (at : ℕ) (before after : List Chunk) → IsPosition at before after → IsHeap (unwind before after)
IsHeap-unwind at [] after p = record {
  tiles = subst (λ k. Tiles k after) p.backs p.tiles;
  coalesced = p.calm;
}
IsHeap-unwind at (b ∷ before) after p = IsHeap-unwind b.addr before (b ∷ after) (record {
  backs = p.backs.2;
  tiles = (refl, p.backs.1, subst (λ k. Tiles k after) (sym p.backs.0) p.tiles);
  calm_back = p.calm_back.1;
  apart = widen before p.calm_back.0;
  calm = (narrow after p.apart, p.calm);
})
  where
    widen : (l : List Chunk) → Apart l (b ∷ []) → Apart l (b ∷ after)
    widen [] h = tt
    widen (x ∷ l) h = h

    narrow : (l : List Chunk) → Apart (b ∷ before) l → Apart (b ∷ []) l
    narrow [] h = tt
    narrow (x ∷ l) h = h
