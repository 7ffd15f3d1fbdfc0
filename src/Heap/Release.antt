-- ===== src/Heap/Release.antt =====
-- What `free` does from the chunk that it has found.
use mathlib.Core.Path.{subst}
use kboot.Base.{
  ℕ, ◌+◌, ◌≡◌, refl, sym, ap, ◌∙◌, List, [], ◌∷◌, true, false, ==_iff, arith, Bool-cases, inl, inr,
}
use kboot.Base.Outcome.{done}
use kboot.Heap.{Chunk, Heap, unwind, join_next, join_previous, release}
use kboot.Heap.Tiling.{
  Tiles, Backs, Apart, IsChunk, IsCoalesced, IsCoalescedBack, IsHeap, IsPosition, IsHeap-unwind,
}
use kboot.Heap.Laws.{blocks, IsInserted, here, inserted-unwind}

-- What `join_next` makes of a free chunk `c` and of the chunks `after` it.
record IsJoined (c : Chunk) (after : List Chunk) (c' : Chunk) (after' : List Chunk) : Type 0 where
  joins : join_next c after ≡ done (c' ∷ after')
  addr_kept : c'.addr ≡ c.addr
  is_free : c'.allocated ≡ false
  chunk : IsChunk c'
  tiles : Tiles (c'.addr + c'.size) after'
  apart : Apart (c' ∷ []) after'
  calm : IsCoalesced after'
  blocks_kept : blocks after' ≡ blocks after

join_next-IsJoined :
    (c : Chunk) (after : List Chunk)
    → c.allocated ≡ false
    → IsChunk c
    → Tiles (c.addr + c.size) after
    → IsCoalesced after
    → (c' : Chunk) × (after' : List Chunk) × IsJoined c after c' after'
unfolding join_next
join_next-IsJoined c [] f k t q = (
  c,
  [],
  record {
    joins = refl;
    addr_kept = refl;
    is_free = f;
    chunk = k;
    tiles = t;
    apart = tt;
    calm = tt;
    blocks_kept = refl;
  },
)
join_next-IsJoined c (adj ∷ after) f k t q = elim (Bool-cases adj.allocated) [
  | inl held ↦ (
    c,
    adj ∷ after,
    record {
      joins = rw held refl;
      addr_kept = refl;
      is_free = f;
      chunk = k;
      tiles = t;
      apart = λ _. held;
      calm = q;
      blocks_kept = refl;
    },
  )
  | inr free_ ↦ (
    record c { size = c.size + adj.size },
    after,
    record {
      joins = rw (free_, (==_iff adj.addr (c.addr + c.size)).1 t.0) refl;
      addr_kept = refl;
      is_free = f;
      chunk = omega (arith, k, t.1);
      tiles = subst (λ n. Tiles n after) (omega arith) t.2;
      apart = follows after q.0 free_;
      calm = q.1;
      blocks_kept = unfold blocks in rw free_ refl;
    },
  )
]
  where
    follows :
        (l : List Chunk)
        → Apart (adj ∷ []) l
        → adj.allocated ≡ false
        → Apart (record c { size = c.size + adj.size } ∷ []) l
    follows [] h e = tt
    follows (y ∷ l) h e = λ _. h e

blocks_free : (c : Chunk) (l : List Chunk) → c.allocated ≡ false → blocks (c ∷ l) ≡ blocks l
unfolding blocks
blocks_free c l e = rw e refl

blocks-unwind :
    (before l l' : List Chunk)
    → blocks l ≡ blocks l'
    → blocks (unwind before l) ≡ blocks (unwind before l')
blocks-unwind [] l l' e = e
blocks-unwind (b ∷ before) l l' e =
    blocks-unwind before (b ∷ l) (b ∷ l') (unfold blocks in ground (arith, e))

-- The free chunk `c` at the head of the list joins the chunk before it if that is free.
join_previous-IsHeap :
    (before : List Chunk) (c : Chunk) (after : List Chunk)
    → Backs c.addr before
    → IsCoalescedBack before
    → c.allocated ≡ false
    → IsChunk c
    → Tiles (c.addr + c.size) after
    → Apart (c ∷ []) after
    → IsCoalesced after
    → (heap : Heap) × (join_previous before (c ∷ after) ≡ done heap)
      × IsHeap heap
      × (blocks heap ≡ blocks (unwind before (c ∷ after)))
unfolding join_previous
join_previous-IsHeap [] c after b cb f k t ap_ q = (
  c ∷ after,
  refl,
  record {
    tiles = (b, k, subst (λ n. Tiles n after) (ap (λ n. n + c.size) b) t);
    coalesced = (ap_, q);
  },
  refl,
)
join_previous-IsHeap (adj ∷ before) c after b cb f k t ap_ q = elim (Bool-cases adj.allocated) [
  | inl held ↦ (
    unwind (adj ∷ before) (c ∷ after),
    rw held refl,
    IsHeap-unwind c.addr (adj ∷ before) (c ∷ after) (record {
      backs = b;
      tiles = (refl, k, t);
      calm_back = cb;
      apart = (λ e. cc);
      calm = (ap_, q);
    }),
    refl,
  )
  | inr free_ ↦
      let both : Chunk = record adj { size = adj.size + c.size } in
      (
        unwind before (both ∷ after),
        rw (free_, (==_iff c.addr (adj.addr + adj.size)).1 (sym b.0)) refl,
        IsHeap-unwind adj.addr before (both ∷ after) (record {
          backs = b.2;
          tiles = (refl, omega (arith, k, b.1), subst (λ n. Tiles n after) (omega (arith, b.0)) t);
          calm_back = cb.1;
          apart = widen before cb.0;
          calm = (same after ap_, q);
        }),
        blocks-unwind before (both ∷ after) (adj ∷ c ∷ after) (
            blocks_free both after free_
            ∙ sym (blocks_free adj (c ∷ after) free_ ∙ blocks_free c after f)),
      )
]
  where
    widen :
        (l : List Chunk)
        → Apart l (adj ∷ [])
        → Apart l (record adj { size = adj.size + c.size } ∷ after)
    widen [] h = tt
    widen (x ∷ l) h = h

    same :
        (l : List Chunk) → Apart (c ∷ []) l → Apart (record adj { size = adj.size + c.size } ∷ []) l
    same [] h = tt
    same (y ∷ l) h = λ _. h f

-- From an allocated chunk of a well-formed heap, `free` leaves a well-formed heap that holds the
-- other blocks.
pub release_lem :
    (at : ℕ) (before : List Chunk) (c : Chunk) (after : List Chunk)
    → IsPosition at before (c ∷ after)
    → c.allocated ≡ true
    → (heap : Heap) × (release before c after ≡ done heap)
      × IsHeap heap
      × IsInserted c (blocks heap) (blocks (unwind before (c ∷ after)))
unfolding release
release_lem at before c after p held =
    let c0 : Chunk = record c { allocated = false } in
    let t : Tiles (c.addr + c.size) after =
      subst (λ n. Tiles (n + c.size) after) (sym p.tiles.0) p.tiles.2 in
    let (c', after', j) = join_next-IsJoined c0 after refl p.tiles.1 t p.calm.1 in
    let b : Backs c'.addr before =
      subst (λ n. Backs n before) (sym (j.addr_kept ∙ p.tiles.0)) p.backs in
    let (heap, e, valid, same) =
      join_previous-IsHeap before c' after' b p.calm_back j.is_free j.chunk j.tiles j.apart
        j.calm in
    (
      heap,
      rw held (rw j.joins e),
      valid,
      subst (λ l. IsInserted c l (blocks (unwind before (c ∷ after))))
          (sym (
            same
            ∙ blocks-unwind before (c' ∷ after') after
                (blocks_free c' after' j.is_free ∙ j.blocks_kept)))
          (inserted-unwind c before after (c ∷ after) (unfold blocks in rw held here)),
    )
