-- ===== src/Heap/Laws.antt =====
-- What `malloc` and `free` do to a well-formed heap.
use mathlib.Core.Path.{subst}
use kboot.Base.{
  ℕ, ◌+◌, ◌-◌, ◌%◌, ◌≤◌, ◌≡◌, refl, List, [], ◌∷◌, true, false, leb, if◌then◌else◌, arith,
  Bool-cases, inl, inr,
}
use kboot.Heap.{Chunk, header_size, unwind, carve}
use kboot.Heap.Tiling.{Tiles, Apart, IsPosition}

-- A size in chunks: of a header and a block of at least 8 bytes.
abbrev pub IsTotal : ℕ → Type 0
IsTotal total = (header_size + 8 ≤ total) × (total % 8 ≡ 0)

pub carve-IsPosition :
    (total at : ℕ) (before : List Chunk) (c : Chunk) (after : List Chunk)
    → IsTotal total
    → total ≤ c.size
    → c.allocated ≡ false
    → IsPosition at before (c ∷ after)
    → IsPosition at before (carve total c after)
unfolding carve
carve-IsPosition total at before c after t le free_ p =
    elim (Bool-cases (leb (total + header_size) c.size)) [
      | inl big ↦ rw big (record {
        backs = p.backs;
        tiles = (
          p.tiles.0,
          (omega (arith, t), t.1),
          (
            ground (arith, p.tiles),
            (ground (arith, big), omega (arith, t, p.tiles)),
            subst (λ k. Tiles k after) (omega (arith, le)) p.tiles.2,
          ),
        );
        calm_back = p.calm_back;
        apart = taken before (record { addr = c.addr; size = total; allocated = true }) _ refl;
        calm = ((λ e. cc), (follows after p.calm.0, p.calm.1));
      })
      | inr small ↦ rw small (record {
        backs = p.backs;
        tiles = p.tiles;
        calm_back = p.calm_back;
        apart = taken before (record c { allocated = true }) _ refl;
        calm = (held after, p.calm.1);
      })
    ]
  where
    taken : (b : List Chunk) (x : Chunk) (l : List Chunk) → x.allocated ≡ true → Apart b (x ∷ l)
    taken [] x l e = tt
    taken (y ∷ b) x l e = λ _. e

    follows :
        (l : List Chunk)
        → Apart (c ∷ []) l
        → Apart (record { addr = c.addr + total; size = c.size - total; allocated = false } ∷ []) l
    follows [] h = tt
    follows (y ∷ l) h = λ _. h free_

    held : (l : List Chunk) → Apart (record c { allocated = true } ∷ []) l
    held [] = tt
    held (y ∷ l) = λ e. cc

-- One list has an element more than the other.
pub data IsInserted (x : Chunk) : List Chunk → List Chunk → Type 0 where
  here : {xs : List Chunk} → IsInserted x xs (x ∷ xs)
  there : {y : Chunk} {xs ys : List Chunk} → IsInserted x xs ys → IsInserted x (y ∷ xs) (y ∷ ys)

-- The allocated chunks, in the order of the heap.
unfoldable pub blocks : List Chunk → List Chunk
blocks [] = []
blocks (c ∷ cs) = if c.allocated then c ∷ blocks cs else blocks cs

pub inserted-unwind :
    (x : Chunk) (before l l' : List Chunk)
    → IsInserted x (blocks l) (blocks l')
    → IsInserted x (blocks (unwind before l)) (blocks (unwind before l'))
inserted-unwind x [] l l' h = h
inserted-unwind x (b ∷ before) l l' h =
    inserted-unwind x before (b ∷ l) (b ∷ l') (elim (Bool-cases b.allocated) [
      | inl e ↦ unfold blocks in rw e (there h)
      | inr e ↦ unfold blocks in rw e h
    ])

-- The chunk that `carve` allocates.
abbrev pub carved : ℕ → Chunk → Chunk
carved total c =
    if leb (total + header_size) c.size
    then record { addr = c.addr; size = total; allocated = true }
    else record c { allocated = true }

pub inserted-carve :
    (total : ℕ) (c : Chunk) (after : List Chunk)
    → c.allocated ≡ false
    → IsInserted (carved total c) (blocks (c ∷ after)) (blocks (carve total c after))
unfolding blocks carve
inserted-carve total c after free_ = elim (Bool-cases (leb (total + header_size) c.size)) [
  | inl big ↦ rw (free_, big) here
  | inr small ↦ rw (free_, small) here
]
