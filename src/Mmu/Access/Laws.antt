-- ===== src/Mmu/Access/Laws.antt =====
-- An access goes to the memory that each of its addresses is translated to.
use kboot.Base.{
  ℕ, zero, suc, ◌+◌, ◌-◌, ◌/◌, ◌%◌, ◌^◌, ◌≤◌, ◌<◌, ◌≡◌, refl, ap, ◌∙◌, List, [], ◌∷◌, Bool, true,
  false, ◌==◌, Option, none, some, arith, Bool-cases, inl, inr, ◌⊎◌, ==_iff,
}
use kboot.Base.Outcome.{Outcome, done}
use kboot.Mmu.{Tables, Context, is_present, address_of}
use kboot.Mmu.Keys.{index}
use kboot.Mmu.Tree.{lookup, lookup-none, lookup-small}
use kboot.Mmu.Access.Rounds.{Serves, Directs, Reaches, renew_pdir-Directs, renew_ptbl-Reaches}
use kboot.Mmu.Access.{
  Piece, renew_pdir, Reach, missing, at_large, at_table, renew_ptbl, min_size, before, access_at,
  access_from, mem_op_from, mmu_mem_op_64,
}

-- The pieces are, byte by byte, what the addresses from `addr` on are translated to: all `size` of them,
-- or those before one that is not mapped.
abbrev pub Follows : Tables → ℕ → ℕ → ℕ → List Piece → Bool → Type 0
Follows tables cr3 addr size [] true = size ≡ 0
Follows tables cr3 addr size [] false = (0 < size) × (lookup 3 tables cr3 addr ≡ none)
Follows tables cr3 addr size (piece ∷ pieces) valid =
    (piece.size ≤ size)
    × ((i : ℕ) → i < piece.size → lookup 3 tables cr3 (addr + i) ≡ some (piece.page + i))
    × Follows tables cr3 (addr + piece.size) (size - piece.size) pieces valid

-- What a loop comes to.
abbrev Accesses : Tables → ℕ → ℕ → ℕ → Outcome (List Piece × Bool) → Type 0
Accesses tables cr3 addr size run =
    (pieces : List Piece) × (valid : Bool) × (run ≡ done (pieces, valid))
    × Follows tables cr3 addr size pieces valid

-- The next rounds, with tables that serve the address behind a piece.
abbrev Continues : Tables → ℕ → ℕ → ℕ → (Option ℕ → ℕ → Outcome (List Piece × Bool)) → Type 0
Continues tables cr3 addr size more =
    (ptbl : Option ℕ) (n : ℕ)
    → 0 < n
    → n ≤ size
    → n ≤ 2 ^ 21 - addr % 2 ^ 21
    → Serves tables cr3 0 (2 ^ 21) (addr + n) ptbl
    → Accesses tables cr3 (addr + n) (size - n) (more ptbl n)

min_size_lem :
    (a b : ℕ) → 0 < a → 0 < b → (0 < min_size a b) × (min_size a b ≤ a) × (min_size a b ≤ b)
min_size_lem a b pos pos' = (ground (arith, pos, pos'), ground arith, ground arith)

-- A piece of `n` bytes before the rest.
before-Accesses :
    (tables : Tables) (cr3 addr size page n : ℕ) (run : Outcome (List Piece × Bool))
    → n ≤ size
    → ((i : ℕ) → i < n → lookup 3 tables cr3 (addr + i) ≡ some (page + i))
    → Accesses tables cr3 (addr + n) (size - n) run
    → Accesses tables cr3 addr size (before (record { page = page; size = n }) run)
before-Accesses tables cr3 addr size page n run le bytes (pieces, valid, ran, follows) =
    (record { page = page; size = n } ∷ pieces, valid, rw ran refl, (le, bytes, follows))

onward21 :
    (a n : ℕ) → n ≤ 2 ^ 21 - a % 2 ^ 21 → ((a + n) % 2 ^ 21 ≡ 0) ⊎ ((a + n) / 2 ^ 21 ≡ a / 2 ^ 21)
onward21 a n le = ground (arith, le)

onward30 :
    (a n : ℕ) → n ≤ 2 ^ 21 - a % 2 ^ 21 → ((a + n) % 2 ^ 30 ≡ 0) ⊎ ((a + n) / 2 ^ 30 ≡ a / 2 ^ 30)
onward30 a n le = ground (arith, le)

access_at-Accesses :
    (tables : Tables) (cr3 addr size : ℕ) (more : Option ℕ → ℕ → Outcome (List Piece × Bool))
    (r : Reach)
    → 0 < size
    → Reaches tables cr3 addr r
    → Continues tables cr3 addr size more
    → Accesses tables cr3 addr size (access_at tables addr size more r)
access_at-Accesses tables cr3 addr size more missing pos reaches next =
    ([], false, refl, (pos, reaches))
access_at-Accesses tables cr3 addr size more (at_large frame) pos reaches next =
    let n = min_size (2 ^ 21 - addr % 2 ^ 21) size in
    let (some_bytes, in_page, in_range) =
      min_size_lem (2 ^ 21 - addr % 2 ^ 21) size (omega arith) pos in
    before-Accesses tables cr3 addr size (frame + addr % 2 ^ 21) n (more none n) in_range
      (λ i lt.
        let offset : (addr + i) % 2 ^ 21 ≡ addr % 2 ^ 21 + i = omega (arith, lt, in_page) in
        reaches (addr + i) (omega (arith, lt, in_page)) ∙ ap some (omega (arith, offset)))
      (next none n some_bytes in_range in_page tt)
access_at-Accesses tables cr3 addr size more (at_table t) pos reaches next =
    let n = min_size (2 ^ 12 - addr % 2 ^ 12) size in
    let e = tables t (index 0 addr) in
    let (some_bytes, in_page, in_range) =
      min_size_lem (2 ^ 12 - addr % 2 ^ 12) size (omega arith) pos in
    let in_large : n ≤ 2 ^ 21 - addr % 2 ^ 21 = omega (arith, in_page) in
    elim (Bool-cases (is_present e)) [
      | inr absent ↦
          ([], false, rw absent refl, (pos, reaches addr refl ∙ lookup-none 0 tables t addr absent))
      | inl present ↦
          let (pieces, valid, ran, follows) =
            before-Accesses tables cr3 addr size (address_of e + addr % 2 ^ 12) n (more (some t) n)
              in_range
              (λ i lt.
                let here : index 0 (addr + i) ≡ index 0 addr = omega (arith, lt, in_page) in
                let offset : (addr + i) % 2 ^ 12 ≡ addr % 2 ^ 12 + i = omega (arith, lt, in_page) in
                reaches (addr + i) (omega (arith, lt, in_page))
                ∙ lookup-small tables t (addr + i)
                    (ap (λ j. is_present (tables t j)) here ∙ present)
                ∙ ap (λ j. some (address_of (tables t j) + (addr + i) % 2 ^ 12)) here
                ∙ ap some (omega (arith, offset)))
              (next (some t) n some_bytes in_range in_large (elim (onward21 addr n in_large) [
                | inl crossed ↦ inl crossed
                | inr still ↦ inr (λ v same. reaches v (same ∙ still))
              ])) in
          (pieces, valid, rw present ran, follows)
    ]

-- A round, with the rounds after it.
round-Accesses :
    (tables : Tables) (cr3 addr size : ℕ) (ptbl found : Option ℕ)
    (more : Option ℕ → Option ℕ → ℕ → Outcome (List Piece × Bool))
    → 0 < size
    → Directs tables cr3 addr found
    → Serves tables cr3 0 (2 ^ 21) addr ptbl
    → ((t : ℕ)
        → ((n : ℕ) → n ≤ 2 ^ 21 - addr % 2 ^ 21 → Serves tables cr3 1 (2 ^ 30) (addr + n) (some t))
        → Continues tables cr3 addr size (more (some t)))
    → Accesses tables cr3 addr size (access_from tables addr size ptbl more found)
round-Accesses tables cr3 addr size ptbl none more pos nowhere table next =
    ([], false, refl, (pos, nowhere))
round-Accesses tables cr3 addr size ptbl (some t) more pos directs table next =
    access_at-Accesses tables cr3 addr size (more (some t)) (renew_ptbl tables t ptbl addr) pos
      (renew_ptbl-Reaches tables cr3 addr t ptbl directs table)
      (next t λ n in_large. elim (onward30 addr n in_large) [
        | inl crossed ↦ inl crossed
        | inr still ↦ inr (λ v same. directs v (same ∙ still))
      ])

mem_op_from-Accesses :
    (f : ℕ) (tables : Tables) (cr3 : ℕ) (pdir ptbl : Option ℕ) (addr size : ℕ)
    → size < f
    → addr + size < 2 ^ 64
    → Serves tables cr3 1 (2 ^ 30) addr pdir
    → Serves tables cr3 0 (2 ^ 21) addr ptbl
    → Accesses tables cr3 addr size (mem_op_from f tables cr3 pdir ptbl addr size)
unfolding mem_op_from
mem_op_from-Accesses zero tables cr3 pdir ptbl addr size enough fits directory table =
    absurd (omega arith)
mem_op_from-Accesses (suc f) tables cr3 pdir ptbl addr size enough fits directory table =
    elim (Bool-cases (size == 0)) [
      | inl ended ↦ ([], true, rw ended refl, (==_iff size 0).0 ended)
      | inr going ↦
          let (pieces, valid, ran, follows) =
            round-Accesses tables cr3 addr size ptbl (renew_pdir tables cr3 pdir addr)
              (λ pdir' ptbl' n.
                mem_op_from f tables cr3 pdir' ptbl' ((addr + n) % 2 ^ 64) (size - n))
              (ground (arith, going)) (renew_pdir-Directs tables cr3 addr pdir directory) table
              λ t serves_pdir ptbl' n some_bytes le in_large serves.
                let no_wrap : (addr + n) % 2 ^ 64 ≡ addr + n = omega (arith, le, fits) in
                rw no_wrap (
                  mem_op_from-Accesses f tables cr3 (some t) ptbl' (addr + n) (size - n)
                    (omega (arith, some_bytes, le, enough)) (omega (arith, le, fits))
                    (serves_pdir n in_large) serves) in
          (pieces, valid, rw going ran, follows)
    ]

-- An access to a range that ends below the end of the address space comes to an end. Its pieces are, byte by
-- byte, the memory that the addresses are translated to: of the whole range if it returns true, and otherwise
-- up to the first address that is not mapped.
pub mmu_mem_op_64_lem :
    {S : Type 0} (ctx : Context S) (addr size : ℕ)
    → addr + size < 2 ^ 64
    → (pieces : List Piece) × (valid : Bool) × (mmu_mem_op_64 ctx addr size ≡ done (pieces, valid))
      × Follows ctx.tables ctx.cr3 addr size pieces valid
unfolding mmu_mem_op_64
mmu_mem_op_64_lem ctx addr size fits =
    mem_op_from-Accesses (size + 1) ctx.tables ctx.cr3 none none addr size (omega arith) fits tt tt
