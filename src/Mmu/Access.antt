-- ===== src/Mmu/Access.antt =====
-- mmu_mem_op_64: the pieces of memory that an access to a range of virtual addresses goes to, in order.
pub mod Rounds
pub mod Laws
use kboot.Base.{
  ℕ, zero, suc, ◌+◌, ◌-◌, ◌*◌, ◌/◌, ◌%◌, ◌^◌, List, [], ◌∷◌, Bool, true, false, ◌==◌, not,
  if◌then◌else◌, Option, none, some, ltb,
}
use kboot.Base.Outcome.{Outcome, done, stop, endless}
use kboot.Mmu.{
  Tables, Context, is_present, is_large, address_of, page_size, large_page_size_64,
  x86_pdpt_range_64, x86_pdir_range_64, x86_ptbl_range_64,
}

-- A call of do_mem_op.
pub record Piece : Type 0 where
  pub page : ℕ
  pub size : ℕ

-- get_pdir_64 without `alloc`, table by table.
unfoldable pub find_table : Tables → ℕ → ℕ → Option ℕ
find_table tables t i = if is_present (tables t i) then some (address_of (tables t i)) else none

abbrev pub find_next : Tables → ℕ → Option ℕ → Option ℕ
find_next tables i none = none
find_next tables i (some t) = find_table tables t i

unfoldable pub find_pdir_64 : Tables → ℕ → ℕ → Option ℕ
find_pdir_64 tables cr3 virt =
    find_next tables (virt % x86_pdpt_range_64 / x86_pdir_range_64)
      (find_table tables cr3 (virt / x86_pdpt_range_64 % 512))

-- The page directory, from the last round or found again.
abbrev pub renew_pdir : Tables → ℕ → Option ℕ → ℕ → Option ℕ
renew_pdir tables cr3 none addr = find_pdir_64 tables cr3 addr
renew_pdir tables cr3 (some pdir) addr =
    if addr % x86_pdir_range_64 == 0 then find_pdir_64 tables cr3 addr else some pdir

-- What the entry of a page directory leads to.
pub data Reach : Type 0 where
  missing : Reach
  at_large : ℕ → Reach
  at_table : ℕ → Reach

abbrev pub reach_entry : ℕ → Reach
reach_entry e =
    if not (is_present e)
    then missing
    else if is_large e
    then at_large (address_of e)
    else at_table (address_of e)

-- The page table, from the last round or found again.
abbrev pub renew_ptbl : Tables → ℕ → Option ℕ → ℕ → Reach
renew_ptbl tables pdir none addr =
    reach_entry (tables pdir (addr % x86_pdir_range_64 / x86_ptbl_range_64))
renew_ptbl tables pdir (some ptbl) addr =
    if addr % x86_ptbl_range_64 == 0
    then reach_entry (tables pdir (addr % x86_pdir_range_64 / x86_ptbl_range_64))
    else at_table ptbl

abbrev pub min_size : ℕ → ℕ → ℕ
min_size a b = if ltb a b then a else b

-- A piece before the rest of the access.
abbrev pub before : Piece → Outcome (List Piece × Bool) → Outcome (List Piece × Bool)
before piece (done (pieces, valid)) = done (piece ∷ pieces, valid)
before piece (stop e) = stop e

-- The rest of a round; `more` takes the page table and the size of the piece.
abbrev pub access_at :
    Tables
    → ℕ
    → ℕ
    → (Option ℕ → ℕ → Outcome (List Piece × Bool))
    → Reach
    → Outcome (List Piece × Bool)
access_at tables addr size more missing = done ([], false)
access_at tables addr size more (at_large frame) =
    let n = min_size (large_page_size_64 - addr % large_page_size_64) size in
    before (record { page = frame + addr % large_page_size_64; size = n }) (more none n)
access_at tables addr size more (at_table ptbl) =
    let e = tables ptbl (addr % x86_ptbl_range_64 / page_size) in
    let n = min_size (page_size - addr % page_size) size in
    let rest =
      before (record { page = address_of e + addr % page_size; size = n }) (more (some ptbl) n) in
    if not (is_present e) then done ([], false) else rest

abbrev pub access_from :
    Tables
    → ℕ
    → ℕ
    → Option ℕ
    → (Option ℕ → Option ℕ → ℕ → Outcome (List Piece × Bool))
    → Option ℕ
    → Outcome (List Piece × Bool)
access_from tables addr size ptbl more none = done ([], false)
access_from tables addr size ptbl more (some pdir) =
    access_at tables addr size (more (some pdir)) (renew_ptbl tables pdir ptbl addr)

-- The loop, with the tables of the last round.
unfoldable pub mem_op_from :
    ℕ → Tables → ℕ → Option ℕ → Option ℕ → ℕ → ℕ → Outcome (List Piece × Bool)
mem_op_from zero tables cr3 pdir ptbl addr size = stop endless
mem_op_from (suc f) tables cr3 pdir ptbl addr size =
    let round =
      access_from tables addr size ptbl
        (λ pdir' ptbl' n. mem_op_from f tables cr3 pdir' ptbl' ((addr + n) % 2 ^ 64) (size - n))
        (renew_pdir tables cr3 pdir addr) in
    if size == 0 then done ([], true) else round

-- Each round takes a byte or more.
unfoldable pub mmu_mem_op_64 : {S : Type 0} → Context S → ℕ → ℕ → Outcome (List Piece × Bool)
mmu_mem_op_64 ctx addr size = mem_op_from (size + 1) ctx.tables ctx.cr3 none none addr size
