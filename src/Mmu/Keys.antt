-- ===== src/Mmu/Keys.antt =====
-- Where a virtual address stands in the tables of each depth: 0 for page tables up to 3 for the PML4.
use kboot.Base.{ℕ, zero, suc, ◌+◌, ◌*◌, ◌/◌, ◌%◌, ◌^◌, ◌≤◌, ◌<◌, ◌≡◌, arith}

-- The index of an address in its table of a depth.
abbrev pub index : ℕ → ℕ → ℕ
index zero v = v % 0x200000 / 0x1000
index (suc zero) v = v % 0x40000000 / 0x200000
index (suc (suc zero)) v = v % 0x8000000000 / 0x40000000
index (suc (suc (suc d))) v = v / 0x8000000000 % 512

-- The indices above it, as one number: which table of that depth the address belongs to.
abbrev pub key : ℕ → ℕ → ℕ
key zero v = v % 2 ^ 48 / 2 ^ 21
key (suc zero) v = v % 2 ^ 48 / 2 ^ 30
key (suc (suc zero)) v = v % 2 ^ 48 / 2 ^ 39
key (suc (suc (suc d))) v = 0

-- The bytes that an entry of a depth stands for.
abbrev pub span : ℕ → ℕ
span zero = 2 ^ 12
span (suc d) = 2 ^ 21

-- The page of a size that an address lies in.
abbrev pub page : ℕ → ℕ → ℕ
page d v = v % 2 ^ 48 / span d

pub key-step : (d v : ℕ) → d < 3 → key d v ≡ key (suc d) v * 512 + index (suc d) v
key-step zero v h = omega arith
key-step (suc zero) v h = omega arith
key-step (suc (suc zero)) v h = omega arith
key-step (suc (suc (suc d))) v h = absurd (omega arith)

-- Two addresses in one page have the same places.
pub same_page-index :
    (d v w : ℕ) → d < 2 → page d v ≡ page d w → (e : ℕ) → d ≤ e → e ≤ 3 → index e v ≡ index e w
same_page-index zero v w h same zero le le' = omega arith
same_page-index zero v w h same (suc zero) le le' = omega arith
same_page-index zero v w h same (suc (suc zero)) le le' = omega arith
same_page-index zero v w h same (suc (suc (suc e))) le le' = omega arith
same_page-index (suc zero) v w h same zero le le' = absurd (omega arith)
same_page-index (suc zero) v w h same (suc zero) le le' = omega arith
same_page-index (suc zero) v w h same (suc (suc zero)) le le' = omega arith
same_page-index (suc zero) v w h same (suc (suc (suc e))) le le' = omega arith
same_page-index (suc (suc d)) v w h same e le le' = absurd (omega arith)

pub index-key-page :
    (d v w : ℕ) → d < 2 → key d v ≡ key d w → index d v ≡ index d w → page d v ≡ page d w
index-key-page zero v w h k i = omega arith
index-key-page (suc zero) v w h k i = omega arith
index-key-page (suc (suc d)) v w h k i = absurd (omega arith)
