-- ===== src/Mmu/Tree.antt =====
-- What a processor finds for an address, and the tree that the tables form.
use kboot.Base.{
  ℕ, zero, suc, ◌+◌, ◌*◌, ◌%◌, ◌^◌, ◌<◌, ◌≡◌, refl, Bool, true, false, ◌==◌, ◌&&◌, not,
  if◌then◌else◌, Option, none, some, Bool-cases, inl, inr,
}
use kboot.Mmu.{Tables, Context, is_present, is_large, address_of}
use kboot.Mmu.Keys.{index}

-- An entry of a page directory that is no table.
abbrev pub is_leaf : ℕ → ℕ → Bool
is_leaf d e = d == 0 && is_large e

-- The walk from a table of a depth, with pages of 4 KB and of 2 MB.
unfoldable pub lookup : ℕ → Tables → ℕ → ℕ → Option ℕ
lookup zero tables t v =
    if not (is_present (tables t (index 0 v)))
    then none
    else some (address_of (tables t (index 0 v)) + v % 2 ^ 12)
lookup (suc d) tables t v =
    let rest = lookup d tables (address_of (tables t (index (suc d) v))) v in
    if not (is_present (tables t (index (suc d) v)))
    then none
    else if is_leaf d (tables t (index (suc d) v))
    then some (address_of (tables t (index (suc d) v)) + v % 2 ^ 21)
    else rest

-- The physical address for a virtual one.
abbrev pub translate : {S : Type 0} → Context S → ℕ → Option ℕ
translate ctx v = lookup 3 ctx.tables ctx.cr3 v

-- Which table stands at an address: its depth, above 3 where there is none, and its key.
pub record Labels : Type 0 where
  pub depth : ℕ → ℕ
  pub number : ℕ → ℕ

-- An entry leads to a table.
abbrev pub IsLink : Tables → ℕ → ℕ → ℕ → ℕ → Type 0
IsLink tables d t i c =
    (is_present (tables t i) ≡ true)
    × (is_leaf d (tables t i) ≡ false)
    × (address_of (tables t i) ≡ c)

-- Each link of a table of the tree leads to the table that belongs there.
abbrev pub IsTree : Tables → Labels → ℕ → Type 0
IsTree tables labels root =
    (labels.depth root ≡ 3)
    × (labels.number root ≡ 0)
    × ((t d i : ℕ)
        → labels.depth t ≡ suc d
        → d < 3
        → is_present (tables t i) ≡ true
        → is_leaf d (tables t i) ≡ false
        → (labels.depth (address_of (tables t i)) ≡ d)
          × (labels.number (address_of (tables t i)) ≡ labels.number t * 512 + i))

pub lookup-link :
    (d : ℕ) (tables : Tables) (t v c : ℕ)
    → IsLink tables d t (index (suc d) v) c
    → lookup (suc d) tables t v ≡ lookup d tables c v
unfolding lookup
lookup-link d tables t v c (present, leaf, is) = rw present (rw leaf (rw is refl))

pub lookup-none :
    (d : ℕ) (tables : Tables) (t v : ℕ)
    → is_present (tables t (index d v)) ≡ false
    → lookup d tables t v ≡ none
unfolding lookup
lookup-none zero tables t v absent = rw absent refl
lookup-none (suc d) tables t v absent = rw absent refl

-- The two kinds of entry that end a walk.
pub lookup-leaf :
    (tables : Tables) (t v : ℕ)
    → is_present (tables t (index 1 v)) ≡ true
    → is_large (tables t (index 1 v)) ≡ true
    → lookup 1 tables t v ≡ some (address_of (tables t (index 1 v)) + v % 2 ^ 21)
unfolding lookup
lookup-leaf tables t v present large = rw present (rw large refl)

pub lookup-small :
    (tables : Tables) (t v : ℕ)
    → is_present (tables t (index 0 v)) ≡ true
    → lookup 0 tables t v ≡ some (address_of (tables t (index 0 v)) + v % 2 ^ 12)
unfolding lookup
lookup-small tables t v present = rw present refl

-- A walk depends on the entry that it finds first, and on the walk from there.
pub lookup-same :
    (d : ℕ) (tables tables' : Tables) (t v : ℕ)
    → tables' t (index (suc d) v) ≡ tables t (index (suc d) v)
    → (is_present (tables t (index (suc d) v)) ≡ true
        → is_leaf d (tables t (index (suc d) v)) ≡ false
        → lookup d tables' (address_of (tables t (index (suc d) v))) v
          ≡ lookup d tables (address_of (tables t (index (suc d) v))) v)
    → lookup (suc d) tables' t v ≡ lookup (suc d) tables t v
unfolding lookup
lookup-same d tables tables' t v same rest =
    let e = tables t (index (suc d) v) in
    elim (Bool-cases (is_present e)) [
      | inr absent ↦ rw same (rw absent refl)
      | inl present ↦ elim (Bool-cases (is_leaf d e)) [
        | inl leaf ↦ rw same (rw present (rw leaf refl))
        | inr link ↦ rw same (rw present (rw link (rest present link)))
      ]
    ]
