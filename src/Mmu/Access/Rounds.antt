-- ===== src/Mmu/Access/Rounds.antt =====
-- The tables that a round of an access uses, kept from the last one or found again.
use kboot.Base.{
  ℕ, ◌+◌, ◌/◌, ◌%◌, ◌^◌, ◌≡◌, refl, ap, ◌∙◌, ◌==◌, Option, none, some, arith, Bool-cases, inl, inr,
  ◌⊎◌,
}
use kboot.Mmu.{Tables, is_present, is_large, address_of}
use kboot.Mmu.Keys.{index}
use kboot.Mmu.Tree.{lookup, lookup-link, lookup-none, lookup-leaf}
use kboot.Mmu.Access.{
  find_table, find_pdir_64, renew_pdir, Reach, missing, at_large, at_table, reach_entry, renew_ptbl,
}

-- The table of the last round, of depth `d`, serves the addresses of its range.
abbrev pub Serves : Tables → ℕ → ℕ → ℕ → ℕ → Option ℕ → Type 0
Serves tables cr3 d span addr none = Unit {0}
Serves tables cr3 d span addr (some t) =
    (addr % span ≡ 0)
    ⊎ ((v : ℕ) → v / span ≡ addr / span → lookup 3 tables cr3 v ≡ lookup d tables t v)

-- The outcome of finding a directory.
abbrev pub Directs : Tables → ℕ → ℕ → Option ℕ → Type 0
Directs tables cr3 addr none = lookup 3 tables cr3 addr ≡ none
Directs tables cr3 addr (some t) =
    (v : ℕ) → v / 2 ^ 30 ≡ addr / 2 ^ 30 → lookup 3 tables cr3 v ≡ lookup 1 tables t v

find_pdir_64-Directs :
    (tables : Tables) (cr3 addr : ℕ) → Directs tables cr3 addr (find_pdir_64 tables cr3 addr)
unfolding find_pdir_64 find_table
find_pdir_64-Directs tables cr3 addr = elim (Bool-cases (is_present (tables cr3 (index 3 addr)))) [
  | inr absent ↦ rw absent (lookup-none 3 tables cr3 addr absent)
  | inl present ↦
      let pdpt = address_of (tables cr3 (index 3 addr)) in
      elim (Bool-cases (is_present (tables pdpt (index 2 addr)))) [
        | inr absent ↦ rw present (
            rw absent (
              lookup-link 2 tables cr3 addr pdpt (present, refl, refl)
              ∙ lookup-none 2 tables pdpt addr absent))
        | inl present' ↦ rw present (
            rw present' (λ v same.
              let first : index 3 v ≡ index 3 addr = omega (arith, same) in
              let second : index 2 v ≡ index 2 addr = omega (arith, same) in
              lookup-link 2 tables cr3 v pdpt (
                ap (λ i. is_present (tables cr3 i)) first ∙ present,
                refl,
                ap (λ i. address_of (tables cr3 i)) first,
              )
              ∙ lookup-link 1 tables pdpt v (address_of (tables pdpt (index 2 addr))) (
                ap (λ i. is_present (tables pdpt i)) second ∙ present',
                refl,
                ap (λ i. address_of (tables pdpt i)) second,
              )))
      ]
]

pub renew_pdir-Directs :
    (tables : Tables) (cr3 addr : ℕ) (pdir : Option ℕ)
    → Serves tables cr3 1 (2 ^ 30) addr pdir
    → Directs tables cr3 addr (renew_pdir tables cr3 pdir addr)
renew_pdir-Directs tables cr3 addr none h = find_pdir_64-Directs tables cr3 addr
renew_pdir-Directs tables cr3 addr (some t) h = elim (Bool-cases (addr % 2 ^ 30 == 0)) [
  | inl crossed ↦ rw crossed (find_pdir_64-Directs tables cr3 addr)
  | inr still ↦
      rw still (elim h [ inl at ↦ absurd (ground (arith, at, still)) | inr serves ↦ serves ])
]

-- What the entry for an address leads to.
abbrev pub Reaches : Tables → ℕ → ℕ → Reach → Type 0
Reaches tables cr3 addr missing = lookup 3 tables cr3 addr ≡ none
Reaches tables cr3 addr (at_large frame) =
    (v : ℕ) → v / 2 ^ 21 ≡ addr / 2 ^ 21 → lookup 3 tables cr3 v ≡ some (frame + v % 2 ^ 21)
Reaches tables cr3 addr (at_table t) =
    (v : ℕ) → v / 2 ^ 21 ≡ addr / 2 ^ 21 → lookup 3 tables cr3 v ≡ lookup 0 tables t v

reach_entry-Reaches :
    (tables : Tables) (cr3 addr pdir : ℕ)
    → ((v : ℕ) → v / 2 ^ 30 ≡ addr / 2 ^ 30 → lookup 3 tables cr3 v ≡ lookup 1 tables pdir v)
    → Reaches tables cr3 addr (reach_entry (tables pdir (index 1 addr)))
reach_entry-Reaches tables cr3 addr pdir directs =
    let e = tables pdir (index 1 addr) in
    elim (Bool-cases (is_present e)) [
      | inr absent ↦ rw absent (directs addr refl ∙ lookup-none 1 tables pdir addr absent)
      | inl present ↦ elim (Bool-cases (is_large e)) [
        | inl large ↦ rw present (
            rw large (λ v same.
              let here : index 1 v ≡ index 1 addr = omega (arith, same) in
              directs v (omega (arith, same))
              ∙ lookup-leaf tables pdir v (ap (λ i. is_present (tables pdir i)) here ∙ present)
                  (ap (λ i. is_large (tables pdir i)) here ∙ large)
              ∙ ap (λ i. some (address_of (tables pdir i) + v % 2 ^ 21)) here))
        | inr small ↦ rw present (
            rw small (λ v same.
              let here : index 1 v ≡ index 1 addr = omega (arith, same) in
              directs v (omega (arith, same))
              ∙ lookup-link 0 tables pdir v (address_of e) (
                ap (λ i. is_present (tables pdir i)) here ∙ present,
                ap (λ i. is_large (tables pdir i)) here ∙ small,
                ap (λ i. address_of (tables pdir i)) here,
              )))
      ]
    ]

pub renew_ptbl-Reaches :
    (tables : Tables) (cr3 addr pdir : ℕ) (ptbl : Option ℕ)
    → ((v : ℕ) → v / 2 ^ 30 ≡ addr / 2 ^ 30 → lookup 3 tables cr3 v ≡ lookup 1 tables pdir v)
    → Serves tables cr3 0 (2 ^ 21) addr ptbl
    → Reaches tables cr3 addr (renew_ptbl tables pdir ptbl addr)
renew_ptbl-Reaches tables cr3 addr pdir none directs h =
    reach_entry-Reaches tables cr3 addr pdir directs
renew_ptbl-Reaches tables cr3 addr pdir (some t) directs h =
    elim (Bool-cases (addr % 2 ^ 21 == 0)) [
      | inl crossed ↦ rw crossed (reach_entry-Reaches tables cr3 addr pdir directs)
      | inr still ↦
          rw still (elim h [ inl at ↦ absurd (ground (arith, at, still)) | inr serves ↦ serves ])
    ]
