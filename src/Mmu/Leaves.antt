-- ===== src/Mmu/Leaves.antt =====
-- An entry that maps a page changes what the walks find for that page only.
use kboot.Base.{
  ℕ, zero, suc, ◌+◌, ◌*◌, ◌<◌, ◌≡◌, ◌≢◌, refl, sym, ap, ◌∙◌, true, arith, inl, inr, ◌⊎◌,
}
use kboot.Mmu.{Tables, is_present, is_large, address_of, set}
use kboot.Mmu.Keys.{index, key, key-step, page, index-key-page}
use kboot.Mmu.Tree.{is_leaf, lookup, Labels, IsLink, IsTree, lookup-same}

set-entry :
    (tables : Tables) (t i e q j : ℕ)
    → ((set tables t i e q j ≡ e) × (q ≡ t) × (j ≡ i)) ⊎ (set tables t i e q j ≡ tables q j)
set-entry tables t i e q j = ground arith

pub set-here : (tables : Tables) (t i e : ℕ) → set tables t i e t i ≡ e
set-here tables t i e = ground arith

-- The links of the other tables stay.
pub set-IsLink :
    (tables : Tables) (labels : Labels) (t i e d q j c : ℕ)
    → IsLink tables d q j c
    → labels.depth t < labels.depth q
    → IsLink (set tables t i e) d q j c
set-IsLink tables labels t i e d q j c link above = elim (set-entry tables t i e q j) [
  | inl (is, q-is, j-is) ↦ absurd (omega (arith, above, ap labels.depth q-is))
  | inr is ↦ (ap is_present is ∙ link.0, ap (is_leaf d) is ∙ link.1, ap address_of is ∙ link.2)
]

-- An entry that maps, in a table of depth `d`: a page table, or a page directory where the entry is large.
pub set-IsTree :
    (tables : Tables) (labels : Labels) (root t i d e : ℕ)
    → IsTree tables labels root
    → labels.depth t ≡ d
    → (d ≡ 0) ⊎ ((d ≡ 1) × (is_large e ≡ true))
    → IsTree (set tables t i e) labels root
set-IsTree tables labels root t i d e tree at maps = (
  tree.0,
  tree.1,
  λ q f j here small present link. elim (set-entry tables t i e q j) [
    | inl (is, q-is, j-is) ↦
        let depth-t : suc f ≡ d = sym here ∙ ap labels.depth q-is ∙ at in
        elim maps [
          | inl zero_depth ↦ absurd (omega (arith, depth-t, zero_depth))
          | inr (one_depth, large) ↦
              let bottom : f ≡ 0 = omega (arith, depth-t, one_depth) in
              let leaf : is_leaf f (set tables t i e q j) ≡ true =
                ap (is_leaf f) is ∙ ap (λ x. is_leaf x e) bottom ∙ large in
              absurd (ground (arith, leaf, link))
        ]
    | inr is ↦
        let (deeper, numbered) =
          tree.2 q f j here small (sym (ap is_present is) ∙ present)
            (sym (ap (is_leaf f) is) ∙ link) in
        (
          ap (λ x. labels.depth (address_of x)) is ∙ deeper,
          ap (λ x. labels.number (address_of x)) is ∙ numbered,
        )
  ],
)

-- A walk that finds the entry of the page of `w` is one for an address of that page.
found_entry :
    (labels : Labels) (t i d e q v w : ℕ)
    → labels.depth t ≡ d
    → d < 2
    → labels.number t ≡ key d w
    → i ≡ index d w
    → labels.depth q ≡ e
    → labels.number q ≡ key e v
    → q ≡ t
    → index e v ≡ i
    → page d v ≡ page d w
found_entry labels t i d e q v w at small number-t i-is here number-q q-is j-is =
    let same : e ≡ d = sym here ∙ ap labels.depth q-is ∙ at in
    index-key-page d v w small
      (ap (λ x. key x v) (sym same) ∙ sym number-q ∙ ap labels.number q-is ∙ number-t)
      (ap (λ x. index x v) (sym same) ∙ j-is ∙ i-is)

-- Addresses of other pages are found as before.
pub lookup-set :
    (e : ℕ) (tables : Tables) (labels : Labels) (root t i d x q v w : ℕ)
    → IsTree tables labels root
    → labels.depth t ≡ d
    → d < 2
    → labels.number t ≡ key d w
    → i ≡ index d w
    → page d v ≢ page d w
    → labels.depth q ≡ e
    → e < 4
    → labels.number q ≡ key e v
    → lookup e (set tables t i x) q v ≡ lookup e tables q v
unfolding lookup
lookup-set zero tables labels root t i d x q v w tree at small number-t i-is apart here e-small
      number-q =
    elim (set-entry tables t i x q (index 0 v)) [
      | inl (is, q-is, j-is) ↦
          absurd (
            apart (found_entry labels t i d 0 q v w at small number-t i-is here number-q q-is j-is))
      | inr is ↦ rw is refl
    ]
lookup-set (suc e) tables labels root t i d x q v w tree at small number-t i-is apart here e-small
      number-q =
    elim (set-entry tables t i x q (index (suc e) v)) [
      | inl (is, q-is, j-is) ↦ absurd (
          apart
            (found_entry labels t i d (suc e) q v w at small number-t i-is here number-q q-is j-is))
      | inr is ↦ lookup-same e tables (set tables t i x) q v is λ present link.
          let (deeper, numbered) = tree.2 q e (index (suc e) v) here (omega arith) present link in
          lookup-set e tables labels root t i d x (address_of (tables q (index (suc e) v))) v w tree
            at small number-t i-is apart deeper (omega arith)
            (numbered
              ∙ ap (λ k. k * 512 + index (suc e) v) number-q
              ∙ sym (key-step e v (omega arith)))
    ]
