-- ===== src/Mmu/Updates.antt =====
-- A link to a cleared table keeps the tree and what each walk finds.
use kboot.Base.{
  ℕ, zero, suc, ◌+◌, ◌*◌, ◌%◌, ◌^◌, ◌<◌, ◌≡◌, ◌≢◌, refl, sym, ap, ◌∙◌, true, false, ◌==◌,
  if◌then◌else◌, arith, inl, inr, ◌⊎◌,
}
use kboot.Mmu.{Tables, is_present, address_of, link_to, set, clear}
use kboot.Mmu.Keys.{index}
use kboot.Mmu.Tree.{is_leaf, lookup, Labels, IsTree, lookup-link, lookup-none, lookup-same}

-- The tables after next_table has made a table at `p`.
abbrev pub linked : Tables → ℕ → ℕ → ℕ → Tables
linked tables t i p = set (clear tables p) t i (link_to p)

-- The label of the new table.
abbrev pub relabel : Labels → ℕ → ℕ → ℕ → Labels
relabel labels p d k = record {
  depth = λ q. if q == p then d else labels.depth q;
  number = λ q. if q == p then k else labels.number q;
}

pub link_to-IsLink :
    (d p : ℕ)
    → p % 2 ^ 12 ≡ 0
    → p < 2 ^ 40
    → (is_present (link_to p) ≡ true)
      × (is_leaf d (link_to p) ≡ false)
      × (address_of (link_to p) ≡ p)
link_to-IsLink d p aligned small =
    (ground (arith, aligned), ground (arith, aligned), omega (arith, aligned, small))

-- What a table of the tree has after a link.
pub linked-entry :
    (tables : Tables) (t i p q j : ℕ)
    → q ≢ p
    → ((linked tables t i p q j ≡ link_to p) × (q ≡ t) × (j ≡ i))
      ⊎ (linked tables t i p q j ≡ tables q j)
linked-entry tables t i p q j h = ground (arith, h)

linked-new : (tables : Tables) (t i p j : ℕ) → t ≢ p → linked tables t i p p j ≡ 0
linked-new tables t i p j h = ground (arith, h)

pub linked-link : (tables : Tables) (t i p : ℕ) → linked tables t i p t i ≡ link_to p
linked-link tables t i p = ground arith

pub relabel-old :
    (labels : Labels) (p d k q : ℕ)
    → q ≢ p
    → ((relabel labels p d k).depth q ≡ labels.depth q)
      × ((relabel labels p d k).number q ≡ labels.number q)
relabel-old labels p d k q h =
    let other : (q == p) ≡ false = ground (arith, h) in (rw other refl, rw other refl)

pub relabel-new :
    (labels : Labels) (p d k : ℕ)
    → ((relabel labels p d k).depth p ≡ d) × ((relabel labels p d k).number p ≡ k)
relabel-new labels p d k = let same : (p == p) ≡ true = ground arith in (rw same refl, rw same refl)

pub same_or_other : (q p : ℕ) → (q ≡ p) ⊎ (q ≢ p)
same_or_other q p = ground arith

-- A table of the tree is not the new one.
pub labelled :
    (labels : Labels) (p q e : ℕ) → 3 < labels.depth p → labels.depth q ≡ e → e < 4 → q ≢ p
labelled labels p q e fresh here small same =
    absurd (omega (arith, fresh, here, small, ap labels.depth same))

pub linked-IsTree :
    (tables : Tables) (labels : Labels) (root t i p d : ℕ)
    → IsTree tables labels root
    → labels.depth t ≡ suc d
    → d < 3
    → 3 < labels.depth p
    → p % 2 ^ 12 ≡ 0
    → p < 2 ^ 40
    → IsTree (linked tables t i p) (relabel labels p d (labels.number t * 512 + i)) root
linked-IsTree tables labels root t i p d tree at small fresh aligned below =
    let k = labels.number t * 512 + i in
    let (root-depth, root-number) =
      relabel-old labels p d k root (labelled labels p root 3 fresh tree.0 (omega arith)) in
    (
      root-depth ∙ tree.0,
      root-number ∙ tree.1,
      λ q e j here e-small present link. elim (same_or_other q p) [
        | inl same ↦
            let nothing : linked tables t i p q j ≡ 0 =
              ap (λ x. linked tables t i p x j) same
              ∙ linked-new tables t i p j (labelled labels p t (suc d) fresh at (omega arith)) in
            let absent : is_present (linked tables t i p q j) ≡ false = ap is_present nothing in
            absurd (ground (arith, present, absent))
        | inr other ↦
            let (depth-q, number-q) = relabel-old labels p d k q other in
            let depth-q' : labels.depth q ≡ suc e = sym depth-q ∙ here in
            elim (linked-entry tables t i p q j other) [
              | inl (is, q-is, j-is) ↦
                  let leads : address_of (linked tables t i p q j) ≡ p =
                    ap address_of is ∙ (link_to-IsLink d p aligned below).2 in
                  let (depth-p, number-p) = relabel-new labels p d k in
                  let deep : d ≡ e =
                    omega (arith, sym at ∙ ap labels.depth (sym q-is) ∙ depth-q') in
                  let key-p : k ≡ labels.number q * 512 + j =
                    ap (λ x. labels.number x * 512 + i) (sym q-is)
                    ∙ ap (λ x. labels.number q * 512 + x) (sym j-is) in
                  (
                    ap (relabel labels p d k).depth leads ∙ depth-p ∙ deep,
                    ap (relabel labels p d k).number leads
                        ∙ number-p
                        ∙ key-p
                        ∙ ap (λ x. x * 512 + j) (sym number-q),
                  )
              | inr is ↦
                  let c = address_of (tables q j) in
                  let leads : address_of (linked tables t i p q j) ≡ c = ap address_of is in
                  let (depth-c, number-c) =
                    tree.2 q e j depth-q' e-small (sym (ap is_present is) ∙ present)
                      (sym (ap (is_leaf e) is) ∙ link) in
                  let (depth-c', number-c') =
                    relabel-old labels p d k c
                      (labelled labels p c e fresh depth-c (omega arith)) in
                  (
                    ap (relabel labels p d k).depth leads ∙ depth-c' ∙ depth-c,
                    ap (relabel labels p d k).number leads
                        ∙ number-c'
                        ∙ number-c
                        ∙ ap (λ x. x * 512 + j) (sym number-q),
                  )
            ]
      ],
    )

pub lookup-linked :
    (e : ℕ) (tables : Tables) (labels : Labels) (root t i p d q v : ℕ)
    → IsTree tables labels root
    → labels.depth t ≡ suc d
    → d < 3
    → 3 < labels.depth p
    → p % 2 ^ 12 ≡ 0
    → p < 2 ^ 40
    → is_present (tables t i) ≡ false
    → labels.depth q ≡ e
    → e < 4
    → lookup e (linked tables t i p) q v ≡ lookup e tables q v
unfolding lookup
lookup-linked zero tables labels root t i p d q v tree at small fresh aligned below absent here
      e-small =
    elim (linked-entry tables t i p q (index 0 v)
      (labelled labels p q 0 fresh here (omega arith))) [
        | inl (is, q-is, j-is) ↦ absurd (omega (arith, sym here ∙ ap labels.depth q-is ∙ at))
        | inr is ↦ rw is refl
      ]
lookup-linked (suc e) tables labels root t i p d q v tree at small fresh aligned below absent here
      e-small =
    let j = index (suc e) v in
    elim (linked-entry tables t i p q j (labelled labels p q (suc e) fresh here e-small)) [
      | inl (is, q-is, j-is) ↦
          let deep : d ≡ e = omega (arith, sym at ∙ ap labels.depth (sym q-is) ∙ here) in
          let made = link_to-IsLink e p aligned below in
          let empty : linked tables t i p p (index e v) ≡ 0 =
            linked-new tables t i p (index e v)
              (labelled labels p t (suc d) fresh at (omega arith)) in
          lookup-link e (linked tables t i p) q v p
            (ap is_present is ∙ made.0, ap (is_leaf e) is ∙ made.1, ap address_of is ∙ made.2)
          ∙ lookup-none e (linked tables t i p) p v (ap is_present empty)
          ∙ sym (
              lookup-none (suc e) tables q v (
                ap (λ x. is_present (tables x j)) q-is
                ∙ ap (λ x. is_present (tables t x)) j-is
                ∙ absent))
      | inr is ↦ lookup-same e tables (linked tables t i p) q v is λ present link.
          lookup-linked e tables labels root t i p d (address_of (tables q j)) v tree at small fresh
            aligned below absent (tree.2 q e j here (omega arith) present link).0 (omega arith)
    ]
