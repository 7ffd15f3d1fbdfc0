-- ===== src/Mmu/Covers.antt =====
-- How far a range has been mapped.
use kboot.Base.{
  ℕ, zero, suc, ◌+◌, ◌-◌, ◌%◌, ◌^◌, ◌≤◌, ◌<◌, ◌≡◌, ◌≢◌, refl, ap, ◌∙◌, Bool, true, false, ltb, leb,
  ◌&&◌, some, arith, Bool-cases, inl, inr, ◌⊎◌,
}
use kboot.Mmu.{Context}
use kboot.Mmu.Keys.{page, span}
use kboot.Mmu.Tree.{translate}
use kboot.Mmu.Pages.{IsMapped}
use kboot.Mmu.Map.{Range, onward}

-- Whether an address is one of the range, of those of 48 bits.
abbrev pub is_inside : Range → ℕ → Bool
is_inside r v = leb (r.virt % 2 ^ 48) (v % 2 ^ 48) && ltb (v % 2 ^ 48) (r.virt % 2 ^ 48 + r.size)

-- A range of pages within the addresses of 48 bits, for memory within those of 40 bits.
abbrev pub IsRange : Range → Type 0
IsRange r =
    (r.virt % 2 ^ 12 ≡ 0)
    × (r.phys % 2 ^ 12 ≡ 0)
    × (r.size % 2 ^ 12 ≡ 0)
    × (r.virt % 2 ^ 48 + r.size ≤ 2 ^ 48)
    × (r.phys + r.size ≤ 2 ^ 40)

-- The address of memory that an address of the range is mapped to.
abbrev pub target : Range → ℕ → ℕ
target r v = r.phys + (v % 2 ^ 48 - r.virt % 2 ^ 48)

-- The end of a range, which keeps its targets.
abbrev pub IsRest : Range → Range → Type 0
IsRest r r' = (v : ℕ) → is_inside r' v ≡ true → (is_inside r v ≡ true) × (target r' v ≡ target r v)

-- From one context to the other, the range has been mapped up to its end `r'`.
abbrev pub Covers : {S : Type 0} → Context S → Context S → Range → Range → Type 0
Covers ctx ctx' r r' =
    IsRest r r'
    × ((v : ℕ)
        → is_inside r v ≡ true
        → is_inside r' v ≡ false
        → translate ctx' v ≡ some (target r v))
    × ((v : ℕ)
        → (is_inside r v ≡ false) ⊎ (is_inside r' v ≡ true)
        → translate ctx' v ≡ translate ctx v)

pub Covers-refl : {S : Type 0} (ctx : Context S) (r : Range) → Covers ctx ctx r r
Covers-refl ctx r = (λ v h. (h, refl), λ v h h'. absurd (ground (arith, h, h')), λ v h. refl)

outside : (r r' : Range) (v : ℕ) → IsRest r r' → is_inside r v ≡ false → is_inside r' v ≡ false
outside r r' v rest out = elim (Bool-cases (is_inside r' v)) [
  | inl in_rest ↦ absurd (ground (arith, (rest v in_rest).0, out))
  | inr out' ↦ out'
]

pub Covers-trans :
    {S : Type 0} (a b c : Context S) (r r' r'' : Range)
    → Covers a b r r'
    → Covers b c r' r''
    → Covers a c r r''
Covers-trans a b c r r' r'' (rest, new, old) (rest', new', old') = (
  λ v h. let (in', same') = rest' v h in let (in_all, same) = rest v in' in (in_all, same' ∙ same),
  λ v h out. elim (Bool-cases (is_inside r' v)) [
    | inl in' ↦ new' v in' out ∙ ap some (rest v in').1
    | inr out' ↦ old' v (inl out') ∙ new v h out'
  ],
  λ v h. elim h [
    | inl out ↦ old' v (inl (outside r r' v rest out)) ∙ old v (inl out)
    | inr h0 ↦ old' v (inr h0) ∙ old v (inr (rest' v h0).0)
  ],
)

inside-bounds :
    (r : Range) (v : ℕ)
    → is_inside r v ≡ true
    → (r.virt % 2 ^ 48 ≤ v % 2 ^ 48) × (v % 2 ^ 48 < r.virt % 2 ^ 48 + r.size)
inside-bounds r v h = (ground (arith, h), ground (arith, h))

pub bounds-inside :
    (r : Range) (v : ℕ)
    → r.virt % 2 ^ 48 ≤ v % 2 ^ 48
    → v % 2 ^ 48 < r.virt % 2 ^ 48 + r.size
    → is_inside r v ≡ true
bounds-inside r v le lt = ground (arith, le, lt)

outside-bounds :
    (r : Range) (v : ℕ)
    → is_inside r v ≡ false
    → (v % 2 ^ 48 < r.virt % 2 ^ 48) ⊎ (r.virt % 2 ^ 48 + r.size ≤ v % 2 ^ 48)
outside-bounds r v h = ground (arith, h)

-- One page onward, where no sum wraps while bytes are left.
pub onward-IsRange :
    (n : ℕ) (r : Range)
    → IsRange r
    → n ≤ r.size
    → n % 2 ^ 12 ≡ 0
    → IsRange (onward n r)
      × ((onward n r).size + n ≡ r.size)
      × ((onward n r).phys ≡ r.phys + n)
      × (0 < (onward n r).size → (onward n r).virt % 2 ^ 48 ≡ r.virt % 2 ^ 48 + n)
onward-IsRange n r is big aligned =
    let size : (onward n r).size + n ≡ r.size = omega (arith, is, big) in
    let phys : (onward n r).phys ≡ r.phys + n = omega (arith, is, big) in
    (
      (
        omega (arith, is, aligned),
        omega (arith, is, aligned),
        omega (arith, is, aligned, size),
        omega (arith, is, aligned, size),
        omega (arith, is, size, phys),
      ),
      size,
      phys,
      λ left. omega (arith, is, size, left),
    )

-- The pages of two addresses, one of which starts a page.
apart-page :
    (d v w : ℕ)
    → d < 2
    → w % span d ≡ 0
    → (v % 2 ^ 48 < w % 2 ^ 48) ⊎ (w % 2 ^ 48 + span d ≤ v % 2 ^ 48)
    → page d v ≢ page d w
apart-page zero v w small aligned (inl lt) same = omega arith
apart-page zero v w small aligned (inr le) same = omega arith
apart-page (suc d) v w small aligned (inl lt) same = omega arith
apart-page (suc d) v w small aligned (inr le) same = omega arith

within-page :
    (d v w : ℕ)
    → d < 2
    → w % span d ≡ 0
    → w % 2 ^ 48 ≤ v % 2 ^ 48
    → v % 2 ^ 48 < w % 2 ^ 48 + span d
    → (page d v ≡ page d w) × (v % span d ≡ v % 2 ^ 48 - w % 2 ^ 48)
within-page zero v w small aligned le lt = (omega arith, omega arith)
within-page (suc d) v w small aligned le lt = (omega arith, omega arith)

pub span-aligned : (d : ℕ) → (span d % 2 ^ 12 ≡ 0) × (0 < span d)
span-aligned zero = (refl, omega arith)
span-aligned (suc d) = (refl, omega arith)

-- A page at the start of a range.
pub page-Covers :
    {S : Type 0} (d : ℕ) (ctx ctx' : Context S) (r : Range)
    → d < 2
    → IsRange r
    → r.virt % span d ≡ 0
    → span d ≤ r.size
    → IsMapped ctx ctx' d r.virt r.phys
    → Covers ctx ctx' r (onward (span d) r)
page-Covers d ctx ctx' r small is aligned big (_, new, old) =
    let n = span d in
    let (is', size, phys, virt) = onward-IsRange n r is big (span-aligned d).0 in
    let behind : (v : ℕ)
        → is_inside (onward n r) v ≡ true
        → (r.virt % 2 ^ 48 + n ≤ v % 2 ^ 48) × (v % 2 ^ 48 < r.virt % 2 ^ 48 + r.size) =
      λ v h.
        let (le, lt) = inside-bounds (onward n r) v h in
        let start = virt (omega (arith, le, lt)) in
        (omega (arith, le, start), omega (arith, lt, start, size)) in
    (
      λ v h.
          let (le, lt) = inside-bounds (onward n r) v h in
          let start = virt (omega (arith, le, lt)) in
          let (le', lt') = behind v h in
          (bounds-inside r v (omega (arith, le')) lt', omega (arith, phys, start, le')),
      λ v h out.
          let (le, lt) = inside-bounds r v h in
          let near : v % 2 ^ 48 < r.virt % 2 ^ 48 + n =
            first_page n (onward n r).size (r.virt % 2 ^ 48) ((onward n r).virt % 2 ^ 48)
              (v % 2 ^ 48) virt (omega (arith, lt, size)) (outside-bounds (onward n r) v out) in
          let (same, offset) = within-page d v r.virt small aligned le near in
          new v same ∙ ap (λ x. some (r.phys + x)) offset,
      λ v h. elim h [
        | inl out ↦
            old v
              (apart-page d v r.virt small aligned (beyond n r.size (outside-bounds r v out) big))
        | inr h0 ↦ old v (apart-page d v r.virt small aligned (inr (behind v h0).0))
      ],
    )
  where
    first_page :
        (n left start start' u : ℕ)
        → (0 < left → start' ≡ start + n)
        → u < start + (left + n)
        → (u < start') ⊎ (start' + left ≤ u)
        → u < start + n
    first_page n zero start start' u virt lt out = omega (arith, lt)
    first_page n (suc left) start start' u virt lt (inl below) =
        omega (arith, virt (omega arith), below)
    first_page n (suc left) start start' u virt lt (inr above) =
        absurd (omega (arith, virt (omega arith), above, lt))

    beyond :
        {start u : ℕ} (n size : ℕ)
        → (u < start) ⊎ (start + size ≤ u)
        → n ≤ size
        → (u < start) ⊎ (start + n ≤ u)
    beyond n size (inl below) le = inl below
    beyond n size (inr above) le = inr (omega (arith, above, le))
