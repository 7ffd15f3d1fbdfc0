-- ===== src/Memory/Map/Merge.antt =====
-- Merging changes the representation of a map and not what it says of an address.
use kboot.Base.{
  ℕ, ◌+◌, ◌≤◌, ◌≡◌, refl, List, [], ◌∷◌, Option, some, true, ◌&&◌, ◌==◌, if◌then◌else◌, or_else,
  arith, add64, Bool-cases, inl, inr, ◌∙◌, sym,
}
use mathlib.Core.Option
use kboot.Range.{Range, last, Place, to_list}
use kboot.Range.View.{covers, tag_at, IsProper, tag_at-above}
use kboot.Range.Overwrite.{IsSound, tag_at-to_list}
use kboot.Memory.Map.{merge_previous, merge_next, merge_ranges}

abbrev here : List (Range ℕ) → Range ℕ → List (Range ℕ) → Place ℕ
here before range after = record { before = before; range = range; after = after }

-- The range that spans two adjacent ones ends where the second ends.
last-joined :
    (first second : Range ℕ) (size : ℕ)
    → IsProper first
    → IsProper second
    → last first + 1 ≤ second.start
    → second.start ≡ add64 first.start first.size
    → size ≡ add64 first.size second.size
    → (second.start ≡ last first + 1) × (last (record first { size = size }) ≡ last second)
unfolding last
last-joined first second size p q lt adjacent e = (omega arith, omega arith)

-- `merge_ranges` adds the sizes in one order in both of its halves.
joined_comm : (first second : Range ℕ) → add64 first.size second.size ≡ add64 second.size first.size
joined_comm first second = omega arith

merge_next-IsSound :
    (before : List (Range ℕ)) (r : Range ℕ) (after : List (Range ℕ))
    → IsSound (here before r after)
    → IsSound (merge_next before r after)
unfolding merge_next
merge_next-IsSound before r [] s = s
merge_next-IsSound before r (o ∷ after) s =
    ground (arith, s.behind, s.ahead, last-joined r o (add64 r.size o.size) s.proper s.ahead.1)

merge_previous-IsSound :
    (before : List (Range ℕ)) (r : Range ℕ) (after : List (Range ℕ))
    → IsSound (here before r after)
    → IsSound (merge_previous before r after)
unfolding merge_previous
merge_previous-IsSound [] r after s = s
merge_previous-IsSound (o ∷ before) r after s = ground (
  arith,
  s.behind,
  s.ahead,
  last-joined o r (add64 o.size r.size) s.behind.1 s.proper s.fits,
  joined_comm o r,
)

pub merge_ranges-IsSound : (p : Place ℕ) → IsSound p → IsSound (merge_ranges p)
unfolding merge_ranges
merge_ranges-IsSound p s =
    merge_next-IsSound _ _ _ (merge_previous-IsSound p.before p.range p.after s)

-- What a sound place says of an address, if `g` is yet to be applied to the types that follow it.
abbrev pub view_by : (ℕ → ℕ) → Place ℕ → ℕ → Option ℕ
view_by g p a =
    if covers p.range a
    then some p.range.tag
    else or_else (tag_at p.before a) (Option.map g (tag_at p.after a))

merge_next-view :
    (g : ℕ → ℕ) (a : ℕ) (before : List (Range ℕ)) (r : Range ℕ) (after : List (Range ℕ))
    → g r.tag ≡ r.tag
    → IsSound (here before r after)
    → view_by g (merge_next before r after) a ≡ view_by g (here before r after) a
unfolding merge_next
merge_next-view g a before r [] e s = refl
merge_next-view g a before r (o ∷ after) e s = ground (
  arith,
  s.ahead,
  tag_at-above a before s.behind,
  last-joined r o (add64 r.size o.size) s.proper s.ahead.1,
)

-- `joined` is `first` and the range `second` that follows it at once, which has the same tag.
record Joins (first second joined : Range ℕ) : Type 0 where
  low : joined.start ≡ first.start
  high : last joined ≡ last second
  meet : second.start ≡ last first + 1
  proper : IsProper first × IsProper second
  tags : (first.tag ≡ second.tag) × (joined.tag ≡ second.tag)

joined_lem :
    (o r : Range ℕ)
    → IsProper o
    → IsProper r
    → last o + 1 ≤ r.start
    → (add64 o.start o.size == r.start && o.tag == r.tag) ≡ true
    → Joins o r (record r { start = o.start; size = add64 r.size o.size })
joined_lem o r po pr le same = record {
  low = refl;
  high = ground (arith, last-joined o r (add64 o.size r.size) po pr le, joined_comm o r);
  meet = ground (arith, last-joined o r (add64 o.size r.size) po pr le);
  proper = (po, pr);
  tags = ground arith;
}

joined_view :
    (a : ℕ) (first second joined : Range ℕ) (x y : Option ℕ)
    → Joins first second joined
    → (if covers joined a then some joined.tag else or_else x y) ≡ (
        if covers second a
        then some second.tag
        else or_else (if covers first a then some first.tag else x) y)
joined_view a first second joined x y j = ground (arith, j.low, j.high, j.meet, j.proper, j.tags)

merge_previous-view :
    (g : ℕ → ℕ) (a : ℕ) (before : List (Range ℕ)) (r : Range ℕ) (after : List (Range ℕ))
    → IsSound (here before r after)
    → view_by g (merge_previous before r after) a ≡ view_by g (here before r after) a
unfolding merge_previous
merge_previous-view g a [] r after s = refl
merge_previous-view g a (o ∷ before) r after s =
    elim (Bool-cases (add64 o.start o.size == r.start && o.tag == r.tag)) [
      | inl same ↦ rw same (
          joined_view a o r (record r { start = o.start; size = add64 r.size o.size }) _ _
            (joined_lem o r s.behind.1 s.proper s.fits same))
      | inr differ ↦ rw differ refl
    ]

tag-merge_previous :
    (before : List (Range ℕ)) (r : Range ℕ) (after : List (Range ℕ))
    → (merge_previous before r after).range.tag ≡ r.tag
unfolding merge_previous
tag-merge_previous [] r after = refl
tag-merge_previous (o ∷ before) r after = ground arith

pub merge_ranges-view :
    (g : ℕ → ℕ) (a : ℕ) (p : Place ℕ)
    → g p.range.tag ≡ p.range.tag
    → IsSound p
    → view_by g (merge_ranges p) a ≡ view_by g p a
unfolding merge_ranges
merge_ranges-view g a p e s =
    let t = tag-merge_previous p.before p.range p.after in
    merge_next-view g a _ _ _ (rw t e) (merge_previous-IsSound p.before p.range p.after s)
    ∙ merge_previous-view g a p.before p.range p.after s

view-id : (a : ℕ) (p : Place ℕ) → IsSound p → view_by (λ t. t) p a ≡ tag_at (to_list p) a
view-id a p s = ground (arith, tag_at-to_list a p s)

-- Merging leaves the tag of every address as it was.
pub tag_at-merge_ranges :
    (a : ℕ) (p : Place ℕ) → IsSound p → tag_at (to_list (merge_ranges p)) a ≡ tag_at (to_list p) a
tag_at-merge_ranges a p s =
    sym (view-id a _ (merge_ranges-IsSound p s))
    ∙ (merge_ranges-view (λ t. t) a p refl s ∙ view-id a p s)

merge_previous-spans :
    (before : List (Range ℕ)) (r : Range ℕ) (after : List (Range ℕ))
    → IsSound (here before r after)
    → ((merge_previous before r after).range.start ≤ r.start)
      × (last (merge_previous before r after).range ≡ last r)
unfolding merge_previous
merge_previous-spans [] r after s = (omega arith, refl)
merge_previous-spans (o ∷ before) r after s = ground (
  arith,
  s.behind,
  last-joined o r (add64 o.size r.size) s.behind.1 s.proper s.fits,
  joined_comm o r,
)

merge_next-spans :
    (before : List (Range ℕ)) (r : Range ℕ) (after : List (Range ℕ))
    → IsSound (here before r after)
    → ((merge_next before r after).range.start ≡ r.start)
      × (last r ≤ last (merge_next before r after).range)
      × ((merge_next before r after).range.tag ≡ r.tag)
unfolding merge_next
merge_next-spans before r [] s = (refl, omega arith, refl)
merge_next-spans before r (o ∷ after) s =
    ground (arith, s.ahead, last-joined r o (add64 r.size o.size) s.proper s.ahead.1)

-- The merged range takes in the range that it was made from, and has its type.
pub merge_ranges-spans :
    (p : Place ℕ)
    → IsSound p
    → ((merge_ranges p).range.start ≤ p.range.start)
      × (last p.range ≤ last (merge_ranges p).range)
      × ((merge_ranges p).range.tag ≡ p.range.tag)
unfolding merge_ranges
merge_ranges-spans p s =
    let t = merge_previous-IsSound p.before p.range p.after s in
    let q = merge_previous p.before p.range p.after in
    ground (
      arith,
      merge_next-spans q.before q.range q.after t,
      merge_previous-spans p.before p.range p.after s,
      tag-merge_previous p.before p.range p.after,
    )
