-- ===== src/Range/Overwrite.antt =====
-- Insertion overwrites: the new range holds its addresses, and all other addresses keep their tag.
use kboot.Base.{
  ℕ, ◌+◌, ◌≤◌, ◌≡◌, refl, List, ◌∷◌, none, some, false, if◌then◌else◌, or_else, arith, Bool-cases,
  inl, inr, ◌∙◌, sym,
}
use kboot.Range.{Range, Place, last, unwind, to_list, trim, insert_at}
use kboot.Range.View.{
  covers, tag_at, IsProper, Ascends, top, Descends, Ascends-weaken, tag_at-below, tag_at-above,
  unwind-Ascends, tag_at-unwind,
}
use kboot.Range.Insert.{
  IsPlace, trim-Descends, trim-Ascends, trim-view, swallow-Ascends, swallow-view,
}

module _ {A : Type 0} where
  -- A place in a well-formed list.
  pub record IsSound (p : Place A) : Type 0 where
    pub behind : Descends p.before
    pub fits : top p.before ≤ p.range.start
    pub proper : IsProper p.range
    pub ahead : Ascends (last p.range + 1) p.after

  pub insert_at-IsSound :
      (r : Range A) (before after : List (Range A))
      → IsProper r
      → IsPlace r.start before after
      → IsSound (insert_at r before after)
  unfolding insert_at
  insert_at-IsSound r before after proper p =
      let (d, t) = trim-Descends r proper before after p in
      record {
        behind = d;
        fits = t;
        proper = proper;
        ahead =
            swallow-Ascends r proper (trim r before after).1 (trim-Ascends r proper before after p);
      }

  pub IsSound-Ascends : {p : Place A} → IsSound p → Ascends 0 (to_list p)
  IsSound-Ascends {p} s =
      unwind-Ascends p.before (p.range ∷ p.after) s.behind (s.fits, s.proper, s.ahead)

  pub tag_at-to_list :
      (a : ℕ) (p : Place A)
      → IsSound p
      → tag_at (to_list p) a ≡ (
          if covers p.range a
          then some p.range.tag
          else or_else (tag_at p.before a) (tag_at p.after a))
  tag_at-to_list a p s = ground (
    arith,
    tag_at-unwind a p.before (p.range ∷ p.after) s.behind,
    tag_at-above a p.before s.behind,
  )

  insert_at-outside :
      (a : ℕ) (r : Range A) (before after : List (Range A))
      → IsProper r
      → IsPlace r.start before after
      → covers r a ≡ false
      → or_else
          (tag_at (insert_at r before after).before a)
          (tag_at (insert_at r before after).after a)
        ≡ tag_at (unwind before after) a
  unfolding insert_at
  insert_at-outside a r before after proper p out =
      rw (swallow-view r proper a _ (trim-Ascends r proper before after p) out)
        (trim-view r proper a before after p out ∙ sym (tag_at-unwind a before after p.behind))

  -- An insertion overwrites the addresses of the new range with its tag, and changes no other.
  pub tag_at-insert_at :
      (a : ℕ) (r : Range A) (before after : List (Range A))
      → IsProper r
      → IsPlace r.start before after
      → tag_at (to_list (insert_at r before after)) a
        ≡ (if covers r a then some r.tag else tag_at (unwind before after) a)
  tag_at-insert_at a r before after proper p =
      tag_at-to_list a (insert_at r before after) (insert_at-IsSound r before after proper p)
      ∙ elim (Bool-cases (covers r a)) [
        | inl hit ↦ unfold insert_at in rw (hit)
        | inr miss ↦ rw (range_kept) (rw miss (insert_at-outside a r before after proper p miss))
      ]
    where
      range_kept : (insert_at r before after).range ≡ r
      range_kept = unfold insert_at in refl

  -- Unlinking a range erases its addresses.
  pub unlink-Ascends : (p : Place A) → IsSound p → Ascends 0 (unwind p.before p.after)
  unlink-Ascends p s =
      unwind-Ascends p.before p.after s.behind
        (Ascends-weaken p.after (omega (arith, s.fits, s.proper)) s.ahead)

  pub tag_at-unlink :
      (a : ℕ) (p : Place A)
      → IsSound p
      → tag_at (unwind p.before p.after) a
        ≡ (if covers p.range a then none else tag_at (to_list p) a)
  tag_at-unlink a p s = ground (
    arith,
    tag_at-unwind a p.before p.after s.behind,
    tag_at-to_list a p s,
    tag_at-above a p.before s.behind,
    tag_at-below (last p.range + 1) a p.after s.ahead,
  )
