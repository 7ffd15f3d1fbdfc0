-- ===== src/Range/Insert.antt =====
-- The three steps of `insert_range` (source/memory.c) and `insert_region` (source/lib/allocator.c):
-- finding the place, cutting the previous range, removing the following ones.
use native.Mathlib.Nat.{le_trans}
use kboot.Base.{
  ℕ, ◌+◌, ◌≤◌, ◌<◌, ◌≡◌, refl, List, [], ◌∷◌, none, true, false, ltb, leb, or_else, arith,
  Bool-cases, leb→le, ltb→lt, inl, inr,
}
use kboot.Range.{Range, last, unwind, locate, trim, swallow, remainder, cut}
use kboot.Range.View.{
  covers, tag_at, IsProper, Ascends, top, Descends, Ascends-weaken, tag_at-below, tag_at-above,
}

module _ {A : Type 0} where
  -- The 64-bit arithmetic of the ends does not wrap.
  remainder_lem :
      (r o : Range A)
      → IsProper o
      → last r < last o
      → ((remainder r o).start ≡ last r + 1)
        × (last (remainder r o) ≡ last o)
        × ((remainder r o).tag ≡ o.tag)
  unfolding remainder
  remainder_lem r o po lt = (omega arith, omega arith, refl)

  cut_lem :
      (r o : Range A)
      → IsProper r
      → o.start < r.start
      → ((cut r o).start ≡ o.start) × (last (cut r o) + 1 ≡ r.start) × ((cut r o).tag ≡ o.tag)
  unfolding cut last
  cut_lem r o pr lt = (refl, omega arith, refl)

  abbrev pub StartsBelow : ℕ → List (Range A) → Type 0
  StartsBelow s [] = Unit {0}
  StartsBelow s (o ∷ before) = o.start < s

  abbrev pub StartsFrom : ℕ → List (Range A) → Type 0
  StartsFrom s [] = Unit {0}
  StartsFrom s (o ∷ after) = s ≤ o.start

  -- A position in a well-formed list at which a range that starts at `s` goes.
  pub record IsPlace (s : ℕ) (before after : List (Range A)) : Type 0 where
    pub behind : Descends before
    pub ahead : Ascends (top before) after
    pub below : StartsBelow s before
    pub from : StartsFrom s after

  pub locate-IsPlace :
      (s : ℕ) (before after : List (Range A))
      → Descends before
      → Ascends (top before) after
      → StartsBelow s before
      → IsPlace s (locate s before after).0 (locate s before after).1
  unfolding locate
  locate-IsPlace s before [] d h b = record { behind = d; ahead = tt; below = b; from = tt }
  locate-IsPlace s before (o ∷ rest) d h b = elim (Bool-cases (leb s o.start)) [
    | inl le ↦
        rw le
          (record { behind = d; ahead = h; below = b; from = omega (arith, leb→le s o.start le) })
    | inr gt ↦ rw gt (locate-IsPlace s (o ∷ before) rest (h.0, h.1, d) h.2 (ground arith))
  ]

  pub unwind-locate :
      (s : ℕ) (before after : List (Range A))
      → unwind (locate s before after).0 (locate s before after).1 ≡ unwind before after
  unfolding locate
  unwind-locate s before [] = refl
  unwind-locate s before (o ∷ rest) = ground (arith, unwind-locate s (o ∷ before) rest)

  Ascends-StartsFrom :
      (lo s : ℕ) (after : List (Range A)) → StartsFrom s after → Ascends lo after → Ascends s after
  Ascends-StartsFrom lo s [] f h = tt
  Ascends-StartsFrom lo s (o ∷ after) f h = (f, h.1, h.2)

  module _ (r : Range A) (proper : IsProper r) where
    -- What stands before the new range ends where it starts, or earlier.
    pub trim-Descends :
        (before after : List (Range A))
        → IsPlace r.start before after
        → Descends (trim r before after).0 × (top (trim r before after).0 ≤ r.start)
    unfolding trim
    trim-Descends [] after p = omega arith
    trim-Descends (o ∷ before) after p = ground (arith, cut_lem r o proper p.below)

    split-Ascends :
        (o : Range A) (after : List (Range A))
        → IsProper o
        → Ascends (last o + 1) after
        → ltb (last r) (last o) ≡ true
        → Ascends r.start (remainder r o ∷ after)
    split-Ascends o after po h past =
        let (s, e, t) = remainder_lem r o po (ltb→lt _ _ past) in
        (omega (arith, s), (omega (arith, s, e, ltb→lt _ _ past), omega (arith, e)), rw e h)

    pub trim-Ascends :
        (before after : List (Range A))
        → IsPlace r.start before after
        → Ascends r.start (trim r before after).1
    unfolding trim
    trim-Ascends [] after p = Ascends-StartsFrom _ r.start after p.from p.ahead
    trim-Ascends (o ∷ before) after p = elim (Bool-cases (leb r.start (last o))) [
      | inl hit ↦ rw hit (elim (Bool-cases (ltb (last r) (last o))) [
        | inl past ↦ rw past (split-Ascends o after p.behind.1 p.ahead past)
        | inr in_r ↦ rw in_r (Ascends-StartsFrom _ r.start after p.from p.ahead)
      ])
      | inr miss ↦ rw miss (Ascends-StartsFrom _ r.start after p.from p.ahead)
    ]

    cut_view :
        (a : ℕ) (o : Range A) (before after : List (Range A))
        → IsProper o
        → o.start < r.start
        → covers r a ≡ false
        → leb r.start (last o) ≡ true
        → ltb (last r) (last o) ≡ false
        → or_else (tag_at (cut r o ∷ before) a) (tag_at after a)
          ≡ or_else (tag_at (o ∷ before) a) (tag_at after a)
    cut_view a o before after po lt out hit in_r = ground (arith, cut_lem r o proper lt)

    split_view :
        (a : ℕ) (o : Range A) (before after : List (Range A))
        → IsProper o
        → o.start < r.start
        → (o.start ≤ a → tag_at before a ≡ none)
        → (a < last o + 1 → tag_at after a ≡ none)
        → covers r a ≡ false
        → ltb (last r) (last o) ≡ true
        → or_else (tag_at (cut r o ∷ before) a) (tag_at (remainder r o ∷ after) a)
          ≡ or_else (tag_at (o ∷ before) a) (tag_at after a)
    split_view a o before after po lt above behind out past =
        ground (arith, cut_lem r o proper lt, remainder_lem r o po)

    -- No address outside the new range changes hands.
    pub trim-view :
        (a : ℕ) (before after : List (Range A))
        → IsPlace r.start before after
        → covers r a ≡ false
        → or_else (tag_at (trim r before after).0 a) (tag_at (trim r before after).1 a)
          ≡ or_else (tag_at before a) (tag_at after a)
    unfolding trim
    trim-view a [] after p out = refl
    trim-view a (o ∷ before) after p out =
        let above =
          λ (le : o.start ≤ a). tag_at-above a before p.behind.2 (le_trans p.behind.0 le) in
        let behind = tag_at-below (last o + 1) a after p.ahead in
        elim (Bool-cases (leb r.start (last o))) [
          | inl hit ↦ rw hit (elim (Bool-cases (ltb (last r) (last o))) [
            | inl past ↦
                rw past (split_view a o before after p.behind.1 p.below above behind out past)
            | inr in_r ↦ rw in_r (cut_view a o before after p.behind.1 p.below out hit in_r)
          ])
          | inr miss ↦ rw miss refl
        ]

    pub swallow-Ascends :
        (after : List (Range A)) → Ascends r.start after → Ascends (last r + 1) (swallow r after)
    unfolding swallow
    swallow-Ascends [] h = tt
    swallow-Ascends (o ∷ rest) h =
        ground (
          arith,
          remainder_lem r o h.1,
          swallow-Ascends rest (Ascends-weaken rest (omega arith) h.2),
        )

    pub swallow-view :
        (a : ℕ) (after : List (Range A))
        → Ascends r.start after
        → covers r a ≡ false
        → tag_at (swallow r after) a ≡ tag_at after a
    unfolding swallow
    swallow-view a [] h out = refl
    swallow-view a (o ∷ rest) h out = ground (
      arith,
      remainder_lem r o h.1,
      swallow-view a rest (Ascends-weaken rest (omega arith) h.2),
      tag_at-below (last o + 1) a rest h.2,
    )
