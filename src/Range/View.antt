-- ===== src/Range/View.antt =====
-- What an ordered list of ranges says of each address, and when such a list is well formed.
use kboot.Base.{
  ℕ, ◌+◌, ◌^◌, ◌≤◌, ◌<◌, ◌≡◌, refl, List, [], ◌∷◌, Option, none, some, Bool, ◌&&◌, leb,
  if◌then◌else◌, or_else, arith,
}
use kboot.Range.{Range, last, unwind}

module _ {A : Type 0} where
  abbrev pub covers : Range A → ℕ → Bool
  covers r a = leb r.start a && leb a (last r)

  -- The tag of the range that holds the address, if one does.
  abbrev pub tag_at : List (Range A) → ℕ → Option A
  tag_at [] a = none
  tag_at (r ∷ rs) a = if covers r a then some r.tag else tag_at rs a

  -- Not empty. A range is known by its first and last address: the one that spans the whole address
  -- space has the size 0.
  abbrev pub IsProper : Range A → Type 0
  IsProper r = (r.start ≤ last r) × (last r < 2 ^ 64)

  -- Ascending and disjoint, with no address below `lo`.
  abbrev pub Ascends : ℕ → List (Range A) → Type 0
  Ascends lo [] = Unit {0}
  Ascends lo (r ∷ rs) = (lo ≤ r.start) × IsProper r × Ascends (last r + 1) rs

  -- Where the nearest range before a position ends.
  abbrev pub top : List (Range A) → ℕ
  top [] = 0
  top (r ∷ before) = last r + 1

  -- The same, for what stands before a position, nearest first.
  abbrev pub Descends : List (Range A) → Type 0
  Descends [] = Unit {0}
  Descends (r ∷ before) = (top before ≤ r.start) × IsProper r × Descends before

  pub Ascends-weaken : {lo hi : ℕ} (rs : List (Range A)) → hi ≤ lo → Ascends lo rs → Ascends hi rs
  Ascends-weaken [] le h = tt
  Ascends-weaken (r ∷ rs) le h = (omega arith, h.1, h.2)

  -- Nothing below the bound of an ascending list, nothing above that of a descending one.
  pub tag_at-below : (lo a : ℕ) (rs : List (Range A)) → Ascends lo rs → a < lo → tag_at rs a ≡ none
  tag_at-below lo a [] h lt = refl
  tag_at-below lo a (r ∷ rs) h lt = ground (arith, tag_at-below (last r + 1) a rs h.2 (omega arith))

  pub tag_at-above :
      (a : ℕ) (before : List (Range A)) → Descends before → top before ≤ a → tag_at before a ≡ none
  tag_at-above a [] h le = refl
  tag_at-above a (r ∷ before) h le = ground (arith, tag_at-above a before h.2 (omega arith))

  pub unwind-Ascends :
      (before after : List (Range A))
      → Descends before
      → Ascends (top before) after
      → Ascends 0 (unwind before after)
  unwind-Ascends [] after d h = h
  unwind-Ascends (r ∷ before) after d h = unwind-Ascends before (r ∷ after) d.2 (d.0, d.1, h)

  -- A list seen from a position says of an address what one of its two parts says.
  pub tag_at-unwind :
      (a : ℕ) (before after : List (Range A))
      → Descends before
      → tag_at (unwind before after) a ≡ or_else (tag_at before a) (tag_at after a)
  tag_at-unwind a [] after d = refl
  tag_at-unwind a (r ∷ before) after d =
      ground (arith, tag_at-unwind a before (r ∷ after) d.2, tag_at-above a before d.2)
