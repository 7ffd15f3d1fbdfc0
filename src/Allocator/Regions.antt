-- ===== src/Allocator/Regions.antt =====
-- The list of regions: what `insert_region` and the loop of `allocator_alloc` do to it.
use kboot.Base.{
  ℕ, ◌+◌, ◌≤◌, ◌≡◌, refl, List, [], ◌∷◌, some, leb, if◌then◌else◌, arith, ◌∙◌, Bool-cases, inl, inr,
}
use kboot.Range.{Range, Place, last, to_list, unwind, locate, insert_at}
use kboot.Range.View.{covers, tag_at, IsProper, Ascends, top, Descends}
use kboot.Range.Insert.{IsPlace, locate-IsPlace, unwind-locate}
use kboot.Range.Overwrite.{insert_at-IsSound, IsSound-Ascends, tag_at-insert_at}
use kboot.Allocator.{Region, Allocator, insert_region, insert_region_at}

module _ (alloc : Allocator) (r : Region) (proper : IsProper r) where
  pub insert_region_lem :
      Ascends 0 alloc.regions
      → Ascends 0 (insert_region alloc r).regions
        × ((a : ℕ)
            → tag_at (insert_region alloc r).regions a
              ≡ (if covers r a then some r.tag else tag_at alloc.regions a))
  unfolding insert_region
  insert_region_lem h =
      let p = locate-IsPlace r.start [] alloc.regions tt h tt in
      (
        IsSound-Ascends (insert_at-IsSound r _ _ proper p),
        λ a. tag_at-insert_at a r _ _ proper p ∙ rw (unwind-locate r.start [] alloc.regions) refl,
      )

  -- At a region that holds the start of the new one, the search would find the same place.
  pub insert_region_at_lem :
      (before : List Region) (location : Region) (after : List Region)
      → Descends before
      → Ascends (top before) (location ∷ after)
      → location.start ≤ r.start
      → r.start ≤ last location
      → Ascends 0 (insert_region_at alloc r before location after).regions
        × ((a : ℕ)
            → tag_at (insert_region_at alloc r before location after).regions a
              ≡ (if covers r a then some r.tag else tag_at (unwind before (location ∷ after)) a))
  unfolding insert_region_at
  insert_region_at_lem before location after d h low high =
      elim (Bool-cases (leb r.start location.start)) [
        | inl at ↦
            let p : IsPlace r.start before (location ∷ after) = record {
              behind = d;
              ahead = h;
              below = starts_below before d (ground arith);
              from = ground arith;
            } in
            rw at (
              IsSound-Ascends (insert_at-IsSound r _ _ proper p),
              λ a. tag_at-insert_at a r _ _ proper p,
            )
        | inr inner ↦
            let p : IsPlace r.start (location ∷ before) after = record {
              behind = (h.0, h.1, d);
              ahead = h.2;
              below = ground arith;
              from = starts_from after h.2;
            } in
            rw inner (
              IsSound-Ascends (insert_at-IsSound r _ _ proper p),
              λ a. tag_at-insert_at a r _ _ proper p,
            )
      ]
    where
      starts_below :
          (b : List Region)
          → Descends b
          → top b ≤ r.start
          → kboot.Range.Insert.StartsBelow r.start b
      starts_below [] d le = tt
      starts_below (o ∷ b) d le = omega arith

      starts_from :
          (l : List Region)
          → Ascends (last location + 1) l
          → kboot.Range.Insert.StartsFrom r.start l
      starts_from [] h = tt
      starts_from (o ∷ l) h = omega arith
