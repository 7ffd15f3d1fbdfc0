-- ===== src/Kernel/Bounds.antt =====
-- What an allocation and an insertion leave of the allocator's bounds, and what its addresses are below.
use kboot.Base.{
  ℕ, ◌+◌, ◌^◌, ◌≤◌, ◌<◌, ◌≡◌, ◌∙◌, List, [], ◌∷◌, Bool, true, false, leb, ◌&&◌, if◌then◌else◌,
  Option, none, some, arith, Bool-cases, inl, inr, All,
}
use kboot.Range.{last}
use kboot.Range.View.{tag_at, covers, Ascends}
use kboot.Memory.Map.Laws.{inside}
use kboot.Allocator.{Allocator, Region}
use kboot.Allocator.Laws.{IsTaken}
use kboot.Allocator.Reserve.{HasBounds, managed}

-- The allocator has no address from `limit` on.
abbrev pub IsBelow : ℕ → Allocator → Type 0
IsBelow limit allocator = (a : ℕ) → limit ≤ a → tag_at allocator.regions a ≡ none

-- The allocator keeps its bounds, and has no address beyond a limit of them.
abbrev pub Keeps : Allocator → Allocator → Type 0
Keeps allocator allocator' =
    HasBounds allocator allocator'
    × ((limit : ℕ)
        → ((a : ℕ) → managed allocator a ≡ true → a < limit)
        → IsBelow limit allocator
        → IsBelow limit allocator')

pub taken-Keeps :
    (allocator allocator' : Allocator) (size align s : ℕ)
    → IsTaken allocator allocator' size align s
    → Keeps allocator allocator'
taken-Keeps allocator allocator' size align s taken = (
  taken.same,
  λ limit _ below a le. elim (Bool-cases (inside s size a)) [
    | inl i ↦ absurd (ground (arith, taken.was_free a i, below a le))
    | inr o ↦ taken.after a ∙ rw o (below a le)
  ],
)

pub inserted-Keeps :
    (allocator allocator' : Allocator) (addr size : ℕ)
    → HasBounds allocator allocator'
    → ((a : ℕ)
        → tag_at allocator'.regions a ≡ (
            if inside addr size a && managed allocator a
            then some true
            else tag_at allocator.regions a))
    → Keeps allocator allocator'
inserted-Keeps allocator allocator' addr size bounds after = (
  bounds,
  λ limit within below a le. elim (Bool-cases (inside addr size a && managed allocator a)) [
    | inl both ↦ absurd (
        omega (arith, beyond (inside addr size a) (managed allocator a) a limit both (within a) le))
    | inr o ↦ after a ∙ rw o (below a le)
  ],
)
  where
    beyond :
        (b c : Bool) (a limit : ℕ) → (b && c) ≡ true → (c ≡ true → a < limit) → limit ≤ a → 1 ≤ 0
    beyond true c a limit both within le = omega (arith, within both, le)
    beyond false c a limit both within le = ground (arith, both)

pub below-All :
    (lo limit a b : ℕ) (rs : List Region)
    → Ascends lo rs
    → ((a : ℕ) → limit ≤ a → tag_at rs a ≡ none)
    → limit + a + b ≤ 2 ^ 64
    → All (λ r. last r + a + b ≤ 2 ^ 64) rs
below-All lo limit a b [] h below fits = tt
below-All lo limit a b (r ∷ rs) (_, proper, h) below fits =
    let end : last r < limit =
      low (tag_at rs (last r)) (last r) limit r.start r.tag proper.0 (below (last r)) in
    (
      omega (arith, end, fits),
      below-All (last r + 1) limit a b rs h
          (λ v le. past (covers r v) r.tag (tag_at rs v) (below v le)) fits,
    )
  where
    past : (b : Bool) (t : Bool) (o : Option Bool) → (if b then some t else o) ≡ none → o ≡ none
    past true t o e = ground (arith, e)
    past false t o e = e

    low :
        (o : Option Bool) (end limit start : ℕ) (t : Bool)
        → start ≤ end
        → (limit ≤ end → (if leb start end && leb end end then some t else o) ≡ none)
        → end < limit
    low o end limit start t le h = ground (arith, le, h)

-- Addresses of the allocator are words.
pub tagged-small :
    (lo a : ℕ) (rs : List Region) (t : Bool) → Ascends lo rs → tag_at rs a ≡ some t → a < 2 ^ 64
tagged-small lo a [] t h e = ground (arith, e)
tagged-small lo a (r ∷ rs) t (_, proper, h) e = elim (Bool-cases (covers r a)) [
  | inl here ↦ ground (arith, here, proper)
  | inr there ↦ tagged-small (last r + 1) a rs t h (ground (arith, there, e))
]
