-- ===== src/Kernel/Mappings.antt =====
-- The list of mappings as a partial function from addresses to memory.
use kboot.Base.{
  ℕ, ◌+◌, ◌-◌, ◌≤◌, ◌<◌, ◌≡◌, ◌≢◌, refl, List, [], ◌∷◌, true, false, leb, ◌==◌, if◌then◌else◌,
  Option, none, some, arith, Bool-cases, inl, inr, All, leb→le,
}
use kboot.Range.View.{tag_at}
use kboot.Memory.Map.Laws.{inside}
use kboot.Allocator.{Allocator}
use kboot.Kernel.{Mapping, add_mapping, no_phys}

-- The memory at an address of a mapping.
abbrev pub place : Mapping → ℕ → Option ℕ
place m v = if m.phys == no_phys then none else some (m.phys + (v - m.start))

abbrev pub mapped_at : List Mapping → ℕ → Option ℕ
mapped_at [] v = none
mapped_at (m ∷ ms) v = if inside m.start m.size v then place m v else mapped_at ms v

-- Ascending and disjoint, with no address below `lo`.
abbrev pub Orderly : ℕ → List Mapping → Type 0
Orderly lo [] = Unit {0}
Orderly lo (m ∷ ms) = (lo ≤ m.start) × (0 < m.size) × Orderly (m.start + m.size) ms

-- The addresses of a mapping are allocated.
abbrev pub IsReserved : Allocator → Mapping → Type 0
IsReserved allocator m =
    (v : ℕ) → inside m.start m.size v ≡ true → tag_at allocator.regions v ≡ some true

-- No address of the range is one of the mapping.
abbrev pub IsApart : ℕ → ℕ → Mapping → Type 0
IsApart addr size m = (v : ℕ) → inside addr size v ≡ true → inside m.start m.size v ≡ false

pub IsReserved-still :
    (a a' : Allocator) (ms : List Mapping)
    → ((v : ℕ) → tag_at a.regions v ≡ some true → tag_at a'.regions v ≡ some true)
    → All (IsReserved a) ms
    → All (IsReserved a') ms
IsReserved-still a a' [] keeps h = tt
IsReserved-still a a' (m ∷ ms) keeps (h, hs) =
    (λ v i. keeps v (h v i), IsReserved-still a a' ms keeps hs)

pub reserved-IsApart :
    (a : Allocator) (addr size : ℕ) (ms : List Mapping)
    → ((v : ℕ) → inside addr size v ≡ true → tag_at a.regions v ≢ some true)
    → All (IsReserved a) ms
    → All (IsApart addr size) ms
reserved-IsApart a addr size [] free h = tt
reserved-IsApart a addr size (m ∷ ms) free (h, hs) = (
  λ v i. elim (Bool-cases (inside m.start m.size v)) [
    | inl taken ↦ absurd (free v i (h v taken))
    | inr out ↦ out
  ],
  reserved-IsApart a addr size ms free hs,
)

pub apart-none :
    (addr size v : ℕ) (ms : List Mapping)
    → All (IsApart addr size) ms
    → inside addr size v ≡ true
    → mapped_at ms v ≡ none
apart-none addr size v [] h i = refl
apart-none addr size v (m ∷ ms) (h, hs) i = rw (h v i) (apart-none addr size v ms hs i)

-- A new mapping that is apart from the others.
pub add_mapping_lem :
    (lo : ℕ) (m : Mapping) (ms : List Mapping)
    → Orderly lo ms
    → lo ≤ m.start
    → 0 < m.size
    → All (IsApart m.start m.size) ms
    → Orderly lo (add_mapping ms m)
      × ((v : ℕ)
          → mapped_at (add_mapping ms m) v
            ≡ (if inside m.start m.size v then place m v else mapped_at ms v))
unfolding add_mapping
add_mapping_lem lo m [] h le pos apart = ((le, pos, tt), λ v. refl)
add_mapping_lem lo m (o ∷ ms) (below, some_size, h) le pos (apart, aparts) =
    elim (Bool-cases (leb m.start o.start)) [
      | inl first ↦
          let ends : m.start + m.size ≤ o.start =
            ends_before m.start m.size o.start o.size some_size (leb→le _ _ first)
              (apart o.start) in
          (rw first (le, pos, (ends, some_size, h)), rw first (λ v. refl))
      | inr later ↦
          let behind : o.start + o.size ≤ m.start =
            starts_behind m.start m.size o.start o.size pos later (apart m.start) in
          let (orderly, says) = add_mapping_lem (o.start + o.size) m ms h behind pos aparts in
          (
            rw later (below, some_size, orderly),
            rw later (λ v. elim (Bool-cases (inside o.start o.size v)) [
              | inl here ↦ elim (Bool-cases (inside m.start m.size v)) [
                | inl both ↦ absurd (ground (arith, apart v both, here))
                | inr out ↦ rw here (rw out refl)
              ]
              | inr there ↦ rw there (says v)
            ]),
          )
    ]
  where
    ends_before :
        (a n b k : ℕ) → 0 < k → a ≤ b → (inside a n b ≡ true → inside b k b ≡ false) → a + n ≤ b
    ends_before a n b k pos le apart = ground (arith, pos, le, apart)

    starts_behind :
        (a n b k : ℕ)
        → 0 < n
        → leb a b ≡ false
        → (inside a n a ≡ true → inside b k a ≡ false)
        → b + k ≤ a
    starts_behind a n b k pos later apart = ground (arith, pos, later, apart)
