-- ===== src/Memory/Alloc/Suitable.antt =====
-- What `is_suitable_range` accepts, and which address it picks.
use kboot.Base.{
  ℕ, ◌+◌, ◌%◌, ◌^◌, ◌≤◌, ◌<◌, ◌≡◌, some, true, leb, if◌then◌else◌, arith, add64, sub64, inl, inr,
  Bool-cases,
}
use kboot.Base.Rounding.{
  round_up, round_down, round_up_lem, round_up_least, round_down_lem, round_down_greatest,
}
use kboot.Range.{Range}
use kboot.Memory.MemoryType
use kboot.Memory.Alloc.{Request, match_start, match_end, align_within, is_suitable_range}

-- A request with its defaults filled in, of at least two bytes, that stays clear of the end of the
-- address space.
pub record IsNormal (q : Request) : Type 0 where
  pub size_positive : 1 < q.size
  pub align_positive : 0 < q.align
  pub clear : q.max_addr + q.align + q.size ≤ 2 ^ 64

-- The range is free, and has `q.size` bytes at the aligned address `s` within the bounds.
abbrev pub Fits : Request → Range ℕ → ℕ → Type 0
Fits q range s =
    (range.tag ≡ MemoryType.free)
    × (s % q.align ≡ 0)
    × (match_start q range ≤ s)
    × (s + q.size ≤ match_end q range + 1)

-- In a high allocation, the subtraction of the size from the end does not wrap.
abbrev pub Room : Request → Range ℕ → Type 0
Room q range = q.flags.high ≡ true → q.size ≤ match_end q range + 1

module _ (q : Request) (n : IsNormal q) (lo hi : ℕ) (lt : lo < hi) (below : hi ≤ q.max_addr) where
  abbrev down : ℕ
  down = add64 (sub64 hi q.size) 1

  down-eq : q.size ≤ hi + 1 → down + q.size ≡ hi + 1
  down-eq h = omega (arith, n.size_positive, n.clear, n.align_positive)

  align_sound :
      (s : ℕ)
      → (q.flags.high ≡ true → q.size ≤ hi + 1)
      → align_within q lo hi ≡ some s
      → (s % q.align ≡ 0) × (lo ≤ s) × (s + q.size ≤ hi + 1)
  unfolding align_within
  align_sound s room h = elim (Bool-cases q.flags.high) [
    | inl high ↦
        let e = down-eq (room high) in
        let fits : down < 2 ^ 64 = omega (arith, n.size_positive) in
        ground (arith, e, round_down_lem down q.align n.align_positive fits)
    | inr low ↦ ground (
      arith,
      n.clear,
      n.size_positive,
      round_up_lem lo q.align n.align_positive (omega (arith, n.clear)),
    )
  ]

  -- An aligned address at which the request fits is a bound for the one that is picked.
  align_best :
      (t : ℕ)
      → t % q.align ≡ 0
      → lo ≤ t
      → t + q.size ≤ hi + 1
      → (s : ℕ) × (align_within q lo hi ≡ some s) × (if q.flags.high then t ≤ s else s ≤ t)
  unfolding align_within
  align_best t h l u = elim (Bool-cases q.flags.high) [
    | inl high ↦
        let e = down-eq (omega arith) in
        let fits : down < 2 ^ 64 = omega (arith, n.size_positive) in
        let best = round_down_greatest down q.align t n.align_positive fits h (omega (arith, e)) in
        (round_down down q.align, ground (arith, best), rw high best)
    | inr low ↦
        let best = round_up_least lo q.align t n.align_positive (omega (arith, n.clear)) h l in
        (round_up lo q.align, ground (arith, best, n.clear, n.size_positive), rw low best)
  ]

module _ (q : Request) (range : Range ℕ) (n : IsNormal q) where
  match_end-le : match_end q range ≤ q.max_addr
  match_end-le = ground arith

  -- An address that `is_suitable_range` returns is aligned, and the request fits there within the
  -- free range and the bounds, unless the request is high and larger than the end of the range.
  pub is_suitable_range_sound :
      (s : ℕ) → Room q range → is_suitable_range q range ≡ some s → Fits q range s
  unfolding is_suitable_range
  is_suitable_range_sound s room h = elim (Bool-cases (leb hi lo)) [
    | inl closed ↦ ground arith
    | inr open_ ↦ ground (arith, align_sound q n lo hi (ground arith) match_end-le s room)
  ]
    where
      lo : ℕ
      lo = match_start q range

      hi : ℕ
      hi = match_end q range

  -- Where the request fits at an address of a free range, `is_suitable_range` returns an address: the
  -- highest such one for a high request, the lowest otherwise.
  pub is_suitable_range_best :
      (t : ℕ)
      → Fits q range t
      → (s : ℕ) × (is_suitable_range q range ≡ some s) × (if q.flags.high then t ≤ s else s ≤ t)
  unfolding is_suitable_range
  is_suitable_range_best t (free, h, l, u) =
      let lt : match_start q range < match_end q range = omega (arith, l, u, n.size_positive) in
      let (s, e, best) =
        align_best q n (match_start q range) (match_end q range) lt match_end-le t h l u in
      (s, ground (arith, e), best)

-- A high request larger than the end of a free range, by less than leaves room for the alignment,
-- is accepted all the same: `match_end - size` wraps, and the address that is returned lies above
-- `match_end`, the last address of the range within the bounds.
pub is_suitable_range_wraps :
    (q : Request) (range : Range ℕ)
    → q.flags.high ≡ true
    → range.tag ≡ MemoryType.free
    → 0 < q.align
    → match_start q range < match_end q range
    → match_end q range + 1 < q.size
    → q.size + q.align + match_end q range ≤ 2 ^ 64
    → (s : ℕ) × (is_suitable_range q range ≡ some s) × (match_end q range < s)
unfolding is_suitable_range align_within
is_suitable_range_wraps q range high free pos lt large small =
    (round_down wrapped q.align, ground (arith, above, lt), above)
  where
    wrapped : ℕ
    wrapped = add64 (sub64 (match_end q range) q.size) 1

    wrapped_lem : (wrapped < 2 ^ 64) × (wrapped + q.size ≡ match_end q range + 1 + 2 ^ 64)
    wrapped_lem = omega (arith, large, small)

    above : match_end q range < round_down wrapped q.align
    above = omega (arith, wrapped_lem, small, round_down_lem wrapped q.align pos wrapped_lem.0)
