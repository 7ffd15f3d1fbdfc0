-- ===== src/Disk/Blocks.antt =====
-- The full blocks and the last block of a read.
use native.Mathlib.Nat.{
  add-mul, suc-mul, one-mul, lt_of_mul-lt-mul_right, le_of_mul-le-mul_right, le-mul_of_pos_right,
  div-lt_iff_lt-mul, mul-le-mul_right, div-mul-le_self,
}
use kboot.Base.{
  ℕ, zero, suc, ◌+◌, ◌-◌, ◌*◌, ◌/◌, ◌%◌, ◌^◌, ◌≤◌, ◌<◌, ◌≡◌, refl, sym, ap, ◌∙◌, ◌++◌, false, ◌==◌,
  arith, Bool-cases, inl, inr,
}
use kboot.CString.{Bytes}
use kboot.Disk.{Result, fine, ◌>>=◌, Disk, Place, advance, round_size, read_full, read_last}
use kboot.Disk.Slices.{slice, slice-append, take-slice}

-- Every run of blocks inside the disk is read, and is what the contents have there.
abbrev pub IsBacked : Disk → (ℕ → ℕ) → Type 0
IsBacked disk content =
    (0 < disk.block_size)
    × (disk.blocks * disk.block_size < 2 ^ 64)
    × ((count lba : ℕ)
        → lba + count ≤ disk.blocks
        → disk.read_blocks count lba
          ≡ fine (slice content (lba * disk.block_size) (count * disk.block_size)))

-- The byte of the disk that a place stands at.
abbrev pub position : Disk → Place → ℕ
position disk p = p.start * disk.block_size

-- What is left to read lies on the disk.
abbrev pub IsInside : Disk → Place → Type 0
IsInside disk p = position disk p + p.count ≤ disk.blocks * disk.block_size

within :
    (b n start count blocks : ℕ)
    → 0 < b
    → n * b ≤ count
    → start * b + count ≤ blocks * b
    → start + n ≤ blocks
within b n start count blocks pos h inside =
    le_of_mul-le-mul_right (omega (arith, add-mul start n b)) pos

pub below_blocks : (b blocks : ℕ) → 0 < b → blocks ≤ blocks * b
below_blocks b blocks pos = le-mul_of_pos_right blocks pos

-- A run of blocks is read, and the place after it.
run_of_blocks :
    (disk : Disk) (content : ℕ → ℕ) (n : ℕ) (p : Place)
    → IsBacked disk content
    → IsInside disk p
    → n * disk.block_size ≤ p.count
    → (disk.read_blocks n p.start ≡ fine (slice content (position disk p) (n * disk.block_size)))
      × ((p.start + n) % 2 ^ 64 * disk.block_size ≡ position disk p + n * disk.block_size)
run_of_blocks disk content n p backed inside h =
    let b = disk.block_size in
    let fits = within b n p.start p.count disk.blocks backed.0 h inside in
    let small : (p.start + n) % 2 ^ 64 ≡ p.start + n =
      omega (arith, fits, below_blocks b disk.blocks backed.0, backed.1) in
    (backed.2 n p.start fits, ap (λ s. s * b) small ∙ add-mul p.start n b)

pub fewer : (b n c f : ℕ) → 0 < b → 0 < n → n * b ≤ c → c / b < suc f → (c - n * b) / b < f
fewer b n c f pos more h lt =
    let bound : c < suc f * b = (div-lt_iff_lt-mul pos).0 lt in
    let one : 1 * b ≤ n * b = mul-le-mul_right b more in
    (div-lt_iff_lt-mul pos).1 (omega (arith, bound, one, suc-mul f b, one-mul b))

pub round_size-pos :
    (disk : Disk) (p : Place)
    → (p.count / disk.block_size == 0) ≡ false
    → (0 < round_size disk p) × (round_size disk p ≤ p.count / disk.block_size)
round_size-pos disk p h = ground arith

-- What the loop over the full blocks comes to from `p`.
abbrev pub FullReads : Disk → (ℕ → ℕ) → Place → Result (Bytes × Place) → Type 0
FullReads disk content p r =
    (q : Place) × (r ≡ fine (slice content (position disk p) (p.count - q.count), q))
    × (q.count < disk.block_size)
    × (q.count ≤ p.count)
    × (position disk q + q.count ≡ position disk p + p.count)

full_step :
    (disk : Disk) (content : ℕ → ℕ) (p : Place) (m : ℕ) (p' : Place) (r : Result (Bytes × Place))
    (bytes : Bytes)
    → m ≤ p.count
    → bytes ≡ slice content (position disk p) m
    → p'.count ≡ p.count - m
    → position disk p' ≡ position disk p + m
    → FullReads disk content p' r
    → FullReads disk content p (r >>= λ (rest, q). fine (bytes ++ rest, q))
full_step disk content p m p' r bytes h e ec ep (q, run, lt, le, at) =
    let size : m + (p'.count - q.count) ≡ p.count - q.count = omega (arith, ec, le) in
    (
      q,
      rw run (
          ap (λ t. fine (t, q))
            (rw e (
              rw ep (slice-append content (position disk p) m (p'.count - q.count))
              ∙ ap (slice content (position disk p)) size))),
      lt,
      omega (arith, ec, le),
      omega (arith, at, ec, ep),
    )

pub read_full-Reads :
    (f : ℕ) (disk : Disk) (content : ℕ → ℕ) (p : Place)
    → IsBacked disk content
    → IsInside disk p
    → p.count / disk.block_size < f
    → FullReads disk content p (read_full f disk p)
unfolding read_full
read_full-Reads zero disk content p backed inside lt = absurd (omega arith)
read_full-Reads (suc f) disk content p backed inside lt =
    let b = disk.block_size in
    elim (Bool-cases (p.count / b == 0)) [
      | inl none_left ↦
          let nothing : p.count - p.count ≡ 0 = omega arith in
          let below : p.count / b < 1 = ground (arith, none_left) in
          let last : p.count < 1 * b = (div-lt_iff_lt-mul backed.0).0 below in
          (p, rw none_left (rw nothing refl), omega (arith, last, one-mul b), omega arith, refl)
      | inr some_left ↦
          let n = round_size disk p in
          let (some, room) = round_size-pos disk p some_left in
          let size : n * b ≤ p.count =
            omega (arith, mul-le-mul_right b room, div-mul-le_self p.count b) in
          let (read, at) = run_of_blocks disk content n p backed inside size in
          let p' = advance p (n * b) n in
          let (q, e, lt', le, at') =
            full_step disk content p (n * b) p' (read_full f disk p') _ size refl refl at (
              read_full-Reads f disk content p' backed (omega (arith, inside, at, size))
                (fewer b n p.count f backed.0 some size lt)) in
          (q, rw some_left (rw read e), lt', le, at')
    ]

pub read_last-Reads :
    (disk : Disk) (content : ℕ → ℕ) (p : Place)
    → IsBacked disk content
    → IsInside disk p
    → p.count < disk.block_size
    → read_last disk p ≡ fine (slice content (position disk p) p.count)
unfolding read_last
read_last-Reads disk content p backed inside lt =
    let b = disk.block_size in
    elim (Bool-cases (p.count == 0)) [
      | inl h ↦
          let nothing : p.count ≡ 0 = ground (arith, h) in
          rw h (ap (λ n. fine (slice content (position disk p) n)) (sym nothing))
      | inr h ↦
          let some : 0 < p.count = ground (arith, h) in
          let below : p.start * b < disk.blocks * b = omega (arith, inside, some) in
          let room : p.start + 1 ≤ disk.blocks = omega (arith, lt_of_mul-lt-mul_right b below) in
          rw h (
            rw (backed.2 1 p.start room) (
              ap fine (
                take-slice content (position disk p) p.count (1 * b)
                  (omega (arith, lt, one-mul b)))))
    ]
