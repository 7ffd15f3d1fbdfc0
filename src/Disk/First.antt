-- ===== src/Disk/First.antt =====
-- The first block of a read that starts inside a block.
use native.Mathlib.Decide.{dec_lt}
use native.Mathlib.Nat.{
  div-add-mod', le-div_iff_mul-le, lt-div-mul-add, mod-lt, add-mul, one-mul, lt_of_mul-lt-mul_right,
}
use kboot.Base.{
  ℕ, ◌+◌, ◌-◌, ◌*◌, ◌/◌, ◌%◌, ◌^◌, ◌≤◌, ◌<◌, ◌≡◌, ◌≢◌, refl, sym, ap, ◌∙◌, true, false, ◌==◌,
  if◌then◌else◌, arith, Bool-cases, ==_iff, inl, inr, ◌⊎◌,
}
use kboot.Base.Lists.{take, drop}
use kboot.Disk.{fine, Disk, Place, advance, read_first}
use kboot.Disk.Slices.{slice, take-slice, drop-slice}
use kboot.Disk.Blocks.{IsBacked, position, below_blocks}

-- The last block of the read, where the read starts inside a block.
last_block :
    (b o c : ℕ)
    → 0 < b
    → 0 < o % b
    → o + c < 2 ^ 64
    → (((o + (c + 2 ^ 64 - 1)) % 2 ^ 64) / b ≡ o / b) × (o % b + c ≤ b)
      ⊎ (((o + (c + 2 ^ 64 - 1)) % 2 ^ 64) / b ≢ o / b) × (b ≤ o % b + c)
last_block b o c pos inside fits =
    let whole = div-add-mod' o b in
    let e = (o + c - 1) / b in
    let unwrapped : (o + (c + 2 ^ 64 - 1)) % 2 ^ 64 ≡ o + c - 1 = omega (arith, whole) in
    let same : ((o + (c + 2 ^ 64 - 1)) % 2 ^ 64) / b ≡ e = ap (λ x. x / b) unwrapped in
    let reached : o / b ≤ e = (le-div_iff_mul-le pos).1 (omega (arith, whole)) in
    elim (dec_lt (o / b) e) [
      | yes more ↦
          let beyond : (o / b + 1) * b ≤ o + c - 1 =
            (le-div_iff_mul-le pos).0 (omega (arith, more)) in
          inr (
            omega (arith, same, more),
            omega (arith, beyond, whole, add-mul (o / b) 1 b, one-mul b),
          )
      | no end ↦
          let at : e ≡ o / b = omega (arith, reached, end) in
          let bound : o + c - 1 < e * b + b = lt-div-mul-add pos in
          let there : e * b ≡ o / b * b = ap (λ x. x * b) at in
          inl (same ∙ at, omega (arith, bound, there, whole))
    ]

-- What the part before the first block boundary comes to.
-- The bytes that the first block gives.
first_size :
    (b offset end : ℕ) (p : Place)
    → 0 < offset % b
    → 0 < b
    → offset + p.count < 2 ^ 64
    → p.start ≡ offset / b
    → end ≡ ((offset + (p.count + 2 ^ 64 - 1)) % 2 ^ 64) / b
    → (size : ℕ) × ((if p.start == end then p.count else b - offset % b) ≡ size)
      × (size ≤ p.count)
      × (offset % b + size ≤ b)
      × ((p.count ≡ size) ⊎ (offset % b + size ≡ b))
first_size b offset end p inside pos fits es ee =
    elim (last_block b offset p.count pos inside fits) [
      | inl (same, room) ↦
          let at : (p.start == end) ≡ true = (==_iff p.start end).1 (es ∙ sym same ∙ sym ee) in
          (p.count, rw at refl, omega arith, room, inl refl)
      | inr (differ, room) ↦
          let apart : p.start ≢ end = omega (arith, es, ee, differ) in
          let at : (p.start == end) ≡ false = ground (arith, apart) in
          let small = mod-lt offset pos in
          (
            b - offset % b,
            rw at refl,
            omega (arith, room),
            omega (arith, small),
            inr (omega (arith, small)),
          )
    ]

first_block :
    (disk : Disk) (content : ℕ → ℕ) (offset end : ℕ) (p : Place)
    → IsBacked disk content
    → offset + p.count ≤ disk.blocks * disk.block_size
    → p.start ≡ offset / disk.block_size
    → (size : ℕ)
    → (if p.start == end then p.count else disk.block_size - offset % disk.block_size) ≡ size
    → size ≤ p.count
    → offset % disk.block_size + size ≤ disk.block_size
    → (p.count ≡ size) ⊎ (offset % disk.block_size + size ≡ disk.block_size)
    → (offset % disk.block_size == 0) ≡ false
    → (q : Place) × (read_first disk offset end p
        ≡ fine (slice content offset (p.count - q.count), q))
      × (q.count ≤ p.count)
      × ((q.count ≡ 0) ⊎ (position disk q + q.count ≡ offset + p.count))
unfolding read_first
first_block disk content offset end p backed inside es size e le room rest h =
    let b = disk.block_size in
    let whole = div-add-mod' offset b in
    let some_inside : 0 < offset % b = ground (arith, h) in
    let position_of : position disk p ≡ offset / b * b = ap (λ x. x * b) es in
    let below : p.start * b < disk.blocks * b =
      omega (arith, inside, whole, position_of, some_inside) in
    let fits : p.start + 1 ≤ disk.blocks = omega (arith, lt_of_mul-lt-mul_right b below) in
    let small : (p.start + 1) % 2 ^ 64 ≡ p.start + 1 =
      omega (arith, fits, below_blocks b disk.blocks backed.0, backed.1) in
    let next : (p.start + 1) % 2 ^ 64 * b ≡ p.start * b + b =
      ap (λ s. s * b) small ∙ add-mul p.start 1 b ∙ ap (λ x. p.start * b + x) (one-mul b) in
    let left : p.count - (p.count - size) ≡ size = omega (arith, le) in
    let at : position disk p + offset % b ≡ offset = omega (arith, whole, position_of) in
    let cut : take size (drop (offset % b) (slice content (position disk p) (1 * b)))
        ≡ slice content offset size =
      ap (take size)
        (drop-slice content (position disk p) (offset % b) (1 * b) (omega (arith, room, one-mul b)))
      ∙ take-slice content (position disk p + offset % b) size (1 * b - offset % b)
          (omega (arith, room, one-mul b))
      ∙ ap (λ a. slice content a size) at in
    (
      advance p size 1,
      rw h (
          rw (backed.2 1 p.start fits) (rw e (rw left (ap (λ t. fine (t, advance p size 1)) cut)))),
      omega arith,
      elim rest [
        | inl k ↦ inl (omega (arith, k))
        | inr k ↦ inr (omega (arith, next, k, whole, position_of, le))
      ],
    )

pub read_first-Reads :
    (disk : Disk) (content : ℕ → ℕ) (offset end : ℕ) (p : Place)
    → IsBacked disk content
    → offset + p.count ≤ disk.blocks * disk.block_size
    → p.start ≡ offset / disk.block_size
    → end ≡ ((offset + (p.count + 2 ^ 64 - 1)) % 2 ^ 64) / disk.block_size
    → (q : Place) × (read_first disk offset end p
        ≡ fine (slice content offset (p.count - q.count), q))
      × (q.count ≤ p.count)
      × ((q.count ≡ 0) ⊎ (position disk q + q.count ≡ offset + p.count))
unfolding read_first
read_first-Reads disk content offset end p backed inside es ee =
    let b = disk.block_size in
    let whole = div-add-mod' offset b in
    let position_of : position disk p ≡ offset / b * b = ap (λ x. x * b) es in
    elim (Bool-cases (offset % b == 0)) [
      | inl h ↦
          let nothing : p.count - p.count ≡ 0 = omega arith in
          let none_inside : offset % b ≡ 0 = ground (arith, h) in
          (
            p,
            rw h (rw nothing refl),
            omega arith,
            inr (omega (arith, position_of, whole, none_inside)),
          )
      | inr h ↦
          let some_inside : 0 < offset % b = ground (arith, h) in
          let (size, e, le, room, rest) =
            first_size b offset end p some_inside backed.0 (omega (arith, inside, backed.1)) es
              ee in
          first_block disk content offset end p backed inside es size e le room rest h
    ]
