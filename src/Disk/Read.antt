-- ===== src/Disk/Read.antt =====
-- A read through the blocks of a disk gives the bytes of its contents; so does a read of a partition.
use native.Mathlib.Nat.{add-mul, mul-le-mul_right}
use kboot.Base.{
  ℕ, suc, ◌+◌, ◌-◌, ◌*◌, ◌/◌, ◌%◌, ◌^◌, ◌≤◌, ◌<◌, ◌≡◌, refl, sym, ap, ◌∙◌, [], ◌++◌, true, ltb,
  ◌==◌, if◌then◌else◌, arith, Bool-cases, ==_iff, inl, inr, ◌⊎◌,
}
use kboot.CString.{Bytes}
use kboot.Disk.{
  fine, failed, ◌>>=◌, Disk, Place, read_full, read_last, disk_device_read, end_of_file,
  partition_read_blocks, add_partition,
}
use native.Mathlib.Nat.{zero-div}
use kboot.Base.{sym, ap, ◌∙◌, append-nil, leb_of_not_ltb, inl, inr, suc, arith, ==_iff}
use kboot.Disk.{add_partition, partition_read_blocks}
use kboot.Disk.Slices.{slice-shift, slice, slice-append}
use kboot.Disk.Blocks.{IsBacked, position, below_blocks, read_full-Reads, read_last-Reads}
use kboot.Disk.First.{read_first-Reads}

none_full :
    (disk : Disk) (p : Place)
    → p.count ≡ 0
    → read_full (p.count / disk.block_size + 1) disk p ≡ fine ([], p)
unfolding read_full
none_full disk p h =
    let fuel : p.count / disk.block_size + 1 ≡ suc (p.count / disk.block_size) = omega arith in
    let none : (p.count / disk.block_size == 0) ≡ true =
      (==_iff _ 0).1 (ap (λ c. c / disk.block_size) h ∙ zero-div disk.block_size) in
    rw fuel (rw none refl)

none_last : (disk : Disk) (p : Place) → p.count ≡ 0 → read_last disk p ≡ fine []
unfolding read_last
none_last disk p h = let none : (p.count == 0) ≡ true = (==_iff p.count 0).1 h in rw none refl

-- The parts after the first block.
after_first :
    (disk : Disk) (content : ℕ → ℕ) (offset count : ℕ) (first : Bytes) (p : Place)
    → IsBacked disk content
    → offset + count ≤ disk.blocks * disk.block_size
    → first ≡ slice content offset (count - p.count)
    → p.count ≤ count
    → (p.count ≡ 0) ⊎ (position disk p + p.count ≡ offset + count)
    → (read_full (p.count / disk.block_size + 1) disk p >>= λ (full, q).
        read_last disk q >>= λ rest. fine (first ++ (full ++ rest)))
      ≡ fine (slice content offset count)
after_first disk content offset count first p backed inside e le (inl none) =
    let whole : count - p.count ≡ count = omega (arith, none) in
    rw (none_full disk p none) (
      rw (none_last disk p none) (ap fine (append-nil first ∙ e ∙ ap (slice content offset) whole)))
after_first disk content offset count first p backed inside e le (inr at) =
    let (q, run, below, fewer, at') =
      read_full-Reads (p.count / disk.block_size + 1) disk content p backed
        (omega (arith, at, inside)) (omega arith) in
    let last = read_last-Reads disk content q backed (omega (arith, at', at, inside)) below in
    let here : position disk p ≡ offset + (count - p.count) = omega (arith, at, le) in
    let there : position disk q ≡ position disk p + (p.count - q.count) =
      omega (arith, at', fewer) in
    let rest : p.count - q.count + q.count ≡ p.count = omega (arith, fewer) in
    let whole : count - p.count + p.count ≡ count = omega (arith, le) in
    let tail : slice content (position disk p) (p.count - q.count)
          ++ slice content (position disk q) q.count
        ≡ slice content (offset + (count - p.count)) p.count =
      ap (λ a. slice content (position disk p) (p.count - q.count) ++ slice content a q.count) there
      ∙ slice-append content (position disk p) (p.count - q.count) q.count
      ∙ ap (slice content (position disk p)) rest
      ∙ ap (λ a. slice content a p.count) here in
    rw run (
      rw last (
        ap fine (
          ap (λ t. first ++ t) tail
          ∙ ap (λ t. t ++ slice content (offset + (count - p.count)) p.count) e
          ∙ slice-append content offset (count - p.count) p.count
          ∙ ap (slice content offset) whole)))

-- `disk_device_read`, on a disk whose blocks hold `content` and where no sum wraps, fails at the end of the
-- disk if the range goes beyond it, and gives the `count` bytes from `offset` on otherwise, whatever
-- the buffer's address.
pub disk_device_read_lem :
    (disk : Disk) (content : ℕ → ℕ) (buf count offset : ℕ)
    → IsBacked disk content
    → offset + count < 2 ^ 64
    → disk_device_read disk buf count offset ≡ (
        if ltb (disk.blocks * disk.block_size) (offset + count)
        then failed end_of_file
        else fine (slice content offset count))
unfolding disk_device_read
disk_device_read_lem disk content buf count offset backed fits =
    let size : (disk.blocks * disk.block_size) % 2 ^ 64 ≡ disk.blocks * disk.block_size =
      omega (arith, backed.1) in
    let sum : (offset + count) % 2 ^ 64 ≡ offset + count = omega (arith, fits) in
    elim (Bool-cases (ltb (disk.blocks * disk.block_size) (offset + count))) [
      | inl beyond ↦ rw size (rw sum (rw beyond refl))
      | inr inside ↦
          let within = leb_of_not_ltb _ _ inside in
          let end = ((offset + (count + 2 ^ 64 - 1)) % 2 ^ 64) / disk.block_size in
          let at : Place = record { buf = buf; count = count; start = offset / disk.block_size } in
          let (p, run, le, place) =
            read_first-Reads disk content offset end at backed within refl refl in
          rw size (
            rw sum (
              rw inside
                (rw run (after_first disk content offset count _ p backed within refl le place))))
    ]

-- A partition that lies on its parent is backed by the parent's contents from its first block on.
partition-IsBacked :
    (parent : Disk) (content : ℕ → ℕ) (lba blocks : ℕ)
    → IsBacked parent content
    → lba + blocks ≤ parent.blocks
    → IsBacked (add_partition parent lba blocks) (λ i. content (lba * parent.block_size + i))
unfolding partition_read_blocks
partition-IsBacked parent content lba blocks backed inside =
    let b = parent.block_size in
    let shorter : blocks * b ≤ parent.blocks * b = mul-le-mul_right b (omega (arith, inside)) in
    (
      backed.0,
      omega (arith, shorter, backed.1),
      λ count l h.
          let small : (l + lba) % 2 ^ 64 ≡ l + lba =
            omega (arith, h, inside, below_blocks b parent.blocks backed.0, backed.1) in
          let start : (l + lba) * b ≡ lba * b + l * b = omega (arith, add-mul l lba b) in
          ap (parent.read_blocks count) small
          ∙ backed.2 count (l + lba) (omega (arith, h, inside))
          ∙ ap (λ a. fine (slice content a (count * b))) start
          ∙ ap fine (sym (slice-shift content (lba * b) (l * b) (count * b))),
    )

-- A read of a partition that lies on its parent gives the parent's bytes from the partition's first
-- block on, and fails at the end of the partition if the range goes beyond it.
pub partition_read_lem :
    (parent : Disk) (content : ℕ → ℕ) (lba blocks buf count offset : ℕ)
    → IsBacked parent content
    → lba + blocks ≤ parent.blocks
    → offset + count < 2 ^ 64
    → disk_device_read (add_partition parent lba blocks) buf count offset ≡ (
        if ltb (blocks * parent.block_size) (offset + count)
        then failed end_of_file
        else fine (slice content (lba * parent.block_size + offset) count))
partition_read_lem parent content lba blocks buf count offset backed inside fits =
    disk_device_read_lem (add_partition parent lba blocks)
      (λ i. content (lba * parent.block_size + i)) buf count offset
      (partition-IsBacked parent content lba blocks backed inside) fits
    ∙ ap
        (λ t.
          if ltb (blocks * parent.block_size) (offset + count) then failed end_of_file else fine t)
        (slice-shift content (lba * parent.block_size) offset count)
