-- ===== src/Disk/Ends.antt =====
-- Every read comes to an end, whatever range is asked for, if the driver's reads do.
use native.Mathlib.Nat.{mul-le-mul_right, div-mul-le_self}
use kboot.Base.{
  ℕ, zero, suc, ◌+◌, ◌-◌, ◌*◌, ◌/◌, ◌%◌, ◌^◌, ◌≤◌, ◌<◌, ◌≡◌, refl, [], Bool, true, false, ltb, ◌==◌,
  if◌then◌else◌, arith,
}
use kboot.Base.Lists.{take, drop}
use kboot.CString.{Bytes}
use kboot.Disk.{
  Status, Result, fine, failed, ◌>>=◌, Disk, Place, advance, round_size, read_first, read_full,
  read_last, disk_device_read, device_read,
}
use kboot.Disk.Blocks.{fewer, round_size-pos}

-- A success or a failure.
pub data Ends {A : Type 0} : Result A → Type 0 where
  succeeds : {a : A} → Ends (fine a)
  fails : {s : Status} → Ends (failed s)

Ends-bind :
    {A B : Type 0} {r : Result A} {f : A → Result B}
    → Ends r
    → ((a : A) → Ends (f a))
    → Ends (r >>= f)
Ends-bind (succeeds {a}) h = h a
Ends-bind fails h = fails

Ends-if :
    {A : Type 0} (b : Bool) {r r' : Result A}
    → ((b ≡ true) → Ends r)
    → ((b ≡ false) → Ends r')
    → Ends (if b then r else r')
Ends-if true h h' = h refl
Ends-if false h h' = h' refl

-- The driver's reads end.
abbrev pub DriverEnds : Disk → Type 0
DriverEnds disk = (count lba : ℕ) → Ends (disk.read_blocks count lba)

read_full-Ends :
    (f : ℕ) (disk : Disk) (p : Place)
    → 0 < disk.block_size
    → DriverEnds disk
    → p.count / disk.block_size < f
    → Ends (read_full f disk p)
unfolding read_full
read_full-Ends zero disk p pos driver lt = absurd (omega arith)
read_full-Ends (suc f) disk p pos driver lt =
    let b = disk.block_size in
    Ends-if (p.count / b == 0) (λ _. succeeds)
      (λ some_left.
        let n = round_size disk p in
        let (some, room) = round_size-pos disk p some_left in
        let size : n * b ≤ p.count =
          omega (arith, mul-le-mul_right b room, div-mul-le_self p.count b) in
        Ends-bind (driver n p.start) (λ bytes.
          Ends-bind
            (read_full-Ends f disk (advance p (n * b) n) pos driver
              (fewer b n p.count f pos some size lt))
            (λ _. succeeds)))

-- One block, read where it is needed.
block-Ends :
    {A : Type 0} (disk : Disk) (b : Bool) (lba : ℕ) (a : A) (f : Bytes → A)
    → DriverEnds disk
    → Ends (if b then fine a else disk.read_blocks 1 lba >>= λ tmp. fine (f tmp))
block-Ends disk b lba a f driver =
    Ends-if b {r = fine a} {r' = disk.read_blocks 1 lba >>= λ tmp. fine (f tmp)}
      (λ _. succeeds {a = a}) (λ _. Ends-bind (driver 1 lba) (λ tmp. succeeds {a = f tmp}))

read_first-Ends :
    (disk : Disk) (offset end : ℕ) (p : Place)
    → DriverEnds disk
    → Ends (read_first disk offset end p)
unfolding read_first
read_first-Ends disk offset end p driver =
    let inside = offset % disk.block_size in
    let size = if p.start == end then p.count else disk.block_size - inside in
    block-Ends disk (inside == 0) p.start ([], p)
      (λ tmp. (take size (drop inside tmp), advance p size 1)) driver

read_last-Ends : (disk : Disk) (p : Place) → DriverEnds disk → Ends (read_last disk p)
unfolding read_last
read_last-Ends disk p driver =
    block-Ends disk (p.count == 0) p.start [] (λ tmp. take p.count tmp) driver

disk_device_read-Ends :
    (disk : Disk) (buf count offset : ℕ)
    → 0 < disk.block_size
    → DriverEnds disk
    → Ends (disk_device_read disk buf count offset)
unfolding disk_device_read
disk_device_read-Ends disk buf count offset pos driver =
    let b = disk.block_size in
    let start = offset / b in
    let end = ((offset + (count + 2 ^ 64 - 1)) % 2 ^ 64) / b in
    Ends-if (ltb ((disk.blocks * b) % 2 ^ 64) ((offset + count) % 2 ^ 64)) (λ _. fails)
      λ _.
        Ends-bind
          (read_first-Ends disk offset end (record { buf = buf; count = count; start = start })
            driver)
          λ a.
            Ends-bind (read_full-Ends (a.1.count / b + 1) disk a.1 pos driver (omega arith))
              λ c. Ends-bind (read_last-Ends disk c.1 driver) (λ _. succeeds)

pub device_read-Ends :
    (disk : Disk) (buf count offset : ℕ)
    → 0 < disk.block_size
    → DriverEnds disk
    → Ends (device_read disk buf count offset)
device_read-Ends disk buf count offset pos driver =
    Ends-if (count == 0) (λ _. succeeds)
      (λ _. disk_device_read-Ends disk buf count offset pos driver)
