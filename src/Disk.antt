-- ===== src/Disk.antt =====
-- Disks, source/disk.c and source/include/disk.h: reading bytes through the blocks of a disk, and partitions.
-- The driver's read_blocks is a field of the disk. What a buffer holds after a failure is left out.
pub mod Slices
pub mod Blocks
pub mod First
pub mod Read
pub mod Ends
pub mod Image
pub mod Mbr
pub mod Gpt
mod Tests
use kboot.Base.{
  ℕ, zero, suc, ◌+◌, ◌-◌, ◌*◌, ◌/◌, ◌%◌, ◌^◌, List, [], ◌∷◌, ◌++◌, Bool, true, false, ltb, ◌==◌,
  if◌then◌else◌, length,
}
use kboot.Base.Lists.{take, drop}
use kboot.CString.{Bytes}

-- status_t.
pub data Status : Type 0 where
  success not_supported invalid_arg timed_out no_memory not_dir not_file not_found : Status
  unknown_fs corrupt_fs read_only end_of_file symlink_limit device_error : Status
  unknown_image malformed_image system_error : Status

-- What a read leaves in its buffer, or the status that it fails with. `out_of_fuel` has no counterpart.
pub data Result {ℓ} (A : Type ℓ) : Type ℓ where
  fine : A → Result A
  failed : Status → Result A
  out_of_fuel : Result A

infixl 5 ◌>>=◌
abbrev pub ◌>>=◌ {ℓ κ} : {A : Type ℓ} {B : Type κ} → Result A → (A → Result B) → Result B
fine a >>= f = f a
failed s >>= f = failed s
out_of_fuel >>= f = out_of_fuel

-- What is used of disk_device_t; read_blocks takes a number of blocks and the first of them.
pub record Disk : Type 0 where
  pub block_size : ℕ
  pub blocks : ℕ
  pub read_blocks : ℕ → ℕ → Result Bytes

-- The place of a transfer: the address in the buffer, the bytes that are left, the next block.
pub record Place : Type 0 where
  pub buf : ℕ
  pub count : ℕ
  pub start : ℕ

-- `chunk` goes to the buffer, and `blocks` blocks have been read.
abbrev pub advance : Place → ℕ → ℕ → Place
advance p size blocks = record {
  buf = p.buf + size;
  count = p.count - size;
  start = (p.start + blocks) % 2 ^ 64;
}

-- The first block, where the read starts inside it.
unfoldable pub read_first : Disk → ℕ → ℕ → Place → Result (Bytes × Place)
read_first disk offset end p =
    let inside = offset % disk.block_size in
    let size = if p.start == end then p.count else disk.block_size - inside in
    if inside == 0
    then fine ([], p)
    else disk.read_blocks 1 p.start >>= λ tmp. fine (take size (drop inside tmp), advance p size 1)

-- The blocks that a round of the loop reads: one where the buffer is not aligned.
abbrev pub round_size : Disk → Place → ℕ
round_size disk p = if p.buf % 8 == 0 then p.count / disk.block_size else 1

-- The loop over the full blocks.
unfoldable pub read_full : ℕ → Disk → Place → Result (Bytes × Place)
read_full zero disk p = out_of_fuel
read_full (suc f) disk p =
    let more = disk.read_blocks (round_size disk p) p.start >>= λ bytes.
    read_full f disk (advance p (round_size disk p * disk.block_size) (round_size disk p))
    >>= λ (rest, q). fine (bytes ++ rest, q) in
    if p.count / disk.block_size == 0 then fine ([], p) else more

unfoldable pub read_last : Disk → Place → Result Bytes
read_last disk p =
    if p.count == 0 then fine [] else disk.read_blocks 1 p.start >>= λ tmp. fine (take p.count tmp)

-- The bytes that end up in the buffer at address `buf`. The loop runs on the number of full blocks.
unfoldable pub disk_device_read : Disk → ℕ → ℕ → ℕ → Result Bytes
disk_device_read disk buf count offset =
    let start = offset / disk.block_size in
    let end = ((offset + (count + 2 ^ 64 - 1)) % 2 ^ 64) / disk.block_size in
    if ltb ((disk.blocks * disk.block_size) % 2 ^ 64) ((offset + count) % 2 ^ 64)
    then failed end_of_file
    else read_first disk offset end (record { buf = buf; count = count; start = start })
      >>= λ (first, p). read_full (p.count / disk.block_size + 1) disk p >>= λ (full, q).
          read_last disk q >>= λ rest. fine (first ++ (full ++ rest))

-- device_read of a disk, whose operations have a read.
abbrev pub device_read : Disk → ℕ → ℕ → ℕ → Result Bytes
device_read disk buf count offset =
    if count == 0 then fine [] else disk_device_read disk buf count offset

-- The blocks of a partition are blocks of its parent.
unfoldable pub partition_read_blocks : Disk → ℕ → ℕ → ℕ → Result Bytes
partition_read_blocks parent offset count lba = parent.read_blocks count ((lba + offset) % 2 ^ 64)

-- The device that add_partition makes of a parent, a first block and a number of blocks.
abbrev pub add_partition : Disk → ℕ → ℕ → Disk
add_partition parent lba blocks = record {
  block_size = parent.block_size;
  blocks = blocks;
  read_blocks = partition_read_blocks parent lba;
}
