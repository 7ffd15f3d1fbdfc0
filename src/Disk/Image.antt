-- ===== src/Disk/Image.antt =====
-- Disk images, the second half of source/disk.c, over fs_read of source/fs.c.
use native.Mathlib.Nat.{one-mul}
use kboot.Base.{
  ℕ, zero, suc, ◌+◌, ◌-◌, ◌*◌, ◌/◌, ◌%◌, ◌^◌, ◌<◌, ◌≡◌, refl, ap, ◌∙◌, [], ◌∷◌, ◌++◌, Bool, true,
  false, ltb, ◌==◌, not, if◌then◌else◌, arith, Bool-cases, inl, inr,
}
use kboot.Base.Rounding.{round_up}
use kboot.CString.{Bytes}
use kboot.Disk.{Result, fine, failed, ◌>>=◌, Disk, not_file, end_of_file}
use kboot.Disk.Slices.{slice}

-- A file handle: whether it is a regular file, its size, and what reads it (the file system's read, or that of
-- a compressed file).
pub record File : Type 0 where
  pub is_regular : Bool
  pub size : ℕ
  pub read : ℕ → ℕ → Result Bytes

unfoldable pub fs_read : File → ℕ → ℕ → Result Bytes
fs_read file count offset =
    if not file.is_regular
    then failed not_file
    else if ltb file.size ((offset + count) % 2 ^ 64)
    then failed end_of_file
    else if count == 0
    then fine []
    else file.read count offset

abbrev pub zeros : ℕ → Bytes
zeros zero = []
zeros (suc n) = 0 ∷ zeros n

-- What disk_image_read_blocks takes off the end of the read.
abbrev pub padding : File → ℕ → ℕ → ℕ
padding file size offset =
    if ltb file.size ((offset + size) % 2 ^ 64) then (file.size + 2 ^ 64 - offset) % 2 ^ 64 else 0

unfoldable pub disk_image_read_blocks : ℕ → File → ℕ → ℕ → Result Bytes
disk_image_read_blocks block_size file count block =
    let size = (count * block_size) % 2 ^ 64 in
    let offset = (block * block_size) % 2 ^ 64 in
    let pad = padding file size offset in
    fs_read file ((size + 2 ^ 64 - pad) % 2 ^ 64) offset >>= λ bytes. fine (bytes ++ zeros pad)

-- The disk that disk_image_register makes of a file.
abbrev pub disk_image_register : ℕ → File → Disk
disk_image_register block_size file = record {
  block_size = block_size;
  blocks = round_up file.size block_size / block_size;
  read_blocks = disk_image_read_blocks block_size file;
}

-- Every range of the file is read, and is what the contents have there.
abbrev pub IsFile : File → (ℕ → ℕ) → Type 0
IsFile file content =
    (file.is_regular ≡ true)
    × (file.size < 2 ^ 64)
    × ((count offset : ℕ) → file.read count offset ≡ fine (slice content offset count))

fs_read-IsFile :
    (file : File) (content : ℕ → ℕ) (count offset : ℕ)
    → IsFile file content
    → offset + count < 2 ^ 64
    → fs_read file count offset ≡ (
        if ltb file.size (offset + count)
        then failed end_of_file
        else fine (slice content offset count))
unfolding fs_read
fs_read-IsFile file content count offset h fits =
    let sum : (offset + count) % 2 ^ 64 ≡ offset + count = omega (arith, fits) in
    rw h.0 (
      rw sum (
        ap (λ t. if ltb file.size (offset + count) then failed end_of_file else t) (nothing count)))
  where
    nothing :
        (n : ℕ) → (if n == 0 then fine [] else file.read n offset) ≡ fine (slice content offset n)
    nothing zero = refl
    nothing (suc n) = let some : (suc n == 0) ≡ false = ground arith in rw some (h.2 (suc n) offset)

-- The last block of an image that is no multiple of the block size, where `rest` bytes of the file are left: the
-- read fails if they are less than half a block; otherwise only the first `block_size - rest` of them are
-- read, and the other `rest` bytes of the block are 0.
pub disk_image_last_block :
    (file : File) (content : ℕ → ℕ) (block_size block rest : ℕ)
    → IsFile file content
    → file.size ≡ block * block_size + rest
    → 0 < rest
    → rest < block_size
    → block * block_size + block_size < 2 ^ 64
    → disk_image_read_blocks block_size file 1 block ≡ (
        if ltb (rest + rest) block_size
        then failed end_of_file
        else fine (slice content (block * block_size) (block_size - rest) ++ zeros rest))
unfolding disk_image_read_blocks
disk_image_last_block file content block_size block rest h size pos lt fits =
    let one : (1 * block_size) % 2 ^ 64 ≡ block_size = omega (arith, one-mul block_size, fits) in
    let offset : (block * block_size) % 2 ^ 64 ≡ block * block_size = omega (arith, fits) in
    let pad : padding file block_size (block * block_size) ≡ rest =
      ground (arith, size, fits, lt) in
    let left : (block_size + 2 ^ 64 - rest) % 2 ^ 64 ≡ block_size - rest =
      omega (arith, lt, fits) in
    rw one (
      rw offset (
        rw pad (
          rw left (
            ap (λ r. r >>= λ bytes. fine (bytes ++ zeros rest))
              (fs_read-IsFile file content (block_size - rest) (block * block_size) h
                (omega (arith, fits)))
            ∙ half))))
  where
    half :
        ((if ltb file.size (block * block_size + (block_size - rest))
            then failed end_of_file
            else fine (slice content (block * block_size) (block_size - rest)))
          >>= λ bytes. fine (bytes ++ zeros rest))
        ≡ (if ltb (rest + rest) block_size
            then failed end_of_file
            else fine (slice content (block * block_size) (block_size - rest) ++ zeros rest))
    half = elim (Bool-cases (ltb (rest + rest) block_size)) [
      | inl k ↦
          let k' : ltb file.size (block * block_size + (block_size - rest)) ≡ true =
            ground (arith, k, size, lt) in
          rw k (rw k' refl)
      | inr k ↦
          let k' : ltb file.size (block * block_size + (block_size - rest)) ≡ false =
            ground (arith, k, size, lt) in
          rw k (rw k' refl)
    ]
