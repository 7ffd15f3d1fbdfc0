-- ===== src/Disk/Tests.antt =====
-- Runs of disk reads and of the walks over partition tables, and instances of the theorems.
use kboot.Base.{
  ℕ, ◌*◌, ◌/◌, ◌%◌, ◌≡◌, refl, List, [], ◌∷◌, ◌++◌, none, some, Bool, true, ◌==◌, if◌then◌else◌,
  ◌⊎◌, inl, All, arith,
}
use kboot.Base.Outcome.{done, stop, undefined}
use kboot.Disk.{
  fine, failed, Disk, read_first, read_full, read_last, disk_device_read, end_of_file,
  add_partition,
}
use kboot.Disk.Slices.{slice}
use kboot.Disk.Blocks.{IsBacked}
use kboot.Disk.Read.{disk_device_read_lem, partition_read_lem}
use kboot.Disk.Ends.{succeeds}
use kboot.Disk.Image.{File, zeros, disk_image_read_blocks, disk_image_last_block}
use kboot.Disk.Mbr.{Call, table_of, is_valid, read_mbr, mbr_partition_iterate}
use kboot.Disk.Mbr.Laws.{IsReported, mbr_partition_iterate_lem, is_valid_wraps}
use kboot.Disk.Gpt.{
  GptHeader, header_of, is_protective, gpt_header_signature, gpt_partition_iterate, entry_calls,
  is_unused, start_of, count_of, gpt_entries,
}
use kboot.Disk.Gpt.Laws.{IsListed, gpt_partition_iterate_lem, gpt_partition_iterate-undefined}

-- A disk whose blocks hold the given contents.
abbrev plain : ℕ → ℕ → (ℕ → ℕ) → Disk
plain size blocks content = record {
  block_size = size;
  blocks = blocks;
  read_blocks = λ count lba. fine (slice content (lba * size) (count * size));
}

-- Each byte is its offset.
abbrev offsets : ℕ → ℕ
offsets i = i

abbrev small_disk : Disk
small_disk = plain 4 5 offsets

small_disk-IsBacked : IsBacked small_disk offsets
small_disk-IsBacked = (omega arith, omega arith, λ count lba h. refl)

read_across :
    disk_device_read small_disk 3 10 3 ≡ fine (3 ∷ 4 ∷ 5 ∷ 6 ∷ 7 ∷ 8 ∷ 9 ∷ 10 ∷ 11 ∷ 12 ∷ [])
unfolding disk_device_read read_first read_full read_last
read_across = refl

read_beyond : disk_device_read small_disk 0 10 11 ≡ failed end_of_file
unfolding disk_device_read
read_beyond = refl

disk_device_read_lem_example : disk_device_read small_disk 3 10 3 ≡ fine (slice offsets 3 10)
disk_device_read_lem_example =
    disk_device_read_lem small_disk offsets 3 10 3 small_disk-IsBacked (omega arith)

partition_read_lem_example :
    disk_device_read (add_partition small_disk 1 3) 8 6 2 ≡ fine (slice offsets 6 6)
partition_read_lem_example =
    partition_read_lem small_disk offsets 1 3 8 6 2 small_disk-IsBacked (omega arith) (omega arith)

abbrev short_file : File
short_file = record {
  is_regular = true;
  size = 7;
  read = λ count offset. fine (slice offsets offset count);
}

disk_image_last_block_example :
    disk_image_read_blocks 4 short_file 1 1 ≡ fine (slice offsets 4 1 ++ zeros 3)
disk_image_last_block_example =
    disk_image_last_block short_file offsets 4 1 3 (refl, omega arith, λ count offset. refl) refl
      (omega arith) (omega arith) (omega arith)

-- A partition of two blocks from block 1 on.
abbrev mbr_content : ℕ → ℕ
mbr_content i =
    if i == 446
    then 0x80
    else if i == 450
    then 0x83
    else if i == 454
    then 1
    else if i == 458
    then 2
    else if i == 510
    then 0x55
    else if i == 511
    then 0xaa
    else 0

abbrev mbr_disk : Disk
mbr_disk = plain 512 8 mbr_content

mbr_partitions :
    mbr_partition_iterate mbr_disk 0 ≡ fine (some (record { id = 0; lba = 1; blocks = 2 } ∷ []))
unfolding mbr_partition_iterate read_mbr table_of is_valid disk_device_read read_first read_full
    read_last
mbr_partitions = refl

mbr_partition_iterate_lem_example :
    (mbr_partition_iterate mbr_disk 0 ≡ fine none)
    ⊎ ((calls : List Call) × (mbr_partition_iterate mbr_disk 0 ≡ fine (some calls))
        × All (IsReported mbr_disk) calls)
mbr_partition_iterate_lem_example =
    mbr_partition_iterate_lem mbr_disk mbr_content 0 (omega arith, omega arith, λ count lba h. refl)
      (omega arith) (omega arith)

is_valid_wraps_example :
    is_valid mbr_disk
      (record { bootable = 0; kind = 0x83; start_lba = 2; num_sectors = 0xffffffff })
    ≡ true
is_valid_wraps_example =
    is_valid_wraps mbr_disk
      (record { bootable = 0; kind = 0x83; start_lba = 2; num_sectors = 0xffffffff }) (ground arith)
      (inl refl) (omega arith) (omega arith) (omega arith) (omega arith) (omega arith)

-- A table of one entry, whose length is `64 * size`, at block 2.
abbrev gpt_content : ℕ → ℕ → ℕ
gpt_content size i =
    if i == 450
    then 0xee
    else if i == 510
    then 0x55
    else if i == 511
    then 0xaa
    else if i == 512
    then 0x45
    else if i == 513
    then 0x46
    else if i == 514
    then 0x49
    else if i == 515
    then 0x20
    else if i == 516
    then 0x50
    else if i == 517
    then 0x41
    else if i == 518
    then 0x52
    else if i == 519
    then 0x54
    else if i == 584
    then 2
    else if i == 592
    then 1
    else if i == 596
    then size % 256
    else if i == 597
    then size / 256
    else if i == 1024
    then 7
    else if i == 1056
    then 3
    else if i == 1064
    then 4
    else 0

abbrev gpt_disk : ℕ → Disk
gpt_disk size = plain 512 8 (gpt_content size)

gpt_partitions :
    gpt_partition_iterate (gpt_disk 128) 0
    ≡ done (record { id = 0; lba = 3; blocks = 2 } ∷ [], true)
unfolding gpt_partition_iterate gpt_entries entry_calls is_unused start_of count_of header_of
    is_protective disk_device_read read_first read_full read_last
gpt_partitions = refl

gpt_partition_iterate_lem_example :
    (calls : List Call) × (found : Bool) × (gpt_partition_iterate (gpt_disk 128) 0
      ≡ done (calls, found))
    × All (IsListed (gpt_disk 128)) calls
unfolding header_of
gpt_partition_iterate_lem_example =
    gpt_partition_iterate_lem (gpt_disk 128) (gpt_content 128) 0
      (omega arith, omega arith, λ count lba h. refl) (λ count lba. succeeds) (omega arith)
      (omega arith)

abbrev long_header : GptHeader
long_header = record {
  signature = gpt_header_signature;
  partition_entry_lba = 2;
  num_partition_entries = 1;
  partition_entry_size = 1024;
}

long_header-protective : is_protective (slice (gpt_content 1024) 0 512) ≡ true
unfolding is_protective
long_header-protective = refl

long_header_read : header_of (slice (gpt_content 1024) 512 512) ≡ long_header
unfolding header_of
long_header_read = refl

gpt_partition_iterate-undefined_example : gpt_partition_iterate (gpt_disk 1024) 0 ≡ stop undefined
gpt_partition_iterate-undefined_example =
    gpt_partition_iterate-undefined (gpt_disk 1024) (gpt_content 1024) 0 long_header
      (omega arith, omega arith, λ count lba h. refl) (omega arith) long_header-protective
      long_header_read refl (omega arith) (omega arith) (omega arith)
