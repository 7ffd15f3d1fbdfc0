-- ===== src/Disk/Mbr.antt =====
-- MBR partition tables, source/partition/mbr.c. The callback is add_partition, which a table's walk does
-- not depend on: the calls are listed, in their order.
pub mod Laws
use kboot.Base.{
  ℕ, zero, suc, ◌+◌, ◌-◌, ◌*◌, ◌%◌, ◌^◌, List, [], ◌∷◌, ◌++◌, Option, none, some, Bool, true, false,
  ltb, leb, ◌==◌, ◌&&◌, ◌||◌, not, if◌then◌else◌,
}
use kboot.Base.Lists.{drop}
use kboot.CString.{Bytes}
use kboot.Disk.{Result, fine, failed, out_of_fuel, ◌>>=◌, Disk, device_read}

-- The byte at an offset of a buffer, 0 behind its end (which no offset below reaches).
abbrev pub byte_at : Bytes → ℕ → ℕ
byte_at [] i = 0
byte_at (b ∷ bytes) zero = b
byte_at (b ∷ bytes) (suc i) = byte_at bytes i

abbrev pub le16 : Bytes → ℕ → ℕ
le16 bytes i = byte_at bytes i + 2 ^ 8 * byte_at bytes (i + 1)

abbrev pub le32 : Bytes → ℕ → ℕ
le32 bytes i = le16 bytes i + 2 ^ 16 * le16 bytes (i + 2)

abbrev pub le64 : Bytes → ℕ → ℕ
le64 bytes i = le32 bytes i + 2 ^ 32 * le32 bytes (i + 4)

-- mbr_partition_t, as far as it is used.
pub record MbrPartition : Type 0 where
  pub bootable : ℕ
  pub kind : ℕ
  pub start_lba : ℕ
  pub num_sectors : ℕ

-- mbr_t: the table's four entries and the signature.
pub record MbrTable : Type 0 where
  pub first : MbrPartition
  pub second : MbrPartition
  pub third : MbrPartition
  pub fourth : MbrPartition
  pub signature : ℕ

abbrev pub mbr_signature : ℕ
mbr_signature = 0xaa55

abbrev pub mbr_partition_type_gpt : ℕ
mbr_partition_type_gpt = 0xee

abbrev pub partition_at : Bytes → ℕ → MbrPartition
partition_at bytes i = record {
  bootable = byte_at bytes i;
  kind = byte_at bytes (i + 4);
  start_lba = le32 bytes (i + 8);
  num_sectors = le32 bytes (i + 12);
}

unfoldable pub table_of : Bytes → MbrTable
table_of bytes = record {
  first = partition_at bytes 446;
  second = partition_at bytes 462;
  third = partition_at bytes 478;
  fourth = partition_at bytes 494;
  signature = le16 bytes 510;
}

-- read_mbr into a buffer at `buf`; the 512 bytes of a table.
unfoldable pub read_mbr : Disk → ℕ → ℕ → Result MbrTable
read_mbr disk buf lba =
    device_read disk buf 512 ((lba * disk.block_size) % 2 ^ 64) >>= λ bytes. fine (table_of bytes)

-- start_lba + num_sectors is a sum of 32 bits.
unfoldable pub is_valid : Disk → MbrPartition → Bool
is_valid disk p =
    not (p.kind == 0)
    && (p.bootable == 0 || p.bootable == 0x80)
    && not (p.start_lba == 0)
    && ltb p.start_lba disk.blocks
    && leb ((p.start_lba + p.num_sectors) % 2 ^ 32) disk.blocks

abbrev pub is_extended : MbrPartition → Bool
is_extended p = p.kind == 0x5 || p.kind == 0xf || p.kind == 0x85

-- A call of the callback.
pub record Call : Type 0 where
  pub id : ℕ
  pub lba : ℕ
  pub blocks : ℕ

-- A partition moved by a base.
abbrev pub moved : ℕ → MbrPartition → MbrPartition
moved base p = record p { start_lba = (p.start_lba + base) % 2 ^ 32 }

-- The next EBR, or 0 to end the loop.
abbrev pub next_ebr : Disk → ℕ → ℕ → MbrPartition → ℕ
next_ebr disk lba curr p =
    if is_valid disk (moved lba p) && is_extended p && ltb curr (moved lba p).start_lba
    then (moved lba p).start_lba
    else 0

abbrev pub logical : Disk → ℕ → ℕ → MbrPartition → List Call
logical disk i curr p =
    if is_valid disk (moved curr p)
    then record { id = i % 2 ^ 8; lba = (moved curr p).start_lba; blocks = p.num_sectors } ∷ []
    else []

-- The number of the next logical partition.
abbrev pub next_id : Disk → ℕ → ℕ → MbrPartition → ℕ
next_id disk i curr p = if is_valid disk (moved curr p) then i + 1 else i

-- A round of handle_extended on what was read; `more` is the loop from the next EBR on.
abbrev pub extended_round :
    Disk → ℕ → ℕ → ℕ → (ℕ → ℕ → Result (List Call)) → Result MbrTable → Result (List Call)
extended_round disk lba i curr more (failed s) = fine []
extended_round disk lba i curr more out_of_fuel = out_of_fuel
extended_round disk lba i curr more (fine ebr) =
    if not (ebr.signature == mbr_signature)
    then fine []
    else more (next_id disk i curr ebr.first) (next_ebr disk lba curr ebr.second) >>= λ calls.
        fine (logical disk i curr ebr.first ++ calls)

-- The loop of handle_extended at an EBR, the logical partitions being numbered from `i` on.
unfoldable pub extended_from : ℕ → Disk → ℕ → ℕ → ℕ → ℕ → Result (List Call)
extended_from zero disk buf lba i curr = out_of_fuel
extended_from (suc f) disk buf lba i curr =
    let round =
      extended_round disk lba i curr (extended_from f disk buf lba) (read_mbr disk buf curr) in
    if curr == 0 then fine [] else round

-- An EBR lies behind the one before it, so 2 ^ 32 rounds are enough.
unfoldable pub handle_extended : Disk → ℕ → ℕ → Result (List Call)
handle_extended disk buf lba = extended_from (2 ^ 32 + 1) disk buf lba 4 lba

-- A primary entry, and whether an extended partition was seen so far; `more` is the loop from there on.
abbrev pub primary :
    Disk → ℕ → ℕ → MbrPartition → Bool → (Bool → Result (List Call)) → Result (List Call)
primary disk buf i p seen more =
    if not (is_valid disk p)
    then more seen
    else if is_extended p
    then (if seen
        then more seen
        else handle_extended disk buf p.start_lba >>= λ calls.
            more true >>= λ rest. fine (calls ++ rest))
    else more seen >>= λ rest.
        fine (record { id = i; lba = p.start_lba; blocks = p.num_sectors } ∷ rest)

abbrev pub primaries : Disk → ℕ → MbrTable → Result (List Call)
primaries disk buf mbr = primary disk buf 0 mbr.first false λ seen1.
    primary disk buf 1 mbr.second seen1 λ seen2.
      primary disk buf 2 mbr.third seen2 λ seen3. primary disk buf 3 mbr.fourth seen3 λ _. fine []

-- `none` where there is no such table.
abbrev pub iterate_table : Disk → ℕ → Result MbrTable → Result (Option (List Call))
iterate_table disk buf (failed s) = fine none
iterate_table disk buf out_of_fuel = out_of_fuel
iterate_table disk buf (fine mbr) =
    if not (mbr.signature == mbr_signature) || mbr.first.kind == mbr_partition_type_gpt
    then fine none
    else primaries disk buf mbr >>= λ calls. fine (some calls)

-- The buffers of the table and of the EBRs are taken to be at one address, which does not matter.
unfoldable pub mbr_partition_iterate : Disk → ℕ → Result (Option (List Call))
mbr_partition_iterate disk buf = iterate_table disk buf (read_mbr disk buf 0)
