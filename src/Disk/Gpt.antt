-- ===== src/Disk/Gpt.antt =====
-- GPT partition tables, source/partition/gpt.c. One buffer of a block holds the MBR, the header and each entry
-- in turn; the calls of the callback are listed.
pub mod Laws
use kboot.Base.{
  ℕ, zero, suc, ◌+◌, ◌-◌, ◌*◌, ◌%◌, ◌^◌, List, [], ◌∷◌, ◌++◌, Bool, true, false, ltb, leb, ◌==◌,
  ◌&&◌, ◌||◌, not, if◌then◌else◌,
}
use kboot.Base.Lists.{drop}
use kboot.Base.Outcome.{Outcome, done, stop, undefined, endless}
use kboot.CString.{Bytes}
use kboot.Disk.{Result, fine, failed, out_of_fuel, Disk, device_read}
use kboot.Disk.Mbr.{byte_at, le16, le32, le64, Call, mbr_signature, mbr_partition_type_gpt}

abbrev pub gpt_header_signature : ℕ
gpt_header_signature = 0x5452415020494645

-- What is used of gpt_header_t.
pub record GptHeader : Type 0 where
  pub signature : ℕ
  pub partition_entry_lba : ℕ
  pub num_partition_entries : ℕ
  pub partition_entry_size : ℕ

unfoldable pub header_of : Bytes → GptHeader
header_of buf = record {
  signature = le64 buf 0;
  partition_entry_lba = le64 buf 72;
  num_partition_entries = le32 buf 80;
  partition_entry_size = le32 buf 84;
}

-- The protective MBR.
unfoldable pub is_protective : Bytes → Bool
is_protective buf = le16 buf 510 == mbr_signature && byte_at buf 450 == mbr_partition_type_gpt

-- memcmp of the type GUID with zero_guid.
unfoldable pub is_unused : Bytes → Bool
is_unused entry = le64 entry 0 == 0 && le64 entry 8 == 0

unfoldable pub start_of : Bytes → ℕ
start_of entry = le64 entry 32

unfoldable pub count_of : Bytes → ℕ
count_of entry = (le64 entry 40 + 2 ^ 64 - le64 entry 32 + 1) % 2 ^ 64

-- Both tests on the range of a partition; the sum can wrap.
abbrev pub is_outside : Disk → ℕ → ℕ → Bool
is_outside disk lba count = leb disk.blocks lba || ltb disk.blocks ((lba + count) % 2 ^ 64)

-- The call for an entry, if there is one.
abbrev pub call_of : Disk → ℕ → ℕ → ℕ → List Call
call_of disk i lba count =
    if is_outside disk lba count
    then []
    else record { id = i % 2 ^ 8; lba = lba; blocks = count } ∷ []

unfoldable pub entry_calls : Disk → ℕ → Bytes → List Call
entry_calls disk i entry =
    if is_unused entry then [] else call_of disk i (start_of entry) (count_of entry)

abbrev pub add_calls : List Call → Outcome (List Call × Bool) → Outcome (List Call × Bool)
add_calls calls (done (rest, found)) = done (calls ++ rest, found)
add_calls calls (stop e) = stop e

-- The buffer after a read into it, which must fit a block; `more` is the rest of the loop.
abbrev pub gpt_round :
    Disk
    → ℕ
    → ℕ
    → Bytes
    → (Bytes → Outcome (List Call × Bool))
    → Result Bytes
    → Outcome (List Call × Bool)
gpt_round disk entry_size i buf more (failed s) = done ([], false)
gpt_round disk entry_size i buf more out_of_fuel = stop endless
gpt_round disk entry_size i buf more (fine bytes) =
    if ltb disk.block_size entry_size
    then stop undefined
    else add_calls (entry_calls disk i (bytes ++ drop entry_size buf))
        (more (bytes ++ drop entry_size buf))

-- The loop over the entries, with the number that is left; `address` is that of the buffer.
unfoldable pub gpt_entries : ℕ → Disk → ℕ → ℕ → ℕ → ℕ → Bytes → Outcome (List Call × Bool)
gpt_entries zero disk address entry_size i offset buf = done ([], true)
gpt_entries (suc n) disk address entry_size i offset buf =
    gpt_round disk entry_size i buf
      (gpt_entries n disk address entry_size (i + 1) ((offset + entry_size) % 2 ^ 64))
      (device_read disk address entry_size offset)

abbrev pub gpt_with_header : Disk → ℕ → Result Bytes → Outcome (List Call × Bool)
gpt_with_header disk address (failed s) = done ([], false)
gpt_with_header disk address out_of_fuel = stop endless
gpt_with_header disk address (fine buf) =
    if not ((header_of buf).signature == gpt_header_signature)
    then done ([], false)
    else gpt_entries (header_of buf).num_partition_entries disk address
        (header_of buf).partition_entry_size 0
        (((header_of buf).partition_entry_lba * disk.block_size) % 2 ^ 64) buf

abbrev pub gpt_with_mbr : Disk → ℕ → Result Bytes → Outcome (List Call × Bool)
gpt_with_mbr disk address (failed s) = done ([], false)
gpt_with_mbr disk address out_of_fuel = stop endless
gpt_with_mbr disk address (fine buf) =
    if not (is_protective buf)
    then done ([], false)
    else gpt_with_header disk address (device_read disk address disk.block_size disk.block_size)

-- The calls, and whether a table was found.
unfoldable pub gpt_partition_iterate : Disk → ℕ → Outcome (List Call × Bool)
gpt_partition_iterate disk address =
    gpt_with_mbr disk address (device_read disk address disk.block_size 0)
