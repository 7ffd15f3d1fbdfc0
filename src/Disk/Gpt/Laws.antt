-- ===== src/Disk/Gpt/Laws.antt =====
-- The walk over a GPT ends, or writes past its buffer; what it reports lies on the disk unless a sum wraps.
use kboot.Base.{
  ℕ, zero, suc, ◌+◌, ◌*◌, ◌%◌, ◌^◌, ◌≤◌, ◌<◌, ◌≡◌, refl, sym, ◌∙◌, List, [], ◌++◌, Bool, true,
  false, ltb, ◌==◌, Bool-cases, ◌⊎◌, inl, inr, All, All-append, arith,
}
use kboot.Base.Outcome.{Outcome, done, stop, undefined}
use kboot.CString.{Bytes}
use kboot.Disk.{Result, fine, Disk, device_read}
use mathlib.Core.Path.{subst}
use kboot.Base.{ltb→lt, zero, suc}
use kboot.Base.Lists.{drop}
use kboot.Disk.Ends.{Ends, succeeds, fails, DriverEnds, device_read-Ends}
use kboot.Disk.Gpt.{is_outside, is_unused, start_of, count_of}
use kboot.Disk.Slices.{slice}
use kboot.Disk.Blocks.{IsBacked}
use kboot.Disk.Read.{disk_device_read_lem}
use kboot.Disk.Mbr.{Call}
use kboot.Disk.Gpt.{
  GptHeader, header_of, is_protective, entry_calls, call_of, add_calls, gpt_round, gpt_entries,
  gpt_with_header, gpt_partition_iterate, gpt_header_signature,
}

-- A partition that starts on the disk, and ends on it unless the end wraps.
abbrev pub IsListed : Disk → Call → Type 0
IsListed disk c =
    (c.lba < disk.blocks) × (c.lba + c.blocks < 2 ^ 64 → c.lba + c.blocks ≤ disk.blocks)

-- A walk ends with partitions that are on the disk, or with undefined behaviour where an entry does not fit
-- the buffer.
abbrev pub Walks : Disk → ℕ → Outcome (List Call × Bool) → Type 0
Walks disk entry_size o =
    ((calls : List Call) × (found : Bool) × (o ≡ done (calls, found)) × All (IsListed disk) calls)
    ⊎ ((o ≡ stop undefined) × (disk.block_size < entry_size))

call_of-Listed : (disk : Disk) (i lba count : ℕ) → All (IsListed disk) (call_of disk i lba count)
call_of-Listed disk i lba count = elim (Bool-cases (is_outside disk lba count)) [
  | inl out ↦ rw out tt
  | inr inside ↦ rw inside ((ground (arith, inside), ground (arith, inside)), tt)
]

entry_calls-Listed :
    (disk : Disk) (i : ℕ) (entry : Bytes) → All (IsListed disk) (entry_calls disk i entry)
unfolding entry_calls
entry_calls-Listed disk i entry = elim (Bool-cases (is_unused entry)) [
  | inl unused ↦ rw unused tt
  | inr used ↦ rw used (call_of-Listed disk i (start_of entry) (count_of entry))
]

add_calls-Walks :
    (disk : Disk) (size : ℕ) (calls : List Call) (o : Outcome (List Call × Bool))
    → All (IsListed disk) calls
    → Walks disk size o
    → Walks disk size (add_calls calls o)
add_calls-Walks disk size calls o h (inl (rest, found, run, all)) =
    inl (calls ++ rest, found, rw run refl, All-append (IsListed disk) calls rest h all)
add_calls-Walks disk size calls o h (inr (run, big)) = inr (rw run refl, big)

gpt_round-Walks :
    (disk : Disk) (size i : ℕ) (buf : Bytes) (more : Bytes → Outcome (List Call × Bool))
    (r : Result Bytes)
    → Ends r
    → ((b : Bytes) → Walks disk size (more b))
    → Walks disk size (gpt_round disk size i buf more r)
gpt_round-Walks disk size i buf more _ fails h = inl ([], false, refl, tt)
gpt_round-Walks disk size i buf more _ (succeeds {a = bytes}) h =
    elim (Bool-cases (ltb disk.block_size size)) [
      | inl big ↦ inr (rw big refl, ltb→lt _ _ big)
      | inr small ↦
          let entry = bytes ++ drop size buf in
          subst (Walks disk size) (sym (rw small refl)) (
            add_calls-Walks disk size (entry_calls disk i entry) (more entry)
              (entry_calls-Listed disk i entry) (h entry))
    ]

gpt_entries-Walks :
    (n : ℕ) (disk : Disk) (address size i offset : ℕ) (buf : Bytes)
    → 0 < disk.block_size
    → DriverEnds disk
    → Walks disk size (gpt_entries n disk address size i offset buf)
unfolding gpt_entries
gpt_entries-Walks zero disk address size i offset buf pos driver = inl ([], true, refl, tt)
gpt_entries-Walks (suc n) disk address size i offset buf pos driver =
    gpt_round-Walks disk size i buf _ _ (device_read-Ends disk address size offset pos driver)
      (λ b. gpt_entries-Walks n disk address size (i + 1) ((offset + size) % 2 ^ 64) b pos driver)

-- A read that the disk holds, of which the sum does not wrap.
read_inside :
    (disk : Disk) (content : ℕ → ℕ) (buf count offset : ℕ)
    → IsBacked disk content
    → offset + count ≤ disk.blocks * disk.block_size
    → device_read disk buf count offset ≡ fine (slice content offset count)
read_inside disk content buf zero offset backed inside = refl
read_inside disk content buf (suc n) offset backed inside =
    let some : (suc n == 0) ≡ false = ground arith in
    let room : offset + suc n < 2 ^ 64 = omega (arith, backed.1, inside) in
    let holds : ltb (disk.blocks * disk.block_size) (offset + suc n) ≡ false =
      ground (arith, inside) in
    rw some (disk_device_read_lem disk content buf (suc n) offset backed room ∙ rw holds refl)

-- The walk after the two reads before the entries.
gpt_headed :
    (disk : Disk) (content : ℕ → ℕ) (address : ℕ)
    → IsBacked disk content
    → disk.block_size + disk.block_size ≤ disk.blocks * disk.block_size
    → (gpt_partition_iterate disk address ≡ done ([], false))
      ⊎ (gpt_partition_iterate disk address
          ≡ gpt_with_header disk address (fine (slice content disk.block_size disk.block_size)))
unfolding gpt_partition_iterate
gpt_headed disk content address backed room =
    let b = disk.block_size in
    let first = read_inside disk content address b 0 backed (omega (arith, room)) in
    let second = read_inside disk content address b b backed room in
    elim (Bool-cases (is_protective (slice content 0 b))) [
      | inl protective ↦ inr (rw first (rw protective (rw second refl)))
      | inr other ↦ inl (rw first (rw other refl))
    ]

-- On a disk of two blocks or more that holds contents, where the driver's reads succeed or fail and the entries
-- of the header fit a block, the walk over the table ends with partitions that start on the disk, and end on it
-- unless the sum of the first block and the number of blocks exceeds 64 bits.
pub gpt_partition_iterate_lem :
    (disk : Disk) (content : ℕ → ℕ) (address : ℕ)
    → IsBacked disk content
    → DriverEnds disk
    → disk.block_size + disk.block_size ≤ disk.blocks * disk.block_size
    → (header_of (slice content disk.block_size disk.block_size)).partition_entry_size
      ≤ disk.block_size
    → (calls : List Call) × (found : Bool) × (gpt_partition_iterate disk address
        ≡ done (calls, found))
      × All (IsListed disk) calls
gpt_partition_iterate_lem disk content address backed driver room fits =
    let header = header_of (slice content disk.block_size disk.block_size) in
    elim (gpt_headed disk content address backed room) [
      | inl nothing ↦ ([], false, nothing, tt)
      | inr headed ↦ elim (Bool-cases (header.signature == gpt_header_signature)) [
        | inl signed ↦
            elim (gpt_entries-Walks header.num_partition_entries disk address
              header.partition_entry_size 0
              ((header.partition_entry_lba * disk.block_size) % 2 ^ 64)
              (slice content disk.block_size disk.block_size) backed.0 driver) [
                | inl (calls, found, run, all) ↦ (calls, found, rw headed (rw signed run), all)
                | inr (_, big) ↦ absurd (omega (arith, big, fits))
              ]
        | inr other ↦ ([], false, rw headed (rw other refl), tt)
      ]
    ]

-- The first entry is read before its size is compared with that of the buffer.
gpt_entries-undefined :
    (n : ℕ) (disk : Disk) (content : ℕ → ℕ) (address size i offset : ℕ) (buf : Bytes)
    → IsBacked disk content
    → 0 < n
    → disk.block_size < size
    → offset + size ≤ disk.blocks * disk.block_size
    → gpt_entries n disk address size i offset buf ≡ stop undefined
unfolding gpt_entries
gpt_entries-undefined zero disk content address size i offset buf backed pos big fits =
    absurd (omega arith)
gpt_entries-undefined (suc n) disk content address size i offset buf backed pos big fits =
    let long : ltb disk.block_size size ≡ true = ground (arith, big) in
    rw (read_inside disk content address size offset backed fits) (rw long refl)

-- On a disk that holds contents, with a protective MBR in the first block and a signed header in the second, a
-- table whose entries are longer than a block makes the walk write past its buffer of a block, if there is an
-- entry and the disk holds the first one.
pub gpt_partition_iterate-undefined :
    (disk : Disk) (content : ℕ → ℕ) (address : ℕ) (header : GptHeader)
    → IsBacked disk content
    → disk.block_size + disk.block_size ≤ disk.blocks * disk.block_size
    → is_protective (slice content 0 disk.block_size) ≡ true
    → header_of (slice content disk.block_size disk.block_size) ≡ header
    → header.signature ≡ gpt_header_signature
    → 0 < header.num_partition_entries
    → disk.block_size < header.partition_entry_size
    → header.partition_entry_lba * disk.block_size + header.partition_entry_size
      ≤ disk.blocks * disk.block_size
    → gpt_partition_iterate disk address ≡ stop undefined
unfolding gpt_partition_iterate
gpt_partition_iterate-undefined disk content address header backed room protective is signed
      some_entry big fits =
    let b = disk.block_size in
    let first = read_inside disk content address b 0 backed (omega (arith, room)) in
    let second = read_inside disk content address b b backed room in
    let same : (header.signature == gpt_header_signature) ≡ true = ground (arith, signed) in
    let offset : (header.partition_entry_lba * b) % 2 ^ 64 ≡ header.partition_entry_lba * b =
      omega (arith, fits, backed.1) in
    rw first (
      rw protective (
        rw second (
          rw is (
            rw same (
              rw offset (
                gpt_entries-undefined header.num_partition_entries disk content address
                  header.partition_entry_size 0 (header.partition_entry_lba * b) _ backed some_entry
                  big fits))))))
