-- ===== src/Disk/Mbr/Laws.antt =====
-- The walk over an MBR table ends, and what it reports lies on the disk where no sum of 32 bits wraps.
use native.Mathlib.Nat.{add-mul, one-mul, mul-le-mul_right}
use kboot.Base.{
  ℕ, zero, suc, ◌+◌, ◌-◌, ◌*◌, ◌%◌, ◌^◌, ◌≤◌, ◌<◌, ◌≡◌, ◌≢◌, refl, List, [], ◌∷◌, ◌++◌, none, some,
  Bool, true, false, ltb, ◌==◌, ◌&&◌, ◌||◌, not, if◌then◌else◌, Bool-cases, ◌⊎◌, inl, inr, All,
  All-append, arith,
}
use kboot.Disk.{Status, Result, fine, failed, ◌>>=◌, Disk}
use kboot.Base.{ltb→lt}
use kboot.Disk.{end_of_file}
use kboot.Disk.Slices.{slice}
use kboot.Disk.Mbr.{table_of}
use kboot.Disk.Blocks.{IsBacked}
use kboot.Disk.Read.{disk_device_read_lem}
use kboot.Disk.Mbr.{
  MbrPartition, MbrTable, read_mbr, is_valid, is_extended, Call, moved, next_ebr, logical, next_id,
  extended_round, extended_from, handle_extended, primary, primaries, mbr_partition_type_gpt,
  mbr_partition_iterate, mbr_signature,
}

-- A partition that starts on the disk, and ends on it unless the end wraps.
abbrev pub IsReported : Disk → Call → Type 0
IsReported disk c =
    (0 < c.lba)
    × (c.lba < disk.blocks)
    × (c.lba + c.blocks < 2 ^ 32 → c.lba + c.blocks ≤ disk.blocks)

and_left : (a b : Bool) → (a && b) ≡ true → (a ≡ true) × (b ≡ true)
and_left true b h = (refl, h)
and_left false b h = ground arith

is_valid-Reported :
    (disk : Disk) (p : MbrPartition) (i : ℕ)
    → is_valid disk p ≡ true
    → IsReported disk (record { id = i; lba = p.start_lba; blocks = p.num_sectors })
unfolding is_valid
is_valid-Reported disk p i h = ground (arith, h)

-- An entry whose end wraps is valid, wherever it starts on the disk.
pub is_valid_wraps :
    (disk : Disk) (p : MbrPartition)
    → p.kind ≢ 0
    → (p.bootable ≡ 0) ⊎ (p.bootable ≡ 0x80)
    → 0 < p.start_lba
    → p.start_lba < disk.blocks
    → p.start_lba < 2 ^ 32
    → p.num_sectors < 2 ^ 32
    → 2 ^ 32 ≤ p.start_lba + p.num_sectors
    → is_valid disk p ≡ true
unfolding is_valid
is_valid_wraps disk p k b s lt small small' wraps =
    ground (arith, k, b, s, lt, small, small', wraps)

-- Reading a table succeeds or fails.
read_mbr-ends :
    (disk : Disk) (content : ℕ → ℕ) (buf lba : ℕ)
    → IsBacked disk content
    → 512 ≤ disk.block_size
    → lba < disk.blocks
    → ((t : MbrTable) × (read_mbr disk buf lba ≡ fine t))
      ⊎ ((s : Status) × (read_mbr disk buf lba ≡ failed s))
unfolding read_mbr
read_mbr-ends disk content buf lba backed big lt =
    let b = disk.block_size in
    let room : (lba + 1) * b ≤ disk.blocks * b = mul-le-mul_right b (omega (arith, lt)) in
    let fits : lba * b + 512 < 2 ^ 64 =
      omega (arith, room, add-mul lba 1 b, one-mul b, backed.1, big) in
    let offset : (lba * b) % 2 ^ 64 ≡ lba * b = omega (arith, fits) in
    let run = disk_device_read_lem disk content buf 512 (lba * b) backed fits in
    elim (Bool-cases (ltb (disk.blocks * b) (lba * b + 512))) [
      | inl beyond ↦ inr (end_of_file, rw offset (rw run (rw beyond refl)))
      | inr inside ↦
          inl (table_of (slice content (lba * b) 512), rw offset (rw run (rw inside refl)))
    ]

-- How far the loop of handle_extended still has to go.
abbrev distance : ℕ → ℕ
distance curr = if curr == 0 then 0 else 2 ^ 32 - curr + 1

distance-less :
    (curr next : ℕ) → curr ≢ 0 → curr < next → next < 2 ^ 32 → distance next < distance curr
distance-less curr next h lt small = ground (arith, h, lt, small)

distance-pos : (curr : ℕ) → curr ≢ 0 → 0 < distance curr
distance-pos curr h = ground (arith, h)

-- The next EBR ends the loop, or lies on the disk behind the one before.
next_ebr-distance :
    (disk : Disk) (lba curr : ℕ) (p : MbrPartition)
    → curr ≢ 0
    → curr < disk.blocks
    → (next_ebr disk lba curr p < disk.blocks)
      × (distance (next_ebr disk lba curr p) < distance curr)
next_ebr-distance disk lba curr p h lt =
    let q = moved lba p in
    elim (Bool-cases (is_valid disk q && is_extended p && ltb curr q.start_lba)) [
      | inl k ↦
          let (both, later) =
            and_left (is_valid disk q && is_extended p) (ltb curr q.start_lba) k in
          let (valid, _) = and_left (is_valid disk q) (is_extended p) both in
          let behind : curr < q.start_lba = ltb→lt curr q.start_lba later in
          let start = is_valid-Reported disk q 0 valid in
          let small : q.start_lba < 2 ^ 32 = omega arith in
          (rw k start.1, rw k (distance-less curr q.start_lba h behind small))
      | inr k ↦ (rw k (omega (arith, lt)), rw k (distance-pos curr h))
    ]

-- A list of calls is reached.
abbrev Reports : Disk → Result (List Call) → Type 0
Reports disk r = (calls : List Call) × (r ≡ fine calls) × All (IsReported disk) calls

logical-Reported :
    (disk : Disk) (i curr : ℕ) (p : MbrPartition) → All (IsReported disk) (logical disk i curr p)
logical-Reported disk i curr p = elim (Bool-cases (is_valid disk (moved curr p))) [
  | inl h ↦ rw h (is_valid-Reported disk (moved curr p) (i % 2 ^ 8) h, tt)
  | inr h ↦ rw h tt
]

prepend-Reports :
    (disk : Disk) (first : List Call) (r : Result (List Call))
    → All (IsReported disk) first
    → Reports disk r
    → Reports disk (r >>= λ calls. fine (first ++ calls))
prepend-Reports disk first r h (calls, run, all) =
    (first ++ calls, rw run refl, All-append (IsReported disk) first calls h all)

extended_round-Reports :
    (disk : Disk) (lba i curr : ℕ) (more : ℕ → ℕ → Result (List Call)) (t : MbrTable)
    → ((j : ℕ) → Reports disk (more j (next_ebr disk lba curr t.second)))
    → Reports disk (extended_round disk lba i curr more (fine t))
extended_round-Reports disk lba i curr more t h = elim (Bool-cases (t.signature == mbr_signature)) [
  | inl same ↦
      let (calls, run, all) =
        prepend-Reports disk (logical disk i curr t.first) _ (logical-Reported disk i curr t.first)
          (h (next_id disk i curr t.first)) in
      (calls, rw same run, all)
  | inr other ↦ ([], rw other refl, tt)
]

extended_from-Reports :
    (f : ℕ) (disk : Disk) (content : ℕ → ℕ) (buf lba i curr : ℕ)
    → IsBacked disk content
    → 512 ≤ disk.block_size
    → curr < disk.blocks
    → distance curr < f
    → Reports disk (extended_from f disk buf lba i curr)
unfolding extended_from
extended_from-Reports zero disk content buf lba i curr backed big lt enough = absurd (omega arith)
extended_from-Reports (suc f) disk content buf lba i curr backed big lt enough =
    elim (Bool-cases (curr == 0)) [
      | inl ended ↦ ([], rw ended refl, tt)
      | inr going ↦
          let nonzero : curr ≢ 0 = ground (arith, going) in
          elim (read_mbr-ends disk content buf curr backed big lt) [
            | inl (t, read) ↦
                let (lt', closer) = next_ebr-distance disk lba curr t.second nonzero lt in
                let (calls, run, all) =
                  extended_round-Reports disk lba i curr (extended_from f disk buf lba) t (λ j.
                    extended_from-Reports f disk content buf lba j (next_ebr disk lba curr t.second)
                      backed big lt' (omega (arith, closer, enough))) in
                (calls, rw going (rw read run), all)
            | inr (s, read) ↦ ([], rw going (rw read refl), tt)
          ]
    ]

distance-bound : (curr : ℕ) → 0 < curr → distance curr < 2 ^ 32 + 1
distance-bound curr h = ground (arith, h)

-- The extended partition, of which only the first is walked over.
extended-Reports :
    (disk : Disk) (content : ℕ → ℕ) (buf lba : ℕ) (seen : Bool) (more : Bool → Result (List Call))
    → IsBacked disk content
    → 512 ≤ disk.block_size
    → ((b : Bool) → Reports disk (more b))
    → 0 < lba
    → lba < disk.blocks
    → Reports disk (
        if seen
        then more seen
        else handle_extended disk buf lba >>= λ calls. more true >>= λ rest. fine (calls ++ rest))
unfolding handle_extended
extended-Reports disk content buf lba true more backed big h pos lt = h true
extended-Reports disk content buf lba false more backed big h pos lt =
    let (calls, run, all) =
      extended_from-Reports (2 ^ 32 + 1) disk content buf lba 4 lba backed big lt
        (distance-bound lba pos) in
    let (both, run', all') = prepend-Reports disk calls (more true) all (h true) in
    (both, rw run run', all')

-- An entry of the table, with the walk from the next one on.
primary-Reports :
    (disk : Disk) (content : ℕ → ℕ) (buf i : ℕ) (p : MbrPartition) (seen : Bool)
    (more : Bool → Result (List Call))
    → IsBacked disk content
    → 512 ≤ disk.block_size
    → ((b : Bool) → Reports disk (more b))
    → Reports disk (primary disk buf i p seen more)
primary-Reports disk content buf i p seen more backed big h = elim (Bool-cases (is_valid disk p)) [
  | inr bad ↦ let (calls, run, all) = h seen in (calls, rw bad run, all)
  | inl good ↦
      let reported = is_valid-Reported disk p i good in
      elim (Bool-cases (is_extended p)) [
        | inr plain ↦
            let (calls, run, all) =
              prepend-Reports disk
                (record { id = i; lba = p.start_lba; blocks = p.num_sectors } ∷ []) (more seen)
                (reported, tt) (h seen) in
            (calls, rw good (rw plain run), all)
        | inl ext ↦
            let (calls, run, all) =
              extended-Reports disk content buf p.start_lba seen more backed big h reported.0
                reported.1 in
            (calls, rw good (rw ext run), all)
      ]
]

primaries-Reports :
    (disk : Disk) (content : ℕ → ℕ) (buf : ℕ) (t : MbrTable)
    → IsBacked disk content
    → 512 ≤ disk.block_size
    → Reports disk (primaries disk buf t)
primaries-Reports disk content buf t backed big =
    primary-Reports disk content buf 0 t.first false _ backed big λ seen1.
      primary-Reports disk content buf 1 t.second seen1 _ backed big λ seen2.
        primary-Reports disk content buf 2 t.third seen2 _ backed big λ seen3.
          primary-Reports disk content buf 3 t.fourth seen3 _ backed big λ _. ([], refl, tt)

-- On a disk whose blocks hold contents and are of 512 bytes or more, the walk over the table ends. Every
-- partition that it reports starts on the disk behind the first block, and ends on it unless the sum of its
-- start and its size exceeds 32 bits.
pub mbr_partition_iterate_lem :
    (disk : Disk) (content : ℕ → ℕ) (buf : ℕ)
    → IsBacked disk content
    → 512 ≤ disk.block_size
    → 0 < disk.blocks
    → (mbr_partition_iterate disk buf ≡ fine none)
      ⊎ ((calls : List Call) × (mbr_partition_iterate disk buf ≡ fine (some calls))
          × All (IsReported disk) calls)
unfolding mbr_partition_iterate
mbr_partition_iterate_lem disk content buf backed big pos =
    elim (read_mbr-ends disk content buf 0 backed big pos) [
      | inr (s, read) ↦ inl (rw read refl)
      | inl (t, read) ↦
          elim (Bool-cases
            (not (t.signature == mbr_signature) || t.first.kind == mbr_partition_type_gpt)) [
              | inl none_here ↦ inl (rw read (rw none_here refl))
              | inr here ↦
                  let (calls, run, all) = primaries-Reports disk content buf t backed big in
                  inr (calls, rw read (rw here (rw run refl)), all)
            ]
    ]
