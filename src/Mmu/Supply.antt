-- ===== src/Mmu/Supply.antt =====
-- The physical memory manager gives the page tables their pages.
use kboot.Base.{
  ℕ, zero, suc, ◌%◌, ◌^◌, ◌≤◌, ◌<◌, ◌≡◌, ◌≢◌, refl, true, false, Option, none, some, arith, inl,
  inr, All, Any, Bool-cases,
}
use kboot.Base.Outcome.{Outcome, done, stop, ◌>>=◌, boot_error}
use kboot.Range.View.{tag_at}
use kboot.Memory.MemoryType
use kboot.Memory.Map.{MemoryMap}
use kboot.Memory.Map.Laws.{IsMap, inside}
use kboot.Memory.Alloc.{Request, normalise, memory_alloc}
use kboot.Memory.Alloc.Suitable.{Fits, Room}
use kboot.Memory.Alloc.Laws.{IsRequest, memory_alloc_sound, memory_alloc_complete}
use kboot.Mmu.Grow.{PageSource}

-- The request of allocate_structure.
abbrev pub page_request : Request
page_request = record {
  size = 0x1000;
  align = 0x1000;
  min_addr = 0;
  max_addr = 0;
  flags = record { high = true; can_fail = false };
}

-- The address and the map after it; without an address the loader has stopped.
abbrev address : MemoryMap × Option ℕ → Outcome (ℕ × MemoryMap)
address (map, some s) = done (s, map)
address (map, none) = stop boot_error

abbrev pub alloc_page : ℕ → MemoryMap → Outcome (ℕ × MemoryMap)
alloc_page phys_type map = memory_alloc map page_request phys_type >>= address

-- A map from which `n` pages can be taken one after the other.
unfoldable pub HoldsPages : ℕ → MemoryMap → ℕ → Type 0
HoldsPages phys_type map zero = IsMap map
HoldsPages phys_type map (suc n) =
    IsMap map
    × All (Room (normalise page_request)) map
    × Any (λ r. (t : ℕ) × Fits (normalise page_request) r t) map
    × ((map' : MemoryMap) (s : ℕ)
        → memory_alloc map page_request phys_type ≡ done (map', some s)
        → HoldsPages phys_type map' n)

pub HoldsPages-fewer :
    (phys_type : ℕ) (map : MemoryMap) (n : ℕ)
    → HoldsPages phys_type map (suc n)
    → HoldsPages phys_type map n
unfolding HoldsPages
HoldsPages-fewer phys_type map zero h = h.0
HoldsPages-fewer phys_type map (suc n) (valid, room, fits, next) =
    (valid, room, fits, λ map' s run. HoldsPages-fewer phys_type map' n (next map' s run))

-- The pages of a type.
abbrev pub IsOf : ℕ → MemoryMap → ℕ → Type 0
IsOf phys_type map p = tag_at map p ≡ some phys_type

page_request-IsRequest :
    (phys_type : ℕ) → phys_type ≢ MemoryType.free → IsRequest page_request phys_type
page_request-IsRequest phys_type typed = record {
  size_positive = omega arith;
  size_aligned = refl;
  align_aligned = refl;
  typed = typed;
  clear = omega arith;
}

-- A map with room for a page holds one.
pub HoldsPages-one :
    (phys_type : ℕ) (map : MemoryMap)
    → phys_type ≢ MemoryType.free
    → IsMap map
    → All (Room (normalise page_request)) map
    → Any (λ r. (t : ℕ) × Fits (normalise page_request) r t) map
    → HoldsPages phys_type map 1
unfolding HoldsPages
HoldsPages-one phys_type map typed valid room fits = (
  valid,
  room,
  fits,
  λ map' s run.
      (memory_alloc_sound page_request phys_type (page_request-IsRequest phys_type typed) map map' s
        valid room run).valid,
)

other_type : (o : Option ℕ) (a b : ℕ) → a ≢ b → o ≡ some b → o ≡ some a → 1 ≤ 0
other_type none a b apart e e' = ground (arith, e)
other_type (some x) a b apart e e' = ground (arith, e, e', apart)

-- What one allocation gives.
pub page_given :
    (phys_type : ℕ) (map : MemoryMap) (n : ℕ)
    → phys_type ≢ MemoryType.free
    → HoldsPages phys_type map (suc n)
    → (p : ℕ) × (map' : MemoryMap) × (alloc_page phys_type map ≡ done (p, map'))
      × (p % 2 ^ 12 ≡ 0)
      × (p < 2 ^ 40)
      × (¬ (IsOf phys_type map p))
      × IsOf phys_type map' p
      × ((q : ℕ) → IsOf phys_type map q → IsOf phys_type map' q)
      × HoldsPages phys_type map' n
unfolding HoldsPages normalise
page_given phys_type map n typed (valid, room, fits, next) =
    let ok = page_request-IsRequest phys_type typed in
    let (map', s, run) = memory_alloc_complete page_request phys_type ok map valid room fits in
    let got = memory_alloc_sound page_request phys_type ok map map' s valid room run in
    let here : inside s 0x1000 s ≡ true = ground (arith, got.below) in
    let free = got.was_free s here in
    (
      s,
      map',
      rw run refl,
      got.aligned,
      omega (arith, got.below),
      λ taken.
          absurd
            (omega (arith, other_type (tag_at map s) phys_type MemoryType.free typed free taken)),
      rw (got.after s) (rw here refl),
      λ q taken. elim (Bool-cases (inside s 0x1000 q)) [
        | inl in' ↦ rw (got.after q) (rw in' refl)
        | inr out ↦ rw (got.after q) (rw out taken)
      ],
      next map' s run,
    )

-- `memory_alloc`, with a type of memory that is not free, is a source of pages for the tables.
abbrev pub memory_source : (phys_type : ℕ) → phys_type ≢ MemoryType.free → PageSource MemoryMap
memory_source phys_type typed = record {
  memory_alloc = alloc_page phys_type;
  Holds = HoldsPages phys_type;
  Taken = IsOf phys_type;
  fewer = HoldsPages-fewer phys_type;
  gives = λ map n h. page_given phys_type map n typed h;
}
