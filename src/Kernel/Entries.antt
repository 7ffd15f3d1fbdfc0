-- ===== src/Kernel/Entries.antt =====
-- What the mapping tags of an image ask for, and what a tag leaves of the address space.
use kboot.Base.{
  ℕ, ◌+◌, ◌-◌, ◌*◌, ◌/◌, ◌%◌, ◌^◌, ◌≤◌, ◌<◌, ◌≡◌, ◌≢◌, some, arith, refl, sym, ◌∙◌, List, [], ◌∷◌,
  true, false, leb, ◌==◌, if◌then◌else◌, Bool-cases, inl, inr, ◌⊎◌, Any, none, All,
}
use kboot.Base.Outcome.{done}
use kboot.Memory.Map.Laws.{inside, IsPageRange}
use kboot.Mmu.Map.{is_canonical_range}
use kboot.Allocator.{Allocator, alloc_end, allocator_alloc, allocator_insert}
use kboot.Allocator.Laws.{IsAsked, HasRoom, IsOrdered, allocator_alloc_complete}
use kboot.Allocator.Reserve.{managed, HasBounds, allocator_insert_lem}
use kboot.Mmu.Tree.{Labels}
use kboot.Mmu.Grow.{PageSource}
use kboot.Kernel.{Loader, Mapping, MappingTag, add_mapping, no_phys, map_itags}
use kboot.Range.View.{tag_at}
use kboot.Kernel.Mappings.{mapped_at, reserved-IsApart, apart-none}
use kboot.Kernel.Placement.{mapping, IsPhys, IsLoader}
use kboot.Kernel.Bounds.{IsBelow, below-All, Keeps}
use kboot.Kernel.Laws.{Maps}

managed-HasBounds : (a a' : Allocator) (v : ℕ) → HasBounds a a' → managed a' v ≡ managed a v
unfolding alloc_end
managed-HasBounds a a' v (start, size) = rw start (rw size refl)

-- A tag for whole pages, of addresses that the allocator manages where it names them.
abbrev pub IsTag : ℕ → Allocator → MappingTag → Type 0
IsTag limit allocator t =
    (t.size % 2 ^ 12 ≡ 0)
    × (0 < t.size)
    × IsPhys t.phys t.size
    × (limit + 0x1000 + t.size ≤ 2 ^ 64)
    × ((t.virt == 2 ^ 64 - 1) ≡ false
        → IsPageRange t.virt t.size
          × ((a : ℕ) → inside t.virt t.size a ≡ true → managed allocator a ≡ true))

-- The pages for the page tables of all tags, and `n` more.
abbrev pub needed : List MappingTag → ℕ → ℕ
needed [] n = n
needed (t ∷ ts) n = t.size / 2 ^ 12 * 3 + needed ts n

-- No address beyond a limit is managed or known.
abbrev pub IsWithin : ℕ → Allocator → Type 0
IsWithin limit allocator =
    ((a : ℕ) → managed allocator a ≡ true → a < limit) × IsBelow limit allocator

pub Keeps-IsWithin :
    (limit : ℕ) (a a' : Allocator) → Keeps a a' → IsWithin limit a → IsWithin limit a'
Keeps-IsWithin limit a a' (bounds, keeps) (within, below) =
    (λ v m. within v (sym (managed-HasBounds a a' v bounds) ∙ m), keeps limit within below)

pub Keeps-IsTag :
    (limit : ℕ) (a a' : Allocator) (ts : List MappingTag)
    → Keeps a a'
    → All (IsTag limit a) ts
    → All (IsTag limit a') ts
Keeps-IsTag limit a a' [] keeps h = tt
Keeps-IsTag limit a a' (t ∷ ts) keeps ((aligned, pos, is_phys, fits, at), hs) = (
  (
    aligned,
    pos,
    is_phys,
    fits,
    λ named.
        let (ok, manages) = at named in (ok, λ v i. managed-HasBounds a a' v keeps.0 ∙ manages v i),
  ),
  Keeps-IsTag limit a a' ts keeps hs,
)

-- What is mapped in one is mapped to the same memory in the other.
abbrev pub Stays : {S : Type 0} → Loader S → Loader S → Type 0
Stays loader loader' =
    (v p : ℕ) → mapped_at loader.mappings v ≡ some p → mapped_at loader'.mappings v ≡ some p

-- The tag's range is mapped to its memory, at the address that it names if it names one.
abbrev pub IsMapped : {S : Type 0} → Loader S → MappingTag → Type 0
IsMapped loader t =
    (addr : ℕ) × (t.virt ≢ 2 ^ 64 - 1 → addr ≡ t.virt)
    × (t.phys ≢ no_phys
        → (v : ℕ) → inside addr t.size v ≡ true
        → mapped_at loader.mappings v ≡ some (t.phys + (v - addr)))

-- The cache field is of version 2.
abbrev pub cache_of : ℕ → MappingTag → ℕ
cache_of version t = if leb 2 version then t.cache else 0

-- The second list of mappings is the first with one more for each tag, in turn.
pub data Entered (version : ℕ) : List Mapping → List MappingTag → List Mapping → Type 0 where
  unchanged : {ms : List Mapping} → Entered version ms [] ms
  entered :
      {ms ms' : List Mapping} {t : MappingTag} {ts : List MappingTag} (addr : ℕ)
      → (t.virt ≢ 2 ^ 64 - 1 → addr ≡ t.virt)
      → Entered version (add_mapping ms (mapping addr t.size t.phys (cache_of version t))) ts ms'
      → Entered version ms (t ∷ ts) ms'

-- There is no place for a tag: for one without an address no free region has room, or free addresses are not
-- canonical; at an address that it names some are allocated, or they are not canonical.
abbrev pub IsRefused : {S : Type 0} → Loader S → MappingTag → Type 0
IsRefused loader t =
    ((t.virt ≡ 2 ^ 64 - 1)
      × (¬ (Any (HasRoom t.size 0x1000) loader.allocator.regions)
          ⊎ ((t.phys ≢ no_phys)
              × ((addr : ℕ) × ((v : ℕ)
                    → inside addr t.size v ≡ true
                    → tag_at loader.allocator.regions v ≡ some false)
                  × (is_canonical_range addr t.size ≡ false)))))
    ⊎ ((t.virt ≢ 2 ^ 64 - 1)
        × (¬ (
              (v : ℕ)
              → inside t.virt t.size v ≡ true
              → tag_at loader.allocator.regions v ≢ some true)
            ⊎ ((t.phys ≢ no_phys) × (is_canonical_range t.virt t.size ≡ false))))

-- The first tags are mapped, and then there is no place for one.
pub data Stops {S : Type 0} (source : PageSource S) (version : ℕ)
    : Loader S → List MappingTag → Type 0 where
  at_once :
      {loader : Loader S} {t : MappingTag} {ts : List MappingTag}
      → IsRefused loader t
      → Stops source version loader (t ∷ ts)
  later :
      {loader : Loader S} {t : MappingTag} {ts : List MappingTag} (loader' : Loader S)
      (labels' : Labels) (n : ℕ)
      → map_itags source.memory_alloc version loader (t ∷ []) ≡ done loader'
      → IsLoader source loader' labels' n
      → Entered version loader.mappings (t ∷ []) loader'.mappings
      → Stops source version loader' ts
      → Stops source version loader (t ∷ ts)

module _ {S : Type 0} (source : PageSource S) (loader : Loader S) (labels : Labels)
    (phys size cache n : ℕ) (is : IsLoader source loader labels (size / 2 ^ 12 * 3 + n))
    (is_phys : IsPhys phys size) (addr : ℕ) (loader' : Loader S)
    (maps : Maps source loader labels phys size cache n is is_phys addr loader') where
  pub Maps-Stays :
      ((v : ℕ) → inside addr size v ≡ true → tag_at loader.allocator.regions v ≢ some true)
      → Stays loader loader'
  Maps-Stays free v p e =
      let (_, _, _, _, view) = maps in
      let apart = reserved-IsApart loader.allocator addr size loader.mappings free is.reserved in
      elim (Bool-cases (inside addr size v)) [
        | inl i ↦ absurd (ground (arith, e, apart-none addr size v loader.mappings apart i))
        | inr o ↦ view v ∙ rw o e
      ]

  pub Maps-target :
      phys ≢ no_phys
      → (v : ℕ) → inside addr size v ≡ true
      → mapped_at loader'.mappings v ≡ some (phys + (v - addr))
  Maps-target some_phys v i =
      let (_, _, _, _, view) = maps in
      let other : (phys == no_phys) ≡ false = ground (arith, some_phys) in
      view v ∙ rw i (rw other refl)

pub no_room :
    {S : Type 0} (loader : Loader S) (size limit : ℕ)
    → size % 2 ^ 12 ≡ 0
    → 0 < size
    → limit + 0x1000 + size ≤ 2 ^ 64
    → IsOrdered loader.allocator
    → IsBelow limit loader.allocator
    → allocator_alloc loader.allocator size 0 ≡ done none
    → ¬ (Any (HasRoom size 0x1000) loader.allocator.regions)
no_room loader size limit aligned pos fits ordered below nothing room =
    let asked : IsAsked loader.allocator size 0 = record {
      size_aligned = aligned;
      align_aligned = refl;
      size_positive = pos;
    } in
    let (_, _, given) =
      allocator_alloc_complete loader.allocator size 0 asked ordered
        (below-All 0 limit 0x1000 size loader.allocator.regions ordered below fits) room in
    ground (arith, given, nothing)

pub not_free :
    {S : Type 0} (loader : Loader S) (addr size : ℕ)
    → IsPageRange addr size
    → IsOrdered loader.allocator
    → allocator_insert loader.allocator addr size ≡ done none
    → ¬ ((v : ℕ) → inside addr size v ≡ true → tag_at loader.allocator.regions v ≢ some true)
not_free loader addr size ok ordered refused free =
    let (_, run, _, _, _) = (allocator_insert_lem loader.allocator addr size ordered ok).1 free in
    ground (arith, run, refused)
