-- ===== src/Memory/Alloc/Laws.antt =====
-- What `memory_alloc` and `memory_free` do to the map.
use native.Mathlib.Nat.{mod-mod_of_dvd, dvd_of_mod-eq-zero}
use kboot.Base.{
  ℕ, ◌+◌, ◌%◌, ◌^◌, ◌≤◌, ◌<◌, ◌≡◌, ◌≢◌, refl, Option, none, some, true, leb, if◌then◌else◌, arith,
  sub64, inl, inr, Bool-cases, Option-cases, List, [], ◌∷◌, All, Any, All-reverse, All-×,
  Any-reverse, ◌∙◌,
}
use mathlib.Core.List.{reverse}
use mathlib.Core.Path.{ap}
use kboot.Base.Outcome.{done, stop, assertion}
use kboot.Range.{Range, last}
use kboot.Range.View.{covers, tag_at, Ascends, tag_at-below}
use kboot.Memory.MemoryType
use kboot.Memory.MemoryType.{page_size}
use kboot.Memory.Map.{MemoryMap, memory_map_insert}
use kboot.Memory.Map.Laws.{IsMap, IsPageRange, inside, memory_map_insert_lem}
use kboot.Memory.Alloc.{Request, is_suitable_range, find_range, normalise, claim, memory_alloc}
use kboot.Memory.Alloc.Suitable.{
  IsNormal, Fits, Room, is_suitable_range_sound, is_suitable_range_best,
}

-- A range that speaks for its addresses in the map.
abbrev pub Speaks : MemoryMap → Range ℕ → Type 0
Speaks map r = (a : ℕ) → covers r a ≡ true → tag_at map a ≡ some r.tag

Speaks-cons :
    (lo : ℕ) (r x : Range ℕ) (rs : MemoryMap)
    → Ascends lo (r ∷ rs)
    → Speaks rs x
    → Speaks (r ∷ rs) x
Speaks-cons lo r x rs h s a c = ground (arith, s a c, tag_at-below (last r + 1) a rs h.2)

Speaks-All :
    (lo : ℕ) (r : Range ℕ) (rs xs : MemoryMap)
    → Ascends lo (r ∷ rs)
    → All (Speaks rs) xs
    → All (Speaks (r ∷ rs)) xs
Speaks-All lo r rs [] h s = tt
Speaks-All lo r rs (x ∷ xs) h s = (Speaks-cons lo r x rs h s.0, Speaks-All lo r rs xs h s.1)

-- Every range of a sorted map without overlaps does.
pub map-Speaks : (lo : ℕ) (map : MemoryMap) → Ascends lo map → All (Speaks map) map
map-Speaks lo [] h = tt
map-Speaks lo (r ∷ rs) h =
    (λ a c. rw c refl, Speaks-All lo r rs rs h (map-Speaks (last r + 1) rs h.2))

find_range_sound :
    (P : Range ℕ → Type 0) (q : Request) (l : List (Range ℕ)) (s : ℕ)
    → All P l
    → find_range q l ≡ some s
    → (r : Range ℕ) × P r × (is_suitable_range q r ≡ some s)
unfolding find_range
find_range_sound P q [] s h e = absurd (cc)
find_range_sound P q (r ∷ rest) s h e = elim (Option-cases (is_suitable_range q r)) [
  | inl missed ↦ find_range_sound P q rest s h.1 (ground (arith, missed, e))
  | inr (t, found) ↦ (r, h.0, ground (arith, found, e))
]

find_range_complete :
    (q : Request) (l : List (Range ℕ))
    → Any (λ r. (s : ℕ) × (is_suitable_range q r ≡ some s)) l
    → (s : ℕ) × (find_range q l ≡ some s)
unfolding find_range
find_range_complete q [] h = absurd h
find_range_complete q (r ∷ rest) (inl (s, e)) = (s, rw (e, find_range) refl)
find_range_complete q (r ∷ rest) (inr h) = elim (Option-cases (is_suitable_range q r)) [
  | inl missed ↦ let (s, e) = find_range_complete q rest h in (s, rw (missed, find_range) e)
  | inr (t, found) ↦ (t, rw (found, find_range) refl)
]

-- A call that meets the assertions on its arguments and cannot reach the end of the address space.
pub record IsRequest (request : Request) (type : ℕ) : Type 0 where
  pub size_positive : 0 < request.size
  pub size_aligned : request.size % page_size ≡ 0
  pub align_aligned : request.align % page_size ≡ 0
  pub typed : type ≢ MemoryType.free
  pub clear : request.align + request.size ≤ 2 ^ 63

-- What a successful allocation of `q` at `s` means.
pub record IsAllocated (map map' : MemoryMap) (q : Request) (type s : ℕ) : Type 0 where
  pub aligned : s % q.align ≡ 0
  pub above : q.min_addr ≤ s
  pub below : s + q.size ≤ q.max_addr + 1
  pub was_free : (a : ℕ) → inside s q.size a ≡ true → tag_at map a ≡ some MemoryType.free
  pub valid : IsMap map'
  pub after : (a : ℕ) → tag_at map' a ≡ (if inside s q.size a then some type else tag_at map a)

module _ (request : Request) (type : ℕ) (ok : IsRequest request type) where
  abbrev q : Request
  q = normalise request

  normal :
      IsNormal q × (q.align % page_size ≡ 0) × (q.size ≡ request.size) × (q.flags ≡ request.flags)
  unfolding normalise
  normal = (
    record {
      size_positive = omega (arith, ok.size_positive, ok.size_aligned);
      align_positive = ground arith;
      clear = ground (arith, ok.clear);
    },
    ground (arith, ok.align_aligned),
    refl,
    refl,
  )

  page_range : (map : MemoryMap) (r : Range ℕ) (s : ℕ) → Fits q r s → IsPageRange s q.size
  page_range map r s (free, aligned, l, u) = record {
    start_aligned =
        let e = mod-mod_of_dvd page_size {b = q.align} s (dvd_of_mod-eq-zero page_size normal.1) in
        omega (arith, e, aligned);
    size_aligned = rw normal.2 ok.size_aligned;
    size_positive = rw normal.2 ok.size_positive;
    fits = ground (arith, u, normal.0.clear, normal.0.align_positive);
  }

  -- The ranges in the order in which the loop visits them.
  abbrev order : MemoryMap → MemoryMap
  order map = if q.flags.high then reverse map else map

  order-All : (P : Range ℕ → Type 0) (map : MemoryMap) → All P map → All P (order map)
  order-All P map h = elim (Bool-cases q.flags.high) [
    | inl high ↦ rw high (All-reverse P map h)
    | inr low ↦ rw low h
  ]

  order-Any : (P : Range ℕ → Type 0) (map : MemoryMap) → Any P map → Any P (order map)
  order-Any P map h = elim (Bool-cases q.flags.high) [
    | inl high ↦ rw high (Any-reverse P map h)
    | inr low ↦ rw low h
  ]

  -- The call gets past its assertions exactly if the bounds leave as many addresses as asked for.
  memory_alloc-claim :
      (map : MemoryMap)
      → memory_alloc map request type ≡ (
          if leb (sub64 q.size 1) (sub64 q.max_addr q.min_addr)
          then claim map q type (find_range q (order map))
          else stop assertion)
  unfolding memory_alloc
  memory_alloc-claim map = ground (arith, ok.size_aligned, ok.align_aligned, ok.typed)

  claim-some :
      (map map' : MemoryMap) (o : Option ℕ) (s : ℕ)
      → claim map q type o ≡ done (map', some s)
      → (o ≡ some s) × (memory_map_insert map s q.size type ≡ done map')
  unfolding claim
  claim-some map map' none s h = ground (arith, h)
  claim-some map map' (some t) s h = ground (arith, h)

  allocated :
      (map map' : MemoryMap) (s : ℕ) (r : Range ℕ)
      → IsMap map
      → Speaks map r
      → Fits q r s
      → memory_map_insert map s q.size type ≡ done map'
      → IsAllocated map map' q type s
  allocated map map' s r valid speaks (free, aligned, l, u) e =
      let (m, e', v, t) =
        memory_map_insert_lem s q.size type (page_range map r s (free, aligned, l, u)) map valid in
      let same : m ≡ map' = cc in
      record {
        aligned = aligned;
        above = ground (arith, l);
        below = ground (arith, u);
        was_free = λ a h. rw (speaks a (ground (arith, l, u, h))) (ap some free);
        valid = rw (← same) v;
        after = λ a. rw (← same) (t a);
      }

  -- An address that `memory_alloc` returns is aligned and within the bounds, all `size` bytes from it
  -- on were free, they have the given type afterwards, and no other address changed; the map stays
  -- sorted and free of overlaps. This is on a map whose ranges, for a high request, all end at or above
  -- the size that is asked for.
  pub memory_alloc_sound :
      (map map' : MemoryMap) (s : ℕ)
      → IsMap map
      → All (Room (normalise request)) map
      → memory_alloc map request type ≡ done (map', some s)
      → IsAllocated map map' (normalise request) type s
  memory_alloc_sound map map' s valid room e =
      let c : claim map q type (find_range q (order map)) ≡ done (map', some s) =
        ground (arith, memory_alloc-claim map, e) in
      let (found, inserted) = claim-some map map' _ s c in
      let ready = order-All _ map (All-× _ _ map (map-Speaks 0 map valid) room) in
      let (r, (speaks, fits), suitable) = find_range_sound _ q (order map) s ready found in
      allocated map map' s r valid speaks (is_suitable_range_sound q r normal.0 s fits suitable)
        inserted

  -- The page-aligned range that a successful allocation inserts.
  pub alloc_inserts :
      (map map' : MemoryMap) (s : ℕ)
      → IsMap map
      → All (Room q) map
      → memory_alloc map request type ≡ done (map', some s)
      → IsPageRange s request.size × (memory_map_insert map s request.size type ≡ done map')
  alloc_inserts map map' s valid room e =
      let c : claim map q type (find_range q (order map)) ≡ done (map', some s) =
        ground (arith, memory_alloc-claim map, e) in
      let (found, inserted) = claim-some map map' _ s c in
      let ready = order-All _ map room in
      let (r, fits, suitable) = find_range_sound _ q (order map) s ready found in
      let placed = page_range map r s (is_suitable_range_sound q r normal.0 s fits suitable) in
      (rw normal.2 at placed, rw normal.2 at inserted)

  Fits-bounds :
      (r : Range ℕ) (t : ℕ) → Fits q r t → leb (sub64 q.size 1) (sub64 q.max_addr q.min_addr) ≡ true
  Fits-bounds r t (free, aligned, l, u) =
      ground (arith, normal.0.clear, normal.0.size_positive, l, u)

  Any-bounds :
      (map : MemoryMap)
      → Any (λ r. (t : ℕ) × Fits q r t) map
      → leb (sub64 q.size 1) (sub64 q.max_addr q.min_addr) ≡ true
  Any-bounds [] h = absurd h
  Any-bounds (r ∷ map) (inl (t, f)) = Fits-bounds r t f
  Any-bounds (r ∷ map) (inr h) = Any-bounds map h

  Any-suitable :
      (map : MemoryMap)
      → Any (λ r. (t : ℕ) × Fits q r t) map
      → Any (λ r. (s : ℕ) × (is_suitable_range q r ≡ some s)) map
  Any-suitable [] h = h
  Any-suitable (r ∷ map) (inl (t, f)) =
      let (s, e, best) = is_suitable_range_best q r normal.0 t f in inl (s, e)
  Any-suitable (r ∷ map) (inr h) = inr (Any-suitable map h)

  -- If the request fits in some free range of the map, `memory_alloc` succeeds: it neither stops nor
  -- returns without an address.
  pub memory_alloc_complete :
      (map : MemoryMap)
      → IsMap map
      → All (Room (normalise request)) map
      → Any (λ r. (t : ℕ) × Fits (normalise request) r t) map
      → (map' : MemoryMap) × (s : ℕ) × (memory_alloc map request type ≡ done (map', some s))
  memory_alloc_complete map valid room h =
      let (s, found) = find_range_complete q (order map) (order-Any _ map (Any-suitable map h)) in
      let ready = order-All _ map (All-× _ _ map (map-Speaks 0 map valid) room) in
      let (r, (speaks, fits), suitable) = find_range_sound _ q (order map) s ready found in
      let placed = page_range map r s (is_suitable_range_sound q r normal.0 s fits suitable) in
      let (map', e, v, t) = memory_map_insert_lem s q.size type placed map valid in
      (map', s, memory_alloc-claim map ∙ rw (Any-bounds map h, found) (unfold claim in rw e refl))
