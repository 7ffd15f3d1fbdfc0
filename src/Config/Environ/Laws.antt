-- ===== src/Config/Environ/Laws.antt =====
-- An environment is a partial function from names to values, which insertion overwrites and removal erases.
use mathlib.Core.Path.{subst}
use kboot.Base.{
  ◌≡◌, refl, sym, ap, ◌∙◌, List, [], ◌∷◌, ◌++◌, none, some, Bool, true, false, ◌==◌, ◌↔◌, ◌&&◌,
  if◌then◌else◌, Bool-cases, ==_iff, inl, inr, arith,
}
use kboot.Base.Int.{ℤ, pos, negsuc, sub_ℕ, sub_ℕ-zero}
use kboot.CString.{Bytes, strcmp}
use kboot.Config.{Value}
use kboot.Config.Reader.{until_nul}
use kboot.Config.Environ.{
  Entry, is_zero, same, environ_lookup, environ_insert, environ_remove, is_one_of,
  no_inherit_environ_names, inherit,
}

-- What strcmp returns on two strings, which end at their first 0.
compared :
    (u v : Bytes)
    → (d : ℤ) × (strcmp (u ++ (0 ∷ [])) (v ++ (0 ∷ [])) ≡ some d)
      × ((d ≡ pos 0) ↔ (until_nul u ≡ until_nul v))
unfolding strcmp
compared [] [] = (pos 0, refl, (λ _. refl, λ _. refl))
compared [] (b ∷ v) =
    let zero_iff = sub_ℕ-zero 0 b in (sub_ℕ 0 b, ground arith, ground (arith, zero_iff))
compared (a ∷ u) [] =
    let zero_iff = sub_ℕ-zero a 0 in (sub_ℕ a 0, ground arith, ground (arith, zero_iff))
compared (a ∷ u) (b ∷ v) =
    let (d, run, eq) = compared u v in
    let zero_iff = sub_ℕ-zero a b in
    elim (Bool-cases (a == b)) [
      | inl h ↦
          let e = (==_iff a b).0 h in
          elim (Bool-cases (a == 0)) [
            | inl z ↦ (sub_ℕ a b, ground (arith, z), ground (arith, e, z, zero_iff))
            | inr z ↦ (d, ground (arith, e, z, run), ground (arith, e, z, eq))
          ]
      | inr h ↦ (sub_ℕ a b, ground (arith, h), ground (arith, h, zero_iff))
    ]

is_zero_iff : (d : ℤ) → (is_zero (some d) ≡ true) ↔ (d ≡ pos 0)
is_zero_iff (pos n) = ground arith
is_zero_iff (negsuc n) = ground arith

same_iff : (u v : Bytes) → (same u v ≡ true) ↔ (until_nul u ≡ until_nul v)
unfolding same
same_iff u v =
    let (d, run, eq) = compared u v in
    let zero_iff = is_zero_iff d in
    (
      λ h. eq.0 (zero_iff.0 (subst (λ o. is_zero o ≡ true) run h)),
      λ h. subst (λ o. is_zero o ≡ true) (sym run) (zero_iff.1 (eq.1 h)),
    )

Bool_ext : (a b : Bool) → ((a ≡ true) ↔ (b ≡ true)) → a ≡ b
Bool_ext true b h = sym (h.0 refl)
Bool_ext false true h = h.1 refl
Bool_ext false false h = refl

pub same_refl : (u : Bytes) → same u u ≡ true
same_refl u = (same_iff u u).1 refl

pub same_comm : (u v : Bytes) → same u v ≡ same v u
same_comm u v = Bool_ext _ _ (
  λ h. (same_iff v u).1 (sym ((same_iff u v).0 h)),
  λ h. (same_iff u v).1 (sym ((same_iff v u).0 h)),
)

-- Equal names compare alike with every name.
pub same_trans : (u v w : Bytes) → same u v ≡ true → same u w ≡ same v w
same_trans u v w e =
    let k = (same_iff u v).0 e in
    Bool_ext _ _ (
      λ h. (same_iff v w).1 (sym k ∙ (same_iff u w).0 h),
      λ h. (same_iff u w).1 (k ∙ (same_iff v w).0 h),
    )

pub environ_lookup-same :
    (es : List Entry) (n m : Bytes) → same n m ≡ true → environ_lookup es n ≡ environ_lookup es m
unfolding environ_lookup
environ_lookup-same [] n m h = refl
environ_lookup-same (e ∷ es) n m h =
    let k : same e.name n ≡ same e.name m =
      same_comm e.name n ∙ same_trans n m e.name h ∙ same_comm m e.name in
    rw k (rw (environ_lookup-same es n m h) refl)

-- No name stands twice.
abbrev pub IsDistinct : List Entry → Type 0
IsDistinct [] = Unit {0}
IsDistinct (e ∷ es) = (environ_lookup es e.name ≡ none) × IsDistinct es

if_absorb {ℓ} :
    {A : Type ℓ} (b : Bool) (x y z : A)
    → (if b then x else y) ≡ (if b then x else if b then z else y)
if_absorb true x y z = refl
if_absorb false x y z = refl

pub if_same {ℓ} : {A : Type ℓ} (b : Bool) (x : A) → (if b then x else x) ≡ x
if_same true x = refl
if_same false x = refl

if_swap {ℓ} :
    {A : Type ℓ} (a b : Bool) (x y z : A)
    → (a && b) ≡ false
    → (if a then x else if b then y else z) ≡ (if b then y else if a then x else z)
if_swap true false x y z h = refl
if_swap true true x y z h = ground arith
if_swap false b x y z h = refl

-- Two names that differ are not both equal to a third.
pub same-other : (u v w : Bytes) → same u v ≡ false → same u w ≡ true → same v w ≡ false
same-other u v w h k = same_comm v w ∙ sym (same_trans u w v k) ∙ h

apart : (u v w : Bytes) → same u v ≡ false → (same u w && same v w) ≡ false
apart u v w h = elim (Bool-cases (same u w)) [
  | inl k ↦ rw k (same-other u v w h k)
  | inr k ↦ rw k refl
]

-- After an insertion the name has the value, and every other name has the value that it had, or none.
pub environ_lookup-environ_insert :
    (es : List Entry) (n m : Bytes) (v : Value)
    → environ_lookup (environ_insert es n v) m ≡ (if same n m then some v else environ_lookup es m)
unfolding environ_lookup environ_insert
environ_lookup-environ_insert [] n m v = refl
environ_lookup-environ_insert (e ∷ es) n m v =
    let rest = environ_lookup-environ_insert es n m v in
    elim (Bool-cases (same e.name n)) [
      | inl h ↦ let k = same_trans e.name n m h in rw h (rw k (if_absorb (same n m) _ _ _))
      | inr h ↦ rw h (rw rest (if_swap (same e.name m) (same n m) _ _ _ (apart e.name n m h)))
    ]

-- The names of an environment stay distinct.
pub environ_insert-IsDistinct :
    (es : List Entry) (n : Bytes) (v : Value) → IsDistinct es → IsDistinct (environ_insert es n v)
unfolding environ_lookup environ_insert
environ_insert-IsDistinct [] n v h = (refl, tt)
environ_insert-IsDistinct (e ∷ es) n v h = elim (Bool-cases (same e.name n)) [
  | inl k ↦ rw k h
  | inr k ↦ rw k (
    environ_lookup-environ_insert es n e.name v ∙ rw (same_comm n e.name) (rw k h.0),
    environ_insert-IsDistinct es n v h.1,
  )
]

-- After a removal the name has no value, and every other name has the value that it had, or none.
pub environ_lookup-environ_remove :
    (es : List Entry) (n m : Bytes)
    → IsDistinct es
    → environ_lookup (environ_remove es n) m ≡ (if same n m then none else environ_lookup es m)
unfolding environ_lookup environ_remove
environ_lookup-environ_remove [] n m h = sym (if_same (same n m) none)
environ_lookup-environ_remove (e ∷ es) n m h =
    let rest = environ_lookup-environ_remove es n m h.1 in
    elim (Bool-cases (same e.name n)) [
      | inl k ↦ rw k (elim (Bool-cases (same n m)) [
        | inl l ↦ rw l (sym (environ_lookup-same es e.name m (same_trans e.name n m k ∙ l)) ∙ h.0)
        | inr l ↦ rw l (rw (same_trans e.name n m k ∙ l) refl)
      ])
      | inr k ↦ rw k (rw rest (if_swap (same e.name m) (same n m) _ _ _ (apart e.name n m k)))
    ]

pub environ_remove-IsDistinct :
    (es : List Entry) (n : Bytes) → IsDistinct es → IsDistinct (environ_remove es n)
unfolding environ_lookup environ_remove
environ_remove-IsDistinct [] n h = tt
environ_remove-IsDistinct (e ∷ es) n h = elim (Bool-cases (same e.name n)) [
  | inl k ↦ rw k h.1
  | inr k ↦ rw k (
    environ_lookup-environ_remove es n e.name h.1 ∙ rw (same_comm n e.name) (rw k h.0),
    environ_remove-IsDistinct es n h.1,
  )
]

pub is_one_of-same :
    (names : List Bytes) (n m : Bytes) → same n m ≡ true → is_one_of names n ≡ is_one_of names m
is_one_of-same [] n m h = refl
is_one_of-same (x ∷ names) n m h = rw (same_trans n m x h) (rw (is_one_of-same names n m h) refl)

-- One entry, kept or left out by its name.
inherit_step :
    (b c : Bool) (e : Entry) (rest es : List Entry) (m : Bytes)
    → (same e.name m ≡ true → b ≡ c)
    → environ_lookup rest m ≡ (if c then none else environ_lookup es m)
    → environ_lookup (if b then rest else e ∷ rest) m
      ≡ (if c then none else environ_lookup (e ∷ es) m)
unfolding environ_lookup
inherit_step true true e rest es m agree ih = ih
inherit_step true false e rest es m agree ih = elim (Bool-cases (same e.name m)) [
  | inl h ↦ ground (arith, agree h)
  | inr h ↦ rw h ih
]
inherit_step false true e rest es m agree ih = elim (Bool-cases (same e.name m)) [
  | inl h ↦ ground (arith, agree h)
  | inr h ↦ rw h ih
]
inherit_step false false e rest es m agree ih = rw ih refl

-- A child environment has the variables of its parent but those that are not passed on.
pub environ_lookup-inherit :
    (es : List Entry) (m : Bytes)
    → environ_lookup (inherit es) m
      ≡ (if is_one_of no_inherit_environ_names m then none else environ_lookup es m)
unfolding environ_lookup inherit
environ_lookup-inherit [] m = sym (if_same (is_one_of no_inherit_environ_names m) none)
environ_lookup-inherit (e ∷ es) m =
    inherit_step (is_one_of no_inherit_environ_names e.name) (is_one_of no_inherit_environ_names m)
      e (inherit es) es m (is_one_of-same no_inherit_environ_names e.name m)
      (environ_lookup-inherit es m)

IsDistinct-keep :
    (b : Bool) (e : Entry) (rest : List Entry)
    → environ_lookup rest e.name ≡ none
    → IsDistinct rest
    → IsDistinct (if b then rest else e ∷ rest)
IsDistinct-keep true e rest h k = k
IsDistinct-keep false e rest h k = (h, k)

pub inherit-IsDistinct : (es : List Entry) → IsDistinct es → IsDistinct (inherit es)
unfolding inherit
inherit-IsDistinct [] h = tt
inherit-IsDistinct (e ∷ es) h =
    IsDistinct-keep (is_one_of no_inherit_environ_names e.name) e (inherit es)
      (environ_lookup-inherit es e.name
        ∙ ap (λ o. if is_one_of no_inherit_environ_names e.name then none else o) h.0
        ∙ if_same (is_one_of no_inherit_environ_names e.name) none)
      (inherit-IsDistinct es h.1)
