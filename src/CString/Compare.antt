-- ===== src/CString/Compare.antt =====
-- What the lengths and the comparisons say of texts.
use mathlib.Core.List.{map}
use kboot.Base.{
  ℕ, zero, suc, ◌+◌, ◌<◌, ◌≡◌, ◌↔◌, refl, ap, [], ◌∷◌, ◌++◌, none, some, ◌==◌, length, take, arith,
  ◌⊎◌, inl, inr, Bool-cases, ==_iff,
}
use kboot.Base.Int.{ℤ, pos, sub_ℕ, IsNegative, sub_ℕ-zero, sub_ℕ-IsNegative}
use kboot.CString.{
  Bytes, IsText, tolower, strlen_from, strlen, strnlen_from, strnlen, memcmp, strcmp, strncmp,
  strcasecmp, strncasecmp,
}

strlen_from-text :
    (t rest : Bytes) (ret : ℕ)
    → IsText t
    → strlen_from (t ++ (0 ∷ rest)) ret ≡ some (ret + length t)
unfolding strlen_from
strlen_from-text [] rest ret h = ap some (omega arith)
strlen_from-text (c ∷ t) rest ret h = ground (arith, strlen_from-text t rest (ret + 1) h.1)

-- `strlen` of a text before its terminator is its length.
pub strlen_lem : (t rest : Bytes) → IsText t → strlen (t ++ (0 ∷ rest)) ≡ some (length t)
unfolding strlen
strlen_lem t rest h = ground (arith, strlen_from-text t rest 0 h)

strnlen_from-bare :
    (t : Bytes) (count ret : ℕ)
    → IsText t
    → ret + length t ≡ count
    → strnlen_from t count ret ≡ none
unfolding strnlen_from
strnlen_from-bare [] count ret h e = refl
strnlen_from-bare (c ∷ t) count ret h e = ground (arith, strnlen_from-bare t count (ret + 1) h.1)

-- On memory of `count` bytes with no terminator among them, `strnlen` up to `count` reads past the end.
pub strnlen_reads_past : (t : Bytes) → IsText t → strnlen t (length t) ≡ none
unfolding strnlen
strnlen_reads_past t h = strnlen_from-bare t (length t) 0 h (omega arith)

-- Lexicographic order of texts.
abbrev pub Precedes : Bytes → Bytes → Type 0
Precedes [] [] = ⊥
Precedes [] (b ∷ v) = Unit {0}
Precedes (a ∷ u) [] = ⊥
Precedes (a ∷ u) (b ∷ v) = (a < b) ⊎ ((a ≡ b) × Precedes u v)

-- `strcmp` on two texts returns, and returns 0 exactly for equal texts, and a negative number
-- exactly if the first text precedes the second in the lexicographic order.
pub strcmp_lem :
    (u v x y : Bytes)
    → IsText u
    → IsText v
    → (d : ℤ) × (strcmp (u ++ (0 ∷ x)) (v ++ (0 ∷ y)) ≡ some d)
      × ((d ≡ pos 0) ↔ (u ≡ v))
      × (IsNegative d ↔ Precedes u v)
unfolding strcmp
strcmp_lem [] [] x y hu hv = (pos 0, refl, (λ _. refl, λ _. refl), (λ e. e, λ e. e))
strcmp_lem [] (b ∷ v) x y hu hv =
    let zero_iff = sub_ℕ-zero 0 b in
    let negative_iff = sub_ℕ-IsNegative 0 b in
    (
      sub_ℕ 0 b,
      ground (arith, hv.0),
      ground (arith, zero_iff, hv.0),
      ground (arith, negative_iff, hv.0),
    )
strcmp_lem (a ∷ u) [] x y hu hv =
    let zero_iff = sub_ℕ-zero a 0 in
    let negative_iff = sub_ℕ-IsNegative a 0 in
    (sub_ℕ a 0, ground (arith, hu.0), ground (arith, zero_iff, hu.0), ground (arith, negative_iff))
strcmp_lem (a ∷ u) (b ∷ v) x y hu hv =
    let (d, run, eq, negative) = strcmp_lem u v x y hu.1 hv.1 in
    elim (Bool-cases (a == b)) [
      | inl same ↦
          let e = (==_iff a b).0 same in
          (d, ground (arith, hu.0, run), ground (arith, e, eq), ground (arith, e, negative))
      | inr other ↦
          let zero_iff = sub_ℕ-zero a b in
          let negative_iff = sub_ℕ-IsNegative a b in
          (
            sub_ℕ a b,
            ground (arith, other),
            ground (arith, other, zero_iff),
            ground (arith, other, negative_iff),
          )
    ]

-- `strncmp` on two texts is `strcmp` on their first `count` bytes.
pub strncmp-strcmp :
    (u v x y : Bytes)
    → IsText u
    → IsText v
    → (count : ℕ)
    → strncmp (u ++ (0 ∷ x)) (v ++ (0 ∷ y)) count
      ≡ strcmp (take count u ++ (0 ∷ [])) (take count v ++ (0 ∷ []))
unfolding strncmp strcmp
strncmp-strcmp u v x y hu hv zero = refl
strncmp-strcmp [] [] x y hu hv (suc count) = refl
strncmp-strcmp [] (b ∷ v) x y hu hv (suc count) = ground (arith, hv.0)
strncmp-strcmp (a ∷ u) [] x y hu hv (suc count) = ground (arith, hu.0)
strncmp-strcmp (a ∷ u) (b ∷ v) x y hu hv (suc count) =
    ground (arith, strncmp-strcmp u v x y hu.1 hv.1 count)

-- `strcasecmp` is `strcmp` on the two memories with every letter in lower case, also where a comparison
-- reads past the end.
pub strcasecmp-strcmp :
    (s1 s2 : Bytes) → strcasecmp s1 s2 ≡ strcmp (map tolower s1) (map tolower s2)
unfolding strcasecmp strcmp
strcasecmp-strcmp [] s2 = refl
strcasecmp-strcmp (a ∷ s1) [] = refl
strcasecmp-strcmp (a ∷ s1) (b ∷ s2) = ground (arith, strcasecmp-strcmp s1 s2)

-- `strncasecmp` is `strncmp` on the two memories with every letter in lower case, also where a
-- comparison reads past the end.
pub strncasecmp-strncmp :
    (s1 s2 : Bytes) (count : ℕ)
    → strncasecmp s1 s2 count ≡ strncmp (map tolower s1) (map tolower s2) count
unfolding strncasecmp strncmp
strncasecmp-strncmp s1 s2 zero = refl
strncasecmp-strncmp [] s2 (suc count) = refl
strncasecmp-strncmp (a ∷ s1) [] (suc count) = refl
strncasecmp-strncmp (a ∷ s1) (b ∷ s2) (suc count) = ground (arith, strncasecmp-strncmp s1 s2 count)

-- `memcmp` on two blocks of `count` bytes returns 0 exactly if the blocks hold the same bytes, and
-- never reads past them.
pub memcmp_lem :
    (p q x y : Bytes)
    → length p ≡ length q
    → (d : ℤ) × (memcmp (p ++ x) (q ++ y) (length p) ≡ some d) × ((d ≡ pos 0) ↔ (p ≡ q))
unfolding memcmp
memcmp_lem [] [] x y e = (pos 0, refl, (λ _. refl, λ _. refl))
memcmp_lem [] (b ∷ q) x y e = ground arith
memcmp_lem (a ∷ p) [] x y e = ground arith
memcmp_lem (a ∷ p) (b ∷ q) x y e =
    let (d, run, eq) = memcmp_lem p q x y (omega arith) in
    elim (Bool-cases (a == b)) [
      | inl same ↦ let e = (==_iff a b).0 same in (d, ground (arith, run), ground (arith, e, eq))
      | inr other ↦
          let zero_iff = sub_ℕ-zero a b in
          (sub_ℕ a b, ground (arith, other), ground (arith, other, zero_iff))
    ]
