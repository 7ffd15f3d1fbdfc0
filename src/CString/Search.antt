-- ===== src/CString/Search.antt =====
-- strchr, strrchr and strsep of source/lib/string.c. A memory is the list of its bytes from a pointer on,
-- a pointer into it the offset, and `none` a read past the end.
use mathlib.Core.Option
use kboot.Base.{
  ℕ, suc, ◌+◌, ◌≡◌, ◌≢◌, refl, sym, ap, ◌∙◌, [], ◌∷◌, ◌++◌, Option, none, some, Bool, true, false,
  ◌||◌, ◌==◌, if◌then◌else◌, Bool-cases, ==_iff, ◌⊎◌, inl, inr, length, All, arith,
}
use kboot.CString.{Bytes, IsText}

-- The offset of the first byte `c`, or NULL at the terminator.
unfoldable strchr : Bytes → ℕ → Option (Option ℕ)
strchr [] c = none
strchr (b ∷ s) c =
    let rest = strchr s c in
    if b == c then some (some 0) else if b == 0 then some none else Option.map (Option.map suc) rest

-- The loop of strrchr at offset `i`, with the last match so far.
unfoldable strrchr_from : Bytes → ℕ → ℕ → Option ℕ → Option (Option ℕ)
strrchr_from [] c i l = none
strrchr_from (b ∷ s) c i l =
    let l' = if b == c then some i else l in
    let rest = strrchr_from s c (i + 1) l' in if b == 0 then some l' else rest

unfoldable strrchr : Bytes → ℕ → Option (Option ℕ)
strrchr s c = strrchr_from s c 0 none

-- The loop over the delimiters, whose terminator is one of them.
unfoldable in_span : Bytes → ℕ → Option Bool
in_span [] c = none
in_span (sc ∷ span) c =
    let rest = in_span span c in if sc == c then some true else if sc == 0 then some false else rest

-- What the next byte of a token is put before.
abbrev longer : ℕ → Option (Bytes × Option Bytes) → Option (Bytes × Option Bytes)
longer c none = none
longer c (some (token, rest)) = some (c ∷ token, rest)

abbrev strsep_at :
    ℕ → Bytes → Option (Bytes × Option Bytes) → Option Bool → Option (Bytes × Option Bytes)
strsep_at c s more none = none
strsep_at c s more (some true) = some ([], if c == 0 then none else some s)
strsep_at c s more (some false) = longer c more

-- The token, which the 0 that is stored ends, and what *stringp becomes. *stringp is not NULL, for which
-- the function returns NULL.
unfoldable strsep : Bytes → Bytes → Option (Bytes × Option Bytes)
strsep [] delim = none
strsep (c ∷ s) delim = let more = strsep s delim in strsep_at c s more (in_span delim c)

-- `strchr` for a character of a text finds its first occurrence, or NULL if there is none.
strchr_lem :
    (u x : Bytes) (c : ℕ)
    → IsText u
    → c ≢ 0
    → ((strchr (u ++ (0 ∷ x)) c ≡ some none) × All (λ b. b ≢ c) u)
      ⊎ ((p q : Bytes) × (u ≡ p ++ (c ∷ q))
          × All (λ b. b ≢ c) p
          × (strchr (u ++ (0 ∷ x)) c ≡ some (some (length p))))
unfolding strchr
strchr_lem [] x c h z =
    let differs : (0 == c) ≡ false = ground (arith, z) in inl (rw differs refl, tt)
strchr_lem (b ∷ u) x c h z =
    let goes_on : (b == 0) ≡ false = ground (arith, h.0) in
    elim (Bool-cases (b == c)) [
      | inl e ↦ inr ([], u, ap (λ d. d ∷ u) ((==_iff b c).0 e), tt, rw e refl)
      | inr e ↦
          let other : b ≢ c = ground (arith, e) in
          elim (strchr_lem u x c h.1 z) [
            | inl (run, all) ↦ inl (rw e (rw goes_on (rw run refl)), (other, all))
            | inr (p, q, split, all, run) ↦
                inr (b ∷ p, q, ap (λ t. b ∷ t) split, (other, all), rw e (rw goes_on (rw run refl)))
          ]
    ]

strrchr_from-Split :
    (u x : Bytes) (c i : ℕ) (l : Option ℕ)
    → IsText u
    → c ≢ 0
    → ((strrchr_from (u ++ (0 ∷ x)) c i l ≡ some l) × All (λ b. b ≢ c) u)
      ⊎ ((p q : Bytes) × (u ≡ p ++ (c ∷ q))
          × All (λ b. b ≢ c) q
          × (strrchr_from (u ++ (0 ∷ x)) c i l ≡ some (some (i + length p))))
unfolding strrchr_from
strrchr_from-Split [] x c i l h z =
    let differs : (0 == c) ≡ false = ground (arith, z) in inl (rw differs refl, tt)
strrchr_from-Split (b ∷ u) x c i l h z =
    let goes_on : (b == 0) ≡ false = ground (arith, h.0) in
    elim (Bool-cases (b == c)) [
      | inl e ↦
          let here = ap (λ d. d ∷ u) ((==_iff b c).0 e) in
          let at : i ≡ i + 0 = omega arith in
          elim (strrchr_from-Split u x c (i + 1) (some i) h.1 z) [
            | inl (run, all) ↦
                inr ([], u, here, all, rw goes_on (rw e run) ∙ ap (λ k. some (some k)) at)
            | inr (p, q, split, all, run) ↦
                let shift : i + 1 + length p ≡ i + suc (length p) = omega arith in
                inr (
                  b ∷ p,
                  q,
                  ap (λ t. b ∷ t) split,
                  all,
                  rw goes_on (rw e run) ∙ ap (λ k. some (some k)) shift,
                )
          ]
      | inr e ↦
          let other : b ≢ c = ground (arith, e) in
          elim (strrchr_from-Split u x c (i + 1) l h.1 z) [
            | inl (run, all) ↦ inl (rw goes_on (rw e run), (other, all))
            | inr (p, q, split, all, run) ↦
                let shift : i + 1 + length p ≡ i + suc (length p) = omega arith in
                inr (
                  b ∷ p,
                  q,
                  ap (λ t. b ∷ t) split,
                  all,
                  rw goes_on (rw e run) ∙ ap (λ k. some (some k)) shift,
                )
          ]
    ]

-- `strrchr` for a character of a text finds its last occurrence, or NULL if there is none.
strrchr_lem :
    (u x : Bytes) (c : ℕ)
    → IsText u
    → c ≢ 0
    → ((strrchr (u ++ (0 ∷ x)) c ≡ some none) × All (λ b. b ≢ c) u)
      ⊎ ((p q : Bytes) × (u ≡ p ++ (c ∷ q))
          × All (λ b. b ≢ c) q
          × (strrchr (u ++ (0 ∷ x)) c ≡ some (some (length p))))
unfolding strrchr
strrchr_lem u x c h z = elim (strrchr_from-Split u x c 0 none h z) [
  | inl found ↦ inl found
  | inr (p, q, split, all, run) ↦
      let at : 0 + length p ≡ length p = omega arith in
      inr (p, q, split, all, run ∙ ap (λ k. some (some k)) at)
]

in_span_lem : (d : ℕ) (y : Bytes) (c : ℕ) → in_span (d ∷ 0 ∷ y) c ≡ some (d == c || 0 == c)
unfolding in_span
in_span_lem d y c = ground arith

-- `strsep` with one delimiter, which is not 0, on a text: the token is the text before the first delimiter
-- and the rest the text behind it; without a delimiter the token is the text, and no rest is left.
strsep_lem :
    (u x y : Bytes) (d : ℕ)
    → IsText u
    → d ≢ 0
    → ((strsep (u ++ (0 ∷ x)) (d ∷ 0 ∷ y) ≡ some (u, none)) × All (λ b. b ≢ d) u)
      ⊎ ((p q : Bytes) × (u ≡ p ++ (d ∷ q))
          × All (λ b. b ≢ d) p
          × (strsep (u ++ (0 ∷ x)) (d ∷ 0 ∷ y) ≡ some (p, some (q ++ (0 ∷ x)))))
unfolding strsep
strsep_lem [] x y d h z =
    let found : in_span (d ∷ 0 ∷ y) 0 ≡ some true = in_span_lem d y 0 ∙ ground arith in
    inl (rw found refl, tt)
strsep_lem (b ∷ u) x y d h z = elim (Bool-cases (d == b)) [
  | inl e ↦
      let found : in_span (d ∷ 0 ∷ y) b ≡ some true = in_span_lem d y b ∙ rw e refl in
      let goes_on : (b == 0) ≡ false = ground (arith, h.0) in
      inr ([], u, ap (λ c. c ∷ u) (sym ((==_iff d b).0 e)), tt, rw found (rw goes_on refl))
  | inr e ↦
      let end : (0 == b) ≡ false = ground (arith, h.0) in
      let missed : in_span (d ∷ 0 ∷ y) b ≡ some false = in_span_lem d y b ∙ rw e (rw end refl) in
      let other : b ≢ d = ground (arith, e) in
      elim (strsep_lem u x y d h.1 z) [
        | inl (run, all) ↦ inl (rw missed (rw run refl), (other, all))
        | inr (p, q, split, all, run) ↦
            inr (b ∷ p, q, ap (λ t. b ∷ t) split, (other, all), rw missed (rw run refl))
      ]
]
