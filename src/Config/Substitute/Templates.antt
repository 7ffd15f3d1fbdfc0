-- ===== src/Config/Substitute/Templates.antt =====
-- A string with references in it becomes the text with the values in their places.
use kboot.Base.{
  ℕ, suc, ◌+◌, ◌-◌, ◌≡◌, ◌≢◌, refl, sym, ap, ◌∙◌, List, [], ◌∷◌, ◌++◌, append_assoc, append-nil,
  Option, none, some, true, false, ◌||◌, ◌==◌, length, All, arith,
}
use kboot.Base.Lists.{take, drop}
use kboot.CString.{Bytes, isalnum}
use kboot.Config.{string}
use kboot.Config.Environ.{Entry, environ_lookup}
use kboot.Config.Substitute.{
  text_of, replace_with, replace_reference, substitute_round, substitute_from, set_string,
  value_substitute,
}

-- The parts of such a string: text as it is, and "${name}".
pub data Piece : Type 0 where
  text : Bytes → Piece
  variable : Bytes → Piece

abbrev pub render : List Piece → Bytes
render [] = []
render (text t ∷ ps) = t ++ render ps
render (variable n ∷ ps) = b'$' ∷ b'{' ∷ (n ++ (b'}' ∷ render ps))

abbrev pub prepend : Option Bytes → Option Bytes → Option Bytes
prepend (some t) (some rest) = some (t ++ rest)
prepend (some t) none = none
prepend none rest = none

-- The values in their places; none if a variable is missing or has no text.
abbrev pub expand : List Entry → List Piece → Option Bytes
expand env [] = some []
expand env (text t ∷ ps) = prepend (some t) (expand env ps)
expand env (variable n ∷ ps) = prepend (text_of (environ_lookup env n)) (expand env ps)

-- Text without '$', and names of letters, digits and '_'.
abbrev pub IsPiece : Piece → Type 0
IsPiece (text t) = All (λ c. c ≢ b'$') t
IsPiece (variable n) = All (λ c. (isalnum c || c == b'_') ≡ true) n

next : Bytes → ℕ
next [] = 0
next (d ∷ rest) = d

after : Bytes → Bytes
after [] = []
after (d ∷ rest) = rest

substitute_from-cons :
    (env : List Entry) (c : ℕ) (rest : Bytes) (start : ℕ) (before : Bytes)
    → substitute_from env (c ∷ rest) start before
      ≡ substitute_round env
          (substitute_from env rest)
          (substitute_from env (after rest))
          c
          (next rest)
          start
          before
unfolding substitute_from next after
substitute_from-cons env c [] start before = refl
substitute_from-cons env c (d ∷ rest) start before = refl

substitute_from-text :
    (env : List Entry) (t rest before : Bytes)
    → All (λ c. c ≢ b'$') t
    → substitute_from env (t ++ rest) 0 before ≡ substitute_from env rest 0 (before ++ t)
substitute_from-text env [] rest before h =
    ap (substitute_from env rest 0) (sym (append-nil before))
substitute_from-text env (c ∷ t) rest before h =
    let no_dollar : (c == b'$') ≡ false = ground (arith, h.0) in
    substitute_from-cons env c (t ++ rest) 0 before
    ∙ rw no_dollar (
        substitute_from-text env t rest (before ++ (c ∷ [])) h.1
        ∙ ap (substitute_from env rest 0) (append_assoc before (c ∷ []) t))

substitute_from-name :
    (env : List Entry) (start : ℕ) (n rest before : Bytes)
    → (start == 0) ≡ false
    → All (λ c. (isalnum c || c == b'_') ≡ true) n
    → substitute_from env (n ++ (b'}' ∷ rest)) start before
      ≡ replace_reference env (substitute_from env rest) start (before ++ n)
substitute_from-name env start [] rest before s h =
    substitute_from-cons env b'}' rest start before ∙ rw s (rw (append-nil before) refl)
substitute_from-name env start (c ∷ n) rest before s h =
    substitute_from-cons env c (n ++ (b'}' ∷ rest)) start before
    ∙ rw s (
        rw h.0 (
          substitute_from-name env start n rest (before ++ (c ∷ [])) s h.1
          ∙ ap (replace_reference env (substitute_from env rest) start)
              (append_assoc before (c ∷ []) n)))

take-prefix : (b rest : Bytes) → take (length b) (b ++ rest) ≡ b
take-prefix [] rest = refl
take-prefix (c ∷ b) rest = ap (λ t. c ∷ t) (take-prefix b rest)

drop-prefix :
    (b : Bytes) (x y : ℕ) (rest : Bytes) → drop (length b + 2) ((b ++ (x ∷ y ∷ [])) ++ rest) ≡ rest
drop-prefix [] x y rest = refl
drop-prefix (c ∷ b) x y rest =
    let shift : suc (length b) + 2 ≡ suc (length b + 2) = omega arith in
    ap (λ k. drop k (c ∷ ((b ++ (x ∷ y ∷ [])) ++ rest))) shift ∙ drop-prefix b x y rest

-- The reference itself: its prefix and its name are found again.
reference-parts :
    (env : List Entry) (more : ℕ → Bytes → Option Bytes) (before n : Bytes)
    → replace_reference env more (length before + 2) ((before ++ (b'$' ∷ b'{' ∷ [])) ++ n)
      ≡ replace_with more before (text_of (environ_lookup env n))
reference-parts env more before n =
    let back : length before + 2 - 2 ≡ length before = omega arith in
    let whole = (before ++ (b'$' ∷ b'{' ∷ [])) ++ n in
    let prefix : take (length before + 2 - 2) whole ≡ before =
      ap (λ k. take k whole) back
      ∙ ap (take (length before)) (append_assoc before (b'$' ∷ b'{' ∷ []) n)
      ∙ take-prefix before _ in
    ap (λ b. replace_with more b (text_of (environ_lookup env (drop (length before + 2) whole))))
      prefix
    ∙ ap (λ m. replace_with more before (text_of (environ_lookup env m)))
        (drop-prefix before b'$' b'{' n)

prepend-append :
    (a b : Bytes) (o : Option Bytes)
    → prepend (some (a ++ b)) o ≡ prepend (some a) (prepend (some b) o)
prepend-append a b none = refl
prepend-append a b (some rest) = ap some (append_assoc a b rest)

replace_with-render :
    (env : List Entry) (ps : List Piece) (before : Bytes) (o : Option Bytes)
    → ((t : Bytes)
        → substitute_from env (render ps) 0 (before ++ t)
          ≡ prepend (some (before ++ t)) (expand env ps))
    → replace_with (substitute_from env (render ps)) before o
      ≡ prepend (some before) (prepend o (expand env ps))
replace_with-render env ps before none ih = refl
replace_with-render env ps before (some t) ih = ih t ∙ prepend-append before t (expand env ps)

substitute_from-render :
    (env : List Entry) (ps : List Piece) (before : Bytes)
    → All IsPiece ps
    → substitute_from env (render ps) 0 before ≡ prepend (some before) (expand env ps)
unfolding substitute_from
substitute_from-render env [] before h = ap some (sym (append-nil before))
substitute_from-render env (text t ∷ ps) before h =
    substitute_from-text env t (render ps) before h.0
    ∙ substitute_from-render env ps (before ++ t) h.1
    ∙ prepend-append before t (expand env ps)
substitute_from-render env (variable n ∷ ps) before h =
    let o = text_of (environ_lookup env n) in
    let inside : (length before + 2 == 0) ≡ false = ground arith in
    substitute_from-name env (length before + 2) n (render ps) (before ++ (b'$' ∷ b'{' ∷ [])) inside
      h.0
    ∙ reference-parts env (substitute_from env (render ps)) before n
    ∙ replace_with-render env ps before o (λ t. substitute_from-render env ps (before ++ t) h.1)

prepend-nil : (o : Option Bytes) → prepend (some []) o ≡ o
prepend-nil none = refl
prepend-nil (some t) = refl

-- `value_substitute` of a string that is made of text without '$' and of references "${name}" with names of
-- letters, digits and '_' puts the text of each variable in its place, once and in order. If a variable
-- is missing or has no text, the value is left as it was and the call fails.
pub value_substitute-render :
    (env : List Entry) (ps : List Piece)
    → All IsPiece ps
    → value_substitute env (string (render ps)) ≡ set_string (render ps) (expand env ps)
unfolding value_substitute
value_substitute-render env ps h =
    ap (set_string (render ps)) (substitute_from-render env ps [] h ∙ prepend-nil (expand env ps))
