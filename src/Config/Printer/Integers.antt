-- ===== src/Config/Printer/Integers.antt =====
-- Words and integers are read back.
use kboot.Base.{
  ℕ, zero, suc, ◌+◌, ◌*◌, ◌/◌, ◌%◌, ◌^◌, ◌<◌, ◌≡◌, refl, sym, ap, ◌∙◌, List, [], ◌∷◌, ◌++◌, none,
  true, false, ◌&&◌, ltb, ◌==◌, ==_iff, length, length-append, All, All-append, all_below,
  all_below_sound, arith,
}
use kboot.CString.{Bytes, tolower, isxdigit}
use kboot.Config.Reader.{byte, Reader, ok, bind, read_char, return_char}
use kboot.Config.Parser.{digit_value, expect_char, expect_chars, digits, parse_integer}
use kboot.Config.Printer.{hex_digit, hex_values, hex}
use kboot.Config.Printer.Reading.{
  state, Ready, fresh, IsPlain, Reads, read_char-Ready, return_char-Ready,
}

pub expect_chars-Reads :
    (n : ℕ) (word rest : Bytes) {s : Reader}
    → All IsPlain word
    → Ready n [] (word ++ rest) s
    → Reads (expect_chars word s) tt n [] rest
unfolding expect_chars expect_char
expect_chars-Reads n [] rest h ready = (_, refl, ready)
expect_chars-Reads n (d ∷ word) rest h ready =
    let (l, c, e) = read_char-Ready n d [] (word ++ rest) ready h.0 in
    let same : (d == d) ≡ true = ground arith in
    let (s, run, ready') = expect_chars-Reads n word rest h.1 (fresh l c) in
    (s, rw e (rw same run), ready')

value_table : all_below 16 (λ d. digit_value (hex_digit d) == d) ≡ true
unfolding tolower
value_table = refl

hex_digit_lem : (d : ℕ) → d < 16 → digit_value (hex_digit d) ≡ d
hex_digit_lem d h =
    (==_iff _ d).0 (all_below_sound 16 (λ x. digit_value (hex_digit x) == x) d value_table h)

hex_digit-isxdigit : (d : ℕ) → d < 16 → isxdigit (hex_digit d) ≡ true
hex_digit-isxdigit d h = all_below_sound 16 (λ x. isxdigit (hex_digit x)) d refl h

-- The number that digits stand for, behind those that make `acc`.
abbrev number : ℕ → List ℕ → ℕ
number acc [] = acc
number acc (d ∷ ds) = number ((acc * 16 + d) % 2 ^ 64) ds

number-append : (acc : ℕ) (ds es : List ℕ) → number acc (ds ++ es) ≡ number (number acc ds) es
number-append acc [] es = refl
number-append acc (d ∷ ds) es = number-append ((acc * 16 + d) % 2 ^ 64) ds es

-- A number has no more than `k` digits.
abbrev Fits : ℕ → ℕ → Type 0
Fits zero n = n ≡ 0
Fits (suc k) n = Fits k (n / 16)

number-hex_values : (k n : ℕ) → Fits k n → n < 2 ^ 64 → number 0 (hex_values k n) ≡ n
number-hex_values zero n f h = sym f
number-hex_values (suc k) n f h =
    number-append 0 (hex_values k (n / 16)) (n % 16 ∷ [])
    ∙ rw (number-hex_values k (n / 16) f (omega arith)) (omega arith)

hex_values-All : (k n : ℕ) → All (λ d. d < 16) (hex_values k n)
hex_values-All zero n = tt
hex_values-All (suc k) n =
    All-append (λ d. d < 16) (hex_values k (n / 16)) (n % 16 ∷ []) (hex_values-All k (n / 16))
      (omega arith, tt)

pub length-hex_values : (k n : ℕ) → length (hex_values k n) ≡ k
length-hex_values zero n = refl
length-hex_values (suc k) n =
    omega (arith, length-append (hex_values k (n / 16)) (n % 16 ∷ []), length-hex_values k (n / 16))

hex_digit-IsPlain : (d : ℕ) → d < 16 → IsPlain (hex_digit d)
hex_digit-IsPlain d h = ground arith

digits_step :
    (f acc x d : ℕ) (r : Reader)
    → isxdigit x ≡ true
    → digit_value x ≡ d
    → d < 16
    → digits (suc f) 16 acc (byte x) r
      ≡ bind (read_char r) (λ ch r1. digits f 16 ((acc * 16 + d) % 2 ^ 64) ch r1)
unfolding digits
digits_step f acc x d r hx e h =
    let small : ltb (digit_value x) 16 ≡ true = ground (arith, e, h) in
    let test : (isxdigit x && ltb (digit_value x) 16) ≡ true = rw hx small in
    rw test (ap (λ v. bind (read_char r) (λ ch r1. digits f 16 ((acc * 16 + v) % 2 ^ 64) ch r1)) e)

digits_last :
    (f acc e : ℕ) (r : Reader)
    → isxdigit e ≡ false
    → digits (suc f) 16 acc (byte e) r ≡ bind (return_char (byte e) r) (λ _ r1. ok acc r1)
unfolding digits
digits_last f acc e r h = rw h refl

digits-Reads :
    (n f acc : ℕ) (ds : List ℕ) (e : ℕ) (rest : Bytes) {s : Reader}
    → All (λ d. d < 16) ds
    → IsPlain e
    → isxdigit e ≡ false
    → length ds < f
    → Ready n [] (hex ds (e ∷ rest)) s
    → Reads (bind (read_char s) (λ ch r. digits f 16 acc ch r)) (number acc ds) n [] (e ∷ rest)
digits-Reads n zero acc ds e rest h p x lt ready = absurd (omega arith)
digits-Reads n (suc f) acc [] e rest h p x lt ready =
    let (l, c, r) = read_char-Ready n e [] rest ready p in
    let (s, back, ready') = return_char-Ready n e l c [] rest p.3 in
    (s, rw r (digits_last f acc e _ x ∙ rw back refl), ready')
digits-Reads n (suc f) acc (d ∷ ds) e rest h p x lt ready =
    let (l, c, r) =
      read_char-Ready n (hex_digit d) [] (hex ds (e ∷ rest)) ready (hex_digit-IsPlain d h.0) in
    let (s, run, ready') =
      digits-Reads n f ((acc * 16 + d) % 2 ^ 64) ds e rest h.1 p x (omega arith) (fresh l c) in
    (
      s,
      rw r (
          digits_step f acc (hex_digit d) d _ (hex_digit-isxdigit d h.0) (hex_digit_lem d h.0) h.0
          ∙ run),
      ready',
    )

Fits-word : (n : ℕ) → n < 2 ^ 64 → Fits 16 n
Fits-word n h = omega arith

-- A number behind "0x", before a character that is no digit.
pub parse_integer-Reads :
    (n f k e l c : ℕ) (rest : Bytes)
    → k < 2 ^ 64
    → IsPlain e
    → isxdigit e ≡ false
    → 16 < f
    → Reads
        (parse_integer f b'0' (state none false n [] (b'x' ∷ hex (hex_values 16 k) (e ∷ rest)) l c))
        k
        n
        []
        (e ∷ rest)
unfolding parse_integer tolower
parse_integer-Reads n f k e l c rest h p x lt =
    let text = hex (hex_values 16 k) (e ∷ rest) in
    let (l', c', r) = read_char-Ready n b'x' [] text (fresh l c) (omega arith) in
    let (s, run, ready) =
      digits-Reads n f 0 (hex_values 16 k) e rest (hex_values-All 16 k) p x
        (omega (arith, length-hex_values 16 k)) (fresh l' c') in
    (s, rw r (run ∙ ap (λ m. ok m s) (number-hex_values 16 k (Fits-word k h) h)), ready)
