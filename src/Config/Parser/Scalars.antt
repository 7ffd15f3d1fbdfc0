-- ===== src/Config/Parser/Scalars.antt =====
-- The parts of the parser that read integers, words, strings and names end, with their assertions met.
use kboot.Base.{
  ℕ, zero, suc, ◌+◌, ◌≤◌, ◌<◌, ◌≡◌, refl, ap, ◌∙◌, [], ◌∷◌, none, Bool, true, false, not, ◌&&◌, ltb,
  ◌==◌, length, arith,
}
use kboot.CString.{Bytes, isdigit, isxdigit}
use kboot.Config.Reader.{Input, eof, byte, Reader, read_char}
use kboot.Config.Parser.{
  is, is_name, string_at, name_at, is_x, end_name, digit_value, expect_char, expect_chars, digits,
  parse_integer, string_from, parse_string, parse_variable_name, leave, deeper,
}
use kboot.Config.Parser.Ensures.{
  Ensures, holds, rejected, Ensures-bind, Ensures-if, Ensures-weaken, Ensures-leave, cost, weight,
  pending, IsRead, read_char-Ensures, return_char-Ensures, push_temp-Ensures, take_temp-Ensures,
}

-- After a part of the input: the nesting is as before, temp_buf is empty, and what is left is no more than before.
abbrev pub Kept : {A : Type 0} → ℕ → ℕ → A → Reader → Type 0
Kept n w _ q = (q.nesting ≡ n) × (q.temp ≡ []) × (weight q ≤ w)

pub nil_of_length : (xs : Bytes) → (length xs == 0) ≡ true → xs ≡ []
nil_of_length [] h = refl
nil_of_length (x ∷ xs) h = ground arith

pub IsRead-fresh :
    (r : Reader)
    → r.returned ≡ none
    → Ensures r.nesting (IsRead r.nesting r.temp (length r.input)) (read_char r)
IsRead-fresh r e =
    Ensures-weaken (read_char-Ensures r) refl
      (λ ch q h. (h.0, h.1, h.2, omega (arith, h.3, ap pending e)))

expect_char-Ensures :
    (c : ℕ) (r : Reader)
    → r.returned ≡ none
    → Ensures r.nesting (λ _. IsRead r.nesting r.temp (length r.input) eof) (expect_char c r)
unfolding expect_char
expect_char-Ensures c r e = Ensures-bind (IsRead-fresh r e) (λ ch q h.
    Ensures-if (is ch c) (λ _. holds (h.0, h.1, h.2, omega (arith, h.3))) (λ _. rejected h.0))

pub expect_chars-Ensures :
    (word : Bytes) (r : Reader)
    → r.returned ≡ none
    → r.temp ≡ []
    → Ensures r.nesting (Kept r.nesting (length r.input)) (expect_chars word r)
unfolding expect_chars
expect_chars-Ensures [] r e t = holds (refl, t, omega (arith, ap pending e))
expect_chars-Ensures (c ∷ word) r e t = Ensures-bind (expect_char-Ensures c r e) (λ _ q h.
    Ensures-weaken (expect_chars-Ensures word q h.2 (h.1 ∙ t)) h.0
      (λ _ s k. (k.0 ∙ h.0, k.1, omega (arith, k.2, h.3))))

digits-Ensures :
    (f base result : ℕ) (ch : Input) (r : Reader)
    → r.returned ≡ none
    → r.temp ≡ []
    → cost ch + length r.input < f
    → Ensures r.nesting (Kept r.nesting (cost ch + length r.input)) (digits f base result ch r)
unfolding digits
digits-Ensures zero base result ch r e t h = absurd (omega arith)
digits-Ensures (suc f) base result eof r e t h =
    Ensures-bind (return_char-Ensures eof r e) (λ _ q k. holds (k.0, k.1 ∙ t, omega (arith, k.2)))
digits-Ensures (suc f) base result (byte c) r e t h =
    Ensures-if (isxdigit c && ltb (digit_value c) base)
      (λ _. Ensures-bind (IsRead-fresh r e) (λ ch q k.
        Ensures-weaken (digits-Ensures f base _ ch q k.2 (k.1 ∙ t) (omega (arith, k.3))) k.0
          (λ _ s l. (l.0 ∙ k.0, l.1, omega (arith, l.2, k.3)))))
      (λ _.
        Ensures-bind (return_char-Ensures (byte c) r e)
          (λ _ q k. holds (k.0, k.1 ∙ t, omega (arith, k.2))))

-- A first digit is used up.
digits-Ensures_first :
    (f c base result : ℕ) (r : Reader)
    → (isxdigit c && ltb (digit_value c) base) ≡ true
    → r.returned ≡ none
    → r.temp ≡ []
    → 1 + length r.input < f
    → Ensures r.nesting (Kept r.nesting (length r.input)) (digits f base result (byte c) r)
unfolding digits
digits-Ensures_first zero c base result r d e t h = absurd (omega arith)
digits-Ensures_first (suc f) c base result r d e t h = rw d (
    Ensures-bind (IsRead-fresh r e) (λ ch q k.
      Ensures-weaken (digits-Ensures f base _ ch q k.2 (k.1 ∙ t) (omega (arith, k.3))) k.0
        (λ _ s l. (l.0 ∙ k.0, l.1, omega (arith, l.2, k.3)))))

pub parse_integer-Ensures :
    (f c : ℕ) (r : Reader)
    → isdigit c ≡ true
    → r.returned ≡ none
    → r.temp ≡ []
    → 1 + length r.input < f
    → Ensures r.nesting (Kept r.nesting (length r.input)) (parse_integer f c r)
unfolding parse_integer
parse_integer-Ensures f c r d e t h =
    let decimal : (isxdigit c && ltb (digit_value c) 10) ≡ true = ground arith in
    Ensures-if (c == b'0')
      (λ _. Ensures-bind (IsRead-fresh r e) (λ ch q k.
        Ensures-if (is_x ch)
          (λ _. Ensures-bind (Ensures-weaken (IsRead-fresh q k.2) k.0 (λ _ _ l. l)) (λ ch' s l.
            Ensures-weaken
              (digits-Ensures f 16 0 ch' s l.2 (l.1 ∙ k.1 ∙ t) (omega (arith, l.3, k.3)))
              (l.0 ∙ k.0) (λ _ u m. (m.0 ∙ l.0 ∙ k.0, m.1, omega (arith, m.2, l.3, k.3)))))
          (λ _.
            Ensures-weaken (digits-Ensures f 8 0 ch q k.2 (k.1 ∙ t) (omega (arith, k.3))) k.0
              (λ _ u m. (m.0 ∙ k.0, m.1, omega (arith, m.2, k.3))))))
      (λ _. digits-Ensures_first f c 10 0 r decimal e t h)

string_at-Ensures :
    (f : ℕ) (escaped : Bool) (ch : Input) (r q : Reader)
    → IsRead r.nesting r.temp (length r.input) ch q
    → length r.input < suc f
    → ((b : Bool) (s : Reader)
        → s.returned ≡ none
        → length s.input < f
        → Ensures s.nesting (Kept s.nesting (length s.input)) (string_from f b s))
    → Ensures r.nesting (Kept r.nesting (length r.input)) (string_at (string_from f) escaped ch q)
string_at-Ensures f escaped eof r q k h more = rejected k.0
string_at-Ensures f escaped (byte c) r q k h more =
    Ensures-if (not escaped && c == b'"')
      (λ _.
        Ensures-weaken (take_temp-Ensures (record q { ignore_comments = false })) k.0
          (λ _ s l. (l.0 ∙ k.0, l.3, omega (arith, ap length l.2, ap pending (l.1 ∙ k.2), k.3))))
      (λ _.
        Ensures-if (not escaped && c == b'\\')
          (λ _.
            Ensures-weaken (more true q k.2 (omega (arith, k.3))) k.0
              (λ _ s l. (l.0 ∙ k.0, l.1, omega (arith, l.2, k.3))))
          (λ _. Ensures-bind (Ensures-weaken (push_temp-Ensures c q) k.0 (λ _ _ l. l)) (λ _ s l.
            Ensures-weaken (more false s (l.1 ∙ k.2) (omega (arith, ap length l.2, k.3)))
              (l.0 ∙ k.0)
              (λ _ u m. (m.0 ∙ l.0 ∙ k.0, m.1, omega (arith, m.2, ap length l.2, k.3))))))

string_from-Ensures :
    (f : ℕ) (escaped : Bool) (r : Reader)
    → r.returned ≡ none
    → length r.input < f
    → Ensures r.nesting (Kept r.nesting (length r.input)) (string_from f escaped r)
unfolding string_from
string_from-Ensures zero escaped r e h = absurd (omega arith)
string_from-Ensures (suc f) escaped r e h =
    Ensures-bind (IsRead-fresh r e)
      (λ ch q k. string_at-Ensures f escaped ch r q k h (string_from-Ensures f))

pub parse_string-Ensures :
    (f : ℕ) (r : Reader)
    → r.returned ≡ none
    → length r.input < f
    → Ensures r.nesting (Kept r.nesting (length r.input)) (leave (parse_string f (deeper r)))
unfolding parse_string
parse_string-Ensures f r e h =
    Ensures-leave
      (string_from-Ensures f false (record r { nesting = r.nesting + 1; ignore_comments = true }) e
        h)
      refl (λ _ q k. (omega (arith, k.0), k.1, omega (arith, k.2)))

end_name-Ensures :
    (ch : Input) (r : Reader)
    → r.returned ≡ none
    → Ensures r.nesting (Kept r.nesting (cost ch + length r.input)) (end_name ch r)
end_name-Ensures ch r e =
    Ensures-if (length r.temp == 0) (λ _. rejected refl)
      (λ _. Ensures-bind (return_char-Ensures ch r e) (λ _ q k.
        Ensures-weaken (take_temp-Ensures q) k.0
          (λ _ s l. (l.0 ∙ k.0, l.3, omega (arith, ap length l.2, ap pending l.1, k.2)))))

name_at-Ensures :
    (f : ℕ) (ch : Input) (r q : Reader)
    → IsRead r.nesting r.temp (length r.input) ch q
    → length r.input < suc f
    → ((s : Reader)
        → s.returned ≡ none
        → length s.input < f
        → Ensures s.nesting (Kept s.nesting (length s.input)) (parse_variable_name f s))
    → Ensures r.nesting (Kept r.nesting (length r.input)) (name_at (parse_variable_name f) ch q)
name_at-Ensures f eof r q k h more =
    Ensures-weaken (end_name-Ensures eof q k.2) k.0
      (λ _ s l. (l.0 ∙ k.0, l.1, omega (arith, l.2, k.3)))
name_at-Ensures f (byte c) r q k h more =
    Ensures-if (not (is_name (byte c)))
      (λ _.
        Ensures-weaken (end_name-Ensures (byte c) q k.2) k.0
          (λ _ s l. (l.0 ∙ k.0, l.1, omega (arith, l.2, k.3))))
      (λ _. Ensures-bind (Ensures-weaken (push_temp-Ensures c q) k.0 (λ _ _ l. l)) (λ _ s l.
        Ensures-weaken (more s (l.1 ∙ k.2) (omega (arith, ap length l.2, k.3))) (l.0 ∙ k.0)
          (λ _ u m. (m.0 ∙ l.0 ∙ k.0, m.1, omega (arith, m.2, ap length l.2, k.3)))))

pub parse_variable_name-Ensures :
    (f : ℕ) (r : Reader)
    → r.returned ≡ none
    → length r.input < f
    → Ensures r.nesting (Kept r.nesting (length r.input)) (parse_variable_name f r)
unfolding parse_variable_name
parse_variable_name-Ensures zero r e h = absurd (omega arith)
parse_variable_name-Ensures (suc f) r e h =
    Ensures-bind (IsRead-fresh r e)
      (λ ch q k. name_at-Ensures f ch r q k h (parse_variable_name-Ensures f))
