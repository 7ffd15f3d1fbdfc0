-- ===== src/Config/Parser/Rounds.antt =====
-- The parts of the parser that read values and value lists end, with their assertions met.
use kboot.Base.{
  ℕ, zero, suc, ◌+◌, ◌*◌, ◌≤◌, ◌≡◌, refl, ap, ◌∙◌, [], none, Bool, true, false, not, ◌&&◌, ◌||◌,
  ◌==◌, length, arith, min,
}
use kboot.CString.{Bytes, isdigit, isspace}
use kboot.Config.{cons}
use kboot.Config.Reader.{Input, eof, byte, Reader, ok, bind}
use kboot.Config.Parser.{
  values_at, end_char, parse_value, parse_values, parse_commands, leave, deeper,
}
use kboot.Config.Parser.Ensures.{
  Ensures, holds, rejected, Ensures-bind, Ensures-if, Ensures-weaken, Ensures-leave, cost, weight,
  pending, read_char-Ensures, return_char-Ensures,
}
use kboot.Config.Parser.Scalars.{
  Kept, expect_chars-Ensures, parse_integer-Ensures, parse_string-Ensures,
  parse_variable_name-Ensures,
}

-- What is in temp_buf costs a round.
abbrev pub held : Bytes → ℕ
held temp = min 1 (length temp)

-- The three recursive functions with an amount of fuel.
abbrev pub ValueEnds : ℕ → Type 0
ValueEnds f =
    (ch : Input) (r : Reader)
    → r.returned ≡ none
    → r.temp ≡ []
    → 3 * (cost ch + length r.input) + 1 ≤ f
    → Ensures r.nesting (Kept r.nesting (length r.input)) (parse_value f ch r)

abbrev pub ValuesEnd : ℕ → Type 0
ValuesEnd f =
    (is_command escaped need_space : Bool) (r : Reader)
    → r.temp ≡ []
    → 3 * weight r + 2 ≤ f
    → Ensures r.nesting (Kept r.nesting (weight r)) (parse_values f is_command escaped need_space r)

abbrev pub CommandsEnd : ℕ → Type 0
CommandsEnd f =
    (endch : Input) (r : Reader)
    → 3 * weight r + 3 + held r.temp ≤ f
    → Ensures r.nesting (Kept r.nesting (weight r)) (parse_commands f endch r)

-- A list in brackets.
list-Ensures :
    (f : ℕ) (r : Reader)
    → ValuesEnd f
    → r.returned ≡ none
    → r.temp ≡ []
    → 3 * length r.input + 2 ≤ f
    → Ensures r.nesting
        (Kept r.nesting (length r.input))
        (leave (parse_values f false false false (deeper r)))
list-Ensures f r values e t h =
    Ensures-leave (values false false false (deeper r) t (omega (arith, ap pending e))) refl
      (λ _ q k. (omega (arith, k.0), k.1, omega (arith, k.2, ap pending e)))

-- A command list in braces.
commands-Ensures :
    (f : ℕ) (r : Reader)
    → CommandsEnd f
    → r.returned ≡ none
    → r.temp ≡ []
    → 3 * length r.input + 3 ≤ f
    → Ensures r.nesting
        (Kept r.nesting (length r.input))
        (leave (parse_commands f (end_char (r.nesting + 1)) (deeper r)))
commands-Ensures f r cmds e t h =
    Ensures-leave (cmds _ (deeper r) (omega (arith, ap pending e, ap length t))) refl
      (λ _ q k. (omega (arith, k.0), k.1, omega (arith, k.2, ap pending e)))

pub value-Ensures : (f : ℕ) → ValuesEnd f → CommandsEnd f → ValueEnds (suc f)
unfolding parse_value
value-Ensures f values cmds eof r e t h = rejected refl
value-Ensures f values cmds (byte c) r e t h =
    Ensures-if (isdigit c)
      (λ d. Ensures-bind (parse_integer-Ensures f c r d e t (omega arith)) (λ _ q k. holds k))
      (λ _.
        Ensures-if (c == b't')
          (λ _.
            Ensures-bind (expect_chars-Ensures _ r e t)
              (λ _ q k. holds (k.0, k.1, omega (arith, k.2))))
          (λ _.
            Ensures-if (c == b'f')
              (λ _.
                Ensures-bind (expect_chars-Ensures _ r e t)
                  (λ _ q k. holds (k.0, k.1, omega (arith, k.2))))
              (λ _.
                Ensures-if (c == b'"')
                  (λ _.
                    Ensures-bind (parse_string-Ensures f r e (omega arith))
                      (λ _ q k. holds (k.0, k.1, omega (arith, k.2))))
                  (λ _.
                    Ensures-if (c == b'[')
                      (λ _.
                        Ensures-bind (list-Ensures f r values e t (omega arith))
                          (λ _ q k. holds (k.0, k.1, omega (arith, k.2))))
                      (λ _.
                        Ensures-if (c == b'{')
                          (λ _.
                            Ensures-bind (commands-Ensures f r cmds e t (omega arith))
                              (λ _ q k. holds (k.0, k.1, omega (arith, k.2))))
                          (λ _.
                            Ensures-if (c == b'$')
                              (λ _.
                                Ensures-bind (parse_variable_name-Ensures f r e (omega arith))
                                  (λ _ q k. holds (k.0, k.1, omega (arith, k.2))))
                              (λ _. rejected refl)))))))

-- A round that reads a value and goes on.
round-Ensures :
    (f : ℕ) (is_command : Bool) (c : ℕ) (q : Reader) (w : ℕ)
    → ValueEnds f
    → ValuesEnd f
    → q.returned ≡ none
    → q.temp ≡ []
    → suc (length q.input) ≤ w
    → 3 * w + 1 ≤ f
    → Ensures q.nesting (Kept q.nesting w) (
        bind
          (parse_value f (byte c) q)
          λ v r1. bind (parse_values f is_command false true r1) λ vs r2. ok (cons v vs) r2)
round-Ensures f is_command c q w value values e t l h =
    Ensures-bind (value (byte c) q e t (omega arith)) (λ v s k.
      Ensures-bind
        (Ensures-weaken (values is_command false true s k.1 (omega (arith, k.2))) k.0 (λ _ _ m. m))
        (λ vs u m. holds (m.0 ∙ k.0, m.1, omega (arith, m.2, k.2))))

values_at-Ensures :
    (f : ℕ) (is_command escaped need_space : Bool) (ch : Input) (q : Reader) (w : ℕ)
    → ValueEnds f
    → ValuesEnd f
    → q.returned ≡ none
    → q.temp ≡ []
    → cost ch + length q.input ≤ w
    → 3 * w + 1 ≤ f
    → Ensures q.nesting
        (Kept q.nesting w)
        (values_at (parse_value f) (parse_values f is_command) is_command escaped need_space ch q)
unfolding parse_value
values_at-Ensures zero is_command escaped need_space eof q w value values e t l h =
    absurd (omega arith)
values_at-Ensures (suc f) is_command escaped need_space eof q w value values e t l h =
    Ensures-if (not escaped && false) (λ x. ground (arith, x))
      (λ _.
        Ensures-if (not escaped && (false || true) && is_command)
          (λ _. holds (refl, t, omega (arith, l, ap pending e)))
          (λ _.
            Ensures-if (is_command && false) (λ x. ground (arith, x))
              (λ _.
                Ensures-if (not is_command && false) (λ x. ground (arith, x))
                  (λ _. Ensures-if need_space (λ _. rejected refl) (λ _. rejected refl)))))
values_at-Ensures f is_command escaped need_space (byte c) q w value values e t l h =
    Ensures-if (not escaped && c == b'\\') (λ _. again true need_space)
      (λ _.
        Ensures-if (not escaped && (c == b'\n' || false) && is_command)
          (λ _. holds (refl, t, omega (arith, l, ap pending e)))
          (λ _.
            Ensures-if (is_command && c == b'}')
              (λ _.
                Ensures-bind (return_char-Ensures (byte c) q e)
                  (λ _ s k. holds (k.0, k.1 ∙ t, omega (arith, k.2))))
              (λ _.
                Ensures-if (not is_command && c == b']')
                  (λ _. holds (refl, t, omega (arith, l, ap pending e)))
                  (λ _.
                    Ensures-if (isspace c) (λ _. again false false)
                      (λ _.
                        Ensures-if need_space (λ _. rejected refl)
                          (λ _.
                            round-Ensures f is_command c q w value values e t (omega arith) h))))))
  where
    again : (x n : Bool) → Ensures q.nesting (Kept q.nesting w) (parse_values f is_command x n q)
    again x n =
        Ensures-weaken (values is_command x n q t (omega (arith, l, ap pending e))) refl
          (λ _ s k. (k.0, k.1, omega (arith, k.2, l, ap pending e)))

pub values-Ensures : (f : ℕ) → ValueEnds f → ValuesEnd f → ValuesEnd (suc f)
unfolding parse_values
values-Ensures f value values is_command escaped need_space r t h =
    Ensures-bind (read_char-Ensures r) (λ ch q k.
      Ensures-weaken
        (values_at-Ensures f is_command escaped need_space ch q (weight r) value values k.2
          (k.1 ∙ t) k.3 (omega arith))
        k.0 (λ _ s l. (l.0 ∙ k.0, l.1, l.2)))
