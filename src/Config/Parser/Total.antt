-- ===== src/Config/Parser/Total.antt =====
-- The outcomes of the parser on every text.
use kboot.Base.{
  ℕ, zero, suc, ◌+◌, ◌*◌, ◌≤◌, ◌≡◌, refl, ap, ◌∙◌, [], none, true, false, ◌||◌, ◌==◌, length, arith,
}
use kboot.CString.{Bytes}
use kboot.Config.{Commands, command}
use kboot.Config.Reader.{Input, eof, byte, Reader, Parsed, ok, bind, return_char, take_temp}
use kboot.Config.Parser.{
  is_space, name_char, is_end, commands_at, end_char, parse_values, parse_commands, initial,
  balanced, config_parse,
}
use kboot.Config.Parser.Ensures.{
  Ensures, holds, rejected, ends, Ensures-bind, Ensures-if, Ensures-weaken, cost, weight, pending,
  read_char-Ensures, return_char-Ensures, push_temp-Ensures, take_temp-Ensures,
}
use kboot.Config.Parser.Scalars.{Kept, nil_of_length}
use kboot.Config.Parser.Rounds.{
  held, ValueEnds, ValuesEnd, CommandsEnd, value-Ensures, values-Ensures,
}

-- The end of a command's name, and the rest of the list.
named-Ensures :
    (f : ℕ) (endch ch : Input) (q : Reader) (w : ℕ)
    → ValuesEnd f
    → CommandsEnd f
    → q.returned ≡ none
    → cost ch + length q.input ≤ w
    → 3 * w + 3 ≤ f
    → Ensures q.nesting (Kept q.nesting w) (
        bind (take_temp q) λ name r1. bind (return_char ch r1) λ _ r2.
          bind
            (parse_values f true false false r2)
            λ vs r3. bind (parse_commands f endch r3) λ rest r4. ok (command name vs rest) r4)
named-Ensures f endch ch q w values cmds e l h = Ensures-bind (take_temp-Ensures q) (λ name s k.
    Ensures-bind (Ensures-weaken (return_char-Ensures ch s (k.1 ∙ e)) k.0 (λ _ _ m. m)) (λ _ u m.
      Ensures-bind
        (Ensures-weaken (values true false false u (m.1 ∙ k.3) (omega (arith, m.2, ap length k.2)))
          (m.0 ∙ k.0) (λ _ _ x. x))
        (λ vs x n.
          Ensures-bind
            (Ensures-weaken (cmds endch x (omega (arith, n.2, m.2, ap length k.2, ap length n.1)))
              (n.0 ∙ m.0 ∙ k.0) (λ _ _ y. y))
            (λ rest z y.
              holds (y.0 ∙ n.0 ∙ m.0 ∙ k.0, y.1, omega (arith, y.2, n.2, m.2, ap length k.2))))))

commands_at-Ensures :
    (f : ℕ) (endch ch : Input) (q : Reader) (w : ℕ)
    → ValuesEnd f
    → CommandsEnd f
    → q.returned ≡ none
    → cost ch + length q.input ≤ w
    → 3 * w + 2 + held q.temp ≤ f
    → Ensures q.nesting
        (Kept q.nesting w)
        (commands_at (parse_values f true false false) (parse_commands f endch) endch ch q)
commands_at-Ensures f endch ch q w values cmds e l h =
    Ensures-if (is_end endch ch || is_space ch)
      (λ stop.
        Ensures-if (length q.temp == 0)
          (λ empty.
            Ensures-if (is_end endch ch)
              (λ _. holds (refl, nil_of_length q.temp empty, omega (arith, l, ap pending e)))
              (λ going. skipped ch l (ground (arith, stop, going)) (nil_of_length q.temp empty)))
          (λ some_name.
            named-Ensures f endch ch q w values cmds e l (ground (arith, h, some_name))))
      (λ _. pushed ch l)
  where
    skipped :
        (x : Input)
        → cost x + length q.input ≤ w
        → is_space x ≡ true
        → q.temp ≡ []
        → Ensures q.nesting (Kept q.nesting w) (parse_commands f endch q)
    skipped eof m space t = ground (arith, space)
    skipped (byte c) m space t =
        Ensures-weaken (cmds endch q (omega (arith, m, h, ap pending e, ap length t))) refl
          (λ _ s k. (k.0, k.1, omega (arith, k.2, m, ap pending e)))

    pushed :
        (x : Input)
        → cost x + length q.input ≤ w
        → Ensures q.nesting (Kept q.nesting w) (name_char (parse_commands f endch) x q)
    pushed eof m = rejected refl
    pushed (byte c) m = Ensures-bind (push_temp-Ensures c q) (λ _ s k.
        Ensures-weaken (cmds endch s (omega (arith, m, h, ap pending (k.1 ∙ e), ap length k.2))) k.0
          (λ _ u n. (n.0 ∙ k.0, n.1, omega (arith, n.2, m, ap pending (k.1 ∙ e), ap length k.2))))

command_list-Ensures : (f : ℕ) → ValuesEnd f → CommandsEnd f → CommandsEnd (suc f)
unfolding parse_commands
command_list-Ensures f values cmds endch r h = Ensures-bind (read_char-Ensures r) (λ ch q k.
    Ensures-weaken
      (commands_at-Ensures f endch ch q (weight r) values cmds k.2 k.3
        (omega (arith, h, ap length k.1)))
      k.0 (λ _ s l. (l.0 ∙ k.0, l.1, l.2)))

all_end : (f : ℕ) → ValueEnds f × ValuesEnd f × CommandsEnd f
all_end zero = (
  (λ ch r e t h. absurd (omega arith)),
  (λ b x n r t h. absurd (omega arith)),
  λ endch r h. absurd (omega arith),
)
all_end (suc f) =
    let (value, values, cmds) = all_end f in
    (value-Ensures f values cmds, values-Ensures f value values, command_list-Ensures f values cmds)

balanced-Ensures :
    (p : Parsed Commands) (w : ℕ) → Ensures 0 (Kept 0 w) p → Ensures 0 (Kept 0 w) (balanced p)
balanced-Ensures _ w (holds {a} {r} h) =
    Ensures-if (r.nesting == 0) (λ _. holds h) (λ ne. ground (arith, h.0, ne))
balanced-Ensures _ w (rejected {r} h) =
    Ensures-if (r.nesting == 0) (λ _. rejected h) (λ ne. ground (arith, h, ne))
balanced-Ensures _ w (ends h) = ends h

-- On every text, and whatever an earlier parse left in temp_buf, `config_parse` does one of three things. It returns,
-- with a nesting of 0 whether it succeeds or not, and with temp_buf empty after a success; or temp_buf overflows; or
-- a comment runs to the end of the file, and is read forever. Its other loops make fewer rounds than the fuel, and
-- none of its assertions fails.
pub config_parse-Ensures :
    (temp input : Bytes) → Ensures 0 (Kept 0 (length input)) (config_parse temp input)
unfolding config_parse
config_parse-Ensures temp input = balanced-Ensures _ (length input) (
    Ensures-weaken
      ((all_end (3 * length input + 4)).2 (end_char 0) (initial temp input) (omega arith)) refl
      (λ _ s k. (k.0, k.1, omega (arith, k.2))))
