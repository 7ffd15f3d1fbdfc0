-- ===== src/Config/Printer/RoundTrip.antt =====
-- The parser reads back what was printed.
use mathlib.Core.Path.{subst}
use kboot.Base.{
  ℕ, zero, suc, ◌+◌, ◌*◌, ◌≡◌, refl, sym, ap, ◌∙◌, [], ◌∷◌, ◌++◌, true, false, ◌⊎◌, inl, inr,
  length, length-append, arith,
}
use kboot.CString.{Bytes, isspace}
use kboot.Config.{
  Value, Values, Commands, integer, boolean, string, list, commands, reference, nil, cons, end,
  command,
}
use kboot.Config.Reader.{Input, eof, byte, Reader, Parsed, ok, file_read_helper, accept, read_char}
use kboot.Config.Parser.{parse_value, parse_values, parse_commands, initial, balanced, config_parse}
use kboot.Config.Printer.{
  value_head, value_tail, values_text, commands_text, IsPrintable, AreCommands,
}
use kboot.Base.Lists.{All-map}
use kboot.Config.Printer.Reading.{until_nul_lem, Ready, fresh, IsPlain, read_char-Ready}
use kboot.Config.Printer.Names.{
  value_tail-longer, values_text-longer, Starts, starts, line, Ending, file, brace, Closing-IsStop,
  values_text-Starts, name-Reads,
}
use kboot.Config.Printer.Forms.{
  ValueReads, ValuesRead, CommandsRead, values_at-space, values_at-close, values_at-value,
  head-IsPlain, list-Reads, commands-Reads, scalar-Reads_integer, scalar-Reads_boolean,
  scalar-Reads_string, scalar-Reads_reference,
}

values_end : ValuesRead nil
unfolding parse_values value_tail
values_end n zero d b need_space t s p k fuel ready = absurd (omega arith)
values_end n (suc f) d b need_space t s p k fuel ready =
    let (l, c, r) = read_char-Ready n d [] t ready (Closing-IsStop b d k).0 in
    (_, rw r (values_at-close (parse_value f) (parse_values f b) b need_space d _ k), fresh l c)

values_cons : (v : Value) (vs : Values) → ValueReads v → ValuesRead vs → ValuesRead (cons v vs)
unfolding parse_values value_tail IsPrintable
values_cons v vs value values n zero d b need_space t s p k fuel ready = absurd (omega arith)
values_cons v vs value values n (suc zero) d b need_space t s p k fuel ready = absurd (omega arith)
values_cons v vs value values n (suc (suc f)) d b need_space t s p k fuel ready =
    let after = values_text vs (d ∷ t) in
    let (l1, c1, r1) =
      read_char-Ready n b' ' [] (value_head v ∷ value_tail v after) ready (omega arith) in
    let (l2, c2, r2) =
      read_char-Ready n (value_head v) [] (value_tail v after) (fresh l1 c1) (head-IsPlain v) in
    let (s1, run1, ready1) =
      value n f l2 c2 after p.0 (values_text-Starts vs b d t k) (omega arith) in
    let (s2, run2, ready2) =
      values n f d b true t s1 p.1 k (omega (arith, fuel, value_tail-longer v after)) ready1 in
    (
      s2,
      rw r1 (
          values_at-space (parse_value (suc f)) (parse_values (suc f) b) b need_space _
          ∙ rw r2
              (values_at-value (parse_value f) (parse_values f b) b v _ ∙ rw run1 (rw run2 refl))),
      ready2,
    )

commands_end : CommandsRead end
unfolding parse_commands value_tail read_char accept file_read_helper
commands_end n zero endch tail t s p k fuel ready = absurd (omega arith)
commands_end n (suc f) _ _ _ _ p file fuel (fresh l c) = (_, refl, fresh _ _)
commands_end n (suc f) _ _ _ s p (brace t) fuel ready =
    let (l, c, r) = read_char-Ready n b'}' [] t ready (omega arith) in (_, rw r refl, fresh l c)

Ending-cases :
    (endch : Input) (tail t : Bytes) → Ending endch tail t → (endch ≡ eof) ⊎ (endch ≡ byte b'}')
Ending-cases _ _ _ file = inl refl
Ending-cases _ _ _ (brace t) = inr refl

-- The arguments of a command end its name: they start with a blank, or are none.
args-Starts :
    (args : Values) (rest : Bytes)
    → Starts (λ e. IsPlain e × (isspace e ≡ true)) (values_text args (b'\n' ∷ rest))
unfolding value_tail
args-Starts nil rest = starts b'\n' rest (omega arith, refl)
args-Starts (cons v vs) rest = starts b' ' _ (omega arith, refl)

first_of :
    {P : ℕ → Type 0} {t : Bytes} → Starts P t → (e : ℕ) × (rest : Bytes) × (t ≡ e ∷ rest) × P e
first_of (starts e rest h) = (e, rest, refl, h)

commands_cons :
    (name : Bytes) (args : Values) (cs : Commands)
    → ValuesRead args
    → CommandsRead cs
    → CommandsRead (command name args cs)
unfolding value_tail IsPrintable
commands_cons name args cs values cmds n f endch tail t s p k fuel ready =
    let tail_text = commands_text cs tail in
    let text = values_text args (b'\n' ∷ tail_text) in
    let lengths = length-append name text in
    let longer = values_text-longer args (b'\n' ∷ tail_text) in
    let (e, rest, same, h) = first_of (args-Starts args tail_text) in
    let (g, s1, run1, ready1, size) =
      name-Reads n f e endch name [] rest (Ending-cases endch tail t k) p.0.0
        (until_nul_lem name (All-map _ _ name (λ c h. h.4) p.0.0)) p.0.1 p.0.2 h.0 h.1 (omega arith)
        (subst (λ x. Ready n [] (name ++ x) s) same ready) in
    let (s2, run2, ready2) =
      values n g b'\n' true false tail_text s1 p.1 line (omega arith)
        (subst (λ x. Ready n [] x s1) (sym same) ready1) in
    let (s3, run3, ready3) = cmds n g endch tail t s2 p.2 k (omega arith) ready2 in
    (s3, run1 ∙ rw run2 (rw run3 refl), ready3)

mutual
  value-Reads : (v : Value) → ValueReads v
  value-Reads (integer k) = scalar-Reads_integer k
  value-Reads (boolean b) = scalar-Reads_boolean b
  value-Reads (string w) = scalar-Reads_string w
  value-Reads (list vs) = list-Reads vs (values-Reads vs)
  value-Reads (commands cs) = commands-Reads cs (command_list-Reads cs)
  value-Reads (reference w) = scalar-Reads_reference w

  values-Reads : (vs : Values) → ValuesRead vs
  values-Reads nil = values_end
  values-Reads (cons v vs) = values_cons v vs (value-Reads v) (values-Reads vs)

  command_list-Reads : (cs : Commands) → CommandsRead cs
  command_list-Reads end = commands_end
  command_list-Reads (command name args cs) =
      commands_cons name args cs (values-Reads args) (command_list-Reads cs)

settled :
    (cs : Commands) (p : Parsed Commands) {r : Reader}
    → Ready 0 [] [] r
    → p ≡ ok cs r
    → (balanced p ≡ ok cs r) × (r.input ≡ []) × (r.temp ≡ [])
settled cs p (fresh l c) e = (ap balanced e, refl, refl)

-- `config_parse` reads back what `commands_text` prints: the text of every command list whose words, names and
-- strings are of the characters that the format has for them, each shorter than temp_buf, is
-- parsed to that command list, and all of it is read. temp_buf is empty before and after.
pub config_parse-commands_text :
    (cs : Commands)
    → AreCommands cs
    → (r : Reader) × (config_parse [] (commands_text cs []) ≡ ok cs r)
      × (r.input ≡ [])
      × (r.temp ≡ [])
unfolding config_parse
config_parse-commands_text cs p =
    let text = commands_text cs [] in
    let (r, run, ready) =
      command_list-Reads cs 0 (3 * length text + 4) eof [] [] (initial [] text) p file (omega arith)
        (fresh 1 0) in
    let (kept, left, empty) =
      settled cs (parse_commands (3 * length text + 4) eof (initial [] text)) ready run in
    (r, kept, left, empty)
