-- ===== src/Config/Parser/Walk.antt =====
-- A walk through the parser: it keeps what its reads and its buffer keep.
use kboot.Base.{
  ℕ, zero, suc, ◌+◌, ◌-◌, ◌*◌, ◌%◌, ◌^◌, [], ◌∷◌, Bool, true, false, not, ◌&&◌, ◌||◌, ltb, ◌==◌,
  length,
}
use kboot.CString.{Bytes, isdigit, isxdigit}
use kboot.Config.{Commands, integer, boolean, string, list, commands, reference, nil, cons, command}
use kboot.Config.Reader.{
  Input, eof, byte, Reader, Parsed, ok, bind, return_char, push_temp, take_temp,
}
use kboot.Config.Parser.{
  is, is_eof, is_space, is_end, is_name, is_x, expect_char, expect_chars, digits, digit_value,
  parse_integer, string_at, string_from, parse_string, end_name, name_at, parse_variable_name,
  leave, deeper, end_char, name_char, values_at, commands_at, parse_value, parse_values,
  parse_commands, initial, balanced, config_parse,
}
use kboot.Config.Parser.Discipline.{
  Spares, gives, fails, faults, starves, Spares-bind, Spares-if, Discipline,
}

module _ (d : Discipline) where
  abbrev pub Clean : {A : Type 0} → Parsed A → Type 0
  Clean p = Spares d.Allowed (λ _ q. d.Holds q) p

  returned_with :
      {A : Type 0} (ch : Input) (r : Reader) (f : Reader → Parsed A)
      → d.Has ch r
      → ((q : Reader) → d.Holds q → Clean (f q))
      → Clean (bind (return_char ch r) (λ _ q. f q))
  returned_with ch r f h k = Spares-bind (d.gives_back ch r h) (λ _ q c. k q c)

  pushed_with :
      {A : Type 0} (c : ℕ) (r : Reader) (f : Reader → Parsed A)
      → d.Has (byte c) r
      → ((q : Reader) → d.Holds q → Clean (f q))
      → Clean (bind (push_temp c r) (λ _ q. f q))
  pushed_with c r f h k = Spares-bind (d.pushes c r h) (λ _ q s. k q s)

  expect_char-Clean : (c : ℕ) (r : Reader) → d.Holds r → Clean (expect_char c r)
  unfolding expect_char
  expect_char-Clean c r h =
      Spares-bind (d.reads r h) (λ ch q k. Spares-if (is ch c) (gives (d.drops ch q k)) fails)

  expect_chars-Clean : (word : Bytes) (r : Reader) → d.Holds r → Clean (expect_chars word r)
  unfolding expect_chars
  expect_chars-Clean [] r h = gives h
  expect_chars-Clean (c ∷ word) r h =
      Spares-bind (expect_char-Clean c r h) (λ _ q k. expect_chars-Clean word q k)

  digits-Clean :
      (f base result : ℕ) (ch : Input) (r : Reader) → d.Has ch r → Clean (digits f base result ch r)
  unfolding digits
  digits-Clean zero base result ch r h = starves
  digits-Clean (suc f) base result eof r h = returned_with eof r (ok result) h (λ q k. gives k)
  digits-Clean (suc f) base result (byte c) r h =
      Spares-if (isxdigit c && ltb (digit_value c) base)
        (Spares-bind (d.reads r (d.drops (byte c) r h))
          (λ ch q k. digits-Clean f base ((result * base + digit_value c) % 2 ^ 64) ch q k))
        (returned_with (byte c) r (ok result) h (λ q k. gives k))

  parse_integer-Clean : (f c : ℕ) (r : Reader) → d.Has (byte c) r → Clean (parse_integer f c r)
  unfolding parse_integer
  parse_integer-Clean f c r h =
      Spares-if (c == b'0')
        (Spares-bind (d.reads r (d.drops (byte c) r h)) (λ ch q k.
          Spares-if (is_x ch)
            (Spares-bind (d.reads q (d.drops ch q k)) (λ ch' s l. digits-Clean f 16 0 ch' s l))
            (digits-Clean f 8 0 ch q k)))
        (digits-Clean f 10 0 (byte c) r h)

  string_at-Clean :
      (more : Bool → Reader → Parsed Bytes) (escaped : Bool) (ch : Input) (r : Reader)
      → d.Has ch r
      → ((b : Bool) (q : Reader) → d.Holds q → Clean (more b q))
      → Clean (string_at more escaped ch r)
  string_at-Clean more escaped eof r h k = fails
  string_at-Clean more escaped (byte c) r h k =
      let held = d.drops (byte c) r h in
      Spares-if (not escaped && c == b'"')
        (d.finishes (record r { ignore_comments = false }) (d.marks r false held))
        (Spares-if (not escaped && c == b'\\') (k true r held)
          (pushed_with c r (more false) h (k false)))

  string_from-Clean :
      (f : ℕ) (escaped : Bool) (r : Reader) → d.Holds r → Clean (string_from f escaped r)
  unfolding string_from
  string_from-Clean zero escaped r h = starves
  string_from-Clean (suc f) escaped r h =
      Spares-bind (d.reads r h)
        (λ ch q k. string_at-Clean (string_from f) escaped ch q k (string_from-Clean f))

  leave-Clean : {A : Type 0} {p : Parsed A} → Clean p → Clean (leave p)
  leave-Clean (gives {a} {r} h) = gives (d.nests r (r.nesting - 1) h)
  leave-Clean fails = fails
  leave-Clean (faults h) = faults h
  leave-Clean starves = starves

  end_name-Clean : (ch : Input) (r : Reader) → d.Has ch r → Clean (end_name ch r)
  end_name-Clean ch r h =
      Spares-if (length r.temp == 0) fails (returned_with ch r take_temp h (λ q k. d.finishes q k))

  name_at-Clean :
      (more : Reader → Parsed Bytes) (ch : Input) (r : Reader)
      → d.Has ch r
      → ((q : Reader) → d.Holds q → Clean (more q))
      → Clean (name_at more ch r)
  name_at-Clean more eof r h k = end_name-Clean eof r h
  name_at-Clean more (byte c) r h k =
      Spares-if (not (is_name (byte c))) (end_name-Clean (byte c) r h) (pushed_with c r more h k)

  parse_variable_name-Clean : (f : ℕ) (r : Reader) → d.Holds r → Clean (parse_variable_name f r)
  unfolding parse_variable_name
  parse_variable_name-Clean zero r h = starves
  parse_variable_name-Clean (suc f) r h =
      Spares-bind (d.reads r h)
        (λ ch q k. name_at-Clean (parse_variable_name f) ch q k (parse_variable_name-Clean f))

  -- The three recursive functions with an amount of fuel.
  abbrev ValueClean : ℕ → Type 0
  ValueClean f = (ch : Input) (r : Reader) → d.Has ch r → Clean (parse_value f ch r)

  abbrev ValuesClean : ℕ → Type 0
  ValuesClean f =
      (is_command escaped need_space : Bool) (r : Reader)
      → d.Holds r
      → Clean (parse_values f is_command escaped need_space r)

  abbrev CommandsClean : ℕ → Type 0
  CommandsClean f = (endch : Input) (r : Reader) → d.Holds r → Clean (parse_commands f endch r)

  made : {A B : Type 0} {p : Parsed A} (g : A → B) → Clean p → Clean (bind p (λ a q. ok (g a) q))
  made g h = Spares-bind h (λ a q k. gives k)

  value-Clean : (f : ℕ) → ValuesClean f → CommandsClean f → ValueClean (suc f)
  unfolding parse_value parse_string
  value-Clean f values cmds eof r h = fails
  value-Clean f values cmds (byte c) r h =
      let held = d.drops (byte c) r h in
      let inner = d.nests r (r.nesting + 1) held in
      Spares-if (isdigit c) (made integer (parse_integer-Clean f c r h)) (
        Spares-if (c == b't') (made (λ _. boolean true) (expect_chars-Clean _ r held)) (
          Spares-if (c == b'f') (made (λ _. boolean false) (expect_chars-Clean _ r held)) (
            Spares-if (c == b'"')
              (made string (
                leave-Clean (
                  string_from-Clean f false (record (deeper r) { ignore_comments = true })
                    (d.marks (deeper r) true inner))))
              (Spares-if (c == b'[')
                (made list (leave-Clean (values false false false (deeper r) inner)))
                (Spares-if (c == b'{')
                  (made commands (leave-Clean (cmds (end_char (r.nesting + 1)) (deeper r) inner)))
                  (Spares-if (c == b'$') (made reference (parse_variable_name-Clean f r held))
                    fails))))))

  values_at-Clean :
      (f : ℕ) (is_command escaped need_space : Bool) (ch : Input) (r : Reader)
      → ValueClean f
      → ValuesClean f
      → d.Has ch r
      → Clean
          (values_at (parse_value f) (parse_values f is_command) is_command escaped need_space ch r)
  values_at-Clean f is_command escaped need_space ch r value values h =
      let held = d.drops ch r h in
      Spares-if (not escaped && is ch b'\\') (values is_command true need_space r held) (
        Spares-if (not escaped && (is ch b'\n' || is_eof ch) && is_command) (gives held) (
          Spares-if (is_command && is ch b'}') (returned_with ch r (ok nil) h (λ q k. gives k)) (
            Spares-if (not is_command && is ch b']') (gives held) (
              Spares-if (is_space ch) (values is_command false false r held) (
                Spares-if need_space fails (
                  Spares-bind (value ch r h)
                    (λ v q k. made (cons v) (values is_command false true q k))))))))

  commands_at-Clean :
      (f : ℕ) (endch ch : Input) (r : Reader)
      → ValuesClean f
      → CommandsClean f
      → d.Has ch r
      → Clean (commands_at (parse_values f true false false) (parse_commands f endch) endch ch r)
  commands_at-Clean f endch ch r values cmds h =
      let held = d.drops ch r h in
      Spares-if (is_end endch ch || is_space ch)
        (Spares-if (length r.temp == 0)
          (Spares-if (is_end endch ch) (gives held) (cmds endch r held))
          (Spares-bind (d.takes ch r h) (λ name q s. Spares-bind (d.gives_back ch q s) (λ _ u k.
            Spares-bind (values true false false u k)
              (λ vs x l. made (command name vs) (cmds endch x l))))))
        (named ch h)
    where
      named : (x : Input) → d.Has x r → Clean (name_char (parse_commands f endch) x r)
      named eof has = fails
      named (byte c) has = pushed_with c r (parse_commands f endch) has (cmds endch)

  all_clean : (f : ℕ) → ValueClean f × ValuesClean f × CommandsClean f
  unfolding parse_value parse_values parse_commands
  all_clean zero =
      ((λ ch r h. starves), (λ is_command escaped need_space r h. starves), λ endch r h. starves)
  all_clean (suc f) =
      let (value, values, cmds) = all_clean f in
      (
        value-Clean f values cmds,
        (λ is_command escaped need_space r h.
            Spares-bind (d.reads r h)
              (λ ch q k. values_at-Clean f is_command escaped need_space ch q value values k)),
        λ endch r h.
            Spares-bind (d.reads r h) (λ ch q k. commands_at-Clean f endch ch q values cmds k),
      )

  balanced-Clean : (p : Parsed Commands) → Clean p → Clean (balanced p)
  balanced-Clean _ (gives {a} {r} h) = Spares-if (r.nesting == 0) (gives h) (faults d.asserts)
  balanced-Clean _ (fails {r}) = Spares-if (r.nesting == 0) fails (faults d.asserts)
  balanced-Clean _ (faults h) = faults h
  balanced-Clean _ starves = starves

  -- The whole parse keeps to the discipline.
  pub config_parse-Clean :
      (temp input : Bytes) → d.Holds (initial temp input) → Clean (config_parse temp input)
  unfolding config_parse
  config_parse-Clean temp input h =
      balanced-Clean _ ((all_clean (3 * length input + 4)).2 (end_char 0) (initial temp input) h)
