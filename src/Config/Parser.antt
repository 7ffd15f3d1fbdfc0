-- ===== src/Config/Parser.antt =====
-- The configuration parser of source/config.c, from expect_char to config_parse. The loops take fuel; a
-- call that returns NULL is `failed`. An EOF is given again by every later read.
pub mod Ensures
pub mod Scalars
pub mod Rounds
pub mod Total
pub mod Discipline
pub mod Walk
pub mod Closed
pub mod Small
pub mod Ended
use kboot.Base.{
  ℕ, zero, suc, ◌+◌, ◌-◌, ◌*◌, ◌%◌, ◌^◌, List, [], ◌∷◌, ◌++◌, Option, none, some, Bool, true, false,
  ◌&&◌, ◌||◌, not, ltb, ◌==◌, if◌then◌else◌, length,
}
use kboot.Base.Outcome.{Fault, assertion}
use kboot.CString.{Bytes, isdigit, isxdigit, isalnum, isspace, tolower}
use kboot.Config.{
  Value, Values, Commands, integer, boolean, string, list, commands, reference, nil, cons, end,
  command,
}
use kboot.Config.Reader.{
  Input, eof, byte, Reader, Parsed, ok, failed, halted, out_of_fuel, bind, read_char, return_char,
  push_temp, take_temp,
}

abbrev pub is : Input → ℕ → Bool
is eof c = false
is (byte d) c = d == c

abbrev pub is_eof : Input → Bool
is_eof eof = true
is_eof (byte d) = false

abbrev pub is_space : Input → Bool
is_space eof = false
is_space (byte d) = isspace d

unfoldable pub expect_char : ℕ → Reader → Parsed (Unit {0})
expect_char expect r = bind (read_char r) λ ch r1. if is ch expect then ok tt r1 else failed r1

unfoldable pub expect_chars : Bytes → Reader → Parsed (Unit {0})
expect_chars [] r = ok tt r
expect_chars (c ∷ word) r = bind (expect_char c r) λ _ r1. expect_chars word r1

-- What a digit counts, in any base up to 16.
abbrev pub digit_value : ℕ → ℕ
digit_value c = if isdigit c then c - b'0' else tolower c - b'a' + 10

unfoldable pub digits : ℕ → ℕ → ℕ → Input → Reader → Parsed ℕ
digits zero base result ch r = out_of_fuel
digits (suc f) base result eof r = bind (return_char eof r) λ _ r1. ok result r1
digits (suc f) base result (byte c) r =
    let next =
      bind (read_char r) λ ch r1. digits f base ((result * base + digit_value c) % 2 ^ 64) ch r1 in
    let done = bind (return_char (byte c) r) λ _ r1. ok result r1 in
    if isxdigit c && ltb (digit_value c) base then next else done

abbrev pub is_x : Input → Bool
is_x eof = false
is_x (byte c) = tolower c == b'x'

unfoldable pub parse_integer : ℕ → ℕ → Reader → Parsed ℕ
parse_integer f c r =
    if c == b'0'
    then bind (read_char r) (λ ch r1.
      if is_x ch then bind (read_char r1) (λ ch' r2. digits f 16 0 ch' r2) else digits f 8 0 ch r1)
    else digits f 10 0 (byte c) r

-- A round of parse_string, by what it read; `more` is the loop from the next round on.
abbrev pub string_at : (Bool → Reader → Parsed Bytes) → Bool → Input → Reader → Parsed Bytes
string_at more escaped eof r = failed (record r { temp = [] })
string_at more escaped (byte c) r =
    if not escaped && c == b'"'
    then take_temp (record r { ignore_comments = false })
    else if not escaped && c == b'\\'
    then more true r
    else bind (push_temp c r) (λ _ r1. more false r1)

-- The loop of parse_string. The flag is `escaped`.
unfoldable pub string_from : ℕ → Bool → Reader → Parsed Bytes
string_from zero escaped r = out_of_fuel
string_from (suc f) escaped r = bind (read_char r) λ ch r1. string_at (string_from f) escaped ch r1

unfoldable pub parse_string : ℕ → Reader → Parsed Bytes
parse_string f r = string_from f false (record r { ignore_comments = true })

abbrev pub is_name : Input → Bool
is_name eof = false
is_name (byte c) = isalnum c || c == b'_'

-- The end of a name, at a character that is given back.
abbrev pub end_name : Input → Reader → Parsed Bytes
end_name ch r =
    if length r.temp == 0 then failed r else bind (return_char ch r) (λ _ r1. take_temp r1)

-- A round of parse_variable_name, by what it read.
abbrev pub name_at : (Reader → Parsed Bytes) → Input → Reader → Parsed Bytes
name_at more eof r = end_name eof r
name_at more (byte c) r =
    if not (is_name (byte c)) then end_name (byte c) r else bind (push_temp c r) (λ _ r1. more r1)

unfoldable pub parse_variable_name : ℕ → Reader → Parsed Bytes
parse_variable_name zero r = out_of_fuel
parse_variable_name (suc f) r = bind (read_char r) λ ch r1. name_at (parse_variable_name f) ch r1

-- nesting_count is raised for a call, and lowered after it whether it fails or not.
abbrev pub leave {ℓ} : {A : Type ℓ} → Parsed A → Parsed A
leave (ok a r) = ok a (record r { nesting = r.nesting - 1 })
leave (failed r) = failed (record r { nesting = r.nesting - 1 })
leave (halted e) = halted e
leave out_of_fuel = out_of_fuel

abbrev pub deeper : Reader → Reader
deeper r = record r { nesting = r.nesting + 1 }

-- The character that ends a command list.
abbrev pub end_char : ℕ → Input
end_char nesting = if nesting == 0 then eof else byte b'}'

abbrev pub is_end : Input → Input → Bool
is_end eof ch = is_eof ch
is_end (byte c) ch = is ch c

-- A character of a command's name.
abbrev pub name_char : (Reader → Parsed Commands) → Input → Reader → Parsed Commands
name_char more eof r = failed r
name_char more (byte c) r = bind (push_temp c r) (λ _ r1. more r1)

-- A round of parse_value_list, by what it read. `value` reads a value that starts with the character,
-- `again` is the loop from the next round on, with `escaped` and `need_space`.
abbrev pub values_at :
    (Input → Reader → Parsed Value)
    → (Bool → Bool → Reader → Parsed Values)
    → Bool
    → Bool
    → Bool
    → Input
    → Reader
    → Parsed Values
values_at value again is_command escaped need_space ch r =
    if not escaped && is ch b'\\'
    then again true need_space r
    else if not escaped && (is ch b'\n' || is_eof ch) && is_command
    then ok nil r
    else if is_command && is ch b'}'
    then bind (return_char ch r) (λ _ r1. ok nil r1)
    else if not is_command && is ch b']'
    then ok nil r
    else if is_space ch
    then again false false r
    else if need_space
    then failed r
    else bind (value ch r) (λ v r1. bind (again false true r1) (λ vs r2. ok (cons v vs) r2))

-- A round of parse_command_list, by what it read. `args` reads the arguments of a command, `again` is
-- the loop from the next round on.
abbrev pub commands_at :
    (Reader → Parsed Values) → (Reader → Parsed Commands) → Input → Input → Reader → Parsed Commands
commands_at args again endch ch r =
    if is_end endch ch || is_space ch
    then (if length r.temp == 0
        then (if is_end endch ch then ok end r else again r)
        else bind (take_temp r) λ name r1.
          bind (return_char ch r1)
            λ _ r2. bind (args r2) λ vs r3. bind (again r3) λ rest r4. ok (command name vs rest) r4)
    else name_char again ch r

unfoldable mutual
  -- A value that starts with a character.
  pub parse_value : ℕ → Input → Reader → Parsed Value
  parse_value zero ch r = out_of_fuel
  parse_value (suc f) eof r = failed r
  parse_value (suc f) (byte c) r =
      if isdigit c
      then bind (parse_integer f c r) (λ n r1. ok (integer n) r1)
      else if c == b't'
      then bind (expect_chars (b'r' ∷ b'u' ∷ b'e' ∷ []) r) (λ _ r1. ok (boolean true) r1)
      else if c == b'f'
      then bind (expect_chars (b'a' ∷ b'l' ∷ b's' ∷ b'e' ∷ []) r) (λ _ r1. ok (boolean false) r1)
      else if c == b'"'
      then bind (leave (parse_string f (deeper r))) (λ s r1. ok (string s) r1)
      else if c == b'['
      then bind (leave (parse_values f false false false (deeper r))) (λ vs r1. ok (list vs) r1)
      else if c == b'{'
      then bind (leave (parse_commands f (end_char (r.nesting + 1)) (deeper r)))
          (λ cs r1. ok (commands cs) r1)
      else if c == b'$'
      then bind (parse_variable_name f r) (λ s r1. ok (reference s) r1)
      else failed r

  -- parse_value_list, from a round of its loop on; the flags are `command`, `escaped`, `need_space`.
  pub parse_values : ℕ → Bool → Bool → Bool → Reader → Parsed Values
  parse_values zero is_command escaped need_space r = out_of_fuel
  parse_values (suc f) is_command escaped need_space r = bind (read_char r) λ ch r1.
      values_at (parse_value f) (parse_values f is_command) is_command escaped need_space ch r1

  -- parse_command_list, from a round of its loop on, with `endch`.
  pub parse_commands : ℕ → Input → Reader → Parsed Commands
  parse_commands zero endch r = out_of_fuel
  parse_commands (suc f) endch r =
      bind (read_char r)
        λ ch r1. commands_at (parse_values f true false false) (parse_commands f endch) endch ch r1

-- The state that config_parse starts from: temp_buf_idx keeps what an earlier parse left in it.
abbrev pub initial : Bytes → Bytes → Reader
initial temp input = record {
  input = input;
  returned = none;
  ignore_comments = false;
  nesting = 0;
  temp = temp;
  line = 1;
  col = 0;
}

-- assert(!nesting_count), after success and after failure.
abbrev pub balanced : Parsed Commands → Parsed Commands
balanced (ok cs r) = if r.nesting == 0 then ok cs r else halted assertion
balanced (failed r) = if r.nesting == 0 then failed r else halted assertion
balanced (halted e) = halted e
balanced out_of_fuel = out_of_fuel

unfoldable pub config_parse : Bytes → Bytes → Parsed Commands
config_parse temp input =
    balanced (parse_commands (3 * length input + 4) (end_char 0) (initial temp input))
