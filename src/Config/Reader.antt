-- ===== src/Config/Reader.antt =====
-- The input of the configuration parser: read_char, return_char, unexpected_char and file_read_helper
-- of source/config.c, and the global state that they share.
use kboot.Base.{
  ℕ, ◌+◌, ◌-◌, ◌%◌, [], ◌∷◌, ◌++◌, Option, none, some, Bool, ◌&&◌, not, ltb, ◌==◌, if◌then◌else◌,
  length,
}
use kboot.Base.Outcome.{Fault, assertion, undefined, endless}
use kboot.CString.{Bytes}

-- What is read: EOF or a byte.
pub data Input : Type 0 where
  eof : Input
  byte : ℕ → Input

-- `input` is the file from current_file_offset on, `temp` is temp_buf up to temp_buf_idx.
pub record Reader : Type 0 where
  pub input : Bytes
  pub returned : Option Input
  pub ignore_comments : Bool
  pub nesting : ℕ
  pub temp : Bytes
  pub line : ℕ
  pub col : ℕ

-- A call of the parser: a result; NULL after config_error was called and came back; an end of the
-- whole loader. `out_of_fuel` has no counterpart in the code.
pub data Parsed {ℓ} (A : Type ℓ) : Type ℓ where
  ok : A → Reader → Parsed A
  failed : Reader → Parsed A
  halted : Fault → Parsed A
  out_of_fuel : Parsed A

module _ {ℓ κ} {A : Type ℓ} {B : Type κ} where
  abbrev pub bind : Parsed A → (A → Reader → Parsed B) → Parsed B
  bind (ok a r) f = f a r
  bind (failed r) f = failed r
  bind (halted e) f = halted e
  bind out_of_fuel f = out_of_fuel

-- `char` is signed, so the byte 0xff reads as EOF.
abbrev pub to_input : ℕ → Input
to_input c = if c == 0xff then eof else byte c

-- file_read_helper, which leaves out every '\r', and returns EOF again and again at the end of the file.
unfoldable pub file_read_helper : Bytes → Input × Bytes
file_read_helper [] = (eof, [])
file_read_helper (c ∷ input) =
    let rest = file_read_helper input in if c == b'\r' then rest else (to_input c, input)

-- current_line and current_col after a character.
abbrev pub line_after : ℕ → Reader → ℕ
line_after c r = if c == b'\n' then r.line + 1 else r.line

abbrev pub col_after : ℕ → Reader → ℕ
col_after c r = if c == b'\n' then 0 else if c == b'\t' then r.col + (8 - r.col % 8) else r.col + 1

abbrev pub advance : ℕ → Reader → Reader
advance c r = record r { line = line_after c r; col = col_after c r }

-- The same for a byte of the file, where a '\r' is not seen.
abbrev pub pass : ℕ → Reader → Reader
pass c r = record r {
  line = if c == b'\r' then r.line else line_after c r;
  col = if c == b'\r' then r.col else col_after c r;
}

-- The rounds of read_char inside a comment, up to the '\n' that ends it. At the end of the file the helper
-- returns EOF in every round, which does not end the loop.
unfoldable pub skip_comment : Reader → Bytes → Parsed Input
skip_comment r [] = halted endless
skip_comment r (c ∷ input) =
    let next = skip_comment (pass c r) input in
    if c == b'\n' then ok (byte b'\n') (advance c (record r { input = input })) else next

-- A character that was read, `input` being left.
unfoldable pub accept : Input → Reader → Parsed Input
accept eof r = ok eof (record r { col = r.col + 1 })
accept (byte c) r =
    if not r.ignore_comments && c == b'#'
    then skip_comment (advance c r) r.input
    else ok (byte c) (advance c r)

-- The first round of read_char, by returned_char.
abbrev pub read_with : Option Input → Reader → Parsed Input
read_with (some ch) r = accept ch (record r { returned = none })
read_with none r =
    accept (file_read_helper r.input).0 (record r { input = (file_read_helper r.input).1 })

unfoldable pub read_char : Reader → Parsed Input
read_char r = read_with r.returned r

abbrev pub step_back : Reader → Reader
step_back r = record r {
  col = if ltb 0 r.col then r.col - 1 else r.col;
  line = if ltb 0 r.col then r.line else if ltb 1 r.line then r.line - 1 else r.line;
}

-- returned_char = ch, where 0 is no character.
abbrev pub keep : Input → Option Input
keep eof = some eof
keep (byte c) = if c == 0 then none else some (byte c)

abbrev pub return_with : Option Input → Input → Reader → Parsed (Unit {0})
return_with (some other) ch r = halted assertion
return_with none ch r = ok tt (step_back (record r { returned = keep ch }))

unfoldable pub return_char : Input → Reader → Parsed (Unit {0})
return_char ch r = return_with r.returned ch r

abbrev pub temp_buf_len : ℕ
temp_buf_len = 512

-- temp_buf[temp_buf_idx++] = ch: there is no test of the index.
unfoldable pub push_temp : ℕ → Reader → Parsed (Unit {0})
push_temp c r =
    if ltb (length r.temp) temp_buf_len
    then ok tt (record r { temp = r.temp ++ (c ∷ []) })
    else halted undefined

-- The characters before the first 0, which are those that strdup copies.
abbrev pub until_nul : Bytes → Bytes
until_nul [] = []
until_nul (c ∷ s) = let rest = until_nul s in if c == 0 then [] else c ∷ rest

-- The string in temp_buf, which is terminated and emptied.
unfoldable pub take_temp : Reader → Parsed Bytes
take_temp r =
    if ltb (length r.temp) temp_buf_len
    then ok (until_nul r.temp) (record r { temp = [] })
    else halted undefined
