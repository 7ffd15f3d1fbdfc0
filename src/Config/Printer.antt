-- ===== src/Config/Printer.antt =====
-- A text for each list of commands, in the format that documentation/guide describes: a command and its
-- arguments on a line, integers in hexadecimal. It says what the parser is to read back; the
-- loader has no such printer.
pub mod Reading
pub mod Integers
pub mod Strings
pub mod Names
pub mod Forms
pub mod RoundTrip
pub mod Faults
use kboot.Base.{
  ℕ, zero, suc, ◌+◌, ◌-◌, ◌/◌, ◌%◌, ◌^◌, ◌≤◌, ◌<◌, ◌≡◌, ◌≢◌, List, [], ◌∷◌, ◌++◌, Bool, true, false,
  ◌||◌, ltb, ◌==◌, if◌then◌else◌, All, length, arith,
}
use kboot.CString.{Bytes, isalnum, isspace}
use kboot.Config.{
  Value, Values, Commands, integer, boolean, string, list, commands, reference, nil, cons, end,
  command,
}
use kboot.Config.Reader.{temp_buf_len}

abbrev pub hex_digit : ℕ → ℕ
hex_digit d = if ltb d 10 then b'0' + d else b'a' + (d - 10)

-- The last `k` digits of a number.
abbrev pub hex_values : ℕ → ℕ → List ℕ
hex_values zero n = []
hex_values (suc k) n = hex_values k (n / 16) ++ (n % 16 ∷ [])

abbrev pub hex : List ℕ → Bytes → Bytes
hex [] rest = rest
hex (d ∷ ds) rest = hex_digit d ∷ hex ds rest

abbrev pub escape : Bytes → Bytes → Bytes
escape [] rest = rest
escape (c ∷ s) rest =
    if c == b'"' || c == b'\\' then b'\\' ∷ c ∷ escape s rest else c ∷ escape s rest

abbrev pub value_head : Value → ℕ
value_head (integer n) = b'0'
value_head (boolean true) = b't'
value_head (boolean false) = b'f'
value_head (string s) = b'"'
value_head (list vs) = b'['
value_head (commands cs) = b'{'
value_head (reference s) = b'$'

unfoldable mutual
  -- What follows the first character of a value, before `rest`.
  pub value_tail : Value → Bytes → Bytes
  value_tail (integer n) rest = b'x' ∷ hex (hex_values 16 n) rest
  value_tail (boolean true) rest = b'r' ∷ b'u' ∷ b'e' ∷ rest
  value_tail (boolean false) rest = b'a' ∷ b'l' ∷ b's' ∷ b'e' ∷ rest
  value_tail (string s) rest = escape s (b'"' ∷ rest)
  value_tail (list vs) rest = values_text vs (b']' ∷ rest)
  value_tail (commands cs) rest = commands_text cs (b'}' ∷ rest)
  value_tail (reference s) rest = s ++ rest

  -- A blank before each value.
  pub values_text : Values → Bytes → Bytes
  values_text nil rest = rest
  values_text (cons v vs) rest = b' ' ∷ value_head v ∷ value_tail v (values_text vs rest)

  -- A line for each command.
  pub commands_text : Commands → Bytes → Bytes
  commands_text end rest = rest
  commands_text (command name args cs) rest =
      name ++ values_text args (b'\n' ∷ commands_text cs rest)

-- What a text can hold: no '\r', which is left out, no 0xff, which reads as EOF, and no 0, which ends
-- the string; it fits temp_buf.
abbrev pub IsString : Bytes → Type 0
IsString s = All (λ c. (c ≢ b'\r') × (c ≢ 0xff) × (c ≢ 0)) s × (length s < temp_buf_len)

abbrev pub IsName : Bytes → Type 0
IsName s = All (λ c. (isalnum c || c == b'_') ≡ true) s × (0 < length s) × (length s < temp_buf_len)

-- A command's name ends at a blank or a brace.
abbrev pub IsWord : Bytes → Type 0
IsWord s =
    All (λ c. (isspace c ≡ false) × (c ≢ b'}') × (c ≢ b'#') × (c ≢ 0xff) × (c ≢ 0)) s
    × (0 < length s)
    × (length s < temp_buf_len)

unfoldable mutual
  pub IsPrintable : Value → Type 0
  IsPrintable (integer n) = n < 2 ^ 64
  IsPrintable (boolean b) = Unit {0}
  IsPrintable (string s) = IsString s
  IsPrintable (list vs) = ArePrintable vs
  IsPrintable (commands cs) = AreCommands cs
  IsPrintable (reference s) = IsName s

  pub ArePrintable : Values → Type 0
  ArePrintable nil = Unit {0}
  ArePrintable (cons v vs) = IsPrintable v × ArePrintable vs

  pub AreCommands : Commands → Type 0
  AreCommands end = Unit {0}
  AreCommands (command name args cs) = IsWord name × ArePrintable args × AreCommands cs
