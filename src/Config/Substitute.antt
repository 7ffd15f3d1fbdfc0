-- ===== src/Config/Substitute.antt =====
-- value_substitute of source/config.c, which puts the values of variables in the place of references, and
-- value_equals.
pub mod Templates
use kboot.Base.{
  ℕ, zero, suc, ◌+◌, ◌-◌, ◌/◌, ◌%◌, List, [], ◌∷◌, ◌++◌, Option, none, some, Bool, true, false, not,
  ◌&&◌, ◌||◌, ltb, ◌==◌, if◌then◌else◌, length,
}
use kboot.Base.Lists.{take, drop}
use kboot.Base.Outcome.{Outcome, done, stop, assertion}
use kboot.CString.{Bytes, isalnum}
use kboot.Config.{
  Value, Values, Commands, integer, boolean, string, list, commands, reference, nil, cons,
}
use kboot.Config.Reader.{temp_buf_len}
use kboot.Config.Environ.{Entry, same, environ_lookup}

-- A number as "%llu" prints it; 2^64 has 20 digits.
abbrev pub decimal : ℕ → ℕ → Bytes
decimal zero n = []
decimal (suc f) n =
    let rest = decimal f (n / 10) in
    if ltb n 10 then (b'0' + n) ∷ [] else rest ++ ((b'0' + n % 10) ∷ [])

-- What snprintf leaves in temp_buf: as much of the text as there is room for.
abbrev pub print_temp : Bytes → Option Bytes
print_temp text = some (take (temp_buf_len - 1) text)

abbrev pub stringify : Value → Option Bytes
stringify (integer n) = print_temp (decimal 20 n)
stringify (boolean true) = print_temp (b't' ∷ b'r' ∷ b'u' ∷ b'e' ∷ [])
stringify (boolean false) = print_temp (b'f' ∷ b'a' ∷ b'l' ∷ b's' ∷ b'e' ∷ [])
stringify (string s) = print_temp s
stringify (list vs) = none
stringify (commands cs) = none
stringify (reference s) = none

-- The text of a variable, where it has one.
abbrev pub text_of : Option Value → Option Bytes
text_of none = none
text_of (some v) = stringify v

-- The loop goes on behind the text that a reference is replaced by, with `prefix` before the reference.
abbrev pub replace_with : (ℕ → Bytes → Option Bytes) → Bytes → Option Bytes → Option Bytes
replace_with more before none = none
replace_with more before (some text) = more 0 (before ++ text)

-- A whole reference: `before` is the string up to the '}', and the name starts at `start`.
abbrev pub replace_reference : List Entry → (ℕ → Bytes → Option Bytes) → ℕ → Bytes → Option Bytes
replace_reference env more start before =
    replace_with more (take (start - 2) before) (text_of (environ_lookup env (drop start before)))

-- A round of the loop at str[i] = c and str[i + 1] = d, with `before` the string before i. `more` is the loop
-- from i + 1 on, `more2` from i + 2 on.
abbrev pub substitute_round :
    List Entry
    → (ℕ → Bytes → Option Bytes)
    → (ℕ → Bytes → Option Bytes)
    → ℕ
    → ℕ
    → ℕ
    → Bytes
    → Option Bytes
substitute_round env more more2 c d start before =
    if not (start == 0)
    then (if isalnum c || c == b'_'
        then more start (before ++ (c ∷ []))
        else if c == b'}'
        then replace_reference env more start before
        else more 0 (before ++ (c ∷ [])))
    else if c == b'$' && d == b'{'
    then more2 (length before + 2) (before ++ (c ∷ d ∷ []))
    else more 0 (before ++ (c ∷ []))

-- The loop over the string, at what is left of it; `none` where config_error was called.
unfoldable pub substitute_from : List Entry → Bytes → ℕ → Bytes → Option Bytes
substitute_from env [] start before = some before
substitute_from env (c ∷ []) start before =
    substitute_round env (substitute_from env []) (substitute_from env []) c 0 start before
substitute_from env (c ∷ d ∷ rest) start before =
    substitute_round env (substitute_from env (d ∷ rest)) (substitute_from env rest) c d start
      before

abbrev pub set_string : Bytes → Option Bytes → Value × Bool
set_string s none = (string s, false)
set_string s (some t) = (string t, true)

abbrev pub set_reference : Bytes → Option Value → Value × Bool
set_reference s none = (reference s, false)
set_reference s (some v) = (v, true)

unfoldable mutual
  -- The value afterwards, and whether all went well.
  pub value_substitute : List Entry → Value → Value × Bool
  value_substitute env (integer n) = (integer n, true)
  value_substitute env (boolean b) = (boolean b, true)
  value_substitute env (string s) = set_string s (substitute_from env s 0 [])
  value_substitute env (list vs) = let (vs', fine) = values_substitute env vs in (list vs', fine)
  value_substitute env (commands cs) = (commands cs, true)
  value_substitute env (reference s) = set_reference s (environ_lookup env s)

  -- The loop over a list, which a failure ends.
  pub values_substitute : List Entry → Values → Values × Bool
  values_substitute env nil = (nil, true)
  values_substitute env (cons v vs) =
      let (v', fine) = value_substitute env v in
      let (vs', fine') = values_substitute env vs in
      if fine then (cons v' vs', fine') else (cons v' vs, false)

-- Lists are not compared.
abbrev pub value_equals : Value → Value → Outcome Bool
value_equals (integer a) (integer b) = done (a == b)
value_equals (boolean true) (boolean b) = done b
value_equals (boolean false) (boolean b) = done (not b)
value_equals (string s) (string t) = done (same s t)
value_equals (reference s) (reference t) = done (same s t)
value_equals (list vs) (list ws) = stop assertion
value_equals (commands cs) (commands ds) = stop assertion
value_equals v w = done false
