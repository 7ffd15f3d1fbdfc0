-- ===== src/Config/Printer/Names.antt =====
-- What is needed of texts: their lengths, the characters that end their parts, and the reading of a
-- command's name.
use mathlib.Core.Path.{subst}
use kboot.Base.{
  ℕ, zero, suc, ◌+◌, ◌-◌, ◌≤◌, ◌<◌, ◌≡◌, ◌≢◌, refl, sym, ap, ◌∙◌, List, [], ◌∷◌, ◌++◌, append-nil,
  append_assoc, none, some, Bool, true, false, ◌||◌, ◌==◌, ◌⊎◌, length, length-append, All, arith,
}
use kboot.CString.{Bytes, isxdigit, isalnum, isspace}
use kboot.Config.{
  Value, Values, Commands, integer, boolean, string, list, commands, reference, nil, cons, end,
  command,
}
use kboot.Config.Reader.{until_nul, Input, eof, byte, Reader, Parsed, ok, bind, temp_buf_len}
use kboot.Config.Parser.{is_end, end_char, parse_values, parse_commands, commands_at}
use kboot.Config.Printer.{hex_values, hex, escape, value_tail, values_text, commands_text}
use kboot.Config.Printer.Reading.{
  state, Ready, fresh, again, IsPlain, read_char-Ready, return_char-Ready, push_temp-room,
  take_temp-room,
}

pub length-hex : (ds : List ℕ) (rest : Bytes) → length (hex ds rest) ≡ length ds + length rest
length-hex [] rest = omega arith
length-hex (d ∷ ds) rest = omega (arith, length-hex ds rest)

pub length-escape : (s rest : Bytes) → length s + length rest ≤ length (escape s rest)
length-escape [] rest = omega arith
length-escape (c ∷ s) rest = ground (arith, length-escape s rest)

mutual
  unfolding value_tail

  pub value_tail-longer : (v : Value) (rest : Bytes) → length rest ≤ length (value_tail v rest)
  value_tail-longer (integer n) rest = omega (arith, length-hex (hex_values 16 n) rest)
  value_tail-longer (boolean true) rest = omega arith
  value_tail-longer (boolean false) rest = omega arith
  value_tail-longer (string s) rest = omega (arith, length-escape s (b'"' ∷ rest))
  value_tail-longer (list vs) rest = omega (arith, values_text-longer vs (b']' ∷ rest))
  value_tail-longer (commands cs) rest = omega (arith, commands_text-longer cs (b'}' ∷ rest))
  value_tail-longer (reference s) rest = omega (arith, length-append s rest)

  pub values_text-longer : (vs : Values) (rest : Bytes) → length rest ≤ length (values_text vs rest)
  values_text-longer nil rest = omega arith
  values_text-longer (cons v vs) rest =
      omega (arith, value_tail-longer v (values_text vs rest), values_text-longer vs rest)

  pub commands_text-longer :
      (cs : Commands) (rest : Bytes) → length rest ≤ length (commands_text cs rest)
  commands_text-longer end rest = omega arith
  commands_text-longer (command name args cs) rest = omega (
    arith,
    length-append name (values_text args (b'\n' ∷ commands_text cs rest)),
    values_text-longer args (b'\n' ∷ commands_text cs rest),
    commands_text-longer cs rest,
  )

-- A character that ends a value or a name: a blank, a line's end or a bracket.
abbrev pub IsStop : ℕ → Type 0
IsStop e = IsPlain e × ((isalnum e || e == b'_') ≡ false) × (isxdigit e ≡ false)

-- A text that starts with such a character.
pub data Starts (P : ℕ → Type 0) : Bytes → Type 0 where
  starts : (e : ℕ) (rest : Bytes) → P e → Starts P (e ∷ rest)

-- The end of a value list, by `command`.
pub data Closing : Bool → ℕ → Type 0 where
  line : Closing true b'\n'
  bracket : Closing false b']'

-- The end of a command list: `endch`, the text from there on, and the text behind it.
pub data Ending : Input → Bytes → Bytes → Type 0 where
  file : Ending eof [] []
  brace : (rest : Bytes) → Ending (byte b'}') (b'}' ∷ rest) rest

pub Closing-IsStop : (b : Bool) (d : ℕ) → Closing b d → IsStop d
Closing-IsStop _ _ line = (omega arith, refl, refl)
Closing-IsStop _ _ bracket = (omega arith, refl, refl)

pub values_text-Starts :
    (vs : Values) (b : Bool) (d : ℕ) (rest : Bytes)
    → Closing b d
    → Starts IsStop (values_text vs (d ∷ rest))
unfolding value_tail
values_text-Starts nil b d rest h = starts d rest (Closing-IsStop b d h)
values_text-Starts (cons v vs) b d rest h = starts b' ' _ (omega arith, refl, refl)

pub Ready-leave :
    (n : ℕ) {temp t : Bytes} {s : Reader}
    → Ready (n + 1) temp t s
    → Ready n temp t (record s { nesting = s.nesting - 1 })
Ready-leave n {temp} {t} (fresh l c) =
    let e : n + 1 - 1 ≡ n = omega arith in
    subst (λ m. Ready n temp t (state none false m temp t l c)) (sym e) (fresh l c)
Ready-leave n {temp} (again d {rest} l c) =
    let e : n + 1 - 1 ≡ n = omega arith in
    subst (λ m. Ready n temp (d ∷ rest) (state (some (byte d)) false m temp rest l c)) (sym e)
      (again d l c)

pub end_char-deeper : (n : ℕ) → end_char (n + 1) ≡ byte b'}'
end_char-deeper n = ground arith

pub or_true : (a : Bool) {b : Bool} → b ≡ true → (a || b) ≡ true
or_true true e = refl
or_true false e = e

or_false : {a b : Bool} → a ≡ false → b ≡ false → (a || b) ≡ false
or_false e e' = rw e e'

-- The end of a command's name.
commands_at-name :
    (args : Reader → Parsed Values) (more : Reader → Parsed Commands) (endch : Input) (n e l c : ℕ)
    (name rest : Bytes)
    → e ≢ 0
    → until_nul name ≡ name
    → 0 < length name
    → length name < temp_buf_len
    → isspace e ≡ true
    → (s : Reader) × (commands_at args more endch (byte e) (state none false n name rest l c)
        ≡ bind (args s) (λ vs r. bind (more r) (λ cs r'. ok (command name vs cs) r')))
      × Ready n [] (e ∷ rest) s
commands_at-name args more endch n e l c name rest stop whole pos room x =
    let some_name : (length name == 0) ≡ false = ground (arith, pos) in
    let (s, back, ready) = return_char-Ready n e l c [] rest stop in
    (
      s,
      rw (or_true (is_end endch (byte e)) x) (
          rw some_name
            (rw (take_temp-room (state none false n name rest l c) whole room) (rw back refl))),
      ready,
    )

pub commands_at-push :
    (args : Reader → Parsed Values) (more : Reader → Parsed Commands) (endch : Input) (d : ℕ)
    (r : Reader)
    → is_end endch (byte d) ≡ false
    → isspace d ≡ false
    → length r.temp < temp_buf_len
    → commands_at args more endch (byte d) r ≡ more (record r { temp = r.temp ++ (d ∷ []) })
commands_at-push args more endch d r h x room =
    rw (or_false h x) (rw (push_temp-room d r room) refl)

is_end-word :
    (endch : Input) (d : ℕ)
    → (endch ≡ eof) ⊎ (endch ≡ byte b'}')
    → d ≢ b'}'
    → is_end endch (byte d) ≡ false
is_end-word eof d k h = refl
is_end-word (byte c) d k h = ground (arith, h, k)

pub word-IsPlain : (d : ℕ) → isspace d ≡ false → d ≢ b'#' → d ≢ 0xff → d ≢ 0 → IsPlain d
word-IsPlain d x h h' h'' = ground (arith, x, h, h', h'')

-- The characters of a command's name, and what comes after them.
pub name-Reads :
    (n f e : ℕ) (endch : Input) (name temp rest : Bytes) {s : Reader}
    → (endch ≡ eof) ⊎ (endch ≡ byte b'}')
    → All (λ d. (isspace d ≡ false) × (d ≢ b'}') × (d ≢ b'#') × (d ≢ 0xff) × (d ≢ 0)) name
    → until_nul (temp ++ name) ≡ temp ++ name
    → 0 < length (temp ++ name)
    → length (temp ++ name) < temp_buf_len
    → IsPlain e
    → isspace e ≡ true
    → length name < f
    → Ready n temp (name ++ (e ∷ rest)) s
    → (g : ℕ) × (s' : Reader) × (parse_commands f endch s
        ≡ bind (parse_values g true false false s') (λ vs r.
          bind (parse_commands g endch r) (λ cs r'. ok (command (temp ++ name) vs cs) r')))
      × Ready n [] (e ∷ rest) s'
      × (f ≡ suc (g + length name))
unfolding parse_commands
name-Reads n zero e endch name temp rest k h all pos room p x fuel ready = absurd (omega arith)
name-Reads n (suc f) e endch [] temp rest k h all pos room p x fuel ready =
    let (l, c, r) = read_char-Ready n e temp rest ready p in
    let whole = append-nil temp in
    let (s', run, ready') =
      commands_at-name (parse_values f true false false) (parse_commands f endch) endch n e l c temp
        rest p.3 (subst (λ t. until_nul t ≡ t) whole all) (rw (← whole) pos) (rw (← whole) room)
        x in
    (f, s', rw r (rw whole run), ready', omega arith)
name-Reads n (suc f) e endch (d ∷ name) temp rest k h all pos room p x fuel ready =
    let (l, c, r) =
      read_char-Ready n d temp (name ++ (e ∷ rest)) ready
        (word-IsPlain d h.0.0 h.0.2 h.0.3 h.0.4) in
    let shape : (temp ++ (d ∷ [])) ++ name ≡ temp ++ (d ∷ name) = append_assoc temp (d ∷ []) name in
    let small : length temp < temp_buf_len = omega (arith, length-append temp (d ∷ name), room) in
    let step =
      commands_at-push (parse_values f true false false) (parse_commands f endch) endch d
        (state none false n temp (name ++ (e ∷ rest)) l c) (is_end-word endch d k h.0.1) h.0.0
        small in
    let (g, s', run, ready', e') =
      name-Reads n f e endch name (temp ++ (d ∷ [])) rest k h.1
        (subst (λ t. until_nul t ≡ t) (sym shape) all) (rw shape pos) (rw shape room) p x
        (omega arith) (fresh l c) in
    let named = λ (t : Bytes).
      bind (parse_values g true false false s')
        (λ vs q. bind (parse_commands g endch q) (λ cs q'. ok (command t vs cs) q')) in
    (g, s', rw r (step ∙ run ∙ ap named shape), ready', omega (arith, e'))
