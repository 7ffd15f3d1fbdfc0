-- ===== src/Config/Printer/Forms.antt =====
-- Each form of value is read back, once the lists inside it are.
use kboot.Base.Lists.{All-map}
use kboot.Base.{
  ◌||◌, ◌==◌, ◌≢◌, ℕ, zero, suc, ◌+◌, ◌-◌, ◌*◌, ◌≤◌, ◌≡◌, refl, [], ◌∷◌, none, Bool, true, false,
  length, length-append, arith,
}
use kboot.CString.{Bytes}
use kboot.Config.{
  Value, Values, Commands, integer, boolean, string, list, commands, reference, nil, cons,
}
use kboot.Config.Reader.{Input, byte, Reader, Parsed, ok, bind}
use kboot.Config.Parser.{parse_string, parse_value, parse_values, parse_commands, values_at}
use kboot.Config.Printer.{
  hex_values, value_head, value_tail, values_text, commands_text, IsPrintable, ArePrintable,
  AreCommands,
}
use kboot.CString.{isalnum}
use kboot.Config.Printer.Reading.{until_nul_lem, state, Ready, fresh, IsPlain, Reads}
use kboot.Config.Printer.Integers.{expect_chars-Reads, parse_integer-Reads, length-hex_values}
use kboot.Config.Printer.Strings.{string_from-Reads, parse_variable_name-Reads}
use kboot.Config.Printer.Names.{
  length-hex, length-escape, IsStop, Starts, starts, Closing, line, bracket, Ending, brace,
  Ready-leave, end_char-deeper,
}

pub values_at-space :
    (value : Input → Reader → Parsed Value) (more : Bool → Bool → Reader → Parsed Values)
    (b need_space : Bool) (r : Reader)
    → values_at value more b false need_space (byte b' ') r ≡ more false false r
values_at-space value more true need_space r = refl
values_at-space value more false need_space r = refl

pub values_at-close :
    (value : Input → Reader → Parsed Value) (more : Bool → Bool → Reader → Parsed Values)
    (b need_space : Bool) (d : ℕ) (r : Reader)
    → Closing b d
    → values_at value more b false need_space (byte d) r ≡ ok nil r
values_at-close value more _ need_space _ r line = refl
values_at-close value more _ need_space _ r bracket = refl

pub head-IsPlain : (v : Value) → IsPlain (value_head v)
head-IsPlain (integer n) = omega arith
head-IsPlain (boolean true) = omega arith
head-IsPlain (boolean false) = omega arith
head-IsPlain (string s) = omega arith
head-IsPlain (list vs) = omega arith
head-IsPlain (commands cs) = omega arith
head-IsPlain (reference s) = omega arith

pub values_at-value :
    (value : Input → Reader → Parsed Value) (more : Bool → Bool → Reader → Parsed Values) (b : Bool)
    (v : Value) (r : Reader)
    → values_at value more b false false (byte (value_head v)) r
      ≡ bind
          (value (byte (value_head v)) r)
          (λ w r1. bind (more false true r1) (λ vs r2. ok (cons w vs) r2))
values_at-value value more true (integer n) r = refl
values_at-value value more true (boolean true) r = refl
values_at-value value more true (boolean false) r = refl
values_at-value value more true (string s) r = refl
values_at-value value more true (list vs) r = refl
values_at-value value more true (commands cs) r = refl
values_at-value value more true (reference s) r = refl
values_at-value value more false (integer n) r = refl
values_at-value value more false (boolean true) r = refl
values_at-value value more false (boolean false) r = refl
values_at-value value more false (string s) r = refl
values_at-value value more false (list vs) r = refl
values_at-value value more false (commands cs) r = refl
values_at-value value more false (reference s) r = refl

-- A value that is read leaves the character behind it to be read.
abbrev pub ValueReads : Value → Type 0
ValueReads v =
    (n f l c : ℕ) (t : Bytes)
    → IsPrintable v
    → Starts IsStop t
    → 3 * length (value_tail v t) + 4 ≤ f
    → Reads (parse_value f (byte (value_head v)) (state none false n [] (value_tail v t) l c)) v n
        [] t

abbrev pub ValuesRead : Values → Type 0
ValuesRead vs =
    (n f d : ℕ) (b need_space : Bool) (t : Bytes) (s : Reader)
    → ArePrintable vs
    → Closing b d
    → 3 * length (values_text vs (d ∷ t)) + 2 ≤ f
    → Ready n [] (values_text vs (d ∷ t)) s
    → Reads (parse_values f b false need_space s) vs n [] t

abbrev pub CommandsRead : Commands → Type 0
CommandsRead cs =
    (n f : ℕ) (endch : Input) (tail t : Bytes) (s : Reader)
    → AreCommands cs
    → Ending endch tail t
    → 3 * length (commands_text cs tail) + 3 ≤ f
    → Ready n [] (commands_text cs tail) s
    → Reads (parse_commands f endch s) cs n [] t

pub list-Reads : (vs : Values) → ValuesRead vs → ValueReads (list vs)
unfolding value_tail IsPrintable parse_value
list-Reads vs ih n zero l c t p stop fuel = absurd (omega arith)
list-Reads vs ih n (suc f) l c t p stop fuel =
    let (s, run, ready) =
      ih (n + 1) f b']' false false t (state none false (n + 1) [] (values_text vs (b']' ∷ t)) l c)
        p bracket (omega arith) (fresh l c) in
    (record s { nesting = s.nesting - 1 }, rw run refl, Ready-leave n ready)

pub commands-Reads : (cs : Commands) → CommandsRead cs → ValueReads (commands cs)
unfolding value_tail IsPrintable parse_value
commands-Reads cs ih n zero l c t p stop fuel = absurd (omega arith)
commands-Reads cs ih n (suc f) l c t p stop fuel =
    let (s, run, ready) =
      ih (n + 1) f (byte b'}') (b'}' ∷ t) t
        (state none false (n + 1) [] (commands_text cs (b'}' ∷ t)) l c) p (brace t) (omega arith)
        (fresh l c) in
    (
      record s { nesting = s.nesting - 1 },
      rw (end_char-deeper n) (rw run refl),
      Ready-leave n ready,
    )

pub scalar-Reads_integer : (k : ℕ) → ValueReads (integer k)
unfolding value_tail IsPrintable parse_value
scalar-Reads_integer k n zero l c t p stop fuel = absurd (omega arith)
scalar-Reads_integer k n (suc f) l c _ p (starts e rest stop) fuel =
    let (s, run, ready) =
      parse_integer-Reads n f k e l c rest p stop.0 stop.2
        (omega (arith, fuel, length-hex (hex_values 16 k) (e ∷ rest), length-hex_values 16 k)) in
    (s, rw run refl, ready)

pub scalar-Reads_boolean : (b : Bool) → ValueReads (boolean b)
unfolding value_tail parse_value
scalar-Reads_boolean b n zero l c t p stop fuel = absurd (omega arith)
scalar-Reads_boolean true n (suc f) l c t p stop fuel =
    let (s, run, ready) =
      expect_chars-Reads n (b'r' ∷ b'u' ∷ b'e' ∷ []) t (omega arith) (fresh l c) in
    (s, rw run refl, ready)
scalar-Reads_boolean false n (suc f) l c t p stop fuel =
    let (s, run, ready) =
      expect_chars-Reads n (b'a' ∷ b'l' ∷ b's' ∷ b'e' ∷ []) t (omega arith) (fresh l c) in
    (s, rw run refl, ready)

name-nonzero : (d : ℕ) → (isalnum d || d == b'_') ≡ true → d ≢ 0
name-nonzero d h = ground (arith, h)

pub scalar-Reads_string : (w : Bytes) → ValueReads (string w)
unfolding value_tail IsPrintable parse_value parse_string
scalar-Reads_string w n zero l c t p stop fuel = absurd (omega arith)
scalar-Reads_string w n (suc f) l c t p stop fuel =
    let (l', c', run) =
      string_from-Reads (n + 1) f l c w [] t (All-map _ _ w (λ c h. (h.0, h.1)) p.0)
        (until_nul_lem w (All-map _ _ w (λ c h. h.2) p.0)) p.1
        (omega (arith, fuel, length-escape w (b'"' ∷ t))) in
    (_, rw run refl, Ready-leave n (fresh l' c'))

pub scalar-Reads_reference : (w : Bytes) → ValueReads (reference w)
unfolding value_tail IsPrintable parse_value
scalar-Reads_reference w n zero l c t p stop fuel = absurd (omega arith)
scalar-Reads_reference w n (suc f) l c _ p (starts e rest stop) fuel =
    let (s, run, ready) =
      parse_variable_name-Reads n f e w [] rest p.0
        (until_nul_lem w (All-map _ _ w name-nonzero p.0)) p.1 p.2 stop.0 stop.1
        (omega (arith, fuel, length-append w (e ∷ rest))) (fresh l c) in
    (s, rw run refl, ready)
