-- ===== src/Config/Printer/Strings.antt =====
-- Strings and variable names are read back.
use kboot.Base.{
  ℕ, zero, suc, ◌*◌, ◌<◌, ◌≡◌, ◌≢◌, refl, sym, ap, ◌∙◌, [], ◌∷◌, ◌++◌, append-nil, append_assoc,
  none, some, Bool, true, false, not, ◌&&◌, ◌||◌, ◌==◌, Bool-cases, inl, inr, length, length-append,
  All, arith,
}
use kboot.CString.{Bytes, isalnum}
use mathlib.Core.Path.{subst}
use kboot.Config.Reader.{until_nul, byte, Reader, Parsed, ok, return_char, step_back, temp_buf_len}
use kboot.Config.Parser.{is_name, end_name, name_at, string_from, parse_variable_name}
use kboot.Config.Printer.{escape}
use kboot.Config.Printer.Reading.{
  state, Ready, fresh, again, IsPlain, Reads, read_char-Ready, read_char-quoted, push_temp-room,
  take_temp-room,
}

-- One round of parse_string: a character that is kept.
string_push :
    (n f d l c : ℕ) (escaped : Bool) (temp rest : Bytes)
    → (d ≢ b'\r') × (d ≢ 0xff)
    → length temp < temp_buf_len
    → (not escaped && d == b'"') ≡ false
    → (not escaped && d == b'\\') ≡ false
    → (l' c' : ℕ) × (string_from (suc f) escaped (state none true n temp (d ∷ rest) l c)
        ≡ string_from f false (state none true n (temp ++ (d ∷ [])) rest l' c'))
unfolding string_from
string_push n f d l c escaped temp rest h room quote back =
    let (l', c', r) = read_char-quoted n d l c temp rest h in
    (
      l',
      c',
      rw r (
          rw quote (rw back (rw (push_temp-room d (state none true n temp rest l' c') room) refl))),
    )

-- A backslash.
string_escape :
    (n f l c : ℕ) (temp rest : Bytes)
    → (l' c' : ℕ) × (string_from (suc f) false (state none true n temp (b'\\' ∷ rest) l c)
        ≡ string_from f true (state none true n temp rest l' c'))
unfolding string_from
string_escape n f l c temp rest =
    let (l', c', r) = read_char-quoted n b'\\' l c temp rest (omega arith) in (l', c', rw r refl)

-- The closing quote.
string_close :
    (n f l c : ℕ) (temp rest : Bytes)
    → until_nul temp ≡ temp
    → length temp < temp_buf_len
    → (l' c' : ℕ) × (string_from (suc f) false (state none true n temp (b'"' ∷ rest) l c)
        ≡ ok temp (state none false n [] rest l' c'))
unfolding string_from
string_close n f l c temp rest whole room =
    let (l', c', r) = read_char-quoted n b'"' l c temp rest (omega arith) in
    (l', c', rw r (take_temp-room (state none false n temp rest l' c') whole room))

-- The characters of a string up to the quote, behind those that are in the buffer.
pub string_from-Reads :
    (n f l c : ℕ) (s temp rest : Bytes)
    → All (λ d. (d ≢ b'\r') × (d ≢ 0xff)) s
    → until_nul (temp ++ s) ≡ temp ++ s
    → length (temp ++ s) < temp_buf_len
    → 2 * length s < f
    → (l' c' : ℕ) × (string_from f false (state none true n temp (escape s (b'"' ∷ rest)) l c)
        ≡ ok (temp ++ s) (state none false n [] rest l' c'))
string_from-Reads n zero l c s temp rest h whole room fuel = absurd (omega arith)
string_from-Reads n (suc f) l c [] temp rest h whole room fuel =
    let (l', c', run) =
      string_close n f l c temp rest (subst (λ t. until_nul t ≡ t) (append-nil temp) whole)
        (omega (arith, length-append temp [], room)) in
    (l', c', run ∙ ap (λ t. ok t (state none false n [] rest l' c')) (sym (append-nil temp)))
string_from-Reads n (suc zero) l c (d ∷ s) temp rest h whole room fuel = absurd (omega arith)
string_from-Reads n (suc (suc f)) l c (d ∷ s) temp rest h whole room fuel =
    let small : length temp < temp_buf_len = omega (arith, length-append temp (d ∷ s), room) in
    let shape : (temp ++ (d ∷ [])) ++ s ≡ temp ++ (d ∷ s) = append_assoc temp (d ∷ []) s in
    let whole' = subst (λ t. until_nul t ≡ t) (sym shape) whole in
    let room' : length ((temp ++ (d ∷ [])) ++ s) < temp_buf_len = rw shape room in
    elim (Bool-cases (d == b'"' || d == b'\\')) [
      | inl special ↦
          let (l1, c1, first) = string_escape n (suc f) l c temp (d ∷ escape s (b'"' ∷ rest)) in
          let (l2, c2, second) =
            string_push n f d l1 c1 true temp (escape s (b'"' ∷ rest)) h.0 small refl refl in
          let (l3, c3, run) =
            string_from-Reads n f l2 c2 s (temp ++ (d ∷ [])) rest h.1 whole' room' (omega arith) in
          (
            l3,
            c3,
            rw special
                (first ∙ second ∙ run ∙ ap (λ t. ok t (state none false n [] rest l3 c3)) shape),
          )
      | inr plain ↦
          let (l1, c1, first) =
            string_push n (suc f) d l c false temp (escape s (b'"' ∷ rest)) h.0 small
              (ground (arith, plain)) (ground (arith, plain)) in
          let (l2, c2, run) =
            string_from-Reads n (suc f) l1 c1 s (temp ++ (d ∷ [])) rest h.1 whole' room'
              (omega arith) in
          (l2, c2, rw plain (first ∙ run ∙ ap (λ t. ok t (state none false n [] rest l2 c2)) shape))
    ]

end_name-Reads :
    (n e l c : ℕ) (name rest : Bytes)
    → e ≢ 0
    → until_nul name ≡ name
    → 0 < length name
    → length name < temp_buf_len
    → Reads (end_name (byte e) (state none false n name rest l c)) name n [] (e ∷ rest)
unfolding return_char
end_name-Reads n e l c name rest stop whole pos room =
    let some_name : (length name == 0) ≡ false = ground (arith, pos) in
    let kept : (e == 0) ≡ false = ground (arith, stop) in
    let back = step_back (state (some (byte e)) false n name rest l c) in
    (
      record back { temp = [] },
      rw some_name (rw kept (take_temp-room back whole room)),
      again e _ _,
    )

name-IsPlain : (d : ℕ) → is_name (byte d) ≡ true → IsPlain d
name-IsPlain d h = ground (arith, h)

name_at-push :
    (more : Reader → Parsed Bytes) (d : ℕ) (r : Reader)
    → is_name (byte d) ≡ true
    → length r.temp < temp_buf_len
    → name_at more (byte d) r ≡ more (record r { temp = r.temp ++ (d ∷ []) })
name_at-push more d r h room = rw h (rw (push_temp-room d r room) refl)

name_at-stop :
    (more : Reader → Parsed Bytes) (e : ℕ) (r : Reader)
    → is_name (byte e) ≡ false
    → name_at more (byte e) r ≡ end_name (byte e) r
name_at-stop more e r h = rw h refl

-- A name up to a character that is in no name, behind what is in the buffer.
pub parse_variable_name-Reads :
    (n f e : ℕ) (name temp rest : Bytes) {s : Reader}
    → All (λ d. (isalnum d || d == b'_') ≡ true) name
    → until_nul (temp ++ name) ≡ temp ++ name
    → 0 < length (temp ++ name)
    → length (temp ++ name) < temp_buf_len
    → IsPlain e
    → (isalnum e || e == b'_') ≡ false
    → length name < f
    → Ready n temp (name ++ (e ∷ rest)) s
    → Reads (parse_variable_name f s) (temp ++ name) n [] (e ∷ rest)
unfolding parse_variable_name
parse_variable_name-Reads n zero e name temp rest h all pos room p x fuel ready =
    absurd (omega arith)
parse_variable_name-Reads n (suc f) e [] temp rest h all pos room p x fuel ready =
    let (l, c, r) = read_char-Ready n e temp rest ready p in
    let whole = append-nil temp in
    let (s, run, ready') =
      end_name-Reads n e l c temp rest p.3 (subst (λ t. until_nul t ≡ t) whole all)
        (rw (← whole) pos) (rw (← whole) room) in
    (
      s,
      rw r (name_at-stop (parse_variable_name f) e _ x ∙ run ∙ ap (λ t. ok t s) (sym whole)),
      ready',
    )
parse_variable_name-Reads n (suc f) e (d ∷ name) temp rest h all pos room p x fuel ready =
    let plain = name-IsPlain d h.0 in
    let (l, c, r) = read_char-Ready n d temp (name ++ (e ∷ rest)) ready plain in
    let shape : (temp ++ (d ∷ [])) ++ name ≡ temp ++ (d ∷ name) = append_assoc temp (d ∷ []) name in
    let small : length temp < temp_buf_len = omega (arith, length-append temp (d ∷ name), room) in
    let (s, run, ready') =
      parse_variable_name-Reads n f e name (temp ++ (d ∷ [])) rest h.1
        (subst (λ t. until_nul t ≡ t) (sym shape) all) (rw shape pos) (rw shape room) p x
        (omega arith) (fresh l c) in
    (
      s,
      rw r (
          name_at-push (parse_variable_name f) d (state none false n temp (name ++ (e ∷ rest)) l c)
            h.0 small
          ∙ run
          ∙ ap (λ t. ok t s) shape),
      ready',
    )
