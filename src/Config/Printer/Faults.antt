-- ===== src/Config/Printer/Faults.antt =====
-- Two texts that the parser does not survive: a comment that ends the file, and a command's name that does
-- not fit temp_buf.
use kboot.Base.{
  ℕ, zero, suc, ◌+◌, ◌*◌, ◌≤◌, ◌<◌, ◌≡◌, ◌≢◌, refl, ap, ◌∙◌, [], ◌∷◌, ◌++◌, append_assoc, true,
  false, ltb, ◌==◌, Bool-cases, leb_of_not_ltb, ltb→lt, none, inl, inr, length, length-append, All,
  arith,
}
use kboot.Base.Outcome.{undefined, endless}
use kboot.CString.{Bytes, isspace}
use kboot.Config.Reader.{
  eof, Reader, halted, file_read_helper, skip_comment, accept, read_char, pass, advance, push_temp,
  take_temp, temp_buf_len,
}
use kboot.Config.Parser.{parse_values, parse_commands, initial, balanced, config_parse}
use kboot.Config.Printer.Reading.{state, Ready, fresh, read_char-Ready}
use kboot.Config.Printer.Names.{commands_at-push, word-IsPlain}

skip_comment-endless :
    (r : Reader) (text : Bytes) → All (λ c. c ≢ b'\n') text → skip_comment r text ≡ halted endless
unfolding skip_comment
skip_comment-endless r [] h = refl
skip_comment-endless r (c ∷ text) h = ground (arith, h.0, skip_comment-endless (pass c r) text h.1)

comment-endless :
    (f : ℕ) (text : Bytes)
    → All (λ c. c ≢ b'\n') text
    → parse_commands (suc f) eof (initial [] (b'#' ∷ text)) ≡ halted endless
unfolding parse_commands read_char accept file_read_helper
comment-endless f text h =
    rw (skip_comment-endless (advance b'#' (state none false 0 [] text 1 0)) text h) refl

-- A file that is one comment with no '\n' at its end is never parsed: read_char reads EOF for ever.
pub config_parse_endless :
    (text : Bytes) → All (λ c. c ≢ b'\n') text → config_parse [] (b'#' ∷ text) ≡ halted endless
unfolding config_parse
config_parse_endless text h =
    let n = 3 * length (b'#' ∷ text) in
    let fuel : n + 4 ≡ suc (n + 3) = omega arith in
    ap (λ f. balanced (parse_commands f eof (initial [] (b'#' ∷ text)))) fuel
    ∙ ap balanced (comment-endless (n + 3) text h)

push_temp-full :
    (d : ℕ) (r : Reader) → temp_buf_len ≤ length r.temp → push_temp d r ≡ halted undefined
unfolding push_temp
push_temp-full d r h = ground arith

take_temp-full : (r : Reader) → temp_buf_len ≤ length r.temp → take_temp r ≡ halted undefined
unfolding take_temp
take_temp-full r h = ground arith

name-overflow :
    (f : ℕ) (name temp rest : Bytes) {s : Reader}
    → All (λ d. (isspace d ≡ false) × (d ≢ b'#') × (d ≢ 0xff) × (d ≢ 0)) name
    → temp_buf_len ≤ length (temp ++ name)
    → length name < f
    → Ready 0 temp (name ++ (b'\n' ∷ rest)) s
    → parse_commands f eof s ≡ halted undefined
unfolding parse_commands
name-overflow zero name temp rest h long fuel ready = absurd (omega arith)
name-overflow (suc f) [] temp rest h long fuel ready =
    let (l, c, r) = read_char-Ready 0 b'\n' temp rest ready (omega arith) in
    let long' : temp_buf_len ≤ length temp = omega (arith, long, length-append temp []) in
    let some_name : (length temp == 0) ≡ false = ground (arith, long') in
    rw r (rw some_name (rw (take_temp-full (state none false 0 temp rest l c) long') refl))
name-overflow (suc f) (d ∷ name) temp rest h long fuel ready =
    let (l, c, r) =
      read_char-Ready 0 d temp (name ++ (b'\n' ∷ rest)) ready
        (word-IsPlain d h.0.0 h.0.1 h.0.2 h.0.3) in
    let at = state none false 0 temp (name ++ (b'\n' ∷ rest)) l c in
    let shape : (temp ++ (d ∷ [])) ++ name ≡ temp ++ (d ∷ name) = append_assoc temp (d ∷ []) name in
    elim (Bool-cases (ltb (length temp) temp_buf_len)) [
      | inl room ↦ rw r (
          commands_at-push (parse_values f true false false) (parse_commands f eof) eof d at refl
            h.0.0 (ltb→lt _ _ room)
          ∙ name-overflow f name (temp ++ (d ∷ [])) rest h.1 (rw shape long) (omega arith)
              (fresh l c))
      | inr full ↦ rw r (rw h.0.0 (rw (push_temp-full d at (leb_of_not_ltb _ _ full)) refl))
    ]

-- A command's name of 512 characters or more, which stands alone on the first line, is written past the end of temp_buf.
pub config_parse_overflow :
    (name rest : Bytes)
    → All (λ d. (isspace d ≡ false) × (d ≢ b'#') × (d ≢ 0xff) × (d ≢ 0)) name
    → temp_buf_len ≤ length name
    → config_parse [] (name ++ (b'\n' ∷ rest)) ≡ halted undefined
unfolding config_parse
config_parse_overflow name rest h long =
    let text = name ++ (b'\n' ∷ rest) in
    ap balanced (
      name-overflow (3 * length text + 4) name [] rest h long
        (omega (arith, length-append name (b'\n' ∷ rest))) (fresh 1 0))
