-- ===== src/Config/Parser/Small.antt =====
-- A text that temp_buf has room for: it does not overflow.
use kboot.Base.{
  ℕ, ◌+◌, ◌≤◌, ◌<◌, ◌≡◌, ◌≢◌, refl, ap, [], ◌∷◌, Option, none, some, true, not, ◌&&◌, ltb, ◌==◌,
  length, length-append, arith,
}
use kboot.Base.Outcome.{Fault, assertion, undefined}
use kboot.CString.{Bytes}
use kboot.Config.Reader.{
  Input, eof, byte, Reader, keep, file_read_helper, skip_comment, accept, read_with, read_char,
  return_char, push_temp, take_temp, advance, pass, temp_buf_len,
}
use kboot.Config.Parser.Ensures.{cost, weight, pending}
use kboot.Config.Parser.Discipline.{Spares, gives, faults, Spares-if, Discipline}

-- Any end but undefined behaviour.
abbrev pub IsDefined : Fault → Type 0
IsDefined e = e ≢ undefined

-- What is collected and what is to come fit in the buffer.
abbrev pub IsSmall : Reader → Type 0
IsSmall r = length r.temp + weight r < temp_buf_len

abbrev pub Fits : Input → Reader → Type 0
Fits ch r = (r.returned ≡ none) × (length r.temp + cost ch + length r.input < temp_buf_len)

skip_comment-Fits :
    (r : Reader) (s : Bytes)
    → r.returned ≡ none
    → length r.temp + length s < temp_buf_len
    → Spares IsDefined Fits (skip_comment r s)
unfolding skip_comment
skip_comment-Fits r [] e h = faults (λ e. cc)
skip_comment-Fits r (c ∷ s) e h =
    Spares-if (c == b'\n') (gives (e, omega (arith, h)))
      (skip_comment-Fits (pass c r) s e (omega (arith, h)))

accept-Fits : (ch : Input) (r : Reader) → Fits ch r → Spares IsDefined Fits (accept ch r)
unfolding accept
accept-Fits eof r h = gives h
accept-Fits (byte c) r h =
    Spares-if (not r.ignore_comments && c == b'#')
      (skip_comment-Fits (advance c r) r.input h.0 (omega (arith, h.1))) (gives h)

helper-length : (s : Bytes) → cost (file_read_helper s).0 + length (file_read_helper s).1 ≤ length s
unfolding file_read_helper
helper-length [] = omega arith
helper-length (c ∷ s) = ground (arith, helper-length s)

read_with-Fits :
    (o : Option Input) (r : Reader)
    → r.returned ≡ o
    → length r.temp + (length r.input + pending o) < temp_buf_len
    → Spares IsDefined Fits (read_with o r)
read_with-Fits none r e h =
    accept-Fits (file_read_helper r.input).0 (record r { input = (file_read_helper r.input).1 })
      (e, omega (arith, h, helper-length r.input))
read_with-Fits (some ch) r e h =
    accept-Fits ch (record r { returned = none }) (refl, omega (arith, h))

pub read_char-Fits : (r : Reader) → IsSmall r → Spares IsDefined Fits (read_char r)
unfolding read_char
read_char-Fits r h = read_with-Fits r.returned r refl h

pending-keep : (ch : Input) → pending (keep ch) ≤ cost ch
pending-keep eof = omega arith
pending-keep (byte c) = ground arith

pub return_char-IsSmall :
    (ch : Input) (r : Reader) → Fits ch r → Spares IsDefined (λ _ q. IsSmall q) (return_char ch r)
unfolding return_char
return_char-IsSmall ch r (e, h) = rw e (gives (omega (arith, h, pending-keep ch)))

pub push_temp-IsSmall :
    (c : ℕ) (r : Reader) → Fits (byte c) r → Spares IsDefined (λ _ q. IsSmall q) (push_temp c r)
unfolding push_temp
push_temp-IsSmall c r (e, h) =
    let room : ltb (length r.temp) temp_buf_len ≡ true = ground (arith, h) in
    rw room (gives (omega (arith, h, ap pending e, length-append r.temp (c ∷ []))))

pub take_temp-Fits :
    (ch : Input) (r : Reader) → Fits ch r → Spares IsDefined (λ _ q. Fits ch q) (take_temp r)
unfolding take_temp
take_temp-Fits ch r (e, h) =
    let room : ltb (length r.temp) temp_buf_len ≡ true = ground (arith, h) in
    rw room (gives (e, omega (arith, h)))

pub take_temp-IsSmall : (r : Reader) → IsSmall r → Spares IsDefined (λ _ q. IsSmall q) (take_temp r)
unfolding take_temp
take_temp-IsSmall r h =
    let room : ltb (length r.temp) temp_buf_len ≡ true = ground (arith, h) in
    rw room (gives (omega (arith, h)))

pub assertion-IsDefined : IsDefined assertion
assertion-IsDefined e = cc

-- temp_buf does not overflow.
abbrev pub no_overflow : Discipline
no_overflow = record {
  Allowed = IsDefined;
  Holds = IsSmall;
  Has = Fits;
  asserts = assertion-IsDefined;
  drops = λ ch r (e, h). omega (arith, h, ap pending e);
  reads = read_char-Fits;
  gives_back = return_char-IsSmall;
  pushes = push_temp-IsSmall;
  takes = take_temp-Fits;
  finishes = take_temp-IsSmall;
  nests = λ r n h. h;
  marks = λ r b h. h;
}
