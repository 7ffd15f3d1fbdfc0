-- ===== src/Config/Parser/Closed.antt =====
-- A text that ends with a newline: every comment in it ends.
use kboot.Base.{
  ℕ, ◌≡◌, ◌≢◌, refl, [], ◌∷◌, ◌++◌, Option, none, some, not, ◌&&◌, ltb, ◌==◌, length, Bool-cases,
  inl, inr, arith,
}
use kboot.Base.Outcome.{Fault, assertion, endless}
use kboot.Config.Parser.Discipline.{Spares, gives, faults, Spares-if, Discipline}
use kboot.CString.{Bytes}
use kboot.Config.Reader.{
  Input, eof, byte, Reader, Parsed, file_read_helper, skip_comment, keep, return_with, accept,
  read_with, read_char, return_char, push_temp, take_temp, advance, pass, temp_buf_len, to_input,
}

-- A last byte is a newline.
abbrev pub IsClosed : Bytes → Type 0
IsClosed [] = Unit {0}
IsClosed (c ∷ s) = (s ≡ [] → c ≡ b'\n') × IsClosed s

pub append-IsClosed : (s : Bytes) → IsClosed (s ++ (b'\n' ∷ []))
append-IsClosed [] = ((λ _. refl), tt)
append-IsClosed (c ∷ []) = ((λ e. cc), append-IsClosed [])
append-IsClosed (c ∷ d ∷ s) = ((λ e. cc), append-IsClosed (d ∷ s))

-- A character before a text.
abbrev pub Before : Input → Bytes → Type 0
Before eof s = Unit {0}
Before (byte c) s = s ≡ [] → c ≡ b'\n'

abbrev pub Returned : Option Input → Bytes → Type 0
Returned none s = Unit {0}
Returned (some ch) s = Before ch s

abbrev pub IsClean : Reader → Type 0
IsClean r = IsClosed r.input × Returned r.returned r.input

-- Any end but a loop.
abbrev pub IsNoLoop : Fault → Type 0
IsNoLoop e = e ≢ endless

abbrev pub HasRead : Input → Reader → Type 0
HasRead ch r = IsClean r × Before ch r.input

abbrev Reads : Parsed Input → Type 0
Reads p = Spares IsNoLoop HasRead p

abbrev Keeps : {A : Type 0} → Parsed A → Type 0
Keeps p = Spares IsNoLoop (λ _ r. IsClean r) p

skip_comment-Reads :
    (r : Reader) (c : ℕ) (s : Bytes)
    → r.returned ≡ none
    → IsClosed (c ∷ s)
    → Reads (skip_comment r (c ∷ s))
unfolding skip_comment
skip_comment-Reads r c [] e (end, closed) = rw (end refl) (gives ((tt, rw e tt), λ _. refl))
skip_comment-Reads r c (d ∷ s) e (end, closed) =
    Spares-if (c == b'\n') (gives ((closed, rw e tt), λ _. refl))
      (skip_comment-Reads (pass c r) d s e closed)

comment-Reads :
    (r : Reader) (c : ℕ) (s : Bytes)
    → r.returned ≡ none
    → c ≢ b'\n'
    → (s ≡ [] → c ≡ b'\n')
    → IsClosed s
    → Reads (skip_comment r s)
comment-Reads r c [] e other end closed = absurd (other (end refl))
comment-Reads r c (d ∷ s) e other end closed = skip_comment-Reads r d s e closed

accept-Reads :
    (ch : Input) (r : Reader)
    → r.returned ≡ none
    → IsClosed r.input
    → Before ch r.input
    → Reads (accept ch r)
unfolding accept
accept-Reads eof r e closed before = gives ((closed, rw e tt), tt)
accept-Reads (byte c) r e closed before = elim (Bool-cases (not r.ignore_comments && c == b'#')) [
  | inl hash ↦
      rw hash (comment-Reads (advance c r) c r.input e (ground (arith, hash)) before closed)
  | inr other ↦ rw other (gives ((closed, rw e tt), before))
]

helper-IsClosed :
    (s : Bytes)
    → IsClosed s
    → IsClosed (file_read_helper s).1 × Before (file_read_helper s).0 (file_read_helper s).1
unfolding file_read_helper
helper-IsClosed [] h = (tt, tt)
helper-IsClosed (c ∷ s) (end, closed) = elim (Bool-cases (c == b'\r')) [
  | inl skipped ↦ rw skipped (helper-IsClosed s closed)
  | inr seen ↦ rw seen (closed, first c s end)
]
  where
    first : (c : ℕ) (s : Bytes) → (s ≡ [] → c ≡ b'\n') → Before (to_input c) s
    first c s end = elim (Bool-cases (c == 0xff)) [ inl k ↦ rw k tt | inr k ↦ rw k end ]

read_with-Reads :
    (o : Option Input) (r : Reader)
    → r.returned ≡ o
    → IsClosed r.input
    → Returned o r.input
    → Reads (read_with o r)
read_with-Reads none r e closed h =
    let (closed', before) = helper-IsClosed r.input closed in
    accept-Reads (file_read_helper r.input).0 (record r { input = (file_read_helper r.input).1 }) e
      closed' before
read_with-Reads (some ch) r e closed h =
    accept-Reads ch (record r { returned = none }) refl closed h

pub read_char-Reads : (r : Reader) → IsClean r → Reads (read_char r)
unfolding read_char
read_char-Reads r (closed, h) = read_with-Reads r.returned r refl closed h

keep-Returned : (ch : Input) (s : Bytes) → Before ch s → Returned (keep ch) s
keep-Returned eof s h = tt
keep-Returned (byte c) s h = elim (Bool-cases (c == 0)) [ inl k ↦ rw k tt | inr k ↦ rw k h ]

return_with-Clean :
    (o : Option Input) (ch : Input) (r : Reader)
    → IsClosed r.input
    → Before ch r.input
    → Keeps (return_with o ch r)
return_with-Clean (some other) ch r closed h = faults (λ e. cc)
return_with-Clean none ch r closed h = gives (closed, keep-Returned ch r.input h)

pub return_char-Clean :
    (ch : Input) (r : Reader) → IsClean r → Before ch r.input → Keeps (return_char ch r)
unfolding return_char
return_char-Clean ch r (closed, _) h = return_with-Clean r.returned ch r closed h

pub push_temp-Keeps : (c : ℕ) (r : Reader) → IsClean r → Keeps (push_temp c r)
unfolding push_temp
push_temp-Keeps c r h = Spares-if (ltb (length r.temp) temp_buf_len) (gives h) (faults (λ e. cc))

pub take_temp-Keeps : (r : Reader) → IsClean r → Keeps (take_temp r)
unfolding take_temp
take_temp-Keeps r h = Spares-if (ltb (length r.temp) temp_buf_len) (gives h) (faults (λ e. cc))

pub take_temp-Reads :
    (ch : Input) (r : Reader) → HasRead ch r → Spares IsNoLoop (λ _ q. HasRead ch q) (take_temp r)
unfolding take_temp
take_temp-Reads ch r h = Spares-if (ltb (length r.temp) temp_buf_len) (gives h) (faults (λ e. cc))

pub assertion-IsNoLoop : IsNoLoop assertion
assertion-IsNoLoop e = cc

-- No comment is read forever.
abbrev pub no_loop : Discipline
no_loop = record {
  Allowed = IsNoLoop;
  Holds = IsClean;
  Has = HasRead;
  asserts = assertion-IsNoLoop;
  drops = λ ch r h. h.0;
  reads = read_char-Reads;
  gives_back = λ ch r h. return_char-Clean ch r h.0 h.1;
  pushes = λ c r h. push_temp-Keeps c r h.0;
  takes = take_temp-Reads;
  finishes = take_temp-Keeps;
  nests = λ r n h. h;
  marks = λ r b h. h;
}
