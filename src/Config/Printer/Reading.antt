-- ===== src/Config/Printer/Reading.antt =====
-- How the parser reads a known text, character by character.
use kboot.Base.{
  All, ap, ltb, ℕ, ◌<◌, ◌≡◌, ◌≢◌, refl, [], ◌∷◌, ◌++◌, Option, none, some, Bool, true, false, not,
  ◌&&◌, ◌==◌, length, arith,
}
use kboot.CString.{Bytes}
use kboot.Config.Reader.{
  step_back, until_nul, Input, byte, Reader, Parsed, ok, file_read_helper, accept, read_char,
  line_after, col_after, advance, return_char, push_temp, take_temp, temp_buf_len,
}

-- A state of the parser.
abbrev pub state : Option Input → Bool → ℕ → Bytes → Bytes → ℕ → ℕ → Reader
state returned ignore_comments nesting temp input line col = record {
  input = input;
  returned = returned;
  ignore_comments = ignore_comments;
  nesting = nesting;
  temp = temp;
  line = line;
  col = col;
}

-- Outside of strings, with `temp` in the buffer: the next character is still in the file, or was given back.
pub data Ready (n : ℕ) (temp : Bytes) : Bytes → Reader → Type 0 where
  fresh : {input : Bytes} (l c : ℕ) → Ready n temp input (state none false n temp input l c)
  again :
      (d : ℕ) {rest : Bytes} (l c : ℕ)
      → Ready n temp (d ∷ rest) (state (some (byte d)) false n temp rest l c)

-- A byte that is read as it is.
abbrev pub IsPlain : ℕ → Type 0
IsPlain d = (d ≢ b'\r') × (d ≢ 0xff) × (d ≢ b'#') × (d ≢ 0)

-- A call that comes to a value and leaves a text to be read.
abbrev pub Reads : {A : Type 0} → Parsed A → A → ℕ → Bytes → Bytes → Type 0
Reads p a n temp rest = (s : Reader) × (p ≡ ok a s) × Ready n temp rest s

accept-plain :
    (d : ℕ) (r : Reader)
    → (not r.ignore_comments && d == b'#') ≡ false
    → accept (byte d) r ≡ ok (byte d) (advance d r)
unfolding accept
accept-plain d r h = rw h refl

helper-plain :
    (d : ℕ) (rest : Bytes) → (d ≢ b'\r') × (d ≢ 0xff) → file_read_helper (d ∷ rest) ≡ (byte d, rest)
unfolding file_read_helper
helper-plain d rest h = ground (arith, h.0, h.1)

pub read_char-Ready :
    (n d : ℕ) (temp rest : Bytes) {s : Reader}
    → Ready n temp (d ∷ rest) s
    → IsPlain d
    → (l c : ℕ) × (read_char s ≡ ok (byte d) (state none false n temp rest l c))
unfolding read_char
read_char-Ready n d temp rest (fresh l c) h =
    let at = state none false n temp rest l c in
    let no_comment : (d == b'#') ≡ false = ground (arith, h.2) in
    (
      line_after d at,
      col_after d at,
      rw (helper-plain d rest (h.0, h.1)) (accept-plain d at no_comment),
    )
read_char-Ready n d temp rest (again _ l c) h =
    let at = state none false n temp rest l c in
    let no_comment : (d == b'#') ≡ false = ground (arith, h.2) in
    (line_after d at, col_after d at, accept-plain d at no_comment)

-- Inside a string, where '#' is read as it is too.
pub read_char-quoted :
    (n d l c : ℕ) (temp rest : Bytes)
    → (d ≢ b'\r') × (d ≢ 0xff)
    → (l' c' : ℕ) × (read_char (state none true n temp (d ∷ rest) l c)
        ≡ ok (byte d) (state none true n temp rest l' c'))
unfolding read_char
read_char-quoted n d l c temp rest h =
    let at = state none true n temp rest l c in
    (line_after d at, col_after d at, rw (helper-plain d rest h) (accept-plain d at refl))

-- A character that is given back is still to be read.
pub return_char-Ready :
    (n d l c : ℕ) (temp rest : Bytes)
    → d ≢ 0
    → Reads (return_char (byte d) (state none false n temp rest l c)) tt n temp (d ∷ rest)
unfolding return_char
return_char-Ready n d l c temp rest h =
    let kept : (d == 0) ≡ false = ground (arith, h) in
    let back = step_back (state (some (byte d)) false n temp rest l c) in
    (back, rw kept refl, again d _ _)

pub push_temp-room :
    (d : ℕ) (r : Reader)
    → length r.temp < temp_buf_len
    → push_temp d r ≡ ok tt (record r { temp = r.temp ++ (d ∷ []) })
unfolding push_temp
push_temp-room d r h = ground arith

pub take_temp-room :
    (r : Reader)
    → until_nul r.temp ≡ r.temp
    → length r.temp < temp_buf_len
    → take_temp r ≡ ok r.temp (record r { temp = [] })
unfolding take_temp
take_temp-room r whole h =
    let small : ltb (length r.temp) temp_buf_len ≡ true = ground (arith, h) in
    rw small (ap (λ s. ok s (record r { temp = [] })) whole)

pub until_nul_lem : (s : Bytes) → All (λ c. c ≢ 0) s → until_nul s ≡ s
until_nul_lem [] h = refl
until_nul_lem (c ∷ s) h =
    let kept : (c == 0) ≡ false = ground (arith, h.0) in
    rw kept (ap (λ t. c ∷ t) (until_nul_lem s h.1))
