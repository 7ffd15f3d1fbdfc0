-- ===== src/Config/Parser/Ensures.antt =====
-- What a call of the parser may come to: it keeps within its fuel, no assertion fails, and the nesting
-- is restored, also where it fails. It may end in undefined behaviour or in a loop without end.
use kboot.Base.{
  ℕ, ◌+◌, ◌-◌, ◌≤◌, ◌<◌, ◌≡◌, refl, ◌∙◌, [], ◌∷◌, Option, none, some, Bool, true, false, not, ◌&&◌,
  ltb, ◌==◌, if◌then◌else◌, ◌⊎◌, inl, inr, length, length-append, arith,
}
use kboot.Base.Outcome.{Fault, undefined, endless}
use kboot.CString.{Bytes}
use kboot.Config.Reader.{
  keep, Input, eof, byte, Reader, Parsed, ok, failed, halted, bind, file_read_helper, skip_comment,
  accept, read_with, read_char, temp_buf_len, return_char, push_temp, take_temp, advance, pass,
}
use kboot.Config.Parser.{leave}

-- The outcome meets `Q` where there is a result; `n` is the nesting after a failure.
pub data Ensures {A : Type 0} (n : ℕ) (Q : A → Reader → Type 0) : Parsed A → Type 0 where
  holds : {a : A} {r : Reader} → Q a r → Ensures n Q (ok a r)
  rejected : {r : Reader} → r.nesting ≡ n → Ensures n Q (failed r)
  ends : {e : Fault} → (e ≡ undefined) ⊎ (e ≡ endless) → Ensures n Q (halted e)

module _ {A : Type 0} {n : ℕ} {Q : A → Reader → Type 0} where
  pub Ensures-bind :
      {B : Type 0} {R : B → Reader → Type 0} {p : Parsed A} {f : A → Reader → Parsed B}
      → Ensures n Q p
      → ((a : A) (r : Reader) → Q a r → Ensures n R (f a r))
      → Ensures n R (bind p f)
  Ensures-bind (holds {a} {r} h) k = k a r h
  Ensures-bind (rejected h) k = rejected h
  Ensures-bind (ends h) k = ends h

  pub Ensures-if :
      (b : Bool) {p q : Parsed A}
      → ((b ≡ true) → Ensures n Q p)
      → ((b ≡ false) → Ensures n Q q)
      → Ensures n Q (if b then p else q)
  Ensures-if true hp hq = hp refl
  Ensures-if false hp hq = hq refl

  pub Ensures-weaken :
      {R : A → Reader → Type 0} {p : Parsed A} {m : ℕ}
      → Ensures n Q p
      → n ≡ m
      → ((a : A) (r : Reader) → Q a r → R a r)
      → Ensures m R p
  Ensures-weaken (holds {a} {r} h) e k = holds (k a r h)
  Ensures-weaken (rejected h) e k = rejected (h ∙ e)
  Ensures-weaken (ends h) e k = ends h

  pub Ensures-leave :
      {R : A → Reader → Type 0} {p : Parsed A} {m : ℕ}
      → Ensures n Q p
      → n ≡ m + 1
      → ((a : A) (r : Reader) → Q a r → R a (record r { nesting = r.nesting - 1 }))
      → Ensures m R (leave p)
  Ensures-leave (holds {a} {r} h) e k = holds (k a r h)
  Ensures-leave (rejected h) e k = rejected (omega (arith, h))
  Ensures-leave (ends h) e k = ends h

-- The characters that are still to come: EOF, which comes again and again, counts nothing.
abbrev pub cost : Input → ℕ
cost eof = 0
cost (byte c) = 1

abbrev pub pending : Option Input → ℕ
pending none = 0
pending (some ch) = cost ch

abbrev pub weight : Reader → ℕ
weight r = length r.input + pending r.returned

-- After a read, from a state with nesting `n`, `temp` in the buffer and weight at most `w`.
abbrev pub IsRead : ℕ → Bytes → ℕ → Input → Reader → Type 0
IsRead n temp w ch r =
    (r.nesting ≡ n) × (r.temp ≡ temp) × (r.returned ≡ none) × (cost ch + length r.input ≤ w)

helper-length :
    (input : Bytes)
    → cost (file_read_helper input).0 + length (file_read_helper input).1 ≤ length input
unfolding file_read_helper
helper-length [] = omega arith
helper-length (c ∷ input) = ground (arith, helper-length input)

skip_comment-Ensures :
    (r : Reader) (input : Bytes)
    → r.returned ≡ none
    → Ensures r.nesting (IsRead r.nesting r.temp (length input)) (skip_comment r input)
unfolding skip_comment
skip_comment-Ensures r [] e = ends (inr refl)
skip_comment-Ensures r (c ∷ input) e =
    Ensures-if (c == b'\n') (λ _. holds (refl, refl, e, omega arith))
      (λ _.
        Ensures-weaken (skip_comment-Ensures (pass c r) input e) refl
          (λ ch q h. (h.0, h.1, h.2, omega (arith, h.3))))

accept-Ensures :
    (ch : Input) (r : Reader)
    → r.returned ≡ none
    → Ensures r.nesting (IsRead r.nesting r.temp (cost ch + length r.input)) (accept ch r)
unfolding accept
accept-Ensures eof r e = holds (refl, refl, e, omega arith)
accept-Ensures (byte c) r e =
    Ensures-if (not r.ignore_comments && c == b'#')
      (λ _.
        Ensures-weaken (skip_comment-Ensures (advance c r) r.input e) refl
          (λ ch q h. (h.0, h.1, h.2, omega (arith, h.3))))
      (λ _. holds (refl, refl, e, omega arith))

read_with-Ensures :
    (o : Option Input) (r : Reader)
    → r.returned ≡ o
    → Ensures r.nesting (IsRead r.nesting r.temp (length r.input + pending o)) (read_with o r)
read_with-Ensures none r e =
    Ensures-weaken
      (accept-Ensures (file_read_helper r.input).0
        (record r { input = (file_read_helper r.input).1 }) e)
      refl (λ ch q h. (h.0, h.1, h.2, omega (arith, h.3, helper-length r.input)))
read_with-Ensures (some ch) r e =
    Ensures-weaken (accept-Ensures ch (record r { returned = none }) refl) refl
      (λ ch' q h. (h.0, h.1, h.2, omega (arith, h.3)))

pub read_char-Ensures :
    (r : Reader) → Ensures r.nesting (IsRead r.nesting r.temp (weight r)) (read_char r)
unfolding read_char
read_char-Ensures r = read_with-Ensures r.returned r refl

pending-keep : (ch : Input) → pending (keep ch) ≤ cost ch
pending-keep eof = omega arith
pending-keep (byte c) = ground arith

-- After a character was given back to a state with no other.
pub return_char-Ensures :
    (ch : Input) (r : Reader)
    → r.returned ≡ none
    → Ensures r.nesting
        (λ _ q. (q.nesting ≡ r.nesting) × (q.temp ≡ r.temp) × (weight q ≤ cost ch + length r.input))
        (return_char ch r)
unfolding return_char
return_char-Ensures ch r e = rw e (holds (refl, refl, omega (arith, pending-keep ch)))

pub push_temp-Ensures :
    (c : ℕ) (r : Reader)
    → Ensures r.nesting
        (λ _ q.
          (q.nesting ≡ r.nesting)
          × (q.returned ≡ r.returned)
          × (q.input ≡ r.input)
          × (0 < length q.temp))
        (push_temp c r)
unfolding push_temp
push_temp-Ensures c r =
    Ensures-if (ltb (length r.temp) temp_buf_len)
      (λ _. holds (refl, refl, refl, omega (arith, length-append r.temp (c ∷ []))))
      (λ _. ends (inl refl))

pub take_temp-Ensures :
    (r : Reader)
    → Ensures r.nesting
        (λ _ q.
          (q.nesting ≡ r.nesting) × (q.returned ≡ r.returned) × (q.input ≡ r.input) × (q.temp ≡ []))
        (take_temp r)
unfolding take_temp
take_temp-Ensures r =
    Ensures-if (ltb (length r.temp) temp_buf_len) (λ _. holds (refl, refl, refl, refl))
      (λ _. ends (inl refl))
