-- ===== src/Config/Parser/Ended.antt =====
-- What a parse comes to, on every text.
use mathlib.Core.Path.{subst}
use kboot.Base.{ℕ, ◌+◌, ◌<◌, ◌≤◌, ◌≡◌, sym, inl, inr, length, arith}
use kboot.Base.Outcome.{Fault, undefined, endless}
use kboot.CString.{Bytes}
use kboot.Config.{Commands}
use kboot.Config.Reader.{Reader, Parsed, ok, failed, halted, temp_buf_len}
use kboot.Config.Parser.{config_parse}
use kboot.Config.Parser.Ensures.{Ensures, holds, rejected, ends}
use kboot.Config.Parser.Scalars.{Kept}
use kboot.Config.Parser.Total.{config_parse-Ensures}
use kboot.Config.Parser.Discipline.{Spares, faults}
use kboot.Config.Parser.Walk.{config_parse-Clean}
use kboot.Config.Parser.Closed.{IsClosed, no_loop}
use kboot.Config.Parser.Small.{no_overflow}

-- What a parse of a text comes to, with `temp` in temp_buf before.
pub data ComesTo (temp input : Bytes) : Parsed Commands → Type 0 where
  parsed : {cs : Commands} {r : Reader} → Kept 0 (length input) cs r → ComesTo temp input (ok cs r)
  refused : {r : Reader} → r.nesting ≡ 0 → ComesTo temp input (failed r)
  overflowed : temp_buf_len ≤ length temp + length input → ComesTo temp input (halted undefined)
  unended : ¬ IsClosed input → ComesTo temp input (halted endless)

allowed :
    {Allowed : Fault → Type 0} {Q : Commands → Reader → Type 0} {e : Fault}
    → Spares Allowed Q (halted e)
    → Allowed e
allowed (faults h) = h

outcome :
    (temp input : Bytes) (p : Parsed Commands)
    → Ensures 0 (Kept 0 (length input)) p
    → (IsClosed input → Spares no_loop.Allowed (λ _ q. no_loop.Holds q) p)
    → (length temp + length input < temp_buf_len
        → Spares no_overflow.Allowed (λ _ q. no_overflow.Holds q) p)
    → ComesTo temp input p
outcome temp input _ (holds h) k l = parsed h
outcome temp input _ (rejected h) k l = refused h
outcome temp input (halted e) (ends (inl is)) k l =
    subst (λ x. ComesTo temp input (halted x)) (sym is)
      (overflowed (not_below (length temp + length input) (λ small. allowed (l small) is)))
  where
    not_below : (n : ℕ) → ¬ (n < temp_buf_len) → temp_buf_len ≤ n
    not_below n h = ground (arith, h)
outcome temp input (halted e) (ends (inr is)) k l =
    subst (λ x. ComesTo temp input (halted x)) (sym is) (unended (λ closed. allowed (k closed) is))

-- On every text, and whatever an earlier parse left in temp_buf, `config_parse` comes to an end, with two exceptions:
-- where what is in temp_buf and the text are together no shorter than temp_buf, it may overflow; and where the last
-- byte of the text is not a newline, a comment may be read forever. It succeeds with a nesting of 0, temp_buf
-- empty and no more characters to come than the text has, or fails with a nesting of 0. The rounds of its loops
-- are fewer than the fuel, and no assertion fails.
pub config_parse-ComesTo : (temp input : Bytes) → ComesTo temp input (config_parse temp input)
config_parse-ComesTo temp input =
    outcome temp input (config_parse temp input) (config_parse-Ensures temp input)
      (λ closed. config_parse-Clean no_loop temp input (closed, tt))
      (λ small. config_parse-Clean no_overflow temp input (omega (arith, small)))
