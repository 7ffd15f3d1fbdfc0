-- ===== src/Config/Parser/Discipline.antt =====
-- An invariant of the parser's state that reading, giving back and collecting keep.
use kboot.Base.{ℕ, Bool, true, false, if◌then◌else◌}
use kboot.Base.Outcome.{Fault, assertion}
use kboot.Config.Reader.{
  Input, byte, Reader, Parsed, ok, failed, halted, out_of_fuel, bind, read_char, return_char,
  push_temp, take_temp,
}

-- The outcome meets `Q` where there is a result, and is an allowed one where the loader ends.
pub data Spares {A : Type 0} (Allowed : Fault → Type 0) (Q : A → Reader → Type 0)
    : Parsed A → Type 0 where
  gives : {a : A} {r : Reader} → Q a r → Spares Allowed Q (ok a r)
  fails : {r : Reader} → Spares Allowed Q (failed r)
  faults : {e : Fault} → Allowed e → Spares Allowed Q (halted e)
  starves : Spares Allowed Q out_of_fuel

module _ {A : Type 0} {Allowed : Fault → Type 0} {Q : A → Reader → Type 0} where
  pub Spares-bind :
      {B : Type 0} {R : B → Reader → Type 0} {p : Parsed A} {f : A → Reader → Parsed B}
      → Spares Allowed Q p
      → ((a : A) (r : Reader) → Q a r → Spares Allowed R (f a r))
      → Spares Allowed R (bind p f)
  Spares-bind (gives {a} {r} h) k = k a r h
  Spares-bind fails k = fails
  Spares-bind (faults h) k = faults h
  Spares-bind starves k = starves

  pub Spares-if :
      (b : Bool) {p q : Parsed A}
      → Spares Allowed Q p
      → Spares Allowed Q q
      → Spares Allowed Q (if b then p else q)
  Spares-if true hp hq = hp
  Spares-if false hp hq = hq

-- `Holds` is kept between the parts of the parser, `Has` with a character that was read.
pub record Discipline : Type 1 where
  pub Allowed : Fault → Type 0
  pub Holds : Reader → Type 0
  pub Has : Input → Reader → Type 0
  pub asserts : Allowed assertion
  pub drops : (ch : Input) (r : Reader) → Has ch r → Holds r
  pub reads : (r : Reader) → Holds r → Spares Allowed Has (read_char r)
  pub gives_back :
      (ch : Input) (r : Reader) → Has ch r → Spares Allowed (λ _ q. Holds q) (return_char ch r)
  pub pushes :
      (c : ℕ) (r : Reader) → Has (byte c) r → Spares Allowed (λ _ q. Holds q) (push_temp c r)
  pub takes : (ch : Input) (r : Reader) → Has ch r → Spares Allowed (λ _ q. Has ch q) (take_temp r)
  pub finishes : (r : Reader) → Holds r → Spares Allowed (λ _ q. Holds q) (take_temp r)
  pub nests : (r : Reader) (n : ℕ) → Holds r → Holds (record r { nesting = n })
  pub marks : (r : Reader) (b : Bool) → Holds r → Holds (record r { ignore_comments = b })
