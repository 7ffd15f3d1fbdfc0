-- ===== src/Disk/Slices.antt =====
-- Runs of bytes of a contents, which is a function from offsets to bytes.
use kboot.Base.{ℕ, zero, suc, ◌+◌, ◌-◌, ◌≤◌, ◌≡◌, ◌∙◌, refl, ap, [], ◌∷◌, ◌++◌, arith}
use kboot.Base.Lists.{take, drop}
use kboot.CString.{Bytes}

-- `n` bytes of the contents from `a` on.
abbrev pub slice : (ℕ → ℕ) → ℕ → ℕ → Bytes
slice f a zero = []
slice f a (suc n) = f a ∷ slice f (a + 1) n

pub slice-append : (f : ℕ → ℕ) (a m n : ℕ) → slice f a m ++ slice f (a + m) n ≡ slice f a (m + n)
slice-append f a zero n =
    let e : a + 0 ≡ a = omega arith in let e' : 0 + n ≡ n = omega arith in rw e (rw e' refl)
slice-append f a (suc m) n =
    let e : a + suc m ≡ a + 1 + m = omega arith in
    let e' : suc m + n ≡ suc (m + n) = omega arith in
    rw e (rw e' (ap (λ t. f a ∷ t) (slice-append f (a + 1) m n)))

pub take-slice : (f : ℕ → ℕ) (a k n : ℕ) → k ≤ n → take k (slice f a n) ≡ slice f a k
take-slice f a zero n h = refl
take-slice f a (suc k) zero h = absurd (omega arith)
take-slice f a (suc k) (suc n) h = ap (λ t. f a ∷ t) (take-slice f (a + 1) k n (omega arith))

pub drop-slice : (f : ℕ → ℕ) (a k n : ℕ) → k ≤ n → drop k (slice f a n) ≡ slice f (a + k) (n - k)
drop-slice f a zero n h =
    let e : a + 0 ≡ a = omega arith in let e' : n - 0 ≡ n = omega arith in rw e (rw e' refl)
drop-slice f a (suc k) zero h = absurd (omega arith)
drop-slice f a (suc k) (suc n) h =
    let e : a + suc k ≡ a + 1 + k = omega arith in
    let e' : suc n - suc k ≡ n - k = omega arith in
    rw e (rw e' (drop-slice f (a + 1) k n (omega arith)))

pub slice-shift : (f : ℕ → ℕ) (k a n : ℕ) → slice (λ i. f (k + i)) a n ≡ slice f (k + a) n
slice-shift f k a zero = refl
slice-shift f k a (suc n) =
    let e : k + (a + 1) ≡ k + a + 1 = omega arith in
    ap (λ t. f (k + a) ∷ t) (slice-shift f k (a + 1) n ∙ ap (λ x. slice f x n) e)
