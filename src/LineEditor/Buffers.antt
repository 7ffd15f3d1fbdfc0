-- ===== src/LineEditor/Buffers.antt =====
-- What reads, writes and moves do to a buffer that is put together from parts.
use kboot.Base.{
  ℕ, zero, suc, ◌+◌, ◌-◌, ◌≤◌, ◌≡◌, refl, ap, ◌∙◌, List, [], ◌∷◌, ◌++◌, append-nil, Option, none,
  some, length, length-append, take, drop, arith,
}
use kboot.Base.Outcome.{done, ◌>>=◌}
use kboot.CString.{Bytes}
use kboot.LineEditor.{Buffer, written, read, write, memmove, unwritten, resize, print_from}

-- The bytes before a place, the nearest first, and those after it, put together.
abbrev pub unwind {ℓ} : {A : Type ℓ} → List A → List A → List A
unwind [] after = after
unwind (x ∷ before) after = unwind before (x ∷ after)

pub length-cells : (str : Bytes) → length (written str) ≡ length str
length-cells [] = refl
length-cells (c ∷ str) = omega (arith, length-cells str)

pub length-unwind {ℓ} : {A : Type ℓ} (b r : List A) → length (unwind b r) ≡ length b + length r
length-unwind [] r = omega arith
length-unwind (x ∷ b) r = omega (arith, length-unwind b (x ∷ r))

pub length-unwritten : (n : ℕ) → length (unwritten n) ≡ n
length-unwritten zero = refl
length-unwritten (suc n) = omega (arith, length-unwritten n)

pub unwind-cells :
    (l r : Bytes) (slack : Buffer)
    → unwind (written l) (written r ++ slack) ≡ written (unwind l r) ++ slack
unwind-cells [] r slack = refl
unwind-cells (c ∷ l) r slack = unwind-cells l (c ∷ r) slack

pub unwind-cells_right :
    (l r : Bytes) (slack : Buffer)
    → unwind (written l) (written r ++ slack) ≡ unwind (written (unwind r l)) slack
unwind-cells_right l [] slack = refl
unwind-cells_right l (c ∷ r) slack = unwind-cells_right (c ∷ l) r slack

-- At `length b + i`, a read and a write see the parts from the place on.
pub read-unwind : (b r : Buffer) (i k : ℕ) → k ≡ length b + i → read (unwind b r) k ≡ read r i
unfolding read
read-unwind [] r i k e = ap (read r) (omega arith)
read-unwind (x ∷ b) r i k e = read-unwind b (x ∷ r) (suc i) k (omega arith)

pub write-unwind :
    (b r r' : Buffer) (i k ch : ℕ)
    → k ≡ length b + i
    → write r i ch ≡ done r'
    → write (unwind b r) k ch ≡ done (unwind b r')
unfolding write
write-unwind [] r r' i k ch e w = ap (λ n. write r n ch) (omega arith) ∙ w
write-unwind (x ∷ b) r r' i k ch e w =
    write-unwind b (x ∷ r) (x ∷ r') (suc i) k ch (omega arith) (rw w refl)

pub take-unwind {ℓ} :
    {A : Type ℓ} (b r : List A) (i k : ℕ)
    → k ≡ length b + i
    → take k (unwind b r) ≡ unwind b (take i r)
take-unwind [] r i k e = ap (λ n. take n r) (omega arith)
take-unwind (x ∷ b) r i k e = take-unwind b (x ∷ r) (suc i) k (omega arith)

pub drop-unwind {ℓ} :
    {A : Type ℓ} (b r : List A) (i k : ℕ) → k ≡ length b + i → drop k (unwind b r) ≡ drop i r
drop-unwind [] r i k e = ap (λ n. drop n r) (omega arith)
drop-unwind (x ∷ b) r i k e = drop-unwind b (x ∷ r) (suc i) k (omega arith)

pub unwind-append {ℓ} : {A : Type ℓ} (b r s : List A) → unwind b r ++ s ≡ unwind b (r ++ s)
unwind-append [] r s = refl
unwind-append (x ∷ b) r s = unwind-append b (x ∷ r) s

pub take_all {ℓ} : {A : Type ℓ} (n : ℕ) (xs : List A) → length xs ≤ n → take n xs ≡ xs
take_all zero [] h = refl
take_all zero (x ∷ xs) h = ground arith
take_all (suc n) [] h = refl
take_all (suc n) (x ∷ xs) h = ap (λ l. x ∷ l) (take_all n xs (omega arith))

pub take-cells : (r : Bytes) (s : Buffer) → take (length r) (written r ++ s) ≡ written r
take-cells [] s = refl
take-cells (c ∷ r) s = ap (λ l. some c ∷ l) (take-cells r s)

drop-cells : (r : Bytes) (s : Buffer) → drop (length r) (written r ++ s) ≡ s
drop-cells [] s = refl
drop-cells (c ∷ r) s = drop-cells r s

drop-cells_suc :
    (r : Bytes) (x : Option ℕ) (s : Buffer) → drop (suc (length r)) (written r ++ (x ∷ s)) ≡ s
drop-cells_suc [] x s = refl
drop-cells_suc (c ∷ r) x s = drop-cells_suc r x s

write_first :
    (r : Bytes) (x : Option ℕ) (s rest : Buffer) (ch : ℕ)
    → write (take 1 (written r ++ (x ∷ s)) ++ rest) 0 ch ≡ done (some ch ∷ rest)
unfolding write
write_first [] x s rest ch = refl
write_first (c ∷ r) x s rest ch = refl

-- The loop that prints what stands from a place on.
pub print_from-unwind :
    (b : Buffer) (r : Bytes) (slack : Buffer) (k : ℕ)
    → k ≡ length b
    → print_from (unwind b (written r ++ slack)) k (length r) ≡ done r
unfolding print_from read
print_from-unwind b [] slack k e = refl
print_from-unwind b (c ∷ r) slack k e =
    rw (read-unwind b (some c ∷ (written r ++ slack)) 0 k (omega arith))
      (rw (print_from-unwind (some c ∷ b) r slack (k + 1) (omega arith)) refl)

memmove_done :
    (buf : Buffer) (dest src count : ℕ)
    → dest + count ≤ length buf
    → src + count ≤ length buf
    → memmove buf dest src count
      ≡ done (take dest buf ++ (take count (drop src buf) ++ drop (dest + count) buf))
unfolding memmove
memmove_done buf dest src count h1 h2 = ground arith

-- A move among the written from a place on.
memmove-unwind :
    (b r : Buffer) (d s count dest src stop_at : ℕ)
    → dest ≡ length b + d
    → src ≡ length b + s
    → stop_at ≡ d + count
    → stop_at ≤ length r
    → s + count ≤ length r
    → memmove (unwind b r) dest src count
      ≡ done (unwind b (take d r ++ (take count (drop s r) ++ drop stop_at r)))
memmove-unwind b r d s count dest src stop_at ed es ee h1 h2 =
    let size = length-unwind b r in
    memmove_done (unwind b r) dest src count (omega arith) (omega arith)
    ∙ rw (take-unwind b r d dest ed) (
        rw (drop-unwind b r s src es) (
          rw (drop-unwind b r stop_at (dest + count) (omega arith))
            (ap done (unwind-append b _ _))))

pub length-cells_append : (r : Bytes) (s : Buffer) → length (written r ++ s) ≡ length r + length s
length-cells_append r s = omega (arith, length-append (written r) s, length-cells r)

-- Moving the bytes from a place on, up by one over the first cell of the slack, leaves a cell to write.
pub insert_cell :
    (b : Buffer) (r : Bytes) (s : Option ℕ) (slack : Buffer) (k ch : ℕ)
    → k ≡ length b
    → (memmove (unwind b (written r ++ (s ∷ slack))) (k + 1) k (length r) >>= λ moved.
        write moved k ch)
      ≡ done (unwind b (some ch ∷ (written r ++ slack)))
insert_cell b r s slack k ch e =
    let all = written r ++ (s ∷ slack) in
    let size = length-cells_append r (s ∷ slack) in
    rw
      (memmove-unwind b all 1 0 (length r) (k + 1) k (suc (length r)) (omega arith) (omega arith)
        (omega arith) (omega arith) (omega arith))
      (write-unwind b _ _ 0 k ch (omega arith) (
        rw (take-cells r (s ∷ slack)) (rw (drop-cells_suc r s slack) (write_first r s slack _ ch))))

last_cell :
    (x : Option ℕ) (r : Bytes) (slack : Buffer)
    → (s : Option ℕ) × (drop (length r) (x ∷ (written r ++ slack)) ≡ s ∷ slack)
last_cell x [] slack = (x, refl)
last_cell x (c ∷ r) slack = last_cell (some c) r slack

-- Moving the bytes behind a place down by one leaves a cell more of slack.
pub remove_cell :
    (b : Buffer) (c : ℕ) (r : Bytes) (slack : Buffer) (k : ℕ)
    → k ≡ length b
    → (s : Option ℕ) × (memmove (unwind b (some c ∷ (written r ++ slack))) k (k + 1) (length r)
        ≡ done (unwind b (written r ++ (s ∷ slack))))
remove_cell b c r slack k e =
    let all = some c ∷ (written r ++ slack) in
    let (s, left) = last_cell (some c) r slack in
    let size = length-cells_append r slack in
    (
      s,
      memmove-unwind b all 0 1 (length r) k (k + 1) (length r) (omega arith) (omega arith)
            (omega arith) (omega arith) (omega arith)
          ∙ ap (λ l. done (unwind b l)) (rw (take-cells r slack) (rw left refl)),
    )

take-written_next :
    (t : Bytes) (x : Option ℕ) (s : Buffer)
    → take (suc (length t)) (written t ++ (x ∷ s)) ≡ written t ++ (x ∷ [])
take-written_next [] x s = refl
take-written_next (c ∷ t) x s = ap (λ l. some c ∷ l) (take-written_next t x s)

-- Cutting a buffer behind one cell more than the text.
pub resize_next :
    (t : Bytes) (slack : Buffer) (n : ℕ)
    → n ≡ suc (length t)
    → (x : Option ℕ) × (resize (written t ++ slack) n ≡ written t ++ (x ∷ []))
unfolding resize
resize_next t [] n e =
    let size = length-cells t in
    let one : n - length (written t ++ []) ≡ 1 = omega (arith, length-append (written t) []) in
    let whole : take n (written t ++ []) ≡ written t =
      rw (append-nil (written t)) (take_all n (written t) (omega arith)) in
    (none, rw whole (rw one refl))
resize_next t (s ∷ slack) n e =
    let size = length-cells t in
    let nothing : n - length (written t ++ (s ∷ slack)) ≡ 0 =
      omega (arith, length-append (written t) (s ∷ slack)) in
    (s, rw nothing (append-nil _ ∙ rw e (take-written_next t s slack)))

pub write-terminator :
    (t : Bytes) (x : Option ℕ) (n : ℕ)
    → n ≡ length t
    → write (written t ++ (x ∷ [])) n 0 ≡ done (written t ++ (some 0 ∷ []))
unfolding write
write-terminator t x n e = rw e (at_length t)
  where
    at_length :
        (u : Bytes) → write (written u ++ (x ∷ [])) (length u) 0 ≡ done (written u ++ (some 0 ∷ []))
    at_length [] = refl
    at_length (c ∷ u) = rw (at_length u) refl
