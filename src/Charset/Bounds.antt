-- ===== src/Charset/Bounds.antt =====
-- The room that a converted text needs, and which texts it leaves as they are.
use kboot.Base.{
  ℕ, ◌+◌, ◌*◌, ◌≤◌, ◌<◌, ◌≡◌, refl, List, [], ◌∷◌, ◌++◌, not, length, length-append, All, ◌==◌,
  if◌then◌else◌, arith,
}
use kboot.Charset.{utf16_from, utf16_to_utf8, low_surrogate, max_utf8_per_utf16}

-- A pending high surrogate has written nothing yet.
abbrev owed : ℕ → ℕ
owed surrogate = if not (surrogate == 0) then 3 else 0

low_surrogate-length : (surrogate code : ℕ) → length (low_surrogate surrogate code) ≤ 4
low_surrogate-length surrogate code = ground arith

utf16_from-length :
    (surrogate : ℕ) (src : List ℕ)
    → length (utf16_from surrogate src) ≤ 3 * length src + owed surrogate
unfolding utf16_from
utf16_from-length surrogate [] = ground arith
utf16_from-length surrogate (code ∷ src) =
    let none_pending = utf16_from-length 0 src in
    let pending = utf16_from-length code src in
    let low = low_surrogate-length surrogate code in
    let both = length-append (low_surrogate surrogate code) (utf16_from 0 src) in
    ground (arith, none_pending, pending, low, both)

-- The output of `utf16_to_utf8` has at most three bytes for each unit of the source, so it fits the buffer
-- of `MAX_UTF8_PER_UTF16` bytes for each unit that its comment asks for.
pub utf16_to_utf8-length :
    (src : List ℕ)
    → (length (utf16_to_utf8 src) ≤ 3 * length src)
      × (length (utf16_to_utf8 src) ≤ max_utf8_per_utf16 * length src)
unfolding utf16_to_utf8
utf16_to_utf8-length src =
    let most = utf16_from-length 0 src in (ground (arith, most), ground (arith, most))

-- ASCII text before a 0 is left as it is, whatever follows the 0.
pub utf16_to_utf8-ascii :
    (text rest : List ℕ)
    → All (λ c. (0 < c) × (c < 0x80)) text
    → utf16_to_utf8 (text ++ (0 ∷ rest)) ≡ text
unfolding utf16_to_utf8 utf16_from
utf16_to_utf8-ascii [] rest h = refl
utf16_to_utf8-ascii (c ∷ text) rest h = ground (arith, h.0, utf16_to_utf8-ascii text rest h.1)
