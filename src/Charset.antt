-- ===== src/Charset.antt =====
-- Conversion of UTF-16 text to UTF-8, source/lib/charset.c. The output buffer is the list of the bytes
-- written to it, each cut down to 8 bits.
pub mod Bounds
mod Tests
use Prim.Native.Nat.{bit_or, bit_and}
use kboot.Base.{
  ℕ, ◌+◌, ◌-◌, ◌*◌, ◌/◌, ◌%◌, ◌^◌, List, [], ◌∷◌, ◌++◌, Bool, ◌&&◌, ◌||◌, not, ltb, leb, ◌==◌,
  if◌then◌else◌,
}
use kboot.CString.{Bytes}

abbrev pub max_utf8_per_utf16 : ℕ
max_utf8_per_utf16 = 4

abbrev pub byte : ℕ → ℕ
byte c = c % 2 ^ 8

-- The bytes after the first: six bits of the code each.
abbrev pub continuation : ℕ → ℕ
continuation bits = byte (bit_or 0x80 (bit_and bits 0x3f))

-- What is written for the unit that follows a high surrogate.
abbrev pub low_surrogate : ℕ → ℕ → Bytes
low_surrogate surrogate code =
    if ltb code 0xdc00 || ltb 0xdfff code
    then b'?' ∷ []
    else (let full = 0x10000 + bit_or ((surrogate - 0xd800) * 2 ^ 10) (code - 0xdc00) in
        byte (bit_or 0xf0 (full / 2 ^ 18))
        ∷ continuation (full / 2 ^ 12)
        ∷ continuation (full / 2 ^ 6)
        ∷ continuation full
        ∷ [])

-- The loop, from a pending high surrogate, 0 for none, on.
unfoldable pub utf16_from : ℕ → List ℕ → Bytes
utf16_from surrogate [] = []
utf16_from surrogate (code ∷ src) =
    let rest = utf16_from 0 src in
    let pending = utf16_from code src in
    if not (surrogate == 0)
    then low_surrogate surrogate code ++ rest
    else if code == 0
    then []
    else if leb code 0x7f
    then byte code ∷ rest
    else if leb code 0x7ff
    then byte (bit_or 0xc0 (code / 2 ^ 6)) ∷ continuation code ∷ rest
    else if leb 0xd800 code && leb code 0xdbff
    then pending
    else if leb 0xdc00 code && leb code 0xdfff
    then b'?' ∷ rest
    else byte (bit_or 0xe0 (code / 2 ^ 12)) ∷ continuation (code / 2 ^ 6) ∷ continuation code ∷ rest

unfoldable pub utf16_to_utf8 : List ℕ → Bytes
utf16_to_utf8 src = utf16_from 0 src
