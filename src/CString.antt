-- ===== src/CString.antt =====
-- String functions of source/lib/string.c, and the character classes of source/include/lib/ctype.h
-- that they use. A pointer into memory is the list of the bytes from it on; `none` is a read past the
-- end of the memory that the caller owns. Bytes are below 256; `char` counts as unsigned.
pub mod Compare
mod Search
mod Tests
use Prim.Native.Nat.{bit_or}
use mathlib.Core.Option
use kboot.Base.{
  ℕ, zero, suc, ◌+◌, ◌-◌, List, [], ◌∷◌, Option, none, some, Bool, true, false, ◌&&◌, ◌||◌, not,
  ltb, leb, ◌==◌, if◌then◌else◌, All, ◌≢◌,
}
use kboot.Base.Int.{ℤ, pos, negsuc, sub_ℕ}

abbrev pub Bytes : Type 0
Bytes = List ℕ

-- A text holds no terminator.
abbrev pub IsText : Bytes → Type 0
IsText = All (λ c. c ≢ 0)

abbrev pub islower : ℕ → Bool
islower ch = leb b'a' ch && leb ch b'z'

abbrev pub isupper : ℕ → Bool
isupper ch = leb b'A' ch && leb ch b'Z'

abbrev pub isalpha : ℕ → Bool
isalpha ch = islower ch || isupper ch

abbrev pub isdigit : ℕ → Bool
isdigit ch = leb b'0' ch && leb ch b'9'

abbrev pub isalnum : ℕ → Bool
isalnum ch = isalpha ch || isdigit ch

abbrev pub isxdigit : ℕ → Bool
isxdigit ch = isdigit ch || leb b'a' ch && leb ch b'f' || leb b'A' ch && leb ch b'F'

abbrev pub isspace : ℕ → Bool
isspace ch = ch == b'\t' || ch == b'\n' || ch == 11 || ch == 12 || ch == b'\r' || ch == b' '

unfoldable pub tolower : ℕ → ℕ
tolower ch = if isalpha ch then bit_or ch 0x20 else ch

unfoldable pub strlen_from : Bytes → ℕ → Option ℕ
strlen_from [] ret = none
strlen_from (c ∷ str) ret =
    let next = strlen_from str (ret + 1) in if c == 0 then some ret else next

unfoldable pub strlen : Bytes → Option ℕ
strlen str = strlen_from str 0

-- The byte is read before the count is tested.
unfoldable pub strnlen_from : Bytes → ℕ → ℕ → Option ℕ
strnlen_from [] count ret = none
strnlen_from (c ∷ str) count ret =
    let next = strnlen_from str count (ret + 1) in
    if not (c == 0) && ltb ret count then next else some ret

unfoldable pub strnlen : Bytes → ℕ → Option ℕ
strnlen str count = strnlen_from str count 0

unfoldable pub memcmp : Bytes → Bytes → ℕ → Option ℤ
memcmp p1 p2 zero = some (pos 0)
memcmp [] p2 (suc count) = none
memcmp (a ∷ p1) [] (suc count) = none
memcmp (a ∷ p1) (b ∷ p2) (suc count) =
    let next = memcmp p1 p2 count in if not (a == b) then some (sub_ℕ a b) else next

unfoldable pub strcmp : Bytes → Bytes → Option ℤ
strcmp [] s2 = none
strcmp (c1 ∷ s1) [] = none
strcmp (c1 ∷ s1) (c2 ∷ s2) =
    let next = strcmp s1 s2 in if not (c1 == c2) || c1 == 0 then some (sub_ℕ c1 c2) else next

unfoldable pub strncmp : Bytes → Bytes → ℕ → Option ℤ
strncmp s1 s2 zero = some (pos 0)
strncmp [] s2 (suc count) = none
strncmp (c1 ∷ s1) [] (suc count) = none
strncmp (c1 ∷ s1) (c2 ∷ s2) (suc count) =
    let next = strncmp s1 s2 count in if not (c1 == c2) || c1 == 0 then some (sub_ℕ c1 c2) else next

unfoldable pub strcasecmp : Bytes → Bytes → Option ℤ
strcasecmp [] s2 = none
strcasecmp (b1 ∷ s1) [] = none
strcasecmp (b1 ∷ s1) (b2 ∷ s2) =
    let c1 = tolower b1 in
    let c2 = tolower b2 in
    let next = strcasecmp s1 s2 in if not (c1 == c2) || c1 == 0 then some (sub_ℕ c1 c2) else next

unfoldable pub strncasecmp : Bytes → Bytes → ℕ → Option ℤ
strncasecmp s1 s2 zero = some (pos 0)
strncasecmp [] s2 (suc count) = none
strncasecmp (b1 ∷ s1) [] (suc count) = none
strncasecmp (b1 ∷ s1) (b2 ∷ s2) (suc count) =
    let c1 = tolower b1 in
    let c2 = tolower b2 in
    let next = strncasecmp s1 s2 count in
    if not (c1 == c2) || c1 == 0 then some (sub_ℕ c1 c2) else next
