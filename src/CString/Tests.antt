-- ===== src/CString/Tests.antt =====
-- Runs of the string functions, and the theorems at concrete texts.
use kboot.Base.{ℕ, ◌≡◌, refl, [], ◌∷◌, some, ◌↔◌, arith}
use kboot.Base.Int.{ℤ, pos, negsuc, IsNegative}
use kboot.CString.{
  Bytes, IsText, tolower, strlen_from, strlen, strnlen_from, strnlen, memcmp, strcmp, strncmp,
  strcasecmp, strncasecmp,
}
use kboot.CString.Compare.{Precedes, strcmp_lem}

-- Unfolding this unfolds the string functions.
string_code : ℕ
unfolding tolower strlen_from strlen strnlen_from strnlen memcmp strcmp strncmp strcasecmp
    strncasecmp
string_code = 0

abbrev boot : Bytes
boot = b'b' ∷ b'o' ∷ b'o' ∷ b't' ∷ []

abbrev boot_terminated : Bytes
boot_terminated = b'b' ∷ b'o' ∷ b'o' ∷ b't' ∷ 0 ∷ []

abbrev bond : Bytes
bond = b'b' ∷ b'o' ∷ b'n' ∷ b'd' ∷ []

abbrev bond_terminated : Bytes
bond_terminated = b'b' ∷ b'o' ∷ b'n' ∷ b'd' ∷ 0 ∷ []

abbrev upper_boot : Bytes
upper_boot = b'B' ∷ b'O' ∷ b'o' ∷ b'T' ∷ 0 ∷ []

length_of_boot : strlen boot_terminated ≡ some 4
unfolding string_code
length_of_boot = refl

limited_length : strnlen boot_terminated 2 ≡ some 2
unfolding string_code
limited_length = refl

boot_after_bond : strcmp boot_terminated bond_terminated ≡ some (pos 1)
unfolding string_code
boot_after_bond = refl

bond_before_boot : strcmp bond_terminated boot_terminated ≡ some (negsuc 0)
unfolding string_code
bond_before_boot = refl

same_start : strncmp boot_terminated bond_terminated 2 ≡ some (pos 0)
unfolding string_code
same_start = refl

same_letters : strcasecmp boot_terminated upper_boot ≡ some (pos 0)
unfolding string_code
same_letters = refl

same_start_letters : strncasecmp upper_boot bond_terminated 2 ≡ some (pos 0)
unfolding string_code
same_start_letters = refl

boot-IsText : IsText boot
boot-IsText = (omega arith, (omega arith, (omega arith, (omega arith, tt))))

bond-IsText : IsText bond
bond-IsText = (omega arith, (omega arith, (omega arith, (omega arith, tt))))

strcmp_lem_example :
    (d : ℤ) × (strcmp boot_terminated bond_terminated ≡ some d)
    × ((d ≡ pos 0) ↔ (boot ≡ bond))
    × (IsNegative d ↔ Precedes boot bond)
strcmp_lem_example = strcmp_lem boot bond [] [] boot-IsText bond-IsText
