-- ===== src/Charset/Tests.antt =====
-- Conversions of short texts, and the theorems at concrete texts.
use kboot.Base.{ℕ, ◌≤◌, ◌≡◌, refl, List, [], ◌∷◌, length}
use kboot.Charset.{utf16_from, utf16_to_utf8}
use kboot.Charset.Bounds.{utf16_to_utf8-length}

-- Unfolding this unfolds the conversion.
charset_code : ℕ
unfolding utf16_from utf16_to_utf8
charset_code = 0

-- U+00E9, U+20AC and U+1F600.
mixed :
    utf16_to_utf8 (0xe9 ∷ 0x20ac ∷ 0xd83d ∷ 0xde00 ∷ 0 ∷ b'x' ∷ [])
    ≡ 0xc3 ∷ 0xa9 ∷ 0xe2 ∷ 0x82 ∷ 0xac ∷ 0xf0 ∷ 0x9f ∷ 0x98 ∷ 0x80 ∷ []
unfolding charset_code
mixed = refl

-- A unit that is no low surrogate is lost with the high surrogate before it.
unpaired : utf16_to_utf8 (0xd83d ∷ b'a' ∷ b'b' ∷ []) ≡ b'?' ∷ b'b' ∷ []
unfolding charset_code
unpaired = refl

abbrev efi : List ℕ
efi = b'E' ∷ b'F' ∷ b'I' ∷ []

utf16_to_utf8-length_example :
    (length (utf16_to_utf8 (0x20ac ∷ efi)) ≤ 12) × (length (utf16_to_utf8 (0x20ac ∷ efi)) ≤ 16)
utf16_to_utf8-length_example = utf16_to_utf8-length (0x20ac ∷ efi)
