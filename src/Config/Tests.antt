-- ===== src/Config/Tests.antt =====
-- Runs of the configuration parser.
use kboot.Base.{true, ℕ, ◌≡◌, refl, [], ◌∷◌}
use kboot.Base.{true, false, ◌++◌}
use kboot.Base.Outcome.{undefined, endless}
use kboot.CString.{isspace}
use kboot.Config.Reader.{Reader}
use kboot.CString.{Bytes, tolower}
use kboot.Config.{Commands, integer, string, nil, cons, end, command}
use kboot.Config.Reader.{
  ok, halted, file_read_helper, skip_comment, accept, read_char, return_char, push_temp, take_temp,
}
use kboot.Base.{◌≢◌, All, zero, suc, length, arith}
use kboot.Config.Parser.Closed.{IsClosed, append-IsClosed}
use kboot.Config.Parser.Ended.{ComesTo, config_parse-ComesTo}
use kboot.Config.Printer.{commands_text, IsPrintable, IsWord, AreCommands}
use kboot.Config.Printer.RoundTrip.{config_parse-commands_text}
use kboot.Config.Printer.Faults.{config_parse_endless, config_parse_overflow}
use kboot.Config.{list, boolean, commands, reference}
use kboot.Config.Parser.{
  expect_char, expect_chars, digits, parse_integer, string_from, parse_string, parse_variable_name,
  parse_value, config_parse,
}

-- Unfolding this unfolds the parser.
parser_code : ℕ
unfolding tolower file_read_helper skip_comment accept read_char return_char push_temp take_temp
    expect_char expect_chars digits parse_integer string_from parse_string parse_variable_name
    parse_value config_parse
parser_code = 0

-- set "a" 0x1F # note
sample : Bytes
sample =
    b's' ∷ b'e' ∷ b't' ∷ b' ' ∷ b'"' ∷ b'a' ∷ b'"' ∷ b' ' ∷ b'0' ∷ b'x' ∷ b'1' ∷ b'F' ∷ b' ' ∷ b'#'
    ∷ b'n' ∷ b'\n' ∷ []

parsed_sample :
    (r : _) × (config_parse [] sample
      ≡ ok
          (command
            (b's' ∷ b'e' ∷ b't' ∷ [])
            (cons (string (b'a' ∷ [])) (cons (integer 31) nil))
            end)
          r)
unfolding parser_code sample
parsed_sample = (_, refl)

comment_at_the_end : config_parse [] (b'a' ∷ b'\n' ∷ b'#' ∷ b'b' ∷ []) ≡ halted endless
unfolding parser_code
comment_at_the_end = refl

-- exit #
abbrev with_comment : Bytes
with_comment = b'e' ∷ b'x' ∷ b'i' ∷ b't' ∷ b' ' ∷ b'#' ∷ []

config_parse-ComesTo_example :
    ComesTo [] (with_comment ++ (b'\n' ∷ [])) (config_parse [] (with_comment ++ (b'\n' ∷ [])))
config_parse-ComesTo_example = config_parse-ComesTo [] (with_comment ++ (b'\n' ∷ []))

-- A text as editors write it, which the parser does not read forever.
with_comment-IsClosed : IsClosed (with_comment ++ (b'\n' ∷ []))
with_comment-IsClosed = append-IsClosed with_comment

-- menu { a $b [true "x\""] }
block : Commands
block =
    command (b'm' ∷ [])
      (cons
        (commands (
          command (b'a' ∷ [])
            (cons (reference (b'b' ∷ []))
              (cons (list (cons (boolean true) (cons (string (b'x' ∷ b'"' ∷ [])) nil))) nil))
            end))
        nil)
      end

IsWord-m : IsWord (b'm' ∷ [])
IsWord-m =
    (((refl, omega arith, omega arith, omega arith, omega arith), tt), omega arith, omega arith)

IsWord-a : IsWord (b'a' ∷ [])
IsWord-a =
    (((refl, omega arith, omega arith, omega arith, omega arith), tt), omega arith, omega arith)

block-AreCommands : AreCommands block
unfolding block IsPrintable
block-AreCommands = (
  IsWord-m,
  (
    (
      IsWord-a,
      (
        ((refl, tt), omega arith, omega arith),
        (
          (
            tt,
            (
              (
                (
                  (omega arith, omega arith, omega arith),
                  ((omega arith, omega arith, omega arith), tt),
                ),
                omega arith,
              ),
              tt,
            ),
          ),
          tt,
        ),
      ),
      tt,
    ),
    tt,
  ),
  tt,
)

config_parse-commands_text_example :
    (r : Reader) × (config_parse [] (commands_text block []) ≡ ok block r)
    × (r.input ≡ [])
    × (r.temp ≡ [])
config_parse-commands_text_example = config_parse-commands_text block block-AreCommands

config_parse_endless_example : config_parse [] (b'#' ∷ b'a' ∷ b' ' ∷ []) ≡ halted endless
config_parse_endless_example = config_parse_endless (b'a' ∷ b' ' ∷ []) (omega arith)

-- A name of so many letters.
abbrev letters : ℕ → Bytes
letters zero = []
letters (suc n) = b'a' ∷ letters n

length-letters : (n : ℕ) → length (letters n) ≡ n
length-letters zero = refl
length-letters (suc n) = omega (arith, length-letters n)

letters-All :
    (n : ℕ) → All (λ d. (isspace d ≡ false) × (d ≢ b'#') × (d ≢ 0xff) × (d ≢ 0)) (letters n)
letters-All zero = tt
letters-All (suc n) = ((refl, omega arith, omega arith, omega arith), letters-All n)

config_parse_overflow_example : config_parse [] (letters 512 ++ (b'\n' ∷ sample)) ≡ halted undefined
config_parse_overflow_example =
    config_parse_overflow (letters 512) sample (letters-All 512) (omega (arith, length-letters 512))
