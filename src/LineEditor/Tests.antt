-- ===== src/LineEditor/Tests.antt =====
-- Runs of the line editor, and the theorems at a concrete line.
use kboot.Base.{ℕ, ◌≡◌, refl, [], ◌∷◌, some, arith}
use kboot.Base.Outcome.{done, ◌>>=◌}
use kboot.Base.Rounding.{round_up}
use kboot.LineEditor.{
  LineEditor, resize, read, write, memmove, unwritten, print_from, reprint_from_current,
  insert_char, erase_at, erase_char, isprint, move_left, move_right, move_home, move_end,
  line_editor_init, line_editor_output, line_editor_finish, line_editor_input, key_left,
}
use kboot.LineEditor.Refine.{Represents}
use kboot.LineEditor.Input.{line_editor_inputs, session_lem}

-- Unfolding this unfolds the line editor.
editor_code : ℕ
unfolding round_up resize read write memmove print_from reprint_from_current insert_char erase_at
    erase_char isprint move_left move_right move_home move_end line_editor_init line_editor_output
    line_editor_finish line_editor_input
editor_code = 0

-- "ls" with the cursor behind the first letter.
abbrev ls : LineEditor
ls = record { buf = some b'l' ∷ some b's' ∷ unwritten 126; len = 2; offset = 1 }

starts_at_the_end : line_editor_init (some (b'l' ∷ b's' ∷ [])) ≡ record ls { offset = 2 }
unfolding editor_code
starts_at_the_end = refl

shown : line_editor_output ls ≡ done (b'l' ∷ b's' ∷ b'\x08' ∷ [])
unfolding editor_code
shown = refl

inserted :
    line_editor_input ls b'i'
    ≡ done (
      record { buf = some b'l' ∷ some b'i' ∷ some b's' ∷ unwritten 125; len = 3; offset = 2 },
      b'i' ∷ b's' ∷ b'\x08' ∷ [],
    )
unfolding editor_code
inserted = refl

erased :
    line_editor_input ls b'\x08'
    ≡ done (
      record { buf = some b's' ∷ some b's' ∷ unwritten 126; len = 1; offset = 0 },
      b'\x08' ∷ b's' ∷ b' ' ∷ b'\x08' ∷ b'\x08' ∷ [],
    )
unfolding editor_code
erased = refl

-- Removing the last byte frees the buffer.
emptied :
    (line_editor_inputs ls (b'\x08' ∷ 0x7f ∷ [])) ≡ done (record { buf = []; len = 0; offset = 0 })
unfolding editor_code
emptied = refl

ls-Represents : Represents ls (b'l' ∷ []) (b's' ∷ [])
ls-Represents = record {
  slack = unwritten 126;
  text = refl;
  measured = omega arith;
  placed = omega arith;
  chunked = omega arith;
  tight = omega arith;
}

session_lem_example :
    (line_editor_inputs (line_editor_init (some (b'l' ∷ b's' ∷ []))) (key_left ∷ b'i' ∷ 0x7f ∷ [])
      >>= line_editor_finish)
    ≡ done (some b'l' ∷ some b'i' ∷ some 0 ∷ [])
unfolding isprint
session_lem_example = session_lem (b'l' ∷ b's' ∷ []) (key_left ∷ b'i' ∷ 0x7f ∷ []) (omega arith)
