-- ===== src/LineEditor/Input.antt =====
-- What a key does to the editor, for each key, and what an editing session returns.
use kboot.Base.{
  ℕ, ◌+◌, ◌-◌, ◌%◌, ◌^◌, ◌≤◌, ◌<◌, ◌≡◌, refl, ◌∙◌, List, [], ◌∷◌, ◌++◌, some, Bool, true, false,
  length, ◌==◌, if◌then◌else◌, arith,
}
use kboot.Base.Outcome.{Outcome, done, ◌>>=◌}
use kboot.Base.Rounding.{round_up, round_up_lem}
use kboot.CString.{Bytes}
use kboot.LineEditor.{
  Buffer, written, LineEditor, unwritten, isprint, line_editor_init, line_editor_finish,
  line_editor_input, key_left, key_right, key_home, key_end, line_chunk_size,
}
use kboot.LineEditor.Buffers.{
  unwind, resize_next, write-terminator, length-unwind, length-unwritten, unwind-cells,
  unwind-cells_right,
}
use kboot.LineEditor.Refine.{
  Represents, Leaves, Step, Line, edit, move_left-Leaves, move_right-Leaves, move_home-Leaves,
  move_end-Leaves,
}
use kboot.LineEditor.Insert.{insert_char-Leaves, newline-Leaves}
use kboot.LineEditor.Erase.{erase_char-Leaves_left, erase_char-Leaves_right}

Leaves-if :
    (b : Bool) {x y : Outcome (LineEditor × Bytes)} {s t : Step}
    → Leaves x s
    → Leaves y t
    → Leaves (if b then x else y) (if b then s else t)
Leaves-if true hx hy = hx
Leaves-if false hx hy = hy

-- On a buffer that stands for a text with a cursor, `line_editor_input` of any key succeeds: it reads and
-- writes only inside the buffer and reads only bytes of the text. It leaves a buffer that stands
-- for the text as the key changes it, and prints what the step of that text says.
pub line_editor_input_lem :
    (e : LineEditor) (left right : Bytes) (key : ℕ)
    → Represents e left right
    → Leaves (line_editor_input e key) (edit key left right)
unfolding line_editor_input
line_editor_input_lem e left right key r =
    Leaves-if (key == key_left) (move_left-Leaves e left right r) (
      Leaves-if (key == key_right) (move_right-Leaves e left right r) (
        Leaves-if (key == key_home) (move_home-Leaves e left right r) (
          Leaves-if (key == key_end) (move_end-Leaves e left right r) (
            Leaves-if (key == b'\x08') (erase_char-Leaves_left e left right r) (
              Leaves-if (key == 0x7f) (erase_char-Leaves_right e left right r) (
                Leaves-if (key == b'\n') (newline-Leaves e left right (key % 2 ^ 8) r) (
                  Leaves-if (isprint key) (insert_char-Leaves e left right (key % 2 ^ 8) r)
                    (e, refl, r))))))))

-- The keys of a session, one after the other.
abbrev pub line_editor_inputs : LineEditor → List ℕ → Outcome LineEditor
line_editor_inputs e [] = done e
line_editor_inputs e (key ∷ keys) = line_editor_input e key >>= λ r. line_editor_inputs r.0 keys

abbrev pub edits : List ℕ → Bytes → Bytes → Line
edits [] left right = (left, right)
edits (key ∷ keys) left right = edits keys (edit key left right).0.0 (edit key left right).0.1

line_editor_inputs_lem :
    (keys : List ℕ) (e : LineEditor) (left right : Bytes)
    → Represents e left right
    → (e' : LineEditor) × (line_editor_inputs e keys ≡ done e')
      × Represents e' (edits keys left right).0 (edits keys left right).1
line_editor_inputs_lem [] e left right r = (e, refl, r)
line_editor_inputs_lem (key ∷ keys) e left right r =
    let (e', run, r') = line_editor_input_lem e left right key r in
    let (e'', rest, r'') = line_editor_inputs_lem keys e' _ _ r' in (e'', rw run rest, r'')

finish_text :
    (e : LineEditor) (t : Bytes) (slack : Buffer)
    → e.buf ≡ written t ++ slack
    → e.len ≡ length t
    → (e.len + length slack) % line_chunk_size ≡ 0
    → length slack < line_chunk_size
    → line_editor_finish e ≡ done (written t ++ (some 0 ∷ []))
unfolding line_editor_finish
finish_text e [] [] text size chunks tight = rw text (rw size refl)
finish_text e [] (s ∷ slack) text size chunks tight = ground (arith, size, chunks, tight)
finish_text e (c ∷ t) slack text size chunks tight =
    let some_text : (e.len == 0) ≡ false = ground (arith, size) in
    let (x, cut) = resize_next (c ∷ t) slack (e.len + 1) (omega arith) in
    let held : (length (written (c ∷ t) ++ slack) == 0) ≡ false = ground arith in
    rw some_text (rw text (rw held (rw cut (write-terminator (c ∷ t) x e.len size))))

finish_lem :
    (e : LineEditor) (left right : Bytes)
    → Represents e left right
    → line_editor_finish e ≡ done (written (unwind left right) ++ (some 0 ∷ []))
finish_lem e left right r =
    finish_text e (unwind left right) r.slack (r.text ∙ unwind-cells left right r.slack)
      (omega (arith, r.measured, length-unwind left right)) r.chunked r.tight

init-Represents :
    (str : Bytes)
    → length str + line_chunk_size ≤ 2 ^ 64
    → Represents (line_editor_init (some str)) (unwind str []) []
unfolding line_editor_init
init-Represents [] fits = record {
  slack = [];
  text = refl;
  measured = omega arith;
  placed = omega arith;
  chunked = omega arith;
  tight = omega arith;
}
init-Represents (c ∷ str) fits =
    let n = length (c ∷ str) in
    let more = round_up n line_chunk_size - n in
    let rounded = round_up_lem n line_chunk_size (omega arith) fits in
    let some_text : (n == 0) ≡ false = ground arith in
    let size = length-unwind (c ∷ str) [] in
    record {
      slack = unwritten more;
      text = rw some_text (unwind-cells_right [] (c ∷ str) (unwritten more));
      measured = omega arith;
      placed = omega arith;
      chunked = omega (arith, length-unwritten more, rounded.0, rounded.1);
      tight = omega (arith, length-unwritten more, rounded.1, rounded.2);
    }

-- A session: an editor on a string, any keys, and the string that `line_editor_finish` returns, which is
-- the text that the keys make of the string, with its terminator, in a buffer that it fills. No
-- call fails.
pub session_lem :
    (str : Bytes) (keys : List ℕ)
    → length str + line_chunk_size ≤ 2 ^ 64
    → (line_editor_inputs (line_editor_init (some str)) keys >>= line_editor_finish) ≡ (
        let line = edits keys (unwind str []) [] in
        done (written (unwind line.0 line.1) ++ (some 0 ∷ [])))
session_lem str keys fits =
    let (e, run, r) = line_editor_inputs_lem keys _ _ _ (init-Represents str fits) in
    rw run (finish_lem e _ _ r)
