-- ===== src/LineEditor/Refine.antt =====
-- The line editor refines a text with a cursor: the bytes before the cursor, the nearest first, and
-- those after it. This is the abstract view of what each key does, and the buffer that stands for it.
use kboot.Base.{
  ℕ, ◌+◌, ◌-◌, ◌%◌, ◌^◌, ◌<◌, ◌≡◌, refl, ap, ◌∙◌, [], ◌∷◌, ◌++◌, some, Bool, length, ◌==◌,
  if◌then◌else◌, arith,
}
use kboot.Base.Outcome.{Outcome, done}
use kboot.CString.{Bytes}
use kboot.LineEditor.{
  Buffer, written, LineEditor, read, backspaces, print_from, reprint_from_current, isprint,
  move_left, move_right, move_home, move_end, key_left, key_right, key_home, key_end,
  line_chunk_size,
}
use kboot.LineEditor.Buffers.{
  unwind, length-cells, length-unwind, unwind-cells, unwind-cells_right, read-unwind,
  print_from-unwind,
}

abbrev pub Line : Type 0
Line = Bytes × Bytes

-- What a key does: the new line, and the bytes that are printed.
abbrev pub Step : Type 0
Step = Line × Bytes

abbrev pub typed : ℕ → Bytes → Bytes → Step
typed ch left right = ((ch ∷ left, right), ch ∷ (right ++ backspaces (length right)))

abbrev pub step_left : Bytes → Bytes → Step
step_left [] right = (([], right), [])
step_left (c ∷ left) right = ((left, c ∷ right), b'\x08' ∷ [])

abbrev pub step_right : Bytes → Bytes → Step
step_right left [] = ((left, []), [])
step_right left (c ∷ right) = ((c ∷ left, right), c ∷ [])

abbrev pub to_start : Bytes → Bytes → Step
to_start left right = (([], unwind left right), backspaces (length left))

abbrev pub to_end : Bytes → Bytes → Step
to_end left right = ((unwind right left, []), right)

-- The line after a removed byte is printed again, with a blank at its end.
abbrev pub closed_up : Bytes → Bytes
closed_up right = right ++ (b' ' ∷ b'\x08' ∷ backspaces (length right))

abbrev pub rub_left : Bytes → Bytes → Step
rub_left [] right = (([], right), [])
rub_left (c ∷ left) right = ((left, right), b'\x08' ∷ closed_up right)

abbrev pub rub_right : Bytes → Bytes → Step
rub_right left [] = ((left, []), [])
rub_right left (c ∷ right) = ((left, right), closed_up right)

abbrev pub edit : ℕ → Bytes → Bytes → Step
edit key left right =
    if key == key_left
    then step_left left right
    else if key == key_right
    then step_right left right
    else if key == key_home
    then to_start left right
    else if key == key_end
    then to_end left right
    else if key == b'\x08'
    then rub_left left right
    else if key == 0x7f
    then rub_right left right
    else if key == b'\n'
    then typed (key % 2 ^ 8) (unwind right left) []
    else if isprint key
    then typed (key % 2 ^ 8) left right
    else ((left, right), [])

-- The buffer starts with the text, and has as much slack as fills its last chunk.
pub record Represents (editor : LineEditor) (left right : Bytes) : Type 0 where
  pub slack : Buffer
  pub text : editor.buf ≡ unwind (written left) (written right ++ slack)
  pub measured : editor.len ≡ length left + length right
  pub placed : editor.offset ≡ length left
  pub chunked : (editor.len + length slack) % line_chunk_size ≡ 0
  pub tight : length slack < line_chunk_size

-- A call prints what the step prints and leaves the editor with the line of the step.
abbrev pub Leaves : Outcome (LineEditor × Bytes) → Step → Type 0
Leaves outcome step =
    (e : LineEditor) × (outcome ≡ done (e, step.1)) × Represents e step.0.0 step.0.1

pub print_right :
    (buf : Buffer) (n k : ℕ) (left right : Bytes) (slack : Buffer)
    → buf ≡ unwind (written left) (written right ++ slack)
    → k ≡ length left
    → n ≡ length right
    → print_from buf k n ≡ done right
print_right buf n k left right slack text at size =
    rw text
      (rw size (print_from-unwind (written left) right slack k (omega (arith, length-cells left))))

pub reprint_from_current_lem :
    (e : LineEditor) (left right : Bytes) (slack : Buffer) (space : Bool)
    → e.buf ≡ unwind (written left) (written right ++ slack)
    → e.len ≡ length left + length right
    → e.offset ≡ length left
    → reprint_from_current e space
      ≡ done (right ++ ((if space then b' ' ∷ b'\x08' ∷ [] else []) ++ backspaces (length right)))
unfolding reprint_from_current
reprint_from_current_lem e left right slack space text size at =
    let n : e.len - e.offset ≡ length right = omega arith in
    rw (print_right e.buf (e.len - e.offset) e.offset left right slack text at n)
      (ap (λ k. done (right ++ ((if space then b' ' ∷ b'\x08' ∷ [] else []) ++ backspaces k))) n)

pub move_left-Leaves :
    (e : LineEditor) (left right : Bytes)
    → Represents e left right
    → Leaves (move_left e) (step_left left right)
unfolding move_left
move_left-Leaves e [] right r = (e, ground (arith, r.placed), r)
move_left-Leaves e (c ∷ left) right r = (
  record e { offset = e.offset - 1 },
  ground (arith, r.placed),
  record {
    slack = r.slack;
    text = r.text;
    measured = omega (arith, r.measured);
    placed = omega (arith, r.placed);
    chunked = r.chunked;
    tight = r.tight;
  },
)

pub move_right-Leaves :
    (e : LineEditor) (left right : Bytes)
    → Represents e left right
    → Leaves (move_right e) (step_right left right)
unfolding move_right read
move_right-Leaves e left [] r = (e, ground (arith, r.placed, r.measured), r)
move_right-Leaves e left (c ∷ right) r =
    let first : read e.buf e.offset ≡ done c = rw r.text (
      read-unwind (written left) (some c ∷ (written right ++ r.slack)) 0 e.offset
        (omega (arith, r.placed, length-cells left))) in
    (
      record e { offset = e.offset + 1 },
      ground (arith, first, r.placed, r.measured),
      record {
        slack = r.slack;
        text = r.text;
        measured = omega (arith, r.measured);
        placed = omega (arith, r.placed);
        chunked = r.chunked;
        tight = r.tight;
      },
    )

pub move_home-Leaves :
    (e : LineEditor) (left right : Bytes)
    → Represents e left right
    → Leaves (move_home e) (to_start left right)
unfolding move_home
move_home-Leaves e left right r = (
  record e { offset = 0 },
  ap (λ k. done (record e { offset = 0 }, backspaces k)) r.placed,
  record {
    slack = r.slack;
    text = r.text ∙ unwind-cells left right r.slack;
    measured = omega (arith, r.measured, length-unwind left right);
    placed = refl;
    chunked = r.chunked;
    tight = r.tight;
  },
)

pub move_end-Leaves :
    (e : LineEditor) (left right : Bytes)
    → Represents e left right
    → Leaves (move_end e) (to_end left right)
unfolding move_end
move_end-Leaves e left right r = (
  record e { offset = e.len },
  rw
      (print_right e.buf (e.len - e.offset) e.offset left right r.slack r.text r.placed
        (omega (arith, r.measured, r.placed)))
      refl,
  record {
    slack = r.slack;
    text = r.text ∙ unwind-cells_right left right r.slack;
    measured = omega (arith, r.measured, length-unwind right left);
    placed = omega (arith, r.measured, length-unwind right left);
    chunked = r.chunked;
    tight = r.tight;
  },
)
