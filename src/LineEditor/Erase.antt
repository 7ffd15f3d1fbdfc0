-- ===== src/LineEditor/Erase.antt =====
-- Removal of bytes: the buffer that is left, cut down at the boundary of a chunk.
use kboot.Base.{
  ℕ, suc, ◌+◌, ◌-◌, ◌%◌, ◌<◌, ◌≢◌, ◌≡◌, refl, [], ◌∷◌, ◌++◌, Option, some, true, false, length,
  ◌==◌, if◌then◌else◌, Bool-cases, ==_iff, arith, inl, inr,
}
use kboot.Base.Outcome.{done}
use kboot.CString.{Bytes}
use kboot.LineEditor.{
  Buffer, written, LineEditor, resize, memmove, erase_at, erase_char, line_chunk_size,
}
use kboot.LineEditor.Buffers.{
  unwind, length-cells, take-unwind, take-cells, unwind-append, remove_cell,
}
use kboot.LineEditor.Refine.{
  Represents, Leaves, rub_left, rub_right, closed_up, reprint_from_current_lem,
}
use kboot.LineEditor.Insert.{length-represented}

resize-shrink :
    (left right : Bytes) (slack : Buffer) (n : ℕ)
    → n ≡ length left + length right
    → resize (unwind (written left) (written right ++ slack)) n
      ≡ unwind (written left) (written right ++ [])
unfolding resize
resize-shrink left right slack n e =
    let size = length-represented left right slack in
    let none_added : n - length (unwind (written left) (written right ++ slack)) ≡ 0 =
      omega arith in
    rw none_added (
      rw
        (take-unwind (written left) (written right ++ slack) (length right) n
          (omega (arith, length-cells left)))
        (rw (take-cells right slack) (unwind-append (written left) (written right) [])))

-- The buffer that a removal leaves.
abbrev kept : ℕ → Buffer → Buffer
kept len buf = if len % line_chunk_size == 0 then resize buf len else buf

kept_lem :
    (left right : Bytes) (s : Option ℕ) (slack : Buffer) (len : ℕ)
    → len ≡ length left + length right
    → (len + 1 + length slack) % line_chunk_size ≡ 0
    → length slack < line_chunk_size
    → (rest : Buffer) × (kept len (unwind (written left) (written right ++ (s ∷ slack)))
        ≡ unwind (written left) (written right ++ rest))
      × ((len + length rest) % line_chunk_size ≡ 0)
      × (length rest < line_chunk_size)
kept_lem left right s slack len size chunks tight = elim (Bool-cases (len % line_chunk_size == 0)) [
  | inl empty ↦
      let whole = (==_iff (len % line_chunk_size) 0).0 empty in
      ([], rw empty (resize-shrink left right (s ∷ slack) len size), omega arith, omega arith)
  | inr partial ↦
      let cut_through : len % line_chunk_size ≢ 0 = (λ z. ground (arith, partial, z)) in
      (s ∷ slack, rw partial refl, omega arith, omega (arith, cut_through))
]

erase_at-Leaves :
    (e : LineEditor) (left right : Bytes) (c : ℕ) (slack : Buffer) (moves : Bytes)
    → e.buf ≡ unwind (written left) (some c ∷ (written right ++ slack))
    → e.len ≡ length left + suc (length right)
    → e.offset ≡ length left
    → (e.len + length slack) % line_chunk_size ≡ 0
    → length slack < line_chunk_size
    → Leaves (erase_at e moves) ((left, right), moves ++ closed_up right)
unfolding erase_at
erase_at-Leaves e left right c slack moves text size at chunks tight =
    let len : e.len - 1 ≡ length left + length right = omega arith in
    let (s, moved) =
      remove_cell (written left) c right slack e.offset (omega (arith, length-cells left)) in
    let (rest, fitted, chunks', tight') =
      kept_lem left right s slack (e.len - 1) len (omega arith) tight in
    let count : e.len - 1 - e.offset ≡ length right = omega arith in
    let moved_in : memmove e.buf e.offset (e.offset + 1) (e.len - 1 - e.offset)
        ≡ done (unwind (written left) (written right ++ (s ∷ slack))) =
      rw text (rw count moved) in
    let e' : LineEditor = record {
      buf = kept (e.len - 1) (unwind (written left) (written right ++ (s ∷ slack)));
      len = e.len - 1;
      offset = e.offset;
    } in
    let print = reprint_from_current_lem e' left right rest true fitted len at in
    (
      e',
      rw moved_in (rw print refl),
      record {
        slack = rest;
        text = fitted;
        measured = len;
        placed = at;
        chunked = chunks';
        tight = tight';
      },
    )

pub erase_char-Leaves_left :
    (e : LineEditor) (left right : Bytes)
    → Represents e left right
    → Leaves (erase_char e false) (rub_left left right)
unfolding erase_char
erase_char-Leaves_left e [] right r = (e, ground (arith, r.placed), r)
erase_char-Leaves_left e (c ∷ left) right r =
    let inside : (e.offset == 0) ≡ false = ground (arith, r.placed) in
    let (e', run, r') =
      erase_at-Leaves (record e { offset = e.offset - 1 }) left right c r.slack (b'\x08' ∷ [])
        r.text (omega (arith, r.measured)) (omega (arith, r.placed)) r.chunked r.tight in
    (e', rw inside run, r')

pub erase_char-Leaves_right :
    (e : LineEditor) (left right : Bytes)
    → Represents e left right
    → Leaves (erase_char e true) (rub_right left right)
unfolding erase_char
erase_char-Leaves_right e left [] r = (e, ground (arith, r.placed, r.measured), r)
erase_char-Leaves_right e left (c ∷ right) r =
    let inside : (e.offset == e.len) ≡ false = ground (arith, r.placed, r.measured) in
    let (e', run, r') =
      erase_at-Leaves e left right c r.slack [] r.text r.measured r.placed r.chunked r.tight in
    (e', rw inside run, r')
