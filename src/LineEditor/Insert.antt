-- ===== src/LineEditor/Insert.antt =====
-- Insertion of bytes, with a new chunk where the last one is full.
use kboot.Base.{
  ℕ, ◌+◌, ◌-◌, ◌%◌, ◌<◌, ◌≡◌, refl, ap, ◌∙◌, List, [], ◌∷◌, ◌++◌, append-nil, Option, none, some,
  true, false, length, ◌==◌, if◌then◌else◌, ==_iff, arith,
}
use kboot.Base.Outcome.{Outcome, done, ◌>>=◌, bind_done}
use kboot.CString.{Bytes}
use kboot.LineEditor.{
  Buffer, written, LineEditor, resize, write, memmove, unwritten, reprint_from_current, insert_char,
  line_chunk_size,
}
use kboot.LineEditor.Buffers.{
  unwind, length-cells, length-unwind, length-unwritten, unwind-cells_right, take_all, write-unwind,
  length-cells_append, unwind-append, insert_cell,
}
use kboot.LineEditor.Refine.{Represents, Leaves, typed, reprint_from_current_lem}

pub length-represented :
    (left right : Bytes) (slack : Buffer)
    → length (unwind (written left) (written right ++ slack))
      ≡ length left + length right + length slack
length-represented left right slack = omega (
  arith,
  length-unwind (written left) (written right ++ slack),
  length-cells_append right slack,
  length-cells left,
)

-- The buffer that an insertion works on.
abbrev room : LineEditor → Buffer
room e = if e.len % line_chunk_size == 0 then resize e.buf (e.len + line_chunk_size) else e.buf

-- It has a cell to spare, and with that cell written the slack fills the last chunk again.
abbrev Spare : LineEditor → Bytes → Bytes → Type 0
Spare e left right =
    (s : Option ℕ) × (slack : Buffer) × (room e
      ≡ unwind (written left) (written right ++ (s ∷ slack)))
    × ((e.len + 1 + length slack) % line_chunk_size ≡ 0)
    × (length slack < line_chunk_size)

unwind-spared {ℓ} : {A : Type ℓ} (b r s : List A) → unwind b (r ++ []) ++ s ≡ unwind b (r ++ s)
unwind-spared b r s = rw (append-nil r) (unwind-append b r s)

resize-grow : (buf : Buffer) (n k : ℕ) → length buf ≡ n → resize buf (n + k) ≡ buf ++ unwritten k
unfolding resize
resize-grow buf n k e =
    rw (take_all (n + k) buf (omega arith)) (ap (λ m. buf ++ unwritten m) (omega arith))

Spare_lem :
    (e : LineEditor) (left right : Bytes) (slack : Buffer)
    → e.buf ≡ unwind (written left) (written right ++ slack)
    → e.len ≡ length left + length right
    → (e.len + length slack) % line_chunk_size ≡ 0
    → length slack < line_chunk_size
    → Spare e left right
Spare_lem e left right [] text size chunks tight =
    let full : (e.len % line_chunk_size == 0) ≡ true =
      (==_iff (e.len % line_chunk_size) 0).1 (omega arith) in
    let len : length e.buf ≡ e.len =
      ap length text ∙ omega (arith, length-represented left right []) in
    let more : e.buf ++ unwritten 128 ≡ unwind (written left) (written right ++ unwritten 128) =
      rw text (unwind-spared (written left) (written right) (unwritten 128)) in
    (
      none,
      unwritten 127,
      rw full (resize-grow e.buf e.len 128 len ∙ more),
      omega (arith, length-unwritten 127),
      omega (arith, length-unwritten 127),
    )
Spare_lem e left right (s ∷ slack) text size chunks tight =
    let partial : (e.len % line_chunk_size == 0) ≡ false = ground arith in
    (s, slack, rw partial text, omega arith, omega arith)

-- The bytes that go into the room for a byte.
abbrev put : LineEditor → ℕ → Outcome Buffer
put e ch =
    memmove (room e) (e.offset + 1) e.offset (e.len - e.offset) >>= λ moved. write moved e.offset ch

-- What follows once they are in place.
abbrev reprinted : LineEditor → ℕ → Buffer → Outcome (LineEditor × Bytes)
reprinted e ch buf =
    let e' : LineEditor = record { buf = buf; len = e.len + 1; offset = e.offset + 1 } in
    (reprint_from_current e' false >>= λ out. done (e', ch ∷ out))

-- A byte that is inserted.
pub insert_char-Leaves :
    (e : LineEditor) (left right : Bytes) (ch : ℕ)
    → Represents e left right
    → Leaves (insert_char e ch) (typed ch left right)
unfolding insert_char write
insert_char-Leaves e left [] ch r =
    let (s, slack, grown, chunks, tight) =
      Spare_lem e left [] r.slack r.text r.measured r.chunked r.tight in
    let at_end : (e.offset == e.len) ≡ true = ground (arith, r.placed, r.measured) in
    let wrote : write (room e) e.len ch ≡ done (unwind (written left) (some ch ∷ slack)) =
      rw grown (
        write-unwind (written left) (s ∷ slack) (some ch ∷ slack) 0 e.len ch
          (omega (arith, r.measured, length-cells left)) refl) in
    (
      record {
        buf = unwind (written left) (some ch ∷ slack);
        len = e.len + 1;
        offset = e.offset + 1;
      },
      rw at_end (rw wrote refl),
      record {
        slack = slack;
        text = refl;
        measured = omega (arith, r.measured);
        placed = omega (arith, r.placed);
        chunked = chunks;
        tight = tight;
      },
    )
insert_char-Leaves e left (c ∷ right) ch r =
    let (s, slack, grown, chunks, tight) =
      Spare_lem e left (c ∷ right) r.slack r.text r.measured r.chunked r.tight in
    let inside : (e.offset == e.len) ≡ false = ground (arith, r.placed, r.measured) in
    let count : e.len - e.offset ≡ length (c ∷ right) = omega (arith, r.measured, r.placed) in
    let wrote : put e ch ≡ done (unwind (written left) (some ch ∷ (written (c ∷ right) ++ slack))) =
      rw grown (
        rw count (
          insert_cell (written left) (c ∷ right) s slack e.offset ch
            (omega (arith, r.placed, length-cells left)))) in
    let e' : LineEditor = record {
      buf = unwind (written left) (some ch ∷ (written (c ∷ right) ++ slack));
      len = e.len + 1;
      offset = e.offset + 1;
    } in
    let print =
      reprint_from_current_lem e' (ch ∷ left) (c ∷ right) slack false refl
        (omega (arith, r.measured)) (omega (arith, r.placed)) in
    let shown : reprinted e ch e'.buf ≡ done (e', (typed ch left (c ∷ right)).1) = rw print refl in
    (
      e',
      rw inside (bind_done _ (λ moved. write moved e.offset ch) (reprinted e ch) _ wrote ∙ shown),
      record {
        slack = slack;
        text = refl;
        measured = omega (arith, r.measured);
        placed = omega (arith, r.placed);
        chunked = chunks;
        tight = tight;
      },
    )

-- The new line at the end of the text.
pub newline-Leaves :
    (e : LineEditor) (left right : Bytes) (ch : ℕ)
    → Represents e left right
    → Leaves (insert_char (record e { offset = e.len }) ch) (typed ch (unwind right left) [])
newline-Leaves e left right ch r =
    let at_end : Represents (record e { offset = e.len }) (unwind right left) [] = record {
      slack = r.slack;
      text = r.text ∙ unwind-cells_right left right r.slack;
      measured = omega (arith, r.measured, length-unwind right left);
      placed = omega (arith, r.measured, length-unwind right left);
      chunked = r.chunked;
      tight = r.tight;
    } in
    insert_char-Leaves (record e { offset = e.len }) (unwind right left) [] ch at_end
