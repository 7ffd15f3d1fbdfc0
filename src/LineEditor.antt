-- ===== src/LineEditor.antt =====
-- The line editor of source/lib/line_editor.c, on which the shell and the text entries of the
-- user interface are edited. A buffer is the list of its bytes, `none` for a byte that was not written
-- since the buffer was allocated; NULL is the empty list. Reading such a byte, or one outside the buffer,
-- is undefined. Each call returns the editor and the bytes that it gave to `console_putc`. Lengths stay
-- far below 2 ^ 64, since the heap has 131072 bytes; a full heap stops the loader, which is left out.
pub mod Buffers
pub mod Refine
pub mod Insert
pub mod Erase
pub mod Input
mod Tests
use Prim.Native.Nat.{bit_and}
use kboot.Base.{
  ℕ, zero, suc, ◌+◌, ◌-◌, ◌%◌, ◌^◌, List, [], ◌∷◌, ◌++◌, Option, none, some, Bool, true, false,
  ◌&&◌, not, ltb, leb, ◌==◌, if◌then◌else◌, length, take, drop,
}
use kboot.CString.{Bytes}
use kboot.Base.Outcome.{Outcome, done, stop, undefined, assert, ◌>>=◌, ◌>>◌}
use kboot.Base.Rounding.{round_up}

abbrev pub Buffer : Type 0
Buffer = List (Option ℕ)

pub record LineEditor : Type 0 where
  buf : Buffer
  len : ℕ
  offset : ℕ

abbrev pub line_chunk_size : ℕ
line_chunk_size = 128

abbrev pub key_left : ℕ
key_left = 0x102

abbrev pub key_right : ℕ
key_right = 0x103

abbrev pub key_home : ℕ
key_home = 0x104

abbrev pub key_end : ℕ
key_end = 0x105

-- The byte in a cell.
abbrev pub known : Option ℕ → Outcome ℕ
known none = stop undefined
known (some c) = done c

unfoldable pub read : Buffer → ℕ → Outcome ℕ
read [] i = stop undefined
read (c ∷ buf) zero = known c
read (c ∷ buf) (suc i) = read buf i

unfoldable pub write : Buffer → ℕ → ℕ → Outcome Buffer
write [] i ch = stop undefined
write (c ∷ buf) zero ch = done (some ch ∷ buf)
write (c ∷ buf) (suc i) ch = write buf i ch >>= λ rest. done (c ∷ rest)

-- The bytes arrive as if they were copied by way of another place, as for overlapping blocks.
unfoldable pub memmove : Buffer → ℕ → ℕ → ℕ → Outcome Buffer
memmove buf dest src count =
    if leb (dest + count) (length buf) && leb (src + count) (length buf)
    then done (take dest buf ++ (take count (drop src buf) ++ drop (dest + count) buf))
    else stop undefined

abbrev pub unwritten : ℕ → Buffer
unwritten zero = []
unwritten (suc n) = none ∷ unwritten n

-- What `realloc` does to the contents.
unfoldable pub resize : Buffer → ℕ → Buffer
resize buf size = take size buf ++ unwritten (size - length buf)

abbrev pub written : Bytes → Buffer
written [] = []
written (c ∷ str) = some c ∷ written str

-- From no string, `none`, or a string.
unfoldable pub line_editor_init : Option Bytes → LineEditor
line_editor_init none = record { buf = []; len = 0; offset = 0 }
line_editor_init (some str) =
    let n = length str in
    let buf = if n == 0 then [] else written str ++ unwritten (round_up n line_chunk_size - n) in
    record { buf = buf; len = n; offset = n }

-- The loop that prints `count` bytes from an index on.
unfoldable pub print_from : Buffer → ℕ → ℕ → Outcome Bytes
print_from buf i zero = done []
print_from buf i (suc count) = do c ← read buf i; out ← print_from buf (i + 1) count; done (c ∷ out)

-- The loop that moves the cursor back.
abbrev pub backspaces : ℕ → Bytes
backspaces zero = []
backspaces (suc n) = b'\x08' ∷ backspaces n

unfoldable pub line_editor_output : LineEditor → Outcome Bytes
line_editor_output editor = do
  out ← print_from editor.buf 0 editor.len
  done (out ++ backspaces (editor.len - editor.offset))

unfoldable pub reprint_from_current : LineEditor → Bool → Outcome Bytes
reprint_from_current editor space = do
  out ← print_from editor.buf editor.offset (editor.len - editor.offset)
  done (
      out
      ++ ((if space then b' ' ∷ b'\x08' ∷ [] else []) ++ backspaces (editor.len - editor.offset)))

unfoldable pub insert_char : LineEditor → ℕ → Outcome (LineEditor × Bytes)
insert_char editor ch =
    let room =
      if editor.len % line_chunk_size == 0
      then resize editor.buf (editor.len + line_chunk_size)
      else editor.buf in
    if editor.offset == editor.len
    then (do
      buf ← write room editor.len ch
      done (record { buf = buf; len = editor.len + 1; offset = editor.offset + 1 }, ch ∷ []))
    else (do
      moved ← memmove room (editor.offset + 1) editor.offset (editor.len - editor.offset)
      buf ← write moved editor.offset ch
      let editor' : LineEditor = record {
        buf = buf;
        len = editor.len + 1;
        offset = editor.offset + 1;
      }
      out ← reprint_from_current editor' false
      done (editor', ch ∷ out))

-- The removal of the byte at the cursor, with what was printed before it.
unfoldable pub erase_at : LineEditor → Bytes → Outcome (LineEditor × Bytes)
erase_at editor moves = do
  let len = editor.len - 1
  buf ← memmove editor.buf editor.offset (editor.offset + 1) (len - editor.offset)
  let kept = if len % line_chunk_size == 0 then resize buf len else buf
  let editor' : LineEditor = record { buf = kept; len = len; offset = editor.offset }
  out ← reprint_from_current editor' true
  done (editor', moves ++ out)

unfoldable pub erase_char : LineEditor → Bool → Outcome (LineEditor × Bytes)
erase_char editor forward =
    if forward
    then (if editor.offset == editor.len then done (editor, []) else erase_at editor [])
    else (if editor.offset == 0
        then done (editor, [])
        else erase_at (record editor { offset = editor.offset - 1 }) (b'\x08' ∷ []))

unfoldable pub isprint : ℕ → Bool
isprint ch = leb 0x20 (bit_and ch 0x7f) && ltb (bit_and ch 0x7f) 0x7f

-- The keys that move the cursor.
unfoldable pub move_left : LineEditor → Outcome (LineEditor × Bytes)
move_left editor =
    if editor.offset == 0
    then done (editor, [])
    else done (record editor { offset = editor.offset - 1 }, b'\x08' ∷ [])

unfoldable pub move_right : LineEditor → Outcome (LineEditor × Bytes)
move_right editor = if editor.offset == editor.len then done (editor, []) else (do
  c ← read editor.buf editor.offset
  done (record editor { offset = editor.offset + 1 }, c ∷ []))

unfoldable pub move_home : LineEditor → Outcome (LineEditor × Bytes)
move_home editor = done (record editor { offset = 0 }, backspaces editor.offset)

unfoldable pub move_end : LineEditor → Outcome (LineEditor × Bytes)
move_end editor = do
  out ← print_from editor.buf editor.offset (editor.len - editor.offset)
  done (record editor { offset = editor.len }, out)

-- A byte that is typed: `key` is converted to `char`.
unfoldable pub line_editor_input : LineEditor → ℕ → Outcome (LineEditor × Bytes)
line_editor_input editor key =
    if key == key_left
    then move_left editor
    else if key == key_right
    then move_right editor
    else if key == key_home
    then move_home editor
    else if key == key_end
    then move_end editor
    else if key == b'\x08'
    then erase_char editor false
    else if key == 0x7f
    then erase_char editor true
    else if key == b'\n'
    then insert_char (record editor { offset = editor.len }) (key % 2 ^ 8)
    else if isprint key
    then insert_char editor (key % 2 ^ 8)
    else done (editor, [])

-- The string that is returned, its terminator included.
unfoldable pub line_editor_finish : LineEditor → Outcome Buffer
line_editor_finish editor =
    if editor.len == 0
    then (assert (length editor.buf == 0) >> done (some 0 ∷ []))
    else (assert (not (length editor.buf == 0))
        >> write (resize editor.buf (editor.len + 1)) editor.len 0)
