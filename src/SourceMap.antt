-- ===== src/SourceMap.antt =====
-- src/syntax/source_map.h: from a byte offset to a line and a column. An offset is a number below
-- 2 ^ 32, which no source of the shell reaches; the memo's line start is an offset too.
pub mod Lookup
use lesh.Base.{
  ℕ, zero, suc, ◌+◌, ◌-◌, Bool, true, false, not, ◌&&◌, Option, none, some, [], ◌∷◌, Bytes,
  get_elem?, take, drop, length, ltb, leb, ◌==◌, if◌then◌else◌, min,
}
use lesh.Text.{is_continuation}

pub record SourcePosition : Type 0 where
  pub line : ℕ
  pub column : ℕ

-- The source with the memo of the last answer.
pub record SourceMap : Type 0 where
  pub source : Bytes
  pub line : ℕ
  pub line_start : ℕ

abbrev pub fresh : Bytes → SourceMap
fresh source = record { source = source; line = 1; line_start = 0 }

abbrev is_newline_at : Option ℕ → Bool
is_newline_at none = false
is_newline_at (some c) = c == 10

-- `while (start > 0 && _source[start - 1] != '\n') --start;`
unfoldable pub line_begin : Bytes → ℕ → ℕ
line_begin source zero = zero
line_begin source (suc start) =
    let further = line_begin source start in
    if is_newline_at (get_elem? source start) then suc start else further

-- The loop that steps whole lines back, on fuel.
unfoldable pub step_back : ℕ → Bytes → ℕ → ℕ → ℕ → ℕ × ℕ
step_back zero source offset line start = (line, start)
step_back (suc f) source offset line start =
    let again = step_back f source offset (line - 1) (line_begin source (start - 1)) in
    if ltb offset start then again else (line, start)

-- The loop that counts forwards over `n` more bytes, from index `i` on.
unfoldable pub count_lines : ℕ → Bytes → ℕ → ℕ → ℕ → ℕ × ℕ
count_lines zero source i line start = (line, start)
count_lines (suc n) source i line start =
    let newline = is_newline_at (get_elem? source i) in
    count_lines n source (i + 1) (if newline then line + 1 else line)
      (if newline then i + 1 else start)

abbrev starts_character : Option ℕ → Bool
starts_character none = false
starts_character (some c) = not (is_continuation c)

-- The loop of `column_at`, over `n` more bytes from index `i` on.
unfoldable pub count_columns : ℕ → Bytes → ℕ → ℕ → ℕ
count_columns zero source i column = column
count_columns (suc n) source i column =
    count_columns n source (i + 1)
      (if starts_character (get_elem? source i) then column + 1 else column)

unfoldable pub column_at : Bytes → ℕ → ℕ → ℕ
unfolding count_columns
column_at source line_start offset = count_columns (offset - line_start) source line_start 1

-- `source_map::at`, with the memo behind it.
unfoldable pub at : SourceMap → ℕ → SourceMap × SourcePosition
at m wanted =
    let offset = min wanted (length m.source) in
    let (line, start) = step_back (suc m.line_start) m.source offset m.line m.line_start in
    let (line', start') = count_lines (offset - start) m.source start line start in
    (
      record { source = m.source; line = line'; line_start = start' },
      record { line = line'; column = column_at m.source start' offset },
    )

unfoldable pub line_at : SourceMap → ℕ → ℕ
line_at m offset = (at m offset).1.line
