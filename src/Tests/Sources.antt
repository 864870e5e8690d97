-- ===== src/Tests/Sources.antt =====
-- Runs of src/syntax/source_map.h, and the theorems on it applied.
use lesh.Base.{◌≡◌, refl, Bytes, codes, [], ◌∷◌, ◌++◌, map, length, min, ◌+◌}
use lesh.SourceMap.{SourcePosition, SourceMap, fresh, column_at, at, line_at}
use lesh.SourceMap.Lookup.{IsMemo, newlines, place, at-newlines, answers, answers-map}

-- Two lines and an empty one, with a character of two bytes on the second.
abbrev script : Bytes
script = codes "ls -l" ++ 10 ∷ 195 ∷ 169 ∷ codes "cho" ++ 10 ∷ 10 ∷ []

-- The memo of the second line.
abbrev second_line : SourceMap
second_line = record { source = script; line = 2; line_start = 6 }

second_line-IsMemo : IsMemo second_line
second_line-IsMemo = record { begins = refl }

position_run : (at (fresh script) 9).1 ≡ (record { line = 2; column = 3 })
unfolding at lesh.SourceMap.count_lines lesh.SourceMap.column_at lesh.SourceMap.step_back
position_run = refl

back_run : line_at second_line 3 ≡ 1
unfolding line_at at lesh.SourceMap.count_lines lesh.SourceMap.step_back lesh.SourceMap.line_begin
back_run = refl

answers-map_example :
    answers second_line (12 ∷ 3 ∷ 9 ∷ 99 ∷ [])
    ≡ map (λ offset. (at (fresh script) offset).1) (12 ∷ 3 ∷ 9 ∷ 99 ∷ [])
answers-map_example = answers-map second_line (12 ∷ 3 ∷ 9 ∷ 99 ∷ []) second_line-IsMemo

at-newlines_example : (at second_line 99).1 ≡ record {
  line = newlines script (min 99 (length script)) + 1;
  column = column_at script (place script (min 99 (length script))).1 (min 99 (length script));
}
at-newlines_example = at-newlines second_line 99 second_line-IsMemo
