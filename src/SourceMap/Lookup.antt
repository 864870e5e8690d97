-- ===== src/SourceMap/Lookup.antt =====
-- The memo of src/syntax/source_map.h changes no answer.
use lesh.Base.{
  List, map, ℕ, zero, suc, ◌+◌, ◌-◌, ◌≤◌, ◌<◌, ◌≡◌, inl, inr, refl, sym, ap, [], ◌∷◌, Bytes,
  get_elem?, length, ltb, if◌then◌else◌, min, arith, Bool-cases,
}
use lesh.SourceMap.{
  SourcePosition, SourceMap, fresh, is_newline_at, line_begin, step_back, count_lines, column_at,
  at,
}

-- The line that holds an offset, and where it begins, counted from the top.
abbrev pub place : Bytes → ℕ → ℕ × ℕ
place source zero = (1, 0)
place source (suc offset) =
    if is_newline_at (get_elem? source offset)
    then ((place source offset).0 + 1, suc offset)
    else place source offset

-- The memo holds some line and where that line begins.
pub record IsMemo (m : SourceMap) : Type 0 where
  pub begins : place m.source m.line_start ≡ (m.line, m.line_start)

place-start-le : (source : Bytes) (offset : ℕ) → (place source offset).1 ≤ offset
place-start-le source zero = omega arith
place-start-le source (suc offset) = ground (arith, place-start-le source offset)

place-line-pos : (source : Bytes) (offset : ℕ) → 1 ≤ (place source offset).0
place-line-pos source zero = omega arith
place-line-pos source (suc offset) = ground (arith, place-line-pos source offset)

-- Where a line begins, that line begins.
place_idem :
    (source : Bytes) (offset : ℕ) → place source (place source offset).1 ≡ place source offset
place_idem source zero = refl
place_idem source (suc offset) = elim (Bool-cases (is_newline_at (get_elem? source offset))) [
  | inl e ↦ rw (e, place) (rw (e, place))
  | inr e ↦ rw (e, place) (place_idem source offset)
]

line_begin-place : (source : Bytes) (n : ℕ) → line_begin source n ≡ (place source n).1
unfolding line_begin
line_begin-place source zero = refl
line_begin-place source (suc n) = ground (arith, line_begin-place source n)

count_lines-place :
    (n : ℕ) (source : Bytes) (i j : ℕ)
    → i + n ≡ j
    → count_lines n source i (place source i).0 (place source i).1 ≡ place source j
unfolding count_lines
count_lines-place zero source i j e = let k : i ≡ j = omega arith in rw k
count_lines-place (suc n) source i j e =
    let next = count_lines-place n source (suc i) j (omega arith) in
    let k : i + 1 ≡ suc i = omega arith in
    rw k (elim (Bool-cases (is_newline_at (get_elem? source i))) [
      | inl b ↦ rw b (rw (b, place) at next)
      | inr b ↦ rw b (rw (b, place) at next)
    ])

-- Stepping back from a line's start reaches a line that starts no later than the offset.
step_back-begins :
    (f : ℕ) (source : Bytes) (offset line start : ℕ)
    → start < f
    → place source start ≡ (line, start)
    → (line' : ℕ) × (start' : ℕ) × (step_back f source offset line start ≡ (line', start'))
      × (place source start' ≡ (line', start'))
      × (start' ≤ offset)
unfolding step_back
step_back-begins zero source offset line start lt e = elim lt [ ]
step_back-begins (suc f) source offset line zero lt e = elim (Bool-cases (ltb offset zero)) [
  | inl b ↦ ground arith
  | inr b ↦ rw b (line, zero, refl, e, omega arith)
]
step_back-begins (suc f) source offset line (suc p) lt e = elim (Bool-cases (ltb offset (suc p))) [
  | inr b ↦ rw b (line, suc p, refl, e, ground arith)
  | inl b ↦ elim (Bool-cases (is_newline_at (get_elem? source p))) [
    | inl n ↦
        let e : ((place source p).0 + 1, suc p) ≡ (line, suc p) = (rw (n, place) at e) in
        let l : (place source p).0 ≡ line - 1 = omega (arith, ap (λ q. q.0) e) in
        let k : line_begin source p ≡ (place source p).1 = line_begin-place source p in
        let again =
          step_back-begins f source offset (line - 1) (line_begin source p)
            (omega (arith, lt, k, place-start-le source p)) (rw (k, sym l) (place_idem source p)) in
        let q : suc p - 1 ≡ p = omega arith in rw (b, q) again
    | inr n ↦
        let e : place source p ≡ (line, suc p) = (rw (n, place) at e) in
        ground (arith, place-start-le source p, e)
  ]
]

-- The number of newlines among the first bytes.
abbrev pub newlines : Bytes → ℕ → ℕ
newlines source zero = 0
newlines source (suc n) =
    if is_newline_at (get_elem? source n) then newlines source n + 1 else newlines source n

place-newlines :
    (source : Bytes) (offset : ℕ) → (place source offset).0 ≡ newlines source offset + 1
place-newlines source zero = refl
place-newlines source (suc offset) = ground (arith, place-newlines source offset)

-- Whatever line the memo holds, `at` answers the line of the offset, clamped to the text, and keeps it.
at-place :
    (m : SourceMap) (wanted : ℕ)
    → IsMemo m
    → let offset = min wanted (length m.source) in
      let (line, start) = place m.source offset in
      at m wanted ≡ (
        record { source = m.source; line = line; line_start = start },
        record { line = line; column = column_at m.source start offset },
      )
unfolding at
at-place m wanted h =
    let offset = min wanted (length m.source) in
    let (line, start, e, p, le) =
      step_back-begins (suc m.line_start) m.source offset m.line m.line_start (omega arith)
        h.begins in
    let c = count_lines-place (offset - start) m.source start offset (omega arith) in
    let c : count_lines (offset - start) m.source start line start ≡ place m.source offset =
      (rw p at c) in
    rw (e, c) refl

-- From a valid memo, `at` answers one more than the number of newlines before the offset, clamped to
-- the text, and the column counted from the beginning of that line.
pub at-newlines :
    (m : SourceMap) (wanted : ℕ)
    → IsMemo m
    → let offset = min wanted (length m.source) in
      (at m wanted).1 ≡ record {
        line = newlines m.source offset + 1;
        column = column_at m.source (place m.source offset).1 offset;
      }
at-newlines m wanted h =
    rw (at-place m wanted h, place-newlines m.source (min wanted (length m.source))) refl

-- `at` answers from a valid memo what a fresh map answers, and leaves a valid memo of its text.
at-fresh :
    (m : SourceMap) (offset : ℕ)
    → IsMemo m
    → ((at m offset).1 ≡ (at (fresh m.source) offset).1)
      × ((at m offset).0.source ≡ m.source)
      × IsMemo (at m offset).0
at-fresh m offset h =
    let e = at-place m offset h in
    let e' = at-place (fresh m.source) offset (record { begins = refl }) in
    let i = place_idem m.source (min offset (length m.source)) in
    rw (e, e') (refl, refl, record { begins = i })

-- The answers to a sequence of questions, each with the memo that the last one left.
abbrev pub answers : SourceMap → List ℕ → List SourcePosition
answers m [] = []
answers m (offset ∷ offsets) = let (m', p) = at m offset in p ∷ answers m' offsets

-- However the questions are ordered, every answer is the line and column counted from the top.
pub answers-map :
    (m : SourceMap) (offsets : List ℕ)
    → IsMemo m
    → answers m offsets ≡ map (λ offset. (at (fresh m.source) offset).1) offsets
answers-map m [] h = refl
answers-map m (offset ∷ offsets) h =
    let (e, s, h') = at-fresh m offset h in
    let rest = answers-map (at m offset).0 offsets h' in let t = rw s at rest in rw (e, t) refl
