-- ===== src/Arithmetic/Steps.antt =====
-- The parts of the parser of src/runtime/arithmetic.cpp that call no other part: what they take, and
-- that their values are words.
use lesh.Base.{
  ℕ, ◌^◌, ◌≤◌, ◌<◌, ◌≡◌, inl, inr, refl, ◌&&◌, some, List, [], ◌∷◌, Bytes, drop, take, length, ◌==◌,
  arith, Bool-cases, Option-cases, length-drop, All,
}
use lesh.Numeric.{scan_digits}
use lesh.Numeric.Digits.{scan_digits-Reads}
use lesh.Arithmetic.Words.{Operator}
use lesh.Arithmetic.State.{
  ArithmeticVariables, malformed_number, Evaluator, starts, starts_name, peek, read_variable,
  skip_blanks,
}
use lesh.Arithmetic.Parser.{
  parse_number, literal_base, literal_limit, parse_name, name_length, skip_spaces, Target,
  compound_target, target, assign, compound_operators, operators, Level, bit_or_level,
  bit_xor_level, bit_and_level, equality, relational, shift, additive, multiplicative,
}
use lesh.Arithmetic.Follows.{
  Follows, Follows-trans, moved, fail-Follows, read_variable-Follows, Follows-if, apply_operator-lt,
}

pub operators-All : (level : Level) → All (λ p. 0 < length p.0) (operators level)
operators-All bit_or_level = omega arith
operators-All bit_xor_level = omega arith
operators-All bit_and_level = omega arith
operators-All equality = omega arith
operators-All relational = omega arith
operators-All shift = omega arith
operators-All additive = omega arith
operators-All multiplicative = omega arith

skip_spaces-le : (text : Bytes) → length (skip_spaces text) ≤ length text
unfolding skip_spaces
skip_spaces-le [] = omega arith
skip_spaces-le (c ∷ text) = ground (arith, skip_spaces-le text)

compound_target-lt :
    (name text : Bytes) (ops : List (Bytes × Operator)) (t : Target)
    → All (λ p. 0 < length p.0) ops
    → compound_target name text ops ≡ some t
    → length t.behind < length text
unfolding compound_target
compound_target-lt name [] [] t h e = ground arith
compound_target-lt name (c ∷ text) [] t h e = ground arith
compound_target-lt name text (([], o) ∷ ops) t h e = elim h.0 [ ]
compound_target-lt name [] ((d ∷ op, o) ∷ ops) t h e = compound_target-lt name [] ops t h.1 e
compound_target-lt name (c ∷ text) ((d ∷ op, o) ∷ ops) t h e =
    let le = length-drop (length op) text in
    elim (Bool-cases (starts (d ∷ op) (c ∷ text))) [
      | inl b ↦ let e' = rw b at e in ground (arith, e', le)
      | inr b ↦ compound_target-lt name (c ∷ text) ops t h.1 (rw b at e)
    ]

-- An assignment's look ahead passes a byte at least.
pub target-lt :
    (text : Bytes) (t : Target)
    → target (skip_blanks text) ≡ some t
    → length t.behind < length (skip_blanks text)
unfolding target
target-lt text' t e =
    let text = skip_blanks text' in
    elim (Bool-cases (starts_name (peek text 0))) [
      | inr b ↦ let e' = rw b at e in ground (arith, e')
      | inl b ↦
          let n = name_length text in
          let behind = drop n text in
          let lt =
            compound_target-lt (take n text) (skip_spaces behind) compound_operators t (omega arith)
              (rw b at e) in
          omega (arith, lt, skip_spaces-le behind, length-drop n text)
    ]

literal_base_pos : (text : Bytes) → 0 < (literal_base text).0
unfolding literal_base
literal_base_pos text = ground arith

literal_base-le : (text : Bytes) → length (literal_base text).1 ≤ length text
unfolding literal_base
literal_base-le text = ground (arith, length-drop 2 text, length-drop 1 text)

module _ {V : Type 0} where
  pub parse_number-Follows :
      (s : Evaluator V)
      → (v : ℕ) × (s' : Evaluator V) × (parse_number s ≡ some (v, s')) × (v < 2 ^ 64) × Follows s s'
  unfolding parse_number
  parse_number-Follows s =
      let (base, text) = literal_base s.rest in
      let run = scan_digits text base literal_limit in
      let after = record s { rest = drop run.consumed text } in
      let (reads, taken) =
        scan_digits-Reads text base literal_limit (literal_base_pos s.rest) (omega arith) in
      let h =
        moved s (drop run.consumed text)
          (omega (arith, length-drop run.consumed text, literal_base-le s.rest)) in
      (
        run.value,
        _,
        refl,
        omega (arith, reads.value_is),
        Follows-if (run.consumed == 0 && base == 16)
            (λ _. Follows-trans s after _ h (fail-Follows malformed_number after (λ _. refl)))
            (λ _. h),
      )

module _ {V : Type 0} (vars : ArithmeticVariables V) where
  -- Every variable holds a word.
  pub record InRange : Type 0 where
    pub get-lt : (held : V) (name : Bytes) → vars.get held name < 2 ^ 64

  read_variable-lt :
      InRange → (name : Bytes) (s : Evaluator V) → (read_variable vars name s).0 < 2 ^ 64
  unfolding read_variable
  read_variable-lt r name s = elim (Bool-cases s.live) [
    | inl e ↦ rw e (r.get-lt s.vars name)
    | inr e ↦ rw e (omega arith)
  ]

  pub parse_name-Follows :
      InRange
      → (s : Evaluator V)
      → (v : ℕ) × (s' : Evaluator V) × (parse_name vars s ≡ some (v, s'))
        × (v < 2 ^ 64)
        × Follows s s'
  unfolding parse_name
  parse_name-Follows r s =
      let n = name_length s.rest in
      let t = record s { rest = drop n s.rest } in
      let h = moved s (drop n s.rest) (omega (arith, length-drop n s.rest)) in
      (
        _,
        _,
        refl,
        read_variable-lt r (take n s.rest) t,
        Follows-trans s t _ h (read_variable-Follows vars (take n s.rest) t),
      )

  pub assign-lt :
      (t : Target) (rhs : ℕ) (s : Evaluator V) → rhs < 2 ^ 64 → (assign vars t rhs s).0 < 2 ^ 64
  unfolding assign
  assign-lt t rhs s h = elim (Option-cases t.compound) [
    | inl e ↦ rw (e, assign) h
    | inr (op, e) ↦
        let (lhs, s') = read_variable vars t.name s in
        rw (e, assign) (apply_operator-lt op lhs rhs s')
  ]
