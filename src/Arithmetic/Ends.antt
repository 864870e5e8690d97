-- ===== src/Arithmetic/Ends.antt =====
-- The fuel on which each part of the parser of src/runtime/arithmetic.cpp ends.
use lesh.Base.{
  ℕ, ◌+◌, ◌*◌, ◌^◌, ◌≤◌, ◌<◌, inl, inr, refl, ◌&&◌, [], ◌∷◌, Bytes, length, leb, arith, Bool-cases,
}
use lesh.Arithmetic.State.{
  ArithmeticVariables, Evaluator, unexpected_end, unexpected_character, starts_name,
}
use lesh.Arithmetic.Parser.{
  Level, parse_comma, comma_loop, parse_assignment, parse_conditional, parse_branches,
  parse_otherwise, parse_logical_or, logical_or_loop, parse_logical_and, logical_and_loop,
  parse_level, parse_operand, level_loop, parse_unary, parse_primary, parse_atom, atom_at,
}
use lesh.Arithmetic.Follows.{fail-Follows}
use lesh.Arithmetic.Steps.{InRange, parse_number-Follows, parse_name-Follows}
use lesh.Arithmetic.Done.{Done, rank}

module _ {V : Type 0} (vars : ArithmeticVariables V) where
  atom_at-Done : InRange vars → (text : Bytes) (s : Evaluator V) → Done s (atom_at vars text s)
  unfolding atom_at
  atom_at-Done r [] s = record {
    value_lt = omega arith;
    follows = fail-Follows unexpected_end s (λ _. refl);
  }
  atom_at-Done r (c ∷ text) s = elim (Bool-cases (leb b'0' c && leb c b'9')) [
    | inl e ↦
        let (v, s', is, lt, h) = parse_number-Follows s in
        rw e (rw is (record { value_lt = lt; follows = h }))
    | inr e ↦ elim (Bool-cases (starts_name c)) [
      | inl e' ↦
          let (v, s', is, lt, h) = parse_name-Follows vars r s in
          rw (e, e') (rw is (record { value_lt = lt; follows = h }))
      | inr e' ↦
          rw (e, e')
            (record {
              value_lt = omega arith;
              follows = fail-Follows unexpected_character s (λ _. refl);
            })
    ]
  ]

  pub parse_atom-Done : InRange vars → (s : Evaluator V) → Done s (parse_atom vars s)
  unfolding parse_atom
  parse_atom-Done r s = atom_at-Done r s.rest s

  -- Each part ends on fuel for every byte left and for the levels below it.
  pub record Ends (f : ℕ) : Type 0 where
    pub comma : (s : Evaluator V) → 32 * length s.rest + 27 ≤ f → Done s (parse_comma vars f s)
    pub comma_more :
        (v : ℕ) (s : Evaluator V)
        → v < 2 ^ 64
        → 32 * length s.rest + 1 ≤ f
        → Done s (comma_loop vars f v s)
    pub assignment :
        (s : Evaluator V) → 32 * length s.rest + 25 ≤ f → Done s (parse_assignment vars f s)
    pub conditional :
        (s : Evaluator V) → 32 * length s.rest + 24 ≤ f → Done s (parse_conditional vars f s)
    pub branches :
        (c : ℕ) (s : Evaluator V) → 32 * length s.rest + 28 ≤ f → Done s (parse_branches vars f c s)
    pub otherwise :
        (c v : ℕ) (s : Evaluator V)
        → v < 2 ^ 64
        → 32 * length s.rest + 26 ≤ f
        → Done s (parse_otherwise vars f c s.live v s)
    pub logical_or :
        (s : Evaluator V) → 32 * length s.rest + 22 ≤ f → Done s (parse_logical_or vars f s)
    pub or_more :
        (v : ℕ) (s : Evaluator V)
        → v < 2 ^ 64
        → 32 * length s.rest + 1 ≤ f
        → Done s (logical_or_loop vars f v s)
    pub logical_and :
        (s : Evaluator V) → 32 * length s.rest + 20 ≤ f → Done s (parse_logical_and vars f s)
    pub and_more :
        (v : ℕ) (s : Evaluator V)
        → v < 2 ^ 64
        → 32 * length s.rest + 1 ≤ f
        → Done s (logical_and_loop vars f v s)
    pub level :
        (l : Level) (s : Evaluator V)
        → 32 * length s.rest + rank l ≤ f
        → Done s (parse_level vars f l s)
    pub operand :
        (l : Level) (s : Evaluator V)
        → 32 * length s.rest + rank l ≤ f + 1
        → Done s (parse_operand vars f l s)
    pub level_more :
        (l : Level) (v : ℕ) (s : Evaluator V)
        → v < 2 ^ 64
        → 32 * length s.rest + 1 ≤ f
        → Done s (level_loop vars f l v s)
    pub unary : (s : Evaluator V) → 32 * length s.rest + 2 ≤ f → Done s (parse_unary vars f s)
    pub primary : (s : Evaluator V) → 32 * length s.rest + 1 ≤ f → Done s (parse_primary vars f s)
