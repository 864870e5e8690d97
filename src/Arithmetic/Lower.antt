-- ===== src/Arithmetic/Lower.antt =====
-- The binary and unary operators of src/runtime/arithmetic.cpp and what they stand between end where their parts do.
use lesh.Base.{
  ℕ, suc, ◌+◌, ◌*◌, ◌^◌, ◌≤◌, ◌<◌, inl, inr, refl, true, false, none, some, [], length, arith,
  Bool-cases, codes,
}
use lesh.Arithmetic.State.{ArithmeticVariables, Evaluator, fail, expected_paren}
use lesh.Arithmetic.Parser.{
  pure, found, ◌>>=◌, Level, bit_or_level, bit_xor_level, bit_and_level, equality, relational,
  shift, additive, multiplicative, operators, unary_operators, apply_unary, apply_operator,
  parse_comma, parse_level, parse_operand, level_loop, parse_unary, parse_primary, parse_atom,
}
use lesh.Arithmetic.Follows.{
  Follows-trans, moved, fail-Follows, apply_operator-Follows, apply_operator-lt, apply_unary-lt,
}
use lesh.Arithmetic.Steps.{InRange, operators-All}
use lesh.Arithmetic.Done.{Done, Done-from, Done-bind, Done-found, Done-find, rank, rank_bounds}
use lesh.Arithmetic.Ends.{parse_atom-Done, Ends}

module _ {V : Type 0} (vars : ArithmeticVariables V) where
  module _ (in_range : InRange vars) (f : ℕ) (e : Ends vars f) where
    pub level-suc :
        (l : Level) (s : Evaluator V)
        → 32 * length s.rest + rank l ≤ suc f
        → Done s (parse_level vars (suc f) l s)
    unfolding parse_level
    level-suc l s n =
        Done-bind s s (parse_operand vars f l) (level_loop vars f l)
          (e.operand l s (omega (arith, n)))
          (λ v u lt h.
            Done-from s u _ h (e.level_more l v u lt (omega (arith, n, h.shorter, rank_bounds l))))

    pub operand-suc :
        (l : Level) (s : Evaluator V)
        → 32 * length s.rest + rank l ≤ suc f + 1
        → Done s (parse_operand vars (suc f) l s)
    unfolding parse_operand
    operand-suc bit_or_level s n = e.level bit_xor_level s (omega (arith, n))
    operand-suc bit_xor_level s n = e.level bit_and_level s (omega (arith, n))
    operand-suc bit_and_level s n = e.level equality s (omega (arith, n))
    operand-suc equality s n = e.level relational s (omega (arith, n))
    operand-suc relational s n = e.level shift s (omega (arith, n))
    operand-suc shift s n = e.level additive s (omega (arith, n))
    operand-suc additive s n = e.level multiplicative s (omega (arith, n))
    operand-suc multiplicative s n = e.unary s (omega (arith, n))

    pub level_more-suc :
        (l : Level) (v : ℕ) (s : Evaluator V)
        → v < 2 ^ 64
        → 32 * length s.rest + 1 ≤ suc f
        → Done s (level_loop vars (suc f) l v s)
    unfolding level_loop
    level_more-suc l v s lt n =
        Done-find (operators l) s
          (λ which. elim which [
            | none ↦ pure v
            | some op ↦ parse_operand vars f l >>= λ operand t.
                elim (apply_operator op v operand t).0.0 [
                  | true ↦ some (0, (apply_operator op v operand t).1)
                  | false ↦
                      level_loop vars f l (apply_operator op v operand t).0.1
                        (apply_operator op v operand t).1
                ]
          ])
          (operators-All l)
          (λ op text k.
            let m = record s { rest = text } in
            Done-bind s m (parse_operand vars f l) _
              (e.operand l m (omega (arith, n, k, rank_bounds l)))
              (λ b u lt' h.
                let h' = Follows-trans s m u (moved s text (omega (arith, k))) h in
                let ((abandoned, value), u') = apply_operator op v b u in
                let h'' = Follows-trans s u u' h' (apply_operator-Follows op v b u) in
                elim (Bool-cases abandoned) [
                  | inl a ↦ rw a (record { value_lt = omega arith; follows = h'' })
                  | inr a ↦ rw a (
                      Done-from s u' _ h'' (
                        e.level_more l value u' (apply_operator-lt op v b u) (
                          omega (
                            arith,
                            n,
                            k,
                            h''.shorter,
                            h.shorter,
                            (apply_operator-Follows op v b u).shorter,
                          ))))
                ]))
          (λ text k. record { value_lt = lt; follows = moved s text k })

    pub unary-suc :
        (s : Evaluator V) → 32 * length s.rest + 2 ≤ suc f → Done s (parse_unary vars (suc f) s)
    unfolding parse_unary
    unary-suc s n =
        Done-find unary_operators s
          (λ which. elim which [
            | none ↦ parse_primary vars f
            | some op ↦ parse_unary vars f >>= λ v u. some (apply_unary op v, u)
          ])
          (omega arith)
          (λ op text k.
            let m = record s { rest = text } in
            Done-bind s m (parse_unary vars f) (λ v u. some (apply_unary op v, u))
              (e.unary m (omega (arith, n, k)))
              (λ v u lt h. record {
                value_lt = apply_unary-lt op v lt;
                follows = Follows-trans s m u (moved s text (omega (arith, k))) h;
              }))
          (λ text k.
            Done-from s (record s { rest = text }) _ (moved s text k)
              (e.primary (record s { rest = text }) (omega (arith, n, k))))

    pub primary-suc :
        (s : Evaluator V) → 32 * length s.rest + 1 ≤ suc f → Done s (parse_primary vars (suc f) s)
    unfolding parse_primary
    primary-suc s n =
        Done-found b'(' [] s
          (λ grouped. elim grouped [
            | true ↦ parse_comma vars f >>= λ value. found (codes ")") >>= λ closed t.
                some (value, elim closed [ true ↦ t | false ↦ fail expected_paren t ])
            | false ↦ parse_atom vars
          ])
          (λ text k.
            let m = record s { rest = text } in
            Done-bind s m (parse_comma vars f) _ (e.comma m (omega (arith, n, k))) (λ v u lt h.
              Done-from s u
                ((found (codes ")") >>= λ closed t.
                    some (v, elim closed [ true ↦ t | false ↦ fail expected_paren t ]))
                  u)
                (Follows-trans s m u (moved s text (omega (arith, k))) h)
                (Done-found b')' [] u
                  (λ closed t. some (v, elim closed [ true ↦ t | false ↦ fail expected_paren t ]))
                  (λ text' k'. record {
                    value_lt = lt;
                    follows = moved u text' (omega (arith, k'));
                  })
                  (λ text' k'. record {
                    value_lt = lt;
                    follows =
                        Follows-trans u (record u { rest = text' }) _ (moved u text' k')
                          (fail-Follows expected_paren _ (λ _. refl));
                  }))))
          (λ text k.
            Done-from s (record s { rest = text }) _ (moved s text k)
              (parse_atom-Done vars in_range (record s { rest = text })))
