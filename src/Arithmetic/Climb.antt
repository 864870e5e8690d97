-- ===== src/Arithmetic/Climb.antt =====
-- From the operand of one level of src/runtime/arithmetic.cpp up to the operands of another, where no level
-- on the way finds an operator of its own.
use lesh.Base.{ℕ, zero, suc, ◌≤◌, length, arith}
use lesh.Arithmetic.State.{ArithmeticVariables, Evaluator}
use lesh.Arithmetic.Parser.{
  Level, bit_or_level, bit_xor_level, bit_and_level, equality, relational, shift, additive,
  multiplicative, parse_level, parse_operand, parse_unary,
}
use lesh.Arithmetic.Done.{rank}
use lesh.Arithmetic.Gives.{Gives}
use lesh.Arithmetic.Operands.{Operand, level_stop, level-Gives}
use lesh.Arithmetic.Enders.{Halts, HaltsBelow}

module _ {V : Type 0} (vars : ArithmeticVariables V) where
  pub level_up :
      (l : Level) (s t : Evaluator V) (v : ℕ)
      → Operand vars l s v t
      → length t.rest ≤ length s.rest
      → Halts l t
      → Gives (λ f. parse_level vars f l) (rank l) s v t
  level_up l s t v g le h = level-Gives vars l s t t v v g le (level_stop vars l t t v h)

  climb_multiplicative :
      (s t : Evaluator V) (v : ℕ)
      → Gives (parse_unary vars) 2 s v t
      → length t.rest ≤ length s.rest
      → HaltsBelow multiplicative t
      → Operand vars multiplicative s v t
  unfolding parse_operand
  climb_multiplicative s t v g le h zero n = absurd (omega (arith, n))
  climb_multiplicative s t v g le h (suc f) n = g f (omega (arith, n))

  climb_additive :
      (s t : Evaluator V) (v : ℕ)
      → Gives (parse_unary vars) 2 s v t
      → length t.rest ≤ length s.rest
      → HaltsBelow additive t
      → Operand vars additive s v t
  unfolding parse_operand
  climb_additive s t v g le h zero n = absurd (omega (arith, n))
  climb_additive s t v g le h (suc f) n =
      level_up multiplicative s t v (climb_multiplicative s t v g le h.1) le h.0 f
        (omega (arith, n))

  climb_shift :
      (s t : Evaluator V) (v : ℕ)
      → Gives (parse_unary vars) 2 s v t
      → length t.rest ≤ length s.rest
      → HaltsBelow shift t
      → Operand vars shift s v t
  unfolding parse_operand
  climb_shift s t v g le h zero n = absurd (omega (arith, n))
  climb_shift s t v g le h (suc f) n =
      level_up additive s t v (climb_additive s t v g le h.1) le h.0 f (omega (arith, n))

  climb_relational :
      (s t : Evaluator V) (v : ℕ)
      → Gives (parse_unary vars) 2 s v t
      → length t.rest ≤ length s.rest
      → HaltsBelow relational t
      → Operand vars relational s v t
  unfolding parse_operand
  climb_relational s t v g le h zero n = absurd (omega (arith, n))
  climb_relational s t v g le h (suc f) n =
      level_up shift s t v (climb_shift s t v g le h.1) le h.0 f (omega (arith, n))

  climb_equality :
      (s t : Evaluator V) (v : ℕ)
      → Gives (parse_unary vars) 2 s v t
      → length t.rest ≤ length s.rest
      → HaltsBelow equality t
      → Operand vars equality s v t
  unfolding parse_operand
  climb_equality s t v g le h zero n = absurd (omega (arith, n))
  climb_equality s t v g le h (suc f) n =
      level_up relational s t v (climb_relational s t v g le h.1) le h.0 f (omega (arith, n))

  climb_bit_and :
      (s t : Evaluator V) (v : ℕ)
      → Gives (parse_unary vars) 2 s v t
      → length t.rest ≤ length s.rest
      → HaltsBelow bit_and_level t
      → Operand vars bit_and_level s v t
  unfolding parse_operand
  climb_bit_and s t v g le h zero n = absurd (omega (arith, n))
  climb_bit_and s t v g le h (suc f) n =
      level_up equality s t v (climb_equality s t v g le h.1) le h.0 f (omega (arith, n))

  climb_bit_xor :
      (s t : Evaluator V) (v : ℕ)
      → Gives (parse_unary vars) 2 s v t
      → length t.rest ≤ length s.rest
      → HaltsBelow bit_xor_level t
      → Operand vars bit_xor_level s v t
  unfolding parse_operand
  climb_bit_xor s t v g le h zero n = absurd (omega (arith, n))
  climb_bit_xor s t v g le h (suc f) n =
      level_up bit_and_level s t v (climb_bit_and s t v g le h.1) le h.0 f (omega (arith, n))

  climb_bit_or :
      (s t : Evaluator V) (v : ℕ)
      → Gives (parse_unary vars) 2 s v t
      → length t.rest ≤ length s.rest
      → HaltsBelow bit_or_level t
      → Operand vars bit_or_level s v t
  unfolding parse_operand
  climb_bit_or s t v g le h zero n = absurd (omega (arith, n))
  climb_bit_or s t v g le h (suc f) n =
      level_up bit_xor_level s t v (climb_bit_xor s t v g le h.1) le h.0 f (omega (arith, n))

  -- From `parse_unary` to the operands of a level.
  pub climb :
      (l : Level) (s t : Evaluator V) (v : ℕ)
      → Gives (parse_unary vars) 2 s v t
      → length t.rest ≤ length s.rest
      → HaltsBelow l t
      → Operand vars l s v t
  climb bit_or_level = climb_bit_or
  climb bit_xor_level = climb_bit_xor
  climb bit_and_level = climb_bit_and
  climb equality = climb_equality
  climb relational = climb_relational
  climb shift = climb_shift
  climb additive = climb_additive
  climb multiplicative = climb_multiplicative
