-- ===== src/Arithmetic/Total.antt =====
-- The parser of src/runtime/arithmetic.cpp ends on every text, and what its parts may do on the way.
use lesh.Base.{ℕ, zero, suc, arith}
use lesh.Arithmetic.State.{ArithmeticVariables}
use lesh.Arithmetic.Steps.{InRange}
use lesh.Arithmetic.Done.{rank_bounds}
use lesh.Arithmetic.Ends.{Ends}
use lesh.Arithmetic.Upper.{
  comma-suc, comma_more-suc, assignment-suc, conditional-suc, branches-suc, otherwise-suc,
  logical_or-suc, or_more-suc, logical_and-suc, and_more-suc,
}
use lesh.Arithmetic.Lower.{level-suc, operand-suc, level_more-suc, unary-suc, primary-suc}

module _ {V : Type 0} (vars : ArithmeticVariables V) where
  Ends-zero : Ends vars zero
  Ends-zero = record {
    comma = λ s n. absurd (omega (arith, n));
    comma_more = λ v s lt n. absurd (omega (arith, n));
    assignment = λ s n. absurd (omega (arith, n));
    conditional = λ s n. absurd (omega (arith, n));
    branches = λ c s n. absurd (omega (arith, n));
    otherwise = λ c v s lt n. absurd (omega (arith, n));
    logical_or = λ s n. absurd (omega (arith, n));
    or_more = λ v s lt n. absurd (omega (arith, n));
    logical_and = λ s n. absurd (omega (arith, n));
    and_more = λ v s lt n. absurd (omega (arith, n));
    level = λ l s n. absurd (omega (arith, n, rank_bounds l));
    operand = λ l s n. absurd (omega (arith, n, rank_bounds l));
    level_more = λ l v s lt n. absurd (omega (arith, n));
    unary = λ s n. absurd (omega (arith, n));
    primary = λ s n. absurd (omega (arith, n));
  }

  pub all-Ends : InRange vars → (f : ℕ) → Ends vars f
  all-Ends r zero = Ends-zero
  all-Ends r (suc f) =
      let e = all-Ends r f in
      record {
        comma = comma-suc vars r f e;
        comma_more = comma_more-suc vars r f e;
        assignment = assignment-suc vars r f e;
        conditional = conditional-suc vars r f e;
        branches = branches-suc vars r f e;
        otherwise = otherwise-suc vars r f e;
        logical_or = logical_or-suc vars r f e;
        or_more = or_more-suc vars r f e;
        logical_and = logical_and-suc vars r f e;
        and_more = and_more-suc vars r f e;
        level = level-suc vars r f e;
        operand = operand-suc vars r f e;
        level_more = level_more-suc vars r f e;
        unary = unary-suc vars r f e;
        primary = primary-suc vars r f e;
      }
