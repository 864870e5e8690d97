-- ===== src/Arithmetic/Rise.antt =====
-- From a level of src/runtime/arithmetic.cpp up to a whole expression, in front of what may stand behind it.
use lesh.Base.{
  ℕ, zero, suc, ◌≤◌, ◌≡◌, ◌≢◌, refl, Bool, false, none, ◌∷◌, Bytes, length, arith, codes,
}
use lesh.Arithmetic.State.{ArithmeticVariables, Evaluator, consume, skip_blanks}
use lesh.Arithmetic.Parser.{
  Level, bit_or_level, bit_xor_level, bit_and_level, equality, relational, shift, additive,
  multiplicative, target, parse_comma, parse_assignment, parse_logical_or, parse_logical_and,
  parse_level, parse_operand,
}
use lesh.Arithmetic.Done.{rank}
use lesh.Arithmetic.Trees.{Effects, at}
use lesh.Arithmetic.Gives.{
  Gives, and_stop, logical_and-Gives, or_stop, logical_or-Gives, conditional_stop, assignment_none,
  comma_stop, comma-Gives,
}
use lesh.Arithmetic.Operands.{Operand}
use lesh.Arithmetic.Enders.{Ender, closing, colon, question, comma, ender, ender-Halts}
use lesh.Arithmetic.Climb.{level_up}

module _ {V : Type 0} (vars : ArithmeticVariables V) where
  bit_xor-Operand :
      (s t : Evaluator V) (v : ℕ)
      → Gives (λ f. parse_level vars f bit_xor_level) (rank bit_xor_level) s v t
      → Operand vars bit_or_level s v t
  unfolding parse_operand
  bit_xor-Operand s t v g zero n = absurd (omega (arith, n))
  bit_xor-Operand s t v g (suc f) n = g f (omega (arith, n))

  bit_and-Operand :
      (s t : Evaluator V) (v : ℕ)
      → Gives (λ f. parse_level vars f bit_and_level) (rank bit_and_level) s v t
      → Operand vars bit_xor_level s v t
  unfolding parse_operand
  bit_and-Operand s t v g zero n = absurd (omega (arith, n))
  bit_and-Operand s t v g (suc f) n = g f (omega (arith, n))

  equality-Operand :
      (s t : Evaluator V) (v : ℕ)
      → Gives (λ f. parse_level vars f equality) (rank equality) s v t
      → Operand vars bit_and_level s v t
  unfolding parse_operand
  equality-Operand s t v g zero n = absurd (omega (arith, n))
  equality-Operand s t v g (suc f) n = g f (omega (arith, n))

  relational-Operand :
      (s t : Evaluator V) (v : ℕ)
      → Gives (λ f. parse_level vars f relational) (rank relational) s v t
      → Operand vars equality s v t
  unfolding parse_operand
  relational-Operand s t v g zero n = absurd (omega (arith, n))
  relational-Operand s t v g (suc f) n = g f (omega (arith, n))

  shift-Operand :
      (s t : Evaluator V) (v : ℕ)
      → Gives (λ f. parse_level vars f shift) (rank shift) s v t
      → Operand vars relational s v t
  unfolding parse_operand
  shift-Operand s t v g zero n = absurd (omega (arith, n))
  shift-Operand s t v g (suc f) n = g f (omega (arith, n))

  additive-Operand :
      (s t : Evaluator V) (v : ℕ)
      → Gives (λ f. parse_level vars f additive) (rank additive) s v t
      → Operand vars shift s v t
  unfolding parse_operand
  additive-Operand s t v g zero n = absurd (omega (arith, n))
  additive-Operand s t v g (suc f) n = g f (omega (arith, n))

  multiplicative-Operand :
      (s t : Evaluator V) (v : ℕ)
      → Gives (λ f. parse_level vars f multiplicative) (rank multiplicative) s v t
      → Operand vars additive s v t
  unfolding parse_operand
  multiplicative-Operand s t v g zero n = absurd (omega (arith, n))
  multiplicative-Operand s t v g (suc f) n = g f (omega (arith, n))

  rise_bit_or :
      (s : Evaluator V) (e : Ender) (tail : Bytes) (live : Bool) (x : Effects V) (v : ℕ)
      → let t = at (ender e ∷ tail) live x in
        Gives (λ f. parse_level vars f bit_or_level) (rank bit_or_level) s v t
        → length t.rest ≤ length s.rest
        → Gives (λ f. parse_level vars f bit_or_level) 18 s v t
  rise_bit_or s e tail live x v g le = g

  rise_bit_xor :
      (s : Evaluator V) (e : Ender) (tail : Bytes) (live : Bool) (x : Effects V) (v : ℕ)
      → let t = at (ender e ∷ tail) live x in
        Gives (λ f. parse_level vars f bit_xor_level) (rank bit_xor_level) s v t
        → length t.rest ≤ length s.rest
        → Gives (λ f. parse_level vars f bit_or_level) 18 s v t
  rise_bit_xor s e tail live x v g le =
      let t = at (ender e ∷ tail) live x in
      rise_bit_or s e tail live x v
        (level_up vars bit_or_level s t v (bit_xor-Operand s t v g) le
          (ender-Halts bit_or_level e tail live x))
        le

  rise_bit_and :
      (s : Evaluator V) (e : Ender) (tail : Bytes) (live : Bool) (x : Effects V) (v : ℕ)
      → let t = at (ender e ∷ tail) live x in
        Gives (λ f. parse_level vars f bit_and_level) (rank bit_and_level) s v t
        → length t.rest ≤ length s.rest
        → Gives (λ f. parse_level vars f bit_or_level) 18 s v t
  rise_bit_and s e tail live x v g le =
      let t = at (ender e ∷ tail) live x in
      rise_bit_xor s e tail live x v
        (level_up vars bit_xor_level s t v (bit_and-Operand s t v g) le
          (ender-Halts bit_xor_level e tail live x))
        le

  rise_equality :
      (s : Evaluator V) (e : Ender) (tail : Bytes) (live : Bool) (x : Effects V) (v : ℕ)
      → let t = at (ender e ∷ tail) live x in
        Gives (λ f. parse_level vars f equality) (rank equality) s v t
        → length t.rest ≤ length s.rest
        → Gives (λ f. parse_level vars f bit_or_level) 18 s v t
  rise_equality s e tail live x v g le =
      let t = at (ender e ∷ tail) live x in
      rise_bit_and s e tail live x v
        (level_up vars bit_and_level s t v (equality-Operand s t v g) le
          (ender-Halts bit_and_level e tail live x))
        le

  rise_relational :
      (s : Evaluator V) (e : Ender) (tail : Bytes) (live : Bool) (x : Effects V) (v : ℕ)
      → let t = at (ender e ∷ tail) live x in
        Gives (λ f. parse_level vars f relational) (rank relational) s v t
        → length t.rest ≤ length s.rest
        → Gives (λ f. parse_level vars f bit_or_level) 18 s v t
  rise_relational s e tail live x v g le =
      let t = at (ender e ∷ tail) live x in
      rise_equality s e tail live x v
        (level_up vars equality s t v (relational-Operand s t v g) le
          (ender-Halts equality e tail live x))
        le

  rise_shift :
      (s : Evaluator V) (e : Ender) (tail : Bytes) (live : Bool) (x : Effects V) (v : ℕ)
      → let t = at (ender e ∷ tail) live x in
        Gives (λ f. parse_level vars f shift) (rank shift) s v t
        → length t.rest ≤ length s.rest
        → Gives (λ f. parse_level vars f bit_or_level) 18 s v t
  rise_shift s e tail live x v g le =
      let t = at (ender e ∷ tail) live x in
      rise_relational s e tail live x v
        (level_up vars relational s t v (shift-Operand s t v g) le
          (ender-Halts relational e tail live x))
        le

  rise_additive :
      (s : Evaluator V) (e : Ender) (tail : Bytes) (live : Bool) (x : Effects V) (v : ℕ)
      → let t = at (ender e ∷ tail) live x in
        Gives (λ f. parse_level vars f additive) (rank additive) s v t
        → length t.rest ≤ length s.rest
        → Gives (λ f. parse_level vars f bit_or_level) 18 s v t
  rise_additive s e tail live x v g le =
      let t = at (ender e ∷ tail) live x in
      rise_shift s e tail live x v
        (level_up vars shift s t v (additive-Operand s t v g) le (ender-Halts shift e tail live x))
        le

  rise_multiplicative :
      (s : Evaluator V) (e : Ender) (tail : Bytes) (live : Bool) (x : Effects V) (v : ℕ)
      → let t = at (ender e ∷ tail) live x in
        Gives (λ f. parse_level vars f multiplicative) (rank multiplicative) s v t
        → length t.rest ≤ length s.rest
        → Gives (λ f. parse_level vars f bit_or_level) 18 s v t
  rise_multiplicative s e tail live x v g le =
      let t = at (ender e ∷ tail) live x in
      rise_additive s e tail live x v
        (level_up vars additive s t v (multiplicative-Operand s t v g) le
          (ender-Halts additive e tail live x))
        le

  -- From a level to `parse_bit_or`, in front of an ender.
  pub rise :
      (l : Level) (s : Evaluator V) (e : Ender) (tail : Bytes) (live : Bool) (x : Effects V) (v : ℕ)
      → let t = at (ender e ∷ tail) live x in
        Gives (λ f. parse_level vars f l) (rank l) s v t
        → length t.rest ≤ length s.rest
        → Gives (λ f. parse_level vars f bit_or_level) 18 s v t
  rise bit_or_level = rise_bit_or
  rise bit_xor_level = rise_bit_xor
  rise bit_and_level = rise_bit_and
  rise equality = rise_equality
  rise relational = rise_relational
  rise shift = rise_shift
  rise additive = rise_additive
  rise multiplicative = rise_multiplicative

  -- From `parse_bit_or` to `parse_assignment`.
  pub to_assignment :
      (s : Evaluator V) (e : Ender) (tail : Bytes) (live : Bool) (x : Effects V) (v : ℕ)
      → (e ≢ question)
      → let t = at (ender e ∷ tail) live x in
        Gives (parse_logical_or vars) 22 s v t
        → target (skip_blanks s.rest) ≡ none
        → Gives (parse_assignment vars) 25 s v t
  unfolding consume skip_blanks
  to_assignment s closing tail live x v n g no_target =
      assignment_none vars s _ v no_target (conditional_stop vars s _ _ v g refl)
  to_assignment s colon tail live x v n g no_target =
      assignment_none vars s _ v no_target (conditional_stop vars s _ _ v g refl)
  to_assignment s comma tail live x v n g no_target =
      assignment_none vars s _ v no_target (conditional_stop vars s _ _ v g refl)
  to_assignment s question tail live x v n g no_target = absurd (n refl)

  pub to_logical_or :
      (s : Evaluator V) (e : Ender) (tail : Bytes) (live : Bool) (x : Effects V) (v : ℕ)
      → let t = at (ender e ∷ tail) live x in
        Gives (parse_logical_and vars) 20 s v t
        → length t.rest ≤ length s.rest
        → Gives (parse_logical_or vars) 22 s v t
  unfolding consume skip_blanks
  to_logical_or s e tail live x v g le =
      logical_or-Gives vars s _ _ v v g le (or_stop vars _ _ v (no_or e))
    where
      no_or :
          (e : Ender)
          → consume (codes "||") (at (ender e ∷ tail) live x) ≡ (false, at (ender e ∷ tail) live x)
      no_or closing = refl
      no_or colon = refl
      no_or question = refl
      no_or comma = refl

  pub to_logical_and :
      (s : Evaluator V) (e : Ender) (tail : Bytes) (live : Bool) (x : Effects V) (v : ℕ)
      → let t = at (ender e ∷ tail) live x in
        Gives (λ f. parse_level vars f bit_or_level) 18 s v t
        → length t.rest ≤ length s.rest
        → Gives (parse_logical_and vars) 20 s v t
  unfolding consume skip_blanks
  to_logical_and s e tail live x v g le =
      logical_and-Gives vars s _ _ v v g le (and_stop vars _ _ v (no_and e))
    where
      no_and :
          (e : Ender)
          → consume (codes "&&") (at (ender e ∷ tail) live x) ≡ (false, at (ender e ∷ tail) live x)
      no_and closing = refl
      no_and colon = refl
      no_and question = refl
      no_and comma = refl

  -- From `parse_assignment` to `parse_comma`, in front of a closing parenthesis.
  pub to_comma :
      (s : Evaluator V) (tail : Bytes) (live : Bool) (x : Effects V) (v : ℕ)
      → let t = at (ender closing ∷ tail) live x in
        Gives (parse_assignment vars) 25 s v t
        → length t.rest ≤ length s.rest
        → Gives (parse_comma vars) 27 s v t
  unfolding consume skip_blanks
  to_comma s tail live x v g le = comma-Gives vars s _ _ v v g le (comma_stop vars _ _ v refl)
