-- ===== src/Arithmetic/Operands.antt =====
-- Runs of the levels of binary operators of src/runtime/arithmetic.cpp and of what is below them.
use lesh.Base.{
  ℕ, zero, suc, ◌+◌, ◌*◌, ◌≤◌, ◌<◌, ◌≡◌, refl, ◌∙◌, Bool, true, false, Option, none, some, length,
  arith, codes,
}
use lesh.Arithmetic.Words.{Operator}
use lesh.Arithmetic.State.{ArithmeticVariables, Evaluator, expected_paren, fail, consume}
use lesh.Arithmetic.Parser.{
  Parse, pure, ◌>>=◌, found, find_operator, Level, operators, Unary, unary_operators, apply_unary,
  apply_operator, parse_comma, parse_level, parse_operand, level_loop, parse_unary, parse_primary,
  parse_atom,
}
use lesh.Arithmetic.Done.{rank, rank_bounds}
use lesh.Arithmetic.Gives.{Gives, bind-run, found-run, find-run}

module _ {V : Type 0} (vars : ArithmeticVariables V) where
  abbrev go_on : ℕ → Level → (Bool × ℕ) × Evaluator V → Option (ℕ × Evaluator V)
  go_on f l ((abandoned, result), s) = elim abandoned [
    | true ↦ some (0, s)
    | false ↦ level_loop vars f l result s
  ]

  abbrev after_level : ℕ → Level → ℕ → Option Operator → Parse V ℕ
  after_level f l v which = elim which [
    | none ↦ pure v
    | some op ↦ parse_operand vars f l >>= λ b s. go_on f l (apply_operator op v b s)
  ]

  abbrev after_unary : ℕ → Option Unary → Parse V ℕ
  after_unary f which = elim which [
    | none ↦ parse_primary vars f
    | some op ↦ parse_unary vars f >>= λ v s. some (apply_unary op v, s)
  ]

  abbrev after_group : ℕ → Bool → Parse V ℕ
  after_group v closed t = some (v, elim closed [ true ↦ t | false ↦ fail expected_paren t ])

  abbrev after_paren : ℕ → Bool → Parse V ℕ
  after_paren f grouped = elim grouped [
    | true ↦ parse_comma vars f >>= λ v. found (codes ")") >>= after_group v
    | false ↦ parse_atom vars
  ]

  pub level_stop :
      (l : Level) (s t : Evaluator V) (v : ℕ)
      → find_operator (operators l) s ≡ (none, t)
      → Gives (λ f. level_loop vars f l v) 1 s v t
  unfolding level_loop
  level_stop l s t v e zero n = absurd (omega (arith, n))
  level_stop l s t v e (suc f) n = find-run (operators l) (after_level f l v) s t none e

  gone_on :
      (l : Level) (f : ℕ) (r : (Bool × ℕ) × Evaluator V)
      → find_operator (operators l) r.1 ≡ (none, r.1)
      → (r.0.0 ≡ true → r.0.1 ≡ 0)
      → 32 * length r.1.rest + 1 ≤ f
      → go_on f l r ≡ some (r.0.1, r.1)
  gone_on l f ((true, v), s) e z n = rw (z refl) refl
  gone_on l f ((false, v), s) e z n = level_stop l s s v e f n

  -- A part that an operator's operand is read by has fuel for one call more.
  abbrev pub Operand : Level → Evaluator V → ℕ → Evaluator V → Type 0
  Operand l s v t =
      (f : ℕ) → 32 * length s.rest + rank l ≤ f + 1 → parse_operand vars f l s ≡ some (v, t)

  pub level_take :
      (l : Level) (op : Operator) (s t u : Evaluator V) (v x : ℕ)
      → find_operator (operators l) s ≡ (some op, t)
      → length t.rest < length s.rest
      → Operand l t x u
      → length u.rest < length s.rest
      → find_operator (operators l) (apply_operator op v x u).1
        ≡ (none, (apply_operator op v x u).1)
      → length (apply_operator op v x u).1.rest ≤ length u.rest
      → ((apply_operator op v x u).0.0 ≡ true → (apply_operator op v x u).0.1 ≡ 0)
      → Gives
          (λ f. level_loop vars f l v)
          1
          s
          (apply_operator op v x u).0.1
          (apply_operator op v x u).1
  unfolding level_loop
  level_take l op s t u v x e lt g lt' e' le z zero n = absurd (omega (arith, n))
  level_take l op s t u v x e lt g lt' e' le z (suc f) n =
      find-run (operators l) (after_level f l v) s t (some op) e
      ∙ bind-run (parse_operand vars f l) (λ b s. go_on f l (apply_operator op v b s)) t u x
          (g f (omega (arith, n, lt, rank_bounds l)))
      ∙ gone_on l f (apply_operator op v x u) e' z (omega (arith, n, lt', le))

  pub level-Gives :
      (l : Level) (s t u : Evaluator V) (v x : ℕ)
      → Operand l s v t
      → length t.rest ≤ length s.rest
      → Gives (λ f. level_loop vars f l v) 1 t x u
      → Gives (λ f. parse_level vars f l) (rank l) s x u
  unfolding parse_level
  level-Gives l s t u v x g le g' zero n = absurd (omega (arith, n, rank_bounds l))
  level-Gives l s t u v x g le g' (suc f) n =
      bind-run (parse_operand vars f l) (level_loop vars f l) s t v (g f (omega (arith, n)))
      ∙ g' f (omega (arith, n, le, rank_bounds l))

  pub unary_none :
      (s t u : Evaluator V) (v : ℕ)
      → find_operator unary_operators s ≡ (none, t)
      → length t.rest ≤ length s.rest
      → Gives (parse_primary vars) 1 t v u
      → Gives (parse_unary vars) 2 s v u
  unfolding parse_unary
  unary_none s t u v e le g zero n = absurd (omega (arith, n))
  unary_none s t u v e le g (suc f) n =
      find-run unary_operators (after_unary f) s t none e ∙ g f (omega (arith, n, le))

  pub unary_some :
      (op : Unary) (s t u : Evaluator V) (v : ℕ)
      → find_operator unary_operators s ≡ (some op, t)
      → length t.rest < length s.rest
      → Gives (parse_unary vars) 2 t v u
      → Gives (parse_unary vars) 2 s (apply_unary op v) u
  unfolding parse_unary
  unary_some op s t u v e lt g zero n = absurd (omega (arith, n))
  unary_some op s t u v e lt g (suc f) n =
      find-run unary_operators (after_unary f) s t (some op) e
      ∙ bind-run (parse_unary vars f) (λ v s. some (apply_unary op v, s)) t u v
          (g f (omega (arith, n, lt)))

  pub primary_atom :
      (s t u : Evaluator V) (v : ℕ)
      → consume (codes "(") s ≡ (false, t)
      → parse_atom vars t ≡ some (v, u)
      → Gives (parse_primary vars) 1 s v u
  unfolding parse_primary
  primary_atom s t u v e g zero n = absurd (omega (arith, n))
  primary_atom s t u v e g (suc f) n = found-run (codes "(") (after_paren f) s t false e ∙ g

  pub primary_group :
      (s t u w : Evaluator V) (v : ℕ)
      → consume (codes "(") s ≡ (true, t)
      → length t.rest < length s.rest
      → Gives (parse_comma vars) 27 t v u
      → consume (codes ")") u ≡ (true, w)
      → Gives (parse_primary vars) 1 s v w
  unfolding parse_primary
  primary_group s t u w v e lt g e' zero n = absurd (omega (arith, n))
  primary_group s t u w v e lt g e' (suc f) n =
      found-run (codes "(") (after_paren f) s t true e
      ∙ bind-run (parse_comma vars f) (λ v. found (codes ")") >>= after_group v) t u v
          (g f (omega (arith, n, lt)))
      ∙ found-run (codes ")") (after_group v) u w true e'
