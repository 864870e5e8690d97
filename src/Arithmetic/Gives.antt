-- ===== src/Arithmetic/Gives.antt =====
-- Runs of the parts of the parser of src/runtime/arithmetic.cpp, put together from runs of their parts.
use lesh.Base.{
  ℕ, zero, suc, ◌+◌, ◌*◌, ◌≤◌, ◌<◌, ◌≡◌, refl, ◌∙◌, Bool, true, false, not, ◌&&◌, ◌||◌, Option,
  none, some, List, Bytes, length, ◌==◌, if◌then◌else◌, arith, codes,
}
use lesh.Arithmetic.Words.{truth}
use lesh.Arithmetic.State.{
  ArithmeticVariables, Evaluator, expected_colon, consume, with_live, skip_blanks,
}
use lesh.Arithmetic.Parser.{
  Parse, pure, failing, ◌>>=◌, found, find_operator, bit_or_level, Target, target, assign,
  parse_comma, comma_loop, parse_assignment, parse_conditional, parse_branches, parse_otherwise,
  parse_logical_or, logical_or_loop, parse_logical_and, logical_and_loop, parse_level,
}

module _ {V : Type 0} where
  -- With fuel for what is left and for `r` calls, a part gives `v` and leaves `t`.
  abbrev pub Gives : (ℕ → Parse V ℕ) → ℕ → Evaluator V → ℕ → Evaluator V → Type 0
  Gives m r s v t = (f : ℕ) → 32 * length s.rest + r ≤ f → m f s ≡ some (v, t)

module _ {V A B : Type 0} where
  pub bind-run :
      (m : Parse V A) (k : A → Parse V B) (s t : Evaluator V) (v : A)
      → m s ≡ some (v, t)
      → (m >>= k) s ≡ k v t
  bind-run m k s t v e = rw (e, ◌>>=◌) refl

module _ {V B : Type 0} where
  pub found-run :
      (op : Bytes) (k : Bool → Parse V B) (s t : Evaluator V) (there : Bool)
      → consume op s ≡ (there, t)
      → (found op >>= k) s ≡ k there t
  found-run op k s t there e = rw e refl

  pub find-run :
      {A : Type 0} (ops : List (Bytes × A)) (k : Option A → Parse V B) (s t : Evaluator V)
      (which : Option A)
      → find_operator ops s ≡ (which, t)
      → ((λ u. some (find_operator ops u)) >>= k) s ≡ k which t
  find-run ops k s t which e = rw e refl

module _ {V : Type 0} (vars : ArithmeticVariables V) where
  -- What the parser does behind the operator that it looks for.
  abbrev after_comma : ℕ → ℕ → Bool → Parse V ℕ
  after_comma f v more = elim more [
    | true ↦ parse_assignment vars f >>= comma_loop vars f
    | false ↦ pure v
  ]

  abbrev after_condition : ℕ → ℕ → Bool → Parse V ℕ
  after_condition f c chosen = elim chosen [ true ↦ parse_branches vars f c | false ↦ pure c ]

  abbrev after_colon : ℕ → ℕ → Bool → ℕ → Bool → Parse V ℕ
  after_colon f c live a colon = elim colon [
    | true ↦ λ s.
        (parse_conditional vars f >>= λ b s'. some (if c == 0 then b else a, with_live live s'))
          (with_live (live && c == 0) s)
    | false ↦ failing expected_colon
  ]

  abbrev after_or : ℕ → ℕ → Bool → Parse V ℕ
  after_or f v more = elim more [
    | true ↦ λ s.
        (parse_logical_and vars f >>= λ rhs u.
        logical_or_loop vars f (truth (not (v == 0) || not (rhs == 0))) (with_live s.live u))
          (with_live (s.live && v == 0) s)
    | false ↦ pure v
  ]

  abbrev after_and : ℕ → ℕ → Bool → Parse V ℕ
  after_and f v more = elim more [
    | true ↦ λ s.
        (parse_level vars f bit_or_level >>= λ rhs u.
        logical_and_loop vars f (truth (not (v == 0) && not (rhs == 0))) (with_live s.live u))
          (with_live (s.live && not (v == 0)) s)
    | false ↦ pure v
  ]

  pub comma_stop :
      (s t : Evaluator V) (v : ℕ)
      → consume (codes ",") s ≡ (false, t)
      → Gives (λ f. comma_loop vars f v) 1 s v t
  unfolding comma_loop
  comma_stop s t v e zero n = absurd (omega (arith, n))
  comma_stop s t v e (suc f) n = found-run (codes ",") (after_comma f v) s t false e

  pub comma_take :
      (s t u w : Evaluator V) (v x : ℕ)
      → consume (codes ",") s ≡ (true, t)
      → length t.rest < length s.rest
      → Gives (parse_assignment vars) 25 t x u
      → consume (codes ",") u ≡ (false, w)
      → length u.rest < length s.rest
      → Gives (λ f. comma_loop vars f v) 1 s x w
  unfolding comma_loop
  comma_take s t u w v x e lt g e' lt' zero n = absurd (omega (arith, n))
  comma_take s t u w v x e lt g e' lt' (suc f) n =
      found-run (codes ",") (after_comma f v) s t true e
      ∙ bind-run (parse_assignment vars f) (comma_loop vars f) t u x (g f (omega (arith, n, lt)))
      ∙ comma_stop u w x e' f (omega (arith, n, lt'))

  pub comma-Gives :
      (s t u : Evaluator V) (v x : ℕ)
      → Gives (parse_assignment vars) 25 s v t
      → length t.rest ≤ length s.rest
      → Gives (λ f. comma_loop vars f v) 1 t x u
      → Gives (parse_comma vars) 27 s x u
  unfolding parse_comma
  comma-Gives s t u v x g le g' zero n = absurd (omega (arith, n))
  comma-Gives s t u v x g le g' (suc f) n =
      bind-run (parse_assignment vars f) (comma_loop vars f) s t v (g f (omega (arith, n)))
      ∙ g' f (omega (arith, n, le))

  pub assignment_none :
      (s t : Evaluator V) (v : ℕ)
      → target (skip_blanks s.rest) ≡ none
      → Gives (parse_conditional vars) 24 s v t
      → Gives (parse_assignment vars) 25 s v t
  unfolding parse_assignment
  assignment_none s t v e g zero n = absurd (omega (arith, n))
  assignment_none s t v e g (suc f) n = rw (e, parse_assignment) (g f (omega (arith, n)))

  pub assignment_some :
      (s t : Evaluator V) (v : ℕ) (to : Target)
      → target (skip_blanks s.rest) ≡ some to
      → length to.behind < length s.rest
      → Gives (parse_assignment vars) 25 (record s { rest = to.behind }) v t
      → Gives (parse_assignment vars) 25 s (assign vars to v t).0 (assign vars to v t).1
  unfolding parse_assignment
  assignment_some s t v to e lt g zero n = absurd (omega (arith, n))
  assignment_some s t v to e lt g (suc f) n =
      rw (e, parse_assignment)
        (bind-run (parse_assignment vars f) (λ rhs u. some (assign vars to rhs u))
          (record s { rest = to.behind }) t v (g f (omega (arith, n, lt))))

  pub conditional_stop :
      (s t u : Evaluator V) (v : ℕ)
      → Gives (parse_logical_or vars) 22 s v t
      → consume (codes "?") t ≡ (false, u)
      → Gives (parse_conditional vars) 24 s v u
  unfolding parse_conditional
  conditional_stop s t u v g e zero n = absurd (omega (arith, n))
  conditional_stop s t u v g e (suc f) n =
      bind-run (parse_logical_or vars f) (λ c. found (codes "?") >>= after_condition f c) s t v
        (g f (omega (arith, n)))
      ∙ found-run (codes "?") (after_condition f v) t u false e

  pub conditional_take :
      (s t u w x y : Evaluator V) (c a b : ℕ)
      → Gives (parse_logical_or vars) 22 s c t
      → consume (codes "?") t ≡ (true, u)
      → length u.rest < length s.rest
      → Gives (parse_assignment vars) 25 (with_live (u.live && not (c == 0)) u) a w
      → length w.rest ≤ length u.rest
      → consume (codes ":") (with_live u.live w) ≡ (true, x)
      → length x.rest < length w.rest
      → Gives (parse_conditional vars) 24 (with_live (u.live && c == 0) x) b y
      → Gives (parse_conditional vars) 24 s (if c == 0 then b else a) (with_live u.live y)
  unfolding parse_conditional parse_branches parse_otherwise
  conditional_take s t u w x y c a b g e lt g' le e' lt' g'' zero n = absurd (omega (arith, n))
  conditional_take s t u w x y c a b g e lt g' le e' lt' g'' (suc zero) n =
      absurd (omega (arith, n))
  conditional_take s t u w x y c a b g e lt g' le e' lt' g'' (suc (suc zero)) n =
      absurd (omega (arith, n))
  conditional_take s t u w x y c a b g e lt g' le e' lt' g'' (suc (suc (suc f))) n =
      bind-run (parse_logical_or vars (suc (suc f)))
        (λ c. found (codes "?") >>= after_condition (suc (suc f)) c) s t c
        (g (suc (suc f)) (omega (arith, n)))
      ∙ found-run (codes "?") (after_condition (suc (suc f)) c) t u true e
      ∙ bind-run (parse_assignment vars (suc f))
          (λ a w. parse_otherwise vars (suc f) c u.live a (with_live u.live w))
          (with_live (u.live && not (c == 0)) u) w a (g' (suc f) (omega (arith, n, lt)))
      ∙ found-run (codes ":") (after_colon f c u.live a) (with_live u.live w) x true e'
      ∙ bind-run (parse_conditional vars f)
          (λ b y. some (if c == 0 then b else a, with_live u.live y))
          (with_live (u.live && c == 0) x) y b (g'' f (omega (arith, n, lt, le, lt')))

  pub or_stop :
      (s t : Evaluator V) (v : ℕ)
      → consume (codes "||") s ≡ (false, t)
      → Gives (λ f. logical_or_loop vars f v) 1 s v t
  unfolding logical_or_loop
  or_stop s t v e zero n = absurd (omega (arith, n))
  or_stop s t v e (suc f) n = found-run (codes "||") (after_or f v) s t false e

  pub or_take :
      (s t u w : Evaluator V) (v x : ℕ)
      → consume (codes "||") s ≡ (true, t)
      → length t.rest < length s.rest
      → Gives (parse_logical_and vars) 20 (with_live (t.live && v == 0) t) x u
      → length u.rest < length s.rest
      → consume (codes "||") (with_live t.live u) ≡ (false, w)
      → Gives (λ f. logical_or_loop vars f v) 1 s (truth (not (v == 0) || not (x == 0))) w
  unfolding logical_or_loop
  or_take s t u w v x e lt g lt' e' zero n = absurd (omega (arith, n))
  or_take s t u w v x e lt g lt' e' (suc f) n =
      found-run (codes "||") (after_or f v) s t true e
      ∙ bind-run (parse_logical_and vars f)
          (λ x u.
            logical_or_loop vars f (truth (not (v == 0) || not (x == 0))) (with_live t.live u))
          (with_live (t.live && v == 0) t) u x (g f (omega (arith, n, lt)))
      ∙ or_stop (with_live t.live u) w (truth (not (v == 0) || not (x == 0))) e' f
          (omega (arith, n, lt'))

  pub logical_or-Gives :
      (s t u : Evaluator V) (v x : ℕ)
      → Gives (parse_logical_and vars) 20 s v t
      → length t.rest ≤ length s.rest
      → Gives (λ f. logical_or_loop vars f v) 1 t x u
      → Gives (parse_logical_or vars) 22 s x u
  unfolding parse_logical_or
  logical_or-Gives s t u v x g le g' zero n = absurd (omega (arith, n))
  logical_or-Gives s t u v x g le g' (suc f) n =
      bind-run (parse_logical_and vars f) (logical_or_loop vars f) s t v (g f (omega (arith, n)))
      ∙ g' f (omega (arith, n, le))

  pub and_stop :
      (s t : Evaluator V) (v : ℕ)
      → consume (codes "&&") s ≡ (false, t)
      → Gives (λ f. logical_and_loop vars f v) 1 s v t
  unfolding logical_and_loop
  and_stop s t v e zero n = absurd (omega (arith, n))
  and_stop s t v e (suc f) n = found-run (codes "&&") (after_and f v) s t false e

  pub and_take :
      (s t u w : Evaluator V) (v x : ℕ)
      → consume (codes "&&") s ≡ (true, t)
      → length t.rest < length s.rest
      → Gives (λ f. parse_level vars f bit_or_level) 18 (with_live (t.live && not (v == 0)) t) x u
      → length u.rest < length s.rest
      → consume (codes "&&") (with_live t.live u) ≡ (false, w)
      → Gives (λ f. logical_and_loop vars f v) 1 s (truth (not (v == 0) && not (x == 0))) w
  unfolding logical_and_loop
  and_take s t u w v x e lt g lt' e' zero n = absurd (omega (arith, n))
  and_take s t u w v x e lt g lt' e' (suc f) n =
      found-run (codes "&&") (after_and f v) s t true e
      ∙ bind-run (parse_level vars f bit_or_level)
          (λ x u.
            logical_and_loop vars f (truth (not (v == 0) && not (x == 0))) (with_live t.live u))
          (with_live (t.live && not (v == 0)) t) u x (g f (omega (arith, n, lt)))
      ∙ and_stop (with_live t.live u) w (truth (not (v == 0) && not (x == 0))) e' f
          (omega (arith, n, lt'))

  pub logical_and-Gives :
      (s t u : Evaluator V) (v x : ℕ)
      → Gives (λ f. parse_level vars f bit_or_level) 18 s v t
      → length t.rest ≤ length s.rest
      → Gives (λ f. logical_and_loop vars f v) 1 t x u
      → Gives (parse_logical_and vars) 20 s x u
  unfolding parse_logical_and
  logical_and-Gives s t u v x g le g' zero n = absurd (omega (arith, n))
  logical_and-Gives s t u v x g le g' (suc f) n =
      bind-run (parse_level vars f bit_or_level) (logical_and_loop vars f) s t v
        (g f (omega (arith, n)))
      ∙ g' f (omega (arith, n, le))
