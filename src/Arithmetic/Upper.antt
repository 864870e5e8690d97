-- ===== src/Arithmetic/Upper.antt =====
-- The parts of the parser of src/runtime/arithmetic.cpp above the binary operators end where their parts do.
use lesh.Base.{
  ℕ, suc, ◌+◌, ◌*◌, ◌^◌, ◌≤◌, ◌<◌, inl, inr, refl, Bool, true, false, not, ◌&&◌, ◌||◌, some, [],
  ◌∷◌, length, ◌==◌, if◌then◌else◌, arith, Option-cases, codes,
}
use lesh.Arithmetic.Words.{truth}
use lesh.Arithmetic.State.{ArithmeticVariables, Evaluator, with_live, expected_colon, skip_blanks}
use lesh.Arithmetic.Parser.{
  pure, found, failing, ◌>>=◌, bit_or_level, target, assign, parse_comma, comma_loop,
  parse_assignment, parse_conditional, parse_branches, parse_otherwise, parse_logical_or,
  logical_or_loop, parse_logical_and, logical_and_loop, parse_level,
}
use lesh.Arithmetic.Follows.{
  skip_blanks-le, Follows-trans, moved, restored, fail-Follows, truth-lt, assign-Follows,
}
use lesh.Arithmetic.Steps.{InRange, target-lt, assign-lt}
use lesh.Arithmetic.Done.{Done, Done-from, Done-bind, Done-found}
use lesh.Arithmetic.Ends.{Ends}

module _ {V : Type 0} (vars : ArithmeticVariables V) where
  module _ (in_range : InRange vars) (f : ℕ) (e : Ends vars f) where
    pub comma-suc :
        (s : Evaluator V) → 32 * length s.rest + 27 ≤ suc f → Done s (parse_comma vars (suc f) s)
    unfolding parse_comma
    comma-suc s n =
        Done-bind s s (parse_assignment vars f) (comma_loop vars f)
          (e.assignment s (omega (arith, n)))
          (λ v u lt h. Done-from s u _ h (e.comma_more v u lt (omega (arith, n, h.shorter))))

    pub comma_more-suc :
        (v : ℕ) (s : Evaluator V)
        → v < 2 ^ 64
        → 32 * length s.rest + 1 ≤ suc f
        → Done s (comma_loop vars (suc f) v s)
    unfolding comma_loop
    comma_more-suc v s lt n =
        Done-found b',' [] s
          (λ more. elim more [
            | true ↦ parse_assignment vars f >>= comma_loop vars f
            | false ↦ pure v
          ])
          (λ text k.
            let t = record s { rest = text } in
            Done-bind s t (parse_assignment vars f) (comma_loop vars f)
              (e.assignment t (omega (arith, n, k)))
              (λ v' u lt' h.
                Done-from s u _ (Follows-trans s t u (moved s text (omega (arith, k))) h)
                  (e.comma_more v' u lt' (omega (arith, n, k, h.shorter)))))
          (λ text k. record { value_lt = lt; follows = moved s text k })

    pub assignment-suc :
        (s : Evaluator V)
        → 32 * length s.rest + 25 ≤ suc f
        → Done s (parse_assignment vars (suc f) s)
    unfolding parse_assignment
    assignment-suc s n = elim (Option-cases (target (skip_blanks s.rest))) [
      | inl no_target ↦ rw (no_target, parse_assignment) (e.conditional s (omega (arith, n)))
      | inr (t, is_target) ↦
          let behind = record s { rest = t.behind } in
          let k : length t.behind < length s.rest =
            omega (arith, target-lt s.rest t is_target, skip_blanks-le s.rest) in
          rw (is_target, parse_assignment)
            (Done-bind s behind (parse_assignment vars f) (λ rhs u. some (assign vars t rhs u))
              (e.assignment behind (omega (arith, n, k)))
              (λ v u lt h. record {
                value_lt = assign-lt vars t v u lt;
                follows =
                    Follows-trans s behind _ (moved s t.behind (omega (arith, k)))
                      (Follows-trans behind u _ h (assign-Follows vars t v u));
              }))
    ]

    pub conditional-suc :
        (s : Evaluator V)
        → 32 * length s.rest + 24 ≤ suc f
        → Done s (parse_conditional vars (suc f) s)
    unfolding parse_conditional
    conditional-suc s n =
        Done-bind s s (parse_logical_or vars f)
          (λ c. found (codes "?") >>= λ chosen. elim chosen [
            | true ↦ parse_branches vars f c
            | false ↦ pure c
          ])
          (e.logical_or s (omega (arith, n)))
          (λ c u lt h. Done-from s u _ h (
            Done-found b'?' [] u
              (λ chosen. elim chosen [ true ↦ parse_branches vars f c | false ↦ pure c ])
              (λ text k.
                Done-from u (record u { rest = text }) _ (moved u text (omega (arith, k)))
                  (e.branches c (record u { rest = text }) (omega (arith, n, k, h.shorter))))
              (λ text k. record { value_lt = lt; follows = moved u text k })))

    pub branches-suc :
        (c : ℕ) (s : Evaluator V)
        → 32 * length s.rest + 28 ≤ suc f
        → Done s (parse_branches vars (suc f) c s)
    unfolding parse_branches
    branches-suc c s n =
        let t = with_live (s.live && not (c == 0)) s in
        Done-bind s t (parse_assignment vars f)
          (λ v u. parse_otherwise vars f c s.live v (with_live s.live u))
          (e.assignment t (omega (arith, n)))
          (λ v u lt h.
            let u' = with_live s.live u in
            let h' = restored s u (not (c == 0)) h in
            Done-from s u' _ h' (e.otherwise c v u' lt (omega (arith, n, h'.shorter))))

    pub otherwise-suc :
        (c v : ℕ) (s : Evaluator V)
        → v < 2 ^ 64
        → 32 * length s.rest + 26 ≤ suc f
        → Done s (parse_otherwise vars (suc f) c s.live v s)
    unfolding parse_otherwise
    otherwise-suc c v s lt n =
        Done-found b':' [] s
          (λ colon. elim colon [
            | true ↦ λ s'.
                (parse_conditional vars f >>= λ v' u.
                some (if c == 0 then v' else v, with_live s.live u))
                  (with_live (s.live && c == 0) s')
            | false ↦ failing expected_colon
          ])
          (λ text k.
            let m = record s { rest = text } in
            let t = with_live (s.live && c == 0) m in
            Done-bind s t (parse_conditional vars f)
              (λ v' u. some (if c == 0 then v' else v, with_live s.live u))
              (e.conditional t (omega (arith, n, k)))
              (λ v' u lt' h. record {
                value_lt = if-lt (c == 0) v' v lt' lt;
                follows =
                    Follows-trans s m _ (moved s text (omega (arith, k))) (restored m u (c == 0) h);
              }))
          (λ text k. record {
            value_lt = omega arith;
            follows =
                Follows-trans s (record s { rest = text }) _ (moved s text k)
                  (fail-Follows expected_colon _ (λ _. refl));
          })
      where
        if-lt : (b : Bool) (m n : ℕ) → m < 2 ^ 64 → n < 2 ^ 64 → (if b then m else n) < 2 ^ 64
        if-lt true m n h k = h
        if-lt false m n h k = k

    pub logical_or-suc :
        (s : Evaluator V)
        → 32 * length s.rest + 22 ≤ suc f
        → Done s (parse_logical_or vars (suc f) s)
    unfolding parse_logical_or
    logical_or-suc s n =
        Done-bind s s (parse_logical_and vars f) (logical_or_loop vars f)
          (e.logical_and s (omega (arith, n)))
          (λ v u lt h. Done-from s u _ h (e.or_more v u lt (omega (arith, n, h.shorter))))

    pub or_more-suc :
        (v : ℕ) (s : Evaluator V)
        → v < 2 ^ 64
        → 32 * length s.rest + 1 ≤ suc f
        → Done s (logical_or_loop vars (suc f) v s)
    unfolding logical_or_loop
    or_more-suc v s lt n =
        Done-found b'|' (b'|' ∷ []) s
          (λ more. elim more [
            | true ↦ λ s'.
                (parse_logical_and vars f >>= λ rhs u.
                logical_or_loop vars f (truth (not (v == 0) || not (rhs == 0)))
                  (with_live s'.live u))
                  (with_live (s'.live && v == 0) s')
            | false ↦ pure v
          ])
          (λ text k.
            let m = record s { rest = text } in
            let t = with_live (s.live && v == 0) m in
            Done-bind s t (parse_logical_and vars f)
              (λ rhs u.
                logical_or_loop vars f (truth (not (v == 0) || not (rhs == 0)))
                  (with_live s.live u))
              (e.logical_and t (omega (arith, n, k)))
              (λ rhs u lt' h.
                let u' = with_live s.live u in
                let h' =
                  Follows-trans s m u' (moved s text (omega (arith, k)))
                    (restored m u (v == 0) h) in
                Done-from s u' _ h' (
                  e.or_more (truth (not (v == 0) || not (rhs == 0))) u' (truth-lt _)
                    (omega (arith, n, k, h.shorter)))))
          (λ text k. record { value_lt = lt; follows = moved s text k })

    pub logical_and-suc :
        (s : Evaluator V)
        → 32 * length s.rest + 20 ≤ suc f
        → Done s (parse_logical_and vars (suc f) s)
    unfolding parse_logical_and
    logical_and-suc s n =
        Done-bind s s (parse_level vars f bit_or_level) (logical_and_loop vars f)
          (e.level bit_or_level s (omega (arith, n)))
          (λ v u lt h. Done-from s u _ h (e.and_more v u lt (omega (arith, n, h.shorter))))

    pub and_more-suc :
        (v : ℕ) (s : Evaluator V)
        → v < 2 ^ 64
        → 32 * length s.rest + 1 ≤ suc f
        → Done s (logical_and_loop vars (suc f) v s)
    unfolding logical_and_loop
    and_more-suc v s lt n =
        Done-found b'&' (b'&' ∷ []) s
          (λ more. elim more [
            | true ↦ λ s'.
                (parse_level vars f bit_or_level >>= λ rhs u.
                logical_and_loop vars f (truth (not (v == 0) && not (rhs == 0)))
                  (with_live s'.live u))
                  (with_live (s'.live && not (v == 0)) s')
            | false ↦ pure v
          ])
          (λ text k.
            let m = record s { rest = text } in
            let t = with_live (s.live && not (v == 0)) m in
            Done-bind s t (parse_level vars f bit_or_level)
              (λ rhs u.
                logical_and_loop vars f (truth (not (v == 0) && not (rhs == 0)))
                  (with_live s.live u))
              (e.level bit_or_level t (omega (arith, n, k)))
              (λ rhs u lt' h.
                let u' = with_live s.live u in
                let h' =
                  Follows-trans s m u' (moved s text (omega (arith, k)))
                    (restored m u (not (v == 0)) h) in
                Done-from s u' _ h' (
                  e.and_more (truth (not (v == 0) && not (rhs == 0))) u' (truth-lt _)
                    (omega (arith, n, k, h.shorter)))))
          (λ text k. record { value_lt = lt; follows = moved s text k })
