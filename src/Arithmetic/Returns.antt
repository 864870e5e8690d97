-- ===== src/Arithmetic/Returns.antt =====
-- The whole of an evaluation of src/runtime/arithmetic.cpp, and its operands that are skipped.
use lesh.Base.{
  ℕ, ◌+◌, ◌*◌, ◌^◌, ◌≤◌, ◌<◌, ◌≡◌, refl, Bool, true, false, Option, none, some, [], ◌∷◌, Bytes,
  length, ◌∙◌, if◌then◌else◌, arith,
}
use lesh.Arithmetic.State.{ArithmeticVariables, Evaluator, unexpected_character, skip_blanks}
use lesh.Arithmetic.Parser.{
  ArithmeticResult, bit_or_level, parse_comma, parse_conditional, parse_assignment,
  parse_logical_and, parse_level, finish, or_none, begin, evaluate,
}
use lesh.Arithmetic.Follows.{is_effect}
use lesh.Arithmetic.Steps.{InRange}
use lesh.Arithmetic.Done.{Done}
use lesh.Arithmetic.Total.{all-Ends}

-- A result, whose value is a word, and 0 with an error unless it is right.
abbrev pub IsResult : ArithmeticResult → Type 0
IsResult r =
    (r.value < 2 ^ 64)
    × (r.ok ≡ true → r.error ≡ none)
    × (r.ok ≡ false → (r.value ≡ 0) × (r.unset_name ≡ []))

module _ {V : Type 0} where
  finish-IsResult : (v : ℕ) (s : Evaluator V) → v < 2 ^ 64 → IsResult (finish (v, s)).0
  finish-IsResult v s h = go s.failed (skip_blanks s.rest)
    where
      go :
          (failed : Bool) (rest : Bytes)
          → IsResult (
              if failed
              then record {
                value = 0;
                ok = false;
                error = s.error;
                unset_name = [];
                assignment_refused = s.refused;
              }
              else elim rest [
                | [] ↦ record {
                  value = v;
                  ok = true;
                  error = none;
                  unset_name = s.unset_name;
                  assignment_refused = false;
                }
                | c ∷ text ↦ record {
                  value = 0;
                  ok = false;
                  error = some unexpected_character;
                  unset_name = [];
                  assignment_refused = false;
                }
              ])
      go true rest = (omega arith, λ e. ground arith, λ e. (refl, refl))
      go false [] = (h, λ e. refl, λ e. ground arith)
      go false (c ∷ text) = (omega arith, λ e. ground arith, λ e. (refl, refl))

  -- Nothing is done but to read on: no assignment, no name found unset, no error of evaluating.
  abbrev pub Skipped : Evaluator V → Option (ℕ × Evaluator V) → Type 0
  Skipped s none = ⊥
  Skipped s (some (v, s')) =
      (length s'.rest ≤ length s.rest)
      × (s'.live ≡ false)
      × (s'.vars ≡ s.vars)
      × (s'.unset_name ≡ s.unset_name)
      × (s'.refused ≡ s.refused)
      × (is_effect s'.error ≡ true → is_effect s.error ≡ true)

  Done-Skipped :
      (s : Evaluator V) (r : Option (ℕ × Evaluator V)) → s.live ≡ false → Done s r → Skipped s r
  Done-Skipped s none h d = d
  Done-Skipped s (some (v, s')) h d =
      let (a, b, c, e) = d.follows.quiet h in
      (d.follows.shorter, d.follows.live_kept ∙ h, a, b, c, e)

module _ {V : Type 0} (vars : ArithmeticVariables V) where
  -- Over variables that hold words every text has a result.
  pub evaluate_total :
      InRange vars
      → (text : Bytes) (held : V)
      → (r : ArithmeticResult) × (held' : V) × (evaluate vars text held ≡ some (r, held'))
        × IsResult r
  unfolding evaluate
  evaluate_total range text held =
      go (parse_comma vars (32 * length text + 27) (begin text held))
        ((all-Ends vars range (32 * length text + 27)).comma (begin text held) (omega arith))
    where
      go :
          (m : Option (ℕ × Evaluator V))
          → Done (begin text held) m
          → (r : ArithmeticResult) × (held' : V) × (or_none m ≡ some (r, held')) × IsResult r
      go none d = elim d [ ]
      go (some (v, s)) d = ((finish (v, s)).0, s.vars, refl, finish-IsResult v s d.value_lt)

  -- With enough fuel every operand that may be skipped (the branches of a conditional, the right side of
  -- `||` and of `&&`) ends where it is skipped, with no effect.
  pub operands-Skipped :
      InRange vars
      → (f : ℕ) (s : Evaluator V) → s.live ≡ false
      → 32 * length s.rest + 25 ≤ f
      → Skipped s (parse_assignment vars f s)
        × Skipped s (parse_conditional vars f s)
        × Skipped s (parse_logical_and vars f s)
        × Skipped s (parse_level vars f bit_or_level s)
  operands-Skipped range f s h n =
      let ends = all-Ends vars range f in
      (
        Done-Skipped s _ h (ends.assignment s n),
        Done-Skipped s _ h (ends.conditional s (omega (arith, n))),
        Done-Skipped s _ h (ends.logical_and s (omega (arith, n))),
        Done-Skipped s _ h (ends.level bit_or_level s (omega (arith, n))),
      )
