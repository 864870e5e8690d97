-- ===== src/Arithmetic/Printed.antt =====
-- Every tree in parentheses, read by src/runtime/arithmetic.cpp, has the value and the effects that it
-- means, and none where it is skipped.
use lesh.Base.{
  ℕ, ◌≤◌, ◌≡◌, refl, subst, Bool, not, ◌&&◌, ◌||◌, none, some, ◌∷◌, ◌++◌, Bytes, length,
  length-append, min, ◌==◌, if◌then◌else◌, arith,
}
use lesh.Numeric.Digits.{leading, number}
use lesh.Arithmetic.Words.{Operator, truth}
use lesh.Arithmetic.State.{ArithmeticVariables, consume, skip_blanks, read_variable}
use lesh.Arithmetic.Parser.{
  Target, assign, apply_operator, parse_assignment, parse_atom, level_loop, Unary, apply_unary,
}
use lesh.Arithmetic.Trees.{
  Tree, literal, variable, assigned, updated, choice, either, both, sequence, binary, unary,
  Compound, operator_of, symbol, level_of, unary_symbol, inner, print, IsPrintable, Effects, at,
  meaning,
}
use lesh.Arithmetic.Gives.{
  Gives, assignment_none, assignment_some, conditional_take, or_take, logical_or-Gives, and_stop,
  and_take, logical_and-Gives, comma_take, comma-Gives,
}
use lesh.Arithmetic.Operands.{unary_some, level_take, level-Gives}
use lesh.Arithmetic.Enders.{closing, colon, question, comma, ender-Halts, ender-HaltsBelow}
use lesh.Arithmetic.Rise.{rise, to_assignment, to_logical_or, to_logical_and}
use lesh.Arithmetic.Atoms.{
  IsPlain, starts_name-IsPlain, skip_blanks-plain, target-read, target-assigned, target-updated,
  target-none, parse_atom-literal, parse_atom-name,
}
use lesh.Arithmetic.Doing.{apply_abandoned}
use lesh.Arithmetic.Did.{
  Did, choice-Did, either-Did, both-Did, sequence-Did, unary-Did, binary-Did, variable-Did,
  assigned-Did, updated-Did,
}
use lesh.Arithmetic.Symbols.{
  inner-lt, symbol-HaltsBelow, symbol_found, symbol_lt, unary_symbol_found, or-Halts, and-Halts,
}
use lesh.Arithmetic.Groups.{
  no_target, Primary, to_operand, to_bit_or, bit_or-ender, logical_and-ender, logical_or-ender,
  assignment-ender, conditional-closing, group_comma, group, to_unary, group_unary, group_plain,
  unary-no_target,
}

module _ {V : Type 0} (vars : ArithmeticVariables V) where
  -- In front of every text the tree is read, and what is done is what it means.
  abbrev pub Reads : Tree → Type 0
  Reads e =
      (rest : Bytes) (live : Bool) (x : Effects V)
      → (v : ℕ) × (y : Effects V) × Did vars e live x v y × Primary vars e rest live x v y

  pub choice-Reads : (c a b : Tree) → Reads c → Reads a → Reads b → Reads (choice c a b)
  unfolding inner consume skip_blanks
  choice-Reads c a b read_c read_a read_b rest live x =
      let text_b = print b (b')' ∷ rest) in
      let text_a = print a (b':' ∷ text_b) in
      let le_a = inner-lt a (b':' ∷ text_b) in
      let le_c = inner-lt c (b'?' ∷ text_a) in
      let (vc, xc, did_c, run_c) = read_c (b'?' ∷ text_a) live x in
      let (va, xa, did_a, run_a) = read_a (b':' ∷ text_b) (live && not (vc == 0)) xc in
      let (vb, xb, did_b, run_b) = read_b (b')' ∷ rest) (live && vc == 0) xa in
      let conditional =
        conditional_take vars (at (print c (b'?' ∷ text_a)) live x) (at (b'?' ∷ text_a) live xc)
          (at text_a live xc) (at (b':' ∷ text_b) (live && not (vc == 0)) xa) (at text_b live xa)
          (at (b')' ∷ rest) (live && vc == 0) xb) vc va vb
          (logical_or-ender vars c question text_a live x xc vc run_c) refl (omega (arith, le_c))
          (assignment-ender vars a colon text_b (live && not (vc == 0)) xc xa va run_a
            (λ n. absurd (cc)))
          (omega (arith, le_a)) refl (omega arith)
          (conditional-closing vars b rest (live && vc == 0) xa xb vb run_b) in
      (
        if vc == 0 then vb else va,
        xb,
        choice-Did vars c a b live x xc xa xb vc va vb did_c did_a did_b,
        group vars (inner (choice c a b) rest) rest live x xb _ (inner-lt (choice c a b) rest) (
            assignment_none vars (at (print c (b'?' ∷ text_a)) live x) (at (b')' ∷ rest) live xb) _
              (no_target (inner c (b'?' ∷ text_a))) conditional),
      )

  pub either-Reads : (a b : Tree) → Reads a → Reads b → Reads (either a b)
  unfolding inner consume skip_blanks
  either-Reads a b read_a read_b rest live x =
      let text_b = print b (b')' ∷ rest) in
      let text_or = b'|' ∷ b'|' ∷ text_b in
      let le_a = inner-lt a text_or in
      let le_b = inner-lt b (b')' ∷ rest) in
      let (va, xa, did_a, run_a) = read_a text_or live x in
      let (vb, xb, did_b, run_b) = read_b (b')' ∷ rest) (live && va == 0) xa in
      let v = truth (not (va == 0) || not (vb == 0)) in
      let s = at (print a text_or) live x in
      let t = at text_or live xa in
      let first =
        logical_and-Gives vars s t t va va
          (to_bit_or vars a text_or live x xa va run_a (or-Halts text_b live xa))
          (omega (arith, le_a)) (and_stop vars t t va refl) in
      let more =
        or_take vars t (at text_b live xa) (at (b')' ∷ rest) (live && va == 0) xb)
          (at (b')' ∷ rest) live xb) va vb refl (omega arith)
          (logical_and-ender vars b closing rest (live && va == 0) xa xb vb run_b)
          (omega (arith, le_b)) refl in
      (
        v,
        xb,
        either-Did vars a b live x xa xb va vb did_a did_b,
        group vars (inner (either a b) rest) rest live x xb v (inner-lt (either a b) rest) (
            to_assignment vars s closing rest live xb v (λ n. absurd (cc))
              (logical_or-Gives vars s t (at (b')' ∷ rest) live xb) va v first (omega (arith, le_a))
                more)
              (no_target (inner a text_or))),
      )

  pub both-Reads : (a b : Tree) → Reads a → Reads b → Reads (both a b)
  unfolding inner consume skip_blanks
  both-Reads a b read_a read_b rest live x =
      let text_b = print b (b')' ∷ rest) in
      let text_and = b'&' ∷ b'&' ∷ text_b in
      let le_a = inner-lt a text_and in
      let le_b = inner-lt b (b')' ∷ rest) in
      let (va, xa, did_a, run_a) = read_a text_and live x in
      let (vb, xb, did_b, run_b) = read_b (b')' ∷ rest) (live && not (va == 0)) xa in
      let v = truth (not (va == 0) && not (vb == 0)) in
      let s = at (print a text_and) live x in
      let t = at text_and live xa in
      let more =
        and_take vars t (at text_b live xa) (at (b')' ∷ rest) (live && not (va == 0)) xb)
          (at (b')' ∷ rest) live xb) va vb refl (omega arith)
          (bit_or-ender vars b closing rest (live && not (va == 0)) xa xb vb run_b)
          (omega (arith, le_b)) refl in
      let logical_and =
        logical_and-Gives vars s t (at (b')' ∷ rest) live xb) va v
          (to_bit_or vars a text_and live x xa va run_a (and-Halts text_b live xa))
          (omega (arith, le_a)) more in
      (
        v,
        xb,
        both-Did vars a b live x xa xb va vb did_a did_b,
        group vars (inner (both a b) rest) rest live x xb v (inner-lt (both a b) rest) (
            to_assignment vars s closing rest live xb v (λ n. absurd (cc))
              (to_logical_or vars s closing rest live xb v logical_and (omega (arith, le_a, le_b)))
              (no_target (inner a text_and))),
      )

  pub sequence-Reads : (a b : Tree) → Reads a → Reads b → Reads (sequence a b)
  unfolding inner consume skip_blanks
  sequence-Reads a b read_a read_b rest live x =
      let text_b = print b (b')' ∷ rest) in
      let le_a = inner-lt a (b',' ∷ text_b) in
      let le_b = inner-lt b (b')' ∷ rest) in
      let (va, xa, did_a, run_a) = read_a (b',' ∷ text_b) live x in
      let (vb, xb, did_b, run_b) = read_b (b')' ∷ rest) live xa in
      let s = at (print a (b',' ∷ text_b)) live x in
      let t = at (b',' ∷ text_b) live xa in
      let u = at (b')' ∷ rest) live xb in
      (
        vb,
        xb,
        sequence-Did vars a b live x xa xb va vb did_a did_b,
        group_comma vars (inner (sequence a b) rest) rest live x xb vb (
            comma-Gives vars s t u va vb
              (assignment-ender vars a comma text_b live x xa va run_a (λ n. absurd (cc)))
              (omega (arith, le_a))
              (comma_take vars t (at text_b live xa) u u va vb refl (omega arith)
                (assignment-ender vars b closing rest live xa xb vb run_b (λ n. absurd (cc))) refl
                (omega (arith, le_b)))),
      )

  pub binary-Reads : (op : Operator) (a b : Tree) → Reads a → Reads b → Reads (binary op a b)
  unfolding inner
  binary-Reads op a b read_a read_b rest live x =
      let l = level_of op in
      let text_b = print b (b')' ∷ rest) in
      let text_op = symbol op ++ text_b in
      let le_a = inner-lt a text_op in
      let le_b = inner-lt b (b')' ∷ rest) in
      let le_op = length-append (symbol op) text_b in
      let (va, xa, did_a, run_a) = read_a text_op live x in
      let (vb, xb, did_b, run_b) = read_b (b')' ∷ rest) live xa in
      let (y, state_is, did) =
        binary-Did vars op a b (b')' ∷ rest) live x xa xb va vb did_a did_b in
      let s = at (print a text_op) live x in
      let t = at text_op live xa in
      let u = at (b')' ∷ rest) live xb in
      let v = (apply_operator op va vb u).0.1 in
      let more =
        level_take vars l op t (at text_b live xa) u va vb
          (symbol_found op (inner b (b')' ∷ rest)) live xa) (omega (arith, le_op, symbol_lt op))
          (to_operand vars b l (b')' ∷ rest) live xa xb vb run_b
            (ender-HaltsBelow l closing rest live xb))
          (omega (arith, le_b, le_op)) (rw state_is (ender-Halts l closing rest live y))
          (rw state_is (omega arith)) (apply_abandoned op va vb u) in
      let level =
        level-Gives vars l s t (at (b')' ∷ rest) live y) va v
          (to_operand vars a l text_op live x xa va run_a
            (symbol-HaltsBelow op (inner b (b')' ∷ rest)) live xa))
          (omega (arith, le_a))
          (subst (λ w. Gives (λ f. level_loop vars f l va) 1 t v w) state_is more) in
      let lt = inner-lt (binary op a b) rest in
      let le : length (b')' ∷ rest) ≤ length (print a text_op) = omega (arith, le_a, le_op, le_b) in
      (
        v,
        y,
        did,
        group vars (inner (binary op a b) rest) rest live x y v lt (
            to_assignment vars s closing rest live y v (λ n. absurd (cc))
              (to_logical_or vars s closing rest live y v
                (to_logical_and vars s closing rest live y v
                  (rise vars l s closing rest live y v level le) le)
                le)
              (no_target (inner a text_op))),
      )

  pub unary-Reads : (op : Unary) (a : Tree) → Reads a → Reads (unary op a)
  unfolding inner
  unary-Reads op a read_a rest live x =
      let text_a = print a (b')' ∷ rest) in
      let (va, xa, did_a, run_a) = read_a (b')' ∷ rest) live x in
      (
        apply_unary op va,
        xa,
        unary-Did vars op a live x xa va did_a,
        group_unary vars (inner (unary op a) rest) rest live x xa _ (inner-lt (unary op a) rest)
            (unary-no_target op text_a)
            (unary_some vars op (at (unary_symbol op ∷ text_a) live x) (at text_a live x) _ va
              (unary_symbol_found op (inner a (b')' ∷ rest)) live x) (omega arith)
              (to_unary vars a (b')' ∷ rest) live x xa va run_a)),
      )

  pub literal-Reads : (c : ℕ) (ds : Bytes) → IsPrintable (literal c ds) → Reads (literal c ds)
  unfolding inner meaning
  literal-Reads c ds h rest live x =
      let value = min (number 10 0 (leading 10 (c ∷ ds))) 9223372036854775807 in
      let plain : IsPlain c = omega (arith, h.0) in
      (
        value,
        x,
        (λ e. refl, λ e. refl),
        group_plain vars c (ds ++ (b')' ∷ rest)) rest live x x value plain
            (inner-lt (literal c ds) rest)
            (target-none c _ (skip_blanks-plain c _ plain) (ground arith))
            (parse_atom-literal vars c ds rest live x h.0 h.1 h.2),
      )

  pub variable-Reads : (c : ℕ) (cs : Bytes) → IsPrintable (variable c cs) → Reads (variable c cs)
  unfolding inner
  variable-Reads c cs h rest live x =
      let r = read_variable vars (c ∷ cs) (at (b')' ∷ rest) live x) in
      let (y, state_is, did) = variable-Did vars c cs (b')' ∷ rest) live x in
      (
        r.0,
        y,
        did,
        group_plain vars c (cs ++ (b')' ∷ rest)) rest live x y r.0 (starts_name-IsPlain c h.0)
            (inner-lt (variable c cs) rest) (target-read c cs rest h.0 h.1)
            (subst (λ w. parse_atom vars (at (c ∷ (cs ++ (b')' ∷ rest))) live x) ≡ some (r.0, w))
              state_is (parse_atom-name vars c cs rest live x h.0 h.1)),
      )

  pub assigned-Reads :
      (c : ℕ) (cs : Bytes) (a : Tree)
      → IsPrintable (assigned c cs a)
      → Reads a
      → Reads (assigned c cs a)
  unfolding inner
  assigned-Reads c cs a h read_a rest live x =
      let text_a = print a (b')' ∷ rest) in
      let (va, xa, did_a, run_a) = read_a (b')' ∷ rest) live x in
      let to : Target = record { name = c ∷ cs; compound = none; behind = text_a } in
      let (y, state_is, did) = assigned-Did vars c cs text_a (b')' ∷ rest) a live x xa va did_a in
      let s = at (inner (assigned c cs a) rest) live x in
      let v = (assign vars to va (at (b')' ∷ rest) live xa)).0 in
      let run =
        assignment_some vars s (at (b')' ∷ rest) live xa) va to
          (target-assigned c cs (inner a (b')' ∷ rest)) h.0.0 h.0.1)
          (omega (arith, length-append cs (b'=' ∷ text_a)))
          (assignment-ender vars a closing rest live x xa va run_a (λ n. absurd (cc))) in
      (
        v,
        y,
        did,
        group vars (inner (assigned c cs a) rest) rest live x y v (inner-lt (assigned c cs a) rest)
            (subst (λ w. Gives (parse_assignment vars) 25 s v w) state_is run),
      )

  pub updated-Reads :
      (c : ℕ) (cs : Bytes) (op : Compound) (a : Tree)
      → IsPrintable (updated c cs op a)
      → Reads a
      → Reads (updated c cs op a)
  unfolding inner
  updated-Reads c cs op a h read_a rest live x =
      let text_a = print a (b')' ∷ rest) in
      let (va, xa, did_a, run_a) = read_a (b')' ∷ rest) live x in
      let to : Target = record {
        name = c ∷ cs;
        compound = some (operator_of op);
        behind = text_a;
      } in
      let (y, state_is, did) = updated-Did vars c cs text_a (b')' ∷ rest) op a live x xa va did_a in
      let s = at (inner (updated c cs op a) rest) live x in
      let v = (assign vars to va (at (b')' ∷ rest) live xa)).0 in
      let run =
        assignment_some vars s (at (b')' ∷ rest) live xa) va to
          (target-updated c cs (inner a (b')' ∷ rest)) h.0.0 h.0.1 op)
          (omega (
            arith,
            length-append cs (symbol (operator_of op) ++ (b'=' ∷ text_a)),
            length-append (symbol (operator_of op)) (b'=' ∷ text_a),
          ))
          (assignment-ender vars a closing rest live x xa va run_a (λ n. absurd (cc))) in
      (
        v,
        y,
        did,
        group vars (inner (updated c cs op a) rest) rest live x y v
            (inner-lt (updated c cs op a) rest)
            (subst (λ w. Gives (parse_assignment vars) 25 s v w) state_is run),
      )
