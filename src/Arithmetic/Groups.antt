-- ===== src/Arithmetic/Groups.antt =====
-- A printed tree as an operand of each level of src/runtime/arithmetic.cpp, and in its parentheses.
use lesh.Base.{ℕ, ◌<◌, ◌≡◌, ◌≢◌, refl, Bool, none, some, ◌∷◌, Bytes, length, arith}
use lesh.Arithmetic.State.{ArithmeticVariables, consume, skip_blanks}
use lesh.Arithmetic.Parser.{
  find_operator, Level, bit_or_level, target, parse_comma, parse_assignment, parse_conditional,
  parse_logical_or, parse_logical_and, parse_level, Unary, not_op, complement_op, minus_op, plus_op,
  parse_unary, parse_primary, parse_atom,
}
use lesh.Arithmetic.Trees.{Tree, unary_symbol, inner, print, Effects, at}
use lesh.Arithmetic.Gives.{Gives, conditional_stop}
use lesh.Arithmetic.Operands.{Operand, unary_none, primary_atom, primary_group}
use lesh.Arithmetic.Enders.{
  Ender, closing, question, ender, ender-Halts, ender-HaltsBelow, Halts, HaltsBelow,
}
use lesh.Arithmetic.Climb.{climb, level_up}
use lesh.Arithmetic.Rise.{to_assignment, to_logical_or, to_logical_and, to_comma}
use lesh.Arithmetic.Atoms.{IsPlain, unary_none-plain, no_group-plain, target-none}
use lesh.Arithmetic.Symbols.{inner-lt}

-- No assignment begins with a parenthesis.
pub no_target : (text : Bytes) → target (skip_blanks (b'(' ∷ text)) ≡ none
unfolding skip_blanks
no_target text = target-none b'(' text refl refl

pub unary-no_target :
    (op : Unary) (text : Bytes) → target (skip_blanks (unary_symbol op ∷ text)) ≡ none
unfolding skip_blanks
unary-no_target not_op text = target-none b'!' text refl refl
unary-no_target complement_op text = target-none b'~' text refl refl
unary-no_target minus_op text = target-none b'-' text refl refl
unary-no_target plus_op text = target-none b'+' text refl refl

module _ {V : Type 0} (vars : ArithmeticVariables V) where
  -- The parser reads the tree as a primary and gives `v`.
  abbrev pub Primary : Tree → Bytes → Bool → Effects V → ℕ → Effects V → Type 0
  Primary e rest live x v y =
      Gives (parse_primary vars) 1 (at (print e rest) live x) v (at rest live y)

  pub to_unary :
      (e : Tree) (rest : Bytes) (live : Bool) (x y : Effects V) (v : ℕ)
      → Primary e rest live x v y
      → Gives (parse_unary vars) 2 (at (print e rest) live x) v (at rest live y)
  unfolding find_operator consume skip_blanks
  to_unary e rest live x y v g = unary_none vars _ _ _ v refl (omega arith) g

  pub to_operand :
      (e : Tree) (l : Level) (rest : Bytes) (live : Bool) (x y : Effects V) (v : ℕ)
      → Primary e rest live x v y
      → HaltsBelow l (at rest live y)
      → Operand vars l (at (print e rest) live x) v (at rest live y)
  to_operand e l rest live x y v g h =
      climb vars l _ _ v (to_unary e rest live x y v g) (omega (arith, inner-lt e rest)) h

  pub to_bit_or :
      (e : Tree) (rest : Bytes) (live : Bool) (x y : Effects V) (v : ℕ)
      → Primary e rest live x v y
      → Halts bit_or_level (at rest live y) × HaltsBelow bit_or_level (at rest live y)
      → Gives
          (λ f. parse_level vars f bit_or_level)
          18
          (at (print e rest) live x)
          v
          (at rest live y)
  to_bit_or e rest live x y v g h =
      level_up vars bit_or_level _ _ v (to_operand e bit_or_level rest live x y v g h.1)
        (omega (arith, inner-lt e rest)) h.0

  module _ (e : Tree) (end : Ender) (tail : Bytes) (live : Bool) (x y : Effects V) (v : ℕ)
      (g : Primary e (ender end ∷ tail) live x v y) where
    pub bit_or-ender :
        Gives
          (λ f. parse_level vars f bit_or_level)
          18
          (at (print e (ender end ∷ tail)) live x)
          v
          (at (ender end ∷ tail) live y)
    bit_or-ender =
        to_bit_or e (ender end ∷ tail) live x y v g
          (ender-Halts bit_or_level end tail live y, ender-HaltsBelow bit_or_level end tail live y)

    pub logical_and-ender :
        Gives
          (parse_logical_and vars)
          20
          (at (print e (ender end ∷ tail)) live x)
          v
          (at (ender end ∷ tail) live y)
    logical_and-ender =
        to_logical_and vars _ end tail live y v bit_or-ender
          (omega (arith, inner-lt e (ender end ∷ tail)))

    pub logical_or-ender :
        Gives
          (parse_logical_or vars)
          22
          (at (print e (ender end ∷ tail)) live x)
          v
          (at (ender end ∷ tail) live y)
    logical_or-ender =
        to_logical_or vars _ end tail live y v logical_and-ender
          (omega (arith, inner-lt e (ender end ∷ tail)))

    pub assignment-ender :
        (end ≢ question)
        → Gives
            (parse_assignment vars)
            25
            (at (print e (ender end ∷ tail)) live x)
            v
            (at (ender end ∷ tail) live y)
    assignment-ender n =
        to_assignment vars _ end tail live y v n logical_or-ender
          (no_target (inner e (ender end ∷ tail)))

  pub conditional-closing :
      (e : Tree) (tail : Bytes) (live : Bool) (x y : Effects V) (v : ℕ)
      → Primary e (b')' ∷ tail) live x v y
      → Gives
          (parse_conditional vars)
          24
          (at (print e (b')' ∷ tail)) live x)
          v
          (at (b')' ∷ tail) live y)
  unfolding consume skip_blanks
  conditional-closing e tail live x y v g =
      conditional_stop vars _ _ _ v (logical_or-ender e closing tail live x y v g) refl

  -- What is read as an expression in front of a closing parenthesis is a primary in parentheses.
  pub group_comma :
      (text tail : Bytes) (live : Bool) (x y : Effects V) (v : ℕ)
      → Gives (parse_comma vars) 27 (at text live x) v (at (b')' ∷ tail) live y)
      → Gives (parse_primary vars) 1 (at (b'(' ∷ text) live x) v (at tail live y)
  unfolding consume skip_blanks
  group_comma text tail live x y v g =
      primary_group vars _ (at text live x) (at (b')' ∷ tail) live y) _ v refl (omega arith) g refl

  pub group :
      (text tail : Bytes) (live : Bool) (x y : Effects V) (v : ℕ)
      → length tail < length text
      → Gives (parse_assignment vars) 25 (at text live x) v (at (b')' ∷ tail) live y)
      → Gives (parse_primary vars) 1 (at (b'(' ∷ text) live x) v (at tail live y)
  group text tail live x y v lt g =
      group_comma text tail live x y v (to_comma vars _ tail live y v g (omega (arith, lt)))

  module _ (text tail : Bytes) (live : Bool) (x y : Effects V) (v : ℕ)
      (lt : length tail < length text) (none_there : target (skip_blanks text) ≡ none) where
    pub group_unary :
        Gives (parse_unary vars) 2 (at text live x) v (at (b')' ∷ tail) live y)
        → Gives (parse_primary vars) 1 (at (b'(' ∷ text) live x) v (at tail live y)
    group_unary g =
        let s = at text live x in
        let t = at (b')' ∷ tail) live y in
        group text tail live x y v lt (
          to_assignment vars s closing tail live y v (λ n. absurd (cc))
            (to_logical_or vars s closing tail live y v
              (to_logical_and vars s closing tail live y v
                (level_up vars bit_or_level s t v
                  (climb vars bit_or_level s t v g (omega (arith, lt))
                    (ender-HaltsBelow bit_or_level closing tail live y))
                  (omega (arith, lt)) (ender-Halts bit_or_level closing tail live y))
                (omega (arith, lt)))
              (omega (arith, lt)))
            none_there)

  pub group_plain :
      (c : ℕ) (text tail : Bytes) (live : Bool) (x y : Effects V) (v : ℕ)
      → IsPlain c
      → length tail < length (c ∷ text)
      → target (skip_blanks (c ∷ text)) ≡ none
      → parse_atom vars (at (c ∷ text) live x) ≡ some (v, at (b')' ∷ tail) live y)
      → Gives (parse_primary vars) 1 (at (b'(' ∷ c ∷ text) live x) v (at tail live y)
  group_plain c text tail live x y v plain lt none_there atom =
      let s = at (c ∷ text) live x in
      group_unary (c ∷ text) tail live x y v lt none_there (
        unary_none vars s s _ v (unary_none-plain c text live x plain) (omega arith)
          (primary_atom vars s s _ v (no_group-plain c text live x plain) atom))
