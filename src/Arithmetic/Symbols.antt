-- ===== src/Arithmetic/Symbols.antt =====
-- The operators of src/runtime/arithmetic.cpp behind a printed operand and in front of the next one.
use lesh.Base.{◌<◌, ◌≡◌, refl, Bool, some, ◌∷◌, ◌++◌, Bytes, length, length-append, arith}
use lesh.Arithmetic.Words.{
  Operator, bit_or_op, bit_xor_op, bit_and_op, eq_op, ne_op, le_op, ge_op, lt_op, gt_op,
  shift_up_op, shift_down_op, add_op, sub_op, mul_op, div_op, mod_op,
}
use lesh.Arithmetic.State.{consume, skip_blanks}
use lesh.Arithmetic.Parser.{
  find_operator, operators, bit_or_level, Unary, not_op, complement_op, minus_op, plus_op,
  unary_operators,
}
use lesh.Arithmetic.Trees.{
  Tree, literal, variable, assigned, updated, choice, either, both, sequence, binary, unary,
  operator_of, symbol, level_of, unary_symbol, inner, Effects, at,
}
use lesh.Arithmetic.Enders.{Halts, HaltsBelow}

pub inner-lt : (e : Tree) (tail : Bytes) → length tail < length (inner e tail)
unfolding inner
inner-lt (literal c ds) tail = omega (arith, length-append ds (b')' ∷ tail))
inner-lt (variable c cs) tail = omega (arith, length-append cs (b')' ∷ tail))
inner-lt (assigned c cs a) tail =
    omega (arith, inner-lt a (b')' ∷ tail), length-append cs (b'=' ∷ b'(' ∷ inner a (b')' ∷ tail)))
inner-lt (updated c cs op a) tail =
    let rest = b'=' ∷ b'(' ∷ inner a (b')' ∷ tail) in
    omega (
      arith,
      inner-lt a (b')' ∷ tail),
      length-append (symbol (operator_of op)) rest,
      length-append cs (symbol (operator_of op) ++ rest),
    )
inner-lt (choice c a b) tail =
    let behind_b = b')' ∷ tail in
    let behind_a = b':' ∷ b'(' ∷ inner b behind_b in
    omega
      (arith, inner-lt b behind_b, inner-lt a behind_a, inner-lt c (b'?' ∷ b'(' ∷ inner a behind_a))
inner-lt (either a b) tail =
    let behind = b')' ∷ tail in
    omega (arith, inner-lt b behind, inner-lt a (b'|' ∷ b'|' ∷ b'(' ∷ inner b behind))
inner-lt (both a b) tail =
    let behind = b')' ∷ tail in
    omega (arith, inner-lt b behind, inner-lt a (b'&' ∷ b'&' ∷ b'(' ∷ inner b behind))
inner-lt (sequence a b) tail =
    let behind = b')' ∷ tail in
    omega (arith, inner-lt b behind, inner-lt a (b',' ∷ b'(' ∷ inner b behind))
inner-lt (binary op a b) tail =
    let rest = b'(' ∷ inner b (b')' ∷ tail) in
    omega (
      arith,
      inner-lt b (b')' ∷ tail),
      length-append (symbol op) rest,
      inner-lt a (symbol op ++ rest),
    )
inner-lt (unary op a) tail = omega (arith, inner-lt a (b')' ∷ tail))

pub symbol_lt : (op : Operator) → 0 < length (symbol op)
symbol_lt bit_or_op = omega arith
symbol_lt bit_xor_op = omega arith
symbol_lt bit_and_op = omega arith
symbol_lt eq_op = omega arith
symbol_lt ne_op = omega arith
symbol_lt le_op = omega arith
symbol_lt ge_op = omega arith
symbol_lt lt_op = omega arith
symbol_lt gt_op = omega arith
symbol_lt shift_up_op = omega arith
symbol_lt shift_down_op = omega arith
symbol_lt add_op = omega arith
symbol_lt sub_op = omega arith
symbol_lt mul_op = omega arith
symbol_lt div_op = omega arith
symbol_lt mod_op = omega arith

module _ {V : Type 0} where
  -- No level below that of the operator stops at it.
  pub symbol-HaltsBelow :
      (op : Operator) (tail : Bytes) (live : Bool) (x : Effects V)
      → HaltsBelow (level_of op) (at (symbol op ++ (b'(' ∷ tail)) live x)
  unfolding find_operator consume skip_blanks
  symbol-HaltsBelow bit_or_op tail live x =
      (refl, (refl, (refl, (refl, (refl, (refl, (refl, tt)))))))
  symbol-HaltsBelow bit_xor_op tail live x = (refl, (refl, (refl, (refl, (refl, (refl, tt))))))
  symbol-HaltsBelow bit_and_op tail live x = (refl, (refl, (refl, (refl, (refl, tt)))))
  symbol-HaltsBelow eq_op tail live x = (refl, (refl, (refl, (refl, tt))))
  symbol-HaltsBelow ne_op tail live x = (refl, (refl, (refl, (refl, tt))))
  symbol-HaltsBelow le_op tail live x = (refl, (refl, (refl, tt)))
  symbol-HaltsBelow ge_op tail live x = (refl, (refl, (refl, tt)))
  symbol-HaltsBelow lt_op tail live x = (refl, (refl, (refl, tt)))
  symbol-HaltsBelow gt_op tail live x = (refl, (refl, (refl, tt)))
  symbol-HaltsBelow shift_up_op tail live x = (refl, (refl, tt))
  symbol-HaltsBelow shift_down_op tail live x = (refl, (refl, tt))
  symbol-HaltsBelow add_op tail live x = (refl, tt)
  symbol-HaltsBelow sub_op tail live x = (refl, tt)
  symbol-HaltsBelow mul_op tail live x = tt
  symbol-HaltsBelow div_op tail live x = tt
  symbol-HaltsBelow mod_op tail live x = tt

  pub symbol_found :
      (op : Operator) (tail : Bytes) (live : Bool) (x : Effects V)
      → find_operator (operators (level_of op)) (at (symbol op ++ (b'(' ∷ tail)) live x)
        ≡ (some op, at (b'(' ∷ tail) live x)
  unfolding find_operator consume skip_blanks
  symbol_found bit_or_op tail live x = refl
  symbol_found bit_xor_op tail live x = refl
  symbol_found bit_and_op tail live x = refl
  symbol_found eq_op tail live x = refl
  symbol_found ne_op tail live x = refl
  symbol_found le_op tail live x = refl
  symbol_found ge_op tail live x = refl
  symbol_found lt_op tail live x = refl
  symbol_found gt_op tail live x = refl
  symbol_found shift_up_op tail live x = refl
  symbol_found shift_down_op tail live x = refl
  symbol_found add_op tail live x = refl
  symbol_found sub_op tail live x = refl
  symbol_found mul_op tail live x = refl
  symbol_found div_op tail live x = refl
  symbol_found mod_op tail live x = refl

  pub unary_symbol_found :
      (op : Unary) (tail : Bytes) (live : Bool) (x : Effects V)
      → find_operator unary_operators (at (unary_symbol op ∷ b'(' ∷ tail) live x)
        ≡ (some op, at (b'(' ∷ tail) live x)
  unfolding find_operator consume skip_blanks
  unary_symbol_found not_op tail live x = refl
  unary_symbol_found complement_op tail live x = refl
  unary_symbol_found minus_op tail live x = refl
  unary_symbol_found plus_op tail live x = refl

  -- No level stops at `||` or `&&`.
  pub or-Halts :
      (tail : Bytes) (live : Bool) (x : Effects V)
      → Halts bit_or_level (at (b'|' ∷ b'|' ∷ tail) live x)
        × HaltsBelow bit_or_level (at (b'|' ∷ b'|' ∷ tail) live x)
  unfolding find_operator consume skip_blanks
  or-Halts tail live x = (refl, (refl, (refl, (refl, (refl, (refl, (refl, (refl, tt))))))))

  pub and-Halts :
      (tail : Bytes) (live : Bool) (x : Effects V)
      → Halts bit_or_level (at (b'&' ∷ b'&' ∷ tail) live x)
        × HaltsBelow bit_or_level (at (b'&' ∷ b'&' ∷ tail) live x)
  unfolding find_operator consume skip_blanks
  and-Halts tail live x = (refl, (refl, (refl, (refl, (refl, (refl, (refl, (refl, tt))))))))
