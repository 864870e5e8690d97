-- ===== src/Arithmetic/Trees.antt =====
-- Arithmetic expressions as trees, with their meaning and their spelling, against which
-- src/runtime/arithmetic.cpp is read. A skipped operand is not looked at here.
use lesh.Base.{
  ℕ, ◌≤◌, ◌≡◌, Bool, true, not, ◌&&◌, Option, some, [], ◌∷◌, ◌++◌, Bytes, codes, same, min, ◌==◌,
  if◌then◌else◌, All,
}
use lesh.Numeric.Digits.{leading, number}
use lesh.Arithmetic.Words.{
  Operator, bit_or_op, bit_xor_op, bit_and_op, eq_op, ne_op, le_op, ge_op, lt_op, gt_op,
  shift_up_op, shift_down_op, add_op, sub_op, mul_op, div_op, mod_op, compute, divides, truth,
}
use lesh.Arithmetic.State.{
  ArithmeticVariables, ArithmeticError, division_by_zero, readonly_variable, Evaluator, starts_name,
  continues_name,
}
use lesh.Arithmetic.Parser.{
  Unary, not_op, complement_op, minus_op, plus_op, apply_unary, Level, bit_or_level, bit_xor_level,
  bit_and_level, equality, relational, shift, additive, multiplicative,
}

-- The operators that `=` may follow.
pub data Compound : Type 0 where
  up down plus minus times over modulo with_and with_xor with_or : Compound

pub data Tree : Type 0 where
  literal variable : ℕ → Bytes → Tree
  assigned : ℕ → Bytes → Tree → Tree
  updated : ℕ → Bytes → Compound → Tree → Tree
  choice : Tree → Tree → Tree → Tree
  either both sequence : Tree → Tree → Tree
  binary : Operator → Tree → Tree → Tree
  unary : Unary → Tree → Tree

abbrev pub operator_of : Compound → Operator
operator_of up = shift_up_op
operator_of down = shift_down_op
operator_of plus = add_op
operator_of minus = sub_op
operator_of times = mul_op
operator_of over = div_op
operator_of modulo = mod_op
operator_of with_and = bit_and_op
operator_of with_xor = bit_xor_op
operator_of with_or = bit_or_op

abbrev pub symbol : Operator → Bytes
symbol bit_or_op = codes "|"
symbol bit_xor_op = codes "^"
symbol bit_and_op = codes "&"
symbol eq_op = codes "=="
symbol ne_op = codes "!="
symbol le_op = codes "<="
symbol ge_op = codes ">="
symbol lt_op = codes "<"
symbol gt_op = codes ">"
symbol shift_up_op = codes "<<"
symbol shift_down_op = codes ">>"
symbol add_op = codes "+"
symbol sub_op = codes "-"
symbol mul_op = codes "*"
symbol div_op = codes "/"
symbol mod_op = codes "%"

abbrev pub level_of : Operator → Level
level_of bit_or_op = bit_or_level
level_of bit_xor_op = bit_xor_level
level_of bit_and_op = bit_and_level
level_of eq_op = equality
level_of ne_op = equality
level_of le_op = relational
level_of ge_op = relational
level_of lt_op = relational
level_of gt_op = relational
level_of shift_up_op = shift
level_of shift_down_op = shift
level_of add_op = additive
level_of sub_op = additive
level_of mul_op = multiplicative
level_of div_op = multiplicative
level_of mod_op = multiplicative

abbrev pub unary_symbol : Unary → ℕ
unary_symbol not_op = b'!'
unary_symbol complement_op = b'~'
unary_symbol minus_op = b'-'
unary_symbol plus_op = b'+'

-- A tree in parentheses, all but the first, in front of a text.
unfoldable pub inner : Tree → Bytes → Bytes
inner (literal c digits) tail = c ∷ (digits ++ (b')' ∷ tail))
inner (variable c cs) tail = c ∷ (cs ++ (b')' ∷ tail))
inner (assigned c cs a) tail = c ∷ (cs ++ (b'=' ∷ b'(' ∷ inner a (b')' ∷ tail)))
inner (updated c cs op a) tail =
    c ∷ (cs ++ (symbol (operator_of op) ++ (b'=' ∷ b'(' ∷ inner a (b')' ∷ tail))))
inner (choice c a b) tail =
    b'(' ∷ inner c (b'?' ∷ b'(' ∷ inner a (b':' ∷ b'(' ∷ inner b (b')' ∷ tail)))
inner (either a b) tail = b'(' ∷ inner a (b'|' ∷ b'|' ∷ b'(' ∷ inner b (b')' ∷ tail))
inner (both a b) tail = b'(' ∷ inner a (b'&' ∷ b'&' ∷ b'(' ∷ inner b (b')' ∷ tail))
inner (sequence a b) tail = b'(' ∷ inner a (b',' ∷ b'(' ∷ inner b (b')' ∷ tail))
inner (binary op a b) tail = b'(' ∷ inner a (symbol op ++ (b'(' ∷ inner b (b')' ∷ tail)))
inner (unary op a) tail = unary_symbol op ∷ b'(' ∷ inner a (b')' ∷ tail)

abbrev pub print : Tree → Bytes → Bytes
print e tail = b'(' ∷ inner e tail

abbrev pub IsDigit : ℕ → Type 0
IsDigit c = (48 ≤ c) × (c ≤ 57)

-- Its names are names, and its literals decimal, with no leading zero.
abbrev pub IsPrintable : Tree → Type 0
IsPrintable (literal c digits) = IsDigit c × All IsDigit digits × (c ≡ 48 → digits ≡ [])
IsPrintable (variable c cs) = (starts_name c ≡ true) × All (λ d. continues_name d ≡ true) cs
IsPrintable (assigned c cs a) =
    ((starts_name c ≡ true) × All (λ d. continues_name d ≡ true) cs) × IsPrintable a
IsPrintable (updated c cs op a) =
    ((starts_name c ≡ true) × All (λ d. continues_name d ≡ true) cs) × IsPrintable a
IsPrintable (choice c a b) = IsPrintable c × IsPrintable a × IsPrintable b
IsPrintable (either a b) = IsPrintable a × IsPrintable b
IsPrintable (both a b) = IsPrintable a × IsPrintable b
IsPrintable (sequence a b) = IsPrintable a × IsPrintable b
IsPrintable (binary op a b) = IsPrintable a × IsPrintable b
IsPrintable (unary op a) = IsPrintable a

-- What evaluating changes: the first error, whether an assignment was refused, the first unset name
-- and the variables.
pub record Effects (V : Type 0) : Type 0 where
  pub failed : Bool
  pub refused : Bool
  pub error : Option ArithmeticError
  pub unset_name : Bytes
  pub vars : V

module _ {V : Type 0} where
  abbrev pub at : Bytes → Bool → Effects V → Evaluator V
  at rest live e = record {
    rest = rest;
    failed = e.failed;
    refused = e.refused;
    live = live;
    error = e.error;
    unset_name = e.unset_name;
    vars = e.vars;
  }

  -- The first error stays.
  abbrev pub report : ArithmeticError → Effects V → Effects V
  report why e = record e { failed = true; error = if e.failed then e.error else some why }

  unfoldable pub operate : Operator → ℕ → ℕ → Effects V → ℕ × Effects V
  operate op a b e =
      if divides op && b == 0 then (0, report division_by_zero e) else (compute op a b, e)

module _ {V : Type 0} (vars : ArithmeticVariables V) where
  unfoldable pub look_up : Bytes → Effects V → ℕ × Effects V
  look_up name e = (
    vars.get e.vars name,
    record e {
      unset_name =
          if same e.unset_name [] && not (vars.defined e.vars name) then name else e.unset_name;
    },
  )

  unfoldable pub store_value : Bytes → ℕ → Effects V → Effects V
  store_value name value e =
      let (held, taken) = vars.set e.vars name value in
      if taken
      then record e { vars = held }
      else report readonly_variable (record e { vars = held; refused = true })

  unfoldable pub meaning : Tree → Effects V → ℕ × Effects V
  meaning (literal c digits) e =
      (min (number 10 0 (leading 10 (c ∷ digits))) 9223372036854775807, e)
  meaning (variable c cs) e = look_up (c ∷ cs) e
  meaning (assigned c cs a) e =
      let (value, e') = meaning a e in (value, store_value (c ∷ cs) value e')
  meaning (updated c cs op a) e =
      let (b, e') = meaning a e in
      let (a', e'') = look_up (c ∷ cs) e' in
      let (value, e''') = operate (operator_of op) a' b e'' in
      (value, store_value (c ∷ cs) value e''')
  meaning (choice c a b) e =
      let (condition, e') = meaning c e in
      let when_true = meaning a e' in
      let when_false = meaning b e' in if condition == 0 then when_false else when_true
  meaning (either a b) e =
      let (x, e') = meaning a e in
      let (y, e'') = meaning b e' in if x == 0 then (truth (not (y == 0)), e'') else (1, e')
  meaning (both a b) e =
      let (x, e') = meaning a e in
      let (y, e'') = meaning b e' in if x == 0 then (0, e') else (truth (not (y == 0)), e'')
  meaning (sequence a b) e = let (x, e') = meaning a e in meaning b e'
  meaning (binary op a b) e =
      let (x, e') = meaning a e in let (y, e'') = meaning b e' in operate op x y e''
  meaning (unary op a) e = let (x, e') = meaning a e in (apply_unary op x, e')
