-- ===== src/Arithmetic/Parser.antt =====
-- The grammar of src/runtime/arithmetic.cpp, which computes as it parses. What a call leaves of the
-- text is not a part of it by structure, so every call takes fuel; `none` means that it ran out.
use lesh.Base.{
  ℕ, zero, suc, ◌+◌, ◌*◌, Bool, true, false, not, ◌&&◌, ◌||◌, Option, none, some, List, [], ◌∷◌,
  Bytes, codes, drop, take, length, leb, ◌==◌, if◌then◌else◌,
}
use lesh.Base.Int.{to_word}
use lesh.Numeric.{policy_for, arithmetic_literal, scan_digits}
use lesh.Arithmetic.Words.{
  Operator, bit_or_op, bit_xor_op, bit_and_op, eq_op, ne_op, le_op, ge_op, lt_op, gt_op,
  shift_up_op, shift_down_op, add_op, sub_op, mul_op, div_op, mod_op, compute, divides, truth,
  wrap_neg, complement,
}
use lesh.Arithmetic.State.{
  ArithmeticVariables, ArithmeticError, expected_colon, expected_paren, unexpected_end,
  unexpected_character, malformed_number, Evaluator, starts_name, continues_name, skip_blanks, peek,
  starts, consume, fail, divide_by_zero, with_live, read_variable, write_variable,
}

pub record ArithmeticResult : Type 0 where
  pub value : ℕ
  pub ok : Bool
  pub error : Option ArithmeticError
  pub unset_name : Bytes
  pub assignment_refused : Bool

-- A part of the parser: it changes the evaluator and gives a value.
abbrev pub Parse : Type 0 → Type 0 → Type 0
Parse V A = Evaluator V → Option (A × Evaluator V)

module _ {V A B : Type 0} where
  infixl 5 ◌>>=◌
  abbrev pub ◌>>=◌ : Parse V A → (A → Parse V B) → Parse V B
  ◌>>=◌ m k s = elim (m s) [ none ↦ none | some (a, s') ↦ k a s' ]

module _ {V A : Type 0} where
  abbrev pub pure : A → Parse V A
  pure a s = some (a, s)

module _ {V : Type 0} where
  abbrev pub found : Bytes → Parse V Bool
  found op s = some (consume op s)

  abbrev pub failing : ArithmeticError → Parse V ℕ
  failing why s = some (0, fail why s)

-- The levels between `parse_logical_and` and `parse_unary`, which differ in their operators only.
pub data Level : Type 0 where
  bit_or_level bit_xor_level bit_and_level equality relational shift additive multiplicative : Level

-- The operators of a level, in the order in which they are tried.
abbrev pub operators : Level → List (Bytes × Operator)
operators bit_or_level = (codes "|", bit_or_op) ∷ []
operators bit_xor_level = (codes "^", bit_xor_op) ∷ []
operators bit_and_level = (codes "&", bit_and_op) ∷ []
operators equality = (codes "==", eq_op) ∷ (codes "!=", ne_op) ∷ []
operators relational =
    (codes "<=", le_op) ∷ (codes ">=", ge_op) ∷ (codes "<", lt_op) ∷ (codes ">", gt_op) ∷ []
operators shift = (codes "<<", shift_up_op) ∷ (codes ">>", shift_down_op) ∷ []
operators additive = (codes "+", add_op) ∷ (codes "-", sub_op) ∷ []
operators multiplicative = (codes "*", mul_op) ∷ (codes "/", div_op) ∷ (codes "%", mod_op) ∷ []

-- The level that parses the operands of a level; behind the last comes `parse_unary`.
abbrev pub below : Level → Option Level
below bit_or_level = some bit_xor_level
below bit_xor_level = some bit_and_level
below bit_and_level = some equality
below equality = some relational
below relational = some shift
below shift = some additive
below additive = some multiplicative
below multiplicative = none

-- `kCompound`
abbrev pub compound_operators : List (Bytes × Operator)
compound_operators =
    (codes "<<=", shift_up_op)
    ∷ (codes ">>=", shift_down_op)
    ∷ (codes "+=", add_op)
    ∷ (codes "-=", sub_op)
    ∷ (codes "*=", mul_op)
    ∷ (codes "/=", div_op)
    ∷ (codes "%=", mod_op)
    ∷ (codes "&=", bit_and_op)
    ∷ (codes "^=", bit_xor_op)
    ∷ (codes "|=", bit_or_op)
    ∷ []

-- The bytes of a name that a text starts with.
unfoldable pub name_length : Bytes → ℕ
name_length [] = 0
name_length (c ∷ text) = let more = suc (name_length text) in if continues_name c then more else 0

-- The blanks between a name and `=`, a newline not among them.
unfoldable pub skip_spaces : Bytes → Bytes
skip_spaces [] = []
skip_spaces (c ∷ text) =
    let further = skip_spaces text in if c == b' ' || c == 9 then further else c ∷ text

-- What an assignment begins with: its name, the operator of a compound one, and the text behind.
pub record Target : Type 0 where
  pub name : Bytes
  pub compound : Option Operator
  pub behind : Bytes

unfoldable pub compound_target : Bytes → Bytes → List (Bytes × Operator) → Option Target
compound_target name text [] =
    if starts (codes "=") text && not (starts (codes "==") text)
    then some (record { name = name; compound = none; behind = drop 1 text })
    else none
compound_target name text ((op, o) ∷ ops) =
    let later = compound_target name text ops in
    if starts op text
    then some (record { name = name; compound = some o; behind = drop (length op) text })
    else later

-- The look ahead of `parse_assignment`.
unfoldable pub target : Bytes → Option Target
unfolding compound_target name_length skip_spaces
target text =
    let n = name_length text in
    if starts_name (peek text 0)
    then compound_target (take n text) (skip_spaces (drop n text)) compound_operators
    else none

pub data Unary : Type 0 where
  not_op complement_op minus_op plus_op : Unary

abbrev pub unary_operators : List (Bytes × Unary)
unary_operators =
    (codes "!", not_op)
    ∷ (codes "~", complement_op)
    ∷ (codes "-", minus_op)
    ∷ (codes "+", plus_op)
    ∷ []

abbrev pub apply_unary : Unary → ℕ → ℕ
apply_unary not_op value = truth (value == 0)
apply_unary complement_op value = complement value
apply_unary minus_op value = wrap_neg value
apply_unary plus_op value = value

module _ {V A : Type 0} where
  -- The first operator of a list that is there.
  unfoldable pub find_operator : List (Bytes × A) → Evaluator V → Option A × Evaluator V
  find_operator [] s = (none, s)
  find_operator ((op, o) ∷ ops) s =
      let (there, s') = consume op s in
      let later = find_operator ops s' in if there then (some o, s') else later

-- The base of a literal, and its text behind the prefix.
unfoldable pub literal_base : Bytes → ℕ × Bytes
literal_base text =
    if peek text 0 == b'0' && (peek text 1 == b'x' || peek text 1 == b'X')
    then (16, drop 2 text)
    else if peek text 0 == b'0' && (leb b'0' (peek text 1) && leb (peek text 1) b'7')
    then (8, drop 1 text)
    else (10, text)

abbrev pub literal_limit : ℕ
literal_limit = to_word (policy_for arithmetic_literal).high

module _ {V : Type 0} where
  -- An operator on its operands: whether the level is left at once, and the value.
  unfoldable pub apply_operator : Operator → ℕ → ℕ → Evaluator V → (Bool × ℕ) × Evaluator V
  apply_operator op a b s =
      let (abandoned, s') = divide_by_zero s in
      if divides op && b == 0 then ((abandoned, 0), s') else ((false, compute op a b), s)

  -- `apply_compound`
  abbrev pub apply_compound : Operator → ℕ → ℕ → Evaluator V → ℕ × Evaluator V
  apply_compound op a b s = let ((abandoned, value), s') = apply_operator op a b s in (value, s')

  unfoldable pub parse_number : Parse V ℕ
  unfolding literal_base
  parse_number s =
      let (base, text) = literal_base s.rest in
      let run = scan_digits text base literal_limit in
      let after = record s { rest = drop run.consumed text } in
      some
        (run.value, if run.consumed == 0 && base == 16 then fail malformed_number after else after)

module _ {V : Type 0} (vars : ArithmeticVariables V) where
  -- What an assignment does with the value of its right side.
  unfoldable pub assign : Target → ℕ → Evaluator V → ℕ × Evaluator V
  assign t rhs s = elim t.compound [
    | none ↦ (rhs, write_variable vars t.name rhs s)
    | some op ↦
        let (lhs, s') = read_variable vars t.name s in
        let (result, s'') = apply_compound op lhs rhs s' in
        (result, write_variable vars t.name result s'')
  ]

  unfoldable pub parse_name : Parse V ℕ
  unfolding name_length
  parse_name s =
      let n = name_length s.rest in
      some (read_variable vars (take n s.rest) (record s { rest = drop n s.rest }))

  -- `parse_primary` where no parenthesis opens.
  unfoldable pub atom_at : Bytes → Parse V ℕ
  atom_at [] = failing unexpected_end
  atom_at (c ∷ text) =
      if leb b'0' c && leb c b'9'
      then parse_number
      else if starts_name c
      then parse_name
      else failing unexpected_character

  unfoldable pub parse_atom : Parse V ℕ
  unfolding atom_at
  parse_atom s = atom_at s.rest s

  unfoldable mutual
    pub parse_comma : ℕ → Parse V ℕ
    parse_comma zero = λ s. none
    parse_comma (suc f) = do value ← parse_assignment f; comma_loop f value

    pub comma_loop : ℕ → ℕ → Parse V ℕ
    comma_loop zero value = λ s. none
    comma_loop (suc f) value = do
      more ← found (codes ",")
      elim more [ true ↦ (do next ← parse_assignment f; comma_loop f next) | false ↦ pure value ]

    pub parse_assignment : ℕ → Parse V ℕ
    parse_assignment zero = λ s. none
    parse_assignment (suc f) = λ s. elim (target (skip_blanks s.rest)) [
      | none ↦ parse_conditional f s
      | some t ↦
          (parse_assignment f >>= λ rhs s'. some (assign t rhs s')) (record s { rest = t.behind })
    ]

    pub parse_conditional : ℕ → Parse V ℕ
    parse_conditional zero = λ s. none
    parse_conditional (suc f) = do
      condition ← parse_logical_or f
      chosen ← found (codes "?")
      elim chosen [ true ↦ parse_branches f condition | false ↦ pure condition ]

    -- Behind the `?`.
    pub parse_branches : ℕ → ℕ → Parse V ℕ
    parse_branches zero condition = λ s. none
    parse_branches (suc f) condition = λ s.
        (do
          when_true ← parse_assignment f
          λ s'. parse_otherwise f condition s.live when_true (with_live s.live s'))
          (with_live (s.live && not (condition == 0)) s)

    pub parse_otherwise : ℕ → ℕ → Bool → ℕ → Parse V ℕ
    parse_otherwise zero condition live when_true = λ s. none
    parse_otherwise (suc f) condition live when_true = do
      colon ← found (codes ":")
      elim colon [
        | true ↦ λ s.
            (do
              when_false ← parse_conditional f
              λ s'. some (if condition == 0 then when_false else when_true, with_live live s'))
              (with_live (live && condition == 0) s)
        | false ↦ failing expected_colon
      ]

    pub parse_logical_or : ℕ → Parse V ℕ
    parse_logical_or zero = λ s. none
    parse_logical_or (suc f) = do value ← parse_logical_and f; logical_or_loop f value

    pub logical_or_loop : ℕ → ℕ → Parse V ℕ
    logical_or_loop zero value = λ s. none
    logical_or_loop (suc f) value = do
      more ← found (codes "||")
      elim more [
        | true ↦ λ s.
            (do
              rhs ← parse_logical_and f
              λ s'.
                  logical_or_loop f (truth (not (value == 0) || not (rhs == 0)))
                    (with_live s.live s'))
              (with_live (s.live && value == 0) s)
        | false ↦ pure value
      ]

    pub parse_logical_and : ℕ → Parse V ℕ
    parse_logical_and zero = λ s. none
    parse_logical_and (suc f) = do value ← parse_level f bit_or_level; logical_and_loop f value

    pub logical_and_loop : ℕ → ℕ → Parse V ℕ
    logical_and_loop zero value = λ s. none
    logical_and_loop (suc f) value = do
      more ← found (codes "&&")
      elim more [
        | true ↦ λ s.
            (do
              rhs ← parse_level f bit_or_level
              λ s'.
                  logical_and_loop f (truth (not (value == 0) && not (rhs == 0)))
                    (with_live s.live s'))
              (with_live (s.live && not (value == 0)) s)
        | false ↦ pure value
      ]

    -- `parse_bit_or` to `parse_multiplicative`
    pub parse_level : ℕ → Level → Parse V ℕ
    parse_level zero level = λ s. none
    parse_level (suc f) level = do value ← parse_operand f level; level_loop f level value

    pub parse_operand : ℕ → Level → Parse V ℕ
    parse_operand zero level = λ s. none
    parse_operand (suc f) level = elim (below level) [
      | none ↦ parse_unary f
      | some lower ↦ parse_level f lower
    ]

    pub level_loop : ℕ → Level → ℕ → Parse V ℕ
    level_loop zero level value = λ s. none
    level_loop (suc f) level value = do
      which ← λ s. some (find_operator (operators level) s)
      elim which [
        | none ↦ pure value
        | some op ↦ parse_operand f level >>= λ operand s.
            let ((abandoned, result), s') = apply_operator op value operand s in
            elim abandoned [ true ↦ some (0, s') | false ↦ level_loop f level result s' ]
      ]

    pub parse_unary : ℕ → Parse V ℕ
    parse_unary zero = λ s. none
    parse_unary (suc f) = do
      which ← λ s. some (find_operator unary_operators s)
      elim which [
        | none ↦ parse_primary f
        | some op ↦ (do value ← parse_unary f; pure (apply_unary op value))
      ]

    pub parse_primary : ℕ → Parse V ℕ
    parse_primary zero = λ s. none
    parse_primary (suc f) = do
      grouped ← found (codes "(")
      elim grouped [
        | true ↦ (do
          value ← parse_comma f
          closed ← found (codes ")")
          λ s. some (value, elim closed [ true ↦ s | false ↦ fail expected_paren s ]))
        | false ↦ parse_atom
      ]

module _ {V : Type 0} where
  -- `run`
  abbrev pub finish : ℕ × Evaluator V → ArithmeticResult × V
  finish (value, s) =
      let rest = skip_blanks s.rest in
      (
        if s.failed
            then record {
              value = 0;
              ok = false;
              error = s.error;
              unset_name = [];
              assignment_refused = s.refused;
            }
            else elim rest [
              | [] ↦ record {
                value = value;
                ok = true;
                error = none;
                unset_name = s.unset_name;
                assignment_refused = false;
              }
              | c ∷ text ↦ record {
                value = 0;
                ok = false;
                error = some unexpected_character;
                unset_name = [];
                assignment_refused = false;
              }
            ],
        s.vars,
      )

  abbrev pub begin : Bytes → V → Evaluator V
  begin text held = record {
    rest = text;
    failed = false;
    refused = false;
    live = true;
    error = none;
    unset_name = [];
    vars = held;
  }

  abbrev pub or_none : Option (ℕ × Evaluator V) → Option (ArithmeticResult × V)
  or_none none = none
  or_none (some r) = some (finish r)

module _ {V : Type 0} (vars : ArithmeticVariables V) where
  -- The result, and the variables behind it.
  unfoldable pub evaluate : Bytes → V → Option (ArithmeticResult × V)
  evaluate text held = or_none (parse_comma vars (32 * length text + 27) (begin text held))
