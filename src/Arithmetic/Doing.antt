-- ===== src/Arithmetic/Doing.antt =====
-- What src/runtime/arithmetic.cpp does at a variable and at an operator, live or skipped, against the
-- meaning of trees.
use lesh.Base.{
  ℕ, ◌≡◌, refl, inl, inr, Bool, true, false, ◌&&◌, Option, none, some, Bytes, ◌==◌, arith,
  Bool-cases,
}
use lesh.Arithmetic.Words.{Operator, divides}
use lesh.Arithmetic.State.{
  ArithmeticVariables, ArithmeticError, readonly_variable, division_by_zero, Evaluator, fail,
  divide_by_zero, read_variable, write_variable,
}
use lesh.Arithmetic.Parser.{apply_operator, Target, assign}
use lesh.Arithmetic.Trees.{Effects, at, report, operate, look_up, store_value}

module _ {V : Type 0} where
  fail-report :
      (why : ArithmeticError) (rest : Bytes) (live : Bool) (x : Effects V)
      → fail why (at rest live x) ≡ at rest live (report why x)
  unfolding fail
  fail-report why rest live x = elim (Bool-cases x.failed) [
    | inl e ↦ ground (arith, e)
    | inr e ↦ ground (arith, e)
  ]

  -- An operator on its operands, evaluated or not.
  pub apply-live :
      (op : Operator) (a b : ℕ) (rest : Bytes) (x : Effects V)
      → ((apply_operator op a b (at rest true x)).0.1 ≡ (operate op a b x).0)
        × ((apply_operator op a b (at rest true x)).1 ≡ at rest true (operate op a b x).1)
  unfolding apply_operator divide_by_zero operate
  apply-live op a b rest x = elim (Bool-cases (divides op && b == 0)) [
    | inl e ↦ rw e (refl, fail-report division_by_zero rest true x)
    | inr e ↦ rw e (refl, refl)
  ]

  pub apply-dead :
      (op : Operator) (a b : ℕ) (rest : Bytes) (x : Effects V)
      → (apply_operator op a b (at rest false x)).1 ≡ at rest false x
  unfolding apply_operator divide_by_zero
  apply-dead op a b rest x = elim (Bool-cases (divides op && b == 0)) [
    | inl e ↦ rw e refl
    | inr e ↦ rw e refl
  ]

  pub apply_abandoned :
      (op : Operator) (a b : ℕ) (s : Evaluator V)
      → (apply_operator op a b s).0.0 ≡ true
      → (apply_operator op a b s).0.1 ≡ 0
  unfolding apply_operator
  apply_abandoned op a b s h = ground arith

module _ {V : Type 0} (vars : ArithmeticVariables V) where
  write-live :
      (name : Bytes) (value : ℕ) (rest : Bytes) (x : Effects V)
      → write_variable vars name value (at rest true x)
        ≡ at rest true (store_value vars name value x)
  unfolding write_variable store_value
  write-live name value rest x = elim (Bool-cases (vars.set x.vars name value).1) [
    | inl e ↦ rw e refl
    | inr e ↦ rw e (
        fail-report readonly_variable rest true
          (record x { vars = (vars.set x.vars name value).0; refused = true }))
  ]

  pub read-live :
      (name rest : Bytes) (x : Effects V)
      → read_variable vars name (at rest true x)
        ≡ ((look_up vars name x).0, at rest true (look_up vars name x).1)
  unfolding read_variable look_up
  read-live name rest x = refl

  pub read-dead :
      (name rest : Bytes) (x : Effects V)
      → read_variable vars name (at rest false x) ≡ (0, at rest false x)
  unfolding read_variable
  read-dead name rest x = refl

  pub assign-live :
      (name behind rest : Bytes) (value : ℕ) (x : Effects V)
      → assign vars
          (record { name = name; compound = none; behind = behind })
          value
          (at rest true x)
        ≡ (value, at rest true (store_value vars name value x))
  unfolding assign
  assign-live name behind rest value x = rw (write-live name value rest x) refl

  pub update-live :
      (name behind rest : Bytes) (op : Operator) (b : ℕ) (x : Effects V)
      → let (a, x') = look_up vars name x in
        let (value, x'') = operate op a b x' in
        assign vars (record { name = name; compound = some op; behind = behind }) b (at rest true x)
        ≡ (value, at rest true (store_value vars name value x''))
  unfolding assign read_variable look_up
  update-live name behind rest op b x =
      let (a, x') = look_up vars name x in
      let (value_is, state_is) = apply-live op a b rest x' in
      let (value, x'') = operate op a b x' in
      rw (value_is, state_is, write-live name value rest x'') refl

  pub assign-dead :
      (t : Target) (rest : Bytes) (value : ℕ) (x : Effects V)
      → (assign vars t value (at rest false x)).1 ≡ at rest false x
  unfolding assign read_variable write_variable
  assign-dead t rest value x = go t.compound
    where
      go :
          (compound : Option Operator)
          → (assign vars
              (record { name = t.name; compound = compound; behind = t.behind })
              value
              (at rest false x)).1
            ≡ at rest false x
      go none = refl
      go (some op) = rw (apply-dead op 0 value rest x) refl
