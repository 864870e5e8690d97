-- ===== src/Arithmetic/Follows.antt =====
-- What one step of the evaluator of src/runtime/arithmetic.cpp may do to it.

use lesh.Base.{
  ℕ, suc, ◌^◌, ◌≤◌, ◌<◌, ◌≡◌, ◌⊎◌, inl, inr, refl, Bool, true, false, not, ◌&&◌, Option, none, some,
  List, [], ◌∷◌, Bytes, drop, length, ◌∙◌, ◌==◌, if◌then◌else◌, arith, Bool-cases, Option-cases,
  length-drop, All,
}
use lesh.Arithmetic.Words.{
  Operator, compute, divides, truth, bit_or_op, bit_xor_op, bit_and_op, eq_op, ne_op, le_op, ge_op,
  lt_op, gt_op, shift_up_op, shift_down_op, add_op, sub_op, mul_op, div_op, mod_op,
}
use lesh.Arithmetic.State.{
  ArithmeticVariables, ArithmeticError, division_by_zero, readonly_variable, Evaluator, starts,
  consume, fail, divide_by_zero, with_live, read_variable, write_variable, skip_blanks,
  belongs_to_longer,
}
use lesh.Arithmetic.Parser.{
  find_operator, apply_operator, apply_compound, Target, assign, Unary, apply_unary, not_op,
  complement_op, minus_op, plus_op,
}

-- An error that comes of evaluating, not of the text.
abbrev pub is_effect : Option ArithmeticError → Bool
is_effect (some division_by_zero) = true
is_effect (some readonly_variable) = true
is_effect other = false

pub skip_blanks-le : (text : Bytes) → length (skip_blanks text) ≤ length text
unfolding skip_blanks
skip_blanks-le [] = omega arith
skip_blanks-le (c ∷ text) = ground (arith, skip_blanks-le text)

starts-lt :
    (c : ℕ) (op text : Bytes)
    → starts (c ∷ op) text ≡ true
    → length (drop (suc (length op)) text) < length text
starts-lt c op [] h = ground arith
starts-lt c op (d ∷ text) h = omega (arith, length-drop (length op) text)

pub truth-lt : (b : Bool) → truth b < 2 ^ 64
truth-lt true = omega arith
truth-lt false = omega arith

compute-lt : (op : Operator) (a b : ℕ) → compute op a b < 2 ^ 64
unfolding compute
compute-lt bit_or_op a b = omega arith
compute-lt bit_xor_op a b = omega arith
compute-lt bit_and_op a b = omega arith
compute-lt eq_op a b = truth-lt _
compute-lt ne_op a b = truth-lt _
compute-lt le_op a b = truth-lt _
compute-lt ge_op a b = truth-lt _
compute-lt lt_op a b = truth-lt _
compute-lt gt_op a b = truth-lt _
compute-lt shift_up_op a b = omega arith
compute-lt shift_down_op a b = ground arith
compute-lt add_op a b = omega arith
compute-lt sub_op a b = omega arith
compute-lt mul_op a b = omega arith
compute-lt div_op a b = ground arith
compute-lt mod_op a b = ground arith

pub apply_unary-lt : (op : Unary) (v : ℕ) → v < 2 ^ 64 → apply_unary op v < 2 ^ 64
apply_unary-lt not_op v h = truth-lt _
apply_unary-lt complement_op v h = omega arith
apply_unary-lt minus_op v h = omega arith
apply_unary-lt plus_op v h = h

module _ {V : Type 0} where
  -- The text is read forwards, `_live` is as before, and where it is off nothing is done.
  pub record Follows (s s' : Evaluator V) : Type 0 where
    pub shorter : length s'.rest ≤ length s.rest
    pub live_kept : s'.live ≡ s.live
    pub quiet :
        s.live ≡ false
        → (s'.vars ≡ s.vars)
          × (s'.unset_name ≡ s.unset_name)
          × (s'.refused ≡ s.refused)
          × (is_effect s'.error ≡ true → is_effect s.error ≡ true)

  pub Follows-trans : (s t u : Evaluator V) → Follows s t → Follows t u → Follows s u
  Follows-trans s t u h k = record {
    shorter = omega (arith, h.shorter, k.shorter);
    live_kept = k.live_kept ∙ h.live_kept;
    quiet = λ e.
        let (a, b, c, d) = h.quiet e in
        let (a', b', c', d') = k.quiet (h.live_kept ∙ e) in (a' ∙ a, b' ∙ b, c' ∙ c, λ x. d (d' x));
  }

  pub moved :
      (s : Evaluator V) (text : Bytes)
      → length text ≤ length s.rest
      → Follows s (record s { rest = text })
  moved s text h = record { shorter = h; live_kept = refl; quiet = λ e. (refl, refl, refl, λ x. x) }

  -- An operand that may be skipped, with `_live` put back behind it.
  pub restored :
      (s s' : Evaluator V) (b : Bool)
      → Follows (with_live (s.live && b) s) s'
      → Follows s (with_live s.live s')
  restored s s' b h = record {
    shorter = h.shorter;
    live_kept = refl;
    quiet = λ e. h.quiet (rw e refl);
  }

  -- `consume` moves in the text and does nothing else, and where it answers true it takes a byte.
  pub consume_cases :
      (c : ℕ) (op : Bytes) (s : Evaluator V)
      → (text : Bytes) × (((consume (c ∷ op) s ≡ (true, record s { rest = text }))
            × (length text < length s.rest))
          ⊎ ((consume (c ∷ op) s ≡ (false, record s { rest = text }))
              × (length text ≤ length s.rest)))
  unfolding consume
  consume_cases c op s =
      let text = skip_blanks s.rest in
      let le = skip_blanks-le s.rest in
      elim (Bool-cases (starts (c ∷ op) text && not (belongs_to_longer (c ∷ op) text))) [
        | inl e ↦
            let there : starts (c ∷ op) text ≡ true = ground arith in
            (
              drop (suc (length op)) text,
              inl (rw e refl, omega (arith, le, starts-lt c op text there)),
            )
        | inr e ↦ (text, inr (rw e refl, le))
      ]

  pub find_operator_cases :
      {A : Type 0} (ops : List (Bytes × A)) (s : Evaluator V)
      → All (λ p. 0 < length p.0) ops
      → (text : Bytes) × (((a : A) × (find_operator ops s ≡ (some a, record s { rest = text }))
            × (length text < length s.rest))
          ⊎ ((find_operator ops s ≡ (none, record s { rest = text }))
              × (length text ≤ length s.rest)))
  unfolding find_operator
  find_operator_cases [] s h = (s.rest, inr (refl, omega arith))
  find_operator_cases (([], a) ∷ ops) s h = elim h.0 [ ]
  find_operator_cases ((c ∷ op, a) ∷ ops) s h =
      let (text, first) = consume_cases c op s in
      elim first [
        | inl (e, lt) ↦ (text, inl (a, rw e refl, lt))
        | inr (e, le) ↦
            let (text', more) = find_operator_cases ops (record s { rest = text }) h.1 in
            (
              text',
              elim more [
                | inl (b, e', lt) ↦ inl (b, rw (e, e') refl, omega (arith, lt, le))
                | inr (e', le') ↦ inr (rw (e, e') refl, omega (arith, le', le))
              ],
            )
      ]

  pub Follows-refl : (s : Evaluator V) → Follows s s
  Follows-refl s = moved s s.rest (omega arith)

  pub Follows-if :
      {s t u : Evaluator V} (b : Bool)
      → (b ≡ true → Follows s t)
      → (b ≡ false → Follows s u)
      → Follows s (if b then t else u)
  Follows-if true h k = h refl
  Follows-if false h k = k refl

  Follows-second :
      {A : Type 0} {s : Evaluator V} (p q : A × Evaluator V) (b : Bool)
      → (b ≡ true → Follows s p.1)
      → (b ≡ false → Follows s q.1)
      → Follows s (if b then p else q).1
  Follows-second p q true h k = h refl
  Follows-second p q false h k = k refl

  -- Where `_live` is on anything may be done.
  acts :
      (s t : Evaluator V)
      → s.live ≡ true
      → length t.rest ≤ length s.rest
      → t.live ≡ s.live
      → Follows s t
  acts s t e r l = record { shorter = r; live_kept = l; quiet = λ n. absurd (off n) }
    where
      off : ¬ (s.live ≡ false)
      off n = cc

  pub fail-Follows :
      (why : ArithmeticError) (s : Evaluator V)
      → (s.live ≡ false → is_effect (some why) ≡ false)
      → Follows s (fail why s)
  unfolding fail
  fail-Follows why s h =
      Follows-if s.failed (λ e. Follows-refl s)
        (λ e. record {
          shorter = omega arith;
          live_kept = refl;
          quiet = λ l. (refl, refl, refl, λ x. ground (arith, h l));
        })

  divide_by_zero-Follows : (s : Evaluator V) → Follows s (divide_by_zero s).1
  unfolding divide_by_zero
  divide_by_zero-Follows s =
      Follows-second _ _ s.live (λ e. fail-Follows division_by_zero s (λ l. ground arith))
        (λ e. Follows-refl s)

  pub apply_operator-Follows :
      (op : Operator) (a b : ℕ) (s : Evaluator V) → Follows s (apply_operator op a b s).1
  unfolding apply_operator
  apply_operator-Follows op a b s = elim (Bool-cases (divides op && b == 0)) [
    | inl e ↦ rw e (divide_by_zero-Follows s)
    | inr e ↦ rw e (moved s s.rest (omega arith))
  ]

  pub apply_operator-lt :
      (op : Operator) (a b : ℕ) (s : Evaluator V) → (apply_operator op a b s).0.1 < 2 ^ 64
  unfolding apply_operator
  apply_operator-lt op a b s = elim (Bool-cases (divides op && b == 0)) [
    | inl e ↦ rw e (omega arith)
    | inr e ↦ rw e (compute-lt op a b)
  ]

module _ {V : Type 0} (vars : ArithmeticVariables V) where
  pub read_variable-Follows :
      (name : Bytes) (s : Evaluator V) → Follows s (read_variable vars name s).1
  unfolding read_variable
  read_variable-Follows name s =
      Follows-second _ _ s.live (λ e. acts s _ e (omega arith) refl) (λ e. Follows-refl s)

  write_variable-Follows :
      (name : Bytes) (value : ℕ) (s : Evaluator V) → Follows s (write_variable vars name value s)
  unfolding write_variable
  write_variable-Follows name value s =
      let (held, taken) = vars.set s.vars name value in
      let refused = record s { vars = held; refused = true } in
      Follows-if s.live
        (λ e.
          Follows-if taken (λ _. acts s _ e (omega arith) refl)
            (λ _.
              Follows-trans s refused _ (acts s refused e (omega arith) refl)
                (fail-Follows readonly_variable refused (λ l. ground (arith, e, l)))))
        (λ e. Follows-refl s)

  pub assign-Follows : (t : Target) (rhs : ℕ) (s : Evaluator V) → Follows s (assign vars t rhs s).1
  unfolding assign
  assign-Follows t rhs s = elim (Option-cases t.compound) [
    | inl e ↦ rw (e, assign) (write_variable-Follows t.name rhs s)
    | inr (op, e) ↦
        let (lhs, s') = read_variable vars t.name s in
        let h = read_variable-Follows t.name s in
        let (result, s'') = apply_compound op lhs rhs s' in
        let k = apply_operator-Follows op lhs rhs s' in
        rw (e, assign)
          (Follows-trans s s' _ h
            (Follows-trans s' s'' _ k (write_variable-Follows t.name result s'')))
  ]
