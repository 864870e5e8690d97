-- ===== src/Arithmetic/Did.antt =====
-- The meaning of a tree put together from what src/runtime/arithmetic.cpp does at its parts, which it
-- reads live or skips.
use lesh.Base.{
  ℕ, ◌≡◌, refl, sym, inl, inr, Bool, true, false, not, ◌&&◌, ◌||◌, some, none, ◌∷◌, Bytes, ◌==◌,
  if◌then◌else◌, arith, Bool-cases, ◌∙◌,
}
use lesh.Arithmetic.Words.{Operator, truth}
use lesh.Arithmetic.State.{ArithmeticVariables, read_variable}
use lesh.Arithmetic.Parser.{Unary, apply_unary, apply_operator, Target, assign}
use lesh.Arithmetic.Trees.{
  Tree, assigned, updated, choice, either, both, sequence, binary, unary, variable, Compound,
  operator_of, Effects, at, meaning, operate, look_up, store_value,
}
use lesh.Arithmetic.Doing.{
  apply-live, apply-dead, read-live, read-dead, assign-live, update-live, assign-dead,
}

module _ {V : Type 0} (vars : ArithmeticVariables V) where
  -- Live, the value and the effects that the tree means; skipped, no effects.
  abbrev pub Did : Tree → Bool → Effects V → ℕ → Effects V → Type 0
  Did e live x v y = (live ≡ true → (v, y) ≡ meaning vars e x) × (live ≡ false → y ≡ x)

  pub choice-Did :
      (c a b : Tree) (live : Bool) (x xc xa xb : Effects V) (vc va vb : ℕ)
      → Did c live x vc xc
      → Did a (live && not (vc == 0)) xc va xa
      → Did b (live && vc == 0) xa vb xb
      → Did (choice c a b) live x (if vc == 0 then vb else va) xb
  unfolding meaning
  choice-Did c a b live x xc xa xb vc va vb h k l = (
    λ e. elim (Bool-cases (vc == 0)) [
      | inl z ↦ rw (sym (h.0 e), z) (rw (k.1 (rw (e, z) refl)) at l.0 (rw (e, z) refl))
      | inr z ↦ rw (sym (h.0 e), z) (rw (l.1 (rw (e, z) refl)) (k.0 (rw (e, z) refl)))
    ],
    λ e. (l.1 (rw e refl) ∙ k.1 (rw e refl)) ∙ h.1 e,
  )

  pub either-Did :
      (a b : Tree) (live : Bool) (x xa xb : Effects V) (va vb : ℕ)
      → Did a live x va xa
      → Did b (live && va == 0) xa vb xb
      → Did (either a b) live x (truth (not (va == 0) || not (vb == 0))) xb
  unfolding meaning
  either-Did a b live x xa xb va vb h k = (
    λ e. elim (Bool-cases (va == 0)) [
      | inl z ↦ rw (sym (h.0 e), z) (rw (sym (k.0 (rw (e, z) refl))) refl)
      | inr z ↦ rw (sym (h.0 e), z) (rw (k.1 (rw (e, z) refl)) refl)
    ],
    λ e. k.1 (rw e refl) ∙ h.1 e,
  )

  pub both-Did :
      (a b : Tree) (live : Bool) (x xa xb : Effects V) (va vb : ℕ)
      → Did a live x va xa
      → Did b (live && not (va == 0)) xa vb xb
      → Did (both a b) live x (truth (not (va == 0) && not (vb == 0))) xb
  unfolding meaning
  both-Did a b live x xa xb va vb h k = (
    λ e. elim (Bool-cases (va == 0)) [
      | inl z ↦ rw (sym (h.0 e), z) (rw (k.1 (rw (e, z) refl)) refl)
      | inr z ↦ rw (sym (h.0 e), z) (rw (sym (k.0 (rw (e, z) refl))) refl)
    ],
    λ e. k.1 (rw e refl) ∙ h.1 e,
  )

  pub sequence-Did :
      (a b : Tree) (live : Bool) (x xa xb : Effects V) (va vb : ℕ)
      → Did a live x va xa
      → Did b live xa vb xb
      → Did (sequence a b) live x vb xb
  unfolding meaning
  sequence-Did a b live x xa xb va vb h k = (λ e. rw (sym (h.0 e)) (k.0 e), λ e. k.1 e ∙ h.1 e)

  pub unary-Did :
      (op : Unary) (a : Tree) (live : Bool) (x xa : Effects V) (va : ℕ)
      → Did a live x va xa
      → Did (unary op a) live x (apply_unary op va) xa
  unfolding meaning
  unary-Did op a live x xa va h = (λ e. rw (sym (h.0 e)) refl, h.1)

  -- An operator leaves the text and `_live`.
  pub binary-Did :
      (op : Operator) (a b : Tree) (rest : Bytes) (live : Bool) (x xa xb : Effects V) (va vb : ℕ)
      → Did a live x va xa
      → Did b live xa vb xb
      → let r = apply_operator op va vb (at rest live xb) in
        (y : Effects V) × (r.1 ≡ at rest live y) × Did (binary op a b) live x r.0.1 y
  unfolding meaning
  binary-Did op a b rest true x xa xb va vb h k =
      let (value_is, state_is) = apply-live op va vb rest xb in
      (
        (operate op va vb xb).1,
        state_is,
        (λ e. rw (sym (h.0 e)) (rw (sym (k.0 e), value_is) refl), λ e. ground arith),
      )
  binary-Did op a b rest false x xa xb va vb h k =
      (xb, apply-dead op va vb rest xb, (λ e. ground arith, λ e. k.1 e ∙ h.1 e))

  pub variable-Did :
      (c : ℕ) (cs rest : Bytes) (live : Bool) (x : Effects V)
      → let r = read_variable vars (c ∷ cs) (at rest live x) in
        (y : Effects V) × (r.1 ≡ at rest live y) × Did (variable c cs) live x r.0 y
  unfolding meaning
  variable-Did c cs rest true x =
      let e = read-live vars (c ∷ cs) rest x in
      ((look_up vars (c ∷ cs) x).1, rw e refl, (λ _. rw e refl, λ n. ground arith))
  variable-Did c cs rest false x =
      let e = read-dead vars (c ∷ cs) rest x in (x, rw e refl, (λ n. ground arith, λ _. refl))

  pub assigned-Did :
      (c : ℕ) (cs behind rest : Bytes) (a : Tree) (live : Bool) (x xa : Effects V) (va : ℕ)
      → Did a live x va xa
      → let to : Target = record { name = c ∷ cs; compound = none; behind = behind } in
        let r = assign vars to va (at rest live xa) in
        (y : Effects V) × (r.1 ≡ at rest live y) × Did (assigned c cs a) live x r.0 y
  unfolding meaning
  assigned-Did c cs behind rest a true x xa va h =
      let e = assign-live vars (c ∷ cs) behind rest va xa in
      (
        store_value vars (c ∷ cs) va xa,
        rw e refl,
        (λ l. rw (sym (h.0 l), e) refl, λ n. ground arith),
      )
  assigned-Did c cs behind rest a false x xa va h =
      (xa, assign-dead vars _ rest va xa, (λ n. ground arith, h.1))

  pub updated-Did :
      (c : ℕ) (cs behind rest : Bytes) (op : Compound) (a : Tree) (live : Bool) (x xa : Effects V)
      (va : ℕ)
      → Did a live x va xa
      → let to : Target = record {
        name = c ∷ cs;
        compound = some (operator_of op);
        behind = behind;
      } in
        let r = assign vars to va (at rest live xa) in
        (y : Effects V) × (r.1 ≡ at rest live y) × Did (updated c cs op a) live x r.0 y
  unfolding meaning
  updated-Did c cs behind rest op a true x xa va h =
      let e = update-live vars (c ∷ cs) behind rest (operator_of op) va xa in
      let (b, y) = look_up vars (c ∷ cs) xa in
      let (value, z) = operate (operator_of op) b va y in
      (
        store_value vars (c ∷ cs) value z,
        rw e refl,
        (λ l. rw (sym (h.0 l), e) refl, λ n. ground arith),
      )
  updated-Did c cs behind rest op a false x xa va h =
      (xa, assign-dead vars _ rest va xa, (λ n. ground arith, h.1))
