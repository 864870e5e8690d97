-- ===== src/Arithmetic/Atoms.antt =====
-- The names and the literals of a printed tree, read by src/runtime/arithmetic.cpp.
use lesh.Base.{
  ℕ, suc, ◌-◌, ◌≤◌, ◌≡◌, refl, ap, Bool, true, false, ◌&&◌, none, some, [], ◌∷◌, ◌++◌, Bytes,
  length, leb, min, ◌==◌, arith, codes, All, take-append_self, drop-append_self,
}
use lesh.Numeric.{scan_digits, digit_value}
use lesh.Numeric.Digits.{leading, number, scan_digits-Reads}
use lesh.Arithmetic.State.{
  ArithmeticVariables, consume, skip_blanks, starts_name, continues_name, read_variable,
}
use lesh.Arithmetic.Parser.{
  find_operator, unary_operators, target, compound_target, compound_operators, name_length,
  skip_spaces, parse_number, parse_name, parse_atom, atom_at, literal_base, literal_limit,
}
use lesh.Arithmetic.Trees.{
  Compound, up, down, plus, minus, times, over, modulo, with_and, with_xor, with_or, operator_of,
  symbol, IsDigit, Effects, at,
}

-- A byte of a name or a literal begins neither an operator nor a group.
abbrev pub IsPlain : ℕ → Type 0
IsPlain c = (48 ≤ c) × (c ≤ 122)

pub starts_name-IsPlain : (c : ℕ) → starts_name c ≡ true → IsPlain c
starts_name-IsPlain c h = ground arith

pub skip_blanks-plain : (c : ℕ) (text : Bytes) → IsPlain c → skip_blanks (c ∷ text) ≡ c ∷ text
unfolding skip_blanks
skip_blanks-plain c text h = ground arith

module _ {V : Type 0} where
  pub unary_none-plain :
      (c : ℕ) (text : Bytes) (live : Bool) (x : Effects V)
      → IsPlain c
      → find_operator unary_operators (at (c ∷ text) live x) ≡ (none, at (c ∷ text) live x)
  unfolding find_operator consume skip_blanks
  unary_none-plain c text live x h = ground arith

  pub no_group-plain :
      (c : ℕ) (text : Bytes) (live : Bool) (x : Effects V)
      → IsPlain c
      → consume (codes "(") (at (c ∷ text) live x) ≡ (false, at (c ∷ text) live x)
  unfolding consume skip_blanks
  no_group-plain c text live x h = ground arith

name_length-append :
    (cs : Bytes) (d : ℕ) (tail : Bytes)
    → All (λ e. continues_name e ≡ true) cs
    → continues_name d ≡ false
    → name_length (cs ++ (d ∷ tail)) ≡ length cs
unfolding name_length
name_length-append [] d tail h k = rw k refl
name_length-append (c ∷ cs) d tail h k = rw (h.0, name_length-append cs d tail h.1 k) refl

name_length-name :
    (c : ℕ) (cs : Bytes) (d : ℕ) (tail : Bytes)
    → starts_name c ≡ true
    → All (λ e. continues_name e ≡ true) cs
    → continues_name d ≡ false
    → name_length (c ∷ (cs ++ (d ∷ tail))) ≡ suc (length cs)
unfolding name_length
name_length-name c cs d tail h k n = rw (h, name_length-append cs d tail k n) refl

target-name :
    (c : ℕ) (cs : Bytes) (d : ℕ) (tail : Bytes)
    → starts_name c ≡ true
    → All (λ e. continues_name e ≡ true) cs
    → continues_name d ≡ false
    → target (skip_blanks (c ∷ (cs ++ (d ∷ tail))))
      ≡ compound_target (c ∷ cs) (skip_spaces (d ∷ tail)) compound_operators
unfolding target
target-name c cs d tail h k n =
    rw
      (
        skip_blanks-plain c (cs ++ (d ∷ tail)) (starts_name-IsPlain c h),
        name_length-name c cs d tail h k n,
        h,
        take-append_self cs (d ∷ tail),
        drop-append_self cs (d ∷ tail),
      )
      refl

module _ (c : ℕ) (cs tail : Bytes) (h : starts_name c ≡ true)
    (k : All (λ e. continues_name e ≡ true) cs) where
  pub target-read : target (skip_blanks (c ∷ (cs ++ (b')' ∷ tail)))) ≡ none
  unfolding compound_target skip_spaces
  target-read = target-name c cs b')' tail h k refl

  pub target-assigned :
      target (skip_blanks (c ∷ (cs ++ (b'=' ∷ b'(' ∷ tail))))
      ≡ some (record { name = c ∷ cs; compound = none; behind = b'(' ∷ tail })
  unfolding compound_target skip_spaces
  target-assigned = target-name c cs b'=' (b'(' ∷ tail) h k refl

  pub target-updated :
      (op : Compound)
      → target (skip_blanks (c ∷ (cs ++ (symbol (operator_of op) ++ (b'=' ∷ b'(' ∷ tail)))))
        ≡ some (record { name = c ∷ cs; compound = some (operator_of op); behind = b'(' ∷ tail })
  unfolding compound_target skip_spaces
  target-updated up = target-name c cs b'<' (b'<' ∷ b'=' ∷ b'(' ∷ tail) h k refl
  target-updated down = target-name c cs b'>' (b'>' ∷ b'=' ∷ b'(' ∷ tail) h k refl
  target-updated plus = target-name c cs b'+' (b'=' ∷ b'(' ∷ tail) h k refl
  target-updated minus = target-name c cs b'-' (b'=' ∷ b'(' ∷ tail) h k refl
  target-updated times = target-name c cs b'*' (b'=' ∷ b'(' ∷ tail) h k refl
  target-updated over = target-name c cs b'/' (b'=' ∷ b'(' ∷ tail) h k refl
  target-updated modulo = target-name c cs b'%' (b'=' ∷ b'(' ∷ tail) h k refl
  target-updated with_and = target-name c cs b'&' (b'=' ∷ b'(' ∷ tail) h k refl
  target-updated with_xor = target-name c cs b'^' (b'=' ∷ b'(' ∷ tail) h k refl
  target-updated with_or = target-name c cs b'|' (b'=' ∷ b'(' ∷ tail) h k refl

-- The look ahead finds no name at any other byte.
pub target-none :
    (c : ℕ) (text : Bytes)
    → skip_blanks (c ∷ text) ≡ c ∷ text
    → starts_name c ≡ false
    → target (skip_blanks (c ∷ text)) ≡ none
unfolding target
target-none c text e h = rw (e, h) refl

leading-append :
    (ds tail : Bytes)
    → All IsDigit ds
    → (leading 10 (ds ++ (b')' ∷ tail)) ≡ leading 10 ds) × (length (leading 10 ds) ≡ length ds)
unfolding digit_value
leading-append [] tail h = (refl, refl)
leading-append (d ∷ ds) tail h =
    let (e, l) = leading-append ds tail h.1 in
    let v : digit_value d 10 ≡ some (d - 48) = ground (arith, h.0) in
    (rw (v, leading, e) refl, rw (v, leading) (ap suc l))

literal_base-decimal :
    (c : ℕ) (ds tail : Bytes)
    → IsDigit c
    → (c ≡ 48 → ds ≡ [])
    → literal_base (c ∷ (ds ++ (b')' ∷ tail))) ≡ (10, c ∷ (ds ++ (b')' ∷ tail)))
unfolding literal_base
literal_base-decimal c [] tail h z = ground arith
literal_base-decimal c (d ∷ ds) tail h z = ground (arith, z)

module _ {V : Type 0} (vars : ArithmeticVariables V) where
  pub parse_atom-literal :
      (c : ℕ) (ds tail : Bytes) (live : Bool) (x : Effects V)
      → IsDigit c
      → All IsDigit ds
      → (c ≡ 48 → ds ≡ [])
      → parse_atom vars (at (c ∷ (ds ++ (b')' ∷ tail))) live x)
        ≡ some
            (min (number 10 0 (leading 10 (c ∷ ds))) 9223372036854775807, at (b')' ∷ tail) live x)
  unfolding parse_atom atom_at parse_number
  parse_atom-literal c ds tail live x h k z =
      let text = c ∷ (ds ++ (b')' ∷ tail)) in
      let (reads, taken) = scan_digits-Reads text 10 literal_limit (omega arith) (omega arith) in
      let (same_digits, size) = leading-append (c ∷ ds) tail (h, k) in
      let digit : (leb b'0' c && leb c b'9') ≡ true = ground arith in
      let consumed : (scan_digits text 10 literal_limit).consumed ≡ suc (length ds) =
        (rw (same_digits, size) at taken) in
      let value : (scan_digits text 10 literal_limit).value
          ≡ min (number 10 0 (leading 10 (c ∷ ds))) literal_limit =
        (rw same_digits at reads.value_is) in
      let taken_some : (suc (length ds) == 0) ≡ false = ground arith in
      rw
        (
          digit,
          literal_base-decimal c ds tail h z,
          consumed,
          value,
          taken_some,
          drop-append_self ds (b')' ∷ tail),
        )
        refl

  pub parse_atom-name :
      (c : ℕ) (cs tail : Bytes) (live : Bool) (x : Effects V)
      → starts_name c ≡ true
      → All (λ e. continues_name e ≡ true) cs
      → parse_atom vars (at (c ∷ (cs ++ (b')' ∷ tail))) live x)
        ≡ some (read_variable vars (c ∷ cs) (at (b')' ∷ tail) live x))
  unfolding parse_atom atom_at parse_name
  parse_atom-name c cs tail live x h k =
      let digit : (leb b'0' c && leb c b'9') ≡ false = ground arith in
      rw
        (
          digit,
          h,
          name_length-name c cs b')' tail h k refl,
          take-append_self cs (b')' ∷ tail),
          drop-append_self cs (b')' ∷ tail),
        )
        refl
