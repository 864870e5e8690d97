-- ===== src/Numeric/Parse.antt =====
-- `parse_integer` of src/substrate/numeric.h at every site of the policy table.
use lesh.Base.{
  ℕ, suc, ◌-◌, ◌^◌, ◌≤◌, ◌<◌, ◌≡◌, ◌≢◌, refl, sym, ap, subst, ◌∙◌, inl, inr, Bool, true, false,
  Option, none, some, List, [], ◌∷◌, ◌++◌, Bytes, map, All, ltb, ◌==◌, if◌then◌else◌, min, length,
  drop, drop-append_self, arith, Bool-cases,
}
use lesh.Base.Int.{ℤ, pos, pos_part, neg_part, ◌≤ℤ◌, sub_ℕ, to_int64, word_neg, word_mod}
use lesh.Numeric.{
  ok, out_of_range, NumericResult, NumericSite, NumericPolicy, NumericBlanks, policy_for,
  numeric_limit, DigitRun, digit_value, scan_digits, is_blank, skip_blanks, take_sign, failure,
  result_of, finish, parse_signed, parse_integer,
}
use lesh.Numeric.Digits.{leading, number, Reads, scan_digits-Reads}

-- What the rows of the table have in common: zero is in range, and the range is one of `int64_t`.
pub record IsProper (p : NumericPolicy) : Type 0 where
  pub low_le : pos_part p.low ≡ 0
  pub low_fits : neg_part p.low ≤ 2 ^ 63
  pub high_ge : neg_part p.high ≡ 0
  pub high_fits : pos_part p.high < 2 ^ 63

policy_for-IsProper : (s : NumericSite) → IsProper (policy_for s)
policy_for-IsProper NumericSite.arithmetic_literal = omega arith
policy_for-IsProper _ = omega arith

-- The largest magnitude on each side of zero.
abbrev magnitude : NumericPolicy → Bool → ℕ
magnitude p true = neg_part p.low
magnitude p false = pos_part p.high

limit-magnitude :
    (p : NumericPolicy) (negative : Bool)
    → IsProper p
    → numeric_limit p negative ≡ magnitude p negative
limit-magnitude p true v = ground arith
limit-magnitude p false v = ground arith

-- What a sign and a magnitude stand for.
abbrev pub signed : Bool → ℕ → ℤ
signed true n = sub_ℕ 0 n
signed false n = pos n

signed-word :
    (negative : Bool) (n : ℕ)
    → n ≤ (if negative then 2 ^ 63 else 2 ^ 63 - 1)
    → to_int64 (if negative then word_neg n else n) ≡ signed negative n
signed-word true n h = ground arith
signed-word false n h = ground arith

signed-≤ :
    (p : NumericPolicy) (negative : Bool) (n : ℕ)
    → IsProper p
    → n ≤ magnitude p negative
    → (p.low ≤ℤ signed negative n) × (signed negative n ≤ℤ p.high)
signed-≤ p true n v h = (ground arith, ground arith)
signed-≤ p false n v h = (omega arith, omega arith)

-- The result for a sign and a magnitude with no bound: clamped to the range, and marked.
abbrev pub clamped : NumericPolicy → Bool → ℕ → NumericResult
clamped p negative n = record {
  status = if ltb (magnitude p negative) n then out_of_range else ok;
  value = signed negative (min n (magnitude p negative));
}

result_of-clamped :
    (p : NumericPolicy) (negative : Bool) (n : ℕ) (run : DigitRun)
    → IsProper p
    → Reads (numeric_limit p negative) n run
    → result_of negative run ≡ clamped p negative n
result_of-clamped p true n run v r =
    ground (arith, limit-magnitude p true v, signed-word true run.value)
result_of-clamped p false n run v r =
    ground (arith, limit-magnitude p false v, signed-word false run.value)

clamped-≤ :
    (p : NumericPolicy) (negative : Bool) (n : ℕ)
    → IsProper p
    → (p.low ≤ℤ (clamped p negative n).value) × ((clamped p negative n).value ≤ℤ p.high)
clamped-≤ p negative n v = signed-≤ p negative (min n (magnitude p negative)) v (omega arith)

limit-lt : (p : NumericPolicy) (negative : Bool) → IsProper p → numeric_limit p negative < word_mod
limit-lt p true v = omega arith
limit-lt p false v = ground arith

-- The digits of a text, and what they write.
abbrev pub written : Bytes → ℕ
written text = number 10 0 (leading 10 text)

abbrev pub InRange : NumericPolicy → NumericResult → Type 0
InRange p r = (p.low ≤ℤ r.value) × (r.value ≤ℤ p.high)

finish-≤ :
    (p : NumericPolicy) (negative : Bool) (text rest : Bytes)
    → IsProper p
    → InRange p (finish negative (scan_digits text 10 (numeric_limit p negative)) rest)
unfolding finish
finish-≤ p negative text (c ∷ rest) v = omega arith
finish-≤ p negative text [] v =
    let reads =
      (scan_digits-Reads text 10 (numeric_limit p negative) (omega arith)
        (limit-lt p negative v)).0 in
    let run = scan_digits text 10 (numeric_limit p negative) in
    let same = result_of-clamped p negative (written text) run v reads in
    elim (Bool-cases (run.consumed == 0)) [
      | inl e ↦ rw e (omega arith)
      | inr e ↦ rw e (subst (InRange p) (sym same) (clamped-≤ p negative (written text) v))
    ]

-- Whatever the text, the value lies in the range of its site: no site of the shell ever sees a
-- number that it cannot represent.
pub parse_integer-InRange :
    (text : Bytes) (s : NumericSite) → InRange (policy_for s) (parse_integer text s)
unfolding parse_integer parse_signed
parse_integer-InRange text s =
    let p = policy_for s in
    let signs = take_sign p.sign (skip_blanks p.blanks text) in
    finish-≤ p signs.0 signs.1 _ (policy_for-IsProper s)

abbrev IsDigit : ℕ → Type 0
IsDigit c = (b'0' ≤ c) × (c ≤ b'9')

-- The number that decimal digits write.
abbrev pub decimal : Bytes → ℕ
decimal ds = number 10 0 (map (λ c. c - b'0') ds)

abbrev pub sign_bytes : Option Bool → Bytes
sign_bytes none = []
sign_bytes (some true) = b'-' ∷ []
sign_bytes (some false) = b'+' ∷ []

abbrev pub is_minus : Option Bool → Bool
is_minus none = false
is_minus (some b) = b

-- What may stand behind the digits and is neither a digit nor a blank of the site.
abbrev EndsDigits : NumericBlanks → Bytes → Type 0
EndsDigits b [] = Unit
EndsDigits b (c ∷ rest) = (digit_value c 10 ≡ none) × (is_blank c b ≡ false)

digit_value-IsDigit : (c : ℕ) → IsDigit c → digit_value c 10 ≡ some (c - b'0')
unfolding digit_value
digit_value-IsDigit c h = ground arith

leading-digits :
    (b : NumericBlanks) (ds rest : Bytes)
    → All IsDigit ds
    → EndsDigits b rest
    → leading 10 (ds ++ rest) ≡ map (λ c. c - b'0') ds
leading-digits b [] [] h e = refl
leading-digits b [] (c ∷ rest) h e = rw (e.0, leading)
leading-digits b (d ∷ ds) rest h e =
    rw (digit_value-IsDigit d h.0, leading) (ap (◌∷◌ (d - b'0')) (leading-digits b ds rest h.1 e))

skip_blanks-id :
    (b : NumericBlanks) (c : ℕ) (text : Bytes)
    → is_blank c b ≡ false
    → skip_blanks b (c ∷ text) ≡ c ∷ text
unfolding skip_blanks
skip_blanks-id b c text h = rw h

visible : (b : NumericBlanks) (c : ℕ) → b'+' ≤ c → is_blank c b ≡ false
unfolding is_blank
visible NumericBlanks.no_blanks c h = refl
visible NumericBlanks.space_tab c h = ground arith
visible NumericBlanks.whitespace c h = ground arith

skip_blanks-EndsDigits :
    (b : NumericBlanks) (rest : Bytes) → EndsDigits b rest → skip_blanks b rest ≡ rest
skip_blanks-EndsDigits b [] e = unfold skip_blanks in refl
skip_blanks-EndsDigits b (c ∷ rest) e = skip_blanks-id b c rest e.1

take_sign-sign_bytes :
    (sign : Bool) (o : Option Bool) (d : ℕ) (text : Bytes)
    → (o ≢ none → sign ≡ true)
    → IsDigit d
    → take_sign sign (sign_bytes o ++ d ∷ text) ≡ (is_minus o, d ∷ text)
unfolding take_sign
take_sign-sign_bytes sign none d text h k = ground arith
take_sign-sign_bytes sign (some true) d text h k = rw (h (λ e. cc))
take_sign-sign_bytes sign (some false) d text h k = rw (h (λ e. cc))

signed_visible :
    (b : NumericBlanks) (o : Option Bool) (d : ℕ) (text : Bytes)
    → IsDigit d
    → skip_blanks b (sign_bytes o ++ d ∷ text) ≡ sign_bytes o ++ d ∷ text
signed_visible b none d text k = skip_blanks-id b d text (visible b d (omega arith))
signed_visible b (some true) d text k =
    skip_blanks-id b b'-' (d ∷ text) (visible b b'-' (omega arith))
signed_visible b (some false) d text k =
    skip_blanks-id b b'+' (d ∷ text) (visible b b'+' (omega arith))

length-map {ℓ κ} :
    {A : Type ℓ} {B : Type κ} (f : A → B) (xs : List A) → length (map f xs) ≡ length xs
length-map f [] = refl
length-map f (x ∷ xs) = ap suc (length-map f xs)

-- The result for a sign, digits, and what is behind them.
abbrev pub expected : NumericPolicy → Bool → ℕ → Bytes → NumericResult
expected p negative n [] = clamped p negative n
expected p negative n (c ∷ rest) = failure

finish-expected :
    (p : NumericPolicy) (negative : Bool) (n : ℕ) (run : DigitRun) (rest : Bytes)
    → IsProper p
    → Reads (numeric_limit p negative) n run
    → 0 < run.consumed
    → finish negative run rest ≡ expected p negative n rest
unfolding finish
finish-expected p negative n run [] v r c = elim (Bool-cases (run.consumed == 0)) [
  | inl e ↦ absurd (ground arith)
  | inr e ↦ rw e (result_of-clamped p negative n run v r)
]
finish-expected p negative n run (c ∷ rest) v r k = refl

parse_signed-expected :
    (p : NumericPolicy) (negative : Bool) (d : ℕ) (ds rest : Bytes)
    → IsProper p
    → All IsDigit (d ∷ ds)
    → EndsDigits p.blanks rest
    → parse_signed p (negative, d ∷ (ds ++ rest)) ≡ expected p negative (decimal (d ∷ ds)) rest
unfolding parse_signed
parse_signed-expected p negative d ds rest v h e =
    let text : Bytes = d ∷ (ds ++ rest) in
    let run = scan_digits text 10 (numeric_limit p negative) in
    let (reads, count) =
      scan_digits-Reads text 10 (numeric_limit p negative) (omega arith) (limit-lt p negative v) in
    let same : leading 10 text ≡ map (λ c. c - b'0') (d ∷ ds) =
      leading-digits p.blanks (d ∷ ds) rest h e in
    let taken : run.consumed ≡ length (d ∷ ds) =
      count ∙ ap length same ∙ length-map (λ c. c - b'0') (d ∷ ds) in
    let left : drop run.consumed text ≡ rest = rw taken (drop-append_self ds rest) in
    rw (left, skip_blanks-EndsDigits p.blanks rest e)
      (finish-expected p negative (decimal (d ∷ ds)) run rest v (rw same at reads) (omega arith))

-- An operand that is decimal digits, behind a sign where the site takes one, is read as its
-- integer: marked as out of range and clamped to the range exactly when it is not in the range of
-- the site. Where a byte follows that is neither a digit nor a blank of the site, it is no number.
pub parse_integer-expected :
    (s : NumericSite) (o : Option Bool) (d : ℕ) (ds rest : Bytes)
    → (o ≢ none → (policy_for s).sign ≡ true)
    → All IsDigit (d ∷ ds)
    → EndsDigits (policy_for s).blanks rest
    → parse_integer (sign_bytes o ++ d ∷ (ds ++ rest)) s
      ≡ expected (policy_for s) (is_minus o) (decimal (d ∷ ds)) rest
unfolding parse_integer
parse_integer-expected s o d ds rest g h e =
    let p = policy_for s in
    rw
      (
        signed_visible p.blanks o d (ds ++ rest) h.0,
        take_sign-sign_bytes p.sign o d (ds ++ rest) g h.0,
      )
      (parse_signed-expected p (is_minus o) d ds rest (policy_for-IsProper s) h e)
