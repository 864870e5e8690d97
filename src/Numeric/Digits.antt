-- ===== src/Numeric/Digits.antt =====
-- `scan_digits` and `accumulate_digit` of src/substrate/numeric.h against the number that the
-- digits write, with no bound.
use native.Mathlib.Nat.{le-div_iff_mul-le}
use lesh.Base.{
  ℕ, ◌+◌, ◌-◌, ◌*◌, ◌≤◌, ◌<◌, ◌≡◌, refl, inl, inr, true, false, none, some, List, [], ◌∷◌, Bytes,
  ltb, min, length, arith, Bool-cases, Option-cases,
}
use lesh.Base.Int.{word_mod}
use lesh.Numeric.{accumulate_digit, digit_value, DigitRun, add_digit, scan_from, scan_digits}

-- The digits that a text starts with.
abbrev pub leading : ℕ → Bytes → List ℕ
leading base [] = []
leading base (c ∷ text) = elim (digit_value c base) [ none ↦ [] | some d ↦ d ∷ leading base text ]

-- The number that digits write behind those of `n`.
abbrev pub number : ℕ → ℕ → List ℕ → ℕ
number base n [] = n
number base n (d ∷ ds) = number base (n * base + d) ds

pub record Reads (limit n : ℕ) (run : DigitRun) : Type 0 where
  pub value_is : run.value ≡ min n limit
  pub overflowed_is : run.overflowed ≡ ltb limit n

-- A digit that fits is taken, and one that does not leaves the limit.
accumulate_fits :
    (base limit n d : ℕ)
    → 0 < base
    → limit < word_mod
    → n * base + d ≤ limit
    → accumulate_digit n d base limit ≡ (n * base + d, true)
unfolding accumulate_digit
accumulate_fits base limit n d b w h =
    grind (arith, le-div_iff_mul-le {k = base} {x = n} {y = limit - d} b)

accumulate_clamps :
    (base limit n d : ℕ)
    → 0 < base
    → limit < n * base + d
    → accumulate_digit n d base limit ≡ (limit, false)
unfolding accumulate_digit
accumulate_clamps base limit n d b h =
    grind (arith, le-div_iff_mul-le {k = base} {x = n} {y = limit - d} b)

le-mul_pos : (n base : ℕ) → 0 < base → n ≤ n * base
le-mul_pos n base b = grind arith

add_digit-Reads :
    (base limit n d : ℕ) (run : DigitRun)
    → 0 < base
    → limit < word_mod
    → Reads limit n run
    → Reads limit (n * base + d) (add_digit base limit run d)
unfolding add_digit
add_digit-Reads base limit n d run b w r = elim (Bool-cases (ltb limit n)) [
  | inl past ↦ elim (Bool-cases (ltb limit (limit * base + d))) [
    | inl k ↦ ground (arith, le-mul_pos n base b, accumulate_clamps base limit limit d b)
    | inr k ↦ ground (
      arith,
      le-mul_pos n base b,
      le-mul_pos limit base b,
      accumulate_fits base limit limit d b w,
    )
  ]
  | inr within ↦
      ground (arith, accumulate_fits base limit n d b w, accumulate_clamps base limit n d b)
]

scan_from-Reads :
    (base limit n : ℕ) (run : DigitRun) (text : Bytes)
    → 0 < base
    → limit < word_mod
    → Reads limit n run
    → Reads limit (number base n (leading base text)) (scan_from base limit run text)
unfolding scan_from
scan_from-Reads base limit n run [] b w r = r
scan_from-Reads base limit n run (c ∷ text) b w r = elim (Option-cases (digit_value c base)) [
  | inl e ↦ rw (e, leading, scan_from) r
  | inr (d, e) ↦
      rw (e, leading, scan_from)
        (scan_from-Reads base limit (n * base + d) (add_digit base limit run d) text b w
          (add_digit-Reads base limit n d run b w r))
]

scan_from-consumed :
    (base limit : ℕ) (run : DigitRun) (text : Bytes)
    → (scan_from base limit run text).consumed ≡ run.consumed + length (leading base text)
unfolding scan_from
scan_from-consumed base limit run [] = omega arith
scan_from-consumed base limit run (c ∷ text) = elim (Option-cases (digit_value c base)) [
  | inl e ↦ rw (e, leading, scan_from) (omega arith)
  | inr (d, e) ↦
      rw (e, leading, scan_from)
        (omega (
          arith,
          scan_from-consumed base limit (add_digit base limit run d) text,
          add_digit-consumed base limit run d,
        ))
]
  where
    add_digit-consumed :
        (base limit : ℕ) (run : DigitRun) (d : ℕ)
        → (add_digit base limit run d).consumed ≡ run.consumed + 1
    add_digit-consumed base limit run d = unfold add_digit in refl

-- `scan_digits` takes the digits that the text starts with and no more, reports an overflow exactly
-- when the number that they write exceeds the limit, and holds that number, or the limit then.
pub scan_digits-Reads :
    (text : Bytes) (base limit : ℕ)
    → 0 < base
    → limit < word_mod
    → Reads limit (number base 0 (leading base text)) (scan_digits text base limit)
      × ((scan_digits text base limit).consumed ≡ length (leading base text))
unfolding scan_digits
scan_digits-Reads text base limit b w = (
  scan_from-Reads base limit 0 _ text b w
      (record { value_is = omega arith; overflowed_is = ground arith }),
  omega (
    arith,
    scan_from-consumed base limit (record { consumed = 0; value = 0; overflowed = false }) text,
  ),
)
