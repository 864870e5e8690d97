-- ===== src/Arithmetic/Enders.antt =====
-- What may stand behind an expression of src/runtime/arithmetic.cpp, where no operator is found.
use lesh.Base.{ℕ, ◌≡◌, refl, Bool, none, ◌∷◌, Bytes}
use lesh.Arithmetic.State.{Evaluator, consume, skip_blanks}
use lesh.Arithmetic.Parser.{
  find_operator, Level, bit_or_level, bit_xor_level, bit_and_level, equality, relational, shift,
  additive, multiplicative, operators,
}
use lesh.Arithmetic.Trees.{Effects, at}

-- What may stand behind an expression inside a larger one.
pub data Ender : Type 0 where
  closing colon question comma : Ender

abbrev pub ender : Ender → ℕ
ender closing = b')'
ender colon = b':'
ender question = b'?'
ender comma = b','

module _ {V : Type 0} where
  -- No operator of the level is there.
  abbrev pub Halts : Level → Evaluator V → Type 0
  Halts l t = find_operator (operators l) t ≡ (none, t)

  abbrev pub BelowMultiplicative : Evaluator V → Type 0
  BelowMultiplicative t = Unit

  abbrev pub BelowAdditive : Evaluator V → Type 0
  BelowAdditive t = Halts multiplicative t × BelowMultiplicative t

  abbrev pub BelowShift : Evaluator V → Type 0
  BelowShift t = Halts additive t × BelowAdditive t

  abbrev pub BelowRelational : Evaluator V → Type 0
  BelowRelational t = Halts shift t × BelowShift t

  abbrev pub BelowEquality : Evaluator V → Type 0
  BelowEquality t = Halts relational t × BelowRelational t

  abbrev pub BelowBitAnd : Evaluator V → Type 0
  BelowBitAnd t = Halts equality t × BelowEquality t

  abbrev pub BelowBitXor : Evaluator V → Type 0
  BelowBitXor t = Halts bit_and_level t × BelowBitAnd t

  abbrev pub BelowBitOr : Evaluator V → Type 0
  BelowBitOr t = Halts bit_xor_level t × BelowBitXor t

  -- None of the levels below it is.
  abbrev pub HaltsBelow : Level → Evaluator V → Type 0
  HaltsBelow bit_or_level = BelowBitOr
  HaltsBelow bit_xor_level = BelowBitXor
  HaltsBelow bit_and_level = BelowBitAnd
  HaltsBelow equality = BelowEquality
  HaltsBelow relational = BelowRelational
  HaltsBelow shift = BelowShift
  HaltsBelow additive = BelowAdditive
  HaltsBelow multiplicative = BelowMultiplicative

  pub ender-Halts :
      (l : Level) (e : Ender) (tail : Bytes) (live : Bool) (x : Effects V)
      → Halts l (at (ender e ∷ tail) live x)
  unfolding find_operator consume skip_blanks
  ender-Halts bit_or_level closing tail live x = refl
  ender-Halts bit_or_level colon tail live x = refl
  ender-Halts bit_or_level question tail live x = refl
  ender-Halts bit_or_level comma tail live x = refl
  ender-Halts bit_xor_level closing tail live x = refl
  ender-Halts bit_xor_level colon tail live x = refl
  ender-Halts bit_xor_level question tail live x = refl
  ender-Halts bit_xor_level comma tail live x = refl
  ender-Halts bit_and_level closing tail live x = refl
  ender-Halts bit_and_level colon tail live x = refl
  ender-Halts bit_and_level question tail live x = refl
  ender-Halts bit_and_level comma tail live x = refl
  ender-Halts equality closing tail live x = refl
  ender-Halts equality colon tail live x = refl
  ender-Halts equality question tail live x = refl
  ender-Halts equality comma tail live x = refl
  ender-Halts relational closing tail live x = refl
  ender-Halts relational colon tail live x = refl
  ender-Halts relational question tail live x = refl
  ender-Halts relational comma tail live x = refl
  ender-Halts shift closing tail live x = refl
  ender-Halts shift colon tail live x = refl
  ender-Halts shift question tail live x = refl
  ender-Halts shift comma tail live x = refl
  ender-Halts additive closing tail live x = refl
  ender-Halts additive colon tail live x = refl
  ender-Halts additive question tail live x = refl
  ender-Halts additive comma tail live x = refl
  ender-Halts multiplicative closing tail live x = refl
  ender-Halts multiplicative colon tail live x = refl
  ender-Halts multiplicative question tail live x = refl
  ender-Halts multiplicative comma tail live x = refl

  pub ender-HaltsBelow :
      (l : Level) (e : Ender) (tail : Bytes) (live : Bool) (x : Effects V)
      → HaltsBelow l (at (ender e ∷ tail) live x)
  ender-HaltsBelow bit_or_level e tail live x = (
    ender-Halts bit_xor_level e tail live x,
    (
      ender-Halts bit_and_level e tail live x,
      (
        ender-Halts equality e tail live x,
        (
          ender-Halts relational e tail live x,
          (
            ender-Halts shift e tail live x,
            (ender-Halts additive e tail live x, (ender-Halts multiplicative e tail live x, tt)),
          ),
        ),
      ),
    ),
  )
  ender-HaltsBelow bit_xor_level e tail live x = (
    ender-Halts bit_and_level e tail live x,
    (
      ender-Halts equality e tail live x,
      (
        ender-Halts relational e tail live x,
        (
          ender-Halts shift e tail live x,
          (ender-Halts additive e tail live x, (ender-Halts multiplicative e tail live x, tt)),
        ),
      ),
    ),
  )
  ender-HaltsBelow bit_and_level e tail live x = (
    ender-Halts equality e tail live x,
    (
      ender-Halts relational e tail live x,
      (
        ender-Halts shift e tail live x,
        (ender-Halts additive e tail live x, (ender-Halts multiplicative e tail live x, tt)),
      ),
    ),
  )
  ender-HaltsBelow equality e tail live x = (
    ender-Halts relational e tail live x,
    (
      ender-Halts shift e tail live x,
      (ender-Halts additive e tail live x, (ender-Halts multiplicative e tail live x, tt)),
    ),
  )
  ender-HaltsBelow relational e tail live x = (
    ender-Halts shift e tail live x,
    (ender-Halts additive e tail live x, (ender-Halts multiplicative e tail live x, tt)),
  )
  ender-HaltsBelow shift e tail live x =
      (ender-Halts additive e tail live x, (ender-Halts multiplicative e tail live x, tt))
  ender-HaltsBelow additive e tail live x = (ender-Halts multiplicative e tail live x, tt)
  ender-HaltsBelow multiplicative e tail live x = tt
