-- ===== src/Base/Int.antt =====
-- Signed integers, and the 64-bit words that stand for them in two's complement.
use Prim.Native.Nat.{ℕ, suc, ◌+◌, ◌-◌, ◌%◌, ◌^◌, ◌≤◌}
use lesh.Base.Tests.{ltb, leb, if◌then◌else◌}

-- `negsuc n` is -(n + 1).
pub data ℤ : Type 0 where
  pos : ℕ → ℤ
  negsuc : ℕ → ℤ

abbrev pub pos_part : ℤ → ℕ
pos_part (pos n) = n
pos_part (negsuc n) = 0

abbrev pub neg_part : ℤ → ℕ
neg_part (pos n) = 0
neg_part (negsuc n) = suc n

infix 50 ◌≤ℤ◌
abbrev pub ◌≤ℤ◌ : ℤ → ℤ → Type 0
a ≤ℤ b = pos_part a + neg_part b ≤ pos_part b + neg_part a

-- a - b, as an integer.
abbrev pub sub_ℕ : ℕ → ℕ → ℤ
sub_ℕ a b = if leb b a then pos (a - b) else negsuc (b - a - 1)

-- The number of values of a 64-bit word.
abbrev pub word_mod : ℕ
word_mod = 2 ^ 64

-- The integer that a word below `word_mod` stands for as an `int64_t`.
abbrev pub to_int64 : ℕ → ℤ
to_int64 w = if ltb w (2 ^ 63) then pos w else negsuc (2 ^ 64 - 1 - w)

-- The word that stands for an integer of the range of an `int64_t`.
abbrev pub to_word : ℤ → ℕ
to_word (pos n) = n
to_word (negsuc n) = 2 ^ 64 - 1 - n

-- `uint64_t{0} - w`
abbrev pub word_neg : ℕ → ℕ
word_neg w = (2 ^ 64 - w) % 2 ^ 64
