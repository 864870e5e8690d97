-- ===== src/Arithmetic/Words.antt =====
-- The 64-bit operations of src/runtime/arithmetic.cpp, on words: an `int64_t` is the word below 2 ^ 64
-- that has its bits.
use Prim.Native.Nat.{bit_and, bit_or, bit_xor}
use lesh.Base.{
  ℕ, ◌+◌, ◌-◌, ◌*◌, ◌/◌, ◌%◌, ◌^◌, Bool, true, false, not, ltb, leb, ◌==◌, if◌then◌else◌,
}

abbrev pub word : ℕ → ℕ
word n = n % 2 ^ 64

-- Whether a word stands for a negative number, and its distance from 0.
abbrev pub negative : ℕ → Bool
negative a = leb (2 ^ 63) a

abbrev magnitude : ℕ → ℕ
magnitude a = if negative a then 2 ^ 64 - a else a

abbrev pub wrap_add : ℕ → ℕ → ℕ
wrap_add a b = word (a + b)

abbrev pub wrap_sub : ℕ → ℕ → ℕ
wrap_sub a b = word (a + 2 ^ 64 - b)

abbrev pub wrap_mul : ℕ → ℕ → ℕ
wrap_mul a b = word (a * b)

abbrev pub wrap_neg : ℕ → ℕ
wrap_neg a = wrap_sub 0 a

abbrev minus_one : ℕ
minus_one = 2 ^ 64 - 1

-- C++ rounds a quotient towards 0, and a remainder has the sign of the dividend.
abbrev pub wrap_div : ℕ → ℕ → ℕ
wrap_div a b =
    let q = magnitude a / magnitude b in
    if b == minus_one
    then wrap_neg a
    else if negative a
    then (if negative b then word q else wrap_neg q)
    else if negative b
    then wrap_neg q
    else word q

abbrev pub wrap_mod : ℕ → ℕ → ℕ
wrap_mod a b =
    let r = magnitude a % magnitude b in
    if b == minus_one then 0 else if negative a then wrap_neg r else word r

-- `~a`
abbrev pub complement : ℕ → ℕ
complement a = word (minus_one - a)

-- `static_cast<uint64_t>(a) << (b & 63)`
abbrev pub shift_up : ℕ → ℕ → ℕ
shift_up a b = word (a * 2 ^ (b % 64))

-- `a >> (b & 63)`, which keeps the sign.
abbrev pub shift_down : ℕ → ℕ → ℕ
shift_down a b =
    if negative a
    then word (minus_one - (minus_one - a) / 2 ^ (b % 64))
    else word (a / 2 ^ (b % 64))

abbrev pub less : ℕ → ℕ → Bool
less a b =
    if negative a
    then (if negative b then ltb a b else true)
    else if negative b
    then false
    else ltb a b

abbrev pub truth : Bool → ℕ
truth b = if b then 1 else 0

pub data Operator : Type 0 where
  bit_or_op bit_xor_op bit_and_op eq_op ne_op le_op ge_op lt_op gt_op : Operator
  shift_up_op shift_down_op add_op sub_op mul_op div_op mod_op : Operator

-- Whether an operator divides, which a zero refuses.
abbrev pub divides : Operator → Bool
divides div_op = true
divides mod_op = true
divides op = false

unfoldable pub compute : Operator → ℕ → ℕ → ℕ
compute bit_or_op a b = word (bit_or a b)
compute bit_xor_op a b = word (bit_xor a b)
compute bit_and_op a b = word (bit_and a b)
compute eq_op a b = truth (a == b)
compute ne_op a b = truth (not (a == b))
compute le_op a b = truth (not (less b a))
compute ge_op a b = truth (not (less a b))
compute lt_op a b = truth (less a b)
compute gt_op a b = truth (less b a)
compute shift_up_op a b = shift_up a b
compute shift_down_op a b = shift_down a b
compute add_op a b = wrap_add a b
compute sub_op a b = wrap_sub a b
compute mul_op a b = wrap_mul a b
compute div_op a b = wrap_div a b
compute mod_op a b = wrap_mod a b
