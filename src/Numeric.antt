-- ===== src/Numeric.antt =====
-- src/substrate/numeric.h: every number that the shell reads from text. Unsigned 64-bit values are
-- numbers, with the wrap-around written out.
pub mod Digits
pub mod Parse
use lesh.Base.{
  ℕ, suc, ◌+◌, ◌-◌, ◌*◌, ◌/◌, ◌%◌, ◌^◌, Bool, true, false, ◌&&◌, ◌||◌, Option, none, some, [], ◌∷◌,
  Bytes, leb, ltb, ◌==◌, if◌then◌else◌, drop,
}
use lesh.Base.Int.{ℤ, pos, negsuc, to_int64, to_word, word_neg, word_mod}

pub data NumericParse : Type 0 where
  ok not_a_number out_of_range : NumericParse

pub record NumericResult : Type 0 where
  pub status : NumericParse
  pub value : ℤ

pub data NumericBlanks : Type 0 where
  no_blanks space_tab whitespace : NumericBlanks

pub data NumericSite : Type 0 where
  arithmetic_literal variable_as_number test_operand trap_signal_number : NumericSite
  kill_list_operand kill_pid_operand optind loop_flow_level exit_status : NumericSite
  return_status shift_count wait_pid_operand redirection_target_fd : NumericSite
  redirection_word_fd positional_parameter_index csi_parameter : NumericSite
  editor_repeat_count option_argument : NumericSite

pub record NumericPolicy : Type 0 where
  pub low : ℤ
  pub high : ℤ
  pub sign : Bool
  pub blanks : NumericBlanks

abbrev pub int64_max : ℤ
int64_max = pos (2 ^ 63 - 1)

abbrev pub int64_min : ℤ
int64_min = negsuc (2 ^ 63 - 1)

abbrev pub numeric_int_max : ℤ
numeric_int_max = pos 2147483647

abbrev pub numeric_int_min : ℤ
numeric_int_min = negsuc 2147483647

abbrev pub numeric_unsigned_max : ℤ
numeric_unsigned_max = pos 4294967295

abbrev row : ℤ → ℤ → Bool → NumericBlanks → NumericPolicy
row low high sign blanks = record { low = low; high = high; sign = sign; blanks = blanks }

-- `policy_for` with the rows of `kNumericPolicies`.
abbrev pub policy_for : NumericSite → NumericPolicy
policy_for arithmetic_literal = row (pos 0) int64_max false no_blanks
policy_for variable_as_number = row int64_min int64_max true no_blanks
policy_for test_operand = row int64_min int64_max true whitespace
policy_for trap_signal_number = row (pos 0) numeric_int_max false no_blanks
policy_for kill_list_operand = row (pos 0) numeric_int_max false no_blanks
policy_for kill_pid_operand = row (negsuc 2147483646) numeric_int_max true space_tab
policy_for optind = row (pos 0) int64_max false no_blanks
policy_for loop_flow_level = row (pos 0) numeric_int_max false no_blanks
policy_for exit_status = row numeric_int_min numeric_int_max true no_blanks
policy_for return_status = row numeric_int_min numeric_int_max true no_blanks
policy_for shift_count = row (pos 0) numeric_int_max false no_blanks
policy_for wait_pid_operand = row (pos 0) numeric_int_max false no_blanks
policy_for redirection_target_fd = row (pos 0) numeric_int_max false no_blanks
policy_for redirection_word_fd = row (pos 0) numeric_int_max false no_blanks
policy_for positional_parameter_index = row (pos 0) int64_max false no_blanks
policy_for csi_parameter = row (pos 0) numeric_unsigned_max false no_blanks
policy_for editor_repeat_count = row (pos 0) numeric_int_max false no_blanks
policy_for option_argument = row int64_min int64_max true no_blanks

abbrev pub numeric_limit : NumericPolicy → Bool → ℕ
numeric_limit p negative = if negative then word_neg (to_word p.low) else to_word p.high

-- The value after one digit, and whether it fitted.
unfoldable pub accumulate_digit : ℕ → ℕ → ℕ → ℕ → ℕ × Bool
accumulate_digit value digit base limit =
    if ltb limit digit || ltb ((limit - digit) / base) value
    then (limit, false)
    else ((value * base + digit) % word_mod, true)

abbrev raw_digit : ℕ → Option ℕ
raw_digit c =
    if leb b'0' c && leb c b'9'
    then some (c - b'0')
    else if leb b'a' c && leb c b'f'
    then some (c - b'a' + 10)
    else if leb b'A' c && leb c b'F'
    then some (c - b'A' + 10)
    else none

-- `none` is the source's -1.
unfoldable pub digit_value : ℕ → ℕ → Option ℕ
digit_value c base = elim (raw_digit c) [
  | none ↦ none
  | some d ↦ if ltb d base then some d else none
]

pub record DigitRun : Type 0 where
  pub consumed : ℕ
  pub value : ℕ
  pub overflowed : Bool

-- The body of the loop of `scan_digits` for one digit.
unfoldable pub add_digit : ℕ → ℕ → DigitRun → ℕ → DigitRun
add_digit base limit run d =
    let (v, fitted) = accumulate_digit run.value d base limit in
    record {
      consumed = run.consumed + 1;
      value = v;
      overflowed = if fitted then run.overflowed else true;
    }

unfoldable pub scan_from : ℕ → ℕ → DigitRun → Bytes → DigitRun
scan_from base limit run [] = run
scan_from base limit run (c ∷ text) = elim (digit_value c base) [
  | none ↦ run
  | some d ↦ scan_from base limit (add_digit base limit run d) text
]

unfoldable pub scan_digits : Bytes → ℕ → ℕ → DigitRun
scan_digits text base limit =
    scan_from base limit (record { consumed = 0; value = 0; overflowed = false }) text

unfoldable pub is_blank : ℕ → NumericBlanks → Bool
is_blank c no_blanks = false
is_blank c space_tab = c == 32 || c == 9
is_blank c whitespace = c == 32 || c == 9 || c == 10

-- `while (at < text.size() && is_blank(text[at], policy.blanks)) ++at;`
unfoldable pub skip_blanks : NumericBlanks → Bytes → Bytes
skip_blanks b [] = []
skip_blanks b (c ∷ text) = let rest = skip_blanks b text in if is_blank c b then rest else c ∷ text

-- Whether a sign was read and is a minus, and what follows.
unfoldable pub take_sign : Bool → Bytes → Bool × Bytes
take_sign sign [] = (false, [])
take_sign sign (c ∷ text) =
    if sign && (c == b'-' || c == b'+') then (c == b'-', text) else (false, c ∷ text)

abbrev pub failure : NumericResult
failure = record { status = not_a_number; value = pos 0 }

abbrev result_of : Bool → DigitRun → NumericResult
result_of negative run = record {
  status = if run.overflowed then out_of_range else ok;
  value = to_int64 (if negative then word_neg run.value else run.value);
}

-- What follows the digits must be blank.
finish : Bool → DigitRun → Bytes → NumericResult
finish negative run [] = if run.consumed == 0 then failure else result_of negative run
finish negative run (c ∷ text) = failure

parse_signed : NumericPolicy → Bool × Bytes → NumericResult
unfolding finish
parse_signed policy (negative, text) =
    let run = scan_digits text 10 (numeric_limit policy negative) in
    finish negative run (skip_blanks policy.blanks (drop run.consumed text))

unfoldable pub parse_integer : Bytes → NumericSite → NumericResult
unfolding parse_signed
parse_integer text site =
    let policy = policy_for site in
    parse_signed policy (take_sign policy.sign (skip_blanks policy.blanks text))
