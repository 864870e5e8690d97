-- ===== src/Tests/Numbers.antt =====
-- Runs of src/substrate/numeric.h.
use lesh.Base.{◌≡◌, refl, true, some, [], codes, length, ◌^◌, ◌-◌, arith}
use lesh.Base.Int.{pos, negsuc}
use lesh.Numeric.{
  ok, out_of_range, NumericSite, policy_for, scan_digits, scan_from, digit_value, add_digit,
  accumulate_digit, is_blank, skip_blanks, take_sign, parse_integer, failure,
}
use lesh.Numeric.Digits.{Reads, number, leading, scan_digits-Reads}
use lesh.Numeric.Parse.{InRange, expected, decimal, parse_integer-InRange, parse_integer-expected}

parse_integer_runs :
    (parse_integer (codes "-17") NumericSite.exit_status
      ≡ record { status = ok; value = negsuc 16 })
    × (parse_integer (codes "12x") NumericSite.exit_status ≡ failure)
    × (parse_integer (codes "99999999999999999999") NumericSite.optind
        ≡ record { status = out_of_range; value = pos (2 ^ 63 - 1) })
    × (parse_integer (codes " -9223372036854775808 ") NumericSite.test_operand
        ≡ record { status = ok; value = negsuc (2 ^ 63 - 1) })
unfolding parse_integer scan_digits scan_from digit_value add_digit accumulate_digit is_blank
    skip_blanks take_sign
parse_integer_runs = (refl, refl, refl, refl)

scan_digits-Reads_example :
    Reads 100 (number 16 0 (leading 16 (codes "ffg"))) (scan_digits (codes "ffg") 16 100)
    × ((scan_digits (codes "ffg") 16 100).consumed ≡ length (leading 16 (codes "ffg")))
scan_digits-Reads_example = scan_digits-Reads (codes "ffg") 16 100 (omega arith) (omega arith)

parse_integer-InRange_example :
    InRange
      (policy_for NumericSite.return_status)
      (parse_integer (codes "-99999999999") NumericSite.return_status)
parse_integer-InRange_example =
    parse_integer-InRange (codes "-99999999999") NumericSite.return_status

parse_integer-expected_example :
    parse_integer (codes "-99999999999") NumericSite.return_status
    ≡ expected (policy_for NumericSite.return_status) true (decimal (codes "99999999999")) []
parse_integer-expected_example =
    parse_integer-expected NumericSite.return_status (some true) b'9' (codes "9999999999") []
      (λ _. refl) (omega arith) tt
