-- ===== src/Tests/Sums.antt =====
-- Runs of src/runtime/arithmetic.cpp, and the theorems on it applied.
use lesh.Base.{
  ℕ, ◌%◌, ◌^◌, ◌<◌, ◌≡◌, refl, Bool, true, false, none, some, List, [], ◌∷◌, Bytes, codes, same,
  if◌then◌else◌, arith,
}
use lesh.Numeric.{scan_digits, scan_from, digit_value, add_digit, accumulate_digit}
use lesh.Arithmetic.Words.{div_op, compute}
use lesh.Arithmetic.State.{
  ArithmeticVariables, division_by_zero, readonly_variable, expected_paren, Evaluator, skip_blanks,
  consume, fail, divide_by_zero, read_variable, write_variable,
}
use lesh.Arithmetic.Parser.{
  ArithmeticResult, bit_or_level, find_operator, target, compound_target, name_length, skip_spaces,
  assign, literal_base, parse_number, parse_name, parse_atom, atom_at, apply_operator,
  parse_assignment, parse_conditional, parse_logical_and, parse_level, evaluate, parse_comma,
}
use lesh.Arithmetic.Steps.{InRange}
use lesh.Arithmetic.Returns.{IsResult, Skipped, evaluate_total, operands-Skipped}
use lesh.Arithmetic.Trees.{
  Tree, literal, variable, assigned, choice, either, binary, unary, print, meaning,
}
use lesh.Arithmetic.Parser.{minus_op}
use lesh.Arithmetic.Whole.{untouched, outcome, evaluate-print}

-- Variables in a list; a value is put in as a word, and `r` is readonly.
abbrev Store : Type 0
Store = List (Bytes × ℕ)

abbrev value_of : Store → Bytes → ℕ
value_of [] name = 0
value_of ((key, value) ∷ store) name =
    let other = value_of store name in if same key name then value % 2 ^ 64 else other

abbrev holds : Store → Bytes → Bool
holds [] name = false
holds ((key, value) ∷ store) name =
    let other = holds store name in if same key name then true else other

abbrev put_value : Store → Bytes → ℕ → Store × Bool
put_value store name value =
    if same name (codes "r") then (store, false) else ((name, value) ∷ store, true)

abbrev listed : ArithmeticVariables Store
listed = record { get = value_of; set = put_value; defined = holds }

abbrev two : Store
two = (codes "x", 5) ∷ []

listed-lt : (store : Store) (name : Bytes) → value_of store name < 2 ^ 64
listed-lt [] name = omega arith
listed-lt ((key, value) ∷ store) name = ground (arith, listed-lt store name)

listed-InRange : InRange listed
listed-InRange = record { get-lt = listed-lt }

evaluate_runs :
    (evaluate listed (codes "1+2*3") two
      ≡ some (
        record { value = 7; ok = true; error = none; unset_name = []; assignment_refused = false },
        two,
      ))
    × (evaluate listed (codes "1 || (x=3)") two
        ≡ some (
          record {
            value = 1;
            ok = true;
            error = none;
            unset_name = [];
            assignment_refused = false;
          },
          two,
        ))
    × (evaluate listed (codes "x ? 0x1F : 1/0") two
        ≡ some (
          record {
            value = 31;
            ok = true;
            error = none;
            unset_name = [];
            assignment_refused = false;
          },
          two,
        ))
    × (evaluate listed (codes "r=1") two
        ≡ some (
          record {
            value = 0;
            ok = false;
            error = some readonly_variable;
            unset_name = [];
            assignment_refused = true;
          },
          two,
        ))
    × (evaluate listed (codes "(y") two
        ≡ some (
          record {
            value = 0;
            ok = false;
            error = some expected_paren;
            unset_name = [];
            assignment_refused = false;
          },
          two,
        ))
unfolding evaluate parse_comma target skip_blanks find_operator consume parse_atom parse_number
    scan_digits scan_from digit_value add_digit apply_operator parse_name read_variable compute
    accumulate_digit assign atom_at compound_target literal_base name_length skip_spaces
    divide_by_zero fail write_variable
evaluate_runs = (refl, refl, refl, refl, refl)

-- A division by zero that assigns stores a 0.
divide_and_assign_runs :
    evaluate listed (codes "x/=0") two
    ≡ some (
      record {
        value = 0;
        ok = false;
        error = some division_by_zero;
        unset_name = [];
        assignment_refused = false;
      },
      (codes "x", 0) ∷ two,
    )
unfolding evaluate parse_comma target skip_blanks find_operator consume parse_atom parse_number
    scan_digits scan_from digit_value add_digit apply_operator parse_name read_variable compute
    accumulate_digit assign atom_at compound_target literal_base name_length skip_spaces
    divide_by_zero fail write_variable
divide_and_assign_runs = refl

evaluate_total_example :
    (r : ArithmeticResult) × (held' : Store) × (evaluate listed (codes "x += 1 ? : 2") two
      ≡ some (r, held'))
    × IsResult r
evaluate_total_example = evaluate_total listed listed-InRange (codes "x += 1 ? : 2") two

abbrev skipping : Evaluator Store
skipping = record {
  rest = codes "(y=1/0)";
  failed = false;
  refused = false;
  live = false;
  error = none;
  unset_name = [];
  vars = two;
}

operands-Skipped_example :
    Skipped skipping (parse_assignment listed 300 skipping)
    × Skipped skipping (parse_conditional listed 300 skipping)
    × Skipped skipping (parse_logical_and listed 300 skipping)
    × Skipped skipping (parse_level listed 300 bit_or_level skipping)
operands-Skipped_example = operands-Skipped listed listed-InRange 300 skipping refl (omega arith)

-- `((x)?((y=(-(7)))||(z)):((x)/(0)))` with its parentheses.
abbrev tree : Tree
tree =
    choice (variable b'x' [])
      (either (assigned b'y' [] (unary minus_op (literal b'7' []))) (variable b'z' []))
      (binary div_op (variable b'x' []) (literal b'0' []))

evaluate-print_example :
    evaluate listed (print tree []) two ≡ some (outcome (meaning listed tree (untouched two)))
evaluate-print_example =
    evaluate-print listed tree
      (
        (refl, tt),
        (((refl, tt), (omega arith, tt, λ _. refl)), (refl, tt)),
        ((refl, tt), (omega arith, tt, λ _. refl)),
      )
      two
