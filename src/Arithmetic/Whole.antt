-- ===== src/Arithmetic/Whole.antt =====
-- A printed tree as the whole text of src/runtime/arithmetic.cpp.
use lesh.Base.{
  ℕ, ◌+◌, ◌*◌, ◌≡◌, refl, sym, Bool, true, false, none, some, [], length, if◌then◌else◌, arith,
}
use lesh.Arithmetic.State.{ArithmeticVariables, consume, skip_blanks}
use lesh.Arithmetic.Parser.{ArithmeticResult, find_operator, bit_or_level, parse_comma, evaluate}
use lesh.Arithmetic.Trees.{
  Tree, literal, variable, assigned, updated, choice, either, both, sequence, binary, unary, inner,
  print, IsPrintable, Effects, at, meaning,
}
use lesh.Arithmetic.Gives.{
  Gives, and_stop, or_stop, comma_stop, assignment_none, conditional_stop, logical_or-Gives,
  logical_and-Gives, comma-Gives,
}
use lesh.Arithmetic.Enders.{Halts, HaltsBelow}
use lesh.Arithmetic.Groups.{no_target, Primary, to_bit_or}
use lesh.Arithmetic.Printed.{
  Reads, choice-Reads, either-Reads, both-Reads, sequence-Reads, binary-Reads, unary-Reads,
  literal-Reads, variable-Reads, assigned-Reads, updated-Reads,
}

module _ {V : Type 0} where
  -- The text of an evaluation is used up.
  end-Halts :
      (live : Bool) (x : Effects V)
      → Halts bit_or_level (at [] live x) × HaltsBelow bit_or_level (at [] live x)
  unfolding find_operator consume skip_blanks
  end-Halts live x = (refl, (refl, (refl, (refl, (refl, (refl, (refl, (refl, tt))))))))

  abbrev pub untouched : V → Effects V
  untouched held = record {
    failed = false;
    refused = false;
    error = none;
    unset_name = [];
    vars = held;
  }

  -- What is told of a value and its effects.
  abbrev pub outcome : ℕ × Effects V → ArithmeticResult × V
  outcome (value, x) = (
    if x.failed
        then record {
          value = 0;
          ok = false;
          error = x.error;
          unset_name = [];
          assignment_refused = x.refused;
        }
        else record {
          value = value;
          ok = true;
          error = none;
          unset_name = x.unset_name;
          assignment_refused = false;
        },
    x.vars,
  )

module _ {V : Type 0} (vars : ArithmeticVariables V) where
  all-Reads : (e : Tree) → IsPrintable e → Reads vars e
  all-Reads (literal c ds) h = literal-Reads vars c ds h
  all-Reads (variable c cs) h = variable-Reads vars c cs h
  all-Reads (assigned c cs a) h = assigned-Reads vars c cs a h (all-Reads a h.1)
  all-Reads (updated c cs op a) h = updated-Reads vars c cs op a h (all-Reads a h.1)
  all-Reads (choice c a b) h =
      choice-Reads vars c a b (all-Reads c h.0) (all-Reads a h.1) (all-Reads b h.2)
  all-Reads (either a b) h = either-Reads vars a b (all-Reads a h.0) (all-Reads b h.1)
  all-Reads (both a b) h = both-Reads vars a b (all-Reads a h.0) (all-Reads b h.1)
  all-Reads (sequence a b) h = sequence-Reads vars a b (all-Reads a h.0) (all-Reads b h.1)
  all-Reads (binary op a b) h = binary-Reads vars op a b (all-Reads a h.0) (all-Reads b h.1)
  all-Reads (unary op a) h = unary-Reads vars op a (all-Reads a h)

  whole :
      (e : Tree) (live : Bool) (x y : Effects V) (v : ℕ)
      → Primary vars e [] live x v y
      → Gives (parse_comma vars) 27 (at (print e []) live x) v (at [] live y)
  unfolding consume skip_blanks
  whole e live x y v g =
      let s = at (print e []) live x in
      let t = at [] live y in
      comma-Gives vars s t t v v
        (assignment_none vars s t v (no_target (inner e [])) (
          conditional_stop vars s t t v
            (logical_or-Gives vars s t t v v
              (logical_and-Gives vars s t t v v
                (to_bit_or vars e [] live x y v g (end-Halts live y)) (omega arith)
                (and_stop vars t t v refl))
              (omega arith) (or_stop vars t t v refl))
            refl))
        (omega arith) (comma_stop vars t t v refl)

  -- Every printed tree evaluates to what it means: its value where nothing failed, else the first error,
  -- and in both cases the variables as its assignments leave them.
  pub evaluate-print :
      (e : Tree)
      → IsPrintable e
      → (held : V)
      → evaluate vars (print e []) held ≡ some (outcome (meaning vars e (untouched held)))
  unfolding evaluate skip_blanks
  evaluate-print e h held =
      let (v, y, did, run) = all-Reads e h [] true (untouched held) in
      let text = print e [] in
      let ran = whole e true (untouched held) y v run (32 * length text + 27) (omega arith) in
      rw (sym (did.0 refl)) (rw ran refl)
