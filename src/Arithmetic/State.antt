-- ===== src/Arithmetic/State.antt =====
-- The evaluator of src/runtime/arithmetic.cpp as a record: the text from `_at` on in place of the text
-- and `_at`. A `const char*` message is a constructor.
use lesh.Base.{
  ℕ, Bool, true, false, not, ◌&&◌, ◌||◌, Option, none, some, [], ◌∷◌, Bytes, codes, same, drop,
  get_elem?, length, leb, ◌==◌, if◌then◌else◌,
}

-- `arithmetic_variables`, over whatever holds the variables. A value is a word.
pub record ArithmeticVariables (V : Type 0) : Type 0 where
  pub get : V → Bytes → ℕ
  pub set : V → Bytes → ℕ → V × Bool
  pub defined : V → Bytes → Bool

pub data ArithmeticError : Type 0 where
  division_by_zero readonly_variable expected_colon expected_paren : ArithmeticError
  unexpected_end unexpected_character malformed_number : ArithmeticError

pub record Evaluator (V : Type 0) : Type 0 where
  pub rest : Bytes
  pub failed : Bool
  pub refused : Bool
  pub live : Bool
  pub error : Option ArithmeticError
  pub unset_name : Bytes
  pub vars : V

-- `is_valid_var_name_first_char`
abbrev pub starts_name : ℕ → Bool
starts_name c = (leb b'A' c && leb c b'Z') || (leb b'a' c && leb c b'z') || c == b'_'

-- `is_valid_var_name_non_first_char`
abbrev pub continues_name : ℕ → Bool
continues_name c = starts_name c || (leb b'0' c && leb c b'9')

unfoldable pub skip_blanks : Bytes → Bytes
skip_blanks [] = []
skip_blanks (c ∷ text) =
    let further = skip_blanks text in if c == b' ' || c == 9 || c == 10 then further else c ∷ text

abbrev or_nul : Option ℕ → ℕ
or_nul none = 0
or_nul (some c) = c

-- The byte `ahead` of the position, 0 past the end.
abbrev pub peek : Bytes → ℕ → ℕ
peek text ahead = or_nul (get_elem? text ahead)

-- `_text.compare(at, op.size(), op) == 0`
abbrev pub starts : Bytes → Bytes → Bool
starts [] text = true
starts (c ∷ op) [] = false
starts (c ∷ op) (d ∷ text) = c == d && starts op text

-- The tests that keep an operator from taking the beginning of a longer one.
abbrev pub belongs_to_longer : Bytes → Bytes → Bool
belongs_to_longer op text =
    (same op (codes "=") && peek text 1 == b'=')
    || ((same op (codes "<") || same op (codes ">"))
        && (peek text 1 == b'=' || peek text 1 == peek op 0))
    || ((same op (codes "&") || same op (codes "|")) && peek text 1 == peek op 0)

module _ {V : Type 0} where
  unfoldable pub consume : Bytes → Evaluator V → Bool × Evaluator V
  consume op s =
      let text = skip_blanks s.rest in
      if starts op text && not (belongs_to_longer op text)
      then (true, record s { rest = drop (length op) text })
      else (false, record s { rest = text })

  unfoldable pub fail : ArithmeticError → Evaluator V → Evaluator V
  fail why s = if s.failed then s else record s { failed = true; error = some why }

  -- With it, whether the caller abandons what it was computing.
  unfoldable pub divide_by_zero : Evaluator V → Bool × Evaluator V
  unfolding fail
  divide_by_zero s = if s.live then (true, fail division_by_zero s) else (false, s)

  abbrev pub with_live : Bool → Evaluator V → Evaluator V
  with_live live s = record s { live = live }

module _ {V : Type 0} (vars : ArithmeticVariables V) where
  unfoldable pub read_variable : Bytes → Evaluator V → ℕ × Evaluator V
  read_variable name s =
      if s.live
      then (
        vars.get s.vars name,
        record s {
          unset_name =
              if same s.unset_name [] && not (vars.defined s.vars name) then name else s.unset_name;
        },
      )
      else (0, s)

  -- `if (_live && !_vars.set(name, value)) { _refused = true; fail(...); }`
  unfoldable pub write_variable : Bytes → ℕ → Evaluator V → Evaluator V
  unfolding fail
  write_variable name value s =
      let (held, taken) = vars.set s.vars name value in
      let written = record s { vars = held } in
      if s.live
      then (if taken then written else fail readonly_variable (record written { refused = true }))
      else s
