-- ===== src/Decoder/Csi.antt =====
-- The parameters of a control sequence: `parse_parameters` of src/leshper/decode.cpp.
use lesh.Base.{
  ℕ, zero, suc, ◌+◌, Bool, true, false, not, ◌&&◌, [], ◌∷◌, Bytes, drop, length, leb, ◌==◌,
  if◌then◌else◌,
}
use lesh.Base.Int.{to_word}
use lesh.Numeric.{policy_for, csi_parameter, scan_digits}

pub record CsiParameters : Type 0 where
  pub first : ℕ
  pub second : ℕ
  pub has_first : Bool
  pub private_use : Bool

-- The variables of the loop.
pub record ParameterScan : Type 0 where
  pub parsed : CsiParameters
  pub value : ℕ
  pub seen : Bool
  pub in_sub_parameter : Bool
  pub field : ℕ

unfoldable pub store : ParameterScan → CsiParameters
store s =
    if s.field == 0
    then record s.parsed { first = s.value; has_first = s.seen }
    else if s.field == 1
    then record s.parsed { second = s.value }
    else s.parsed

-- The body of the loop at a byte: the variables, and the text left.
unfoldable pub parameter_step : ParameterScan → ℕ → Bytes → ParameterScan × Bytes
parameter_step s c text =
    if leb 60 c && leb c 63
    then (record s { parsed = record s.parsed { private_use = true } }, text)
    else if c == 59
    then (
      record {
        parsed = store s;
        value = 0;
        seen = false;
        in_sub_parameter = false;
        field = s.field + 1;
      },
      text,
    )
    else if c == 58
    then (record s { in_sub_parameter = true }, text)
    else if leb 48 c && leb c 57
    then (let run = scan_digits (c ∷ text) 10 (to_word (policy_for csi_parameter).high) in
        (
          if not s.in_sub_parameter && not s.seen
              then record s { value = run.value; seen = true }
              else s,
          drop run.consumed (c ∷ text),
        ))
    else (s, text)

-- The loop, on fuel.
unfoldable pub parameter_loop : ℕ → ParameterScan → Bytes → ParameterScan
parameter_loop zero s text = s
parameter_loop (suc f) s [] = s
parameter_loop (suc f) s (c ∷ text) =
    let (s', rest) = parameter_step s c text in parameter_loop f s' rest

unfoldable pub parse_parameters : Bytes → CsiParameters
parse_parameters text = store (
    parameter_loop (length text)
      (record {
        parsed = record { first = 0; second = 0; has_first = false; private_use = false };
        value = 0;
        seen = false;
        in_sub_parameter = false;
        field = 0;
      })
      text)
