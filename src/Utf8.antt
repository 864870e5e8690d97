-- ===== src/Utf8.antt =====
-- src/leshper/decode.cpp, the part on UTF-8: one scalar read from bytes, and `well_formed`. The
-- masks and shifts are remainders and products, since the masked bits do not overlap.
pub mod Encode
pub mod Scan
pub mod Clean
use lesh.Base.{
  ℕ, zero, suc, ◌+◌, ◌*◌, ◌%◌, Bool, true, false, not, ◌&&◌, ◌||◌, [], ◌∷◌, ◌++◌, Bytes, take, drop,
  length, ltb, ◌==◌, if◌then◌else◌,
}
use lesh.Text.{is_continuation}

abbrev pub escape_byte : ℕ
escape_byte = 27

abbrev pub escape_codepoint : ℕ
escape_codepoint = 27

abbrev pub replacement_character : ℕ
replacement_character = 65533

abbrev pub replacement_bytes : Bytes
replacement_bytes = 239 ∷ 191 ∷ 189 ∷ []

pub record ScalarScan : Type 0 where
  pub codepoint : ℕ
  pub length : ℕ
  pub incomplete : Bool
  pub malformed : Bool

abbrev pub scalar : ℕ → ℕ → ScalarScan
scalar codepoint length = record {
  codepoint = codepoint;
  length = length;
  incomplete = false;
  malformed = false;
}

abbrev pub malformed_scan : ℕ → ScalarScan
malformed_scan length = record {
  codepoint = 0;
  length = length;
  incomplete = false;
  malformed = true;
}

abbrev pub incomplete_scan : ScalarScan
incomplete_scan = record { codepoint = 0; length = 0; incomplete = true; malformed = false }

-- How many bytes a lead byte announces; zero where it can start none.
abbrev pub sequence_length : ℕ → ℕ
sequence_length lead =
    if ltb lead 128
    then 1
    else if ltb lead 194
    then 0
    else if ltb lead 224
    then 2
    else if ltb lead 240
    then 3
    else if ltb lead 245
    then 4
    else 0

abbrev pub second_byte_range : ℕ → ℕ × ℕ
second_byte_range lead =
    if lead == 224
    then (160, 191)
    else if lead == 237
    then (128, 159)
    else if lead == 240
    then (144, 191)
    else if lead == 244
    then (128, 143)
    else (128, 191)

abbrev pub scan_fourth : ℕ → ℕ → ℕ → Bytes → ScalarScan
scan_fourth lead second third [] = incomplete_scan
scan_fourth lead second third (fourth ∷ rest) =
    if not (is_continuation fourth)
    then malformed_scan 3
    else scalar (lead % 8 * 262144 + second % 64 * 4096 + third % 64 * 64 + fourth % 64) 4

abbrev pub scan_third : ℕ → ℕ → ℕ → Bytes → ScalarScan
scan_third lead second want [] = incomplete_scan
scan_third lead second want (third ∷ rest) =
    if not (is_continuation third)
    then malformed_scan 2
    else if want == 3
    then scalar (lead % 16 * 4096 + second % 64 * 64 + third % 64) 3
    else scan_fourth lead second third rest

abbrev pub scan_second : ℕ → ℕ → Bytes → ScalarScan
scan_second lead want [] = incomplete_scan
scan_second lead want (second ∷ rest) =
    if ltb second (second_byte_range lead).0 || ltb (second_byte_range lead).1 second
    then malformed_scan 1
    else if want == 2
    then scalar (lead % 32 * 64 + second % 64) 2
    else scan_third lead second want rest

-- The code reads the first byte of a text that is never empty.
unfoldable pub scan_scalar : Bytes → ScalarScan
scan_scalar [] = incomplete_scan
scan_scalar (lead ∷ rest) =
    let want = sequence_length lead in
    if want == 0
    then malformed_scan 1
    else if want == 1
    then scalar lead 1
    else scan_second lead want rest

-- The first loop of `well_formed`, on fuel: the length of the part that needs no repair.
unfoldable pub sound_length : ℕ → Bytes → ℕ
sound_length zero text = 0
sound_length (suc f) [] = 0
sound_length (suc f) (c ∷ text) =
    let scan = scan_scalar (c ∷ text) in
    let more = scan.length + sound_length f (drop scan.length (c ∷ text)) in
    if scan.incomplete || scan.malformed then 0 else more

-- The second loop, on fuel: what it appends.
unfoldable pub repaired : ℕ → Bytes → Bytes
repaired zero rest = []
repaired (suc f) [] = []
repaired (suc f) (c ∷ rest) =
    let scan = scan_scalar (c ∷ rest) in
    let more = repaired f (drop scan.length (c ∷ rest)) in
    if scan.incomplete
    then replacement_bytes
    else (if scan.malformed then replacement_bytes else take scan.length (c ∷ rest)) ++ more

unfoldable pub well_formed : Bytes → Bytes
well_formed text =
    let at = sound_length (length text) text in
    if at == length text then text else take at text ++ repaired (length text) (drop at text)
