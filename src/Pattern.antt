-- ===== src/Pattern.antt =====
-- src/runtime/pattern.cpp and pattern.h: shell pattern matching. A position in a string_view is
-- the text from there on, and a byte is a number below 256; a plain `char` is signed, as on the
-- platforms that lesh is built for.
pub mod Bracket
pub mod Spec
pub mod Star
pub mod Decides
mod Closing
pub mod Quoting
pub mod Trim
use lesh.Base.{
  ℕ, zero, suc, ◌+◌, ◌*◌, ◌-◌, ◌%◌, ◌<◌, Bool, true, false, not, ◌&&◌, ◌||◌, Option, none, some,
  List, [], ◌∷◌, Bytes, codes, same, leb, ltb, ◌==◌, if◌then◌else◌, length, take, drop,
}

abbrev lower : ℕ → Bool
lower c = leb b'a' c && leb c b'z'

abbrev upper : ℕ → Bool
upper c = leb b'A' c && leb c b'Z'

abbrev digit : ℕ → Bool
digit c = leb b'0' c && leb c b'9'

abbrev is_blank : ℕ → Bool
is_blank c = c == 32 || c == 9

abbrev is_space : ℕ → Bool
is_space c = is_blank c || c == 10 || c == 11 || c == 12 || c == 13

abbrev is_hex : ℕ → Bool
is_hex c = digit c || (leb b'a' c && leb c b'f') || (leb b'A' c && leb c b'F')

unfoldable pub in_class : Bytes → ℕ → Bool
in_class name c =
    if same name (codes "lower")
    then lower c
    else if same name (codes "upper")
    then upper c
    else if same name (codes "alpha")
    then lower c || upper c
    else if same name (codes "digit")
    then digit c
    else if same name (codes "alnum")
    then lower c || upper c || digit c
    else if same name (codes "xdigit")
    then is_hex c
    else if same name (codes "blank")
    then is_blank c
    else if same name (codes "space")
    then is_space c
    else if same name (codes "cntrl")
    then ltb c 32 || c == 127
    else if same name (codes "print")
    then leb 32 c && ltb c 127
    else if same name (codes "graph")
    then ltb 32 c && ltb c 127
    else if same name (codes "punct")
    then ltb 32 c && ltb c 127 && not (lower c || upper c || digit c)
    else false

-- `bracket_element`: a class with its `matched` flag, or the one character of `value`.
pub data Element : Type 0 where
  class : Bool → Element
  char : ℕ → Element

-- `pattern.find({delimiter, ']'}, body)`: the text before the closing pair, and the rest behind it.
unfoldable pub find_close : ℕ → Bytes → Option (Bytes × Bytes)
find_close d [] = none
find_close d (x ∷ []) = none
find_close d (x ∷ y ∷ r) =
    let later = find_close d (y ∷ r) in
    if x == d && y == b']'
    then some ([], r)
    else elim later [ none ↦ none | some (name, rest) ↦ some (x ∷ name, rest) ]

-- The element between `[:`, `[.` or `[=` and its closing pair.
named_element : ℕ → ℕ → Option (Bytes × Bytes) → Option (Element × Bytes)
named_element c d none = none
named_element c d (some (name, rest)) =
    if d == b':'
    then some (class (in_class name c), rest)
    else elim name [ [] ↦ none | x ∷ more ↦ elim more [ [] ↦ some (char x, rest) | _ ↦ none ] ]

-- `none` is `well_formed == false`. The subject byte is `c`.
unfoldable pub read_element : ℕ → Bytes → Option (Element × Bytes)
unfolding named_element
read_element c [] = none
read_element c (x ∷ []) = some (char x, [])
read_element c (x ∷ y ∷ r) =
    if x == b'[' && (y == b':' || y == b'.' || y == b'=')
    then named_element c y (find_close y r)
    else if x == b'\\'
    then some (char y, r)
    else some (char x, y ∷ r)

-- The order of two bytes as signed characters.
abbrev char_le : ℕ → ℕ → Bool
char_le a b = leb ((a + 128) % 256) ((b + 128) % 256)

-- The upper end of a range: not a class.
high_end : ℕ → ℕ → Option (Element × Bytes) → Option (Bool × Bytes)
high_end c low none = none
high_end c low (some (class m, rest)) = none
high_end c low (some (char high, rest)) = some (char_le low c && char_le c high, rest)

-- What follows an element that is one character: the rest of a range, or nothing.
after_low : ℕ → ℕ → Bytes → Option (Bool × Bytes)
unfolding high_end
after_low c low [] = some (c == low, [])
after_low c low (x ∷ []) = some (c == low, x ∷ [])
after_low c low (x ∷ y ∷ r) =
    if x == b'-' && not (y == b']')
    then high_end c low (read_element c (y ∷ r))
    else some (c == low, x ∷ y ∷ r)

from_low : ℕ → Option (Element × Bytes) → Option (Bool × Bytes)
unfolding after_low
from_low c none = none
from_low c (some (class m, rest)) = some (m, rest)
from_low c (some (char low, rest)) = after_low c low rest

-- One round of the loop in `match_bracket`: whether the item admits `c`, and the rest behind it.
unfoldable pub bracket_item : ℕ → Bytes → Option (Bool × Bytes)
unfolding from_low
bracket_item c s = from_low c (read_element c s)

-- The loop of `match_bracket`; every round reads at least one byte, so the fuel is the length.
unfoldable pub bracket_loop : ℕ → ℕ → Bool → Bool → Bytes → Option (Bool × Bytes)
bracket_loop zero c first matched s = none
bracket_loop (suc f) c first matched [] = none
bracket_loop (suc f) c first matched (x ∷ s) =
    let again : Option (Bool × Bytes) = elim (bracket_item c (x ∷ s)) [
      | none ↦ none
      | some (m, rest) ↦ bracket_loop f c false (matched || m) rest
    ] in
    if x == b']' && not first then some (matched, s) else again

-- `negated ? !matched : matched`
abbrev pub negate : Option (Bool × Bytes) → Option (Bool × Bytes)
negate none = none
negate (some (m, rest)) = some (not m, rest)

-- `match_bracket`, from the byte behind the `[`. `none` is `well_formed == false`.
unfoldable pub match_bracket : ℕ → Bytes → Option (Bool × Bytes)
match_bracket c [] = none
match_bracket c (x ∷ s) =
    if x == b'!' || x == b'^'
    then negate (bracket_loop (suc (length s)) c true false s)
    else bracket_loop (suc (suc (length s))) c true false (x ∷ s)

-- What one byte of the text meets at a position of the pattern.
pub data Meet : Type 0 where
  advance : Bytes → Meet
  star : Bytes → Meet
  stuck : Meet

abbrev advance_if : Bool → Bytes → Meet
advance_if true p = advance p
advance_if false p = stuck

-- `p` is the pattern behind a `[`.
meet_bracket : ℕ → Bytes → Option (Bool × Bytes) → Meet
meet_bracket c p none = advance_if (c == b'[') p
meet_bracket c p (some (ok, next)) = advance_if ok next

-- The tests of the body of `while (t < text.size())` in `match_here`.
unfoldable pub meet : Bytes → ℕ → Meet
unfolding meet_bracket
meet [] c = stuck
meet (x ∷ []) c =
    if x == b'?'
    then advance []
    else if x == b'['
    then meet_bracket c [] (match_bracket c [])
    else if x == b'*'
    then star []
    else advance_if (x == c) []
meet (x ∷ y ∷ p) c =
    if x == b'\\'
    then advance_if (y == c) p
    else if x == b'?'
    then advance (y ∷ p)
    else if x == b'['
    then meet_bracket c (y ∷ p) (match_bracket c (y ∷ p))
    else if x == b'*'
    then star (y ∷ p)
    else advance_if (x == c) (y ∷ p)

-- `while (p < pattern.size() && pattern[p] == '*') ++p; return p == pattern.size();`
unfoldable pub only_stars : Bytes → Bool
only_stars [] = true
only_stars (x ∷ p) = x == b'*' && only_stars p

-- The loop. The last argument is the last `*`: the pattern behind `star_p`, and the text from
-- `star_t`. `none` means that the fuel ran out.
unfoldable pub match_loop : ℕ → Bytes → Bytes → Option (Bytes × Bytes) → Option Bool
match_loop zero p t back = none
match_loop (suc f) p [] back = some (only_stars p)
match_loop (suc f) p (c ∷ t) back = elim (meet p c) [
  | advance p' ↦ match_loop f p' t back
  | star p' ↦ match_loop f p' (c ∷ t) (some (p', c ∷ t))
  | stuck ↦ elim back [
    | none ↦ some false
    | some (sp, st) ↦ match_loop f sp (drop 1 st) (some (sp, drop 1 st))
  ]
]

abbrev pub loop_fuel : Bytes → Bytes → ℕ
loop_fuel p t = suc ((length t + 1) * (length p + length t + 1))

-- The test of a leading period in front of the loop.
unfoldable pub period_refused : Bool → Bytes → Bytes → Bool
period_refused special p [] = false
period_refused special [] (c ∷ t) = special && c == b'.'
period_refused special (x ∷ p) (c ∷ t) = special && c == b'.' && not (x == b'.' || x == b'\\')

unfoldable pub match_here : Bytes → Bytes → Bool → Option Bool
match_here p t special =
    if period_refused special p t then some false else match_loop (loop_fuel p t) p t none

unfoldable pub pattern_match : Bytes → Bytes → Bool → Bool
unfolding match_here
pattern_match p t special = elim (match_here p t special) [ none ↦ false | some b ↦ b ]

unfoldable pub has_pattern_characters : Bytes → Bool
has_pattern_characters [] = false
has_pattern_characters (x ∷ []) = x == b'*' || x == b'?' || x == b'['
has_pattern_characters (x ∷ y ∷ s) =
    let past_escape = has_pattern_characters s in
    let onward = has_pattern_characters (y ∷ s) in
    if x == b'\\' then past_escape else if x == b'*' || x == b'?' || x == b'[' then true else onward

-- The scan for the last `]` that no backslash precedes; `j` is the index of the text's first byte.
unfoldable pub last_close : ℕ → Option ℕ → Bytes → Option ℕ
last_close j found [] = found
last_close j found (x ∷ []) = if x == b']' then some j else found
last_close j found (x ∷ y ∷ s) =
    let past_escape = last_close (j + 2) found s in
    let onward = last_close (j + 1) (if x == b']' then some j else found) (y ∷ s) in
    if x == b'\\' then past_escape else onward

abbrev closes_after : ℕ → Option ℕ → Bool
closes_after i none = false
closes_after i (some j) = ltb i j

abbrev is_ok {ℓ} : {A : Type ℓ} → Option A → Bool
is_ok none = false
is_ok (some a) = true

-- The loop of `is_pattern`; `i` is the index of the text's first byte.
unfoldable pub is_pattern_from : Option ℕ → ℕ → Bytes → Bool
is_pattern_from close i [] = false
is_pattern_from close i (x ∷ []) = x == b'*' || x == b'?'
is_pattern_from close i (x ∷ y ∷ s) =
    let past_escape = is_pattern_from close (i + 2) s in
    let onward = is_pattern_from close (i + 1) (y ∷ s) in
    if x == b'\\'
    then past_escape
    else if x == b'*' || x == b'?'
    then true
    else if x == b'[' && closes_after i close && is_ok (match_bracket 0 (y ∷ s))
    then true
    else onward

unfoldable pub is_pattern : Bytes → Bool
unfolding is_pattern_from last_close
is_pattern word = is_pattern_from (last_close 0 none word) 0 word

unfoldable pub remove_pattern_escapes : Bytes → Bytes
remove_pattern_escapes [] = []
remove_pattern_escapes (x ∷ []) = x ∷ []
remove_pattern_escapes (x ∷ y ∷ s) =
    let past_escape = y ∷ remove_pattern_escapes s in
    let onward = x ∷ remove_pattern_escapes (y ∷ s) in if x == b'\\' then past_escape else onward

unfoldable pub is_pattern_syntax : ℕ → Bool
is_pattern_syntax c =
    c == b'\\'
    || c == b'*'
    || c == b'?'
    || c == b'['
    || c == b']'
    || c == b'-'
    || c == b'!'
    || c == b'^'

-- The bytes that `expander::append_quoted` pushes in a pattern context.
unfoldable pub append_quoted : Bytes → Bytes
append_quoted [] = []
append_quoted (c ∷ s) =
    if is_pattern_syntax c then b'\\' ∷ c ∷ append_quoted s else c ∷ append_quoted s

-- `n` rounds of the loop are left; `size - n + 1` of them, in the order asked for, were no match.
find_split : (ℕ → Bool) → Bool → ℕ → ℕ → Option ℕ
find_split hit longest size zero = none
find_split hit longest size (suc n) =
    let len = if longest then n else size - n in
    let rest = find_split hit longest size n in if hit len then some len else rest

unfoldable pub match_prefix : Bytes → Bytes → Bool → Option ℕ
unfolding find_split
match_prefix p t longest =
    find_split (λ len. pattern_match p (take len t) false) longest (length t) (suc (length t))

unfoldable pub match_suffix : Bytes → Bytes → Bool → Option ℕ
unfolding find_split
match_suffix p t longest =
    find_split (λ len. pattern_match p (drop (length t - len) t) false) longest (length t)
      (suc (length t))
