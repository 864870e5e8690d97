-- ===== src/Keymap/Notation.antt =====
-- The notation of keys in src/leshper/keymap.cpp, `<C-w>` and the like: read into encoded keys, and written.
use lesh.Base.{
  ℕ, zero, suc, ◌+◌, ◌-◌, ◌*◌, ◌%◌, Bool, true, false, not, ◌&&◌, ◌||◌, Option, none, some, List,
  [], ◌∷◌, ◌++◌, Bytes, codes, same, find, take, drop, length, ltb, leb, ◌==◌, if◌then◌else◌,
}
use lesh.Decoder.Keys.{
  NamedKey, backspace, left, right, home, end, up, down, page_up, page_down, insert, delete_forward,
  f1, f2, f3, f4, f5, f6, f7, f8, f9, f10, f11, f12, KeyModifiers, KeyEvent, plain,
}
use lesh.Keymap.Records.{
  delete_character, key_number, encode_key, decode_key, codepoint_key, named_key, encode_utf8,
}

abbrev pub is_ascii_letter : ℕ → Bool
is_ascii_letter c = (leb b'a' c && leb c b'z') || (leb b'A' c && leb c b'Z')

abbrev pub lowered : ℕ → ℕ
lowered c = if leb b'A' c && leb c b'Z' then c + 32 else c

abbrev pub same_name : Bytes → Bytes → Bool
same_name [] [] = true
same_name [] (d ∷ ds) = false
same_name (c ∷ cs) [] = false
same_name (c ∷ cs) (d ∷ ds) = lowered c == lowered d && same_name cs ds

abbrev pub named_spellings : List (Bytes × NamedKey)
named_spellings =
    (codes "Up", up)
    ∷ (codes "Down", down)
    ∷ (codes "Left", left)
    ∷ (codes "Right", right)
    ∷ (codes "Home", home)
    ∷ (codes "End", end)
    ∷ (codes "PageUp", page_up)
    ∷ (codes "PageDown", page_down)
    ∷ (codes "Insert", insert)
    ∷ (codes "Del", delete_forward)
    ∷ (codes "Delete", delete_forward)
    ∷ (codes "F1", f1)
    ∷ (codes "F2", f2)
    ∷ (codes "F3", f3)
    ∷ (codes "F4", f4)
    ∷ (codes "F5", f5)
    ∷ (codes "F6", f6)
    ∷ (codes "F7", f7)
    ∷ (codes "F8", f8)
    ∷ (codes "F9", f9)
    ∷ (codes "F10", f10)
    ∷ (codes "F11", f11)
    ∷ (codes "F12", f12)
    ∷ (codes "BSKey", backspace)
    ∷ []

abbrev pub codepoint_spellings : List (Bytes × ℕ)
codepoint_spellings =
    (codes "Space", 32)
    ∷ (codes "Tab", 9)
    ∷ (codes "CR", 13)
    ∷ (codes "Enter", 13)
    ∷ (codes "Return", 13)
    ∷ (codes "NL", 10)
    ∷ (codes "LF", 10)
    ∷ (codes "Esc", 27)
    ∷ (codes "BS", 127)
    ∷ (codes "Backspace", 127)
    ∷ (codes "lt", 60)
    ∷ (codes "gt", 62)
    ∷ (codes "Bslash", 92)
    ∷ []

-- `C-` folded onto a codepoint.
unfoldable pub control_of : ℕ → Option ℕ
control_of c =
    if is_ascii_letter c
    then some (c % 32)
    else if c == b'@' || c == b' '
    then some 0
    else if c == b'['
    then some 0x1B
    else if c == 92
    then some 0x1C
    else if c == b']'
    then some 0x1D
    else if c == b'^'
    then some 0x1E
    else if c == b'_'
    then some 0x1F
    else if c == b'?'
    then some delete_character
    else none

abbrev continues : ℕ → Bool
continues b = leb 128 b && ltb b 192

abbrev three_more : ℕ → Bytes → Option (ℕ × Bytes)
three_more lead (x ∷ y ∷ z ∷ text) =
    if leb 0xF0 lead && ltb lead 0xF8 && continues x && continues y && continues z
    then some (lead % 8 * 262144 + x % 64 * 4096 + y % 64 * 64 + z % 64, text)
    else none
three_more lead few = none

abbrev two_more : ℕ → Bytes → Option (ℕ × Bytes)
two_more lead (x ∷ y ∷ text) =
    if leb 0xE0 lead && ltb lead 0xF0 && continues x && continues y
    then some (lead % 16 * 4096 + x % 64 * 64 + y % 64, text)
    else three_more lead (x ∷ y ∷ text)
two_more lead few = none

abbrev one_more : ℕ → Bytes → Option (ℕ × Bytes)
one_more lead (x ∷ text) =
    if leb 0xC0 lead && ltb lead 0xE0 && continues x
    then some (lead % 32 * 64 + x % 64, text)
    else two_more lead (x ∷ text)
one_more lead [] = none

unfoldable pub next_scalar : Bytes → Option (ℕ × Bytes)
next_scalar [] = none
next_scalar (lead ∷ text) = if ltb lead 0x80 then some (lead, text) else one_more lead text

abbrev modifier_named : ℕ → KeyModifiers → Option KeyModifiers
modifier_named which m =
    if which == b'c'
    then some (record m { ctrl = true })
    else if which == b'a' || which == b'm'
    then some (record m { alt = true })
    else if which == b's'
    then some (record m { shift = true })
    else none

-- The modifier prefixes of a body, and what is left of it.
unfoldable pub strip_modifiers : ℕ → Bytes → KeyModifiers → KeyModifiers × Bytes
strip_modifiers (suc f) (a ∷ dash ∷ c ∷ body) m =
    elim (if dash == b'-' then modifier_named (lowered a) m else none) [
      | none ↦ (m, a ∷ dash ∷ c ∷ body)
      | some m' ↦ strip_modifiers f (c ∷ body) m'
    ]
strip_modifiers f body m = (m, body)

module _ {A : Type 0} where
  abbrev pub spelled : Bytes → List (Bytes × A) → Option A
  spelled body [] = none
  spelled body ((text, a) ∷ rows) =
      let later = spelled body rows in if same_name text body then some a else later

abbrev whole_scalar : Option (ℕ × Bytes) → Option ℕ
whole_scalar none = none
whole_scalar (some (c, [])) = some c
whole_scalar (some (c, d ∷ rest)) = none

-- The codepoint of a body that names no named key.
unfoldable pub body_codepoint : Bytes → Option ℕ
unfolding next_scalar
body_codepoint body = elim (spelled body codepoint_spellings) [
  | some c ↦ some c
  | none ↦ whole_scalar (next_scalar body)
]

abbrev raised : ℕ → ℕ
raised c = if leb b'a' c then c - 32 else c

-- A codepoint under its modifiers.
unfoldable pub modified : ℕ → KeyModifiers → Option KeyEvent
unfolding control_of
modified c m =
    let lifts = m.shift && is_ascii_letter c in
    let c' = if lifts then raised c else c in
    let m' = if lifts then record m { shift = false } else m in
    if m.ctrl
    then elim (control_of c') [
      | none ↦ none
      | some folded ↦ some (codepoint_key folded (record m' { ctrl = false }))
    ]
    else some (codepoint_key c' m')

unfoldable pub parse_body : Bytes → Option KeyEvent
unfolding strip_modifiers body_codepoint modified
parse_body text =
    let (m, body) = strip_modifiers (length text) text plain in
    if same body [] then none else elim (spelled body named_spellings) [
      | some k ↦ some (named_key k m)
      | none ↦ elim (body_codepoint body) [ none ↦ none | some c ↦ modified c m ]
    ]

-- The key of a group, and what is behind its `>`. The text starts behind the `<`.
unfoldable pub parse_angle_group : Bytes → Option (KeyEvent × Bytes)
parse_angle_group text = elim (find (codes ">") text) [
  | none ↦ none
  | some close ↦ if close == 0 then none else elim (parse_body (take close text)) [
    | none ↦ none
    | some key ↦ some (key, drop (suc close) text)
  ]
]

abbrev is_some : Option ℕ → Bool
is_some none = false
is_some (some n) = true

unfoldable pub notation_loop : ℕ → Bytes → Bytes → Option Bytes
notation_loop f [] built = some built
notation_loop zero (c ∷ text) built = none
notation_loop (suc f) (c ∷ text) built = elim (if c == b'<' then parse_angle_group text else none) [
  | some (key, rest) ↦ notation_loop f rest (built ++ encode_key key)
  | none ↦
      elim (if c == b'<' && is_some (find (codes ">") (c ∷ text))
        then none
        else next_scalar (c ∷ text)) [
          | none ↦ none
          | some (p, rest) ↦ notation_loop f rest (built ++ encode_key (codepoint_key p plain))
        ]
]

abbrev pub unless_empty : Option Bytes → Option Bytes
unless_empty none = none
unless_empty (some []) = none
unless_empty (some (c ∷ built)) = some (c ∷ built)

unfoldable pub parse_key_notation : Bytes → Option Bytes
unfolding notation_loop
parse_key_notation text = unless_empty (notation_loop (length text) text [])

abbrev pub key_spelling : NamedKey → List (Bytes × NamedKey) → Bytes
key_spelling k [] = []
key_spelling k ((text, other) ∷ rows) =
    let later = key_spelling k rows in if key_number other == key_number k then text else later

abbrev codepoint_spelling : ℕ → List (Bytes × ℕ) → Option Bytes
codepoint_spelling c [] = none
codepoint_spelling c ((text, other) ∷ rows) =
    let later = codepoint_spelling c rows in if other == c then some text else later

abbrev control_body : ℕ → Bytes
control_body c = elim (codepoint_spelling c codepoint_spellings) [
  | some text ↦ text
  | none ↦ b'C' ∷ b'-' ∷ (if leb 1 c && leb c 0x1A then c + 0x60 else c + 0x40) ∷ []
]

abbrev is_control : ℕ → Bool
is_control c = ltb c 0x20 || c == delete_character

unfoldable pub body_of : KeyEvent → Bytes
unfolding encode_utf8
body_of key =
    if key.named
    then key_spelling key.key named_spellings
    else if key.codepoint == b'<'
    then codes "lt"
    else if key.codepoint == b' '
    then codes "Space"
    else if is_control key.codepoint
    then control_body key.codepoint
    else encode_utf8 key.codepoint

abbrev is_literal : KeyEvent → Bool
is_literal key =
    not (key.named || key.codepoint == b'<' || key.codepoint == b' ' || is_control key.codepoint)
    && not (key.modifiers.shift || key.modifiers.alt || key.modifiers.ctrl)

unfoldable pub render_key : KeyEvent → Bytes
unfolding body_of encode_utf8
render_key key =
    let body = body_of key in
    if is_literal key
    then encode_utf8 key.codepoint
    else b'<'
      ∷ ((if key.modifiers.ctrl then codes "C-" else [])
          ++ ((if key.modifiers.alt then codes "A-" else [])
              ++ ((if key.modifiers.shift then codes "S-" else [])
                  ++ ((if same body [] then codes "?" else body) ++ codes ">"))))

unfoldable pub render_loop : ℕ → Bytes → Bytes
unfolding render_key
render_loop zero encoded = []
render_loop (suc f) encoded = elim (decode_key encoded) [
  | none ↦ []
  | some (key, rest) ↦ render_key key ++ render_loop f rest
]

unfoldable pub render_key_notation : Bytes → Bytes
unfolding render_loop
render_key_notation encoded = render_loop (length encoded) encoded
