-- ===== src/Keymap/Records.antt =====
-- The six bytes that src/leshper/keymap.cpp encodes a key in, and what a sequence of them types.
use lesh.Base.{
  ℕ, zero, suc, ◌+◌, ◌*◌, ◌/◌, ◌%◌, ◌^◌, Bool, true, false, not, ◌&&◌, Option, none, some, [], ◌∷◌,
  ◌++◌, Bytes, length, ltb, leb, ◌==◌, if◌then◌else◌,
}
use lesh.Decoder.Keys.{
  NamedKey, backspace, left, right, home, end, up, down, page_up, page_down, insert, delete_forward,
  f1, f2, f3, f4, f5, f6, f7, f8, f9, f10, f11, f12, KeyModifiers, KeyEvent,
}

abbrev pub encoded_key_size : ℕ
encoded_key_size = 6

abbrev pub kind_codepoint : ℕ
kind_codepoint = 1

abbrev pub kind_named : ℕ
kind_named = 2

abbrev pub delete_character : ℕ
delete_character = 0x7F

unfoldable pub modifier_bits : KeyModifiers → ℕ
modifier_bits of =
    (if of.shift then 1 else 0) + (if of.alt then 2 else 0) + (if of.ctrl then 4 else 0)

unfoldable pub modifiers_of : ℕ → KeyModifiers
modifiers_of bits = record {
  shift = bits % 2 == 1;
  alt = bits / 2 % 2 == 1;
  ctrl = bits / 4 % 2 == 1;
}

-- The number of an enumerator.
abbrev pub key_number : NamedKey → ℕ
key_number backspace = 0
key_number left = 1
key_number right = 2
key_number home = 3
key_number end = 4
key_number up = 5
key_number down = 6
key_number page_up = 7
key_number page_down = 8
key_number insert = 9
key_number delete_forward = 10
key_number f1 = 11
key_number f2 = 12
key_number f3 = 13
key_number f4 = 14
key_number f5 = 15
key_number f6 = 16
key_number f7 = 17
key_number f8 = 18
key_number f9 = 19
key_number f10 = 20
key_number f11 = 21
key_number f12 = 22

-- The enumerator of a number; there is none above `last_named_key`.
unfoldable pub key_numbered : ℕ → Option NamedKey
key_numbered value =
    if value == 0
    then some backspace
    else if value == 1
    then some left
    else if value == 2
    then some right
    else if value == 3
    then some home
    else if value == 4
    then some end
    else if value == 5
    then some up
    else if value == 6
    then some down
    else if value == 7
    then some page_up
    else if value == 8
    then some page_down
    else if value == 9
    then some insert
    else if value == 10
    then some delete_forward
    else if value == 11
    then some f1
    else if value == 12
    then some f2
    else if value == 13
    then some f3
    else if value == 14
    then some f4
    else if value == 15
    then some f5
    else if value == 16
    then some f6
    else if value == 17
    then some f7
    else if value == 18
    then some f8
    else if value == 19
    then some f9
    else if value == 20
    then some f10
    else if value == 21
    then some f11
    else if value == 22
    then some f12
    else none

unfoldable pub encode_key : KeyEvent → Bytes
unfolding modifier_bits
encode_key key =
    let value = if key.named then key_number key.key else key.codepoint in
    (if key.named then kind_named else kind_codepoint)
    ∷ modifier_bits key.modifiers
    ∷ value / 2 ^ 24 % 256
    ∷ value / 2 ^ 16 % 256
    ∷ value / 2 ^ 8 % 256
    ∷ value % 256
    ∷ []

-- `key_event::of`, both of them
abbrev pub codepoint_key : ℕ → KeyModifiers → KeyEvent
codepoint_key c modifiers = record {
  codepoint = c;
  named = false;
  key = backspace;
  modifiers = modifiers;
}

abbrev pub named_key : NamedKey → KeyModifiers → KeyEvent
named_key k modifiers = record { codepoint = 0; named = true; key = k; modifiers = modifiers }

abbrev numbered_event : Option NamedKey → KeyModifiers → Bytes → Option (KeyEvent × Bytes)
numbered_event none modifiers rest = none
numbered_event (some k) modifiers rest = some (named_key k modifiers, rest)

-- The key, and what is behind it.
unfoldable pub decode_key : Bytes → Option (KeyEvent × Bytes)
unfolding modifiers_of key_numbered
decode_key (kind ∷ bits ∷ a ∷ b ∷ c ∷ d ∷ rest) =
    let value = a * 2 ^ 24 + b * 2 ^ 16 + c * 2 ^ 8 + d in
    let modifiers = modifiers_of bits in
    if kind == kind_named
    then numbered_event (key_numbered value) modifiers rest
    else if kind == kind_codepoint
    then some (codepoint_key value modifiers, rest)
    else none
decode_key few = none

unfoldable pub encode_utf8 : ℕ → Bytes
encode_utf8 c =
    if ltb c 0x80
    then c ∷ []
    else if ltb c 0x800
    then (0xC0 + c / 64) ∷ (0x80 + c % 64) ∷ []
    else if ltb c 0x10000
    then (0xE0 + c / 4096) ∷ (0x80 + c / 64 % 64) ∷ (0x80 + c % 64) ∷ []
    else (0xF0 + c / 262144 % 16)
      ∷ (0x80 + c / 4096 % 64)
      ∷ (0x80 + c / 64 % 64)
      ∷ (0x80 + c % 64)
      ∷ []

-- Whether a key contributes text.
abbrev pub is_text : KeyEvent → Bool
is_text key = not key.named && not key.modifiers.alt && not key.modifiers.ctrl

unfoldable pub text_loop : ℕ → Bytes → Bytes
text_loop zero encoded = []
text_loop (suc f) encoded = elim (decode_key encoded) [
  | none ↦ []
  | some (key, rest) ↦ (if is_text key then encode_utf8 key.codepoint else []) ++ text_loop f rest
]

unfoldable pub encoded_keys_as_text : Bytes → Bytes
unfolding text_loop
encoded_keys_as_text encoded = text_loop (length encoded) encoded

unfoldable pub are_text_loop : ℕ → Bool → Bytes → Bool
are_text_loop zero any encoded = any
are_text_loop (suc f) any encoded = elim (decode_key encoded) [
  | none ↦ any
  | some (key, rest) ↦ if is_text key then are_text_loop f true rest else false
]

unfoldable pub encoded_keys_are_text : Bytes → Bool
unfolding are_text_loop
encoded_keys_are_text encoded = are_text_loop (length encoded) false encoded

unfoldable pub is_self_inserting : KeyEvent → Bool
is_self_inserting key =
    is_text key && leb 0x20 key.codepoint && not (key.codepoint == delete_character)
