-- ===== src/Keymap/Coding.antt =====
-- What src/leshper/keymap.cpp encodes it decodes.
use lesh.Base.{
  ℕ, zero, suc, ◌||◌, inl, inr, ◌+◌, ◌*◌, ◌/◌, ◌%◌, ◌^◌, ◌<◌, ◌≤◌, ◌≡◌, refl, ◌∙◌, Bool, true,
  false, not, ◌&&◌, some, List, [], ◌∷◌, ◌++◌, Bytes, length, if◌then◌else◌, arith, All, Bool-cases,
}
use lesh.Decoder.Keys.{
  NamedKey, backspace, left, right, home, end, up, down, page_up, page_down, insert, delete_forward,
  f1, f2, f3, f4, f5, f6, f7, f8, f9, f10, f11, f12, KeyModifiers, KeyEvent,
}
use lesh.Keymap.Records.{
  codepoint_key, named_key, key_number, key_numbered, modifier_bits, modifiers_of, encode_key,
  decode_key, encode_utf8, is_text, text_loop, encoded_keys_as_text, are_text_loop,
  encoded_keys_are_text,
}

-- The two ways in which a key event is made.
pub data Key : Type 0 where
  scalar_key : ℕ → KeyModifiers → Key
  symbol_key : NamedKey → KeyModifiers → Key

abbrev pub event_of : Key → KeyEvent
event_of (scalar_key c m) = codepoint_key c m
event_of (symbol_key k m) = named_key k m

-- A char32_t has 32 bits.
abbrev pub IsKey : Key → Type 0
IsKey (scalar_key c m) = c < 2 ^ 32
IsKey (symbol_key k m) = Unit

modifiers_of-modifier_bits :
    (s a c : Bool)
    → modifiers_of (modifier_bits (record { shift = s; alt = a; ctrl = c }))
      ≡ record { shift = s; alt = a; ctrl = c }
unfolding modifiers_of modifier_bits
modifiers_of-modifier_bits true true true = refl
modifiers_of-modifier_bits true true false = refl
modifiers_of-modifier_bits true false true = refl
modifiers_of-modifier_bits true false false = refl
modifiers_of-modifier_bits false true true = refl
modifiers_of-modifier_bits false true false = refl
modifiers_of-modifier_bits false false true = refl
modifiers_of-modifier_bits false false false = refl

four_bytes :
    (v : ℕ)
    → v < 2 ^ 32
    → v / 2 ^ 24 % 256 * 2 ^ 24 + v / 2 ^ 16 % 256 * 2 ^ 16 + v / 2 ^ 8 % 256 * 2 ^ 8 + v % 256 ≡ v
four_bytes v h = omega (arith, h)

numbered-key_number : (k : NamedKey) → key_numbered (key_number k) ≡ some k
unfolding key_numbered
numbered-key_number backspace = refl
numbered-key_number left = refl
numbered-key_number right = refl
numbered-key_number home = refl
numbered-key_number end = refl
numbered-key_number up = refl
numbered-key_number down = refl
numbered-key_number page_up = refl
numbered-key_number page_down = refl
numbered-key_number insert = refl
numbered-key_number delete_forward = refl
numbered-key_number f1 = refl
numbered-key_number f2 = refl
numbered-key_number f3 = refl
numbered-key_number f4 = refl
numbered-key_number f5 = refl
numbered-key_number f6 = refl
numbered-key_number f7 = refl
numbered-key_number f8 = refl
numbered-key_number f9 = refl
numbered-key_number f10 = refl
numbered-key_number f11 = refl
numbered-key_number f12 = refl

key_number-lt : (k : NamedKey) → key_number k < 23
key_number-lt backspace = omega arith
key_number-lt left = omega arith
key_number-lt right = omega arith
key_number-lt home = omega arith
key_number-lt end = omega arith
key_number-lt up = omega arith
key_number-lt down = omega arith
key_number-lt page_up = omega arith
key_number-lt page_down = omega arith
key_number-lt insert = omega arith
key_number-lt delete_forward = omega arith
key_number-lt f1 = omega arith
key_number-lt f2 = omega arith
key_number-lt f3 = omega arith
key_number-lt f4 = omega arith
key_number-lt f5 = omega arith
key_number-lt f6 = omega arith
key_number-lt f7 = omega arith
key_number-lt f8 = omega arith
key_number-lt f9 = omega arith
key_number-lt f10 = omega arith
key_number-lt f11 = omega arith
key_number-lt f12 = omega arith

-- A key in front of any bytes is decoded, and the bytes are left.
pub decode_key-encode_key :
    (k : Key) (rest : Bytes)
    → IsKey k
    → decode_key (encode_key (event_of k) ++ rest) ≡ some (event_of k, rest)
unfolding decode_key encode_key
decode_key-encode_key (scalar_key c m) rest h =
    rw (four_bytes c h, modifiers_of-modifier_bits m.shift m.alt m.ctrl) refl
decode_key-encode_key (symbol_key k m) rest h =
    rw
      (
        four_bytes (key_number k) (omega (arith, key_number-lt k)),
        modifiers_of-modifier_bits m.shift m.alt m.ctrl,
        numbered-key_number k,
      )
      refl

-- A sequence of keys, and what each types.
abbrev pub encode_keys : List Key → Bytes
encode_keys [] = []
encode_keys (k ∷ ks) = encode_key (event_of k) ++ encode_keys ks

abbrev pub typed : List Key → Bytes
typed [] = []
typed (k ∷ ks) =
    (if is_text (event_of k) then encode_utf8 (event_of k).codepoint else []) ++ typed ks

abbrev pub all_text : List Key → Bool
all_text [] = true
all_text (k ∷ ks) = is_text (event_of k) && all_text ks

abbrev pub is_empty : List Key → Bool
is_empty [] = true
is_empty (k ∷ ks) = false

text_loop-nil : (f : ℕ) → text_loop (suc f) [] ≡ []
unfolding text_loop decode_key
text_loop-nil f = refl

are_text_loop-nil : (f : ℕ) (any : Bool) → are_text_loop (suc f) any [] ≡ any
unfolding are_text_loop decode_key
are_text_loop-nil f any = refl

encode_key-append_length :
    (e : KeyEvent) (rest : Bytes) → length (encode_key e ++ rest) ≡ 6 + length rest
unfolding encode_key
encode_key-append_length e rest = omega arith

encode_keys-le : (ks : List Key) → length ks ≤ length (encode_keys ks)
encode_keys-le [] = omega arith
encode_keys-le (k ∷ ks) =
    omega (arith, encode_keys-le ks, encode_key-append_length (event_of k) (encode_keys ks))

text_loop-encode_keys :
    (f : ℕ) (ks : List Key) → All IsKey ks → length ks ≤ f → text_loop f (encode_keys ks) ≡ typed ks
unfolding text_loop
text_loop-encode_keys zero [] h n = refl
text_loop-encode_keys (suc f) [] h n = text_loop-nil f
text_loop-encode_keys zero (k ∷ ks) h n = absurd (omega (arith, n))
text_loop-encode_keys (suc f) (k ∷ ks) h n =
    rw
      (
        decode_key-encode_key k (encode_keys ks) h.0,
        text_loop,
        text_loop-encode_keys f ks h.1 (omega (arith, n)),
      )
      refl

are_text_loop-encode_keys :
    (f : ℕ) (any : Bool) (ks : List Key)
    → All IsKey ks
    → length ks ≤ f
    → are_text_loop f any (encode_keys ks) ≡ (all_text ks && (any || not (is_empty ks)))
unfolding are_text_loop
are_text_loop-encode_keys zero any [] h n = ground arith
are_text_loop-encode_keys (suc f) any [] h n = are_text_loop-nil f any ∙ (ground arith)
are_text_loop-encode_keys zero any (k ∷ ks) h n = absurd (omega (arith, n))
are_text_loop-encode_keys (suc f) any (k ∷ ks) h n =
    let later = are_text_loop-encode_keys f true ks h.1 (omega (arith, n)) in
    elim (Bool-cases (is_text (event_of k))) [
      | inl t ↦
          rw (decode_key-encode_key k (encode_keys ks) h.0, are_text_loop, t, later) (ground arith)
      | inr t ↦ rw (decode_key-encode_key k (encode_keys ks) h.0, are_text_loop, t) refl
    ]

-- The bytes of a sequence of keys say what each of them types, and whether all of them type something.
encoded_keys-typed :
    (ks : List Key)
    → All IsKey ks
    → (encoded_keys_as_text (encode_keys ks) ≡ typed ks)
      × (encoded_keys_are_text (encode_keys ks) ≡ (all_text ks && not (is_empty ks)))
unfolding encoded_keys_as_text encoded_keys_are_text
encoded_keys-typed ks h = (
  text_loop-encode_keys (length (encode_keys ks)) ks h (encode_keys-le ks),
  are_text_loop-encode_keys (length (encode_keys ks)) false ks h (encode_keys-le ks),
)
