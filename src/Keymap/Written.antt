-- ===== src/Keymap/Written.antt =====
-- Named keys in the notation of src/leshper/keymap.cpp, written and read.
use lesh.Base.{
  ℕ, zero, suc, ◌<◌, ◌≡◌, refl, ap, Bool, true, false, not, ◌&&◌, some, [], ◌∷◌, ◌++◌, Bytes, codes,
  same, find, drop, take-append_self, length, length-append, ◌==◌, if◌then◌else◌, arith, Bool-cases,
  inl, inr,
}
use lesh.Decoder.Keys.{
  NamedKey, backspace, left, right, home, end, up, down, page_up, page_down, insert, delete_forward,
  f1, f2, f3, f4, f5, f6, f7, f8, f9, f10, f11, f12, KeyModifiers, plain,
}
use lesh.Keymap.Records.{named_key, encode_key}
use lesh.Keymap.Notation.{
  named_spellings, spelled, key_spelling, strip_modifiers, parse_body, parse_angle_group,
  notation_loop, render_key, body_of,
}

-- A name of two bytes or more, none of them `>`, and the second not a dash.
abbrev no_close : Bytes → Bool
no_close [] = true
no_close (c ∷ cs) = not (c == b'>') && no_close cs

abbrev pub is_name : Bytes → Bool
is_name (x ∷ y ∷ rest) = not (y == b'-') && no_close (x ∷ y ∷ rest)
is_name few = false

pub spelling_found :
    (k : NamedKey)
    → (spelled (key_spelling k named_spellings) named_spellings ≡ some k)
      × (is_name (key_spelling k named_spellings) ≡ true)
spelling_found backspace = (refl, refl)
spelling_found left = (refl, refl)
spelling_found right = (refl, refl)
spelling_found home = (refl, refl)
spelling_found end = (refl, refl)
spelling_found up = (refl, refl)
spelling_found down = (refl, refl)
spelling_found page_up = (refl, refl)
spelling_found page_down = (refl, refl)
spelling_found insert = (refl, refl)
spelling_found delete_forward = (refl, refl)
spelling_found f1 = (refl, refl)
spelling_found f2 = (refl, refl)
spelling_found f3 = (refl, refl)
spelling_found f4 = (refl, refl)
spelling_found f5 = (refl, refl)
spelling_found f6 = (refl, refl)
spelling_found f7 = (refl, refl)
spelling_found f8 = (refl, refl)
spelling_found f9 = (refl, refl)
spelling_found f10 = (refl, refl)
spelling_found f11 = (refl, refl)
spelling_found f12 = (refl, refl)

find-close :
    (body rest : Bytes)
    → no_close body ≡ true
    → find (codes ">") (body ++ (b'>' ∷ rest)) ≡ some (length body)
find-close [] rest h = refl
find-close (c ∷ cs) rest h = ground (arith, find-close cs rest)

strip_modifiers-name :
    (f : ℕ) (name : Bytes) (m : KeyModifiers)
    → is_name name ≡ true
    → strip_modifiers f name m ≡ (m, name)
unfolding strip_modifiers
strip_modifiers-name f [] m h = ground arith
strip_modifiers-name f (x ∷ []) m h = ground arith
strip_modifiers-name zero (x ∷ y ∷ rest) m h = refl
strip_modifiers-name (suc f) (x ∷ y ∷ []) m h = refl
strip_modifiers-name (suc f) (x ∷ y ∷ z ∷ rest) m h = elim (Bool-cases (y == b'-')) [
  | inl d ↦ ground (arith, h)
  | inr d ↦ rw (d, strip_modifiers) refl
]

-- The prefixes of the modifiers, in the order in which they are written.
abbrev pub prefix_of : KeyModifiers → Bytes
prefix_of m =
    (if m.ctrl then codes "C-" else [])
    ++ ((if m.alt then codes "A-" else []) ++ (if m.shift then codes "S-" else []))

prefixed :
    (s a c : Bool) (x : ℕ) (name : Bytes)
    → is_name (x ∷ name) ≡ true
    → let m : KeyModifiers = record { shift = s; alt = a; ctrl = c } in
      strip_modifiers (length (prefix_of m ++ (x ∷ name))) (prefix_of m ++ (x ∷ name)) plain
      ≡ (m, x ∷ name)
unfolding strip_modifiers
prefixed false false false x name h = strip_modifiers-name (suc (length name)) (x ∷ name) _ h
prefixed false false true x name h = strip_modifiers-name (suc (suc (length name))) (x ∷ name) _ h
prefixed false true false x name h = strip_modifiers-name (suc (suc (length name))) (x ∷ name) _ h
prefixed false true true x name h =
    strip_modifiers-name (suc (suc (suc (length name)))) (x ∷ name) _ h
prefixed true false false x name h = strip_modifiers-name (suc (suc (length name))) (x ∷ name) _ h
prefixed true false true x name h =
    strip_modifiers-name (suc (suc (suc (length name)))) (x ∷ name) _ h
prefixed true true false x name h =
    strip_modifiers-name (suc (suc (suc (length name)))) (x ∷ name) _ h
prefixed true true true x name h =
    strip_modifiers-name (suc (suc (suc (suc (length name))))) (x ∷ name) _ h

no_close-append : (a b : Bytes) → no_close a ≡ true → no_close b ≡ true → no_close (a ++ b) ≡ true
no_close-append [] b h k = k
no_close-append (c ∷ a) b h k = ground (arith, no_close-append a b)

no_close-prefix_of :
    (s a c : Bool) → no_close (prefix_of (record { shift = s; alt = a; ctrl = c })) ≡ true
no_close-prefix_of true true true = refl
no_close-prefix_of true true false = refl
no_close-prefix_of true false true = refl
no_close-prefix_of true false false = refl
no_close-prefix_of false true true = refl
no_close-prefix_of false true false = refl
no_close-prefix_of false false true = refl
no_close-prefix_of false false false = refl

is_name-no_close : (name : Bytes) → is_name name ≡ true → no_close name ≡ true
is_name-no_close [] h = refl
is_name-no_close (x ∷ []) h = ground arith
is_name-no_close (x ∷ y ∷ rest) h = ground (arith, h)

is_name-same : (name : Bytes) → is_name name ≡ true → same name [] ≡ false
is_name-same [] h = ground arith
is_name-same (x ∷ rest) h = refl

prefix_written :
    (s a c : Bool) (body : Bytes)
    → ((if c then codes "C-" else [])
        ++ ((if a then codes "A-" else [])
            ++ ((if s then codes "S-" else []) ++ (body ++ codes ">"))))
      ≡ ((prefix_of (record { shift = s; alt = a; ctrl = c }) ++ body) ++ codes ">")
prefix_written false false false body = refl
prefix_written false false true body = refl
prefix_written false true false body = refl
prefix_written false true true body = refl
prefix_written true false false body = refl
prefix_written true false true body = refl
prefix_written true true false body = refl
prefix_written true true true body = refl

not_zero : (n : ℕ) → 0 < n → (n == 0) ≡ false
not_zero n h = ground (arith, h)

drop-append_one : (text rest : Bytes) → drop (suc (length text)) (text ++ (b'>' ∷ rest)) ≡ rest
drop-append_one [] rest = refl
drop-append_one (c ∷ text) rest = drop-append_one text rest

module _ (k : NamedKey) (x : ℕ) (spelling : Bytes) (m : KeyModifiers)
    (there : spelled (x ∷ spelling) named_spellings ≡ some k)
    (good : is_name (x ∷ spelling) ≡ true) where
  parse_body-named : parse_body (prefix_of m ++ (x ∷ spelling)) ≡ some (named_key k m)
  unfolding parse_body
  parse_body-named =
      rw (prefixed m.shift m.alt m.ctrl x spelling good, parse_body, there)
        (ap (λ q. some (named_key k q.0)) (prefixed m.shift m.alt m.ctrl x spelling good))

  angle_named :
      (rest : Bytes)
      → parse_angle_group ((prefix_of m ++ (x ∷ spelling)) ++ (b'>' ∷ rest))
        ≡ some (named_key k m, rest)
  unfolding parse_angle_group
  angle_named rest =
      let text = prefix_of m ++ (x ∷ spelling) in
      let closes = find-close text rest (
        no_close-append (prefix_of m) (x ∷ spelling) (no_close-prefix_of m.shift m.alt m.ctrl)
          (is_name-no_close (x ∷ spelling) good)) in
      let not_empty : (length text == 0) ≡ false =
        not_zero (length text) (omega (arith, length-append (prefix_of m) (x ∷ spelling))) in
      rw
        (
          closes,
          parse_angle_group,
          not_empty,
          take-append_self text (b'>' ∷ rest),
          parse_body-named,
          drop-append_one text rest,
        )
        refl

  -- What is written for the key behind its `<`.
  pub render_named :
      key_spelling k named_spellings ≡ x ∷ spelling
      → render_key (named_key k m) ≡ b'<' ∷ ((prefix_of m ++ (x ∷ spelling)) ++ codes ">")
  unfolding render_key body_of
  render_named e =
      rw (e, render_key) (ap (◌∷◌ b'<') (prefix_written m.shift m.alt m.ctrl (x ∷ spelling)))

  -- Behind a key that is written the text goes on.
  pub notation_loop-named :
      (f : ℕ) (rest built : Bytes)
      → notation_loop (suc f) (b'<' ∷ ((prefix_of m ++ (x ∷ spelling)) ++ (b'>' ∷ rest))) built
        ≡ notation_loop f rest (built ++ encode_key (named_key k m))
  unfolding notation_loop
  notation_loop-named f rest built = rw (angle_named rest, notation_loop) refl
