-- ===== src/Keymap/Reads.antt =====
-- Sequences of named keys that src/leshper/keymap.cpp writes and reads again.
use lesh.Base.{
  ℕ, zero, suc, ◌≤◌, ◌≡◌, refl, sym, ap, ◌∙◌, true, some, List, [], ◌∷◌, ◌++◌, append_assoc,
  append-nil, Bytes, codes, length, length-append, arith,
}
use lesh.Decoder.Keys.{NamedKey, KeyModifiers}
use lesh.Keymap.Records.{named_key, encode_key, decode_key}
use lesh.Keymap.Coding.{symbol_key, decode_key-encode_key}
use lesh.Keymap.Notation.{
  named_spellings, spelled, key_spelling, notation_loop, unless_empty, parse_key_notation,
  render_key, render_loop, render_key_notation,
}
use lesh.Keymap.Written.{spelling_found, is_name, prefix_of, render_named, notation_loop-named}

abbrev pub encode_presses : List (NamedKey × KeyModifiers) → Bytes
encode_presses [] = []
encode_presses ((k, m) ∷ ps) = encode_key (named_key k m) ++ encode_presses ps

abbrev written : List (NamedKey × KeyModifiers) → Bytes
written [] = []
written ((k, m) ∷ ps) = render_key (named_key k m) ++ written ps

name_parts :
    (name : Bytes) → is_name name ≡ true → (x : ℕ) × (spelling : Bytes) × (name ≡ x ∷ spelling)
name_parts [] h = absurd (ground (arith, h))
name_parts (x ∷ spelling) h = (x, spelling, refl)

named-read :
    (k : NamedKey) (m : KeyModifiers) (f : ℕ) (rest built : Bytes)
    → notation_loop (suc f) (render_key (named_key k m) ++ rest) built
      ≡ notation_loop f rest (built ++ encode_key (named_key k m))
named-read k m f rest built =
    let (there, good) = spelling_found k in
    let (x, spelling, e) = name_parts (key_spelling k named_spellings) good in
    let there' : spelled (x ∷ spelling) named_spellings ≡ some k = rw e at there in
    let good' : is_name (x ∷ spelling) ≡ true = rw e at good in
    let shape = render_named k x spelling m there' good' e in
    rw (shape, append_assoc (prefix_of m ++ (x ∷ spelling)) (codes ">") rest)
      (notation_loop-named k x spelling m there' good' f rest built)

render_key-lt : (k : NamedKey) (m : KeyModifiers) → 1 ≤ length (render_key (named_key k m))
render_key-lt k m =
    let (there, good) = spelling_found k in
    let (x, spelling, e) = name_parts (key_spelling k named_spellings) good in
    rw (render_named k x spelling m (rw e at there) (rw e at good) e) (omega arith)

written-le : (ps : List (NamedKey × KeyModifiers)) → length ps ≤ length (written ps)
written-le [] = omega arith
written-le ((k, m) ∷ ps) = omega (
  arith,
  written-le ps,
  render_key-lt k m,
  length-append (render_key (named_key k m)) (written ps),
)

loop-nil : (f : ℕ) (built : Bytes) → notation_loop f [] built ≡ some built
unfolding notation_loop
loop-nil zero built = refl
loop-nil (suc f) built = refl

render_loop-nil : (f : ℕ) → render_loop (suc f) [] ≡ []
unfolding render_loop decode_key
render_loop-nil f = refl

loop-written :
    (ps : List (NamedKey × KeyModifiers)) (f : ℕ) (built : Bytes)
    → length ps ≤ f
    → notation_loop f (written ps) built ≡ some (built ++ encode_presses ps)
loop-written [] f built n = loop-nil f built ∙ ap some (sym (append-nil built))
loop-written ((k, m) ∷ ps) zero built n = absurd (omega (arith, n))
loop-written ((k, m) ∷ ps) (suc f) built n =
    named-read k m f (written ps) built
    ∙ (loop-written ps f (built ++ encode_key (named_key k m)) (omega (arith, n))
        ∙ ap some (append_assoc built (encode_key (named_key k m)) (encode_presses ps)))

render_loop-encode_presses :
    (f : ℕ) (ps : List (NamedKey × KeyModifiers))
    → length ps ≤ f
    → render_loop f (encode_presses ps) ≡ written ps
unfolding render_loop
render_loop-encode_presses zero [] n = refl
render_loop-encode_presses (suc f) [] n = render_loop-nil f
render_loop-encode_presses zero ((k, m) ∷ ps) n = absurd (omega (arith, n))
render_loop-encode_presses (suc f) ((k, m) ∷ ps) n =
    rw
      (
        decode_key-encode_key (symbol_key k m) (encode_presses ps) tt,
        render_loop,
        render_loop-encode_presses f ps (omega (arith, n)),
      )
      refl

encode_presses-le : (ps : List (NamedKey × KeyModifiers)) → length ps ≤ length (encode_presses ps)
unfolding encode_key
encode_presses-le [] = omega arith
encode_presses-le ((k, m) ∷ ps) = omega (arith, encode_presses-le ps)

-- A sequence of named keys, with any modifiers, is written so that reading it gives the sequence.
pub parse_key_notation-render_key_notation :
    (k : NamedKey) (m : KeyModifiers) (ps : List (NamedKey × KeyModifiers))
    → parse_key_notation (render_key_notation (encode_presses ((k, m) ∷ ps)))
      ≡ some (encode_presses ((k, m) ∷ ps))
unfolding parse_key_notation render_key_notation encode_key
parse_key_notation-render_key_notation k m ps =
    let all = (k, m) ∷ ps in
    rw (render_loop-encode_presses (length (encode_presses all)) all (encode_presses-le all))
      (ap unless_empty (loop-written all (length (written all)) [] (written-le all)))
