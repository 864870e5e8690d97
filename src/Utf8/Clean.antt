-- ===== src/Utf8/Clean.antt =====
-- `well_formed` of src/leshper/decode.cpp: its result is UTF-8, and text that is UTF-8 stays.
use lesh.Base.{
  ℕ, zero, suc, ◌+◌, ◌≤◌, ◌≡◌, inl, inr, refl, sym, ap, subst, ◌∙◌, true, false, ◌||◌, [], ◌∷◌,
  ◌++◌, Bytes, take, drop, length, ltb, ◌==◌, Bool-cases, arith, take-plus, drop-plus,
  take-append_self, drop-append_self, length-drop, length-append, append_assoc, append-nil,
}
use lesh.Utf8.{
  scalar, scan_scalar, sound_length, repaired, well_formed, replacement_bytes,
  replacement_character,
}
use lesh.Utf8.Encode.{IsScalar, encode, WellFormed, done, char}
use lesh.Utf8.Scan.{scan_scalar-encode, scan_scalar_sound}

WellFormed-append : (a b : Bytes) → WellFormed a → WellFormed b → WellFormed (a ++ b)
WellFormed-append _ b done h = h
WellFormed-append _ b (char c {rest} s k) h =
    subst WellFormed (sym (append_assoc (encode c) rest b))
      (char c s (WellFormed-append rest b k h))

replacement-WellFormed : WellFormed replacement_bytes
replacement-WellFormed = char replacement_character (inr (omega arith)) done

-- A scan that ends takes a byte at least, and none that is not there.
scan_scalar-length :
    (c : ℕ) (text : Bytes)
    → (scan_scalar (c ∷ text)).incomplete ≡ false
    → (1 ≤ (scan_scalar (c ∷ text)).length) × ((scan_scalar (c ∷ text)).length ≤ suc (length text))
unfolding scan_scalar
scan_scalar-length a [] i = ground arith
scan_scalar-length a (b ∷ []) i = ground arith
scan_scalar-length a (b ∷ c ∷ []) i = ground arith
scan_scalar-length a (b ∷ c ∷ d ∷ text) i = ground arith

take_length : (text : Bytes) → take (length text) text ≡ text
take_length [] = refl
take_length (c ∷ text) = ap (◌∷◌ c) (take_length text)

drop_length : (text : Bytes) → drop (length text) text ≡ []
drop_length [] = refl
drop_length (c ∷ text) = drop_length text

take_prefix :
    (n : ℕ) (text pre post : Bytes) → text ≡ pre ++ post → n ≡ length pre → take n text ≡ pre
take_prefix n text pre post e l = rw (l, e) (take-append_self pre post)

-- A scalar that was read is a well-formed piece.
scalar-WellFormed :
    (text : Bytes)
    → (scan_scalar text).incomplete ≡ false
    → (scan_scalar text).malformed ≡ false
    → WellFormed (take (scan_scalar text).length text)
scalar-WellFormed text i m =
    let (s, e, l) = scan_scalar_sound text i m in
    subst WellFormed
      (append-nil (encode (scan_scalar text).codepoint)
        ∙ sym (take_prefix (scan_scalar text).length text _ _ e l))
      (char (scan_scalar text).codepoint s done)

repaired-WellFormed : (f : ℕ) (text : Bytes) → WellFormed (repaired f text)
unfolding repaired
repaired-WellFormed zero text = done
repaired-WellFormed (suc f) [] = done
repaired-WellFormed (suc f) (c ∷ text) =
    let more = repaired-WellFormed f (drop (scan_scalar (c ∷ text)).length (c ∷ text)) in
    elim (Bool-cases (scan_scalar (c ∷ text)).incomplete) [
      | inl i ↦ rw i replacement-WellFormed
      | inr i ↦ elim (Bool-cases (scan_scalar (c ∷ text)).malformed) [
        | inl m ↦ rw (i, m) (WellFormed-append _ _ replacement-WellFormed more)
        | inr m ↦ rw (i, m) (WellFormed-append _ _ (scalar-WellFormed (c ∷ text) i m) more)
      ]
    ]

-- Any fuel that is not less than the bytes left gives the same result.
repaired-fuel :
    (f g : ℕ) (text : Bytes) → length text ≤ f → length text ≤ g → repaired f text ≡ repaired g text
unfolding repaired
repaired-fuel zero zero text l k = refl
repaired-fuel zero (suc g) [] l k = refl
repaired-fuel zero (suc g) (c ∷ text) l k = elim l [ ]
repaired-fuel (suc f) zero [] l k = refl
repaired-fuel (suc f) zero (c ∷ text) l k = elim k [ ]
repaired-fuel (suc f) (suc g) [] l k = refl
repaired-fuel (suc f) (suc g) (c ∷ text) l k =
    elim (Bool-cases (scan_scalar (c ∷ text)).incomplete) [
      | inl i ↦ rw i refl
      | inr i ↦
          let n = (scan_scalar (c ∷ text)).length in
          let short : length (drop n (c ∷ text)) ≤ length text =
            omega (arith, length-drop n (c ∷ text), scan_scalar-length c text i) in
          rw
            (
              i,
              repaired-fuel f g (drop n (c ∷ text)) (omega (arith, short, l))
                  (omega (arith, short, k)),
            )
            refl
    ]

sound_length-stop :
    (f c : ℕ) (text : Bytes)
    → ((scan_scalar (c ∷ text)).incomplete || (scan_scalar (c ∷ text)).malformed) ≡ true
    → sound_length (suc f) (c ∷ text) ≡ 0
unfolding sound_length
sound_length-stop f c text h = rw h refl

sound_length-next :
    (f c : ℕ) (text : Bytes)
    → (scan_scalar (c ∷ text)).incomplete ≡ false
    → (scan_scalar (c ∷ text)).malformed ≡ false
    → let n = (scan_scalar (c ∷ text)).length in
      sound_length (suc f) (c ∷ text) ≡ n + sound_length f (drop n (c ∷ text))
unfolding sound_length
sound_length-next f c text i m = rw (i, m) refl

repaired-next :
    (g c : ℕ) (text : Bytes)
    → (scan_scalar (c ∷ text)).incomplete ≡ false
    → (scan_scalar (c ∷ text)).malformed ≡ false
    → let n = (scan_scalar (c ∷ text)).length in
      repaired (suc g) (c ∷ text) ≡ take n (c ∷ text) ++ repaired g (drop n (c ∷ text))
unfolding repaired
repaired-next g c text i m = rw (i, m) refl

-- A sound beginning is repaired to itself, so the first loop only saves work.
sound_length-repaired :
    (f g : ℕ) (text : Bytes)
    → length text ≤ g
    → let at = sound_length f text in
      (take at text ++ repaired g (drop at text) ≡ repaired g text) × (at ≤ length text)
sound_length-repaired zero g text l = unfold sound_length in (refl, omega arith)
sound_length-repaired (suc f) g [] l = unfold sound_length in (refl, omega arith)
sound_length-repaired (suc f) zero (c ∷ text) l = elim l [ ]
sound_length-repaired (suc f) (suc g) (c ∷ text) l =
    elim (Bool-cases (scan_scalar (c ∷ text)).incomplete) [
      | inl i ↦ rw (sound_length-stop f c text (rw i refl)) (refl, omega arith)
      | inr i ↦ elim (Bool-cases (scan_scalar (c ∷ text)).malformed) [
        | inl m ↦ rw (sound_length-stop f c text (rw (i, m) refl)) (refl, omega arith)
        | inr m ↦
            let n = (scan_scalar (c ∷ text)).length in
            let rest = drop n (c ∷ text) in
            let k = sound_length f rest in
            let size = scan_scalar-length c text i in
            let left = length-drop n (c ∷ text) in
            let short : length rest ≤ g = omega (arith, left, size, l) in
            let (ih, le) = sound_length-repaired f g rest short in
            let fuel : repaired (suc g) (drop k rest) ≡ repaired g (drop k rest) =
              repaired-fuel (suc g) g (drop k rest) (omega (arith, length-drop k rest, short))
                (omega (arith, length-drop k rest, short)) in
            rw
              (
                sound_length-next f c text i m,
                repaired-next g c text i m,
                take-plus n k (c ∷ text),
                drop-plus n k (c ∷ text),
                fuel,
                append_assoc (take n (c ∷ text)) (take k rest) (repaired g (drop k rest)),
                ih,
              )
              (refl, omega (arith, left, size, le))
      ]
    ]

repaired-nil : (f : ℕ) → repaired f [] ≡ []
unfolding repaired
repaired-nil zero = refl
repaired-nil (suc f) = refl

-- `well_formed` is its second loop from the start.
well_formed-repaired : (text : Bytes) → well_formed text ≡ repaired (length text) text
unfolding well_formed
well_formed-repaired text =
    let at = sound_length (length text) text in
    let (e, le) = sound_length-repaired (length text) (length text) text (omega arith) in
    elim (Bool-cases (at == length text)) [
      | inr b ↦ rw b e
      | inl b ↦
          let k : at ≡ length text = ground arith in
          let all : take at text ≡ text = rw k (take_length text) in
          let none_left : drop at text ≡ [] = rw k (drop_length text) in
          rw b (sym (append-nil text) ∙ rw (all, none_left, repaired-nil (length text)) at e)
    ]

-- Whatever bytes arrive, the result is a text of whole scalars.
pub well_formed-WellFormed : (text : Bytes) → WellFormed (well_formed text)
well_formed-WellFormed text =
    rw (well_formed-repaired text) (repaired-WellFormed (length text) text)

encode-cons : (c : ℕ) → (d : ℕ) × (ds : Bytes) × (encode c ≡ d ∷ ds)
encode-cons c = elim (Bool-cases (ltb c 128)) [
  | inl b ↦ rw b (_, _, refl)
  | inr b ↦ elim (Bool-cases (ltb c 2048)) [
    | inl b' ↦ rw (b, b') (_, _, refl)
    | inr b' ↦ elim (Bool-cases (ltb c 65536)) [
      | inl b'' ↦ rw (b, b', b'') (_, _, refl)
      | inr b'' ↦ rw (b, b', b'') (_, _, refl)
    ]
  ]
]

-- The first scalar of a text stays, and the rest is repaired alone.
repaired-char :
    (c : ℕ) (text : Bytes)
    → IsScalar c
    → repaired (length (encode c ++ text)) (encode c ++ text)
      ≡ encode c ++ repaired (length text) text
repaired-char c text h =
    let (d, ds, e) = encode-cons c in
    let scan : scan_scalar (d ∷ ds ++ text) ≡ scalar c (suc (length ds)) =
      (rw e at (scan_scalar-encode c text h)) in
    let size : length text ≤ length (ds ++ text) = omega (arith, length-append ds text) in
    let next = repaired-next (length (ds ++ text)) d (ds ++ text) (rw scan refl) (rw scan refl) in
    rw
      (
        e,
        next,
        scan,
        take-append_self ds text,
        drop-append_self ds text,
        repaired-fuel (length (ds ++ text)) (length text) text size (omega arith),
      )
      refl

repaired-append :
    (a b : Bytes) → WellFormed a → repaired (length (a ++ b)) (a ++ b) ≡ a ++ repaired (length b) b
repaired-append _ b done = refl
repaired-append _ b (char c {rest} s k) =
    rw
      (
        append_assoc (encode c) rest b,
        repaired-char c (rest ++ b) s,
        repaired-append rest b k,
        append_assoc (encode c) rest (repaired (length b) b),
      )
      refl

-- A beginning of whole scalars is kept as it is, and what follows it is repaired as if it stood alone.
pub well_formed-append : (a b : Bytes) → WellFormed a → well_formed (a ++ b) ≡ a ++ well_formed b
well_formed-append a b h =
    rw (well_formed-repaired (a ++ b), well_formed-repaired b) (repaired-append a b h)
