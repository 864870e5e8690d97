-- ===== src/Pattern/Closing.antt =====
-- Where a bracket expression of src/runtime/pattern.cpp can end: `last_close` of `is_pattern`.
use lesh.Base.{
  if◌then◌else◌, ◌+◌, ◌<◌, ℕ, zero, suc, length, ◌+◌, ◌<◌, ◌≡◌, ◌≢◌, refl, sym, ◌∙◌, ◌⊎◌, inl, inr,
  Bool, true, false, not, ◌&&◌, ◌||◌, Option, none, some, [], ◌∷◌, Bytes, ◌==◌, if◌then◌else◌, drop,
  arith, Bool-cases,
}
use lesh.Pattern.{
  closes_after, last_close, Element, class, char, find_close, read_element, bracket_item, high_end,
  named_element, from_low, bracket_loop, match_bracket, negate, is_ok, last_close, closes_after,
}

-- A `]` that no backslash precedes.
pub closes : Bytes → Bool
closes [] = false
closes (x ∷ []) = x == b']'
closes (x ∷ y ∷ s) =
    let past_escape = closes s in
    let onward = closes (y ∷ s) in if x == b'\\' then past_escape else x == b']' || onward

abbrev closes_rest {ℓ} : {A : Type ℓ} → Option (A × Bytes) → Bool
closes_rest none = false
closes_rest (some (a, r)) = closes r

closes_head : (s : Bytes) → closes (b']' ∷ s) ≡ true
unfolding closes
closes_head [] = refl
closes_head (y ∷ s) = refl

closes_cons : (x : ℕ) (s : Bytes) → x ≢ b'\\' → closes s ≡ true → closes (x ∷ s) ≡ true
unfolding closes
closes_cons x [] n h = cc
closes_cons x (y ∷ s) n h = ground arith

closes_escape : (y : ℕ) (s : Bytes) → closes s ≡ true → closes (b'\\' ∷ y ∷ s) ≡ true
unfolding closes
closes_escape y s h = h

find_close_later :
    (d x y : ℕ) (r : Bytes)
    → (x == d && y == b']') ≡ false
    → is_ok (find_close d (x ∷ y ∷ r)) ≡ true
    → is_ok (find_close d (y ∷ r)) ≡ true
unfolding find_close
find_close_later d x y r e h = ground arith

-- A closing pair `:]` holds a `]` that no backslash precedes, whichever of the first two bytes
-- the reading starts at.
find_close-closes :
    (d : ℕ) (s : Bytes)
    → d ≢ b'\\'
    → is_ok (find_close d s) ≡ true
    → (closes s ≡ true) × (closes (drop 1 s) ≡ true)
find_close-closes d [] n h = unfold find_close in cc h
find_close-closes d (x ∷ []) n h = unfold find_close in cc h
find_close-closes d (x ∷ y ∷ r) n h = elim (Bool-cases (x == d && y == b']')) [
  | inl e ↦
      let at_d : x ≢ b'\\' = ground arith in
      let at_end : y ≡ b']' = ground arith in
      let second : closes (y ∷ r) ≡ true = rw at_end (closes_head r) in
      (closes_cons x (y ∷ r) at_d second, second)
  | inr e ↦
      let ih = find_close-closes d (y ∷ r) n (find_close_later d x y r e h) in
      (either (dec x) ih, ih.0)
]
  where
    dec : (x : ℕ) → (x ≡ b'\\') ⊎ (x ≢ b'\\')
    dec x = ground arith

    either :
        (x ≡ b'\\') ⊎ (x ≢ b'\\')
        → (closes (y ∷ r) ≡ true) × (closes r ≡ true)
        → closes (x ∷ y ∷ r) ≡ true
    either (inl e) h = rw e (closes_escape y r h.1)
    either (inr n) h = closes_cons x (y ∷ r) n h.0

named-closes :
    (c d : ℕ) (o : Option (Bytes × Bytes))
    → closes_rest (named_element c d o) ≡ true
    → is_ok o ≡ true
unfolding named_element
named-closes c d none h = cc
named-closes c d (some (name, rest)) h = refl

read_element-closes : (c : ℕ) (s : Bytes) → closes_rest (read_element c s) ≡ true → closes s ≡ true
unfolding read_element
read_element-closes c [] h = cc
read_element-closes c (x ∷ []) h = absurd (unfold closes in cc h)
read_element-closes c (x ∷ y ∷ r) h =
    elim (Bool-cases (x == b'[' && (y == b':' || y == b'.' || y == b'='))) [
      | inl e ↦
          let found = named-closes c y (find_close y r) (rw e at h) in
          let y_plain : y ≢ b'\\' = ground arith in
          let x_plain : x ≢ b'\\' = ground arith in
          closes_cons x (y ∷ r) x_plain
            (closes_cons y r y_plain (find_close-closes y r y_plain found).0)
      | inr e ↦ elim (Bool-cases (x == b'\\')) [
        | inl k ↦
            let escape : x ≡ b'\\' = ground arith in rw escape (closes_escape y r (rw (e, k) at h))
        | inr k ↦ closes_cons x (y ∷ r) (ground arith) (rw (e, k) at h)
      ]
    ]

high_end-closes :
    (c v : ℕ) (o : Option (Element × Bytes))
    → closes_rest (high_end c v o) ≡ true
    → closes_rest o ≡ true
unfolding high_end
high_end-closes c v none h = cc
high_end-closes c v (some (class m, r)) h = cc
high_end-closes c v (some (char u, r)) h = h

from_low-closes :
    (c : ℕ) (o : Option (Element × Bytes))
    → closes_rest (from_low c o) ≡ true
    → closes_rest o ≡ true
unfolding from_low
from_low-closes c none h = cc
from_low-closes c (some (class m, r)) h = ground arith
from_low-closes c (some (char v, [])) h = ground arith
from_low-closes c (some (char v, x ∷ [])) h = ground arith
from_low-closes c (some (char v, x ∷ y ∷ r)) h = elim (Bool-cases (x == b'-' && not (y == b']'))) [
  | inl e ↦
      let range = rw e at h in
      closes_cons x (y ∷ r) (ground arith)
        (read_element-closes c (y ∷ r) (high_end-closes c v (read_element c (y ∷ r)) range))
  | inr e ↦ rw e at h
]

bracket_item-closes : (c : ℕ) (s : Bytes) → closes_rest (bracket_item c s) ≡ true → closes s ≡ true
unfolding bracket_item
bracket_item-closes c s h = read_element-closes c s (from_low-closes c (read_element c s) h)

-- A well-formed bracket expression has such a `]`.
bracket_loop-closes :
    (f c : ℕ) (first m : Bool) (s : Bytes)
    → is_ok (bracket_loop f c first m s) ≡ true
    → closes s ≡ true
unfolding bracket_loop
bracket_loop-closes zero c first m s h = cc
bracket_loop-closes (suc f) c first m [] h = cc
bracket_loop-closes (suc f) c first m (x ∷ s) h = elim (Bool-cases (x == b']' && not first)) [
  | inl e ↦ let close : x ≡ b']' = ground arith in rw close (closes_head s)
  | inr e ↦
      bracket_item-closes c (x ∷ s)
        (again (bracket_loop-closes f c false) (bracket_item c (x ∷ s)) (rw e at h))
]
  where
    again :
        ((m : Bool) (r : Bytes) → is_ok (bracket_loop f c false m r) ≡ true → closes r ≡ true)
        → (o : Option (Bool × Bytes))
        → is_ok {A = Bool × Bytes}
            (elim o [ none ↦ none | some (b, r) ↦ bracket_loop f c false (m || b) r ])
          ≡ true
        → closes_rest o ≡ true
    again ih none k = cc
    again ih (some (b, r)) k = ih (m || b) r k

negate-is_ok : (o : Option (Bool × Bytes)) → is_ok (negate o) ≡ is_ok o
negate-is_ok none = refl
negate-is_ok (some (b, r)) = refl

pub match_bracket-closes : (c : ℕ) (s : Bytes) → is_ok (match_bracket c s) ≡ true → closes s ≡ true
unfolding match_bracket
match_bracket-closes c [] h = cc
match_bracket-closes c (x ∷ s) h = elim (Bool-cases (x == b'!' || x == b'^')) [
  | inl e ↦
      let ok = negate-is_ok (bracket_loop (suc (length s)) c true false s) in
      closes_cons x s (ground arith)
        (bracket_loop-closes (suc (length s)) c true false s (sym ok ∙ (rw e at h)))
  | inr e ↦ bracket_loop-closes (suc (suc (length s))) c true false (x ∷ s) (rw e at h)
]

last_close-found :
    (i j : ℕ) (found : Option ℕ) (s : Bytes)
    → i < j
    → closes_after i found ≡ true
    → closes_after i (last_close j found s) ≡ true
unfolding last_close
last_close-found i j found [] h k = k
last_close-found i j found (x ∷ []) h k = ground arith
last_close-found i j found (x ∷ y ∷ s) h k = elim (Bool-cases (x == b'\\')) [
  | inl e ↦ rw e (last_close-found i (j + 2) found s (omega arith) k)
  | inr e ↦ rw e (
      last_close-found i (j + 1) (if x == b']' then some j else found) (y ∷ s) (omega arith)
        (ground arith))
]

-- The scan finds such a `]`, no earlier than it starts.
pub last_close-closes :
    (i j : ℕ) (found : Option ℕ) (s : Bytes)
    → i < j
    → closes s ≡ true
    → closes_after i (last_close j found s) ≡ true
unfolding last_close closes
last_close-closes i j found [] h k = cc
last_close-closes i j found (x ∷ []) h k = ground arith
last_close-closes i j found (x ∷ y ∷ s) h k = elim (Bool-cases (x == b'\\')) [
  | inl e ↦ rw e (last_close-closes i (j + 2) found s (omega arith) (rw e at k))
  | inr e ↦ rw e (elim (Bool-cases (x == b']')) [
    | inl close ↦
        rw close (last_close-found i (j + 1) (some j) (y ∷ s) (omega arith) (ground arith))
    | inr other ↦
        rw other (last_close-closes i (j + 1) found (y ∷ s) (omega arith) (rw (e, other) at k))
  ])
]
