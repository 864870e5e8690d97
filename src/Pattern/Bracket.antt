-- ===== src/Pattern/Bracket.antt =====
-- Bracket expressions, `read_element` and `match_bracket` of src/runtime/pattern.cpp.
use lesh.Base.{
  ℕ, zero, suc, ◌<◌, ◌≤◌, ◌≡◌, ◌≢◌, refl, inl, inr, Bool, true, false, not, ◌&&◌, ◌||◌, Option,
  none, some, [], ◌∷◌, Bytes, ◌==◌, length, arith, Bool-cases,
}
use lesh.Pattern.{
  Element, class, char, find_close, read_element, high_end, from_low, bracket_item, bracket_loop,
  match_bracket, negate,
}

-- What an element is whatever the subject byte: a class, or which character.
abbrev kind : Element → Option ℕ
kind (class m) = none
kind (char v) = some v

abbrev shape : Option (Element × Bytes) → Option (Option ℕ × Bytes)
shape none = none
shape (some (e, r)) = some (kind e, r)

abbrev pub rest_of : Option (Bool × Bytes) → Option Bytes
rest_of none = none
rest_of (some (m, r)) = some r

read_element-shape : (c d : ℕ) (s : Bytes) → shape (read_element c s) ≡ shape (read_element d s)
unfolding read_element
read_element-shape c d [] = refl
read_element-shape c d (x ∷ []) = refl
read_element-shape c d (x ∷ y ∷ r) = ground arith

high_end-rest :
    (c d low low' : ℕ) (s : Bytes)
    → rest_of (high_end c low (read_element c s)) ≡ rest_of (high_end d low' (read_element d s))
unfolding high_end
high_end-rest c d low low' s = ground (arith, read_element-shape c d s)

from_low-rest :
    (c d : ℕ) (o o' : Option (Element × Bytes))
    → shape o ≡ shape o'
    → rest_of (from_low c o) ≡ rest_of (from_low d o')
unfolding from_low
from_low-rest c d none none h = refl
from_low-rest c d none (some (e, r)) h = cc
from_low-rest c d (some (e, r)) none h = cc
from_low-rest c d (some (class m, r)) (some (class m', r')) h = ground arith
from_low-rest c d (some (class m, r)) (some (char v, r')) h = cc
from_low-rest c d (some (char v, r)) (some (class m, r')) h = cc
from_low-rest c d (some (char v, [])) (some (char v', [])) h = ground arith
from_low-rest c d (some (char v, [])) (some (char v', x ∷ r')) h = cc
from_low-rest c d (some (char v, x ∷ r)) (some (char v', [])) h = cc
from_low-rest c d (some (char v, x ∷ [])) (some (char v', x' ∷ [])) h = ground arith
from_low-rest c d (some (char v, x ∷ [])) (some (char v', x' ∷ y' ∷ r')) h = cc
from_low-rest c d (some (char v, x ∷ y ∷ r)) (some (char v', x' ∷ [])) h = cc
from_low-rest c d (some (char v, x ∷ y ∷ r)) (some (char v', x' ∷ y' ∷ r')) h =
    ground (arith, high_end-rest c d v v' (y ∷ r))

bracket_item-rest : (c d : ℕ) (s : Bytes) → rest_of (bracket_item c s) ≡ rest_of (bracket_item d s)
unfolding bracket_item
bracket_item-rest c d s = from_low-rest c d _ _ (read_element-shape c d s)

-- One more than the length of what is left, and 0 where nothing was read.
abbrev pub rest_size {ℓ} : {A : Type ℓ} → Option (A × Bytes) → ℕ
rest_size none = 0
rest_size (some (a, r)) = suc (length r)

find_close-size : (d : ℕ) (s : Bytes) → rest_size (find_close d s) ≤ length s
unfolding find_close
find_close-size d [] = omega arith
find_close-size d (x ∷ []) = omega arith
find_close-size d (x ∷ y ∷ r) = ground (arith, find_close-size d (y ∷ r))

read_element-size : (c : ℕ) (s : Bytes) → rest_size (read_element c s) ≤ length s
unfolding read_element
read_element-size c [] = omega arith
read_element-size c (x ∷ []) = omega arith
read_element-size c (x ∷ y ∷ r) = ground (arith, find_close-size y r)

from_low-size : (c : ℕ) (o : Option (Element × Bytes)) → rest_size (from_low c o) ≤ rest_size o
unfolding from_low
from_low-size c none = omega arith
from_low-size c (some (class m, r)) = omega arith
from_low-size c (some (char v, [])) = omega arith
from_low-size c (some (char v, x ∷ [])) = omega arith
from_low-size c (some (char v, x ∷ y ∷ r)) = ground (arith, read_element-size c (y ∷ r))

pub bracket_item-size : (c : ℕ) (s : Bytes) → rest_size (bracket_item c s) ≤ length s
unfolding bracket_item
bracket_item-size c s = omega (arith, from_low-size c (read_element c s), read_element-size c s)

bracket_loop-rest :
    (f c d : ℕ) (first m n : Bool) (s : Bytes)
    → rest_of (bracket_loop f c first m s) ≡ rest_of (bracket_loop f d first n s)
unfolding bracket_loop
bracket_loop-rest zero c d first m n s = refl
bracket_loop-rest (suc f) c d first m n [] = refl
bracket_loop-rest (suc f) c d first m n (x ∷ s) = elim (Bool-cases (x == b']' && not first)) [
  | inl closed ↦ rw closed
  | inr open_ ↦ rw open_ (
      again (bracket_loop-rest f c d false) (bracket_item c (x ∷ s)) (bracket_item d (x ∷ s))
        (bracket_item-rest c d (x ∷ s)))
]
  where
    again :
        ((m n : Bool) (r : Bytes)
          → rest_of (bracket_loop f c false m r) ≡ rest_of (bracket_loop f d false n r))
        → (o o' : Option (Bool × Bytes)) → rest_of o ≡ rest_of o'
        → rest_of (elim o [ none ↦ none | some (b, r) ↦ bracket_loop f c false (m || b) r ])
          ≡ rest_of (elim o' [ none ↦ none | some (b, r) ↦ bracket_loop f d false (n || b) r ])
    again ih none none e = refl
    again ih none (some (b, r)) e = cc
    again ih (some (b, r)) none e = cc
    again ih (some (b, r)) (some (b', r')) e = ground (arith, ih (m || b) (n || b') r)

-- Whether a bracket expression is well formed, and where it ends, does not depend on the byte
-- that is looked for: `is_pattern` may ask with any.
pub match_bracket-rest :
    (c d : ℕ) (s : Bytes) → rest_of (match_bracket c s) ≡ rest_of (match_bracket d s)
unfolding match_bracket
match_bracket-rest c d [] = refl
match_bracket-rest c d (x ∷ s) = ground (
  arith,
  bracket_loop-rest (suc (length s)) c d true false false s,
  bracket_loop-rest (suc (suc (length s))) c d true false false (x ∷ s),
)

-- Every fuel above the length of the text gives the same result.
pub bracket_loop-fuel :
    (f g c : ℕ) (first m : Bool) (s : Bytes)
    → length s < f
    → length s < g
    → bracket_loop f c first m s ≡ bracket_loop g c first m s
unfolding bracket_loop
bracket_loop-fuel zero g c first m s h k = elim h [ ]
bracket_loop-fuel (suc f) zero c first m s h k = elim k [ ]
bracket_loop-fuel (suc f) (suc g) c first m [] h k = refl
bracket_loop-fuel (suc f) (suc g) c first m (x ∷ s) h k =
    elim (Bool-cases (x == b']' && not first)) [
      | inl closed ↦ rw closed
      | inr open_ ↦ rw open_ (
          again (bracket_loop-fuel f g c false) (bracket_item c (x ∷ s))
            (bracket_item-size c (x ∷ s)))
    ]
  where
    again :
        ((m : Bool) (r : Bytes)
          → length r < f
          → length r < g
          → bracket_loop f c false m r ≡ bracket_loop g c false m r)
        → (o : Option (Bool × Bytes)) → rest_size o ≤ suc (length s)
        → (let o1 : Option (Bool × Bytes) = elim o [
          | none ↦ none
          | some (b, r) ↦ bracket_loop f c false (m || b) r
        ] in
            o1)
          ≡ elim o [ none ↦ none | some (b, r) ↦ bracket_loop g c false (m || b) r ]
    again ih none e = refl
    again ih (some (b, r)) e = ih (m || b) r (omega arith) (omega arith)

bracket_loop-size :
    (f c : ℕ) (first m : Bool) (s : Bytes) → rest_size (bracket_loop f c first m s) ≤ length s
unfolding bracket_loop
bracket_loop-size zero c first m s = omega arith
bracket_loop-size (suc f) c first m [] = omega arith
bracket_loop-size (suc f) c first m (x ∷ s) = elim (Bool-cases (x == b']' && not first)) [
  | inl closed ↦ rw closed (omega arith)
  | inr open_ ↦
      rw open_
        (again (bracket_loop-size f c false) (bracket_item c (x ∷ s)) (bracket_item-size c (x ∷ s)))
]
  where
    again :
        ((m : Bool) (r : Bytes) → rest_size (bracket_loop f c false m r) ≤ length r)
        → (o : Option (Bool × Bytes)) → rest_size o ≤ suc (length s)
        → rest_size (elim o [ none ↦ none | some (b, r) ↦ bracket_loop f c false (m || b) r ])
          ≤ suc (length s)
    again ih none e = omega arith
    again ih (some (b, r)) e = omega (arith, ih (m || b) r)

-- A bracket expression ends inside the pattern.
pub match_bracket-size : (c : ℕ) (s : Bytes) → rest_size (match_bracket c s) ≤ length s
unfolding match_bracket
match_bracket-size c [] = omega arith
match_bracket-size c (x ∷ s) = ground (
  arith,
  bracket_loop-size (suc (length s)) c true false s,
  bracket_loop-size (suc (suc (length s))) c true false (x ∷ s),
)

-- A leading `!` negates the rest of a bracket expression, whatever its subject, unless what
-- follows is a second mark, which is then an ordinary character of the set.
match_bracket_negated :
    (c x : ℕ) (s : Bytes)
    → x ≢ b'!'
    → x ≢ b'^'
    → match_bracket c (b'!' ∷ x ∷ s) ≡ negate (match_bracket c (x ∷ s))
unfolding match_bracket
match_bracket_negated c x s h k = ground arith
