-- ===== src/Pattern/Spec.antt =====
-- What a shell pattern means, apart from the loop of src/runtime/pattern.cpp: which texts it admits,
-- by rules. Whether a bracket takes a byte is what `match_bracket` says.
use lesh.Base.{ℕ, ◌≡◌, ◌≢◌, true, none, some, [], ◌∷◌, Bytes, arith}
use lesh.Pattern.{advance, meet, match_bracket}

-- The position `p` takes the byte `c`, and `p'` is what is left of the pattern.
pub data Accepts : Bytes → ℕ → Bytes → Type 0 where
  escaped : {p p' : Bytes} {c : ℕ} → p ≡ b'\\' ∷ c ∷ p' → Accepts p c p'
  any : {p p' : Bytes} {c : ℕ} → p ≡ b'?' ∷ p' → Accepts p c p'
  bracket :
      {p s p' : Bytes} {c : ℕ} → p ≡ b'[' ∷ s → match_bracket c s ≡ some (true, p') → Accepts p c p'
  open_bracket :
      {p p' : Bytes} {c : ℕ} → p ≡ b'[' ∷ p' → c ≡ b'[' → match_bracket c p' ≡ none → Accepts p c p'
  literal :
      {p p' : Bytes} {c : ℕ}
      → p ≡ c ∷ p'
      → c ≢ b'?'
      → c ≢ b'['
      → c ≢ b'*'
      → (c ≡ b'\\' → p' ≡ [])
      → Accepts p c p'

pub data Matches : Bytes → Bytes → Type 0 where
  done : Matches [] []
  one : {p p' t : Bytes} {c : ℕ} → Accepts p c p' → Matches p' t → Matches p (c ∷ t)
  star_empty : {p p' t : Bytes} → p ≡ b'*' ∷ p' → Matches p' t → Matches p t
  star_more : {p p' t : Bytes} {c : ℕ} → p ≡ b'*' ∷ p' → Matches p t → Matches p (c ∷ t)

pub meet-Accepts : (p : Bytes) (c : ℕ) {p' : Bytes} → meet p c ≡ advance p' → Accepts p c p'
unfolding meet
meet-Accepts [] c h = cc
meet-Accepts (x ∷ []) c h = grind (arith, escaped, any, bracket, open_bracket, literal)
meet-Accepts (x ∷ y ∷ p) c h = grind (arith, escaped, any, bracket, open_bracket, literal)

pub Accepts-meet : {p p' : Bytes} {c : ℕ} → Accepts p c p' → meet p c ≡ advance p'
unfolding meet
Accepts-meet (escaped e) = rw e (ground arith)
Accepts-meet (any {p' = []} e) = rw e
Accepts-meet (any {p' = x ∷ r} e) = rw e
Accepts-meet (bracket {s = []} e h) = rw e (ground arith)
Accepts-meet (bracket {s = x ∷ r} e h) = rw e (ground arith)
Accepts-meet (open_bracket {p' = []} e h k) = rw e (ground arith)
Accepts-meet (open_bracket {p' = x ∷ r} e h k) = rw e (ground arith)
Accepts-meet (literal {p' = []} e h k l m) = rw e (ground arith)
Accepts-meet (literal {p' = x ∷ r} e h k l m) = rw e (ground arith)
