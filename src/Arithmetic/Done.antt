-- ===== src/Arithmetic/Done.antt =====
-- What it is for a part of the parser of src/runtime/arithmetic.cpp to end, and the rules for its steps.
use lesh.Base.{
  ℕ, ◌^◌, ◌≤◌, ◌<◌, inl, inr, Bool, true, false, Option, none, some, List, ◌∷◌, Bytes, length,
  arith, All,
}
use lesh.Arithmetic.State.{Evaluator}
use lesh.Arithmetic.Parser.{
  Parse, found, ◌>>=◌, find_operator, Level, bit_or_level, bit_xor_level, bit_and_level, equality,
  relational, shift, additive, multiplicative,
}
use lesh.Arithmetic.Follows.{Follows, Follows-trans, consume_cases, find_operator_cases}

module _ {V : Type 0} where
  -- Behind `s` comes the word `v`, with `s'`.
  pub record Yields (s : Evaluator V) (v : ℕ) (s' : Evaluator V) : Type 0 where
    pub value_lt : v < 2 ^ 64
    pub follows : Follows s s'

  -- The fuel did not run out, and what came out follows.
  abbrev pub Done : Evaluator V → Option (ℕ × Evaluator V) → Type 0
  Done s none = ⊥
  Done s (some (v, s')) = Yields s v s'

  pub Done-from :
      (s t : Evaluator V) (r : Option (ℕ × Evaluator V)) → Follows s t → Done t r → Done s r
  Done-from s t none h d = elim d [ ]
  Done-from s t (some (v, u)) h d = record {
    value_lt = d.value_lt;
    follows = Follows-trans s t u h d.follows;
  }

  pub Done-bind :
      (s t : Evaluator V) (m : Parse V ℕ) (k : ℕ → Parse V ℕ)
      → Done t (m t)
      → ((v : ℕ) (u : Evaluator V) → v < 2 ^ 64 → Follows t u → Done s (k v u))
      → Done s ((m >>= k) t)
  Done-bind s t m k d next = go (m t) d
    where
      go :
          (r : Option (ℕ × Evaluator V))
          → Done t r
          → Done s (elim r as (λ _. Option (ℕ × Evaluator V)) [ none ↦ none | some (a, u) ↦ k a u ])
      go none d = elim d [ ]
      go (some (v, u)) d = next v u d.value_lt d.follows

  pub Done-found :
      (c : ℕ) (op : Bytes) (s : Evaluator V) (k : Bool → Parse V ℕ)
      → ((text : Bytes) → length text < length s.rest → Done s (k true (record s { rest = text })))
      → ((text : Bytes) → length text ≤ length s.rest → Done s (k false (record s { rest = text })))
      → Done s ((found (c ∷ op) >>= k) s)
  Done-found c op s k there gone =
      let (text, cases) = consume_cases c op s in
      elim cases [ inl (e, lt) ↦ rw e (there text lt) | inr (e, le) ↦ rw e (gone text le) ]

  pub Done-find :
      {A : Type 0} (ops : List (Bytes × A)) (s : Evaluator V) (k : Option A → Parse V ℕ)
      → All (λ p. 0 < length p.0) ops
      → ((a : A) (text : Bytes)
          → length text < length s.rest
          → Done s (k (some a) (record s { rest = text })))
      → ((text : Bytes) → length text ≤ length s.rest → Done s (k none (record s { rest = text })))
      → Done s (((λ t. some (find_operator ops t)) >>= k) s)
  Done-find ops s k all there gone =
      let (text, cases) = find_operator_cases ops s all in
      elim cases [ inl (a, e, lt) ↦ rw e (there a text lt) | inr (e, le) ↦ rw e (gone text le) ]

abbrev pub rank : Level → ℕ
rank bit_or_level = 18
rank bit_xor_level = 16
rank bit_and_level = 14
rank equality = 12
rank relational = 10
rank shift = 8
rank additive = 6
rank multiplicative = 4

pub rank_bounds : (level : Level) → (4 ≤ rank level) × (rank level ≤ 18)
rank_bounds bit_or_level = omega arith
rank_bounds bit_xor_level = omega arith
rank_bounds bit_and_level = omega arith
rank_bounds equality = omega arith
rank_bounds relational = omega arith
rank_bounds shift = omega arith
rank_bounds additive = omega arith
rank_bounds multiplicative = omega arith
