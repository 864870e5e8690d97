-- ===== src/Pattern/Trim.antt =====
-- `match_prefix` and `match_suffix` of src/runtime/pattern.cpp, for `${x#pat}` and its kin.
use lesh.Base.{
  ℕ, zero, suc, ◌+◌, ◌-◌, ◌≤◌, ◌<◌, ◌≡◌, ◌≢◌, ◌⊎◌, inl, inr, refl, Bool, true, false, Option, none,
  some, [], ◌∷◌, Bytes, length, take, drop, arith, Bool-cases,
}
use lesh.Pattern.{pattern_match, period_refused, find_split, match_prefix, match_suffix}
use lesh.Pattern.Spec.{Matches}
use lesh.Pattern.Decides.{pattern_match_iff}

-- `n` comes before `m` in the order asked for.
abbrev pub Sooner : Bool → ℕ → ℕ → Type 0
Sooner true n m = m < n
Sooner false n m = n < m

-- The result is the first length in the order asked for at which `Hit` holds; `none` says that it
-- holds at none.
abbrev pub IsBest : (ℕ → Type 0) → Bool → ℕ → Option ℕ → Type 0
IsBest Hit longest size none = (n : ℕ) → n ≤ size → ¬ (Hit n)
IsBest Hit longest size (some n) =
    (n ≤ size) × Hit n × ((m : ℕ) → m ≤ size → Sooner longest m n → ¬ (Hit m))

eq_cases : (m n : ℕ) → (m ≡ n) ⊎ (m ≢ n)
eq_cases m n = ground arith

-- The lengths that `left` more rounds look at.
abbrev Ahead : Bool → ℕ → ℕ → ℕ → Type 0
Ahead true size left n = n < left
Ahead false size left n = size < n + left

module _ (Hit : ℕ → Type 0) (hit : ℕ → Bool) (yes_hit : (n : ℕ) → hit n ≡ true → Hit n)
    (no_hit : (n : ℕ) → hit n ≡ false → ¬ (Hit n)) where
  find_split-IsBest :
      (longest : Bool) (size left : ℕ)
      → left ≤ size + 1
      → ((n : ℕ) → n ≤ size → ¬ (Ahead longest size left n) → ¬ (Hit n))
      → IsBest Hit longest size (find_split hit longest size left)
  unfolding find_split
  find_split-IsBest true size zero h past = λ n le. past n le (λ x. omega arith)
  find_split-IsBest false size zero h past = λ n le. past n le (λ x. omega arith)
  find_split-IsBest true size (suc n) h past = elim (Bool-cases (hit n)) [
    | inl e ↦ rw e (omega arith, yes_hit n e, λ m le s. past m le (λ x. omega arith))
    | inr e ↦ rw e (
        find_split-IsBest true size n (omega arith) (λ m le far. elim (eq_cases m n) [
          | inl same ↦ rw same (no_hit n e)
          | inr other ↦ past m le (λ x. far (omega arith))
        ]))
  ]
  find_split-IsBest false size (suc n) h past = elim (Bool-cases (hit (size - n))) [
    | inl e ↦ rw e (omega arith, yes_hit (size - n) e, λ m le s. past m le (λ x. omega arith))
    | inr e ↦ rw e (
        find_split-IsBest false size n (omega arith) (λ m le far. elim (eq_cases m (size - n)) [
          | inl same ↦ rw same (no_hit (size - n) e)
          | inr other ↦ past m le (λ x. far (omega arith))
        ]))
  ]

-- What the two functions look for.
abbrev pub PrefixMatches : Bytes → Bytes → ℕ → Type 0
PrefixMatches p t n = Matches p (take n t)

abbrev pub SuffixMatches : Bytes → Bytes → ℕ → Type 0
SuffixMatches p t n = Matches p (drop (length t - n) t)

not_special : (p t : Bytes) → period_refused false p t ≡ false
unfolding period_refused
not_special p [] = refl
not_special [] (c ∷ t) = refl
not_special (x ∷ p) (c ∷ t) = refl

yes_match : (p t : Bytes) → pattern_match p t false ≡ true → Matches p t
yes_match p t h = ((pattern_match_iff p t false).0 h).1

no_match : (p t : Bytes) → pattern_match p t false ≡ false → ¬ (Matches p t)
no_match p t h m = cc ((pattern_match_iff p t false).1 (not_special p t, m))

-- `match_prefix` finds the shortest, or the longest, length at which a prefix of the text is
-- matched, the empty prefix and the whole text included, and nothing only where none is.
pub match_prefix-IsBest :
    (p t : Bytes) (longest : Bool)
    → IsBest (PrefixMatches p t) longest (length t) (match_prefix p t longest)
unfolding match_prefix
match_prefix-IsBest p t longest =
    find_split-IsBest (PrefixMatches p t) _ (λ n. yes_match p (take n t))
      (λ n. no_match p (take n t)) longest (length t) (suc (length t)) (omega arith)
      (all_ahead longest)
  where
    all_ahead :
        (longest : Bool) (n : ℕ)
        → n ≤ length t
        → ¬ (Ahead longest (length t) (suc (length t)) n)
        → ¬ (PrefixMatches p t n)
    all_ahead true n le far = absurd (far (omega arith))
    all_ahead false n le far = absurd (far (omega arith))

-- `match_suffix` does the same for the suffixes of the text.
pub match_suffix-IsBest :
    (p t : Bytes) (longest : Bool)
    → IsBest (SuffixMatches p t) longest (length t) (match_suffix p t longest)
unfolding match_suffix
match_suffix-IsBest p t longest =
    find_split-IsBest (SuffixMatches p t) _ (λ n. yes_match p (drop (length t - n) t))
      (λ n. no_match p (drop (length t - n) t)) longest (length t) (suc (length t)) (omega arith)
      (all_ahead longest)
  where
    all_ahead :
        (longest : Bool) (n : ℕ)
        → n ≤ length t
        → ¬ (Ahead longest (length t) (suc (length t)) n)
        → ¬ (SuffixMatches p t n)
    all_ahead true n le far = absurd (far (omega arith))
    all_ahead false n le far = absurd (far (omega arith))
