-- ===== src/Pager/Choose.antt =====
-- What src/leshper/pager.cpp inserts.

use lesh.Base.{
  ℕ, zero, suc, ◌<◌, ◌≤◌, ◌≡◌, inl, inr, refl, sym, ap, subst, true, ◌&&◌, ◌==◌, some, List, [],
  ◌∷◌, ◌++◌, Bytes, same, same_iff, take, drop, get_elem?, length, ltb, arith, Bool-cases,
  take-append-drop, append_assoc, append-nil,
}
use lesh.Pager.{
  PagerState, text_at, agreement, shared_text, prefix_of, decide_matching, pager_common_prefix,
  decide_pager, insert, open_pager,
}

-- `a` begins `b`.
abbrev pub Begins : Bytes → Bytes → Type 0
Begins a b = (rest : Bytes) × (b ≡ a ++ rest)

Begins-trans : (a b c : Bytes) → Begins a b → Begins b c → Begins a c
Begins-trans a b c (r, e) (s, f) = (r ++ s, rw (f, e) (append_assoc a r s))

agreement-left : (a b : Bytes) → Begins (agreement a b) a
unfolding agreement
agreement-left [] b = ([], refl)
agreement-left (c ∷ a) [] = (c ∷ a, refl)
agreement-left (c ∷ a) (d ∷ b) =
    let (r, e) = agreement-left a b in
    elim (Bool-cases (c == d)) [ inl t ↦ rw t (r, ap (◌∷◌ c) e) | inr t ↦ rw t (c ∷ a, refl) ]

agreement-right : (a b : Bytes) → Begins (agreement a b) b
unfolding agreement
agreement-right [] b = (b, refl)
agreement-right (c ∷ a) [] = ([], refl)
agreement-right (c ∷ a) (d ∷ b) =
    let (r, e) = agreement-right a b in
    elim (Bool-cases (c == d)) [
      | inl t ↦ let q : c ≡ d = ground arith in rw t (r, rw (ap (◌∷◌ d) e, q) refl)
      | inr t ↦ rw t (d ∷ b, refl)
    ]

-- What is agreed begins the text it started from and every text on the way.
shared_text-Begins :
    (pager : PagerState) (shared : Bytes) (matching : List ℕ)
    → Begins (shared_text pager shared matching) shared
      × ((n i : ℕ)
          → get_elem? matching n ≡ some i
          → Begins (shared_text pager shared matching) (text_at pager i))
unfolding shared_text
shared_text-Begins pager shared [] = (([], sym (append-nil shared)), λ n i h. ground arith)
shared_text-Begins pager shared (index ∷ matching) =
    let agreed = agreement shared (text_at pager index) in
    let (first, later) = shared_text-Begins pager agreed matching in
    elim (Bool-cases (same agreed [])) [
      | inl e ↦
          let empty : agreed ≡ [] = (same_iff agreed []).0 e in
          rw (e, empty) ((shared, refl), λ n i h. (text_at pager i, refl))
      | inr e ↦ rw e (
        Begins-trans _ agreed shared first (agreement-left shared (text_at pager index)),
        here_or_later (shared_text pager agreed matching) first later,
      )
    ]
  where
    here_or_later :
        (result : Bytes)
        → Begins result (agreement shared (text_at pager index))
        → ((n i : ℕ) → get_elem? matching n ≡ some i → Begins result (text_at pager i))
        → (n i : ℕ) → get_elem? (index ∷ matching) n ≡ some i
        → Begins result (text_at pager i)
    here_or_later result first later zero i h =
        let e : index ≡ i = ground arith in
        rw (sym e) (
          Begins-trans result _ (text_at pager index) first
            (agreement-right shared (text_at pager index)))
    here_or_later result first later (suc n) i h = later n i h

take-Begins : (n : ℕ) (text : Bytes) → Begins (take n text) text
take-Begins n text = (drop n text, sym (take-append-drop n text))

module _ (next_boundary : Bytes → ℕ → ℕ) where
  -- However text is segmented, the common prefix begins the text of every match.
  pub pager_common_prefix-Begins :
      (pager : PagerState) (n index : ℕ)
      → get_elem? pager.matching n ≡ some index
      → Begins (pager_common_prefix next_boundary pager) (text_at pager index)
  unfolding pager_common_prefix
  pager_common_prefix-Begins pager n index h = go pager.matching h
    where
      go :
          (matching : List ℕ)
          → get_elem? matching n ≡ some index
          → Begins (prefix_of next_boundary pager matching) (text_at pager index)
      go [] e = ground arith
      go (front ∷ matching) e =
          Begins-trans _ _ (text_at pager index) (take-Begins _ _)
            ((shared_text-Begins pager (text_at pager front) (front ∷ matching)).1 n index e)

module _ (next_boundary : Bytes → ℕ → ℕ) where
  one_short : ¬ (2 ≤ 1)
  one_short = omega arith

  not_inserted : ¬ (open_pager ≡ insert)
  not_inserted = λ e. cc

  decide_matching-insert :
      (pager : PagerState) (typed : Bytes) (matching : List ℕ)
      → 2 ≤ length matching
      → (decide_matching next_boundary pager typed matching).what ≡ insert
      → let text = (decide_matching next_boundary pager typed matching).text in
        (length typed < length text)
        × Begins typed text
        × (text ≡ prefix_of next_boundary pager matching)
  decide_matching-insert pager typed [] l h = elim l [ ]
  decide_matching-insert pager typed (only ∷ []) l h = absurd (one_short l)
  decide_matching-insert pager typed (front ∷ other ∷ matching) l h =
      let shared = prefix_of next_boundary pager (front ∷ other ∷ matching) in
      elim (Bool-cases
        (ltb (length typed) (length shared) && same (take (length typed) shared) typed)) [
          | inr e ↦ let bad : open_pager ≡ insert = (rw e at h) in absurd (not_inserted bad)
          | inl e ↦
              let long : length typed < length shared = ground arith in
              let agree : same (take (length typed) shared) typed ≡ true = ground arith in
              let eq : take (length typed) shared ≡ typed =
                (same_iff (take (length typed) shared) typed).0 agree in
              rw e (
                long,
                (
                  drop (length typed) shared,
                  subst (λ t. shared ≡ t ++ drop (length typed) shared) eq
                      (sym (take-append-drop (length typed) shared)),
                ),
                refl,
              )
        ]

  -- With two matches or more, Tab inserts only what extends the typed text, and only what every match
  -- begins with.
  pub decide_pager-insert :
      (pager : PagerState) (typed : Bytes)
      → 2 ≤ length pager.matching
      → (decide_pager next_boundary pager typed).what ≡ insert
      → let text = (decide_pager next_boundary pager typed).text in
        (length typed < length text)
        × Begins typed text
        × ((n index : ℕ)
            → get_elem? pager.matching n ≡ some index
            → Begins text (text_at pager index))
  unfolding decide_pager pager_common_prefix
  decide_pager-insert pager typed l h =
      let (long, begins, e) = decide_matching-insert pager typed pager.matching l h in
      let same_text = sym e in
      (
        long,
        begins,
        λ n index g.
            subst (λ t. Begins t (text_at pager index)) same_text
              (pager_common_prefix-Begins next_boundary pager n index g),
      )
