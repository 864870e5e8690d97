-- ===== src/Pager/Filter.antt =====
-- What src/leshper/pager.cpp keeps of the candidates, and its filter.
use lesh.Base.{
  ℕ, zero, suc, ◌+◌, sym, ap, ◌∙◌, ◌++◌, append-nil, find, drop, same_iff, take-append-drop,
  take-append_self, Option, none, ◌≡◌, inl, inr, refl, true, ◌==◌, some, List, [], ◌∷◌, Bytes, same,
  take, get_elem?, length, arith, Bool-cases,
}
use lesh.Pager.{is_found, PagerCandidate, PagerState, passes, passing, place_of, pager_refilter}

-- The index that is looked for is found where it stands.
place_of-get_elem? :
    (was at n : ℕ) (matching : List ℕ)
    → get_elem? matching n ≡ some was
    → (k : ℕ) × (place_of was at matching ≡ at + k) × (get_elem? matching k ≡ some was)
unfolding place_of
place_of-get_elem? was at n [] h = ground arith
place_of-get_elem? was at zero (index ∷ matching) h =
    let e : (index == was) ≡ true = ground arith in rw e (0, omega arith, h)
place_of-get_elem? was at (suc n) (index ∷ matching) h =
    let (k, e, g) = place_of-get_elem? was (at + 1) n matching h in
    elim (Bool-cases (index == was)) [
      | inl t ↦ rw t (0, omega arith, ground arith)
      | inr t ↦ rw t (suc k, omega (arith, e), g)
    ]

-- A candidate that was selected and passes the new filter stays selected.
pub pager_refilter-selected :
    (pager : PagerState) (was n : ℕ)
    → get_elem? pager.matching pager.selected ≡ some was
    → get_elem? (pager_refilter pager).matching n ≡ some was
    → get_elem? (pager_refilter pager).matching (pager_refilter pager).selected ≡ some was
unfolding pager_refilter
pager_refilter-selected pager was n h h' =
    let (k, e, g) = place_of-get_elem? was 0 n (passing pager.filter 0 pager.candidates) h' in
    let z : 0 + k ≡ k = omega arith in rw (h, e, z) g

passing-passes :
    (filter : Bytes) (from : ℕ) (candidates : List PagerCandidate) (n i : ℕ)
    → get_elem? (passing filter from candidates) n ≡ some i
    → (j : ℕ) × (one : PagerCandidate) × (i ≡ from + j)
      × (get_elem? candidates j ≡ some one)
      × (passes filter one ≡ true)
unfolding passing
passing-passes filter from [] n i h = ground arith
passing-passes filter from (one ∷ candidates) n i h = elim (Bool-cases (passes filter one)) [
  | inr p ↦ past (passing-passes filter (from + 1) candidates n i (rw p at h))
  | inl p ↦ first_or_later p (λ m. passing-passes filter (from + 1) candidates m i) n (rw p at h)
]
  where
    past :
        (j : ℕ) × (other : PagerCandidate) × (i ≡ from + 1 + j)
          × (get_elem? candidates j ≡ some other)
          × (passes filter other ≡ true)
        → (j : ℕ) × (other : PagerCandidate) × (i ≡ from + j)
          × (get_elem? (one ∷ candidates) j ≡ some other)
          × (passes filter other ≡ true)
    past (j, other, e, g, t) = (suc j, other, omega (arith, e), g, t)

    first_or_later :
        passes filter one ≡ true
        → ((m : ℕ)
            → get_elem? (passing filter (from + 1) candidates) m ≡ some i
            → (j : ℕ) × (other : PagerCandidate) × (i ≡ from + 1 + j)
              × (get_elem? candidates j ≡ some other)
              × (passes filter other ≡ true))
        → (n : ℕ) → get_elem? (from ∷ passing filter (from + 1) candidates) n ≡ some i
        → (j : ℕ) × (other : PagerCandidate) × (i ≡ from + j)
          × (get_elem? (one ∷ candidates) j ≡ some other)
          × (passes filter other ≡ true)
    first_or_later p later zero h = (0, one, ground arith, refl, p)
    first_or_later p later (suc n) h = past (later n h)

passing_complete :
    (filter : Bytes) (from : ℕ) (candidates : List PagerCandidate) (j : ℕ) (one : PagerCandidate)
    → get_elem? candidates j ≡ some one
    → passes filter one ≡ true
    → (n : ℕ) × (get_elem? (passing filter from candidates) n ≡ some (from + j))
unfolding passing
passing_complete filter from [] j one h p = ground arith
passing_complete filter from (other ∷ candidates) zero one h p =
    let e : passes filter other ≡ true = ground (arith, h, p) in
    let z : from + 0 ≡ from = omega arith in rw (e, z) (0, refl)
passing_complete filter from (other ∷ candidates) (suc j) one h p =
    let (n, g) = passing_complete filter (from + 1) candidates j one h p in
    let z : from + 1 + j ≡ from + suc j = omega arith in
    let g' : get_elem? (passing filter (from + 1) candidates) n ≡ some (from + suc j) =
      (rw z at g) in
    elim (Bool-cases (passes filter other)) [ inl e ↦ rw e (suc n, g') | inr e ↦ rw e (n, g') ]

-- Somewhere in the text stands the filter.
abbrev pub Occurs : Bytes → Bytes → Type 0
Occurs filter text = (pre : Bytes) × (post : Bytes) × (text ≡ pre ++ (filter ++ post))

same-take-Occurs :
    (filter text : Bytes) → same (take (length filter) text) filter ≡ true → Occurs filter text
same-take-Occurs filter text h =
    let e : take (length filter) text ≡ filter =
      (same_iff (take (length filter) text) filter).0 h in
    (
      [],
      drop (length filter) text,
      sym (take-append-drop (length filter) text)
          ∙ ap (λ front. front ++ drop (length filter) text) e,
    )

find-Occurs : (filter text : Bytes) → is_found (find filter text) ≡ true → Occurs filter text
find-Occurs filter [] h = elim (Bool-cases (same filter [])) [
  | inl e ↦ ([], [], sym (append-nil filter ∙ (same_iff filter []).0 e))
  | inr e ↦ absurd (ground (arith, h, e))
]
find-Occurs filter (c ∷ text) h =
    elim (Bool-cases (same (take (length filter) (c ∷ text)) filter)) [
      | inl e ↦ same-take-Occurs filter (c ∷ text) e
      | inr e ↦
          let later : is_found (find filter text) ≡ true =
            found_later (find filter text) (rw e at h) in
          let (pre, post, split) = find-Occurs filter text later in
          (c ∷ pre, post, ap (λ rest. c ∷ rest) split)
    ]
  where
    found_later :
        (later : Option ℕ)
        → is_found (elim later as (λ _. Option ℕ) [ none ↦ none | some n ↦ some (suc n) ]) ≡ true
        → is_found later ≡ true
    found_later none k = k
    found_later (some n) k = refl

Occurs-find : (filter pre post : Bytes) → is_found (find filter (pre ++ (filter ++ post))) ≡ true
Occurs-find [] [] [] = refl
Occurs-find [] [] (c ∷ post) = refl
Occurs-find (c ∷ filter) [] post =
    let here : same (take (length (c ∷ filter)) ((c ∷ filter) ++ post)) (c ∷ filter) ≡ true =
      (same_iff (take (length (c ∷ filter)) ((c ∷ filter) ++ post)) (c ∷ filter)).1
        (take-append_self (c ∷ filter) post) in
    rw here refl
Occurs-find filter (c ∷ pre) post =
    let later = Occurs-find filter pre post in
    elim (Bool-cases (same (take (length filter) (c ∷ (pre ++ (filter ++ post)))) filter)) [
      | inl e ↦ rw e refl
      | inr e ↦ rw e (found_further (find filter (pre ++ (filter ++ post))) later)
    ]
  where
    found_further :
        (later : Option ℕ)
        → is_found later ≡ true
        → is_found (elim later as (λ _. Option ℕ) [ none ↦ none | some n ↦ some (suc n) ]) ≡ true
    found_further none k = k
    found_further (some n) k = refl

passes-Occurs :
    (filter : Bytes) (one : PagerCandidate) → passes filter one ≡ true → Occurs filter one.text
passes-Occurs filter one h = elim (Bool-cases (same filter [])) [
  | inl e ↦ let empty : filter ≡ [] = (same_iff filter []).0 e in rw empty ([], one.text, refl)
  | inr e ↦ find-Occurs filter one.text (rw e at h)
]

Occurs-passes :
    (filter : Bytes) (one : PagerCandidate) → Occurs filter one.text → passes filter one ≡ true
Occurs-passes filter one (pre, post, split) =
    let there : is_found (find filter one.text) ≡ true = rw split (Occurs-find filter pre post) in
    ground (arith, there)

-- A candidate is among the matches exactly where the filter occurs somewhere in its text.
pub pager_refilter-Occurs :
    (pager : PagerState) (index : ℕ)
    → ((n : ℕ) × (get_elem? (pager_refilter pager).matching n ≡ some index)
        → (one : PagerCandidate) × (get_elem? pager.candidates index ≡ some one)
          × Occurs pager.filter one.text)
      × ((one : PagerCandidate)
          → get_elem? pager.candidates index ≡ some one
          → Occurs pager.filter one.text
          → (n : ℕ) × (get_elem? (pager_refilter pager).matching n ≡ some index))
unfolding pager_refilter
pager_refilter-Occurs pager index = (
  (λ (n, h).
      let (j, one, e, g, p) = passing-passes pager.filter 0 pager.candidates n index h in
      let z : j ≡ index = omega (arith, e) in (one, rw z at g, passes-Occurs pager.filter one p)),
  λ one h o.
      let p = Occurs-passes pager.filter one o in
      let (n, g) = passing_complete pager.filter 0 pager.candidates index one h p in
      let z : 0 + index ≡ index = omega arith in (n, rw z at g),
)
