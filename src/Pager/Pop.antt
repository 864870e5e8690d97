-- ===== src/Pager/Pop.antt =====
-- What `pager_filter_pop` of src/leshper/pager.cpp takes off the filter.
use lesh.Base.{
  ℕ, zero, suc, ◌+◌, false, ◌≢◌, leb, subst, ◌<◌, ◌≤◌, ◌≡◌, inl, inr, refl, true, [], ◌∷◌, Bytes,
  same, take, length, arith, Bool-cases,
}
use lesh.Pager.{last_start, pager_filter_pop, PagerState, pager_refilter}

module _ (next_boundary : Bytes → ℕ → ℕ) where
  -- The starts of the clusters of a text: its first byte, and every boundary before its end.
  pub data Starts (text : Bytes) : ℕ → Type 0 where
    first : Starts text 0
    next :
        {p : ℕ}
        → Starts text p
        → next_boundary text p < length text
        → Starts text (next_boundary text p)

  -- Where every boundary is past the position that it is asked for and none past the end, the loop
  -- stops at the start of the cluster that ends the filter.
  last_start-last :
      (f : ℕ) (filter : Bytes) (last at : ℕ)
      → ((p : ℕ)
          → p < length filter
          → (p < next_boundary filter p) × (next_boundary filter p ≤ length filter))
      → last < at
      → at ≤ length filter
      → next_boundary filter last ≡ at
      → length filter ≤ at + f
      → Starts filter last
      → Starts filter (last_start next_boundary f filter last at)
        × (last_start next_boundary f filter last at < length filter)
        × (next_boundary filter (last_start next_boundary f filter last at) ≡ length filter)
  unfolding last_start
  last_start-last zero filter last at step l l' e k s =
      (s, omega (arith, l, l'), omega (arith, l', e, k))
  last_start-last (suc f) filter last at step l l' e k s =
      elim (Bool-cases (leb (length filter) at)) [
        | inl b ↦
            let b' : length filter ≤ at = ground arith in
            rw b (s, omega (arith, l, l'), omega (arith, l', e, b'))
        | inr b ↦
            let b' : at < length filter = ground arith in
            let (up, within) = step at b' in
            let start : Starts filter at = subst (λ p. Starts filter p) e (next s (rw e b')) in
            rw b (
              last_start-last f filter at (next_boundary filter at) step up within refl
                (omega (arith, up, k)) start)
      ]

  first_start-last :
      (filter : Bytes)
      → filter ≢ []
      → ((p : ℕ)
          → p < length filter
          → (p < next_boundary filter p) × (next_boundary filter p ≤ length filter))
      → let n = last_start next_boundary (length filter) filter 0 0 in
        Starts filter n × (n < length filter) × (next_boundary filter n ≡ length filter)
  unfolding last_start
  first_start-last [] n step = absurd (n refl)
  first_start-last (c ∷ text) n step =
      let (up, within) = step 0 (omega arith) in
      let b : leb (length (c ∷ text)) 0 ≡ false = ground arith in
      rw b (
        last_start-last (length text) (c ∷ text) 0 (next_boundary (c ∷ text) 0) step up within refl
          (omega (arith, up)) first)

  not_empty : (filter : Bytes) → filter ≢ [] → same filter [] ≡ false
  not_empty [] n = absurd (n refl)
  not_empty (c ∷ text) n = refl

  -- Where boundaries go forward and stay inside the filter, popping a filter that is not empty cuts it
  -- at the start of its last cluster, whose next boundary is the end, and filters anew.
  pub pager_filter_pop-Starts :
      (pager : PagerState)
      → pager.filter ≢ []
      → ((p : ℕ)
          → p < length pager.filter
          → (p < next_boundary pager.filter p)
            × (next_boundary pager.filter p ≤ length pager.filter))
      → (n : ℕ) × Starts pager.filter n
        × (n < length pager.filter)
        × (next_boundary pager.filter n ≡ length pager.filter)
        × (pager_filter_pop next_boundary pager
            ≡ (pager_refilter (record pager { filter = take n pager.filter }), true))
  unfolding pager_filter_pop
  pager_filter_pop-Starts pager n step =
      let (start, lt, last) = first_start-last pager.filter n step in
      rw (not_empty pager.filter n)
        (last_start next_boundary (length pager.filter) pager.filter 0 0, start, lt, last, refl)
