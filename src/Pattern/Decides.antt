-- ===== src/Pattern/Decides.antt =====
-- `match_here` of src/runtime/pattern.cpp decides what the pattern means.
use lesh.Base.{
  ℕ, zero, suc, ◌+◌, ◌*◌, ◌≤◌, ◌<◌, ◌≡◌, ◌≢◌, refl, ◌↔◌, ◌⊎◌, inl, inr, Bool, true, false, Option,
  none, some, [], ◌∷◌, Bytes, length, drop, length-drop, ap, arith, Bool-cases,
}
use lesh.Pattern.{
  Meet, advance, star, stuck, meet, only_stars, match_loop, loop_fuel, period_refused, match_here,
  pattern_match,
}
use lesh.Pattern.Bracket.{match_bracket-size}
use lesh.Pattern.Spec.{Matches, done, one, star_empty, star_more, meet-Accepts, Accepts-meet}
use lesh.Pattern.Star.{
  meet-star, star-meet, only_stars-Matches, Matches-only_stars, Suffix, here, there, star-Suffix,
  Advanced, start, step, Advanced-later,
}

-- What the loop may still accept: from where it stands, or from behind the last `*` with one more
-- byte given to that.
abbrev Later : Option (Bytes × Bytes) → Type 0
Later none = ⊥
Later (some (sp, st)) = Matches (b'*' ∷ sp) (drop 1 st)

abbrev Hope : Bytes → Bytes → Option (Bytes × Bytes) → Type 0
Hope p t back = Matches p t ⊎ Later back

-- What the loop knows of its last `*`.
abbrev Behind : Option (Bytes × Bytes) → Bytes → Bytes → Type 0
Behind none p t = Unit
Behind (some (sp, st)) p t = Advanced sp st p t

abbrev Decided : Option Bool → Type 0 → Type 0
Decided none P = ⊥
Decided (some true) P = P
Decided (some false) P = ¬ P

-- The room that is left: `b` bytes for the last `*` to swallow, and less than `k` to walk through.
abbrev Room : ℕ → ℕ → Bytes → Bytes → Option (Bytes × Bytes) → Type 0
Room b k p t none = (length t ≤ b) × (length p + length t < k)
Room b k p t (some (sp, st)) =
    (length t ≤ length st)
    × (length st ≤ b)
    × (length p + length t < k)
    × (length sp + length st < k)

meet-advance-lt : (p : Bytes) (c : ℕ) {p' : Bytes} → meet p c ≡ advance p' → length p' < length p
unfolding meet
meet-advance-lt [] c h = cc
meet-advance-lt (x ∷ []) c h = ground (arith, match_bracket-size c [])
meet-advance-lt (x ∷ y ∷ p) c h = ground (arith, match_bracket-size c (y ∷ p))

-- A match from a position that is no `*` takes the first byte there.
advance-Matches :
    {p v : Bytes} (c : ℕ) (t : Bytes)
    → v ≡ c ∷ t
    → ((q : Bytes) → p ≢ b'*' ∷ q)
    → Matches p v
    → (p' : Bytes) × (meet p c ≡ advance p') × Matches p' t
advance-Matches c t e no_star done = absurd (cc e)
advance-Matches {p} c t e no_star (one {p' = q} {t = u} {c = d} a m) =
    let same_byte : d ≡ c = cc in
    let same_text : u ≡ t = cc in (q, rw (← same_byte) (Accepts-meet a), rw (← same_text) m)
advance-Matches c t e no_star (star_empty {p' = q} s m) = absurd (no_star q s)
advance-Matches c t e no_star (star_more {p' = q} s m) = absurd (no_star q s)

not-star :
    {p : Bytes} (c : ℕ) {m : Meet}
    → meet p c ≡ m
    → ((q : Bytes) → m ≢ star q)
    → (q : Bytes) → p ≢ b'*' ∷ q
not-star c h ne q e = ne q (cc (star-meet q c))

advance-Matches_iff :
    {p p' : Bytes} (c : ℕ) (t : Bytes) → meet p c ≡ advance p' → Matches p (c ∷ t) ↔ Matches p' t
advance-Matches_iff {p' = p'} c t h = (
  λ m.
      let (q, h', m') = advance-Matches c t refl (not-star c h (λ q. cc)) m in
      let same_rest : q ≡ p' = cc in rw (← same_rest) m',
  λ m. one (meet-Accepts _ c h) m,
)

-- The text that the pattern behind a `*` matches.
star-split :
    {p sp t : Bytes} → p ≡ b'*' ∷ sp → Matches p t → (w : Bytes) × Suffix w t × Matches sp w
star-split e done = absurd (cc e)
star-split e (one {c} a m) = absurd (not-star c (Accepts-meet a) (λ q. cc) _ e)
star-split {sp} {t} e (star_empty {p' = q} s m) =
    let same_rest : q ≡ sp = cc in (t, here, rw (← same_rest) m)
star-split e (star_more s m) = let (w, s', m') = star-split e m in (w, there s', m')

Suffix-drop_one : {w : Bytes} (t : Bytes) → Suffix w (drop 1 t) → Suffix w t
Suffix-drop_one [] s = s
Suffix-drop_one (c ∷ t) s = there s

Later-Suffix :
    {p t : Bytes} (sp st : Bytes)
    → Advanced sp st p t
    → Later (some (sp, st))
    → (w : Bytes) × Suffix w t × Matches p w
Later-Suffix sp st a l =
    let (w, s, m) = star-split refl l in Advanced-later a (Suffix-drop_one st s) m

-- At a `*` the older one is of no more use.
Hope-star :
    {p p' t : Bytes} (back : Option (Bytes × Bytes))
    → p ≡ b'*' ∷ p'
    → Behind back p t
    → Hope p t back
    → Matches p t
Hope-star back e b (inl m) = m
Hope-star none e b (inr l) = absurd l
Hope-star {p' = p'} (some (sp, st)) e b (inr l) =
    let (w, s, m) = Later-Suffix sp st b l in star-Suffix p' e s m

-- Nor is it at the end of the text.
Hope-end :
    {p t : Bytes} (back : Option (Bytes × Bytes))
    → t ≡ []
    → Behind back p t
    → Hope p t back
    → Matches p t
Hope-end back e b (inl m) = m
Hope-end none e b (inr l) = absurd l
Hope-end (some (sp, st)) e b (inr l) = let (w, s, m) = Later-Suffix sp st b l in ends w s e m
  where
    ends : {p t : Bytes} (w : Bytes) → Suffix w t → t ≡ [] → Matches p w → Matches p t
    ends w here e m = m
    ends w (there s) e m = absurd (cc e)

Meet-cases :
    (m : Meet) → ((p : Bytes) × (m ≡ advance p)) ⊎ (((p : Bytes) × (m ≡ star p)) ⊎ (m ≡ stuck))
Meet-cases (advance p) = inl (p, refl)
Meet-cases (star p) = inr (inl (p, refl))
Meet-cases stuck = inr (inr refl)

drop-Suffix : (t : Bytes) → Suffix (drop 1 t) t
drop-Suffix [] = here
drop-Suffix (c ∷ t) = there here

-- A `*` matches nothing, or one byte and then the rest again.
star-inv : {p sp v : Bytes} → p ≡ b'*' ∷ sp → Matches p v → Matches sp v ⊎ Matches p (drop 1 v)
star-inv e done = absurd (cc e)
star-inv e (one {c} a m) = absurd (not-star c (Accepts-meet a) (λ q. cc) _ e)
star-inv {sp} {v} e (star_empty {p' = q} s m) =
    let same_rest : q ≡ sp = cc in inl (rw (← same_rest) m)
star-inv e (star_more s m) = inr m

star_iff :
    {p : Bytes} (sp v : Bytes) → p ≡ b'*' ∷ sp → Matches p v ↔ (Matches sp v ⊎ Matches p (drop 1 v))
star_iff sp v e = (
  star-inv e,
  λ x. elim x [ inl m ↦ star_empty e m | inr m ↦ star-Suffix sp e (drop-Suffix v) m ],
)

Hope-advance :
    {p p' : Bytes} (c : ℕ) (t : Bytes) (back : Option (Bytes × Bytes))
    → meet p c ≡ advance p'
    → Hope p (c ∷ t) back ↔ Hope p' t back
Hope-advance c t back h =
    let same = advance-Matches_iff c t h in
    (
      λ x. elim x [ inl m ↦ inl (same.0 m) | inr l ↦ inr l ],
      λ x. elim x [ inl m ↦ inl (same.1 m) | inr l ↦ inr l ],
    )

Hope-star_iff :
    {p p' : Bytes} (c : ℕ) (t : Bytes) (back : Option (Bytes × Bytes))
    → p ≡ b'*' ∷ p'
    → Behind back p (c ∷ t)
    → Hope p (c ∷ t) back ↔ Hope p' (c ∷ t) (some (p', c ∷ t))
Hope-star_iff {p' = p'} c t back e b =
    let split = star_iff p' (c ∷ t) e in
    (λ x. rw e at (split.0 (Hope-star back e b x)), λ x. inl (split.1 (rw e x)))

not-Matches_stuck : {p : Bytes} (c : ℕ) (t : Bytes) → meet p c ≡ stuck → ¬ (Matches p (c ∷ t))
not-Matches_stuck c t h m =
    let (q, h', m') = advance-Matches c t refl (not-star c h (λ q. cc)) m in cc

Hope-stuck :
    {p : Bytes} (c : ℕ) (t sp st : Bytes)
    → meet p c ≡ stuck
    → Hope p (c ∷ t) (some (sp, st)) ↔ Hope sp (drop 1 st) (some (sp, drop 1 st))
Hope-stuck c t sp st h =
    let split = star_iff sp (drop 1 st) refl in
    (
      λ x. elim x [ inl m ↦ absurd (not-Matches_stuck c t h m) | inr l ↦ split.0 l ],
      λ x. inr (split.1 x),
    )

Decided-↔ : {P Q : Type 0} (o : Option Bool) → P ↔ Q → Decided o Q → Decided o P
Decided-↔ none e d = d
Decided-↔ (some true) e d = e.1 d
Decided-↔ (some false) e d = λ p. d (e.0 p)

Advanced-length : {sp st p t : Bytes} → Advanced sp st p t → length t ≤ length st
Advanced-length start = omega arith
Advanced-length (step a h) = omega (arith, Advanced-length a)

-- With room for the walk the loop ends by itself, and its answer is whether there was a hope.
loop_decides :
    (f b k : ℕ) (p t : Bytes) (back : Option (Bytes × Bytes))
    → Room b k p t back
    → Behind back p t
    → b * k + length p + length t < f
    → Decided (match_loop f p t back) (Hope p t back)
unfolding match_loop
loop_decides zero b k p t back r h lt = elim lt [ ]
loop_decides (suc f) b k p [] back r h lt = elim (Bool-cases (only_stars p)) [
  | inl e ↦ rw (e, Decided) (inl (only_stars-Matches p e))
  | inr e ↦
      rw (e, Decided) (λ hope. absurd (cc (Matches-only_stars (Hope-end back refl h hope) refl)))
]
loop_decides (suc f) b k p (c ∷ t) none r h lt = elim (Meet-cases (meet p c)) [
  | inl (p', e) ↦
      let less = meet-advance-lt p c e in
      rw (e, Decided)
        (Decided-↔ _ (Hope-advance c t none e)
          (loop_decides f b k p' t none (omega arith) tt (omega arith)))
  | inr (inl (p', e)) ↦
      let starred = meet-star p c e in
      let shorter = ap length starred in
      rw (e, Decided)
        (Decided-↔ _ (Hope-star_iff c t none starred h)
          (loop_decides f b k p' (c ∷ t) (some (p', c ∷ t)) (omega arith) start (omega arith)))
  | inr (inr e) ↦ rw (e, Decided) (λ x. elim x [ inl m ↦ not-Matches_stuck c t e m | inr l ↦ l ])
]
loop_decides (suc f) zero k p (c ∷ t) (some (sp, st)) r h lt = absurd (omega arith)
loop_decides (suc f) (suc b) k p (c ∷ t) (some (sp, st)) r h lt = elim (Meet-cases (meet p c)) [
  | inl (p', e) ↦
      let less = meet-advance-lt p c e in
      rw (e, Decided)
        (Decided-↔ _ (Hope-advance c t (some (sp, st)) e)
          (loop_decides f (suc b) k p' t (some (sp, st)) (omega arith) (step h e) (omega arith)))
  | inr (inl (p', e)) ↦
      let starred = meet-star p c e in
      let shorter = ap length starred in
      rw (e, Decided)
        (Decided-↔ _ (Hope-star_iff c t (some (sp, st)) starred h) (
          loop_decides f (suc b) k p' (c ∷ t) (some (p', c ∷ t)) (omega arith) start (omega arith)))
  | inr (inr e) ↦
      let less = length-drop 1 st in
      rw (e, Decided)
        (Decided-↔ _ (Hope-stuck c t sp st e) (
          loop_decides f b k sp (drop 1 st) (some (sp, drop 1 st)) (omega arith) start
            (omega arith)))
]

from_start : (p t : Bytes) → Decided (match_loop (loop_fuel p t) p t none) (Matches p t)
from_start p t =
    Decided-↔ _ ((λ m. inl m), (λ x. elim x [ inl m ↦ m | inr l ↦ absurd l ]))
      (loop_decides (loop_fuel p t) (length t) (length p + length t + 1) p t none (omega arith) tt
        (omega arith))

Decided-total : (P : Type 0) (o : Option Bool) → Decided o P → (b : Bool) × (o ≡ some b)
Decided-total P none d = absurd d
Decided-total P (some b) d = (b, refl)

-- The loop of `match_here` ends on every pattern and text: it never runs out of fuel.
pub match_here-total :
    (p t : Bytes) (special : Bool) → (b : Bool) × (match_here p t special ≡ some b)
unfolding match_here
match_here-total p t special = elim (Bool-cases (period_refused special p t)) [
  | inl e ↦ (false, rw (e, match_here))
  | inr e ↦ let (b, k) = Decided-total (Matches p t) _ (from_start p t) in (b, rw (e, match_here) k)
]

verdict :
    {P : Type 0} (o : Option Bool) → Decided o P → (elim o [ none ↦ false | some b ↦ b ] ≡ true) ↔ P
verdict none d = absurd d
verdict (some true) d = ((λ e. d), (λ p. refl))
verdict (some false) d = ((λ e. absurd (cc e)), (λ p. absurd (d p)))

-- `pattern_match` answers true exactly when the rules of the pattern admit the text, and the rule
-- on a leading period, where it is in force, does not refuse it.
pub pattern_match_iff :
    (p t : Bytes) (special : Bool)
    → (pattern_match p t special ≡ true) ↔ ((period_refused special p t ≡ false) × Matches p t)
unfolding pattern_match
pattern_match_iff p t special = elim (Bool-cases (period_refused special p t)) [
  | inl e ↦ rw (e, pattern_match, match_here) ((λ h. cc), (λ h. cc (h.0)))
  | inr e ↦
      let v = verdict _ (from_start p t) in
      rw (e, pattern_match, match_here) ((λ h. (refl, v.0 h)), (λ h. v.1 h.1))
]
