-- ===== src/Pattern/Quoting.antt =====
-- Patterns that name one text: quoted text (`append_quoted` of src/runtime/expander.cpp), and
-- words that `is_pattern` of src/runtime/pattern.cpp refuses.
use lesh.Base.{
  ℕ, ◌+◌, ◌≡◌, ◌≢◌, refl, ap, ◌∙◌, ◌↔◌, inl, inr, true, false, ◌&&◌, ◌||◌, Option, none, some, [],
  ◌∷◌, Bytes, ◌==◌, if◌then◌else◌, arith, Bool-cases,
}
use lesh.Pattern.{
  advance_if, meet, match_bracket, pattern_match, period_refused, is_ok, last_close, closes_after,
  is_pattern_from, is_pattern, remove_pattern_escapes, is_pattern_syntax, append_quoted,
}
use lesh.Pattern.Bracket.{match_bracket-rest}
use lesh.Pattern.Closing.{closes, match_bracket-closes, last_close-closes}
use lesh.Pattern.Spec.{Matches, done, one, star_empty, star_more, meet-Accepts, Accepts-meet}
use lesh.Pattern.Star.{star-meet}
use lesh.Pattern.Decides.{pattern_match_iff}

-- At every position the pattern `w` takes one given byte: it spells the text out.
data Spells : Bytes → Bytes → Type 0 where
  end : Spells [] []
  next :
      {w w' s : Bytes} (x : ℕ)
      → ((c : ℕ) → meet w c ≡ advance_if (x == c) w')
      → Spells w' s
      → Spells w (x ∷ s)

Spells-Matches : {w s : Bytes} → Spells w s → Matches w s
Spells-Matches end = done
Spells-Matches (next x h r) = one (meet-Accepts _ x (h x ∙ ground arith)) (Spells-Matches r)

not-star-advance_if :
    {w : Bytes} (w' : Bytes) (x : ℕ)
    → ((c : ℕ) → meet w c ≡ advance_if (x == c) w')
    → (q : Bytes) → w ≢ b'*' ∷ q
not-star-advance_if w' x h q e = ground (arith, star-meet q x, h x, ap (λ w. meet w x) e)

not-nil-advance_if :
    {w : Bytes} (w' : Bytes) (x : ℕ) → ((c : ℕ) → meet w c ≡ advance_if (x == c) w') → w ≢ []
unfolding meet
not-nil-advance_if w' x h e = ground (arith, h x, ap (λ w. meet w x) e)

Matches-Spells : {w s t : Bytes} → Spells w s → Matches w t → t ≡ s
Matches-Spells end m = nil m refl
  where
    nil : {w t : Bytes} → Matches w t → w ≡ [] → t ≡ []
    nil done e = refl
    nil (one {c} a m) e = absurd (unfold meet in cc (ap (λ w. meet w c) e, Accepts-meet a))
    nil (star_empty s m) e = cc
    nil (star_more s m) e = cc
Matches-Spells (next {w} {w'} {s} x h r) m = match (λ t. Matches-Spells r) m h
  where
    match :
        ((t : Bytes) → Matches w' t → t ≡ s)
        → {w t : Bytes} → Matches w t
        → ((c : ℕ) → meet w c ≡ advance_if (x == c) w')
        → t ≡ x ∷ s
    match ih done h = absurd (not-nil-advance_if w' x h refl)
    match ih (one {p' = q} {t = u} {c} a m) h =
        let met = Accepts-meet a in
        let same_byte : x ≡ c = ground (arith, h c) in
        let same_rest : q ≡ w' = ground (arith, h c) in cc (ih u (rw same_rest at m))
    match ih (star_empty {p' = q} e m) h = absurd (not-star-advance_if w' x h q e)
    match ih (star_more {p' = q} e m) h = absurd (not-star-advance_if w' x h q e)

Spells-iff : {w s : Bytes} (t : Bytes) → Spells w s → (pattern_match w t false ≡ true) ↔ (t ≡ s)
unfolding period_refused
Spells-iff {w} t r = (
  λ h. Matches-Spells r ((pattern_match_iff w t false).0 h).1,
  λ e. (pattern_match_iff w t false).1 (not_special w t, rw e (Spells-Matches r)),
)
  where
    not_special : (w t : Bytes) → period_refused false w t ≡ false
    not_special w [] = refl
    not_special [] (c ∷ t) = refl
    not_special (x ∷ w) (c ∷ t) = refl

-- A byte that is no syntax of a pattern names itself, and an escaped byte names itself.
meet_plain :
    (x c : ℕ) (r : Bytes) → is_pattern_syntax x ≡ false → meet (x ∷ r) c ≡ advance_if (x == c) r
unfolding meet is_pattern_syntax
meet_plain x c [] h = ground arith
meet_plain x c (y ∷ r) h = ground arith

meet_escaped : (x c : ℕ) (r : Bytes) → meet (b'\\' ∷ x ∷ r) c ≡ advance_if (x == c) r
unfolding meet
meet_escaped x c r = refl

append_quoted-Spells : (s : Bytes) → Spells (append_quoted s) s
unfolding append_quoted
append_quoted-Spells [] = end
append_quoted-Spells (x ∷ s) = elim (Bool-cases (is_pattern_syntax x)) [
  | inl e ↦ rw e (next x (λ c. meet_escaped x c (append_quoted s)) (append_quoted-Spells s))
  | inr e ↦ rw e (next x (λ c. meet_plain x c (append_quoted s) e) (append_quoted-Spells s))
]

-- Text that arrives quoted, syntax and all, matches itself and nothing else.
pub append_quoted-pattern_match :
    (s t : Bytes) → (pattern_match (append_quoted s) t false ≡ true) ↔ (t ≡ s)
append_quoted-pattern_match s t = Spells-iff t (append_quoted-Spells s)

remove_plain :
    (x : ℕ) (r : Bytes)
    → is_pattern_syntax x ≡ false
    → remove_pattern_escapes (x ∷ r) ≡ x ∷ remove_pattern_escapes r
unfolding remove_pattern_escapes is_pattern_syntax
remove_plain x [] h = refl
remove_plain x (y ∷ r) h = ground arith

remove_escaped :
    (x : ℕ) (r : Bytes) → remove_pattern_escapes (b'\\' ∷ x ∷ r) ≡ x ∷ remove_pattern_escapes r
unfolding remove_pattern_escapes
remove_escaped x r = refl

-- Quote removal undoes the quoting.
pub remove_pattern_escapes-append_quoted :
    (s : Bytes) → remove_pattern_escapes (append_quoted s) ≡ s
unfolding append_quoted
remove_pattern_escapes-append_quoted [] = unfold remove_pattern_escapes in refl
remove_pattern_escapes-append_quoted (x ∷ s) = elim (Bool-cases (is_pattern_syntax x)) [
  | inl e ↦
      rw e
        (remove_escaped x (append_quoted s) ∙ ap (◌∷◌ x) (remove_pattern_escapes-append_quoted s))
  | inr e ↦
      rw e
        (remove_plain x (append_quoted s) e ∙ ap (◌∷◌ x) (remove_pattern_escapes-append_quoted s))
]

-- What `is_pattern` has seen of a `[` that opens no bracket expression.
not-match_bracket :
    (close : Option ℕ) (i : ℕ) (s : Bytes)
    → (closes s ≡ true → closes_after i close ≡ true)
    → (closes_after i close && is_ok (match_bracket 0 s)) ≡ false
    → (c : ℕ) → match_bracket c s ≡ none
not-match_bracket close i s later h c =
    ground (arith, later, match_bracket-rest 0 c s, match_bracket-closes 0 s)

meet_single :
    (x c : ℕ) → (x == b'*' || x == b'?') ≡ false → meet (x ∷ []) c ≡ advance_if (x == c) []
unfolding meet match_bracket
meet_single x c h = ground arith

meet_other :
    (x y c : ℕ) (w : Bytes)
    → (x == b'\\') ≡ false
    → (x == b'*' || x == b'?') ≡ false
    → (x ≡ b'[' → match_bracket c (y ∷ w) ≡ none)
    → meet (x ∷ y ∷ w) c ≡ advance_if (x == c) (y ∷ w)
unfolding meet
meet_other x y c w e k n = ground (arith, n)

remove_other :
    (x y : ℕ) (w : Bytes)
    → (x == b'\\') ≡ false
    → remove_pattern_escapes (x ∷ y ∷ w) ≡ x ∷ remove_pattern_escapes (y ∷ w)
unfolding remove_pattern_escapes
remove_other x y w e = rw e

-- What the loop has found out about a byte that is no backslash.
is_pattern_from-no :
    (close : Option ℕ) (i x y : ℕ) (w : Bytes)
    → (x == b'\\') ≡ false
    → is_pattern_from close i (x ∷ y ∷ w) ≡ false
    → ((x == b'*' || x == b'?') ≡ false)
      × (x ≡ b'[' → (closes_after i close && is_ok (match_bracket 0 (y ∷ w))) ≡ false)
      × (is_pattern_from close (i + 1) (y ∷ w) ≡ false)
unfolding is_pattern_from
is_pattern_from-no close i x y w e h = (ground arith, λ k. ground arith, ground arith)

is_pattern_from-escape :
    (close : Option ℕ) (i x y : ℕ) (w : Bytes)
    → (x == b'\\') ≡ true
    → is_pattern_from close i (x ∷ y ∷ w) ≡ false
    → is_pattern_from close (i + 2) w ≡ false
unfolding is_pattern_from
is_pattern_from-escape close i x y w e h = rw e at h

-- A word that is no pattern and from `i` on is `w`, where `close` is the last `]` of the word.
is_pattern_from-Spells :
    (close : Option ℕ) (i : ℕ) (found : Option ℕ) (w : Bytes)
    → last_close i found w ≡ close
    → is_pattern_from close i w ≡ false
    → Spells w (remove_pattern_escapes w)
unfolding last_close
is_pattern_from-Spells close i found [] e h = unfold remove_pattern_escapes in end
is_pattern_from-Spells close i found (x ∷ []) e h =
    let plain : (x == b'*' || x == b'?') ≡ false = unfold is_pattern_from in h in
    unfold remove_pattern_escapes in next x (λ c. meet_single x c plain) end
is_pattern_from-Spells close i found (x ∷ y ∷ w) e h = elim (Bool-cases (x == b'\\')) [
  | inl k ↦
      let escape : x ≡ b'\\' = ground arith in
      rw (escape, remove_escaped y w)
        (next y (λ c. meet_escaped y c w)
          (is_pattern_from-Spells close (i + 2) found w (rw k at e)
            (is_pattern_from-escape close i x y w k h)))
  | inr k ↦
      let (plain, unclosed, h') = is_pattern_from-no close i x y w k h in
      let found' : Option ℕ = if x == b']' then some i else found in
      let e' : last_close (i + 1) found' (y ∷ w) ≡ close = rw k at e in
      let later : closes (y ∷ w) ≡ true → closes_after i close ≡ true =
        λ s. rw e' at (last_close-closes i (i + 1) found' (y ∷ w) (omega arith) s) in
      rw (remove_other x y w k) (
        next x
          (λ c.
            meet_other x y c w k plain
              (λ b. not-match_bracket close i (y ∷ w) later (unclosed b) c))
          (is_pattern_from-Spells close (i + 1) found' (y ∷ w) e' h'))
]

-- Where `is_pattern` says no, the word is no pattern: it matches the text that is left when its
-- escapes are removed, and nothing else.
pub is_pattern-pattern_match :
    (w t : Bytes)
    → is_pattern w ≡ false
    → (pattern_match w t false ≡ true) ↔ (t ≡ remove_pattern_escapes w)
unfolding is_pattern
is_pattern-pattern_match w t h = Spells-iff t (is_pattern_from-Spells _ 0 none w refl h)
