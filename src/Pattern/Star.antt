-- ===== src/Pattern/Star.antt =====
-- Why `match_here` of src/runtime/pattern.cpp may forget every `*` but the last.
use lesh.Base.{ℕ, ◌≡◌, refl, true, [], ◌∷◌, Bytes, arith}
use lesh.Pattern.{advance, star, meet, only_stars}
use lesh.Pattern.Bracket.{match_bracket-rest}
use lesh.Pattern.Spec.{Matches, done, one, star_empty, star_more, Accepts-meet}

pub meet-star : (p : Bytes) (c : ℕ) {p' : Bytes} → meet p c ≡ star p' → p ≡ b'*' ∷ p'
unfolding meet
meet-star [] c h = cc
meet-star (x ∷ []) c h = ground arith
meet-star (x ∷ y ∷ p) c h = ground arith

pub star-meet : (p : Bytes) (c : ℕ) → meet (b'*' ∷ p) c ≡ star p
unfolding meet
star-meet [] c = refl
star-meet (x ∷ p) c = refl

pub only_stars-Matches : (p : Bytes) → only_stars p ≡ true → Matches p []
unfolding only_stars
only_stars-Matches [] h = done
only_stars-Matches (x ∷ p) h = star_empty (ground arith) (only_stars-Matches p (ground arith))

pub Matches-only_stars : {p t : Bytes} → Matches p t → t ≡ [] → only_stars p ≡ true
unfolding only_stars
Matches-only_stars done e = refl
Matches-only_stars (one a m) e = cc
Matches-only_stars (star_empty s m) e = rw s (Matches-only_stars m e)
Matches-only_stars (star_more s m) e = cc

-- `Suffix v t`: the text `v` ends `t`.
pub data Suffix : Bytes → Bytes → Type 0 where
  here : {t : Bytes} → Suffix t t
  there : {v t : Bytes} {c : ℕ} → Suffix v t → Suffix v (c ∷ t)

-- A pattern that starts with `*` takes any bytes in front of what it matches.
pub star-Suffix :
    {p v t : Bytes} (p' : Bytes) → p ≡ b'*' ∷ p' → Suffix v t → Matches p v → Matches p t
star-Suffix p' e here m = m
star-Suffix p' e (there s) m = star_more e (star-Suffix p' e s m)

-- From behind a `*` at `sp` and `st` the loop has advanced to `p` and `t`.
pub data Advanced (sp st : Bytes) : Bytes → Bytes → Type 0 where
  start : Advanced sp st sp st
  step :
      {p p' t : Bytes} {c : ℕ}
      → Advanced sp st p (c ∷ t)
      → meet p c ≡ advance p'
      → Advanced sp st p' t

-- What a match from an accepting position looks like, on a text with or without bytes.
abbrev NextIs : Bytes → Bytes → Type 0
NextIs p' [] = ⊥
NextIs p' (d ∷ v) = Matches p' v

meet_determined :
    (p : Bytes) {p' : Bytes} (c d : ℕ) {p'' : Bytes}
    → meet p c ≡ advance p'
    → meet p d ≡ advance p''
    → p' ≡ p''
unfolding meet
meet_determined [] c d h k = cc
meet_determined (x ∷ []) c d h k = ground (arith, match_bracket-rest c d [])
meet_determined (x ∷ y ∷ p) c d h k = ground (arith, match_bracket-rest c d (y ∷ p))

advance-NextIs :
    {p v : Bytes} (c : ℕ) (p' : Bytes) → meet p c ≡ advance p' → Matches p v → NextIs p' v
advance-NextIs c p' h done = unfold meet in cc h
advance-NextIs c p' h (one {c = d} a m) = rw (meet_determined _ c d h (Accepts-meet a)) m
advance-NextIs c p' h (star_empty {p' = q} s m) = let k = rw s at h in cc (k, star-meet q c)
advance-NextIs c p' h (star_more {p' = q} s m) = let k = rw s at h in cc (k, star-meet q c)

Suffix-drop : {v w t : Bytes} (d : ℕ) → w ≡ d ∷ v → Suffix w t → Suffix v t
Suffix-drop d e here = rw e (there here)
Suffix-drop d e (there s) = there (Suffix-drop d e s)

Suffix-tail : {v w t : Bytes} (d c : ℕ) → w ≡ d ∷ v → Suffix w (c ∷ t) → Suffix v t
Suffix-tail {v} {w} {t} d c e here = let k : v ≡ t = cc in rw k here
Suffix-tail d c e (there s) = Suffix-drop d e s

-- If the pattern behind the `*` matches some later part of the text, then the position reached
-- matches some later part too: the bytes between are as many, whatever they are.
pub Advanced-later :
    {sp st p t v : Bytes}
    → Advanced sp st p t
    → Suffix v st
    → Matches sp v
    → (w : Bytes) × Suffix w t × Matches p w
Advanced-later start s m = (_, s, m)
Advanced-later (step {p} {p'} {t} {c} a h) s m =
    let (w, s', m') = Advanced-later a s m in next w s' (advance-NextIs c p' h m')
  where
    next : (w : Bytes) → Suffix w (c ∷ t) → NextIs p' w → (u : Bytes) × Suffix u t × Matches p' u
    next [] s' n = absurd n
    next (d ∷ u) s' n = (u, Suffix-tail d c refl s', n)
