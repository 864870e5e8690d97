-- ===== src/Text/Steps.antt =====
-- Stepping and replacing in the buffer of src/leshper/text.h.
use lesh.Base.{
  ℕ, zero, suc, ◌+◌, ◌-◌, ◌≤◌, ◌<◌, ◌≡◌, inl, inr, refl, sym, ◌∙◌, ap, true, false, List, [], ◌∷◌,
  ◌++◌, Bytes, get_elem?, take, drop, length, length-append, take-append_self, take-append-drop,
  length-take, append_assoc, length-drop, drop-append_self, ltb, leb, ◌==◌, if◌then◌else◌, arith,
  min, Bool-cases,
}
use lesh.Text.{
  clamp, slice, continuations, next_position, continues_at, back_up, previous_position, replace,
  is_boundary,
}

drop-append_twice :
    (pre mid post : Bytes) → drop (length pre + length mid) (pre ++ (mid ++ post)) ≡ post
drop-append_twice pre mid post =
    rw (← length-append pre mid, ← append_assoc pre mid post) (drop-append_self (pre ++ mid) post)

pub clamp-id : (text : Bytes) (n : ℕ) → n ≤ length text → clamp text n ≡ n
clamp-id text n h = ground arith

clamp-le : (text : Bytes) (n : ℕ) → clamp text n ≤ length text
clamp-le text n = ground arith

-- A replacement puts the new text in the place of the old, and ends behind it.
pub replace-append :
    (pre mid post inserted : Bytes)
    → replace (pre ++ (mid ++ post)) (length pre) (length pre + length mid) inserted
      ≡ (pre ++ (inserted ++ post), length pre + length inserted)
unfolding replace
replace-append pre mid post inserted =
    let text = pre ++ (mid ++ post) in
    let size = length-append pre (mid ++ post) in
    let size' = length-append mid post in
    let first : clamp text (length pre) ≡ length pre = clamp-id text (length pre) (omega arith) in
    let last : clamp text (length pre + length mid) ≡ length pre + length mid =
      clamp-id text (length pre + length mid) (omega arith) in
    let ordered : ltb (length pre + length mid) (length pre) ≡ false = ground arith in
    rw (first, last, ordered, take-append_self pre (mid ++ post), drop-append_twice pre mid post)

drop-nil : (n : ℕ) → drop {A = ℕ} n [] ≡ []
drop-nil zero = refl
drop-nil (suc n) = refl

drop-drop : (n m : ℕ) (xs : Bytes) → drop n (drop m xs) ≡ drop (m + n) xs
drop-drop n zero xs = let e : 0 + n ≡ n = omega arith in rw e
drop-drop n (suc m) [] = rw (drop-nil n, drop-nil (suc m + n))
drop-drop n (suc m) (x ∷ xs) =
    let e : suc m + n ≡ suc (m + n) = omega arith in rw e (drop-drop n m xs)

-- Where the replaced range ends.
abbrev range_end : Bytes → ℕ → ℕ → ℕ
range_end text from to = if ltb (clamp text to) from then from else clamp text to

slice-take :
    (text : Bytes) (from to : ℕ)
    → from ≤ length text
    → slice text from to ≡ take (range_end text from to - from) (drop from text)
unfolding slice
slice-take text from to h = elim (Bool-cases (leb (clamp text to) from)) [
  | inl e ↦
      let none_left : range_end text from to - from ≡ 0 = ground arith in
      rw (clamp-id text from h, e, none_left)
  | inr e ↦
      let last : ltb (clamp text to) from ≡ false = ground arith in
      rw (clamp-id text from h, e, last)
]

slice-past : (text : Bytes) (from to : ℕ) → length text < from → slice text from to ≡ []
unfolding slice
slice-past text from to h = ground arith

pub replace_inside :
    (text : Bytes) (from to : ℕ) (inserted : Bytes)
    → from ≤ length text
    → (pre : Bytes) × (post : Bytes) × (text ≡ pre ++ (slice text from to ++ post))
      × (length pre ≡ from)
      × (replace text from to inserted ≡ (pre ++ (inserted ++ post), from + length inserted))
replace_inside text from to inserted h =
    let last = range_end text from to in
    let rest : drop (last - from) (drop from text) ≡ drop last text =
      drop-drop (last - from) from text ∙ ap (λ n. drop n text) (ground arith) in
    let whole : drop from text ≡ slice text from to ++ drop last text =
      rw (slice-take text from to h, ← rest)
        (sym (take-append-drop (last - from) (drop from text))) in
    (
      take from text,
      drop last text,
      sym (take-append-drop from text) ∙ ap (λ r. take from text ++ r) whole,
      omega (arith, length-take from text),
      unfold replace in rw (clamp-id text from h),
    )

-- A position past the end is the end.
clamp_past : (text : Bytes) (n : ℕ) → length text ≤ n → clamp text n ≡ length text
clamp_past text n h = ground arith

slice_past :
    (text : Bytes) (from to : ℕ)
    → length text ≤ from
    → slice text from to ≡ slice text (length text) to
unfolding slice
slice_past text from to h = rw (clamp_past text from h, clamp_past text (length text) (omega arith))

replace_past :
    (text : Bytes) (from to : ℕ) (inserted : Bytes)
    → length text ≤ from
    → replace text from to inserted ≡ replace text (length text) to inserted
unfolding replace
replace_past text from to inserted h =
    rw (clamp_past text from h, clamp_past text (length text) (omega arith))

-- A replaced range starts where it was asked for, or at the end of the text where that is past it;
-- what it held is the slice, what stands around it stays, and the position is that behind the new text.
pub replace-slice :
    (text : Bytes) (from to : ℕ) (inserted : Bytes)
    → (pre : Bytes) × (post : Bytes) × (text ≡ pre ++ (slice text from to ++ post))
      × (length pre ≡ min from (length text))
      × (replace text from to inserted ≡ (pre ++ (inserted ++ post), length pre + length inserted))
replace-slice text from to inserted = elim (Bool-cases (leb from (length text))) [
  | inl b ↦
      let h : from ≤ length text = ground arith in
      let (pre, post, split, size, new) = replace_inside text from to inserted h in
      (pre, post, split, omega (arith, size, h), rw size new)
  | inr b ↦
      let h : length text ≤ from = ground arith in
      let (pre, post, split, size, new) =
        replace_inside text (length text) to inserted (omega arith) in
      (
        pre,
        post,
        rw (slice_past text from to h) split,
        omega (arith, size, h),
        rw (replace_past text from to inserted h, size) new,
      )
]

get_elem?-drop :
    {A : Type 0} (n i : ℕ) (xs : List A) → get_elem? (drop n xs) i ≡ get_elem? xs (n + i)
get_elem?-drop zero i xs = let e : 0 + i ≡ i = omega arith in rw e
get_elem?-drop (suc n) i [] = refl
get_elem?-drop (suc n) i (x ∷ xs) =
    let e : suc n + i ≡ suc (n + i) = omega arith in rw e (get_elem?-drop n i xs)

continuations-continue :
    (text : Bytes) (i : ℕ) → i < continuations text → continues_at (get_elem? text i) ≡ true
unfolding continuations
continuations-continue [] i h = elim h [ ]
continuations-continue (c ∷ text) zero h = ground arith
continuations-continue (c ∷ text) (suc i) h = continuations-continue text i (ground arith)

continuations-le : (text : Bytes) → continuations text ≤ length text
unfolding continuations
continuations-le [] = omega arith
continuations-le (c ∷ text) = ground (arith, continuations-le text)

back_up_run :
    (text : Bytes) (p k : ℕ)
    → ((i : ℕ) → i < k → continues_at (get_elem? text (p + 1 + i)) ≡ true)
    → continues_at (get_elem? text p) ≡ false
    → back_up text (p + k) ≡ p
unfolding back_up
back_up_run text zero zero run start = refl
back_up_run text (suc p) zero run start =
    let e : suc p + 0 ≡ suc p = omega arith in rw (e, back_up, start)
back_up_run text p (suc k) run start =
    let e : p + suc k ≡ suc (p + k) = omega arith in
    let e' : p + 1 + k ≡ suc (p + k) = omega arith in
    let here : continues_at (get_elem? text (suc (p + k))) ≡ true =
      rw e' at (run k (omega arith)) in
    rw (e, back_up, here) (back_up_run text p k (λ i h. run i (omega arith)) start)

is_boundary-start :
    (text : Bytes) (p : ℕ)
    → p < length text
    → is_boundary text p ≡ true
    → continues_at (get_elem? text p) ≡ false
unfolding is_boundary
is_boundary-start text p h b = ground arith

-- From the first byte of a character the cursor steps forward, inside the text, and the step back
-- returns it: no step stops inside a character.
pub previous_position-next_position :
    (text : Bytes) (p : ℕ)
    → p < length text
    → is_boundary text p ≡ true
    → (p < next_position text p)
      × (next_position text p ≤ length text)
      × (previous_position text (next_position text p) ≡ p)
unfolding next_position previous_position
previous_position-next_position text p h b =
    let k = continuations (drop (p + 1) text) in
    let room : p + 1 + k ≤ length text =
      omega (arith, continuations-le (drop (p + 1) text), length-drop (p + 1) text) in
    let inside : leb (length text) p ≡ false = ground arith in
    let positive : (p + 1 + k == 0) ≡ false = ground arith in
    let last : p + 1 + k - 1 ≡ p + k = omega arith in
    let run : (i : ℕ) → i < k → continues_at (get_elem? text (p + 1 + i)) ≡ true = λ i lt.
      rw (get_elem?-drop (p + 1) i text) at (continuations-continue (drop (p + 1) text) i lt) in
    rw (clamp-id text p (omega arith), inside, clamp-id text (p + 1 + k) room, positive, last)
      (omega arith, room, back_up_run text p k run (is_boundary-start text p h b))
