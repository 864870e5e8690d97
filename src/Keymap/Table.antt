-- ===== src/Keymap/Table.antt =====
-- The table of src/leshper/keymap.cpp as a map from keys to actions.
use lesh.Base.{
  ◌≡◌, ◌≢◌, refl, sym, subst, inl, inr, ◌∙◌, Bool, true, false, not, ◌&&◌, ◌||◌, Option, none, some,
  List, [], ◌∷◌, Bytes, same, same_iff, same_refl, All, Bool-cases, arith, if◌then◌else◌,
}
use lesh.Keymap.{
  before, starts_with, Entry, lower_bound, is_at, begins_with, bind, action_for, has_longer,
}
use lesh.Keymap.Order.{
  before_trans, before_total, before-same, after-same, before-starts_with, starts_with-between,
}

-- The keys go up strictly.
abbrev pub IsSorted : List Entry → Type 0
IsSorted [] = Unit
IsSorted (e ∷ es) = All (λ d. before e.keys d.keys ≡ true) es × IsSorted es

-- The actions by their keys, in any order.
abbrev pub action_of : Bytes → List Entry → Option Bytes
action_of wanted [] = none
action_of wanted (e ∷ es) =
    let other = action_of wanted es in if same e.keys wanted then some e.action else other

abbrev pub extends : Bytes → Entry → Bool
extends wanted e = starts_with e.keys wanted && not (same e.keys wanted)

abbrev pub any_extends : Bytes → List Entry → Bool
any_extends wanted [] = false
any_extends wanted (e ∷ es) = extends wanted e || any_extends wanted es

above :
    (a b : Bytes) (es : List Entry)
    → before a b ≡ true
    → All (λ d. before b d.keys ≡ true) es
    → All (λ d. before a d.keys ≡ true) es
above a b [] h k = tt
above a b (e ∷ es) h k = (before_trans a b e.keys h k.0, above a b es h k.1)

action_of-above :
    (a : Bytes) (es : List Entry) → All (λ d. before a d.keys ≡ true) es → action_of a es ≡ none
action_of-above a [] h = refl
action_of-above a (e ∷ es) h = rw (after-same a e.keys h.0, action_of-above a es h.1) refl

-- Where the first entry is before what is looked for, the rest answers.
module _ (wanted : Bytes) (e : Entry) (es : List Entry) (h : before e.keys wanted ≡ true) where
  later-is_at :
      is_at wanted (lower_bound wanted (e ∷ es)).1 ≡ is_at wanted (lower_bound wanted es).1
  unfolding lower_bound
  later-is_at = rw h refl

  action_for-later : action_for wanted (e ∷ es) ≡ action_for wanted es
  unfolding action_for lower_bound
  action_for-later = rw h refl

  has_longer-later : has_longer wanted (e ∷ es) ≡ has_longer wanted es
  unfolding has_longer lower_bound
  has_longer-later = rw h refl

  bind-later : (action : Bytes) → bind wanted action (e ∷ es) ≡ e ∷ bind wanted action es
  unfolding bind lower_bound
  bind-later action = elim (Bool-cases (same wanted [])) [
    | inl n ↦ rw n refl
    | inr n ↦ elim (Bool-cases (is_at wanted (lower_bound wanted es).1)) [
      | inl i ↦ elim (Bool-cases (same action [])) [
        | inl a ↦ rw (h, n, i, a) refl
        | inr a ↦ rw (h, n, i, a) refl
      ]
      | inr i ↦ elim (Bool-cases (same action [])) [
        | inl a ↦ rw (h, n, i, a) refl
        | inr a ↦ rw (h, n, i, a) refl
      ]
    ]
  ]

pub action_for-action_of :
    (wanted : Bytes) (es : List Entry) → IsSorted es → action_for wanted es ≡ action_of wanted es
unfolding action_for lower_bound
action_for-action_of wanted [] s = refl
action_for-action_of wanted (e ∷ es) s = elim (Bool-cases (before e.keys wanted)) [
  | inl h ↦ rw (h, before-same e.keys wanted h) (action_for-action_of wanted es s.1)
  | inr h ↦ elim (Bool-cases (same e.keys wanted)) [
    | inl n ↦ rw (h, n) refl
    | inr n ↦
        rw
          (
            h,
            n,
            action_of-above wanted es (above wanted e.keys es (before_total e.keys wanted h n) s.0),
          )
          refl
  ]
]

-- In entries that all lie above, the first says whether any of them extends the keys.
begins_with-any_extends :
    (wanted : Bytes) (es : List Entry)
    → All (λ d. before wanted d.keys ≡ true) es
    → IsSorted es
    → begins_with wanted es ≡ any_extends wanted es
begins_with-any_extends wanted [] h s = refl
begins_with-any_extends wanted (e ∷ es) h s = elim (Bool-cases (starts_with e.keys wanted)) [
  | inl b ↦ rw (b, after-same wanted e.keys h.0) refl
  | inr b ↦ rw (b, none_extends b es s.0) refl
]
  where
    none_extends :
        starts_with e.keys wanted ≡ false
        → (ds : List Entry) → All (λ d. before e.keys d.keys ≡ true) ds
        → any_extends wanted ds ≡ false
    none_extends b [] k = refl
    none_extends b (d ∷ ds) k = elim (Bool-cases (starts_with d.keys wanted)) [
      | inl m ↦ absurd (ground (arith, starts_with-between wanted e.keys d.keys h.0 k.0 m, b))
      | inr m ↦ rw (m, none_extends b ds k.1) refl
    ]

-- In a sorted table a longer binding is looked for at one place, and is found wherever it is.
pub has_longer-any_extends :
    (wanted : Bytes) (es : List Entry) → IsSorted es → has_longer wanted es ≡ any_extends wanted es
unfolding has_longer lower_bound
has_longer-any_extends wanted [] s = refl
has_longer-any_extends wanted (e ∷ es) s = elim (Bool-cases (before e.keys wanted)) [
  | inl h ↦ rw (h, before-starts_with e.keys wanted h) (has_longer-any_extends wanted es s.1)
  | inr h ↦ elim (Bool-cases (same e.keys wanted)) [
    | inl n ↦
        let is : e.keys ≡ wanted = (same_iff e.keys wanted).0 n in
        let same_place =
          begins_with-any_extends wanted es
            (subst (λ k. All (λ d. before k d.keys ≡ true) es) is s.0) s.1 in
        elim (Bool-cases (starts_with e.keys wanted)) [
          | inl b ↦ rw (h, n, b) same_place
          | inr b ↦ rw (h, n, b) same_place
        ]
    | inr n ↦
        let lt = before_total e.keys wanted h n in
        let first : starts_with e.keys wanted
            ≡ ((starts_with e.keys wanted && not (same e.keys wanted)) || any_extends wanted es) =
          begins_with-any_extends wanted (e ∷ es) (lt, above wanted e.keys es lt s.0) s in
        rw (h, n) (rw n at first)
  ]
]

bind-All :
    (a wanted action : Bytes) (es : List Entry)
    → before a wanted ≡ true
    → All (λ d. before a d.keys ≡ true) es
    → All (λ d. before a d.keys ≡ true) (bind wanted action es)
unfolding bind lower_bound
bind-All a wanted action [] h k = elim (Bool-cases (same wanted [])) [
  | inl n ↦ rw n tt
  | inr n ↦ elim (Bool-cases (same action [])) [ inl m ↦ rw (n, m) tt | inr m ↦ rw (n, m) (h, tt) ]
]
bind-All a wanted action (e ∷ es) h k = elim (Bool-cases (before e.keys wanted)) [
  | inl l ↦ rw (bind-later wanted e es l action) (k.0, bind-All a wanted action es h k.1)
  | inr l ↦ elim (Bool-cases (same wanted [])) [
    | inl n ↦ rw n k
    | inr n ↦ elim (Bool-cases (same e.keys wanted)) [
      | inl m ↦ elim (Bool-cases (same action [])) [
        | inl o ↦ rw (l, n, m, o) k.1
        | inr o ↦ rw (l, n, m, o) (k.0, k.1)
      ]
      | inr m ↦ elim (Bool-cases (same action [])) [
        | inl o ↦ rw (l, n, m, o) k
        | inr o ↦ rw (l, n, m, o) (h, (k.0, k.1))
      ]
    ]
  ]
]

pub bind-IsSorted :
    (wanted action : Bytes) (es : List Entry) → IsSorted es → IsSorted (bind wanted action es)
unfolding bind lower_bound
bind-IsSorted wanted action [] s = elim (Bool-cases (same wanted [])) [
  | inl n ↦ rw n tt
  | inr n ↦ elim (Bool-cases (same action [])) [ inl m ↦ rw (n, m) tt | inr m ↦ rw (n, m) (tt, tt) ]
]
bind-IsSorted wanted action (e ∷ es) s = elim (Bool-cases (before e.keys wanted)) [
  | inl l ↦
      rw (bind-later wanted e es l action)
        (bind-All e.keys wanted action es l s.0, bind-IsSorted wanted action es s.1)
  | inr l ↦ elim (Bool-cases (same wanted [])) [
    | inl n ↦ rw n s
    | inr n ↦ elim (Bool-cases (same e.keys wanted)) [
      | inl m ↦ elim (Bool-cases (same action [])) [
        | inl o ↦ rw (l, n, m, o) s.1
        | inr o ↦ rw (l, n, m, o) s
      ]
      | inr m ↦
          let lt = before_total e.keys wanted l m in
          elim (Bool-cases (same action [])) [
            | inl o ↦ rw (l, n, m, o) s
            | inr o ↦ rw (l, n, m, o) ((lt, above wanted e.keys es lt s.0), s)
          ]
    ]
  ]
]

action_of-bind_self :
    (wanted action : Bytes) (es : List Entry)
    → IsSorted es
    → same wanted [] ≡ false
    → action_of wanted (bind wanted action es) ≡ (if same action [] then none else some action)
unfolding bind lower_bound
action_of-bind_self wanted action [] s n = elim (Bool-cases (same action [])) [
  | inl o ↦ rw (n, o) refl
  | inr o ↦ rw (n, o, same_refl wanted) refl
]
action_of-bind_self wanted action (e ∷ es) s n = elim (Bool-cases (before e.keys wanted)) [
  | inl l ↦
      rw (bind-later wanted e es l action, before-same e.keys wanted l)
        (action_of-bind_self wanted action es s.1 n)
  | inr l ↦ elim (Bool-cases (same e.keys wanted)) [
    | inl m ↦
        let is : e.keys ≡ wanted = (same_iff e.keys wanted).0 m in
        let gone =
          action_of-above wanted es (subst (λ k. All (λ d. before k d.keys ≡ true) es) is s.0) in
        elim (Bool-cases (same action [])) [
          | inl o ↦ rw (l, n, m, o) gone
          | inr o ↦ rw (l, n, m, o) (rw m refl)
        ]
    | inr m ↦
        let lt = before_total e.keys wanted l m in
        let gone = action_of-above wanted es (above wanted e.keys es lt s.0) in
        elim (Bool-cases (same action [])) [
          | inl o ↦ rw (l, n, m, o) (rw m gone)
          | inr o ↦ rw (l, n, m, o, same_refl wanted) refl
        ]
  ]
]

action_of-bind_other :
    (wanted action other : Bytes) (es : List Entry)
    → same wanted [] ≡ false
    → same wanted other ≡ false
    → action_of other (bind wanted action es) ≡ action_of other es
unfolding bind lower_bound
action_of-bind_other wanted action other [] n c = elim (Bool-cases (same action [])) [
  | inl o ↦ rw (n, o) refl
  | inr o ↦ rw (n, o, c) refl
]
action_of-bind_other wanted action other (e ∷ es) n c = elim (Bool-cases (before e.keys wanted)) [
  | inl l ↦
      rw (bind-later wanted e es l action, action_of-bind_other wanted action other es n c) refl
  | inr l ↦ elim (Bool-cases (same e.keys wanted)) [
    | inl m ↦
        let is : e.keys ≡ wanted = (same_iff e.keys wanted).0 m in
        let differs : same e.keys other ≡ false = rw is c in
        elim (Bool-cases (same action [])) [
          | inl o ↦ rw (l, n, m, o, differs) refl
          | inr o ↦ rw (l, n, m, o, differs) refl
        ]
    | inr m ↦ elim (Bool-cases (same action [])) [
      | inl o ↦ rw (l, n, m, o) refl
      | inr o ↦ rw (l, n, m, o, c) refl
    ]
  ]
]

-- Binding in a sorted table leaves it sorted, and changes what is bound to those keys and to no others.
pub bind_refines :
    (wanted action : Bytes) (es : List Entry)
    → IsSorted es
    → wanted ≢ []
    → IsSorted (bind wanted action es)
      × ((other : Bytes)
          → action_for other (bind wanted action es) ≡ (
              if same wanted other
              then (if same action [] then none else some action)
              else action_for other es))
bind_refines wanted action es s w =
    let sorted = bind-IsSorted wanted action es s in
    (
      sorted,
      λ other. elim (Bool-cases (same wanted other)) [
        | inl c ↦
            let is : wanted ≡ other = (same_iff wanted other).0 c in
            rw c (
              subst
                (λ k.
                  action_for k (bind wanted action es)
                  ≡ (if same action [] then none else some action))
                is
                (action_for-action_of wanted (bind wanted action es) sorted
                  ∙ action_of-bind_self wanted action es s not_empty))
        | inr c ↦ rw c (
            action_for-action_of other (bind wanted action es) sorted
            ∙ (action_of-bind_other wanted action other es not_empty c
                ∙ sym (action_for-action_of other es s)))
      ],
    )
  where
    not_empty : same wanted [] ≡ false
    not_empty = elim (Bool-cases (same wanted [])) [
      | inl n ↦ absurd (w ((same_iff wanted []).0 n))
      | inr n ↦ n
    ]
