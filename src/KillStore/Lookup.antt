-- ===== src/KillStore/Lookup.antt =====
-- What src/leshper/kill_store.cpp finds after a `put`.
use lesh.Base.{
  ℕ, ◌≡◌, ◌≢◌, refl, sym, true, some, List, [], ◌∷◌, Bytes, same, same_iff, same_refl, Bool-cases,
  All, arith, inl, inr, ◌∙◌,
}
use lesh.KillStore.{KillEntry, put, get}

-- Directly after `put`, a `get` of its key finds what was put, and a `get` of any other key finds what it
-- found before.
pub get-put :
    (entries : List KillEntry) (key text wanted : Bytes) (flags : ℕ)
    → (get (put entries key text flags) key
        ≡ some (record { key = key; text = text; flags = flags }))
      × (wanted ≢ key → get (put entries key text flags) wanted ≡ get entries wanted)
unfolding put get
get-put [] key text wanted flags = (
  rw (same_refl key) refl,
  λ n. elim (Bool-cases (same key wanted)) [
    | inl e ↦ absurd (n (sym ((same_iff key wanted).0 e)))
    | inr e ↦ rw e refl
  ],
)
get-put (one ∷ entries) key text wanted flags =
    let (found, other) = get-put entries key text wanted flags in
    elim (Bool-cases (same one.key key)) [
      | inl e ↦
          let k : one.key ≡ key = (same_iff one.key key).0 e in
          rw e (
            rw e (rw k refl),
            λ n. elim (Bool-cases (same one.key wanted)) [
              | inl w ↦ absurd (n (sym ((same_iff one.key wanted).0 w) ∙ k))
              | inr w ↦ rw w refl
            ],
          )
      | inr e ↦ rw e (
        rw e found,
        λ n. elim (Bool-cases (same one.key wanted)) [ inl w ↦ rw w refl | inr w ↦ rw w (other n) ],
      )
    ]

abbrev pub Lacks : Bytes → List KillEntry → Type 0
Lacks key = All (λ one. one.key ≢ key)

-- No two entries have one key.
abbrev pub IsDistinct : List KillEntry → Type 0
IsDistinct [] = Unit
IsDistinct (one ∷ entries) = Lacks one.key entries × IsDistinct entries

put-Lacks :
    (entries : List KillEntry) (key text other : Bytes) (flags : ℕ)
    → key ≢ other
    → Lacks other entries
    → Lacks other (put entries key text flags)
unfolding put
put-Lacks [] key text other flags n h = (n, tt)
put-Lacks (one ∷ entries) key text other flags n h = elim (Bool-cases (same one.key key)) [
  | inl e ↦ rw e (h.0, h.1)
  | inr e ↦ rw e (h.0, put-Lacks entries key text other flags n h.1)
]

-- `put` never makes a second entry for a key.
pub put-IsDistinct :
    (entries : List KillEntry) (key text : Bytes) (flags : ℕ)
    → IsDistinct entries
    → IsDistinct (put entries key text flags)
unfolding put
put-IsDistinct [] key text flags h = (tt, tt)
put-IsDistinct (one ∷ entries) key text flags h = elim (Bool-cases (same one.key key)) [
  | inl e ↦ rw e h
  | inr e ↦
      let n : key ≢ one.key =
        (λ k. let t : same one.key key ≡ true = (same_iff one.key key).1 (sym k) in ground arith) in
      rw e
        (put-Lacks entries key text one.key flags n h.0, put-IsDistinct entries key text flags h.1)
]
