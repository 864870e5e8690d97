-- ===== src/Decoder/Drain.antt =====
-- The loop of `drain` in src/leshper/decode.cpp ends, and what it keeps.
use lesh.Base.{
  find, ℕ, zero, suc, ◌+◌, ◌-◌, ◌≡◌, ◌≤◌, ◌⊎◌, inl, inr, refl, Bool, true, false, not, ◌||◌, [],
  ◌∷◌, ◌++◌, Bytes, drop, length, ◌==◌, min, Bool-cases, arith, length-drop, Option-cases,
}
use lesh.Utf8.{scan_scalar}
use lesh.Decoder.Keys.{plain}
use lesh.Decoder.{
  consume_one, consume_paste, paste_end_marker, kept, emit_text, consume, drain_loop, InputDecoder,
  drain, arm, feed, starts_with_escape,
}

-- Nothing is held, or the consumer in charge takes nothing of it.
abbrev IsStuck : Bool → Bytes → Bytes → Type 0
IsStuck pasting payload held = (held ≡ []) ⊎ ((consume pasting held payload).taken ≡ 0)

drain_loop-IsStuck :
    (f : ℕ) (pasting : Bool) (payload rest : Bytes)
    → length rest ≤ f
    → let after = drain_loop f pasting payload rest in
      IsStuck after.pasting after.payload after.held
unfolding drain_loop
drain_loop-IsStuck zero pasting payload [] l = inl refl
drain_loop-IsStuck zero pasting payload (c ∷ rest) l = elim l [ ]
drain_loop-IsStuck (suc f) pasting payload [] l = inl refl
drain_loop-IsStuck (suc f) pasting payload (c ∷ rest) l =
    let one = consume pasting (c ∷ rest) payload in
    elim (Bool-cases (one.taken == 0)) [
      | inl e ↦ rw e (inr (ground arith))
      | inr e ↦ rw e (
          drain_loop-IsStuck f one.pasting one.payload (drop one.taken (c ∷ rest))
            (ground (arith, length-drop one.taken (c ∷ rest))))
    ]

-- Whatever is fed, `feed` decodes all that it can.
feed-IsStuck :
    (d : InputDecoder) (bytes : Bytes) (now : ℕ)
    → let d' = (feed d bytes now).0 in IsStuck d'.pasting d'.payload d'.held
unfolding feed drain arm
feed-IsStuck d bytes now =
    let held = d.held ++ bytes in
    let after = drain_loop (length held) d.pasting d.payload held in
    let stuck = drain_loop-IsStuck (length held) d.pasting d.payload held (omega arith) in
    elim (Bool-cases (after.pasting || not (starts_with_escape after.held))) [
      | inl e ↦ rw e stuck
      | inr e ↦ rw e stuck
    ]

kept-le : (rest : Bytes) (keep : ℕ) → kept rest keep ≤ keep
unfolding kept
kept-le rest zero = omega arith
kept-le rest (suc keep) = ground (arith, kept-le rest keep)

consume_paste-held :
    (rest payload : Bytes) → (consume_paste rest payload).taken ≡ 0 → length rest ≤ 5
unfolding consume_paste
consume_paste-held rest payload h = elim (Option-cases (find paste_end_marker rest)) [
  | inl e ↦
      let k = kept-le rest (min (length rest) 5) in
      let h' : length rest - kept rest (min (length rest) 5) ≡ 0 = (rw e at h) in
      omega (arith, k, h')
  | inr (n, e) ↦ let h' : n + 6 ≡ 0 = (rw e at h) in omega (arith, h')
]

emit_text-held : (rest payload : Bytes) → (emit_text rest plain payload).taken ≡ 0 → length rest ≤ 3
unfolding emit_text scan_scalar
emit_text-held [] payload h = omega arith
emit_text-held (a ∷ []) payload h = omega arith
emit_text-held (a ∷ b ∷ []) payload h = omega arith
emit_text-held (a ∷ b ∷ c ∷ []) payload h = omega arith
emit_text-held (a ∷ b ∷ c ∷ d ∷ rest) payload h = ground arith

consume_one-held :
    (rest payload : Bytes)
    → starts_with_escape rest ≡ false
    → (consume_one rest payload).taken ≡ 0
    → length rest ≤ 3
unfolding consume_one
consume_one-held [] payload n h = omega arith
consume_one-held (c ∷ rest) payload n h = emit_text-held (c ∷ rest) payload (rw n at h)

IsStuck-held :
    (pasting : Bool) (payload held : Bytes)
    → (pasting || not (starts_with_escape held)) ≡ true
    → IsStuck pasting payload held
    → length held ≤ 5
IsStuck-held pasting payload held h (inl e) = rw e (omega arith)
IsStuck-held true payload held h (inr k) = consume_paste-held held payload k
IsStuck-held false payload held h (inr k) =
    omega (arith, consume_one-held held payload (ground arith) k)

-- Behind a `feed`, inside a paste or where no escape is held first, no more than five bytes wait.
pub feed-held :
    (d : InputDecoder) (bytes : Bytes) (now : ℕ)
    → let d' = (feed d bytes now).0 in
      (d'.pasting || not (starts_with_escape d'.held)) ≡ true → length d'.held ≤ 5
feed-held d bytes now h =
    let d' = (feed d bytes now).0 in
    IsStuck-held d'.pasting d'.payload d'.held h (feed-IsStuck d bytes now)
