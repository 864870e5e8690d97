-- ===== src/Decoder/Stable.antt =====
-- What src/leshper/decode.cpp has decoded does not depend on the bytes that follow.
use lesh.Base.{
  ℕ, suc, ◌≡◌, ◌≢◌, ◌≤◌, ◌<◌, inl, inr, refl, ap, true, false, ◌&&◌, [], ◌∷◌, ◌++◌, Bytes, drop,
  length, leb, ◌==◌, Bool-cases, arith, length-drop, take-append_le, drop-append_le,
}
use lesh.Utf8.{scan_scalar, escape_byte}
use lesh.Utf8.Scan.{scan_scalar-append}
use lesh.Decoder.Keys.{KeyModifiers, plain}
use lesh.Decoder.{emit_text, run_length, consume_csi, consume_ss3, consume_escape, consume_one}

emit_text-append :
    (text more : Bytes) (modifiers : KeyModifiers) (payload : Bytes)
    → (emit_text text modifiers payload).taken ≢ 0
    → emit_text (text ++ more) modifiers payload ≡ emit_text text modifiers payload
unfolding emit_text
emit_text-append text more modifiers payload h = elim (Bool-cases (scan_scalar text).incomplete) [
  | inl i ↦ absurd (h (rw i refl))
  | inr i ↦ rw (scan_scalar-append text more i) refl
]

run_length-le : (low high : ℕ) (text : Bytes) → run_length low high text ≤ length text
unfolding run_length
run_length-le low high [] = omega arith
run_length-le low high (c ∷ text) = ground (arith, run_length-le low high text)

-- A run that ends before the text does ends there.
run_length-append :
    (low high : ℕ) (text more : Bytes)
    → run_length low high text < length text
    → run_length low high (text ++ more) ≡ run_length low high text
unfolding run_length
run_length-append low high [] more h = elim h [ ]
run_length-append low high (c ∷ text) more h = elim (Bool-cases (leb low c && leb c high)) [
  | inl e ↦
      let h' : suc (run_length low high text) < suc (length text) = (rw e at h) in
      rw e (ap suc (run_length-append low high text more (omega (arith, h'))))
  | inr e ↦ rw e refl
]

consume_csi-append :
    (body more payload : Bytes)
    → (consume_csi body payload).taken ≢ 0
    → consume_csi (body ++ more) payload ≡ consume_csi body payload
unfolding consume_csi
consume_csi-append body more payload h =
    let p = run_length 48 63 body in
    let i = run_length 32 47 (drop p body) in go (drop i (drop p body)) refl
  where
    go :
        (tail : Bytes)
        → drop
            (run_length 32 47 (drop (run_length 48 63 body) body))
            (drop (run_length 48 63 body) body)
          ≡ tail
        → consume_csi (body ++ more) payload ≡ consume_csi body payload
    go [] e = absurd (h (rw e refl))
    go (c ∷ tail) e =
        let p = run_length 48 63 body in
        let i = run_length 32 47 (drop p body) in
        let l = length-drop i (drop p body) in
        let l' = length-drop p body in
        let s : length (drop i (drop p body)) ≡ suc (length tail) = rw e refl in
        let lt : p < length body = omega (arith, l, l', s) in
        let lt' : i < length (drop p body) = omega (arith, l, l', s) in
        rw
          (
            run_length-append 48 63 body more lt,
            drop-append_le p body more (omega (arith, lt)),
            take-append_le p body more (omega (arith, lt)),
            run_length-append 32 47 (drop p body) more lt',
            drop-append_le i (drop p body) more (omega (arith, lt')),
            e,
          )
          refl

consume_ss3-append :
    (body more payload : Bytes)
    → (consume_ss3 body payload).taken ≢ 0
    → consume_ss3 (body ++ more) payload ≡ consume_ss3 body payload
unfolding consume_ss3
consume_ss3-append [] more payload h = absurd (h refl)
consume_ss3-append (c ∷ body) more payload h = refl

consume_escape-append :
    (body more payload : Bytes)
    → (consume_escape body payload).taken ≢ 0
    → consume_escape (body ++ more) payload ≡ consume_escape body payload
unfolding consume_escape
consume_escape-append [] more payload h = absurd (h refl)
consume_escape-append (c ∷ body) more payload h = elim (Bool-cases (c == 91)) [
  | inl e ↦ rw e (consume_csi-append body more payload (rw e at h))
  | inr e ↦ elim (Bool-cases (c == 79)) [
    | inl e' ↦ rw (e, e') (consume_ss3-append body more payload (rw (e, e') at h))
    | inr e' ↦ elim (Bool-cases (c == escape_byte)) [
      | inl e'' ↦ rw (e, e', e'') refl
      | inr e'' ↦
          let t =
            emit_text-append (c ∷ body) more (record { shift = false; alt = true; ctrl = false })
              payload (λ z. (rw (e, e', e'', z) at h) refl) in
          rw (e, e', e'', t) refl
    ]
  ]
]

-- What `consume_one` takes and pushes, where it takes anything, stays when more bytes follow: a read
-- that ends anywhere cannot change what the bytes before it mean.
pub consume_one-append :
    (rest more payload : Bytes)
    → (consume_one rest payload).taken ≢ 0
    → consume_one (rest ++ more) payload ≡ consume_one rest payload
unfolding consume_one
consume_one-append [] more payload h = absurd (h refl)
consume_one-append (c ∷ rest) more payload h = elim (Bool-cases (c == escape_byte)) [
  | inl e ↦ rw e (consume_escape-append rest more payload (rw e at h))
  | inr e ↦ rw e (emit_text-append (c ∷ rest) more plain payload (rw e at h))
]
