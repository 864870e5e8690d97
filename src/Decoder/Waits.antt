-- ===== src/Decoder/Waits.antt =====
-- How long src/leshper/decode.cpp waits for the bytes behind an escape.
use lesh.Base.{
  ℕ, zero, suc, ◌+◌, ◌≡◌, ◌≤◌, ◌<◌, inl, inr, refl, Bool, true, false, not, ◌||◌, none, some, List,
  [], ◌∷◌, ◌++◌, Bytes, drop, length, ◌==◌, Bool-cases, arith, length-drop, length-append,
  append-nil, append_assoc, sym, ◌∙◌, ap,
}
use lesh.Utf8.{escape_codepoint}
use lesh.Decoder.Keys.{plain, Event, key_of}
use lesh.Decoder.{
  consume, drain_loop, InputDecoder, drain, arm, feed, expire, starts_with_escape, is_due, or_else,
}

-- Bytes and when they are fed, one after the other.
unfoldable pub feed_all : InputDecoder → List (Bytes × ℕ) → InputDecoder
feed_all d [] = d
feed_all d ((bytes, now) ∷ later) = feed_all (feed d bytes now).0 later

unfoldable pub bytes_of : List (Bytes × ℕ) → Bytes
bytes_of [] = []
bytes_of ((bytes, now) ∷ later) = bytes ++ bytes_of later

-- The loop of `drain` holds no more than it was given, and where it holds as much it did nothing.
drain_loop-length :
    (f : ℕ) (pasting : Bool) (payload rest : Bytes)
    → let after = drain_loop f pasting payload rest in
      (length after.held ≤ length rest)
      × (length after.held ≡ length rest → (after.held ≡ rest) × (after.pasting ≡ pasting))
unfolding drain_loop
drain_loop-length zero pasting payload rest = (omega arith, λ _. (refl, refl))
drain_loop-length (suc f) pasting payload [] = (omega arith, λ _. (refl, refl))
drain_loop-length (suc f) pasting payload (c ∷ rest) =
    let one = consume pasting (c ∷ rest) payload in
    elim (Bool-cases (one.taken == 0)) [
      | inl e ↦ rw e (omega arith, λ _. (refl, refl))
      | inr e ↦
          let (l, _) = drain_loop-length f one.pasting one.payload (drop one.taken (c ∷ rest)) in
          let shorter = length-drop one.taken (c ∷ rest) in
          rw e (ground (arith, l, shorter), λ h. ground (arith, l, shorter, h))
    ]

arm-keeps :
    (d : InputDecoder) (now : ℕ) → ((arm d now).held ≡ d.held) × ((arm d now).pasting ≡ d.pasting)
unfolding arm
arm-keeps d now = elim (Bool-cases (d.pasting || not (starts_with_escape d.held))) [
  | inl e ↦ rw e (refl, refl)
  | inr e ↦ rw e (refl, refl)
]

-- The same of `feed`.
feed-length :
    (d : InputDecoder) (bytes : Bytes) (now : ℕ)
    → let d' = (feed d bytes now).0 in
      (length d'.held ≤ length d.held + length bytes)
      × (length d'.held ≡ length d.held + length bytes
          → (d'.held ≡ d.held ++ bytes) × (d'.pasting ≡ d.pasting))
unfolding feed drain
feed-length d bytes now =
    let all = d.held ++ bytes in
    let after = drain_loop (length all) d.pasting d.payload all in
    let (l, same_held) = drain_loop-length (length all) d.pasting d.payload all in
    let (h, p) =
      arm-keeps (record d { held = after.held; payload = after.payload; pasting = after.pasting })
        now in
    let size = length-append d.held bytes in
    rw (h, p) (omega (arith, l, size), λ e. same_held (omega (arith, e, size)))

starts-append :
    (held more : Bytes) → starts_with_escape held ≡ true → starts_with_escape (held ++ more) ≡ true
starts-append [] more h = absurd (ground (arith, h))
starts-append (c ∷ held) more h = h

arm-deadline :
    (d : InputDecoder) (now : ℕ)
    → starts_with_escape (arm d now).held ≡ true
    → (arm d now).pasting ≡ false
    → (arm d now).deadline ≡ some (or_else d.deadline (now + d.escape_timeout))
unfolding arm
arm-deadline d now h p =
    let (held, pasting) = arm-keeps d now in
    let h' : starts_with_escape d.held ≡ true = (rw held at h) in
    let p' : d.pasting ≡ false = (rw pasting at p) in rw (p', h') refl

-- An escape held outside a paste is given a deadline, or keeps the one that stands.
feed-deadline :
    (d : InputDecoder) (bytes : Bytes) (now : ℕ)
    → let d' = (feed d bytes now).0 in
      starts_with_escape d'.held ≡ true
      → d'.pasting ≡ false
      → d'.deadline ≡ some (or_else d.deadline (now + d.escape_timeout))
unfolding feed drain
feed-deadline d bytes now = arm-deadline (drain (record d { held = d.held ++ bytes })).0 now

feed_all-length :
    (d : InputDecoder) (later : List (Bytes × ℕ))
    → length (feed_all d later).held ≤ length d.held + length (bytes_of later)
unfolding feed_all bytes_of
feed_all-length d [] = omega arith
feed_all-length d ((bytes, now) ∷ later) =
    let (l, _) = feed-length d bytes now in
    omega
      (arith, l, feed_all-length (feed d bytes now).0 later, length-append bytes (bytes_of later))

-- While nothing completes what is held, its deadline stays where it is.
feed_all-deadline :
    (d : InputDecoder) (later : List (Bytes × ℕ)) (deadline : ℕ)
    → starts_with_escape d.held ≡ true
    → d.pasting ≡ false
    → d.deadline ≡ some deadline
    → length (feed_all d later).held ≡ length d.held + length (bytes_of later)
    → let d' = feed_all d later in
      (d'.held ≡ d.held ++ bytes_of later) × (d'.pasting ≡ false) × (d'.deadline ≡ some deadline)
unfolding feed_all bytes_of
feed_all-deadline d [] deadline h p t e = (sym (append-nil d.held), p, t)
feed_all-deadline d ((bytes, now) ∷ later) deadline h p t e =
    let d' = (feed d bytes now).0 in
    let (l, nothing) = feed-length d bytes now in
    let rest = feed_all-length d' later in
    let size = length-append bytes (bytes_of later) in
    let (held, pasting) = nothing (omega (arith, l, rest, size, e)) in
    let h' : starts_with_escape d'.held ≡ true = rw held (starts-append d.held bytes h) in
    let p' : d'.pasting ≡ false = pasting ∙ p in
    let t' : d'.deadline ≡ some deadline =
      feed-deadline d bytes now h' p' ∙ ap (λ was. some (or_else was (now + d.escape_timeout))) t in
    let (all, p'', t'') =
      feed_all-deadline d' later deadline h' p' t'
        (omega (arith, l, rest, size, e, length-append d.held bytes, ap length held)) in
    (
      all ∙ ap (λ front. front ++ bytes_of later) held ∙ append_assoc d.held bytes (bytes_of later),
      p'',
      t'',
    )

expire-due :
    (d : InputDecoder) (deadline now : ℕ)
    → starts_with_escape d.held ≡ true
    → d.deadline ≡ some deadline
    → let alone = feed (record d { deadline = none; held = [] }) (drop 1 d.held) now in
      (now < deadline → expire d now ≡ (d, []))
      × (deadline ≤ now → expire d now ≡ (alone.0, key_of escape_codepoint plain ∷ alone.1))
unfolding expire feed
expire-due d deadline now h t = (
  (λ early. let due : is_due d.deadline now ≡ false = rw t (ground arith) in rw due refl),
  λ late. let due : is_due d.deadline now ≡ true = rw t (ground arith) in rw (due, h) refl,
)

-- An escape that a `feed` holds outside a paste, where no deadline stood, is waited for from that
-- `feed` on: while all that is fed behind it is held, whenever that comes, `expire` does nothing
-- before the timeout since the first `feed` is over, and from then on pushes the escape key and
-- decodes the rest as newly fed.
pub expire-feed_all :
    (d : InputDecoder) (bytes : Bytes) (started now : ℕ) (later : List (Bytes × ℕ))
    → d.deadline ≡ none
    → starts_with_escape (feed d bytes started).0.held ≡ true
    → (feed d bytes started).0.pasting ≡ false
    → length (feed_all (feed d bytes started).0 later).held
      ≡ length (feed d bytes started).0.held + length (bytes_of later)
    → let held = (feed d bytes started).0.held ++ bytes_of later in
      let waits = feed_all (feed d bytes started).0 later in
      let alone = feed (record waits { deadline = none; held = [] }) (drop 1 held) now in
      (waits.held ≡ held)
      × (waits.deadline ≡ some (started + d.escape_timeout))
      × (now < started + d.escape_timeout → expire waits now ≡ (waits, []))
      × (started + d.escape_timeout ≤ now
          → expire waits now ≡ (alone.0, key_of escape_codepoint plain ∷ alone.1))
expire-feed_all d bytes started now later none_yet h p e =
    let d' = (feed d bytes started).0 in
    let t : d'.deadline ≡ some (started + d.escape_timeout) =
      feed-deadline d bytes started h p
      ∙ ap (λ was. some (or_else was (started + d.escape_timeout))) none_yet in
    let (held, pasting, deadline) =
      feed_all-deadline d' later (started + d.escape_timeout) h p t e in
    let first : starts_with_escape (feed_all d' later).held ≡ true =
      rw held (starts-append d'.held (bytes_of later) h) in
    let (early, late) =
      expire-due (feed_all d' later) (started + d.escape_timeout) now first deadline in
    (held, deadline, early, λ l. late l ∙ ap alone held)
  where
    alone : Bytes → InputDecoder × List Event
    alone text =
        let waits = feed_all (feed d bytes started).0 later in
        let (d', pushed) = feed (record waits { deadline = none; held = [] }) (drop 1 text) now in
        (d', key_of escape_codepoint plain ∷ pushed)
