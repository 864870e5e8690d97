-- ===== src/Utf8/Scan.antt =====
-- `scan_scalar` of src/leshper/decode.cpp against the definition of UTF-8.
use lesh.Base.{ℕ, ◌<◌, ◌≤◌, ◌≡◌, refl, false, [], ◌∷◌, ◌++◌, Bytes, drop, length, arith}
use lesh.Utf8.{scalar, scan_scalar}
use lesh.Utf8.Encode.{IsScalar, encode}

-- What was read whole, or refused, does not change when more bytes follow.
pub scan_scalar-append :
    (text more : Bytes)
    → (scan_scalar text).incomplete ≡ false
    → scan_scalar (text ++ more) ≡ scan_scalar text
unfolding scan_scalar
scan_scalar-append [] more h = ground arith
scan_scalar-append (a ∷ []) more h = ground arith
scan_scalar-append (a ∷ b ∷ []) more h = ground arith
scan_scalar-append (a ∷ b ∷ c ∷ []) more h = ground arith
scan_scalar-append (a ∷ b ∷ c ∷ d ∷ text) more h = refl

scan-one : (c : ℕ) (rest : Bytes) → c < 128 → scan_scalar (encode c ++ rest) ≡ scalar c 1
unfolding scan_scalar
scan-one c rest h = ground arith

scan-two : (c : ℕ) (rest : Bytes) → 128 ≤ c → c < 2048 → scan_scalar (encode c ++ rest) ≡ scalar c 2
unfolding scan_scalar
scan-two c rest l h = ground arith

scan-three :
    (c : ℕ) (rest : Bytes)
    → 2048 ≤ c
    → c < 65536
    → IsScalar c
    → scan_scalar (encode c ++ rest) ≡ scalar c 3
unfolding scan_scalar
scan-three c rest l h s = ground arith

scan-four :
    (c : ℕ) (rest : Bytes) → 65536 ≤ c → c < 1114112 → scan_scalar (encode c ++ rest) ≡ scalar c 4
unfolding scan_scalar
scan-four c rest l h = ground arith

-- The encoding of a scalar is read back as that scalar, in its whole length, whatever follows it.
pub scan_scalar-encode :
    (c : ℕ) (rest : Bytes)
    → IsScalar c
    → scan_scalar (encode c ++ rest) ≡ scalar c (length (encode c))
scan_scalar-encode c rest h =
    ground (arith, scan-one c rest, scan-two c rest, scan-three c rest, scan-four c rest)

-- What `scan_scalar` reads as a scalar is one, and starts with its encoding: no overlong form, no
-- surrogate and nothing above U+10FFFF is read.
pub scan_scalar_sound :
    (text : Bytes)
    → (scan_scalar text).incomplete ≡ false
    → (scan_scalar text).malformed ≡ false
    → let scan = scan_scalar text in
      IsScalar scan.codepoint
      × (text ≡ encode scan.codepoint ++ drop scan.length text)
      × (scan.length ≡ length (encode scan.codepoint))
unfolding scan_scalar
scan_scalar_sound [] i m = ground arith
scan_scalar_sound (a ∷ []) i m = ground arith
scan_scalar_sound (a ∷ b ∷ []) i m = ground arith
scan_scalar_sound (a ∷ b ∷ c ∷ []) i m = ground arith
scan_scalar_sound (a ∷ b ∷ c ∷ d ∷ text) i m = ground arith
