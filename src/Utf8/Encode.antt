-- ===== src/Utf8/Encode.antt =====
-- UTF-8 as RFC 3629 defines it, against which src/leshper/decode.cpp is read.
use lesh.Base.{ℕ, ◌+◌, ◌/◌, ◌%◌, ◌<◌, ◌≤◌, ◌⊎◌, [], ◌∷◌, ◌++◌, Bytes, ltb, if◌then◌else◌}

-- A code point that is no surrogate.
abbrev pub IsScalar : ℕ → Type 0
IsScalar c = (c < 55296) ⊎ ((57344 ≤ c) × (c < 1114112))

-- The bytes of a scalar.
abbrev pub encode : ℕ → Bytes
encode c =
    if ltb c 128
    then c ∷ []
    else if ltb c 2048
    then (192 + c / 64) ∷ (128 + c % 64) ∷ []
    else if ltb c 65536
    then (224 + c / 4096) ∷ (128 + c / 64 % 64) ∷ (128 + c % 64) ∷ []
    else (240 + c / 262144) ∷ (128 + c / 4096 % 64) ∷ (128 + c / 64 % 64) ∷ (128 + c % 64) ∷ []

-- A text of whole scalars.
pub data WellFormed : Bytes → Type 0 where
  done : WellFormed []
  char : (c : ℕ) {rest : Bytes} → IsScalar c → WellFormed rest → WellFormed (encode c ++ rest)
