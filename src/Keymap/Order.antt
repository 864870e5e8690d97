-- ===== src/Keymap/Order.antt =====
-- The order of encoded keys in src/leshper/keymap.cpp.
use lesh.Base.{◌≡◌, true, false, [], ◌∷◌, Bytes, same, arith}
use lesh.Keymap.{before, starts_with}

pub not_before_itself : (a : Bytes) → before a a ≡ false
not_before_itself [] = ground arith
not_before_itself (c ∷ cs) = ground (arith, not_before_itself cs)

pub before_trans : (a b c : Bytes) → before a b ≡ true → before b c ≡ true → before a c ≡ true
before_trans [] [] c h k = ground arith
before_trans [] (y ∷ b) [] h k = ground arith
before_trans [] (y ∷ b) (z ∷ c) h k = ground arith
before_trans (x ∷ a) [] c h k = ground arith
before_trans (x ∷ a) (y ∷ b) [] h k = ground arith
before_trans (x ∷ a) (y ∷ b) (z ∷ c) h k = ground (arith, before_trans a b c)

pub before_total : (a b : Bytes) → before a b ≡ false → same a b ≡ false → before b a ≡ true
before_total [] [] h k = ground arith
before_total [] (y ∷ b) h k = ground arith
before_total (x ∷ a) [] h k = ground arith
before_total (x ∷ a) (y ∷ b) h k = ground (arith, before_total a b)

pub before-same : (a b : Bytes) → before a b ≡ true → same a b ≡ false
before-same [] [] h = ground arith
before-same [] (y ∷ b) h = ground arith
before-same (x ∷ a) [] h = ground arith
before-same (x ∷ a) (y ∷ b) h = ground (arith, before-same a b)

pub after-same : (a b : Bytes) → before a b ≡ true → same b a ≡ false
after-same [] [] h = ground arith
after-same [] (y ∷ b) h = ground arith
after-same (x ∷ a) [] h = ground arith
after-same (x ∷ a) (y ∷ b) h = ground (arith, after-same a b)

-- What begins with a text is not before it.
pub before-starts_with : (a b : Bytes) → before a b ≡ true → starts_with a b ≡ false
before-starts_with [] [] h = ground arith
before-starts_with [] (y ∷ b) h = ground arith
before-starts_with (x ∷ a) [] h = ground arith
before-starts_with (x ∷ a) (y ∷ b) h = ground (arith, before-starts_with a b)

-- What lies between a text and an extension of it extends it.
pub starts_with-between :
    (a b c : Bytes)
    → before a b ≡ true
    → before b c ≡ true
    → starts_with c a ≡ true
    → starts_with b a ≡ true
starts_with-between [] b c h k l = ground arith
starts_with-between (x ∷ a) [] c h k l = ground arith
starts_with-between (x ∷ a) (y ∷ b) [] h k l = ground arith
starts_with-between (x ∷ a) (y ∷ b) (z ∷ c) h k l = ground (arith, starts_with-between a b c)
