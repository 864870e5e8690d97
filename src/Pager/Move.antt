-- ===== src/Pager/Move.antt =====
-- How src/leshper/pager.cpp moves the selection.
use native.Mathlib.Nat.{mod-lt, mod_self, mod-eq_of_lt}
use lesh.Base.{
  ℕ, zero, suc, ◌+◌, ◌-◌, ◌%◌, ◌<◌, ◌≡◌, inl, inr, refl, sym, true, false, ◌==◌, leb, length, arith,
  Bool-cases,
}
use lesh.Base.Int.{ℤ, pos, negsuc}
use lesh.Pager.{PagerState, wrap, add_ℤ, pager_move}

-- Wherever the selection was and whichever way it moves, it stays among the matches, where there are
-- any.
pub pager_move-lt :
    (pager : PagerState) (by : ℤ)
    → 0 < length pager.matching
    → (pager_move pager by).selected < length pager.matching
unfolding pager_move
pager_move-lt pager by h =
    let some_left : (length pager.matching == 0) ≡ false = ground arith in
    rw some_left (wrap-lt (add_ℤ pager.selected by) (length pager.matching) h)
  where
    wrap-lt : (at : ℤ) (count : ℕ) → 0 < count → wrap at count < count
    wrap-lt (pos n) count h = mod-lt n h
    wrap-lt (negsuc n) count h = ground (arith, mod-lt (suc n) {m = count} h)

wrap_up : (s c : ℕ) → s < c → wrap (add_ℤ (wrap (add_ℤ s (pos 1)) c) (negsuc 0)) c ≡ s
wrap_up s c h = elim (Bool-cases (s + 1 == c)) [
  | inl e ↦
      let k : s + 1 ≡ c = ground arith in
      let z : (s + 1) % c ≡ 0 = rw (sym k) (mod_self (s + 1)) in rw z (last_of s c k)
  | inr e ↦
      let k : s + 1 < c = ground arith in
      let z : (s + 1) % c ≡ s + 1 = mod-eq_of_lt k in
      let b : leb 1 (s + 1) ≡ true = ground arith in
      let p : s + 1 - 1 ≡ s = omega arith in rw (z, b, p) (mod-eq_of_lt h)
]
  where
    last_of : (s c : ℕ) → s + 1 ≡ c → wrap (negsuc 0) c ≡ s
    last_of zero c k = rw (sym k) refl
    last_of (suc s) c k =
        let one : 1 % c ≡ 1 = mod-eq_of_lt (omega (arith, k)) in rw one (omega (arith, k))

wrap_down : (s c : ℕ) → s < c → wrap (add_ℤ (wrap (add_ℤ s (negsuc 0)) c) (pos 1)) c ≡ s
wrap_down zero zero h = elim h [ ]
wrap_down zero (suc zero) h = refl
wrap_down zero (suc (suc c)) h =
    let one : 1 % suc (suc c) ≡ 1 = mod-eq_of_lt (omega arith) in
    let k : suc (suc c) - 1 + 1 ≡ suc (suc c) = omega arith in rw (one, k) (mod_self (suc (suc c)))
wrap_down (suc s) c h =
    let p : suc s - 1 ≡ s = omega arith in
    let z : s % c ≡ s = mod-eq_of_lt (omega (arith, h)) in
    let q : s + 1 ≡ suc s = omega arith in
    let b : leb 1 (suc s) ≡ true = ground arith in rw (b, p, z, q) (mod-eq_of_lt h)

-- A selection among the matches that moves on by one and back, or back and on, is where it was, also
-- round the ends.
pager_move-pager_move :
    (pager : PagerState)
    → pager.selected < length pager.matching
    → (pager_move (pager_move pager (pos 1)) (negsuc 0) ≡ pager)
      × (pager_move (pager_move pager (negsuc 0)) (pos 1) ≡ pager)
unfolding pager_move
pager_move-pager_move pager h =
    let some_left : (length pager.matching == 0) ≡ false = ground arith in
    rw
      (
        some_left,
        wrap_up pager.selected (length pager.matching) h,
        wrap_down pager.selected (length pager.matching) h,
      )
      (refl, refl)
