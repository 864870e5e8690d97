-- ===== src/Pager/Show.antt =====
-- What part of the grid src/leshper/pager.cpp shows.
use native.Mathlib.Nat.{le-div_iff_mul-le, div-mul-le_self, div-le_of_le-mul}
use lesh.Base.{
  ℕ, zero, suc, ◌+◌, ◌-◌, ◌*◌, ◌/◌, ◌<◌, ◌≤◌, ◌≡◌, false, ◌||◌, ◌==◌, Bytes, length, min, max,
  arith,
}
use lesh.Pager.{PagerState, reveal_row, measure_pager, widest_of, u16, clamp_u16}

reveal_row-shows :
    (first visible row rows : ℕ)
    → first + visible ≤ rows
    → row < rows
    → rows ≤ 65534
    → 0 < visible
    → let shown = reveal_row first visible row in
      (shown ≤ row) × (row < shown + visible) × (shown + visible ≤ rows)
unfolding reveal_row
reveal_row-shows first visible row rows h r l v = ground arith

div-rounds_up : (s n c : ℕ) → 0 < c → s < n → s / c < (n + c - 1) / c
div-rounds_up s n c h l =
    let k = div-mul-le_self s c in
    let e : suc (s / c) * c ≡ s / c * c + c = omega arith in
    (le-div_iff_mul-le {x = suc (s / c)} {y = n + c - 1} h).1 (omega (arith, k, e, l, h))

rounds-le : (m c : ℕ) → 0 < m → 0 < c → m + c - 1 ≤ c * m
rounds-le zero c h h' = omega (arith, h)
rounds-le (suc m) zero h h' = omega (arith, h')
rounds-le (suc m) (suc c) h h' =
    let e : suc c * suc m ≡ c * m + c + m + 1 = omega arith in omega (arith, e)

module _ (string_width : Bytes → ℕ) where
  -- On a terminal of 1 to 65533 columns with a row for the pager, and 1 to 65534 matches, the rows on show are
  -- rows of the grid, no more than were given, and the row of the selection is among them, wherever the
  -- pager was scrolled to and however wide the texts are.
  pub measure_pager-Shows :
      (pager : PagerState) (columns max_rows : ℕ)
      → 0 < columns
      → columns < 65534
      → 0 < max_rows
      → 0 < length pager.matching
      → length pager.matching ≤ 65534
      → let grid = measure_pager string_width pager columns max_rows in
        let row = min pager.selected (length pager.matching - 1) / grid.columns in
        (grid.first_row ≤ row)
        × (row < grid.first_row + grid.visible_rows)
        × (grid.first_row + grid.visible_rows ≤ grid.rows)
        × (grid.visible_rows ≤ max_rows)
        × (0 < grid.columns)
  unfolding measure_pager
  measure_pager-Shows pager columns max_rows hc hc' hr hn hn' =
      let count = length pager.matching in
      let widest = widest_of string_width pager.candidates 1 pager.matching in
      let column_width = u16 (u16 (min widest columns) + 2) in
      let fit = (columns + 2) / column_width in
      let c = u16 (min (max 1 fit) count) in
      let s = min pager.selected (count - 1) in
      let needed = (count + c - 1) / c in
      let c_pos : 0 < c = omega arith in
      let inside : s / c < needed = div-rounds_up s count c c_pos (omega arith) in
      let few : needed ≤ count = div-le_of_le-mul c (rounds-le count c hn c_pos) in
      let branch : (count == 0 || columns == 0 || max_rows == 0) ≡ false = ground arith in
      let rows : clamp_u16 needed ≡ needed = omega (arith, few, hn') in
      let row : clamp_u16 (s / c) ≡ s / c = omega (arith, few, inside, hn') in
      let (low, high, end) =
        reveal_row-shows (min pager.scroll_row (u16 (needed - min needed max_rows)))
          (min needed max_rows) (s / c) needed (omega (arith, few, hn')) inside
          (omega (arith, few, hn')) (omega (arith, inside, hr)) in
      rw (branch, rows, row) (low, high, end, omega arith, c_pos)
