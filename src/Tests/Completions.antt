-- ===== src/Tests/Completions.antt =====
-- Runs of src/leshper/pager.cpp, and the theorems on it applied.
use lesh.Base.{
  take, true, ℕ, ◌+◌, ◌-◌, ◌<◌, ◌≤◌, ◌/◌, ◌≡◌, refl, some, Bytes, codes, [], ◌∷◌, length, min,
  arith, get_elem?,
}
use lesh.Base.Int.{pos, negsuc}
use lesh.Pager.{
  pager_filter_pop, PagerCandidate, PagerState, plain, directory, measure_pager, pager_refilter,
  pager_move, pager_common_prefix, decide_pager, text_at, insert, passes,
}
use lesh.Pager.Move.{pager_move-lt}
use lesh.Pager.Filter.{Occurs, pager_refilter-selected, pager_refilter-Occurs}
use lesh.Pager.Pop.{Starts, pager_filter_pop-Starts}
use lesh.Pager.Show.{measure_pager-Shows}
use lesh.Pager.Choose.{Begins, pager_common_prefix-Begins, decide_pager-insert}

abbrev three : PagerState
three = record {
  candidates =
      record { text = codes "main.c"; kind = plain }
      ∷ record { text = codes "man"; kind = directory }
      ∷ record { text = codes "make"; kind = plain }
      ∷ [];
  matching = 0 ∷ 1 ∷ 2 ∷ [];
  filter = codes "k";
  selected = 2;
  scroll_row = 9;
  open_now = true;
}

-- Each byte is a cluster.
abbrev next_byte : Bytes → ℕ → ℕ
next_byte text at = at + 1

move_run : (pager_move three (pos 2)).selected ≡ 1
unfolding pager_move
move_run = refl

move_back_run : (pager_move three (negsuc 6)).selected ≡ 1
unfolding pager_move
move_back_run = refl

measure_pager-Shows_example :
    let grid = measure_pager length three 10 1 in
    let row = min 2 (3 - 1) / grid.columns in
    (grid.first_row ≤ row)
    × (row < grid.first_row + grid.visible_rows)
    × (grid.first_row + grid.visible_rows ≤ grid.rows)
    × (grid.visible_rows ≤ 1)
    × (0 < grid.columns)
measure_pager-Shows_example =
    measure_pager-Shows length three 10 1 (omega arith) (omega arith) (omega arith) (omega arith)
      (omega arith)

pager_move-lt_example : (pager_move three (negsuc 6)).selected < 3
pager_move-lt_example = pager_move-lt three (negsuc 6) (omega arith)

pager_common_prefix-Begins_example : Begins (pager_common_prefix next_byte three) (text_at three 1)
pager_common_prefix-Begins_example = pager_common_prefix-Begins next_byte three 1 1 refl

pager_refilter-selected_example :
    get_elem? (pager_refilter three).matching (pager_refilter three).selected ≡ some 2
unfolding pager_refilter lesh.Pager.passing
pager_refilter-selected_example = pager_refilter-selected three 2 0 refl refl

decide_pager-insert_example :
    let text = (decide_pager next_byte three (codes "m")).text in
    (1 < length text)
    × Begins (codes "m") text
    × ((n index : ℕ)
        → get_elem? (0 ∷ 1 ∷ 2 ∷ []) n ≡ some index
        → Begins text (text_at three index))
unfolding decide_pager lesh.Pager.whole_clusters lesh.Pager.shared_text lesh.Pager.agreement
decide_pager-insert_example = decide_pager-insert next_byte three (codes "m") (omega arith) refl

pager_refilter-Occurs_example :
    ((n : ℕ) × (get_elem? (pager_refilter three).matching n ≡ some 2)
      → (one : PagerCandidate) × (get_elem? three.candidates 2 ≡ some one)
        × Occurs (codes "k") one.text)
    × ((one : PagerCandidate)
        → get_elem? three.candidates 2 ≡ some one
        → Occurs (codes "k") one.text
        → (n : ℕ) × (get_elem? (pager_refilter three).matching n ≡ some 2))
pager_refilter-Occurs_example = pager_refilter-Occurs three 2

-- Two bytes are a cluster, one where no more are left.
abbrev next_pair : Bytes → ℕ → ℕ
next_pair text at = min (at + 2) (length text)

abbrev narrowed : PagerState
narrowed = record three { filter = codes "make" }

pager_filter_pop-Starts_example :
    (n : ℕ) × Starts next_pair (codes "make") n
    × (n < 4)
    × (next_pair (codes "make") n ≡ 4)
    × (pager_filter_pop next_pair narrowed
        ≡ (pager_refilter (record narrowed { filter = take n (codes "make") }), true))
pager_filter_pop-Starts_example =
    pager_filter_pop-Starts next_pair narrowed (λ e. cc)
      (λ p h. (omega (arith, h), omega (arith, h)))
