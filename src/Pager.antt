-- ===== src/Pager.antt =====
-- src/leshper/pager.cpp with the state of src/leshper/state.h: completions on show. A pointer to a
-- candidate is its index; 16-bit numbers are below 2 ^ 16, and each cast to one is written out.
pub mod Show
pub mod Choose
pub mod Filter
pub mod Pop
pub mod Move
use lesh.Base.{
  ℕ, zero, suc, ◌+◌, ◌-◌, ◌*◌, ◌/◌, ◌%◌, ◌^◌, Bool, true, false, not, ◌&&◌, ◌||◌, Option, none,
  some, List, [], ◌∷◌, ◌++◌, Bytes, codes, same, find, get_elem?, take, drop, length, ltb, leb,
  ◌==◌, if◌then◌else◌, min, max,
}
use lesh.Base.Int.{ℤ, pos, negsuc, sub_ℕ}

pub data PagerKind : Type 0 where
  plain word directory executable symlink : PagerKind

pub record PagerCandidate : Type 0 where
  pub text : Bytes
  pub kind : PagerKind

pub record PagerState : Type 0 where
  pub candidates : List PagerCandidate
  pub matching : List ℕ
  pub filter : Bytes
  pub selected : ℕ
  pub scroll_row : ℕ
  pub open_now : Bool

abbrev pub has_marker : PagerKind → Bool
has_marker plain = false
has_marker word = false
has_marker directory = true
has_marker executable = true
has_marker symlink = true

abbrev pub pager_trailer : PagerKind → Bytes
pager_trailer plain = []
pager_trailer word = codes " "
pager_trailer directory = codes "/"
pager_trailer executable = codes " "
pager_trailer symlink = codes " "

abbrev pub pager_insertion : PagerCandidate → Bytes
pager_insertion one = one.text ++ pager_trailer one.kind

-- An index out of range has no text; `matching` holds none.
abbrev pub text_of : Option PagerCandidate → Bytes
text_of none = []
text_of (some one) = one.text

abbrev pub text_at : PagerState → ℕ → Bytes
text_at pager index = text_of (get_elem? pager.candidates index)

-- A cast to `uint16_t`.
abbrev pub u16 : ℕ → ℕ
u16 n = n % 65536

abbrev gutter : ℕ
gutter = 2

abbrev row_ceiling : ℕ
row_ceiling = 65534

abbrev pub clamp_u16 : ℕ → ℕ
clamp_u16 value = u16 (min value row_ceiling)

unfoldable pub pager_row_budget : ℕ → ℕ
pager_row_budget rows = if leb rows 1 then 0 else max 1 (min (rows / 2) (rows - 1))

pub record PagerGrid : Type 0 where
  pub columns : ℕ
  pub rows : ℕ
  pub visible_rows : ℕ
  pub column_width : ℕ
  pub entry_width : ℕ
  pub first_row : ℕ
  pub count : ℕ

abbrev pub no_grid : ℕ → PagerGrid
no_grid count = record {
  columns = 0;
  rows = 0;
  visible_rows = 0;
  column_width = 0;
  entry_width = 0;
  first_row = 0;
  count = count;
}

-- The first row on show, where `first` was, so that a row is on show.
unfoldable pub reveal_row : ℕ → ℕ → ℕ → ℕ
reveal_row first visible_rows row =
    if ltb row first
    then row
    else if leb (u16 (first + visible_rows)) row
    then u16 (row - visible_rows + 1)
    else first

-- `string_width` measures with generated tables.
module _ (string_width : Bytes → ℕ) where
  abbrev candidate_width : Option PagerCandidate → ℕ
  candidate_width none = 0
  candidate_width (some one) = string_width one.text + (if has_marker one.kind then 1 else 0)

  unfoldable pub widest_of : List PagerCandidate → ℕ → List ℕ → ℕ
  widest_of candidates widest [] = widest
  widest_of candidates widest (index ∷ matching) =
      widest_of candidates (max widest (candidate_width (get_elem? candidates index))) matching

  unfoldable pub measure_pager : PagerState → ℕ → ℕ → PagerGrid
  unfolding widest_of
  measure_pager pager columns max_rows =
      let count = length pager.matching in
      let widest = widest_of pager.candidates 1 pager.matching in
      let entry_width = u16 (min widest columns) in
      let column_width = u16 (entry_width + gutter) in
      let fit = (columns + gutter) / column_width in
      let grid_columns = u16 (min (max 1 fit) count) in
      let rows = clamp_u16 ((count + grid_columns - 1) / grid_columns) in
      let visible_rows = min rows max_rows in
      let furthest = u16 (rows - visible_rows) in
      let selected_row = clamp_u16 (min pager.selected (count - 1) / grid_columns) in
      if count == 0 || columns == 0 || max_rows == 0 then no_grid count else record {
        columns = grid_columns;
        rows = rows;
        visible_rows = visible_rows;
        column_width = column_width;
        entry_width = entry_width;
        first_row = reveal_row (min pager.scroll_row furthest) visible_rows selected_row;
        count = count;
      }

unfoldable pub pager_reveal : PagerState → PagerGrid → PagerState
pager_reveal pager grid =
    if grid.columns == 0 || grid.visible_rows == 0 || grid.count == 0
    then record pager { scroll_row = 0 }
    else record pager {
      scroll_row =
          reveal_row (min pager.scroll_row (u16 (grid.rows - grid.visible_rows))) grid.visible_rows
            (clamp_u16 (pager.selected / grid.columns));
    }

abbrev pub is_found : Option ℕ → Bool
is_found none = false
is_found (some at) = true

abbrev pub passes : Bytes → PagerCandidate → Bool
passes filter one = same filter [] || is_found (find filter one.text)

-- The indices, from `index` on, of the candidates that pass the filter.
unfoldable pub passing : Bytes → ℕ → List PagerCandidate → List ℕ
passing filter index [] = []
passing filter index (one ∷ candidates) =
    let later = passing filter (index + 1) candidates in
    if passes filter one then index ∷ later else later

-- Where an index stands first among the indices; 0 where it does not.
unfoldable pub place_of : ℕ → ℕ → List ℕ → ℕ
place_of was at [] = 0
place_of was at (index ∷ matching) =
    let later = place_of was (at + 1) matching in if index == was then at else later

abbrev pub selected_again : Option ℕ → List ℕ → ℕ
selected_again none matching = 0
selected_again (some was) matching = place_of was 0 matching

unfoldable pub pager_refilter : PagerState → PagerState
pager_refilter pager =
    let matching = passing pager.filter 0 pager.candidates in
    record pager {
      matching = matching;
      selected = selected_again (get_elem? pager.matching pager.selected) matching;
      scroll_row = if length matching == 0 then 0 else pager.scroll_row;
    }

-- `at %= count; if (at < 0) at += count;`, where the remainder has the sign of `at`.
abbrev pub wrap : ℤ → ℕ → ℕ
wrap (pos at) count = at % count
wrap (negsuc n) count = let r = suc n % count in if r == 0 then 0 else count - r

-- `selected + by`
abbrev pub add_ℤ : ℕ → ℤ → ℤ
add_ℤ selected (pos n) = pos (selected + n)
add_ℤ selected (negsuc n) = sub_ℕ selected (suc n)

unfoldable pub pager_move : PagerState → ℤ → PagerState
pager_move pager by = record pager {
  selected =
      if length pager.matching == 0
      then 0
      else wrap (add_ℤ pager.selected by) (length pager.matching);
}

abbrev candidate_of : List PagerCandidate → Option ℕ → Option PagerCandidate
candidate_of candidates none = none
candidate_of candidates (some index) = get_elem? candidates index

unfoldable pub pager_selected : PagerState → Option PagerCandidate
pager_selected pager = candidate_of pager.candidates (get_elem? pager.matching pager.selected)

-- The bytes on which two texts agree from their beginnings.
unfoldable pub agreement : Bytes → Bytes → Bytes
agreement [] one = []
agreement (c ∷ shared) [] = []
agreement (c ∷ shared) (d ∷ one) =
    let more = c ∷ agreement shared one in if c == d then more else []

-- The loop over the matching candidates.
unfoldable pub shared_text : PagerState → Bytes → List ℕ → Bytes
shared_text pager shared [] = shared
shared_text pager shared (index ∷ matching) =
    let agreed = agreement shared (text_at pager index) in
    let more = shared_text pager agreed matching in if same agreed [] then agreed else more

pub data DecisionKind : Type 0 where
  nothing insert open_pager : DecisionKind

pub record PagerDecision : Type 0 where
  pub what : DecisionKind
  pub text : Bytes

-- `next_boundary` segments with generated tables.
module _ (next_boundary : Bytes → ℕ → ℕ) where
  -- The loop that keeps whole clusters, on fuel.
  unfoldable pub whole_clusters : ℕ → Bytes → ℕ → ℕ → ℕ
  whole_clusters zero whole limit at = at
  whole_clusters (suc f) whole limit at =
      let next = next_boundary whole at in
      let further = whole_clusters f whole limit next in
      if leb (length whole) at then at else if ltb limit next then at else further

  abbrev pub prefix_of : PagerState → List ℕ → Bytes
  prefix_of pager [] = []
  prefix_of pager (front ∷ matching) =
      let whole = text_at pager front in
      let shared = shared_text pager whole (front ∷ matching) in
      take (whole_clusters (length whole) whole (length shared) 0) shared

  unfoldable pub pager_common_prefix : PagerState → Bytes
  unfolding whole_clusters
  pager_common_prefix pager = prefix_of pager pager.matching

  abbrev insertion_of : Option PagerCandidate → Bytes
  insertion_of none = []
  insertion_of (some one) = pager_insertion one

  abbrev pub decide_matching : PagerState → Bytes → List ℕ → PagerDecision
  decide_matching pager typed [] = record { what = nothing; text = [] }
  decide_matching pager typed (only ∷ []) = record {
    what = insert;
    text = insertion_of (get_elem? pager.candidates only);
  }
  decide_matching pager typed (front ∷ other ∷ matching) =
      let shared = prefix_of pager (front ∷ other ∷ matching) in
      if ltb (length typed) (length shared) && same (take (length typed) shared) typed
      then record { what = insert; text = shared }
      else record { what = open_pager; text = [] }

  unfoldable pub decide_pager : PagerState → Bytes → PagerDecision
  unfolding whole_clusters
  decide_pager pager typed = decide_matching pager typed pager.matching

  -- The loop that finds where the last cluster starts, on fuel.
  unfoldable pub last_start : ℕ → Bytes → ℕ → ℕ → ℕ
  last_start zero filter last at = last
  last_start (suc f) filter last at =
      let further = last_start f filter at (next_boundary filter at) in
      if leb (length filter) at then last else further

  unfoldable pub pager_filter_pop : PagerState → PagerState × Bool
  unfolding last_start
  pager_filter_pop pager =
      let last = last_start (length pager.filter) pager.filter 0 0 in
      if same pager.filter []
      then (pager, false)
      else (pager_refilter (record pager { filter = take last pager.filter }), true)
