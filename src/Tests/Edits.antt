-- ===== src/Tests/Edits.antt =====
-- Sessions with src/leshper/text.h, undo.h and kill_store.cpp.
use lesh.KillStore.{KillEntry, put, get}
use lesh.KillStore.Lookup.{IsDistinct, get-put, put-IsDistinct}
use lesh.Base.{
  List, some, ◌≤◌, ◌<◌, ◌+◌, ◌≡◌, ◌≢◌, refl, true, false, none, [], ◌∷◌, ◌++◌, Bytes, codes, length,
  arith,
}
use lesh.Text.{slice, replace, next_position, previous_position, is_boundary}
use lesh.Text.Steps.{previous_position-next_position, replace-slice}
use lesh.Undo.{
  new_history, record_edit, coalesce_steps, is_plain_insertion, undo_records, redo_records, undo,
  redo, Editor, edit_view, adjust_anchor, apply_edit,
}
use lesh.Undo.Session.{
  edits, undoes, redoes, step, IsConsistent, Reach, here, next, step-IsConsistent,
  Reach-IsConsistent, redo-undo,
}
use lesh.Undo.Typing.{type_all, undo-type_all}

-- `né`, with the two bytes of the second letter, and the cursor at the end.
abbrev accented : Bytes
accented = 110 ∷ 195 ∷ 169 ∷ 120 ∷ []

abbrev blank : Editor
blank = record {
  view = record { buffer = accented; cursor = 4; anchor = 0; selection_active = false };
  history = new_history;
  generation = 0;
}

abbrev edited : Editor
edited = step (step blank (edits 1 3 (codes "e") none)) (edits 2 2 (codes "!") none)

edits_run :
    (edited.view.buffer ≡ codes "ne!x")
    × ((step edited undoes).view.buffer ≡ codes "nex")
    × ((step (step edited undoes) undoes).view.buffer ≡ accented)
    × ((step (step edited undoes) redoes).view.buffer ≡ codes "ne!x")
unfolding step apply_edit edit_view replace slice adjust_anchor record_edit coalesce_steps
    is_plain_insertion undo redo undo_records redo_records
edits_run = (refl, refl, refl, refl)

positions_run :
    (next_position accented 1 ≡ 3)
    × (previous_position accented 3 ≡ 1)
    × (is_boundary accented 2 ≡ false)
unfolding next_position previous_position is_boundary
positions_run = (refl, refl, refl)

previous_position-next_position_example :
    (1 < next_position accented 1)
    × (next_position accented 1 ≤ 4)
    × (previous_position accented (next_position accented 1) ≡ 1)
unfolding is_boundary
previous_position-next_position_example =
    previous_position-next_position accented 1 (omega arith) refl

replace-slice_example :
    (pre : Bytes) × (post : Bytes) × (accented ≡ pre ++ (slice accented 1 3 ++ post))
    × (length pre ≡ 1)
    × (replace accented 1 3 (codes "e") ≡ (pre ++ (codes "e" ++ post), length pre + 1))
replace-slice_example = replace-slice accented 1 3 (codes "e")

blank-IsConsistent : IsConsistent blank
blank-IsConsistent = Reach-IsConsistent {start = blank} refl here

step-IsConsistent_example : IsConsistent (step blank (edits 1 3 (codes "e") none))
step-IsConsistent_example =
    step-IsConsistent blank (edits 1 3 (codes "e") none) (omega arith) blank-IsConsistent

edited-Reach : Reach blank edited
unfolding step apply_edit edit_view replace slice adjust_anchor record_edit coalesce_steps
    is_plain_insertion
edited-Reach =
    next (next here (edits 1 3 (codes "e") none) (omega arith)) (edits 2 2 (codes "!") none)
      (omega arith)

edited_depth : edited.history.group_depth ≡ 0
unfolding step apply_edit edit_view replace slice adjust_anchor record_edit coalesce_steps
    is_plain_insertion
edited_depth = refl

edited_steps : edited.history.steps ≢ []
unfolding step apply_edit edit_view replace slice adjust_anchor record_edit coalesce_steps
    is_plain_insertion
edited_steps = λ e. cc

redo-undo_example :
    let back = undo edited.history edited.view in
    ((redo back.0 back.1).2 ≡ true)
    × ((redo back.0 back.1).1.buffer ≡ edited.view.buffer)
    × ((redo back.0 back.1).0.steps ≡ edited.history.steps)
    × ((redo back.0 back.1).0.redoable ≡ edited.history.redoable)
redo-undo_example = redo-undo edited refl edited-Reach edited_depth edited_steps

undo-type_all_example :
    let typed = type_all blank (codes "l" ∷ codes "s" ∷ codes " -l" ∷ []) in
    (undo typed.history typed.view).1 ≡ blank.view
undo-type_all_example =
    undo-type_all blank (codes "l") (codes "s" ∷ codes " -l" ∷ []) refl refl (omega arith)
      ((λ e. cc), ((λ e. cc), ((λ e. cc), tt)))

-- One register, for `a`.
abbrev registers : List KillEntry
registers = record { key = codes "a"; text = codes "ls"; flags = 0 } ∷ []

get-put_example :
    (get (put registers (codes "b") (codes "cd") 1) (codes "b")
      ≡ some (record { key = codes "b"; text = codes "cd"; flags = 1 }))
    × (codes "a" ≢ codes "b"
        → get (put registers (codes "b") (codes "cd") 1) (codes "a") ≡ get registers (codes "a"))
get-put_example = get-put registers (codes "b") (codes "cd") (codes "a") 1

put-IsDistinct_example : IsDistinct (put registers (codes "b") (codes "cd") 1)
put-IsDistinct_example = put-IsDistinct registers (codes "b") (codes "cd") 1 (tt, tt)
