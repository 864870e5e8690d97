-- ===== src/Undo.antt =====
-- src/leshper/undo.h, and `apply_edit` of src/leshper/editor.cpp, its one caller. A vector that
-- grows at its back is a list with the last entry first.
pub mod Records
pub mod History
pub mod Session
pub mod Typing
use lesh.Base.{
  ℕ, zero, suc, ◌+◌, ◌-◌, ◌%◌, ◌^◌, Bool, true, false, not, ◌&&◌, ◌||◌, Option, none, some, List,
  [], ◌∷◌, ◌++◌, Bytes, length, ltb, leb, ◌==◌, if◌then◌else◌,
}
use lesh.Text.{clamp, slice, replace}

pub record EditRecord : Type 0 where
  pub at : ℕ
  pub removed : Bytes
  pub inserted : Bytes
  pub cursor_before : ℕ
  pub cursor_after : ℕ
  pub anchor_before : ℕ
  pub anchor_after : ℕ
  pub selection_active_before : Bool
  pub selection_active_after : Bool

abbrev is_empty : Bytes → Bool
is_empty [] = true
is_empty (c ∷ s) = false

unfoldable pub is_plain_insertion : EditRecord → Bool
is_plain_insertion e = is_empty e.removed && not (is_empty e.inserted)

abbrev pub end_after_insertion : EditRecord → ℕ
end_after_insertion e = e.at + length e.inserted

-- `undo_step`, its last record first.
abbrev pub UndoStep : Type 0
UndoStep = List EditRecord

pub record UndoHistory : Type 0 where
  pub steps : List UndoStep
  pub redoable : List UndoStep
  pub open_step : UndoStep
  pub group_depth : ℕ
  pub coalescing : Bool

abbrev pub new_history : UndoHistory
new_history = record {
  steps = [];
  redoable = [];
  open_step = [];
  group_depth = 0;
  coalescing = false;
}

-- The record that takes up one more piece of typing.
abbrev pub extend : EditRecord → EditRecord → EditRecord
extend previous edit = record previous {
  inserted = previous.inserted ++ edit.inserted;
  cursor_after = edit.cursor_after;
  anchor_after = edit.anchor_after;
  selection_active_after = edit.selection_active_after;
}

-- The tests on the last step; `none` means that the edit is not taken up.
unfoldable pub coalesce_steps : EditRecord → List UndoStep → Option (List UndoStep)
coalesce_steps edit [] = none
coalesce_steps edit ([] ∷ steps) = none
coalesce_steps edit ((previous ∷ records) ∷ steps) =
    if not (is_plain_insertion previous) || not (end_after_insertion previous == edit.at)
    then none
    else some ((extend previous edit ∷ records) ∷ steps)

-- The rest of `record` where the edit was taken up, or not.
settle : UndoHistory → EditRecord → Option (List UndoStep) → UndoHistory
settle h edit none = record h {
  steps = (edit ∷ []) ∷ h.steps;
  coalescing = is_plain_insertion edit;
}
settle h edit (some steps) = record h { steps = steps }

-- `undo_history::record`; the word is taken.
unfoldable pub record_edit : UndoHistory → EditRecord → UndoHistory
unfolding settle
record_edit h edit =
    let cleared = record h { redoable = [] } in
    if ltb 0 h.group_depth
    then record cleared { open_step = edit ∷ h.open_step }
    else settle cleared edit
        (if h.coalescing && is_plain_insertion edit then coalesce_steps edit h.steps else none)

unfoldable pub begin_group : UndoHistory → UndoHistory
begin_group h = record h {
  open_step = if h.group_depth == 0 then [] else h.open_step;
  group_depth = h.group_depth + 1;
}

abbrev push_step : UndoStep → List UndoStep → List UndoStep
push_step [] steps = steps
push_step (e ∷ es) steps = (e ∷ es) ∷ steps

unfoldable pub end_group : UndoHistory → UndoHistory
end_group h =
    if h.group_depth == 0
    then h
    else if ltb 1 h.group_depth
    then record h { group_depth = h.group_depth - 1 }
    else record h { steps = push_step h.open_step h.steps; open_step = []; group_depth = 0 }

unfoldable pub break_coalescing : UndoHistory → UndoHistory
break_coalescing h = record h { coalescing = false }

-- What undo and redo are handed: the buffer, the cursor and the selection.
pub record View : Type 0 where
  pub buffer : Bytes
  pub cursor : ℕ
  pub anchor : ℕ
  pub selection_active : Bool

abbrev pub undo_record : EditRecord → View → View
undo_record e v = record {
  buffer = (replace v.buffer e.at (end_after_insertion e) e.removed).0;
  cursor = e.cursor_before;
  anchor = e.anchor_before;
  selection_active = e.selection_active_before;
}

abbrev pub redo_record : EditRecord → View → View
redo_record e v = record {
  buffer = (replace v.buffer e.at (e.at + length e.removed) e.inserted).0;
  cursor = e.cursor_after;
  anchor = e.anchor_after;
  selection_active = e.selection_active_after;
}

-- From the last record to the first.
unfoldable pub undo_records : UndoStep → View → View
undo_records [] v = v
undo_records (e ∷ es) v = undo_records es (undo_record e v)

-- From the first record to the last.
unfoldable pub redo_records : UndoStep → View → View
redo_records [] v = v
redo_records (e ∷ es) v = redo_record e (redo_records es v)

pop_undo : UndoHistory → View → List UndoStep → UndoHistory × View × Bool
pop_undo h v [] = (h, v, false)
pop_undo h v (step ∷ steps) = (
  record h { steps = steps; redoable = step ∷ h.redoable; coalescing = false },
  undo_records step v,
  true,
)

unfoldable pub undo : UndoHistory → View → UndoHistory × View × Bool
unfolding pop_undo
undo h v = pop_undo h v h.steps

pop_redo : UndoHistory → View → List UndoStep → UndoHistory × View × Bool
pop_redo h v [] = (h, v, false)
pop_redo h v (step ∷ later) = (
  record h { steps = step ∷ h.steps; redoable = later; coalescing = false },
  redo_records step v,
  true,
)

unfoldable pub redo : UndoHistory → View → UndoHistory × View × Bool
unfolding pop_redo
redo h v = pop_redo h v h.redoable

-- The part of the editor's state that an edit touches.
pub record Editor : Type 0 where
  pub view : View
  pub history : UndoHistory
  pub generation : ℕ

-- `adjust_anchor_for_edit`
unfoldable pub adjust_anchor : ℕ → ℕ → ℕ → ℕ → ℕ
adjust_anchor anchor first last inserted =
    if leb anchor first
    then anchor
    else if leb last anchor
    then anchor - (last - first) + inserted
    else first

abbrev cursor_or : Option ℕ → ℕ → ℕ
cursor_or none landed = landed
cursor_or (some c) landed = c

-- The record of an edit, and the view behind it.
unfoldable pub edit_view : View → ℕ → ℕ → Bytes → Option ℕ → EditRecord × View
edit_view v from to inserted cursor_after =
    let first = clamp v.buffer from in
    let last = if ltb (clamp v.buffer to) first then first else clamp v.buffer to in
    let (buffer, landed) = replace v.buffer from to inserted in
    let cursor = cursor_or cursor_after landed in
    let anchor = adjust_anchor v.anchor first last (length inserted) in
    (
      record {
        at = from;
        removed = slice v.buffer from to;
        inserted = inserted;
        cursor_before = v.cursor;
        cursor_after = cursor;
        anchor_before = v.anchor;
        anchor_after = anchor;
        selection_active_before = v.selection_active;
        selection_active_after = v.selection_active;
      },
      record {
        buffer = buffer;
        cursor = cursor;
        anchor = anchor;
        selection_active = v.selection_active;
      },
    )

unfoldable pub apply_edit : Editor → ℕ → ℕ → Bytes → Option ℕ → Editor
apply_edit ed from to inserted cursor_after =
    let (edit, view) = edit_view ed.view from to inserted cursor_after in
    record {
      view = view;
      history = record_edit ed.history edit;
      generation = (ed.generation + 1) % 2 ^ 64;
    }
