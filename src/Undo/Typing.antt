-- ===== src/Undo/Typing.antt =====
-- A run of plain typing over src/leshper/undo.h: each piece of text is inserted at the cursor.
use lesh.Base.{
  ℕ, ◌≤◌, ◌≡◌, ◌≢◌, refl, sym, ap, ◌∙◌, true, false, not, ◌&&◌, none, List, [], ◌∷◌, ◌++◌, Bytes,
  All, length, length-append, arith,
}
use lesh.Text.{slice}
use lesh.Text.Steps.{replace_inside}
use lesh.Undo.{
  EditRecord, is_plain_insertion, end_after_insertion, UndoStep, UndoHistory, extend,
  coalesce_steps, record_edit, View, is_empty, pop_undo, undo_records, undo, Editor, edit_view,
  apply_edit,
}
use lesh.Undo.Records.{Edits, undo_records-Runs, extend-Edits, edit_view-Edits}

pub type_all : Editor → List Bytes → Editor
type_all ed [] = ed
type_all ed (s ∷ ss) = type_all (apply_edit ed ed.view.cursor ed.view.cursor s none) ss

slice_self : (text : Bytes) (n : ℕ) → slice text n n ≡ []
unfolding slice
slice_self text n = ground arith

-- What one insertion at the cursor is.
record Inserts (v : View) (s : Bytes) (e : EditRecord) (v' : View) : Type 0 where
  plain : is_plain_insertion e ≡ true
  starts : e.at ≡ v.cursor
  ends : end_after_insertion e ≡ v'.cursor
  fits : v'.cursor ≤ length v'.buffer
  taken : Edits v.buffer e v'.buffer
  cursor_kept : e.cursor_before ≡ v.cursor
  anchor_kept : e.anchor_before ≡ v.anchor
  active_kept : e.selection_active_before ≡ v.selection_active

edit_view-Inserts :
    (v : View) (s : Bytes)
    → v.cursor ≤ length v.buffer
    → s ≢ []
    → Inserts v s (edit_view v v.cursor v.cursor s none).0 (edit_view v v.cursor v.cursor s none).1
unfolding edit_view
edit_view-Inserts v s h n =
    let (pre, post, was, at_pre, now) = replace_inside v.buffer v.cursor v.cursor s h in
    record {
      plain = plain s n;
      starts = refl;
      ends = sym (ap (λ r. r.1) now);
      fits =
          rw (ap (λ r. r.0) now, ap (λ r. r.1) now)
            (omega (arith, length-append pre (s ++ post), length-append s post));
      taken = edit_view-Edits v v.cursor v.cursor s none h;
      cursor_kept = refl;
      anchor_kept = refl;
      active_kept = refl;
    }
  where
    plain :
        (s : Bytes) → s ≢ [] → is_plain_insertion (edit_view v v.cursor v.cursor s none).0 ≡ true
    plain [] n = absurd (n refl)
    plain (c ∷ s) n = unfold is_plain_insertion in rw (slice_self v.buffer v.cursor)

-- All that was typed since `before` is one record, which the next piece extends.
record Typed (before : Editor) (ed : Editor) : Type 0 where
  edit : EditRecord
  steps_are : ed.history.steps ≡ (edit ∷ []) ∷ before.history.steps
  coalesces : ed.history.coalescing ≡ true
  ungrouped : ed.history.group_depth ≡ 0
  plain : is_plain_insertion edit ≡ true
  ends : end_after_insertion edit ≡ ed.view.cursor
  fits : ed.view.cursor ≤ length ed.view.buffer
  taken : Edits before.view.buffer edit ed.view.buffer
  cursor_kept : edit.cursor_before ≡ before.view.cursor
  anchor_kept : edit.anchor_before ≡ before.view.anchor
  active_kept : edit.selection_active_before ≡ before.view.selection_active

record_edit_first :
    (h : UndoHistory) (e : EditRecord)
    → h.group_depth ≡ 0
    → h.coalescing ≡ false
    → is_plain_insertion e ≡ true
    → record_edit h e ≡ record h { steps = (e ∷ []) ∷ h.steps; redoable = []; coalescing = true }
unfolding record_edit
record_edit_first h e d c p = ground arith

record_edit_next :
    (h : UndoHistory) (previous e : EditRecord) (steps : List UndoStep)
    → h.group_depth ≡ 0
    → h.coalescing ≡ true
    → h.steps ≡ (previous ∷ []) ∷ steps
    → is_plain_insertion previous ≡ true
    → is_plain_insertion e ≡ true
    → end_after_insertion previous ≡ e.at
    → record_edit h e ≡ record h { steps = (extend previous e ∷ []) ∷ steps; redoable = [] }
unfolding record_edit coalesce_steps
record_edit_next h previous e steps d c s p q at_end = ground arith

extend-plain :
    (previous e : EditRecord)
    → is_plain_insertion previous ≡ true
    → is_plain_insertion (extend previous e) ≡ true
unfolding is_plain_insertion
extend-plain previous e h = go previous.removed previous.inserted h
  where
    go :
        (r i : Bytes)
        → (is_empty r && not (is_empty i)) ≡ true
        → (is_empty r && not (is_empty (i ++ e.inserted))) ≡ true
    go [] [] h = cc
    go [] (x ∷ i) h = refl
    go (x ∷ r) i h = cc

first-Typed :
    (ed : Editor) (s : Bytes)
    → ed.history.group_depth ≡ 0
    → ed.history.coalescing ≡ false
    → ed.view.cursor ≤ length ed.view.buffer
    → s ≢ []
    → Typed ed (apply_edit ed ed.view.cursor ed.view.cursor s none)
unfolding apply_edit
first-Typed ed s d c h n =
    let i = edit_view-Inserts ed.view s h n in
    let e : EditRecord = (edit_view ed.view ed.view.cursor ed.view.cursor s none).0 in
    rw (record_edit_first ed.history e d c i.plain) (record {
      edit = e;
      steps_are = refl;
      coalesces = refl;
      ungrouped = d;
      plain = i.plain;
      ends = i.ends;
      fits = i.fits;
      taken = i.taken;
      cursor_kept = i.cursor_kept;
      anchor_kept = i.anchor_kept;
      active_kept = i.active_kept;
    })

next-Typed :
    (before ed : Editor) (s : Bytes)
    → s ≢ []
    → Typed before ed
    → Typed before (apply_edit ed ed.view.cursor ed.view.cursor s none)
unfolding apply_edit
next-Typed before ed s n t =
    let i = edit_view-Inserts ed.view s t.fits n in
    let e : EditRecord = (edit_view ed.view ed.view.cursor ed.view.cursor s none).0 in
    let v : View = (edit_view ed.view ed.view.cursor ed.view.cursor s none).1 in
    let meets : end_after_insertion t.edit ≡ e.at = t.ends ∙ sym i.starts in
    let longer = length-append t.edit.inserted e.inserted in
    rw
      (record_edit_next ed.history t.edit e before.history.steps t.ungrouped t.coalesces t.steps_are
        t.plain i.plain meets)
      (record {
        edit = extend t.edit e;
        steps_are = refl;
        coalesces = t.coalesces;
        ungrouped = t.ungrouped;
        plain = extend-plain t.edit e t.plain;
        ends = omega (arith, longer, i.ends, meets);
        fits = i.fits;
        taken =
            extend-Edits before.view.buffer ed.view.buffer v.buffer t.edit e t.plain i.plain meets
              t.taken i.taken;
        cursor_kept = t.cursor_kept;
        anchor_kept = t.anchor_kept;
        active_kept = t.active_kept;
      })

type_all-Typed :
    (before : Editor) (ed : Editor) (ss : List Bytes)
    → All (λ s. s ≢ []) ss
    → Typed before ed
    → Typed before (type_all ed ss)
unfolding type_all
type_all-Typed before ed [] h t = t
type_all-Typed before ed (s ∷ ss) h t =
    type_all-Typed before (apply_edit ed ed.view.cursor ed.view.cursor s none) ss h.1
      (next-Typed before ed s h.0 t)

Typed-undo : (before ed : Editor) → Typed before ed → (undo ed.history ed.view).1 ≡ before.view
unfolding undo
Typed-undo before ed t =
    let back =
      undo_records-Runs (t.edit ∷ []) before.view.buffer ed.view
        (before.view.buffer, refl, t.taken) in
    rw (t.steps_are) (unfold undo_records pop_undo in ground (arith, back))

-- However long a run of typing is, one undo takes back the whole of it: text, cursor and
-- selection are those from before its first piece.
pub undo-type_all :
    (ed : Editor) (s : Bytes) (ss : List Bytes)
    → ed.history.group_depth ≡ 0
    → ed.history.coalescing ≡ false
    → ed.view.cursor ≤ length ed.view.buffer
    → All (λ t. t ≢ []) (s ∷ ss)
    → let typed = type_all ed (s ∷ ss) in (undo typed.history typed.view).1 ≡ ed.view
unfolding type_all
undo-type_all ed s ss d c h n =
    Typed-undo ed _ (type_all-Typed ed _ ss n.1 (first-Typed ed s d c h n.0))
