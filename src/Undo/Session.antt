-- ===== src/Undo/Session.antt =====
-- An editing session over src/leshper/undo.h: edits, groups, undo and redo in any order.
use lesh.Base.{ℕ, ◌≤◌, ◌≡◌, ◌≢◌, refl, sym, subst, Bool, true, Option, List, [], ◌∷◌, Bytes, length}
use lesh.Undo.{
  UndoStep, UndoHistory, new_history, begin_group, end_group, break_coalescing, View, undo_records,
  pop_undo, pop_redo, undo, redo, Editor, apply_edit,
}
use lesh.Undo.Records.{Runs, undo_records-Runs, redo_records-Runs, edit_view-Edits}
use lesh.Undo.History.{
  Past, Future, Consistent, record_edit-Consistent, begin_group-Consistent, end_group-Consistent,
  break_coalescing-Consistent,
}

pub data Command : Type 0 where
  edits : ℕ → ℕ → Bytes → Option ℕ → Command
  moves : ℕ → ℕ → Bool → Command
  begins ends breaks undoes redoes : Command

abbrev with_history : Editor → UndoHistory → Editor
with_history ed h = record ed { history = h }

abbrev restored : Editor → UndoHistory × View × Bool → Editor
restored ed (h, v, ok) = record ed { history = h; view = v }

unfoldable pub step : Editor → Command → Editor
step ed (edits from to inserted cursor) = apply_edit ed from to inserted cursor
step ed (moves cursor anchor active) = record ed {
  view = record {
    buffer = ed.view.buffer;
    cursor = cursor;
    anchor = anchor;
    selection_active = active;
  };
}
step ed begins = with_history ed (begin_group ed.history)
step ed ends = with_history ed (end_group ed.history)
step ed breaks = with_history ed (break_coalescing ed.history)
step ed undoes = restored ed (undo ed.history ed.view)
step ed redoes = restored ed (redo ed.history ed.view)

-- An edit starts inside the text, and no group is open at an undo or a redo.
abbrev pub Allowed : Editor → Command → Type 0
Allowed ed (edits from to inserted cursor) = from ≤ length ed.view.buffer
Allowed ed undoes = ed.history.group_depth ≡ 0
Allowed ed redoes = ed.history.group_depth ≡ 0
Allowed ed _ = Unit

abbrev pub IsConsistent : Editor → Type 0
IsConsistent ed = Consistent ed.history ed.view.buffer

closed-Past : (h : UndoHistory) (b : Bytes) → Consistent h b → h.group_depth ≡ 0 → Past h.steps b
closed-Past h b c d =
    subst (Past h.steps) (subst (λ s. Runs s c.grouped b) (c.closed d) c.in_group) c.past

pop_undo-Consistent :
    (h : UndoHistory) (v : View) (steps : List UndoStep)
    → h.steps ≡ steps
    → Consistent h v.buffer
    → h.group_depth ≡ 0
    → Past steps v.buffer
    → Consistent (pop_undo h v steps).0 (pop_undo h v steps).1.buffer
unfolding pop_undo
pop_undo-Consistent h v [] e c d p = c
pop_undo-Consistent h v (s ∷ steps) e c d (m, p, r) =
    let back = undo_records-Runs s m v r in
    rw back (record {
      grouped = m;
      past = p;
      in_group = subst (λ s. Runs s m m) (sym (c.closed d)) refl;
      closed = c.closed;
      future = (v.buffer, r, c.future);
    })

pop_redo-Consistent :
    (h : UndoHistory) (v : View) (later : List UndoStep)
    → Consistent h v.buffer
    → h.group_depth ≡ 0
    → Future later v.buffer
    → Consistent (pop_redo h v later).0 (pop_redo h v later).1.buffer
unfolding pop_redo
pop_redo-Consistent h v [] c d f = c
pop_redo-Consistent h v (s ∷ later) c d (m, r, f) =
    let forth = redo_records-Runs s m v r in
    rw forth (record {
      grouped = m;
      past = (v.buffer, closed-Past h v.buffer c d, r);
      in_group = subst (λ s. Runs s m m) (sym (c.closed d)) refl;
      closed = c.closed;
      future = f;
    })

-- Each call keeps the history and the text together: undoing all that is recorded, step by step,
-- goes through the texts that the editor held, and so does redoing what was undone.
pub step-IsConsistent :
    (ed : Editor) (c : Command) → Allowed ed c → IsConsistent ed → IsConsistent (step ed c)
unfolding step apply_edit undo redo
step-IsConsistent ed (edits from to inserted cursor) a k =
    record_edit-Consistent ed.history _ ed.view.buffer _ k
      (edit_view-Edits ed.view from to inserted cursor a)
step-IsConsistent ed (moves cursor anchor active) a k = k
step-IsConsistent ed begins a k = begin_group-Consistent ed.history ed.view.buffer k
step-IsConsistent ed ends a k = end_group-Consistent ed.history ed.view.buffer k
step-IsConsistent ed breaks a k = break_coalescing-Consistent ed.history ed.view.buffer k
step-IsConsistent ed undoes a k =
    pop_undo-Consistent ed.history ed.view ed.history.steps refl k a
      (closed-Past ed.history ed.view.buffer k a)
step-IsConsistent ed redoes a k =
    pop_redo-Consistent ed.history ed.view ed.history.redoable k a k.future

pub data Reach (start : Editor) : Editor → Type 0 where
  here : Reach start start
  next : {ed : Editor} → Reach start ed → (c : Command) → Allowed ed c → Reach start (step ed c)

-- So it holds after any session that starts with an empty history.
pub Reach-IsConsistent :
    {start ed : Editor} → start.history ≡ new_history → Reach start ed → IsConsistent ed
Reach-IsConsistent {start} e here =
    subst (λ h. Consistent h start.view.buffer) (sym e)
      (record {
        grouped = start.view.buffer;
        past = tt;
        in_group = refl;
        closed = λ _. refl;
        future = tt;
      })
Reach-IsConsistent e (next {ed} r c a) = step-IsConsistent ed c a (Reach-IsConsistent e r)

redo-pop_undo :
    (h : UndoHistory) (v : View) (steps : List UndoStep)
    → Past steps v.buffer
    → steps ≢ []
    → let back = pop_undo h v steps in
      ((redo back.0 back.1).2 ≡ true)
      × ((redo back.0 back.1).1.buffer ≡ v.buffer)
      × ((redo back.0 back.1).0.steps ≡ steps)
      × ((redo back.0 back.1).0.redoable ≡ h.redoable)
unfolding pop_undo redo pop_redo
redo-pop_undo h v [] p n = absurd (n refl)
redo-pop_undo h v (s ∷ steps) (m, p, r) n = (
  refl,
  redo_records-Runs s v.buffer (undo_records s v)
      (subst (λ b. Runs s b v.buffer) (sym (undo_records-Runs s m v r)) r),
  refl,
  refl,
)

-- After any session, with no group open and something to undo, a redo takes an undo back: the
-- text, the steps and what was still to redo are as before.
pub redo-undo :
    {start : Editor} (ed : Editor)
    → start.history ≡ new_history
    → Reach start ed
    → ed.history.group_depth ≡ 0
    → ed.history.steps ≢ []
    → let back = undo ed.history ed.view in
      ((redo back.0 back.1).2 ≡ true)
      × ((redo back.0 back.1).1.buffer ≡ ed.view.buffer)
      × ((redo back.0 back.1).0.steps ≡ ed.history.steps)
      × ((redo back.0 back.1).0.redoable ≡ ed.history.redoable)
unfolding undo
redo-undo ed e r d n =
    redo-pop_undo ed.history ed.view ed.history.steps
      (closed-Past ed.history ed.view.buffer (Reach-IsConsistent e r) d) n
