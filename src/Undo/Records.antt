-- ===== src/Undo/Records.antt =====
-- One edit record, and the records of a step, of src/leshper/undo.h against the texts before and
-- after.
use lesh.Base.{
  ℕ, ◌+◌, ◌≤◌, ◌≡◌, refl, sym, ap, subst, ◌∙◌, true, Option, [], ◌∷◌, ◌++◌, Bytes, length,
  length-append, append_assoc, arith,
}
use lesh.Text.{replace}
use lesh.Text.Steps.{replace-append, replace_inside}
use lesh.Undo.{
  EditRecord, is_plain_insertion, end_after_insertion, UndoStep, extend, View, undo_record,
  undo_records, redo_records, edit_view,
}

-- The edit `e` takes the text `b` to `b'`.
abbrev pub Edits : Bytes → EditRecord → Bytes → Type 0
Edits b e b' =
    (pre : Bytes) × (post : Bytes) × (b ≡ pre ++ (e.removed ++ post))
    × (length pre ≡ e.at)
    × (b' ≡ pre ++ (e.inserted ++ post))

-- The records of a step, the last one first.
abbrev pub Runs : UndoStep → Bytes → Bytes → Type 0
Runs [] b b' = b ≡ b'
Runs (e ∷ es) b b' = (m : Bytes) × Runs es b m × Edits m e b'

Edits-undo :
    (b b' : Bytes) (e : EditRecord)
    → Edits b e b'
    → (replace b' e.at (end_after_insertion e) e.removed).0 ≡ b
Edits-undo b b' e (pre, post, was, at_pre, now) =
    rw (now, ← at_pre, was) (ap (λ r. r.0) (replace-append pre e.inserted post e.removed))

Edits-redo :
    (b b' : Bytes) (e : EditRecord)
    → Edits b e b'
    → (replace b e.at (e.at + length e.removed) e.inserted).0 ≡ b'
Edits-redo b b' e (pre, post, was, at_pre, now) =
    rw (now, ← at_pre, was) (ap (λ r. r.0) (replace-append pre e.removed post e.inserted))

pub undo_records-Runs :
    (es : UndoStep) (b : Bytes) (v : View) → Runs es b v.buffer → (undo_records es v).buffer ≡ b
unfolding undo_records
undo_records-Runs [] b v r = sym r
undo_records-Runs (e ∷ es) b v (m, r, ed) =
    undo_records-Runs es b (undo_record e v)
      (subst (Runs es b) (sym (Edits-undo m v.buffer e ed)) r)

pub redo_records-Runs :
    (es : UndoStep) (b' : Bytes) (v : View) → Runs es v.buffer b' → (redo_records es v).buffer ≡ b'
unfolding redo_records
redo_records-Runs [] b' v r = r
redo_records-Runs (e ∷ es) b' v (m, r, ed) = rw (redo_records-Runs es m v r) (Edits-redo m b' e ed)

append_injective :
    (xs zs : Bytes) {ys ws : Bytes}
    → length xs ≡ length zs
    → xs ++ ys ≡ zs ++ ws
    → (xs ≡ zs) × (ys ≡ ws)
append_injective [] [] l e = (refl, e)
append_injective [] (z ∷ zs) l e = absurd (omega arith)
append_injective (x ∷ xs) [] l e = absurd (omega arith)
append_injective (x ∷ xs) (z ∷ zs) {ys} {ws} l e =
    let tails : xs ++ ys ≡ zs ++ ws = cc in
    let (same, rest) = append_injective xs zs (omega arith) tails in (cc, rest)

plain-removed : (e : EditRecord) → is_plain_insertion e ≡ true → e.removed ≡ []
unfolding is_plain_insertion
plain-removed e h = ground arith

-- Two insertions, the second where the first one ends, are one insertion.
pub extend-Edits :
    (b m b' : Bytes) (previous edit : EditRecord)
    → is_plain_insertion previous ≡ true
    → is_plain_insertion edit ≡ true
    → end_after_insertion previous ≡ edit.at
    → Edits b previous m
    → Edits m edit b'
    → Edits b (extend previous edit) b'
extend-Edits b m b' previous edit p q at_end (pre, post, was, at_pre, now)
      (pre', post', was', at_pre', now') =
    let nothing = plain-removed edit q in
    let joined : (pre ++ previous.inserted) ++ post ≡ pre' ++ post' =
      append_assoc pre previous.inserted post
      ∙ sym now
      ∙ was'
      ∙ ap (λ r. pre' ++ (r ++ post')) nothing in
    let (same, rest) =
      append_injective (pre ++ previous.inserted) pre'
        (omega (arith, length-append pre previous.inserted)) joined in
    (pre, post, was, at_pre, rw (now', ← same, ← rest) (simp append_assoc))

-- The record of `apply_edit` says what happened to the text.
pub edit_view-Edits :
    (v : View) (from to : ℕ) (inserted : Bytes) (cursor : Option ℕ)
    → from ≤ length v.buffer
    → Edits v.buffer
        (edit_view v from to inserted cursor).0
        (edit_view v from to inserted cursor).1.buffer
unfolding edit_view
edit_view-Edits v from to inserted cursor h =
    let (pre, post, was, at_pre, now) = replace_inside v.buffer from to inserted h in
    (pre, post, was, at_pre, ap (λ r. r.0) now)
