-- ===== src/Undo/History.antt =====
-- The undo history of src/leshper/undo.h against the text: whatever is done, its steps lead back
-- from the text that the editor holds.
use lesh.Base.{
  ◌≡◌, ◌⊎◌, inl, inr, refl, sym, subst, ◌∙◌, true, false, ◌&&◌, Option, none, some, List, [], ◌∷◌,
  Bytes, ltb, ◌==◌, if◌then◌else◌, arith, Bool-cases,
}
use lesh.Undo.{
  EditRecord, is_plain_insertion, end_after_insertion, UndoStep, UndoHistory, extend,
  coalesce_steps, settle, record_edit, begin_group, push_step, end_group, break_coalescing,
}
use lesh.Undo.Records.{Edits, Runs, extend-Edits}

-- The steps, the last one first, lead up to the text `b`.
abbrev pub Past : List UndoStep → Bytes → Type 0
Past [] b = Unit
Past (s ∷ steps) b = (m : Bytes) × Past steps m × Runs s m b

-- The steps that were undone lead on from the text `b`.
abbrev pub Future : List UndoStep → Bytes → Type 0
Future [] b = Unit
Future (s ∷ steps) b = (m : Bytes) × Runs s b m × Future steps m

pub record Consistent (h : UndoHistory) (b : Bytes) : Type 0 where
  pub grouped : Bytes
  pub past : Past h.steps grouped
  pub in_group : Runs h.open_step grouped b
  pub closed : h.group_depth ≡ 0 → h.open_step ≡ []
  pub future : Future h.redoable b

coalesce_steps-Past :
    (edit : EditRecord) (steps steps' : List UndoStep) (b b' : Bytes)
    → is_plain_insertion edit ≡ true
    → coalesce_steps edit steps ≡ some steps'
    → Past steps b
    → Edits b edit b'
    → Past steps' b'
unfolding coalesce_steps
coalesce_steps-Past edit [] steps' b b' q e p ed = cc
coalesce_steps-Past edit ([] ∷ steps) steps' b b' q e p ed = cc
coalesce_steps-Past edit ((previous ∷ records) ∷ steps) steps' b b' q e (m, p, (m', r, ed')) ed =
    let plain : is_plain_insertion previous ≡ true = ground arith in
    let at_end : end_after_insertion previous ≡ edit.at = ground arith in
    let taken : (extend previous edit ∷ records) ∷ steps ≡ steps' = ground arith in
    subst (λ s. Past s b') taken
      (m, p, (m', r, extend-Edits m' b b' previous edit plain q at_end ed' ed))

settle-Past :
    (h : UndoHistory) (edit : EditRecord) (o : Option (List UndoStep)) (b b' : Bytes)
    → Past h.steps b
    → Edits b edit b'
    → ((steps : List UndoStep) → o ≡ some steps → Past steps b')
    → Past (settle h edit o).steps b'
unfolding settle
settle-Past h edit none b b' p ed more = (b, p, (b, refl, ed))
settle-Past h edit (some steps) b b' p ed more = more steps refl

settle-rest :
    (h : UndoHistory) (edit : EditRecord) (o : Option (List UndoStep))
    → ((settle h edit o).open_step ≡ h.open_step)
      × ((settle h edit o).redoable ≡ h.redoable)
      × ((settle h edit o).group_depth ≡ h.group_depth)
unfolding settle
settle-rest h edit none = (refl, refl, refl)
settle-rest h edit (some steps) = (refl, refl, refl)

abbrev taken_up : UndoHistory → EditRecord → Option (List UndoStep)
taken_up h edit =
    if h.coalescing && is_plain_insertion edit then coalesce_steps edit h.steps else none

taken_up-Past :
    (h : UndoHistory) (edit : EditRecord) (b b' : Bytes) (steps : List UndoStep)
    → Past h.steps b
    → Edits b edit b'
    → taken_up h edit ≡ some steps
    → Past steps b'
taken_up-Past h edit b b' steps p ed e =
    elim (Bool-cases (h.coalescing && is_plain_insertion edit)) [
      | inl on ↦ coalesce_steps-Past edit h.steps steps b b' (ground arith) (rw on at e) p ed
      | inr off ↦ absurd (cc (rw off at e))
    ]

pub record_edit-Consistent :
    (h : UndoHistory) (edit : EditRecord) (b b' : Bytes)
    → Consistent h b
    → Edits b edit b'
    → Consistent (record_edit h edit) b'
unfolding record_edit
record_edit-Consistent h edit b b' c ed = elim (Bool-cases (ltb 0 h.group_depth)) [
  | inl grouped ↦ rw grouped (record {
    grouped = c.grouped;
    past = c.past;
    in_group = (b, c.in_group, ed);
    closed = λ e. absurd (ground arith);
    future = tt;
  })
  | inr single ↦
      let depth : h.group_depth ≡ 0 = ground arith in
      let none_open = c.closed depth in
      let same : c.grouped ≡ b = subst (λ s. Runs s c.grouped b) none_open c.in_group in
      let cleared = record h { redoable = [] } in
      let rest = settle-rest cleared edit (taken_up h edit) in
      let past' = subst (Past h.steps) same c.past in
      rw single (record {
        grouped = b';
        past =
            settle-Past cleared edit (taken_up h edit) b b' past' ed
              (λ s. taken_up-Past h edit b b' s past' ed);
        in_group = subst (λ s. Runs s b' b') (sym (rest.0 ∙ none_open)) refl;
        closed = λ _. rest.0 ∙ none_open;
        future = subst (λ s. Future s b') (sym rest.1) tt;
      })
]

pub begin_group-Consistent :
    (h : UndoHistory) (b : Bytes) → Consistent h b → Consistent (begin_group h) b
unfolding begin_group
begin_group-Consistent h b c = record {
  grouped = c.grouped;
  past = c.past;
  in_group = subst (λ s. Runs s c.grouped b) (same (Bool-cases (h.group_depth == 0))) c.in_group;
  closed = λ e. absurd (omega arith);
  future = c.future;
}
  where
    same :
        ((h.group_depth == 0) ≡ true) ⊎ ((h.group_depth == 0) ≡ false)
        → h.open_step ≡ (if h.group_depth == 0 then [] else h.open_step)
    same (inl e) = rw e (c.closed (ground arith))
    same (inr e) = rw e

push_step-Past :
    (s : UndoStep) (steps : List UndoStep) (m b : Bytes)
    → Past steps m
    → Runs s m b
    → Past (push_step s steps) b
push_step-Past [] steps m b p r = subst (Past steps) r p
push_step-Past (e ∷ es) steps m b p r = (m, p, r)

pub end_group-Consistent :
    (h : UndoHistory) (b : Bytes) → Consistent h b → Consistent (end_group h) b
unfolding end_group
end_group-Consistent h b c = elim (Bool-cases (h.group_depth == 0)) [
  | inl e ↦ rw e c
  | inr e ↦ elim (Bool-cases (ltb 1 h.group_depth)) [
    | inl nested ↦
        rw (e, nested)
          (record {
            grouped = c.grouped;
            past = c.past;
            in_group = c.in_group;
            closed = λ k. absurd (ground arith);
            future = c.future;
          })
    | inr outer ↦
        rw (e, outer)
          (record {
            grouped = b;
            past = push_step-Past h.open_step h.steps c.grouped b c.past c.in_group;
            in_group = refl;
            closed = λ k. refl;
            future = c.future;
          })
  ]
]

pub break_coalescing-Consistent :
    (h : UndoHistory) (b : Bytes) → Consistent h b → Consistent (break_coalescing h) b
unfolding break_coalescing
break_coalescing-Consistent h b c = record {
  grouped = c.grouped;
  past = c.past;
  in_group = c.in_group;
  closed = c.closed;
  future = c.future;
}
