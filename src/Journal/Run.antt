-- ===== src/Journal/Run.antt =====
-- Calls of an `EditJournal`, one after the other, against a state with the group of edits to come,
-- whatever its chain, its snapshots and its policy do.
use mlsdisk.Base.{
  ==_iff, Bool-cases, List, Option, Outcome, Outcome-cases, [], ap, ap₂, err, inl, inr, length,
  length_zero, none, ok, panic, refl, some, subst, sym, ℕ, ◌++◌, ◌==◌, ◌>>=◌, ◌∷◌, ◌≡◌, ◌⊎◌,
}
use mlsdisk.Edit.{CompactPolicy, Edit, apply_group, clear_group, group_is_empty, push_edit}
use mlsdisk.Journal.{
  Chain, EditJournal, Postcard, Snapshots, abort_group, add, append_write_buf_to_journal,
  commit_group, edit, flush_journal, write,
}
use mlsdisk.Journal.Kept.{Keeps, append_write_buf-Keeps, write-Keeps}

-- The public methods of a journal.
pub data Call (E : Type 0) : Type 0 where
  add_edit : E → Call E
  commit_edits : Call E
  abort_edits : Call E
  flush_edits : Call E

-- What a client sees: the state, and the edits since the last commit.
pub record View (E S : Type 0) : Type 0 where
  pub seen : S
  pub group : List E

-- The view after a call.
unfoldable pub view_call : {E S : Type 0} → Edit E S → View E S → Call E → View E S
view_call ed v (add_edit e) = record v { group = v.group ++ (e ∷ []) }
view_call ed v commit_edits = record { seen = apply_group ed v.group v.seen; group = [] }
view_call ed v abort_edits = record v { group = [] }
view_call ed v flush_edits = v

unfoldable pub view_run : {E S : Type 0} → Edit E S → View E S → List (Call E) → View E S
view_run ed v [] = v
view_run ed v (call ∷ calls) = view_run ed (view_call ed v call) calls

module _ {E S C M P : Type 0} (ed : Edit E S) (pc : Postcard E) (ch : Chain C) (sn : Snapshots M S)
    (cp : CompactPolicy P E) where
  unfoldable pub call_journal : EditJournal E S C M P → Call E → Outcome (EditJournal E S C M P)
  call_journal j (add_edit e) = ok (add ed pc ch sn cp j e)
  call_journal j commit_edits = commit_group ed pc ch sn cp j
  call_journal j abort_edits = ok (abort_group ed pc ch sn cp j)
  call_journal j flush_edits = flush_journal ed pc ch sn cp j

  unfoldable pub run_journal :
      EditJournal E S C M P → List (Call E) → Outcome (EditJournal E S C M P)
  run_journal j [] = ok j
  run_journal j (call ∷ calls) = call_journal j call >>= λ j'. run_journal j' calls

  -- The group that a commit takes.
  abbrev pub group_of : EditJournal E S C M P → List E
  group_of j = elim j.curr_edit_group [ none ↦ [] | some group ↦ group ]

  abbrev pub view_of : EditJournal E S C M P → View E S
  view_of j = record { seen = j.state; group = group_of j }

  -- A journal with a view, or an error of the flush of a chain or of the policy, or a panic.
  abbrev pub Shows : View E S → Outcome (EditJournal E S C M P) → Type 0
  Shows v (ok j) = view_of j ≡ v
  Shows v (err e) =
      ((c : C) × (ch.flush c ≡ err e)) ⊎ ((p : P) × (n : ℕ) × (cp.done_compact p n ≡ err e))
  Shows v panic = Unit {0}

  flushed_Shows :
      (j : EditJournal E S C M P) (o : Outcome (EditJournal E S C M P))
      → Keeps ed pc ch sn cp j o
      → Shows (view_of j) (
          o >>= λ j'.
          ch.flush j'.journal_chain >>= λ chain. ok (record j' { journal_chain = chain }))
  flushed_Shows j (ok j') (state, group) = elim (Outcome-cases (ch.flush j'.journal_chain)) [
    | inl (c, e) ↦
        rw e (ap₂ (λ s g. view_of (record j { state = s; curr_edit_group = g })) state group)
    | inr (inl (f, e)) ↦ rw e (inl (j'.journal_chain, e))
    | inr (inr e) ↦ rw e tt
  ]
  flushed_Shows j (err e) h = inr h
  flushed_Shows j panic h = tt

  committed_Shows :
      (j : EditJournal E S C M P) (group : List E) (o : Outcome (EditJournal E S C M P))
      → Keeps ed pc ch sn cp (record j { curr_edit_group = none }) o
      → Shows
          (record { seen = apply_group ed group j.state; group = [] })
          (o >>= λ written. ok (record written {
            state = apply_group ed group written.state;
            compaction_policy = cp.on_commit_edits written.compaction_policy group;
          }))
  committed_Shows j group (ok w) (state, none_left) =
      ap₂ (λ s g. view_of (record j { state = apply_group ed group s; curr_edit_group = g })) state
        none_left
  committed_Shows j group (err e) h = inr h
  committed_Shows j group panic h = tt

  commit-Shows :
      (j : EditJournal E S C M P) (o : Option (List E))
      → Shows
          (view_call ed (view_of (record j { curr_edit_group = o })) commit_edits)
          (commit_group ed pc ch sn cp (record j { curr_edit_group = o }))
  unfolding commit_group view_call group_is_empty apply_group
  commit-Shows j none = refl
  commit-Shows j (some group) = elim (Bool-cases (length group == 0)) [
    | inl e ↦ rw e (
        ap (λ g. record { seen = apply_group ed g j.state; group = [] })
          (sym (length_zero group ((==_iff (length group) 0).0 e))))
    | inr e ↦ rw e (
        committed_Shows j group
          (write ed pc ch sn cp (record j { curr_edit_group = none }) (edit group))
          (write-Keeps ed pc ch sn cp (record j { curr_edit_group = none }) (edit group)))
  ]

  pub call_journal-Shows :
      (j : EditJournal E S C M P) (call : Call E)
      → Shows (view_call ed (view_of j) call) (call_journal j call)
  unfolding view_call call_journal add abort_group push_edit clear_group flush_journal
  call_journal-Shows j (add_edit e) = by_group j.curr_edit_group
    where
      by_group :
          (o : Option (List E))
          → Shows
              (view_call ed (view_of (record j { curr_edit_group = o })) (add_edit e))
              (call_journal (record j { curr_edit_group = o }) (add_edit e))
      by_group none = refl
      by_group (some g) = refl
  call_journal-Shows j abort_edits = by_group j.curr_edit_group
    where
      by_group :
          (o : Option (List E))
          → Shows
              (view_call ed (view_of (record j { curr_edit_group = o })) abort_edits)
              (call_journal (record j { curr_edit_group = o }) abort_edits)
      by_group none = refl
      by_group (some g) = refl
  call_journal-Shows j commit_edits = commit-Shows j j.curr_edit_group
  call_journal-Shows j flush_edits =
      flushed_Shows j (append_write_buf_to_journal ed pc ch sn cp j)
        (append_write_buf-Keeps ed pc ch sn cp j)

  bind-Shows :
      (v v' : View E S) (o : Outcome (EditJournal E S C M P))
      (next : EditJournal E S C M P → Outcome (EditJournal E S C M P))
      → Shows v o
      → ((j : EditJournal E S C M P) → view_of j ≡ v → Shows v' (next j))
      → Shows v' (o >>= next)
  bind-Shows v v' (ok j) next e f = f j e
  bind-Shows v v' (err e) next c f = c
  bind-Shows v v' panic next c f = tt

  -- Any calls on any journal, whatever its chain, its snapshots and its policy do: if they all
  -- return, also through compactions, the state and the current group are those of the abstract
  -- state, on which a commit applies the group, an abort drops it and a flush does nothing. An
  -- error is one of the flush of a chain or of the policy; all other failures are panics.
  pub run_journal_lem :
      (j : EditJournal E S C M P) (calls : List (Call E))
      → Shows (view_run ed (view_of j) calls) (run_journal j calls)
  unfolding run_journal view_run
  run_journal_lem j [] = refl
  run_journal_lem j (call ∷ calls) =
      bind-Shows (view_call ed (view_of j) call) (view_run ed (view_call ed (view_of j) call) calls)
        (call_journal j call) (λ j'. run_journal j' calls) (call_journal-Shows j call)
        (λ j' e.
          subst (λ v. Shows (view_run ed v calls) (run_journal j' calls)) e
            (run_journal_lem j' calls))
