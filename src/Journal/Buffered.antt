-- ===== src/Journal/Buffered.antt =====
-- Calls of an `EditJournal` whose records all stay in the write buffer.
use mlsdisk.Base.{
  Bool-cases, List, Option, Outcome, [], arith, inl, inr, length, length-append, none, ok, refl,
  same, some, subst, sym, ℕ, ◌++◌, ◌+◌, ◌==◌, ◌>>=◌, ◌∙◌, ◌∷◌, ◌≡◌, ◌≤◌,
}
use mlsdisk.Edit.{CompactPolicy, Edit, apply_group, group_is_empty}
use mlsdisk.Journal.{Chain, EditJournal, Postcard, Snapshots, abort_group, add, commit_group, edit}
use mlsdisk.Journal.Kept.{write-room}
use mlsdisk.Journal.Run.{
  Call, Shows, View, abort_edits, add_edit, call_journal, call_journal-Shows, commit_edits,
  flush_edits, group_of, run_journal, view_call, view_of,
}

module _ {E S C M P : Type 0} (ed : Edit E S) (pc : Postcard E) (ch : Chain C) (sn : Snapshots M S)
    (cp : CompactPolicy P E) where
  -- What the records of the groups that some calls commit take in the write buffer, of which
  -- `used` bytes are filled, is within its capacity; a flush is not among the calls.
  abbrev pub FitsBuffer : ℕ → ℕ → View E S → List (Call E) → Type 0
  FitsBuffer capacity used v [] = Unit {0}
  FitsBuffer capacity used v (add_edit e ∷ calls) =
      FitsBuffer capacity used (view_call ed v (add_edit e)) calls
  FitsBuffer capacity used v (abort_edits ∷ calls) =
      FitsBuffer capacity used (view_call ed v abort_edits) calls
  FitsBuffer capacity used v (flush_edits ∷ calls) = ⊥
  FitsBuffer capacity used v (commit_edits ∷ calls) =
      (used + length (pc.to_bytes (edit v.group)) ≤ capacity)
      × FitsBuffer capacity (used + length (pc.to_bytes (edit v.group)))
          (view_call ed v commit_edits) calls

  -- A call that returns, and leaves the chain and the snapshots as they are.
  record Buffers (j : EditJournal E S C M P) (capacity used : ℕ)
      (o : Outcome (EditJournal E S C M P)) : Type 0 where
    after : EditJournal E S C M P
    returns : o ≡ ok after
    same_chain : after.journal_chain ≡ j.journal_chain
    same_snapshots : after.snapshots ≡ j.snapshots
    same_capacity : after.write_buf.capacity ≡ capacity
    filled : length after.write_buf.bytes ≤ used

  commit-Buffers :
      (j : EditJournal E S C M P) (capacity used : ℕ) (o : Option (List E))
      → j.write_buf.capacity ≡ capacity
      → length j.write_buf.bytes ≤ used
      → let group = group_of ed pc ch sn cp (record j { curr_edit_group = o }) in
        let more = used + length (pc.to_bytes (edit group)) in
        more ≤ capacity
        → Buffers j capacity more (commit_group ed pc ch sn cp (record j { curr_edit_group = o }))
  unfolding commit_group group_is_empty
  commit-Buffers j capacity used none same small room = record {
    after = record j { curr_edit_group = none };
    returns = refl;
    same_chain = refl;
    same_snapshots = refl;
    same_capacity = same;
    filled = omega (arith, small);
  }
  commit-Buffers j capacity used (some group) same small room =
      elim (Bool-cases (length group == 0)) [
        | inl e ↦ record {
          after = record j { curr_edit_group = none };
          returns = rw e refl;
          same_chain = refl;
          same_snapshots = refl;
          same_capacity = same;
          filled = omega (arith, small);
        }
        | inr e ↦ record {
          after = record j {
            state = apply_group ed group j.state;
            compaction_policy = cp.on_commit_edits j.compaction_policy group;
            curr_edit_group = none;
            write_buf = record (j.write_buf) {
              bytes = j.write_buf.bytes ++ pc.to_bytes (edit group);
            };
          };
          returns =
              rw
                (
                  e,
                  write-room ed pc ch sn cp (record j { curr_edit_group = none }) (edit group)
                      (omega (arith, same, small, room)),
                )
                refl;
          same_chain = refl;
          same_snapshots = refl;
          same_capacity = same;
          filled = omega (arith, small, length-append j.write_buf.bytes (pc.to_bytes (edit group)));
        }
      ]

  abbrev Returns : EditJournal E S C M P → List (Call E) → Type 0
  Returns j calls =
      (j' : EditJournal E S C M P) × (run_journal ed pc ch sn cp j calls ≡ ok j')
      × (j'.journal_chain ≡ j.journal_chain)
      × (j'.snapshots ≡ j.snapshots)

  bind-Returns :
      (j : EditJournal E S C M P) (capacity used : ℕ) (o : Outcome (EditJournal E S C M P))
      (calls : List (Call E))
      → Buffers j capacity used o
      → ((k : EditJournal E S C M P)
          → o ≡ ok k
          → k.write_buf.capacity ≡ capacity
          → length k.write_buf.bytes ≤ used
          → Returns k calls)
      → (j' : EditJournal E S C M P) × ((o >>= λ k. run_journal ed pc ch sn cp k calls) ≡ ok j')
        × (j'.journal_chain ≡ j.journal_chain)
        × (j'.snapshots ≡ j.snapshots)
  bind-Returns j capacity used o calls b next =
      let (j', runs, chain, snapshots) = next b.after b.returns b.same_capacity b.filled in
      (j', rw b.returns runs, chain ∙ b.same_chain, snapshots ∙ b.same_snapshots)

  next_view :
      (j k : EditJournal E S C M P) (call : Call E)
      → call_journal ed pc ch sn cp j call ≡ ok k
      → view_of ed pc ch sn cp k ≡ view_call ed (view_of ed pc ch sn cp j) call
  next_view j k call e =
      subst (Shows ed pc ch sn cp (view_call ed (view_of ed pc ch sn cp j) call)) e
        (call_journal-Shows ed pc ch sn cp j call)

  returns :
      (j : EditJournal E S C M P) (calls : List (Call E)) (capacity used : ℕ)
      → j.write_buf.capacity ≡ capacity
      → length j.write_buf.bytes ≤ used
      → FitsBuffer capacity used (view_of ed pc ch sn cp j) calls
      → Returns j calls
  unfolding run_journal call_journal
  returns j [] capacity used same small fits = (j, refl, refl, refl)
  returns j (flush_edits ∷ calls) capacity used same small fits = absurd fits
  returns j (add_edit e ∷ calls) capacity used same small fits =
      bind-Returns j capacity used (call_journal ed pc ch sn cp j (add_edit e)) calls
        (record {
          after = add ed pc ch sn cp j e;
          returns = refl;
          same_chain = unfold add in refl;
          same_snapshots = unfold add in refl;
          same_capacity = unfold add in same;
          filled = unfold add in small;
        })
        (λ k done c s. returns k calls capacity used c s (
          subst (λ v. FitsBuffer capacity used v calls) (sym (next_view j k (add_edit e) done))
            fits))
  returns j (abort_edits ∷ calls) capacity used same small fits =
      bind-Returns j capacity used (call_journal ed pc ch sn cp j abort_edits) calls
        (record {
          after = abort_group ed pc ch sn cp j;
          returns = refl;
          same_chain = unfold abort_group in refl;
          same_snapshots = unfold abort_group in refl;
          same_capacity = unfold abort_group in same;
          filled = unfold abort_group in small;
        })
        (λ k done c s. returns k calls capacity used c s (
          subst (λ v. FitsBuffer capacity used v calls) (sym (next_view j k abort_edits done))
            fits))
  returns j (commit_edits ∷ calls) capacity used same small fits =
      let more : ℕ = used + length (pc.to_bytes (edit (group_of ed pc ch sn cp j))) in
      bind-Returns j capacity more (call_journal ed pc ch sn cp j commit_edits) calls
        (commit-Buffers j capacity used j.curr_edit_group same small fits.0)
        (λ k done c s. returns k calls capacity more c s (
          subst (λ v. FitsBuffer capacity more v calls) (sym (next_view j k commit_edits done))
            fits.1))
