-- ===== src/Journal/Kept.antt =====
-- The state and the current group of an `EditJournal` while its write buffer is moved to the chain
-- and the journal is compacted, whatever its chain, its snapshots and its policy do.
use mlsdisk.Base.{
  ==_iff, Bool-cases, Outcome, Outcome-cases, [], err, if◌then◌else◌, inl, inr, leb, length,
  length_zero, le→leb, ltb, ok, panic, refl, sub_usize, ℕ, ◌++◌, ◌+◌, ◌-◌, ◌==◌, ◌>>=◌, ◌≡◌, ◌≤◌,
  ◌⊎◌,
}
use mlsdisk.Edit.{CompactPolicy, Edit}
use mlsdisk.Journal.{
  Chain, EditJournal, Postcard, Record, Snapshots, WriteBuf, append_write_buf_to_journal, clear_buf,
  compact, expect, trim_chain, version, write, write_again, write_record,
}

module _ {E S C M P : Type 0} (ed : Edit E S) (pc : Postcard E) (ch : Chain C) (sn : Snapshots M S)
    (cp : CompactPolicy P E) where
  -- A call that keeps the state and the current group where it returns; an error is
  -- one of the policy.
  abbrev pub Keeps : EditJournal E S C M P → Outcome (EditJournal E S C M P) → Type 0
  Keeps j (ok j') = (j'.state ≡ j.state) × (j'.curr_edit_group ≡ j.curr_edit_group)
  Keeps j (err e) = (p : P) × (n : ℕ) × (cp.done_compact p n ≡ err e)
  Keeps j panic = Unit {0}

  -- The same of a call that may return an error, and gives a journal with a number.
  abbrev KeepsWith : EditJournal E S C M P → Outcome (EditJournal E S C M P × ℕ) → Type 0
  KeepsWith j (ok (j', n)) =
      (j'.state ≡ j.state)
      × (j'.curr_edit_group ≡ j.curr_edit_group)
      × (j.write_buf.bytes ≡ [] → j'.write_buf.bytes ≡ [])
  KeepsWith j (err e) = Unit {0}
  KeepsWith j panic = Unit {0}

  then_compacted :
      (j : EditJournal E S C M P) (chain : C) (o : Outcome ℕ)
      → KeepsWith j (o >>= λ compacted. ok (record j { journal_chain = chain }, compacted))
  then_compacted j chain (ok n) = (refl, refl, λ e. e)
  then_compacted j chain (err e) = tt
  then_compacted j chain panic = tt

  then_trimmed :
      (j : EditJournal E S C M P) (old : ℕ) (o : Outcome C)
      → KeepsWith j (
          o >>= λ chain. sub_usize old (ch.block_end chain - ch.block_start chain) >>= λ compacted.
          ok (record j { journal_chain = chain }, compacted))
  then_trimmed j old (ok chain) = then_compacted j chain _
  then_trimmed j old (err e) = tt
  then_trimmed j old panic = tt

  trim_chain-KeepsWith : (j : EditJournal E S C M P) → KeepsWith j (trim_chain ed pc ch sn cp j)
  unfolding trim_chain
  trim_chain-KeepsWith j =
      then_trimmed j (ch.block_end j.journal_chain - ch.block_start j.journal_chain) (
        if ltb 1 (ch.block_end j.journal_chain - ch.block_start j.journal_chain)
        then (sub_usize (ch.block_end j.journal_chain) 1 >>= λ before.
            ch.trim j.journal_chain before)
        else ok j.journal_chain)

  -- The parts of `compact`, from the append to the chain, the write to the buffer and `persist` on.
  then_appended :
      (j : EditJournal E S C M P) (snapshots : M) (write_buf : WriteBuf) (o : Outcome C)
      → KeepsWith j (
          o >>= λ chain. trim_chain ed pc ch sn cp (record j {
            journal_chain = chain;
            snapshots = snapshots;
            compaction_policy = cp.on_append_journal j.compaction_policy 1;
            write_buf = clear_buf write_buf;
          }))
  then_appended j snapshots write_buf (ok chain) =
      of_trimmed (trim_chain ed pc ch sn cp next) (trim_chain-KeepsWith next)
    where
      next : EditJournal E S C M P
      next = record j {
        journal_chain = chain;
        snapshots = snapshots;
        compaction_policy = cp.on_append_journal j.compaction_policy 1;
        write_buf = clear_buf write_buf;
      }

      of_trimmed : (o : Outcome (EditJournal E S C M P × ℕ)) → KeepsWith next o → KeepsWith j o
      of_trimmed (ok (j', n)) (state, group, empty) = (state, group, λ e. empty refl)
      of_trimmed (err e) h = tt
      of_trimmed panic h = tt
  then_appended j snapshots write_buf (err e) = tt
  then_appended j snapshots write_buf panic = tt

  compact-KeepsWith : (j : EditJournal E S C M P) → KeepsWith j (compact ed pc ch sn cp j)
  unfolding compact
  compact-KeepsWith j =
      elim (Bool-cases (leb (ch.block_end j.journal_chain) (ch.block_start j.journal_chain))) [
        | inl e ↦ rw e (refl, refl, λ b. b)
        | inr e ↦
            elim (Outcome-cases (
              sn.persist j.snapshots
                (record { state = j.state; recover_from = ch.block_end j.journal_chain }))) [
                  | inr (inl (f, p)) ↦ rw (e, p) tt
                  | inr (inr p) ↦ rw (e, p) tt
                  | inl (m, p) ↦
                      elim (Outcome-cases
                        (write_record pc j.write_buf (version (sn.latest_mac m)))) [
                          | inr (inl (f, w)) ↦ rw (e, p, w) tt
                          | inr (inr w) ↦ rw (e, p, w) tt
                          | inl (write_buf, w) ↦
                              rw (e, p, w)
                                (then_appended j m write_buf
                                  (ch.append j.journal_chain write_buf.bytes))
                        ]
                ]
      ]

  -- The same of a call that empties the write buffer, after which `Done` holds.
  abbrev pub Empties : EditJournal E S C M P → Type 0 → Outcome (EditJournal E S C M P) → Type 0
  Empties j Done (ok j') =
      (j'.state ≡ j.state)
      × (j'.curr_edit_group ≡ j.curr_edit_group)
      × (j'.write_buf.bytes ≡ [])
      × Done
  Empties j Done (err e) = (p : P) × (n : ℕ) × (cp.done_compact p n ≡ err e)
  Empties j Done panic = Unit {0}

  -- The part of `append_write_buf_to_journal` from the compaction on.
  then_done :
      (j : EditJournal E S C M P) (Done : Type 0) (o : Outcome (EditJournal E S C M P × ℕ))
      → j.write_buf.bytes ≡ []
      → Done
      → KeepsWith j o
      → Empties j Done (
          expect ed pc ch sn cp o >>= λ r. cp.done_compact (r.0).compaction_policy r.1 >>= λ policy.
          ok (record (r.0) { compaction_policy = policy }))
  then_done j Done (ok (j', n)) empty d (state, group, kept) =
      elim (Outcome-cases (cp.done_compact j'.compaction_policy n)) [
        | inl (p, e) ↦ rw e (state, group, kept empty, d)
        | inr (inl (f, e)) ↦ rw e (j'.compaction_policy, n, e)
        | inr (inr e) ↦ rw e tt
      ]
  then_done j Done (err e) empty d h = tt
  then_done j Done panic empty d h = tt

  -- What was in the write buffer, if anything, was appended to the chain.
  abbrev pub Appended : EditJournal E S C M P → Type 0
  Appended j =
      (j.write_buf.bytes ≡ []) ⊎ ((c : C) × (ch.append j.journal_chain j.write_buf.bytes ≡ ok c))

  -- Moving the write buffer to the chain keeps the state and the current group, also where the
  -- journal is compacted; failures of the chain and of the snapshots are panics.
  pub append_write_buf-Empties :
      (j : EditJournal E S C M P)
      → Empties j (Appended j) (append_write_buf_to_journal ed pc ch sn cp j)
  unfolding append_write_buf_to_journal
  append_write_buf-Empties j = elim (Bool-cases (length j.write_buf.bytes == 0)) [
    | inl e ↦
        let empty = length_zero j.write_buf.bytes ((==_iff (length j.write_buf.bytes) 0).0 e) in
        rw e (refl, refl, empty, inl empty)
    | inr e ↦ elim (Outcome-cases (ch.append j.journal_chain j.write_buf.bytes)) [
      | inr (inl (f, a)) ↦ rw (e, a) tt
      | inr (inr a) ↦ rw (e, a) tt
      | inl (c, a) ↦
          elim (Bool-cases (cp.should_compact (cp.on_append_journal j.compaction_policy 1))) [
            | inr s ↦ rw (e, a, s) (refl, refl, refl, inr (c, refl))
            | inl s ↦
                let appended : EditJournal E S C M P = record j {
                  journal_chain = c;
                  compaction_policy = cp.on_append_journal j.compaction_policy 1;
                  write_buf = clear_buf j.write_buf;
                } in
                rw (e, a, s)
                  (then_done appended _ (compact ed pc ch sn cp appended) refl (inr (c, refl))
                    (compact-KeepsWith appended))
          ]
    ]
  ]

  pub Empties-Keeps :
      (j : EditJournal E S C M P) (Done : Type 0) (o : Outcome (EditJournal E S C M P))
      → Empties j Done o
      → Keeps j o
  Empties-Keeps j Done (ok j') (state, group, empty, d) = (state, group)
  Empties-Keeps j Done (err e) h = h
  Empties-Keeps j Done panic h = tt

  pub append_write_buf-Keeps :
      (j : EditJournal E S C M P) → Keeps j (append_write_buf_to_journal ed pc ch sn cp j)
  append_write_buf-Keeps j =
      Empties-Keeps j (Appended j) (append_write_buf_to_journal ed pc ch sn cp j)
        (append_write_buf-Empties j)

  -- What a flush gives.
  abbrev pub Flushes : EditJournal E S C M P → Outcome (EditJournal E S C M P) → Type 0
  Flushes j (ok j') =
      (j'.state ≡ j.state)
      × (j'.curr_edit_group ≡ j.curr_edit_group)
      × (j'.write_buf.bytes ≡ [])
      × Appended j
      × ((c : C) × (ch.flush c ≡ ok j'.journal_chain))
  Flushes j (err e) =
      ((c : C) × (ch.flush c ≡ err e)) ⊎ ((p : P) × (n : ℕ) × (cp.done_compact p n ≡ err e))
  Flushes j panic = Unit {0}

  -- The same of a write of a record.
  pub write-Keeps : (j : EditJournal E S C M P) (r : Record E) → Keeps j (write ed pc ch sn cp j r)
  unfolding write write_again
  write-Keeps j r = elim (Outcome-cases (write_record pc j.write_buf r)) [
    | inl (wb, e) ↦ rw (write, e) (refl, refl)
    | inr (inr e) ↦ rw (write, e) tt
    | inr (inl (f, e)) ↦
        rw (write, e)
          (again (append_write_buf_to_journal ed pc ch sn cp j) (append_write_buf-Keeps j))
  ]
    where
      again_at :
          (j' : EditJournal E S C M P)
          → (j'.state ≡ j.state) × (j'.curr_edit_group ≡ j.curr_edit_group)
          → Keeps j (write_again ed pc ch sn cp j' r)
      again_at j' h = elim (Outcome-cases (write_record pc j'.write_buf r)) [
        | inl (wb, e) ↦ rw (write_again, e) h
        | inr (inl (f, e)) ↦ rw (write_again, e) tt
        | inr (inr e) ↦ rw (write_again, e) tt
      ]

      again :
          (o : Outcome (EditJournal E S C M P))
          → Keeps j o
          → Keeps j (o >>= λ j'. write_again ed pc ch sn cp j' r)
      again (ok j') h = again_at j' h
      again (err e) h = h
      again panic h = tt

  -- A record for which the write buffer has space is written there, and nothing else is changed.
  pub write-room :
      (j : EditJournal E S C M P) (r : Record E)
      → length j.write_buf.bytes + length (pc.to_bytes r) ≤ j.write_buf.capacity
      → write ed pc ch sn cp j r
        ≡ ok (record j {
          write_buf = record (j.write_buf) { bytes = j.write_buf.bytes ++ pc.to_bytes r };
        })
  unfolding write write_record
  write-room j r room =
      rw
        (
          write,
          le→leb (length j.write_buf.bytes + length (pc.to_bytes r)) j.write_buf.capacity room,
        )
        refl
