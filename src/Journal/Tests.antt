-- ===== src/Journal/Tests.antt =====
-- The theorems of the journal at one on a list of blocks whose edits add a number to a number.
use mlsdisk.Base.{List, [], arith, ok, refl, some, suc, ℕ, ◌++◌, ◌∷◌, ◌≡◌}
use mlsdisk.Edit.{
  append_used, apply_group, default_compact, is_used_up, policy_from_meta, release_blocks,
}
use mlsdisk.Journal.{
  EditJournal, Snapshot, Snapshots, append_write_buf_to_journal, bytes_eq, compact, edit,
  flush_journal, new_write_buf, read_records, records_in, records_of, recover_journal, trim_chain,
  version, write_record,
}
use mlsdisk.Journal.Groups.{behind_version}
use mlsdisk.Journal.Records.{ReadsBack, read_records_enough, write_all, write_all-records_of}
use mlsdisk.Journal.Recovery.{Recovers, recover_journal_lem, state_behind}
use mlsdisk.Journal.Run.{
  Shows, abort_edits, add_edit, commit_edits, flush_edits, run_journal, run_journal_lem, view_call,
  view_run,
}
use mlsdisk.Journal.Sample.{adding, kept, numbers, record_bytes}

-- Snapshots with a number for the MAC of the latest one.
abbrev counted : Snapshots (Snapshot ℕ × ℕ) ℕ
counted = record {
  persist = λ m s. ok (s, suc m.1);
  latest_mac = λ m. m.1 ∷ [];
  latest_snapshot = λ m. m.0;
  recover = ok;
}

-- A journal with the groups 5 and 7, 1 on disk, the group 2 in its write buffer and the group 4 to
-- come.
abbrev two_blocks : List (List ℕ)
two_blocks =
    record_bytes (version (3 ∷ []))
    ∷ (record_bytes (edit (5 ∷ [])) ++ record_bytes (edit (7 ∷ 1 ∷ [])))
    ∷ []

abbrev j17 : {P : Type 0} → P → EditJournal ℕ ℕ (List (List ℕ)) (Snapshot ℕ × ℕ) P
j17 p = record {
  state = 25;
  journal_chain = two_blocks;
  snapshots = (record { state = 10; recover_from = 0 }, 3);
  compaction_policy = p;
  curr_edit_group = some (4 ∷ []);
  write_buf = record { bytes = record_bytes (edit (2 ∷ [])); capacity = 12 };
}

read_records_enough_example :
    read_records numbers 30 (record_bytes (edit (5 ∷ [])) ++ (1 ∷ []))
    ≡ records_of numbers (record_bytes (edit (5 ∷ [])) ++ (1 ∷ []))
read_records_enough_example =
    read_records_enough numbers 30 (record_bytes (edit (5 ∷ [])) ++ (1 ∷ [])) (omega arith)

write_all-records_of_example :
    ReadsBack numbers 12
      (version (3 ∷ []) ∷ edit (5 ∷ 2 ∷ []) ∷ [])
      (write_all numbers (new_write_buf 12) (version (3 ∷ []) ∷ edit (5 ∷ 2 ∷ []) ∷ []))
write_all-records_of_example =
    write_all-records_of numbers 12 (version (3 ∷ []) ∷ edit (5 ∷ 2 ∷ []) ∷ [])

recover_journal_lem_example :
    Recovers adding numbers kept counted default_compact two_blocks 12
      (policy_from_meta 3)
      (ok (record { state = 10; recover_from = 0 }, 3))
      (recover_journal adding numbers kept counted default_compact two_blocks
        (record { state = 10; recover_from = 0 }, 3)
        12
        (policy_from_meta 3))
recover_journal_lem_example =
    recover_journal_lem adding numbers kept counted default_compact two_blocks
      (record { state = 10; recover_from = 0 }, 3) 12 (policy_from_meta 3)

-- The groups behind the version are applied; with the MAC of another snapshot none is.
recovers :
    (state_behind adding (3 ∷ []) (behind_version (3 ∷ []) (records_in numbers two_blocks)) 10 ≡ 23)
    × (state_behind adding (4 ∷ []) (behind_version (4 ∷ []) (records_in numbers two_blocks)) 10
        ≡ 10)
unfolding records_in read_records apply_group bytes_eq
recovers = (refl, refl)

run_journal_lem_example :
    Shows adding numbers kept counted default_compact
      (record { seen = 32; group = 8 ∷ [] })
      (run_journal adding numbers kept counted default_compact
        (j17 (policy_from_meta 1))
        (add_edit 3 ∷ commit_edits ∷ add_edit 9 ∷ abort_edits ∷ flush_edits ∷ add_edit 8 ∷ []))
unfolding view_call view_run apply_group
run_journal_lem_example =
    run_journal_lem adding numbers kept counted default_compact (j17 (policy_from_meta 1))
      (add_edit 3 ∷ commit_edits ∷ add_edit 9 ∷ abort_edits ∷ flush_edits ∷ add_edit 8 ∷ [])

-- It returns, with a compaction.
flushes :
    flush_journal adding numbers kept counted default_compact (j17 (policy_from_meta 1))
    ≡ ok (record {
      state = 25;
      journal_chain =
          record_bytes (version (3 ∷ []))
          ∷ (record_bytes (edit (5 ∷ [])) ++ record_bytes (edit (7 ∷ 1 ∷ [])))
          ∷ record_bytes (edit (2 ∷ []))
          ∷ record_bytes (version (4 ∷ []))
          ∷ [];
      snapshots = (record { state = 25; recover_from = 3 }, 4);
      compaction_policy = record { used_blocks = 2; total_blocks = 1 };
      curr_edit_group = some (4 ∷ []);
      write_buf = record { bytes = []; capacity = 12 };
    })
unfolding flush_journal append_write_buf_to_journal compact trim_chain write_record append_used
    is_used_up release_blocks
flushes = refl
