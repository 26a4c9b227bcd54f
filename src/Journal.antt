-- ===== src/Journal.antt =====
-- The journal of edits to a state, core/src/layers/2-edit/journal.rs. The chain of blocks and the
-- snapshots that a journal stands on are interfaces; postcard, which turns records into bytes, is
-- a package outside the repository. A MAC is the list of its bytes.
pub mod Records
pub mod Groups
pub mod Recovery
pub mod Kept
pub mod Run
pub mod Buffered
pub mod Sample
mod Tests
use mlsdisk.Base.{
  Bool, Errno, List, Option, Outcome, [], err, false, if◌then◌else◌, leb, length, ltb, none, ok,
  panic, some, sub_usize, suc, true, zero, ℕ, ◌&&◌, ◌++◌, ◌+◌, ◌-◌, ◌<◌, ◌==◌, ◌>>=◌, ◌>>◌, ◌∷◌,
  ◌≡◌,
}
use mlsdisk.Edit.{
  CompactPolicy, Edit, apply_group, clear_group, group_is_empty, new_group, push_edit,
}

-- `enum Record`
pub data Record (E : Type 0) : Type 0 where
  version : List ℕ → Record E
  edit : List E → Record E

-- `postcard::to_slice` and `take_from_bytes`: what was written is read back, and a record has at
-- least one byte.
pub record Postcard (E : Type 0) : Type 0 where
  pub to_bytes : Record E → List ℕ
  pub take_from_bytes : List ℕ → Option (Record E × List ℕ)
  pub take-to_bytes :
      (r : Record E) (rest : List ℕ) → take_from_bytes (to_bytes r ++ rest) ≡ some (r, rest)
  pub take_shorter :
      (bytes : List ℕ) (r : Record E) (left : List ℕ)
      → take_from_bytes bytes ≡ some (r, left)
      → length left < length bytes

-- `WriteBuf`: its bytes up to the cursor, and the capacity.
pub record WriteBuf : Type 0 where
  pub bytes : List ℕ
  pub capacity : ℕ

abbrev pub new_write_buf : ℕ → WriteBuf
new_write_buf capacity = record { bytes = []; capacity = capacity }

abbrev pub clear_buf : WriteBuf → WriteBuf
clear_buf wb = record wb { bytes = [] }

-- `Snapshot`
pub record Snapshot (S : Type 0) : Type 0 where
  pub state : S
  pub recover_from : ℕ

-- `CryptoChain` over a ring of blocks, as a journal uses it. `recover` is the chain that is opened
-- after a recovery from a block on, and the payloads of the blocks that it found.
pub record Chain (C : Type 0) : Type 0 where
  pub append : C → List ℕ → Outcome C
  pub block_start : C → ℕ
  pub block_end : C → ℕ
  pub trim : C → ℕ → Outcome C
  pub flush : C → Outcome C
  pub recover : C → ℕ → C × List (List ℕ)

-- `SnapshotManager`, as a journal uses it.
pub record Snapshots (M S : Type 0) : Type 0 where
  pub persist : M → Snapshot S → Outcome M
  pub latest_mac : M → List ℕ
  pub latest_snapshot : M → Snapshot S
  pub recover : M → Outcome M

pub record EditJournal (E S C M P : Type 0) : Type 0 where
  pub state : S
  pub journal_chain : C
  pub snapshots : M
  pub compaction_policy : P
  pub curr_edit_group : Option (List E)
  pub write_buf : WriteBuf

-- `as_bytes() == as_bytes()`
unfoldable pub bytes_eq : List ℕ → List ℕ → Bool
bytes_eq [] [] = true
bytes_eq [] (y ∷ ys) = false
bytes_eq (x ∷ xs) [] = false
bytes_eq (x ∷ xs) (y ∷ ys) = x == y && bytes_eq xs ys

-- The loop of `recover` over the records: whether they are applied, and the state.
pub replay : {E S : Type 0} → Edit E S → List ℕ → List (Record E) → Bool → S → S
unfolding bytes_eq
replay ed mac [] should_apply s = s
replay ed mac (version snapshot_mac ∷ records) should_apply s =
    replay ed mac records (if bytes_eq snapshot_mac mac then true else should_apply) s
replay ed mac (edit group ∷ records) should_apply s =
    replay ed mac records should_apply (if should_apply then apply_group ed group s else s)

module _ {E : Type 0} (pc : Postcard E) where
  -- `WriteBuf::write`
  pub write_record : WriteBuf → Record E → Outcome WriteBuf
  write_record wb r =
      if leb (length wb.bytes + length (pc.to_bytes r)) wb.capacity
      then ok (record wb { bytes = wb.bytes ++ pc.to_bytes r })
      else err Errno.out_of_disk

  -- `RecordSlice::next`, again and again, on fuel.
  unfoldable pub read_records : ℕ → List ℕ → List (Record E)
  read_records zero bytes = []
  read_records (suc fuel) bytes = elim (pc.take_from_bytes bytes) [
    | none ↦ []
    | some (r, left) ↦ r ∷ read_records fuel left
  ]

  abbrev pub records_of : List ℕ → List (Record E)
  records_of bytes = read_records (length bytes) bytes

  -- The records of several blocks.
  unfoldable pub records_in : List (List ℕ) → List (Record E)
  unfolding read_records
  records_in [] = []
  records_in (bytes ∷ blocks) = records_of bytes ++ records_in blocks

module _ {E S C M P : Type 0} (ed : Edit E S) (pc : Postcard E) (ch : Chain C) (sn : Snapshots M S)
    (cp : CompactPolicy P E) where
  -- `EditJournal::format`, from the created `SnapshotManager` and the empty `CryptoChain` on
  pub format : C → M → S → ℕ → P → Outcome (EditJournal E S C M P)
  unfolding write_record
  format chain snapshots init_state avail policy = do
    write_buf ← write_record pc (new_write_buf avail) (version (sn.latest_mac snapshots))
    chain ← ch.append chain write_buf.bytes
    chain ← ch.flush chain
    ok (record {
      state = init_state;
      journal_chain = chain;
      snapshots = snapshots;
      compaction_policy = cp.on_append_journal policy 1;
      curr_edit_group = some new_group;
      write_buf = clear_buf write_buf;
    })

  -- `EditJournal::recover`
  pub recover_journal : C → M → ℕ → P → Outcome (EditJournal E S C M P)
  unfolding replay records_in
  recover_journal chain snapshots avail policy = do
    snapshots ← sn.recover snapshots
    let latest : Snapshot S = sn.latest_snapshot snapshots
    let opened : C × List (List ℕ) = ch.recover chain latest.recover_from
    ok (record {
      state = replay ed (sn.latest_mac snapshots) (records_in pc opened.1) false latest.state;
      journal_chain = opened.0;
      snapshots = snapshots;
      compaction_policy = policy;
      curr_edit_group = some new_group;
      write_buf = new_write_buf avail;
    })

  -- `EditJournal::add`
  pub add : EditJournal E S C M P → E → EditJournal E S C M P
  unfolding push_edit
  add j e =
      let group : List E = elim j.curr_edit_group [ some group ↦ group | none ↦ new_group ] in
      record j { curr_edit_group = some (push_edit group e) }

  -- `EditJournal::abort`
  pub abort_group : EditJournal E S C M P → EditJournal E S C M P
  unfolding clear_group
  abort_group j = record j {
    curr_edit_group = elim j.curr_edit_group [
      | some group ↦ some (clear_group group)
      | none ↦ none
    ];
  }

  -- The end of `compact`: the chain is trimmed down to one block.
  pub trim_chain : EditJournal E S C M P → Outcome (EditJournal E S C M P × ℕ)
  trim_chain j =
      let old_chain_len = ch.block_end j.journal_chain - ch.block_start j.journal_chain in
      (if ltb 1 old_chain_len
        then (sub_usize (ch.block_end j.journal_chain) 1 >>= λ before.
            ch.trim j.journal_chain before)
        else ok j.journal_chain)
      >>= λ chain.
          sub_usize old_chain_len (ch.block_end chain - ch.block_start chain) >>= λ compacted.
          ok (record j { journal_chain = chain }, compacted)

  -- `EditJournal::compact`
  pub compact : EditJournal E S C M P → Outcome (EditJournal E S C M P × ℕ)
  unfolding write_record trim_chain
  compact j =
      if leb (ch.block_end j.journal_chain) (ch.block_start j.journal_chain) then ok (j, 0) else (do
        snapshots ←
            sn.persist j.snapshots
              (record { state = j.state; recover_from = ch.block_end j.journal_chain })
        write_buf ← write_record pc j.write_buf (version (sn.latest_mac snapshots))
        chain ← ch.append j.journal_chain write_buf.bytes
        trim_chain (record j {
          journal_chain = chain;
          snapshots = snapshots;
          compaction_policy = cp.on_append_journal j.compaction_policy 1;
          write_buf = clear_buf write_buf;
        }))

  -- `expect` of a result.
  abbrev pub expect : {A : Type 0} → Outcome A → Outcome A
  expect (ok a) = ok a
  expect (err e) = panic
  expect panic = panic

  -- `EditJournal::append_write_buf_to_journal`
  pub append_write_buf_to_journal : EditJournal E S C M P → Outcome (EditJournal E S C M P)
  unfolding compact
  append_write_buf_to_journal j = if length j.write_buf.bytes == 0 then ok j else (do
    chain ← expect (ch.append j.journal_chain j.write_buf.bytes)
    let appended : EditJournal E S C M P = record j {
      journal_chain = chain;
      compaction_policy = cp.on_append_journal j.compaction_policy 1;
      write_buf = clear_buf j.write_buf;
    }
    if cp.should_compact appended.compaction_policy
        then (expect (compact appended) >>= λ r.
            cp.done_compact (r.0).compaction_policy r.1 >>= λ policy.
            ok (record (r.0) { compaction_policy = policy }))
        else ok appended)

  -- The second try of `write`.
  pub write_again : EditJournal E S C M P → Record E → Outcome (EditJournal E S C M P)
  write_again j r = elim (write_record pc j.write_buf r) [
    | ok write_buf ↦ ok (record j { write_buf = write_buf })
    | err e ↦ panic
    | panic ↦ panic
  ]

  -- `EditJournal::write`
  pub write : EditJournal E S C M P → Record E → Outcome (EditJournal E S C M P)
  write j r = elim (write_record pc j.write_buf r) [
    | ok write_buf ↦ ok (record j { write_buf = write_buf })
    | err e ↦ append_write_buf_to_journal j >>= λ j'. write_again j' r
    | panic ↦ panic
  ]

  -- `EditJournal::commit`
  pub commit_group : EditJournal E S C M P → Outcome (EditJournal E S C M P)
  unfolding group_is_empty
  commit_group j = elim j.curr_edit_group [
    | none ↦ ok j
    | some group ↦
        let taken = record j { curr_edit_group = none } in
        if group_is_empty group
        then ok taken
        else (write taken (edit group) >>= λ written. ok (record written {
          state = apply_group ed group written.state;
          compaction_policy = cp.on_commit_edits written.compaction_policy group;
        }))
  ]

  -- `EditJournal::flush`
  pub flush_journal : EditJournal E S C M P → Outcome (EditJournal E S C M P)
  flush_journal j = append_write_buf_to_journal j >>= λ j'.
      ch.flush j'.journal_chain >>= λ chain. ok (record j' { journal_chain = chain })
