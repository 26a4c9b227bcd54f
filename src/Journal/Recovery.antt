-- ===== src/Journal/Recovery.antt =====
-- Which edits a recovery of an `EditJournal` applies.
use mlsdisk.Base.{
  Bool, Bool-cases, List, Option, Outcome, [], ap, err, false, if◌then◌else◌, inl, inr, none, ok,
  panic, refl, some, true, ℕ, ◌∙◌, ◌∷◌, ◌≡◌,
}
use mlsdisk.Edit.{CompactPolicy, Edit, apply_group}
use mlsdisk.Journal.{
  Chain, EditJournal, Postcard, Record, Snapshot, Snapshots, bytes_eq, edit, new_write_buf,
  records_in, recover_journal, replay, version,
}
use mlsdisk.Journal.Groups.{apply_groups, behind_version, groups_of}

module _ {E S : Type 0} (ed : Edit E S) (mac : List ℕ) where
  -- The state after the groups behind the version, or as it is where the version is not there.
  abbrev pub state_behind : Option (List (Record E)) → S → S
  state_behind none s = s
  state_behind (some records) s = apply_groups ed (groups_of records) s

  replay_applied :
      (rs : List (Record E)) (s : S) → replay ed mac rs true s ≡ apply_groups ed (groups_of rs) s
  unfolding replay
  replay_applied [] s = refl
  replay_applied (version v ∷ rs) s =
      ap (λ b. replay ed mac rs b s) (always (bytes_eq v mac)) ∙ replay_applied rs s
    where
      always : (b : Bool) → (if b then true else true) ≡ true
      always true = refl
      always false = refl
  replay_applied (edit g ∷ rs) s = replay_applied rs (apply_group ed g s)

  pub replay_lem :
      (rs : List (Record E)) (s : S)
      → replay ed mac rs false s ≡ state_behind (behind_version mac rs) s
  unfolding replay
  replay_lem [] s = refl
  replay_lem (version v ∷ rs) s = elim (Bool-cases (bytes_eq v mac)) [
    | inl e ↦ rw e (replay_applied rs s)
    | inr e ↦ rw e (replay_lem rs s)
  ]
  replay_lem (edit g ∷ rs) s = replay_lem rs s

module _ {E S C M P : Type 0} (ed : Edit E S) (pc : Postcard E) (ch : Chain C) (sn : Snapshots M S)
    (cp : CompactPolicy P E) where
  -- The journal that a recovery gives, from the recovered snapshots on.
  abbrev pub Recovers : C → ℕ → P → Outcome M → Outcome (EditJournal E S C M P) → Type 0
  Recovers c avail p (ok m) r =
      let latest : Snapshot S = sn.latest_snapshot m in
      let found : C × List (List ℕ) = ch.recover c latest.recover_from in
      r
      ≡ ok (record {
        state =
            state_behind ed (sn.latest_mac m)
              (behind_version (sn.latest_mac m) (records_in pc found.1)) latest.state;
        journal_chain = found.0;
        snapshots = m;
        compaction_policy = p;
        curr_edit_group = some [];
        write_buf = new_write_buf avail;
      })
  Recovers c avail p (err e) r = r ≡ err e
  Recovers c avail p panic r = r ≡ panic

  -- Whatever the chain and the snapshots are: a recovery fails as that of the snapshots does.
  -- Otherwise the records of the chain are those from the block on that the latest snapshot names.
  -- If there is among them one of the version with the MAC of that snapshot, the state is the
  -- snapshot's with the groups of all edits behind the first such record applied in order, and
  -- without such a record it is the snapshot's, whatever edits there are. The current group and
  -- the write buffer are empty.
  pub recover_journal_lem :
      (c : C) (m : M) (avail : ℕ) (p : P)
      → Recovers c avail p (sn.recover m) (recover_journal ed pc ch sn cp c m avail p)
  unfolding recover_journal
  recover_journal_lem c m avail p = from_snapshots (sn.recover m) refl
    where
      from_snapshots :
          (o : Outcome M)
          → sn.recover m ≡ o
          → Recovers c avail p o (recover_journal ed pc ch sn cp c m avail p)
      from_snapshots (ok m') e =
          rw (recover_journal, e)
            (ap
              (λ s. ok (record {
                state = s;
                journal_chain = (ch.recover c (sn.latest_snapshot m').recover_from).0;
                snapshots = m';
                compaction_policy = p;
                curr_edit_group = some [];
                write_buf = new_write_buf avail;
              }))
              (replay_lem ed (sn.latest_mac m')
                (records_in pc (ch.recover c (sn.latest_snapshot m').recover_from).1)
                (sn.latest_snapshot m').state))
      from_snapshots (err e') e = rw (recover_journal, e) refl
      from_snapshots panic e = rw (recover_journal, e) refl
