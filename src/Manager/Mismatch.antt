-- ===== src/Manager/Mismatch.antt =====
-- A crash within `persist` that tears the first blob, and the journal that is recovered after it:
-- the snapshots of a journal are a `SnapshotManager` here.
use mlsdisk.Base.{
  List, Outcome, [], ap, ap₂, err, false, if◌then◌else◌, ok, panic, refl, some, subst, ℕ, ◌*◌, ◌∙◌,
  ◌∷◌, ◌≡◌,
}
use mlsdisk.Edit.{CompactPolicy, Edit}
use mlsdisk.Journal.{
  Chain, EditJournal, Postcard, Snapshot, Snapshots, bytes_eq, records_in, recover_journal, version,
}
use mlsdisk.Journal.Groups.{
  apply_groups, behind_version, behind_version-edits, bytes_eq_refl, edits, groups_of-edits,
}
use mlsdisk.Journal.Recovery.{Recovers, recover_journal_lem, state_behind}
use mlsdisk.Crypto.{Aead}
use mlsdisk.Blocks.{BlockSet, Memory}
use mlsdisk.Blocks.Store.{IsStore}
use mlsdisk.Blob.{HeaderBytes, iv_of}
use mlsdisk.Blob.Calls.{Encrypts}
use mlsdisk.Manager.{SnapshotBytes, SnapshotManager, manager_mac, persist, recover_manager}
use mlsdisk.Manager.Kept.{IsManager, recover_manager_lem}
use mlsdisk.Manager.Torn.{IsTorn, torn_first}

-- A MAC, where there is one.
abbrev pub mac_or_none : Outcome (List ℕ) → List ℕ
mac_or_none (ok mac) = mac
mac_or_none (err e) = []
mac_or_none panic = []

module _ {D K S : Type 0} (memory : Memory) (aead : Aead K) (hb : HeaderBytes)
    (sb : SnapshotBytes S) (bs : BlockSet D) where
  -- The snapshots of a journal, on a disk with its subsets. A recovery opens the disk with the keys
  -- of the manager.
  abbrev pub managed : (ℕ → ℕ → Outcome D) → ℕ → Snapshots (SnapshotManager D K S) S
  managed subset_of n = record {
    persist = persist memory aead hb sb bs;
    latest_mac = λ m. mac_or_none (manager_mac m);
    latest_snapshot = λ m. m.snapshot;
    recover = λ m. recover_manager memory aead hb sb bs subset_of n m.blob0.key m.blob1.key;
  }

module _ {E D K S C P : Type 0} (ed : Edit E S) (pc : Postcard E) (ch : Chain C)
    (cp : CompactPolicy P E) (memory : Memory) (aead : Aead K) (hb : HeaderBytes)
    (sb : SnapshotBytes S) (bs : BlockSet D) {bytes : D → List ℕ} {Holds : D → Type 0}
    (store : IsStore bs bytes Holds) where
  -- A recovery of a journal on some disk, with the keys of a manager.
  abbrev pub recover_on :
      (ℕ → ℕ → Outcome D)
      → ℕ
      → C
      → SnapshotManager D K S
      → ℕ
      → P
      → Outcome (EditJournal E S C (SnapshotManager D K S) P)
  recover_on subset_of n c m avail p =
      recover_journal ed pc ch (managed memory aead hb sb bs subset_of n) cp c m avail p

  -- The state of the journal that is recovered, where the snapshots are recovered.
  recovered_state :
      (subset_of : ℕ → ℕ → Outcome D) (n : ℕ) (c : C) (m m' : SnapshotManager D K S) (avail : ℕ)
      (p : P)
      → recover_manager memory aead hb sb bs subset_of n m.blob0.key m.blob1.key ≡ ok m'
      → (r : EditJournal E S C (SnapshotManager D K S) P) × (recover_on subset_of n c m avail p
          ≡ ok r)
        × (r.state
            ≡ state_behind ed
                (mac_or_none (manager_mac m'))
                (behind_version
                  (mac_or_none (manager_mac m'))
                  (records_in pc (ch.recover c m'.snapshot.recover_from).1))
                m'.snapshot.state)
  recovered_state subset_of n c m m' avail p e =
      let lem =
        recover_journal_lem ed pc ch (managed memory aead hb sb bs subset_of n) cp c m avail p in
      let done =
        subst
          (λ o.
            Recovers ed pc ch (managed memory aead hb sb bs subset_of n) cp c avail p o
              (recover_on subset_of n c m avail p))
          e lem in
      (_, done, refl)

  -- Where encryption does not fail, the latest snapshot of a valid manager is in the second blob,
  -- and the chain has the record of its version with groups of edits behind it. From the disk as it
  -- is, a recovery of the journal applies these groups to the snapshot. If the area of the first
  -- blob can not be read, as after a crash within `persist`, and the snapshot has another MAC under
  -- the key of the first blob, then a recovery of the journal returns as well, but none of the
  -- groups is applied.
  pub lost_groups :
      Encrypts aead
      → (m : SnapshotManager D K S) (subset_of torn_of : ℕ → ℕ → Outcome D) (n : ℕ) (d : D) (c : C)
        (avail : ℕ) (p : P) (gs : List (List E)) (h : IsManager memory aead hb sb bs store m)
      → m.latest_index ≡ 1
      → n ≡ bs.nblocks m.blob0.block_set
      → subset_of 0 n ≡ ok m.blob0.block_set
      → subset_of n (n * 2) ≡ ok m.blob1.block_set
      → IsTorn memory aead hb sb bs store m m.blob0.key d
      → torn_of 0 n ≡ ok d
      → torn_of n (n * 2) ≡ ok m.blob1.block_set
      → records_in pc (ch.recover c m.snapshot.recover_from).1 ≡ version h.h1.mac ∷ edits gs
      → ((out mac : List ℕ)
          → aead.encrypt
              (sb.to_bytes m.snapshot)
              m.blob0.key
              (iv_of memory aead hb bs h.h1.version)
              []
            ≡ ok (out, mac)
          → bytes_eq h.h1.mac mac ≡ false)
      → (r r' : EditJournal E S C (SnapshotManager D K S) P) × (recover_on subset_of n c m avail p
          ≡ ok r)
        × (r.state ≡ apply_groups ed gs m.snapshot.state)
        × (recover_on torn_of n c m avail p ≡ ok r')
        × (r'.state ≡ m.snapshot.state)
  unfolding manager_mac
  lost_groups encrypts m subset_of torn_of n d c avail p gs h index size first second torn first'
        second' on_chain differ =
      let (r, done, state) =
        recovered_state subset_of n c m m avail p
          (recover_manager_lem memory aead hb sb bs store m subset_of n h size first second) in
      let (m', out, mac, recovered, valid, same_snapshot, encrypted, new_mac) =
        torn_first memory aead hb sb bs store encrypts m torn_of n d h index size torn first'
          second' in
      let (r', done', state') = recovered_state torn_of n c m m' avail p recovered in
      let old_mac : manager_mac m ≡ ok h.h1.mac = rw (index, h.stored1.1) refl in
      (
        r,
        r',
        done,
        state
            ∙ ap₂
                (λ o rs.
                  state_behind ed (mac_or_none o) (behind_version (mac_or_none o) rs)
                    m.snapshot.state)
                old_mac on_chain
            ∙ ap
                (λ b.
                  state_behind ed h.h1.mac
                    (if b then some (edits gs) else behind_version h.h1.mac (edits gs))
                    m.snapshot.state)
                (bytes_eq_refl h.h1.mac)
            ∙ ap (λ g. apply_groups ed g m.snapshot.state) (groups_of-edits gs),
        done',
        state'
            ∙ ap₂
                (λ o (s : Snapshot S).
                  state_behind ed (mac_or_none o)
                    (behind_version (mac_or_none o) (records_in pc (ch.recover c s.recover_from).1))
                    s.state)
                new_mac same_snapshot
            ∙ ap (λ rs. state_behind ed mac (behind_version mac rs) m.snapshot.state) on_chain
            ∙ ap
                (λ b.
                  state_behind ed mac (if b then some (edits gs) else behind_version mac (edits gs))
                    m.snapshot.state)
                (differ out mac encrypted)
            ∙ ap (λ o. state_behind ed mac o m.snapshot.state) (behind_version-edits mac gs),
      )
