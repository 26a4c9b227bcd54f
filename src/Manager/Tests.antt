-- ===== src/Manager/Tests.antt =====
-- The theorems of the snapshot manager at a manager whose second blob has the latest snapshot, and
-- one whose first blob has it.
use mlsdisk.Base.{
  Errno, List, Option, Outcome, [], arith, err, false, inl, inr, lt→==, none, ok, panic, refl,
  replicate, some, subst, suc, zero, ℕ, ◌++◌, ◌<◌, ◌∙◌, ◌∷◌, ◌≡◌, ◌≤◌, ◌⊎◌,
}
use mlsdisk.Edit.{never_compact}
use mlsdisk.Journal.{EditJournal, Snapshot, bytes_eq, edit, read_records, records_in, version}
use mlsdisk.Journal.Groups.{apply_groups}
use mlsdisk.Journal.Sample.{adding, kept, numbers, record_bytes}
use mlsdisk.Blocks.{block_size, disk_nblocks}
use mlsdisk.Blob.{open_blob}
use mlsdisk.Blob.Stored.{HasHeader, read_blob-decrypt, read_blob-small}
use mlsdisk.Blob.Sample.{
  block_of, block_of-IsAddressable, block_of-IsStored, header_of, one_block, one_block-IsStore,
  plain, plain-Encrypts, plain_headers, zero_pages,
}
use mlsdisk.Manager.{SnapshotBytes, SnapshotManager, manager_mac, persist, recover_manager}
use mlsdisk.Manager.Kept.{IsManager, Persists, persist_lem, recover_manager_lem}
use mlsdisk.Manager.Torn.{IsTorn, torn_second}
use mlsdisk.Manager.Mismatch.{lost_groups, recover_on}

abbrev put_snapshot : Snapshot ℕ → List ℕ
put_snapshot s = s.state ∷ s.recover_from ∷ []

abbrev get_snapshot : List ℕ → Option (Snapshot ℕ)
get_snapshot (a ∷ b ∷ rest) = some (record { state = a; recover_from = b })
get_snapshot (a ∷ []) = none
get_snapshot [] = none

abbrev plain_snapshots : SnapshotBytes ℕ
plain_snapshots = record {
  to_bytes = put_snapshot;
  from_bytes = get_snapshot;
  from-to_bytes = λ s. refl;
}

abbrev older : Snapshot ℕ
older = record { state = 10; recover_from = 0 }

abbrev newer : Snapshot ℕ
newer = record { state = 25; recover_from = 2 }

abbrev disk0 : List ℕ
disk0 = block_of 4 3 (put_snapshot older)

abbrev disk1 : ℕ → List ℕ
disk1 v = block_of v 5 (put_snapshot newer)

abbrev torn_disk : List ℕ
torn_disk = block_of 5 0 (put_snapshot newer)

-- The two areas of a disk.
abbrev areas : List ℕ → List ℕ → ℕ → ℕ → Outcome (List ℕ)
areas d0 d1 zero to = ok d0
areas d0 d1 (suc from) to = ok d1

abbrev second_latest : SnapshotManager (List ℕ) ℕ ℕ
second_latest = record {
  blob0 = record { block_set = disk0; key = 3; header = some (header_of 4 3 (put_snapshot older)) };
  blob1 = record {
    block_set = disk1 5;
    key = 5;
    header = some (header_of 5 5 (put_snapshot newer));
  };
  latest_index = 1;
  buf_len = 4096;
  snapshot = newer;
}

abbrev first_latest : SnapshotManager (List ℕ) ℕ ℕ
first_latest = record {
  blob0 = record { block_set = disk0; key = 3; header = some (header_of 4 3 (put_snapshot older)) };
  blob1 = record {
    block_set = disk1 4;
    key = 5;
    header = some (header_of 4 5 (put_snapshot newer));
  };
  latest_index = 0;
  buf_len = 4096;
  snapshot = older;
}

abbrev Valid : SnapshotManager (List ℕ) ℕ ℕ → Type 0
Valid m = IsManager zero_pages plain plain_headers plain_snapshots one_block one_block-IsStore m

second_latest-IsManager : Valid second_latest
unfolding block_size disk_nblocks
second_latest-IsManager = record {
  h0 = header_of 4 3 (put_snapshot older);
  h1 = header_of 5 5 (put_snapshot newer);
  s0 = older;
  s1 = newer;
  stored0 = (block_of-IsStored 4 3 (put_snapshot older) (omega arith) (omega arith), refl);
  stored1 = (block_of-IsStored 5 5 (put_snapshot newer) (omega arith) (omega arith), refl);
  same_size = refl;
  buffer = refl;
  latest = inr (refl, refl, refl);
}

first_latest-IsManager : Valid first_latest
unfolding block_size disk_nblocks
first_latest-IsManager = record {
  h0 = header_of 4 3 (put_snapshot older);
  h1 = header_of 4 5 (put_snapshot newer);
  s0 = older;
  s1 = newer;
  stored0 = (block_of-IsStored 4 3 (put_snapshot older) (omega arith) (omega arith), refl);
  stored1 = (block_of-IsStored 4 5 (put_snapshot newer) (omega arith) (omega arith), refl);
  same_size = refl;
  buffer = refl;
  latest = inl (refl, refl, refl);
}

-- A write of version 5 that stopped within the header, before the MAC: a buffer is too small for the
-- payload, or the payload is not decrypted.
torn_disk-IsTorn :
    (m : SnapshotManager (List ℕ) ℕ ℕ) (key : ℕ)
    → IsTorn zero_pages plain plain_headers plain_snapshots one_block one_block-IsStore m
        (suc key)
        torn_disk
unfolding block_size disk_nblocks
torn_disk-IsTorn m key = record {
  addressable = there.addressable;
  same_size = refl;
  unreadable = λ n. elim (less_or_not 2 n) [
    | inl le ↦ (
      Errno.decrypt_failed,
      read_blob-decrypt zero_pages plain plain_headers one_block one_block-IsStore
            (open_blob (suc key) torn_disk) (header_of 5 0 (put_snapshot newer)) n there tt le
          ∙ rw (lt→== 0 (suc key) (omega arith)) refl,
    )
    | inr lt ↦ (
      Errno.out_of_disk,
      read_blob-small zero_pages plain plain_headers one_block one_block-IsStore
          (open_blob (suc key) torn_disk) (header_of 5 0 (put_snapshot newer)) n there tt lt,
    )
  ];
}
  where
    less_or_not : (k n : ℕ) → (k ≤ n) ⊎ (n < k)
    less_or_not k n = omega arith

    there :
        HasHeader zero_pages plain plain_headers one_block one_block-IsStore torn_disk
          (header_of 5 0 (put_snapshot newer))
    there = record {
      addressable = block_of-IsAddressable torn_disk refl;
      ranged = (omega arith, refl, omega arith);
      room = omega arith;
      header_there = refl;
    }

persist_lem_example :
    Persists zero_pages plain plain_headers plain_snapshots one_block one_block-IsStore
      second_latest
      (record { state = 40; recover_from = 3 })
      (persist zero_pages plain plain_headers plain_snapshots one_block second_latest
        (record { state = 40; recover_from = 3 }))
persist_lem_example =
    persist_lem zero_pages plain plain_headers plain_snapshots one_block one_block-IsStore
      second_latest (record { state = 40; recover_from = 3 }) second_latest-IsManager

recover_manager_lem_example :
    recover_manager zero_pages plain plain_headers plain_snapshots one_block
      (areas disk0 (disk1 5))
      1
      3
      5
    ≡ ok second_latest
unfolding disk_nblocks
recover_manager_lem_example =
    recover_manager_lem zero_pages plain plain_headers plain_snapshots one_block one_block-IsStore
      second_latest (areas disk0 (disk1 5)) 1 second_latest-IsManager refl refl refl

torn_second_example :
    (m' : SnapshotManager (List ℕ) ℕ ℕ) × (recover_manager zero_pages plain plain_headers
        plain_snapshots one_block
        (areas disk0 torn_disk)
        1
        3
        5
      ≡ ok m')
    × Valid m'
    × (m'.snapshot ≡ older)
    × (manager_mac m' ≡ manager_mac first_latest)
unfolding disk_nblocks
torn_second_example =
    torn_second zero_pages plain plain_headers plain_snapshots one_block one_block-IsStore
      plain-Encrypts first_latest (areas disk0 torn_disk) 1 torn_disk first_latest-IsManager refl
      refl (torn_disk-IsTorn first_latest 4) refl refl

abbrev Differs : Outcome (List ℕ × List ℕ) → Type 0
Differs (ok (out, mac)) = bytes_eq (replicate 16 5) mac ≡ false
Differs (err e) = Unit {0}
Differs panic = Unit {0}

other_mac :
    (o : Outcome (List ℕ × List ℕ)) → ok (put_snapshot newer, replicate 16 3) ≡ o → Differs o
unfolding bytes_eq
other_mac o e = subst Differs e refl

-- Two blocks before the snapshot, and one with its version and the group of 6 behind it.
abbrev three_blocks : List (List ℕ)
three_blocks =
    [] ∷ [] ∷ (record_bytes (version (replicate 16 5)) ++ record_bytes (edit (6 ∷ []))) ∷ []

lost_groups_example :
    (r r' : EditJournal ℕ ℕ (List (List ℕ)) (SnapshotManager (List ℕ) ℕ ℕ) (Unit {0})) × (recover_on
        adding numbers kept never_compact zero_pages plain plain_headers plain_snapshots one_block
        one_block-IsStore
        (areas disk0 (disk1 5))
        1
        three_blocks
        second_latest
        100
        tt
      ≡ ok r)
    × (r.state ≡ apply_groups adding ((6 ∷ []) ∷ []) 25)
    × (recover_on adding numbers kept never_compact zero_pages plain plain_headers plain_snapshots
          one_block one_block-IsStore
          (areas torn_disk (disk1 5))
          1
          three_blocks
          second_latest
          100
          tt
        ≡ ok r')
    × (r'.state ≡ 25)
unfolding disk_nblocks second_latest-IsManager records_in read_records
lost_groups_example =
    lost_groups adding numbers kept never_compact zero_pages plain plain_headers plain_snapshots
      one_block one_block-IsStore plain-Encrypts second_latest (areas disk0 (disk1 5))
      (areas torn_disk (disk1 5)) 1 torn_disk three_blocks 100 tt ((6 ∷ []) ∷ [])
      second_latest-IsManager refl refl refl refl (torn_disk-IsTorn second_latest 2) refl refl refl
      (λ out mac e. other_mac (ok (out, mac)) e)
