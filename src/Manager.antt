-- ===== src/Manager.antt =====
-- The `SnapshotManager` of core/src/layers/2-edit/journal.rs: two blobs, one of which has the latest
-- snapshot. The format of snapshots is that of the package postcard.
pub mod Kept
pub mod Created
pub mod Torn
pub mod Mismatch
mod Tests
use mlsdisk.Base.{
  Errno, List, Option, Outcome, add_usize, err, if◌then◌else◌, leb, length, ltb, none, ok, panic,
  some, unwrap, ℕ, ◌%◌, ◌*◌, ◌+◌, ◌==◌, ◌>>=◌, ◌>>◌, ◌≡◌,
}
use mlsdisk.Blocks.{BlockSet, Memory, alloc_buf, disk_nblocks}
use mlsdisk.Crypto.{Aead}
use mlsdisk.Blob.{
  CryptoBlob, HeaderBytes, blob_blocks, check, create_blob, current_mac, open_blob, read_blob,
  recover_blob, version_id, write_blob,
}
use mlsdisk.Journal.{Snapshot}

-- `postcard::to_slice` and `from_bytes` of a snapshot: what was written is read back.
pub record SnapshotBytes (S : Type 0) : Type 0 where
  pub to_bytes : Snapshot S → List ℕ
  pub from_bytes : List ℕ → Option (Snapshot S)
  pub from-to_bytes : (s : Snapshot S) → from_bytes (to_bytes s) ≡ some s

-- `SnapshotManager`, with the length of its buffer in bytes
pub record SnapshotManager (D K S : Type 0) : Type 0 where
  pub blob0 : CryptoBlob D K
  pub blob1 : CryptoBlob D K
  pub latest_index : ℕ
  pub buf_len : ℕ
  pub snapshot : Snapshot S

-- `Snapshot::meta_len`
abbrev pub meta_len : ℕ
meta_len = 8

-- The choice of the latest of two snapshots and its index, by the versions of their blobs.
pub choose_latest : {S : Type 0} → ℕ → ℕ → Snapshot S → Snapshot S → Outcome (Snapshot S × ℕ)
choose_latest version0 version1 snapshot0 snapshot1 =
    if version0 == version1 then ok (snapshot0, 0) else (do
      next ← add_usize version0 1
      if next == version1 then ok (snapshot1, 1) else err Errno.invalid_args)

module _ {D K S : Type 0} (memory : Memory) (aead : Aead K) (hb : HeaderBytes)
    (sb : SnapshotBytes S) (bs : BlockSet D) where
  -- `postcard::to_slice` into a buffer of some length
  pub to_slice : ℕ → Snapshot S → Outcome (List ℕ)
  to_slice buf_len s =
      if leb (length (sb.to_bytes s)) buf_len then ok (sb.to_bytes s) else err Errno.out_of_disk

  -- `SnapshotManager::create` on a disk of so many blocks with its subsets, with the random keys
  pub create_manager : ℕ → (ℕ → ℕ → Outcome D) → K → K → S → ℕ → Outcome (SnapshotManager D K S)
  unfolding to_slice
  create_manager disk_nblocks subset_of key0 key1 init_state state_max_nbytes = do
    let nblocks : ℕ = blob_blocks (state_max_nbytes + meta_len)
    check (ltb (2 * nblocks) disk_nblocks) Errno.out_of_disk
    buf ← alloc_buf memory nblocks
    let snapshot : Snapshot S = record { state = init_state; recover_from = 0 }
    serialized ← to_slice (length buf) snapshot
    block_set0 ← subset_of 0 nblocks
    block_set1 ← subset_of nblocks (nblocks * 2)
    blob0 ← create_blob memory aead hb bs key0 block_set0 serialized
    blob1 ← create_blob memory aead hb bs key1 block_set1 serialized
    ok (record {
      blob0 = blob0;
      blob1 = blob1;
      latest_index = 0;
      buf_len = length buf;
      snapshot = snapshot;
    })

  -- The snapshot in a blob, if it can be read, with the blob.
  pub read_snapshot : CryptoBlob D K → ℕ → Outcome (CryptoBlob D K × Option (Snapshot S))
  read_snapshot b buf_len = elim (read_blob memory aead hb bs b buf_len) [
    | ok (b', payload) ↦ ok (b', sb.from_bytes payload)
    | err e ↦ ok (b, none)
    | panic ↦ panic
  ]

  -- A corrupted blob is recovered from the other one; the blobs with the snapshot of each.
  pub repair :
      CryptoBlob D K × Option (Snapshot S)
      → CryptoBlob D K × Option (Snapshot S)
      → Outcome ((CryptoBlob D K × Snapshot S) × (CryptoBlob D K × Snapshot S))
  repair (blob0, some s0) (blob1, some s1) = ok ((blob0, s0), (blob1, s1))
  repair (blob0, some s0) (blob1, none) =
      recover_blob memory aead hb bs blob1 blob0 >>= λ r. ok ((r.1, s0), (r.0, s0))
  repair (blob0, none) (blob1, some s1) =
      recover_blob memory aead hb bs blob0 blob1 >>= λ r. ok ((r.0, s1), (r.1, s1))
  repair (blob0, none) (blob1, none) = err Errno.not_found

  -- The end of `recover`: the latest snapshot is determined.
  pub open_latest :
      (CryptoBlob D K × Snapshot S) × (CryptoBlob D K × Snapshot S)
      → ℕ
      → Outcome (SnapshotManager D K S)
  open_latest repaired buf_len = do
    version0 ← unwrap (version_id ((repaired.0).0))
    version1 ← unwrap (version_id ((repaired.1).0))
    chosen ← choose_latest version0 version1 (repaired.0).1 (repaired.1).1
    ok (record {
      blob0 = (repaired.0).0;
      blob1 = (repaired.1).0;
      latest_index = chosen.1;
      buf_len = buf_len;
      snapshot = chosen.0;
    })

  -- `SnapshotManager::recover`, with the size of the area of a snapshot and the two keys
  pub recover_manager : (ℕ → ℕ → Outcome D) → ℕ → K → K → Outcome (SnapshotManager D K S)
  unfolding read_snapshot repair
  recover_manager subset_of area_nblocks key0 key1 = do
    block_set0 ← subset_of 0 area_nblocks
    block_set1 ← subset_of area_nblocks (area_nblocks * 2)
    buf ← alloc_buf memory area_nblocks
    read0 ← read_snapshot (open_blob key0 block_set0) (length buf)
    read1 ← read_snapshot (open_blob key1 block_set1) (length buf)
    repaired ← repair read0 read1
    open_latest repaired (length buf)

  -- `SnapshotManager::persist`
  pub persist : SnapshotManager D K S → Snapshot S → Outcome (SnapshotManager D K S)
  unfolding to_slice
  persist m latest = do
    buf ← to_slice m.buf_len latest
    let index : ℕ = (m.latest_index + 1) % 2
    if index == 0
        then (write_blob memory aead hb bs m.blob0 buf >>= λ r.
            ok (record m { blob0 = r.0; latest_index = index; snapshot = latest }))
        else (write_blob memory aead hb bs m.blob1 buf >>= λ r.
            ok (record m { blob1 = r.0; latest_index = index; snapshot = latest }))

-- `SnapshotManager::latest_mac`
pub manager_mac : {D K S : Type 0} → SnapshotManager D K S → Outcome (List ℕ)
manager_mac m = unwrap (current_mac (if m.latest_index == 0 then m.blob0 else m.blob1))
