-- ===== src/Manager/Kept.antt =====
-- The invariant of a `SnapshotManager`, and that persisting and recovering keep it.
use mlsdisk.Blob.Calls.{IsBlob, WritesBlob, write_blob_lem}
use mlsdisk.Blob.Stored.{alloc_ok, read_blob_lem}
use mlsdisk.Blocks.Store.{IsStore}
use mlsdisk.Blocks.{BlockSet, Memory, block_size}
use mlsdisk.Crypto.{Aead}
use mlsdisk.Blob.{CryptoBlob, Header, HeaderBytes, header_nbytes, open_blob, version_id, write_blob}
use mlsdisk.Base.{
  ==_refl, Bool-cases, Errno, List, Option, Outcome, [], ap, ap₂, arith, err, inl, inr, leb, leb→lt,
  length, lt→==, lt→leb, none, ok, panic, refl, same, some, sym, ℕ, ◌%◌, ◌*◌, ◌+◌, ◌-◌, ◌<◌, ◌==◌,
  ◌>>=◌, ◌^◌, ◌∙◌, ◌≡◌, ◌≤◌, ◌⊎◌,
}
use mlsdisk.Manager.{
  SnapshotBytes, SnapshotManager, choose_latest, open_latest, persist, read_snapshot,
  recover_manager, repair, to_slice,
}
use mlsdisk.Journal.{Snapshot}

module _ {D K S : Type 0} (memory : Memory) (aead : Aead K) (hb : HeaderBytes)
    (sb : SnapshotBytes S) (bs : BlockSet D) {bytes : D → List ℕ} {Holds : D → Type 0}
    (store : IsStore bs bytes Holds) where
  -- Both blobs hold a snapshot. The first one has the latest if their versions are the same, the
  -- second one if its version is the next; there is no other case.
  pub record IsManager (m : SnapshotManager D K S) : Type 0 where
    pub h0 : Header
    pub h1 : Header
    pub s0 : Snapshot S
    pub s1 : Snapshot S
    pub stored0 : IsBlob memory aead hb bs store m.blob0 h0 (sb.to_bytes s0)
    pub stored1 : IsBlob memory aead hb bs store m.blob1 h1 (sb.to_bytes s1)
    pub same_size : bs.nblocks m.blob1.block_set ≡ bs.nblocks m.blob0.block_set
    pub buffer : m.buf_len ≡ bs.nblocks m.blob0.block_set * block_size
    pub latest :
        ((m.latest_index ≡ 0) × (h0.version ≡ h1.version) × (m.snapshot ≡ s0))
        ⊎ ((m.latest_index ≡ 1) × (h1.version ≡ h0.version + 1) × (m.snapshot ≡ s1))

  -- What `persist` gives.
  abbrev pub Persists :
      SnapshotManager D K S → Snapshot S → Outcome (SnapshotManager D K S) → Type 0
  Persists m s (ok m') =
      IsManager m'
      × (m'.snapshot ≡ s)
      × (m'.latest_index ≡ 1 - m.latest_index)
      × (m'.blob0.key ≡ m.blob0.key)
      × (m'.blob1.key ≡ m.blob1.key)
      × (bs.nblocks m'.blob0.block_set ≡ bs.nblocks m.blob0.block_set)
      × (((m.latest_index ≡ 0) × (m'.blob0 ≡ m.blob0))
          ⊎ ((m.latest_index ≡ 1) × (m'.blob1 ≡ m.blob1)))
  Persists m s (err e) =
      ((m.buf_len < header_nbytes + length (sb.to_bytes s)) × (e ≡ Errno.out_of_disk))
      ⊎ ((key : K) × (iv : List ℕ) × (aead.encrypt (sb.to_bytes s) key iv [] ≡ err e))
  Persists m s panic =
      (version_id m.blob0 ≡ some (2 ^ 64 - 1))
      ⊎ ((version_id m.blob1 ≡ some (2 ^ 64 - 1))
          ⊎ ((key : K) × (iv : List ℕ) × (aead.encrypt (sb.to_bytes s) key iv [] ≡ panic)))

  -- `persist` of a valid manager writes the snapshot to the blob that does not have the latest
  -- one, which it has from then on; the blob with the latest one before stays as it is, and the
  -- manager stays valid. A snapshot that is too large is refused with `OutOfDisk`. Any other error
  -- is that of an encryption of the snapshot; there is a panic only at the last version of a blob,
  -- or in an encryption of the snapshot.
  pub persist_lem :
      (m : SnapshotManager D K S) (s : Snapshot S)
      → IsManager m
      → Persists m s (persist memory aead hb sb bs m s)
  unfolding persist to_slice
  persist_lem m s h = elim (Bool-cases (leb (length (sb.to_bytes s)) m.buf_len)) [
    | inr e ↦ rw e (inl (omega (arith, leb→lt (length (sb.to_bytes s)) m.buf_len e), refl))
    | inl e ↦ elim h.latest [
      | inl (index, versions, same_snapshot) ↦
          rw (e, next_index 1 (omega (arith, index)))
            (write1 (write_blob memory aead hb bs m.blob1 (sb.to_bytes s)) index versions (
              write_blob_lem memory aead hb bs store m.blob1 h.h1 (sb.to_bytes s)
                (h.stored1.0).addressable (h.stored1.0).ranged (h.stored1.1)))
      | inr (index, versions, same_snapshot) ↦
          rw (e, next_index 0 (omega (arith, index)))
            (write0 (write_blob memory aead hb bs m.blob0 (sb.to_bytes s)) index versions (
              write_blob_lem memory aead hb bs store m.blob0 h.h0 (sb.to_bytes s)
                (h.stored0.0).addressable (h.stored0.0).ranged (h.stored0.1)))
    ]
  ]
    where
      next_index : (k : ℕ) → (m.latest_index + 1) % 2 ≡ k → (m.latest_index + 1) % 2 ≡ k
      next_index k e = e

      write1 :
          (o : Outcome (CryptoBlob D K × ℕ))
          → m.latest_index ≡ 0
          → h.h0.version ≡ h.h1.version
          → WritesBlob memory aead hb bs store m.blob1 h.h1 (sb.to_bytes s) o
          → Persists m s (o >>= λ r. ok (record m { blob1 = r.0; latest_index = 1; snapshot = s }))
      write1 (ok (b', v)) index versions (room, next, mac, stored, same_key, same_size) = (
        record {
          h0 = h.h0;
          h1 = record { version = v; mac = mac; payload_len = length (sb.to_bytes s) };
          s0 = h.s0;
          s1 = s;
          stored0 = h.stored0;
          stored1 = stored;
          same_size = same_size ∙ h.same_size;
          buffer = h.buffer;
          latest = inr (refl, next ∙ ap (λ v. v + 1) (sym versions), refl);
        },
        refl,
        omega (arith, index),
        refl,
        same_key,
        refl,
        inl (index, refl),
      )
      write1 (err e) index versions (inl (room, same)) =
          inl (omega (arith, room, h.buffer, ap (λ k. k * block_size) h.same_size), same)
      write1 (err e) index versions (inr failed) = inr (_, _, failed)
      write1 panic index versions (inr failed) = inr (inr (_, _, failed))
      write1 panic index versions (inl last) = inr (
          inl (
            ap (λ (o : Option Header). elim o [ none ↦ none | some k ↦ some k.version ])
              (h.stored1.1)
            ∙ ap some (omega (arith, last))))

      write0 :
          (o : Outcome (CryptoBlob D K × ℕ))
          → m.latest_index ≡ 1
          → h.h1.version ≡ h.h0.version + 1
          → WritesBlob memory aead hb bs store m.blob0 h.h0 (sb.to_bytes s) o
          → Persists m s (o >>= λ r. ok (record m { blob0 = r.0; latest_index = 0; snapshot = s }))
      write0 (ok (b', v)) index versions (room, next, mac, stored, same_key, same_size) = (
        record {
          h0 = record { version = v; mac = mac; payload_len = length (sb.to_bytes s) };
          h1 = h.h1;
          s0 = s;
          s1 = h.s1;
          stored0 = stored;
          stored1 = h.stored1;
          same_size = h.same_size ∙ sym same_size;
          buffer = h.buffer ∙ ap (λ k. k * block_size) (sym same_size);
          latest = inl (refl, next ∙ sym versions, refl);
        },
        refl,
        omega (arith, index),
        same_key,
        refl,
        same_size,
        inr (index, refl),
      )
      write0 (err e) index versions (inl (room, same)) = inl (omega (arith, room, h.buffer), same)
      write0 (err e) index versions (inr failed) = inr (_, _, failed)
      write0 panic index versions (inr failed) = inr (inr (_, _, failed))
      write0 panic index versions (inl last) = inl (
          ap (λ (o : Option Header). elim o [ none ↦ none | some k ↦ some k.version ]) (h.stored0.1)
          ∙ ap some (omega (arith, last)))

  -- A snapshot in a stored blob is read.
  pub read_snapshot_lem :
      (b : CryptoBlob D K) (h : Header) (s : Snapshot S) (buf_len : ℕ)
      → IsBlob memory aead hb bs store b h (sb.to_bytes s)
      → length (sb.to_bytes s) ≤ buf_len
      → read_snapshot memory aead hb sb bs (open_blob b.key b.block_set) buf_len
        ≡ ok (record b { header = some h }, some s)
  unfolding read_snapshot
  read_snapshot_lem b h s buf_len (stored, known) room = rw (
    read_blob_lem memory aead hb bs store (open_blob b.key b.block_set) h (sb.to_bytes s) buf_len
        stored tt room,
    read_snapshot,
    sb.from-to_bytes s,
  )

  -- Where the versions are as the invariant says, the choice is the latest snapshot.
  choice :
      (m : SnapshotManager D K S) (h : IsManager m)
      → choose_latest h.h0.version h.h1.version h.s0 h.s1 ≡ ok (m.snapshot, m.latest_index)
  unfolding choose_latest
  choice m h = elim h.latest [
    | inl (index, versions, same) ↦
        rw (ap (λ v. v == h.h1.version) versions ∙ ==_refl h.h1.version)
          (ap₂ (λ s n. ok (s, n)) (sym same) (sym index))
    | inr (index, versions, same) ↦
        rw
          (
            lt→== h.h0.version h.h1.version (omega (arith, versions)),
            lt→leb (h.h0.version + 1) (2 ^ 64) (omega (arith, versions, (h.stored1.0).ranged.0)),
            ap (λ v. v == h.h1.version) (sym versions) ∙ ==_refl h.h1.version,
          )
          (ap₂ (λ s n. ok (s, n)) (sym same) (sym index))
  ]

  -- The recovery of a valid manager, from the two areas that have its blobs and with its
  -- keys, gives back that manager.
  pub recover_manager_lem :
      (m : SnapshotManager D K S) (subset_of : ℕ → ℕ → Outcome D) (n : ℕ)
      → IsManager m
      → n ≡ bs.nblocks m.blob0.block_set
      → subset_of 0 n ≡ ok m.blob0.block_set
      → subset_of n (n * 2) ≡ ok m.blob1.block_set
      → recover_manager memory aead hb sb bs subset_of n m.blob0.key m.blob1.key ≡ ok m
  unfolding recover_manager repair open_latest
  recover_manager_lem m subset_of n h size first second =
      rw
        (
          first,
          second,
          alloc_ok memory aead hb bs store n
              (omega (arith, size, (h.stored0.0).addressable.some_block)),
          read_snapshot_lem m.blob0 h.h0 h.s0 (length (memory.pages n)) h.stored0 (
              omega
                (arith, (h.stored0.0).room, memory.length-pages n, ap (λ k. k * block_size) size)),
          read_snapshot_lem m.blob1 h.h1 h.s1 (length (memory.pages n)) h.stored1 (
              omega (
                arith,
                (h.stored1.0).room,
                memory.length-pages n,
                ap (λ k. k * block_size) size,
                ap (λ k. k * block_size) h.same_size,
              )),
          choice m h,
        )
        (sym (λ i. ok (record {
          blob0 = record (m.blob0) { header = (h.stored0.1) i };
          blob1 = record (m.blob1) { header = (h.stored1.1) i };
          latest_index = m.latest_index;
          buf_len = sized i;
          snapshot = m.snapshot;
        })))
    where
      sized : m.buf_len ≡ length (memory.pages n)
      sized = h.buffer ∙ ap (λ k. k * block_size) (sym size) ∙ sym (memory.length-pages n)
