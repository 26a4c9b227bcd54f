-- ===== src/Manager/Created.antt =====
-- The creation of a `SnapshotManager`.
use mlsdisk.Manager.Kept.{IsManager}
use mlsdisk.Blob.Calls.{Creates, create_blob_lem}
use mlsdisk.Blob.Stored.{IsAddressable, alloc_ok}
use mlsdisk.Blocks.Store.{IsStore}
use mlsdisk.Blocks.{BlockSet, Memory, block_size, disk_nblocks}
use mlsdisk.Crypto.{Aead}
use mlsdisk.Blob.{CryptoBlob, HeaderBytes, blob_blocks, create_blob, header_nbytes}
use mlsdisk.Base.{
  Bool-cases, Errno, List, Outcome, [], ap, arith, err, inl, inr, leb, leb→lt, length, ltb, ltb→le,
  ltb→lt, ok, panic, refl, same, sym, ℕ, ◌*◌, ◌+◌, ◌<◌, ◌>>=◌, ◌∙◌, ◌≡◌, ◌≤◌, ◌⊎◌,
}
use mlsdisk.Manager.{SnapshotBytes, SnapshotManager, create_manager, meta_len, to_slice}
use mlsdisk.Journal.{Snapshot}

module _ {D K S : Type 0} (memory : Memory) (aead : Aead K) (hb : HeaderBytes)
    (sb : SnapshotBytes S) (bs : BlockSet D) {bytes : D → List ℕ} {Holds : D → Type 0}
    (store : IsStore bs bytes Holds) where
  -- What `create` gives, with `n` blocks for a snapshot.
  abbrev pub CreatesManager : ℕ → ℕ → Snapshot S → Outcome (SnapshotManager D K S) → Type 0
  CreatesManager disk_nblocks n s (ok m) =
      (2 * n < disk_nblocks)
      × (header_nbytes + length (sb.to_bytes s) ≤ n * block_size)
      × IsManager memory aead hb sb bs store m
      × (m.snapshot ≡ s)
      × (m.latest_index ≡ 0)
  CreatesManager disk_nblocks n s (err e) =
      (((disk_nblocks ≤ 2 * n) ⊎ (n * block_size < header_nbytes + length (sb.to_bytes s)))
        × (e ≡ Errno.out_of_disk))
      ⊎ ((key : K) × (iv : List ℕ) × (aead.encrypt (sb.to_bytes s) key iv [] ≡ err e))
  CreatesManager disk_nblocks n s panic =
      (key : K) × (iv : List ℕ) × (aead.encrypt (sb.to_bytes s) key iv [] ≡ panic)

  two_blobs :
      (d0 d1 : D) (key0 key1 : K) (disk_nblocks n : ℕ) (s : Snapshot S)
      (o0 o1 : Outcome (CryptoBlob D K))
      → 2 * n < disk_nblocks
      → bs.nblocks d0 ≡ n
      → bs.nblocks d1 ≡ n
      → Creates memory aead hb bs store key0 d0 (sb.to_bytes s) o0
      → Creates memory aead hb bs store key1 d1 (sb.to_bytes s) o1
      → CreatesManager disk_nblocks n s (
          o0 >>= λ blob0. o1 >>= λ blob1. ok (record {
            blob0 = blob0;
            blob1 = blob1;
            latest_index = 0;
            buf_len = length (memory.pages n);
            snapshot = s;
          }))
  two_blobs d0 d1 key0 key1 disk_nblocks n s (ok b0) (ok b1) large e0 e1
        (room0, mac0, stored0, k0, size0) (room1, mac1, stored1, k1, size1) =
      (
        large,
        omega (arith, room0, ap (λ k. k * block_size) e0),
        record {
          h0 = record { version = 0; mac = mac0; payload_len = length (sb.to_bytes s) };
          h1 = record { version = 0; mac = mac1; payload_len = length (sb.to_bytes s) };
          s0 = s;
          s1 = s;
          stored0 = stored0;
          stored1 = stored1;
          same_size = size1 ∙ e1 ∙ sym e0 ∙ sym size0;
          buffer = memory.length-pages n ∙ ap (λ k. k * block_size) (sym e0 ∙ sym size0);
          latest = inl (refl, refl, refl);
        },
        refl,
        refl,
      )
  two_blobs d0 d1 key0 key1 disk_nblocks n s (err e) o1 large e0 e1 (inl (small, same)) c1 =
      inl (inr (omega (arith, small, ap (λ k. k * block_size) e0)), same)
  two_blobs d0 d1 key0 key1 disk_nblocks n s (err e) o1 large e0 e1 (inr failed) c1 =
      inr (_, _, failed)
  two_blobs d0 d1 key0 key1 disk_nblocks n s panic o1 large e0 e1 c0 c1 = (_, _, c0)
  two_blobs d0 d1 key0 key1 disk_nblocks n s (ok b0) (err e) large e0 e1 c0 (inl (small, same)) =
      inl (inr (omega (arith, small, ap (λ k. k * block_size) e1)), same)
  two_blobs d0 d1 key0 key1 disk_nblocks n s (ok b0) (err e) large e0 e1 c0 (inr failed) =
      inr (_, _, failed)
  two_blobs d0 d1 key0 key1 disk_nblocks n s (ok b0) panic large e0 e1 c0 c1 = (_, _, c1)

  -- On a disk whose subsets have the blocks that are asked for, `create` makes a valid manager with
  -- the initial state, to be recovered from block 0 on; it returns `OutOfDisk` if the disk has no
  -- more than the blocks of two snapshots, or the snapshot does not fit into its blocks; a failure of
  -- the encryption is passed on.
  pub create_manager_lem :
      (disk_nblocks : ℕ) (subset_of : ℕ → ℕ → Outcome D) (key0 key1 : K) (init : S) (max_nbytes : ℕ)
      (d0 d1 : D)
      → let n = blob_blocks (max_nbytes + meta_len) in
        subset_of 0 n ≡ ok d0
        → subset_of n (n * 2) ≡ ok d1
        → bs.nblocks d0 ≡ n
        → bs.nblocks d1 ≡ n
        → IsAddressable memory aead hb bs store d0
        → IsAddressable memory aead hb bs store d1
        → CreatesManager disk_nblocks n
            (record { state = init; recover_from = 0 })
            (create_manager memory aead hb sb bs disk_nblocks subset_of key0 key1 init max_nbytes)
  unfolding create_manager to_slice
  create_manager_lem disk_nblocks subset_of key0 key1 init max_nbytes d0 d1 first second size0 size1
        a0 a1 =
      let n : ℕ = blob_blocks (max_nbytes + meta_len) in
      let s : Snapshot S = record { state = init; recover_from = 0 } in
      elim (Bool-cases (ltb (2 * n) disk_nblocks)) [
        | inr e ↦ rw e (inl (inl (ltb→le (2 * n) disk_nblocks e), refl))
        | inl e ↦ elim (Bool-cases (leb (length (sb.to_bytes s)) (length (memory.pages n)))) [
          | inr f ↦
              rw (e, alloc_ok memory aead hb bs store n (omega (arith, size0, a0.some_block)), f)
                (inl (
                  inr (
                      omega (
                        arith,
                        memory.length-pages n,
                        leb→lt (length (sb.to_bytes s)) (length (memory.pages n)) f,
                      )),
                  refl,
                ))
          | inl f ↦
              rw
                (
                  e,
                  alloc_ok memory aead hb bs store n (omega (arith, size0, a0.some_block)),
                  f,
                  first,
                  second,
                )
                (two_blobs d0 d1 key0 key1 disk_nblocks n s
                  (create_blob memory aead hb bs key0 d0 (sb.to_bytes s))
                  (create_blob memory aead hb bs key1 d1 (sb.to_bytes s))
                  (ltb→lt (2 * n) disk_nblocks e) size0 size1
                  (create_blob_lem memory aead hb bs store key0 d0 (sb.to_bytes s) a0)
                  (create_blob_lem memory aead hb bs store key1 d1 (sb.to_bytes s) a1))
        ]
      ]
