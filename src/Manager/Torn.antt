-- ===== src/Manager/Torn.antt =====
-- A crash within `persist` of a `SnapshotManager`: the blob that was being written cannot be read
-- any more.
use mlsdisk.Manager.Kept.{IsManager, read_snapshot_lem}
use mlsdisk.Blob.Calls.{Encrypts, IsBlob, RecoversBlob, recover_blob_lem}
use mlsdisk.Blob.Stored.{IsAddressable, alloc_ok}
use mlsdisk.Blocks.Store.{IsStore}
use mlsdisk.Blocks.{BlockSet, Memory, block_size}
use mlsdisk.Crypto.{Aead}
use mlsdisk.Blob.{CryptoBlob, Header, HeaderBytes, iv_of, open_blob, read_blob, recover_blob}
use mlsdisk.Base.{
  ==_refl, Errno, List, Outcome, [], ap, arith, err, inl, inr, length, none, ok, panic, refl, same,
  some, subst, sym, ℕ, ◌*◌, ◌∙◌, ◌≡◌, ◌≤◌,
}
use mlsdisk.Manager.{
  SnapshotBytes, SnapshotManager, choose_latest, manager_mac, open_latest, read_snapshot,
  recover_manager, repair,
}
use mlsdisk.Journal.{Snapshot}

module _ {D K S : Type 0} (memory : Memory) (aead : Aead K) (hb : HeaderBytes)
    (sb : SnapshotBytes S) (bs : BlockSet D) {bytes : D → List ℕ} {Holds : D → Type 0}
    (store : IsStore bs bytes Holds) where
  -- A set of blocks as large as those of the manager, in which no snapshot is read with the key.
  pub record IsTorn (m : SnapshotManager D K S) (key : K) (d : D) : Type 0 where
    pub addressable : IsAddressable memory aead hb bs store d
    pub same_size : bs.nblocks d ≡ bs.nblocks m.blob0.block_set
    pub unreadable :
        (n : ℕ) → (e : Errno) × (read_blob memory aead hb bs (open_blob key d) n ≡ err e)

  torn_snapshot :
      (m : SnapshotManager D K S) (key : K) (d : D) (n : ℕ)
      → IsTorn m key d
      → read_snapshot memory aead hb sb bs (open_blob key d) n ≡ ok (open_blob key d, none)
  unfolding read_snapshot
  torn_snapshot m key d n t = rw ((t.unreadable n).1, read_snapshot)

  latest_first :
      (m : SnapshotManager D K S) (h : IsManager memory aead hb sb bs store m)
      → m.latest_index ≡ 0
      → h.s0 ≡ m.snapshot
  latest_first m h index = elim h.latest [
    | inl (i, versions, same_snapshot) ↦ sym same_snapshot
    | inr (i, versions, same_snapshot) ↦ absurd (omega (arith, i, index))
  ]

  latest_second :
      (m : SnapshotManager D K S) (h : IsManager memory aead hb sb bs store m)
      → m.latest_index ≡ 1
      → h.s1 ≡ m.snapshot
  latest_second m h index = elim h.latest [
    | inl (i, versions, same_snapshot) ↦ absurd (omega (arith, i, index))
    | inr (i, versions, same_snapshot) ↦ sym same_snapshot
  ]

  abbrev IsFailure : {A : Type 0} → Outcome A → Type 0
  IsFailure (ok a) = ⊥
  IsFailure (err e) = Unit {0}
  IsFailure panic = Unit {0}

  -- The outcome of a recovery of a blob, taken apart.
  recover-IsBlob :
      (b other : CryptoBlob D K) (h : Header) (content : List ℕ)
      (o : Outcome (CryptoBlob D K × CryptoBlob D K))
      → Encrypts aead
      → RecoversBlob memory aead hb bs store b other h content o
      → (b' : CryptoBlob D K) × (out mac : List ℕ) × (o ≡ ok (b', record other { header = some h }))
        × (aead.encrypt content b.key (iv_of memory aead hb bs h.version) [] ≡ ok (out, mac))
        × IsBlob memory aead hb bs store b'
            (record { version = h.version; mac = mac; payload_len = length content })
            content
        × (b'.key ≡ b.key)
        × (bs.nblocks b'.block_set ≡ bs.nblocks b.block_set)
  recover-IsBlob b other h content (ok (b', o')) encrypts
        (out, mac, encrypted, stored, same_key, same_size, same_other) =
      (b', out, mac, ap (λ o. ok (b', o)) same_other, encrypted, stored, same_key, same_size)
  recover-IsBlob b other h content (err e) encrypts c =
      absurd (subst IsFailure (sym c ∙ (encrypts content b.key _ []).2) tt)
  recover-IsBlob b other h content panic encrypts c =
      absurd (subst IsFailure (sym c ∙ (encrypts content b.key _ []).2) tt)

  -- Where the versions are the same, the first blob has the latest snapshot.
  same_versions :
      (b0 b1 : CryptoBlob D K) (s : Snapshot S) (h0 h1 : Header) (len : ℕ)
      → b0.header ≡ some h0
      → b1.header ≡ some h1
      → h0.version ≡ h1.version
      → open_latest memory aead hb sb bs ((b0, s), (b1, s)) len
        ≡ ok (record { blob0 = b0; blob1 = b1; latest_index = 0; buf_len = len; snapshot = s })
  unfolding open_latest choose_latest
  same_versions b0 b1 s h0 h1 len e0 e1 same = rw (e0, e1, same, ==_refl h1.version)

  mac_first :
      (m : SnapshotManager D K S) (h : Header)
      → m.latest_index ≡ 0
      → m.blob0.header ≡ some h
      → manager_mac m ≡ ok h.mac
  unfolding manager_mac
  mac_first m h index known = rw (index, known)

  -- Where encryption does not fail, the latest snapshot of a valid manager is in the first blob, and
  -- the area of the second one can not be read, whatever the length of the buffer: recovery gives a
  -- valid manager with the same latest snapshot and the same MAC.
  pub torn_second :
      Encrypts aead
      → (m : SnapshotManager D K S) (subset_of : ℕ → ℕ → Outcome D) (n : ℕ) (d : D)
      → IsManager memory aead hb sb bs store m
      → m.latest_index ≡ 0
      → n ≡ bs.nblocks m.blob0.block_set
      → IsTorn m m.blob1.key d
      → subset_of 0 n ≡ ok m.blob0.block_set
      → subset_of n (n * 2) ≡ ok d
      → (m' : SnapshotManager D K S) × (recover_manager memory aead hb sb bs subset_of n m.blob0.key
            m.blob1.key
          ≡ ok m')
        × IsManager memory aead hb sb bs store m'
        × (m'.snapshot ≡ m.snapshot)
        × (manager_mac m' ≡ manager_mac m)
  unfolding recover_manager repair manager_mac
  torn_second encrypts m subset_of n d h index size torn first second =
      let len : ℕ = length (memory.pages n) in
      let fits : length (sb.to_bytes h.s0) ≤ len =
        omega (arith, (h.stored0.0).room, memory.length-pages n, ap (λ k. k * block_size) size) in
      let known0 : CryptoBlob D K = record (m.blob0) { header = some h.h0 } in
      let (b, out, mac, repaired, encrypted, stored, same_key, same_size) =
        recover-IsBlob (open_blob m.blob1.key d) known0 h.h0 (sb.to_bytes h.s0)
          (recover_blob memory aead hb bs (open_blob m.blob1.key d) known0) encrypts
          (recover_blob_lem memory aead hb bs store (open_blob m.blob1.key d) known0 h.h0
            (sb.to_bytes h.s0) torn.addressable refl (h.stored0.0) refl torn.same_size) in
      (
        record { blob0 = known0; blob1 = b; latest_index = 0; buf_len = len; snapshot = h.s0 },
        rw
            (
              first,
              second,
              alloc_ok memory aead hb bs store n
                  (omega (arith, size, (h.stored0.0).addressable.some_block)),
              read_snapshot_lem memory aead hb sb bs store m.blob0 h.h0 h.s0 len h.stored0 fits,
              torn_snapshot m m.blob1.key d len torn,
              repaired,
            )
            (same_versions known0 b h.s0 h.h0
              (record {
                version = h.h0.version;
                mac = mac;
                payload_len = length (sb.to_bytes h.s0);
              })
              len refl (stored.1) refl),
        record {
          h0 = h.h0;
          h1 = record {
            version = h.h0.version;
            mac = mac;
            payload_len = length (sb.to_bytes h.s0);
          };
          s0 = h.s0;
          s1 = h.s0;
          stored0 = (h.stored0.0, refl);
          stored1 = stored;
          same_size = same_size ∙ torn.same_size;
          buffer = memory.length-pages n ∙ ap (λ k. k * block_size) size;
          latest = inl (refl, refl, refl);
        },
        latest_first m h index,
        sym (mac_first m h.h0 index (h.stored0.1)),
      )

  -- The latest snapshot is in the second blob, and the first one is torn: recovery gives a valid
  -- manager with the same latest snapshot, but with the MAC of this snapshot under the other key.
  pub torn_first :
      Encrypts aead
      → (m : SnapshotManager D K S) (subset_of : ℕ → ℕ → Outcome D) (n : ℕ) (d : D)
        (h : IsManager memory aead hb sb bs store m)
      → m.latest_index ≡ 1
      → n ≡ bs.nblocks m.blob0.block_set
      → IsTorn m m.blob0.key d
      → subset_of 0 n ≡ ok d
      → subset_of n (n * 2) ≡ ok m.blob1.block_set
      → (m' : SnapshotManager D K S) × (out mac : List ℕ) × (recover_manager memory aead hb sb bs
            subset_of n m.blob0.key m.blob1.key
          ≡ ok m')
        × IsManager memory aead hb sb bs store m'
        × (m'.snapshot ≡ m.snapshot)
        × (aead.encrypt
              (sb.to_bytes m.snapshot)
              m.blob0.key
              (iv_of memory aead hb bs h.h1.version)
              []
            ≡ ok (out, mac))
        × (manager_mac m' ≡ ok mac)
  unfolding recover_manager repair
  torn_first encrypts m subset_of n d h index size torn first second =
      let len : ℕ = length (memory.pages n) in
      let sized1 = ap (λ k. k * block_size) (size ∙ sym h.same_size) in
      let fits : length (sb.to_bytes h.s1) ≤ len =
        omega (arith, (h.stored1.0).room, memory.length-pages n, sized1) in
      let known1 : CryptoBlob D K = record (m.blob1) { header = some h.h1 } in
      let (b, out, mac, repaired, encrypted, stored, same_key, same_size) =
        recover-IsBlob (open_blob m.blob0.key d) known1 h.h1 (sb.to_bytes h.s1)
          (recover_blob memory aead hb bs (open_blob m.blob0.key d) known1) encrypts
          (recover_blob_lem memory aead hb bs store (open_blob m.blob0.key d) known1 h.h1
            (sb.to_bytes h.s1) torn.addressable refl (h.stored1.0) refl
            (torn.same_size ∙ sym h.same_size)) in
      let h' : Header = record {
        version = h.h1.version;
        mac = mac;
        payload_len = length (sb.to_bytes h.s1);
      } in
      let m' : SnapshotManager D K S = record {
        blob0 = b;
        blob1 = known1;
        latest_index = 0;
        buf_len = len;
        snapshot = h.s1;
      } in
      (
        m',
        out,
        mac,
        rw
            (
              first,
              second,
              alloc_ok memory aead hb bs store n
                  (omega (arith, size, (h.stored0.0).addressable.some_block)),
              torn_snapshot m m.blob0.key d len torn,
              read_snapshot_lem memory aead hb sb bs store m.blob1 h.h1 h.s1 len h.stored1 fits,
              repaired,
            )
            (same_versions b known1 h.s1 h' h.h1 len (stored.1) refl refl),
        record {
          h0 = h';
          h1 = h.h1;
          s0 = h.s1;
          s1 = h.s1;
          stored0 = stored;
          stored1 = (h.stored1.0, refl);
          same_size = h.same_size ∙ sym torn.same_size ∙ sym same_size;
          buffer =
              memory.length-pages n
              ∙ ap (λ k. k * block_size) (size ∙ sym torn.same_size ∙ sym same_size);
          latest = inl (refl, refl, refl);
        },
        latest_second m h index,
        subst
            (λ s.
              aead.encrypt (sb.to_bytes s) m.blob0.key (iv_of memory aead hb bs h.h1.version) []
              ≡ ok (out, mac))
            (latest_second m h index) encrypted,
        mac_first m' h' refl (stored.1),
      )
