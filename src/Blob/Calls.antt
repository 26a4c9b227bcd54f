-- ===== src/Blob/Calls.antt =====
-- `create`, `write`, `read` and `recover_from` of a `CryptoBlob`.
use mlsdisk.Blob.Stored.{
  IsAddressable, IsStored, Known, alloc_ok, blob_blocks_lem, blob_capacity_lem, read_blob_lem,
  store_payload_lem,
}
use mlsdisk.Blob.{
  CryptoBlob, Header, HeaderBytes, IsHeader, blob_blocks, create_blob, header_nbytes, iv_of,
  recover_blob, store_payload, write_blob,
}
use mlsdisk.Crypto.{Aead}
use mlsdisk.Blocks.Store.{IsStore}
use mlsdisk.Blocks.{BlockSet, Memory, block_size}
use mlsdisk.Base.{
  ==_refl, Bool-cases, Errno, List, Outcome, Outcome-cases, [], ap, arith, err, inl, inr, leb,
  leb→le, leb→lt, length, none, ok, panic, refl, same, some, sym, true, ℕ, ◌*◌, ◌+◌, ◌-◌, ◌<◌, ◌==◌,
  ◌^◌, ◌∙◌, ◌≡◌, ◌≤◌, ◌⊎◌,
}

-- Encryption that does not fail.
abbrev pub Encrypts : {K : Type 0} → Aead K → Type 0
Encrypts {K} aead =
    (input : List ℕ) (key : K) (iv aad : List ℕ)
    → (out mac : List ℕ) × (aead.encrypt input key iv aad ≡ ok (out, mac))

module _ {D K : Type 0} (memory : Memory) (aead : Aead K) (hb : HeaderBytes) (bs : BlockSet D)
    {bytes : D → List ℕ} {Holds : D → Type 0} (store : IsStore bs bytes Holds) where
  -- A blob whose header is that of its content on disk.
  abbrev pub IsBlob : CryptoBlob D K → Header → List ℕ → Type 0
  IsBlob b h content =
      IsStored memory aead hb bs store b.block_set b.key h content × (b.header ≡ some h)

  -- What `create` gives.
  abbrev pub Creates : K → D → List ℕ → Outcome (CryptoBlob D K) → Type 0
  Creates key d content (ok b) =
      (header_nbytes + length content ≤ bs.nblocks d * block_size)
      × (mac : List ℕ) × IsBlob b (record { version = 0; mac = mac; payload_len = length content })
          content
      × (b.key ≡ key)
      × (bs.nblocks b.block_set ≡ bs.nblocks d)
  Creates key d content (err e) =
      ((bs.nblocks d * block_size < header_nbytes + length content) × (e ≡ Errno.out_of_disk))
      ⊎ (aead.encrypt content key (iv_of memory aead hb bs 0) [] ≡ err e)
  Creates key d content panic = aead.encrypt content key (iv_of memory aead hb bs 0) [] ≡ panic

  -- What is stored where the encryption fails.
  store_payload_err :
      (d : D) (key : K) (version : ℕ) (input buf : List ℕ) (e : Errno)
      → aead.encrypt input key (iv_of memory aead hb bs version) [] ≡ err e
      → store_payload memory aead hb bs d key version input buf ≡ err e
  unfolding store_payload
  store_payload_err d key version input buf e failed = rw failed

  store_payload_panic :
      (d : D) (key : K) (version : ℕ) (input buf : List ℕ)
      → aead.encrypt input key (iv_of memory aead hb bs version) [] ≡ panic
      → store_payload memory aead hb bs d key version input buf ≡ panic
  unfolding store_payload
  store_payload_panic d key version input buf failed = rw failed

  -- On a set of addressable blocks `create` stores the content as version 0 if it fits behind the
  -- header, and returns `OutOfDisk` otherwise; a failure of the encryption is passed on.
  pub create_blob_lem :
      (key : K) (d : D) (content : List ℕ)
      → IsAddressable memory aead hb bs store d
      → Creates key d content (create_blob memory aead hb bs key d content)
  unfolding create_blob block_size
  create_blob_lem key d content a =
      rw (blob_capacity_lem memory aead hb bs store d a)
        (elim (Bool-cases (leb (length content) (bs.nblocks d * 4096 - 32))) [
          | inr e ↦ rw e (
              inl (
                omega (arith, leb→lt (length content) (bs.nblocks d * 4096 - 32) e, a.some_block),
                refl,
              ))
          | inl e ↦
              let fits = leb→le (length content) (bs.nblocks d * 4096 - 32) e in
              let n : ℕ = blob_blocks (length content) in
              let (pos, holds, least) = blob_blocks_lem memory aead hb bs store (length content) in
              elim (Outcome-cases (aead.encrypt content key (iv_of memory aead hb bs 0) [])) [
                | inl ((out, mac), encrypted) ↦
                    let (d', stored, on_disk, same) =
                      store_payload_lem memory aead hb bs store d key 0 content (memory.pages n) n
                        out mac a (omega arith) (memory.length-pages n)
                        (least (bs.nblocks d) (omega (arith, fits, a.some_block)))
                        (omega (arith, memory.length-pages n, holds)) encrypted in
                    rw (e, alloc_ok memory aead hb bs store n pos, stored)
                      (omega (arith, fits, a.some_block), mac, (on_disk, refl), refl, same)
                | inr (inl (failure, failed)) ↦
                    rw
                      (
                        e,
                        alloc_ok memory aead hb bs store n pos,
                        store_payload_err d key 0 content (memory.pages n) failure failed,
                      )
                      (inr failed)
                | inr (inr failed) ↦
                    rw
                      (
                        e,
                        alloc_ok memory aead hb bs store n pos,
                        store_payload_panic d key 0 content (memory.pages n) failed,
                      )
                      failed
              ]
        ])

  -- What `write` gives.
  abbrev pub WritesBlob : CryptoBlob D K → Header → List ℕ → Outcome (CryptoBlob D K × ℕ) → Type 0
  WritesBlob b h content (ok (b', version)) =
      (header_nbytes + length content ≤ bs.nblocks b.block_set * block_size)
      × (version ≡ h.version + 1)
      × (mac : List ℕ) × IsBlob b'
          (record { version = version; mac = mac; payload_len = length content }) content
      × (b'.key ≡ b.key)
      × (bs.nblocks b'.block_set ≡ bs.nblocks b.block_set)
  WritesBlob b h content (err e) =
      ((bs.nblocks b.block_set * block_size < header_nbytes + length content)
        × (e ≡ Errno.out_of_disk))
      ⊎ (aead.encrypt content b.key (iv_of memory aead hb bs (h.version + 1)) [] ≡ err e)
  WritesBlob b h content panic =
      (h.version + 1 ≡ 2 ^ 64)
      ⊎ (aead.encrypt content b.key (iv_of memory aead hb bs (h.version + 1)) [] ≡ panic)

  -- A blob with a header, on addressable blocks, stores the content as the next version if it fits
  -- behind the header, and returns `OutOfDisk` otherwise. Any other error is that of the encryption
  -- of the content; there is a panic only at the last version there is, or in the encryption.
  pub write_blob_lem :
      (b : CryptoBlob D K) (h : Header) (content : List ℕ)
      → IsAddressable memory aead hb bs store b.block_set
      → IsHeader h
      → b.header ≡ some h
      → WritesBlob b h content (write_blob memory aead hb bs b content)
  unfolding write_blob block_size
  write_blob_lem b h content a valid known =
      rw (blob_capacity_lem memory aead hb bs store b.block_set a)
        (elim (Bool-cases (leb (length content) (bs.nblocks b.block_set * 4096 - 32))) [
          | inr e ↦ rw e (
              inl (
                omega (
                  arith,
                  leb→lt (length content) (bs.nblocks b.block_set * 4096 - 32) e,
                  a.some_block,
                ),
                refl,
              ))
          | inl e ↦
              let fits = leb→le (length content) (bs.nblocks b.block_set * 4096 - 32) e in
              let n : ℕ = blob_blocks (length content) in
              let (pos, holds, least) = blob_blocks_lem memory aead hb bs store (length content) in
              elim (Bool-cases (leb (2 ^ 64) (h.version + 1))) [
                | inl o ↦
                    rw (e, alloc_ok memory aead hb bs store n pos, known, o)
                      (inl (omega (arith, leb→le (2 ^ 64) (h.version + 1) o, valid.0)))
                | inr o ↦
                    elim (Outcome-cases
                      (aead.encrypt content b.key (iv_of memory aead hb bs (h.version + 1)) [])) [
                        | inl ((out, mac), encrypted) ↦
                            let (d', stored, on_disk, same) =
                              store_payload_lem memory aead hb bs store b.block_set b.key
                                (h.version + 1) content (memory.pages n) n out mac a
                                (leb→lt (2 ^ 64) (h.version + 1) o) (memory.length-pages n)
                                (least (bs.nblocks b.block_set) (omega (arith, fits, a.some_block)))
                                (omega (arith, memory.length-pages n, holds)) encrypted in
                            rw (e, alloc_ok memory aead hb bs store n pos, known, o, stored)
                              (
                                omega (arith, fits, a.some_block),
                                refl,
                                mac,
                                (on_disk, refl),
                                refl,
                                same,
                              )
                        | inr (inl (failure, failed)) ↦
                            rw
                              (
                                e,
                                alloc_ok memory aead hb bs store n pos,
                                known,
                                o,
                                store_payload_err b.block_set b.key (h.version + 1) content
                                    (memory.pages n) failure failed,
                              )
                              (inr failed)
                        | inr (inr failed) ↦
                            rw
                              (
                                e,
                                alloc_ok memory aead hb bs store n pos,
                                known,
                                o,
                                store_payload_panic b.block_set b.key (h.version + 1) content
                                    (memory.pages n) failed,
                              )
                              (inr failed)
                      ]
              ]
        ])

  -- What `recover_from` gives: the content and the version of the other blob under the own key.
  abbrev pub RecoversBlob :
      CryptoBlob D K
      → CryptoBlob D K
      → Header
      → List ℕ
      → Outcome (CryptoBlob D K × CryptoBlob D K)
      → Type 0
  RecoversBlob b other h content (ok (b', other')) =
      (out mac : List ℕ) × (aead.encrypt content b.key (iv_of memory aead hb bs h.version) []
        ≡ ok (out, mac))
      × IsBlob b' (record { version = h.version; mac = mac; payload_len = length content }) content
      × (b'.key ≡ b.key)
      × (bs.nblocks b'.block_set ≡ bs.nblocks b.block_set)
      × (other' ≡ record other { header = some h })
  RecoversBlob b other h content (err e) =
      aead.encrypt content b.key (iv_of memory aead hb bs h.version) [] ≡ err e
  RecoversBlob b other h content panic =
      aead.encrypt content b.key (iv_of memory aead hb bs h.version) [] ≡ panic

  -- A blob without a header, on addressable blocks, recovers from a stored one of the same size: it
  -- holds the content of the other one with its version, encrypted with its own key, so with a MAC
  -- of its own. It fails only where that encryption fails, in the same way.
  pub recover_blob_lem :
      (b other : CryptoBlob D K) (h : Header) (content : List ℕ)
      → IsAddressable memory aead hb bs store b.block_set
      → b.header ≡ none
      → IsStored memory aead hb bs store other.block_set other.key h content
      → Known memory aead hb bs store other.header h
      → bs.nblocks b.block_set ≡ bs.nblocks other.block_set
      → RecoversBlob b other h content (recover_blob memory aead hb bs b other)
  unfolding recover_blob block_size
  recover_blob_lem b other h content a unknown s known same_size =
      rw
        (
          blob_capacity_lem memory aead hb bs store b.block_set a,
          blob_capacity_lem memory aead hb bs store other.block_set s.addressable,
          same_capacity,
          unknown,
          alloc_ok memory aead hb bs store n a.some_block,
          read_blob_lem memory aead hb bs store other h content (length (memory.pages n)) s known
              (omega (arith, memory.length-pages n, s.room, same_size)),
        )
        (elim (Outcome-cases (aead.encrypt content b.key (iv_of memory aead hb bs h.version) [])) [
          | inl ((out, mac), encrypted) ↦
              let (d', stored, on_disk, same) =
                store_payload_lem memory aead hb bs store b.block_set b.key h.version content
                  (memory.pages n) n out mac a (s.ranged.0) (memory.length-pages n) (omega arith)
                  (omega (arith, memory.length-pages n, s.room, same_size)) encrypted in
              rw stored (out, mac, encrypted, (on_disk, refl), refl, same, refl)
          | inr (inl (failure, failed)) ↦
              rw
                (store_payload_err b.block_set b.key h.version content (memory.pages n) failure
                  failed)
                failed
          | inr (inr failed) ↦
              rw (store_payload_panic b.block_set b.key h.version content (memory.pages n) failed)
                failed
        ])
    where
      n : ℕ
      n = bs.nblocks b.block_set

      same_capacity :
          (bs.nblocks b.block_set * 4096 - 32 == bs.nblocks other.block_set * 4096 - 32) ≡ true
      same_capacity =
          ap (λ k. bs.nblocks b.block_set * 4096 - 32 == k * 4096 - 32) (sym same_size)
          ∙ ==_refl (bs.nblocks b.block_set * 4096 - 32)
