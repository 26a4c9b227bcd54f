-- ===== src/Blob/Tests.antt =====
-- The theorems of the blob at concrete blobs.
use mlsdisk.Base.{List, [], arith, ok, refl, some, ℕ, ◌∷◌, ◌≡◌}
use mlsdisk.Blob.{CryptoBlob, open_blob, read_blob, recover_blob, write_blob}
use mlsdisk.Blob.Stored.{IsStored, read_blob_lem}
use mlsdisk.Blob.Calls.{RecoversBlob, WritesBlob, recover_blob_lem, write_blob_lem}
use mlsdisk.Blob.Sample.{
  block_of, block_of-IsStored, header_of, one_block, one_block-IsStore, plain, plain_headers,
  zero_pages,
}

abbrev blob_7 : CryptoBlob (List ℕ) ℕ
blob_7 = record {
  block_set = block_of 7 3 (1 ∷ 2 ∷ []);
  key = 3;
  header = some (header_of 7 3 (1 ∷ 2 ∷ []));
}

blob_7-IsStored :
    IsStored zero_pages plain plain_headers one_block one_block-IsStore
      (block_of 7 3 (1 ∷ 2 ∷ []))
      3
      (header_of 7 3 (1 ∷ 2 ∷ []))
      (1 ∷ 2 ∷ [])
blob_7-IsStored = block_of-IsStored 7 3 (1 ∷ 2 ∷ []) (omega arith) (omega arith)

read_blob_lem_example :
    read_blob zero_pages plain plain_headers one_block (open_blob 3 (block_of 7 3 (1 ∷ 2 ∷ []))) 100
    ≡ ok (blob_7, 1 ∷ 2 ∷ [])
read_blob_lem_example =
    read_blob_lem zero_pages plain plain_headers one_block one_block-IsStore
      (open_blob 3 (block_of 7 3 (1 ∷ 2 ∷ []))) (header_of 7 3 (1 ∷ 2 ∷ [])) (1 ∷ 2 ∷ []) 100
      blob_7-IsStored tt (omega arith)

write_blob_lem_example :
    WritesBlob zero_pages plain plain_headers one_block one_block-IsStore blob_7
      (header_of 7 3 (1 ∷ 2 ∷ []))
      (9 ∷ [])
      (write_blob zero_pages plain plain_headers one_block blob_7 (9 ∷ []))
write_blob_lem_example =
    write_blob_lem zero_pages plain plain_headers one_block one_block-IsStore blob_7
      (header_of 7 3 (1 ∷ 2 ∷ [])) (9 ∷ []) blob_7-IsStored.addressable blob_7-IsStored.ranged refl

recover_blob_lem_example :
    RecoversBlob zero_pages plain plain_headers one_block one_block-IsStore
      (open_blob 5 (block_of 6 5 (4 ∷ [])))
      blob_7
      (header_of 7 3 (1 ∷ 2 ∷ []))
      (1 ∷ 2 ∷ [])
      (recover_blob zero_pages plain plain_headers one_block
        (open_blob 5 (block_of 6 5 (4 ∷ [])))
        blob_7)
recover_blob_lem_example =
    recover_blob_lem zero_pages plain plain_headers one_block one_block-IsStore
      (open_blob 5 (block_of 6 5 (4 ∷ []))) blob_7 (header_of 7 3 (1 ∷ 2 ∷ [])) (1 ∷ 2 ∷ [])
      (block_of-IsStored 6 5 (4 ∷ []) (omega arith) (omega arith)).addressable refl blob_7-IsStored
      refl refl
