-- ===== src/Blob.antt =====
-- The versioned blob of core/src/layers/1-crypto/crypto_blob.rs, over a set of blocks of its own.
-- The bytes of a header and of a version are those of the package pod.
use mlsdisk.Base.{
  Bool, Errno, List, Option, Outcome, [], add_usize, err, false, leb, length, none, ok, replicate,
  some, sub_usize, true, unwrap, ℕ, ◌*◌, ◌++◌, ◌+◌, ◌-◌, ◌/◌, ◌<◌, ◌==◌, ◌>>=◌, ◌>>◌, ◌^◌, ◌≡◌,
}
use mlsdisk.Blocks.{BlockSet, Memory, alloc_buf, block_size, copy_from_slice, read_slice, slice}
pub mod Stored
pub mod Calls
pub mod Sample
mod Tests
use mlsdisk.Crypto.{Aead, mac_size}

-- `Header`
pub record Header : Type 0 where
  pub version : ℕ
  pub mac : List ℕ
  pub payload_len : ℕ

-- A header whose fields are in the range of their types.
abbrev pub IsHeader : Header → Type 0
IsHeader h = (h.version < 2 ^ 64) × (length h.mac ≡ mac_size) × (h.payload_len < 2 ^ 64)

-- `HEADER_NBYTES`
abbrev pub header_nbytes : ℕ
header_nbytes = 32

-- `as_bytes` and `from_bytes` of a header, and `as_bytes` of a version.
pub record HeaderBytes : Type 0 where
  pub to_bytes : Header → List ℕ
  pub from_bytes : List ℕ → Header
  pub version_bytes : ℕ → List ℕ
  pub length-to_bytes : (h : Header) → IsHeader h → length (to_bytes h) ≡ header_nbytes
  pub from-to_bytes : (h : Header) → IsHeader h → from_bytes (to_bytes h) ≡ h

-- `CryptoBlob`
pub record CryptoBlob (D K : Type 0) : Type 0 where
  pub block_set : D
  pub key : K
  pub header : Option Header

-- `CryptoBlob::open`
abbrev pub open_blob : {D K : Type 0} → K → D → CryptoBlob D K
open_blob key block_set = record { block_set = block_set; key = key; header = none }

-- `CryptoBlob::version_id` and `current_mac`
abbrev pub version_id : {D K : Type 0} → CryptoBlob D K → Option ℕ
version_id b = elim b.header [ none ↦ none | some h ↦ some h.version ]

abbrev pub current_mac : {D K : Type 0} → CryptoBlob D K → Option (List ℕ)
current_mac b = elim b.header [ none ↦ none | some h ↦ some h.mac ]

-- The blocks of a header and a payload.
pub blob_blocks : ℕ → ℕ
blob_blocks payload_len = (header_nbytes + payload_len + block_size - 1) / block_size

-- `ok_or`, and a comparison that fails with an error.
abbrev pub check : Bool → Errno → Outcome (Unit {0})
check true e = ok tt
check false e = err e

module _ {D K : Type 0} (memory : Memory) (aead : Aead K) (hb : HeaderBytes) (bs : BlockSet D) where
  -- The initialization vector of a version: twelve bytes, the first of which are the version.
  abbrev pub iv_of : ℕ → List ℕ
  iv_of version = hb.version_bytes version ++ replicate 4 0

  -- `CryptoBlob::capacity`
  pub blob_capacity : D → Outcome ℕ
  blob_capacity d = sub_usize (bs.nblocks d * block_size) header_nbytes

  -- The payload is encrypted behind the header in a buffer, which is written.
  pub store_payload : D → K → ℕ → List ℕ → List ℕ → Outcome (D × Header)
  store_payload d key version input block_buf = do
    encrypted ← aead.encrypt input key (iv_of version) []
    let header : Header = record {
      version = version;
      mac = encrypted.1;
      payload_len = length input;
    }
    filled ← copy_from_slice block_buf header_nbytes (header_nbytes + length input) encrypted.0
    whole ← copy_from_slice filled 0 header_nbytes (hb.to_bytes header)
    d ← bs.write d 0 whole
    ok (d, header)

  -- `CryptoBlob::create`, with the random key
  pub create_blob : K → D → List ℕ → Outcome (CryptoBlob D K)
  create_blob key d init_data = do
    capacity ← blob_capacity d
    check (leb (length init_data) capacity) Errno.out_of_disk
    block_buf ← alloc_buf memory (blob_blocks (length init_data))
    stored ← store_payload d key 0 init_data block_buf
    ok (record { block_set = stored.0; key = key; header = some stored.1 })

  -- `CryptoBlob::write`
  pub write_blob : CryptoBlob D K → List ℕ → Outcome (CryptoBlob D K × ℕ)
  write_blob b buf = do
    capacity ← blob_capacity b.block_set
    check (leb (length buf) capacity) Errno.out_of_disk
    block_buf ← alloc_buf memory (blob_blocks (length buf))
    elim b.header [
      | none ↦ err Errno.not_found
      | some h ↦
          (add_usize h.version 1 >>= λ version.
          store_payload b.block_set b.key version buf block_buf >>= λ stored.
          ok (record b { block_set = stored.0; header = some stored.1 }, version))
    ]

  -- The header that a blob has, or the one on disk.
  pub read_header : CryptoBlob D K → Outcome Header
  read_header b = elim b.header [
    | some h ↦ ok h
    | none ↦ read_slice memory bs b.block_set 0 header_nbytes >>= λ bytes. ok (hb.from_bytes bytes)
  ]

  -- `CryptoBlob::read` into a buffer of some length: the blob, whose header is known now, and the
  -- payload
  pub read_blob : CryptoBlob D K → ℕ → Outcome (CryptoBlob D K × List ℕ)
  read_blob b buf_len = do
    header ← read_header b
    capacity ← blob_capacity b.block_set
    check (leb header.payload_len capacity) Errno.out_of_disk
    check (leb header.payload_len buf_len) Errno.out_of_disk
    fresh ← alloc_buf memory (blob_blocks header.payload_len)
    block_buf ← bs.read b.block_set 0 (blob_blocks header.payload_len)
    input ← slice block_buf header_nbytes (header_nbytes + header.payload_len)
    payload ← aead.decrypt input b.key (iv_of header.version) [] header.mac
    ok (record b { header = some header }, payload)

  -- `CryptoBlob::recover_from`: the blob, and the other one, which is read
  pub recover_blob : CryptoBlob D K → CryptoBlob D K → Outcome (CryptoBlob D K × CryptoBlob D K)
  recover_blob b other = do
    capacity ← blob_capacity b.block_set
    other_capacity ← blob_capacity other.block_set
    check (capacity == other_capacity) Errno.invalid_args
    elim b.header [
      | some h ↦ err Errno.invalid_args
      | none ↦
          (alloc_buf memory (bs.nblocks b.block_set) >>= λ read_buf.
          read_blob other (length read_buf) >>= λ r. unwrap (version_id (r.0)) >>= λ version.
          alloc_buf memory (bs.nblocks b.block_set) >>= λ write_buf.
          store_payload b.block_set b.key version r.1 write_buf >>= λ stored.
          ok (record b { block_set = stored.0; header = some stored.1 }, r.0))
    ]
