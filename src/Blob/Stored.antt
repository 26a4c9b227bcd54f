-- ===== src/Blob/Stored.antt =====
-- What is on disk after a blob was written, and that it is read back.
use mlsdisk.Blocks.Slices.{ReadsSlice, read_slice_lem}
use mlsdisk.Blocks.Store.{IsStore}
use mlsdisk.Blocks.Bytes.{copy_ok, length-splice, slice-slice, slice_ok}
use mlsdisk.Blob.{
  CryptoBlob, Header, HeaderBytes, IsHeader, blob_blocks, blob_capacity, header_nbytes, iv_of,
  read_blob, read_header, store_payload,
}
use mlsdisk.Crypto.{Aead}
use mlsdisk.Blocks.{BlockSet, Memory, alloc_buf, block_size, read_slice, splice}
use mlsdisk.Base.{
  Errno, List, Option, Outcome, [], ap, append_assoc, arith, drop, drop-append, err, length,
  length-take, le→leb, le→ltb, lt→==_swap, lt→leb, none, ok, panic, refl, same, some, sym, take,
  take-append, ℕ, ◌*◌, ◌++◌, ◌+◌, ◌-◌, ◌<◌, ◌>>=◌, ◌^◌, ◌∙◌, ◌≡◌, ◌≤◌,
}

-- A payload behind a header in a buffer.
pub laid_out :
    (head body rest : List ℕ) (k n : ℕ)
    → length head ≡ k
    → length body ≡ n
    → (take k (head ++ (body ++ rest)) ≡ head) × (take n (drop k (head ++ (body ++ rest))) ≡ body)
laid_out head body rest k n e f = (
  take-append k head (body ++ rest) (sym e),
  ap (take n) (drop-append k head (body ++ rest) (sym e)) ∙ take-append n body rest (sym f),
)

module _ {D K : Type 0} (memory : Memory) (aead : Aead K) (hb : HeaderBytes) (bs : BlockSet D)
    {bytes : D → List ℕ} {Holds : D → Type 0} (store : IsStore bs bytes Holds) where
  -- A set of blocks whose bytes are addressable.
  pub record IsAddressable (d : D) : Type 0 where
    pub holds : Holds d
    pub some_block : 0 < bs.nblocks d
    pub in_range : bs.nblocks d * block_size + 2 * block_size < 2 ^ 64

  -- A header is on disk, and the payload that it speaks of has its place.
  pub record HasHeader (d : D) (h : Header) : Type 0 where
    pub addressable : IsAddressable d
    pub ranged : IsHeader h
    pub room : header_nbytes + h.payload_len ≤ bs.nblocks d * block_size
    pub header_there : take header_nbytes (bytes d) ≡ hb.to_bytes h

  -- The header and the encrypted content are on disk.
  pub record IsStored (d : D) (key : K) (h : Header) (content : List ℕ) : Type 0 where
    pub addressable : IsAddressable d
    pub ranged : IsHeader h
    pub sized : h.payload_len ≡ length content
    pub room : header_nbytes + length content ≤ bs.nblocks d * block_size
    pub cipher : List ℕ
    pub header_there : take header_nbytes (bytes d) ≡ hb.to_bytes h
    pub cipher_there : take (length content) (drop header_nbytes (bytes d)) ≡ cipher
    pub decrypts : aead.decrypt cipher key (iv_of memory aead hb bs h.version) [] h.mac ≡ ok content

  -- A header that is unknown, or the one on disk.
  abbrev pub Known : Option Header → Header → Type 0
  Known none h = Unit {0}
  Known (some h') h = h' ≡ h

  pub alloc_ok : (n : ℕ) → 0 < n → alloc_buf memory n ≡ ok (memory.pages n)
  unfolding alloc_buf
  alloc_ok n h = rw (lt→==_swap 0 n h)

  -- The bytes that are written: the header, the encrypted payload, and the rest of the buffer.
  filled_lem :
      (head out buf : List ℕ)
      → length head ≡ header_nbytes
      → header_nbytes + length out ≤ length buf
      → splice (splice buf header_nbytes out) 0 head
        ≡ head ++ (out ++ drop (header_nbytes + length out) buf)
  filled_lem head out buf e h =
      ap (λ n. head ++ drop n (splice buf header_nbytes out)) {x = 0 + length head}
        {y = header_nbytes} (omega (arith, e))
      ∙ ap (λ l. head ++ l)
          (drop-append header_nbytes (take header_nbytes buf)
            (out ++ drop (header_nbytes + length out) buf)
            (omega (arith, length-take header_nbytes buf)))

  -- What `store_payload` writes: the payload behind its header.
  pub store_payload_lem :
      (d : D) (key : K) (version : ℕ) (input buf : List ℕ) (n : ℕ) (out mac : List ℕ)
      → IsAddressable d
      → version < 2 ^ 64
      → length buf ≡ n * block_size
      → n ≤ bs.nblocks d
      → header_nbytes + length input ≤ length buf
      → aead.encrypt input key (iv_of memory aead hb bs version) [] ≡ ok (out, mac)
      → (d' : D) × (store_payload memory aead hb bs d key version input buf
          ≡ ok (d', record { version = version; mac = mac; payload_len = length input }))
        × IsStored d' key
            (record { version = version; mac = mac; payload_len = length input })
            input
        × (bs.nblocks d' ≡ bs.nblocks d)
  unfolding store_payload block_size
  store_payload_lem d key version input buf n out mac a v sized le room e =
      let (d', written, same_bytes, same_size, holds) =
        store.write_in d 0 n whole a.holds whole_sized (omega (arith, a.in_range, le))
          (omega (arith, le)) in
      let on_disk : bytes d' ≡ head ++ (out ++ more) =
        same_bytes
        ∙ ap (λ k. whole ++ drop k (bytes d)) {x = 0 + length whole} {y = length whole}
            (omega arith)
        ∙ ap (λ b. b ++ drop (length whole) (bytes d)) filled
        ∙ append_assoc head (out ++ tail) (drop (length whole) (bytes d))
        ∙ ap (λ b. head ++ b) (append_assoc out tail (drop (length whole) (bytes d))) in
      let there = laid_out head out more header_nbytes (length input) head_sized out_sized in
      (
        d',
        rw (
          e,
          copy_ok buf 32 (32 + length input) out (omega (arith, out_sized)) (omega (arith, room)),
          copy_ok (splice buf 32 out) 0 32 head (omega (arith, head_sized))
              (omega (arith, room, length-splice buf 32 out (omega (arith, room, out_sized)))),
          written,
        ),
        record {
          addressable = record {
            holds = holds;
            some_block = omega (arith, same_size, a.some_block);
            in_range = omega (arith, same_size, a.in_range);
          };
          ranged = ranged;
          sized = refl;
          room = omega (arith, same_size, room, sized, le);
          cipher = out;
          header_there = ap (take 32) on_disk ∙ there.0;
          cipher_there = ap (λ b. take (length input) (drop 32 b)) on_disk ∙ there.1;
          decrypts = aead.decrypt-encrypt input key (iv_of memory aead hb bs version) [] out mac e;
        },
        same_size,
      )
    where
      out_sized : length out ≡ length input
      out_sized = (aead.length-encrypt input key (iv_of memory aead hb bs version) [] out mac e).0

      ranged : IsHeader (record { version = version; mac = mac; payload_len = length input })
      ranged = (
        v,
        (aead.length-encrypt input key (iv_of memory aead hb bs version) [] out mac e).1,
        omega (arith, room, sized, le, a.in_range),
      )

      head : List ℕ
      head = hb.to_bytes (record { version = version; mac = mac; payload_len = length input })

      head_sized : length head ≡ 32
      head_sized =
          hb.length-to_bytes (record { version = version; mac = mac; payload_len = length input })
            ranged

      tail : List ℕ
      tail = drop (32 + length out) buf

      whole : List ℕ
      whole = splice (splice buf 32 out) 0 head

      filled : whole ≡ head ++ (out ++ tail)
      filled = filled_lem head out buf head_sized (omega (arith, room, out_sized))

      whole_sized : length whole ≡ n * 4096
      whole_sized = omega (
        arith,
        sized,
        length-splice (splice buf 32 out) 0 head (
            omega
              (arith, head_sized, room, length-splice buf 32 out (omega (arith, room, out_sized)))),
        length-splice buf 32 out (omega (arith, room, out_sized)),
      )

      more : List ℕ
      more = tail ++ drop (length whole) (bytes d)

  -- The blocks of a payload hold it, and are no more than needed.
  pub blob_blocks_lem :
      (len : ℕ)
      → (0 < blob_blocks len)
        × (header_nbytes + len ≤ blob_blocks len * block_size)
        × ((n : ℕ) → header_nbytes + len ≤ n * block_size → blob_blocks len ≤ n)
  unfolding blob_blocks block_size
  blob_blocks_lem len = (omega arith, omega arith, λ n h. omega (arith, h))

  pub blob_capacity_lem :
      (d : D)
      → IsAddressable d
      → blob_capacity memory aead hb bs d ≡ ok (bs.nblocks d * block_size - header_nbytes)
  unfolding blob_capacity block_size
  blob_capacity_lem d a = rw (le→ltb 32 (bs.nblocks d * 4096) (omega (arith, a.some_block)))

  read_header_lem :
      (d : D) (key : K) (known : Option Header) (h : Header)
      → HasHeader d h
      → Known known h
      → read_header memory aead hb bs (record { block_set = d; key = key; header = known }) ≡ ok h
  unfolding read_header
  read_header_lem d key (some h') h s e = ap ok e
  read_header_lem d key none h s e =
      of_slice (read_slice memory bs d 0 32)
        (read_slice_lem memory store d 0 32 s.addressable.holds (omega arith) (omega arith))
    where
      of_slice :
          (o : Outcome (List ℕ))
          → ReadsSlice memory store d 0 32 o
          → (o >>= λ b. ok (hb.from_bytes b)) ≡ ok h
      of_slice (ok out) (le, same) =
          ap (λ b. ok (hb.from_bytes b)) (same ∙ s.header_there)
          ∙ ap ok (hb.from-to_bytes h s.ranged)
      of_slice (err e) (lt, same) =
          absurd (omega (arith, lt, s.room, store.size d s.addressable.holds))
      of_slice panic c = absurd c

  -- Reading decrypts what lies behind the header on disk.
  pub read_blob-decrypt :
      (b : CryptoBlob D K) (h : Header) (buf_len : ℕ)
      → HasHeader b.block_set h
      → Known b.header h
      → h.payload_len ≤ buf_len
      → read_blob memory aead hb bs b buf_len ≡ (
          aead.decrypt
            (take h.payload_len (drop header_nbytes (bytes b.block_set)))
            b.key
            (iv_of memory aead hb bs h.version)
            []
            h.mac
          >>= λ payload. ok (record b { header = some h }, payload))
  unfolding read_blob block_size
  read_blob-decrypt b h buf_len s known room = rw (
    read_header_lem b.block_set b.key b.header h s known,
    blob_capacity_lem b.block_set s.addressable,
    le→leb h.payload_len (bs.nblocks b.block_set * 4096 - 32) (omega (arith, s.room)),
    le→leb h.payload_len buf_len room,
    alloc_ok (blob_blocks h.payload_len) (blob_blocks_lem h.payload_len).0,
    store.read_in b.block_set 0 n s.addressable.holds
        (omega (arith, in_set, s.addressable.in_range)) (omega (arith, in_set)),
    slice_ok blocks 32 (32 + h.payload_len) (omega arith)
        (omega (arith, (blob_blocks_lem h.payload_len).1, blocks_sized)),
    there,
  )
    where
      n : ℕ
      n = blob_blocks h.payload_len

      in_set : n ≤ bs.nblocks b.block_set
      in_set = (blob_blocks_lem h.payload_len).2 (bs.nblocks b.block_set) (omega (arith, s.room))

      blocks : List ℕ
      blocks = take (n * 4096) (drop (0 * 4096) (bytes b.block_set))

      blocks_sized : length blocks ≡ n * 4096
      blocks_sized = omega (
        arith,
        length-take (n * 4096) (bytes b.block_set),
        store.size b.block_set s.addressable.holds,
        in_set,
      )

      there :
          take (32 + h.payload_len - 32) (drop 32 blocks)
          ≡ take h.payload_len (drop 32 (bytes b.block_set))
      there =
          ap (λ k. take k (drop 32 blocks)) {x = 32 + h.payload_len - 32} {y = h.payload_len}
            (omega arith)
          ∙ slice-slice (bytes b.block_set) 0 (n * 4096) 32 h.payload_len
              (omega (arith, (blob_blocks_lem h.payload_len).1))

  -- A buffer that is too small for the payload of the header on disk.
  pub read_blob-small :
      (b : CryptoBlob D K) (h : Header) (buf_len : ℕ)
      → HasHeader b.block_set h
      → Known b.header h
      → buf_len < h.payload_len
      → read_blob memory aead hb bs b buf_len ≡ err Errno.out_of_disk
  unfolding read_blob block_size
  read_blob-small b h buf_len s known small = rw (
    read_header_lem b.block_set b.key b.header h s known,
    blob_capacity_lem b.block_set s.addressable,
    le→leb h.payload_len (bs.nblocks b.block_set * 4096 - 32) (omega (arith, s.room)),
    lt→leb buf_len h.payload_len small,
  )

  -- A blob with the key of a stored content, whose header is unknown or the one on disk,
  -- reads it into any buffer that is large enough, and knows the header from then on.
  pub read_blob_lem :
      (b : CryptoBlob D K) (h : Header) (content : List ℕ) (buf_len : ℕ)
      → IsStored b.block_set b.key h content
      → Known b.header h
      → length content ≤ buf_len
      → read_blob memory aead hb bs b buf_len ≡ ok (record b { header = some h }, content)
  read_blob_lem b h content buf_len s known room =
      read_blob-decrypt b h buf_len
        (record {
          addressable = s.addressable;
          ranged = s.ranged;
          room = omega (arith, s.room, s.sized);
          header_there = s.header_there;
        })
        known (omega (arith, room, s.sized))
      ∙ ap (λ o. o >>= λ payload. ok (record b { header = some h }, payload))
          (ap (λ c. aead.decrypt c b.key (iv_of memory aead hb bs h.version) [] h.mac)
              (ap (λ k. take k (drop header_nbytes (bytes b.block_set))) s.sized ∙ s.cipher_there)
            ∙ s.decrypts)
