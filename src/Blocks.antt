-- ===== src/Blocks.antt =====
-- Sets of blocks, core/src/layers/0-bio/block_set.rs, with `Buf::alloc` of
-- core/src/layers/0-bio/block_buf.rs. Bytes are numbers, a buffer is the list of its bytes. The
-- disk that a `MemDisk` shares with its subsets is a state of its own beside their regions.
pub mod Bytes
pub mod Store
pub mod Slices
pub mod Steps
pub mod WriteSlice
pub mod RoundTrip
mod Tests
use mlsdisk.Base.{
  Errno, List, Outcome, add_usize, drop, err, if◌then◌else◌, leb, length, ltb, ok, panic, sub_usize,
  take, ℕ, ◌%◌, ◌&&◌, ◌*◌, ◌++◌, ◌+◌, ◌-◌, ◌/◌, ◌==◌, ◌>>=◌, ◌>>◌, ◌≡◌,
}

-- `BLOCK_SIZE` of core/src/layers/0-bio/mod.rs
unfoldable pub block_size : ℕ
block_size = 4096

-- `&m[a..b]`
abbrev pub slice : List ℕ → ℕ → ℕ → Outcome (List ℕ)
slice m a b = if leb a b && leb b (length m) then ok (take (b - a) (drop a m)) else panic

-- The bytes `m` with those from `a` on replaced by `src`.
abbrev pub splice : List ℕ → ℕ → List ℕ → List ℕ
splice m a src = take a m ++ (src ++ drop (a + length src) m)

-- `m[a..b].copy_from_slice(src)`
abbrev pub copy_from_slice : List ℕ → ℕ → ℕ → List ℕ → Outcome (List ℕ)
copy_from_slice m a b src =
    if leb a b && leb b (length m) && (b - a == length src) then ok (splice m a src) else panic

-- Memory from `Pages::alloc`, with enough of it: so many blocks, whose bytes may be any.
pub record Memory : Type 0 where
  pub pages : ℕ → List ℕ
  pub length-pages : (n : ℕ) → length (pages n) ≡ n * block_size

-- `Buf::alloc`
unfoldable pub alloc_buf : Memory → ℕ → Outcome (List ℕ)
alloc_buf memory num_blocks =
    if num_blocks == 0 then err Errno.invalid_args else ok (memory.pages num_blocks)

-- `trait BlockSet`, over the state `D`: `read` takes the number of blocks of the buffer that it
-- fills, and gives the bytes.
pub record BlockSet (D : Type 0) : Type 0 where
  pub read : D → ℕ → ℕ → Outcome (List ℕ)
  pub write : D → ℕ → List ℕ → Outcome D
  pub nblocks : D → ℕ

-- `(offset + len + BLOCK_SIZE - 1) / BLOCK_SIZE`
pub end_block : ℕ → ℕ → Outcome ℕ
unfolding block_size
end_block offset len = do
  sum ← add_usize offset len
  rounded ← add_usize sum block_size
  ok ((rounded - 1) / block_size)

module _ (memory : Memory) {D : Type 0} (bs : BlockSet D) where
  -- `BlockSet::read_slice`
  pub read_slice : D → ℕ → ℕ → Outcome (List ℕ)
  unfolding block_size alloc_buf end_block
  read_slice d offset len = do
    let start_pos : ℕ = offset / block_size
    end_pos ← end_block offset len
    if ltb (bs.nblocks d) end_pos then err Errno.invalid_args else (do
      nblocks ← sub_usize end_pos start_pos
      buf ← alloc_buf memory nblocks
      blocks ← bs.read d start_pos nblocks
      slice blocks (offset % block_size) (offset % block_size + len))

  -- The first block, which is written in part.
  pub read_start : D → ℕ → ℕ → List ℕ → Outcome (List ℕ)
  unfolding alloc_buf
  read_start d start_pos start_offset blocks = if start_offset == 0 then ok blocks else (do
    buf ← alloc_buf memory 1
    start_block ← bs.read d start_pos 1
    bytes ← slice start_block 0 start_offset
    copy_from_slice blocks 0 start_offset bytes)

  -- The last block, which is written in part.
  pub read_end : D → ℕ → ℕ → List ℕ → Outcome (List ℕ)
  unfolding block_size alloc_buf
  read_end d end_pos end_offset blocks = if end_offset % block_size == 0 then ok blocks else (do
    buf ← alloc_buf memory 1
    last ← bs.read d end_pos 1
    bytes ← slice last (end_offset % block_size) (length last)
    copy_from_slice blocks end_offset (length blocks) bytes)

  -- `BlockSet::write_slice`
  pub write_slice : D → ℕ → List ℕ → Outcome D
  unfolding block_size alloc_buf end_block read_start read_end
  write_slice d offset buf = do
    let start_pos : ℕ = offset / block_size
    let start_offset : ℕ = offset % block_size
    let end_offset : ℕ = start_offset + length buf
    end_pos ← end_block offset (length buf)
    if ltb (bs.nblocks d) end_pos then err Errno.invalid_args else (do
      nblocks ← sub_usize end_pos start_pos
      fresh ← alloc_buf memory nblocks
      started ← read_start d start_pos start_offset fresh
      filled ← copy_from_slice started start_offset end_offset buf
      blocks ← read_end d end_pos end_offset filled
      bs.write d start_pos blocks)

-- The `region` of a `MemDisk`.
pub record Region : Type 0 where
  pub start : ℕ
  pub end : ℕ

-- `MemDisk::create`: the disk and the region
pub create : Memory → ℕ → Outcome (List ℕ × Region)
unfolding alloc_buf
create memory num_blocks =
    alloc_buf memory num_blocks >>= λ blocks. ok (blocks, record { start = 0; end = num_blocks })

-- `MemDisk::read`
pub disk_read : Region → List ℕ → ℕ → ℕ → Outcome (List ℕ)
unfolding block_size
disk_read region disk pos nblocks = do
  sum ← add_usize pos nblocks
  if ltb region.end sum
      then err Errno.invalid_args
      else (let offset = (region.start + pos) * block_size in
          slice disk offset (offset + nblocks * block_size))

-- `MemDisk::write`
unfoldable pub disk_write : Region → List ℕ → ℕ → List ℕ → Outcome (List ℕ)
unfolding block_size
disk_write region disk pos buf = do
  sum ← add_usize pos (length buf / block_size)
  if ltb region.end sum
      then err Errno.invalid_args
      else (let offset = (region.start + pos) * block_size in
          copy_from_slice disk offset (offset + length buf) buf)

-- `MemDisk::subset`
pub subset : Region → ℕ → ℕ → Outcome Region
subset region range_start range_end = do
  end ← add_usize region.start range_end
  if ltb region.end end
      then err Errno.invalid_args
      else (do start ← add_usize region.start range_start; ok (record { start = start; end = end }))

-- `MemDisk::nblocks`: the length of a range, which is 0 if it ends before its start
unfoldable pub disk_nblocks : Region → ℕ
disk_nblocks region = region.end - region.start

-- `impl BlockSet for MemDisk`
abbrev pub mem_disk : Region → BlockSet (List ℕ)
mem_disk region = record {
  read = disk_read region;
  write = disk_write region;
  nblocks = λ _. disk_nblocks region;
}
