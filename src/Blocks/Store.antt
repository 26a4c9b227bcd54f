-- ===== src/Blocks/Store.antt =====
-- What a set of blocks promises, over its bytes, and `MemDisk` as such a set.
use mlsdisk.Base.{
  Errno, List, ap, arith, drop, err, length, le→ltb, lt→leb, ok, refl, take, ℕ, ◌*◌, ◌+◌, ◌-◌, ◌/◌,
  ◌<◌, ◌^◌, ◌∙◌, ◌≡◌, ◌≤◌,
}
use mlsdisk.Blocks.{
  BlockSet, Region, block_size, disk_nblocks, disk_read, disk_write, mem_disk, splice,
}
use mlsdisk.Blocks.Bytes.{copy_ok, length-splice, slice_ok}

-- Blocks within the set are read and written as the bytes at their place; others are refused.
-- `Holds` is the invariant of the state.
pub record IsStore {D : Type 0} (bs : BlockSet D) (bytes : D → List ℕ) (Holds : D → Type 0)
    : Type 0 where
  pub size : (d : D) → Holds d → length (bytes d) ≡ bs.nblocks d * block_size
  pub read_in :
      (d : D) (pos n : ℕ)
      → Holds d
      → pos + n < 2 ^ 64
      → pos + n ≤ bs.nblocks d
      → bs.read d pos n ≡ ok (take (n * block_size) (drop (pos * block_size) (bytes d)))
  pub read_out :
      (d : D) (pos n : ℕ)
      → Holds d
      → pos + n < 2 ^ 64
      → bs.nblocks d < pos + n
      → bs.read d pos n ≡ err Errno.invalid_args
  pub write_in :
      (d : D) (pos n : ℕ) (buf : List ℕ)
      → Holds d
      → length buf ≡ n * block_size
      → pos + n < 2 ^ 64
      → pos + n ≤ bs.nblocks d
      → (d' : D) × (bs.write d pos buf ≡ ok d')
        × (bytes d' ≡ splice (bytes d) (pos * block_size) buf)
        × (bs.nblocks d' ≡ bs.nblocks d)
        × Holds d'
  pub write_out :
      (d : D) (pos n : ℕ) (buf : List ℕ)
      → Holds d
      → length buf ≡ n * block_size
      → pos + n < 2 ^ 64
      → bs.nblocks d < pos + n
      → bs.write d pos buf ≡ err Errno.invalid_args

-- The region of a disk as a whole.
abbrev pub whole : ℕ → Region
whole n = record { start = 0; end = n }

-- Reading and writing within the disk, through any region whose end is far enough.
pub read_within :
    (r : Region) (disk : List ℕ) (pos k : ℕ)
    → pos + k < 2 ^ 64
    → pos + k ≤ r.end
    → (r.start + pos + k) * block_size ≤ length disk
    → disk_read r disk pos k ≡ ok (take (k * block_size) (drop ((r.start + pos) * block_size) disk))
unfolding disk_read block_size
read_within r disk pos k f le h =
    rw (lt→leb (pos + k) (2 ^ 64) f, le→ltb (pos + k) r.end le)
      (slice_ok disk at (at + k * 4096) (omega arith) (omega (arith, h))
        ∙ ap (λ m. ok (take m (drop at disk))) {x = at + k * 4096 - at} {y = k * 4096}
            (omega arith))
  where
    at : ℕ
    at = (r.start + pos) * 4096

pub write_within :
    (r : Region) (disk : List ℕ) (pos k : ℕ) (buf : List ℕ)
    → length buf ≡ k * block_size
    → pos + k < 2 ^ 64
    → pos + k ≤ r.end
    → (r.start + pos + k) * block_size ≤ length disk
    → disk_write r disk pos buf ≡ ok (splice disk ((r.start + pos) * block_size) buf)
unfolding disk_write block_size
write_within r disk pos k buf e f le h =
    rw (blocks, lt→leb (pos + k) (2 ^ 64) f, le→ltb (pos + k) r.end le)
      (copy_ok disk at (at + length buf) buf refl (omega (arith, h, e)))
  where
    at : ℕ
    at = (r.start + pos) * 4096

    blocks : length buf / 4096 ≡ k
    blocks = omega (arith, e)

read_whole :
    (n : ℕ) (disk : List ℕ) (pos k : ℕ)
    → length disk ≡ n * block_size
    → pos + k < 2 ^ 64
    → pos + k ≤ n
    → disk_read (whole n) disk pos k ≡ ok (take (k * block_size) (drop (pos * block_size) disk))
unfolding block_size
read_whole n disk pos k h f le =
    read_within (whole n) disk pos k f le (omega (arith, h))
    ∙ ap (λ i. ok (take (k * 4096) (drop i disk))) {x = (0 + pos) * 4096} {y = pos * 4096}
        (omega arith)

write_whole :
    (n : ℕ) (disk : List ℕ) (pos k : ℕ) (buf : List ℕ)
    → length disk ≡ n * block_size
    → length buf ≡ k * block_size
    → pos + k < 2 ^ 64
    → pos + k ≤ n
    → disk_write (whole n) disk pos buf ≡ ok (splice disk (pos * block_size) buf)
unfolding block_size
write_whole n disk pos k buf h e f le =
    write_within (whole n) disk pos k buf e f le (omega (arith, h))
    ∙ ap (λ i. ok (splice disk i buf)) {x = (0 + pos) * 4096} {y = pos * 4096} (omega arith)

-- `MemDisk` over all blocks of a disk keeps the promise of a set of blocks: it reads and
-- writes the bytes of the blocks that are asked for, and refuses a read and a write that goes
-- past the end with `InvalidArgs`.
pub mem_disk-IsStore :
    (n : ℕ) → IsStore (mem_disk (whole n)) (λ disk. disk) (λ disk. length disk ≡ n * block_size)
unfolding disk_read disk_write disk_nblocks block_size
mem_disk-IsStore n = record {
  size = λ disk h. h ∙ ap (λ k. k * 4096) {x = n} {y = n - 0} (omega arith);
  read_in = λ disk pos k h f le. read_whole n disk pos k h f (omega arith);
  read_out = λ disk pos k h f lt. ground arith;
  write_in = λ disk pos k buf h e f le. (
    splice disk (pos * 4096) buf,
    write_whole n disk pos k buf h e f (omega arith),
    refl,
    refl,
    length-splice disk (pos * 4096) buf (omega (arith, h, e)) ∙ h,
  );
  write_out = λ disk pos k buf h e f lt.
      let blocks : length buf / 4096 ≡ k = omega (arith, e) in ground (arith, blocks);
}

-- Through a region that starts behind the first block of the disk and ends before its last, a
-- write of one block past the region's end succeeds, and changes the block of the disk behind it.
pub write_past_end :
    (r : Region) (disk buf : List ℕ)
    → 0 < r.start
    → r.start ≤ r.end
    → r.end + 1 < 2 ^ 64
    → (r.end + 1) * block_size ≤ length disk
    → length buf ≡ block_size
    → disk_write r disk (disk_nblocks r) buf ≡ ok (splice disk (r.end * block_size) buf)
unfolding disk_nblocks block_size
write_past_end r disk buf pos le f h e =
    write_within r disk (r.end - r.start) 1 buf (omega (arith, e)) (omega arith) (omega arith)
      (omega (arith, h))
    ∙ ap (λ i. ok (splice disk i buf)) {x = (r.start + (r.end - r.start)) * 4096} {y = r.end * 4096}
        (omega arith)
