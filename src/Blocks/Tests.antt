-- ===== src/Blocks/Tests.antt =====
-- Runs of a small disk, and the theorems at it.
use mlsdisk.Base.{List, [], arith, length, length-replicate, ok, replicate, ℕ, ◌*◌, ◌>>=◌, ◌∷◌, ◌≡◌}
use mlsdisk.Blocks.{
  Memory, block_size, disk_nblocks, disk_write, mem_disk, read_slice, splice, write_slice,
}
use mlsdisk.Blocks.Store.{IsStore, mem_disk-IsStore, whole, write_past_end}
use mlsdisk.Blocks.WriteSlice.{WritesSlice, write_slice_lem}
use mlsdisk.Blocks.RoundTrip.{write_slice-read_slice}

abbrev zeroed : Memory
zeroed = record {
  pages = λ n. replicate (n * block_size) 0;
  length-pages = λ n. length-replicate (n * block_size) 0;
}

abbrev two_blocks : List ℕ
two_blocks = replicate (2 * block_size) 1

two_blocks-Holds : length two_blocks ≡ 2 * block_size
two_blocks-Holds = length-replicate (2 * block_size) 1

mem_disk-IsStore_example :
    IsStore (mem_disk (whole 2)) (λ disk. disk) (λ disk. length disk ≡ 2 * block_size)
mem_disk-IsStore_example = mem_disk-IsStore 2

write_slice_lem_example :
    WritesSlice zeroed
      (mem_disk-IsStore 2)
      two_blocks
      10
      (7 ∷ 8 ∷ [])
      (write_slice zeroed (mem_disk (whole 2)) two_blocks 10 (7 ∷ 8 ∷ []))
write_slice_lem_example =
    write_slice_lem zeroed (mem_disk-IsStore 2) two_blocks 10 (7 ∷ 8 ∷ []) two_blocks-Holds
      (omega arith) (omega arith)

write_past_end_example :
    disk_write
      (record { start = 1; end = 1 })
      two_blocks
      (disk_nblocks (record { start = 1; end = 1 }))
      (replicate block_size 5)
    ≡ ok (splice two_blocks (1 * block_size) (replicate block_size 5))
write_past_end_example =
    write_past_end (record { start = 1; end = 1 }) two_blocks (replicate block_size 5) (omega arith)
      (omega arith) (omega arith) (omega (arith, two_blocks-Holds)) (length-replicate block_size 5)

write_slice-read_slice_example :
    (write_slice zeroed (mem_disk (whole 2)) two_blocks 10 (7 ∷ 8 ∷ []) >>= λ d'.
    read_slice zeroed (mem_disk (whole 2)) d' 10 2)
    ≡ ok (7 ∷ 8 ∷ [])
unfolding block_size
write_slice-read_slice_example =
    write_slice-read_slice zeroed (mem_disk-IsStore 2) two_blocks 10 (7 ∷ 8 ∷ []) two_blocks-Holds
      (omega arith) (omega arith) (omega (arith, two_blocks-Holds))
