-- ===== src/Log/Tests.antt =====
-- The theorems of the ring at a small disk.
use mlsdisk.Base.{List, arith, length-replicate, refl, replicate, some, ℕ, ◌*◌}
use mlsdisk.Blocks.{block_size, disk_nblocks, mem_disk}
use mlsdisk.Blocks.Store.{mem_disk-IsStore, whole}
use mlsdisk.Log.{BlockRing, append_ring}
use mlsdisk.Log.Ring.{Appends, append_ring_lem}

abbrev blank : List ℕ
blank = replicate (4 * 4096) 0

-- A ring of four blocks, whose cursor is in its second round.
abbrev ring_6 : BlockRing (List ℕ)
ring_6 = record { storage = blank; cursor = some 6 }

append_ring_lem_example :
    Appends
      (mem_disk (whole 4))
      (mem_disk-IsStore 4)
      ring_6
      6
      (replicate 4096 9)
      (append_ring (mem_disk (whole 4)) ring_6 (replicate 4096 9))
unfolding block_size disk_nblocks
append_ring_lem_example =
    append_ring_lem (mem_disk (whole 4)) (mem_disk-IsStore 4) ring_6 6 (replicate 4096 9)
      (record {
        holds = length-replicate {A = ℕ} (4 * 4096) 0;
        at = refl;
        some_block = omega arith;
        in_range = omega arith;
      })
      (length-replicate {A = ℕ} 4096 9)
