-- ===== src/AllocTable/Tests.antt =====
-- Runs of the block validity table, and its theorems at concrete tables.
use mlsdisk.Base.{[], arith, get_elem?, ok, panic, refl, some, true, unwrap, ◌>>=◌, ◌∷◌, ◌≡◌}
use mlsdisk.Bittle.Sample.{sample_bittle}
use mlsdisk.BitMap.{first_one, first_ones, repeat, set_to}
use mlsdisk.AllocTable.{
  AllocDiff, AllocTable, DiffTable, alloc_batch, alloc_slot, book, new_table, update_alloc_table,
}
use mlsdisk.AllocTable.Take.{IsConsistent, free}
use mlsdisk.AllocTable.Batch.{Batches, alloc_batch_lem, new_table_lem}
use mlsdisk.AllocTable.Update.{Updates, update_alloc_table_lem}
use mlsdisk.AllocTable.Slot.{Slots, alloc_slot_lem}

abbrev four_blocks : AllocTable
four_blocks = new_table 4

four_blocks-IsConsistent : IsConsistent four_blocks
four_blocks-IsConsistent = (new_table_lem 4 (omega arith)).0

-- Three blocks are taken; one of them is given back.
batch-three : (alloc_batch four_blocks 3 >>= λ r. unwrap r >>= λ p. ok p.0) ≡ ok (0 ∷ 1 ∷ 2 ∷ [])
unfolding alloc_batch book new_table repeat set_to first_one first_ones sample_bittle
batch-three = refl

-- The last block was taken by `alloc`, block 1 is free.
abbrev at_end : AllocTable
at_end = record {
  bitmap = record { bits = 2 ∷ []; nbits = 4 };
  next_avail = 4;
  nblocks = 4;
  is_dirty = true;
  num_free = 1;
}

at_end-IsConsistent : IsConsistent at_end
at_end-IsConsistent = record {
  map_valid = record { sized = refl; padded = refl; fits = omega arith };
  same_length = refl;
  counted = refl;
  next_in = omega arith;
  addressable = omega arith;
}

-- `alloc` panics though block 1 is free.
alloc_slot-at_end : (alloc_slot at_end ≡ panic) × (get_elem? (free at_end) 1 ≡ some true)
unfolding alloc_slot first_one sample_bittle
alloc_slot-at_end = (refl, refl)

alloc_slot_lem_example : Slots at_end (alloc_slot at_end)
alloc_slot_lem_example = alloc_slot_lem at_end at_end-IsConsistent

alloc_batch_lem_example : Batches four_blocks 3 (alloc_batch four_blocks 3)
alloc_batch_lem_example = alloc_batch_lem four_blocks 3 four_blocks-IsConsistent (omega arith)

abbrev diffs : DiffTable
diffs = (0, AllocDiff.dealloc) ∷ (2, AllocDiff.alloc) ∷ []

update_alloc_table_lem_example : Updates diffs at_end (update_alloc_table diffs at_end)
update_alloc_table_lem_example =
    update_alloc_table_lem diffs at_end at_end-IsConsistent (refl, (refl, tt))
