-- ===== src/Chunk/Alloc/Tests.antt =====
-- Runs of the chunk allocator, and its theorems at concrete states.
use mlsdisk.Base.{List, [], arith, false, ok, refl, replicate, true, ◌∷◌, ◌≡◌}
use mlsdisk.Bittle.Sample.{sample_bittle}
use mlsdisk.BitMap.{first_zero, repeat, set_to, test_bit}
use mlsdisk.Chunk.{
  ChunkAllocState, ChunkEdit, alloc_chunk, capacity, dealloc_chunk, new_state, record_alloc,
  record_dealloc,
}
use mlsdisk.Chunk.State.{Allocates, IsConsistent, alloc_chunk_lem, allocated, new_state_lem}
use mlsdisk.Chunk.Alloc.{
  Call, ChunkAlloc, abort, alloc, alloc_batch, call_alloc, call_alloc_batch, call_dealloc, commit,
  dealloc, from_parts, run,
}
use mlsdisk.Chunk.Alloc.Invariant.{from_parts-Pending}
use mlsdisk.Chunk.Alloc.Calls.{Keeps, run-Keeps}
use mlsdisk.Chunk.Alloc.Ends.{Commits, Restores, abort-run, commit-run}

abbrev four_chunks : ChunkAllocState
four_chunks = new_state false 4

four_chunks-IsConsistent : IsConsistent four_chunks
four_chunks-IsConsistent = (new_state_lem false 4 (omega arith)).0

-- The two allocations take chunks 0 and 1; freeing a chunk of the same transaction takes effect at
-- once.
abbrev calls : List Call
calls = call_alloc ∷ call_alloc_batch 2 ∷ call_dealloc 1 ∷ []

abbrev after_calls : ChunkAlloc
after_calls = record {
  state = record {
    alloc_map = record { bits = 5 ∷ []; nbits = 4 };
    free_count = 2;
    next_free = 3;
    in_journal = false;
  };
  edit = (0, ChunkEdit.alloc) ∷ (2, ChunkEdit.alloc) ∷ [];
}

run-calls : run calls (from_parts four_chunks) ≡ ok after_calls
unfolding run alloc alloc_batch dealloc record_alloc record_dealloc alloc_chunk dealloc_chunk
    from_parts new_state repeat set_to test_bit first_zero sample_bittle
run-calls = refl

new_state_lem_example :
    IsConsistent (new_state true 4)
    × (allocated (new_state true 4) ≡ replicate 4 false)
    × (capacity (new_state true 4) ≡ 4)
new_state_lem_example = new_state_lem true 4 (omega arith)

alloc_chunk_lem_example : Allocates four_chunks (alloc_chunk four_chunks)
alloc_chunk_lem_example = alloc_chunk_lem four_chunks four_chunks-IsConsistent

run-Keeps_example : Keeps (allocated four_chunks) (run calls (from_parts four_chunks))
run-Keeps_example =
    run-Keeps (allocated four_chunks) calls (from_parts four_chunks)
      (from_parts-Pending four_chunks four_chunks-IsConsistent)

abort-run_example : Restores (allocated four_chunks) (abort after_calls)
abort-run_example = abort-run four_chunks calls after_calls four_chunks-IsConsistent run-calls

commit-run_example : Commits (allocated four_chunks) after_calls.edit (commit after_calls)
commit-run_example = commit-run four_chunks calls after_calls four_chunks-IsConsistent run-calls
