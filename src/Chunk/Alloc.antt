-- ===== src/Chunk/Alloc.antt =====
-- `ChunkAlloc`: the operations of the allocator inside a transaction, and the handlers that it
-- registers for commit and abort.
pub mod Invariant
pub mod Calls
pub mod Ends
mod Tests
use mlsdisk.Base.{
  List, Option, Outcome, [], false, if◌then◌else◌, none, ok, some, sort, suc, zero, ℕ, ◌++◌, ◌>>=◌,
  ◌>>◌, ◌∷◌,
}
use mlsdisk.Bittle.{Bittle, count}
use mlsdisk.Chunk.{
  ChunkAllocEdit, ChunkAllocState, ChunkEdit, alloc_chunk, apply_to, chunks_with, dealloc_chunk,
  dealloc_chunks, empty_edit, is_empty_edit, record_alloc, record_dealloc,
}

-- The shared state, and the edit that is the data of the current transaction.
pub record ChunkAlloc : Type 0 where
  pub state : ChunkAllocState
  pub edit : ChunkAllocEdit

-- What the code inside a transaction asks of the allocator.
pub data Call : Type 0 where
  call_alloc : Call
  call_alloc_batch : ℕ → Call
  call_dealloc : ℕ → Call
  call_dealloc_batch : List ℕ → Call

module _ ⦃bt : Bittle⦄ where
  -- `from_parts`, with the empty edit that the registered initializer gives a new transaction
  pub from_parts : ChunkAllocState → ChunkAlloc
  from_parts s = record { state = record s { in_journal = false }; edit = empty_edit }

  -- `ChunkAlloc::alloc`
  pub alloc : ChunkAlloc → Outcome (Option ℕ × ChunkAlloc)
  alloc t = do
    r ← alloc_chunk t.state
    elim r.0 [
      | none ↦ ok (none, record t { state = r.1 })
      | some chunk_id ↦ record_alloc t.edit chunk_id >>= λ edit.
          ok (some chunk_id, record { state = r.1; edit = edit })
    ]

  -- The loop of `alloc_batch` that takes `count` chunks, and gives them back if one is missing.
  pub take_chunks : ℕ → List ℕ → ChunkAllocState → Outcome (Option (List ℕ) × ChunkAllocState)
  take_chunks zero ids s = ok (some ids, s)
  take_chunks (suc count) ids s = do
    r ← alloc_chunk s
    elim r.0 [
      | some id ↦ take_chunks count (ids ++ (id ∷ [])) r.1
      | none ↦ dealloc_chunks r.1 ids >>= λ s'. ok (none, s')
    ]

  -- The loop of `alloc_batch` that records the chunks.
  pub record_allocs : ChunkAllocEdit → List ℕ → Outcome ChunkAllocEdit
  record_allocs edit [] = ok edit
  record_allocs edit (chunk_id ∷ chunk_ids) =
      record_alloc edit chunk_id >>= λ edit'. record_allocs edit' chunk_ids

  -- `ChunkAlloc::alloc_batch`
  pub alloc_batch : ChunkAlloc → ℕ → Outcome (Option (List ℕ) × ChunkAlloc)
  unfolding take_chunks record_allocs
  alloc_batch t count = do
    r ← take_chunks count [] t.state
    elim r.0 [
      | none ↦ ok (none, record t { state = r.1 })
      | some ids ↦ record_allocs t.edit (sort ids) >>= λ edit.
          ok (some (sort ids), record { state = r.1; edit = edit })
    ]

  -- `ChunkAlloc::dealloc`
  pub dealloc : ChunkAlloc → ℕ → Outcome ChunkAlloc
  dealloc t chunk_id = do
    r ← record_dealloc t.edit chunk_id
    if r.0
        then (dealloc_chunk t.state chunk_id >>= λ s. ok (record { state = s; edit = r.1 }))
        else ok (record t { edit = r.1 })

  -- `ChunkAlloc::dealloc_batch`
  pub dealloc_batch : ChunkAlloc → List ℕ → Outcome ChunkAlloc
  unfolding dealloc
  dealloc_batch t [] = ok t
  dealloc_batch t (chunk_id ∷ chunk_ids) = dealloc t chunk_id >>= λ t'. dealloc_batch t' chunk_ids

  -- The commit handler.
  pub commit : ChunkAlloc → Outcome ChunkAllocState
  commit t = if is_empty_edit t.edit then ok t.state else apply_to t.edit t.state

  -- The abort handler.
  pub abort : ChunkAlloc → Outcome ChunkAllocState
  abort t = dealloc_chunks t.state (chunks_with ChunkEdit.alloc t.edit)

  -- One call, its result dropped, and a sequence of calls.
  pub step : Call → ChunkAlloc → Outcome ChunkAlloc
  step call_alloc t = alloc t >>= λ r. ok r.1
  step (call_alloc_batch count) t = alloc_batch t count >>= λ r. ok r.1
  step (call_dealloc chunk_id) t = dealloc t chunk_id
  step (call_dealloc_batch chunk_ids) t = dealloc_batch t chunk_ids

  pub run : List Call → ChunkAlloc → Outcome ChunkAlloc
  unfolding step
  run [] t = ok t
  run (call ∷ calls) t = step call t >>= λ t'. run calls t'
