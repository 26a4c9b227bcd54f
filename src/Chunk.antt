-- ===== src/Chunk.antt =====
-- The chunk allocator of core/src/layers/3-log/chunk.rs: `ChunkAllocState`, the per-transaction
-- `ChunkAllocEdit`, and `ChunkAlloc`, whose mutex-protected state and current transaction's edit
-- are passed explicitly.
pub mod State
pub mod Edit
pub mod Alloc
use mlsdisk.Base.{
  Bool, List, Option, Outcome, [], assert, false, if◌then◌else◌, insert, lookup, none, ok, panic,
  remove, some, sub_usize, true, unwrap, ℕ, ◌+◌, ◌==◌, ◌>>=◌, ◌>>◌, ◌∷◌,
}
use mlsdisk.Bittle.{Bittle}
use mlsdisk.BitMap.{BitMap, first_zero, len, repeat, set_to, test_bit}

pub record ChunkAllocState : Type 0 where
  pub alloc_map : BitMap
  pub free_count : ℕ
  pub next_free : ℕ
  pub in_journal : Bool

pub data ChunkEdit : Type 0 where
  alloc dealloc : ChunkEdit

-- `ChunkAllocEdit`, by its `edit_table`
abbrev pub ChunkAllocEdit : Type 0
ChunkAllocEdit = List (ℕ × ChunkEdit)

-- `ChunkAllocState::capacity` and `free_count`
abbrev pub capacity : ChunkAllocState → ℕ
capacity s = len s.alloc_map

module _ ⦃bt : Bittle⦄ where
  -- `ChunkAllocState::new` and `new_in_journal`
  pub new_state : Bool → ℕ → ChunkAllocState
  new_state in_journal capacity = record {
    alloc_map = repeat false capacity;
    free_count = capacity;
    next_free = 0;
    in_journal = in_journal;
  }

  -- The free chunk that `alloc` takes: the first from `next_free` on, else the first of all.
  pub next_chunk : ChunkAllocState → Outcome ℕ
  next_chunk s = do
    let next_free : ℕ = if s.next_free == capacity s then 0 else s.next_free
    found ← first_zero s.alloc_map next_free
    elim found [ some chunk_id ↦ ok chunk_id | none ↦ first_zero s.alloc_map 0 >>= unwrap ]

  -- `ChunkAllocState::alloc`
  pub alloc_chunk : ChunkAllocState → Outcome (Option ℕ × ChunkAllocState)
  unfolding next_chunk
  alloc_chunk s = do
    free_chunk_id ← next_chunk s
    alloc_map ← set_to s.alloc_map free_chunk_id true
    free_count ← sub_usize s.free_count 1
    ok (
      some free_chunk_id,
      record s { alloc_map = alloc_map; free_count = free_count; next_free = free_chunk_id + 1 },
    )

  -- `ChunkAllocState::dealloc`
  pub dealloc_chunk : ChunkAllocState → ℕ → Outcome ChunkAllocState
  dealloc_chunk s chunk_id = do
    allocated ← test_bit s.alloc_map chunk_id
    assert allocated
    alloc_map ← set_to s.alloc_map chunk_id false
    ok (record s { alloc_map = alloc_map; free_count = s.free_count + 1 })

  -- `ChunkAllocState::is_chunk_allocated`
  pub is_chunk_allocated : ChunkAllocState → ℕ → Outcome Bool
  is_chunk_allocated s chunk_id = test_bit s.alloc_map chunk_id

  -- Deallocating the chunks of a list, one after the other.
  pub dealloc_chunks : ChunkAllocState → List ℕ → Outcome ChunkAllocState
  dealloc_chunks s [] = ok s
  dealloc_chunks s (chunk_id ∷ chunk_ids) =
      dealloc_chunk s chunk_id >>= λ s'. dealloc_chunks s' chunk_ids

-- `ChunkAllocEdit::new`
abbrev pub empty_edit : ChunkAllocEdit
empty_edit = []

-- `ChunkAllocEdit::alloc`
pub record_alloc : ChunkAllocEdit → ℕ → Outcome ChunkAllocEdit
record_alloc edit chunk_id = elim (lookup chunk_id edit) [
  | none ↦ ok (insert chunk_id ChunkEdit.alloc edit)
  | some old_edit ↦ panic
]

-- `ChunkAllocEdit::dealloc`
pub record_dealloc : ChunkAllocEdit → ℕ → Outcome (Bool × ChunkAllocEdit)
record_dealloc edit chunk_id = elim (lookup chunk_id edit) [
  | none ↦ ok (false, insert chunk_id ChunkEdit.dealloc edit)
  | some e ↦ elim e [ alloc ↦ ok (true, remove chunk_id edit) | dealloc ↦ panic ]
]

-- `ChunkAllocEdit::iter_allocated_chunks`, and the `to_be_deallocated` of `apply_to`
pub chunks_with : ChunkEdit → ChunkAllocEdit → List ℕ
chunks_with kind [] = []
chunks_with ChunkEdit.alloc ((id, ChunkEdit.alloc) ∷ edit) = id ∷ chunks_with ChunkEdit.alloc edit
chunks_with ChunkEdit.alloc ((id, ChunkEdit.dealloc) ∷ edit) = chunks_with ChunkEdit.alloc edit
chunks_with ChunkEdit.dealloc ((id, ChunkEdit.alloc) ∷ edit) = chunks_with ChunkEdit.dealloc edit
chunks_with ChunkEdit.dealloc ((id, ChunkEdit.dealloc) ∷ edit) =
    id ∷ chunks_with ChunkEdit.dealloc edit

-- `ChunkAllocEdit::is_empty`
pub is_empty_edit : ChunkAllocEdit → Bool
is_empty_edit [] = true
is_empty_edit (entry ∷ edit) = false

module _ ⦃bt : Bittle⦄ where
  -- The loop of `apply_to`: in the journal's state each recorded allocation allocates a chunk.
  pub replay_allocs : ChunkAllocEdit → ChunkAllocState → Outcome ChunkAllocState
  replay_allocs [] s = ok s
  replay_allocs ((id, ChunkEdit.alloc) ∷ edit) s =
      (if s.in_journal
        then (alloc_chunk s >>= λ r. unwrap r.0 >>= λ allocated_id. ok r.1)
        else ok s)
      >>= λ s'. replay_allocs edit s'
  replay_allocs ((id, ChunkEdit.dealloc) ∷ edit) s = replay_allocs edit s

  -- `apply_to`
  pub apply_to : ChunkAllocEdit → ChunkAllocState → Outcome ChunkAllocState
  apply_to edit s =
      replay_allocs edit s >>= λ s'. dealloc_chunks s' (chunks_with ChunkEdit.dealloc edit)
