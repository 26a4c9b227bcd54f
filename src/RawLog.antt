-- ===== src/RawLog.antt =====
-- The raw logs of core/src/layers/3-log/raw_log.rs: the heads on disk, the tails of a transaction,
-- the edits that turn the ones into the others, and the places of the blocks.
pub mod Places
pub mod Space
pub mod Applied
mod Tests
use mlsdisk.Base.{
  Bool, List, Option, Outcome, [], assert, false, get_elem?, if◌then◌else◌, insert, last?, leb,
  length, lookup, ltb, none, ok, panic, remove, some, sub_usize, suc, true, unwrap, zero, ℕ, ◌%◌,
  ◌*◌, ◌++◌, ◌+◌, ◌-◌, ◌/◌, ◌==◌, ◌>>=◌, ◌>>◌, ◌^◌, ◌∷◌,
}

-- `CHUNK_NBLOCKS` of core/src/layers/3-log/chunk.rs
abbrev pub chunk_nblocks : ℕ
chunk_nblocks = 1024

-- `a + b` on `u32`: an overflow panics.
abbrev pub add_u32 : ℕ → ℕ → Outcome ℕ
add_u32 a b = if leb (2 ^ 32) (a + b) then panic else ok (a + b)

-- `RawLogHead`
pub record RawLogHead : Type 0 where
  pub chunks : List ℕ
  pub num_blocks : ℕ

-- `RawLogHead::new`
abbrev pub new_head : RawLogHead
new_head = record { chunks = []; num_blocks = 0 }

-- `RawLogTail`
pub record RawLogTail : Type 0 where
  pub head_last_chunk_id : ℕ
  pub head_last_chunk_free_blocks : ℕ
  pub chunks : List ℕ
  pub num_blocks : ℕ

-- `RawLogTail::new`
abbrev pub new_tail : RawLogTail
new_tail = record {
  head_last_chunk_id = 0;
  head_last_chunk_free_blocks = 0;
  chunks = [];
  num_blocks = 0;
}

-- `RawLogTail::from_head`
unfoldable pub from_head : RawLogHead → Outcome RawLogTail
from_head head = do
  free ← sub_usize (length head.chunks * chunk_nblocks) head.num_blocks
  ok (record {
    head_last_chunk_id = elim (last? head.chunks) [ none ↦ 0 | some id ↦ id ];
    head_last_chunk_free_blocks = free % 2 ^ 16;
    chunks = [];
    num_blocks = 0;
  })

-- `RawLogHead::append`
unfoldable pub append_tail : RawLogHead → RawLogTail → Outcome RawLogHead
append_tail head tail = do
  num_blocks ← add_u32 head.num_blocks tail.num_blocks
  ok (record { chunks = head.chunks ++ tail.chunks; num_blocks = num_blocks })

-- `RawLogEdit`, with the tail of a `RawLogCreate` or a `RawLogAppend`
pub data RawLogEdit : Type 0 where
  create append : RawLogTail → RawLogEdit
  delete : RawLogEdit

-- `RawLogStoreState` and `RawLogStoreEdit`: their tables. An entry of a log is its head.
abbrev pub RawLogStoreState : Type 0
RawLogStoreState = List (ℕ × RawLogHead)

abbrev pub RawLogStoreEdit : Type 0
RawLogStoreEdit = List (ℕ × RawLogEdit)

-- `RawLogStoreState::create_log`
pub create_entry : RawLogStoreState → ℕ → Outcome RawLogStoreState
create_entry state new_log_id = do
  assert (elim (lookup new_log_id state) [ none ↦ true | some h ↦ false ])
  ok (insert new_log_id new_head state)

-- `RawLogStoreState::append_log`
pub append_entry : RawLogStoreState → ℕ → RawLogTail → Outcome RawLogStoreState
append_entry state log_id tail = do
  head ← unwrap (lookup log_id state)
  appended ← append_tail head tail
  ok (insert log_id appended state)

-- `RawLogStoreState::delete_log`
abbrev pub delete_entry : RawLogStoreState → ℕ → RawLogStoreState
delete_entry state log_id = remove log_id state

-- `RawLogStoreEdit::create_log`
pub record_create : RawLogStoreEdit → ℕ → Outcome RawLogStoreEdit
record_create edits new_log_id = do
  assert (elim (lookup new_log_id edits) [ none ↦ true | some e ↦ false ])
  ok (insert new_log_id (create new_tail) edits)

-- `RawLogStoreEdit::open_log`
pub record_open : RawLogStoreEdit → ℕ → RawLogHead → Outcome RawLogStoreEdit
record_open edits log_id head = elim (lookup log_id edits) [
  | none ↦ from_head head >>= λ tail. ok (insert log_id (append tail) edits)
  | some (create tail) ↦ panic
  | some (append tail) ↦ ok edits
  | some delete ↦ panic
]

-- `RawLogStoreEdit::delete_log`: the edit, and the chunks of the tail of the deleted log
pub record_delete : RawLogStoreEdit → ℕ → Outcome (RawLogStoreEdit × Option (List ℕ))
record_delete edits log_id = elim (lookup log_id edits) [
  | none ↦ ok (insert log_id delete edits, none)
  | some (create tail) ↦ ok (insert log_id delete edits, some tail.chunks)
  | some (append tail) ↦ ok (insert log_id delete edits, some tail.chunks)
  | some delete ↦ panic
]

-- `RawLogStoreEdit::is_log_created`
pub is_log_created : RawLogStoreEdit → ℕ → Bool
is_log_created edits log_id = elim (lookup log_id edits) [
  | none ↦ false
  | some (create tail) ↦ true
  | some (append tail) ↦ true
  | some delete ↦ false
]

-- `RawLogStoreEdit::apply_to`, one edit and all of them
unfoldable pub apply_edit : RawLogStoreState → ℕ → RawLogEdit → Outcome RawLogStoreState
apply_edit state log_id (create tail) =
    create_entry state log_id >>= λ s. append_entry s log_id tail
apply_edit state log_id (append tail) = append_entry state log_id tail
apply_edit state log_id delete = ok (delete_entry state log_id)

unfoldable pub apply_edits : RawLogStoreEdit → RawLogStoreState → Outcome RawLogStoreState
apply_edits [] state = ok state
apply_edits ((log_id, edit) ∷ edits) state =
    apply_edit state log_id edit >>= λ s. apply_edits edits s

-- `calc_needed_chunks`
pub needed_chunks : RawLogTail → ℕ → Outcome ℕ
needed_chunks tail append_nblocks = do
  avail ←
      sub_usize (tail.head_last_chunk_free_blocks + length tail.chunks * chunk_nblocks)
        tail.num_blocks
  ok (
      if ltb avail append_nblocks
      then (append_nblocks - avail + chunk_nblocks - 1)
        / chunk_nblocks
        * chunk_nblocks
        / chunk_nblocks
      else 0)

-- The loop over chunks of both `prepare_blocks`.
pub chunk_blocks : List ℕ → ℕ → ℕ → Outcome (List ℕ)
chunk_blocks chunks offset zero = ok []
chunk_blocks chunks offset (suc n) = do
  chunk ← unwrap (get_elem? chunks (offset / chunk_nblocks))
  rest ← chunk_blocks chunks (offset + 1) n
  ok ((chunk * chunk_nblocks + offset % chunk_nblocks) ∷ rest)

-- `RawLogHeadRef::prepare_blocks`
abbrev pub head_blocks : RawLogHead → ℕ → ℕ → Outcome (List ℕ)
head_blocks head offset nblocks = chunk_blocks head.chunks offset nblocks

-- The loop of `RawLogTailRef::prepare_blocks` over the free blocks of the last chunk of the head,
-- from `i` on: the blocks, and how many are left to be found.
pub free_blocks : RawLogTail → ℕ → ℕ → ℕ → Outcome (List ℕ × ℕ)
free_blocks tail i zero left = ok ([], left)
free_blocks tail i (suc k) left = do
  first_free ← sub_usize chunk_nblocks tail.head_last_chunk_free_blocks
  left' ← sub_usize left 1
  let block : ℕ = tail.head_last_chunk_id * chunk_nblocks + (first_free + i)
  let found : Outcome (List ℕ × ℕ) = free_blocks tail (i + 1) k left'
  if left' == 0 then ok (block ∷ [], 0) else (found >>= λ r. ok (block ∷ r.0, r.1))

-- `RawLogTailRef::prepare_blocks`
pub tail_blocks : RawLogTail → ℕ → ℕ → Outcome (List ℕ)
tail_blocks tail offset nblocks =
    if ltb offset tail.head_last_chunk_free_blocks
    then (free_blocks tail offset (tail.head_last_chunk_free_blocks - offset) nblocks >>= λ r.
        chunk_blocks tail.chunks 0 r.1 >>= λ rest. ok (r.0 ++ rest))
    else chunk_blocks tail.chunks (offset - tail.head_last_chunk_free_blocks) nblocks
