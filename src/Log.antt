-- ===== src/Log.antt =====
-- Logs of blocks: the trait of core/src/layers/0-bio/block_log.rs with its log in memory, and the
-- ring of core/src/layers/0-bio/block_ring.rs over a set of blocks.
pub mod Ring
mod Tests
use mlsdisk.Base.{
  Errno, List, Option, Outcome, add_usize, err, if◌then◌else◌, length, ltb, none, ok, panic, some,
  unwrap, ℕ, ◌%◌, ◌*◌, ◌+◌, ◌/◌, ◌==◌, ◌>>=◌, ◌>>◌,
}
use mlsdisk.Blocks.{BlockSet, Memory, alloc_buf, block_size, copy_from_slice, slice}

-- `trait BlockLog`, over the state `L`: `read` takes the number of blocks of the buffer.
pub record BlockLog (L : Type 0) : Type 0 where
  pub read : L → ℕ → ℕ → Outcome (List ℕ)
  pub append : L → List ℕ → Outcome (L × ℕ)
  pub flush : L → Outcome L
  pub nblocks : L → ℕ

-- `MemLog`
pub record MemLog : Type 0 where
  pub log : List ℕ
  pub append_pos : ℕ

-- `MemLog::create`
pub create_log : Memory → ℕ → Outcome MemLog
create_log memory num_blocks =
    alloc_buf memory num_blocks >>= λ blocks. ok (record { log = blocks; append_pos = 0 })

-- `MemLog::read`
pub read_log : MemLog → ℕ → ℕ → Outcome (List ℕ)
read_log l pos nblocks = do
  end ← add_usize pos nblocks
  if ltb l.append_pos end
      then err Errno.invalid_args
      else (slice l.log (pos * block_size) (pos * block_size + nblocks * block_size))

-- `MemLog::append`
pub append_log : MemLog → List ℕ → Outcome (MemLog × ℕ)
append_log l buf = do
  let nblocks : ℕ = length buf / block_size
  end ← add_usize l.append_pos nblocks
  if ltb (length l.log / block_size) end then err Errno.invalid_args else (do
    log ←
        copy_from_slice l.log (l.append_pos * block_size)
          (l.append_pos * block_size + nblocks * block_size) buf
    ok (record { log = log; append_pos = end }, l.append_pos))

-- `impl BlockLog for MemLog`
abbrev pub mem_log : BlockLog MemLog
mem_log = record { read = read_log; append = append_log; flush = ok; nblocks = λ l. l.append_pos }

-- `BlockRing`
pub record BlockRing (D : Type 0) : Type 0 where
  pub storage : D
  pub cursor : Option ℕ

-- `BlockRing::new` and `set_cursor`
abbrev pub new_ring : {D : Type 0} → D → BlockRing D
new_ring storage = record { storage = storage; cursor = none }

abbrev pub set_cursor : {D : Type 0} → BlockRing D → ℕ → BlockRing D
set_cursor r new_cursor = record r { cursor = some new_cursor }

module _ {D : Type 0} (bs : BlockSet D) where
  -- The position in the set: a remainder by zero panics.
  pub ring_pos : D → ℕ → Outcome ℕ
  ring_pos d pos = if bs.nblocks d == 0 then panic else ok (pos % bs.nblocks d)

  -- `BlockRing::read`
  pub read_ring : BlockRing D → ℕ → ℕ → Outcome (List ℕ)
  unfolding ring_pos
  read_ring r pos nblocks = ring_pos r.storage pos >>= λ p. bs.read r.storage p nblocks

  -- `BlockRing::append`
  pub append_ring : BlockRing D → List ℕ → Outcome (BlockRing D × ℕ)
  unfolding ring_pos
  append_ring r buf = do
    cursor ← unwrap r.cursor
    pos ← ring_pos r.storage cursor
    new_cursor ← add_usize cursor (length buf / block_size)
    storage ← bs.write r.storage pos buf
    ok (set_cursor (record r { storage = storage }) new_cursor, cursor)

  -- `BlockRing::nblocks`
  unfoldable pub ring_nblocks : BlockRing D → ℕ
  ring_nblocks r = elim r.cursor [ none ↦ 0 | some cursor ↦ cursor ]

  -- `impl BlockLog for BlockRing`
  abbrev pub ring_log : BlockLog (BlockRing D)
  ring_log = record { read = read_ring; append = append_ring; flush = ok; nblocks = ring_nblocks }
