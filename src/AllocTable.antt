-- ===== src/AllocTable.antt =====
-- The block validity table of core/src/layers/5-disk/block_alloc.rs, whose bitmap has a one for
-- each free block, and the per-transaction diffs of `BlockAlloc`. The fields behind mutexes and
-- atomics are the fields of one state, since every method holds `num_free` or the bitmap.
pub mod Take
pub mod Batch
pub mod Update
pub mod Slot
mod Tests
use mlsdisk.Base.{
  Bool, List, Option, Outcome, [], add_usize, assert, false, if◌then◌else◌, insert, last?, length,
  lookup, ltb, none, not, ok, panic, some, sub_usize, true, unwrap, ℕ, ◌+◌, ◌==◌, ◌>>=◌, ◌>>◌, ◌∷◌,
}
use mlsdisk.Bittle.{Bittle, count}
use mlsdisk.BitMap.{BitMap, first_one, first_ones, repeat, set_to, test_bit}

pub record AllocTable : Type 0 where
  pub bitmap : BitMap
  pub next_avail : ℕ
  pub nblocks : ℕ
  pub is_dirty : Bool
  pub num_free : ℕ

-- `enum AllocDiff`
pub data AllocDiff : Type 0 where
  alloc dealloc invalid : AllocDiff

-- `From<u8> for AllocDiff`
pub diff_of_byte : ℕ → AllocDiff
diff_of_byte value =
    if value == 3
    then AllocDiff.alloc
    else if value == 7
    then AllocDiff.dealloc
    else AllocDiff.invalid

-- The byte of a diff, as its declaration numbers them.
pub byte_of_diff : AllocDiff → ℕ
byte_of_diff AllocDiff.alloc = 3
byte_of_diff AllocDiff.dealloc = 7
byte_of_diff AllocDiff.invalid = 8

-- `diff_table`
abbrev pub DiffTable : Type 0
DiffTable = List (ℕ × AllocDiff)

-- `BlockAlloc::alloc_block`
pub alloc_block : DiffTable → ℕ → Outcome DiffTable
alloc_block diffs block_id = elim (lookup block_id diffs) [
  | none ↦ ok (insert block_id AllocDiff.alloc diffs)
  | some replaced ↦ elim replaced [ alloc ↦ panic | _ ↦ ok (insert block_id AllocDiff.alloc diffs) ]
]

-- `BlockAlloc::dealloc_block`
pub dealloc_block : DiffTable → ℕ → Outcome DiffTable
dealloc_block diffs block_id = elim (lookup block_id diffs) [
  | none ↦ ok (insert block_id AllocDiff.dealloc diffs)
  | some replaced ↦ elim replaced [
    | dealloc ↦ panic
    | _ ↦ ok (insert block_id AllocDiff.dealloc diffs)
  ]
]

module _ ⦃bt : Bittle⦄ where
  -- `AllocTable::new`
  pub new_table : ℕ → AllocTable
  new_table nblocks = record {
    bitmap = repeat true nblocks;
    next_avail = 0;
    nblocks = nblocks;
    is_dirty = false;
    num_free = nblocks;
  }

  -- The end of `alloc`: the slot is marked, and the next search starts behind it.
  pub take_slot : AllocTable → ℕ → Outcome (Option ℕ × AllocTable)
  take_slot t hba = do
    bitmap ← set_to t.bitmap hba false
    ok (some hba, record t { bitmap = bitmap; next_avail = hba + 1 })

  -- `AllocTable::alloc`
  pub alloc_slot : AllocTable → Outcome (Option ℕ × AllocTable)
  unfolding take_slot
  alloc_slot t = do
    found ← first_one t.bitmap t.next_avail
    elim found [
      | some hba ↦ take_slot t hba
      | none ↦ first_one t.bitmap 0 >>= λ first. elim first [
        | none ↦ ok (none, t)
        | some hba ↦ take_slot t hba
      ]
    ]

  -- Clearing the bits of a list, one after the other.
  pub clear_all : BitMap → List ℕ → Outcome BitMap
  clear_all bitmap [] = ok bitmap
  clear_all bitmap (hba ∷ hbas) = set_to bitmap hba false >>= λ bitmap'. clear_all bitmap' hbas

  -- The end of `do_alloc_batch`.
  pub take_slots : AllocTable → List ℕ → Outcome (Option (List ℕ × AllocTable))
  unfolding clear_all
  take_slots t hbas = do
    bitmap ← clear_all t.bitmap hbas
    last ← unwrap (last? hbas)
    ok (some (hbas, record t { bitmap = bitmap; next_avail = last + 1 }))

  -- The second search of `do_alloc_batch`, from the first free slot of all.
  pub search_again : AllocTable → ℕ → Outcome (Option (List ℕ × AllocTable))
  unfolding take_slots
  search_again t count = do
    first ← first_one t.bitmap 0
    elim first [
      | none ↦ ok none
      | some next_avail ↦ first_ones t.bitmap next_avail count >>= λ found. elim found [
        | none ↦ ok none
        | some hbas ↦ take_slots t hbas
      ]
    ]

  -- Where the first search of `do_alloc_batch` starts.
  pub search_start : AllocTable → ℕ → Outcome (Option ℕ)
  search_start t count = do
    sum ← add_usize t.next_avail count
    if ltb t.nblocks sum then first_one t.bitmap 0 else ok (some t.next_avail)

  -- `AllocTable::do_alloc_batch`
  pub do_alloc_batch : AllocTable → ℕ → Outcome (Option (List ℕ × AllocTable))
  unfolding take_slots search_again search_start
  do_alloc_batch t count = do
    assert (ltb 0 count)
    start ← search_start t count
    elim start [
      | none ↦ ok none
      | some next_avail ↦ first_ones t.bitmap next_avail count >>= λ found. elim found [
        | none ↦ search_again t count
        | some hbas ↦ take_slots t hbas
      ]
    ]

  -- The rest of `alloc_batch` behind the wait, from the result of `do_alloc_batch` on.
  pub book :
      AllocTable
      → ℕ
      → Outcome (Option (List ℕ × AllocTable))
      → Outcome (Option (List ℕ × AllocTable))
  book t count hbas = do
    res ← hbas
    r ← unwrap res
    assert (length r.0 == count)
    num_free ← sub_usize t.num_free count
    ok (some (r.0, record (r.1) { is_dirty = true; num_free = num_free }))

  -- `AllocTable::alloc_batch`: `none` if the caller has to wait on the condition variable, which
  -- releases the lock on the table as it is.
  pub alloc_batch : AllocTable → ℕ → Outcome (Option (List ℕ × AllocTable))
  unfolding do_alloc_batch
  alloc_batch t count =
      if ltb t.num_free count then ok none else book t count (do_alloc_batch t count)

  -- `AllocTable::set_deallocated`
  pub set_deallocated : AllocTable → ℕ → Outcome AllocTable
  set_deallocated t nth = do
    bitmap ← set_to t.bitmap nth true
    ok (record t { bitmap = bitmap; num_free = t.num_free + 1 })

  -- The loop of `update_alloc_table`: the bitmap and `num_dealloc`.
  pub apply_diffs : DiffTable → BitMap → ℕ → Outcome (BitMap × ℕ)
  apply_diffs [] bitmap num_dealloc = ok (bitmap, num_dealloc)
  apply_diffs ((block_id, AllocDiff.alloc) ∷ diffs) bitmap num_dealloc = do
    free ← test_bit bitmap block_id
    assert (not free)
    apply_diffs diffs bitmap num_dealloc
  apply_diffs ((block_id, AllocDiff.dealloc) ∷ diffs) bitmap num_dealloc = do
    free ← test_bit bitmap block_id
    assert (not free)
    bitmap' ← set_to bitmap block_id true
    apply_diffs diffs bitmap' (num_dealloc + 1)
  apply_diffs ((block_id, AllocDiff.invalid) ∷ diffs) bitmap num_dealloc = panic

  -- `BlockAlloc::update_alloc_table`
  pub update_alloc_table : DiffTable → AllocTable → Outcome AllocTable
  unfolding apply_diffs
  update_alloc_table diffs t = do
    r ← apply_diffs diffs t.bitmap 0
    ok (record t { bitmap = r.0; num_free = t.num_free + r.1 })
