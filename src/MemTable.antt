-- ===== src/MemTable.antt =====
-- The in-memory table of the LSM tree, core/src/layers/4-lsm/mem_table.rs. Keys are numbers, as is
-- `RecordKey` of core/src/layers/5-disk/sworndisk.rs, the key in use; values are of any type. The
-- `BTreeMap` is the list of its entries, in the order in which their keys came and not in that of
-- the keys. In place of the callback `on_drop_record` an operation gives the records that it is
-- called with, so the order of these is not that of the calls.
pub mod Entries
pub mod Put
pub mod Sync
pub mod Manager
mod Tests
use mlsdisk.Base.{
  Bool, List, Option, Outcome, [], assert, false, if◌then◌else◌, insert, leb, lookup, ltb, max, min,
  none, ok, panic, some, sub_usize, true, ℕ, ◌&&◌, ◌+◌, ◌==◌, ◌>>=◌, ◌>>◌, ◌∷◌,
}

-- `enum ValueEx`
pub data ValueEx (V : Type 0) : Type 0 where
  synced : V → ValueEx V
  unsynced : V → ValueEx V
  synced_and_unsynced : V → V → ValueEx V

pub record MemTable (V : Type 0) : Type 0 where
  pub table : List (ℕ × ValueEx V)
  pub size : ℕ
  pub cap : ℕ
  pub sync_id : ℕ
  pub unsynced_range : Option (ℕ × ℕ)

-- The range that a put leaves, which grows by the key once there is a range.
pub extend_range : Option (ℕ × ℕ) → ℕ → Option (ℕ × ℕ)
extend_range none key = none
extend_range (some (start, end)) key =
    if leb end start then some (key, key + 1) else some (min key start, max (key + 1) end)

-- Whether `sync` visits a key: all of them, or those of the range.
pub in_range : Option (ℕ × ℕ) → ℕ → Bool
in_range none key = true
in_range (some (start, end)) key = leb start key && ltb key end

-- Whether the `BTreeMap` accepts a range: it panics if the start is past the end.
pub is_range : Option (ℕ × ℕ) → Bool
is_range none = true
is_range (some (start, end)) = leb start end

module _ {V : Type 0} where
  -- `ValueEx::get`
  pub latest : ValueEx V → V
  latest (synced v) = v
  latest (unsynced v) = v
  latest (synced_and_unsynced sv usv) = usv

  -- `ValueEx::put`: the new value and the replaced one
  pub put_value : ValueEx V → V → ValueEx V × Option V
  put_value (synced v) value = (synced_and_unsynced v value, none)
  put_value (unsynced v) value = (unsynced value, some v)
  put_value (synced_and_unsynced sv usv) value = (synced_and_unsynced sv value, some usv)

  -- `ValueEx::contains_unsynced`
  pub contains_unsynced : ValueEx V → Bool
  contains_unsynced (synced v) = false
  contains_unsynced (unsynced v) = true
  contains_unsynced (synced_and_unsynced sv usv) = true

  -- `ValueEx::sync`: the new value and the replaced one
  pub sync_value : ValueEx V → Outcome (ValueEx V × Option V)
  sync_value (synced v) = panic
  sync_value (unsynced v) = ok (synced v, none)
  sync_value (synced_and_unsynced sv usv) = ok (synced usv, some sv)

  -- `MemTable::new`
  pub new_mem_table : ℕ → ℕ → MemTable V
  new_mem_table cap sync_id = record {
    table = [];
    size = 0;
    cap = cap;
    sync_id = sync_id;
    unsynced_range = none;
  }

  -- `MemTable::get`
  pub get : MemTable V → ℕ → Option V
  unfolding latest
  get t key = elim (lookup key t.table) [ none ↦ none | some value_ex ↦ some (latest value_ex) ]

  -- `MemTable::put`: the new table and the dropped value
  pub put : MemTable V → ℕ → V → MemTable V × Option V
  unfolding put_value extend_range
  put t key value = elim (lookup key t.table) [
    | some value_ex ↦
        let (value_ex', dropped) = put_value value_ex value in
        (
          record t {
            table = insert key value_ex' t.table;
            size = elim dropped [ some v ↦ t.size | none ↦ t.size + 1 ];
            unsynced_range = extend_range t.unsynced_range key;
          },
          dropped,
        )
    | none ↦ (
      record t {
        table = insert key (unsynced value) t.table;
        size = t.size + 1;
        unsynced_range = extend_range t.unsynced_range key;
      },
      none,
    )
  ]

  -- The loop of `sync`, over the entries: those entries, the dropped records and the size.
  pub sync_entries :
      Option (ℕ × ℕ) → List (ℕ × ValueEx V) → ℕ → Outcome (List (ℕ × ValueEx V) × List (ℕ × V) × ℕ)
  unfolding in_range contains_unsynced sync_value
  sync_entries range [] size = ok ([], [], size)
  sync_entries range ((key, value_ex) ∷ entries) size =
      let skipped = sync_entries range entries size >>= λ r. ok ((key, value_ex) ∷ r.0, r.1, r.2) in
      let visited = sync_value value_ex >>= λ s. elim s.1 [
        | none ↦ sync_entries range entries size >>= λ r. ok ((key, s.0) ∷ r.0, r.1, r.2)
        | some dropped ↦ sub_usize size 1 >>= λ size'. sync_entries range entries size' >>= λ r.
            ok ((key, s.0) ∷ r.0, (key, dropped) ∷ r.1, r.2)
      ] in
      if in_range range key && contains_unsynced value_ex then visited else skipped

  -- `MemTable::sync`, with the value that `K::new_uninit` happens to give: the new table and the
  -- dropped records
  pub sync : ℕ → MemTable V → ℕ → Outcome (MemTable V × List (ℕ × V))
  unfolding sync_entries is_range
  sync uninit t sync_id = do
    assert (leb t.sync_id sync_id)
    if t.sync_id == sync_id then ok (t, []) else (do
      assert (is_range t.unsynced_range)
      r ← sync_entries t.unsynced_range t.table t.size
      ok (
        record t {
          table = r.0;
          size = r.2;
          sync_id = sync_id;
          unsynced_range = elim t.unsynced_range [
            | some range ↦ some range
            | none ↦ some (uninit, uninit)
          ];
        },
        r.1,
      ))

  -- `MemTable::is_empty` and `at_capacity`
  pub is_empty : MemTable V → Bool
  is_empty t = t.size == 0

  pub at_capacity : MemTable V → Bool
  at_capacity t = leb t.cap t.size

  -- `MemTable::clear`
  pub clear : MemTable V → MemTable V
  clear t = record t { table = []; size = 0; unsynced_range = none }
