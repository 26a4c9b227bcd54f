-- ===== src/MemTable/Tests.antt =====
-- Runs of the in-memory table, and its theorems at a concrete table.
use mlsdisk.Base.{
  Bool, List, Option, Outcome, [], arith, false, ok, panic, refl, some, true, ℕ, ◌>>=◌, ◌∷◌, ◌≡◌,
}
use mlsdisk.MemTable.{
  MemTable, at_capacity, clear, contains_unsynced, get, in_range, is_empty, is_range, new_mem_table,
  put, sync, synced_and_unsynced, unsynced,
}
use mlsdisk.MemTable.Entries.{IsValid}
use mlsdisk.MemTable.Put.{Puts, put_lem}
use mlsdisk.MemTable.Manager.{
  IsManaged, MemTableManager, Switches, switch, switch_lem, sync_mutable,
}
use mlsdisk.MemTable.Sync.{Syncs, sync_lem}

abbrev two_keys : MemTable ℕ
two_keys = record {
  table = (5, synced_and_unsynced 50 51) ∷ (7, unsynced 70) ∷ [];
  size = 3;
  cap = 4;
  sync_id = 1;
  unsynced_range = some (5, 8);
}

two_keys-IsValid : IsValid two_keys
unfolding in_range contains_unsynced is_range
two_keys-IsValid = record {
  unique = (refl, (refl, tt));
  counted = refl;
  covered = ((λ _. refl), ((λ _. refl), tt));
  ordered = refl;
}

put_lem_example : Puts two_keys 7 71 (put two_keys 7 71)
put_lem_example = put_lem two_keys 7 71 two_keys-IsValid

sync_lem_example : Syncs two_keys 2 (sync 0 two_keys 2)
sync_lem_example = sync_lem 0 two_keys 2 two_keys-IsValid

abbrev value_size_dropped : ℕ → MemTable ℕ × List (ℕ × ℕ) → Option ℕ × (ℕ × List (ℕ × ℕ))
value_size_dropped key r = (get r.0 key, (r.0.size, r.1))

abbrev two_syncs : Outcome (MemTable ℕ × List (ℕ × ℕ))
two_syncs = do r ← sync 0 (put (put (new_mem_table 4 1) 3 30).0 3 31).0 2; sync 0 (put r.0 3 32).0 3

-- The second value of a key with a synced one is counted, and the sync drops the synced one.
two_syncs-run : (two_syncs >>= λ r. ok (value_size_dropped 3 r)) ≡ ok (some 32, (1, (3, 31) ∷ []))
unfolding sync put new_mem_table get
two_syncs-run = refl

empty_table-IsValid : (cap sync_id : ℕ) → IsValid (new_mem_table {V = ℕ} cap sync_id)
unfolding new_mem_table is_range
empty_table-IsValid cap sync_id = record {
  unique = tt;
  counted = refl;
  covered = tt;
  ordered = refl;
}

abbrev pair : Bool → MemTableManager ℕ
pair full = record { mutable = two_keys; immutable = new_mem_table 4 1; is_full = full }

pair-IsManaged : (full : Bool) → IsManaged (pair full)
unfolding new_mem_table
pair-IsManaged full = record {
  mutable_valid = two_keys-IsValid;
  immutable_valid = empty_table-IsValid 4 1;
  ordered = omega arith;
}

switch_lem_example : Switches (pair true) (switch 0 (pair true))
switch_lem_example = switch_lem 0 (pair true) (pair-IsManaged true)

-- A sync between the put that fills the table and the switch takes the table below its capacity.
abbrev one_key : MemTable ℕ
one_key = record {
  table = (5, synced_and_unsynced 50 51) ∷ [];
  size = 2;
  cap = 2;
  sync_id = 1;
  unsynced_range = some (5, 6);
}

abbrev filled_pair : MemTableManager ℕ
filled_pair = record { mutable = one_key; immutable = new_mem_table 2 1; is_full = true }

filled_pair-switch : (switch 0 filled_pair >>= λ m. ok m.is_full) ≡ ok false
unfolding switch clear new_mem_table sync is_empty at_capacity
filled_pair-switch = refl

sync_mutable-switch : (sync_mutable 0 filled_pair 2 >>= switch 0) ≡ panic
unfolding sync_mutable switch clear new_mem_table sync is_empty at_capacity
sync_mutable-switch = refl
