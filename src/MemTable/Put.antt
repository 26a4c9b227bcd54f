-- ===== src/MemTable/Put.antt =====
-- `put` and `get` of a `MemTable`.
use mlsdisk.Base.{
  Bool-cases, Option, ap, arith, if◌then◌else◌, inl, inr, insert, insert-UniqueKeys, lookup,
  lookup-insert, none, refl, some, ℕ, ◌+◌, ◌==◌, ◌≡◌,
}
use mlsdisk.MemTable.{
  MemTable, ValueEx, extend_range, get, latest, put, synced, synced_and_unsynced, unsynced,
}
use mlsdisk.MemTable.Entries.{
  IsValid, extend-IsCovered, in_range-extend_self, insert-IsCovered, is_range-extend, total-insert,
  weight, weight_at,
}

module _ {V : Type 0} where
  -- The value that a put replaces: the unsynced one, if there is one.
  abbrev pub replaced : Option (ValueEx V) → Option V
  replaced none = none
  replaced (some (synced v)) = none
  replaced (some (unsynced v)) = some v
  replaced (some (synced_and_unsynced sv usv)) = some usv

  -- The entry that a put leaves.
  abbrev entry_after : Option (ValueEx V) → V → ValueEx V
  entry_after none value = unsynced value
  entry_after (some (synced v)) value = synced_and_unsynced v value
  entry_after (some (unsynced v)) value = unsynced value
  entry_after (some (synced_and_unsynced sv usv)) value = synced_and_unsynced sv value

  abbrev size_after : Option (ValueEx V) → ℕ → ℕ
  size_after o size = elim (replaced o) [ some v ↦ size | none ↦ size + 1 ]

  -- The table after a put, in one form for all cases.
  put_form :
      (t : MemTable V) (key : ℕ) (value : V) (o : Option (ValueEx V))
      → lookup key t.table ≡ o
      → put t key value ≡ (
        record t {
          table = insert key (entry_after o value) t.table;
          size = size_after o t.size;
          unsynced_range = extend_range t.unsynced_range key;
        },
        replaced o,
      )
  unfolding put
  put_form t key value none e = rw (e, put)
  put_form t key value (some (synced v)) e = rw (e, put)
  put_form t key value (some (unsynced v)) e = rw (e, put)
  put_form t key value (some (synced_and_unsynced sv usv)) e = rw (e, put)

  weight_after :
      (o : Option (ValueEx V)) (value : V) (size : ℕ)
      → size_after o size + weight_at o ≡ size + weight (entry_after o value)
  weight_after none value size = omega arith
  weight_after (some (synced v)) value size = omega arith
  weight_after (some (unsynced v)) value size = omega arith
  weight_after (some (synced_and_unsynced sv usv)) value size = omega arith

  latest_after : (o : Option (ValueEx V)) (value : V) → latest (entry_after o value) ≡ value
  unfolding latest
  latest_after none value = refl
  latest_after (some (synced v)) value = refl
  latest_after (some (unsynced v)) value = refl
  latest_after (some (synced_and_unsynced sv usv)) value = refl

  -- What a put must do.
  abbrev pub Puts : MemTable V → ℕ → V → MemTable V × Option V → Type 0
  Puts t key value r =
      ((j : ℕ) → get r.0 j ≡ (if key == j then some value else get t j))
      × (r.1 ≡ replaced (lookup key t.table))
      × (r.0.sync_id ≡ t.sync_id)
      × IsValid r.0

  -- A put into a valid table makes `get` give the value for its key and leaves every other key as
  -- it was; it returns the value it drops, which is the unsynced value of the key if there was
  -- one; it keeps the sync ID and the invariant.
  pub put_lem :
      (t : MemTable V) (key : ℕ) (value : V) → IsValid t → Puts t key value (put t key value)
  unfolding get
  put_lem t key value h = rw (put_form t key value o refl) (
    λ j. read j,
    refl,
    refl,
    record {
      unique = insert-UniqueKeys key (entry_after o value) t.table h.unique;
      counted = omega (
        arith,
        h.counted,
        weight_after o value t.size,
        total-insert key (entry_after o value) t.table,
      );
      covered =
          insert-IsCovered (extend_range t.unsynced_range key) key (entry_after o value) t.table
            (in_range-extend_self t.unsynced_range key)
            (extend-IsCovered t.unsynced_range key t.table h.covered);
      ordered = is_range-extend t.unsynced_range key h.ordered;
    },
  )
    where
      o : Option (ValueEx V)
      o = lookup key t.table

      read :
          (j : ℕ)
          → (elim (lookup j (insert key (entry_after o value) t.table)) [
            | none ↦ none
            | some value_ex ↦ some (latest value_ex)
          ])
            ≡ (if key == j then some value else (elim (lookup j t.table) [
              | none ↦ none
              | some value_ex ↦ some (latest value_ex)
            ]))
      read j = elim (Bool-cases (key == j)) [
        | inl e ↦
            rw (lookup-insert key j (entry_after o value) t.table, e)
              (ap some (latest_after o value))
        | inr e ↦ rw (lookup-insert key j (entry_after o value) t.table, e)
      ]
