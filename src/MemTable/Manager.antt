-- ===== src/MemTable/Manager.antt =====
-- The pair of tables of a tree, `MemTableManager` of core/src/layers/4-lsm/mem_table.rs. The locks
-- are held by one call at a time.
use mlsdisk.Base.{
  Bool, Bool-cases, List, Option, Outcome, [], ap, arith, assert, err, false, if◌then◌else◌, inl,
  inr, none, ok, panic, refl, some, true, ℕ, ◌&&◌, ◌<◌, ◌==◌, ◌>>=◌, ◌>>◌, ◌≡◌, ◌≤◌, ◌⊎◌,
}
use mlsdisk.MemTable.{
  MemTable, at_capacity, clear, get, is_empty, is_range, new_mem_table, put, sync,
}
use mlsdisk.MemTable.Entries.{IsValid}
use mlsdisk.MemTable.Put.{Puts, put_lem}
use mlsdisk.MemTable.Sync.{Syncs, sync_lem}

pub record MemTableManager (V : Type 0) : Type 0 where
  pub mutable : MemTable V
  pub immutable : MemTable V
  pub is_full : Bool

module _ {V : Type 0} where
  -- `MemTableManager::new`
  pub new_manager : ℕ → ℕ → MemTableManager V
  new_manager sync_id capacity = record {
    mutable = new_mem_table capacity sync_id;
    immutable = new_mem_table capacity sync_id;
    is_full = false;
  }

  -- `MemTableManager::get`
  pub get_value : MemTableManager V → ℕ → Option V
  get_value m key = elim (get m.mutable key) [
    | some value ↦ some value
    | none ↦ elim (get m.immutable key) [ some value ↦ some value | none ↦ none ]
  ]

  -- `MemTableManager::put`: `none` if the caller has to wait until the table is not full any more;
  -- otherwise whether it is full now, and the tables.
  pub put_record : MemTableManager V → ℕ → V → Option (Bool × MemTableManager V)
  put_record m key value =
      let mutable = (put m.mutable key value).0 in
      let is_full = if at_capacity mutable then true else m.is_full in
      if m.is_full then none else some (is_full, record m { mutable = mutable; is_full = is_full })

  -- `MemTableManager::sync`
  unfoldable pub sync_mutable : ℕ → MemTableManager V → ℕ → Outcome (MemTableManager V)
  sync_mutable uninit m sync_id =
      sync uninit m.mutable sync_id >>= λ r. ok (record m { mutable = r.0 })

  -- `MemTableManager::switch`
  unfoldable pub switch : ℕ → MemTableManager V → Outcome (MemTableManager V)
  switch uninit m = do
    assert m.is_full
    let cleared : MemTable V = clear m.immutable
    assert (is_empty cleared && at_capacity m.mutable)
    r ← sync uninit cleared m.mutable.sync_id
    ok (record { mutable = r.0; immutable = m.mutable; is_full = false })

  -- Both tables are valid, and the immutable one was synced no later.
  pub record IsManaged (m : MemTableManager V) : Type 0 where
    pub mutable_valid : IsValid m.mutable
    pub immutable_valid : IsValid m.immutable
    pub ordered : m.immutable.sync_id ≤ m.mutable.sync_id

  clear-IsValid : (t : MemTable V) → IsValid (clear t)
  unfolding clear is_range
  clear-IsValid t = record { unique = tt; counted = refl; covered = tt; ordered = refl }

  abbrev pub PutsRecord : MemTableManager V → ℕ → V → Option (Bool × MemTableManager V) → Type 0
  PutsRecord m key value none = m.is_full ≡ true
  PutsRecord m key value (some (full, m')) =
      (m.is_full ≡ false)
      × ((j : ℕ) → get_value m' j ≡ (if key == j then some value else get_value m j))
      × (full ≡ at_capacity m'.mutable)
      × (m'.is_full ≡ full)
      × IsManaged m'

  -- A put waits exactly if the mutable table is marked as full. Otherwise it returns whether that
  -- table is at its capacity now, and marks it so; then the value of its key is the new one, that
  -- of any other key in the two tables is as before, and both tables stay valid.
  pub put_record_lem :
      (m : MemTableManager V) (key : ℕ) (value : V)
      → IsManaged m
      → PutsRecord m key value (put_record m key value)
  unfolding put_record get_value
  put_record_lem m key value h = elim (Bool-cases m.is_full) [
    | inl e ↦ rw e refl
    | inr e ↦ rw e (
      refl,
      (λ j. read j),
      same_flag (at_capacity (put m.mutable key value).0),
      refl,
      record {
        mutable_valid = p.3;
        immutable_valid = h.immutable_valid;
        ordered = omega (arith, h.ordered, p.2);
      },
    )
  ]
    where
      p : Puts m.mutable key value (put m.mutable key value)
      p = put_lem m.mutable key value h.mutable_valid

      same_flag : (b : Bool) → (if b then true else false) ≡ b
      same_flag true = refl
      same_flag false = refl

      or_older : Option V → ℕ → Option V
      or_older o j = elim o [
        | some v ↦ some v
        | none ↦ elim (get m.immutable j) [ some v ↦ some v | none ↦ none ]
      ]

      read :
          (j : ℕ)
          → or_older (get (put m.mutable key value).0 j) j
            ≡ (if key == j then some value else or_older (get m.mutable j) j)
      read j = elim (Bool-cases (key == j)) [ inl e ↦ rw (p.0 j, e) | inr e ↦ rw (p.0 j, e) ]

  abbrev pub Switches : MemTableManager V → Outcome (MemTableManager V) → Type 0
  Switches m (ok m') =
      (m.is_full ≡ true)
      × (at_capacity m.mutable ≡ true)
      × ((key : ℕ) → get_value m' key ≡ get m.mutable key)
      × (m'.immutable ≡ m.mutable)
      × (m'.mutable.table ≡ [])
      × (m'.mutable.sync_id ≡ m.mutable.sync_id)
      × (m'.is_full ≡ false)
      × IsManaged m'
  Switches m (err e) = ⊥
  Switches m panic = (m.is_full ≡ false) ⊎ (at_capacity m.mutable ≡ false)

  -- The result of a switch, from the sync of the cleared table on.
  abbrev swapped :
      MemTableManager V → Outcome (MemTable V × List (ℕ × V)) → Outcome (MemTableManager V)
  swapped m out = out >>= λ r. ok (record { mutable = r.0; immutable = m.mutable; is_full = false })

  switch_runs :
      (uninit : ℕ) (m : MemTableManager V)
      → m.is_full ≡ true
      → at_capacity m.mutable ≡ true
      → switch uninit m ≡ swapped m (sync uninit (clear m.immutable) m.mutable.sync_id)
  unfolding switch is_empty clear
  switch_runs uninit m e c = rw (e, c)

  switch_unmarked :
      (uninit : ℕ) (m : MemTableManager V) → m.is_full ≡ false → switch uninit m ≡ panic
  unfolding switch
  switch_unmarked uninit m e = rw e

  switch_below :
      (uninit : ℕ) (m : MemTableManager V)
      → m.is_full ≡ true
      → at_capacity m.mutable ≡ false
      → switch uninit m ≡ panic
  unfolding switch is_empty clear
  switch_below uninit m e c = rw (e, c)

  same_option : (o : Option V) → (elim o [ some v ↦ some v | none ↦ none ]) ≡ o
  same_option none = refl
  same_option (some v) = refl

  swapped-Switches :
      (m : MemTableManager V) (out : Outcome (MemTable V × List (ℕ × V)))
      → IsManaged m
      → m.is_full ≡ true
      → at_capacity m.mutable ≡ true
      → Syncs (clear m.immutable) m.mutable.sync_id out
      → Switches m (swapped m out)
  unfolding get_value get clear
  swapped-Switches m (ok (t, dropped)) h e c w = (
    e,
    c,
    (λ key. read key),
    refl,
    empty (w.1),
    w.3,
    refl,
    record { mutable_valid = w.4; immutable_valid = h.mutable_valid; ordered = omega (arith, w.3) },
  )
    where
      empty :
          ((m.immutable.sync_id ≡ m.mutable.sync_id) × (t ≡ clear m.immutable) × (dropped ≡ []))
            ⊎ ((m.immutable.sync_id < m.mutable.sync_id) × (t.table ≡ []) × (dropped ≡ []))
          → t.table ≡ []
      empty (inl p) = ap (λ a. a.table) (p.1)
      empty (inr p) = p.1

      read :
          (key : ℕ)
          → (elim (get t key) [
            | some value ↦ some value
            | none ↦ elim (get m.mutable key) [ some value ↦ some value | none ↦ none ]
          ])
            ≡ get m.mutable key
      read key = rw (w.2 key) (same_option (get m.mutable key))
  swapped-Switches m (err e') h e c w = absurd w
  swapped-Switches m panic h e c w = absurd (omega (arith, w, h.ordered))

  -- `switch` panics exactly if the mutable table is not marked as full or is below its capacity.
  -- Otherwise the mutable table becomes the immutable one as it is, and an empty table with the
  -- same sync ID the mutable one; the values are those of the old mutable table.
  pub switch_lem : (uninit : ℕ) (m : MemTableManager V) → IsManaged m → Switches m (switch uninit m)
  switch_lem uninit m h = elim (Bool-cases m.is_full) [
    | inl e ↦ elim (Bool-cases (at_capacity m.mutable)) [
      | inl c ↦ rw (switch_runs uninit m e c) (
          swapped-Switches m (sync uninit (clear m.immutable) m.mutable.sync_id) h e c
            (sync_lem uninit (clear m.immutable) m.mutable.sync_id (clear-IsValid m.immutable)))
      | inr c ↦ rw (switch_below uninit m e c) (inr c)
    ]
    | inr e ↦ rw (switch_unmarked uninit m e) (inl e)
  ]
