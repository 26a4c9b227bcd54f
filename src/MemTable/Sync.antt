-- ===== src/MemTable/Sync.antt =====
-- `sync` of a `MemTable`: the range that it visits holds every unsynced value, so that the result
-- is that of a visit of all entries.
use mlsdisk.Base.{
  ==_refl, Bool-cases, List, Option, Outcome, UniqueKeys, [], ap, arith, err, inl, inr, length,
  less_cases, le→leb, le→ltb, lookup, lt→==, lt→leb, none, ok, panic, refl, some, suc, true, ℕ, ◌+◌,
  ◌-◌, ◌<◌, ◌==◌, ◌∙◌, ◌∷◌, ◌≡◌, ◌≤◌, ◌⊎◌,
}
use mlsdisk.MemTable.{
  MemTable, ValueEx, contains_unsynced, get, in_range, is_range, latest, sync, sync_entries, synced,
  synced_and_unsynced, unsynced,
}
use mlsdisk.MemTable.Entries.{IsCovered, IsValid, total}

module _ {V : Type 0} where
  -- An entry after a sync, and the value that the sync drops: the synced one, if a later unsynced
  -- one replaces it.
  abbrev pub synced_entry : ValueEx V → ValueEx V
  synced_entry (synced v) = synced v
  synced_entry (unsynced v) = synced v
  synced_entry (synced_and_unsynced sv usv) = synced usv

  abbrev pub all_synced : List (ℕ × ValueEx V) → List (ℕ × ValueEx V)
  all_synced [] = []
  all_synced ((k, x) ∷ m) = (k, synced_entry x) ∷ all_synced m

  abbrev pub outdated : List (ℕ × ValueEx V) → List (ℕ × V)
  outdated [] = []
  outdated ((k, synced v) ∷ m) = outdated m
  outdated ((k, unsynced v) ∷ m) = outdated m
  outdated ((k, synced_and_unsynced sv usv) ∷ m) = (k, sv) ∷ outdated m

  total-all_synced :
      (m : List (ℕ × ValueEx V)) → total (all_synced m) + length (outdated m) ≡ total m
  total-all_synced [] = refl
  total-all_synced ((k, synced v) ∷ m) = omega (arith, total-all_synced m)
  total-all_synced ((k, unsynced v) ∷ m) = omega (arith, total-all_synced m)
  total-all_synced ((k, synced_and_unsynced sv usv) ∷ m) = omega (arith, total-all_synced m)

  lookup-all_synced :
      (j : ℕ) (m : List (ℕ × ValueEx V))
      → lookup j (all_synced m)
        ≡ (elim (lookup j m) [ none ↦ none | some x ↦ some (synced_entry x) ])
  lookup-all_synced j [] = refl
  lookup-all_synced j ((k, x) ∷ m) = elim (Bool-cases (k == j)) [
    | inl e ↦ rw e
    | inr e ↦ rw e (lookup-all_synced j m)
  ]

  all_synced-UniqueKeys : (m : List (ℕ × ValueEx V)) → UniqueKeys m → UniqueKeys (all_synced m)
  all_synced-UniqueKeys [] u = tt
  all_synced-UniqueKeys ((k, x) ∷ m) u =
      (lookup-all_synced k m ∙ rw u.0, all_synced-UniqueKeys m u.1)

  all_synced-IsCovered :
      (range : Option (ℕ × ℕ)) (m : List (ℕ × ValueEx V)) → IsCovered range (all_synced m)
  unfolding contains_unsynced
  all_synced-IsCovered range [] = tt
  all_synced-IsCovered range ((k, synced v) ∷ m) = (λ e. cc, all_synced-IsCovered range m)
  all_synced-IsCovered range ((k, unsynced v) ∷ m) = (λ e. cc, all_synced-IsCovered range m)
  all_synced-IsCovered range ((k, synced_and_unsynced sv usv) ∷ m) =
      (λ e. cc, all_synced-IsCovered range m)

  -- The loop visits every entry that has something to sync, and the size does not underflow.
  sync_entries_lem :
      (range : Option (ℕ × ℕ)) (m : List (ℕ × ValueEx V)) (size : ℕ)
      → IsCovered range m
      → total m ≤ size
      → sync_entries range m size ≡ ok (all_synced m, outdated m, size - length (outdated m))
  unfolding sync_entries
  sync_entries_lem range [] size c le =
      ap (λ s. ok ([], [], s)) {x = size} {y = size - 0} (omega arith)
  sync_entries_lem range ((k, synced v) ∷ m) size c le = elim (Bool-cases (in_range range k)) [
    | inl e ↦ rw (e, sync_entries_lem range m size c.1 (omega arith))
    | inr e ↦ rw (e, sync_entries_lem range m size c.1 (omega arith))
  ]
  sync_entries_lem range ((k, unsynced v) ∷ m) size c le =
      rw (c.0 refl, sync_entries_lem range m size c.1 (omega arith))
  sync_entries_lem range ((k, synced_and_unsynced sv usv) ∷ m) size c le =
      rw
        (
          c.0 refl,
          le→ltb 1 size (omega arith),
          sync_entries_lem range m (size - 1) c.1 (omega arith),
        )
        (ap (λ s. ok ((k, synced usv) ∷ all_synced m, (k, sv) ∷ outdated m, s))
          {x = size - 1 - length (outdated m)} {y = size - suc (length (outdated m))} (omega arith))

  -- What a sync may do.
  abbrev pub Syncs : MemTable V → ℕ → Outcome (MemTable V × List (ℕ × V)) → Type 0
  Syncs t sync_id (ok (after, dropped)) =
      (t.sync_id ≤ sync_id)
      × (((t.sync_id ≡ sync_id) × (after ≡ t) × (dropped ≡ []))
          ⊎ ((t.sync_id < sync_id)
              × (after.table ≡ all_synced t.table)
              × (dropped ≡ outdated t.table)))
      × ((j : ℕ) → get after j ≡ get t j)
      × (after.sync_id ≡ sync_id)
      × IsValid after
  Syncs t sync_id (err e) = ⊥
  Syncs t sync_id panic = sync_id < t.sync_id

  get-all_synced :
      (t after : MemTable V) → after.table ≡ all_synced t.table → (j : ℕ) → get after j ≡ get t j
  unfolding get
  get-all_synced t after e j =
      ap (λ m. elim (lookup j m) [ none ↦ none | some value_ex ↦ some (latest value_ex) ]) e
      ∙ ap (λ o. elim o [ none ↦ none | some value_ex ↦ some (latest value_ex) ])
          (lookup-all_synced j t.table)
      ∙ same_latest (lookup j t.table)
    where
      same_entry : (x : ValueEx V) → latest (synced_entry x) ≡ latest x
      same_entry (synced v) = unfold latest in refl
      same_entry (unsynced v) = unfold latest in refl
      same_entry (synced_and_unsynced sv usv) = unfold latest in refl

      same_latest :
          (o : Option (ValueEx V))
          → (elim (let p : Option (ValueEx V) = elim o [
            | none ↦ none
            | some x ↦ some (synced_entry x)
          ] in
              p) [ none ↦ none | some value_ex ↦ some (latest value_ex) ])
            ≡ (elim o [ none ↦ none | some value_ex ↦ some (latest value_ex) ])
      same_latest none = refl
      same_latest (some x) = ap some (same_entry x)

  sync_form :
      (uninit : ℕ) (t : MemTable V) (sync_id : ℕ)
      → IsValid t
      → t.sync_id < sync_id
      → sync uninit t sync_id
        ≡ ok (
          record t {
            table = all_synced t.table;
            size = t.size - length (outdated t.table);
            sync_id = sync_id;
            unsynced_range = elim t.unsynced_range [
              | some range ↦ some range
              | none ↦ some (uninit, uninit)
            ];
          },
          outdated t.table,
        )
  unfolding sync
  sync_form uninit t sync_id h lt = rw (
    le→leb t.sync_id sync_id (omega arith),
    lt→== t.sync_id sync_id lt,
    h.ordered,
    sync_entries_lem t.unsynced_range t.table t.size h.covered (omega (arith, h.counted)),
  )

  -- With a sync ID that is not before that of a valid table, and only then, `sync` returns: of
  -- the same sync ID the table as it is, otherwise each entry synced with its latest value, and
  -- exactly the synced values that a later one replaced as dropped. It changes no value that
  -- `get` gives, takes the sync ID, and keeps the invariant.
  pub sync_lem :
      (uninit : ℕ) (t : MemTable V) (sync_id : ℕ)
      → IsValid t
      → Syncs t sync_id (sync uninit t sync_id)
  unfolding sync
  sync_lem uninit t sync_id h = elim (less_cases t.sync_id sync_id) [
    | inl lt ↦ rw (sync_form uninit t sync_id h lt) (
      omega arith,
      inr (lt, refl, refl),
      get-all_synced t after refl,
      refl,
      record {
        unique = all_synced-UniqueKeys t.table h.unique;
        counted = omega (arith, h.counted, total-all_synced t.table);
        covered = all_synced-IsCovered after.unsynced_range t.table;
        ordered = is_range-after t.unsynced_range h.ordered;
      },
    )
    | inr (inl e) ↦ same_id sync_id e
    | inr (inr lt) ↦ rw (lt→leb sync_id t.sync_id lt) lt
  ]
    where
      same_id : (s : ℕ) → t.sync_id ≡ s → Syncs t s (sync uninit t s)
      same_id s e = rw⁻¹ e (
          rw (le→leb t.sync_id t.sync_id (omega arith), ==_refl t.sync_id)
            (omega arith, inl (refl, refl, refl), (λ j. refl), refl, h))

      after : MemTable V
      after = record t {
        table = all_synced t.table;
        size = t.size - length (outdated t.table);
        sync_id = sync_id;
        unsynced_range = elim t.unsynced_range [
          | some range ↦ some range
          | none ↦ some (uninit, uninit)
        ];
      }

      is_range-after :
          (r : Option (ℕ × ℕ))
          → is_range r ≡ true
          → is_range (elim r [ some range ↦ some range | none ↦ some (uninit, uninit) ]) ≡ true
      is_range-after none e = unfold is_range in le→leb uninit uninit (omega arith)
      is_range-after (some r) e = e
