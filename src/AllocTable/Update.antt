-- ===== src/AllocTable/Update.antt =====
-- The other changes of the block validity table: the end of a transaction applies its diffs, a
-- block is deallocated, and one block is allocated by `alloc`.
use mlsdisk.Base.{
  Bool, Bool-cases, Option, Option-cases, Outcome, UniqueKeys, [], ap, arith, assert, err, false,
  get_elem?, get_elem?-set, get_elem?-set_ne, get_elem?_lt, if◌then◌else◌, inl, inr, lookup, none,
  not, ok, panic, refl, set, some, sym, true, ℕ, ℕ_discrete, ◌+◌, ◌<◌, ◌==◌, ◌>>=◌, ◌>>◌, ◌∙◌, ◌∷◌,
  ◌≡◌, ◌≢◌, ◌⊎◌,
}
use mlsdisk.Bittle.{Bittle, count}
use mlsdisk.Bittle.Positions.{count-set_ne}
use mlsdisk.BitMap.{BitMap, set_to, test_bit}
use mlsdisk.BitMap.Shape.{
  IsValid, length-view, nbits-written, set_to_ok, test_bit_lem, view, written, written_lem,
}
use mlsdisk.AllocTable.{
  AllocDiff, AllocTable, DiffTable, apply_diffs, set_deallocated, update_alloc_table,
}
use mlsdisk.AllocTable.Take.{IsConsistent, free}

-- Whether a diff deallocates.
abbrev pub frees : Option AllocDiff → Bool
frees (some AllocDiff.dealloc) = true
frees (some AllocDiff.alloc) = false
frees (some AllocDiff.invalid) = false
frees none = false

-- What applying diffs to a bitmap may do: every block that a diff names is in use, and exactly the
-- deallocated ones become free and are counted.
abbrev pub Applies : DiffTable → BitMap → ℕ → Outcome (BitMap × ℕ) → Type 0
Applies diffs bm num (ok (after, total)) =
    IsValid after
    × (after.nbits ≡ bm.nbits)
    × (count true (view after) + num ≡ count true (view bm) + total)
    × ((j : ℕ)
        → get_elem? (view after) j
          ≡ (if frees (lookup j diffs) then some true else get_elem? (view bm) j))
Applies diffs bm num (err e) = ⊥
Applies diffs bm num panic =
    (j : ℕ) × ((lookup j diffs ≡ some AllocDiff.invalid)
      ⊎ ((lookup j diffs ≢ none) × (get_elem? (view bm) j ≢ some false)))

module _ ⦃bt : Bittle⦄ where
  -- A block that is deallocated: its bit, and the rest of the diffs applied after it.
  step-dealloc :
      (id : ℕ) (diffs : DiffTable) (bm : BitMap) (num : ℕ) (o : Outcome (BitMap × ℕ))
      → IsValid bm
      → lookup id diffs ≡ none
      → get_elem? (view bm) id ≡ some false
      → Applies diffs (written bm id true) (num + 1) o
      → Applies ((id, AllocDiff.dealloc) ∷ diffs) bm num o
  step-dealloc id diffs bm num (ok (after, total)) h new bit a = (
    a.0,
    a.1 ∙ nbits-written bm id true,
    omega (arith, a.2, ap (count true) w.0, count-set_ne true (view bm) id bit),
    λ j. joined j (a.3 j),
  )
    where
      lt : id < bm.nbits
      lt = omega (arith, get_elem?_lt (view bm) id bit, length-view bm h)

      w : (view (written bm id true) ≡ set (view bm) id true) × IsValid (written bm id true)
      w = written_lem bm id true h lt

      bits :
          (j : ℕ)
          → get_elem? (view (written bm id true)) j
            ≡ (if id == j then some true else get_elem? (view bm) j)
      bits j =
          ap (λ l. get_elem? l j) w.0
          ∙ get_elem?-set (view bm) id j true (omega (arith, length-view bm h, lt))

      joined :
          (j : ℕ) {b : Option Bool}
          → b ≡ (
              if frees (lookup j diffs) then some true else get_elem? (view (written bm id true)) j)
          → b ≡ (
              if frees (lookup j ((id, AllocDiff.dealloc) ∷ diffs))
              then some true
              else get_elem? (view bm) j)
      joined j q = elim (ℕ_discrete id j) [
        | yes e ↦ ground (arith, q, bits j, ap (λ k. lookup k diffs) e)
        | no ne ↦ ground (arith, q, bits j)
      ]
  step-dealloc id diffs bm num (err e) h new bit a = a
  step-dealloc id diffs bm num panic h new bit (j, why) = (
    j,
    elim why [
      | inl p ↦ inl (kept j (λ q. cc (sym p ∙ q)) ∙ p)
      | inr (p, q) ↦ inr (λ e. p (sym (kept j p) ∙ e), λ e. q (same_bit j p ∙ e))
    ],
  )
    where
      apart : (j : ℕ) → lookup j diffs ≢ none → id ≢ j
      apart j p e = p (ap (λ k. lookup k diffs) (sym e) ∙ new)

      kept :
          (j : ℕ)
          → lookup j diffs ≢ none
          → lookup j ((id, AllocDiff.dealloc) ∷ diffs) ≡ lookup j diffs
      kept j p = let ne = apart j p in ground arith

      same_bit :
          (j : ℕ)
          → lookup j diffs ≢ none
          → get_elem? (view (written bm id true)) j ≡ get_elem? (view bm) j
      same_bit j p =
          ap (λ l. get_elem? l j)
            (written_lem bm id true h
              (omega (arith, get_elem?_lt (view bm) id bit, length-view bm h))).0
          ∙ get_elem?-set_ne (view bm) id j true (apart j p)

  -- A block that is in use, and stays so.
  step-alloc :
      (id : ℕ) (diffs : DiffTable) (bm : BitMap) (num : ℕ) (o : Outcome (BitMap × ℕ))
      → lookup id diffs ≡ none
      → Applies diffs bm num o
      → Applies ((id, AllocDiff.alloc) ∷ diffs) bm num o
  step-alloc id diffs bm num (ok (after, total)) new a = (a.0, a.1, a.2, λ j. joined j (a.3 j))
    where
      joined :
          (j : ℕ) {b : Option Bool}
          → b ≡ (if frees (lookup j diffs) then some true else get_elem? (view bm) j)
          → b ≡ (
              if frees (lookup j ((id, AllocDiff.alloc) ∷ diffs))
              then some true
              else get_elem? (view bm) j)
      joined j q = elim (ℕ_discrete id j) [
        | yes e ↦ ground (arith, q, ap (λ k. lookup k diffs) e)
        | no ne ↦ ground (arith, q)
      ]
  step-alloc id diffs bm num (err e) new a = a
  step-alloc id diffs bm num panic new (j, why) = (
    j,
    elim why [
      | inl p ↦ inl (kept j (λ q. cc (sym p ∙ q)) ∙ p)
      | inr (p, q) ↦ inr (λ e. p (sym (kept j p) ∙ e), q)
    ],
  )
    where
      kept :
          (j : ℕ)
          → lookup j diffs ≢ none
          → lookup j ((id, AllocDiff.alloc) ∷ diffs) ≡ lookup j diffs
      kept j p = let ne : id ≢ j = λ e. p (ap (λ k. lookup k diffs) (sym e) ∙ new) in ground arith

  -- The assertion that a named block is in use, from its bit.
  asserted :
      (id : ℕ) (d : AllocDiff) (diffs : DiffTable) (bm : BitMap) (num : ℕ)
      (k : Outcome (BitMap × ℕ))
      → IsValid bm
      → (get_elem? (view bm) id ≡ some false → Applies ((id, d) ∷ diffs) bm num k)
      → Applies ((id, d) ∷ diffs) bm num (test_bit bm id >>= λ free. assert (not free) >> k)
  asserted id d diffs bm num k h go = elim (Option-cases (get_elem? (view bm) id)) [
    | inl e ↦ rw (test_bit_lem bm id h, e) (id, inr (named, λ f. cc))
    | inr (b, e) ↦ elim (Bool-cases b) [
      | inl t ↦ rw (test_bit_lem bm id h, e, t) (id, inr (named, λ f. cc))
      | inr f ↦ rw (test_bit_lem bm id h, e, f) (go (e ∙ ap some f))
    ]
  ]
    where
      named : lookup id ((id, d) ∷ diffs) ≢ none
      named e = ground arith

  apply_diffs-Applies :
      (diffs : DiffTable) (bm : BitMap) (num : ℕ)
      → IsValid bm
      → UniqueKeys diffs
      → Applies diffs bm num (apply_diffs diffs bm num)
  unfolding apply_diffs
  apply_diffs-Applies [] bm num h u = (h, refl, refl, λ j. refl)
  apply_diffs-Applies ((id, AllocDiff.alloc) ∷ diffs) bm num h u =
      asserted id AllocDiff.alloc diffs bm num (apply_diffs diffs bm num) h (λ bit.
        step-alloc id diffs bm num (apply_diffs diffs bm num) u.0
          (apply_diffs-Applies diffs bm num h u.1))
  apply_diffs-Applies ((id, AllocDiff.dealloc) ∷ diffs) bm num h u =
      asserted id AllocDiff.dealloc diffs bm num
        (set_to bm id true >>= λ bm'. apply_diffs diffs bm' (num + 1)) h
        (freed (apply_diffs-Applies diffs (written bm id true) (num + 1)))
    where
      freed :
          (IsValid (written bm id true)
            → UniqueKeys diffs
            → Applies diffs
                (written bm id true)
                (num + 1)
                (apply_diffs diffs (written bm id true) (num + 1)))
          → get_elem? (view bm) id ≡ some false
          → Applies
              ((id, AllocDiff.dealloc) ∷ diffs)
              bm
              num
              (set_to bm id true >>= λ bm'. apply_diffs diffs bm' (num + 1))
      freed rest bit =
          let lt : id < bm.nbits = omega (arith, get_elem?_lt (view bm) id bit, length-view bm h) in
          rw (set_to_ok bm id true h lt) (
            step-dealloc id diffs bm num (apply_diffs diffs (written bm id true) (num + 1)) h u.0
              bit (rest (written_lem bm id true h lt).1 u.1))
  apply_diffs-Applies ((id, AllocDiff.invalid) ∷ diffs) bm num h u = (id, inl (ground arith))

  -- What `update_alloc_table` may do.
  abbrev pub Updates : DiffTable → AllocTable → Outcome AllocTable → Type 0
  Updates diffs t (ok after) =
      ((j : ℕ)
        → get_elem? (free after) j
          ≡ (if frees (lookup j diffs) then some true else get_elem? (free t) j))
      × (after.next_avail ≡ t.next_avail)
      × (after.is_dirty ≡ t.is_dirty)
      × IsConsistent after
  Updates diffs t (err e) = ⊥
  Updates diffs t panic =
      (j : ℕ) × ((lookup j diffs ≡ some AllocDiff.invalid)
        ⊎ ((lookup j diffs ≢ none) × (get_elem? (free t) j ≢ some false)))

  updated :
      (diffs : DiffTable) (t : AllocTable) (o : Outcome (BitMap × ℕ))
      → IsConsistent t
      → Applies diffs t.bitmap 0 o
      → Updates diffs t (o >>= λ r. ok (record t { bitmap = r.0; num_free = t.num_free + r.1 }))
  updated diffs t (ok (after, total)) c a = (
    a.3,
    refl,
    refl,
    record {
      map_valid = a.0;
      same_length = a.1 ∙ c.same_length;
      counted = omega (arith, a.2, c.counted);
      next_in = c.next_in;
      addressable = c.addressable;
    },
  )
  updated diffs t (err e) c a = a
  updated diffs t panic c a = a

  -- Applying the diffs of a transaction to a consistent table, which has fewer than 2^32
  -- blocks, frees exactly the blocks that are recorded as deallocated, counts them, and
  -- leaves a consistent table; it panics only if a diff is invalid or names a block that is
  -- free or out of range.
  pub update_alloc_table_lem :
      (diffs : DiffTable) (t : AllocTable)
      → IsConsistent t
      → UniqueKeys diffs
      → Updates diffs t (update_alloc_table diffs t)
  unfolding update_alloc_table
  update_alloc_table_lem diffs t c u =
      updated diffs t (apply_diffs diffs t.bitmap 0) c
        (apply_diffs-Applies diffs t.bitmap 0 c.map_valid u)

  -- `set_deallocated` of a block in use of a consistent table returns a consistent table in which
  -- that block is free, and no other block has changed.
  pub set_deallocated_lem :
      (t : AllocTable) (nth : ℕ)
      → IsConsistent t
      → get_elem? (free t) nth ≡ some false
      → (after : AllocTable) × (set_deallocated t nth ≡ ok after)
        × (free after ≡ set (free t) nth true)
        × (after.num_free ≡ t.num_free + 1)
        × IsConsistent after
  unfolding set_deallocated
  set_deallocated_lem t nth c bit =
      let lt : nth < t.bitmap.nbits =
        omega (arith, get_elem?_lt (free t) nth bit, length-view t.bitmap c.map_valid) in
      let w = written_lem t.bitmap nth true c.map_valid lt in
      (
        record t { bitmap = written t.bitmap nth true; num_free = t.num_free + 1 },
        rw (set_to_ok t.bitmap nth true c.map_valid lt),
        w.0,
        refl,
        record {
          map_valid = w.1;
          same_length = nbits-written t.bitmap nth true ∙ c.same_length;
          counted =
              omega (arith, c.counted, count-set_ne true (free t) nth bit, ap (count true) w.0);
          next_in = c.next_in;
          addressable = c.addressable;
        },
      )
