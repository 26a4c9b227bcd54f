-- ===== src/AllocTable/Batch.antt =====
-- `alloc_batch` of a consistent table: it waits exactly while there are too few free blocks, and
-- else allocates, with no panic and no failed `unwrap`.
use mlsdisk.Base.{
  ==_iff, Bool, Bool-cases, Distinct, List, Option, Outcome, [], ap, arith, contains, dec_lt, drop,
  err, false, get_elem?, if◌then◌else◌, inl, inr, length, length-drop, le→ltb, ltb, ltb→le, lt→leb,
  lt→ltb, none, ok, panic, refl, replicate, same, some, suc, sym, true, zero, ℕ, ◌+◌, ◌<◌, ◌>>=◌,
  ◌^◌, ◌∙◌, ◌∷◌, ◌≡◌, ◌≢◌, ◌≤◌, ◌⊎◌,
}
use mlsdisk.Bittle.{Bittle, count}
use mlsdisk.BitMap.{first_one, first_ones, len}
use mlsdisk.BitMap.Shape.{length-view}
use mlsdisk.BitMap.Search.{Finds, IsFirst, first_one_lem, same_iff}
use mlsdisk.BitMap.Batch.{FindsAll, Picks, first_ones_lem}
use mlsdisk.AllocTable.{
  AllocTable, alloc_batch, book, do_alloc_batch, new_table, search_again, search_start, take_slots,
}
use mlsdisk.AllocTable.Take.{IsConsistent, Taken, free, not_before, take_slots_lem}
use mlsdisk.Bittle.Positions.{count-replicate_self}
use mlsdisk.BitMap.Repeat.{repeat_lem}

differs : (b x : Bool) → x ≢ b → same b x ≡ false
differs b x ne = elim (Bool-cases (same b x)) [
  | inl e ↦ absurd (ne ((same_iff x b).0 e))
  | inr e ↦ e
]

count-le : (b : Bool) (v : List Bool) → count b v ≤ length v
count-le b [] = omega arith
count-le b (x ∷ v) = ground (arith, count-le b v)

-- Bits before the first that equals `b` do not count.
count-drop :
    (b : Bool) (v : List Bool) (f : ℕ)
    → ((j : ℕ) → j < f → get_elem? v j ≢ some b)
    → count b (drop f v) ≡ count b v
count-drop b v zero h = refl
count-drop b [] (suc f) h = refl
count-drop b (x ∷ v) (suc f) h =
    count-drop b v f (λ j lt. h (suc j) (omega arith))
    ∙ sym (
        ap (λ t. if t then suc (count b v) else count b v)
          (differs b x (λ e. h 0 (omega arith) (ap some e))))

count-none : (b : Bool) (v : List Bool) → IsFirst b v 0 none → count b v ≡ 0
count-none b [] h = refl
count-none b (x ∷ v) h =
    ap (λ t. if t then suc (count b v) else count b v)
      (differs b x (λ e. h 0 (omega arith) (ap some e)))
    ∙ count-none b v (λ j _. h (suc j) (omega arith))

Picks-Distinct :
    (b : Bool) (v : List Bool) (from : ℕ) (is : List ℕ) → Picks b v from is → Distinct is
Picks-Distinct b v from [] h = tt
Picks-Distinct b v from (i ∷ is) h =
    (not_before b v (suc i) is i h.1 (omega arith), Picks-Distinct b v (suc i) is h.1)

module _ ⦃bt : Bittle⦄ (t : AllocTable) (num : ℕ) (c : IsConsistent t) (pos : 0 < num)
    (enough : num ≤ t.num_free) where
  -- The slots of a batch are distinct, as many as asked for, and taken.
  abbrev Succeeds : Outcome (Option (List ℕ × AllocTable)) → Type 0
  Succeeds (ok (some r)) = (length r.0 ≡ num) × Distinct r.0 × Taken t r.0 r.1
  Succeeds (ok none) = ⊥
  Succeeds (err e) = ⊥
  Succeeds panic = ⊥

  ones : num ≤ count true (free t)
  ones = omega (arith, c.counted)

  ones_fit : count true (free t) ≤ t.bitmap.nbits
  ones_fit = omega (arith, count-le true (free t), length-view t.bitmap c.map_valid)

  take-Succeeds :
      (from : ℕ) (is : List ℕ)
      → length is ≡ num
      → Picks true (free t) from is
      → Succeeds (take_slots t is)
  take-Succeeds from [] len p = absurd (omega arith)
  take-Succeeds from (i ∷ is) len p =
      let r = take_slots_lem t from i is c p in
      rw r.1 (len, Picks-Distinct true (free t) from (i ∷ is) p, r.2)

  -- The search from the first free slot of all finds enough.
  all_found :
      (f : ℕ) (o : Outcome (Option (List ℕ)))
      → IsFirst true (free t) 0 (some f)
      → FindsAll true t.bitmap f num o
      → Succeeds (o >>= λ found. elim found [ none ↦ ok none | some hbas ↦ take_slots t hbas ])
  all_found f (ok (some is)) h g = take-Succeeds f is g.2.0 g.2.1
  all_found f (ok none) h g =
      omega (arith, g.2, ones, count-drop true (free t) f (λ j lt. h.2 j (omega arith) lt))
  all_found f (err e) h g = g
  all_found f panic h g = omega (
    arith,
    g,
    ones,
    count-drop true (free t) f (λ j lt. h.2 j (omega arith) lt),
    count-le true (drop f (free t)),
    length-drop f (free t),
    length-view t.bitmap c.map_valid,
  )

  again_at :
      (o : Outcome (Option ℕ))
      → Finds true t.bitmap 0 o
      → Succeeds (
          o >>= λ first. elim first [
            | none ↦ ok none
            | some next_avail ↦ first_ones t.bitmap next_avail num >>= λ found. elim found [
              | none ↦ ok none
              | some hbas ↦ take_slots t hbas
            ]
          ])
  again_at (ok (some f)) h =
      all_found f (first_ones t.bitmap f num) h.1 (first_ones_lem t.bitmap f num c.map_valid)
  again_at (ok none) h = omega (arith, ones, count-none true (free t) h.1)
  again_at (err e) h = h
  again_at panic h = omega (arith, ones, ones_fit)

  search_again-Succeeds : Succeeds (search_again t num)
  unfolding search_again
  search_again-Succeeds = again_at (first_one t.bitmap 0) (first_one_lem t.bitmap 0 c.map_valid)

  -- The first search starts where the batch fits, or at the first free slot of all.
  abbrev Starts : Outcome (Option ℕ) → Type 0
  Starts (ok (some from)) = (from + num ≤ t.bitmap.nbits) ⊎ IsFirst true (free t) 0 (some from)
  Starts (ok none) = ⊥
  Starts (err e) = ⊥
  Starts panic = ⊥

  Starts-first : (o : Outcome (Option ℕ)) → Finds true t.bitmap 0 o → Starts o
  Starts-first (ok (some f)) h = inr h.1
  Starts-first (ok none) h = omega (arith, ones, count-none true (free t) h.1)
  Starts-first (err e) h = h
  Starts-first panic h = omega (arith, ones, ones_fit)

  search_start-Starts : Starts (search_start t num)
  unfolding search_start
  search_start-Starts =
      rw
        (lt→leb (t.next_avail + num) (2 ^ 64)
          (omega (arith, c.addressable, c.next_in, ones, ones_fit, c.same_length)))
        (elim (Bool-cases (ltb t.nblocks (t.next_avail + num))) [
          | inl e ↦
              rw e (Starts-first (first_one t.bitmap 0) (first_one_lem t.bitmap 0 c.map_valid))
          | inr e ↦
              rw e (inl (omega (arith, c.same_length, ltb→le t.nblocks (t.next_avail + num) e)))
        ])

  found_at :
      (from : ℕ) (o : Outcome (Option (List ℕ)))
      → ((from + num ≤ t.bitmap.nbits) ⊎ IsFirst true (free t) 0 (some from))
      → FindsAll true t.bitmap from num o
      → Succeeds
          (o >>= λ found. elim found [ none ↦ search_again t num | some hbas ↦ take_slots t hbas ])
  found_at from (ok (some is)) s g = take-Succeeds from is g.2.0 g.2.1
  found_at from (ok none) s g = search_again-Succeeds
  found_at from (err e) s g = g
  found_at from panic (inl s) g = omega arith
  found_at from panic (inr s) g = all_found from panic s g

  started_at :
      (o : Outcome (Option ℕ))
      → Starts o
      → Succeeds (
          o >>= λ start. elim start [
            | none ↦ ok none
            | some next_avail ↦ first_ones t.bitmap next_avail num >>= λ found. elim found [
              | none ↦ search_again t num
              | some hbas ↦ take_slots t hbas
            ]
          ])
  started_at (ok (some from)) s =
      found_at from (first_ones t.bitmap from num) s (first_ones_lem t.bitmap from num c.map_valid)
  started_at (ok none) s = s
  started_at (err e) s = s
  started_at panic s = s

  do_alloc_batch-Succeeds : Succeeds (do_alloc_batch t num)
  unfolding do_alloc_batch
  do_alloc_batch-Succeeds =
      rw (lt→ltb 0 num pos) (started_at (search_start t num) search_start-Starts)

-- What `alloc_batch` may do.
abbrev pub Batches : AllocTable → ℕ → Outcome (Option (List ℕ × AllocTable)) → Type 0
Batches t num (ok none) = t.num_free < num
Batches t num (ok (some (hbas, after))) =
    (length hbas ≡ num)
    × Distinct hbas
    × ((j : ℕ) → contains j hbas ≡ true → get_elem? (free t) j ≡ some true)
    × ((j : ℕ)
        → get_elem? (free after) j ≡ (if contains j hbas then some false else get_elem? (free t) j))
    × (after.num_free + num ≡ t.num_free)
    × (after.is_dirty ≡ true)
    × IsConsistent after
Batches t num (err e) = ⊥
Batches t num panic = ⊥

module _ ⦃bt : Bittle⦄ where
  booked :
      (t : AllocTable) (num : ℕ) (o : Outcome (Option (List ℕ × AllocTable)))
      → (c : IsConsistent t) (pos : 0 < num) (enough : num ≤ t.num_free)
      → Succeeds t num c pos enough o
      → Batches t num (book t num o)
  unfolding book
  booked t num (ok (some (hbas, after))) c pos enough s =
      rw ((==_iff (length hbas) num).1 s.0, le→ltb num t.num_free enough)
        (
          s.0,
          s.1,
          s.2.were_free,
          s.2.blocks,
          omega arith,
          refl,
          record {
            map_valid = s.2.map_after;
            same_length = s.2.length_after ∙ sym s.2.blocks_kept;
            counted = omega (arith, s.0, s.2.count_after, c.counted);
            next_in = omega (arith, s.2.next_after, s.2.blocks_kept);
            addressable = omega (arith, c.addressable, s.2.blocks_kept);
          },
        )
  booked t num (ok none) c pos enough s = s
  booked t num (err e) c pos enough s = s
  booked t num panic c pos enough s = s

  -- For a positive count `alloc_batch` of a consistent table, which has fewer than 2^32
  -- blocks, waits exactly if there are fewer free blocks than asked for; otherwise it returns
  -- that many distinct blocks, all free before and only they taken now, and leaves a
  -- consistent, dirty table with so many fewer free blocks. It never panics and returns no
  -- error.
  pub alloc_batch_lem :
      (t : AllocTable) (num : ℕ) → IsConsistent t → 0 < num → Batches t num (alloc_batch t num)
  unfolding alloc_batch
  alloc_batch_lem t num c pos = elim (dec_lt t.num_free num) [
    | yes few ↦ rw (lt→ltb t.num_free num few) few
    | no more ↦
        let enough : num ≤ t.num_free = omega arith in
        rw (le→ltb num t.num_free enough) (
          booked t num (do_alloc_batch t num) c pos enough
            (do_alloc_batch-Succeeds t num c pos enough))
  ]

  -- A new table of addressable blocks is consistent, and all its blocks are free.
  pub new_table_lem :
      (n : ℕ)
      → n + 63 < 2 ^ 32
      → IsConsistent (new_table n) × (free (new_table n) ≡ replicate n true)
  unfolding new_table
  new_table_lem n h =
      let r = repeat_lem true n (omega arith) in
      (
        record {
          map_valid = r.2;
          same_length = r.1;
          counted = sym (ap (count true) r.0 ∙ count-replicate_self true n);
          next_in = omega arith;
          addressable = omega (arith, h);
        },
        r.0,
      )
