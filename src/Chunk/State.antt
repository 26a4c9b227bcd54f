-- ===== src/Chunk/State.antt =====
-- `ChunkAllocState`: the invariant, and what `alloc` and `dealloc` do to the list of allocated
-- chunks that its bitmap stands for.
use mlsdisk.Base.{
  Bool, Bool-cases, List, Option, Option-cases, Outcome, [], ap, arith, err, false, get_elem?,
  get_elem?_ge, get_elem?_lt, if◌then◌else◌, inl, inr, le→ltb, none, ok, panic, refl, replicate,
  set, some, sub_usize, suc, sym, true, unwrap, ℕ, ◌+◌, ◌-◌, ◌<◌, ◌==◌, ◌>>=◌, ◌^◌, ◌∙◌, ◌∷◌, ◌≡◌,
  ◌≢◌, ◌≤◌, ◌⊎◌,
}
use mlsdisk.Bittle.{Bittle, count}
use mlsdisk.Bittle.Positions.{count-replicate_self, count-set_eq, count-set_ne}
use mlsdisk.BitMap.{first_zero, set_to}
use mlsdisk.BitMap.Shape.{
  IsValid, length-view, nbits-written, set_to_ok, test_bit_lem, view, written, written_lem,
}
use mlsdisk.BitMap.Search.{Finds, IsFirst, first_zero_lem}
use mlsdisk.BitMap.Repeat.{repeat_lem}
use mlsdisk.Chunk.{ChunkAllocState, alloc_chunk, capacity, dealloc_chunk, new_state, next_chunk}

-- Which chunks are allocated.
abbrev pub allocated : ChunkAllocState → List Bool
allocated s = view s.alloc_map

-- The count is that of the free chunks, and the search starts within the capacity or at its end.
pub record IsConsistent (s : ChunkAllocState) : Type 0 where
  pub map_valid : IsValid s.alloc_map
  pub counted : s.free_count ≡ count false (allocated s)
  pub next_in : s.next_free ≤ capacity s

-- Where `alloc` starts to search.
abbrev pub cursor : ChunkAllocState → ℕ
cursor s = if s.next_free == capacity s then 0 else s.next_free

-- The chunk that round-robin allocation takes: the first free one from the cursor on, or, if there
-- is none, the first free one of all.
abbrev pub IsNext : ChunkAllocState → ℕ → Type 0
IsNext s id =
    IsFirst false (allocated s) (cursor s) (some id)
    ⊎ (IsFirst false (allocated s) (cursor s) none × IsFirst false (allocated s) 0 (some id))

-- What changes when chunk `id` becomes allocated or free.
pub record Marks (s : ChunkAllocState) (id : ℕ) (value : Bool) (after : ChunkAllocState)
    : Type 0 where
  pub marked : allocated after ≡ set (allocated s) id value
  pub same_capacity : capacity after ≡ capacity s
  pub same_journal : after.in_journal ≡ s.in_journal
  pub consistent : IsConsistent after

-- What `alloc` may do.
abbrev pub Allocates : ChunkAllocState → Outcome (Option ℕ × ChunkAllocState) → Type 0
Allocates s (ok (some id, after)) =
    (get_elem? (allocated s) id ≡ some false)
    × IsNext s id
    × (after.free_count + 1 ≡ s.free_count)
    × Marks s id true after
Allocates s (ok (none, after)) = ⊥
Allocates s (err e) = ⊥
Allocates s panic = s.free_count ≡ 0

-- What `dealloc` may do.
abbrev pub Deallocates : ChunkAllocState → ℕ → Outcome ChunkAllocState → Type 0
Deallocates s id (ok after) =
    (get_elem? (allocated s) id ≡ some true)
    × (after.free_count ≡ s.free_count + 1)
    × Marks s id false after
Deallocates s id (err e) = ⊥
Deallocates s id panic = get_elem? (allocated s) id ≢ some true

no_zeros : (v : List Bool) → IsFirst false v 0 none → count false v ≡ 0
no_zeros [] h = refl
no_zeros (true ∷ v) h = no_zeros v (λ j _. h (suc j) (omega arith))
no_zeros (false ∷ v) h = absurd (h 0 (omega arith) refl)

module _ ⦃bt : Bittle⦄ where
  -- A new allocator is consistent, all its chunks are free, and it counts them all.
  pub new_state_lem :
      (in_journal : Bool) (n : ℕ)
      → n + 63 < 2 ^ 32
      → IsConsistent (new_state in_journal n)
        × (allocated (new_state in_journal n) ≡ replicate n false)
        × (capacity (new_state in_journal n) ≡ n)
  unfolding new_state
  new_state_lem in_journal n fits =
      let r = repeat_lem false n fits in
      (
        record {
          map_valid = r.2;
          counted = sym (ap (count false) r.0 ∙ count-replicate_self false n);
          next_in = omega arith;
        },
        r.0,
        r.1,
      )

  -- What `next_chunk` may do.
  abbrev Chooses : ChunkAllocState → Outcome ℕ → Type 0
  Chooses s (ok id) = IsNext s id
  Chooses s (err e) = ⊥
  Chooses s panic = IsFirst false (allocated s) 0 none

  cursor_lt : (s : ChunkAllocState) → IsConsistent s → capacity s ≤ cursor s → capacity s ≡ 0
  cursor_lt s c h = ground (arith, c.next_in)

  no_chunks :
      (s : ChunkAllocState) → IsConsistent s → capacity s ≡ 0 → IsFirst false (allocated s) 0 none
  no_chunks s c e = λ j _ h.
      cc (get_elem?_ge (allocated s) j (omega (arith, length-view s.alloc_map c.map_valid)))

  choose_lem :
      (s : ChunkAllocState) (o o₀ : Outcome (Option ℕ))
      → IsConsistent s
      → Finds false s.alloc_map (cursor s) o
      → Finds false s.alloc_map 0 o₀
      → Chooses s (o >>= λ found. elim found [ some chunk_id ↦ ok chunk_id | none ↦ o₀ >>= unwrap ])
  choose_lem s (ok (some id)) o₀ c h h₀ = inl h.1
  choose_lem s (ok none) (ok (some id)) c h h₀ = inr (h.1, h₀.1)
  choose_lem s (ok none) (ok none) c h h₀ = h₀.1
  choose_lem s (ok none) (err e) c h h₀ = h₀
  choose_lem s (ok none) panic c h h₀ = no_chunks s c (omega arith)
  choose_lem s (err e) o₀ c h h₀ = h
  choose_lem s panic o₀ c h h₀ = no_chunks s c (cursor_lt s c h)

  next_chunk_lem : (s : ChunkAllocState) → IsConsistent s → Chooses s (next_chunk s)
  unfolding next_chunk
  next_chunk_lem s c =
      choose_lem s (first_zero s.alloc_map (cursor s)) (first_zero s.alloc_map 0) c
        (first_zero_lem s.alloc_map (cursor s) c.map_valid)
        (first_zero_lem s.alloc_map 0 c.map_valid)

  -- What `written` does to the count, by the bit that was there.
  Marks-of :
      (s : ChunkAllocState) (id free next : ℕ) (value : Bool)
      → IsConsistent s
      → id < capacity s
      → next ≤ capacity s
      → free ≡ count false (set (allocated s) id value)
      → Marks s id value (record s {
        alloc_map = written s.alloc_map id value;
        free_count = free;
        next_free = next;
      })
  Marks-of s id free next value c lt le e =
      let w = written_lem s.alloc_map id value c.map_valid lt in
      let n = nbits-written s.alloc_map id value in
      record {
        marked = w.0;
        same_capacity = n;
        same_journal = refl;
        consistent = record {
          map_valid = w.1;
          counted = e ∙ ap (count false) (sym w.0);
          next_in = omega (arith, n);
        };
      }

  taken :
      (s : ChunkAllocState) (id : ℕ)
      → IsConsistent s
      → get_elem? (allocated s) id ≡ some false
      → suc (count false (set (allocated s) id true)) ≡ s.free_count
  taken s id c h = count-set_eq false (allocated s) id h ∙ sym c.counted

  pub bit_lt :
      (s : ChunkAllocState) (id : ℕ) {b : Bool}
      → IsConsistent s
      → get_elem? (allocated s) id ≡ some b
      → id < capacity s
  bit_lt s id c h =
      omega (arith, get_elem?_lt (allocated s) id h, length-view s.alloc_map c.map_valid)

  next_free_bit :
      (s : ChunkAllocState) (id : ℕ) → IsNext s id → get_elem? (allocated s) id ≡ some false
  next_free_bit s id (inl h) = h.1
  next_free_bit s id (inr h) = h.1.1

  alloc_at :
      (s : ChunkAllocState) (id : ℕ)
      → IsConsistent s
      → IsNext s id
      → Allocates s (do
        alloc_map ← set_to s.alloc_map id true
        free_count ← sub_usize s.free_count 1
        ok (
          some id,
          record s { alloc_map = alloc_map; free_count = free_count; next_free = id + 1 },
        ))
  alloc_at s id c next =
      let bit = next_free_bit s id next in
      let lt = bit_lt s id c bit in
      let t = taken s id c bit in
      rw (set_to_ok s.alloc_map id true c.map_valid lt, le→ltb 1 s.free_count (omega arith))
        (
          bit,
          next,
          omega arith,
          Marks-of s id (s.free_count - 1) (id + 1) true c lt (omega arith) (omega arith),
        )

  -- On a consistent state `alloc` never returns `None`: it takes the first free chunk from the
  -- cursor on, or else the first of all, marks it and counts it, keeps everything else, and leaves
  -- a consistent state; if no chunk is free it panics.
  pub alloc_chunk_lem : (s : ChunkAllocState) → IsConsistent s → Allocates s (alloc_chunk s)
  unfolding alloc_chunk
  alloc_chunk_lem s c = go (next_chunk s) (next_chunk_lem s c)
    where
      go :
          (o : Outcome ℕ)
          → Chooses s o
          → Allocates s (do
            free_chunk_id ← o
            alloc_map ← set_to s.alloc_map free_chunk_id true
            free_count ← sub_usize s.free_count 1
            ok (
              some free_chunk_id,
              record s {
                alloc_map = alloc_map;
                free_count = free_count;
                next_free = free_chunk_id + 1;
              },
            ))
      go (ok id) h = alloc_at s id c h
      go (err e) h = h
      go panic h = c.counted ∙ no_zeros (allocated s) h

  dealloc_at :
      (s : ChunkAllocState) (id : ℕ)
      → IsConsistent s
      → get_elem? (allocated s) id ≡ some true
      → Deallocates s id (do
        alloc_map ← set_to s.alloc_map id false
        ok (record s { alloc_map = alloc_map; free_count = s.free_count + 1 }))
  dealloc_at s id c bit =
      let lt = bit_lt s id c bit in
      rw (set_to_ok s.alloc_map id false c.map_valid lt) (
        bit,
        refl,
        Marks-of s id (s.free_count + 1) s.next_free false c lt c.next_in
            (omega (arith, count-set_ne false (allocated s) id bit, c.counted)),
      )

  -- On a consistent state `dealloc` of an allocated chunk frees it, counts it, keeps everything
  -- else and leaves a consistent state; of a free chunk, or of an index out of range, it panics.
  pub dealloc_chunk_lem :
      (s : ChunkAllocState) (id : ℕ) → IsConsistent s → Deallocates s id (dealloc_chunk s id)
  unfolding dealloc_chunk
  dealloc_chunk_lem s id c = elim (Option-cases (get_elem? (allocated s) id)) [
    | inl e ↦ rw (test_bit_lem s.alloc_map id c.map_valid, e) (λ h. cc)
    | inr (b, e) ↦ elim (Bool-cases b) [
      | inl t ↦
          rw (test_bit_lem s.alloc_map id c.map_valid, e, t) (dealloc_at s id c (e ∙ ap some t))
      | inr f ↦ rw (test_bit_lem s.alloc_map id c.map_valid, e, f) (λ h. cc)
    ]
  ]
