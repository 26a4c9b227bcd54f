-- ===== src/Chunk/Edit.antt =====
-- `ChunkAllocEdit`: the table that records what a transaction allocates and deallocates, and the
-- loops that deallocate the chunks of a list.
use mlsdisk.Base.{
  Bool, Bool-cases, Distinct, List, Option, Outcome, UniqueKeys, [], ap, arith, contains, err,
  false, get_elem?, get_elem?-set, if◌then◌else◌, inl, inr, lookup, none, ok, panic, refl, some,
  sym, true, ℕ, ℕ_discrete, ◌<◌, ◌==◌, ◌>>=◌, ◌∙◌, ◌∷◌, ◌≡◌, ◌≢◌, ◌⊎◌,
}
use mlsdisk.Bittle.{Bittle}
use mlsdisk.BitMap.Shape.{length-view}
use mlsdisk.Chunk.{
  ChunkAllocEdit, ChunkAllocState, ChunkEdit, capacity, chunks_with, dealloc_chunk, dealloc_chunks,
}
use mlsdisk.Chunk.State.{Deallocates, IsConsistent, Marks, allocated, bit_lt, dealloc_chunk_lem}

-- The chunks recorded with one kind of edit are those, each once.
kind-cases : (kind e : ChunkEdit) → (e ≡ kind) ⊎ (e ≢ kind)
kind-cases ChunkEdit.alloc ChunkEdit.alloc = inl refl
kind-cases ChunkEdit.alloc ChunkEdit.dealloc = inr (λ e. cc)
kind-cases ChunkEdit.dealloc ChunkEdit.alloc = inr (λ e. cc)
kind-cases ChunkEdit.dealloc ChunkEdit.dealloc = inl refl

-- Whether a lookup found that kind of edit.
abbrev pub is_kind : ChunkEdit → Option ChunkEdit → Bool
is_kind kind none = false
is_kind ChunkEdit.alloc (some ChunkEdit.alloc) = true
is_kind ChunkEdit.alloc (some ChunkEdit.dealloc) = false
is_kind ChunkEdit.dealloc (some ChunkEdit.alloc) = false
is_kind ChunkEdit.dealloc (some ChunkEdit.dealloc) = true

contains-chunks_with-none :
    (kind : ChunkEdit) (edit : ChunkAllocEdit) (j : ℕ)
    → lookup j edit ≡ none
    → contains j (chunks_with kind edit) ≡ false
unfolding chunks_with
contains-chunks_with-none ChunkEdit.alloc [] j h = refl
contains-chunks_with-none ChunkEdit.dealloc [] j h = refl
contains-chunks_with-none ChunkEdit.alloc ((i, ChunkEdit.alloc) ∷ edit) j h =
    ground (arith, contains-chunks_with-none ChunkEdit.alloc edit j)
contains-chunks_with-none ChunkEdit.alloc ((i, ChunkEdit.dealloc) ∷ edit) j h =
    ground (arith, contains-chunks_with-none ChunkEdit.alloc edit j)
contains-chunks_with-none ChunkEdit.dealloc ((i, ChunkEdit.alloc) ∷ edit) j h =
    ground (arith, contains-chunks_with-none ChunkEdit.dealloc edit j)
contains-chunks_with-none ChunkEdit.dealloc ((i, ChunkEdit.dealloc) ∷ edit) j h =
    ground (arith, contains-chunks_with-none ChunkEdit.dealloc edit j)

pub contains-chunks_with :
    (kind : ChunkEdit) (edit : ChunkAllocEdit) (j : ℕ)
    → UniqueKeys edit
    → contains j (chunks_with kind edit) ≡ is_kind kind (lookup j edit)
unfolding chunks_with
contains-chunks_with ChunkEdit.alloc [] j u = refl
contains-chunks_with ChunkEdit.dealloc [] j u = refl
contains-chunks_with ChunkEdit.alloc ((i, ChunkEdit.alloc) ∷ edit) j u =
    ground (arith, contains-chunks_with ChunkEdit.alloc edit j)
contains-chunks_with ChunkEdit.alloc ((i, ChunkEdit.dealloc) ∷ edit) j u = ground (
  arith,
  contains-chunks_with ChunkEdit.alloc edit j,
  contains-chunks_with-none ChunkEdit.alloc edit i,
)
contains-chunks_with ChunkEdit.dealloc ((i, ChunkEdit.alloc) ∷ edit) j u = ground (
  arith,
  contains-chunks_with ChunkEdit.dealloc edit j,
  contains-chunks_with-none ChunkEdit.dealloc edit i,
)
contains-chunks_with ChunkEdit.dealloc ((i, ChunkEdit.dealloc) ∷ edit) j u =
    ground (arith, contains-chunks_with ChunkEdit.dealloc edit j)

pub chunks_with-Distinct :
    (kind : ChunkEdit) (edit : ChunkAllocEdit) → UniqueKeys edit → Distinct (chunks_with kind edit)
unfolding chunks_with
chunks_with-Distinct ChunkEdit.alloc [] u = tt
chunks_with-Distinct ChunkEdit.dealloc [] u = tt
chunks_with-Distinct ChunkEdit.alloc ((i, ChunkEdit.alloc) ∷ edit) u = (
  contains-chunks_with-none ChunkEdit.alloc edit i u.0,
  chunks_with-Distinct ChunkEdit.alloc edit u.1,
)
chunks_with-Distinct ChunkEdit.alloc ((i, ChunkEdit.dealloc) ∷ edit) u =
    chunks_with-Distinct ChunkEdit.alloc edit u.1
chunks_with-Distinct ChunkEdit.dealloc ((i, ChunkEdit.alloc) ∷ edit) u =
    chunks_with-Distinct ChunkEdit.dealloc edit u.1
chunks_with-Distinct ChunkEdit.dealloc ((i, ChunkEdit.dealloc) ∷ edit) u = (
  contains-chunks_with-none ChunkEdit.dealloc edit i u.0,
  chunks_with-Distinct ChunkEdit.dealloc edit u.1,
)

-- A state of the same allocator after some chunks of a list became free.
pub record Freed (s : ChunkAllocState) (ids : List ℕ) (after : ChunkAllocState) : Type 0 where
  pub bits :
      (j : ℕ)
      → get_elem? (allocated after) j
        ≡ (if contains j ids then some false else get_elem? (allocated s) j)
  pub freed_capacity : capacity after ≡ capacity s
  pub freed_journal : after.in_journal ≡ s.in_journal
  pub freed_consistent : IsConsistent after

-- What freeing the chunks of a list may do: it panics only at a chunk that is not allocated.
abbrev pub FreesAll : ChunkAllocState → List ℕ → Outcome ChunkAllocState → Type 0
FreesAll s ids (ok after) =
    ((j : ℕ) → contains j ids ≡ true → get_elem? (allocated s) j ≡ some true) × Freed s ids after
FreesAll s ids (err e) = ⊥
FreesAll s ids panic =
    (id : ℕ) × (contains id ids ≡ true) × (get_elem? (allocated s) id ≢ some true)

module _ ⦃bt : Bittle⦄ where
  pub bits-Marks :
      (s : ChunkAllocState) (id : ℕ) (value : Bool) (after : ChunkAllocState)
      → IsConsistent s
      → id < capacity s
      → Marks s id value after
      → (j : ℕ)
      → get_elem? (allocated after) j ≡ (if id == j then some value else get_elem? (allocated s) j)
  bits-Marks s id value after c lt m j =
      ap (λ l. get_elem? l j) m.marked
      ∙ get_elem?-set (allocated s) id j value (omega (arith, length-view s.alloc_map c.map_valid))

  freed-then :
      (s s₁ : ChunkAllocState) (id : ℕ) (ids : List ℕ) (o : Outcome ChunkAllocState)
      → IsConsistent s
      → contains id ids ≡ false
      → get_elem? (allocated s) id ≡ some true
      → Marks s id false s₁
      → FreesAll s₁ ids o
      → FreesAll s (id ∷ ids) o
  freed-then s s₁ id ids (ok after) c new bit m h = (
    λ j e. held j e (bits j) (h.0 j),
    record {
      bits = λ j. both j (bits j) (h.1.bits j);
      freed_capacity = h.1.freed_capacity ∙ m.same_capacity;
      freed_journal = h.1.freed_journal ∙ m.same_journal;
      freed_consistent = h.1.freed_consistent;
    },
  )
    where
      bits :
          (j : ℕ)
          → get_elem? (allocated s₁) j ≡ (if id == j then some false else get_elem? (allocated s) j)
      bits = bits-Marks s id false s₁ c (bit_lt s id c bit) m

      held :
          (j : ℕ)
          → contains j (id ∷ ids) ≡ true
          → get_elem? (allocated s₁) j ≡ (if id == j then some false else get_elem? (allocated s) j)
          → (contains j ids ≡ true → get_elem? (allocated s₁) j ≡ some true)
          → get_elem? (allocated s) j ≡ some true
      held j e b k = elim (ℕ_discrete id j) [
        | yes p ↦ ap (get_elem? (allocated s)) (sym p) ∙ bit
        | no p ↦ ground (arith, k)
      ]

      both :
          (j : ℕ)
          → get_elem? (allocated s₁) j ≡ (if id == j then some false else get_elem? (allocated s) j)
          → get_elem? (allocated after) j
            ≡ (if contains j ids then some false else get_elem? (allocated s₁) j)
          → get_elem? (allocated after) j
            ≡ (if contains j (id ∷ ids) then some false else get_elem? (allocated s) j)
      both j p q = elim (Bool-cases (id == j)) [
        | inl e ↦ elim (Bool-cases (contains j ids)) [ inl f ↦ ground arith | inr f ↦ ground arith ]
        | inr e ↦ elim (Bool-cases (contains j ids)) [ inl f ↦ ground arith | inr f ↦ ground arith ]
      ]
  freed-then s s₁ id ids (err e) c new bit m h = h
  freed-then s s₁ id ids panic c new bit m h = (h.0, in_tail, still)
    where
      in_tail : contains h.0 (id ∷ ids) ≡ true
      in_tail = rw h.1 (ground arith)

      apart : id ≢ h.0
      apart e = cc (ap (λ k. contains k ids) e)

      still : get_elem? (allocated s) h.0 ≢ some true
      still e = h.2 (bits-Marks s id false s₁ c (bit_lt s id c bit) m h.0 ∙ ground arith)

  -- Deallocating distinct chunks of a consistent state frees exactly them, and panics only if one
  -- of them is not allocated.
  pub dealloc_chunks_lem :
      (s : ChunkAllocState) (ids : List ℕ)
      → IsConsistent s
      → Distinct ids
      → FreesAll s ids (dealloc_chunks s ids)
  unfolding dealloc_chunks
  dealloc_chunks_lem s [] c d = (
    λ j e. cc,
    record { bits = λ j. refl; freed_capacity = refl; freed_journal = refl; freed_consistent = c },
  )
  dealloc_chunks_lem s (id ∷ ids) c d =
      go (dealloc_chunk s id) (dealloc_chunk_lem s id c) (λ s₁ c₁. dealloc_chunks_lem s₁ ids c₁ d.1)
    where
      go :
          (o : Outcome ChunkAllocState)
          → Deallocates s id o
          → ((s₁ : ChunkAllocState) → IsConsistent s₁ → FreesAll s₁ ids (dealloc_chunks s₁ ids))
          → FreesAll s (id ∷ ids) (o >>= λ s'. dealloc_chunks s' ids)
      go (ok s₁) h rest =
          freed-then s s₁ id ids (dealloc_chunks s₁ ids) c d.0 h.0 h.2 (rest s₁ h.2.consistent)
      go (err e) h rest = h
      go panic h rest = (id, ground arith, h)
