-- ===== src/Chunk/Alloc/Calls.antt =====
-- Every call of the allocator inside a transaction keeps the invariant.
use mlsdisk.Base.{
  Bool, List, Option, Outcome, [], err, insert, lookup, none, ok, panic, refl, remove, some, sort,
  subst, suc, sym, zero, ℕ, ◌++◌, ◌>>=◌, ◌∷◌, ◌≡◌,
}
use mlsdisk.Bittle.{Bittle, count}
use mlsdisk.Chunk.{
  ChunkAllocEdit, ChunkAllocState, ChunkEdit, alloc_chunk, dealloc_chunk, dealloc_chunks,
  record_alloc, record_dealloc,
}
use mlsdisk.Chunk.State.{Allocates, Deallocates, alloc_chunk_lem, dealloc_chunk_lem}
use mlsdisk.Chunk.Alloc.{
  Call, ChunkAlloc, alloc, alloc_batch, call_alloc, call_alloc_batch, call_dealloc,
  call_dealloc_batch, dealloc, dealloc_batch, record_allocs, run, step, take_chunks,
}
use mlsdisk.Chunk.Alloc.Invariant.{
  Holding, Holding-insert, Holding-record, Holding-remove, Holding-sort, Holding-take, Pending,
  Records,
}

module _ ⦃bt : Bittle⦄ (v₀ : List Bool) where
  -- What a call may do.
  abbrev pub Keeps : Outcome ChunkAlloc → Type 0
  Keeps (ok t) = Pending v₀ t
  Keeps (err e) = ⊥
  Keeps panic = Unit

  -- The same of a call with a result.
  abbrev pub KeepsBoth : {R : Type 0} → Outcome (R × ChunkAlloc) → Type 0
  KeepsBoth (ok r) = Pending v₀ r.1
  KeepsBoth (err e) = ⊥
  KeepsBoth panic = Unit

  Keeps-second :
      {R : Type 0} (o : Outcome (R × ChunkAlloc)) → KeepsBoth o → Keeps (o >>= λ r. ok r.1)
  Keeps-second (ok r) h = h
  Keeps-second (err e) h = h
  Keeps-second panic h = h

  recorded :
      {R : Type 0} (r : R) (s : ChunkAllocState) (o : Outcome ChunkAllocEdit)
      → Records v₀ [] s o
      → KeepsBoth {R = R} (o >>= λ edit. ok (r, record { state = s; edit = edit }))
  recorded r s (ok edit) h = h
  recorded r s (err e) h = h
  recorded r s panic h = tt

  alloc-Keeps : (t : ChunkAlloc) → Pending v₀ t → KeepsBoth (alloc t)
  unfolding alloc
  alloc-Keeps t h = go (alloc_chunk t.state) (alloc_chunk_lem t.state h.consistent)
    where
      go :
          (o : Outcome (Option ℕ × ChunkAllocState))
          → Allocates t.state o
          → KeepsBoth {R = Option ℕ} (
              o >>= λ r. elim r.0 [
                | none ↦ ok (none, record t { state = r.1 })
                | some chunk_id ↦ record_alloc t.edit chunk_id >>= λ edit.
                    ok (some chunk_id, record { state = r.1; edit = edit })
              ])
      go (ok (some id, s)) a =
          recorded (some id) s (record_alloc t.edit id)
            (Holding-record v₀ t.edit id [] s (Holding-take v₀ t.edit [] t.state s id h a.0 a.3))
      go (ok (none, s)) a = absurd a
      go (err e) a = a
      go panic a = tt

  -- What the first loop of `alloc_batch` may do.
  abbrev Takes : ChunkAllocEdit → Outcome (Option (List ℕ) × ChunkAllocState) → Type 0
  Takes edit (ok (some ids, s)) = Holding v₀ edit ids s
  Takes edit (ok (none, s)) = ⊥
  Takes edit (err e) = ⊥
  Takes edit panic = Unit

  take_chunks-Takes :
      (count : ℕ) (edit : ChunkAllocEdit) (ids : List ℕ) (s : ChunkAllocState)
      → Holding v₀ edit ids s
      → Takes edit (take_chunks count ids s)
  unfolding take_chunks
  take_chunks-Takes zero edit ids s h = h
  take_chunks-Takes (suc count) edit ids s h =
      go (alloc_chunk s) (alloc_chunk_lem s h.consistent)
        (λ ids₁ s₁ h₁. take_chunks-Takes count edit ids₁ s₁ h₁)
    where
      go :
          (o : Outcome (Option ℕ × ChunkAllocState))
          → Allocates s o
          → ((ids₁ : List ℕ) (s₁ : ChunkAllocState)
              → Holding v₀ edit ids₁ s₁
              → Takes edit (take_chunks count ids₁ s₁))
          → Takes edit (
              o >>= λ r. elim r.0 [
                | some id ↦ take_chunks count (ids ++ (id ∷ [])) r.1
                | none ↦ dealloc_chunks r.1 ids >>= λ s'. ok (none, s')
              ])
      go (ok (some id, s₁)) a rest =
          rest (ids ++ (id ∷ [])) s₁ (Holding-take v₀ edit ids s s₁ id h a.0 a.3)
      go (ok (none, s₁)) a rest = absurd a
      go (err e) a rest = a
      go panic a rest = tt

  record_allocs-Records :
      (edit : ChunkAllocEdit) (ids : List ℕ) (s : ChunkAllocState)
      → Holding v₀ edit ids s
      → Records v₀ [] s (record_allocs edit ids)
  unfolding record_allocs
  record_allocs-Records edit [] s h = h
  record_allocs-Records edit (id ∷ ids) s h =
      go (record_alloc edit id) (Holding-record v₀ edit id ids s h)
        (λ edit₁ h₁. record_allocs-Records edit₁ ids s h₁)
    where
      go :
          (o : Outcome ChunkAllocEdit)
          → Records v₀ ids s o
          → ((edit₁ : ChunkAllocEdit)
              → Holding v₀ edit₁ ids s
              → Records v₀ [] s (record_allocs edit₁ ids))
          → Records v₀ [] s (o >>= λ edit'. record_allocs edit' ids)
      go (ok edit₁) a rest = rest edit₁ a
      go (err e) a rest = a
      go panic a rest = tt

  alloc_batch-Keeps : (t : ChunkAlloc) (num : ℕ) → Pending v₀ t → KeepsBoth (alloc_batch t num)
  unfolding alloc_batch
  alloc_batch-Keeps t num h =
      go (take_chunks num [] t.state) (take_chunks-Takes num t.edit [] t.state h)
    where
      go :
          (o : Outcome (Option (List ℕ) × ChunkAllocState))
          → Takes t.edit o
          → KeepsBoth {R = Option (List ℕ)} (
              o >>= λ r. elim r.0 [
                | none ↦ ok (none, record t { state = r.1 })
                | some ids ↦ record_allocs t.edit (sort ids) >>= λ edit.
                    ok (some (sort ids), record { state = r.1; edit = edit })
              ])
      go (ok (some ids, s)) a =
          recorded (some (sort ids)) s (record_allocs t.edit (sort ids))
            (record_allocs-Records t.edit (sort ids) s (Holding-sort v₀ t.edit ids s a))
      go (ok (none, s)) a = absurd a
      go (err e) a = a
      go panic a = tt

  freed-Keeps :
      (t : ChunkAlloc) (id : ℕ) (o : Outcome ChunkAllocState)
      → Pending v₀ t
      → lookup id t.edit ≡ some ChunkEdit.alloc
      → Deallocates t.state id o
      → Keeps (o >>= λ s. ok (record { state = s; edit = remove id t.edit }))
  freed-Keeps t id (ok s) h p d = Holding-remove v₀ t.edit id t.state s h p d.2
  freed-Keeps t id (err e) h p d = d
  freed-Keeps t id panic h p d = tt

  dealloc-none :
      (t : ChunkAlloc) (id : ℕ)
      → lookup id t.edit ≡ none
      → dealloc t id ≡ ok (record t { edit = insert id ChunkEdit.dealloc t.edit })
  unfolding dealloc record_dealloc
  dealloc-none t id p = rw (p, dealloc, record_dealloc)

  dealloc_own :
      (t : ChunkAlloc) (id : ℕ)
      → lookup id t.edit ≡ some ChunkEdit.alloc
      → dealloc t id
        ≡ (dealloc_chunk t.state id >>= λ s. ok (record { state = s; edit = remove id t.edit }))
  unfolding dealloc record_dealloc
  dealloc_own t id p = rw (p, dealloc, record_dealloc)

  dealloc_twice :
      (t : ChunkAlloc) (id : ℕ) → lookup id t.edit ≡ some ChunkEdit.dealloc → dealloc t id ≡ panic
  unfolding dealloc record_dealloc
  dealloc_twice t id p = rw (p, dealloc, record_dealloc)

  dealloc-Keeps : (t : ChunkAlloc) (id : ℕ) → Pending v₀ t → Keeps (dealloc t id)
  dealloc-Keeps t id h = go (lookup id t.edit) refl
    where
      go : (o : Option ChunkEdit) → lookup id t.edit ≡ o → Keeps (dealloc t id)
      go none p = subst Keeps (sym (dealloc-none t id p)) (Holding-insert v₀ t.edit id t.state h p)
      go (some ChunkEdit.alloc) p = subst Keeps (sym (dealloc_own t id p)) (
          freed-Keeps t id (dealloc_chunk t.state id) h p
            (dealloc_chunk_lem t.state id h.consistent))
      go (some ChunkEdit.dealloc) p = subst Keeps (sym (dealloc_twice t id p)) tt

  then-Keeps :
      (o : Outcome ChunkAlloc) (f : ChunkAlloc → Outcome ChunkAlloc)
      → Keeps o
      → ((t : ChunkAlloc) → Pending v₀ t → Keeps (f t))
      → Keeps (o >>= f)
  then-Keeps (ok t) f h k = k t h
  then-Keeps (err e) f h k = h
  then-Keeps panic f h k = h

  dealloc_batch-Keeps : (t : ChunkAlloc) (ids : List ℕ) → Pending v₀ t → Keeps (dealloc_batch t ids)
  unfolding dealloc_batch
  dealloc_batch-Keeps t [] h = h
  dealloc_batch-Keeps t (id ∷ ids) h =
      then-Keeps (dealloc t id) (λ t'. dealloc_batch t' ids) (dealloc-Keeps t id h)
        (λ t' h'. dealloc_batch-Keeps t' ids h')

  step-Keeps : (call : Call) (t : ChunkAlloc) → Pending v₀ t → Keeps (step call t)
  unfolding step
  step-Keeps call_alloc t h = Keeps-second (alloc t) (alloc-Keeps t h)
  step-Keeps (call_alloc_batch num) t h =
      Keeps-second (alloc_batch t num) (alloc_batch-Keeps t num h)
  step-Keeps (call_dealloc id) t h = dealloc-Keeps t id h
  step-Keeps (call_dealloc_batch ids) t h = dealloc_batch-Keeps t ids h

  -- Any sequence of calls inside a transaction returns no error, and where it does not panic the
  -- recorded edit accounts for every chunk that was allocated or freed.
  pub run-Keeps : (calls : List Call) (t : ChunkAlloc) → Pending v₀ t → Keeps (run calls t)
  unfolding run
  run-Keeps [] t h = h
  run-Keeps (call ∷ calls) t h =
      then-Keeps (step call t) (run calls) (step-Keeps call t h) (λ t' h'. run-Keeps calls t' h')
