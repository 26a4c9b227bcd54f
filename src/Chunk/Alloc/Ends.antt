-- ===== src/Chunk/Alloc/Ends.antt =====
-- The end of a transaction of the chunk allocator: the abort handler and the commit handler.
use mlsdisk.Base.{
  Bool, List, Option, Outcome, [], ap, err, false, get_elem?, if◌then◌else◌, list_ext, lookup, none,
  ok, panic, refl, some, subst, sym, true, ℕ, ◌∙◌, ◌∷◌, ◌≡◌, ◌≢◌,
}
use mlsdisk.Bittle.{Bittle, count}
use mlsdisk.Chunk.{
  ChunkAllocEdit, ChunkAllocState, ChunkEdit, apply_to, chunks_with, dealloc_chunks, is_empty_edit,
  replay_allocs,
}
use mlsdisk.Chunk.State.{IsConsistent, allocated}
use mlsdisk.Chunk.Edit.{
  FreesAll, chunks_with-Distinct, contains-chunks_with, dealloc_chunks_lem, is_kind,
}
use mlsdisk.Chunk.Alloc.{Call, ChunkAlloc, abort, commit, from_parts, run}
use mlsdisk.Chunk.Alloc.Invariant.{Agrees, Pending, Agrees-by, from_parts-Pending}
use mlsdisk.Chunk.Alloc.Calls.{Keeps, run-Keeps}

-- The bit of a chunk after the commit of an edit.
abbrev pub committed : Option ChunkEdit → Option Bool → Option Bool
committed none before = before
committed (some ChunkEdit.alloc) before = some true
committed (some ChunkEdit.dealloc) before = some false

-- What a commit may do: it makes exactly the recorded changes, and panics only if a chunk that was
-- free before the transaction is recorded as deallocated.
abbrev pub Commits : List Bool → ChunkAllocEdit → Outcome ChunkAllocState → Type 0
Commits v₀ edit (ok s) =
    ((j : ℕ) → get_elem? (allocated s) j ≡ committed (lookup j edit) (get_elem? v₀ j))
    × ((j : ℕ) → lookup j edit ≡ some ChunkEdit.dealloc → get_elem? v₀ j ≡ some true)
    × IsConsistent s
Commits v₀ edit (err e) = ⊥
Commits v₀ edit panic =
    (id : ℕ) × (lookup id edit ≡ some ChunkEdit.dealloc) × (get_elem? v₀ id ≢ some true)

-- What an abort must do.
abbrev pub Restores : List Bool → Outcome ChunkAllocState → Type 0
Restores v₀ (ok s) = (allocated s ≡ v₀) × (s.free_count ≡ count false v₀) × IsConsistent s
Restores v₀ (err e) = ⊥
Restores v₀ panic = ⊥

module _ (v₀ : List Bool) (t : ChunkAlloc) (h : Pending v₀ t) where
  Agrees-with :
      (j : ℕ) (o : Option ChunkEdit)
      → lookup j t.edit ≡ o
      → Agrees o (get_elem? v₀ j) (get_elem? (allocated t.state) j)
  Agrees-with j o p =
      Agrees-by (lookup j t.edit) o (get_elem? v₀ j) (get_elem? (allocated t.state) j)
        (get_elem? (allocated t.state) j) p refl (h.agrees j)

  -- Freeing the chunks recorded as allocated gives the bits from before.
  undone :
      (j : ℕ) (o : Option ChunkEdit)
      → lookup j t.edit ≡ o
      → (if is_kind ChunkEdit.alloc o then some false else get_elem? (allocated t.state) j)
        ≡ get_elem? v₀ j
  undone j none p = sym (Agrees-with j none p)
  undone j (some ChunkEdit.alloc) p = sym ((Agrees-with j (some ChunkEdit.alloc) p).0)
  undone j (some ChunkEdit.dealloc) p = sym (Agrees-with j (some ChunkEdit.dealloc) p)

  own_allocated :
      (j : ℕ) (o : Option ChunkEdit)
      → lookup j t.edit ≡ o
      → is_kind ChunkEdit.alloc o ≡ true
      → get_elem? (allocated t.state) j ≡ some true
  own_allocated j none p e = cc
  own_allocated j (some ChunkEdit.alloc) p e = (Agrees-with j (some ChunkEdit.alloc) p).1
  own_allocated j (some ChunkEdit.dealloc) p e = cc

  restored :
      (o : Outcome ChunkAllocState)
      → FreesAll t.state (chunks_with ChunkEdit.alloc t.edit) o
      → Restores v₀ o
  restored (ok s) f =
      (same, f.1.freed_consistent.counted ∙ ap (count false) same, f.1.freed_consistent)
    where
      same : allocated s ≡ v₀
      same = list_ext (allocated s) v₀ (λ j.
          f.1.bits j
          ∙ ap (λ b. if b then some false else get_elem? (allocated t.state) j)
              (contains-chunks_with ChunkEdit.alloc t.edit j h.unique)
          ∙ undone j (lookup j t.edit) refl)
  restored (err e) f = f
  restored panic f = f.2 (
      own_allocated f.0 (lookup f.0 t.edit) refl
        (sym (contains-chunks_with ChunkEdit.alloc t.edit f.0 h.unique) ∙ f.1))

module _ ⦃bt : Bittle⦄ where
  abort-Restores : (v₀ : List Bool) (t : ChunkAlloc) → Pending v₀ t → Restores v₀ (abort t)
  unfolding abort
  abort-Restores v₀ t h =
      restored v₀ t h (dealloc_chunks t.state (chunks_with ChunkEdit.alloc t.edit)) (
        dealloc_chunks_lem t.state (chunks_with ChunkEdit.alloc t.edit) h.consistent
          (chunks_with-Distinct ChunkEdit.alloc t.edit h.unique))

  -- After any sequence of calls in a transaction begun on a consistent allocator, if none of them
  -- panicked, the abort handler returns: the allocated chunks and the free count are again those
  -- of the beginning, and the state is consistent.
  pub abort-run :
      (s : ChunkAllocState) (calls : List Call) (t : ChunkAlloc)
      → IsConsistent s
      → run calls (from_parts s) ≡ ok t
      → Restores (allocated s) (abort t)
  abort-run s calls t c e = abort-Restores (allocated s) t (
      subst (Keeps (allocated s)) e
        (run-Keeps (allocated s) calls (from_parts s) (from_parts-Pending s c)))

  -- Outside the journal a recorded allocation has already been made.
  replay_allocs_volatile :
      (edit : ChunkAllocEdit) (s : ChunkAllocState)
      → s.in_journal ≡ false
      → replay_allocs edit s ≡ ok s
  unfolding replay_allocs
  replay_allocs_volatile [] s e = refl
  replay_allocs_volatile ((id, ChunkEdit.alloc) ∷ edit) s e =
      simp e (replay_allocs_volatile edit s e)
  replay_allocs_volatile ((id, ChunkEdit.dealloc) ∷ edit) s e = replay_allocs_volatile edit s e

module _ (v₀ : List Bool) (t : ChunkAlloc) (h : Pending v₀ t) where
  done :
      (j : ℕ) (o : Option ChunkEdit)
      → lookup j t.edit ≡ o
      → (if is_kind ChunkEdit.dealloc o then some false else get_elem? (allocated t.state) j)
        ≡ committed o (get_elem? v₀ j)
  done j none p = sym (Agrees-with v₀ t h j none p)
  done j (some ChunkEdit.alloc) p = (Agrees-with v₀ t h j (some ChunkEdit.alloc) p).1
  done j (some ChunkEdit.dealloc) p = refl

  is_dealloc :
      (j : ℕ) (o : Option ChunkEdit)
      → is_kind ChunkEdit.dealloc o ≡ true
      → o ≡ some ChunkEdit.dealloc
  is_dealloc j none e = cc
  is_dealloc j (some ChunkEdit.alloc) e = cc
  is_dealloc j (some ChunkEdit.dealloc) e = refl

  committed_all :
      (o : Outcome ChunkAllocState)
      → FreesAll t.state (chunks_with ChunkEdit.dealloc t.edit) o
      → Commits v₀ t.edit o
  committed_all (ok s) f = (
    λ j.
        f.1.bits j
        ∙ ap (λ b. if b then some false else get_elem? (allocated t.state) j)
            (contains-chunks_with ChunkEdit.dealloc t.edit j h.unique)
        ∙ done j (lookup j t.edit) refl,
    λ j p.
        Agrees-with v₀ t h j (some ChunkEdit.dealloc) p
        ∙ f.0 j (
            contains-chunks_with ChunkEdit.dealloc t.edit j h.unique
            ∙ ap (is_kind ChunkEdit.dealloc) p),
    f.1.freed_consistent,
  )
  committed_all (err e) f = f
  committed_all panic f =
      let p =
        is_dealloc f.0 (lookup f.0 t.edit)
          (sym (contains-chunks_with ChunkEdit.dealloc t.edit f.0 h.unique) ∙ f.1) in
      (f.0, p, λ e. f.2 (sym (Agrees-with v₀ t h f.0 (some ChunkEdit.dealloc) p) ∙ e))

module _ ⦃bt : Bittle⦄ where
  apply_to-Commits :
      (v₀ : List Bool) (t : ChunkAlloc) → Pending v₀ t → Commits v₀ t.edit (apply_to t.edit t.state)
  unfolding apply_to
  apply_to-Commits v₀ t h = rw (replay_allocs_volatile t.edit t.state h.volatile) (
      committed_all v₀ t h (dealloc_chunks t.state (chunks_with ChunkEdit.dealloc t.edit)) (
        dealloc_chunks_lem t.state (chunks_with ChunkEdit.dealloc t.edit) h.consistent
          (chunks_with-Distinct ChunkEdit.dealloc t.edit h.unique)))

  commit-Commits :
      (v₀ : List Bool) (s : ChunkAllocState) (edit : ChunkAllocEdit)
      → Pending v₀ (record { state = s; edit = edit })
      → Commits v₀ edit (commit (record { state = s; edit = edit }))
  unfolding commit is_empty_edit
  commit-Commits v₀ s [] h = (λ j. sym (h.agrees j), λ j e. cc, h.consistent)
  commit-Commits v₀ s (entry ∷ edit) h =
      apply_to-Commits v₀ (record { state = s; edit = entry ∷ edit }) h

  -- After any sequence of calls in a transaction begun on a consistent allocator, if none of them
  -- panicked, the commit handler makes exactly the recorded changes to the chunks allocated at the
  -- beginning and leaves a consistent state; it panics exactly if a chunk that was free at the
  -- beginning is recorded as deallocated.
  pub commit-run :
      (s : ChunkAllocState) (calls : List Call) (t : ChunkAlloc)
      → IsConsistent s
      → run calls (from_parts s) ≡ ok t
      → Commits (allocated s) t.edit (commit t)
  commit-run s calls t c e = commit-Commits (allocated s) t.state t.edit (
      subst (Keeps (allocated s)) e
        (run-Keeps (allocated s) calls (from_parts s) (from_parts-Pending s c)))
