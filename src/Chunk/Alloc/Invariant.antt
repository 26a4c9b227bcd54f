-- ===== src/Chunk/Alloc/Invariant.antt =====
-- What holds throughout a transaction of the chunk allocator: the recorded edit accounts for every
-- difference between the chunks allocated at its beginning and now.
use mlsdisk.Base.{
  Bool, Bool-cases, Distinct, List, Option, Option-cases, Outcome, UniqueKeys, [], ap, arith,
  contains, contains-sort, err, false, get_elem?, if◌then◌else◌, inl, inr, insert,
  insert-UniqueKeys, lookup, lookup-insert, lookup-remove, none, ok, panic, refl, remove,
  remove-UniqueKeys, some, sort, sort-Distinct, subst, sym, true, ℕ, ℕ_discrete, ◌++◌, ◌==◌, ◌∙◌,
  ◌∷◌, ◌≡◌,
}
use mlsdisk.Bittle.{Bittle}
use mlsdisk.Chunk.{ChunkAllocEdit, ChunkAllocState, ChunkEdit, record_alloc}
use mlsdisk.Chunk.State.{IsConsistent, Marks, allocated, bit_lt}
use mlsdisk.Chunk.Edit.{bits-Marks}
use mlsdisk.Chunk.Alloc.{ChunkAlloc, from_parts}

-- What a recorded edit says of a chunk's bit before the transaction and now.
abbrev pub Agrees : Option ChunkEdit → Option Bool → Option Bool → Type 0
Agrees none before now = before ≡ now
Agrees (some ChunkEdit.alloc) before now = (before ≡ some false) × (now ≡ some true)
Agrees (some ChunkEdit.dealloc) before now = before ≡ now

-- The state `s` of a transaction that began with the allocated chunks `v₀`, has recorded `edit`,
-- and has taken the chunks of `taken` without recording them yet.
pub record Holding (v₀ : List Bool) (edit : ChunkAllocEdit) (taken : List ℕ) (s : ChunkAllocState)
    : Type 0 where
  pub consistent : IsConsistent s
  pub volatile : s.in_journal ≡ false
  pub unique : UniqueKeys edit
  pub distinct : Distinct taken
  pub held : (j : ℕ) → contains j taken ≡ true → get_elem? (allocated s) j ≡ some true
  pub agrees :
      (j : ℕ)
      → Agrees
          (lookup j edit)
          (get_elem? v₀ j)
          (if contains j taken then some false else get_elem? (allocated s) j)

abbrev pub Pending : List Bool → ChunkAlloc → Type 0
Pending v₀ t = Holding v₀ t.edit [] t.state

contains-append_one :
    (j i : ℕ) (is : List ℕ) → contains j (is ++ (i ∷ [])) ≡ (if contains j is then true else i == j)
contains-append_one j i [] = ground arith
contains-append_one j i (k ∷ is) = ground (arith, contains-append_one j i is)

append_one-Distinct :
    (i : ℕ) (is : List ℕ) → contains i is ≡ false → Distinct is → Distinct (is ++ (i ∷ []))
append_one-Distinct i [] h d = (refl, tt)
append_one-Distinct i (k ∷ is) h d =
    ground (arith, append_one-Distinct i is, contains-append_one k i is)

-- `from_parts` starts a transaction.
pub from_parts-Pending :
    ⦃bt : Bittle⦄ (s : ChunkAllocState) → IsConsistent s → Pending (allocated s) (from_parts s)
unfolding from_parts
from_parts-Pending s c = record {
  consistent = record { map_valid = c.map_valid; counted = c.counted; next_in = c.next_in };
  volatile = refl;
  unique = tt;
  distinct = tt;
  held = λ j e. cc;
  agrees = λ j. refl;
}

pub Agrees-by :
    (o o' : Option ChunkEdit) (a b b' : Option Bool)
    → o ≡ o'
    → b ≡ b'
    → Agrees o a b
    → Agrees o' a b'
Agrees-by o o' a b b' p q h = subst (λ x. Agrees x a b') p (subst (Agrees o a) q h)

record_alloc-none :
    (edit : ChunkAllocEdit) (id : ℕ)
    → lookup id edit ≡ none
    → record_alloc edit id ≡ ok (insert id ChunkEdit.alloc edit)
unfolding record_alloc
record_alloc-none edit id p = rw (p, record_alloc)

record_alloc-some :
    (edit : ChunkAllocEdit) (id : ℕ) {e : ChunkEdit}
    → lookup id edit ≡ some e
    → record_alloc edit id ≡ panic
unfolding record_alloc
record_alloc-some edit id p = rw (p, record_alloc)

module _ ⦃bt : Bittle⦄ (v₀ : List Bool) where
  pub Holding-take :
      (edit : ChunkAllocEdit) (taken : List ℕ) (s s₁ : ChunkAllocState) (id : ℕ)
      → Holding v₀ edit taken s
      → get_elem? (allocated s) id ≡ some false
      → Marks s id true s₁
      → Holding v₀ edit (taken ++ (id ∷ [])) s₁
  Holding-take edit taken s s₁ id h free m = record {
    consistent = m.consistent;
    volatile = m.same_journal ∙ h.volatile;
    unique = h.unique;
    distinct = append_one-Distinct id taken new h.distinct;
    held = λ j e. ground (arith, bits j, h.held j, contains-append_one j id taken);
    agrees = λ j. subst (Agrees (lookup j edit) (get_elem? v₀ j)) (now_eq j) (h.agrees j);
  }
    where
      new : contains id taken ≡ false
      new = elim (Bool-cases (contains id taken)) [ inl e ↦ cc (h.held id e) | inr e ↦ e ]

      bits :
          (j : ℕ)
          → get_elem? (allocated s₁) j ≡ (if id == j then some true else get_elem? (allocated s) j)
      bits = bits-Marks s id true s₁ h.consistent (bit_lt s id h.consistent free) m

      now : (j : ℕ) → Option Bool
      now j = if contains j (taken ++ (id ∷ [])) then some false else get_elem? (allocated s₁) j

      now_eq :
          (j : ℕ) → (if contains j taken then some false else get_elem? (allocated s) j) ≡ now j
      now_eq j = elim (ℕ_discrete id j) [
        | yes p ↦ ground (
          arith,
          bits j,
          contains-append_one j id taken,
          ap (get_elem? (allocated s)) p,
          ap (λ k. contains k taken) p,
        )
        | no p ↦ ground (arith, bits j, contains-append_one j id taken)
      ]

  -- What recording one allocation, or one deallocation, may do.
  abbrev pub Records : List ℕ → ChunkAllocState → Outcome ChunkAllocEdit → Type 0
  Records ids s (ok edit) = Holding v₀ edit ids s
  Records ids s (err e) = ⊥
  Records ids s panic = Unit

  pub Holding-record :
      (edit : ChunkAllocEdit) (id : ℕ) (ids : List ℕ) (s : ChunkAllocState)
      → Holding v₀ edit (id ∷ ids) s
      → Records ids s (record_alloc edit id)
  Holding-record edit id ids s h = elim (Option-cases (lookup id edit)) [
    | inr (e, p) ↦ subst (Records ids s) (sym (record_alloc-some edit id p)) tt
    | inl p ↦ subst (Records ids s) (sym (record_alloc-none edit id p)) (recorded p)
  ]
    where
      now : ℕ → Option Bool
      now j = if contains j ids then some false else get_elem? (allocated s) j

      before : lookup id edit ≡ none → get_elem? v₀ id ≡ some false
      before p =
          Agrees-by (lookup id edit) none (get_elem? v₀ id)
            (if contains id (id ∷ ids) then some false else get_elem? (allocated s) id) (some false)
            p (ground arith) (h.agrees id)

      here_now : now id ≡ some true
      here_now = rw h.distinct.0 (h.held id (ground arith))

      at_chunk :
          (j : ℕ)
          → lookup id edit ≡ none
          → Agrees (lookup j (insert id ChunkEdit.alloc edit)) (get_elem? v₀ j) (now j)
      at_chunk j p = elim (ℕ_discrete id j) [
        | yes e ↦
            Agrees-by (some ChunkEdit.alloc) (lookup j (insert id ChunkEdit.alloc edit))
              (get_elem? v₀ j) (now j) (now j)
              (ground (arith, lookup-insert id j ChunkEdit.alloc edit)) refl
              (ap (get_elem? v₀) (sym e) ∙ before p, ap now (sym e) ∙ here_now)
        | no ne ↦
            Agrees-by (lookup j edit) (lookup j (insert id ChunkEdit.alloc edit)) (get_elem? v₀ j)
              (if contains j (id ∷ ids) then some false else get_elem? (allocated s) j) (now j)
              (ground (arith, lookup-insert id j ChunkEdit.alloc edit)) (ground arith) (h.agrees j)
      ]

      recorded : lookup id edit ≡ none → Holding v₀ (insert id ChunkEdit.alloc edit) ids s
      recorded p = record {
        consistent = h.consistent;
        volatile = h.volatile;
        unique = insert-UniqueKeys id ChunkEdit.alloc edit h.unique;
        distinct = h.distinct.1;
        held = λ j e. h.held j (ground arith);
        agrees = λ j. at_chunk j p;
      }

  -- The order in which taken chunks are listed does not matter.
  pub Holding-sort :
      (edit : ChunkAllocEdit) (ids : List ℕ) (s : ChunkAllocState)
      → Holding v₀ edit ids s
      → Holding v₀ edit (sort ids) s
  Holding-sort edit ids s h = record {
    consistent = h.consistent;
    volatile = h.volatile;
    unique = h.unique;
    distinct = sort-Distinct ids h.distinct;
    held = λ j e. h.held j (sym (contains-sort j ids) ∙ e);
    agrees = λ j.
        subst
          (λ b.
            Agrees (lookup j edit) (get_elem? v₀ j)
              (if b then some false else get_elem? (allocated s) j))
          (sym (contains-sort j ids)) (h.agrees j);
  }

  -- A state in which the chunk of a recorded allocation is freed again.
  pub Holding-remove :
      (edit : ChunkAllocEdit) (id : ℕ) (s s₁ : ChunkAllocState)
      → Holding v₀ edit [] s
      → lookup id edit ≡ some ChunkEdit.alloc
      → Marks s id false s₁
      → Holding v₀ (remove id edit) [] s₁
  Holding-remove edit id s s₁ h p m = record {
    consistent = m.consistent;
    volatile = m.same_journal ∙ h.volatile;
    unique = remove-UniqueKeys id edit h.unique;
    distinct = tt;
    held = λ j e. cc;
    agrees = λ j. elim (ℕ_discrete id j) [
      | yes e ↦
          Agrees-by none (lookup j (remove id edit)) (get_elem? v₀ j) (some false)
            (get_elem? (allocated s₁) j) (ground (arith, lookup-remove id j edit))
            (ground (arith, bits j)) (ap (get_elem? v₀) (sym e) ∙ was.0)
      | no ne ↦
          Agrees-by (lookup j edit) (lookup j (remove id edit)) (get_elem? v₀ j)
            (get_elem? (allocated s) j) (get_elem? (allocated s₁) j)
            (ground (arith, lookup-remove id j edit)) (ground (arith, bits j)) (h.agrees j)
    ];
  }
    where
      was : (get_elem? v₀ id ≡ some false) × (get_elem? (allocated s) id ≡ some true)
      was =
          Agrees-by (lookup id edit) (some ChunkEdit.alloc) (get_elem? v₀ id)
            (get_elem? (allocated s) id) (get_elem? (allocated s) id) p refl (h.agrees id)

      bits :
          (j : ℕ)
          → get_elem? (allocated s₁) j ≡ (if id == j then some false else get_elem? (allocated s) j)
      bits = bits-Marks s id false s₁ h.consistent (bit_lt s id h.consistent was.1) m

  -- Recording a deallocation of a chunk that has no edit changes no bit.
  pub Holding-insert :
      (edit : ChunkAllocEdit) (id : ℕ) (s : ChunkAllocState)
      → Holding v₀ edit [] s
      → lookup id edit ≡ none
      → Holding v₀ (insert id ChunkEdit.dealloc edit) [] s
  Holding-insert edit id s h p = record {
    consistent = h.consistent;
    volatile = h.volatile;
    unique = insert-UniqueKeys id ChunkEdit.dealloc edit h.unique;
    distinct = tt;
    held = h.held;
    agrees = λ j. elim (ℕ_discrete id j) [
      | yes e ↦
          Agrees-by (some ChunkEdit.dealloc) (lookup j (insert id ChunkEdit.dealloc edit))
            (get_elem? v₀ j) (get_elem? (allocated s) j) (get_elem? (allocated s) j)
            (ground (arith, lookup-insert id j ChunkEdit.dealloc edit)) refl (same j e)
      | no ne ↦
          Agrees-by (lookup j edit) (lookup j (insert id ChunkEdit.dealloc edit)) (get_elem? v₀ j)
            (get_elem? (allocated s) j) (get_elem? (allocated s) j)
            (ground (arith, lookup-insert id j ChunkEdit.dealloc edit)) refl (h.agrees j)
    ];
  }
    where
      same : (j : ℕ) → id ≡ j → get_elem? v₀ j ≡ get_elem? (allocated s) j
      same j e =
          Agrees-by (lookup j edit) none (get_elem? v₀ j) (get_elem? (allocated s) j)
            (get_elem? (allocated s) j) (ap (λ k. lookup k edit) (sym e) ∙ p) refl (h.agrees j)
