-- ===== src/RangeQuery/Complete.antt =====
-- Completing the slots of a `RangeQueryCtx`.
use mlsdisk.Base.{
  ==_iff, Bool, Bool-cases, List, Option, Outcome, [], ap, arith, dec_lt, err, false, get_elem?,
  get_elem?-set_ne, get_elem?-set_self, get_elem?-some, get_elem?_ge, get_elem?_lt, inl, inr,
  le→ltb, lt→ltb, min, none, ok, panic, refl, set, some, sym, true, ℕ, ℕ_discrete, ◌++◌, ◌+◌, ◌-◌,
  ◌<◌, ◌==◌, ◌>>=◌, ◌∙◌, ◌∷◌, ◌≡◌, ◌≢◌, ◌≤◌, ◌⊎◌,
}
use mlsdisk.Bittle.{Bittle}
use mlsdisk.BitMap.Shape.{
  IsValid, length-view, nbits-written, set_to_ok, set_to_out, test_bit_lem, view, written,
  written_lem,
}
use mlsdisk.RangeQuery.{RangeQueryCtx, complete, mark_completed, update_min_uncompleted}
use mlsdisk.RangeQuery.Slots.{IsTracked, slots}
use mlsdisk.BitMap.{BitMap, first_zero}
use mlsdisk.BitMap.Search.{Finds, first_zero_lem}

module _ {V : Type 0} where
  -- A context of the same request with other slots.
  abbrev pub Marked : RangeQueryCtx V → ℕ → RangeQueryCtx V → Type 0
  Marked ctx nth after =
      (slots after ≡ set (slots ctx) nth true)
      × (after.start ≡ ctx.start)
      × (after.num_values ≡ ctx.num_values)
      × IsTracked after

  abbrev pub Completes : RangeQueryCtx V → ℕ → V → Outcome (RangeQueryCtx V) → Type 0
  Completes ctx key value (ok after) =
      (ctx.start ≤ key)
      × (((get_elem? (slots ctx) (key - ctx.start) ≡ some true) × (after ≡ ctx))
          ⊎ ((get_elem? (slots ctx) (key - ctx.start) ≡ some false)
              × (after.res ≡ ctx.res ++ ((key, value) ∷ []))
              × Marked ctx (key - ctx.start) after))
  Completes ctx key value (err e) = ⊥
  Completes ctx key value panic = (key < ctx.start) ⊎ (ctx.start + ctx.num_values ≤ key)

module _ ⦃bt : Bittle⦄ {V : Type 0} where
  -- The slots after one more is completed, before the least one is searched again.
  abbrev with_slot : RangeQueryCtx V → ℕ → List (ℕ × V) → RangeQueryCtx V
  with_slot ctx nth res = record ctx {
    complete_table = written ctx.complete_table nth true;
    res = res;
  }

  abbrev Updates : RangeQueryCtx V → ℕ → List (ℕ × V) → Outcome (RangeQueryCtx V) → Type 0
  Updates ctx nth res (ok after) = Marked ctx nth after × (after.res ≡ res)
  Updates ctx nth res (err e) = ⊥
  Updates ctx nth res panic = ⊥

  module _ (ctx : RangeQueryCtx V) (nth : ℕ) (h : IsTracked ctx) (lt : nth < ctx.num_values) where
    new_map : BitMap
    new_map = written ctx.complete_table nth true

    marks : (view new_map ≡ set (slots ctx) nth true) × IsValid new_map
    unfolding new_map
    marks = written_lem ctx.complete_table nth true h.map_valid (omega (arith, h.same_length))

    length-new_map : new_map.nbits ≡ ctx.num_values
    unfolding new_map
    length-new_map = nbits-written ctx.complete_table nth true ∙ h.same_length

    other : (j : ℕ) → nth ≢ j → get_elem? (view new_map) j ≡ get_elem? (slots ctx) j
    other j ne = ap (λ l. get_elem? l j) (marks.0) ∙ get_elem?-set_ne (slots ctx) nth j true ne

    itself : get_elem? (view new_map) nth ≡ some true
    itself =
        ap (λ l. get_elem? l nth) (marks.0)
        ∙ get_elem?-set_self (slots ctx) nth true
            (omega (arith, length-view ctx.complete_table h.map_valid, h.same_length))

    -- No slot below the least uncompleted one becomes uncompleted.
    new_below : (j : ℕ) → j < ctx.min_uncompleted → get_elem? (view new_map) j ≢ some false
    new_below j below e = elim (ℕ_discrete nth j) [
      | yes eq ↦ absurd (
          let t : some true ≡ some false = sym itself ∙ ap (get_elem? (view new_map)) eq ∙ e in
          cc t)
      | no ne ↦ h.below j below (sym (other j ne) ∙ e)
    ]

    tracked :
        (res : List (ℕ × V)) (min : ℕ)
        → min ≤ ctx.num_values
        → ((j : ℕ) → j < min → get_elem? (view new_map) j ≢ some false)
        → (min < ctx.num_values → get_elem? (view new_map) min ≡ some false)
        → IsTracked (record ctx { complete_table = new_map; min_uncompleted = min; res = res })
    tracked res min le b a = record {
      map_valid = marks.1;
      same_length = length-new_map;
      min_in = le;
      below = b;
      at_min = a;
    }

    -- The search for the next one, if the least one was completed.
    searched :
        (res : List (ℕ × V)) (out : Outcome (Option ℕ))
        → ctx.min_uncompleted ≡ nth
        → Finds false new_map nth out
        → Updates ctx nth res (
            out >>= λ found. ok (record (with_slot ctx nth res) {
              min_uncompleted = elim found [ some next ↦ next | none ↦ ctx.num_values ];
            }))
    unfolding new_map
    searched res (ok none) e w = (
      (
        marks.0,
        refl,
        refl,
        tracked res ctx.num_values (omega arith) all (λ l. absurd (omega arith)),
      ),
      refl,
    )
      where
        all : (j : ℕ) → j < ctx.num_values → get_elem? (view new_map) j ≢ some false
        all j l c = elim (dec_lt j nth) [
          | yes before ↦ new_below j (omega arith) c
          | no after ↦ w.1 j (omega arith) c
        ]
    searched res (ok (some next)) e w =
        ((marks.0, refl, refl, tracked res next in_range all (λ l. w.1.1)), refl)
      where
        in_range : next ≤ ctx.num_values
        in_range = omega (
          arith,
          get_elem?_lt (view new_map) next (w.1.1),
          length-view new_map (marks.1),
          length-new_map,
        )

        all : (j : ℕ) → j < next → get_elem? (view new_map) j ≢ some false
        all j l c = elim (dec_lt j nth) [
          | yes before ↦ new_below j (omega arith) c
          | no after ↦ w.1.2 j (omega arith) l c
        ]
    searched res (err e') e w = absurd w
    searched res panic e w = absurd (omega (arith, w, length-new_map))

    update_lem :
        (res : List (ℕ × V))
        → Updates ctx nth res (update_min_uncompleted (with_slot ctx nth res) nth)
    unfolding update_min_uncompleted new_map
    update_lem res = elim (Bool-cases (ctx.min_uncompleted == nth)) [
      | inl e ↦ rw e (
          searched res (first_zero new_map nth) ((==_iff ctx.min_uncompleted nth).0 e)
            (first_zero_lem new_map nth (marks.1)))
      | inr e ↦ rw e (
        (
          marks.0,
          refl,
          refl,
          tracked res ctx.min_uncompleted h.min_in new_below
              (λ l. other ctx.min_uncompleted (λ eq. ground arith) ∙ h.at_min l),
        ),
        refl,
      )
    ]

  -- From what the update does to what completing a slot and marking it do.
  recorded :
      (ctx : RangeQueryCtx V) (key : ℕ) (value : V) (out : Outcome (RangeQueryCtx V))
      → ctx.start ≤ key
      → get_elem? (slots ctx) (key - ctx.start) ≡ some false
      → Updates ctx (key - ctx.start) (ctx.res ++ ((key, value) ∷ [])) out
      → Completes ctx key value out
  recorded ctx key value (ok after) le e u = (le, inr (e, u.1, u.0))
  recorded ctx key value (err e') le e u = absurd u
  recorded ctx key value panic le e u = absurd u

  -- `complete` of a tracked context panics exactly if the key is outside the range. Of a completed
  -- slot it changes nothing; of another it adds the record to the results, completes that slot
  -- and no other, and the context, which stays tracked, knows the least slot that is left.
  pub complete_lem :
      (ctx : RangeQueryCtx V) (key : ℕ) (value : V)
      → IsTracked ctx
      → Completes ctx key value (complete ctx key value)
  unfolding complete
  complete_lem ctx key value h = elim (dec_lt key ctx.start) [
    | yes lt ↦ rw (lt→ltb key ctx.start lt) (inl lt)
    | no ge ↦ elim (dec_lt (key - ctx.start) ctx.num_values) [
      | yes lt ↦
          let bit =
            get_elem?-some (slots ctx) (key - ctx.start)
              (omega (arith, length-view ctx.complete_table h.map_valid, h.same_length)) in
          at_bit (bit.0) (omega arith) lt (bit.1)
      | no out ↦
          rw
            (
              le→ltb ctx.start key (omega arith),
              test_bit_lem ctx.complete_table (key - ctx.start) h.map_valid,
              get_elem?_ge (slots ctx) (key - ctx.start)
                  (omega (arith, length-view ctx.complete_table h.map_valid, h.same_length)),
            )
            (inr (omega arith))
    ]
  ]
    where
      at_bit :
          (b : Bool)
          → ctx.start ≤ key
          → key - ctx.start < ctx.num_values
          → get_elem? (slots ctx) (key - ctx.start) ≡ some b
          → Completes ctx key value (complete ctx key value)
      at_bit true le lt e =
          rw
            (
              le→ltb ctx.start key le,
              test_bit_lem ctx.complete_table (key - ctx.start) h.map_valid,
              e,
            )
            (le, inl (e, refl))
      at_bit false le lt e =
          rw
            (
              le→ltb ctx.start key le,
              test_bit_lem ctx.complete_table (key - ctx.start) h.map_valid,
              e,
              set_to_ok ctx.complete_table (key - ctx.start) true h.map_valid
                  (omega (arith, h.same_length)),
            )
            (recorded ctx key value
              (update_min_uncompleted
                (with_slot ctx (key - ctx.start) (ctx.res ++ ((key, value) ∷ [])))
                (key - ctx.start))
              le e (update_lem ctx (key - ctx.start) h lt (ctx.res ++ ((key, value) ∷ []))))

  abbrev pub Completed : RangeQueryCtx V → ℕ → Outcome (RangeQueryCtx V) → Type 0
  Completed ctx key (ok after) =
      (ctx.start ≤ key) × (after.res ≡ ctx.res) × Marked ctx (key - ctx.start) after
  Completed ctx key (err e) = ⊥
  Completed ctx key panic = (key < ctx.start) ⊎ (ctx.start + ctx.num_values ≤ key)

  marked :
      (ctx : RangeQueryCtx V) (key : ℕ) (out : Outcome (RangeQueryCtx V))
      → ctx.start ≤ key
      → Updates ctx (key - ctx.start) ctx.res out
      → Completed ctx key out
  marked ctx key (ok after) le u = (le, u.1, u.0)
  marked ctx key (err e) le u = absurd u
  marked ctx key panic le u = absurd u

  -- `mark_completed` of a tracked context panics exactly if the key is outside the range;
  -- otherwise it completes that slot and no other, adds no result, and the context stays tracked.
  pub mark_completed_lem :
      (ctx : RangeQueryCtx V) (key : ℕ) → IsTracked ctx → Completed ctx key (mark_completed ctx key)
  unfolding mark_completed
  mark_completed_lem ctx key h = elim (dec_lt key ctx.start) [
    | yes lt ↦ rw (lt→ltb key ctx.start lt) (inl lt)
    | no ge ↦ elim (dec_lt (key - ctx.start) ctx.num_values) [
      | yes lt ↦
          rw
            (
              le→ltb ctx.start key (omega arith),
              set_to_ok ctx.complete_table (key - ctx.start) true h.map_valid
                  (omega (arith, h.same_length)),
            )
            (marked ctx key
              (update_min_uncompleted (with_slot ctx (key - ctx.start) ctx.res) (key - ctx.start))
              (omega arith) (update_lem ctx (key - ctx.start) h lt ctx.res))
      | no out ↦
          rw
            (
              le→ltb ctx.start key (omega arith),
              set_to_out ctx.complete_table (key - ctx.start) true (omega (arith, h.same_length)),
            )
            (inr (omega arith))
    ]
  ]
