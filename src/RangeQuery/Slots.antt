-- ===== src/RangeQuery/Slots.antt =====
-- The invariant of a `RangeQueryCtx`, and the range that is left.
use mlsdisk.Base.{
  ==_iff, Bool, Bool-cases, List, Option, Outcome, add_usize, ap, arith, dec_lt, err, false,
  get_elem?, get_elem?_lt, inl, inr, lt→leb, lt→ltb, none, ok, panic, refl, replicate, some, suc,
  zero, ℕ, ◌+◌, ◌-◌, ◌<◌, ◌==◌, ◌>>=◌, ◌^◌, ◌∙◌, ◌≡◌, ◌≢◌, ◌≤◌,
}
use mlsdisk.Bittle.{Bittle}
use mlsdisk.BitMap.Shape.{IsValid, length-view, view}
use mlsdisk.RangeQuery.{RangeQueryCtx, new_ctx, range_uncompleted}
use mlsdisk.BitMap.Repeat.{repeat_lem}
use mlsdisk.BitMap.Ends.{IsLast, last_zero_lem}

replicate-first : (n : ℕ) → 0 < n → get_elem? (replicate n false) 0 ≡ some false
replicate-first zero lt = absurd (omega arith)
replicate-first (suc n) lt = refl

module _ {V : Type 0} where
  -- Which slots are completed.
  abbrev pub slots : RangeQueryCtx V → List Bool
  slots ctx = view ctx.complete_table

  -- `min_uncompleted` is the least slot that is not completed, or their number if all are.
  pub record IsTracked (ctx : RangeQueryCtx V) : Type 0 where
    pub map_valid : IsValid ctx.complete_table
    pub same_length : ctx.complete_table.nbits ≡ ctx.num_values
    pub min_in : ctx.min_uncompleted ≤ ctx.num_values
    pub below : (j : ℕ) → j < ctx.min_uncompleted → get_elem? (slots ctx) j ≢ some false
    pub at_min :
        ctx.min_uncompleted < ctx.num_values
        → get_elem? (slots ctx) ctx.min_uncompleted ≡ some false

  -- What is left: nothing, or a range that starts and ends at uncompleted slots and has them all.
  abbrev pub Leaves : RangeQueryCtx V → Outcome (Option (ℕ × ℕ)) → Type 0
  Leaves ctx (ok none) = (j : ℕ) → get_elem? (slots ctx) j ≢ some false
  Leaves ctx (ok (some (first, last))) =
      (get_elem? (slots ctx) (first - ctx.start) ≡ some false)
      × (get_elem? (slots ctx) (last - ctx.start) ≡ some false)
      × ((j : ℕ)
          → get_elem? (slots ctx) j ≡ some false
          → (first ≤ ctx.start + j) × (ctx.start + j ≤ last))
  Leaves ctx (err e) = ⊥
  Leaves ctx panic = ⊥

module _ ⦃bt : Bittle⦄ {V : Type 0} where
  -- The range that a tracked context with addressable keys reports as left is there exactly if a
  -- slot is uncompleted; then it starts and ends at such slots, and all of them are in it.
  pub range_uncompleted_lem :
      (ctx : RangeQueryCtx V)
      → IsTracked ctx
      → ctx.start + ctx.num_values < 2 ^ 64
      → Leaves ctx (range_uncompleted ctx)
  unfolding range_uncompleted
  range_uncompleted_lem ctx h fits = elim (Bool-cases (ctx.min_uncompleted == ctx.num_values)) [
    | inl e ↦ rw e (λ j c.
        h.below j
          (omega (
            arith,
            (==_iff ctx.min_uncompleted ctx.num_values).0 e,
            get_elem?_lt (slots ctx) j c,
            length-view ctx.complete_table h.map_valid,
            h.same_length,
          ))
          c)
    | inr e ↦
        let lt = less e in
        let last = last_zero_lem ctx.complete_table h.map_valid in
        rw
          (
            e,
            lt→ltb ctx.min_uncompleted ctx.num_values lt,
            lt→leb (ctx.start + ctx.min_uncompleted) (2 ^ 64) (omega arith),
            last.1,
          )
          (left (last.0) (last.2) lt)
  ]
    where
      less : (ctx.min_uncompleted == ctx.num_values) ≡ false → ctx.min_uncompleted < ctx.num_values
      less e = ground (arith, h.min_in)

      not_before :
          (j : ℕ)
          → get_elem? (slots ctx) j ≡ some false
          → ctx.start + ctx.min_uncompleted ≤ ctx.start + j
      not_before j c = elim (dec_lt j ctx.min_uncompleted) [
        | yes lt ↦ absurd (h.below j lt c)
        | no ge ↦ omega arith
      ]

      not_after :
          (nth : ℕ)
          → IsLast false (slots ctx) (some nth)
          → (j : ℕ) → get_elem? (slots ctx) j ≡ some false
          → ctx.start + j ≤ ctx.start + nth
      not_after nth w j c = elim (dec_lt nth j) [
        | yes lt ↦ absurd (w.1 j lt c)
        | no ge ↦ omega arith
      ]

      left :
          (r : Option ℕ)
          → IsLast false (slots ctx) r
          → ctx.min_uncompleted < ctx.num_values
          → Leaves ctx (elim r [
            | none ↦ ok none
            | some nth ↦ add_usize ctx.start nth >>= λ last.
                ok (some (ctx.start + ctx.min_uncompleted, last))
          ])
      left none w lt = absurd (w ctx.min_uncompleted (h.at_min lt))
      left (some nth) w lt =
          rw
            (lt→leb (ctx.start + nth) (2 ^ 64) (
              omega (
                arith,
                get_elem?_lt (slots ctx) nth (w.0),
                length-view ctx.complete_table h.map_valid,
                h.same_length,
              )))
            (
              ap (get_elem? (slots ctx)) (omega arith) ∙ h.at_min lt,
              ap (get_elem? (slots ctx)) (omega arith) ∙ w.0,
              λ j c. (not_before j c, not_after nth w j c),
            )

  -- A new context of an addressable number of values is tracked, and none of its slots is
  -- completed.
  pub new_ctx_lem :
      (start n : ℕ)
      → n + 63 < 2 ^ 32
      → IsTracked (new_ctx {V = V} start n) × (slots (new_ctx {V = V} start n) ≡ replicate n false)
  unfolding new_ctx
  new_ctx_lem start n fits =
      let r = repeat_lem false n fits in
      (
        record {
          map_valid = r.2;
          same_length = r.1;
          min_in = omega arith;
          below = λ j lt. absurd (omega arith);
          at_min = λ lt. ap (λ l. get_elem? l 0) (r.0) ∙ replicate-first n lt;
        },
        r.0,
      )
