-- ===== src/RangeQuery.antt =====
-- The context of a range query, core/src/layers/4-lsm/range_query_ctx.rs: which slots of a range of
-- keys have their value. Keys are numbers, as is `RecordKey` of
-- core/src/layers/5-disk/sworndisk.rs; values are of any type.
pub mod Slots
pub mod Complete
mod Tests
use mlsdisk.Base.{
  Bool, List, Option, Outcome, [], add_usize, assert, false, if◌then◌else◌, ltb, none, not, ok,
  some, sub_usize, true, ℕ, ◌++◌, ◌==◌, ◌>>=◌, ◌>>◌, ◌∷◌,
}
use mlsdisk.Bittle.{Bittle}
use mlsdisk.BitMap.{BitMap, first_zero, last_zero, repeat, set_to, test_bit}

pub record RangeQueryCtx (V : Type 0) : Type 0 where
  pub start : ℕ
  pub num_values : ℕ
  pub complete_table : BitMap
  pub min_uncompleted : ℕ
  pub res : List (ℕ × V)

module _ ⦃bt : Bittle⦄ {V : Type 0} where
  -- `RangeQueryCtx::new`
  pub new_ctx : ℕ → ℕ → RangeQueryCtx V
  new_ctx start num_values = record {
    start = start;
    num_values = num_values;
    complete_table = repeat false num_values;
    min_uncompleted = 0;
    res = [];
  }

  abbrev pub is_completed : RangeQueryCtx V → Bool
  is_completed ctx = ctx.min_uncompleted == ctx.num_values

  pub range_uncompleted : RangeQueryCtx V → Outcome (Option (ℕ × ℕ))
  range_uncompleted ctx = if is_completed ctx then ok none else (do
    assert (ltb ctx.min_uncompleted ctx.num_values)
    first ← add_usize ctx.start ctx.min_uncompleted
    found ← last_zero ctx.complete_table
    elim found [
      | none ↦ ok none
      | some nth ↦ add_usize ctx.start nth >>= λ last. ok (some (first, last))
    ])

  pub contains_uncompleted : RangeQueryCtx V → ℕ → Outcome Bool
  contains_uncompleted ctx key = do
    nth ← sub_usize key ctx.start
    if ltb nth ctx.num_values
        then (test_bit ctx.complete_table nth >>= λ b. ok (not b))
        else ok false

  pub update_min_uncompleted : RangeQueryCtx V → ℕ → Outcome (RangeQueryCtx V)
  update_min_uncompleted ctx completed_nth =
      if ctx.min_uncompleted == completed_nth
      then (first_zero ctx.complete_table completed_nth >>= λ found. ok (record ctx {
        min_uncompleted = elim found [ some next ↦ next | none ↦ ctx.num_values ];
      }))
      else ok ctx

  pub complete : RangeQueryCtx V → ℕ → V → Outcome (RangeQueryCtx V)
  unfolding update_min_uncompleted
  complete ctx key value = do
    nth ← sub_usize key ctx.start
    completed ← test_bit ctx.complete_table nth
    if completed then ok ctx else (do
      complete_table ← set_to ctx.complete_table nth true
      update_min_uncompleted
          (record ctx { complete_table = complete_table; res = ctx.res ++ ((key, value) ∷ []) })
          nth)

  pub mark_completed : RangeQueryCtx V → ℕ → Outcome (RangeQueryCtx V)
  unfolding update_min_uncompleted
  mark_completed ctx key = do
    nth ← sub_usize key ctx.start
    complete_table ← set_to ctx.complete_table nth true
    update_min_uncompleted (record ctx { complete_table = complete_table }) nth

  pub into_results : RangeQueryCtx V → Outcome (List (ℕ × V))
  into_results ctx = assert (is_completed ctx) >> ok ctx.res
