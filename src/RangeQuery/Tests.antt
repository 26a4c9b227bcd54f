-- ===== src/RangeQuery/Tests.antt =====
-- Runs of a range query, and the theorems at it.
use mlsdisk.Base.{List, Outcome, [], arith, ok, refl, ℕ, ◌>>=◌, ◌∷◌, ◌≡◌}
use mlsdisk.Bittle.Sample.{sample_bittle}
use mlsdisk.BitMap.{first_zero, repeat, set_to, test_bit}
use mlsdisk.RangeQuery.{RangeQueryCtx, complete, mark_completed, new_ctx}
use mlsdisk.RangeQuery.Slots.{IsTracked, new_ctx_lem}
use mlsdisk.RangeQuery.Complete.{Completes, complete_lem}

abbrev query : RangeQueryCtx ℕ
query = new_ctx 10 3

query-IsTracked : IsTracked query
query-IsTracked = (new_ctx_lem 10 3 (omega arith)).0

complete_lem_example : Completes query 10 100 (complete query 10 100)
complete_lem_example = complete_lem query 10 100 query-IsTracked

abbrev after_two : Outcome (ℕ × List (ℕ × ℕ))
after_two = do
  first ← complete query 10 100
  both ← mark_completed first 12
  ok (both.min_uncompleted, both.res)

after_two-run : after_two ≡ ok (1, (10, 100) ∷ [])
unfolding new_ctx complete mark_completed repeat set_to test_bit first_zero sample_bittle
after_two-run = refl
