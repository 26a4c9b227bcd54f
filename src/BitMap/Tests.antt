-- ===== src/BitMap/Tests.antt =====
-- Runs of the bitmap, as in the tests of core/src/util/bitmap.rs, and its theorems at a map.
use mlsdisk.Base.{Outcome, [], arith, false, none, ok, refl, replicate, some, true, ◌>>=◌, ◌∷◌, ◌≡◌}
use mlsdisk.Bittle.Sample.{sample_bittle}
use mlsdisk.BitMap.Search.{Finds, first_zero_lem}
use mlsdisk.BitMap.{
  BitMap, clear_bits, count_ones, count_zeros, first_one, first_ones, first_zero, last_one,
  last_zero, repeat, set_to, test_bit,
}
use mlsdisk.BitMap.Shape.{IsValid, Writes, bit_at, set_to_lem, test_bit_lem, view}
use mlsdisk.BitMap.Repeat.{repeat_lem}

-- 100 zeros, bit 64 set.
abbrev one_bit : Outcome BitMap
one_bit = set_to (repeat false 100) 64 true

finds :
    ((one_bit >>= λ bm. first_one bm 0) ≡ ok (some 64))
    × ((one_bit >>= λ bm. first_one bm 64) ≡ ok (some 64))
    × ((one_bit >>= λ bm. first_one bm 65) ≡ ok none)
    × ((one_bit >>= λ bm. first_ones bm 0 1) ≡ ok (some (64 ∷ [])))
    × ((one_bit >>= λ bm. first_ones bm 0 2) ≡ ok none)
    × ((one_bit >>= λ bm. ok (last_one bm)) ≡ ok (some 64))
unfolding set_to repeat clear_bits first_one first_ones last_one sample_bittle
finds = (refl, refl, refl, refl, refl, refl)

repeat_counts :
    (count_ones (repeat true 100) ≡ 100)
    × (count_zeros (repeat true 100) ≡ ok 0)
    × (last_zero (repeat false 100) ≡ ok (some 99))
unfolding repeat clear_bits count_ones count_zeros last_zero sample_bittle
repeat_counts = (refl, refl, refl)

abbrev zeros_70 : BitMap
zeros_70 = repeat false 70

zeros_70-view : view zeros_70 ≡ replicate 70 false
zeros_70-view = (repeat_lem false 70 (omega arith)).0

zeros_70-IsValid : IsValid zeros_70
zeros_70-IsValid = (repeat_lem false 70 (omega arith)).2

test_bit_lem_example : test_bit zeros_70 69 ≡ bit_at (view zeros_70) 69
test_bit_lem_example = test_bit_lem zeros_70 69 zeros_70-IsValid

set_to_lem_example : Writes zeros_70 69 true (set_to zeros_70 69 true)
set_to_lem_example = set_to_lem zeros_70 69 true zeros_70-IsValid

first_zero_lem_example : Finds false zeros_70 3 (first_zero zeros_70 3)
first_zero_lem_example = first_zero_lem zeros_70 3 zeros_70-IsValid
