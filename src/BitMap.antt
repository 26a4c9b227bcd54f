-- ===== src/BitMap.antt =====
-- `BitMap` of core/src/util/bitmap.rs, over the bit operations of bittle. A method that panics
-- out of range has the outcome `panic`. The sum of an index of the map and of a word's bit is not
-- checked, since both count bits in memory; `from + count - 1`, of two arguments, is.
pub mod Shape
pub mod Repeat
pub mod Search
pub mod Batch
pub mod Ends
mod Tests
use mlsdisk.Base.{
  Bool, List, Option, Outcome, [], add_usize, drop, filter, find, get_or, head?, if◌then◌else◌, leb,
  length, ltb, map, none, ok, panic, replicate, reverse, set, some, sub_usize, take, ℕ, ◌%◌, ◌&&◌,
  ◌*◌, ◌+◌, ◌-◌, ◌/◌, ◌==◌, ◌>>=◌, ◌>>◌, ◌^◌, ◌∷◌,
}
use mlsdisk.Bittle.{Bittle, count}

pub record BitMap : Type 0 where
  pub bits : List ℕ
  pub nbits : ℕ

-- `!0u64`
abbrev pub all_ones : ℕ
all_ones = 2 ^ 64 - 1

-- `index as _`: the operations of bittle take a `u32`.
abbrev pub as_u32 : ℕ → ℕ
as_u32 index = index % 2 ^ 32

abbrev pub len : BitMap → ℕ
len bm = bm.nbits

unfoldable pub check_index : BitMap → ℕ → Outcome (Unit {0})
check_index bm index = if leb (len bm) index then panic else ok tt

-- `from + count - 1`
pub last_index : ℕ → ℕ → Outcome ℕ
last_index from count = do sum ← add_usize from count; sub_usize sum 1

pub bits_not_in_use : BitMap → Outcome ℕ
bits_not_in_use bm = sub_usize (length bm.bits * 64) bm.nbits

-- The indexes that an iterator over the words from `first_u64_index` on gives.
abbrev pub shifted : ℕ → List ℕ → List ℕ
shifted first_u64_index indexes = map (λ index. first_u64_index * 64 + index) indexes

-- `Some` only if `count` indexes were found.
abbrev pub if_all : ℕ → List ℕ → Option (List ℕ)
if_all count found = if length found == count then some found else none

module _ ⦃bt : Bittle⦄ where
  -- The loop of `repeat` over the bits to clear.
  pub clear_bits : ℕ → List ℕ → ℕ
  clear_bits w [] = w
  clear_bits w (index ∷ indexes) = clear_bits (bt.clear_bit_word w index) indexes

  -- `BitMap::repeat`
  unfoldable pub repeat : Bool → ℕ → BitMap
  unfolding clear_bits
  repeat value nbits =
      let vec_len = (nbits + 64 - 1) / 64 in
      let words = replicate vec_len (if value then all_ones else 0) in
      let last = get_or words (vec_len - 1) 0 in
      let unused = filter (λ index. leb (nbits % 64) index) (bt.iter_ones_word last) in
      record {
        bits = if nbits % 64 == 0 then words else set words (vec_len - 1) (clear_bits last unused);
        nbits = nbits;
      }

  unfoldable pub test_bit : BitMap → ℕ → Outcome Bool
  unfolding check_index
  test_bit bm index = do check_index bm index; ok (bt.test_bit bm.bits (as_u32 index))

  pub set_bit : BitMap → ℕ → Outcome BitMap
  unfolding check_index
  set_bit bm index = do
    check_index bm index
    ok (record bm { bits = bt.set_bit bm.bits (as_u32 index) })

  pub clear_bit : BitMap → ℕ → Outcome BitMap
  unfolding check_index
  clear_bit bm index = do
    check_index bm index
    ok (record bm { bits = bt.clear_bit bm.bits (as_u32 index) })

  -- `BitMap::set`
  unfoldable pub set_to : BitMap → ℕ → Bool → Outcome BitMap
  unfolding set_bit clear_bit
  set_to bm index value = if value then set_bit bm index else clear_bit bm index

  pub count_ones : BitMap → ℕ
  count_ones bm = bt.count_ones bm.bits

  pub count_zeros : BitMap → Outcome ℕ
  unfolding bits_not_in_use
  count_zeros bm = do unused ← bits_not_in_use bm; sub_usize (bt.count_zeros bm.bits) unused

  abbrev pub ones_after : BitMap → ℕ → List ℕ
  ones_after bm from = shifted (from / 64) (bt.iter_ones (drop (from / 64) bm.bits))

  abbrev pub zeros_after : BitMap → ℕ → List ℕ
  zeros_after bm from = shifted (from / 64) (bt.iter_zeros (drop (from / 64) bm.bits))

  unfoldable pub first_one : BitMap → ℕ → Outcome (Option ℕ)
  unfolding check_index
  first_one bm from = do
    check_index bm from
    ok (find (λ index. leb from index) (ones_after bm from))

  unfoldable pub first_zero : BitMap → ℕ → Outcome (Option ℕ)
  unfolding check_index
  first_zero bm from = do
    check_index bm from
    ok (find (λ index. leb from index && ltb index (len bm)) (zeros_after bm from))

  unfoldable pub first_ones : BitMap → ℕ → ℕ → Outcome (Option (List ℕ))
  unfolding check_index last_index
  first_ones bm from count = do
    last ← last_index from count
    check_index bm last
    ok (if_all count (take count (filter (λ index. leb from index) (ones_after bm from))))

  pub first_zeros : BitMap → ℕ → ℕ → Outcome (Option (List ℕ))
  unfolding check_index last_index
  first_zeros bm from count = do
    last ← last_index from count
    check_index bm last
    ok (
        if_all count (
          take count
            (filter (λ index. leb from index && ltb index (len bm)) (zeros_after bm from))))

  pub last_one : BitMap → Option ℕ
  last_one bm = head? (reverse (bt.iter_ones bm.bits))

  pub last_zero : BitMap → Outcome (Option ℕ)
  unfolding bits_not_in_use
  last_zero bm = do
    unused ← bits_not_in_use bm
    ok (head? (drop unused (reverse (bt.iter_zeros bm.bits))))
