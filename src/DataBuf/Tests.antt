-- ===== src/DataBuf/Tests.antt =====
-- The theorems of a data buffer at one that holds two blocks.
use mlsdisk.Base.{[], arith, false, refl, some, true, ℕ, ◌∷◌, ◌≡◌}
use mlsdisk.DataBuf.{
  DataBuf, buffered_nblocks, clear_blocks, get_block_range, is_at_capacity, put_block,
}
use mlsdisk.DataBuf.Kept.{IsBuffer, PutsBlock, put_block_lem}

abbrev two_blocks : DataBuf ℕ
two_blocks = record { buf = (2, 20) ∷ ((7, 70) ∷ []); cap = 3; is_full = false }

two_blocks-IsBuffer : IsBuffer two_blocks
unfolding is_at_capacity buffered_nblocks
two_blocks-IsBuffer = record { ascending = ((omega arith, tt), (tt, tt)); flagged = refl }

put_block_lem_example : PutsBlock two_blocks 5 50 (put_block two_blocks 5 50)
put_block_lem_example = put_block_lem two_blocks 5 50 two_blocks-IsBuffer

-- The third block fills the buffer, and stands between the other two.
put_between :
    put_block two_blocks 5 50
    ≡ some (true, record { buf = (2, 20) ∷ ((5, 50) ∷ ((7, 70) ∷ [])); cap = 3; is_full = true })
unfolding put_block
put_between = refl

get_range_of_two : get_block_range two_blocks 3 7 ≡ (7, 70) ∷ []
unfolding get_block_range
get_range_of_two = refl

cleared : clear_blocks two_blocks ≡ record { buf = []; cap = 3; is_full = false }
unfolding clear_blocks
cleared = refl
