-- ===== src/Blocks/Steps.antt =====
-- The steps of `write_slice`: the buffer after each of them.
use mlsdisk.Base.{
  Errno, List, [], ap, ap₂, arith, drop, err, if◌then◌else◌, inl, inr, length, length-append,
  length-drop, length-take, lt→==_swap, ok, refl, suc, take, zero, ℕ, ◌%◌, ◌*◌, ◌++◌, ◌+◌, ◌-◌, ◌/◌,
  ◌<◌, ◌==◌, ◌^◌, ◌∙◌, ◌≡◌, ◌≤◌, ◌⊎◌,
}
use mlsdisk.Blocks.{
  BlockSet, Memory, alloc_buf, block_size, copy_from_slice, read_end, read_start, splice,
}
use mlsdisk.Blocks.Bytes.{
  copy_ok, drop_all, slice_ok, splice-append, splice-fill, take-take_le, take_all,
}
use mlsdisk.Blocks.Store.{IsStore}

pub copy-append :
    (pre rest buf : List ℕ) (a b : ℕ)
    → a ≡ length pre
    → b ≡ a + length buf
    → length buf ≤ length rest
    → copy_from_slice (pre ++ rest) a b buf ≡ ok (pre ++ (buf ++ drop (length buf) rest))
copy-append pre rest buf a b e k h =
    copy_ok (pre ++ rest) a b buf k (omega (arith, length-append pre rest))
    ∙ ap (λ i. ok (splice (pre ++ rest) i buf)) e
    ∙ ap ok (splice-append pre buf rest)

pub copy-fill :
    (pre rest src : List ℕ) (a b : ℕ)
    → a ≡ length pre
    → b ≡ length (pre ++ rest)
    → length rest ≡ length src
    → copy_from_slice (pre ++ rest) a b src ≡ ok (pre ++ src)
copy-fill pre rest src a b e k h =
    copy_ok (pre ++ rest) a b src (omega (arith, length-append pre rest))
      (omega (arith, length-append pre rest))
    ∙ ap (λ i. ok (splice (pre ++ rest) i src)) e
    ∙ ap ok (splice-fill pre src rest (omega arith))

module _ (memory : Memory) {D : Type 0} {bs : BlockSet D} {bytes : D → List ℕ} {Holds : D → Type 0}
    (store : IsStore bs bytes Holds) where
  pub read_start_lem :
      (d : D) (start o : ℕ) (fresh : List ℕ)
      → Holds d
      → o < 4096
      → start + 1 < 2 ^ 64
      → start + 1 ≤ bs.nblocks d
      → 4096 ≤ length fresh
      → read_start memory bs d start o fresh
        ≡ ok (take o (drop (start * 4096) (bytes d)) ++ drop o fresh)
  unfolding read_start alloc_buf block_size
  read_start_lem d start zero fresh h lt f le k = refl
  read_start_lem d start (suc o) fresh h lt f le k =
      rw
        (
          lt→==_swap 0 (suc o) (omega arith),
          store.read_in d start 1 h f le,
          slice_ok block 0 (suc o) (omega arith) (omega (arith, length-block)),
        )
        (copy_ok fresh 0 (suc o) read (omega (arith, length-read)) (omega arith)
          ∙ ap₂ (λ r n. ok (r ++ drop n fresh)) same_bytes same_end)
    where
      block : List ℕ
      block = take (1 * 4096) (drop (start * 4096) (bytes d))

      length-block : length block ≡ 4096
      length-block = omega (
        arith,
        length-take (1 * 4096) (drop (start * 4096) (bytes d)),
        length-drop (start * 4096) (bytes d),
        store.size d h,
      )

      read : List ℕ
      read = take (suc o - 0) block

      length-read : length read ≡ suc o
      length-read = omega (arith, length-take (suc o - 0) block, length-block)

      same_bytes : read ≡ take (suc o) (drop (start * 4096) (bytes d))
      same_bytes =
          ap (λ n. take n block) {x = suc o - 0} {y = suc o} (omega arith)
          ∙ take-take_le (suc o) (1 * 4096) (drop (start * 4096) (bytes d)) (omega arith)

      same_end : 0 + length read ≡ suc o
      same_end = omega (arith, length-read)

  -- The bytes that `write_slice` puts behind those it is given, to fill up the last block: they
  -- are read from the block `end_pos`.
  pub filler : D → ℕ → ℕ → List ℕ
  filler d end_pos end_offset =
      if end_offset % 4096 == 0
      then []
      else drop (end_offset % 4096) (take 4096 (drop (end_pos * 4096) (bytes d)))

  pub read_end_aligned :
      (d : D) (end_pos end_offset : ℕ) (pre rest : List ℕ)
      → end_offset % 4096 ≡ 0
      → length rest ≡ 0
      → read_end memory bs d end_pos end_offset (pre ++ rest)
        ≡ ok (pre ++ filler d end_pos end_offset)
  unfolding read_end block_size filler
  read_end_aligned d end_pos end_offset pre rest e k =
      rw e (ap (λ r. ok (pre ++ r)) (drop_all 0 rest (omega arith)))

  pub read_end_lem :
      (d : D) (end_pos end_offset : ℕ) (pre rest : List ℕ)
      → Holds d
      → 0 < end_offset % 4096
      → end_offset ≡ length pre
      → length rest + end_offset % 4096 ≡ 4096
      → end_pos + 1 < 2 ^ 64
      → end_pos + 1 ≤ bs.nblocks d
      → read_end memory bs d end_pos end_offset (pre ++ rest)
        ≡ ok (pre ++ filler d end_pos end_offset)
  unfolding read_end alloc_buf block_size filler
  read_end_lem d end_pos end_offset pre rest h pos e k f le =
      rw
        (
          lt→==_swap 0 (end_offset % 4096) pos,
          store.read_in d end_pos 1 h f le,
          slice_ok block (end_offset % 4096) (length block) (omega (arith, length-block))
              (omega arith),
        )
        (copy-fill pre rest read end_offset (length (pre ++ rest)) e refl
            (omega (arith, length-read))
          ∙ ap (λ r. ok (pre ++ r))
              (take_all (length block - end_offset % 4096) (drop (end_offset % 4096) block)
                (omega (arith, length-drop (end_offset % 4096) block))))
    where
      block : List ℕ
      block = take (1 * 4096) (drop (end_pos * 4096) (bytes d))

      length-block : length block ≡ 4096
      length-block = omega (
        arith,
        length-take (1 * 4096) (drop (end_pos * 4096) (bytes d)),
        length-drop (end_pos * 4096) (bytes d),
        store.size d h,
      )

      read : List ℕ
      read = take (length block - end_offset % 4096) (drop (end_offset % 4096) block)

      length-read : length read ≡ 4096 - end_offset % 4096
      length-read = omega (
        arith,
        length-take (length block - end_offset % 4096) (drop (end_offset % 4096) block),
        length-drop (end_offset % 4096) block,
        length-block,
      )

  length-filler_aligned :
      (d : D) (end_pos end_offset : ℕ)
      → end_offset % 4096 ≡ 0
      → length (filler d end_pos end_offset) ≡ 0
  unfolding filler
  length-filler_aligned d end_pos end_offset e = rw e refl

  length-filler_within :
      (d : D) (end_pos end_offset : ℕ)
      → Holds d
      → 0 < end_offset % 4096
      → end_pos + 1 ≤ bs.nblocks d
      → length (filler d end_pos end_offset) ≡ 4096 - end_offset % 4096
  unfolding filler block_size
  length-filler_within d end_pos end_offset h pos le = rw (lt→==_swap 0 (end_offset % 4096) pos) (
      omega (
        arith,
        length-drop (end_offset % 4096) (take 4096 (drop (end_pos * 4096) (bytes d))),
        length-take 4096 (drop (end_pos * 4096) (bytes d)),
        length-drop (end_pos * 4096) (bytes d),
        store.size d h,
      ))

  -- With the block behind the slice within the set, or no need of it, the filler fills the block.
  pub length-filler :
      (d : D) (end_pos end_offset : ℕ)
      → Holds d
      → ((end_offset % 4096 ≡ 0) ⊎ ((0 < end_offset % 4096) × (end_pos + 1 ≤ bs.nblocks d)))
      → length (filler d end_pos end_offset) ≡ (end_offset + 4095) / 4096 * 4096 - end_offset
  length-filler d end_pos end_offset h (inl e) =
      omega (arith, length-filler_aligned d end_pos end_offset e)
  length-filler d end_pos end_offset h (inr (pos, le)) =
      omega (arith, length-filler_within d end_pos end_offset h pos le)

  pub read_end_out :
      (d : D) (end_pos end_offset : ℕ) (blocks : List ℕ)
      → Holds d
      → 0 < end_offset % 4096
      → end_pos + 1 < 2 ^ 64
      → bs.nblocks d < end_pos + 1
      → read_end memory bs d end_pos end_offset blocks ≡ err Errno.invalid_args
  unfolding read_end alloc_buf block_size
  read_end_out d end_pos end_offset blocks h pos f lt =
      rw (lt→==_swap 0 (end_offset % 4096) pos, store.read_out d end_pos 1 h f lt)
