-- ===== src/Blocks/Slices.antt =====
-- `read_slice` and `write_slice` over any set of blocks that keeps its promise.
use mlsdisk.Base.{
  Bool-cases, Errno, List, Outcome, ap, arith, drop, err, inl, inr, length, length-drop,
  length-take, le→ltb, ltb, ltb→le, ltb→lt, lt→==_swap, ok, panic, refl, take, ℕ, ◌%◌, ◌*◌, ◌+◌,
  ◌-◌, ◌/◌, ◌<◌, ◌^◌, ◌∙◌, ◌≡◌, ◌≤◌,
}
use mlsdisk.Blocks.{BlockSet, Memory, block_size, end_block, read_slice}
use mlsdisk.Blocks.Store.{IsStore}
use mlsdisk.Blocks.Bytes.{slice-slice, slice_ok}

abbrev pub last_block : ℕ → ℕ → ℕ
last_block offset len = (offset + len + 4096 - 1) / 4096

pub end_block_lem :
    (offset len : ℕ)
    → offset + len + 4096 < 2 ^ 64
    → end_block offset len ≡ ok (last_block offset len)
unfolding end_block block_size
end_block_lem offset len h = ground arith

module _ (memory : Memory) {D : Type 0} {bs : BlockSet D} {bytes : D → List ℕ} {Holds : D → Type 0}
    (store : IsStore bs bytes Holds) where
  -- What reading a slice must give.
  abbrev pub ReadsSlice : D → ℕ → ℕ → Outcome (List ℕ) → Type 0
  ReadsSlice d offset len (ok out) =
      (offset + len ≤ length (bytes d)) × (out ≡ take len (drop offset (bytes d)))
  ReadsSlice d offset len (err e) = (length (bytes d) < offset + len) × (e ≡ Errno.invalid_args)
  ReadsSlice d offset len panic = ⊥

  -- Of a positive number of addressable bytes, `read_slice` gives the bytes at that place if the set
  -- has them all, and returns `InvalidArgs` otherwise. It does not panic.
  pub read_slice_lem :
      (d : D) (offset len : ℕ)
      → Holds d
      → 0 < len
      → offset + len + 4096 < 2 ^ 64
      → ReadsSlice d offset len (read_slice memory bs d offset len)
  unfolding read_slice block_size
  read_slice_lem d offset len h pos f =
      rw (end_block_lem offset len f) (elim (Bool-cases (ltb (bs.nblocks d) last)) [
        | inl e ↦ rw e (omega (arith, ltb→lt (bs.nblocks d) last e, store.size d h), refl)
        | inr e ↦
            rw
              (
                e,
                le→ltb start last (omega arith),
                lt→==_swap 0 (last - start) (omega arith),
                store.read_in d start (last - start) h (omega arith)
                    (omega (arith, ltb→le (bs.nblocks d) last e)),
                slice_ok blocks (offset % 4096) (offset % 4096 + len) (omega arith) (
                    omega (
                      arith,
                      ltb→le (bs.nblocks d) last e,
                      length-blocks (ltb→le (bs.nblocks d) last e),
                    )),
              )
              (omega (arith, ltb→le (bs.nblocks d) last e, store.size d h), same_bytes)
      ])
    where
      start : ℕ
      start = offset / 4096

      last : ℕ
      last = last_block offset len

      blocks : List ℕ
      blocks = take ((last - start) * 4096) (drop (start * 4096) (bytes d))

      length-blocks : last ≤ bs.nblocks d → length blocks ≡ (last - start) * 4096
      length-blocks le = omega (
        arith,
        length-take ((last - start) * 4096) (drop (start * 4096) (bytes d)),
        length-drop (start * 4096) (bytes d),
        store.size d h,
      )

      same_bytes :
          take (offset % 4096 + len - offset % 4096) (drop (offset % 4096) blocks)
          ≡ take len (drop offset (bytes d))
      same_bytes =
          ap (λ k. take k (drop (offset % 4096) blocks)) (omega arith)
          ∙ slice-slice (bytes d) (start * 4096) ((last - start) * 4096) (offset % 4096) len
              (omega arith)
          ∙ ap (λ k. take len (drop k (bytes d))) (omega arith)
