-- ===== src/Blocks/WriteSlice.antt =====
-- `write_slice` over any set of blocks that keeps its promise.
use mlsdisk.Base.{
  ==_iff, Bool-cases, Errno, List, Outcome, ap, append_assoc, arith, drop, err, if◌then◌else◌, inl,
  inr, length, length-append, length-drop, length-take, le→ltb, ltb, ltb→le, ltb→lt, lt→==_swap, ok,
  panic, refl, sym, take, ℕ, ◌%◌, ◌*◌, ◌++◌, ◌+◌, ◌-◌, ◌/◌, ◌<◌, ◌==◌, ◌>>=◌, ◌^◌, ◌∙◌, ◌≡◌, ◌≤◌,
  ◌⊎◌,
}
use mlsdisk.Blocks.{BlockSet, Memory, alloc_buf, block_size, read_end, splice, write_slice}
use mlsdisk.Blocks.Store.{IsStore}
use mlsdisk.Blocks.Slices.{end_block_lem, last_block}
use mlsdisk.Blocks.Steps.{
  copy-append, filler, length-filler, read_end_aligned, read_end_lem, read_end_out, read_start_lem,
}
use mlsdisk.Blocks.Bytes.{splice_self}

-- The end of the blocks that a write of a slice needs: one block more if the slice ends within a
-- block.
abbrev pub needed : ℕ → ℕ → ℕ
needed offset len = if (offset % 4096 + len) % 4096 == 0 then offset + len else offset + len + 4096

needed_cases :
    (offset len : ℕ)
    → (((offset % 4096 + len) % 4096 ≡ 0) × (needed offset len ≡ offset + len))
      ⊎ ((0 < (offset % 4096 + len) % 4096) × (needed offset len ≡ offset + len + 4096))
needed_cases offset len = elim (Bool-cases ((offset % 4096 + len) % 4096 == 0)) [
  | inl e ↦ inl ((==_iff ((offset % 4096 + len) % 4096) 0).0 e, rw e refl)
  | inr e ↦ inr (ground arith, rw e refl)
]

pub needed_ge : (offset len : ℕ) → offset + len ≤ needed offset len
needed_ge offset len = elim (needed_cases offset len) [
  | inl (al, n) ↦ omega (arith, n)
  | inr (wi, n) ↦ omega (arith, n)
]

module _ (memory : Memory) {D : Type 0} {bs : BlockSet D} {bytes : D → List ℕ} {Holds : D → Type 0}
    (store : IsStore bs bytes Holds) where
  -- What follows the bytes of `buf` up to the end of the last block.
  abbrev pub tail_of : D → ℕ → List ℕ → List ℕ
  tail_of d offset buf =
      filler memory store d (last_block offset (length buf)) (offset % 4096 + length buf)

  -- What writing a slice does.
  abbrev pub WritesSlice : D → ℕ → List ℕ → Outcome D → Type 0
  WritesSlice d offset buf (ok d') =
      (needed offset (length buf) ≤ length (bytes d))
      × (bytes d' ≡ splice (bytes d) offset (buf ++ tail_of d offset buf))
      × (bs.nblocks d' ≡ bs.nblocks d)
      × Holds d'
  WritesSlice d offset buf (err e) =
      (length (bytes d) < needed offset (length buf)) × (e ≡ Errno.invalid_args)
  WritesSlice d offset buf panic = ⊥

  module _ (d : D) (offset : ℕ) (buf : List ℕ) (holds : Holds d) (nonempty : 0 < length buf)
      (fits : offset + length buf + 4096 < 2 ^ 64) where
    abbrev start : ℕ
    start = offset / 4096

    abbrev within : ℕ
    within = offset % 4096

    abbrev last : ℕ
    last = last_block offset (length buf)

    -- What stands before the slice in its first block, and the memory that is not filled yet.
    abbrev before : List ℕ
    before = take within (drop (start * 4096) (bytes d))

    abbrev fresh : List ℕ
    fresh = drop within (memory.pages (last - start))

    abbrev rest : List ℕ
    rest = drop (length buf) fresh

    length-before : last ≤ bs.nblocks d → length before ≡ within
    unfolding block_size
    length-before le = omega (
      arith,
      length-take within (drop (start * 4096) (bytes d)),
      length-drop (start * 4096) (bytes d),
      store.size d holds,
    )

    length-fresh : length fresh ≡ (last - start) * 4096 - within
    unfolding block_size
    length-fresh = omega (
      arith,
      length-drop within (memory.pages (last - start)),
      memory.length-pages (last - start),
    )

    length-rest : length rest ≡ (last - start) * 4096 - within - length buf
    length-rest = omega (arith, length-drop (length buf) fresh, length-fresh)

    -- The call, up to the last block.
    filled :
        last ≤ bs.nblocks d
        → write_slice memory bs d offset buf ≡ (
            read_end memory bs d last (within + length buf) ((before ++ buf) ++ rest) >>= λ blocks.
            bs.write d start blocks)
    unfolding write_slice block_size alloc_buf
    filled le =
        rw
          (
            end_block_lem offset (length buf) fits,
            le→ltb last (bs.nblocks d) le,
            le→ltb start last (omega arith),
            lt→==_swap 0 (last - start) (omega arith),
            read_start_lem memory store d start within (memory.pages (last - start)) holds
                (omega arith) (omega arith) (omega arith)
                (omega (arith, memory.length-pages (last - start))),
            copy-append before fresh buf within (within + length buf) (sym (length-before le)) refl
                (omega (arith, length-fresh)),
          )
          (ap
            (λ r. read_end memory bs d last (within + length buf) r >>= λ blocks.
              bs.write d start blocks)
            (sym (append_assoc before buf rest)))

    length-blocks :
        last ≤ bs.nblocks d
        → ((within + length buf) % 4096 ≡ 0)
          ⊎ ((0 < (within + length buf) % 4096) × (last + 1 ≤ bs.nblocks d))
        → length ((before ++ buf) ++ tail_of d offset buf) ≡ (last - start) * 4096
    length-blocks le has = omega (
      arith,
      length-append (before ++ buf) (tail_of d offset buf),
      length-append before buf,
      length-before le,
      length-filler memory store d last (within + length buf) holds has,
    )

    -- The write of the blocks.
    written :
        last ≤ bs.nblocks d
        → needed offset (length buf) ≤ length (bytes d)
        → ((within + length buf) % 4096 ≡ 0)
          ⊎ ((0 < (within + length buf) % 4096) × (last + 1 ≤ bs.nblocks d))
        → WritesSlice d offset buf (bs.write d start ((before ++ buf) ++ tail_of d offset buf))
    unfolding block_size
    written le room has =
        let w =
          store.write_in d start (last - start) ((before ++ buf) ++ tail_of d offset buf) holds
            (length-blocks le has) (omega arith) (omega arith) in
        rw (w.1) (room, w.2 ∙ same_bytes, w.3, w.4)
      where
        same_bytes :
            splice (bytes d) (start * 4096) ((before ++ buf) ++ tail_of d offset buf)
            ≡ splice (bytes d) offset (buf ++ tail_of d offset buf)
        same_bytes =
            ap (splice (bytes d) (start * 4096)) (append_assoc before buf (tail_of d offset buf))
            ∙ splice_self (bytes d) (start * 4096) within (buf ++ tail_of d offset buf)
                (omega (arith, store.size d holds))
            ∙ ap (λ i. splice (bytes d) i (buf ++ tail_of d offset buf)) (omega arith)

    -- The end of the call, if the slice ends with a block, and if it ends within one.
    ends_aligned :
        last ≤ bs.nblocks d
        → (within + length buf) % 4096 ≡ 0
        → needed offset (length buf) ≡ offset + length buf
        → WritesSlice d offset buf (write_slice memory bs d offset buf)
    unfolding block_size
    ends_aligned le e n =
        rw
          (
            filled le,
            read_end_aligned memory store d last (within + length buf) (before ++ buf) rest e
                (omega (arith, length-rest)),
          )
          (written le (omega (arith, n, store.size d holds)) (inl e))

    ends_within :
        last ≤ bs.nblocks d
        → 0 < (within + length buf) % 4096
        → needed offset (length buf) ≡ offset + length buf + 4096
        → WritesSlice d offset buf (write_slice memory bs d offset buf)
    unfolding block_size
    ends_within le pos n = elim (Bool-cases (ltb last (bs.nblocks d))) [
      | inl e ↦
          rw
            (
              filled le,
              read_end_lem memory store d last (within + length buf) (before ++ buf) rest holds pos
                  (omega (arith, length-append before buf, length-before le))
                  (omega (arith, length-rest)) (omega arith)
                  (omega (arith, ltb→lt last (bs.nblocks d) e)),
            )
            (written le (omega (arith, n, store.size d holds, ltb→lt last (bs.nblocks d) e))
              (inr (pos, omega (arith, ltb→lt last (bs.nblocks d) e))))
      | inr e ↦
          rw
            (
              filled le,
              read_end_out memory store d last (within + length buf) ((before ++ buf) ++ rest) holds
                  pos (omega arith) (omega (arith, ltb→le last (bs.nblocks d) e)),
            )
            (omega (arith, n, store.size d holds, ltb→le last (bs.nblocks d) e), refl)
    ]

  -- Of a positive number of addressable bytes, `write_slice` succeeds exactly if the set has all
  -- the blocks of the slice and, if the slice ends within a block, one block more; otherwise it
  -- returns `InvalidArgs`. What it writes is the slice, followed, if that ends within a block, by
  -- the end of the next block; all other bytes are as before. It does not panic.
  pub write_slice_lem :
      (d : D) (offset : ℕ) (buf : List ℕ)
      → Holds d
      → 0 < length buf
      → offset + length buf + 4096 < 2 ^ 64
      → WritesSlice d offset buf (write_slice memory bs d offset buf)
  unfolding write_slice block_size
  write_slice_lem d offset buf holds nonempty fits =
      elim (Bool-cases (ltb (bs.nblocks d) (last_block offset (length buf)))) [
        | inl e ↦
            rw (end_block_lem offset (length buf) fits, e)
              (beyond (ltb→lt (bs.nblocks d) (last_block offset (length buf)) e), refl)
        | inr e ↦ elim (needed_cases offset (length buf)) [
          | inl (al, n) ↦
              ends_aligned d offset buf holds nonempty fits
                (ltb→le (bs.nblocks d) (last_block offset (length buf)) e) al n
          | inr (wi, n) ↦
              ends_within d offset buf holds nonempty fits
                (ltb→le (bs.nblocks d) (last_block offset (length buf)) e) wi n
        ]
      ]
    where
      beyond :
          bs.nblocks d < last_block offset (length buf)
          → length (bytes d) < needed offset (length buf)
      beyond lt = elim (needed_cases offset (length buf)) [
        | inl (al, n) ↦ omega (arith, n, store.size d holds)
        | inr (wi, n) ↦ omega (arith, n, store.size d holds)
      ]
