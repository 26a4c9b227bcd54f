-- ===== src/Blocks/RoundTrip.antt =====
-- Reading back a slice that was written.
use mlsdisk.Base.{
  List, Outcome, ap, arith, drop, err, length, ok, panic, sym, take, ℕ, ◌*◌, ◌++◌, ◌+◌, ◌<◌, ◌>>=◌,
  ◌^◌, ◌∙◌, ◌≡◌, ◌≤◌,
}
use mlsdisk.Blocks.{BlockSet, Memory, block_size, read_slice, splice, write_slice}
use mlsdisk.Blocks.Bytes.{slice-splice}
use mlsdisk.Blocks.Store.{IsStore}
use mlsdisk.Blocks.Slices.{ReadsSlice, read_slice_lem}
use mlsdisk.Blocks.WriteSlice.{WritesSlice, needed, needed_ge, tail_of, write_slice_lem}

module _ (memory : Memory) {D : Type 0} {bs : BlockSet D} {bytes : D → List ℕ} {Holds : D → Type 0}
    (store : IsStore bs bytes Holds) where
  read_back :
      (d' : D) (offset : ℕ) (buf more : List ℕ) (out : Outcome (List ℕ))
      → (m : List ℕ) → bytes d' ≡ splice m offset (buf ++ more)
      → offset + length buf ≤ length (bytes d')
      → offset ≤ length m
      → ReadsSlice memory store d' offset (length buf) out
      → out ≡ ok buf
  read_back d' offset buf more (ok out) m e le k r =
      ap ok (r.1 ∙ ap (λ b. take (length buf) (drop offset b)) e ∙ slice-splice m offset buf more k)
  read_back d' offset buf more (err e') m e le k r = absurd (omega (arith, r.0))
  read_back d' offset buf more panic m e le k r = absurd r

  read_written :
      (d : D) (offset : ℕ) (buf : List ℕ) (out : Outcome D)
      → Holds d
      → 0 < length buf
      → offset + length buf + 4096 < 2 ^ 64
      → needed offset (length buf) ≤ length (bytes d)
      → WritesSlice memory store d offset buf out
      → (out >>= λ d'. read_slice memory bs d' offset (length buf)) ≡ ok buf
  read_written d offset buf (ok d') holds nonempty fits room w =
      read_back d' offset buf (tail_of memory store d offset buf)
        (read_slice memory bs d' offset (length buf)) (bytes d) (w.1)
        (omega (arith, same_length, needed_ge offset (length buf)))
        (omega (arith, needed_ge offset (length buf)))
        (read_slice_lem memory store d' offset (length buf) (w.3) nonempty fits)
    where
      same_length : length (bytes d') ≡ length (bytes d)
      same_length = store.size d' (w.3) ∙ ap (λ n. n * block_size) (w.2) ∙ sym (store.size d holds)
  read_written d offset buf (err e) holds nonempty fits room w = absurd (omega (arith, w.0))
  read_written d offset buf panic holds nonempty fits room w = absurd w

  -- Of a positive number of addressable bytes, and where the set has all the blocks of the slice
  -- and, if the slice ends within a block, one block more, `read_slice` after `write_slice` at
  -- the same place gives the bytes that were written.
  pub write_slice-read_slice :
      (d : D) (offset : ℕ) (buf : List ℕ)
      → Holds d
      → 0 < length buf
      → offset + length buf + 4096 < 2 ^ 64
      → needed offset (length buf) ≤ length (bytes d)
      → (write_slice memory bs d offset buf >>= λ d'. read_slice memory bs d' offset (length buf))
        ≡ ok buf
  write_slice-read_slice d offset buf holds nonempty fits room =
      read_written d offset buf (write_slice memory bs d offset buf) holds nonempty fits room
        (write_slice_lem memory store d offset buf holds nonempty fits)
