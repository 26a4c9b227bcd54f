-- ===== src/DataBuf/Kept.antt =====
-- What the calls of a data buffer keep true of it, and what they find in it.
use mlsdisk.Base.{
  Bool, Bool-cases, List, Option, [], arith, false, if◌then◌else◌, inl, inr, leb, length, lookup,
  none, refl, some, sym, true, ℕ, ◌&&◌, ◌<◌, ◌==◌, ◌∙◌, ◌∷◌, ◌≡◌,
}
use mlsdisk.DataBuf.{
  DataBuf, buffered_nblocks, clear_blocks, get_block, get_block_range, has_no_blocks,
  insert_ordered, is_at_capacity, new_data_buf, put_block, within,
}

module _ {V : Type 0} where
  -- The keys ascend.
  abbrev pub Above : ℕ → List (ℕ × V) → Type 0
  Above k [] = Unit
  Above k ((j, w) ∷ m) = (k < j) × Above k m

  abbrev pub Ascending : List (ℕ × V) → Type 0
  Ascending [] = Unit
  Ascending ((j, w) ∷ m) = Above j m × Ascending m

  Above-trans : (i k : ℕ) (m : List (ℕ × V)) → i < k → Above k m → Above i m
  Above-trans i k [] h a = tt
  Above-trans i k ((j, w) ∷ m) h a = (omega (arith, h, a.0), Above-trans i k m h a.1)

  lookup-Above : (k : ℕ) (m : List (ℕ × V)) → Above k m → lookup k m ≡ none
  lookup-Above k [] a = refl
  lookup-Above k ((j, w) ∷ m) a = ground (arith, lookup-Above k m)

  insert_ordered-Above :
      (i k : ℕ) (v : V) (m : List (ℕ × V)) → i < k → Above i m → Above i (insert_ordered k v m)
  insert_ordered-Above i k v [] h a = (h, tt)
  insert_ordered-Above i k v ((j, w) ∷ m) h a = ground (arith, insert_ordered-Above i k v m)

  insert_ordered-Ascending :
      (k : ℕ) (v : V) (m : List (ℕ × V)) → Ascending m → Ascending (insert_ordered k v m)
  insert_ordered-Ascending k v [] a = (tt, tt)
  insert_ordered-Ascending k v ((j, w) ∷ m) a =
      ground
        (arith, insert_ordered-Ascending k v m, insert_ordered-Above j k v m, Above-trans k j m)

  lookup-insert_ordered :
      (k i : ℕ) (v : V) (m : List (ℕ × V))
      → lookup i (insert_ordered k v m) ≡ (if k == i then some v else lookup i m)
  lookup-insert_ordered k i v [] = refl
  lookup-insert_ordered k i v ((j, w) ∷ m) = ground (arith, lookup-insert_ordered k i v m)

  -- A key of the map has one entry, so that the blocks of a range are those of its keys.
  within-Above : (i a b : ℕ) (m : List (ℕ × V)) → Above i m → Above i (within a b m)
  within-Above i a b [] h = tt
  within-Above i a b ((j, w) ∷ m) h = ground (arith, within-Above i a b m)

  within-Ascending : (a b : ℕ) (m : List (ℕ × V)) → Ascending m → Ascending (within a b m)
  within-Ascending a b [] h = tt
  within-Ascending a b ((j, w) ∷ m) h = ground (arith, within-Ascending a b m, within-Above j a b m)

  lookup-within :
      (i a b : ℕ) (m : List (ℕ × V))
      → lookup i (within a b m) ≡ (if leb a i && leb i b then lookup i m else none)
  lookup-within i a b [] = ground arith
  lookup-within i a b ((j, w) ∷ m) = ground (arith, lookup-within i a b m)

  -- A buffer is marked as full exactly if it is at its capacity.
  pub record IsBuffer (d : DataBuf V) : Type 0 where
    pub ascending : Ascending d.buf
    pub flagged : d.is_full ≡ is_at_capacity d

  pub new_data_buf-IsBuffer : (cap : ℕ) → 0 < cap → IsBuffer (new_data_buf cap)
  unfolding new_data_buf is_at_capacity buffered_nblocks
  new_data_buf-IsBuffer cap h = record { ascending = tt; flagged = ground arith }

  abbrev pub PutsBlock : DataBuf V → ℕ → V → Option (Bool × DataBuf V) → Type 0
  PutsBlock d key block none = is_at_capacity d ≡ true
  PutsBlock d key block (some (full, d')) =
      (is_at_capacity d ≡ false)
      × (full ≡ is_at_capacity d')
      × ((j : ℕ) → get_block d' j ≡ (if key == j then some block else get_block d j))
      × IsBuffer d'

  -- A put into a buffer waits exactly if the buffer is at its capacity. Otherwise it returns
  -- whether the buffer is at its capacity now; the block of its key is the new one, that of any
  -- other key is as before, and the keys still ascend, with the mark of a full buffer right.
  pub put_block_lem :
      (d : DataBuf V) (key : ℕ) (block : V)
      → IsBuffer d
      → PutsBlock d key block (put_block d key block)
  unfolding put_block get_block is_at_capacity buffered_nblocks
  put_block_lem d key block h = elim (Bool-cases d.is_full) [
    | inl e ↦ rw e (sym h.flagged ∙ e)
    | inr e ↦ rw e (
      sym h.flagged ∙ e,
      same_flag,
      (λ j. lookup-insert_ordered key j block d.buf),
      record {
        ascending = insert_ordered-Ascending key block d.buf h.ascending;
        flagged = same_flag;
      },
    )
  ]
    where
      full : Bool
      full = leb d.cap (length (insert_ordered key block d.buf))

      same_flag : (if full then true else false) ≡ full
      same_flag = elim (Bool-cases full) [ inl e ↦ rw e refl | inr e ↦ rw e refl ]

  -- The blocks of a range of keys of a buffer are in ascending order of their keys, and are
  -- exactly the blocks that a `get` finds with a key in the range.
  pub get_block_range_lem :
      (d : DataBuf V) (first last : ℕ)
      → IsBuffer d
      → Ascending (get_block_range d first last)
        × ((j : ℕ)
            → lookup j (get_block_range d first last)
              ≡ (if leb first j && leb j last then get_block d j else none))
  unfolding get_block_range get_block
  get_block_range_lem d first last h =
      (within-Ascending first last d.buf h.ascending, λ j. lookup-within j first last d.buf)

  -- A cleared buffer of a positive capacity has no blocks and is not marked as full, so that the
  -- next put does not wait.
  pub clear_blocks_lem :
      (d : DataBuf V)
      → 0 < d.cap
      → IsBuffer (clear_blocks d) × (has_no_blocks (clear_blocks d) ≡ true)
  unfolding clear_blocks has_no_blocks is_at_capacity buffered_nblocks
  clear_blocks_lem d h =
      (record { ascending = tt; flagged = ground (arith, Bool-cases d.is_full) }, refl)
