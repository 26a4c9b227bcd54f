-- ===== src/AllocTable/Slot.antt =====
-- `alloc`, the allocation of one block.
use mlsdisk.Base.{
  Option, Outcome, arith, err, false, get_elem?, get_elem?_lt, none, ok, panic, refl, set, some,
  true, ℕ, ◌+◌, ◌<◌, ◌>>=◌, ◌≡◌, ◌≢◌,
}
use mlsdisk.Bittle.{Bittle}
use mlsdisk.BitMap.{first_one}
use mlsdisk.BitMap.Shape.{length-view, set_to_ok, written_lem}
use mlsdisk.BitMap.Search.{Finds, first_one_lem}
use mlsdisk.AllocTable.{AllocTable, alloc_slot, take_slot}
use mlsdisk.AllocTable.Take.{IsConsistent, free}

-- What `alloc` may do.
abbrev pub Slots : AllocTable → Outcome (Option ℕ × AllocTable) → Type 0
Slots t (ok (some hba, after)) =
    (t.next_avail < t.nblocks)
    × (get_elem? (free t) hba ≡ some true)
    × (free after ≡ set (free t) hba false)
    × (after.next_avail ≡ hba + 1)
    × (after.num_free ≡ t.num_free)
Slots t (ok (none, after)) =
    (t.next_avail < t.nblocks) × ((j : ℕ) → get_elem? (free t) j ≢ some true) × (after ≡ t)
Slots t (err e) = ⊥
Slots t panic = t.next_avail ≡ t.nblocks

module _ ⦃bt : Bittle⦄ (t : AllocTable) (c : IsConsistent t) where
  taken-Slots :
      (hba : ℕ)
      → t.next_avail < t.bitmap.nbits
      → get_elem? (free t) hba ≡ some true
      → Slots t (take_slot t hba)
  unfolding take_slot
  taken-Slots hba in_table bit =
      let lt : hba < t.bitmap.nbits =
        omega (arith, get_elem?_lt (free t) hba bit, length-view t.bitmap c.map_valid) in
      rw (set_to_ok t.bitmap hba false c.map_valid lt) (
        omega (arith, c.same_length),
        bit,
        (written_lem t.bitmap hba false c.map_valid lt).0,
        refl,
        refl,
      )

  first-Slots :
      (o : Outcome (Option ℕ))
      → t.next_avail < t.bitmap.nbits
      → Finds true t.bitmap 0 o
      → Slots t (o >>= λ first. elim first [ none ↦ ok (none, t) | some hba ↦ take_slot t hba ])
  first-Slots (ok (some hba)) lt h = taken-Slots hba lt h.1.1
  first-Slots (ok none) lt h = (omega (arith, c.same_length), λ j. h.1 j (omega arith), refl)
  first-Slots (err e) lt h = h
  first-Slots panic lt h = absurd (omega arith)

  found-Slots :
      (o : Outcome (Option ℕ))
      → Finds true t.bitmap t.next_avail o
      → Slots t (
          o >>= λ found. elim found [
            | some hba ↦ take_slot t hba
            | none ↦ first_one t.bitmap 0 >>= λ first. elim first [
              | none ↦ ok (none, t)
              | some hba ↦ take_slot t hba
            ]
          ])
  found-Slots (ok (some hba)) h = taken-Slots hba h.0 h.1.1
  found-Slots (ok none) h =
      first-Slots (first_one t.bitmap 0) h.0 (first_one_lem t.bitmap 0 c.map_valid)
  found-Slots (err e) h = h
  found-Slots panic h = omega (arith, c.next_in, c.same_length)

  -- On a consistent table, which has fewer than 2^32 blocks, `alloc` panics exactly if
  -- `next_avail` is the number of blocks, whatever blocks are free; otherwise it returns
  -- `None`, and changes nothing, exactly if no block is free, or it takes a free block, after
  -- which `next_avail` is the index behind it, so the number of blocks if it was the last,
  -- and `num_free` is as before.
  pub alloc_slot_lem : Slots t (alloc_slot t)
  unfolding alloc_slot
  alloc_slot_lem =
      found-Slots (first_one t.bitmap t.next_avail)
        (first_one_lem t.bitmap t.next_avail c.map_valid)
