-- ===== src/AllocTable/Take.antt =====
-- The invariant of the block validity table, and taking the slots that a search has picked.
use mlsdisk.Base.{
  Bool, List, Option, [], ap, arith, contains, false, get_elem?, get_elem?-set, get_elem?-set_ne,
  get_elem?_lt, if◌then◌else◌, last?, length, ok, refl, set, some, subst, suc, sym, true, ℕ,
  ℕ_discrete, ◌*◌, ◌+◌, ◌<◌, ◌^◌, ◌∙◌, ◌∷◌, ◌≡◌, ◌≤◌,
}
use mlsdisk.Bittle.{Bittle, count}
use mlsdisk.Bittle.Positions.{count-set_eq}
use mlsdisk.BitMap.{BitMap}
use mlsdisk.BitMap.Shape.{
  IsValid, length-view, nbits-written, set_to_ok, view, written, written_lem,
}
use mlsdisk.BitMap.Search.{IsFirst}
use mlsdisk.BitMap.Batch.{Picks}
use mlsdisk.AllocTable.{AllocTable, clear_all, take_slots}

-- Which blocks are free.
abbrev pub free : AllocTable → List Bool
free t = view t.bitmap

-- `num_free` counts the free blocks; the bitmap is valid, so that there are fewer than 2^32 blocks.
pub record IsConsistent (t : AllocTable) : Type 0 where
  pub map_valid : IsValid t.bitmap
  pub same_length : t.bitmap.nbits ≡ t.nblocks
  pub counted : t.num_free ≡ count true (free t)
  pub next_in : t.next_avail ≤ t.nblocks
  pub addressable : t.nblocks * 4096 < 2 ^ 64

-- Changing a bit below `from` changes no pick from there on.
IsFirst-set :
    (b : Bool) (v : List Bool) (from i k : ℕ) (x : Bool)
    → k < from
    → IsFirst b v from (some i)
    → IsFirst b (set v k x) from (some i)
IsFirst-set b v from i k x lt h = (
  h.0,
  get_elem?-set_ne v k i x (omega (arith, h.0)) ∙ h.1,
  λ j le below e. h.2 j le below (sym (get_elem?-set_ne v k j x (omega arith)) ∙ e),
)

Picks-set :
    (b : Bool) (v : List Bool) (from : ℕ) (is : List ℕ) (k : ℕ) (x : Bool)
    → k < from
    → Picks b v from is
    → Picks b (set v k x) from is
Picks-set b v from [] k x lt h = tt
Picks-set b v from (i ∷ is) k x lt h =
    (IsFirst-set b v from i k x lt h.0, Picks-set b v (suc i) is k x (omega (arith, h.0.0)) h.1)

pub not_before :
    (b : Bool) (v : List Bool) (from : ℕ) (is : List ℕ) (j : ℕ)
    → Picks b v from is
    → j < from
    → contains j is ≡ false
not_before b v from [] j h lt = refl
not_before b v from (i ∷ is) j h lt =
    ground (arith, h.0.0, not_before b v (suc i) is j h.1 (omega (arith, h.0.0)))

-- Every pick is a bit that equals `b`.
pub picked :
    (b : Bool) (v : List Bool) (from : ℕ) (is : List ℕ) (j : ℕ)
    → Picks b v from is
    → contains j is ≡ true
    → get_elem? v j ≡ some b
picked b v from [] j h e = cc
picked b v from (i ∷ is) j h e = elim (ℕ_discrete i j) [
  | yes p ↦ ap (get_elem? v) (sym p) ∙ h.0.1
  | no p ↦ picked b v (suc i) is j h.1 (ground arith)
]

pub last?-picked :
    (b : Bool) (v : List Bool) (from i : ℕ) (is : List ℕ)
    → Picks b v from (i ∷ is)
    → (l : ℕ) × (last? (i ∷ is) ≡ some l) × (l < length v)
last?-picked b v from i [] h = (i, refl, get_elem?_lt v i h.0.1)
last?-picked b v from i (k ∷ is) h = last?-picked b v (suc i) k is h.1

-- The bitmap after the bits of a list of ones were cleared.
pub record Cleared (bm : BitMap) (is : List ℕ) (after : BitMap) : Type 0 where
  pub valid : IsValid after
  pub nbits_kept : after.nbits ≡ bm.nbits
  pub ones_left : count true (view after) + length is ≡ count true (view bm)
  pub bits :
      (j : ℕ)
      → get_elem? (view after) j ≡ (if contains j is then some false else get_elem? (view bm) j)

module _ ⦃bt : Bittle⦄ where
  pub clear_all_lem :
      (bm : BitMap) (from : ℕ) (is : List ℕ)
      → IsValid bm
      → Picks true (view bm) from is
      → (after : BitMap) × (clear_all bm is ≡ ok after) × Cleared bm is after
  unfolding clear_all
  clear_all_lem bm from [] h p =
      (bm, refl, record { valid = h; nbits_kept = refl; ones_left = omega arith; bits = λ j. refl })
  clear_all_lem bm from (i ∷ is) h p =
      let lt : i < bm.nbits = omega (arith, get_elem?_lt (view bm) i p.0.1, length-view bm h) in
      let w = written_lem bm i false h lt in
      let rest = clear_all_lem (written bm i false) (suc i) is w.1 (
        subst (λ v. Picks true v (suc i) is) (sym w.0)
          (Picks-set true (view bm) (suc i) is i false (omega arith) p.1)) in
      (
        rest.0,
        rw (set_to_ok bm i false h lt) rest.1,
        record {
          valid = rest.2.valid;
          nbits_kept = rest.2.nbits_kept ∙ nbits-written bm i false;
          ones_left =
              omega
                (arith, rest.2.ones_left, ap (count true) w.0, count-set_eq true (view bm) i p.0.1);
          bits = λ j. joined lt w.0 j (rest.2.bits j);
        },
      )
    where
      joined :
          i < bm.nbits
          → view (written bm i false) ≡ set (view bm) i false
          → (j : ℕ) {o : Option Bool}
          → o ≡ (if contains j is then some false else get_elem? (view (written bm i false)) j)
          → o ≡ (if contains j (i ∷ is) then some false else get_elem? (view bm) j)
      joined lt e j q = ground (
        arith,
        q,
        ap (λ l. get_elem? l j) e,
        get_elem?-set (view bm) i j false (omega (arith, length-view bm h)),
      )

  -- What taking slots does to a consistent table.
  pub record Taken (t : AllocTable) (is : List ℕ) (after : AllocTable) : Type 0 where
    pub were_free : (j : ℕ) → contains j is ≡ true → get_elem? (free t) j ≡ some true
    pub blocks :
        (j : ℕ)
        → get_elem? (free after) j ≡ (if contains j is then some false else get_elem? (free t) j)
    pub blocks_kept : after.nblocks ≡ t.nblocks
    pub map_after : IsValid after.bitmap
    pub length_after : after.bitmap.nbits ≡ t.nblocks
    pub count_after : count true (free after) + length is ≡ count true (free t)
    pub next_after : after.next_avail ≤ t.nblocks
    pub others : (after.num_free ≡ t.num_free) × (after.is_dirty ≡ t.is_dirty)

  pub take_slots_lem :
      (t : AllocTable) (from i : ℕ) (is : List ℕ)
      → IsConsistent t
      → Picks true (free t) from (i ∷ is)
      → (after : AllocTable) × (take_slots t (i ∷ is) ≡ ok (some (i ∷ is, after)))
        × Taken t (i ∷ is) after
  unfolding take_slots
  take_slots_lem t from i is c p =
      let cl = clear_all_lem t.bitmap from (i ∷ is) c.map_valid p in
      let l = last?-picked true (free t) from i is p in
      (
        record t { bitmap = cl.0; next_avail = l.0 + 1 },
        rw (cl.1, l.1),
        record {
          were_free = λ j e. picked true (free t) from (i ∷ is) j p e;
          blocks = cl.2.bits;
          blocks_kept = refl;
          map_after = cl.2.valid;
          length_after = cl.2.nbits_kept ∙ c.same_length;
          count_after = cl.2.ones_left;
          next_after = omega (arith, l.2, length-view t.bitmap c.map_valid, c.same_length);
          others = (refl, refl);
        },
      )
