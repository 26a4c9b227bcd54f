-- ===== src/BitMap/Shape.antt =====
-- What a bitmap stands for, a list of Booleans, its invariant, and reads and writes of one bit.
use mlsdisk.Base.{
  Bool, List, Outcome, ap, arith, dec_lt, err, false, get_elem?, get_elem?-append_lt, get_elem?_ge,
  length, length-set, length-take, le→leb, lt→leb, ok, panic, refl, replicate, set, set-append_lt,
  sym, take, take-append, true, unwrap, ℕ, ◌*◌, ◌++◌, ◌+◌, ◌-◌, ◌/◌, ◌<◌, ◌^◌, ◌∙◌, ◌≡◌, ◌≤◌,
}
use mlsdisk.Bittle.{Bittle, bits_of}
use mlsdisk.Bittle.Words.{length-bits_of}
use mlsdisk.BitMap.{as_u32, BitMap, check_index, len, set_to, test_bit}

-- The bits in use.
abbrev pub view : BitMap → List Bool
view bm = take bm.nbits (bits_of bm.bits)

abbrev pub unused_bits : BitMap → List Bool
unused_bits bm = replicate (length bm.bits * 64 - bm.nbits) false

-- There are as many words as are needed, the unused bits of the last one are zero, and the bits of
-- all words are fewer than 2^32, so that an index and a number of them is a `u32`.
pub record IsValid (bm : BitMap) : Type 0 where
  pub sized : length bm.bits ≡ (bm.nbits + 63) / 64
  pub padded : bits_of bm.bits ≡ view bm ++ unused_bits bm
  pub fits : bm.nbits + 63 < 2 ^ 32

pub nbits-le : (bm : BitMap) → IsValid bm → bm.nbits ≤ length bm.bits * 64
nbits-le bm h = omega (arith, h.sized)

pub length-view : (bm : BitMap) → IsValid bm → length (view bm) ≡ bm.nbits
length-view bm h =
    omega (arith, length-take bm.nbits (bits_of bm.bits), length-bits_of bm.bits, nbits-le bm h)

-- A bitmap of the right size whose bits are a list and zeros stands for that list.
pub view-IsValid :
    (bm : BitMap) (v : List Bool)
    → length bm.bits ≡ (bm.nbits + 63) / 64
    → length v ≡ bm.nbits
    → bits_of bm.bits ≡ v ++ unused_bits bm
    → bm.nbits + 63 < 2 ^ 32
    → (view bm ≡ v) × IsValid bm
view-IsValid bm v sized len padded fits =
    (reads, record { sized = sized; padded = rw reads padded; fits = fits })
  where
    reads : view bm ≡ v
    reads = ap (take bm.nbits) padded ∙ take-append bm.nbits v (unused_bits bm) (sym len)

pub check_index_ok : (bm : BitMap) (i : ℕ) → i < bm.nbits → check_index bm i ≡ ok tt
unfolding check_index
check_index_ok bm i h = rw (lt→leb i bm.nbits h)

pub in_words : (bm : BitMap) (i : ℕ) → IsValid bm → i < bm.nbits → i < length (bits_of bm.bits)
in_words bm i h lt = omega (arith, nbits-le bm h, length-bits_of bm.bits)

-- An index of a valid bitmap is a `u32`.
pub as_u32_lem : (bm : BitMap) (i : ℕ) → IsValid bm → i < bm.nbits → as_u32 i ≡ i
as_u32_lem bm i h lt = omega (arith, h.fits)

pub get_elem?-view :
    (bm : BitMap) (i : ℕ)
    → IsValid bm
    → i < bm.nbits
    → get_elem? (view bm) i ≡ get_elem? (bits_of bm.bits) i
get_elem?-view bm i h lt =
    sym (get_elem?-append_lt (view bm) (unused_bits bm) i (omega (arith, length-view bm h)))
    ∙ sym (ap (λ l. get_elem? l i) h.padded)

-- What a write of one bit may do.
abbrev pub Writes : BitMap → ℕ → Bool → Outcome BitMap → Type 0
Writes bm i value (ok after) =
    (i < bm.nbits) × (view after ≡ set (view bm) i value) × (after.nbits ≡ bm.nbits) × IsValid after
Writes bm i value (err e) = ⊥
Writes bm i value panic = bm.nbits ≤ i

-- A bit of a list, where there is one.
abbrev pub bit_at : List Bool → ℕ → Outcome Bool
bit_at v i = unwrap (get_elem? v i)

module _ ⦃bt : Bittle⦄ where
  -- `test_bit` of an index in range returns that bit, and of any other it panics.
  pub test_bit_lem : (bm : BitMap) (i : ℕ) → IsValid bm → test_bit bm i ≡ bit_at (view bm) i
  unfolding test_bit check_index
  test_bit_lem bm i h = elim (dec_lt i bm.nbits) [
    | yes lt ↦ rw (
      check_index_ok bm i lt,
      get_elem?-view bm i h lt,
      as_u32_lem bm i h lt,
      bt.test_bit_lem bm.bits i (in_words bm i h lt) (omega (arith, h.fits)),
    )
    | no ge ↦ rw (
      le→leb bm.nbits i (omega arith),
      get_elem?_ge (view bm) i (omega (arith, length-view bm h)),
    )
  ]

  stored :
      (bm : BitMap) (ws : List ℕ) (i : ℕ) (value : Bool)
      → IsValid bm
      → i < bm.nbits
      → length ws ≡ length bm.bits
      → bits_of ws ≡ set (bits_of bm.bits) i value
      → let after = record bm { bits = ws } in (view after ≡ set (view bm) i value) × IsValid after
  stored bm ws i value h lt len e =
      view-IsValid (record bm { bits = ws }) (set (view bm) i value) (omega (arith, h.sized))
        (omega (arith, length-set (view bm) i value, length-view bm h)) split h.fits
    where
      split : bits_of ws ≡ set (view bm) i value ++ replicate (length ws * 64 - bm.nbits) false
      split = rw len (
          e
          ∙ ap (λ l. set l i value) h.padded
          ∙ set-append_lt (view bm) (unused_bits bm) i value (omega (arith, length-view bm h)))

  pub written : BitMap → ℕ → Bool → BitMap
  written bm i true = record bm { bits = bt.set_bit bm.bits i }
  written bm i false = record bm { bits = bt.clear_bit bm.bits i }

  pub nbits-written : (bm : BitMap) (i : ℕ) (value : Bool) → (written bm i value).nbits ≡ bm.nbits
  unfolding written
  nbits-written bm i true = refl
  nbits-written bm i false = refl

  pub written_lem :
      (bm : BitMap) (i : ℕ) (value : Bool)
      → IsValid bm
      → i < bm.nbits
      → (view (written bm i value) ≡ set (view bm) i value) × IsValid (written bm i value)
  unfolding written
  written_lem bm i true h lt =
      stored bm (bt.set_bit bm.bits i) i true h lt (bt.length-set_bit bm.bits i)
        (bt.set_bit_lem bm.bits i (in_words bm i h lt) (omega (arith, h.fits)))
  written_lem bm i false h lt =
      stored bm (bt.clear_bit bm.bits i) i false h lt (bt.length-clear_bit bm.bits i)
        (bt.clear_bit_lem bm.bits i (in_words bm i h lt) (omega (arith, h.fits)))

  pub set_to_ok :
      (bm : BitMap) (i : ℕ) (value : Bool)
      → IsValid bm
      → i < bm.nbits
      → set_to bm i value ≡ ok (written bm i value)
  unfolding set_to written
  set_to_ok bm i true h lt = rw (check_index_ok bm i lt, as_u32_lem bm i h lt)
  set_to_ok bm i false h lt = rw (check_index_ok bm i lt, as_u32_lem bm i h lt)

  pub set_to_out : (bm : BitMap) (i : ℕ) (value : Bool) → bm.nbits ≤ i → set_to bm i value ≡ panic
  unfolding set_to check_index
  set_to_out bm i true ge = rw (le→leb bm.nbits i ge)
  set_to_out bm i false ge = rw (le→leb bm.nbits i ge)

  -- On a valid bitmap, whose words have fewer than 2^32 bits, `set` returns, for an index in
  -- range, a valid bitmap of the same length whose bits are those before but for that one;
  -- for any other index it panics.
  pub set_to_lem :
      (bm : BitMap) (i : ℕ) (value : Bool) → IsValid bm → Writes bm i value (set_to bm i value)
  set_to_lem bm i value h = elim (dec_lt i bm.nbits) [
    | yes lt ↦
        let (reads, valid) = written_lem bm i value h lt in
        rw (set_to_ok bm i value h lt) (lt, reads, nbits-written bm i value, valid)
    | no ge ↦ rw (set_to_out bm i value (omega arith)) (omega arith)
  ]
