-- ===== src/BitMap/Search.antt =====
-- `first_one` and `first_zero` against the list of Booleans that the bitmap stands for.
use mlsdisk.Base.{
  Bool, Bool-cases, List, Option, Outcome, [], ap, append-nil, arith, dec_lt, drop, drop-append_le,
  drop-drop, err, false, filter, filter-and, find-eq-head?-filter, get_elem?, get_elem?-drop, head?,
  inl, inr, leb, length, length-drop, le→leb, ltb, none, ok, panic, same, some, suc, sym, true,
  zero, ℕ, ◌&&◌, ◌*◌, ◌++◌, ◌+◌, ◌-◌, ◌/◌, ◌<◌, ◌↔◌, ◌∎, ◌∙◌, ◌∷◌, ◌≡◌, ◌≡⟨◌⟩◌, ◌≢◌, ◌≤◌,
}
use mlsdisk.Bittle.{Bittle, bits_of, positions}
use mlsdisk.Bittle.Words.{bits_of-drop}
use mlsdisk.Bittle.Positions.{
  filter_below, filter_from, positions-append, positions-replicate_ne, positions-shift,
}
use mlsdisk.BitMap.{
  BitMap, check_index, first_one, first_zero, len, ones_after, shifted, zeros_after,
}
use mlsdisk.BitMap.Shape.{IsValid, check_index_ok, length-view, unused_bits, view}

-- The indexes at or after `from` of the bits of `v` that equal `b`, in ascending order.
abbrev pub indices : Bool → ℕ → List Bool → List ℕ
indices b from v = positions b from (drop from v)

-- `r` is the least index at or after `from` whose bit equals `b`, or `none` if there is none.
abbrev pub IsFirst : Bool → List Bool → ℕ → Option ℕ → Type 0
IsFirst b v from none = (j : ℕ) → from ≤ j → get_elem? v j ≢ some b
IsFirst b v from (some i) =
    (from ≤ i) × (get_elem? v i ≡ some b) × ((j : ℕ) → from ≤ j → j < i → get_elem? v j ≢ some b)

-- What a search may return: the first such index, or a panic if `from` is out of range.
abbrev pub Finds : Bool → BitMap → ℕ → Outcome (Option ℕ) → Type 0
Finds b bm from (ok r) = (from < bm.nbits) × IsFirst b (view bm) from r
Finds b bm from (err e) = ⊥
Finds b bm from panic = bm.nbits ≤ from

-- The head of `positions`, with its distance from the start.
abbrev HeadAt : Bool → ℕ → List Bool → Option ℕ → Type 0
HeadAt b k xs none = (j : ℕ) → get_elem? xs j ≢ some b
HeadAt b k xs (some i) =
    (d : ℕ) × (i ≡ k + d) × (get_elem? xs d ≡ some b) × ((j : ℕ) → j < d → get_elem? xs j ≢ some b)

pub same_iff : (x b : Bool) → (same b x ≡ true) ↔ (x ≡ b)
same_iff x b = ground arith

some-eq : {a b : Bool} → some a ≡ some b → a ≡ b
some-eq e = cc

HeadAt-skip :
    (b : Bool) (k : ℕ) (x : Bool) (xs : List Bool) (r : Option ℕ)
    → x ≢ b
    → HeadAt b (suc k) xs r
    → HeadAt b k (x ∷ xs) r
HeadAt-skip b k x xs none ne h = elim [ zero ↦ λ e. ne (some-eq e) | suc j ↦ h j ]
HeadAt-skip b k x xs (some i) ne h = (
  suc h.0,
  omega arith,
  h.2,
  elim [ zero ↦ λ _ e. ne (some-eq e) | suc j ↦ λ lt. h.3 j (omega arith) ],
)

pub head?-positions : (b : Bool) (k : ℕ) (xs : List Bool) → HeadAt b k xs (head? (positions b k xs))
head?-positions b k [] = λ j. cc
head?-positions b k (x ∷ xs) = elim (Bool-cases (same b x)) [
  | inl e ↦ rw e (zero, omega arith, ap some ((same_iff x b).0 e), λ j lt. absurd (omega arith))
  | inr e ↦ rw e (
      HeadAt-skip b k x xs (head? (positions b (suc k) xs)) (λ eq. cc ((same_iff x b).1 eq))
        (head?-positions b (suc k) xs))
]

-- `drop` moves the start of the search.
pub IsFirst-indices :
    (b : Bool) (from : ℕ) (v : List Bool) → IsFirst b v from (head? (indices b from v))
IsFirst-indices b from v = moved (head? (indices b from v)) (head?-positions b from (drop from v))
  where
    back : (j : ℕ) → from ≤ j → get_elem? (drop from v) (j - from) ≡ get_elem? v j
    back j le = get_elem?-drop from v (j - from) ∙ ap (get_elem? v) (omega arith)

    moved : (r : Option ℕ) → HeadAt b from (drop from v) r → IsFirst b v from r
    moved none h = λ j le e. h (j - from) (back j le ∙ e)
    moved (some i) h = (
      omega arith,
      ap (get_elem? v) {y = from + h.0} h.1 ∙ sym (get_elem?-drop from v h.0) ∙ h.2,
      λ j le lt e. h.3 (j - from) (omega arith) (back j le ∙ e),
    )

-- The filter over the words from `from / 64` on gives those indexes of the bits of all words.
pub shifted_lem :
    (b : Bool) (from : ℕ) (ws : List ℕ)
    → filter (λ i. leb from i) (shifted (from / 64) (positions b 0 (bits_of (drop (from / 64) ws))))
      ≡ indices b from (bits_of ws)
shifted_lem b from ws =
    filter (λ i. leb from i) (shifted k (positions b 0 (bits_of (drop k ws))))
    ≡⟨ ap (λ l. filter (λ i. leb from i) l) moved ⟩
      filter (λ i. leb from i) (positions b (k * 64) (drop (k * 64) (bits_of ws)))
    ≡⟨ filter_from b from (k * 64) (from - k * 64) (drop (k * 64) (bits_of ws)) (omega arith) ⟩
      positions b from (drop (from - k * 64) (drop (k * 64) (bits_of ws)))
    ≡⟨ ap (positions b from) (drop-drop (from - k * 64) (k * 64) (bits_of ws)) ⟩
      positions b from (drop (k * 64 + (from - k * 64)) (bits_of ws))
    ≡⟨ ap (λ m. positions b from (drop m (bits_of ws))) {x = k * 64 + (from - k * 64)} {y = from}
        (omega arith) ⟩
      indices b from (bits_of ws) ∎
  where
    k : ℕ
    k = from / 64

    moved :
        shifted k (positions b 0 (bits_of (drop k ws)))
        ≡ positions b (k * 64) (drop (k * 64) (bits_of ws))
    moved =
        positions-shift b (k * 64) 0 (bits_of (drop k ws))
        ∙ ap (λ m. positions b m (bits_of (drop k ws))) {x = k * 64 + 0} {y = k * 64} (omega arith)
        ∙ ap (positions b (k * 64)) (bits_of-drop k ws)

module _ (bm : BitMap) (from : ℕ) (h : IsValid bm) (lt : from ≤ bm.nbits) where
  drop-view : drop from (bits_of bm.bits) ≡ drop from (view bm) ++ unused_bits bm
  drop-view =
      ap (drop from) h.padded
      ∙ drop-append_le from (view bm) (unused_bits bm) (omega (arith, length-view bm h))

  -- No unused bit is a one.
  pub ones_in_view : indices true from (bits_of bm.bits) ≡ indices true from (view bm)
  ones_in_view =
      ap (positions true from) drop-view
      ∙ positions-append true from (drop from (view bm)) (unused_bits bm)
      ∙ ap (λ l. indices true from (view bm) ++ l)
          (positions-replicate_ne true (from + length (drop from (view bm)))
            (length bm.bits * 64 - bm.nbits))
      ∙ append-nil (indices true from (view bm))

  -- The unused bits are zeros past the end.
  pub zeros_in_view :
      filter (λ i. ltb i bm.nbits) (indices false from (bits_of bm.bits))
      ≡ indices false from (view bm)
  zeros_in_view =
      ap (λ l. filter (λ i. ltb i bm.nbits) (positions false from l)) drop-view
      ∙ filter_below false bm.nbits from (drop from (view bm)) (unused_bits bm)
          (omega (arith, length-drop from (view bm), length-view bm h))

module _ ⦃bt : Bittle⦄ (bm : BitMap) (from : ℕ) (h : IsValid bm) (lt : from ≤ bm.nbits) where
  pub ones_from : filter (λ i. leb from i) (ones_after bm from) ≡ indices true from (view bm)
  ones_from =
      ap (λ l. filter (λ i. leb from i) (shifted (from / 64) l))
        (bt.iter_ones_lem (drop (from / 64) bm.bits))
      ∙ shifted_lem true from bm.bits
      ∙ ones_in_view bm from h lt

  pub zeros_from :
      filter (λ i. leb from i && ltb i (len bm)) (zeros_after bm from)
      ≡ indices false from (view bm)
  zeros_from =
      filter-and (λ i. leb from i) (λ i. ltb i (len bm)) (zeros_after bm from)
      ∙ ap (λ l. filter (λ i. ltb i (len bm)) (filter (λ i. leb from i) (shifted (from / 64) l)))
          (bt.iter_zeros_lem (drop (from / 64) bm.bits))
      ∙ ap (filter (λ i. ltb i (len bm))) (shifted_lem false from bm.bits)
      ∙ zeros_in_view bm from h lt

module _ ⦃bt : Bittle⦄ (bm : BitMap) (from : ℕ) (h : IsValid bm) where
  pub first_one_ok : from < bm.nbits → first_one bm from ≡ ok (head? (indices true from (view bm)))
  unfolding first_one
  first_one_ok lt = rw (
    check_index_ok bm from lt,
    find-eq-head?-filter (λ i. leb from i) (ones_after bm from),
    ones_from bm from h (omega arith),
  )

  pub first_zero_ok :
      from < bm.nbits → first_zero bm from ≡ ok (head? (indices false from (view bm)))
  unfolding first_zero
  first_zero_ok lt = rw (
    check_index_ok bm from lt,
    find-eq-head?-filter (λ i. leb from i && ltb i (len bm)) (zeros_after bm from),
    zeros_from bm from h (omega arith),
  )

  -- On a valid bitmap `first_one` returns the least index at or after `from` whose bit is one,
  -- `None` exactly if there is none, and panics exactly if `from` is out of range.
  pub first_one_lem : Finds true bm from (first_one bm from)
  unfolding first_one check_index
  first_one_lem = elim (dec_lt from bm.nbits) [
    | yes lt ↦ rw (first_one_ok lt) (lt, IsFirst-indices true from (view bm))
    | no ge ↦ rw (le→leb bm.nbits from (omega arith)) (omega arith)
  ]

  -- On a valid bitmap `first_zero` returns the least index at or after `from`, within the length,
  -- whose bit is zero, `None` exactly if there is none, and panics exactly if `from` is out of
  -- range.
  pub first_zero_lem : Finds false bm from (first_zero bm from)
  unfolding first_zero check_index
  first_zero_lem = elim (dec_lt from bm.nbits) [
    | yes lt ↦ rw (first_zero_ok lt) (lt, IsFirst-indices false from (view bm))
    | no ge ↦ rw (le→leb bm.nbits from (omega arith)) (omega arith)
  ]
