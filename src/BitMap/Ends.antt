-- ===== src/BitMap/Ends.antt =====
-- `last_one`, `last_zero` and the two counts against the list of Booleans.
use mlsdisk.Base.{
  Bool, Bool-cases, List, Option, [], ap, arith, drop, drop-append, false, get_elem?, head?, inl,
  inr, last?, length, length-append, none, ok, refl, reverse, reverse-append, reverse-cons, same,
  some, suc, sym, true, zero, ℕ, ◌*◌, ◌++◌, ◌+◌, ◌-◌, ◌<◌, ◌^◌, ◌∙◌, ◌∷◌, ◌≡◌, ◌≢◌,
}
use mlsdisk.Bittle.Words.{length-bits_of}
use mlsdisk.Bittle.{Bittle, bits_of, count, positions}
use mlsdisk.Bittle.Positions.{
  count-append, count-replicate_ne, count-replicate_self, count_total, length-positions-replicate,
  positions-append,
}
use mlsdisk.BitMap.{BitMap, bits_not_in_use, count_ones, count_zeros, last_one, last_zero, len}
use mlsdisk.BitMap.Shape.{IsValid, length-view, nbits-le, unused_bits, view}
use mlsdisk.BitMap.Search.{ones_in_view, same_iff}

-- `r` is the greatest index whose bit equals `b`, or `none` if there is none.
abbrev pub IsLast : Bool → List Bool → Option ℕ → Type 0
IsLast b v none = (j : ℕ) → get_elem? v j ≢ some b
IsLast b v (some i) = (get_elem? v i ≡ some b) × ((j : ℕ) → i < j → get_elem? v j ≢ some b)

-- The number of one bits and of zero bits that the bitmap reports are those of its list, and
-- together its length: the subtraction in `count_zeros` does not underflow.
module _ ⦃bt : Bittle⦄ (bm : BitMap) (h : IsValid bm) where
  all_in_range : length (bits_of bm.bits) < 2 ^ 32
  all_in_range = omega (arith, h.sized, h.fits, length-bits_of bm.bits)

  count_zeros_words :
      bt.count_zeros bm.bits ≡ count false (view bm) + (length bm.bits * 64 - bm.nbits)
  count_zeros_words =
      bt.count_zeros_lem bm.bits all_in_range
      ∙ ap (count false) h.padded
      ∙ count-append false (view bm) (unused_bits bm)
      ∙ ap (λ m. count false (view bm) + m)
          (count-replicate_self false (length bm.bits * 64 - bm.nbits))

  pub count_ones_lem : count_ones bm ≡ count true (view bm)
  unfolding count_ones
  count_ones_lem =
      bt.count_ones_lem bm.bits all_in_range
      ∙ ap (count true) h.padded
      ∙ count-append true (view bm) (unused_bits bm)
      ∙ omega (arith, count-replicate_ne true (length bm.bits * 64 - bm.nbits))

  pub bits_not_in_use_ok : bits_not_in_use bm ≡ ok (length bm.bits * 64 - bm.nbits)
  unfolding bits_not_in_use
  bits_not_in_use_ok = ground (arith, nbits-le bm h)

  pub count_zeros_lem : count_zeros bm ≡ ok (count false (view bm))
  unfolding count_zeros
  count_zeros_lem = rw bits_not_in_use_ok (ground (arith, count_zeros_words))

  -- `count_ones` and `count_zeros` of a valid bitmap are the numbers of ones and of zeros among
  -- its bits, and `count_zeros` returns what is left of the length.
  pub counts_lem :
      (count_ones bm ≡ count true (view bm))
      × (count_zeros bm ≡ ok (count false (view bm)))
      × (count_zeros bm ≡ ok (len bm - count_ones bm))
  counts_lem = (
    count_ones_lem,
    count_zeros_lem,
    count_zeros_lem
        ∙ ap ok (omega (arith, count_ones_lem, count_total (view bm), length-view bm h)),
  )

-- The last element, by the list without its head.
pub last?-cons {ℓ} :
    {A : Type ℓ} (x : A) (xs : List A)
    → last? (x ∷ xs) ≡ (elim (last? xs) [ none ↦ some x | some y ↦ some y ])
last?-cons x [] = refl
last?-cons x (y ∷ []) = refl
last?-cons x (y ∷ (z ∷ zs)) = ground (arith, last?-cons y (z ∷ zs), last?-cons x (z ∷ zs))

head?-append_one {ℓ} :
    {A : Type ℓ} (xs : List A) (x : A)
    → head? (xs ++ (x ∷ [])) ≡ (elim (head? xs) [ none ↦ some x | some y ↦ some y ])
head?-append_one [] x = refl
head?-append_one (y ∷ ys) x = refl

head?-reverse {ℓ} : {A : Type ℓ} (xs : List A) → head? (reverse xs) ≡ last? xs
head?-reverse [] = refl
head?-reverse (x ∷ xs) =
    rw (reverse-cons x xs, head?-append_one (reverse xs) x, head?-reverse xs, last?-cons x xs)

abbrev LastAt : Bool → ℕ → List Bool → Option ℕ → Type 0
LastAt b k xs none = (j : ℕ) → get_elem? xs j ≢ some b
LastAt b k xs (some i) =
    (d : ℕ) × (i ≡ k + d) × (get_elem? xs d ≡ some b) × ((j : ℕ) → d < j → get_elem? xs j ≢ some b)

LastAt-skip :
    (b : Bool) (k : ℕ) (x : Bool) (xs : List Bool) (r : Option ℕ)
    → x ≢ b
    → LastAt b (suc k) xs r
    → LastAt b k (x ∷ xs) r
LastAt-skip b k x xs none ne h = elim [ zero ↦ λ e. ne (cc) | suc j ↦ h j ]
LastAt-skip b k x xs (some i) ne h = (
  suc h.0,
  omega arith,
  h.2,
  elim [ zero ↦ λ lt. absurd (omega arith) | suc j ↦ λ lt. h.3 j (omega arith) ],
)

LastAt-keep :
    (b : Bool) (k : ℕ) (x : Bool) (xs : List Bool) (r : Option ℕ)
    → x ≡ b
    → LastAt b (suc k) xs r
    → LastAt b k (x ∷ xs) (elim r [ none ↦ some k | some i ↦ some i ])
LastAt-keep b k x xs none eq h =
    (zero, omega arith, ap some eq, elim [ zero ↦ λ lt. absurd (omega arith) | suc j ↦ λ lt. h j ])
LastAt-keep b k x xs (some i) eq h = (
  suc h.0,
  omega arith,
  h.2,
  elim [ zero ↦ λ lt. absurd (omega arith) | suc j ↦ λ lt. h.3 j (omega arith) ],
)

last?-positions : (b : Bool) (k : ℕ) (xs : List Bool) → LastAt b k xs (last? (positions b k xs))
last?-positions b k [] = λ j. cc
last?-positions b k (x ∷ xs) = elim (Bool-cases (same b x)) [
  | inl e ↦
      rw (e, last?-cons k (positions b (suc k) xs))
        (LastAt-keep b k x xs (last? (positions b (suc k) xs)) ((same_iff x b).0 e)
          (last?-positions b (suc k) xs))
  | inr e ↦ rw e (
      LastAt-skip b k x xs (last? (positions b (suc k) xs)) (λ eq. cc ((same_iff x b).1 eq))
        (last?-positions b (suc k) xs))
]

IsLast-positions : (b : Bool) (v : List Bool) → IsLast b v (last? (positions b 0 v))
IsLast-positions b v = go (last? (positions b 0 v)) (last?-positions b 0 v)
  where
    go : (r : Option ℕ) → LastAt b 0 v r → IsLast b v r
    go none h = h
    go (some i) h =
        let e : i ≡ h.0 = omega (arith, h.1) in
        (ap (get_elem? v) e ∙ h.2, λ j lt. h.3 j (omega (arith, h.1)))

length-reverse_lem {ℓ} : {A : Type ℓ} (xs : List A) → length (reverse xs) ≡ length xs
length-reverse_lem [] = refl
length-reverse_lem (x ∷ xs) =
    ap length (reverse-cons x xs)
    ∙ omega (arith, length-append (reverse xs) (x ∷ []), length-reverse_lem xs)

module _ ⦃bt : Bittle⦄ (bm : BitMap) (h : IsValid bm) where
  last_one_ok : last_one bm ≡ last? (positions true 0 (view bm))
  unfolding last_one
  last_one_ok =
      rw (head?-reverse (bt.iter_ones bm.bits), bt.iter_ones_lem bm.bits)
        (ap last? (ones_in_view bm 0 h (omega arith)))

  -- `last_one` of a valid bitmap is the greatest index whose bit is one, `None` exactly if no bit
  -- is one.
  pub last_one_lem : IsLast true (view bm) (last_one bm)
  last_one_lem = rw last_one_ok (IsLast-positions true (view bm))

  pad : ℕ
  pad = length bm.bits * 64 - bm.nbits

  zeros_reversed :
      reverse (bt.iter_zeros bm.bits)
      ≡ reverse (positions false (0 + length (view bm)) (unused_bits bm))
        ++ reverse (positions false 0 (view bm))
  zeros_reversed =
      ap reverse (
        bt.iter_zeros_lem bm.bits
        ∙ ap (positions false 0) h.padded
        ∙ positions-append false 0 (view bm) (unused_bits bm))
      ∙ reverse-append (positions false 0 (view bm))
          (positions false (0 + length (view bm)) (unused_bits bm))

  pub last_zero_ok : last_zero bm ≡ ok (last? (positions false 0 (view bm)))
  unfolding last_zero pad
  last_zero_ok = rw bits_not_in_use_ok (
      ap (λ o. ok o)
        (ap (λ l. head? (drop pad l)) zeros_reversed
          ∙ ap head? (
              drop-append pad (reverse unused) (reverse (positions false 0 (view bm))) (
                sym (
                  length-reverse_lem unused
                  ∙ length-positions-replicate false (0 + length (view bm)) pad)))
          ∙ head?-reverse (positions false 0 (view bm))))
    where
      unused : List ℕ
      unused = positions false (0 + length (view bm)) (unused_bits bm)

  -- `last_zero` of a valid bitmap returns the greatest index within the length whose bit is zero,
  -- `None` exactly if there is none; it does not panic.
  pub last_zero_lem : (r : Option ℕ) × (last_zero bm ≡ ok r) × IsLast false (view bm) r
  last_zero_lem =
      (last? (positions false 0 (view bm)), last_zero_ok, IsLast-positions false (view bm))
