-- ===== src/BitMap/Repeat.antt =====
-- `BitMap::repeat`: the words hold the repeated value, and the unused bits are cleared.
use mlsdisk.Base.{
  ==_iff, Bool, Bool-cases, List, [], ap, append-nil, append_assoc, ap₂, arith, drop, drop-append,
  false, filter, get_or, if◌then◌else◌, inl, inr, leb, length, length-append, length-replicate,
  length-set, refl, replicate, replicate-add, set, suc, sym, true, zero, ℕ, ℕ_discrete, ◌%◌, ◌*◌,
  ◌++◌, ◌+◌, ◌-◌, ◌/◌, ◌<◌, ◌==◌, ◌^◌, ◌∙◌, ◌∷◌, ◌≡◌, ◌≢◌, ◌≤◌,
}
use mlsdisk.Bittle.{Bittle, bits_of, positions, word_bits}
use mlsdisk.BitMap.{all_ones, clear_bits, len, repeat}
use mlsdisk.Bittle.Positions.{filter_from, positions-replicate_ne}
use mlsdisk.BitMap.Shape.{IsValid, view-IsValid, unused_bits, view}

abbrev filler : Bool → ℕ
filler value = if value then all_ones else 0

word_bits-filler : (value : Bool) → word_bits 64 (filler value) ≡ replicate 64 value
word_bits-filler true = refl
word_bits-filler false = refl

replicate_64 :
    (m : ℕ) (value : Bool)
    → replicate (suc m * 64) value ≡ replicate 64 value ++ replicate (m * 64) value
replicate_64 m value =
    ap (λ k. replicate k value) {x = suc m * 64} {y = 64 + m * 64} (omega arith)
    ∙ sym (replicate-add 64 (m * 64) value)

bits_of-replicate :
    (m : ℕ) (value : Bool) → bits_of (replicate m (filler value)) ≡ replicate (m * 64) value
bits_of-replicate zero value = refl
bits_of-replicate (suc m) value =
    ap₂ ◌++◌ (word_bits-filler value) (bits_of-replicate m value) ∙ sym (replicate_64 m value)

get_or-replicate {ℓ} : {A : Type ℓ} (m i : ℕ) (a d : A) → i < m → get_or (replicate m a) i d ≡ a
get_or-replicate zero i a d h = absurd (omega arith)
get_or-replicate (suc m) zero a d h = refl
get_or-replicate (suc m) (suc i) a d h = get_or-replicate m i a d (omega arith)

split_64 : (r : ℕ) (b : Bool) → r ≤ 64 → replicate 64 b ≡ replicate r b ++ replicate (64 - r) b
split_64 r b h =
    ap (λ k. replicate k b) {x = 64} {y = r + (64 - r)} (omega arith)
    ∙ sym (replicate-add r (64 - r) b)

set-length :
    (xs ys : List Bool) (k : ℕ) (x y : Bool)
    → k ≡ length xs
    → set (xs ++ (x ∷ ys)) k y ≡ xs ++ (y ∷ ys)
set-length [] ys zero x y h = refl
set-length [] ys (suc k) x y h = absurd (omega arith)
set-length (z ∷ xs) ys zero x y h = absurd (omega arith)
set-length (z ∷ xs) ys (suc k) x y h = ap (λ r. z ∷ r) (set-length xs ys k x y (omega arith))

-- The last word of the vector, replaced.
bits_of-set_last :
    (m w : ℕ) (value : Bool)
    → bits_of (set (replicate (suc m) (filler value)) m w)
      ≡ replicate (m * 64) value ++ word_bits 64 w
bits_of-set_last zero w value = append-nil (word_bits 64 w)
bits_of-set_last (suc m) w value =
    ap₂ ◌++◌ (word_bits-filler value) (bits_of-set_last m w value)
    ∙ sym (append_assoc (replicate 64 value) (replicate (m * 64) value) (word_bits 64 w))
    ∙ ap (λ l. l ++ word_bits 64 w) (sym (replicate_64 m value))

module _ ⦃bt : Bittle⦄ where
  -- Clearing every bit from the `k`-th on.
  clear_bits_lem :
      (n k w : ℕ) (xs : List Bool)
      → k ≡ length xs
      → k + n ≡ 64
      → word_bits 64 w ≡ xs ++ replicate n true
      → word_bits 64 (clear_bits w (positions true k (replicate n true))) ≡ xs ++ replicate n false
  unfolding clear_bits
  clear_bits_lem zero k w xs len total e = e
  clear_bits_lem (suc n) k w xs len total e =
      clear_bits_lem n (suc k) (bt.clear_bit_word w k) (xs ++ (false ∷ []))
        (omega (arith, length-append xs (false ∷ []))) (omega arith)
        (bt.clear_bit_word_lem w k (omega arith)
          ∙ ap (λ l. set l k false) e
          ∙ set-length xs (replicate n true) k true false len
          ∙ sym (append_assoc xs (false ∷ []) (replicate n true)))
      ∙ append_assoc xs (false ∷ []) (replicate n false)

  abbrev unused_ones : ℕ → Bool → List ℕ
  unused_ones r value = filter (λ index. leb r index) (bt.iter_ones_word (filler value))

  unused_ones_lem :
      (r : ℕ) → r < 64 → unused_ones r true ≡ positions true r (replicate (64 - r) true)
  unused_ones_lem r h =
      ap (filter (λ index. leb r index))
        (bt.iter_ones_word_lem all_ones ∙ ap (positions true 0) (word_bits-filler true))
      ∙ filter_from true r 0 r (replicate 64 true) (omega arith)
      ∙ ap (λ l. positions true r (drop r l)) (split_64 r true (omega arith))
      ∙ ap (positions true r) (
          drop-append r (replicate r true) (replicate (64 - r) true)
            (sym (length-replicate r true)))

  -- The last word keeps the `r` bits in use.
  last_word :
      (r : ℕ) (value : Bool)
      → r < 64
      → word_bits 64 (clear_bits (filler value) (unused_ones r value))
        ≡ replicate r value ++ replicate (64 - r) false
  last_word r true h =
      ap (λ l. word_bits 64 (clear_bits all_ones l)) (unused_ones_lem r h)
      ∙ clear_bits_lem (64 - r) r all_ones (replicate r true) (sym (length-replicate r true))
          (omega arith) (word_bits-filler true ∙ split_64 r true (omega arith))
  last_word r false h =
      ap (λ l. word_bits 64 (clear_bits 0 (filter (λ index. leb r index) l)))
        (bt.iter_ones_word_lem 0
          ∙ ap (positions true 0) (word_bits-filler false)
          ∙ positions-replicate_ne true 0 64)
      ∙ no_bits
      ∙ split_64 r false (omega arith)
    where
      no_bits : word_bits 64 (clear_bits 0 []) ≡ replicate 64 false
      no_bits = unfold clear_bits in refl

  repeat_full :
      (value : Bool) (n : ℕ) → n % 64 ≡ 0 → bits_of (repeat value n).bits ≡ replicate n value
  unfolding repeat
  repeat_full value n e = rw ((==_iff (n % 64) 0).1 e) (
      bits_of-replicate ((n + 64 - 1) / 64) value
      ∙ ap (λ k. replicate k value) {x = (n + 64 - 1) / 64 * 64} {y = n} (omega arith))

  repeat_partial :
      (value : Bool) (n : ℕ)
      → n % 64 ≢ 0
      → bits_of (repeat value n).bits ≡ replicate n value ++ replicate (64 - n % 64) false
  unfolding repeat
  repeat_partial value n ne =
      rw
        (
          ne→== n ne,
          get_or-replicate ((n + 64 - 1) / 64) ((n + 64 - 1) / 64 - 1) (filler value) 0
              (omega arith),
        )
        (ap₂ (λ m i. bits_of (set (replicate m (filler value)) i last)) {x = (n + 64 - 1) / 64}
            {y = suc (n / 64)} {u = (n + 64 - 1) / 64 - 1} {v = n / 64} (omega arith) (omega arith)
          ∙ bits_of-set_last (n / 64) last value
          ∙ ap (λ l. replicate (n / 64 * 64) value ++ l) (last_word (n % 64) value (omega arith))
          ∙ sym (append_assoc (replicate (n / 64 * 64) value) (replicate (n % 64) value) zeros)
          ∙ ap (λ l. l ++ zeros)
              (replicate-add (n / 64 * 64) (n % 64) value
                ∙ ap (λ k. replicate k value) {x = n / 64 * 64 + n % 64} {y = n} (omega arith)))
    where
      last : ℕ
      last = clear_bits (filler value) (unused_ones (n % 64) value)

      zeros : List Bool
      zeros = replicate (64 - n % 64) false

      ne→== : (k : ℕ) → k % 64 ≢ 0 → (k % 64 == 0) ≡ false
      ne→== k h = ground arith

  length-repeat : (value : Bool) (n : ℕ) → length (repeat value n).bits ≡ (n + 63) / 64
  unfolding repeat
  length-repeat value n = elim (Bool-cases (n % 64 == 0)) [
    | inl e ↦ rw e (length-replicate m (filler value) ∙ omega arith)
    | inr e ↦ rw e (length-set words (m - 1) _ ∙ length-replicate m (filler value) ∙ omega arith)
  ]
    where
      m : ℕ
      m = (n + 64 - 1) / 64

      words : List ℕ
      words = replicate m (filler value)

  repeat_bits :
      (value : Bool) (n : ℕ)
      → bits_of (repeat value n).bits
        ≡ replicate n value ++ replicate (length (repeat value n).bits * 64 - n) false
  repeat_bits value n = elim (ℕ_discrete (n % 64) 0) [
    | yes e ↦
        repeat_full value n e
        ∙ sym (append-nil (replicate n value))
        ∙ ap (λ k. replicate n value ++ replicate k false) {x = 0}
            {y = length (repeat value n).bits * 64 - n} (omega (arith, length-repeat value n))
    | no ne ↦
        repeat_partial value n ne
        ∙ ap (λ k. replicate n value ++ replicate k false) {x = 64 - n % 64}
            {y = length (repeat value n).bits * 64 - n} (omega (arith, length-repeat value n))
  ]

  pub nbits-repeat : (value : Bool) (n : ℕ) → (repeat value n).nbits ≡ n
  unfolding repeat
  nbits-repeat value n = refl

  -- `repeat(value, n)` of fewer than 2^32 - 63 bits is a valid bitmap of that length that stands for `n`
  -- times the value; so the bits of the last word past the end are zero, whatever the value.
  pub repeat_lem :
      (value : Bool) (n : ℕ)
      → n + 63 < 2 ^ 32
      → (view (repeat value n) ≡ replicate n value)
        × (len (repeat value n) ≡ n)
        × IsValid (repeat value n)
  repeat_lem value n fits =
      let v =
        view-IsValid (repeat value n) (replicate n value) sized
          (length-replicate n value ∙ sym (nbits-repeat value n)) padded
          (rw (nbits-repeat value n) fits) in
      (v.0, nbits-repeat value n, v.1)
    where
      sized : length (repeat value n).bits ≡ ((repeat value n).nbits + 63) / 64
      sized = rw (nbits-repeat value n) (length-repeat value n)

      padded : bits_of (repeat value n).bits ≡ replicate n value ++ unused_bits (repeat value n)
      padded = rw (nbits-repeat value n) (repeat_bits value n)
