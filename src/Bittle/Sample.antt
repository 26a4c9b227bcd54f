-- ===== src/Bittle/Sample.antt =====
-- Concrete bit operations that meet the interface: the bits are unpacked into a list, changed
-- there and packed again.
use mlsdisk.Base.{
  Bool, List, [], ap, append-nil, ap₂, arith, drop, false, get_elem?, get_or, if◌then◌else◌, length,
  length-drop, length-set, refl, set, some, suc, sym, take, take-append, take-append-drop, true,
  zero, ℕ, ◌%◌, ◌*◌, ◌++◌, ◌+◌, ◌/◌, ◌<◌, ◌==◌, ◌∙◌, ◌∷◌, ◌≡◌, ◌≤◌,
}
use mlsdisk.Bittle.{Bittle, bits_of, count, positions, word_bits}
use mlsdisk.Bittle.Words.{length-bits_of, length-word_bits_64}

-- The word whose `n` lowest digits are the first `n` elements.
from_bits : ℕ → List Bool → ℕ
from_bits zero bs = 0
from_bits (suc n) [] = 0
from_bits (suc n) (b ∷ bs) = (if b then 1 else 0) + 2 * from_bits n bs

to_words : ℕ → List Bool → List ℕ
to_words zero bs = []
to_words (suc n) bs = from_bits 64 bs ∷ to_words n (drop 64 bs)

digit : (b : Bool) (w : ℕ) → (((if b then 1 else 0) + 2 * w) % 2 == 1) ≡ b
digit true w = ground arith
digit false w = ground arith

halved : (b : Bool) (w : ℕ) → ((if b then 1 else 0) + 2 * w) / 2 ≡ w
halved true w = omega arith
halved false w = omega arith

word_bits-from_bits :
    (n : ℕ) (bs : List Bool) → n ≤ length bs → word_bits n (from_bits n bs) ≡ take n bs
unfolding from_bits
word_bits-from_bits zero bs h = refl
word_bits-from_bits (suc n) [] h = absurd (omega arith)
word_bits-from_bits (suc n) (b ∷ bs) h =
    ap₂ ◌∷◌ (digit b (from_bits n bs))
      (ap (word_bits n) (halved b (from_bits n bs)) ∙ word_bits-from_bits n bs (omega arith))

bits_of-to_words : (n : ℕ) (bs : List Bool) → length bs ≡ n * 64 → bits_of (to_words n bs) ≡ bs
unfolding to_words
bits_of-to_words zero [] h = refl
bits_of-to_words zero (b ∷ bs) h = absurd (omega arith)
bits_of-to_words (suc n) bs h =
    ap₂ ◌++◌ (word_bits-from_bits 64 bs (omega arith))
      (bits_of-to_words n (drop 64 bs) (omega (arith, length-drop 64 bs)))
    ∙ take-append-drop 64 bs

length-to_words : (n : ℕ) (bs : List Bool) → length (to_words n bs) ≡ n
unfolding to_words
length-to_words zero bs = refl
length-to_words (suc n) bs = ap suc (length-to_words n (drop 64 bs))

pub put : List ℕ → ℕ → Bool → List ℕ
put ws i b = to_words (length ws) (set (bits_of ws) i b)

pub put_lem : (ws : List ℕ) (i : ℕ) (b : Bool) → bits_of (put ws i b) ≡ set (bits_of ws) i b
unfolding put
put_lem ws i b =
    bits_of-to_words (length ws) (set (bits_of ws) i b)
      (omega (arith, length-set (bits_of ws) i b, length-bits_of ws))

pub length-put : (ws : List ℕ) (i : ℕ) (b : Bool) → length (put ws i b) ≡ length ws
unfolding put
length-put ws i b = length-to_words (length ws) (set (bits_of ws) i b)

pub get_elem?-eq-get_or :
    (xs : List Bool) (i : ℕ) → i < length xs → get_elem? xs i ≡ some (get_or xs i false)
get_elem?-eq-get_or [] i h = absurd (omega arith)
get_elem?-eq-get_or (x ∷ xs) zero h = refl
get_elem?-eq-get_or (x ∷ xs) (suc i) h = get_elem?-eq-get_or xs i (omega arith)

pub clear_word : ℕ → ℕ → ℕ
clear_word w i = from_bits 64 (set (word_bits 64 w) i false)

pub clear_word_lem : (w i : ℕ) → word_bits 64 (clear_word w i) ≡ set (word_bits 64 w) i false
unfolding clear_word
clear_word_lem w i =
    word_bits-from_bits 64 (set (word_bits 64 w) i false)
      (omega (arith, length-set (word_bits 64 w) i false, length-word_bits_64 w))
    ∙ take_all 64 (set (word_bits 64 w) i false)
        (omega (arith, length-set (word_bits 64 w) i false, length-word_bits_64 w))
  where
    take_all : (n : ℕ) (bs : List Bool) → length bs ≡ n → take n bs ≡ bs
    take_all n bs h = ap (take n) (sym (append-nil bs)) ∙ take-append n bs [] (sym h)

instance unfoldable pub sample_bittle : Bittle
unfolding put to_words from_bits clear_word
sample_bittle = record {
  test_bit = λ ws i. get_or (bits_of ws) i false;
  set_bit = λ ws i. put ws i true;
  clear_bit = λ ws i. put ws i false;
  iter_ones = λ ws. positions true 0 (bits_of ws);
  iter_zeros = λ ws. positions false 0 (bits_of ws);
  count_ones = λ ws. count true (bits_of ws);
  count_zeros = λ ws. count false (bits_of ws);
  iter_ones_word = λ w. positions true 0 (word_bits 64 w);
  clear_bit_word = clear_word;
  test_bit_lem = λ ws i h lt. get_elem?-eq-get_or (bits_of ws) i h;
  set_bit_lem = λ ws i h lt. put_lem ws i true;
  clear_bit_lem = λ ws i h lt. put_lem ws i false;
  length-set_bit = λ ws i. length-put ws i true;
  length-clear_bit = λ ws i. length-put ws i false;
  iter_ones_lem = λ ws. refl;
  iter_zeros_lem = λ ws. refl;
  count_ones_lem = λ ws h. refl;
  count_zeros_lem = λ ws h. refl;
  iter_ones_word_lem = λ w. refl;
  clear_bit_word_lem = λ w i h. clear_word_lem w i;
}
