-- ===== src/Bittle.antt =====
-- The bit operations that core/src/util/bitmap.rs calls from the third-party crate bittle
-- (`Bits` and `BitsMut` on `u64` and on `[u64]`), as an interface: the calls, and what their
-- documentation says of them over the bits of the words, the lowest bit of the first word first. An
-- index and a number of bits is a `u32`.
pub mod Words
pub mod Positions
pub mod Sample
use mlsdisk.Base.{
  Bool, List, [], false, get_elem?, if◌then◌else◌, length, same, set, some, suc, true, zero, ℕ, ◌%◌,
  ◌^◌, ◌++◌, ◌/◌, ◌<◌, ◌==◌, ◌∷◌, ◌≡◌,
}

-- The `n` lowest binary digits of a word, the lowest first.
abbrev pub word_bits : ℕ → ℕ → List Bool
word_bits zero w = []
word_bits (suc n) w = (w % 2 == 1) ∷ word_bits n (w / 2)

-- The bits of a vector of `u64`, in the order in which bittle numbers them.
abbrev pub bits_of : List ℕ → List Bool
bits_of [] = []
bits_of (w ∷ ws) = word_bits 64 w ++ bits_of ws

-- The indexes, from `k` on, of the bits that equal `b`, in ascending order.
abbrev pub positions : Bool → ℕ → List Bool → List ℕ
positions b k [] = []
positions b k (x ∷ xs) = let rest = positions b (suc k) xs in if same b x then k ∷ rest else rest

-- How many bits equal `b`.
abbrev pub count : Bool → List Bool → ℕ
count b [] = 0
count b (x ∷ xs) = let rest = count b xs in if same b x then suc rest else rest

pub record Bittle : Type 0 where
  pub test_bit : List ℕ → ℕ → Bool
  pub set_bit : List ℕ → ℕ → List ℕ
  pub clear_bit : List ℕ → ℕ → List ℕ
  pub iter_ones : List ℕ → List ℕ
  pub iter_zeros : List ℕ → List ℕ
  pub count_ones : List ℕ → ℕ
  pub count_zeros : List ℕ → ℕ
  -- on one `u64`
  pub iter_ones_word : ℕ → List ℕ
  pub clear_bit_word : ℕ → ℕ → ℕ
  pub test_bit_lem :
      (ws : List ℕ) (i : ℕ)
      → i < length (bits_of ws)
      → i < 2 ^ 32
      → get_elem? (bits_of ws) i ≡ some (test_bit ws i)
  pub set_bit_lem :
      (ws : List ℕ) (i : ℕ)
      → i < length (bits_of ws)
      → i < 2 ^ 32
      → bits_of (set_bit ws i) ≡ set (bits_of ws) i true
  pub clear_bit_lem :
      (ws : List ℕ) (i : ℕ)
      → i < length (bits_of ws)
      → i < 2 ^ 32
      → bits_of (clear_bit ws i) ≡ set (bits_of ws) i false
  pub length-set_bit : (ws : List ℕ) (i : ℕ) → length (set_bit ws i) ≡ length ws
  pub length-clear_bit : (ws : List ℕ) (i : ℕ) → length (clear_bit ws i) ≡ length ws
  pub iter_ones_lem : (ws : List ℕ) → iter_ones ws ≡ positions true 0 (bits_of ws)
  pub iter_zeros_lem : (ws : List ℕ) → iter_zeros ws ≡ positions false 0 (bits_of ws)
  pub count_ones_lem :
      (ws : List ℕ) → length (bits_of ws) < 2 ^ 32 → count_ones ws ≡ count true (bits_of ws)
  pub count_zeros_lem :
      (ws : List ℕ) → length (bits_of ws) < 2 ^ 32 → count_zeros ws ≡ count false (bits_of ws)
  pub iter_ones_word_lem : (w : ℕ) → iter_ones_word w ≡ positions true 0 (word_bits 64 w)
  pub clear_bit_word_lem :
      (w i : ℕ) → i < 64 → word_bits 64 (clear_bit_word w i) ≡ set (word_bits 64 w) i false
