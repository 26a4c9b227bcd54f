-- ===== src/Bittle/Words.antt =====
-- Laws of the bits of a vector of words: their number, and the words from an index on.
use mlsdisk.Base.{
  Bool, List, [], ap, arith, drop, drop-append, drop-drop, drop-nil, length, length-append, refl,
  suc, sym, zero, ℕ, ◌*◌, ◌++◌, ◌+◌, ◌/◌, ◌∎, ◌∙◌, ◌∷◌, ◌≡◌, ◌≡⟨◌⟩◌,
}
use mlsdisk.Bittle.{bits_of, word_bits}

length-word_bits : (n w : ℕ) → length (word_bits n w) ≡ n
length-word_bits zero w = refl
length-word_bits (suc n) w = ap suc (length-word_bits n (w / 2))

pub length-word_bits_64 : (w : ℕ) → length (word_bits 64 w) ≡ 64
length-word_bits_64 w = length-word_bits 64 w

pub bits_of-cons-length :
    (b : List Bool) (ws : List ℕ)
    → length b ≡ 64
    → length (bits_of ws) ≡ length ws * 64
    → length (b ++ bits_of ws) ≡ suc (length ws) * 64
bits_of-cons-length b ws h ih = omega (arith, length-append b (bits_of ws))

pub length-bits_of : (ws : List ℕ) → length (bits_of ws) ≡ length ws * 64
length-bits_of [] = refl
length-bits_of (w ∷ ws) =
    bits_of-cons-length (word_bits 64 w) ws (length-word_bits_64 w) (length-bits_of ws)

drop-block :
    (b : List Bool) (k : ℕ) (rest : List Bool)
    → length b ≡ 64
    → drop (suc k * 64) (b ++ rest) ≡ drop (k * 64) rest
drop-block b k rest h =
    drop (suc k * 64) (b ++ rest)
    ≡⟨ ap (λ m. drop m (b ++ rest)) {x = suc k * 64} {y = 64 + k * 64} (omega arith) ⟩
      drop (64 + k * 64) (b ++ rest)
    ≡⟨ sym (drop-drop (k * 64) 64 (b ++ rest)) ⟩ drop (k * 64) (drop 64 (b ++ rest))
    ≡⟨ ap (drop (k * 64)) (drop-append 64 b rest (sym h)) ⟩ drop (k * 64) rest ∎

-- The words from the `k`-th on hold the bits from `k * 64` on.
pub bits_of-drop : (k : ℕ) (ws : List ℕ) → bits_of (drop k ws) ≡ drop (k * 64) (bits_of ws)
bits_of-drop zero ws = refl
bits_of-drop (suc k) [] = sym (drop-nil (suc k * 64))
bits_of-drop (suc k) (w ∷ ws) =
    bits_of-drop k ws ∙ sym (drop-block (word_bits 64 w) k (bits_of ws) (length-word_bits_64 w))
