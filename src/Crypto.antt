-- ===== src/Crypto.antt =====
-- Authenticated encryption, core/src/util/crypto.rs, as an interface. A key is of any type; the
-- initialization vector, the associated data and the MAC are lists of bytes.
use mlsdisk.Base.{List, Outcome, length, ok, ℕ, ◌≡◌}

-- The size of a MAC in bytes.
abbrev pub mac_size : ℕ
mac_size = 16

-- `trait Aead`: what was encrypted is decrypted with the same key, vector, data and MAC.
pub record Aead (K : Type 0) : Type 0 where
  pub encrypt : List ℕ → K → List ℕ → List ℕ → Outcome (List ℕ × List ℕ)
  pub decrypt : List ℕ → K → List ℕ → List ℕ → List ℕ → Outcome (List ℕ)
  pub decrypt-encrypt :
      (input : List ℕ) (key : K) (iv aad output mac : List ℕ)
      → encrypt input key iv aad ≡ ok (output, mac)
      → decrypt output key iv aad mac ≡ ok input
  pub length-encrypt :
      (input : List ℕ) (key : K) (iv aad output mac : List ℕ)
      → encrypt input key iv aad ≡ ok (output, mac)
      → (length output ≡ length input) × (length mac ≡ mac_size)
