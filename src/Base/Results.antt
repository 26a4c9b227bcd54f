-- ===== src/Base/Results.antt =====
-- The outcome of a call: a value, an error (`Errno` of core/src/error.rs, whose messages are left
-- out), or a panic.
use Prim.Native.Nat.{ℕ, ◌+◌, ◌-◌, ◌^◌}
use mathlib.Core.Bool.{Bool, true, false}
use mlsdisk.Base.Tests.{if◌then◌else◌, leb, ltb}
use mathlib.Core.Option.{Option, none, some}
use mathlib.Core.Path.{◌≡◌, refl}
use mathlib.Core.Logic.{◌⊎◌, inl, inr}

-- `enum Errno`
pub data Errno : Type 0 where
  tx_aborted not_found invalid_args out_of_memory out_of_disk io_failed : Errno
  permission_denied unsupported os_spec_unknown encrypt_failed decrypt_failed : Errno
  mac_mismatched not_block_size_aligned try_lock_failed : Errno

pub data Outcome {ℓ} (A : Type ℓ) : Type ℓ where
  ok : A → Outcome A
  err : Errno → Outcome A
  panic : Outcome A

infixl 5 ◌>>=◌ ◌>>◌
abbrev pub ◌>>=◌ {ℓ κ} : {A : Type ℓ} {B : Type κ} → Outcome A → (A → Outcome B) → Outcome B
ok a >>= f = f a
err e >>= f = err e
panic >>= f = panic

abbrev pub ◌>>◌ {ℓ} : {B : Type ℓ} → Outcome (Unit {0}) → Outcome B → Outcome B
m >> k = m >>= λ _. k

-- `assert!`, and `debug_assert!` in a build that keeps it.
abbrev pub assert : Bool → Outcome (Unit {0})
assert true = ok tt
assert false = panic

-- `unwrap` and `expect` of an option.
abbrev pub unwrap {ℓ} : {A : Type ℓ} → Option A → Outcome A
unwrap none = panic
unwrap (some a) = ok a

-- `a - b` on `usize`: an underflow panics.
abbrev pub sub_usize : ℕ → ℕ → Outcome ℕ
sub_usize a b = if ltb a b then panic else ok (a - b)

-- `a + b` on `usize`: an overflow panics.
abbrev pub add_usize : ℕ → ℕ → Outcome ℕ
add_usize a b = if leb (2 ^ 64) (a + b) then panic else ok (a + b)

-- What comes of a call.
pub Outcome-cases :
    {A : Type 0} (o : Outcome A)
    → ((a : A) × (o ≡ ok a)) ⊎ (((e : Errno) × (o ≡ err e)) ⊎ (o ≡ panic))
Outcome-cases (ok a) = inl (a, refl)
Outcome-cases (err e) = inr (inl (e, refl))
Outcome-cases panic = inr (inr refl)
