-- ===== src/Chain/OnRing.antt =====
-- A chain on a ring of blocks.
use mlsdisk.Base.{
  List, Outcome, ap, arith, err, length, ok, panic, refl, subst, sym, ℕ, ◌+◌, ◌<◌, ◌∙◌, ◌≡◌,
}
use mlsdisk.Blocks.{BlockSet, Memory, block_size}
use mlsdisk.Blocks.Store.{IsStore}
use mlsdisk.Crypto.{Aead}
use mlsdisk.Log.{BlockRing, append_ring, read_ring, ring_log, ring_nblocks}
use mlsdisk.Log.Ring.{Appends, IsRing, append_ring_lem}
use mlsdisk.Chain.{FooterBytes}
use mlsdisk.Chain.Appended.{Takes}

module _ {D K : Type 0} (memory : Memory) (aead : Aead K) (fb : FooterBytes) (bs : BlockSet D)
    {bytes : D → List ℕ} {Holds : D → Type 0} (store : IsStore bs bytes Holds) where
  -- A ring with space for one more block keeps the accessible ones.
  pub ring-Takes :
      (r : BlockRing D) (cursor from : ℕ)
      → IsRing bs store r cursor
      → cursor < from + bs.nblocks r.storage
      → (block : List ℕ) → length block ≡ 4096
      → (r' : BlockRing D) × Takes memory aead fb (ring_log bs) r from r' block
  unfolding ring_nblocks block_size
  ring-Takes r cursor from h space block e =
      of_outcome (append_ring bs r block) refl (append_ring_lem bs store r cursor block h e)
    where
      at : ring_nblocks bs r ≡ cursor
      at = rw h.at

      of_outcome :
          (o : Outcome (BlockRing D × ℕ))
          → append_ring bs r block ≡ o
          → Appends bs store r cursor block o
          → (r' : BlockRing D) × Takes memory aead fb (ring_log bs) r from r' block
      of_outcome (ok (r', pos)) done (here, moved, holds, size, reads, keeps) = (
        r',
        record {
          appends = done ∙ ap (λ p. ok (r', p)) (here ∙ sym at);
          reads = subst (λ k. read_ring bs r' k 1 ≡ ok block) (sym at) reads;
          keeps = λ k le lt. keeps k (omega (arith, lt, at)) (omega (arith, le, space));
          grows = rw moved (ap (λ n. n + 1) (sym at));
        },
      )
      of_outcome (err e) done c = absurd c
      of_outcome panic done c = absurd c
