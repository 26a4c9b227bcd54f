-- ===== src/Chain/Recovered.antt =====
-- The recovery of a chain from its first accessible block on.
use mlsdisk.Chain.Linked.{BlockAt, Chained, IsLinked, open_block_lem}
use mlsdisk.Chain.{
  CryptoChain, FooterBytes, Recovery, new_recovery, next_block, open_recovery, recover_blocks,
}
use mlsdisk.Log.{BlockLog}
use mlsdisk.Crypto.{Aead}
use mlsdisk.Blocks.{Memory}
use mlsdisk.Base.{
  List, [], ap, append-nil, append_assoc, ap₂, arith, last?, length, lt→leb, none, ok, refl, some,
  subst, suc, sym, zero, ℕ, ◌++◌, ◌+◌, ◌<◌, ◌^◌, ◌∙◌, ◌∷◌, ◌≡◌,
}

pub last-append : {A : Type 0} (xs : List A) (x : A) → last? (xs ++ (x ∷ [])) ≡ some x
last-append [] x = refl
last-append (y ∷ []) x = refl
last-append (y ∷ (z ∷ zs)) x = last-append (z ∷ zs) x

module _ {L K : Type 0} (memory : Memory) (aead : Aead K) (fb : FooterBytes)
    (log : BlockLog L) where
  -- A recovery that has gone over some more blocks.
  abbrev pub advance : Recovery L K → ℕ → List (List ℕ) → Recovery L K
  advance r end ms = record r { end = end; block_macs = r.block_macs ++ ms }

  -- The next block of a row is found.
  next_found :
      (r : Recovery L K) (p m : List ℕ)
      → BlockAt memory aead fb log r.block_log r.key (last? r.block_macs) r.end p m
      → r.end + 1 < 2 ^ 64
      → next_block memory aead fb log r ≡ ok (some (advance r (r.end + 1) (m ∷ []), p))
  unfolding next_block
  next_found r p m b range =
      rw
        (
          b.there,
          open_block_lem memory aead fb log r.block_log r.key (last? r.block_macs) r.end p m b,
          b.linked,
          lt→leb (r.end + 1) (2 ^ 64) range,
        )
        (ap (λ x. ok (some (advance r (r.end + 1) (x ∷ []), p))) b.mac_there)

  -- A recovery on a row of blocks, behind which there is no further one, ends with enough fuel: it
  -- gives the payloads of all the blocks in order, and knows their MACs.
  pub recover_blocks_lem :
      (fuel : ℕ) (r : Recovery L K) (ps ms : List (List ℕ))
      → Chained memory aead fb log r.block_log r.key (last? r.block_macs) r.end ps ms
      → next_block memory aead fb log (advance r (r.end + length ps) ms) ≡ ok none
      → r.end + length ps < 2 ^ 64
      → length ps < fuel
      → recover_blocks memory aead fb log fuel r ≡ ok (advance r (r.end + length ps) ms, ps)
  unfolding recover_blocks
  recover_blocks_lem zero r ps ms c stop range enough = absurd (omega arith)
  recover_blocks_lem (suc fuel) r [] [] c stop range enough =
      rw (ap (next_block memory aead fb log) same_end ∙ stop) (ap (λ x. ok (x, [])) same_end)
    where
      zero_more : r.end ≡ r.end + 0
      zero_more = omega arith

      same_end : r ≡ advance r (r.end + 0) []
      same_end =
          ap₂ (λ n ms. record r { end = n; block_macs = ms }) zero_more
            (sym (append-nil r.block_macs))
  recover_blocks_lem (suc fuel) r [] (m ∷ ms) c stop range enough = absurd c
  recover_blocks_lem (suc fuel) r (p ∷ ps) [] c stop range enough = absurd c
  recover_blocks_lem (suc fuel) r (p ∷ ps) (m ∷ ms) (b, c) stop range enough =
      let r' : Recovery L K = advance r (r.end + 1) (m ∷ []) in
      let one_more : r.end + 1 + length ps ≡ r.end + length (p ∷ ps) = omega arith in
      let same_rest : advance r' (r.end + 1 + length ps) ms
          ≡ advance r (r.end + length (p ∷ ps)) (m ∷ ms) =
        ap₂ (λ n l. record r { end = n; block_macs = l }) one_more
          (append_assoc r.block_macs (m ∷ []) ms) in
      rw
        (
          next_found r p m b (omega (arith, range)),
          recover_blocks_lem fuel r' ps ms
              (subst (λ o. Chained memory aead fb log r.block_log r.key o (r.end + 1) ps ms)
                (sym (last-append r.block_macs m)) c)
              (ap (next_block memory aead fb log) same_rest ∙ stop) (omega (arith, range))
              (omega (arith, enough)),
        )
        (ap (λ x. ok (x, p ∷ ps)) same_rest)

  -- What a recovery must find behind the last block of a chain: no block that follows it.
  abbrev pub Ends : CryptoChain L K → Type 0
  Ends c =
      next_block memory aead fb log (record {
        block_log = c.block_log;
        key = c.key;
        start = c.start;
        end = c.end;
        block_macs = c.block_macs;
      })
      ≡ ok none

  -- A chain with no further valid block behind its end, and more fuel than it has blocks: a
  -- recovery from its first accessible block on gives the payloads of all accessible blocks,
  -- and what it opens is that very chain.
  pub recover-open :
      (c : CryptoChain L K) (ps : List (List ℕ)) (fuel : ℕ)
      → IsLinked memory aead fb log c ps
      → Ends c
      → c.end < 2 ^ 64
      → length ps < fuel
      → (r : Recovery L K) × (recover_blocks memory aead fb log fuel
            (new_recovery c.block_log c.key c.start)
          ≡ ok (r, ps))
        × (open_recovery r ≡ c)
  recover-open c ps fuel h ends range enough =
      let r : Recovery L K = new_recovery c.block_log c.key c.start in
      let same_end : c.start + length ps ≡ c.end = sym h.end_lem in
      (
        advance r (c.start + length ps) c.block_macs,
        recover_blocks_lem fuel r ps c.block_macs h.chained
            (ap (λ n. next_block memory aead fb log (advance r n c.block_macs)) same_end ∙ ends)
            (omega (arith, same_end, range)) enough,
        ap (λ n. record c { end = n }) same_end,
      )
