-- ===== src/Chain/Trimmed.antt =====
-- Trimming a chain.
use mlsdisk.Base.{
  Bool-cases, List, Option, Outcome, [], arith, drop, err, inl, inr, leb, leb→le, leb→lt, length,
  length-drop, le→leb, ltb, ltb→le, ltb→lt, max, none, ok, panic, refl, some, subst, suc, zero, ℕ,
  ◌+◌, ◌-◌, ◌<◌, ◌∷◌, ◌≡◌, ◌≤◌,
}
use mlsdisk.Blocks.{Memory}
use mlsdisk.Crypto.{Aead}
use mlsdisk.Log.{BlockLog}
use mlsdisk.Chain.{CryptoChain, FooterBytes, trim}
use mlsdisk.Chain.Linked.{Chained, IsLinked}

module _ {L K : Type 0} (memory : Memory) (aead : Aead K) (fb : FooterBytes)
    (log : BlockLog L) where
  drop-Chained :
      (l : L) (key : K) (prev : Option (List ℕ)) (pos n : ℕ) (ps ms : List (List ℕ))
      → n ≤ length ps
      → Chained memory aead fb log l key prev pos ps ms
      → (prev' : Option (List ℕ)) × Chained memory aead fb log l key prev'
          (pos + n)
          (drop n ps)
          (drop n ms)
  drop-Chained l key prev pos zero ps ms h c = (
    prev,
    subst (λ k. Chained memory aead fb log l key prev k ps ms) {x = pos} {y = pos + 0} (omega arith)
        c,
  )
  drop-Chained l key prev pos (suc n) [] ms h c = absurd (omega arith)
  drop-Chained l key prev pos (suc n) (p ∷ ps) [] h c = absurd c
  drop-Chained l key prev pos (suc n) (p ∷ ps) (m ∷ ms) h (b, c) =
      let (prev', c') = drop-Chained l key (some m) (pos + 1) n ps ms (omega arith) c in
      (
        prev',
        subst (λ k. Chained memory aead fb log l key prev' k (drop n ps) (drop n ms))
            {x = pos + 1 + n} {y = pos + suc n} (omega arith) c',
      )

  length-Chained :
      (l : L) (key : K) (prev : Option (List ℕ)) (pos : ℕ) (ps ms : List (List ℕ))
      → Chained memory aead fb log l key prev pos ps ms
      → length ms ≡ length ps
  length-Chained l key prev pos [] [] c = refl
  length-Chained l key prev pos [] (m ∷ ms) c = absurd c
  length-Chained l key prev pos (p ∷ ps) [] c = absurd c
  length-Chained l key prev pos (p ∷ ps) (m ∷ ms) (b, c) =
      omega (arith, length-Chained l key (some m) (pos + 1) ps ms c)

  unlinked :
      (l : L) (key : K) (prev : Option (List ℕ)) (pos : ℕ) (ps ms : List (List ℕ))
      → Chained memory aead fb log l key prev pos ps ms
      → Chained memory aead fb log l key none pos ps ms
  unlinked l key prev pos [] [] c = tt
  unlinked l key prev pos [] (m ∷ ms) c = absurd c
  unlinked l key prev pos (p ∷ ps) [] c = absurd c
  unlinked l key prev pos (p ∷ ps) (m ∷ ms) (b, c) = (
    record {
      block = b.block;
      footer = b.footer;
      there = b.there;
      sized = b.sized;
      footer_there = b.footer_there;
      len_le = b.len_le;
      payload_sized = b.payload_sized;
      decrypts = b.decrypts;
      mac_there = b.mac_there;
      linked = refl;
    },
    c,
  )

  -- What a trim gives: from the position on, the payloads are accessible as before.
  abbrev pub Trims : CryptoChain L K → List (List ℕ) → ℕ → Outcome (CryptoChain L K) → Type 0
  Trims c ps before_block (ok c') =
      (before_block < c.end)
      × (c'.end ≡ c.end)
      × (c'.start ≡ max c.start before_block)
      × IsLinked memory aead fb log c' (drop (before_block - c.start) ps)
  Trims c ps before_block (err e) = ⊥
  Trims c ps before_block panic = c.end ≤ before_block

  -- `trim` of a chain panics exactly if no block would be left; otherwise the blocks from the
  -- position on stay accessible, with the same payloads, and those before it are not any more.
  pub trim_lem :
      (c : CryptoChain L K) (ps : List (List ℕ)) (before_block : ℕ)
      → IsLinked memory aead fb log c ps
      → Trims c ps before_block (trim c before_block)
  unfolding trim
  trim_lem c ps before_block h = elim (Bool-cases (ltb before_block c.end)) [
    | inr e ↦ rw e (ltb→le before_block c.end e)
    | inl e ↦ elim (Bool-cases (leb before_block c.start)) [
      | inl f ↦
          rw (e, f)
            (
              ltb→lt before_block c.end e,
              refl,
              omega (arith, leb→le before_block c.start f),
              subst (λ n. IsLinked memory aead fb log c (drop n ps)) {x = 0}
                  {y = before_block - c.start} (omega (arith, leb→le before_block c.start f)) h,
            )
      | inr f ↦
          let n : ℕ = before_block - c.start in
          let inside : n ≤ length ps = omega (arith, ltb→lt before_block c.end e, h.end_lem) in
          let (prev, rest) =
            drop-Chained c.block_log c.key none c.start n ps c.block_macs inside h.chained in
          let place : c.start + n ≡ before_block = omega (arith, leb→lt before_block c.start f) in
          rw
            (
              e,
              f,
              le→leb n (length c.block_macs) (
                  omega (
                    arith,
                    inside,
                    length-Chained c.block_log c.key none c.start ps c.block_macs h.chained,
                  )),
            )
            (
              ltb→lt before_block c.end e,
              refl,
              omega (arith, leb→lt before_block c.start f),
              record {
                end_lem = omega (arith, h.end_lem, place, length-drop n ps, inside);
                chained =
                    subst
                      (λ k.
                        Chained memory aead fb log c.block_log c.key none k (drop n ps)
                          (drop n c.block_macs))
                      place
                      (unlinked c.block_log c.key prev (c.start + n) (drop n ps)
                        (drop n c.block_macs) rest);
              },
            )
    ]
  ]
