-- ===== src/Chain/Appended.antt =====
-- Appending to a chain.
use mlsdisk.Chain.Linked.{BlockAt, Chained, IsLinked}
use mlsdisk.Chain.{
  CryptoChain, Footer, FooterBytes, IsFooter, append_chain, avail_block_size, follows, last_mac,
}
use mlsdisk.Journal.Groups.{bytes_eq_refl}
use mlsdisk.Log.Ring.{splice_before}
use mlsdisk.Log.{BlockLog}
use mlsdisk.Crypto.{Aead, mac_size}
use mlsdisk.Blocks.Bytes.{copy_ok, length-splice, slice-splice_all}
use mlsdisk.Blocks.{Memory, alloc_buf, block_size, splice}
use mlsdisk.Base.{
  List, Option, [], ap, arith, length, length-append, le→ltb, lt→leb, none, ok, refl, some, subst,
  sym, true, ℕ, ◌++◌, ◌+◌, ◌<◌, ◌^◌, ◌∙◌, ◌∷◌, ◌≡◌, ◌≤◌,
}

module _ {L K : Type 0} (memory : Memory) (aead : Aead K) (fb : FooterBytes)
    (log : BlockLog L) where
  -- The MAC before the block behind a row.
  abbrev before : Option (List ℕ) → List (List ℕ) → Option (List ℕ)
  before prev [] = prev
  before prev (m ∷ ms) = before (some m) ms

  follows_last :
      (x : List ℕ) (ms : List (List ℕ)) → follows (before (some x) ms) (last_mac (x ∷ ms)) ≡ true
  follows_last x [] = bytes_eq_refl x
  follows_last x (y ∷ ms) = follows_last y ms

  last_mac-append : (ms : List (List ℕ)) (m : List ℕ) → last_mac (ms ++ (m ∷ [])) ≡ m
  last_mac-append [] m = refl
  last_mac-append (x ∷ []) m = refl
  last_mac-append (x ∷ (y ∷ ms)) m = last_mac-append (y ∷ ms) m

  follows-last_mac : (ms : List (List ℕ)) → follows (before none ms) (last_mac ms) ≡ true
  follows-last_mac [] = refl
  follows-last_mac (x ∷ ms) = follows_last x ms

  Chained-append :
      (l : L) (key : K) (prev : Option (List ℕ)) (pos : ℕ) (ps ms : List (List ℕ)) (p m : List ℕ)
      → Chained memory aead fb log l key prev pos ps ms
      → BlockAt memory aead fb log l key (before prev ms) (pos + length ps) p m
      → Chained memory aead fb log l key prev pos (ps ++ (p ∷ [])) (ms ++ (m ∷ []))
  Chained-append l key prev pos [] [] p m c b = (
    subst (λ n. BlockAt memory aead fb log l key prev n p m) {x = pos + 0} {y = pos} (omega arith)
        b,
    tt,
  )
  Chained-append l key prev pos [] (y ∷ ms) p m c b = absurd c
  Chained-append l key prev pos (x ∷ ps) [] p m c b = absurd c
  Chained-append l key prev pos (x ∷ ps) (y ∷ ms) p m (b0, c) b = (
    b0,
    Chained-append l key (some y) (pos + 1) ps ms p m c (
        subst (λ n. BlockAt memory aead fb log l key (before (some y) ms) n p m)
          {x = pos + length (x ∷ ps)} {y = pos + 1 + length ps} (omega arith) b),
  )

  -- A log in which the blocks of a row are read as before has the same row.
  Chained-same :
      (l l' : L) (key : K) (prev : Option (List ℕ)) (pos : ℕ) (ps ms : List (List ℕ))
      → ((k : ℕ) → pos ≤ k → k < pos + length ps → log.read l' k 1 ≡ log.read l k 1)
      → Chained memory aead fb log l key prev pos ps ms
      → Chained memory aead fb log l' key prev pos ps ms
  Chained-same l l' key prev pos [] [] same_blocks c = tt
  Chained-same l l' key prev pos [] (y ∷ ms) same_blocks c = absurd c
  Chained-same l l' key prev pos (x ∷ ps) [] same_blocks c = absurd c
  Chained-same l l' key prev pos (x ∷ ps) (y ∷ ms) same_blocks (b, c) = (
    record {
      block = b.block;
      footer = b.footer;
      there = same_blocks pos (omega arith) (omega arith) ∙ b.there;
      sized = b.sized;
      footer_there = b.footer_there;
      len_le = b.len_le;
      payload_sized = b.payload_sized;
      decrypts = b.decrypts;
      mac_there = b.mac_there;
      linked = b.linked;
    },
    Chained-same l l' key (some y) (pos + 1) ps ms
        (λ k from to. same_blocks k (omega (arith, from)) (omega (arith, to))) c,
  )

  -- A log that takes one more block at its end, and keeps those of a range.
  pub record Takes (l : L) (from : ℕ) (l' : L) (block : List ℕ) : Type 0 where
    pub appends : log.append l block ≡ ok (l', log.nblocks l)
    pub reads : log.read l' (log.nblocks l) 1 ≡ ok block
    pub keeps : (k : ℕ) → from ≤ k → k < log.nblocks l → log.read l' k 1 ≡ log.read l k 1
    pub grows : log.nblocks l' ≡ log.nblocks l + 1

  -- The block that an append writes.
  module _ (key : K) (iv pre_mac p out mac : List ℕ) (fits : length p ≤ avail_block_size)
      (vector : length iv ≡ 12) (previous : length pre_mac ≡ mac_size)
      (encrypted : aead.encrypt p key iv pre_mac ≡ ok (out, mac)) where
    pub new_footer : Footer
    new_footer = record { len = length p; pre_mac = pre_mac; this_mac = mac; this_iv = iv }

    pub filled : List ℕ
    filled = splice (memory.pages 1) 0 out

    pub new_block : List ℕ
    new_block = splice filled avail_block_size (fb.to_bytes new_footer)

    out_sized : length out ≡ length p
    out_sized = (aead.length-encrypt p key iv pre_mac out mac encrypted).0

    new_footer-IsFooter : IsFooter new_footer
    unfolding new_footer
    new_footer-IsFooter = (
      omega (arith, fits),
      previous,
      (aead.length-encrypt p key iv pre_mac out mac encrypted).1,
      vector,
    )

    filled_sized : length filled ≡ 4096
    unfolding filled block_size
    filled_sized = omega (
      arith,
      length-splice (memory.pages 1) 0 out (omega (arith, out_sized, fits, memory.length-pages 1)),
      memory.length-pages 1,
    )

    footer_sized : length (fb.to_bytes new_footer) ≡ 48
    footer_sized = fb.length-to_bytes new_footer new_footer-IsFooter

    new_block_sized : length new_block ≡ 4096
    unfolding new_block
    new_block_sized = omega (
      arith,
      length-splice filled 4048 (fb.to_bytes new_footer)
          (omega (arith, filled_sized, footer_sized)),
      filled_sized,
    )

    -- It holds the payload behind the last MAC.
    pub new_block_at :
        (l : L) (prev : Option (List ℕ)) (pos : ℕ)
        → log.read l pos 1 ≡ ok new_block
        → follows prev pre_mac ≡ true
        → BlockAt memory aead fb log l key prev pos p mac
    unfolding new_block filled new_footer block_size
    new_block_at l prev pos reads linked = record {
      block = new_block;
      footer = new_footer;
      there = reads;
      sized = new_block_sized;
      footer_there =
          ap fb.from_bytes (
            slice-splice_all filled 4048 48 (fb.to_bytes new_footer) (omega (arith, filled_sized))
              (sym footer_sized))
          ∙ fb.from-to_bytes new_footer new_footer-IsFooter;
      len_le = fits;
      payload_sized = refl;
      decrypts =
          ap (λ b. aead.decrypt b key iv pre_mac mac)
            (splice_before filled 4048 0 (length p) (fb.to_bytes new_footer) (omega (arith, fits))
                (omega (arith, filled_sized))
              ∙ slice-splice_all (memory.pages 1) 0 (length p) out (omega arith) (sym out_sized))
          ∙ aead.decrypt-encrypt p key iv pre_mac out mac encrypted;
      mac_there = refl;
      linked = linked;
    }

  -- A payload that fits into a block is appended, with a vector of twelve bytes, to a chain
  -- whose last MAC has its size, and which ends where its log does and not at the last
  -- position there is. Where the encryption succeeds, and the log takes one more block at its
  -- end and keeps the accessible ones, the call returns: the payload is that of the last
  -- block, and the blocks before are as they were, each linked to the one before.
  pub append_chain_lem :
      (c : CryptoChain L K) (ps : List (List ℕ)) (iv p out mac : List ℕ)
      → IsLinked memory aead fb log c ps
      → log.nblocks c.block_log ≡ c.end
      → c.end + 1 < 2 ^ 64
      → length (last_mac c.block_macs) ≡ mac_size
      → length p ≤ avail_block_size
      → length iv ≡ 12
      → aead.encrypt p c.key iv (last_mac c.block_macs) ≡ ok (out, mac)
      → ((block : List ℕ) → length block ≡ 4096 → (l' : L) × Takes c.block_log c.start l' block)
      → (c' : CryptoChain L K) × (append_chain memory aead fb log c iv p ≡ ok c')
        × IsLinked memory aead fb log c' (ps ++ (p ∷ []))
        × (c'.start ≡ c.start)
        × (log.nblocks c'.block_log ≡ c'.end)
        × (length (last_mac c'.block_macs) ≡ mac_size)
  unfolding append_chain new_block filled new_footer block_size alloc_buf
  append_chain_lem c ps iv p out mac h at_end range previous fits vector encrypted takes =
      let pre_mac : List ℕ = last_mac c.block_macs in
      let block : List ℕ = new_block c.key iv pre_mac p out mac fits vector previous encrypted in
      let out_size = out_sized c.key iv pre_mac p out mac fits vector previous encrypted in
      let size = filled_sized c.key iv pre_mac p out mac fits vector previous encrypted in
      let foot = footer_sized c.key iv pre_mac p out mac fits vector previous encrypted in
      let (l', t) =
        takes block (new_block_sized c.key iv pre_mac p out mac fits vector previous encrypted) in
      let place : log.nblocks c.block_log ≡ c.start + length ps = at_end ∙ h.end_lem in
      (
        record c { block_log = l'; end = c.end + 1; block_macs = c.block_macs ++ (mac ∷ []) },
        rw (
          le→ltb (length p) avail_block_size fits,
          encrypted,
          copy_ok (memory.pages 1) 0 (length p) out (omega (arith, out_size))
              (omega (arith, fits, memory.length-pages 1)),
          copy_ok (splice (memory.pages 1) 0 out) 4048 (length (splice (memory.pages 1) 0 out))
              (fb.to_bytes
                (record { len = length p; pre_mac = pre_mac; this_mac = mac; this_iv = iv }))
              (omega (arith, size, foot)) (omega arith),
          t.appends,
          lt→leb (c.end + 1) (2 ^ 64) range,
        ),
        record {
          end_lem = omega (arith, h.end_lem, length-append ps (p ∷ []));
          chained =
              Chained-append l' c.key none c.start ps c.block_macs p mac
                (Chained-same c.block_log l' c.key none c.start ps c.block_macs
                  (λ k from to. t.keeps k from (omega (arith, to, place))) h.chained)
                (new_block_at c.key iv pre_mac p out mac fits vector previous encrypted l'
                  (before none c.block_macs) (c.start + length ps)
                  (subst (λ n. log.read l' n 1 ≡ ok block) place t.reads)
                  (follows-last_mac c.block_macs));
        },
        refl,
        t.grows ∙ ap (λ n. n + 1) at_end,
        ap length (last_mac-append c.block_macs mac)
            ∙ (aead.length-encrypt p c.key iv pre_mac out mac encrypted).1,
      )
