-- ===== src/Chain/Linked.antt =====
-- The blocks of a chain, each linked to the one before, and reading them.
use mlsdisk.Journal.Groups.{bytes_eq_refl}
use mlsdisk.Chain.{
  CryptoChain, Footer, FooterBytes, avail_block_size, follows, open_block, read_chain,
}
use mlsdisk.Journal.{bytes_eq}
use mlsdisk.Log.{BlockLog}
use mlsdisk.Crypto.{Aead}
use mlsdisk.Blocks.Bytes.{slice_ok}
use mlsdisk.Blocks.{Memory, alloc_buf, slice}
use mlsdisk.Base.{
  Bool-cases, Errno, List, Option, Outcome, [], ap, arith, drop, err, get_elem?, inl, inr, leb,
  leb→le, leb→lt, length, le→leb, le→ltb, ltb, ltb→le, ltb→lt, none, ok, panic, refl, some, subst,
  suc, take, true, zero, ℕ, ◌+◌, ◌-◌, ◌<◌, ◌∙◌, ◌∷◌, ◌≡◌, ◌≤◌, ◌⊎◌,
}

module _ {L K : Type 0} (memory : Memory) (aead : Aead K) (fb : FooterBytes)
    (log : BlockLog L) where
  -- At a position of a log is a block with a payload and a MAC that may follow a last MAC.
  pub record BlockAt (l : L) (key : K) (prev : Option (List ℕ)) (pos : ℕ) (p m : List ℕ)
      : Type 0 where
    pub block : List ℕ
    pub footer : Footer
    pub there : log.read l pos 1 ≡ ok block
    pub sized : length block ≡ 4096
    pub footer_there : fb.from_bytes (take 48 (drop avail_block_size block)) ≡ footer
    pub len_le : footer.len ≤ avail_block_size
    pub payload_sized : length p ≡ footer.len
    pub decrypts :
        aead.decrypt
          (take footer.len (drop 0 block))
          key
          footer.this_iv
          footer.pre_mac
          footer.this_mac
        ≡ ok p
    pub mac_there : footer.this_mac ≡ m
    pub linked : follows prev footer.pre_mac ≡ true

  -- Such blocks in a row.
  abbrev pub Chained : L → K → Option (List ℕ) → ℕ → List (List ℕ) → List (List ℕ) → Type 0
  Chained l key prev pos [] [] = Unit {0}
  Chained l key prev pos [] (m ∷ ms) = ⊥
  Chained l key prev pos (p ∷ ps) [] = ⊥
  Chained l key prev pos (p ∷ ps) (m ∷ ms) =
      BlockAt l key prev pos p m × Chained l key (some m) (pos + 1) ps ms

  -- A chain with the payloads of its accessible blocks.
  pub record IsLinked (c : CryptoChain L K) (ps : List (List ℕ)) : Type 0 where
    pub end_lem : c.end ≡ c.start + length ps
    pub chained : Chained c.block_log c.key none c.start ps c.block_macs

  footer_slice :
      (block : List ℕ)
      → length block ≡ 4096
      → slice block avail_block_size (length block) ≡ ok (take 48 (drop avail_block_size block))
  footer_slice block e =
      slice_ok block 4048 (length block) (omega (arith, e)) (omega arith)
      ∙ ap (λ n. ok (take n (drop 4048 block))) {x = length block - 4048} {y = 48}
          (omega (arith, e))

  payload_slice :
      (block : List ℕ) (n : ℕ) → n ≤ length block → slice block 0 n ≡ ok (take n (drop 0 block))
  payload_slice block n h =
      slice_ok block 0 n (omega arith) h
      ∙ ap (λ k. ok (take k (drop 0 block))) {x = n - 0} {y = n} (omega arith)

  -- Such a block is opened.
  pub open_block_lem :
      (l : L) (key : K) (prev : Option (List ℕ)) (pos : ℕ) (p m : List ℕ)
      (b : BlockAt l key prev pos p m)
      → open_block memory aead fb log key b.block ≡ ok (some (b.footer, p))
  unfolding open_block
  open_block_lem l key prev pos p m b =
      rw
        (
          footer_slice b.block b.sized,
          b.footer_there,
          le→ltb b.footer.len avail_block_size b.len_le,
          payload_slice b.block b.footer.len (omega (arith, b.len_le, b.sized)),
          b.decrypts,
        )
        (ap (λ f. ok (some (f, p))) b.footer_there)

  -- The block at an index of a row.
  Chained-at :
      (l : L) (key : K) (prev : Option (List ℕ)) (pos : ℕ) (ps ms : List (List ℕ)) (i : ℕ)
      → Chained l key prev pos ps ms
      → i < length ps
      → (p m : List ℕ) × (prev' : Option (List ℕ)) × (get_elem? ps i ≡ some p)
        × (get_elem? ms i ≡ some m)
        × BlockAt l key prev' (pos + i) p m
  Chained-at l key prev pos [] [] i c h = absurd (omega arith)
  Chained-at l key prev pos [] (m ∷ ms) i c h = absurd c
  Chained-at l key prev pos (p ∷ ps) [] i c h = absurd c
  Chained-at l key prev pos (p ∷ ps) (m ∷ ms) zero (b, c) h = (
    p,
    m,
    prev,
    refl,
    refl,
    subst (λ k. BlockAt l key prev k p m) {x = pos} {y = pos + 0} (omega arith) b,
  )
  Chained-at l key prev pos (p ∷ ps) (m ∷ ms) (suc i) (b, c) h =
      let (p', m', prev', e, f, b') = Chained-at l key (some m) (pos + 1) ps ms i c (omega arith) in
      (
        p',
        m',
        prev',
        e,
        f,
        subst (λ k. BlockAt l key prev' k p' m') {x = pos + 1 + i} {y = pos + suc i} (omega arith)
            b',
      )

  -- What reading a block of a chain gives.
  abbrev pub ReadsChain : CryptoChain L K → List (List ℕ) → ℕ → ℕ → Outcome (List ℕ) → Type 0
  ReadsChain c ps pos buf_len (ok out) =
      (c.start ≤ pos) × (get_elem? ps (pos - c.start) ≡ some out) × (length out ≤ buf_len)
  ReadsChain c ps pos buf_len (err e) =
      (((pos < c.start) ⊎ (c.end ≤ pos)) × (e ≡ Errno.not_found))
      ⊎ ((p : List ℕ) × (get_elem? ps (pos - c.start) ≡ some p)
          × (buf_len < length p)
          × (e ≡ Errno.out_of_disk))
  ReadsChain c ps pos buf_len panic = ⊥

  -- Reading a block of a chain gives its payload if the buffer is large enough, `OutOfDisk` if not,
  -- and `NotFound` exactly at a position that is not accessible.
  pub read_chain_lem :
      (c : CryptoChain L K) (ps : List (List ℕ)) (pos buf_len : ℕ)
      → IsLinked c ps
      → ReadsChain c ps pos buf_len (read_chain memory aead fb log c pos buf_len)
  unfolding read_chain alloc_buf
  read_chain_lem c ps pos buf_len h = elim (Bool-cases (leb c.start pos)) [
    | inr e ↦ rw e (inl (inl (leb→lt c.start pos e), refl))
    | inl e ↦ elim (Bool-cases (ltb pos c.end)) [
      | inr f ↦ rw (e, f) (inl (inr (ltb→le pos c.end f), refl))
      | inl f ↦
          let from = leb→le c.start pos e in
          let inside = ltb→lt pos c.end f in
          let (p, m, prev, p_at, m_at, at) =
            Chained-at c.block_log c.key none c.start ps c.block_macs (pos - c.start) h.chained
              (omega (arith, from, inside, h.end_lem)) in
          let b : BlockAt c.block_log c.key prev pos p m =
            subst (λ k. BlockAt c.block_log c.key prev k p m) {x = c.start + (pos - c.start)}
              {y = pos} (omega (arith, from)) at in
          let mac_ok : bytes_eq b.footer.this_mac m ≡ true =
            ap (λ x. bytes_eq x m) b.mac_there ∙ bytes_eq_refl m in
          elim (Bool-cases (leb b.footer.len buf_len)) [
            | inr g ↦
                rw
                  (
                    e,
                    f,
                    b.there,
                    footer_slice b.block b.sized,
                    b.footer_there,
                    le→leb b.footer.len avail_block_size b.len_le,
                    g,
                  )
                  (inr
                    (p, p_at, omega (arith, leb→lt b.footer.len buf_len g, b.payload_sized), refl))
            | inl g ↦
                rw
                  (
                    e,
                    f,
                    b.there,
                    footer_slice b.block b.sized,
                    b.footer_there,
                    le→leb b.footer.len avail_block_size b.len_le,
                    g,
                    m_at,
                    mac_ok,
                    payload_slice b.block b.footer.len (omega (arith, b.len_le, b.sized)),
                    b.decrypts,
                  )
                  (from, p_at, omega (arith, leb→le b.footer.len buf_len g, b.payload_sized))
          ]
    ]
  ]
