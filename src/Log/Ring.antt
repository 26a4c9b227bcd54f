-- ===== src/Log/Ring.antt =====
-- What a ring of blocks keeps.
use mlsdisk.Log.{BlockRing, append_ring, read_ring, ring_pos}
use mlsdisk.Blocks.Store.{IsStore}
use mlsdisk.Blocks.Bytes.{slice-slice, slice-splice_all}
use mlsdisk.Blocks.{BlockSet, block_size, splice}
use mlsdisk.Base.{
  List, Outcome, [], ap, append_assoc, ap₂, arith, drop, drop-append, drop-append_le, drop-drop,
  err, inl, inr, length, length-append, length-drop, length-take, less_cases, lt→==_swap, lt→leb,
  ok, panic, refl, some, subst, suc, sym, take, zero, ℕ, ◌%◌, ◌*◌, ◌++◌, ◌+◌, ◌-◌, ◌/◌, ◌<◌, ◌^◌,
  ◌∙◌, ◌∷◌, ◌≡◌, ◌≤◌, ◌⊎◌,
}
use native.Mathlib.Nat.{div-add-mod', mod-lt, mul-le-mul_right, suc-mul}

between :
    (k c n p p' r : ℕ) → p + r ≡ k → p' + r ≡ c → k < c → c < k + n → (p' ≤ p) ⊎ (p + n ≤ p') → ⊥
between k c n p p' r e f h l (inl g) = omega arith
between k c n p p' r e f h l (inr g) = omega arith

less_or_not : (b a : ℕ) → (b ≤ a) ⊎ (suc a ≤ b)
less_or_not b a = omega arith

products : (a b n : ℕ) → (b * n ≤ a * n) ⊎ (a * n + n ≤ b * n)
products a b n = elim (less_or_not b a) [
  | inl h ↦ inl (mul-le-mul_right n h)
  | inr h ↦ inr (subst (λ x. x ≤ b * n) (suc-mul a n) (mul-le-mul_right n h))
]

-- Two positions less than a round apart lie on different blocks.
pub mod_apart : (k c n : ℕ) → k < c → c < k + n → ¬ (k % n ≡ c % n)
mod_apart k c n h l e =
    between k c n (k / n * n) (c / n * n) (c % n)
      (ap (λ r. k / n * n + r) (sym e) ∙ div-add-mod' k n) (div-add-mod' c n) h l
      (products (k / n) (c / n) n)

pub take-append_le :
    {A : Type 0} (n : ℕ) (xs ys : List A) → n ≤ length xs → take n (xs ++ ys) ≡ take n xs
take-append_le zero xs ys h = refl
take-append_le (suc n) [] ys h = absurd (omega arith)
take-append_le (suc n) (x ∷ xs) ys h = ap (λ r. x ∷ r) (take-append_le n xs ys (omega arith))

-- Bytes before or behind those that are replaced.
pub splice_before :
    (m : List ℕ) (a b len : ℕ) (src : List ℕ)
    → b + len ≤ a
    → a ≤ length m
    → take len (drop b (splice m a src)) ≡ take len (drop b m)
splice_before m a b len src h k =
    ap (take len) (drop-append_le b (take a m) tail (omega (arith, length-take a m)))
    ∙ take-append_le len (drop b (take a m)) tail
        (omega (arith, length-drop b (take a m), length-take a m))
    ∙ slice-slice m 0 a b len h
    ∙ ap (λ n. take len (drop n m)) {x = 0 + b} {y = b} (omega arith)
  where
    tail : List ℕ
    tail = src ++ drop (a + length src) m

pub splice_behind :
    (m : List ℕ) (a b : ℕ) (src : List ℕ)
    → a + length src ≤ b
    → a + length src ≤ length m
    → drop b (splice m a src) ≡ drop b m
splice_behind m a b src h k =
    ap (λ n. drop n (splice m a src)) {x = b} {y = a + length src + (b - (a + length src))}
      (omega (arith, h))
    ∙ sym (drop-drop (b - (a + length src)) (a + length src) (splice m a src))
    ∙ ap (drop (b - (a + length src))) (
        ap (drop (a + length src)) (sym (append_assoc (take a m) src (drop (a + length src) m)))
        ∙ drop-append (a + length src) (take a m ++ src) (drop (a + length src) m)
            (omega (arith, length-append (take a m) src, length-take a m)))
    ∙ drop-drop (b - (a + length src)) (a + length src) m
    ∙ ap (λ n. drop n m) {x = a + length src + (b - (a + length src))} {y = b} (omega (arith, h))

module _ {D : Type 0} (bs : BlockSet D) {bytes : D → List ℕ} {Holds : D → Type 0}
    (store : IsStore bs bytes Holds) where
  -- A ring on a set of blocks, with its cursor.
  pub record IsRing (r : BlockRing D) (cursor : ℕ) : Type 0 where
    pub holds : Holds r.storage
    pub at : r.cursor ≡ some cursor
    pub some_block : 0 < bs.nblocks r.storage
    pub in_range : cursor + bs.nblocks r.storage + 1 < 2 ^ 64

  -- What the append of a block gives.
  abbrev pub Appends : BlockRing D → ℕ → List ℕ → Outcome (BlockRing D × ℕ) → Type 0
  Appends r cursor buf (ok (r', pos)) =
      (pos ≡ cursor)
      × (r'.cursor ≡ some (cursor + 1))
      × Holds r'.storage
      × (bs.nblocks r'.storage ≡ bs.nblocks r.storage)
      × (read_ring bs r' cursor 1 ≡ ok buf)
      × ((k : ℕ)
          → k < cursor
          → cursor < k + bs.nblocks r.storage
          → read_ring bs r' k 1 ≡ read_ring bs r k 1)
  Appends r cursor buf (err e) = ⊥
  Appends r cursor buf panic = ⊥

  -- Reading one block of a ring.
  read_one :
      (r : BlockRing D) (k : ℕ)
      → Holds r.storage
      → 0 < bs.nblocks r.storage
      → bs.nblocks r.storage + 1 < 2 ^ 64
      → read_ring bs r k 1
        ≡ ok
            (take (1 * block_size) (drop (k % bs.nblocks r.storage * block_size) (bytes r.storage)))
  unfolding read_ring ring_pos
  read_one r k h pos range =
      let less = mod-lt k pos in
      rw (lt→==_swap 0 (bs.nblocks r.storage) pos) (
        store.read_in r.storage (k % bs.nblocks r.storage) 1 h (omega (arith, less, range))
          (omega (arith, less)))

  -- A block at one place does not change one at another.
  apart :
      (m : List ℕ) (n a b : ℕ) (buf : List ℕ)
      → length m ≡ n * block_size
      → a < n
      → ¬ (b ≡ a)
      → length buf ≡ block_size
      → take (1 * block_size) (drop (b * block_size) (splice m (a * block_size) buf))
        ≡ take (1 * block_size) (drop (b * block_size) m)
  unfolding block_size
  apart m n a b buf sized inside other e = elim (less_cases b a) [
    | inl lt ↦
        splice_before m (a * 4096) (b * 4096) (1 * 4096) buf (omega (arith, lt))
          (omega (arith, sized, inside))
    | inr (inl same_place) ↦ absurd (other same_place)
    | inr (inr gt) ↦ ap (take (1 * 4096)) (
        splice_behind m (a * 4096) (b * 4096) buf (omega (arith, gt, e))
          (omega (arith, sized, inside, e)))
  ]

  -- A block that is appended to a ring lies at the cursor, which moves on by one, and is read back
  -- there; the blocks of the last round, but for the one it takes the place of, are read as before.
  pub append_ring_lem :
      (r : BlockRing D) (cursor : ℕ) (buf : List ℕ)
      → IsRing r cursor
      → length buf ≡ block_size
      → Appends r cursor buf (append_ring bs r buf)
  unfolding append_ring ring_pos block_size read_ring
  append_ring_lem r cursor buf h e =
      let n : ℕ = bs.nblocks r.storage in
      let less = mod-lt cursor h.some_block in
      let (d, written, same_bytes, same_size, holds) =
        store.write_in r.storage (cursor % n) 1 buf h.holds (omega (arith, e))
          (omega (arith, less, h.in_range)) (omega (arith, less)) in
      let blocks : length buf / 4096 ≡ 1 = omega (arith, e) in
      let some_block : 0 < bs.nblocks d = omega (arith, same_size, h.some_block) in
      let range : bs.nblocks d + 1 < 2 ^ 64 = omega (arith, same_size, h.in_range) in
      let r' : BlockRing D = record { storage = d; cursor = some (cursor + 1) } in
      rw
        (
          h.at,
          lt→==_swap 0 n h.some_block,
          blocks,
          lt→leb (cursor + 1) (2 ^ 64) (omega (arith, h.in_range)),
          written,
        )
        (
          refl,
          refl,
          holds,
          same_size,
          read_one r' cursor holds some_block range
              ∙ ap₂ (λ k m. ok (take (1 * 4096) (drop (cursor % k * 4096) m))) same_size same_bytes
              ∙ ap ok (
                  slice-splice_all (bytes r.storage) (cursor % n * 4096) (1 * 4096) buf
                    (omega (arith, less, store.size r.storage h.holds)) (omega (arith, e))),
          λ k lt near.
              read_one r' k holds some_block range
              ∙ ap₂ (λ j m. ok (take (1 * 4096) (drop (k % j * 4096) m))) same_size same_bytes
              ∙ ap ok (
                  apart (bytes r.storage) n (cursor % n) (k % n) buf (store.size r.storage h.holds)
                    less (mod_apart k cursor n lt near) e)
              ∙ sym (read_one r k h.holds h.some_block (omega (arith, h.in_range))),
        )
