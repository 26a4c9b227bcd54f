-- ===== src/RawLog/Places.antt =====
-- The blocks of a tail stay where they are when it becomes part of the head.
use mlsdisk.RawLog.{
  RawLogHead, RawLogTail, append_tail, chunk_blocks, chunk_nblocks, free_blocks, head_blocks,
  tail_blocks,
}
use mlsdisk.Base.{
  Bool-cases, List, Option, Outcome, [], ap, arith, err, get_elem?, get_elem?-append_lt, inl, inr,
  last?, leb, length, le→ltb, ltb, ltb→le, ltb→lt, lt→==_swap, ok, panic, refl, some, subst, suc,
  unwrap, zero, ℕ, ◌%◌, ◌*◌, ◌++◌, ◌+◌, ◌-◌, ◌/◌, ◌<◌, ◌>>=◌, ◌^◌, ◌∙◌, ◌∷◌, ◌≡◌, ◌≤◌,
}

last_at : (xs : List ℕ) (x : ℕ) → last? xs ≡ some x → get_elem? xs (length xs - 1) ≡ some x
last_at [] x e = e
last_at (y ∷ []) x e = e
last_at (y ∷ (z ∷ zs)) x e =
    ap (get_elem? (y ∷ (z ∷ zs))) {x = length (y ∷ (z ∷ zs)) - 1} {y = suc (length (z ∷ zs) - 1)}
      (omega arith)
    ∙ last_at (z ∷ zs) x e

get_elem?-append_ge :
    (xs ys : List ℕ) (i : ℕ) → get_elem? (xs ++ ys) (length xs + i) ≡ get_elem? ys i
get_elem?-append_ge [] ys i = ap (get_elem? ys) {x = 0 + i} {y = i} (omega arith)
get_elem?-append_ge (x ∷ xs) ys i =
    ap (get_elem? (x ∷ (xs ++ ys))) {x = length (x ∷ xs) + i} {y = suc (length xs + i)}
      (omega arith)
    ∙ get_elem?-append_ge xs ys i

-- A block in a chunk, and those behind it.
abbrev placed : Option ℕ → ℕ → Outcome (List ℕ) → Outcome (List ℕ)
placed chunk inner rest = unwrap chunk >>= λ c. rest >>= λ r. ok ((c * 1024 + inner) ∷ r)

-- Behind the chunks of the head are those of the tail.
behind :
    (hs ts : List ℕ) (o n : ℕ)
    → chunk_blocks (hs ++ ts) (length hs * 1024 + o) n ≡ chunk_blocks ts o n
unfolding chunk_blocks
behind hs ts o zero = refl
behind hs ts o (suc n) =
    let ih = behind hs ts (o + 1) n in λ i. placed (in_tail i) (same_rest i) ((next ∙ ih) i)
  where
    in_tail : get_elem? (hs ++ ts) ((length hs * 1024 + o) / 1024) ≡ get_elem? ts (o / 1024)
    in_tail =
        ap (get_elem? (hs ++ ts)) {x = (length hs * 1024 + o) / 1024} {y = length hs + o / 1024}
          (omega arith)
        ∙ get_elem?-append_ge hs ts (o / 1024)

    same_rest : (length hs * 1024 + o) % 1024 ≡ o % 1024
    same_rest = omega arith

    next :
        chunk_blocks (hs ++ ts) (length hs * 1024 + o + 1) n
        ≡ chunk_blocks (hs ++ ts) (length hs * 1024 + (o + 1)) n
    next =
        ap (λ k. chunk_blocks (hs ++ ts) k n) {x = length hs * 1024 + o + 1}
          {y = length hs * 1024 + (o + 1)} (omega arith)

-- A tail that goes on behind a head: the free blocks are those of the last chunk of the head.
pub record Continues (h : RawLogHead) (t : RawLogTail) : Type 0 where
  pub within : h.num_blocks ≤ length h.chunks * chunk_nblocks
  pub free_lem : t.head_last_chunk_free_blocks + h.num_blocks ≡ length h.chunks * chunk_nblocks
  pub free_le : t.head_last_chunk_free_blocks < chunk_nblocks
  pub last_lem : 0 < length h.chunks → last? h.chunks ≡ some t.head_last_chunk_id

-- The blocks of some chunks behind blocks that were found.
abbrev then_chunks : List ℕ → Outcome (List ℕ × ℕ) → Outcome (List ℕ)
then_chunks chunks o = o >>= λ r. chunk_blocks chunks 0 r.1 >>= λ rest. ok (r.0 ++ rest)

first_out :
    (chunks : List ℕ) (block : ℕ) (o : Outcome (List ℕ × ℕ))
    → (then_chunks chunks o >>= λ rest. ok (block ∷ rest))
      ≡ then_chunks chunks (o >>= λ r. ok (block ∷ r.0, r.1))
first_out chunks block (err e) = refl
first_out chunks block panic = refl
first_out chunks block (ok (found, left)) = by_rest (chunk_blocks chunks 0 left)
  where
    by_rest :
        (o : Outcome (List ℕ))
        → ((o >>= λ rest. ok (found ++ rest)) >>= λ rest. ok (block ∷ rest))
          ≡ (o >>= λ rest. ok (block ∷ (found ++ rest)))
    by_rest (ok rest) = refl
    by_rest (err e) = refl
    by_rest panic = refl

-- A free block is the one of the head at its place.
in_last :
    (h : RawLogHead) (t : RawLogTail) (c : Continues h t) (i n : ℕ)
    → i < t.head_last_chunk_free_blocks
    → chunk_blocks (h.chunks ++ t.chunks) (h.num_blocks + i) (suc n) ≡ (
        chunk_blocks (h.chunks ++ t.chunks) (h.num_blocks + (i + 1)) n >>= λ rest.
        ok ((t.head_last_chunk_id * 1024 + (1024 - t.head_last_chunk_free_blocks + i)) ∷ rest))
unfolding chunk_blocks
in_last h t c i n lt = λ j. placed (last_chunk j) (inner j) (more j)
  where
    some_chunk : 0 < length h.chunks
    some_chunk = omega (arith, c.free_lem, lt)

    place : (h.num_blocks + i) / 1024 ≡ length h.chunks - 1
    place = omega (arith, c.free_lem, c.free_le, lt, some_chunk)

    last_chunk :
        get_elem? (h.chunks ++ t.chunks) ((h.num_blocks + i) / 1024) ≡ some t.head_last_chunk_id
    last_chunk =
        ap (get_elem? (h.chunks ++ t.chunks)) place
        ∙ get_elem?-append_lt h.chunks t.chunks (length h.chunks - 1) (omega (arith, some_chunk))
        ∙ last_at h.chunks t.head_last_chunk_id (c.last_lem some_chunk)

    inner : (h.num_blocks + i) % 1024 ≡ 1024 - t.head_last_chunk_free_blocks + i
    inner = omega (arith, c.free_lem, c.free_le, lt, some_chunk)

    more :
        chunk_blocks (h.chunks ++ t.chunks) (h.num_blocks + i + 1) n
        ≡ chunk_blocks (h.chunks ++ t.chunks) (h.num_blocks + (i + 1)) n
    more =
        ap (λ k. chunk_blocks (h.chunks ++ t.chunks) k n) {x = h.num_blocks + i + 1}
          {y = h.num_blocks + (i + 1)} (omega arith)

-- One more free block is found, and there are more to be found.
next_free :
    (t : RawLogTail) (i k n : ℕ)
    → t.head_last_chunk_free_blocks < 1024
    → (free_blocks t (i + 1) k (suc n) >>= λ r.
        ok ((t.head_last_chunk_id * 1024 + (1024 - t.head_last_chunk_free_blocks + i)) ∷ r.0, r.1))
      ≡ free_blocks t i (suc k) (suc (suc n))
unfolding free_blocks
next_free t i k n lt =
    rw
      (
        le→ltb t.head_last_chunk_free_blocks 1024 (omega (arith, lt)),
        le→ltb 1 (suc (suc n)) (omega arith),
        lt→==_swap 0 (suc (suc n) - 1) (omega arith),
        left,
      )
      refl
  where
    left : suc (suc n) - 1 ≡ suc n
    left = omega arith

-- Where the free blocks end, the chunks of the tail begin.
bind_id : (o : Outcome (List ℕ)) → o ≡ (o >>= λ rest. ok ([] ++ rest))
bind_id (ok rest) = refl
bind_id (err e) = refl
bind_id panic = refl

at_end :
    (h : RawLogHead) (t : RawLogTail) (c : Continues h t) (i n : ℕ)
    → i + 1 ≡ t.head_last_chunk_free_blocks
    → chunk_blocks (h.chunks ++ t.chunks) (h.num_blocks + (i + 1)) (suc n)
      ≡ then_chunks t.chunks (ok ([], suc n))
at_end h t c i n e =
    ap (λ k. chunk_blocks (h.chunks ++ t.chunks) k (suc n)) {x = h.num_blocks + (i + 1)}
      {y = length h.chunks * 1024 + 0} (omega (arith, c.free_lem, e))
    ∙ behind h.chunks t.chunks 0 (suc n)
    ∙ bind_id (chunk_blocks t.chunks 0 (suc n))

-- The free blocks, one after the other, are blocks of the head, and then come those of the tail.
free_places :
    (h : RawLogHead) (t : RawLogTail) (c : Continues h t) (i k n : ℕ)
    → i + suc k ≡ t.head_last_chunk_free_blocks
    → chunk_blocks (h.chunks ++ t.chunks) (h.num_blocks + i) (suc n)
      ≡ then_chunks t.chunks (free_blocks t i (suc k) (suc n))
unfolding chunk_blocks free_blocks
free_places h t c i k zero e =
    in_last h t c i 0 (omega (arith, e))
    ∙ rw (le→ltb t.head_last_chunk_free_blocks 1024 (omega (arith, c.free_le))) refl
free_places h t c i zero (suc n) e =
    in_last h t c i (suc n) (omega (arith, e))
    ∙ ap
        (λ o. o >>= λ rest.
          ok ((t.head_last_chunk_id * 1024 + (1024 - t.head_last_chunk_free_blocks + i)) ∷ rest))
        (at_end h t c i n e)
    ∙ first_out t.chunks (t.head_last_chunk_id * 1024 + (1024 - t.head_last_chunk_free_blocks + i))
        (ok ([], suc n))
    ∙ ap (then_chunks t.chunks) (next_free t i 0 n c.free_le)
free_places h t c i (suc k) (suc n) e =
    in_last h t c i (suc n) (omega (arith, e))
    ∙ ap
        (λ o. o >>= λ rest.
          ok ((t.head_last_chunk_id * 1024 + (1024 - t.head_last_chunk_free_blocks + i)) ∷ rest))
        (free_places h t c (i + 1) k n (omega (arith, e)))
    ∙ first_out t.chunks (t.head_last_chunk_id * 1024 + (1024 - t.head_last_chunk_free_blocks + i))
        (free_blocks t (i + 1) (suc k) (suc n))
    ∙ ap (then_chunks t.chunks) (next_free t i (suc k) n c.free_le)

abbrev HasChunks : List ℕ → Outcome RawLogHead → Type 0
HasChunks chunks (ok h) = h.chunks ≡ chunks
HasChunks chunks (err e) = Unit {0}
HasChunks chunks panic = Unit {0}

taken_in : (h : RawLogHead) (t : RawLogTail) → HasChunks (h.chunks ++ t.chunks) (append_tail h t)
unfolding append_tail
taken_in h t = elim (Bool-cases (leb (2 ^ 32) (h.num_blocks + t.num_blocks))) [
  | inl e ↦ rw e tt
  | inr e ↦ rw e refl
]

-- A tail that goes on behind a head, whose number of blocks together is in range: the places of its
-- blocks, any number of them from any position on, are those that the head has for them once it has
-- taken the tail in.
pub append_tail-tail_blocks :
    (h h' : RawLogHead) (t : RawLogTail) (offset n : ℕ)
    → Continues h t
    → append_tail h t ≡ ok h'
    → head_blocks h' (h.num_blocks + offset) (suc n) ≡ tail_blocks t offset (suc n)
unfolding tail_blocks
append_tail-tail_blocks h h' t offset n c e =
    ap (λ l. chunk_blocks l (h.num_blocks + offset) (suc n))
      (subst (HasChunks (h.chunks ++ t.chunks)) e (taken_in h t))
    ∙ elim (Bool-cases (ltb offset t.head_last_chunk_free_blocks)) [
      | inl lt ↦ rw lt (
          free_places h t c offset (t.head_last_chunk_free_blocks - offset - 1) n
            (omega (arith, ltb→lt offset t.head_last_chunk_free_blocks lt))
          ∙ ap (λ k. then_chunks t.chunks (free_blocks t offset k (suc n)))
              {x = suc (t.head_last_chunk_free_blocks - offset - 1)}
              {y = t.head_last_chunk_free_blocks - offset}
              (omega (arith, ltb→lt offset t.head_last_chunk_free_blocks lt)))
      | inr ge ↦ rw ge (
          ap (λ k. chunk_blocks (h.chunks ++ t.chunks) k (suc n)) {x = h.num_blocks + offset}
            {y = length h.chunks * 1024 + (offset - t.head_last_chunk_free_blocks)}
            (omega (arith, c.free_lem, ltb→le offset t.head_last_chunk_free_blocks ge))
          ∙ behind h.chunks t.chunks (offset - t.head_last_chunk_free_blocks) (suc n))
    ]
