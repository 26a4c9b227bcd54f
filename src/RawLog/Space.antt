-- ===== src/RawLog/Space.antt =====
-- The tail of a log that is opened, and the chunks that an append needs.
use mlsdisk.Base.{
  Bool-cases, List, Outcome, [], arith, err, inl, inr, last?, length, le→ltb, ltb, ltb→le, ltb→lt,
  none, ok, panic, refl, some, ℕ, ◌*◌, ◌+◌, ◌-◌, ◌<◌, ◌∷◌, ◌≡◌, ◌≤◌, ◌⊎◌,
}
use mlsdisk.RawLog.{RawLogHead, RawLogTail, chunk_nblocks, from_head, needed_chunks}
use mlsdisk.RawLog.Places.{Continues}

-- What a head whose last chunk is not empty gives.
abbrev pub GoesOn : RawLogHead → Outcome RawLogTail → Type 0
GoesOn h (ok t) = Continues h t × (t.chunks ≡ []) × (t.num_blocks ≡ 0)
GoesOn h (err e) = ⊥
GoesOn h panic = ⊥

last_of :
    (xs : List ℕ) → 0 < length xs → last? xs ≡ some (elim (last? xs) [ none ↦ 0 | some id ↦ id ])
last_of [] h = absurd (omega arith)
last_of (x ∷ []) h = refl
last_of (x ∷ (y ∷ ys)) h = last_of (y ∷ ys) (omega arith)

-- A log is opened to append behind a head whose blocks fill its chunks but for less than one: its
-- new tail is empty and goes on behind the head.
pub from_head_lem :
    (h : RawLogHead)
    → h.num_blocks ≤ length h.chunks * chunk_nblocks
    → length h.chunks * chunk_nblocks < h.num_blocks + chunk_nblocks
    → GoesOn h (from_head h)
unfolding from_head
from_head_lem h within small = rw (le→ltb h.num_blocks (length h.chunks * 1024) within) (
  record {
    within = within;
    free_lem = omega (arith, within, small);
    free_le = omega (arith, within, small);
    last_lem = last_of h.chunks;
  },
  refl,
  refl,
)

-- What is needed: so many chunks give space for the blocks, and one less does not.
abbrev pub Needs : RawLogTail → ℕ → Outcome ℕ → Type 0
Needs t n (ok k) =
    (t.num_blocks + n ≤ t.head_last_chunk_free_blocks + (length t.chunks + k) * chunk_nblocks)
    × ((k ≡ 0)
        ⊎ (t.head_last_chunk_free_blocks + (length t.chunks + k) * chunk_nblocks
            < t.num_blocks + n + chunk_nblocks))
Needs t n (err e) = ⊥
Needs t n panic = t.head_last_chunk_free_blocks + length t.chunks * chunk_nblocks < t.num_blocks

-- `calc_needed_chunks` gives the least number of chunks with which a tail has space for so many more
-- blocks; it panics exactly if the tail has more blocks than space.
pub needed_chunks_lem : (t : RawLogTail) (n : ℕ) → Needs t n (needed_chunks t n)
unfolding needed_chunks
needed_chunks_lem t n = elim (Bool-cases (ltb space t.num_blocks)) [
  | inl e ↦ rw e (ltb→lt space t.num_blocks e)
  | inr e ↦ elim (Bool-cases (ltb (space - t.num_blocks) n)) [
    | inr f ↦
        rw (e, f)
          (omega (arith, ltb→le space t.num_blocks e, ltb→le (space - t.num_blocks) n f), inl refl)
    | inl f ↦
        rw (e, f)
          (
            omega (arith, ltb→le space t.num_blocks e, ltb→lt (space - t.num_blocks) n f),
            inr (omega (arith, ltb→le space t.num_blocks e, ltb→lt (space - t.num_blocks) n f)),
          )
  ]
]
  where
    space : ℕ
    space = t.head_last_chunk_free_blocks + length t.chunks * 1024
