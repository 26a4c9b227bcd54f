-- ===== src/RawLog/Tests.antt =====
-- The theorems of raw logs at a head of two chunks, the second of which has free blocks.
use mlsdisk.RawLog.Applied.{after_all, apply_edits_lem}
use mlsdisk.RawLog.Space.{Needs, needed_chunks_lem}
use mlsdisk.RawLog.Places.{Continues, append_tail-tail_blocks}
use mlsdisk.RawLog.{
  RawLogHead, RawLogStoreEdit, RawLogStoreState, RawLogTail, append, append_tail, apply_edits,
  create, delete, head_blocks, needed_chunks, new_head, tail_blocks,
}
use mlsdisk.Base.{[], arith, lookup, ok, refl, ℕ, ◌∷◌, ◌≡◌}

abbrev head_2 : RawLogHead
head_2 = record { chunks = 5 ∷ 9 ∷ []; num_blocks = 2000 }

abbrev tail_2 : RawLogTail
tail_2 = record {
  head_last_chunk_id = 9;
  head_last_chunk_free_blocks = 48;
  chunks = 3 ∷ [];
  num_blocks = 60;
}

tail_2-Continues : Continues head_2 tail_2
tail_2-Continues = record {
  within = omega arith;
  free_lem = refl;
  free_le = omega arith;
  last_lem = λ h. refl;
}

append_tail-tail_blocks_example :
    head_blocks (record { chunks = 5 ∷ 9 ∷ 3 ∷ []; num_blocks = 2060 }) 2040 20
    ≡ tail_blocks tail_2 40 20
unfolding append_tail
append_tail-tail_blocks_example =
    append_tail-tail_blocks head_2 (record { chunks = 5 ∷ 9 ∷ 3 ∷ []; num_blocks = 2060 }) tail_2 40
      19 tail_2-Continues refl

needed_chunks_lem_example : Needs tail_2 2000 (needed_chunks tail_2 2000)
needed_chunks_lem_example = needed_chunks_lem tail_2 2000

-- Three logs, of which one is created, one is appended to, and one is deleted.
abbrev logs : RawLogStoreState
logs = (1, head_2) ∷ (4, new_head) ∷ []

abbrev three_edits : RawLogStoreEdit
three_edits =
    (
      7,
      create (record {
        head_last_chunk_id = 0;
        head_last_chunk_free_blocks = 0;
        chunks = 6 ∷ [];
        num_blocks = 8;
      }),
    )
    ∷ (1, append tail_2)
    ∷ (4, delete)
    ∷ []

apply_edits_lem_example :
    (s : RawLogStoreState) × (apply_edits three_edits logs ≡ ok s)
    × ((j : ℕ) → lookup j s ≡ after_all (lookup j three_edits) (lookup j logs))
apply_edits_lem_example =
    apply_edits_lem three_edits logs (refl, (refl, (refl, tt)))
      (omega arith, (omega arith, (tt, tt)))
