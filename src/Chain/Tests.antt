-- ===== src/Chain/Tests.antt =====
-- The theorems of the chain at a chain of two blocks on a log that is a list, and at an empty one on
use mlsdisk.Chain.OnRing.{ring-Takes}
use mlsdisk.Chain.Appended.{append_chain_lem, new_block, new_block_at}
use mlsdisk.Chain.Recovered.{recover-open}
use mlsdisk.Chain.Linked.{IsLinked, ReadsChain, read_chain_lem}
use mlsdisk.Chain.{
  CryptoChain, Footer, FooterBytes, IsFooter, Recovery, append_chain, last_mac, new_chain,
  new_recovery, next_block, open_recovery, read_chain, recover_blocks,
}
use mlsdisk.Journal.{bytes_eq}
use mlsdisk.Blob.Sample.{plain, zero_pages}
use mlsdisk.Log.Ring.{IsRing}
use mlsdisk.Log.{BlockLog, BlockRing, ring_log, ring_nblocks}
use mlsdisk.Blocks.Store.{mem_disk-IsStore, whole}
use mlsdisk.Blocks.{block_size, disk_nblocks, mem_disk}
use mlsdisk.Base.{
  Errno, List, Outcome, [], ap, arith, drop, drop-append, err, length, length-append,
  length-replicate, none, ok, refl, replicate, some, suc, sym, take, take-append, zero, ℕ, ◌*◌,
  ◌++◌, ◌∙◌, ◌∷◌, ◌≡◌,
}

-- a ring.

-- The length and three zeros, the MACs and the vector.
abbrev put_footer : Footer → List ℕ
put_footer f = f.len ∷ 0 ∷ 0 ∷ 0 ∷ (f.pre_mac ++ (f.this_mac ++ f.this_iv))

abbrev get_footer : List ℕ → Footer
get_footer (len ∷ a ∷ b ∷ c ∷ rest) = record {
  len = len;
  pre_mac = take 16 rest;
  this_mac = take 16 (drop 16 rest);
  this_iv = drop 16 (drop 16 rest);
}
get_footer bytes = record { len = 0; pre_mac = []; this_mac = []; this_iv = [] }

footer_back : (f : Footer) → IsFooter f → get_footer (put_footer f) ≡ f
footer_back f (l, p, t, i) = λ k. record {
  len = f.len;
  pre_mac = take-append 16 f.pre_mac (f.this_mac ++ f.this_iv) (sym p) k;
  this_mac = (ap (take 16) tail ∙ take-append 16 f.this_mac f.this_iv (sym t)) k;
  this_iv = (ap (drop 16) tail ∙ drop-append 16 f.this_mac f.this_iv (sym t)) k;
}
  where
    tail : drop 16 (f.pre_mac ++ (f.this_mac ++ f.this_iv)) ≡ f.this_mac ++ f.this_iv
    tail = drop-append 16 f.pre_mac (f.this_mac ++ f.this_iv) (sym p)

abbrev plain_footers : FooterBytes
plain_footers = record {
  to_bytes = put_footer;
  from_bytes = get_footer;
  length-to_bytes = λ f r. omega (
    arith,
    length-append f.pre_mac (f.this_mac ++ f.this_iv),
    length-append f.this_mac f.this_iv,
    r.1,
    r.2,
    r.3,
  );
  from-to_bytes = footer_back;
}

abbrev block_at : List (List ℕ) → ℕ → Outcome (List ℕ)
block_at [] pos = err Errno.invalid_args
block_at (b ∷ bs) zero = ok b
block_at (b ∷ bs) (suc pos) = block_at bs pos

abbrev list_log : BlockLog (List (List ℕ))
list_log = record {
  read = λ l pos n. block_at l pos;
  append = λ l b. ok (l ++ (b ∷ []), length l);
  flush = ok;
  nblocks = length;
}

abbrev vector : List ℕ
vector = replicate 12 7

abbrev mac_3 : List ℕ
mac_3 = replicate 16 3

abbrev first_block : List ℕ
first_block =
    new_block zero_pages plain plain_footers list_log 3 vector (replicate 16 0) (1 ∷ 2 ∷ [])
      (1 ∷ 2 ∷ []) mac_3 (omega arith) refl refl refl

abbrev second_block : List ℕ
second_block =
    new_block zero_pages plain plain_footers list_log 3 vector mac_3 (5 ∷ []) (5 ∷ []) mac_3
      (omega arith) refl refl refl

abbrev two_chain : CryptoChain (List (List ℕ)) ℕ
two_chain = record {
  block_log = first_block ∷ second_block ∷ [];
  key = 3;
  start = 0;
  end = 2;
  block_macs = mac_3 ∷ mac_3 ∷ [];
}

two_chain-IsLinked :
    IsLinked zero_pages plain plain_footers list_log two_chain ((1 ∷ 2 ∷ []) ∷ (5 ∷ []) ∷ [])
unfolding bytes_eq
two_chain-IsLinked = record {
  end_lem = refl;
  chained = (
    new_block_at zero_pages plain plain_footers list_log 3 vector (replicate 16 0) (1 ∷ 2 ∷ [])
        (1 ∷ 2 ∷ []) mac_3 (omega arith) refl refl refl (first_block ∷ second_block ∷ []) none 0
        refl refl,
    (
      new_block_at zero_pages plain plain_footers list_log 3 vector mac_3 (5 ∷ []) (5 ∷ []) mac_3
          (omega arith) refl refl refl (first_block ∷ second_block ∷ []) (some mac_3) 1 refl refl,
      tt,
    ),
  );
}

read_chain_lem_example :
    ReadsChain zero_pages plain plain_footers list_log two_chain
      ((1 ∷ 2 ∷ []) ∷ (5 ∷ []) ∷ [])
      1
      10
      (read_chain zero_pages plain plain_footers list_log two_chain 1 10)
read_chain_lem_example =
    read_chain_lem zero_pages plain plain_footers list_log two_chain ((1 ∷ 2 ∷ []) ∷ (5 ∷ []) ∷ [])
      1 10 two_chain-IsLinked

recover-open_example :
    (r : Recovery (List (List ℕ)) ℕ) × (recover_blocks zero_pages plain plain_footers list_log 5
        (new_recovery (first_block ∷ second_block ∷ []) 3 0)
      ≡ ok (r, (1 ∷ 2 ∷ []) ∷ (5 ∷ []) ∷ []))
    × (open_recovery r ≡ two_chain)
unfolding next_block
recover-open_example =
    recover-open zero_pages plain plain_footers list_log two_chain ((1 ∷ 2 ∷ []) ∷ (5 ∷ []) ∷ []) 5
      two_chain-IsLinked refl (omega arith) (omega arith)

abbrev ring_0 : BlockRing (List ℕ)
ring_0 = record { storage = replicate (4 * 4096) 0; cursor = some 0 }

ring_0-IsRing : IsRing (mem_disk (whole 4)) (mem_disk-IsStore 4) ring_0 0
unfolding block_size disk_nblocks
ring_0-IsRing = record {
  holds = length-replicate {A = ℕ} (4 * 4096) 0;
  at = refl;
  some_block = omega arith;
  in_range = omega arith;
}

append_chain_lem_example :
    (c' : CryptoChain (BlockRing (List ℕ)) ℕ) × (append_chain zero_pages plain plain_footers
        (ring_log (mem_disk (whole 4)))
        (new_chain 3 ring_0)
        vector
        (1 ∷ 2 ∷ [])
      ≡ ok c')
    × IsLinked zero_pages plain plain_footers (ring_log (mem_disk (whole 4))) c' ((1 ∷ 2 ∷ []) ∷ [])
    × (c'.start ≡ 0)
    × (ring_nblocks (mem_disk (whole 4)) c'.block_log ≡ c'.end)
    × (length (last_mac c'.block_macs) ≡ 16)
unfolding ring_nblocks disk_nblocks
append_chain_lem_example =
    append_chain_lem zero_pages plain plain_footers (ring_log (mem_disk (whole 4)))
      (new_chain 3 ring_0) [] vector (1 ∷ 2 ∷ []) (1 ∷ 2 ∷ []) mac_3
      (record { end_lem = refl; chained = tt }) refl (omega arith) refl (omega arith) refl refl
      (λ block e.
        ring-Takes zero_pages plain plain_footers (mem_disk (whole 4)) (mem_disk-IsStore 4) ring_0 0
          0 ring_0-IsRing (omega arith) block e)
