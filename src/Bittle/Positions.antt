-- ===== src/Bittle/Positions.antt =====
-- Laws of `positions` and `count`: appended bits, bits that all differ, bits from an index on.
use mlsdisk.Base.{
  Bool, List, [], ap, append-nil, ap₂, arith, drop, false, filter, filter-append, get_elem?, leb,
  length, le→leb, ltb, lt→leb, lt→ltb, map, not, refl, replicate, set, some, suc, true, zero, ℕ,
  ◌++◌, ◌+◌, ◌<◌, ◌∎, ◌∙◌, ◌∷◌, ◌≡◌, ◌≡⟨◌⟩◌, ◌≤◌,
}
use mlsdisk.Bittle.{count, positions}

pub positions-append :
    (b : Bool) (k : ℕ) (xs ys : List Bool)
    → positions b k (xs ++ ys) ≡ positions b k xs ++ positions b (k + length xs) ys
positions-append b k [] ys = ap (λ m. positions b m ys) {x = k} {y = k + 0} (omega arith)
positions-append b k (x ∷ xs) ys = ground (
  arith,
  positions-append b (suc k) xs ys,
  ap (λ m. positions b m ys) {x = suc k + length xs} {y = k + suc (length xs)} (omega arith),
)

pub positions-replicate_ne : (b : Bool) (k n : ℕ) → positions b k (replicate n (not b)) ≡ []
positions-replicate_ne b k zero = refl
positions-replicate_ne true k (suc n) = positions-replicate_ne true (suc k) n
positions-replicate_ne false k (suc n) = positions-replicate_ne false (suc k) n

pub length-positions : (b : Bool) (k : ℕ) (xs : List Bool) → length (positions b k xs) ≡ count b xs
length-positions b k [] = refl
length-positions b k (x ∷ xs) = ground (arith, length-positions b (suc k) xs)

pub length-positions-replicate : (b : Bool) (k n : ℕ) → length (positions b k (replicate n b)) ≡ n
length-positions-replicate b k zero = refl
length-positions-replicate true k (suc n) = ap suc (length-positions-replicate true (suc k) n)
length-positions-replicate false k (suc n) = ap suc (length-positions-replicate false (suc k) n)

-- The positions from `from` on are those of the bits from there on.
filter_all :
    (b : Bool) (from k : ℕ) (xs : List Bool)
    → from ≤ k
    → filter (λ i. leb from i) (positions b k xs) ≡ positions b k xs
filter_all b from k [] h = refl
filter_all b from k (x ∷ xs) h =
    ground (arith, filter_all b from (suc k) xs (omega arith), le→leb from k h)

pub filter_from :
    (b : Bool) (from k d : ℕ) (xs : List Bool)
    → from ≡ k + d
    → filter (λ i. leb from i) (positions b k xs) ≡ positions b from (drop d xs)
filter_from b from k zero xs h =
    filter_all b from k xs (omega arith)
    ∙ ap (λ m. positions b m xs) {x = k} {y = from} (omega arith)
filter_from b from k (suc d) [] h = refl
filter_from b from k (suc d) (x ∷ xs) h =
    ground (arith, filter_from b from (suc k) d xs (omega arith), lt→leb k from (omega arith))

-- No bit at or after `n` passes the test, and every one below does.
filter_none :
    (b : Bool) (n k : ℕ) (xs : List Bool) → n ≤ k → filter (λ i. ltb i n) (positions b k xs) ≡ []
filter_none b n k [] h = refl
filter_none b n k (x ∷ xs) h = ground (arith, filter_none b n (suc k) xs (omega arith))

filter_below_all :
    (b : Bool) (n k : ℕ) (xs : List Bool)
    → k + length xs ≤ n
    → filter (λ i. ltb i n) (positions b k xs) ≡ positions b k xs
filter_below_all b n k [] h = refl
filter_below_all b n k (x ∷ xs) h =
    ground (arith, filter_below_all b n (suc k) xs (omega arith), lt→ltb k n (omega arith))

pub filter_below :
    (b : Bool) (n k : ℕ) (xs ys : List Bool)
    → k + length xs ≡ n
    → filter (λ i. ltb i n) (positions b k (xs ++ ys)) ≡ positions b k xs
filter_below b n k xs ys h =
    filter (λ i. ltb i n) (positions b k (xs ++ ys))
    ≡⟨ ap (filter (λ i. ltb i n)) (positions-append b k xs ys) ⟩
      filter (λ i. ltb i n) (positions b k xs ++ positions b (k + length xs) ys)
    ≡⟨ filter-append (λ i. ltb i n) (positions b k xs) (positions b (k + length xs) ys) ⟩
      filter (λ i. ltb i n) (positions b k xs)
      ++ filter (λ i. ltb i n) (positions b (k + length xs) ys)
    ≡⟨ ap₂ ◌++◌ (filter_below_all b n k xs (omega arith))
        (filter_none b n (k + length xs) ys (omega arith)) ⟩
      positions b k xs ++ []
    ≡⟨ append-nil (positions b k xs) ⟩ positions b k xs ∎

pub positions-shift :
    (b : Bool) (m k : ℕ) (xs : List Bool)
    → map (λ i. m + i) (positions b k xs) ≡ positions b (m + k) xs
positions-shift b m k [] = refl
positions-shift b m k (x ∷ xs) = ground (
  arith,
  positions-shift b m (suc k) xs,
  ap (λ j. positions b j xs) {x = m + suc k} {y = suc (m + k)} (omega arith),
)

pub count-append : (b : Bool) (xs ys : List Bool) → count b (xs ++ ys) ≡ count b xs + count b ys
count-append b [] ys = omega arith
count-append b (x ∷ xs) ys = ground (arith, count-append b xs ys)

pub count-replicate_ne : (b : Bool) (n : ℕ) → count b (replicate n (not b)) ≡ 0
count-replicate_ne b zero = refl
count-replicate_ne true (suc n) = count-replicate_ne true n
count-replicate_ne false (suc n) = count-replicate_ne false n

pub count-replicate_self : (b : Bool) (n : ℕ) → count b (replicate n b) ≡ n
count-replicate_self b zero = refl
count-replicate_self true (suc n) = ap suc (count-replicate_self true n)
count-replicate_self false (suc n) = ap suc (count-replicate_self false n)

pub count_total : (xs : List Bool) → count true xs + count false xs ≡ length xs
count_total [] = refl
count_total (true ∷ xs) = omega (arith, count_total xs)
count_total (false ∷ xs) = omega (arith, count_total xs)

-- Changing one bit moves one unit from one count to the other.
pub count-set_ne :
    (b : Bool) (xs : List Bool) (i : ℕ)
    → get_elem? xs i ≡ some (not b)
    → count b (set xs i b) ≡ suc (count b xs)
count-set_ne b [] i h = cc
count-set_ne true (x ∷ xs) zero h = ground arith
count-set_ne false (x ∷ xs) zero h = ground arith
count-set_ne b (x ∷ xs) (suc i) h = ground (arith, count-set_ne b xs i h)

pub count-set_eq :
    (b : Bool) (xs : List Bool) (i : ℕ)
    → get_elem? xs i ≡ some b
    → suc (count b (set xs i (not b))) ≡ count b xs
count-set_eq b [] i h = cc
count-set_eq true (x ∷ xs) zero h = ground arith
count-set_eq false (x ∷ xs) zero h = ground arith
count-set_eq b (x ∷ xs) (suc i) h = ground (arith, count-set_eq b xs i h)

pub count_pos : (b : Bool) (xs : List Bool) (i : ℕ) → get_elem? xs i ≡ some b → 0 < count b xs
count_pos b [] i h = cc
count_pos true (x ∷ xs) zero h = ground arith
count_pos false (x ∷ xs) zero h = ground arith
count_pos b (x ∷ xs) (suc i) h = ground (arith, count_pos b xs i h)
