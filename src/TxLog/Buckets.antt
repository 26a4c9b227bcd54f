-- ===== src/TxLog/Buckets.antt =====
-- The buckets of the logs agree with the entries of the logs.
use mlsdisk.Base.{
  Bool, Bool-cases, List, Option, [], ap, arith, contains, false, if◌then◌else◌, inl, inr, insert,
  lookup, lookup-insert, none, refl, some, true, ℕ, ◌&&◌, ◌==◌, ◌∙◌, ◌∷◌, ◌≡◌,
}
use mlsdisk.TxLog.{add_id, put_in, remove_id, take_from}

contains-add_id :
    (k j : ℕ) (ids : List ℕ) → contains j (add_id k ids) ≡ (if k == j then true else contains j ids)
contains-add_id k j ids = ground (arith, contains_eq)
  where
    contains_eq : k ≡ j → contains k ids ≡ contains j ids
    contains_eq e = ap (λ i. contains i ids) e

contains-remove_id :
    (k j : ℕ) (ids : List ℕ)
    → contains j (remove_id k ids) ≡ (if k == j then false else contains j ids)
contains-remove_id k j [] = ground arith
contains-remove_id k j (i ∷ ids) = ground (arith, contains-remove_id k j ids)

-- Whether a log is listed in a bucket.
abbrev pub member : Option (List ℕ) → ℕ → Bool
member none i = false
member (some ids) i = contains i ids

abbrev pub listed : List (ℕ × List ℕ) → ℕ → ℕ → Bool
listed buckets n i = member (lookup n buckets) i

pub listed-insert :
    (m : List (ℕ × List ℕ)) (b n i : ℕ) (ids : List ℕ)
    → listed (insert b ids m) n i ≡ (if b == n then contains i ids else listed m n i)
listed-insert m b n i ids = elim (Bool-cases (b == n)) [
  | inl e ↦ rw (lookup-insert b n ids m, e) refl
  | inr e ↦ rw (lookup-insert b n ids m, e) refl
]

-- A change of one bucket to one whose members are those of a test.
changed_bucket :
    (m : List (ℕ × List ℕ)) (b k n i : ℕ) (ids : List ℕ) (v : Bool)
    → ((j : ℕ) → contains j ids ≡ (if k == j then v else listed m b j))
    → listed (insert b ids m) n i ≡ (if b == n && k == i then v else listed m n i)
changed_bucket m b k n i ids v h = listed-insert m b n i ids ∙ go
  where
    bucket_eq : b ≡ n → listed m b i ≡ listed m n i
    bucket_eq e = ap (λ x. listed m x i) e

    go :
        (if b == n then contains i ids else listed m n i)
        ≡ (if b == n && k == i then v else listed m n i)
    go = ground (arith, h i, bucket_eq)

pub listed-put_in :
    (buckets : List (ℕ × List ℕ)) (b k n i : ℕ)
    → listed (put_in buckets b k) n i ≡ (if b == n && k == i then true else listed buckets n i)
unfolding put_in
listed-put_in buckets b k n i = found (lookup b buckets) refl
  where
    found :
        (o : Option (List ℕ))
        → lookup b buckets ≡ o
        → listed (put_in buckets b k) n i ≡ (if b == n && k == i then true else listed buckets n i)
    found none e = rw (put_in, e) (changed_bucket buckets b k n i (k ∷ []) true (λ j. rw e refl))
    found (some ids) e =
        rw (put_in, e)
          (changed_bucket buckets b k n i (add_id k ids) true (λ j. rw e (contains-add_id k j ids)))

pub listed-take_from :
    (buckets : List (ℕ × List ℕ)) (b k n i : ℕ)
    → listed (take_from buckets b k) n i ≡ (if b == n && k == i then false else listed buckets n i)
unfolding take_from
listed-take_from buckets b k n i = found (lookup b buckets) refl
  where
    found :
        (o : Option (List ℕ))
        → lookup b buckets ≡ o
        → listed (take_from buckets b k) n i
          ≡ (if b == n && k == i then false else listed buckets n i)
    found none e = rw (take_from, e) (ground (arith, e, bucket_eq))
      where
        bucket_eq : b ≡ n → listed buckets b i ≡ listed buckets n i
        bucket_eq q = ap (λ x. listed buckets x i) q
    found (some ids) e =
        rw (take_from, e)
          (changed_bucket buckets b k n i (remove_id k ids) false
            (λ j. rw e (contains-remove_id k j ids)))
