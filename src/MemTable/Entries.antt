-- ===== src/MemTable/Entries.antt =====
-- The invariant of a `MemTable`, over the list of its entries.
use mlsdisk.Base.{
  Bool-cases, List, Option, UniqueKeys, [], arith, inl, inr, insert, lookup, none, refl, some, true,
  ℕ, ◌+◌, ◌==◌, ◌∷◌, ◌≡◌,
}
use mlsdisk.MemTable.{
  MemTable, ValueEx, contains_unsynced, extend_range, in_range, is_range, synced,
  synced_and_unsynced, unsynced,
}

module _ {V : Type 0} where
  -- How many records an entry holds, and all entries.
  abbrev pub weight : ValueEx V → ℕ
  weight (synced v) = 1
  weight (unsynced v) = 1
  weight (synced_and_unsynced sv usv) = 2

  abbrev pub weight_at : Option (ValueEx V) → ℕ
  weight_at none = 0
  weight_at (some x) = weight x

  abbrev pub total : List (ℕ × ValueEx V) → ℕ
  total [] = 0
  total ((k, x) ∷ m) = weight x + total m

  -- Every entry with an unsynced value has its key in the range.
  abbrev pub IsCovered : Option (ℕ × ℕ) → List (ℕ × ValueEx V) → Type 0
  IsCovered range [] = Unit
  IsCovered range ((k, x) ∷ m) =
      (contains_unsynced x ≡ true → in_range range k ≡ true) × IsCovered range m

  -- The keys are distinct, the size is the number of records, and the range, which is
  -- in order, covers what is unsynced.
  pub record IsValid (t : MemTable V) : Type 0 where
    pub unique : UniqueKeys t.table
    pub counted : t.size ≡ total t.table
    pub covered : IsCovered t.unsynced_range t.table
    pub ordered : is_range t.unsynced_range ≡ true

  pub total-insert :
      (k : ℕ) (x : ValueEx V) (m : List (ℕ × ValueEx V))
      → total (insert k x m) + weight_at (lookup k m) ≡ total m + weight x
  total-insert k x [] = omega arith
  total-insert k x ((j, w) ∷ m) = elim (Bool-cases (j == k)) [
    | inl e ↦ rw e (omega arith)
    | inr e ↦ rw e (omega (arith, total-insert k x m))
  ]

-- A put extends the range by its key, and keeps every key that was in it.
pub in_range-extend_self :
    (range : Option (ℕ × ℕ)) (k : ℕ) → in_range (extend_range range k) k ≡ true
unfolding in_range extend_range
in_range-extend_self none k = refl
in_range-extend_self (some (start, end)) k = ground arith

pub is_range-extend :
    (range : Option (ℕ × ℕ)) (k : ℕ)
    → is_range range ≡ true
    → is_range (extend_range range k) ≡ true
unfolding is_range extend_range
is_range-extend none k h = refl
is_range-extend (some (start, end)) k h = ground arith

pub in_range-extend :
    (range : Option (ℕ × ℕ)) (k j : ℕ)
    → in_range range j ≡ true
    → in_range (extend_range range k) j ≡ true
unfolding in_range extend_range
in_range-extend none k j h = refl
in_range-extend (some (start, end)) k j h = ground arith

module _ {V : Type 0} where
  pub extend-IsCovered :
      (range : Option (ℕ × ℕ)) (k : ℕ) (m : List (ℕ × ValueEx V))
      → IsCovered range m
      → IsCovered (extend_range range k) m
  extend-IsCovered range k [] h = tt
  extend-IsCovered range k ((j, w) ∷ m) h =
      (λ e. in_range-extend range k j (h.0 e), extend-IsCovered range k m h.1)

  pub insert-IsCovered :
      (range : Option (ℕ × ℕ)) (k : ℕ) (x : ValueEx V) (m : List (ℕ × ValueEx V))
      → in_range range k ≡ true
      → IsCovered range m
      → IsCovered range (insert k x m)
  insert-IsCovered range k x [] i h = (λ _. i, tt)
  insert-IsCovered range k x ((j, w) ∷ m) i h = elim (Bool-cases (j == k)) [
    | inl e ↦ rw e ((λ _. i), h.1)
    | inr e ↦ rw e (h.0, insert-IsCovered range k x m i h.1)
  ]
