-- ===== src/Base/Dict.antt =====
-- A map with numbers for keys, as the list of its entries: `HashMap` and `BTreeMap` where only the
-- entries matter. Every theorem is about any order of the entries, as a hash map has it.
use Prim.Native.Nat.{ℕ}
use mathlib.Core.Path.{◌≡◌, refl, ap, ◌∙◌}
use mathlib.Core.Bool.{Bool, true, false}
use mathlib.Core.List.{List, [], ◌∷◌}
use mathlib.Core.Option.{Option, none, some}
use native.Mathlib.Omega.{arith}
use mlsdisk.Base.Tests.{if◌then◌else◌, leb, ◌==◌}

module _ {ℓ} {V : Type ℓ} where
  abbrev pub lookup : ℕ → List (ℕ × V) → Option V
  lookup k [] = none
  lookup k ((j, v) ∷ m) = if j == k then some v else lookup k m

  abbrev pub insert : ℕ → V → List (ℕ × V) → List (ℕ × V)
  insert k v [] = (k, v) ∷ []
  insert k v ((j, w) ∷ m) = if j == k then (k, v) ∷ m else (j, w) ∷ insert k v m

  abbrev pub remove : ℕ → List (ℕ × V) → List (ℕ × V)
  remove k [] = []
  remove k ((j, w) ∷ m) = let rest = remove k m in if j == k then rest else (j, w) ∷ rest

  -- No key has two entries.
  abbrev pub UniqueKeys : List (ℕ × V) → Type ℓ
  UniqueKeys [] = Unit
  UniqueKeys ((j, w) ∷ m) = (lookup j m ≡ none) × UniqueKeys m

  pub lookup-insert :
      (k j : ℕ) (v : V) (m : List (ℕ × V))
      → lookup j (insert k v m) ≡ (if k == j then some v else lookup j m)
  lookup-insert k j v [] = refl
  lookup-insert k j v ((i, w) ∷ m) = ground (arith, lookup-insert k j v m)

  pub lookup-remove :
      (k j : ℕ) (m : List (ℕ × V)) → lookup j (remove k m) ≡ (if k == j then none else lookup j m)
  lookup-remove k j [] = ground arith
  lookup-remove k j ((i, w) ∷ m) = ground (arith, lookup-remove k j m)

  pub insert-UniqueKeys :
      (k : ℕ) (v : V) (m : List (ℕ × V)) → UniqueKeys m → UniqueKeys (insert k v m)
  insert-UniqueKeys k v [] u = (refl, tt)
  insert-UniqueKeys k v ((i, w) ∷ m) u =
      ground (arith, insert-UniqueKeys k v m, lookup-insert k i v m)

  pub remove-UniqueKeys : (k : ℕ) (m : List (ℕ × V)) → UniqueKeys m → UniqueKeys (remove k m)
  remove-UniqueKeys k [] u = tt
  remove-UniqueKeys k ((i, w) ∷ m) u = ground (arith, remove-UniqueKeys k m, lookup-remove k i m)

-- Membership in a list of keys, and that no key is listed twice.
abbrev pub contains : ℕ → List ℕ → Bool
contains k [] = false
contains k (j ∷ js) = if j == k then true else contains k js

abbrev pub Distinct : List ℕ → Type 0
Distinct [] = Unit
Distinct (j ∷ js) = (contains j js ≡ false) × Distinct js

-- The numbers in ascending order, as a sort of them gives it.
abbrev pub insert_sorted : ℕ → List ℕ → List ℕ
insert_sorted x [] = x ∷ []
insert_sorted x (y ∷ ys) =
    let rest = insert_sorted x ys in if leb x y then x ∷ (y ∷ ys) else y ∷ rest

abbrev pub sort : List ℕ → List ℕ
sort [] = []
sort (x ∷ xs) = insert_sorted x (sort xs)

pub contains-insert_sorted :
    (k x : ℕ) (ys : List ℕ)
    → contains k (insert_sorted x ys) ≡ (if x == k then true else contains k ys)
contains-insert_sorted k x [] = refl
contains-insert_sorted k x (y ∷ ys) = ground (arith, contains-insert_sorted k x ys)

pub contains-sort : (k : ℕ) (xs : List ℕ) → contains k (sort xs) ≡ contains k xs
contains-sort k [] = refl
contains-sort k (x ∷ xs) =
    contains-insert_sorted k x (sort xs) ∙ ap (λ b. if x == k then true else b) (contains-sort k xs)

insert_sorted-Distinct :
    (x : ℕ) (ys : List ℕ) → contains x ys ≡ false → Distinct ys → Distinct (insert_sorted x ys)
insert_sorted-Distinct x [] h d = (refl, tt)
insert_sorted-Distinct x (y ∷ ys) h d =
    ground (arith, insert_sorted-Distinct x ys, contains-insert_sorted y x ys)

pub sort-Distinct : (xs : List ℕ) → Distinct xs → Distinct (sort xs)
sort-Distinct [] d = tt
sort-Distinct (x ∷ xs) d =
    insert_sorted-Distinct x (sort xs) (contains-sort x xs ∙ d.0) (sort-Distinct xs d.1)
