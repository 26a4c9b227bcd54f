-- ===== src/BitMap/Batch.antt =====
-- `first_ones` and `first_zeros`: the first `count` indexes, each the first after the one before.
use mlsdisk.Base.{
  ==_iff, Bool, Bool-cases, List, Option, Outcome, [], ap, arith, drop, drop-drop, err, false,
  head?, inl, inr, length, length-take, lt→leb, none, ok, panic, refl, same, some, subst, suc, take,
  true, zero, ℕ, ◌+◌, ◌-◌, ◌<◌, ◌==◌, ◌>>=◌, ◌>>◌, ◌^◌, ◌∙◌, ◌∷◌, ◌≡◌, ◌≢◌, ◌≤◌, ◌⊎◌,
}
use mlsdisk.Bittle.{Bittle, count, positions}
use mlsdisk.BitMap.{BitMap, check_index, first_ones, first_zeros, if_all, last_index}
use mlsdisk.BitMap.Search.{IsFirst, IsFirst-indices, indices, ones_from, zeros_from}
use mlsdisk.Bittle.Positions.{length-positions}
use mlsdisk.BitMap.Shape.{IsValid, check_index_ok, view}

-- `is` picks bits that equal `b` one after the other, from `from` on, and leaves none out.
abbrev pub Picks : Bool → List Bool → ℕ → List ℕ → Type 0
Picks b v from [] = Unit
Picks b v from (i ∷ is) = IsFirst b v from (some i) × Picks b v (suc i) is

-- What a search for `n` bits may return.
abbrev pub Gathers : Bool → List Bool → ℕ → ℕ → Option (List ℕ) → Type 0
Gathers b v from n (some is) = (length is ≡ n) × Picks b v from is
Gathers b v from n none = count b (drop from v) < n

-- What is left of the positions after the first one.
positions-tail :
    (b : Bool) (k : ℕ) (xs : List Bool) {i : ℕ} {rest : List ℕ}
    → positions b k xs ≡ i ∷ rest
    → (d : ℕ) × (i ≡ k + d) × (rest ≡ positions b (suc i) (drop (suc d) xs))
positions-tail b k [] e = absurd (cc)
positions-tail b k (x ∷ xs) {i} {rest} e = elim (Bool-cases (same b x)) [
  | inl t ↦
      let h : k ∷ positions b (suc k) xs ≡ i ∷ rest = rw t at e in
      let at_k : i ≡ k = cc in (zero, omega arith, cc)
  | inr f ↦
      let h : positions b (suc k) xs ≡ i ∷ rest = rw f at e in
      let t = positions-tail b (suc k) xs h in (suc t.0, omega arith, t.2)
]

Picks-head :
    (b : Bool) (v : List Bool) (n from : ℕ) (l : List ℕ)
    → ((i : ℕ) → Picks b v i (take n (indices b i v)))
    → indices b from v ≡ l
    → Picks b v from (take (suc n) l)
Picks-head b v n from [] again e = tt
Picks-head b v n from (i ∷ rest) again e =
    let t = positions-tail b from (drop from v) e in
    let after : rest ≡ indices b (suc i) v =
      t.2
      ∙ ap (positions b (suc i)) (
          drop-drop (suc t.0) from v
          ∙ ap (λ m. drop m v) {x = from + suc t.0} {y = suc i} (omega (arith, t.1))) in
    (subst (IsFirst b v from) (ap head? e) (IsFirst-indices b from v), rw after (again (suc i)))

pub Picks-take :
    (b : Bool) (v : List Bool) (n from : ℕ) → Picks b v from (take n (indices b from v))
Picks-take b v zero from = tt
Picks-take b v (suc n) from =
    Picks-head b v n from (indices b from v) (λ i. Picks-take b v n i) refl

pub Gathers-take :
    (b : Bool) (v : List Bool) (from n : ℕ)
    → Gathers b v from n (if_all n (take n (indices b from v)))
Gathers-take b v from n = elim (Bool-cases (length found == n)) [
  | inl t ↦ rw t ((==_iff (length found) n).0 t, Picks-take b v n from)
  | inr f ↦ rw f (few (λ e. cc ((==_iff (length found) n).1 e)))
]
  where
    found : List ℕ
    found = take n (indices b from v)

    few : length found ≢ n → count b (drop from v) < n
    few ne = omega (arith, length-take n (indices b from v), length-positions b from (drop from v))

-- What `first_ones` and `first_zeros` may do: they panic exactly if `from + count - 1` underflows
-- or is out of range.
abbrev pub FindsAll : Bool → BitMap → ℕ → ℕ → Outcome (Option (List ℕ)) → Type 0
FindsAll b bm from n (ok r) = (0 < from + n) × (from + n ≤ bm.nbits) × Gathers b (view bm) from n r
FindsAll b bm from n (err e) = ⊥
FindsAll b bm from n panic = (from + n ≡ 0) ⊎ (bm.nbits < from + n)

last_index_ok :
    (from n : ℕ) → 0 < from + n → from + n < 2 ^ 64 → last_index from n ≡ ok (from + n - 1)
unfolding last_index
last_index_ok from n pos fits = rw (lt→leb (from + n) (2 ^ 64) fits) (ground arith)

last_index_zero : (from n : ℕ) → from + n ≡ 0 → last_index from n ≡ panic
unfolding last_index
last_index_zero from n e = rw (lt→leb (from + n) (2 ^ 64) (omega arith)) (ground arith)

last_index_big :
    (bm : BitMap) (from n : ℕ)
    → bm.nbits < from + n
    → (last_index from n >>= λ i. check_index bm i) ≡ panic
unfolding last_index check_index
last_index_big bm from n lt = ground arith

panics {ℓ} :
    {A : Type ℓ} (m : Outcome ℕ) (check : ℕ → Outcome (Unit {0})) (k : Outcome A)
    → (m >>= λ i. check i) ≡ panic
    → (m >>= λ i. check i >> k) ≡ panic
panics (ok a) check k h = rw h
panics (err e) check k h = cc
panics panic check k h = refl

module _ ⦃bt : Bittle⦄ (bm : BitMap) (from n : ℕ) (h : IsValid bm) where
  in_range : 0 < from + n → from + n ≤ bm.nbits → check_index bm (from + n - 1) ≡ ok tt
  in_range pos le = check_index_ok bm (from + n - 1) (omega arith)

  pub first_ones_ok :
      0 < from + n
      → from + n ≤ bm.nbits
      → first_ones bm from n ≡ ok (if_all n (take n (indices true from (view bm))))
  unfolding first_ones
  first_ones_ok pos le = rw (
    last_index_ok from n pos (omega (arith, h.fits)),
    in_range pos le,
    ones_from bm from h (omega arith),
  )

  pub first_zeros_ok :
      0 < from + n
      → from + n ≤ bm.nbits
      → first_zeros bm from n ≡ ok (if_all n (take n (indices false from (view bm))))
  unfolding first_zeros
  first_zeros_ok pos le = rw (
    last_index_ok from n pos (omega (arith, h.fits)),
    in_range pos le,
    zeros_from bm from h (omega arith),
  )

  out_of_range :
      (from + n ≡ 0) ⊎ (bm.nbits < from + n) → (last_index from n >>= λ i. check_index bm i) ≡ panic
  out_of_range (inl e) = rw (last_index_zero from n e)
  out_of_range (inr lt) = last_index_big bm from n lt

  first_ones_out : (from + n ≡ 0) ⊎ (bm.nbits < from + n) → first_ones bm from n ≡ panic
  unfolding first_ones
  first_ones_out o = panics (last_index from n) (check_index bm) _ (out_of_range o)

  first_zeros_out : (from + n ≡ 0) ⊎ (bm.nbits < from + n) → first_zeros bm from n ≡ panic
  unfolding first_zeros
  first_zeros_out o = panics (last_index from n) (check_index bm) _ (out_of_range o)

  range-cases : ((0 < from + n) × (from + n ≤ bm.nbits)) ⊎ ((from + n ≡ 0) ⊎ (bm.nbits < from + n))
  range-cases = omega arith

  -- On a valid bitmap `first_ones` returns `count` indexes of ones, the first at or after `from`
  -- and each the first after the one before it, `None` exactly if fewer than `count` bits from
  -- there on are ones, and panics exactly if `from + count` is 0 or beyond the length.
  pub first_ones_lem : FindsAll true bm from n (first_ones bm from n)
  first_ones_lem = elim range-cases [
    | inl r ↦ rw (first_ones_ok r.0 r.1) (r.0, r.1, Gathers-take true (view bm) from n)
    | inr o ↦ rw (first_ones_out o) o
  ]

  -- On a valid bitmap `first_zeros` returns `count` indexes of zeros within the length, the first
  -- at or after `from` and each the first after the one before it, `None` exactly if fewer than
  -- `count` bits from there on are zeros, and panics exactly if `from + count` is 0 or beyond the
  -- length.
  pub first_zeros_lem : FindsAll false bm from n (first_zeros bm from n)
  first_zeros_lem = elim range-cases [
    | inl r ↦ rw (first_zeros_ok r.0 r.1) (r.0, r.1, Gathers-take false (view bm) from n)
    | inr o ↦ rw (first_zeros_out o) o
  ]
