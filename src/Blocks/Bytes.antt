-- ===== src/Blocks/Bytes.antt =====
-- Lists of bytes: slices of slices, and replaced stretches.
use mlsdisk.Base.{
  List, [], ap, append-nil, append_assoc, ap₂, arith, drop, drop-append, drop-drop, drop-nil,
  length, length-append, length-drop, length-take, le→leb, ok, refl, suc, sym, take, take-append,
  zero, ℕ, ◌++◌, ◌+◌, ◌-◌, ◌∙◌, ◌∷◌, ◌≡◌, ◌≤◌,
}
use mlsdisk.Blocks.{copy_from_slice, slice, splice}

module _ {ℓ} {A : Type ℓ} where
  take-nil : (k : ℕ) → ◌≡◌ {A = List A} (take k []) []
  take-nil zero = refl
  take-nil (suc k) = refl

  pub drop-take : (a n : ℕ) (xs : List A) → drop a (take n xs) ≡ take (n - a) (drop a xs)
  drop-take zero n xs = ap (λ k. take k xs) {x = n} {y = n - zero} (omega arith)
  drop-take (suc a) zero xs =
      ap (λ k. take k (drop (suc a) xs)) {x = zero} {y = zero - suc a} (omega arith)
  drop-take (suc a) (suc n) [] = sym (take-nil (suc n - suc a))
  drop-take (suc a) (suc n) (x ∷ xs) =
      drop-take a n xs ∙ ap (λ k. take k (drop a xs)) {x = n - a} {y = suc n - suc a} (omega arith)

  pub take-take_le : (a b : ℕ) (xs : List A) → a ≤ b → take a (take b xs) ≡ take a xs
  take-take_le zero b xs h = refl
  take-take_le (suc a) zero xs h = absurd (omega arith)
  take-take_le (suc a) (suc b) [] h = refl
  take-take_le (suc a) (suc b) (x ∷ xs) h = ap (λ r. x ∷ r) (take-take_le a b xs (omega arith))

  pub take-add : (a b : ℕ) (xs : List A) → take a xs ++ take b (drop a xs) ≡ take (a + b) xs
  take-add zero b xs = ap (λ k. take k xs) {x = b} {y = zero + b} (omega arith)
  take-add (suc a) b [] = take-nil b ∙ sym (take-nil (suc a + b))
  take-add (suc a) b (x ∷ xs) =
      ap (λ r. x ∷ r) (take-add a b xs)
      ∙ ap (λ k. take k (x ∷ xs)) {x = suc (a + b)} {y = suc a + b} (omega arith)

  pub take_all : (n : ℕ) (xs : List A) → length xs ≤ n → take n xs ≡ xs
  take_all zero [] h = refl
  take_all zero (x ∷ xs) h = absurd (omega arith)
  take_all (suc n) [] h = refl
  take_all (suc n) (x ∷ xs) h = ap (λ r. x ∷ r) (take_all n xs (omega arith))

-- A slice of a slice.
pub slice-slice :
    (m : List ℕ) (p n o len : ℕ)
    → o + len ≤ n
    → take len (drop o (take n (drop p m))) ≡ take len (drop (p + o) m)
slice-slice m p n o len h =
    ap (take len) (drop-take o n (drop p m) ∙ ap (take (n - o)) (drop-drop o p m))
    ∙ take-take_le len (n - o) (drop (p + o) m) (omega arith)

pub slice_ok :
    (m : List ℕ) (a b : ℕ) → a ≤ b → b ≤ length m → slice m a b ≡ ok (take (b - a) (drop a m))
slice_ok m a b h k = rw (le→leb a b h, le→leb b (length m) k)

pub copy_ok :
    (m : List ℕ) (a b : ℕ) (src : List ℕ)
    → b ≡ a + length src
    → b ≤ length m
    → copy_from_slice m a b src ≡ ok (splice m a src)
copy_ok m a b src e k = ground arith

-- Replacing the bytes behind `pre`.
pub splice-append :
    (pre src rest : List ℕ)
    → splice (pre ++ rest) (length pre) src ≡ pre ++ (src ++ drop (length src) rest)
splice-append pre src rest =
    ap₂ (λ a b. a ++ (src ++ b)) (take-append (length pre) pre rest refl)
      (sym (drop-drop (length src) (length pre) (pre ++ rest))
        ∙ ap (drop (length src)) (drop-append (length pre) pre rest refl))

-- Replacing bytes by themselves, and then more.
pub splice_self :
    (m : List ℕ) (a k : ℕ) (src : List ℕ)
    → a + k ≤ length m
    → splice m a (take k (drop a m) ++ src) ≡ splice m (a + k) src
splice_self m a k src h =
    ap (λ r. take a m ++ r) (append_assoc (take k (drop a m)) src tail)
    ∙ sym (append_assoc (take a m) (take k (drop a m)) (src ++ tail))
    ∙ ap₂ (λ x n. x ++ (src ++ drop n m)) (take-add a k m) same_end
  where
    tail : List ℕ
    tail = drop (a + length (take k (drop a m) ++ src)) m

    same_end : a + length (take k (drop a m) ++ src) ≡ a + k + length src
    same_end =
        omega
          (arith, length-append (take k (drop a m)) src, length-take k (drop a m), length-drop a m)

pub length-splice :
    (m : List ℕ) (a : ℕ) (src : List ℕ)
    → a + length src ≤ length m
    → length (splice m a src) ≡ length m
length-splice m a src h = omega (
  arith,
  length-append (take a m) (src ++ drop (a + length src) m),
  length-append src (drop (a + length src) m),
  length-take a m,
  length-drop (a + length src) m,
)

-- What was written is what is there.
pub slice-splice :
    (m : List ℕ) (a : ℕ) (src more : List ℕ)
    → a ≤ length m
    → take (length src) (drop a (splice m a (src ++ more))) ≡ src
slice-splice m a src more h =
    ap (take (length src)) (drop-append a (take a m) rest (omega (arith, length-take a m)))
    ∙ ap (take (length src)) (append_assoc src more tail)
    ∙ take-append (length src) src (more ++ tail) refl
  where
    tail : List ℕ
    tail = drop (a + length (src ++ more)) m

    rest : List ℕ
    rest = (src ++ more) ++ tail

pub drop_all : (n : ℕ) (xs : List ℕ) → length xs ≤ n → drop n xs ≡ []
drop_all n [] h = drop-nil n
drop_all zero (x ∷ xs) h = absurd (omega arith)
drop_all (suc n) (x ∷ xs) h = drop_all n xs (omega arith)

pub slice-splice_all :
    (m : List ℕ) (a n : ℕ) (src : List ℕ)
    → a ≤ length m
    → n ≡ length src
    → take n (drop a (splice m a src)) ≡ src
slice-splice_all m a n src h e =
    ap₂ (λ k b. take k (drop a (splice m a b))) e (sym (append-nil src)) ∙ slice-splice m a src [] h

-- Filling the rest of a buffer, and replacing what follows a prefix.
pub splice-fill :
    (pre src rest : List ℕ)
    → length rest ≤ length src
    → splice (pre ++ rest) (length pre) src ≡ pre ++ src
splice-fill pre src rest h =
    splice-append pre src rest
    ∙ ap (λ r. pre ++ (src ++ r)) (drop_all (length src) rest h)
    ∙ ap (λ r. pre ++ r) (append-nil src)
