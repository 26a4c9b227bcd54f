-- ===== src/Journal/Sample.antt =====
-- A byte format of records, a chain that is a list of blocks, and edits that add a number to a
-- number, with which the tests run.
use mlsdisk.Base.{
  List, Option, [], ap, append-nil, append_assoc, arith, drop, length, none, ok, some, subst, suc,
  sym, zero, ℕ, ◌++◌, ◌+◌, ◌<◌, ◌∙◌, ◌∷◌, ◌≡◌, ◌≤◌,
}
use mlsdisk.Edit.{Edit}
use mlsdisk.Journal.{Chain, Postcard, Record, edit, version}

-- A list of numbers as bytes: each behind a one, and a zero at the end.
abbrev pub put : List ℕ → List ℕ
put [] = 0 ∷ []
put (x ∷ xs) = 1 ∷ x ∷ put xs

abbrev pub get : List ℕ → List ℕ → Option (List ℕ × List ℕ)
get acc [] = none
get acc (zero ∷ rest) = some (acc, rest)
get acc (suc n ∷ []) = none
get acc (suc n ∷ x ∷ rest) = get (acc ++ (x ∷ [])) rest

get-put : (acc xs rest : List ℕ) → get acc (put xs ++ rest) ≡ some (acc ++ xs, rest)
get-put acc [] rest = ap (λ l. some (l, rest)) (sym (append-nil acc))
get-put acc (x ∷ xs) rest =
    get-put (acc ++ (x ∷ [])) xs rest ∙ ap (λ l. some (l, rest)) (append_assoc acc (x ∷ []) xs)

abbrev pub Shorter : {A : Type 0} → ℕ → Option (A × List ℕ) → Type 0
Shorter n none = Unit {0}
Shorter n (some (a, left)) = length left < n

Shorter-more : {A : Type 0} (n m : ℕ) (o : Option (A × List ℕ)) → n ≤ m → Shorter n o → Shorter m o
Shorter-more n m none h s = tt
Shorter-more n m (some (a, left)) h s = omega arith

get-Shorter : (acc bytes : List ℕ) → Shorter (length bytes) (get acc bytes)
get-Shorter acc [] = tt
get-Shorter acc (zero ∷ rest) = omega arith
get-Shorter acc (suc n ∷ []) = tt
get-Shorter acc (suc n ∷ x ∷ rest) =
    Shorter-more (length rest) (length (suc n ∷ x ∷ rest)) (get (acc ++ (x ∷ [])) rest)
      (omega arith) (get-Shorter (acc ++ (x ∷ [])) rest)

-- A record: a zero and the MAC, or a one and the edits.
abbrev pub record_bytes : Record ℕ → List ℕ
record_bytes (version mac) = 0 ∷ put mac
record_bytes (edit group) = 1 ∷ put group

abbrev pub tagged : (List ℕ → Record ℕ) → Option (List ℕ × List ℕ) → Option (Record ℕ × List ℕ)
tagged tag none = none
tagged tag (some (xs, left)) = some (tag xs, left)

abbrev pub bytes_record : List ℕ → Option (Record ℕ × List ℕ)
bytes_record [] = none
bytes_record (zero ∷ rest) = tagged version (get [] rest)
bytes_record (suc n ∷ rest) = tagged edit (get [] rest)

pub bytes_record-record_bytes :
    (r : Record ℕ) (rest : List ℕ) → bytes_record (record_bytes r ++ rest) ≡ some (r, rest)
bytes_record-record_bytes (version mac) rest = ap (tagged version) (get-put [] mac rest)
bytes_record-record_bytes (edit group) rest = ap (tagged edit) (get-put [] group rest)

tagged-Shorter :
    (tag : List ℕ → Record ℕ) (n : ℕ) (o : Option (List ℕ × List ℕ))
    → Shorter n o
    → Shorter (suc n) (tagged tag o)
tagged-Shorter tag n none s = tt
tagged-Shorter tag n (some (xs, left)) s = omega arith

pub bytes_record-Shorter : (bytes : List ℕ) → Shorter (length bytes) (bytes_record bytes)
bytes_record-Shorter [] = tt
bytes_record-Shorter (zero ∷ rest) =
    tagged-Shorter version (length rest) (get [] rest) (get-Shorter [] rest)
bytes_record-Shorter (suc n ∷ rest) =
    tagged-Shorter edit (length rest) (get [] rest) (get-Shorter [] rest)

abbrev pub numbers : Postcard ℕ
numbers = record {
  to_bytes = record_bytes;
  take_from_bytes = bytes_record;
  take-to_bytes = bytes_record-record_bytes;
  take_shorter = λ bytes r left e. subst (Shorter (length bytes)) e (bytes_record-Shorter bytes);
}

abbrev pub adding : Edit ℕ ℕ
adding = record { apply_to = λ e s. s + e }

-- A chain that keeps every block.
abbrev pub kept : Chain (List (List ℕ))
kept = record {
  append = λ c bytes. ok (c ++ (bytes ∷ []));
  block_start = λ c. 0;
  block_end = length;
  trim = λ c before. ok c;
  flush = ok;
  recover = λ c from. (c, drop from c);
}
