-- ===== src/Journal/Records.antt =====
-- The records of a block: what `WriteBuf` holds is what `RecordSlice` gives back.
use mlsdisk.Base.{
  Bool-cases, Errno, List, Option, Option-cases, Outcome, [], ap, append-nil, append_assoc, arith,
  err, inl, inr, leb, leb→le, leb→lt, length, length-append, max, none, ok, panic, refl, same, some,
  suc, sym, zero, ℕ, ◌++◌, ◌+◌, ◌<◌, ◌>>=◌, ◌∙◌, ◌∷◌, ◌≡◌, ◌≤◌,
}
use mlsdisk.Journal.{
  Postcard, Record, WriteBuf, new_write_buf, read_records, records_in, records_of, write_record,
}

module _ {E : Type 0} (pc : Postcard E) where
  -- The bytes of some records, one after the other.
  abbrev pub encode : List (Record E) → List ℕ
  encode [] = []
  encode (r ∷ rs) = pc.to_bytes r ++ encode rs

  pub encode-append : (rs qs : List (Record E)) → encode (rs ++ qs) ≡ encode rs ++ encode qs
  encode-append [] qs = refl
  encode-append (r ∷ rs) qs =
      ap (λ b. pc.to_bytes r ++ b) (encode-append rs qs)
      ∙ sym (append_assoc (pc.to_bytes r) (encode rs) (encode qs))

  no_record : pc.take_from_bytes [] ≡ none
  no_record = elim (Option-cases (pc.take_from_bytes [])) [
    | inl e ↦ e
    | inr p ↦ absurd (omega (arith, pc.take_shorter [] (p.0.0) (p.0.1) (p.1)))
  ]

  no_records : (fuel : ℕ) → read_records pc fuel [] ≡ []
  unfolding read_records
  no_records zero = refl
  no_records (suc fuel) = rw (no_record, read_records)

  abbrev next_records : ℕ → Option (Record E × List ℕ) → List (Record E)
  next_records fuel o = elim o [ none ↦ [] | some (r, left) ↦ r ∷ read_records pc fuel left ]

  next_same :
      (f g : ℕ) (bytes : List ℕ) (o : Option (Record E × List ℕ))
      → pc.take_from_bytes bytes ≡ o
      → ((left : List ℕ)
          → length left < length bytes
          → read_records pc f left ≡ read_records pc g left)
      → next_records f o ≡ next_records g o
  next_same f g bytes none e ih = refl
  next_same f g bytes (some (r, left)) e ih =
      ap (λ rs. r ∷ rs) (ih left (pc.take_shorter bytes r left e))

  read_same :
      (f g : ℕ) (bytes : List ℕ)
      → length bytes ≤ f
      → length bytes ≤ g
      → read_records pc f bytes ≡ read_records pc g bytes
  unfolding read_records
  read_same zero g [] h k = sym (no_records g)
  read_same zero g (b ∷ bytes) h k = absurd (omega arith)
  read_same (suc f) zero [] h k = no_records (suc f)
  read_same (suc f) zero (b ∷ bytes) h k = absurd (omega arith)
  read_same (suc f) (suc g) bytes h k =
      next_same f g bytes (pc.take_from_bytes bytes) refl
        (λ left lt. read_same f g left (omega arith) (omega arith))

  -- Reading the records of any bytes ends: with as much fuel as there are bytes, more of it gives
  -- no further record.
  pub read_records_enough :
      (fuel : ℕ) (bytes : List ℕ)
      → length bytes ≤ fuel
      → read_records pc fuel bytes ≡ records_of pc bytes
  read_records_enough fuel bytes h = read_same fuel (length bytes) bytes h (omega arith)

  read_first :
      (fuel : ℕ) (r : Record E) (rest : List ℕ)
      → read_records pc (suc fuel) (pc.to_bytes r ++ rest) ≡ r ∷ read_records pc fuel rest
  unfolding read_records
  read_first fuel r rest = ap (next_records fuel) (pc.take-to_bytes r rest)

  pub records_of-encode : (rs : List (Record E)) → records_of pc (encode rs) ≡ rs
  unfolding read_records
  records_of-encode [] = refl
  records_of-encode (r ∷ rs) =
      sym (read_records_enough (suc all) (encode (r ∷ rs)) (omega arith))
      ∙ read_first all r (encode rs)
      ∙ ap (λ l. r ∷ l)
          (read_records_enough all (encode rs) (omega (arith, shorter)) ∙ records_of-encode rs)
    where
      all : ℕ
      all = length (encode (r ∷ rs))

      shorter : length (encode rs) < length (encode (r ∷ rs))
      shorter = pc.take_shorter (encode (r ∷ rs)) r (encode rs) (pc.take-to_bytes r (encode rs))

  -- Records that are written to a buffer one after the other, up to the first that has no space.
  unfoldable pub write_all : WriteBuf → List (Record E) → Outcome WriteBuf
  write_all wb [] = ok wb
  write_all wb (r ∷ rs) = write_record pc wb r >>= λ wb'. write_all wb' rs

  abbrev pub Reads : WriteBuf → List (Record E) → Outcome WriteBuf → Type 0
  Reads wb rs (ok wb') =
      (wb'.capacity ≡ wb.capacity)
      × (wb'.bytes ≡ wb.bytes ++ encode rs)
      × (length wb'.bytes ≤ max (length wb.bytes) wb.capacity)
  Reads wb rs (err e) =
      (wb.capacity < length wb.bytes + length (encode rs)) × (e ≡ Errno.out_of_disk)
  Reads wb rs panic = ⊥

  write_all-Reads : (wb : WriteBuf) (rs : List (Record E)) → Reads wb rs (write_all wb rs)
  unfolding write_all write_record
  write_all-Reads wb [] = (refl, sym (append-nil wb.bytes), omega arith)
  write_all-Reads wb (r ∷ rs) =
      elim (Bool-cases (leb (length wb.bytes + length (pc.to_bytes r)) wb.capacity)) [
        | inl e ↦ rw e (
            then_rest (write_all next rs)
              (omega (
                arith,
                leb→le (length wb.bytes + length (pc.to_bytes r)) wb.capacity e,
                length-append wb.bytes (pc.to_bytes r),
              ))
              (write_all-Reads next rs))
        | inr e ↦ rw e (
          omega (
            arith,
            leb→lt (length wb.bytes + length (pc.to_bytes r)) wb.capacity e,
            length-append (pc.to_bytes r) (encode rs),
          ),
          refl,
        )
      ]
    where
      next : WriteBuf
      next = record wb { bytes = wb.bytes ++ pc.to_bytes r }

      then_rest :
          (o : Outcome WriteBuf)
          → length (wb.bytes ++ pc.to_bytes r) ≤ wb.capacity
          → Reads (record wb { bytes = wb.bytes ++ pc.to_bytes r }) rs o
          → Reads wb (r ∷ rs) o
      then_rest (ok wb') room (same, held, small) = (
        same,
        held ∙ append_assoc wb.bytes (pc.to_bytes r) (encode rs),
        omega (arith, small, room),
      )
      then_rest (err e) room (full, same) = (
        omega (
          arith,
          full,
          length-append wb.bytes (pc.to_bytes r),
          length-append (pc.to_bytes r) (encode rs),
        ),
        same,
      )
      then_rest panic room c = absurd c

  abbrev pub ReadsBack : ℕ → List (Record E) → Outcome WriteBuf → Type 0
  ReadsBack capacity rs (ok wb) =
      (records_of pc wb.bytes ≡ rs) × (wb.capacity ≡ capacity) × (length wb.bytes ≤ capacity)
  ReadsBack capacity rs (err e) = (capacity < length (encode rs)) × (e ≡ Errno.out_of_disk)
  ReadsBack capacity rs panic = ⊥

  -- Any records are written one after the other to a new `WriteBuf`. If all of them fit, a
  -- `RecordSlice` over its bytes, which are within its capacity, gives just these records in the
  -- same order; otherwise a write returns `OutOfDisk`.
  pub write_all-records_of :
      (capacity : ℕ) (rs : List (Record E))
      → ReadsBack capacity rs (write_all (new_write_buf capacity) rs)
  write_all-records_of capacity rs =
      read (write_all (new_write_buf capacity) rs) (write_all-Reads (new_write_buf capacity) rs)
    where
      read : (o : Outcome WriteBuf) → Reads (new_write_buf capacity) rs o → ReadsBack capacity rs o
      read (ok wb) (same, held, small) =
          (ap (records_of pc) held ∙ records_of-encode rs, same, omega (arith, small))
      read (err e) (full, same) = (omega (arith, full), same)
      read panic c = absurd c

  pub records_in-append :
      (bs cs : List (List ℕ)) → records_in pc (bs ++ cs) ≡ records_in pc bs ++ records_in pc cs
  unfolding records_in
  records_in-append [] cs = refl
  records_in-append (b ∷ bs) cs =
      ap (λ l. records_of pc b ++ l) (records_in-append bs cs)
      ∙ sym (append_assoc (records_of pc b) (records_in pc bs) (records_in pc cs))

  -- The records of blocks, one more of which holds some records.
  pub records_in-more :
      (bs : List (List ℕ)) (rs : List (Record E))
      → records_in pc (bs ++ (encode rs ∷ [])) ≡ records_in pc bs ++ rs
  unfolding records_in
  records_in-more bs rs =
      records_in-append bs (encode rs ∷ [])
      ∙ ap (λ l. records_in pc bs ++ l)
          (append-nil (records_of pc (encode rs)) ∙ records_of-encode rs)

  pub records_in-one : (rs : List (Record E)) → records_in pc (encode rs ∷ []) ≡ rs
  unfolding records_in
  records_in-one rs = append-nil (records_of pc (encode rs)) ∙ records_of-encode rs
