-- ===== src/TxLog/Applied.antt =====
-- What an edit of a log does to a state whose buckets agree with its entries.
use mlsdisk.Base.{
  Bool, Bool-cases, List, Option, Option-cases, Outcome, [], ap, arith, err, false, if◌then◌else◌,
  inl, inr, lookup, lookup-insert, lookup-remove, none, ok, panic, refl, some, sym, true, ℕ, ◌==◌,
  ◌>>=◌, ◌∙◌, ◌∷◌, ◌≡◌,
}
use mlsdisk.TxLog.{
  TxLogEdit, TxLogEntry, TxLogStoreState, append_root, append_tx_log, apply_tx_edit, apply_tx_edits,
  create_in, create_tx_log, delete_it, delete_tx_log, move_from, move_tx_log, put_in, take_from,
}
use mlsdisk.TxLog.Buckets.{listed, listed-put_in, listed-take_from, member}

false_lem : ¬ (false ≡ true)
false_lem h = ground (arith, h)

module _ {K : Type 0} {R : Type 0} where
  abbrev pub in_bucket : Option (TxLogEntry K R) → ℕ → Bool
  in_bucket none n = false
  in_bucket (some e) n = e.bucket == n

  -- A bucket lists exactly the logs whose entries name it.
  abbrev pub IsConsistent : TxLogStoreState K R → Type 0
  IsConsistent s = (i n : ℕ) → listed s.bucket_table n i ≡ in_bucket (lookup i s.log_table) n

  -- The entry of a log after an edit of it; `none` where the edit does not fit the entry.
  abbrev pub entry_after :
      Option (TxLogEntry K R) → TxLogEdit K R → Option (Option (TxLogEntry K R))
  entry_after none (create_in bucket key (some root)) =
      some (some (record { bucket = bucket; key = key; root_mht = root }))
  entry_after none (create_in bucket key none) = none
  entry_after (some e) (create_in bucket key root) = none
  entry_after none (append_root root) = none
  entry_after (some e) (append_root root) = some (some (record e { root_mht = root }))
  entry_after none delete_it = some none
  entry_after (some e) delete_it = some none
  entry_after none (move_from a b) = none
  entry_after (some e) (move_from a b) =
      if e.bucket == a then some (some (record e { bucket = b })) else none

  abbrev pub Applies :
      TxLogStoreState K R
      → ℕ
      → Option (Option (TxLogEntry K R))
      → Outcome (TxLogStoreState K R)
      → Type 0
  Applies s i none r = r ≡ panic
  Applies s i (some o) r =
      (t : TxLogStoreState K R) × (r ≡ ok t)
      × IsConsistent t
      × ((j : ℕ) → lookup j t.log_table ≡ (if i == j then o else lookup j s.log_table))

  -- The entry of one log changes, and the buckets list that log as its new entry says.
  settled :
      (s t : TxLogStoreState K R) (i : ℕ) (o : Option (TxLogEntry K R))
      → IsConsistent s
      → ((j : ℕ) → lookup j t.log_table ≡ (if i == j then o else lookup j s.log_table))
      → ((n j : ℕ)
          → listed t.bucket_table n j
            ≡ (if i == j then in_bucket o n else listed s.bucket_table n j))
      → IsConsistent t
  settled s t i o c h l j n = l n j ∙ go ∙ sym (ap (λ x. in_bucket x n) (h j))
    where
      go :
          (if i == j then in_bucket o n else listed s.bucket_table n j)
          ≡ in_bucket (if i == j then o else lookup j s.log_table) n
      go = elim (Bool-cases (i == j)) [ inl e ↦ rw e refl | inr e ↦ rw e (c j n) ]

  -- What a bucket says of the log of a known entry.
  known :
      (s : TxLogStoreState K R) (i : ℕ) (o : Option (TxLogEntry K R))
      → IsConsistent s
      → lookup i s.log_table ≡ o
      → (n j : ℕ) → i ≡ j
      → listed s.bucket_table n j ≡ in_bucket o n
  known s i o c e n j q =
      ap (λ x. listed s.bucket_table n x) (sym q) ∙ c i n ∙ ap (λ x. in_bucket x n) e

  moved :
      (s : TxLogStoreState K R) (i a b : ℕ) (old : TxLogEntry K R)
      → IsConsistent s
      → lookup i s.log_table ≡ some old
      → old.bucket ≡ a
      → (n j : ℕ)
      → listed (put_in (take_from s.bucket_table a i) b i) n j
        ≡ (if i == j then b == n else listed s.bucket_table n j)
  moved s i a b old c e q n j = ground (
    arith,
    listed-put_in (take_from s.bucket_table a i) b i n j,
    listed-take_from s.bucket_table a i n j,
    known s i (some old) c e n j,
  )

  -- An edit of a log, on a state in which every bucket lists exactly the logs that name it, panics
  -- exactly if it does not fit the entry of its log: a creation without a root or of a log there
  -- is, an append to a log there is not, a move from a bucket the log is not in. Otherwise the entry
  -- of its log is as the edit says, all others are as before, and the buckets still list exactly
  -- their logs.
  pub apply_tx_edit_lem :
      (s : TxLogStoreState K R) (i : ℕ) (edit : TxLogEdit K R)
      → IsConsistent s
      → Applies s i (entry_after (lookup i s.log_table) edit) (apply_tx_edit s i edit)
  unfolding apply_tx_edit create_tx_log append_tx_log delete_tx_log move_tx_log
  apply_tx_edit_lem s i (create_in b k none) c = elim (Option-cases (lookup i s.log_table)) [
    | inl e ↦ rw e refl
    | inr (old, e) ↦ rw e refl
  ]
  apply_tx_edit_lem s i (create_in b k (some root)) c = elim (Option-cases (lookup i s.log_table)) [
    | inl e ↦ rw e (
      _,
      refl,
      settled s _ i (some _) c (λ j. lookup-insert i j _ s.log_table)
          (λ n j. ground (arith, listed-put_in s.bucket_table b i n j, known s i none c e n j)),
      λ j. lookup-insert i j _ s.log_table,
    )
    | inr (old, e) ↦ rw e refl
  ]
  apply_tx_edit_lem s i (append_root root) c = elim (Option-cases (lookup i s.log_table)) [
    | inl e ↦ rw e refl
    | inr (old, e) ↦ rw e (
      _,
      refl,
      settled s _ i (some _) c (λ j. lookup-insert i j _ s.log_table)
          (λ n j. ground (arith, known s i (some old) c e n j)),
      λ j. lookup-insert i j _ s.log_table,
    )
  ]
  apply_tx_edit_lem s i delete_it c = elim (Option-cases (lookup i s.log_table)) [
    | inl e ↦
        rw (delete_tx_log, e)
          (
            _,
            refl,
            settled s _ i none c (λ j. lookup-remove i j s.log_table)
                (λ n j. ground (arith, known s i none c e n j)),
            λ j. lookup-remove i j s.log_table,
          )
    | inr (old, e) ↦
        rw (delete_tx_log, e)
          (
            _,
            refl,
            settled s _ i none c (λ j. lookup-remove i j s.log_table)
                (λ n j. ground (
                  arith,
                  listed-take_from s.bucket_table old.bucket i n j,
                  known s i (some old) c e n j,
                )),
            λ j. lookup-remove i j s.log_table,
          )
  ]
  apply_tx_edit_lem s i (move_from a b) c = elim (Option-cases (lookup i s.log_table)) [
    | inl e ↦ rw e refl
    | inr (old, e) ↦ elim (Bool-cases (old.bucket == a)) [
      | inl q ↦ elim (Option-cases (lookup a s.bucket_table)) [
        | inl none_there ↦ absurd (
            false_lem
              (sym (ap (λ x. member x i) none_there) ∙ known s i (some old) c e a i refl ∙ q))
        | inr (ids, there) ↦
            rw (e, q, there)
              (
                _,
                refl,
                settled s _ i (some _) c (λ j. lookup-insert i j _ s.log_table)
                    (λ n j. moved s i a b old c e (ground (arith, q)) n j),
                λ j. lookup-insert i j _ s.log_table,
              )
      ]
      | inr q ↦ rw (e, q) refl
    ]
  ]

  abbrev pub Returns : Outcome (TxLogStoreState K R) → Type 0
  Returns (ok t) = IsConsistent t
  Returns (err e) = ⊥
  Returns panic = Unit

  -- All edits of a transaction: they return no error, and the state they give is consistent.
  pub apply_tx_edits_lem :
      (edits : List (ℕ × TxLogEdit K R)) (s : TxLogStoreState K R)
      → IsConsistent s
      → Returns (apply_tx_edits edits s)
  unfolding apply_tx_edits
  apply_tx_edits_lem [] s c = c
  apply_tx_edits_lem ((i, edit) ∷ edits) s c =
      go (entry_after (lookup i s.log_table) edit) (apply_tx_edit_lem s i edit c)
        (λ t d. apply_tx_edits_lem edits t d)
    where
      go :
          (o : Option (Option (TxLogEntry K R)))
          → Applies s i o (apply_tx_edit s i edit)
          → ((t : TxLogStoreState K R) → IsConsistent t → Returns (apply_tx_edits edits t))
          → Returns (apply_tx_edit s i edit >>= λ t. apply_tx_edits edits t)
      go none e rest = rw e tt
      go (some o) (t, e, d, l) rest = rw e (rest t d)
