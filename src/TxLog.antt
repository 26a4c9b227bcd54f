-- ===== src/TxLog.antt =====
-- The persistent state of the logs of core/src/layers/3-log/tx_log.rs, the edits of a transaction
-- and their effect. Keys and roots of logs are values of any types; the name of a bucket is a
-- number, since names are only compared. A `HashSet` is a list of its members.
pub mod Buckets
pub mod Applied
mod Tests
use mlsdisk.Base.{
  Bool, List, Option, Outcome, [], assert, contains, false, if◌then◌else◌, insert, lookup, none, ok,
  panic, remove, some, true, unwrap, ℕ, ◌==◌, ◌>>=◌, ◌>>◌, ◌∷◌,
}

-- `TxLogEntry`
pub record TxLogEntry (K : Type 0) (R : Type 0) : Type 0 where
  pub bucket : ℕ
  pub key : K
  pub root_mht : R

-- `TxLogStoreState`
pub record TxLogStoreState (K : Type 0) (R : Type 0) : Type 0 where
  pub log_table : List (ℕ × TxLogEntry K R)
  pub bucket_table : List (ℕ × List ℕ)

-- `TxLogEdit`
pub data TxLogEdit (K : Type 0) (R : Type 0) : Type 0 where
  create_in : ℕ → K → Option R → TxLogEdit K R
  append_root : R → TxLogEdit K R
  delete_it : TxLogEdit K R
  move_from : ℕ → ℕ → TxLogEdit K R

-- `HashSet::insert` and `HashSet::remove`
abbrev pub add_id : ℕ → List ℕ → List ℕ
add_id k ids = if contains k ids then ids else k ∷ ids

abbrev pub remove_id : ℕ → List ℕ → List ℕ
remove_id k [] = []
remove_id k (j ∷ ids) = let rest = remove_id k ids in if j == k then rest else j ∷ rest

-- The changes of a bucket in `create_log` and `move_log`, and in `delete_log`.
unfoldable pub put_in : List (ℕ × List ℕ) → ℕ → ℕ → List (ℕ × List ℕ)
put_in buckets bucket log_id = elim (lookup bucket buckets) [
  | some ids ↦ insert bucket (add_id log_id ids) buckets
  | none ↦ insert bucket (log_id ∷ []) buckets
]

unfoldable pub take_from : List (ℕ × List ℕ) → ℕ → ℕ → List (ℕ × List ℕ)
take_from buckets bucket log_id = elim (lookup bucket buckets) [
  | some ids ↦ insert bucket (remove_id log_id ids) buckets
  | none ↦ buckets
]

module _ {K : Type 0} {R : Type 0} where
  -- `TxLogStoreState::new`
  unfoldable pub new_log_state : TxLogStoreState K R
  new_log_state = record { log_table = []; bucket_table = [] }

  -- `TxLogStoreState::create_log`
  unfoldable pub create_tx_log : TxLogStoreState K R → ℕ → ℕ → K → R → Outcome (TxLogStoreState K R)
  create_tx_log s new_log_id bucket key root_mht = do
    assert (elim (lookup new_log_id s.log_table) [ none ↦ true | some e ↦ false ])
    let entry : TxLogEntry K R = record { bucket = bucket; key = key; root_mht = root_mht }
    ok (record {
      log_table = insert new_log_id entry s.log_table;
      bucket_table = put_in s.bucket_table bucket new_log_id;
    })

  -- `TxLogStoreState::append_log`
  unfoldable pub append_tx_log : TxLogStoreState K R → ℕ → R → Outcome (TxLogStoreState K R)
  append_tx_log s log_id root_mht = do
    entry ← unwrap (lookup log_id s.log_table)
    let changed : TxLogEntry K R = record entry { root_mht = root_mht }
    ok (record s { log_table = insert log_id changed s.log_table })

  -- `TxLogStoreState::delete_log`
  unfoldable pub delete_tx_log : TxLogStoreState K R → ℕ → TxLogStoreState K R
  delete_tx_log s log_id =
      let rest = remove log_id s.log_table in
      elim (lookup log_id s.log_table) [
        | none ↦ record s { log_table = rest }
        | some entry ↦ record {
          log_table = rest;
          bucket_table = take_from s.bucket_table entry.bucket log_id;
        }
      ]

  -- `TxLogStoreState::move_log`
  unfoldable pub move_tx_log : TxLogStoreState K R → ℕ → ℕ → ℕ → Outcome (TxLogStoreState K R)
  move_tx_log s log_id from_bucket to_bucket = do
    entry ← unwrap (lookup log_id s.log_table)
    assert (entry.bucket == from_bucket)
    let changed : TxLogEntry K R = record entry { bucket = to_bucket }
    _ ← unwrap (lookup from_bucket s.bucket_table)
    ok (record {
      log_table = insert log_id changed s.log_table;
      bucket_table = put_in (take_from s.bucket_table from_bucket log_id) to_bucket log_id;
    })

  -- `TxLogStoreEdit::apply_to`, one edit and all of them
  unfoldable pub apply_tx_edit :
      TxLogStoreState K R → ℕ → TxLogEdit K R → Outcome (TxLogStoreState K R)
  apply_tx_edit s log_id (create_in bucket key root_mht) =
      unwrap root_mht >>= λ root. create_tx_log s log_id bucket key root
  apply_tx_edit s log_id (append_root root_mht) = append_tx_log s log_id root_mht
  apply_tx_edit s log_id delete_it = ok (delete_tx_log s log_id)
  apply_tx_edit s log_id (move_from from_bucket to_bucket) =
      move_tx_log s log_id from_bucket to_bucket

  unfoldable pub apply_tx_edits :
      List (ℕ × TxLogEdit K R) → TxLogStoreState K R → Outcome (TxLogStoreState K R)
  apply_tx_edits [] s = ok s
  apply_tx_edits ((log_id, edit) ∷ edits) s =
      apply_tx_edit s log_id edit >>= λ t. apply_tx_edits edits t
