-- ===== src/TxLog/Tests.antt =====
-- The theorem of an edit at a state with two logs in two buckets.
use mlsdisk.Base.{[], arith, lookup, ok, panic, refl, ℕ, ◌∷◌, ◌≡◌}
use mlsdisk.TxLog.{TxLogStoreState, apply_tx_edit, move_from, move_tx_log, put_in, take_from}
use mlsdisk.TxLog.Applied.{Applies, IsConsistent, apply_tx_edit_lem, entry_after}

abbrev two_logs : TxLogStoreState ℕ ℕ
two_logs = record {
  log_table =
      (4, record { bucket = 0; key = 40; root_mht = 41 })
      ∷ ((6, record { bucket = 1; key = 60; root_mht = 61 }) ∷ []);
  bucket_table = (0, 4 ∷ []) ∷ ((1, 6 ∷ []) ∷ []);
}

two_logs-IsConsistent : IsConsistent two_logs
two_logs-IsConsistent i n = ground arith

apply_tx_edit_lem_example :
    Applies two_logs 4
      (entry_after (lookup 4 two_logs.log_table) (move_from 0 1))
      (apply_tx_edit two_logs 4 (move_from 0 1))
apply_tx_edit_lem_example = apply_tx_edit_lem two_logs 4 (move_from 0 1) two_logs-IsConsistent

-- The moved log is in the other bucket; a move from a bucket that it is not in panics.
moves :
    (apply_tx_edit two_logs 4 (move_from 0 1)
      ≡ ok (record {
        log_table =
            (4, record { bucket = 1; key = 40; root_mht = 41 })
            ∷ ((6, record { bucket = 1; key = 60; root_mht = 61 }) ∷ []);
        bucket_table = (0, []) ∷ ((1, 4 ∷ (6 ∷ [])) ∷ []);
      }))
    × (apply_tx_edit two_logs 4 (move_from 1 0) ≡ panic)
unfolding apply_tx_edit move_tx_log put_in take_from
moves = (refl, refl)
