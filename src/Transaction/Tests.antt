-- ===== src/Transaction/Tests.antt =====
-- Runs of a transaction whose state is the trace of its handlers, and the theorems at it.
use mlsdisk.Base.{Errno, List, Option, [], none, some, ℕ, ◌∷◌}
use mlsdisk.Transaction.{TxProvider, commit_tx, new_tx}
use mlsdisk.Transaction.Ends.{Commits, commit_tx_lem}

abbrev note : ℕ → List ℕ → List ℕ
note n trace = n ∷ trace

abbrev passing : ℕ → List ℕ → List ℕ × Option Errno
passing n trace = (n ∷ trace, none)

abbrev failing : ℕ → List ℕ → List ℕ × Option Errno
failing n trace = (n ∷ trace, some Errno.io_failed)

abbrev provider : TxProvider (List ℕ)
provider = record {
  precommit_handlers = passing 1 ∷ failing 2 ∷ passing 3 ∷ [];
  commit_handlers = note 4 ∷ [];
  abort_handlers = note 5 ∷ note 6 ∷ [];
}

commit_tx_lem_example : Commits provider (new_tx []) (commit_tx provider (new_tx []))
commit_tx_lem_example = commit_tx_lem provider (new_tx [])
