-- ===== src/Transaction.antt =====
-- Transactions and their handlers, core/src/tx/mod.rs. The handlers are those of other components:
-- functions of a state of any type, which has the data of the transaction and all that the
-- handlers share. The provider is alive, and no handler panics. The table of the current
-- transactions of the threads, by which a handler finds its transaction, is left out.
pub mod Ends
mod Tests
use mlsdisk.Base.{
  Bool, Errno, List, Option, Outcome, [], assert, false, none, not, ok, reverse, some, true, ◌++◌,
  ◌>>=◌, ◌>>◌, ◌∷◌,
}

-- `enum TxStatus`
pub data TxStatus : Type 0 where
  ongoing committed aborted : TxStatus

pub is_ongoing : TxStatus → Bool
is_ongoing ongoing = true
is_ongoing committed = false
is_ongoing aborted = false

-- The handlers of a `TxProvider`, in the order in which they were registered. A pre-commit handler
-- gives the error that it returns, if any.
pub record TxProvider (S : Type 0) : Type 0 where
  pub precommit_handlers : List (S → S × Option Errno)
  pub commit_handlers : List (S → S)
  pub abort_handlers : List (S → S)

-- A transaction, with the state of its handlers.
pub record Tx (S : Type 0) : Type 0 where
  pub status : TxStatus
  pub state : S

module _ {S : Type 0} where
  -- `TxProvider::new`
  pub new_provider : TxProvider S
  new_provider = record { precommit_handlers = []; commit_handlers = []; abort_handlers = [] }

  pub register_precommit_handler : (S → S × Option Errno) → TxProvider S → TxProvider S
  register_precommit_handler f p = record p {
    precommit_handlers = p.precommit_handlers ++ (f ∷ []);
  }

  pub register_commit_handler : (S → S) → TxProvider S → TxProvider S
  register_commit_handler f p = record p { commit_handlers = p.commit_handlers ++ (f ∷ []) }

  pub register_abort_handler : (S → S) → TxProvider S → TxProvider S
  register_abort_handler f p = record p { abort_handlers = p.abort_handlers ++ (f ∷ []) }

  -- The loops over the handlers.
  pub try_all : List (S → S × Option Errno) → S → S × Option Errno
  try_all [] s = (s, none)
  try_all (f ∷ fs) s = elim (f s).1 [ none ↦ try_all fs (f s).0 | some e ↦ ((f s).0, some e) ]

  pub call_all : List (S → S) → S → S
  call_all [] s = s
  call_all (f ∷ fs) s = call_all fs (f s)

  pub call_precommit_handlers : TxProvider S → S → S × Option Errno
  unfolding try_all
  call_precommit_handlers p s = try_all (reverse p.precommit_handlers) s

  pub call_commit_handlers : TxProvider S → S → S
  unfolding call_all
  call_commit_handlers p s = call_all (reverse p.commit_handlers) s

  pub call_abort_handlers : TxProvider S → S → S
  unfolding call_all
  call_abort_handlers p s = call_all (reverse p.abort_handlers) s

  -- `Tx::new`, with the state that the initializers give
  pub new_tx : S → Tx S
  new_tx s = record { status = ongoing; state = s }

  -- `Tx::context`
  pub context : {R : Type 0} → Tx S → (S → S × R) → Outcome (Tx S × R)
  unfolding is_ongoing
  context tx f =
      assert (is_ongoing tx.status) >> ok (record tx { state = (f tx.state).0 }, (f tx.state).1)

  -- `Tx::commit`: the error that it returns, if any
  pub commit_tx : TxProvider S → Tx S → Outcome (Tx S × Option Errno)
  unfolding is_ongoing call_precommit_handlers call_commit_handlers call_abort_handlers context
  commit_tx p tx = do
    assert (is_ongoing tx.status)
    r ← context tx (λ s.
        let pre = call_precommit_handlers p s in
        elim pre.1 [
          | none ↦ (call_commit_handlers p pre.0, none)
          | some e ↦ (call_abort_handlers p pre.0, some e)
        ])
    ok (record (r.0) { status = elim r.1 [ none ↦ committed | some e ↦ aborted ] }, r.1)

  -- `Tx::abort`
  pub abort_tx : TxProvider S → Tx S → Outcome (Tx S)
  unfolding is_ongoing call_abort_handlers context
  abort_tx p tx = do
    assert (is_ongoing tx.status)
    r ← context tx (λ s. (call_abort_handlers p s, tt))
    ok (record (r.0) { status = aborted })

  -- `Tx::drop`
  pub drop_tx : Tx S → Outcome (Unit {0})
  unfolding is_ongoing
  drop_tx tx = assert (not (is_ongoing tx.status))
