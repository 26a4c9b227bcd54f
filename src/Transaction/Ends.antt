-- ===== src/Transaction/Ends.antt =====
-- How a transaction ends: the order of the handlers, and the status.
use mlsdisk.Base.{
  Errno, List, Option, Outcome, [], ap, err, inl, inr, none, ok, panic, refl, reverse, reverse-cons,
  some, subst, sym, ◌++◌, ◌∙◌, ◌∷◌, ◌≡◌, ◌≢◌, ◌⊎◌,
}
use mlsdisk.Transaction.{
  Tx, TxProvider, TxStatus, abort_tx, aborted, call_abort_handlers, call_all, call_commit_handlers,
  call_precommit_handlers, commit_tx, committed, context, drop_tx, is_ongoing, ongoing, try_all,
}

module _ {S : Type 0} where
  -- All handlers called, the one that was registered last first.
  abbrev pub last_first : List (S → S) → S → S
  last_first [] s = s
  last_first (f ∷ fs) s = f (last_first fs s)

  -- All pre-commit handlers succeed, called in that order, and lead to `s'`.
  abbrev pub AllPass : List (S → S × Option Errno) → S → S → Type 0
  AllPass [] s s' = s' ≡ s
  AllPass (f ∷ fs) s s' = (m : S) × AllPass fs s m × (f m ≡ (s', none))

  -- One of them fails with `e` and leaves `s'`, after those that come before it have succeeded.
  abbrev pub OneFails : List (S → S × Option Errno) → S → S → Errno → Type 0
  OneFails [] s s' e = ⊥
  OneFails (f ∷ fs) s s' e = OneFails fs s s' e ⊎ ((m : S) × AllPass fs s m × (f m ≡ (s', some e)))

  call_all-append :
      (fs : List (S → S)) (f : S → S) (s : S) → call_all (fs ++ (f ∷ [])) s ≡ f (call_all fs s)
  unfolding call_all
  call_all-append [] f s = refl
  call_all-append (g ∷ fs) f s = call_all-append fs f (g s)

  call_all-reverse : (fs : List (S → S)) (s : S) → call_all (reverse fs) s ≡ last_first fs s
  unfolding call_all
  call_all-reverse [] s = refl
  call_all-reverse (f ∷ fs) s =
      ap (λ l. call_all l s) (reverse-cons f fs)
      ∙ call_all-append (reverse fs) f s
      ∙ ap f (call_all-reverse fs s)

  abbrev then_try : (S → S × Option Errno) → S × Option Errno → S × Option Errno
  then_try f r = elim r.1 [ none ↦ f r.0 | some e ↦ (r.0, some e) ]

  try_all-append :
      (fs : List (S → S × Option Errno)) (f : S → S × Option Errno) (s : S)
      → try_all (fs ++ (f ∷ [])) s ≡ then_try f (try_all fs s)
  unfolding try_all
  try_all-append [] f s = go (f s)
    where
      go : (r : S × Option Errno) → (elim r.1 [ none ↦ (r.0, none) | some e ↦ (r.0, some e) ]) ≡ r
      go (s', none) = refl
      go (s', some e) = refl
  try_all-append (g ∷ fs) f s = go (λ m. try_all-append fs f m) (g s)
    where
      go :
          ((m : S) → try_all (fs ++ (f ∷ [])) m ≡ then_try f (try_all fs m))
          → (r : S × Option Errno)
          → (elim r.1 [ none ↦ try_all (fs ++ (f ∷ [])) r.0 | some e ↦ (r.0, some e) ])
            ≡ then_try f (elim r.1 [ none ↦ try_all fs r.0 | some e ↦ (r.0, some e) ])
      go rest (m, none) = rest m
      go rest (m, some e) = refl

  -- What the pre-commit handlers do.
  abbrev Tries : List (S → S × Option Errno) → S → S × Option Errno → Type 0
  Tries fs s (s', none) = AllPass fs s s'
  Tries fs s (s', some e) = OneFails fs s s' e

  try_all-reverse : (fs : List (S → S × Option Errno)) (s : S) → Tries fs s (try_all (reverse fs) s)
  unfolding try_all
  try_all-reverse [] s = refl
  try_all-reverse (f ∷ fs) s =
      subst (Tries (f ∷ fs) s)
        (sym (ap (λ l. try_all l s) (reverse-cons f fs) ∙ try_all-append (reverse fs) f s))
        (next (try_all (reverse fs) s) (try_all-reverse fs s))
    where
      called : (m : S) (q : S × Option Errno) → AllPass fs s m → f m ≡ q → Tries (f ∷ fs) s q
      called m (s', none) w e = (m, w, e)
      called m (s', some e') w e = inr (m, w, e)

      next : (r : S × Option Errno) → Tries fs s r → Tries (f ∷ fs) s (then_try f r)
      next (m, none) w = called m (f m) w refl
      next (m, some e) w = inl w

  -- What a commit does.
  abbrev pub Commits : TxProvider S → Tx S → Outcome (Tx S × Option Errno) → Type 0
  Commits p tx (ok (tx', none)) =
      (tx.status ≡ ongoing)
      × (tx'.status ≡ committed)
      × (m : S) × AllPass p.precommit_handlers tx.state m
      × (tx'.state ≡ last_first p.commit_handlers m)
  Commits p tx (ok (tx', some e)) =
      (tx.status ≡ ongoing)
      × (tx'.status ≡ aborted)
      × (m : S) × OneFails p.precommit_handlers tx.state m e
      × (tx'.state ≡ last_first p.abort_handlers m)
  Commits p tx (err e) = ⊥
  Commits p tx panic = tx.status ≢ ongoing

  -- A commit panics exactly if the transaction has ended. Otherwise the pre-commit handlers are
  -- called, the one that was registered last first, until one fails. If none fails, the commit
  -- handlers are called in the same order, and the transaction is committed; if one fails, the
  -- abort handlers are called instead, the transaction is aborted, and the error is returned.
  pub commit_tx_lem : (p : TxProvider S) (tx : Tx S) → Commits p tx (commit_tx p tx)
  unfolding commit_tx is_ongoing context call_precommit_handlers call_commit_handlers
      call_abort_handlers
  commit_tx_lem p tx = by_status tx.status tx.state
    where
      finish :
          (s : S) (pre : S × Option Errno)
          → Tries p.precommit_handlers s pre
          → let r : S × Option Errno = elim pre.1 [
            | none ↦ (call_all (reverse p.commit_handlers) pre.0, none)
            | some e ↦ (call_all (reverse p.abort_handlers) pre.0, some e)
          ] in
            Commits p
              (record { status = ongoing; state = s })
              (ok (
                record { status = elim r.1 [ none ↦ committed | some e ↦ aborted ]; state = r.0 },
                r.1,
              ))
      finish s (m, none) w = (refl, refl, m, w, call_all-reverse p.commit_handlers m)
      finish s (m, some e) w = (refl, refl, m, w, call_all-reverse p.abort_handlers m)

      by_status :
          (status : TxStatus) (s : S)
          → Commits p
              (record { status = status; state = s })
              (commit_tx p (record { status = status; state = s }))
      by_status ongoing s =
          finish s (try_all (reverse p.precommit_handlers) s)
            (try_all-reverse p.precommit_handlers s)
      by_status committed s = λ e. cc
      by_status aborted s = λ e. cc

  -- What an abort does.
  abbrev pub Aborts : TxProvider S → Tx S → Outcome (Tx S) → Type 0
  Aborts p tx (ok tx') =
      (tx.status ≡ ongoing)
      × (tx'.status ≡ aborted)
      × (tx'.state ≡ last_first p.abort_handlers tx.state)
      × (drop_tx tx' ≡ ok tt)
  Aborts p tx (err e) = ⊥
  Aborts p tx panic = tx.status ≢ ongoing

  -- An abort panics exactly if the transaction has ended. Otherwise the abort handlers are called,
  -- the one that was registered last first, and the transaction is aborted and can be dropped.
  pub abort_tx_lem : (p : TxProvider S) (tx : Tx S) → Aborts p tx (abort_tx p tx)
  unfolding abort_tx is_ongoing context call_abort_handlers drop_tx
  abort_tx_lem p tx = by_status tx.status tx.state
    where
      by_status :
          (status : TxStatus) (s : S)
          → Aborts p
              (record { status = status; state = s })
              (abort_tx p (record { status = status; state = s }))
      by_status ongoing s = (refl, refl, call_all-reverse p.abort_handlers s, refl)
      by_status committed s = λ e. cc
      by_status aborted s = λ e. cc
