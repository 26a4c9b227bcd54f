-- ===== src/RawLog/Applied.antt =====
-- The effect of the edits of a transaction on the raw logs.
use mlsdisk.RawLog.{
  RawLogEdit, RawLogHead, RawLogStoreEdit, RawLogStoreState, RawLogTail, append, append_entry,
  append_tail, apply_edit, apply_edits, create, create_entry, delete, new_head,
}
use mlsdisk.Base.{
  ==_iff, ==_refl, Bool, Bool-cases, Option, UniqueKeys, [], ap, arith, false, if◌then◌else◌, inl,
  inr, insert, lookup, lookup-insert, lookup-remove, lt→leb, none, ok, refl, remove, some, subst,
  sym, true, ℕ, ◌++◌, ◌+◌, ◌<◌, ◌==◌, ◌^◌, ◌∙◌, ◌∷◌, ◌≡◌,
}

-- A head with a tail behind it.
abbrev pub joined : RawLogHead → RawLogTail → RawLogHead
joined h t = record { chunks = h.chunks ++ t.chunks; num_blocks = h.num_blocks + t.num_blocks }

-- The entry of a log after an edit.
abbrev pub after : RawLogEdit → Option RawLogHead → Option RawLogHead
after (create t) o = some (joined new_head t)
after (append t) none = none
after (append t) (some h) = some (joined h t)
after delete o = none

-- What an edit asks of the entry of its log.
abbrev pub EditFits : RawLogEdit → Option RawLogHead → Type 0
EditFits (create t) none = t.num_blocks < 2 ^ 32
EditFits (create t) (some h) = ⊥
EditFits (append t) none = ⊥
EditFits (append t) (some h) = h.num_blocks + t.num_blocks < 2 ^ 32
EditFits delete o = Unit {0}

-- A table with one entry set or removed.
abbrev OneChanged : RawLogStoreState → RawLogStoreState → ℕ → Option RawLogHead → Type 0
OneChanged state s log_id o = (j : ℕ) → lookup j s ≡ (if log_id == j then o else lookup j state)

append_entry_lem :
    (state : RawLogStoreState) (log_id : ℕ) (t : RawLogTail) (h : RawLogHead)
    → lookup log_id state ≡ some h
    → h.num_blocks + t.num_blocks < 2 ^ 32
    → (append_entry state log_id t ≡ ok (insert log_id (joined h t) state))
unfolding append_entry append_tail
append_entry_lem state log_id t h e range =
    rw (e, lt→leb (h.num_blocks + t.num_blocks) (2 ^ 32) range)

apply_edit_lem :
    (state : RawLogStoreState) (log_id : ℕ) (edit : RawLogEdit) (o : Option RawLogHead)
    → lookup log_id state ≡ o
    → EditFits edit o
    → (s : RawLogStoreState) × (apply_edit state log_id edit ≡ ok s)
      × OneChanged state s log_id (after edit o)
unfolding apply_edit create_entry
apply_edit_lem state log_id (create t) none e fits = (
  insert log_id (joined new_head t) (insert log_id new_head state),
  rw (
    e,
    append_entry_lem (insert log_id new_head state) log_id t new_head
        (lookup-insert log_id log_id new_head state
          ∙ ap (λ b. if b then some new_head else lookup log_id state) (==_refl log_id))
        (omega (arith, fits)),
  ),
  λ j.
      lookup-insert log_id j (joined new_head t) (insert log_id new_head state)
      ∙ ap (λ r. if log_id == j then some (joined new_head t) else r)
          (lookup-insert log_id j new_head state)
      ∙ twice (log_id == j) (some (joined new_head t)) (some new_head) (lookup j state),
)
  where
    twice :
        (b : Bool) (x y z : Option RawLogHead)
        → (if b then x else (if b then y else z)) ≡ (if b then x else z)
    twice true x y z = refl
    twice false x y z = refl
apply_edit_lem state log_id (create t) (some h) e fits = absurd fits
apply_edit_lem state log_id (append t) none e fits = absurd fits
apply_edit_lem state log_id (append t) (some h) e fits = (
  insert log_id (joined h t) state,
  append_entry_lem state log_id t h e fits,
  λ j. lookup-insert log_id j (joined h t) state,
)
apply_edit_lem state log_id delete o e fits =
    (remove log_id state, refl, λ j. lookup-remove log_id j state)

-- The entry of a log after all edits.
abbrev pub after_all : Option RawLogEdit → Option RawLogHead → Option RawLogHead
after_all none o = o
after_all (some edit) o = after edit o

apart_keys :
    (edits : RawLogStoreEdit) (log_id j : ℕ) (edit : RawLogEdit)
    → lookup log_id edits ≡ none
    → lookup j edits ≡ some edit
    → (log_id == j) ≡ false
apart_keys edits log_id j edit e f = elim (Bool-cases (log_id == j)) [
  | inr d ↦ d
  | inl d ↦
      (let found : none ≡ some edit =
          sym e ∙ ap (λ k. lookup k edits) ((==_iff log_id j).0 d) ∙ f in
        cc)
]

-- The entry of one log, by whether it is the one of the first edit.
first_or_other :
    (edits : RawLogStoreEdit) (state s : RawLogStoreState) (log_id : ℕ) (edit : RawLogEdit) (j : ℕ)
    → lookup log_id edits ≡ none
    → OneChanged state s log_id (after edit (lookup log_id state))
    → after_all (lookup j edits) (lookup j s)
      ≡ after_all (if log_id == j then some edit else lookup j edits) (lookup j state)
first_or_other edits state s log_id edit j fresh changed = elim (Bool-cases (log_id == j)) [
  | inl d ↦
      let same_key = (==_iff log_id j).0 d in
      ap (λ r. after_all r (lookup j s)) (ap (λ k. lookup k edits) (sym same_key) ∙ fresh)
      ∙ changed j
      ∙ ap (λ b. if b then after edit (lookup log_id state) else lookup j state) d
      ∙ ap (λ k. after edit (lookup k state)) same_key
      ∙ sym (ap (λ b. after_all (if b then some edit else lookup j edits) (lookup j state)) d)
  | inr d ↦
      ap (after_all (lookup j edits))
        (changed j ∙ ap (λ b. if b then after edit (lookup log_id state) else lookup j state) d)
      ∙ sym (ap (λ b. after_all (if b then some edit else lookup j edits) (lookup j state)) d)
]

applied :
    (edits : RawLogStoreEdit) (state : RawLogStoreState)
    → UniqueKeys edits
    → ((j : ℕ) (edit : RawLogEdit) → lookup j edits ≡ some edit → EditFits edit (lookup j state))
    → (s : RawLogStoreState) × (apply_edits edits state ≡ ok s)
      × ((j : ℕ) → lookup j s ≡ after_all (lookup j edits) (lookup j state))
unfolding apply_edits
applied [] state u fits = (state, refl, λ j. refl)
applied ((log_id, edit) ∷ edits) state (fresh, u) fits =
    let (s1, done, changed) = apply_edit_lem state log_id edit (lookup log_id state) refl (
      fits log_id edit (ap (λ b. if b then some edit else lookup log_id edits) (==_refl log_id))) in
    let (s2, rest, all) = applied edits s1 u (λ j e found.
      let apart = apart_keys edits log_id j e fresh found in
      subst (EditFits e)
        (sym (
          changed j
          ∙ ap (λ b. if b then after edit (lookup log_id state) else lookup j state) apart))
        (fits j e (ap (λ b. if b then some edit else lookup j edits) apart ∙ found))) in
    (s2, rw (done, rest), λ j. all j ∙ first_or_other edits state s1 log_id edit j fresh changed)

-- Each edit fits the entry of its log.
abbrev pub AllFit : RawLogStoreEdit → RawLogStoreState → Type 0
AllFit [] state = Unit {0}
AllFit ((log_id, edit) ∷ edits) state = EditFits edit (lookup log_id state) × AllFit edits state

by_key :
    (b : Bool) (first edit : RawLogEdit) (o : Option RawLogEdit) (h h' : Option RawLogHead)
    → (b ≡ true → h ≡ h')
    → EditFits first h
    → (o ≡ some edit → EditFits edit h')
    → (if b then some first else o) ≡ some edit
    → EditFits edit h'
by_key true first edit o h h' same_entry fits others found =
    subst (λ (o : Option RawLogEdit). elim o [ none ↦ Unit {0} | some e ↦ EditFits e h' ]) found
      (subst (EditFits first) (same_entry refl) fits)
by_key false first edit o h h' same_entry fits others found = others found

fits_each :
    (edits : RawLogStoreEdit) (state : RawLogStoreState)
    → AllFit edits state
    → (j : ℕ) (edit : RawLogEdit) → lookup j edits ≡ some edit
    → EditFits edit (lookup j state)
fits_each [] state f j edit found = (let wrong : none ≡ some edit = found in cc)
fits_each ((log_id, first) ∷ edits) state (f, fs) j edit found =
    by_key (log_id == j) first edit (lookup j edits) (lookup log_id state) (lookup j state)
      (λ d. ap (λ k. lookup k state) ((==_iff log_id j).0 d)) f (fits_each edits state fs j edit)
      found

-- Edits of distinct logs, each of which fits the entry of its log: a creation that of no log, an
-- append that of a log whose number of blocks stays in range. They are all applied, and the entry of
-- each log is then what its own edit makes of it, and as before where it has none.
pub apply_edits_lem :
    (edits : RawLogStoreEdit) (state : RawLogStoreState)
    → UniqueKeys edits
    → AllFit edits state
    → (s : RawLogStoreState) × (apply_edits edits state ≡ ok s)
      × ((j : ℕ) → lookup j s ≡ after_all (lookup j edits) (lookup j state))
apply_edits_lem edits state u fits = applied edits state u (fits_each edits state fits)
