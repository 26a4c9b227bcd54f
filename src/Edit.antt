-- ===== src/Edit.antt =====
-- Edits to a state, core/src/layers/2-edit/edit.rs, and the policies of
-- core/src/layers/2-edit/journal.rs that decide when a journal of edits is compacted.
use mlsdisk.Base.{
  Bool, List, Outcome, [], assert, false, leb, length, ok, ℕ, ◌++◌, ◌+◌, ◌-◌, ◌==◌, ◌>>◌, ◌∷◌,
}

-- `trait Edit`
pub record Edit (E S : Type 0) : Type 0 where
  pub apply_to : E → S → S

module _ {E : Type 0} where
  -- `EditGroup` is the list of its edits: `new`, `push`, `clear`, `len` and `is_empty`.
  abbrev pub new_group : List E
  new_group = []

  unfoldable pub push_edit : List E → E → List E
  push_edit edits edit = edits ++ (edit ∷ [])

  unfoldable pub clear_group : List E → List E
  clear_group edits = []

  unfoldable pub group_is_empty : List E → Bool
  group_is_empty edits = length edits == 0

-- `EditGroup::apply_to`
unfoldable pub apply_group : {E S : Type 0} → Edit E S → List E → S → S
apply_group ed [] s = s
apply_group ed (edit ∷ edits) s = apply_group ed edits (ed.apply_to edit s)

-- `trait CompactPolicy`
pub record CompactPolicy (P E : Type 0) : Type 0 where
  pub on_commit_edits : P → List E → P
  pub on_append_journal : P → ℕ → P
  pub should_compact : P → Bool
  pub done_compact : P → ℕ → Outcome P

-- `NeverCompactPolicy`
abbrev pub never_compact : {E : Type 0} → CompactPolicy (Unit {0}) E
never_compact = record {
  on_commit_edits = λ p edits. p;
  on_append_journal = λ p nblocks. p;
  should_compact = λ p. false;
  done_compact = λ p nblocks. ok p;
}

pub record DefaultCompactPolicy : Type 0 where
  pub used_blocks : ℕ
  pub total_blocks : ℕ

-- `impl CompactPolicy for DefaultCompactPolicy`
unfoldable pub append_used : DefaultCompactPolicy → ℕ → DefaultCompactPolicy
append_used p nblocks = record p { used_blocks = p.used_blocks + nblocks }

unfoldable pub is_used_up : DefaultCompactPolicy → Bool
is_used_up p = leb p.total_blocks p.used_blocks

unfoldable pub release_blocks : DefaultCompactPolicy → ℕ → Outcome DefaultCompactPolicy
release_blocks p nblocks = do
  assert (leb nblocks p.used_blocks)
  ok (record p { used_blocks = p.used_blocks - nblocks })

-- `from_meta`
abbrev pub policy_from_meta : ℕ → DefaultCompactPolicy
policy_from_meta journal_area_nblocks = record {
  used_blocks = 0;
  total_blocks = journal_area_nblocks;
}

abbrev pub default_compact : {E : Type 0} → CompactPolicy DefaultCompactPolicy E
default_compact = record {
  on_commit_edits = λ p edits. p;
  on_append_journal = append_used;
  should_compact = is_used_up;
  done_compact = release_blocks;
}
