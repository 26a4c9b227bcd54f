-- ===== src/Journal/Groups.antt =====
-- Groups of edits, and those among some records.
use mlsdisk.Base.{==_refl, List, Option, [], ap, if◌then◌else◌, none, refl, some, true, ℕ, ◌∷◌, ◌≡◌}
use mlsdisk.Edit.{Edit, apply_group}
use mlsdisk.Journal.{Record, bytes_eq, edit, version}

-- Several groups, one after the other.
abbrev pub apply_groups : {E S : Type 0} → Edit E S → List (List E) → S → S
apply_groups ed [] s = s
apply_groups ed (group ∷ groups) s = apply_groups ed groups (apply_group ed group s)

abbrev pub edits : {E : Type 0} → List (List E) → List (Record E)
edits [] = []
edits (group ∷ groups) = edit group ∷ edits groups

-- The groups of all edits among some records.
abbrev pub groups_of : {E : Type 0} → List (Record E) → List (List E)
groups_of [] = []
groups_of (version mac ∷ records) = groups_of records
groups_of (edit group ∷ records) = group ∷ groups_of records

pub groups_of-edits : {E : Type 0} (gs : List (List E)) → groups_of (edits gs) ≡ gs
groups_of-edits [] = refl
groups_of-edits (g ∷ gs) = ap (λ l. g ∷ l) (groups_of-edits gs)

-- The records behind the first one of a version, if there is one.
abbrev pub behind_version : {E : Type 0} → List ℕ → List (Record E) → Option (List (Record E))
behind_version mac [] = none
behind_version mac (version snapshot_mac ∷ records) =
    let rest = behind_version mac records in
    if bytes_eq snapshot_mac mac then some records else rest
behind_version mac (edit group ∷ records) = behind_version mac records

pub bytes_eq_refl : (b : List ℕ) → bytes_eq b b ≡ true
unfolding bytes_eq
bytes_eq_refl [] = refl
bytes_eq_refl (x ∷ b) = rw (==_refl x) (bytes_eq_refl b)

pub behind_version-edits :
    {E : Type 0} (mac : List ℕ) (gs : List (List E)) → behind_version mac (edits gs) ≡ none
behind_version-edits mac [] = refl
behind_version-edits mac (g ∷ gs) = behind_version-edits mac gs
