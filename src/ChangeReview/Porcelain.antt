-- ===== src/ChangeReview/Porcelain.antt =====
-- What parseGitPorcelainStatus reads back of a status that git writes.
use vivi.Base.{ℕ, ◌≡◌, false, not, List, [], ◌∷◌, ◌++◌, Text, is_empty, filter, eqb, All}
use vivi.ChangeReview.{
  GitChange, GitChangeStatus, added, modified, deleted, plain_change, renamed_change, split_nul,
}

-- The two letters that git writes for a file that is not renamed: what happened to it in the index, and
-- in the workspace since. A file that is new in the index counts as added, whatever came after.
pub data Code : ℕ → ℕ → GitChangeStatus → Type 0 where
  untracked : Code b'?' b'?' added
  staged_new : Code b'A' b' ' added
  new_modified : Code b'A' b'M' added
  new_retyped : Code b'A' b'T' added
  new_deleted : Code b'A' b'D' added
  intended : Code b' ' b'A' added
  staged : Code b'M' b' ' modified
  unstaged : Code b' ' b'M' modified
  twice : Code b'M' b'M' modified
  modified_retyped : Code b'M' b'T' modified
  staged_type : Code b'T' b' ' modified
  unstaged_type : Code b' ' b'T' modified
  retyped_modified : Code b'T' b'M' modified
  retyped_twice : Code b'T' b'T' modified
  staged_deleted : Code b'D' b' ' deleted
  unstaged_deleted : Code b' ' b'D' deleted
  modified_deleted : Code b'M' b'D' deleted
  retyped_deleted : Code b'T' b'D' deleted

-- The letters for a renamed file, which may have changed since.
pub data RenameCode : ℕ → ℕ → Type 0 where
  moved : RenameCode b'R' b' '
  moved_modified : RenameCode b'R' b'M'
  moved_retyped : RenameCode b'R' b'T'
  moved_deleted : RenameCode b'R' b'D'
  moved_unstaged : RenameCode b' ' b'R'

abbrev pub HasNoNul : Text → Type 0
HasNoNul = All (λ c. eqb c 0 ≡ false)

-- A path is not empty and has no NUL.
abbrev pub IsPath : Text → Type 0
IsPath p = (is_empty p ≡ false) × HasNoNul p

-- The entries that git writes for changes: two letters, a space and the path; for a renamed file
-- the path that it had comes after it.
pub data Written : List Text → List GitChange → Type 0 where
  end : Written [] []
  plain :
      {es : List Text} {cs : List GitChange} {a b : ℕ} {s : GitChangeStatus} (p : Text)
      → Code a b s
      → IsPath p
      → Written es cs
      → Written ((a ∷ b ∷ b' ' ∷ p) ∷ es) (plain_change p s ∷ cs)
  rename :
      {es : List Text} {cs : List GitChange} {a b : ℕ} (p original : Text)
      → RenameCode a b
      → IsPath p
      → IsPath original
      → Written es cs
      → Written ((a ∷ b ∷ b' ' ∷ p) ∷ original ∷ es) (renamed_change p original ∷ cs)

-- The output of git, with a NUL after each entry.
abbrev pub terminated : List Text → Text
terminated [] = []
terminated (e ∷ es) = e ++ 0 ∷ terminated es

-- The entries that are not empty.
full_entries : Text → List Text
full_entries output = filter (λ entry. not (is_empty entry)) (split_nul output)
