-- ===== src/DiffView/SideBySide.antt =====
-- buildSideBySideDiffRows of ui/src/state/git-review.ts: the rows of the view side by side.
use vivi.Base.{
  ℕ, zero, suc, Bool, true, false, Option, none, some, List, [], ◌∷◌, ◌++◌, length, if◌then◌else◌,
}
use vivi.Base.Strings.{Text}
use vivi.DiffView.{DiffLineKind, meta, hunk, add, remove, context, ParsedDiffLine}

pub data RowKind : Type 0 where
  meta_row hunk_row context_row changed_row add_row remove_row : RowKind

pub record SideBySideDiffRow : Type 0 where
  pub kind : RowKind
  pub old_line : Option ℕ
  pub old_text : Option Text
  pub new_line : Option ℕ
  pub new_text : Option Text
  pub text : Option Text

abbrev pub whole_row : RowKind → Text → SideBySideDiffRow
whole_row k t = record {
  kind = k;
  old_line = none;
  old_text = none;
  new_line = none;
  new_text = none;
  text = some t;
}

-- The run of removed, or of added, lines at the head, and what follows it.
abbrev pub run_of : (DiffLineKind → Bool) → List ParsedDiffLine → List ParsedDiffLine
run_of p [] = []
run_of p (l ∷ ls) = if p l.kind then l ∷ run_of p ls else []

abbrev pub after_run : (DiffLineKind → Bool) → List ParsedDiffLine → List ParsedDiffLine
after_run p [] = []
after_run p (l ∷ ls) = if p l.kind then after_run p ls else l ∷ ls

abbrev pub is_removed : DiffLineKind → Bool
is_removed remove = true
is_removed _ = false

abbrev pub is_added : DiffLineKind → Bool
is_added add = true
is_added _ = false

-- The loop over `rowIndex` up to the longer run.
abbrev pub paired : List ParsedDiffLine → List ParsedDiffLine → List SideBySideDiffRow
paired [] [] = []
paired [] (a ∷ as') =
    record {
      kind = add_row;
      old_line = none;
      old_text = none;
      new_line = a.new_line;
      new_text = some a.text;
      text = none;
    }
    ∷ paired [] as'
paired (r ∷ rs) [] =
    record {
      kind = remove_row;
      old_line = r.old_line;
      old_text = some r.text;
      new_line = none;
      new_text = none;
      text = none;
    }
    ∷ paired rs []
paired (r ∷ rs) (a ∷ as') =
    record {
      kind = changed_row;
      old_line = r.old_line;
      old_text = some r.text;
      new_line = a.new_line;
      new_text = some a.text;
      text = none;
    }
    ∷ paired rs as'

abbrev pub context_row_of : ParsedDiffLine → SideBySideDiffRow
context_row_of l = record {
  kind = context_row;
  old_line = l.old_line;
  old_text = some l.text;
  new_line = l.new_line;
  new_text = some l.text;
  text = none;
}

abbrev pub add_row_of : ParsedDiffLine → SideBySideDiffRow
add_row_of l = record {
  kind = add_row;
  old_line = none;
  old_text = none;
  new_line = l.new_line;
  new_text = some l.text;
  text = none;
}

-- The `while` loop over `index`, on fuel: a row, or the rows of a replacement, and the rest.
unfoldable pub rows_from : ℕ → List ParsedDiffLine → List SideBySideDiffRow
rows_from zero lines = []
rows_from (suc fuel) [] = []
rows_from (suc fuel) (l ∷ ls) = elim l.kind [
  | meta ↦ whole_row meta_row l.text ∷ rows_from fuel ls
  | hunk ↦ whole_row hunk_row l.text ∷ rows_from fuel ls
  | context ↦ context_row_of l ∷ rows_from fuel ls
  | add ↦ add_row_of l ∷ rows_from fuel ls
  | remove ↦
      paired (l ∷ run_of is_removed ls) (run_of is_added (after_run is_removed ls))
      ++ rows_from fuel (after_run is_added (after_run is_removed ls))
]

unfoldable pub build_side_by_side_diff_rows : List ParsedDiffLine → List SideBySideDiffRow
unfolding rows_from
build_side_by_side_diff_rows lines = rows_from (suc (length lines)) lines
