-- ===== src/DiffView/Rows.antt =====
-- The view side by side shows both files whole.
use vivi.Base.{
  ℕ, zero, suc, ◌≤◌, ◌<◌, ◌≡◌, refl, ap, sym, ◌∙◌, Option, none, some, List, [], ◌∷◌, ◌++◌, map,
  length, arith,
}
use mathlib.Core.Path.{ap₂}
use vivi.Base.Strings.{Text}
use vivi.DiffView.{ParsedDiffLine, add, remove, context}
use vivi.DiffView.SideBySide.{
  SideBySideDiffRow, run_of, after_run, is_removed, is_added, paired, rows_from,
  build_side_by_side_diff_rows,
}

-- The numbered lines of the old file among the lines of a diff, and among the rows of the view.
abbrev pub old_lines : List ParsedDiffLine → List (Option ℕ × Text)
old_lines [] = []
old_lines (l ∷ ls) = elim l.kind [
  | context ↦ (l.old_line, l.text) ∷ old_lines ls
  | remove ↦ (l.old_line, l.text) ∷ old_lines ls
  | _ ↦ old_lines ls
]

abbrev pub new_lines : List ParsedDiffLine → List (Option ℕ × Text)
new_lines [] = []
new_lines (l ∷ ls) = elim l.kind [
  | context ↦ (l.new_line, l.text) ∷ new_lines ls
  | add ↦ (l.new_line, l.text) ∷ new_lines ls
  | _ ↦ new_lines ls
]

abbrev pub old_cells : List SideBySideDiffRow → List (Option ℕ × Text)
old_cells [] = []
old_cells (r ∷ rs) = elim r.old_text [
  | none ↦ old_cells rs
  | some t ↦ (r.old_line, t) ∷ old_cells rs
]

abbrev pub new_cells : List SideBySideDiffRow → List (Option ℕ × Text)
new_cells [] = []
new_cells (r ∷ rs) = elim r.new_text [
  | none ↦ new_cells rs
  | some t ↦ (r.new_line, t) ∷ new_cells rs
]

abbrev old_pair : ParsedDiffLine → Option ℕ × Text
old_pair l = (l.old_line, l.text)

abbrev new_pair : ParsedDiffLine → Option ℕ × Text
new_pair l = (l.new_line, l.text)

old_cells-append :
    (xs ys : List SideBySideDiffRow) → old_cells (xs ++ ys) ≡ old_cells xs ++ old_cells ys
old_cells-append [] ys = refl
old_cells-append (x ∷ xs) ys = ground (arith, old_cells-append xs ys)

new_cells-append :
    (xs ys : List SideBySideDiffRow) → new_cells (xs ++ ys) ≡ new_cells xs ++ new_cells ys
new_cells-append [] ys = refl
new_cells-append (x ∷ xs) ys = ground (arith, new_cells-append xs ys)

cells-paired :
    (rs as' : List ParsedDiffLine)
    → (old_cells (paired rs as') ≡ map old_pair rs) × (new_cells (paired rs as') ≡ map new_pair as')
cells-paired [] [] = (refl, refl)
cells-paired [] (a ∷ as') = let ih = cells-paired [] as' in (ih.0, ap (new_pair a ∷◌) ih.1)
cells-paired (r ∷ rs) [] = let ih = cells-paired rs [] in (ap (old_pair r ∷◌) ih.0, ih.1)
cells-paired (r ∷ rs) (a ∷ as') =
    let ih = cells-paired rs as' in (ap (old_pair r ∷◌) ih.0, ap (new_pair a ∷◌) ih.1)

removed-run :
    (ls : List ParsedDiffLine)
    → (old_lines ls ≡ map old_pair (run_of is_removed ls) ++ old_lines (after_run is_removed ls))
      × (new_lines ls ≡ new_lines (after_run is_removed ls))
      × (length (after_run is_removed ls) ≤ length ls)
removed-run [] = (refl, refl, omega arith)
removed-run (l ∷ ls) = ground (arith, removed-run ls)

added-run :
    (ls : List ParsedDiffLine)
    → (new_lines ls ≡ map new_pair (run_of is_added ls) ++ new_lines (after_run is_added ls))
      × (old_lines ls ≡ old_lines (after_run is_added ls))
      × (length (after_run is_added ls) ≤ length ls)
added-run [] = (refl, refl, omega arith)
added-run (l ∷ ls) = ground (arith, added-run ls)

abbrev Shows : List SideBySideDiffRow → List ParsedDiffLine → Type 0
Shows rows lines = (old_cells rows ≡ old_lines lines) × (new_cells rows ≡ new_lines lines)

-- The rows of a replacement show the runs of removals and additions that they pair.
Shows-replacement :
    (r : ParsedDiffLine) (ls : List ParsedDiffLine) (rows : List SideBySideDiffRow)
    → Shows rows (after_run is_added (after_run is_removed ls))
    → (old_cells
          (paired (r ∷ run_of is_removed ls) (run_of is_added (after_run is_removed ls)) ++ rows)
        ≡ old_pair r ∷ old_lines ls)
      × (new_cells
            (paired (r ∷ run_of is_removed ls) (run_of is_added (after_run is_removed ls)) ++ rows)
          ≡ new_lines ls)
Shows-replacement r ls rows h =
    let first = removed-run ls in
    let second = added-run (after_run is_removed ls) in
    let pairs =
      cells-paired (r ∷ run_of is_removed ls) (run_of is_added (after_run is_removed ls)) in
    let here = paired (r ∷ run_of is_removed ls) (run_of is_added (after_run is_removed ls)) in
    (
      old_cells-append here rows
          ∙ ap₂ ◌++◌ pairs.0 (h.0 ∙ sym second.1)
          ∙ ap (old_pair r ∷◌) (sym first.0),
      new_cells-append here rows ∙ ap₂ ◌++◌ pairs.1 h.1 ∙ sym second.0 ∙ sym first.1,
    )

rows_from-Shows :
    (fuel : ℕ) (lines : List ParsedDiffLine)
    → length lines < fuel
    → Shows (rows_from fuel lines) lines
unfolding rows_from
rows_from-Shows zero lines h = elim h [ ]
rows_from-Shows (suc fuel) [] h = (refl, refl)
rows_from-Shows (suc fuel) (l ∷ ls) h = ground (
  arith,
  rows_from-Shows fuel ls (omega arith),
  Shows-replacement l ls (rows_from fuel (after_run is_added (after_run is_removed ls))) (
      rows_from-Shows fuel (after_run is_added (after_run is_removed ls))
        (omega (arith, (removed-run ls).2, (added-run (after_run is_removed ls)).2))),
)

-- The left cells of the rows are the context and removed lines of the diff, and the right cells its
-- context and added lines, each with its number, in order, and none is lost.
pub build_side_by_side_diff_rows-Shows :
    (lines : List ParsedDiffLine)
    → (old_cells (build_side_by_side_diff_rows lines) ≡ old_lines lines)
      × (new_cells (build_side_by_side_diff_rows lines) ≡ new_lines lines)
unfolding build_side_by_side_diff_rows
build_side_by_side_diff_rows-Shows lines = rows_from-Shows (suc (length lines)) lines (omega arith)
