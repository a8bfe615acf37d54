-- ===== src/DiffView/Tests.antt =====
-- The diff of two small files, written and read.
use vivi.Base.{◌≡◌, refl, none, List, [], ◌∷◌, ◌==◌, map, All, codes}
use vivi.Base.Strings.{Text}
use vivi.LineDiff.{build_interleaved_line_diff}
use vivi.ChangeReview.{hunk_header, build_full_file_diff_lines}
use vivi.DiffView.{ParsedDiffLine, hunk, parse_lines}
use vivi.DiffView.SideBySide.{build_side_by_side_diff_rows}
use vivi.DiffView.Stat.{IsCounted}
use vivi.DiffView.Rows.{
  old_cells, new_cells, old_lines, new_lines, build_side_by_side_diff_rows-Shows,
}
use vivi.DiffView.Shown.{shown, IsQuiet, parse_lines-build_full_file_diff_lines}

abbrev before : List Text
before = codes "a" ∷ codes "b" ∷ []

abbrev after : List Text
after = codes "a" ∷ codes "c" ∷ codes "d" ∷ []

quiet : All IsQuiet (build_interleaved_line_diff before after)
unfolding build_interleaved_line_diff ◌==◌
quiet = (tt, (refl, (refl, (refl, tt))))

parse_lines-build_full_file_diff_lines_example :
    parse_lines none 0 0 0 (build_full_file_diff_lines before after)
    ≡ record { kind = hunk; text = hunk_header 2 3; old_line = none; new_line = none }
      ∷ map shown (build_interleaved_line_diff before after)
parse_lines-build_full_file_diff_lines_example =
    parse_lines-build_full_file_diff_lines before after 0 0 0 quiet

abbrev parsed : List ParsedDiffLine
parsed = map shown (build_interleaved_line_diff before after)

build_side_by_side_diff_rows-Shows_example :
    (old_cells (build_side_by_side_diff_rows parsed) ≡ old_lines parsed)
    × (new_cells (build_side_by_side_diff_rows parsed) ≡ new_lines parsed)
build_side_by_side_diff_rows-Shows_example = build_side_by_side_diff_rows-Shows parsed

counted : All IsCounted (build_interleaved_line_diff before after)
unfolding build_interleaved_line_diff ◌==◌
counted = (tt, (refl, (refl, (refl, tt))))
