-- ===== src/DiffView/Stat.antt =====
-- The counts of a diff are those of the operations that the server wrote.
use vivi.Base.{◌≡◌, refl, false, List, [], ◌∷◌, map, codes, starts_with, count, All, arith}
use vivi.Base.Strings.{Text}
use vivi.LineDiff.{DiffOp, build_interleaved_line_diff}
use vivi.LineDiff
use vivi.ChangeReview.{format_diff_op, build_full_file_diff_lines, is_add, is_remove}
use vivi.DiffView.{count_diff_lines}

-- No removed line begins with "--" and no added line with "++".
abbrev pub IsCounted : DiffOp → Type 0
IsCounted (LineDiff.context l m n) = Unit {0}
IsCounted (LineDiff.remove l m) = starts_with l (codes "--") ≡ false
IsCounted (LineDiff.add l n) = starts_with l (codes "++") ≡ false

count-ops :
    (ops : List DiffOp)
    → All IsCounted ops
    → ((count_diff_lines (map format_diff_op ops)).additions ≡ count is_add ops)
      × ((count_diff_lines (map format_diff_op ops)).deletions ≡ count is_remove ops)
unfolding count_diff_lines format_diff_op
count-ops [] h = (refl, refl)
count-ops (LineDiff.context l m n ∷ ops) h =
    let ih = count-ops ops h.1 in (omega (arith, ih.0), omega (arith, ih.1))
count-ops (LineDiff.remove l m ∷ ops) h =
    let ih = count-ops ops h.1 in rw h.0 (omega (arith, ih.0), omega (arith, ih.1))
count-ops (LineDiff.add l n ∷ ops) h =
    let ih = count-ops ops h.1 in rw h.0 (omega (arith, ih.0), omega (arith, ih.1))

-- The additions and deletions that are counted in the server's diff of two files are those of the
-- line diff, when no removed line begins with "--" and no added one with "++".
pub count_diff_lines-build_full_file_diff_lines :
    (olds news : List Text)
    → All IsCounted (build_interleaved_line_diff olds news)
    → ((count_diff_lines (build_full_file_diff_lines olds news)).additions
        ≡ count is_add (build_interleaved_line_diff olds news))
      × ((count_diff_lines (build_full_file_diff_lines olds news)).deletions
          ≡ count is_remove (build_interleaved_line_diff olds news))
unfolding build_full_file_diff_lines count_diff_lines
count_diff_lines-build_full_file_diff_lines olds news h =
    count-ops (build_interleaved_line_diff olds news) h
