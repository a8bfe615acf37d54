-- ===== src/LineDiff/Tests.antt =====
-- The line diff of two small files, and its theorems there.
use vivi.Base.{◌≤◌, ◌≡◌, refl, List, [], ◌∷◌, codes, ◌==◌, arith, length}
use vivi.Base.Strings.{Text}
use vivi.LineDiff.{context, remove, add, build_interleaved_line_diff}
use vivi.LineDiff.Common.{Common, both, skip_old, skip_new, done}
use vivi.LineDiff.Sides.{old_side, new_side, numbered, build_interleaved_line_diff_sides}
use vivi.LineDiff.Longest.{contexts, build_interleaved_line_diff_longest}

abbrev olds : List Text
olds = codes "a" ∷ codes "b" ∷ codes "c" ∷ []

abbrev news : List Text
news = codes "a" ∷ codes "x" ∷ codes "c" ∷ codes "d" ∷ []

diff_of_small :
    build_interleaved_line_diff olds news
    ≡ context (codes "a") 1 1
      ∷ remove (codes "b") 2
      ∷ add (codes "x") 2
      ∷ context (codes "c") 3 3
      ∷ add (codes "d") 4
      ∷ []
unfolding build_interleaved_line_diff ◌==◌
diff_of_small = refl

build_interleaved_line_diff_sides_example :
    (old_side (build_interleaved_line_diff olds news) ≡ numbered 0 olds)
    × (new_side (build_interleaved_line_diff olds news) ≡ numbered 0 news)
build_interleaved_line_diff_sides_example = build_interleaved_line_diff_sides olds news

Common-a_c : Common (codes "a" ∷ codes "c" ∷ []) olds news
Common-a_c = both refl refl (skip_old (skip_new (both refl refl done)))

build_interleaved_line_diff_longest_example :
    length (codes "a" ∷ codes "c" ∷ []) ≤ contexts (build_interleaved_line_diff olds news)
build_interleaved_line_diff_longest_example =
    build_interleaved_line_diff_longest olds news (codes "a" ∷ codes "c" ∷ []) (omega arith)
      Common-a_c
